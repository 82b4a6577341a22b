-- ===== src/Json/Printer.antt =====
-- src/json.h and src/json.cpp, class JsonStringify. The string that the functions append to is a
-- list of bytes. `to_bool` is `to<bool>`, which reads the value by the standard library's streams.
use libnap.Base.{
  ℕ, ◌-◌, List, [], ◌∷◌, ◌++◌, Option, some, none, Bool, ◌==◌, if◌then◌else◌, length, set,
}
use libnap.Json.{
  Node, node, Items, no_items, item, Fields, no_fields, field, null, integer, string, boolean,
  object, array, count_items, count_fields,
}

-- The loop over the bytes of a string.
unfoldable pub escaped : List ℕ → List ℕ → List ℕ
escaped [] str = str
escaped (c ∷ r) str = escaped r (if c == 34 then str ++ (92 ∷ 34 ∷ []) else str ++ (c ∷ []))

-- The end of `dealArray` and `dealObject`: the last comma becomes the bracket.
unfoldable pub close : ℕ → ℕ → List ℕ → List ℕ
close count c str = if count == 0 then str ++ (c ∷ []) else set str (length str - 1) c

abbrev pub true_text : List ℕ
true_text = 116 ∷ 114 ∷ 117 ∷ 101 ∷ []

abbrev pub false_text : List ℕ
false_text = 102 ∷ 97 ∷ 108 ∷ 115 ∷ 101 ∷ []

abbrev pub null_text : List ℕ
null_text = 110 ∷ 117 ∷ 108 ∷ 108 ∷ []

unfoldable mutual
  pub strify_value : (List ℕ → Bool) → Node → List ℕ → List ℕ
  strify_value to_bool (node null fs xs v) str = str ++ null_text
  strify_value to_bool (node integer fs xs v) str = str ++ v
  strify_value to_bool (node string fs xs v) str = escaped v (str ++ (34 ∷ [])) ++ (34 ∷ [])
  strify_value to_bool (node boolean fs xs v) str =
      str ++ (if to_bool v then true_text else false_text)
  strify_value to_bool (node object fs xs v) str =
      close (count_fields fs) 125 (strify_fields to_bool fs (str ++ (123 ∷ [])))
  strify_value to_bool (node array fs xs v) str =
      close (count_items xs) 93 (strify_items to_bool xs (str ++ (91 ∷ [])))

  -- The loops over the children.
  pub strify_items : (List ℕ → Bool) → Items → List ℕ → List ℕ
  strify_items to_bool no_items str = str
  strify_items to_bool (item n xs) str =
      strify_items to_bool xs (strify_value to_bool n str ++ (44 ∷ []))

  pub strify_fields : (List ℕ → Bool) → Fields → List ℕ → List ℕ
  strify_fields to_bool no_fields str = str
  strify_fields to_bool (field k n fs) str =
      strify_fields to_bool fs (
        strify_value to_bool n ((((str ++ (34 ∷ [])) ++ k) ++ (34 ∷ [])) ++ (58 ∷ [])) ++ (44 ∷ []))

-- `none` is the assertion at the end.
unfoldable pub stringify : (List ℕ → Bool) → Node → Option (List ℕ)
stringify to_bool (node null fs xs v) = some (123 ∷ 125 ∷ [])
stringify to_bool (node array fs xs v) = some (strify_value to_bool (node array fs xs v) [])
stringify to_bool (node object fs xs v) = some (strify_value to_bool (node object fs xs v) [])
stringify to_bool (node integer fs xs v) = none
stringify to_bool (node string fs xs v) = none
stringify to_bool (node boolean fs xs v) = none

-- `operator btring`
unfoldable pub as_text : (List ℕ → Bool) → Node → Option (List ℕ)
as_text to_bool (node null fs xs v) = some null_text
as_text to_bool (node boolean fs xs v) = some (if to_bool v then true_text else false_text)
as_text to_bool (node object fs xs v) = stringify to_bool (node object fs xs v)
as_text to_bool (node array fs xs v) = stringify to_bool (node array fs xs v)
as_text to_bool (node integer fs xs v) = some v
as_text to_bool (node string fs xs v) = some v
