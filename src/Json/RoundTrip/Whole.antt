-- ===== src/Json/RoundTrip/Whole.antt =====
-- src/json.cpp: `stringify` followed by `parse`.
use libnap.Base.{
  ℕ, ◌+◌, ◌-◌, ◌*◌, ◌<◌, List, [], ◌∷◌, ◌++◌, some, Bool, true, false, ◌==◌, ◌≡◌, refl, sym, ap,
  arith, length, length-append, append-nil, ne→not-==,
}
use Prim.{Unit}
use libnap.Json.Results.{done}
use libnap.Json.{
  JsonType, type_of, Node, node, fresh, Items, no_items, item, Fields, no_fields, field, null,
  integer, string, boolean, object, array,
}
use libnap.Json.Parser.{
  first, parse_object, parse_array, object_loop, array_loop, caught, parse_root, parse,
}
use libnap.Json.Printer.{stringify}
use libnap.Json.Text.{text, more_items, more_fields, strify_value_lem}
use libnap.Json.Map.{IsSorted}
use libnap.Json.Reading.{skip_here}
use libnap.Json.RoundTrip.{IsCanonical, AllCanonical, AreCanonical}
use libnap.Json.RoundTrip.Rounds.{first_byte, array_none, object_none, array_some, object_some}
use libnap.Json.RoundTrip.Loops.{object_of, array_of}
use libnap.Json.RoundTrip.Canonical.{canonical-Reads, canonical-ReadsItems, canonical-ReadsFields}

-- `parse` of a text that begins with a bracket and is longer.
module _ (r : List ℕ) (some_left : 0 < length r) (p : ℕ) (n : Node) where
  longer : (length (0 ∷ r) - 0 == 0) ≡ false
  longer = ne→not-== _ 0 (omega arith)

  longer_still : (length (0 ∷ r) - 0 == 1) ≡ false
  longer_still = ne→not-== _ 1 (omega (arith, some_left))

  array_parsed :
      let json = 91 ∷ r in
      parse_array json (array_loop json (2 * length json + 2)) 0 (array_of no_items) ≡ done (p, n)
      → parse json fresh ≡ done (true, n)
  unfolding parse parse_root caught first
  array_parsed h = rw (skip_here (91 ∷ r) 0 91 r refl refl, longer, longer_still, h) refl

  object_parsed :
      let json = 123 ∷ r in
      parse_object json (object_loop json (2 * length json + 2)) 0 (object_of no_fields)
        ≡ done (p, n)
      → parse json fresh ≡ done (true, n)
  unfolding parse parse_root caught first
  object_parsed h = rw (skip_here (123 ∷ r) 0 123 r refl refl, longer, longer_still, h) refl

-- The nodes that `stringify` prints as they are.
abbrev pub IsContainer : JsonType → Type 0
IsContainer object = Unit
IsContainer array = Unit
IsContainer null = ⊥
IsContainer integer = ⊥
IsContainer string = ⊥
IsContainer boolean = ⊥

module _ (to_bool : List ℕ → Bool) (reads_one : to_bool (49 ∷ []) ≡ true)
    (reads_zero : to_bool (48 ∷ []) ≡ false) where
  parsed_array :
      (xs : Items)
      → AllCanonical xs
      → parse (text to_bool (array_of xs)) fresh ≡ done (true, array_of xs)
  unfolding text AllCanonical
  parsed_array no_items all =
      array_parsed (93 ∷ []) (omega arith) _ _
        (array_none to_bool reads_one reads_zero (91 ∷ 93 ∷ []) [] 0 6 refl)
  parsed_array (item n xs) (ok, all) =
      let value = text to_bool n in
      let more = more_items to_bool xs in
      let json = 91 ∷ (value ++ more) in
      let (c, r, e, no_space, no_close) = first_byte to_bool reads_one reads_zero n ok in
      array_parsed (value ++ more) (omega (arith, length-append value more, ap length e)) _ _ (
        array_some to_bool reads_one reads_zero json [] 0 (2 * length json + 2) n xs ok
          (canonical-Reads to_bool reads_one reads_zero n ok)
          (canonical-ReadsItems to_bool reads_one reads_zero xs all)
          (ap (λ l. 91 ∷ (value ++ l)) (sym (append-nil more)))
          (omega (arith, ap (λ l. length (value ++ l)) (append-nil more))))

  parsed_object :
      (fs : Fields)
      → IsSorted fs
      → AreCanonical fs
      → parse (text to_bool (object_of fs)) fresh ≡ done (true, object_of fs)
  unfolding text AreCanonical
  parsed_object no_fields sorted all =
      object_parsed (125 ∷ []) (omega arith) _ _
        (object_none to_bool reads_one reads_zero (123 ∷ 125 ∷ []) [] 0 6 refl)
  parsed_object (field k n fs) (above, sorted) (clean, ok, all) =
      let value = text to_bool n in
      let more = more_fields to_bool fs in
      let body = k ++ 34 ∷ 58 ∷ (value ++ more) in
      let json = 123 ∷ 34 ∷ body in
      object_parsed (34 ∷ body) (omega arith) _ _ (
        object_some to_bool reads_one reads_zero json [] 0 (2 * length json + 2) k n fs clean
          (canonical-Reads to_bool reads_one reads_zero n ok)
          (canonical-ReadsFields to_bool reads_one reads_zero fs sorted all) above
          (ap (λ l. 123 ∷ 34 ∷ (k ++ 34 ∷ 58 ∷ (value ++ l))) (sym (append-nil more)))
          (omega (
            arith,
            ap (λ l. length (value ++ l)) (append-nil more),
            length-append k (34 ∷ 58 ∷ (value ++ more)),
          )))

  -- For an array or an object in canonical form, `stringify` returns a text, and `parse` of this
  -- text into a new root returns true and the same node. In canonical form, values have no children
  -- and containers no value of their own; the keys of an object are in order, each once, and have no
  -- quote and no backslash; a string has no backslash, zero or end of a line; a number is of minus
  -- signs, digits and points, the first no point; null is without a text; and a Boolean value is the
  -- text of one or of zero, which the standard library's streams read as true and as false.
  pub json_round_trip :
      (n : Node)
      → IsContainer (type_of n)
      → IsCanonical n
      → (out : List ℕ) × (stringify to_bool n ≡ some out) × (parse out fresh ≡ done (true, n))
  unfolding stringify IsCanonical
  json_round_trip (node null fs xs v) c h = absurd c
  json_round_trip (node integer fs xs v) c h = absurd c
  json_round_trip (node string fs xs v) c h = absurd c
  json_round_trip (node boolean fs xs v) c h = absurd c
  json_round_trip (node object fs xs v) c (a, b, sorted, all) = (
    text to_bool (node object fs xs v),
    ap some (strify_value_lem to_bool (node object fs xs v) []),
    rw (a, b) (parsed_object fs sorted all),
  )
  json_round_trip (node array fs xs v) c (a, b, all) = (
    text to_bool (node array fs xs v),
    ap some (strify_value_lem to_bool (node array fs xs v) []),
    rw (a, b) (parsed_array xs all),
  )
