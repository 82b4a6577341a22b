-- ===== src/Json/Text.antt =====
-- src/json.cpp, class JsonStringify: the text of a node, from left to right.
use libnap.Base.{
  ℕ, suc, ◌-◌, List, [], ◌∷◌, ◌++◌, Bool, false, ◌==◌, if◌then◌else◌, length, set, append_assoc,
  append-nil, length-snoc, ◌≡◌, refl, sym, ap, ◌∙◌, arith, ne→not-==, Bool-cases, inl, inr,
}
use libnap.Json.{
  Node, node, Items, no_items, item, Fields, no_fields, field, null, integer, string, boolean,
  object, array, count_items, count_fields,
}
use libnap.Json.Printer.{
  escaped, close, true_text, false_text, null_text, strify_value, strify_items, strify_fields,
}

abbrev pub escape : List ℕ → List ℕ
escape [] = []
escape (c ∷ r) = if c == 34 then 92 ∷ 34 ∷ escape r else c ∷ escape r

unfoldable mutual
  pub text : (List ℕ → Bool) → Node → List ℕ
  text to_bool (node null fs xs v) = null_text
  text to_bool (node integer fs xs v) = v
  text to_bool (node string fs xs v) = 34 ∷ (escape v ++ 34 ∷ [])
  text to_bool (node boolean fs xs v) = if to_bool v then true_text else false_text
  text to_bool (node object fs xs v) = 123 ∷ fields_text to_bool fs
  text to_bool (node array fs xs v) = 91 ∷ items_text to_bool xs

  pub items_text : (List ℕ → Bool) → Items → List ℕ
  items_text to_bool no_items = 93 ∷ []
  items_text to_bool (item n xs) = text to_bool n ++ more_items to_bool xs

  pub more_items : (List ℕ → Bool) → Items → List ℕ
  more_items to_bool no_items = 93 ∷ []
  more_items to_bool (item n xs) = 44 ∷ (text to_bool n ++ more_items to_bool xs)

  pub fields_text : (List ℕ → Bool) → Fields → List ℕ
  fields_text to_bool no_fields = 125 ∷ []
  fields_text to_bool (field k n fs) =
      34 ∷ (k ++ 34 ∷ 58 ∷ (text to_bool n ++ more_fields to_bool fs))

  pub more_fields : (List ℕ → Bool) → Fields → List ℕ
  more_fields to_bool no_fields = 125 ∷ []
  more_fields to_bool (field k n fs) =
      44 ∷ 34 ∷ (k ++ 34 ∷ 58 ∷ (text to_bool n ++ more_fields to_bool fs))

escaped_lem : (l str : List ℕ) → escaped l str ≡ str ++ escape l
unfolding escaped
escaped_lem [] str = sym (append-nil str)
escaped_lem (c ∷ l) str = elim (Bool-cases (c == 34)) [
  | inl is_quote ↦
      rw is_quote
        (escaped_lem l (str ++ (92 ∷ 34 ∷ [])) ∙ append_assoc str (92 ∷ 34 ∷ []) (escape l))
  | inr plain ↦ rw plain (escaped_lem l (str ++ (c ∷ [])) ∙ append_assoc str (c ∷ []) (escape l))
]

-- The last byte replaced.
set_last :
    (s : List ℕ) (a b : ℕ) → set (s ++ (a ∷ [])) (length (s ++ (a ∷ [])) - 1) b ≡ s ++ (b ∷ [])
set_last [] a b = refl
set_last (x ∷ s) a b =
    let e : length (x ∷ (s ++ (a ∷ []))) - 1 ≡ suc (length (s ++ (a ∷ [])) - 1) =
      omega (arith, length-snoc s a) in
    rw e (ap (λ l. x ∷ l) (set_last s a b))

abbrev last_set : ℕ → List ℕ → List ℕ
last_set c s = set s (length s - 1) c

close_some : (n c : ℕ) (s : List ℕ) → close (suc n) c s ≡ last_set c s
unfolding close
close_some n c s = let e : (suc n == 0) ≡ false = ne→not-== _ _ (omega arith) in rw e refl

close_none : (c : ℕ) (s : List ℕ) → close 0 c s ≡ s ++ (c ∷ [])
unfolding close
close_none c s = refl

-- What stands in front of the value of a pair.
abbrev key_front : List ℕ → List ℕ → List ℕ
key_front s k = (((s ++ (34 ∷ [])) ++ k) ++ (34 ∷ [])) ++ (58 ∷ [])

pair_shape : (s k t u : List ℕ) → (key_front s k ++ t) ++ u ≡ s ++ 34 ∷ (k ++ 34 ∷ 58 ∷ (t ++ u))
pair_shape s k t u = simp append_assoc refl

module _ (to_bool : List ℕ → Bool) where
  -- The rest of a loop, a value first.
  values_lem :
      (s : List ℕ) (n : Node) (xs : Items)
      → strify_value to_bool n s ≡ s ++ text to_bool n
      → last_set 93 (strify_items to_bool xs ((s ++ text to_bool n) ++ (44 ∷ [])))
        ≡ (s ++ text to_bool n) ++ more_items to_bool xs
      → last_set 93 (strify_items to_bool xs (strify_value to_bool n s ++ (44 ∷ [])))
        ≡ s ++ (text to_bool n ++ more_items to_bool xs)
  values_lem s n xs h k =
      ap (λ l. last_set 93 (strify_items to_bool xs (l ++ (44 ∷ [])))) h
      ∙ k
      ∙ append_assoc s (text to_bool n) (more_items to_bool xs)

  pairs_lem :
      (s k : List ℕ) (n : Node) (fs : Fields)
      → let front = key_front s k in
        strify_value to_bool n front ≡ front ++ text to_bool n
        → last_set 125 (strify_fields to_bool fs ((front ++ text to_bool n) ++ (44 ∷ [])))
          ≡ (front ++ text to_bool n) ++ more_fields to_bool fs
        → last_set 125 (strify_fields to_bool fs (strify_value to_bool n front ++ (44 ∷ [])))
          ≡ s ++ 34 ∷ (k ++ 34 ∷ 58 ∷ (text to_bool n ++ more_fields to_bool fs))
  pairs_lem s k n fs h e =
      ap (λ l. last_set 125 (strify_fields to_bool fs (l ++ (44 ∷ [])))) h
      ∙ e
      ∙ pair_shape s k (text to_bool n) (more_fields to_bool fs)

  mutual
    unfolding text strify_value count_items count_fields

    pub strify_value_lem : (n : Node) (s : List ℕ) → strify_value to_bool n s ≡ s ++ text to_bool n
    strify_value_lem (node null fs xs v) s = refl
    strify_value_lem (node integer fs xs v) s = refl
    strify_value_lem (node string fs xs v) s =
        ap (λ l. l ++ (34 ∷ [])) (escaped_lem v (s ++ (34 ∷ []))) ∙ simp append_assoc refl
    strify_value_lem (node boolean fs xs v) s = refl
    strify_value_lem (node object no_fields xs v) s =
        close_none 125 (s ++ (123 ∷ [])) ∙ append_assoc s (123 ∷ []) (125 ∷ [])
    strify_value_lem (node object (field k n fs) xs v) s =
        close_some (count_fields fs) 125 (
          strify_fields to_bool fs
            (strify_value to_bool n (key_front (s ++ (123 ∷ [])) k) ++ (44 ∷ [])))
        ∙ pairs_lem (s ++ (123 ∷ [])) k n fs (strify_value_lem n (key_front (s ++ (123 ∷ [])) k))
            (strify_fields_lem fs (key_front (s ++ (123 ∷ [])) k ++ text to_bool n))
        ∙ append_assoc s (123 ∷ []) _
    strify_value_lem (node array fs no_items v) s =
        close_none 93 (s ++ (91 ∷ [])) ∙ append_assoc s (91 ∷ []) (93 ∷ [])
    strify_value_lem (node array fs (item n xs) v) s =
        close_some (count_items xs) 93
          (strify_items to_bool xs (strify_value to_bool n (s ++ (91 ∷ [])) ++ (44 ∷ [])))
        ∙ values_lem (s ++ (91 ∷ [])) n xs (strify_value_lem n (s ++ (91 ∷ [])))
            (strify_items_lem xs ((s ++ (91 ∷ [])) ++ text to_bool n))
        ∙ append_assoc s (91 ∷ []) _

    strify_items_lem :
        (xs : Items) (s : List ℕ)
        → last_set 93 (strify_items to_bool xs (s ++ (44 ∷ []))) ≡ s ++ more_items to_bool xs
    strify_items_lem no_items s = set_last s 44 93
    strify_items_lem (item n xs) s =
        values_lem (s ++ (44 ∷ [])) n xs (strify_value_lem n (s ++ (44 ∷ [])))
          (strify_items_lem xs ((s ++ (44 ∷ [])) ++ text to_bool n))
        ∙ append_assoc s (44 ∷ []) _

    strify_fields_lem :
        (fs : Fields) (s : List ℕ)
        → last_set 125 (strify_fields to_bool fs (s ++ (44 ∷ []))) ≡ s ++ more_fields to_bool fs
    strify_fields_lem no_fields s = set_last s 44 125
    strify_fields_lem (field k n fs) s =
        pairs_lem (s ++ (44 ∷ [])) k n fs (strify_value_lem n (key_front (s ++ (44 ∷ [])) k))
          (strify_fields_lem fs (key_front (s ++ (44 ∷ [])) k ++ text to_bool n))
        ∙ append_assoc s (44 ∷ []) _
