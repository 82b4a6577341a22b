-- ===== src/Json/RoundTrip/Rounds.antt =====
-- src/json.cpp: the rounds of the loops of the parser over printed elements.
use libnap.Base.{
  ℕ, zero, suc, ◌+◌, ◌*◌, ◌≤◌, List, [], ◌∷◌, ◌++◌, Bool, true, false, ◌==◌, ◌≡◌, inl, inr, refl,
  sym, ap, ◌∙◌, arith, length, length-append, append_assoc,
}
use Prim.{tt}
use libnap.Json.Results.{done}
use libnap.Json.{
  Node, node, Items, no_items, item, Fields, no_fields, field, null, integer, string, boolean,
  object, array,
}
use libnap.Json.Parser.{
  is_space, parse_object, parse_array, next_round, parse_value, object_loop, array_loop,
}
use libnap.Json.Text.{text, more_items, more_fields}
use libnap.Json.Map.{AllAfter, Apart, Apart-none, Apart-add_last, join, join_last}
use libnap.Json.Reading.{Rest, past, skip_here, at_here, IsClean, Stops}
use libnap.Json.RoundTrip.{IsCanonical, Reads}
use libnap.Json.RoundTrip.Loops.{
  join_items, join_items_last, object_of, array_of, append_item_array, pair_read,
}

module _ (to_bool : List ℕ → Bool) (reads_one : to_bool (49 ∷ []) ≡ true)
    (reads_zero : to_bool (48 ∷ []) ≡ false) where
  abbrev pub Read : Node → Type 0
  Read n = Reads to_bool reads_one reads_zero n

  Stops-more_items : (xs : Items) (rest : List ℕ) → Stops (more_items to_bool xs ++ rest)
  unfolding text
  Stops-more_items no_items rest = refl
  Stops-more_items (item n xs) rest = refl

  Stops-more_fields : (fs : Fields) (rest : List ℕ) → Stops (more_fields to_bool fs ++ rest)
  unfolding text
  Stops-more_fields no_fields rest = refl
  Stops-more_fields (field k n fs) rest = refl

  -- The loops read the rest of an array, and of an object, behind elements that they have read.
  abbrev pub ReadsItems : Items → Type 0
  ReadsItems xs =
      (f pos : ℕ) (json rest : List ℕ) (acc : Items)
      → Rest json pos (more_items to_bool xs ++ rest)
      → 2 * length (more_items to_bool xs ++ rest) ≤ f
      → next_round json 93 (array_loop json f) pos (array_of acc)
        ≡ done (pos + length (more_items to_bool xs), array_of (join_items acc xs))

  abbrev pub ReadsFields : Fields → Type 0
  ReadsFields fs =
      (f pos : ℕ) (json rest : List ℕ) (acc : Fields)
      → Apart acc fs
      → Rest json pos (more_fields to_bool fs ++ rest)
      → 2 * length (more_fields to_bool fs ++ rest) ≤ f
      → next_round json 125 (object_loop json f) pos (object_of acc)
        ≡ done (pos + length (more_fields to_bool fs), object_of (join acc fs))

  pub values_round :
      (n : Node) (xs : Items)
      → Read n
      → ReadsItems xs
      → (f pos : ℕ) (json rest : List ℕ) (acc : Items)
      → Rest json pos (text to_bool n ++ (more_items to_bool xs ++ rest))
      → 2 * length (text to_bool n ++ (more_items to_bool xs ++ rest)) + 2 ≤ f
      → array_loop json f pos (array_of acc)
        ≡ done (
          pos + length (text to_bool n) + length (more_items to_bool xs),
          array_of (join_items acc (item n xs)),
        )
  unfolding parse_value
  values_round n xs reads more zero pos json rest acc h enough = absurd (omega arith)
  values_round n xs reads more (suc f) pos json rest acc h enough =
      let after = more_items to_bool xs ++ rest in
      rw
        (
          reads f pos json after h (Stops-more_items xs rest) (omega (arith, enough)),
          append_item_array n acc,
        )
        (more f (pos + length (text to_bool n)) json rest _
            (past json pos (text to_bool n) after _ refl h)
            (omega (arith, enough, length-append (text to_bool n) after))
          ∙ ap
              (λ l.
                done (pos + length (text to_bool n) + length (more_items to_bool xs), array_of l))
              (join_items_last acc n xs))

  pub pairs_round :
      (k : List ℕ) (n : Node) (fs : Fields)
      → IsClean k
      → Read n
      → ReadsFields fs
      → (f pos : ℕ) (json rest : List ℕ) (acc : Fields) → Apart acc (field k n fs)
      → AllAfter k fs
      → let after = text to_bool n ++ (more_fields to_bool fs ++ rest) in
        Rest json pos (34 ∷ (k ++ 34 ∷ 58 ∷ after))
        → 2 * (length k + 3 + length after) + 2 ≤ f
        → object_loop json f pos (object_of acc)
          ≡ done (
            pos + (length k + 3) + length (text to_bool n) + length (more_fields to_bool fs),
            object_of (join acc (field k n fs)),
          )
  unfolding parse_value
  pairs_round k n fs clean reads more zero pos json rest acc apart above h enough =
      absurd (omega arith)
  pairs_round k n fs clean reads more (suc f) pos json rest acc apart above h enough =
      let after = more_fields to_bool fs ++ rest in
      let start = pos + (length k + 3) in
      let inner : Rest json start (text to_bool n ++ after) =
        past json pos (34 ∷ (k ++ 34 ∷ 58 ∷ [])) (text to_bool n ++ after) start
          (omega (arith, length-append k (34 ∷ 58 ∷ [])))
          (h ∙ ap (λ l. 34 ∷ l) (sym (append_assoc k (34 ∷ 58 ∷ []) (text to_bool n ++ after)))) in
      rw
        (pair_read json pos (parse_value json f) k n acc (text to_bool n ++ after) _ clean apart.0 h
          (reads f start json after inner (Stops-more_fields fs rest) (omega (arith, enough))))
        (more f (start + length (text to_bool n)) json rest _
            (Apart-add_last acc k n fs apart.1 above)
            (past json start (text to_bool n) after _ refl inner)
            (omega (arith, enough, length-append (text to_bool n) after))
          ∙ ap
              (λ l.
                done
                  (start + length (text to_bool n) + length (more_fields to_bool fs), object_of l))
              (join_last acc k n fs))

  -- No value begins with a space or a closing bracket.
  pub first_byte :
      (n : Node)
      → IsCanonical n
      → (c : ℕ) × (r : List ℕ) × (text to_bool n ≡ c ∷ r)
        × (is_space c ≡ false)
        × ((c == 93) ≡ false)
  unfolding text IsCanonical
  first_byte (node null fs xs v) h = (_, _, refl, refl, refl)
  first_byte (node integer fs xs []) h = absurd h.2
  first_byte (node integer fs xs (c ∷ v)) h = (c, v, refl, ground arith, ground arith)
  first_byte (node string fs xs v) h = (_, _, refl, refl, refl)
  first_byte (node boolean fs xs v) (a, b, inl one) =
      (116, 114 ∷ 117 ∷ 101 ∷ [], rw (one, reads_one) refl, refl, refl)
  first_byte (node boolean fs xs v) (a, b, inr zero_text) =
      (102, 97 ∷ 108 ∷ 115 ∷ 101 ∷ [], rw (zero_text, reads_zero) refl, refl, refl)
  first_byte (node object fs xs v) h = (_, _, refl, refl, refl)
  first_byte (node array fs xs v) h = (_, _, refl, refl, refl)

  module _ (json rest : List ℕ) (pos f : ℕ) where
    pub array_none :
        Rest json pos (91 ∷ 93 ∷ rest)
        → parse_array json (array_loop json f) pos (array_of no_items)
          ≡ done (pos + 2, array_of no_items)
    unfolding parse_array
    array_none h =
        let inner = past json pos (91 ∷ []) (93 ∷ rest) (pos + 1) refl h in
        rw (skip_here json (pos + 1) 93 rest inner refl, at_here json (pos + 1) 93 rest inner)
          (ap (λ p. done (p, array_of no_items)) (omega arith))

    pub object_none :
        Rest json pos (123 ∷ 125 ∷ rest)
        → parse_object json (object_loop json f) pos (object_of no_fields)
          ≡ done (pos + 2, object_of no_fields)
    unfolding parse_object
    object_none h =
        let inner = past json pos (123 ∷ []) (125 ∷ rest) (pos + 1) refl h in
        rw (skip_here json (pos + 1) 125 rest inner refl, at_here json (pos + 1) 125 rest inner)
          (ap (λ p. done (p, object_of no_fields)) (omega arith))

    pub array_some :
        (n : Node) (xs : Items)
        → IsCanonical n
        → Read n
        → ReadsItems xs
        → Rest json pos (91 ∷ (text to_bool n ++ (more_items to_bool xs ++ rest)))
        → 2 * length (text to_bool n ++ (more_items to_bool xs ++ rest)) + 2 ≤ f
        → parse_array json (array_loop json f) pos (array_of no_items)
          ≡ done (
            pos + 1 + length (text to_bool n) + length (more_items to_bool xs),
            array_of (item n xs),
          )
    unfolding parse_array
    array_some n xs ok reads more h enough =
        let (c, r, e, no_space, no_close) = first_byte n ok in
        let after = more_items to_bool xs ++ rest in
        let inner = past json pos (91 ∷ []) (text to_bool n ++ after) (pos + 1) refl h in
        let front : Rest json (pos + 1) (c ∷ (r ++ after)) = inner ∙ ap (λ l. l ++ after) e in
        rw (skip_here json (pos + 1) c _ front no_space, at_here json (pos + 1) c _ front, no_close)
          (values_round n xs reads more f (pos + 1) json rest no_items inner enough)

    pub object_some :
        (k : List ℕ) (n : Node) (fs : Fields)
        → IsClean k
        → Read n
        → ReadsFields fs
        → AllAfter k fs
        → let after = text to_bool n ++ (more_fields to_bool fs ++ rest) in
          Rest json pos (123 ∷ 34 ∷ (k ++ 34 ∷ 58 ∷ after))
          → 2 * (length k + 3 + length after) + 2 ≤ f
          → parse_object json (object_loop json f) pos (object_of no_fields)
            ≡ done (
              pos + 1 + (length k + 3) + length (text to_bool n) + length (more_fields to_bool fs),
              object_of (field k n fs),
            )
    unfolding parse_object
    object_some k n fs clean reads more above h enough =
        let inner = past json pos (123 ∷ []) _ (pos + 1) refl h in
        rw (skip_here json (pos + 1) 34 _ inner refl, at_here json (pos + 1) 34 _ inner)
          (pairs_round k n fs clean reads more f (pos + 1) json rest no_fields (tt, Apart-none fs)
            above inner enough)
