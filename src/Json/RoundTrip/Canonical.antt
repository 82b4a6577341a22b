-- ===== src/Json/RoundTrip/Canonical.antt =====
-- src/json.cpp: what the parser makes of the printed text of a whole tree, by its structure.
use libnap.Base.{
  ℕ, zero, suc, ◌+◌, List, [], ◌∷◌, ◌++◌, Bool, true, false, ◌≡◌, inl, inr, refl, sym, ap, ◌∙◌,
  arith, length, length-append, append_assoc,
}
use libnap.Json.Results.{done}
use libnap.Json.{
  Node, node, fresh, Items, no_items, item, Fields, no_fields, field, null, integer, string,
  boolean, object, array,
}
use libnap.Json.Parser.{lead_of, parse_lead, object_loop, array_loop}
use libnap.Json.Text.{text, more_items, more_fields}
use libnap.Json.Map.{IsSorted, AllAfter, join, join_none}
use libnap.Json.Reading.{past, value_here, IsClean}
use libnap.Json.RoundTrip.{
  IsCanonical, AllCanonical, AreCanonical, Reads, Reads-null, Reads-true, Reads-false, Reads-string,
  Reads-number,
}
use libnap.Json.RoundTrip.Rounds
use libnap.Json.RoundTrip.Rounds.{
  first_byte, values_round, pairs_round, array_none, object_none, array_some, object_some,
}
use libnap.Json.RoundTrip.Loops.{join_items, join_items_none, object_of, array_of, closes, goes_on}

module _ (to_bool : List ℕ → Bool) (reads_one : to_bool (49 ∷ []) ≡ true)
    (reads_zero : to_bool (48 ∷ []) ≡ false) where
  abbrev Read : Node → Type 0
  Read n = Reads to_bool reads_one reads_zero n

  abbrev ReadsItems : Items → Type 0
  ReadsItems xs = Rounds.ReadsItems to_bool reads_one reads_zero xs

  abbrev ReadsFields : Fields → Type 0
  ReadsFields fs = Rounds.ReadsFields to_bool reads_one reads_zero fs

  Reads-array_none : Read (array_of no_items)
  unfolding text parse_lead lead_of
  Reads-array_none zero pos json rest h s enough = absurd (omega arith)
  Reads-array_none (suc f) pos json rest h s enough =
      value_here json pos 91 _ f fresh h refl
      ∙ array_none to_bool reads_one reads_zero json rest pos f h

  Reads-object_none : Read (object_of no_fields)
  unfolding text parse_lead lead_of
  Reads-object_none zero pos json rest h s enough = absurd (omega arith)
  Reads-object_none (suc f) pos json rest h s enough =
      value_here json pos 123 _ f fresh h refl
      ∙ object_none to_bool reads_one reads_zero json rest pos f h

  Reads-array :
      (n : Node) (xs : Items) → IsCanonical n → Read n → ReadsItems xs → Read (array_of (item n xs))
  unfolding text parse_lead lead_of
  Reads-array n xs ok reads more zero pos json rest h s enough = absurd (omega arith)
  Reads-array n xs ok reads more (suc f) pos json rest h s enough =
      let shape = append_assoc (text to_bool n) (more_items to_bool xs) rest in
      value_here json pos 91 _ f fresh h refl
      ∙ array_some to_bool reads_one reads_zero json rest pos f n xs ok reads more
          (h ∙ ap (λ l. 91 ∷ l) shape) (omega (arith, enough, ap length shape))
      ∙ ap (λ p. done (p, array_of (item n xs)))
          (omega (arith, length-append (text to_bool n) (more_items to_bool xs)))

  Reads-object :
      (k : List ℕ) (n : Node) (fs : Fields)
      → IsClean k
      → AllAfter k fs
      → Read n
      → ReadsFields fs
      → Read (object_of (field k n fs))
  unfolding text parse_lead lead_of
  Reads-object k n fs clean above reads more zero pos json rest h s enough = absurd (omega arith)
  Reads-object k n fs clean above reads more (suc f) pos json rest h s enough =
      let value = text to_bool n in
      let shape : (k ++ 34 ∷ 58 ∷ (value ++ more_fields to_bool fs)) ++ rest
          ≡ k ++ 34 ∷ 58 ∷ (value ++ (more_fields to_bool fs ++ rest)) =
        append_assoc k (34 ∷ 58 ∷ (value ++ more_fields to_bool fs)) rest
        ∙ ap (λ l. k ++ 34 ∷ 58 ∷ l) (append_assoc value (more_fields to_bool fs) rest) in
      let after = value ++ (more_fields to_bool fs ++ rest) in
      let sum = length-append k (34 ∷ 58 ∷ after) in
      value_here json pos 123 _ f fresh h refl
      ∙ object_some to_bool reads_one reads_zero json rest pos f k n fs clean reads more above
          (h ∙ ap (λ l. 123 ∷ 34 ∷ l) shape) (omega (arith, enough, ap length shape, sum))
      ∙ ap (λ p. done (p, object_of (field k n fs)))
          (omega (
            arith,
            length-append k (34 ∷ 58 ∷ (value ++ more_fields to_bool fs)),
            length-append value (more_fields to_bool fs),
          ))

  ReadsItems-none : ReadsItems no_items
  unfolding text
  ReadsItems-none f pos json rest acc h enough =
      closes json pos 93 (array_loop json f) (array_of acc) rest h refl refl
      ∙ ap (λ l. done (pos + 1, array_of l)) (sym (join_items_none acc))

  ReadsItems-some : (n : Node) (xs : Items) → Read n → ReadsItems xs → ReadsItems (item n xs)
  unfolding text
  ReadsItems-some n xs reads more f pos json rest acc h enough =
      let shape = append_assoc (text to_bool n) (more_items to_bool xs) rest in
      let from = h ∙ ap (λ l. 44 ∷ l) shape in
      goes_on json pos 93 (array_loop json f) (array_of acc) _ from
      ∙ values_round to_bool reads_one reads_zero n xs reads more f (pos + 1) json rest acc
          (past json pos (44 ∷ []) _ (pos + 1) refl from) (omega (arith, enough, ap length shape))
      ∙ ap (λ p. done (p, array_of (join_items acc (item n xs))))
          (omega (arith, length-append (text to_bool n) (more_items to_bool xs)))

  ReadsFields-none : ReadsFields no_fields
  unfolding text
  ReadsFields-none f pos json rest acc apart h enough =
      closes json pos 125 (object_loop json f) (object_of acc) rest h refl refl
      ∙ ap (λ l. done (pos + 1, object_of l)) (sym (join_none acc))

  ReadsFields-some :
      (k : List ℕ) (n : Node) (fs : Fields)
      → IsClean k
      → AllAfter k fs
      → Read n
      → ReadsFields fs
      → ReadsFields (field k n fs)
  unfolding text
  ReadsFields-some k n fs clean above reads more f pos json rest acc apart h enough =
      let value = text to_bool n in
      let shape : (k ++ 34 ∷ 58 ∷ (value ++ more_fields to_bool fs)) ++ rest
          ≡ k ++ 34 ∷ 58 ∷ (value ++ (more_fields to_bool fs ++ rest)) =
        append_assoc k (34 ∷ 58 ∷ (value ++ more_fields to_bool fs)) rest
        ∙ ap (λ l. k ++ 34 ∷ 58 ∷ l) (append_assoc value (more_fields to_bool fs) rest) in
      let after = value ++ (more_fields to_bool fs ++ rest) in
      let from = h ∙ ap (λ l. 44 ∷ 34 ∷ l) shape in
      goes_on json pos 125 (object_loop json f) (object_of acc) _ from
      ∙ pairs_round to_bool reads_one reads_zero k n fs clean reads more f (pos + 1) json rest acc
          apart above (past json pos (44 ∷ []) _ (pos + 1) refl from)
          (omega (arith, enough, ap length shape, length-append k (34 ∷ 58 ∷ after)))
      ∙ ap (λ p. done (p, object_of (join acc (field k n fs))))
          (omega (
            arith,
            length-append k (34 ∷ 58 ∷ (value ++ more_fields to_bool fs)),
            length-append value (more_fields to_bool fs),
          ))

  mutual
    unfolding IsCanonical

    pub canonical-Reads : (n : Node) → IsCanonical n → Read n
    canonical-Reads (node null fs xs v) (a, b, c) =
        rw (a, b, c) (Reads-null to_bool reads_one reads_zero)
    canonical-Reads (node integer fs xs v) (a, b, c) =
        rw (a, b) (Reads-number to_bool reads_one reads_zero v c)
    canonical-Reads (node string fs xs v) (a, b, c) =
        rw (a, b) (Reads-string to_bool reads_one reads_zero v c)
    canonical-Reads (node boolean fs xs v) (a, b, inl c) =
        rw (a, b, c) (Reads-true to_bool reads_one reads_zero)
    canonical-Reads (node boolean fs xs v) (a, b, inr c) =
        rw (a, b, c) (Reads-false to_bool reads_one reads_zero)
    canonical-Reads (node object no_fields xs v) (a, b, sorted, all) = rw (a, b) Reads-object_none
    canonical-Reads (node object (field k n fs) xs v) (a, b, (above, sorted), (clean, ok, all)) =
        rw (a, b)
          (Reads-object k n fs clean above (canonical-Reads n ok)
            (canonical-ReadsFields fs sorted all))
    canonical-Reads (node array fs no_items v) (a, b, all) = rw (a, b) Reads-array_none
    canonical-Reads (node array fs (item n xs) v) (a, b, (ok, all)) =
        rw (a, b) (Reads-array n xs ok (canonical-Reads n ok) (canonical-ReadsItems xs all))

    pub canonical-ReadsItems : (xs : Items) → AllCanonical xs → ReadsItems xs
    canonical-ReadsItems no_items all = ReadsItems-none
    canonical-ReadsItems (item n xs) (ok, all) =
        ReadsItems-some n xs (canonical-Reads n ok) (canonical-ReadsItems xs all)

    pub canonical-ReadsFields : (fs : Fields) → IsSorted fs → AreCanonical fs → ReadsFields fs
    canonical-ReadsFields no_fields sorted all = ReadsFields-none
    canonical-ReadsFields (field k n fs) (above, sorted) (clean, ok, all) =
        ReadsFields-some k n fs clean above (canonical-Reads n ok)
          (canonical-ReadsFields fs sorted all)
