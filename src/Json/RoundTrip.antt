-- ===== src/Json/RoundTrip.antt =====
-- src/json.cpp: what JsonStringify prints, JsonParser reads back.
pub mod Loops
pub mod Rounds
pub mod Canonical
pub mod Whole
use libnap.Base.{
  ℕ, zero, suc, ◌+◌, ◌-◌, ◌*◌, ◌≤◌, ◌<◌, List, [], ◌∷◌, ◌++◌, Option, some, none, Bool, true, false,
  ◌==◌, if◌then◌else◌, leb, ◌&&◌, ◌||◌, ◌≡◌, ◌⊎◌, inl, inr, refl, sym, ap, ◌∙◌, arith, length, drop,
  take, length-append, take-append, append_assoc, append-nil, ==_iff, eq→==, Bool-cases,
}
use Prim.{Unit, tt}
use libnap.Json.Results.{Outcome, done, json_error, out_of_range, ◌>>=◌}
use libnap.Json.{
  Node, node, fresh, Items, no_items, item, Fields, no_fields, field, null, integer, string,
  boolean, object, array, set_null, with_value,
}
use libnap.Json.Parser.{
  is_space, is_digit, is_number_char, is_word, string_len, string_bytes, streamed, number_len,
  lead_of, Lead, brace, bracket, letter_t, letter_f, letter_n, quote, other, parse_word,
  string_found, parse_string, parse_number, parse_lead, parse_value, object_loop, array_loop,
}
use libnap.Json.Printer.{null_text, true_text, false_text}
use libnap.Json.Text.{escape, text, items_text, more_items, fields_text, more_fields}
use libnap.Json.Map.{IsSorted, AllAfter}
use libnap.Json.Reading.{
  Rest, past, value_here, IsClean, IsKept, IsNumber, NumberChars, Stops, string_len-escape,
  string_bytes-escape, streamed-kept, is_word-front, number_len-front,
}

-- The values that the parser makes and the printer keeps apart: a container has no value of its own
-- and a value no children; the keys of an object are in order, each once, and have no quote and no
-- backslash; a number is the text of one; a string has no backslash, zero or end of a line.
unfoldable mutual
  pub IsCanonical : Node → Type 0
  IsCanonical (node null fs xs v) = (fs ≡ no_fields) × (xs ≡ no_items) × (v ≡ [])
  IsCanonical (node integer fs xs v) = (fs ≡ no_fields) × (xs ≡ no_items) × IsNumber v
  IsCanonical (node string fs xs v) = (fs ≡ no_fields) × (xs ≡ no_items) × IsKept v
  IsCanonical (node boolean fs xs v) =
      (fs ≡ no_fields) × (xs ≡ no_items) × ((v ≡ 49 ∷ []) ⊎ (v ≡ 48 ∷ []))
  IsCanonical (node object fs xs v) = (xs ≡ no_items) × (v ≡ []) × IsSorted fs × AreCanonical fs
  IsCanonical (node array fs xs v) = (fs ≡ no_fields) × (v ≡ []) × AllCanonical xs

  pub AllCanonical : Items → Type 0
  AllCanonical no_items = Unit
  AllCanonical (item n xs) = IsCanonical n × AllCanonical xs

  pub AreCanonical : Fields → Type 0
  AreCanonical no_fields = Unit
  AreCanonical (field k n fs) = IsClean k × IsCanonical n × AreCanonical fs

module _ (to_bool : List ℕ → Bool) (reads_one : to_bool (49 ∷ []) ≡ true)
    (reads_zero : to_bool (48 ∷ []) ≡ false) where
  -- With fuel for all of the text, the parser reads a printed value and stops behind it.
  abbrev pub Reads : Node → Type 0
  Reads n =
      (f pos : ℕ) (json rest : List ℕ)
      → Rest json pos (text to_bool n ++ rest)
      → Stops rest
      → 2 * length (text to_bool n ++ rest) + 1 ≤ f
      → parse_value json f pos fresh ≡ done (pos + length (text to_bool n), n)

  -- The first byte of a number.
  number_lead :
      (c : ℕ) → ((c == 45) || is_digit c) ≡ true → (is_space c ≡ false) × (lead_of c ≡ other)
  unfolding lead_of
  number_lead c h = (ground arith, ground arith)

  Reads-null : Reads fresh
  unfolding text parse_lead lead_of parse_word set_null
  Reads-null zero pos json rest h s enough = absurd (omega arith)
  Reads-null (suc f) pos json rest h s enough =
      value_here json pos 110 _ f fresh h refl
      ∙ rw
          (
            past json pos (110 ∷ []) (117 ∷ 108 ∷ 108 ∷ rest) (pos + 1) refl h,
            is_word-front (117 ∷ 108 ∷ 108 ∷ []) rest pos,
          )
          refl

  Reads-true : Reads (node boolean no_fields no_items (49 ∷ []))
  unfolding text parse_lead lead_of parse_word
  Reads-true zero pos json rest h s enough = absurd (omega arith)
  Reads-true (suc f) pos json rest h s enough =
      let h' = rw reads_one at h in
      value_here json pos 116 _ f fresh h' refl
      ∙ rw
          (
            reads_one,
            past json pos (116 ∷ []) (114 ∷ 117 ∷ 101 ∷ rest) (pos + 1) refl h',
            is_word-front (114 ∷ 117 ∷ 101 ∷ []) rest pos,
          )
          refl

  Reads-false : Reads (node boolean no_fields no_items (48 ∷ []))
  unfolding text parse_lead lead_of parse_word
  Reads-false zero pos json rest h s enough = absurd (omega arith)
  Reads-false (suc f) pos json rest h s enough =
      let h' = rw reads_zero at h in
      value_here json pos 102 _ f fresh h' refl
      ∙ rw
          (
            reads_zero,
            past json pos (102 ∷ []) (97 ∷ 108 ∷ 115 ∷ 101 ∷ rest) (pos + 1) refl h',
            is_word-front (97 ∷ 108 ∷ 115 ∷ 101 ∷ []) rest pos,
          )
          refl

  Reads-string : (v : List ℕ) → IsKept v → Reads (node string no_fields no_items v)
  unfolding text parse_lead lead_of parse_string string_found
  Reads-string v kept zero pos json rest h s enough = absurd (omega arith)
  Reads-string v kept (suc f) pos json rest h s enough =
      let inner : Rest json (pos + 1) (escape v ++ 34 ∷ rest) =
        past json pos (34 ∷ []) _ (pos + 1) refl h ∙ append_assoc (escape v) (34 ∷ []) rest in
      let len : string_len (escape v ++ 34 ∷ rest) 0 ≡ some (length (escape v)) =
        string_len-escape v rest 0 kept ∙ ap some (omega arith) in
      let total : pos + (length (escape v) + 2) ≡ pos + suc (length (escape v ++ 34 ∷ [])) =
        omega (arith, length-append (escape v) (34 ∷ [])) in
      value_here json pos 34 _ f fresh h refl
      ∙ rw
          (
            inner,
            len,
            inner,
            string_bytes-escape v (34 ∷ rest) pos kept,
            streamed-kept v kept,
            total,
          )
          refl

  Reads-number : (v : List ℕ) → IsNumber v → Reads (node integer no_fields no_items v)
  unfolding text parse_lead parse_number
  Reads-number [] number f pos json rest h s enough = absurd number
  Reads-number (c ∷ v) number zero pos json rest h s enough = absurd (omega arith)
  Reads-number (c ∷ v) number (suc f) pos json rest h s enough =
      let lead = number_lead c number.0 in
      value_here json pos c _ f fresh h lead.0
      ∙ rw
          (
            lead.1,
            h,
            number_len-front (c ∷ v) rest number s,
            number.0,
            take-append (length (c ∷ v)) (c ∷ v) rest refl,
          )
          refl
