-- ===== src/Json/Fuel.antt =====
-- src/json.cpp: the parser comes to an end on every text, since each value takes a byte at least.
pub mod Scan
use libnap.Base.{
  ℕ, zero, suc, ◌+◌, ◌-◌, ◌*◌, ◌≤◌, ◌<◌, List, [], ◌∷◌, Option, some, none, Bool, true, false, ◌==◌,
  if◌then◌else◌, ltb, ◌&&◌, ◌||◌, ◌≡◌, ◌≢◌, refl, sym, ap, ◌∙◌, arith, length, drop, take,
  length-drop,
}
use Prim.{Unit, tt}
use mathlib.Core.Path.{subst}
use libnap.Json.Results.{
  Outcome, done, json_error, type_error, unknown_error, out_of_range, undefined, out_of_fuel, ◌>>=◌,
}
use libnap.Json.{
  Node, fresh, type_of, with_type, with_value, with_fields, fields_of, JsonType, object, array,
  string, boolean, integer, is_null, put, set_null, code_of, check_type, has, at_key, append_item,
}
use libnap.Json.Parser.{
  skip_from, skip_space, first, at, is_space, string_len, string_bytes, is_word, is_digit,
  is_number_char, number_len, streamed, Lead, brace, bracket, letter_t, letter_f, letter_n, quote,
  other, lead_of, Parse, parse_word, string_found, parse_string, key_found, parse_number,
  parse_object, parse_array, next_round, parse_kv, parse_lead, parse_value, object_loop, array_loop,
  caught, parse_root, parse,
}
use libnap.Json.Fuel.Scan.{
  Ensures, bind-Ensures, weaken-Ensures, if-Ensures, Any, Past, skip_from-Ensures, first-Ensures,
  string_bytes-Ensures, is_word-Ensures, check_type-Ensures, has-Ensures, at_key-Ensures,
  append_item-Ensures, some_number, key_found-Ensures,
}

module _ (json : List ℕ) where
  abbrev InText : ℕ → ℕ → Type 0
  InText pos p = (pos ≤ p) × (p < length json)

  skip_space-Ensures : (pos : ℕ) → Ensures (λ p. InText pos p) (skip_space json pos)
  skip_space-Ensures pos =
      weaken-Ensures (λ p. (pos ≤ p) × (p < pos + length (drop pos json))) (λ p. InText pos p)
        (skip_space json pos) (λ p h. omega (arith, h.0, h.1, length-drop pos json))
        (skip_from-Ensures (drop pos json) pos)

  -- Spaces, and the character behind them.
  skip_at-Ensures {ℓ} :
      {B : Type ℓ} (Q : B → Type 0) (pos : ℕ) (f : ℕ → ℕ → Outcome B)
      → ((p c : ℕ) → pos ≤ p → p < length json → Ensures Q (f p c))
      → Ensures Q (do p ← skip_space json pos; c ← at json p; f p c)
  skip_at-Ensures Q pos f h =
      bind-Ensures (λ p. InText pos p) Q (skip_space json pos) _ (skip_space-Ensures pos)
        (λ p k.
          bind-Ensures (λ c. 0 < length (drop p json)) Q (at json p) (f p)
            (first-Ensures (drop p json) p) (λ c l. h p c k.0 k.1))

  -- A value further on is past `pos` too.
  later : (pos q : ℕ) (r : Outcome (ℕ × Node)) → pos ≤ q → Past q r → Past pos r
  later pos q r h k = weaken-Ensures _ _ r (λ x l. omega (arith, h, l)) k

  abbrev Moves : ℕ → Parse → Type 0
  Moves pos loop = (p : ℕ) (m : Node) → pos ≤ p → p ≤ length json → Past p (loop p m)

  next_round-Past :
      (pos : ℕ) (n : Node) (c : ℕ) (loop : Parse)
      → Moves (pos + 1) loop
      → Past pos (next_round json c loop pos n)
  unfolding next_round
  next_round-Past pos n c loop h =
      skip_at-Ensures (λ (x : ℕ × Node). pos < x.0) pos _
        (λ p d k l.
          if-Ensures (λ (x : ℕ × Node). pos < x.0) (d == 44) _ _
            (later pos (p + 1) _ (omega (arith, k))
              (h (p + 1) n (omega (arith, k)) (omega (arith, l))))
            (if-Ensures (λ (x : ℕ × Node). pos < x.0) (d == c) _ _ (omega (arith, k)) tt))

  parse_object-Past :
      (pos : ℕ) (n : Node) (loop : Parse)
      → Moves (pos + 1) loop
      → Past pos (parse_object json loop pos n)
  unfolding parse_object
  parse_object-Past pos n loop h =
      skip_at-Ensures (λ (x : ℕ × Node). pos < x.0) (pos + 1) _
        (λ p d k l.
          if-Ensures (λ (x : ℕ × Node). pos < x.0) (d == 125) _ _ (omega (arith, k))
            (if-Ensures (λ (x : ℕ × Node). pos < x.0) (d == 34) _ _
              (later pos p _ (omega (arith, k)) (h p n k (omega (arith, l)))) tt))

  parse_array-Past :
      (pos : ℕ) (n : Node) (loop : Parse)
      → Moves (pos + 1) loop
      → Past pos (parse_array json loop pos n)
  unfolding parse_array
  parse_array-Past pos n loop h =
      skip_at-Ensures (λ (x : ℕ × Node). pos < x.0) (pos + 1) _
        (λ p d k l.
          if-Ensures (λ (x : ℕ × Node). pos < x.0) (d == 93) _ _ (omega (arith, k))
            (later pos p _ (omega (arith, k)) (h p n k (omega (arith, l)))))

  parse_word-Past : (word : List ℕ) (v n : Node) (pos : ℕ) → Past pos (parse_word json word v n pos)
  unfolding parse_word
  parse_word-Past word v n pos =
      bind-Ensures (λ b. Any b) (λ (x : ℕ × Node). pos < x.0)
        (is_word word (drop (pos + 1) json) pos) _ (is_word-Ensures word (drop (pos + 1) json) pos)
        (λ b h. if-Ensures (λ (x : ℕ × Node). pos < x.0) b _ _ (omega arith) tt)

  string_found-Past :
      (found : Option ℕ) (pos : ℕ) (n : Node) → Past pos (string_found json found pos n)
  unfolding string_found
  string_found-Past none pos n = tt
  string_found-Past (some len) pos n =
      bind-Ensures (λ l. Any l) (λ (x : ℕ × Node). pos < x.0)
        (string_bytes len (drop (pos + 1) json) pos) _
        (string_bytes-Ensures len (drop (pos + 1) json) pos) (λ l h. omega arith)

  parse_string-Past : (pos : ℕ) (n : Node) → Past pos (parse_string json pos n)
  unfolding parse_string
  parse_string-Past pos n = string_found-Past (string_len (drop (pos + 1) json) 0) pos n

  -- A number has its first character.
  parse_number-Past :
      (c pos : ℕ) (n : Node) → pos < length json → Past pos (parse_number json c pos n)
  unfolding parse_number
  parse_number-Past c pos n h =
      if-Ensures (λ (x : ℕ × Node). pos < x.0) ((c == 45) || is_digit c) _ _
        (omega (arith, some_number (drop pos json) (omega (arith, h, length-drop pos json)))) tt

  parse_kv-Past :
      (pos : ℕ) (n : Node) (value : Parse) → Moves pos value → Past pos (parse_kv json value pos n)
  unfolding parse_kv
  parse_kv-Past pos n value h =
      skip_at-Ensures (λ (x : ℕ × Node). pos < x.0) pos _
        (λ p c k l.
          bind-Ensures (λ len. Any len) (λ (x : ℕ × Node). pos < x.0) _ _
            (if-Ensures (λ len. Any len) (c == 34) _ _
              (key_found-Ensures (string_len (drop (p + 1) json) 0) p) tt)
            (λ len a.
              bind-Ensures (λ s. Any s) (λ (x : ℕ × Node). pos < x.0)
                (at_key (take len (drop (p + 1) json)) n) _ (at_key-Ensures _ n)
                (λ slot b.
                  skip_at-Ensures (λ (x : ℕ × Node). pos < x.0) (p + (len + 2)) _
                    (λ q d r s.
                      bind-Ensures (λ (x : ℕ × Node). pos < x.0) (λ (x : ℕ × Node). pos < x.0) _ _
                        (if-Ensures (λ (x : ℕ × Node). pos < x.0) (d == 58) _ _
                          (later pos (q + 1) _ (omega (arith, k, r))
                            (h (q + 1) _ (omega (arith, k, r)) (omega (arith, s))))
                          tt)
                        (λ x y. y)))))

  parse_lead-Past :
      (pos c : ℕ) (n : Node) (lead : Lead) (objects arrays : Parse)
      → pos < length json
      → Moves (pos + 1) objects
      → Moves (pos + 1) arrays
      → Past pos (parse_lead json objects arrays lead c pos n)
  unfolding parse_lead
  parse_lead-Past pos c n brace objects arrays h k l =
      parse_object-Past pos (with_type object n) objects k
  parse_lead-Past pos c n bracket objects arrays h k l =
      parse_array-Past pos (with_type array n) arrays l
  parse_lead-Past pos c n letter_t objects arrays h k l = parse_word-Past _ _ n pos
  parse_lead-Past pos c n letter_f objects arrays h k l = parse_word-Past _ _ n pos
  parse_lead-Past pos c n letter_n objects arrays h k l = parse_word-Past _ _ n pos
  parse_lead-Past pos c n quote objects arrays h k l = parse_string-Past pos n
  parse_lead-Past pos c n other objects arrays h k l = parse_number-Past c pos n h

  -- Fuel is enough for what is left of the text behind a position.
  record Enough (fuel : ℕ) : Type 0 where
    value :
        (pos : ℕ) (n : Node)
        → 2 * (length json - pos) + 1 ≤ fuel
        → Past pos (parse_value json fuel pos n)
    objects :
        (pos : ℕ) (n : Node)
        → 2 * (length json - pos) + 2 ≤ fuel
        → Past pos (object_loop json fuel pos n)
    arrays :
        (pos : ℕ) (n : Node)
        → 2 * (length json - pos) + 2 ≤ fuel
        → Past pos (array_loop json fuel pos n)

  enough : (fuel : ℕ) → Enough fuel
  unfolding parse_value
  enough zero = record {
    value = λ pos n h. absurd (omega (arith, h));
    objects = λ pos n h. absurd (omega (arith, h));
    arrays = λ pos n h. absurd (omega (arith, h));
  }
  enough (suc fuel) =
      let less = enough fuel in
      record {
        value = λ pos n h.
            skip_at-Ensures (λ (x : ℕ × Node). pos < x.0) pos _
              (λ p c k l. later pos p _ k (
                parse_lead-Past p c n (lead_of c) (object_loop json fuel) (array_loop json fuel) l
                  (λ q m r t. less.objects q m (omega (arith, h, k, l, r, t)))
                  (λ q m r t. less.arrays q m (omega (arith, h, k, l, r, t)))));
        objects = λ pos n h.
            bind-Ensures (λ (x : ℕ × Node). pos < x.0) (λ (x : ℕ × Node). pos < x.0)
              (parse_kv json (parse_value json fuel) pos n) _
              (parse_kv-Past pos n (parse_value json fuel)
                (λ q m r t. less.value q m (omega (arith, h, r, t))))
              (λ kv k. later pos kv.0 _ (omega (arith, k)) (
                next_round-Past kv.0 kv.1 125 (object_loop json fuel)
                  (λ q m r t. less.objects q m (omega (arith, h, k, r, t)))));
        arrays = λ pos n h.
            bind-Ensures (λ (x : ℕ × Node). pos < x.0) (λ (x : ℕ × Node). pos < x.0)
              (parse_value json fuel pos fresh) _ (less.value pos fresh (omega (arith, h)))
              (λ x k.
                bind-Ensures (λ m. Any m) (λ (x : ℕ × Node). pos < x.0) (append_item x.1 n) _
                  (append_item-Ensures x.1 n)
                  (λ m a. later pos x.0 _ (omega (arith, k)) (
                    next_round-Past x.0 m 93 (array_loop json fuel)
                      (λ q y r t. less.arrays q y (omega (arith, h, k, r, t))))));
      }

not_out : {A : Type 0} (r : Outcome A) → Ensures (λ a. Any a) r → r ≢ out_of_fuel
not_out r h e = subst (λ x. Ensures (λ a. Any a) x) e h

caught-Ensures : (pos : ℕ) (r : Outcome (ℕ × Node)) → Past pos r → Ensures (λ x. Any x) (caught r)
unfolding caught
caught-Ensures pos (done x) h = tt
caught-Ensures pos (json_error p m) h = tt
caught-Ensures pos type_error h = tt
caught-Ensures pos undefined h = tt
caught-Ensures pos unknown_error h = tt
caught-Ensures pos (out_of_range p) h = tt
caught-Ensures pos out_of_fuel h = h

-- `parse` comes to an end on every text and every root: what it is given as fuel, twice the length
-- of the text and two, is always enough.
pub parse_ends : (json : List ℕ) (root : Node) → parse json root ≢ out_of_fuel
unfolding parse parse_root
parse_ends json root =
    let size = length json in
    let all = enough json (2 * size + 2) in
    not_out (parse json root) (
      bind-Ensures (λ p. InText json 0 p) (λ x. Any x) (skip_space json 0) _
        (skip_space-Ensures json 0)
        (λ p h.
          if-Ensures (λ x. Any x) (size - p == 0) _ _ tt
            (if-Ensures (λ x. Any x) (size - p == 1) _ _ tt
              (caught-Ensures p (parse_root json (2 * size + 2) p root) (
                bind-Ensures (λ c. 0 < length (drop p json)) (λ (x : ℕ × Node). p < x.0) (at json p)
                  _ (first-Ensures (drop p json) p)
                  (λ c k.
                    if-Ensures (λ (x : ℕ × Node). p < x.0) (c == 91) _ _
                      (parse_array-Past json p (with_type array root)
                        (array_loop json (2 * size + 2)) (λ q m r t. all.arrays q m (omega arith)))
                      (if-Ensures (λ (x : ℕ × Node). p < x.0) (c == 123) _ _
                        (parse_object-Past json p (with_type object root)
                          (object_loop json (2 * size + 2))
                          (λ q m r t. all.objects q m (omega arith)))
                        tt)))))))
