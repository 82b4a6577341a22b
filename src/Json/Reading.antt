-- ===== src/Json/Reading.antt =====
-- src/json.cpp, class JsonParser: the scanners at the front of a text.
use libnap.Base.{
  ℕ, zero, suc, ◌+◌, ◌<◌, List, [], ◌∷◌, ◌++◌, some, true, false, ◌==◌, ◌||◌, ◌≡◌, refl, sym, ap,
  ◌∙◌, arith, length, drop, Bool-cases, inl, inr, ==_iff, ne→not-==,
}
use Prim.{Unit}
use libnap.Json.Results.{done}
use libnap.Json.{Node}
use libnap.Json.Parser.{
  skip_from, skip_space, first, at, is_space, string_len, string_bytes, is_word, is_digit,
  is_number_char, number_len, streamed, lead_of, parse_lead, parse_value, object_loop, array_loop,
}
use libnap.Json.Text.{escape}

-- What the text has from a position on.
abbrev pub Rest : List ℕ → ℕ → List ℕ → Type 0
Rest json pos l = drop pos json ≡ l

drop_add {ℓ} : {A : Type ℓ} (a b : ℕ) (l : List A) → drop (a + b) l ≡ drop b (drop a l)
drop_add zero b l = let e : 0 + b ≡ b = omega arith in ap (λ k. drop k l) e
drop_add (suc a) zero [] = let e : suc a + 0 ≡ suc a = omega arith in ap (λ k. drop k []) e
drop_add (suc a) (suc b) [] =
    let e : suc a + suc b ≡ suc (a + suc b) = omega arith in ap (λ k. drop k []) e
drop_add (suc a) b (x ∷ l) =
    let e : suc a + b ≡ suc (a + b) = omega arith in ap (λ k. drop k (x ∷ l)) e ∙ drop_add a b l

drop_front {ℓ} : {A : Type ℓ} (a b : List A) → drop (length a) (a ++ b) ≡ b
drop_front [] b = refl
drop_front (x ∷ a) b = drop_front a b

module _ (json : List ℕ) (pos : ℕ) where
  pub past : (a b : List ℕ) (q : ℕ) → q ≡ pos + length a → Rest json pos (a ++ b) → Rest json q b
  past a b q e h =
      ap (λ k. drop k json) e
      ∙ drop_add pos (length a) json
      ∙ ap (drop (length a)) h
      ∙ drop_front a b

  pub skip_here :
      (c : ℕ) (r : List ℕ)
      → Rest json pos (c ∷ r)
      → is_space c ≡ false
      → skip_space json pos ≡ done pos
  unfolding skip_from
  skip_here c r h e = rw h (rw e refl)

  pub at_here : (c : ℕ) (r : List ℕ) → Rest json pos (c ∷ r) → at json pos ≡ done c
  unfolding first
  at_here c r h = rw h refl

  pub value_here :
      (c : ℕ) (r : List ℕ) (f : ℕ) (n : Node)
      → Rest json pos (c ∷ r)
      → is_space c ≡ false
      → parse_value json (suc f) pos n
        ≡ parse_lead json (object_loop json f) (array_loop json f) (lead_of c) c pos n
  unfolding parse_value
  value_here c r f n h e = rw (skip_here c r h e, at_here c r h) refl

-- Bytes that stand for themselves between quotes.
abbrev pub IsClean : List ℕ → Type 0
IsClean [] = Unit
IsClean (c ∷ k) = ((c == 34) ≡ false) × ((c == 92) ≡ false) × IsClean k

-- Bytes that a string keeps: no backslash, no zero and no end of a line.
abbrev pub IsKept : List ℕ → Type 0
IsKept [] = Unit
IsKept (c ∷ v) = ((c == 92) ≡ false) × ((c == 0) ≡ false) × ((c == 10) ≡ false) × IsKept v

string_len_plain :
    (c : ℕ) (l : List ℕ) (len : ℕ)
    → (c == 34) ≡ false
    → (c == 92) ≡ false
    → string_len (c ∷ l) len ≡ string_len l (len + 1)
unfolding string_len
string_len_plain c [] len h k = rw (k, h) refl
string_len_plain c (d ∷ l) len h k = ground arith

string_len_quote : (l : List ℕ) (len : ℕ) → string_len (34 ∷ l) len ≡ some len
unfolding string_len
string_len_quote [] len = refl
string_len_quote (d ∷ l) len = refl

pub string_len-clean :
    (k r : List ℕ) (len : ℕ) → IsClean k → string_len (k ++ 34 ∷ r) len ≡ some (len + length k)
string_len-clean [] r len h = string_len_quote r len ∙ ap some (omega arith)
string_len-clean (c ∷ k) r len h =
    string_len_plain c (k ++ 34 ∷ r) len h.0 h.1
    ∙ string_len-clean k r (len + 1) h.2
    ∙ ap some (omega arith)

pub string_len-escape :
    (v r : List ℕ) (len : ℕ)
    → IsKept v
    → string_len (escape v ++ 34 ∷ r) len ≡ some (len + length (escape v))
unfolding string_len
string_len-escape [] r len h = string_len_quote r len ∙ ap some (omega arith)
string_len-escape (c ∷ v) r len h = elim (Bool-cases (c == 34)) [
  | inl is_quote ↦ rw is_quote (string_len-escape v r (len + 2) h.3 ∙ ap some (omega arith))
  | inr plain ↦ rw plain (
      string_len_plain c (escape v ++ 34 ∷ r) len plain h.0
      ∙ string_len-escape v r (len + 1) h.3
      ∙ ap some (omega arith))
]

pub string_bytes-escape :
    (v r : List ℕ) (pos : ℕ)
    → IsKept v
    → string_bytes (length (escape v)) (escape v ++ r) pos ≡ done v
unfolding string_bytes
string_bytes-escape [] r pos h = refl
string_bytes-escape (c ∷ v) r pos h = elim (Bool-cases (c == 34)) [
  | inl is_quote ↦
      let e = (==_iff c 34).0 is_quote in
      rw is_quote (rw (string_bytes-escape v r pos h.3) (ap (λ x. done (x ∷ v)) (sym e)))
  | inr plain ↦ rw plain (rw (string_bytes-escape v r pos h.3, h.0) refl)
]

pub streamed-kept : (v : List ℕ) → IsKept v → streamed v ≡ v
unfolding streamed
streamed-kept [] h = refl
streamed-kept (c ∷ v) h = rw (h.1, h.2) (ap (λ l. c ∷ l) (streamed-kept v h.3))

pub is_word-front : (word r : List ℕ) (pos : ℕ) → is_word word (word ++ r) pos ≡ done true
unfolding is_word first
is_word-front [] r pos = refl
is_word-front (w ∷ word) r pos = ground (arith, is_word-front word r pos)

-- Behind a number stands nothing that goes on with it.
abbrev pub Stops : List ℕ → Type 0
Stops [] = Unit
Stops (c ∷ r) = is_number_char c ≡ false

abbrev pub NumberChars : List ℕ → Type 0
NumberChars [] = Unit
NumberChars (c ∷ v) = (is_number_char c ≡ true) × NumberChars v

-- A sign or a digit, and characters of numbers.
abbrev pub IsNumber : List ℕ → Type 0
IsNumber [] = ⊥
IsNumber (c ∷ v) = (((c == 45) || is_digit c) ≡ true) × NumberChars v

number_rest :
    (v r : List ℕ) (len : ℕ)
    → 0 < len
    → NumberChars v
    → Stops r
    → number_len (v ++ r) len ≡ len + length v
unfolding number_len
number_rest [] [] len some_len h s = omega arith
number_rest [] (x ∷ r) len some_len h s =
    let e : (len == 0) ≡ false = ne→not-== len 0 (omega (arith, some_len)) in
    rw (e, s) (omega arith)
number_rest (c ∷ v) r len some_len h s =
    let e : (len == 0) ≡ false = ne→not-== len 0 (omega (arith, some_len)) in
    rw (e, h.0) (number_rest v r (len + 1) (omega arith) h.1 s ∙ omega arith)

pub number_len-front : (v r : List ℕ) → IsNumber v → Stops r → number_len (v ++ r) 0 ≡ length v
unfolding number_len
number_len-front [] r h s = absurd h
number_len-front (c ∷ v) r h s = number_rest v r 1 (omega arith) h.1 s ∙ omega arith
