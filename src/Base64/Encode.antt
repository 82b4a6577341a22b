-- ===== src/Base64/Encode.antt =====
-- src/trans.cpp, `Base64::encode`, and the definition of the encoding: three bytes to four
-- characters of six bits each, and `=` for each missing byte of the last group.
use libnap.Base.{
  IsBytes, ℕ, zero, suc, ◌+◌, ◌-◌, ◌*◌, ◌/◌, ◌%◌, ◌≤◌, ◌<◌, ◌^◌, List, [], ◌∷◌, ◌++◌, Option, some,
}
use libnap.Base.{Bool, true, false, ◌≡◌, refl, ap, sym, ◌∙◌, arith, length, drop, get_or}
use libnap.Base.{append_assoc, length-append, load, load_behind, store_behind}
use libnap.Base.{bit_and, bit_or, bit_and-mod, bit_or-add, u64, if◌then◌else◌, ◌==◌, ◌>>=◌}
use libnap.Base.{inl, inr, Bool-cases, ==_iff, take-append-drop}
use libnap.Btring.{Btring, bytes, empty}
use libnap.Btring.View.{view, IsValid, Yields, length-view, empty-IsValid}
use libnap.Btring.InPlace.{build_lem}
use libnap.Base64.{table, enblock, encode_loop, pad_one, pad_two, encode_tail, encode}

-- The character of six bits.
abbrev pub symbol : Bool → ℕ → ℕ
symbol safe k = get_or (table safe) k 0

abbrev pub four : Bool → ℕ → ℕ → ℕ → List ℕ
four safe a b c =
    symbol safe (a / 4)
    ∷ symbol safe (a % 4 * 16 + b / 16)
    ∷ symbol safe (b % 16 * 4 + c / 64)
    ∷ symbol safe (c % 64)
    ∷ []

abbrev pub base64 : Bool → List ℕ → List ℕ
base64 safe [] = []
base64 safe (a ∷ []) = symbol safe (a / 4) ∷ symbol safe (a % 4 * 16) ∷ b'=' ∷ b'=' ∷ []
base64 safe (a ∷ b ∷ []) =
    symbol safe (a / 4) ∷ symbol safe (a % 4 * 16 + b / 16) ∷ symbol safe (b % 16 * 4) ∷ b'=' ∷ []
base64 safe (a ∷ b ∷ c ∷ m) = four safe a b c ++ base64 safe m

length-table : (safe : Bool) → length (table safe) ≡ 64
length-table true = refl
length-table false = refl

pub load-get_or : (xs : List ℕ) (k : ℕ) → k < length xs → load xs k ≡ some (get_or xs k 0)
load-get_or [] k h = absurd (omega arith)
load-get_or (x ∷ xs) zero h = refl
load-get_or (x ∷ xs) (suc k) h = load-get_or xs k (omega arith)

load-symbol : (safe : Bool) (k : ℕ) → k < 64 → load (table safe) k ≡ some (symbol safe k)
load-symbol safe k h = load-get_or (table safe) k (omega (arith, length-table safe))

enblock_lem :
    (safe : Bool) (pre : List ℕ) (a b c : ℕ) (m p : List ℕ) (w x y z : ℕ) (out : List ℕ) (i j : ℕ)
    → i ≡ length pre
    → j ≡ length p
    → a < 256
    → b < 256
    → c < 256
    → enblock (table safe) (pre ++ a ∷ b ∷ c ∷ m) i (p ++ w ∷ x ∷ y ∷ z ∷ out) j
      ≡ some (p ++ (four safe a b c ++ out))
unfolding enblock
enblock_lem safe pre a b c m p w x y z out i j at_m at_out ha hb hc =
    let second : bit_and (bit_or (a * 16) (b / 16)) 63 ≡ a % 4 * 16 + b / 16 =
      omega (arith, bit_or-add 4 a (b / 16), bit_and-mod 6 (bit_or (a * 16) (b / 16))) in
    let third : bit_and (bit_or (b * 4) (c / 64)) 63 ≡ b % 16 * 4 + c / 64 =
      omega (arith, bit_or-add 2 b (c / 64), bit_and-mod 6 (bit_or (b * 4) (c / 64))) in
    rw
      (
        load_behind pre (a ∷ b ∷ c ∷ m) i 0 (omega arith),
        load-symbol safe (a / 4) (omega arith),
        store_behind p (w ∷ x ∷ y ∷ z ∷ out) j 0 (symbol safe (a / 4)) _ (omega arith) refl,
        load_behind pre (a ∷ b ∷ c ∷ m) (i + 1) 1 (omega arith),
        second,
        load-symbol safe (a % 4 * 16 + b / 16) (omega arith),
        store_behind p _ (j + 1) 1 (symbol safe (a % 4 * 16 + b / 16)) _ (omega arith) refl,
        load_behind pre (a ∷ b ∷ c ∷ m) (i + 2) 2 (omega arith),
        third,
        load-symbol safe (b % 16 * 4 + c / 64) (omega arith),
        store_behind p _ (j + 2) 2 (symbol safe (b % 16 * 4 + c / 64)) _ (omega arith) refl,
        bit_and-mod 6 c,
        load-symbol safe (c % 64) (omega arith),
      )
      (store_behind p _ (j + 3) 3 (symbol safe (c % 64)) _ (omega arith) refl)

pub length-base64 : (safe : Bool) (m : List ℕ) → length (base64 safe m) ≡ (length m + 2) / 3 * 4
length-base64 safe [] = refl
length-base64 safe (a ∷ []) = refl
length-base64 safe (a ∷ b ∷ []) = refl
length-base64 safe (a ∷ b ∷ c ∷ m) = omega (arith, length-base64 safe m)

module _ (safe : Bool) (pre junk p : List ℕ) (w x y z : ℕ) (out : List ℕ) (i size len : ℕ)
    (at_m : i * 3 ≡ length pre) (at_out : i * 4 ≡ length p) (at_end : len ≡ i * 4 + 4) where
  tail_one :
      (a : ℕ)
      → a < 256
      → size ≡ i * 3 + 1
      → encode_tail (table safe) (pre ++ a ∷ junk) size len (p ++ w ∷ x ∷ y ∷ z ∷ out)
        ≡ some (p ++ (base64 safe (a ∷ []) ++ out))
  unfolding encode_tail pad_one
  tail_one a ha e =
      let rest : size % 3 ≡ 1 = omega arith in
      let no_low : a % 4 * 16 + 0 / 16 ≡ a % 4 * 16 = omega arith in
      rw
        (
          rest,
          load_behind pre (a ∷ junk) (size - 1) 0 (omega arith),
          enblock_lem safe [] a 0 0 [] p w x y z out 0 (len - 4) refl (omega arith) ha (omega arith)
              (omega arith),
          no_low,
          store_behind p _ (len - 2) 2 b'=' _ (omega arith) refl,
        )
        (store_behind p _ (len - 1) 3 b'=' _ (omega arith) refl)

  tail_two :
      (a b : ℕ)
      → a < 256
      → b < 256
      → size ≡ i * 3 + 2
      → encode_tail (table safe) (pre ++ a ∷ b ∷ junk) size len (p ++ w ∷ x ∷ y ∷ z ∷ out)
        ≡ some (p ++ (base64 safe (a ∷ b ∷ []) ++ out))
  unfolding encode_tail pad_two
  tail_two a b ha hb e =
      let rest : size % 3 ≡ 2 = omega arith in
      let no_low : b % 16 * 4 + 0 / 64 ≡ b % 16 * 4 = omega arith in
      rw
        (
          rest,
          load_behind pre (a ∷ b ∷ junk) (size - 2) 0 (omega arith),
          load_behind pre (a ∷ b ∷ junk) (size - 2 + 1) 1 (omega arith),
          enblock_lem safe [] a b 0 [] p w x y z out 0 (len - 4) refl (omega arith) ha hb
              (omega arith),
          no_low,
        )
        (store_behind p _ (len - 1) 3 b'=' _ (omega arith) refl)

-- The loop and the tail together, from any block on.
abbrev body : Bool → List ℕ → ℕ → ℕ → ℕ → ℕ → List ℕ → Option (List ℕ)
body safe m n i size len out =
    encode_loop (table safe) m n i out >>= encode_tail (table safe) m size len

body_lem :
    (safe : Bool) (n i size len : ℕ) (pre m junk p out : List ℕ)
    → IsBytes m
    → n ≡ length m / 3
    → i * 3 ≡ length pre
    → i * 4 ≡ length p
    → size ≡ i * 3 + length m
    → len ≡ i * 4 + (length m + 2) / 3 * 4
    → (length m + 2) / 3 * 4 ≤ length out
    → body safe (pre ++ (m ++ junk)) n i size len (p ++ out)
      ≡ some (p ++ (base64 safe m ++ drop ((length m + 2) / 3 * 4) out))
unfolding encode_loop
body_lem safe zero i size len pre [] junk p out small rounds at_m at_out total result room =
    let whole : size % 3 ≡ 0 = omega arith in unfold encode_tail in rw whole
body_lem safe zero i size len pre (a ∷ []) junk p (w ∷ x ∷ y ∷ z ∷ out) small rounds at_m at_out
      total result room =
    tail_one safe pre junk p w x y z out i size len at_m at_out (omega arith) a small.0
      (omega arith)
body_lem safe zero i size len pre (a ∷ b ∷ []) junk p (w ∷ x ∷ y ∷ z ∷ out) small rounds at_m at_out
      total result room =
    tail_two safe pre junk p w x y z out i size len at_m at_out (omega arith) a b small.0 small.1.0
      (omega arith)
body_lem safe (suc n) i size len pre (a ∷ b ∷ c ∷ m) junk p (w ∷ x ∷ y ∷ z ∷ out) small rounds at_m
      at_out total result room =
    let count : (suc (suc (suc (length m))) + 2) / 3 * 4
        ≡ suc (suc (suc (suc ((length m + 2) / 3 * 4)))) =
      omega arith in
    let block = four safe a b c in
    let next =
      body_lem safe n (i + 1) size len (pre ++ a ∷ b ∷ c ∷ []) m junk (p ++ block) out small.1.1.1
        (omega arith) (omega (arith, length-append pre (a ∷ b ∷ c ∷ [])))
        (omega (arith, length-append p block)) (omega arith) (omega arith) (omega arith) in
    rw
      (
        count,
        enblock_lem safe pre a b c (m ++ junk) p w x y z out (i * 3) (i * 4) at_m at_out small.0
            small.1.0 small.1.1.0,
      )
      (ap (λ l. body safe l n (i + 1) size len (p ++ (block ++ out)))
          (sym (append_assoc pre (a ∷ b ∷ c ∷ []) (m ++ junk)))
        ∙ ap (body safe ((pre ++ a ∷ b ∷ c ∷ []) ++ (m ++ junk)) n (i + 1) size len)
            (sym (append_assoc p block out))
        ∙ next
        ∙ ap some (append_assoc p block _))
body_lem safe n i size len pre m junk p out small rounds at_m at_out total result room =
    absurd (omega arith)

abbrev encoded_size : ℕ → ℕ
encoded_size n = u64 ((n / 3 + (if n % 3 == 0 then 0 else 1)) * 4)

-- On a well-formed string of bytes, `encode` returns the well-formed string of their encoding,
-- in the standard alphabet or in the one for URLs, with its padding, where the length of the
-- encoding is below 2^64.
pub base64_encode_lem :
    (fresh : ℕ → List ℕ)
    → ((n : ℕ) → length (fresh n) ≡ n)
    → (mem : Btring) (safe : Bool) → IsValid mem
    → IsBytes (view mem)
    → (mem.size + 2) / 3 * 4 < 2 ^ 64
    → Yields (encode fresh mem safe) (base64 safe (view mem))
unfolding encode
base64_encode_lem fresh new mem safe v small bound = elim (Bool-cases (mem.size == 0)) [
  | inl nothing ↦
      let no_bytes : mem.size ≡ 0 = (==_iff _ _).0 nothing in
      rw nothing
        (record { value = empty; returned = refl; valid = empty-IsValid; shows = rw no_bytes })
  | inr some_bytes ↦ rw some_bytes (
      build_lem fresh new (encoded_size mem.size) _ _ (omega (arith, size_lem, bound))
        (omega (arith, size_lem, length-base64 safe (view mem), length-view v))
        (λ c room.
          ap (λ l. body safe l (mem.size / 3) 0 mem.size (encoded_size mem.size) c)
            (sym (take-append-drop mem.size (bytes mem.content)))
          ∙ body_lem safe (mem.size / 3) 0 mem.size (encoded_size mem.size) [] (view mem)
              (drop mem.size (bytes mem.content)) [] c small (omega (arith, length-view v)) refl
              refl (omega (arith, length-view v)) (omega (arith, length-view v, size_lem))
              (omega (arith, length-view v, size_lem, room))
          ∙ ap (λ k. some (base64 safe (view mem) ++ drop k c))
              (omega (arith, length-view v, size_lem))))
]
  where
    size_lem : encoded_size mem.size ≡ (mem.size + 2) / 3 * 4
    size_lem = ground arith
