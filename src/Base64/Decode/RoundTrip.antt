-- ===== src/Base64/Decode/RoundTrip.antt =====
-- src/trans.cpp, `Base64::encode` followed by `Base64::decode`.
use libnap.Base.{IsBytes, ℕ, ◌+◌, ◌*◌, ◌/◌, ◌%◌, ◌<◌, ◌^◌, List, [], ◌∷◌, ◌++◌}
use libnap.Base.{Bool, true, false, ◌≡◌, ◌≢◌, refl, ap, ◌∙◌, arith, length, ◌==◌, ◌>>=◌, ltb}
use libnap.Base.{each_below, each_below_lem, ◌&&◌, not, ne→not-==}
use libnap.Btring.{Btring}
use libnap.Btring.View.{view, IsValid, Yields, Yields-bind, Yields-eq, length-view}
use libnap.Base64.{decode, encode}
use libnap.Base64.Encode.{symbol, base64, base64_encode_lem, length-base64}
use libnap.Base64.Decode.{value, three, unbase64, IsAscii}
use libnap.Base64.Decode.Whole.{base64_decode_lem}

-- A character of the alphabet is ASCII, is no `=`, and stands for its index.
abbrev good : Bool → ℕ → Bool
good safe k =
    (value safe (symbol safe k) == k) && (ltb (symbol safe k) 128 && not (symbol safe k == b'='))

symbol_table : (each_below 64 (good true) ≡ true) × (each_below 64 (good false) ≡ true)
unfolding each_below
symbol_table = (refl, refl)

symbol-good : (safe : Bool) (k : ℕ) → k < 64 → good safe k ≡ true
symbol-good true k h = each_below_lem 64 (good true) k symbol_table.0 h
symbol-good false k h = each_below_lem 64 (good false) k symbol_table.1 h

split_good :
    (x k : ℕ) (y : ℕ)
    → ((x == k) && (ltb y 128 && not (y == b'='))) ≡ true
    → (x ≡ k) × (y < 128) × (y ≢ b'=')
split_good x k y h = ground arith

symbol_lem :
    (safe : Bool) (k : ℕ)
    → k < 64
    → (value safe (symbol safe k) ≡ k) × (symbol safe k < 128) × (symbol safe k ≢ b'=')
symbol_lem safe k h =
    split_good (value safe (symbol safe k)) k (symbol safe k) (symbol-good safe k h)

module _ (safe : Bool) (a b c : ℕ) (ha : a < 256) (hb : b < 256) (hc : c < 256) where
  abbrev s0 : ℕ
  s0 = symbol safe (a / 4)

  abbrev s1 : ℕ
  s1 = symbol safe (a % 4 * 16 + b / 16)

  abbrev s2 : ℕ
  s2 = symbol safe (b % 16 * 4 + c / 64)

  abbrev s3 : ℕ
  s3 = symbol safe (c % 64)

  three-four : three safe s0 s1 s2 s3 ≡ a ∷ b ∷ c ∷ []
  three-four =
      rw
        (
          (symbol_lem safe (a / 4) (omega arith)).0,
          (symbol_lem safe (a % 4 * 16 + b / 16) (omega arith)).0,
          (symbol_lem safe (b % 16 * 4 + c / 64) (omega arith)).0,
          (symbol_lem safe (c % 64) (omega arith)).0,
        )
        (ground arith)

unbase64-one : (safe : Bool) (a : ℕ) → a < 256 → unbase64 safe (base64 safe (a ∷ [])) ≡ a ∷ []
unbase64-one safe a ha =
    rw ((symbol_lem safe (a / 4) (omega arith)).0, (symbol_lem safe (a % 4 * 16) (omega arith)).0)
      (ground arith)

unbase64-two :
    (safe : Bool) (a b : ℕ)
    → a < 256
    → b < 256
    → unbase64 safe (base64 safe (a ∷ b ∷ [])) ≡ a ∷ b ∷ []
unbase64-two safe a b ha hb =
    rw
      (
        ne→not-== _ _ (symbol_lem safe (b % 16 * 4) (omega arith)).2,
        (symbol_lem safe (a / 4) (omega arith)).0,
        (symbol_lem safe (a % 4 * 16 + b / 16) (omega arith)).0,
        (symbol_lem safe (b % 16 * 4) (omega arith)).0,
      )
      (ground arith)

unbase64-group :
    (safe : Bool) (w x y z : ℕ) (t : List ℕ)
    → 0 < length t
    → unbase64 safe (w ∷ x ∷ y ∷ z ∷ t) ≡ three safe w x y z ++ unbase64 safe t
unbase64-group safe w x y z [] h = absurd (omega arith)
unbase64-group safe w x y z (c ∷ t) h = refl

unbase64-base64 : (safe : Bool) (m : List ℕ) → IsBytes m → unbase64 safe (base64 safe m) ≡ m
unbase64-base64 safe [] small = refl
unbase64-base64 safe (a ∷ []) small = unbase64-one safe a small.0
unbase64-base64 safe (a ∷ b ∷ []) small = unbase64-two safe a b small.0 small.1.0
unbase64-base64 safe (a ∷ b ∷ c ∷ []) (ha, (hb, (hc, rest))) =
    rw (ne→not-== _ _ (symbol_lem safe (c % 64) (omega arith)).2) (three-four safe a b c ha hb hc)
unbase64-base64 safe (a ∷ b ∷ c ∷ d ∷ m) (ha, (hb, (hc, rest))) =
    unbase64-group safe _ _ _ _ (base64 safe (d ∷ m)) (omega (arith, length-base64 safe (d ∷ m)))
    ∙ ap (λ r. r ++ unbase64 safe (base64 safe (d ∷ m))) (three-four safe a b c ha hb hc)
    ∙ ap (λ r. a ∷ b ∷ c ∷ r) (unbase64-base64 safe (d ∷ m) rest)

ascii : (safe : Bool) (k : ℕ) → k < 64 → symbol safe k < 128
ascii safe k h = (symbol_lem safe k h).1

base64-IsAscii : (safe : Bool) (m : List ℕ) → IsBytes m → IsAscii (base64 safe m)
base64-IsAscii safe [] small = tt
base64-IsAscii safe (a ∷ []) small = (
  ascii safe (a / 4) (omega (arith, small.0)),
  (ascii safe (a % 4 * 16) (omega arith), (omega arith, (omega arith, tt))),
)
base64-IsAscii safe (a ∷ b ∷ []) (ha, (hb, rest)) = (
  ascii safe (a / 4) (omega arith),
  (
    ascii safe (a % 4 * 16 + b / 16) (omega arith),
    (ascii safe (b % 16 * 4) (omega arith), (omega arith, tt)),
  ),
)
base64-IsAscii safe (a ∷ b ∷ c ∷ m) (ha, (hb, (hc, rest))) = (
  ascii safe (a / 4) (omega arith),
  (
    ascii safe (a % 4 * 16 + b / 16) (omega arith),
    (
      ascii safe (b % 16 * 4 + c / 64) (omega arith),
      (ascii safe (c % 64) (omega arith), base64-IsAscii safe m rest),
    ),
  ),
)

-- `decode` undoes `encode`, in the standard alphabet and in the one for URLs, for every
-- well-formed string of bytes whose encoding has a length below 2^64.
pub base64_decode-encode :
    (fresh : ℕ → List ℕ)
    → ((n : ℕ) → length (fresh n) ≡ n)
    → (mem : Btring) (safe : Bool) → IsValid mem
    → IsBytes (view mem)
    → (mem.size + 2) / 3 * 4 < 2 ^ 64
    → Yields (encode fresh mem safe >>= λ text. decode fresh text safe) (view mem)
base64_decode-encode fresh new mem safe v small bound =
    Yields-bind (base64_encode_lem fresh new mem safe v small bound) λ text ok shows.
      Yields-eq
        (base64_decode_lem fresh new safe text ok (rw shows (base64-IsAscii safe (view mem) small))
          (omega (arith, length-view ok, ap length shows, length-base64 safe (view mem))))
        (ap (unbase64 safe) shows ∙ unbase64-base64 safe (view mem) small)
