-- ===== src/Hex/Encode.antt =====
-- src/trans.cpp, `Hex::encode`, against the list of the digits.
use libnap.Base.{
  IsBytes, ℕ, zero, suc, ◌+◌, ◌*◌, ◌/◌, ◌%◌, ◌≤◌, ◌<◌, ◌^◌, List, [], ◌∷◌, ◌++◌, some,
}
use libnap.Base.{Bool, true, false, ◌≡◌, refl, ap, ◌∙◌, arith, length, take, drop, get_or}
use libnap.Base.{length-snoc, load-append, store_next, snoc-append, snoc_snoc-append}
use libnap.Base.{bit_and, u8, u64, each_below, each_below_lem, ◌==◌, ==_iff}
use libnap.Base.{bit_and-mod}
use libnap.Btring.{Btring, bytes}
use libnap.Btring.View.{view, IsValid, Yields, length-view}
use libnap.Btring.InPlace.{build_lem}
use libnap.Hex.{hex_trans, encode_loop, encode}

-- The digits of the specification.
abbrev pub digits : Bool → List ℕ
digits true =
    b'0' ∷ b'1' ∷ b'2' ∷ b'3' ∷ b'4' ∷ b'5' ∷ b'6' ∷ b'7' ∷ b'8' ∷ b'9' ∷ b'A' ∷ b'B' ∷ b'C' ∷ b'D'
    ∷ b'E' ∷ b'F' ∷ []
digits false =
    b'0' ∷ b'1' ∷ b'2' ∷ b'3' ∷ b'4' ∷ b'5' ∷ b'6' ∷ b'7' ∷ b'8' ∷ b'9' ∷ b'a' ∷ b'b' ∷ b'c' ∷ b'd'
    ∷ b'e' ∷ b'f' ∷ []

abbrev pub digit : Bool → ℕ → ℕ
digit capital x = get_or (digits capital) x 0

-- High half first.
abbrev pub two_digits : Bool → ℕ → List ℕ
two_digits capital c = digit capital (c / 16) ∷ digit capital (c % 16) ∷ []

abbrev pub hex : Bool → List ℕ → List ℕ
hex capital [] = []
hex capital (c ∷ m) = two_digits capital c ++ hex capital m

hex_trans_table :
    (each_below 16 (λ x. u8 (hex_trans x true) == digit true x) ≡ true)
    × (each_below 16 (λ x. u8 (hex_trans x false) == digit false x) ≡ true)
unfolding hex_trans each_below
hex_trans_table = (refl, refl)

hex_trans_lem : (capital : Bool) (x : ℕ) → x < 16 → u8 (hex_trans x capital) ≡ digit capital x
hex_trans_lem true x h = (==_iff _ _).0 (each_below_lem 16 _ x hex_trans_table.0 h)
hex_trans_lem false x h = (==_iff _ _).0 (each_below_lem 16 _ x hex_trans_table.1 h)

pub length-hex : (capital : Bool) (m : List ℕ) → length (hex capital m) ≡ length m * 2
length-hex capital [] = refl
length-hex capital (c ∷ m) = omega (arith, length-hex capital m)

encode_loop_lem :
    (capital : Bool) (n i : ℕ) (pre m p out : List ℕ)
    → i ≡ length pre
    → i * 2 ≡ length p
    → n ≤ length m
    → n * 2 ≤ length out
    → IsBytes (take n m)
    → encode_loop capital (pre ++ m) n i (p ++ out)
      ≡ some (p ++ (hex capital (take n m) ++ drop (n * 2) out))
unfolding encode_loop
encode_loop_lem capital zero i pre m p out at_m at_out readable room small = refl
encode_loop_lem capital (suc n) i pre [] p out at_m at_out readable room small =
    absurd (omega arith)
encode_loop_lem capital (suc n) i pre (c ∷ m) p [] at_m at_out readable room small =
    absurd (omega arith)
encode_loop_lem capital (suc n) i pre (c ∷ m) p (x ∷ []) at_m at_out readable room small =
    absurd (omega arith)
encode_loop_lem capital (suc n) i pre (c ∷ m) p (x ∷ y ∷ out) at_m at_out readable room small =
    let high = u8 (hex_trans (c / 16) capital) in
    let low = u8 (hex_trans (bit_and c 15) capital) in
    let is_high : high ≡ digit capital (c / 16) =
      hex_trans_lem capital (c / 16) (omega (arith, small.0)) in
    let is_low : low ≡ digit capital (c % 16) =
      ap (λ t. u8 (hex_trans t capital)) (bit_and-mod 4 c)
      ∙ hex_trans_lem capital (c % 16) (omega arith) in
    let next =
      encode_loop_lem capital n (i + 1) (pre ++ c ∷ []) m ((p ++ high ∷ []) ++ low ∷ []) out
        (omega (arith, length-snoc pre c))
        (omega (arith, length-snoc p high, length-snoc (p ++ high ∷ []) low)) (omega arith)
        (omega arith) small.1 in
    let twice : suc n * 2 ≡ suc (suc (n * 2)) = omega arith in
    rw
      (
        load-append pre c m i at_m,
        store_next p x (y ∷ out) (i * 2) high at_out,
        store_next (p ++ high ∷ []) y out (i * 2 + 1) low (omega (arith, length-snoc p high)),
        twice,
        ← is_high,
        ← is_low,
      )
      (ap (λ l. encode_loop capital l n (i + 1) (((p ++ high ∷ []) ++ low ∷ []) ++ out))
          (snoc-append pre c m)
        ∙ next
        ∙ ap some (snoc_snoc-append p high low _))

-- On a well-formed string of bytes, `encode` returns the well-formed string of their digits,
-- high half first, in capital or small letters as told.
pub hex_encode_lem :
    (fresh : ℕ → List ℕ)
    → ((n : ℕ) → length (fresh n) ≡ n)
    → (mem : Btring) (capital : Bool) → IsValid mem
    → IsBytes (view mem)
    → mem.size * 2 < 2 ^ 64
    → Yields (encode fresh mem capital) (hex capital (view mem))
unfolding encode
hex_encode_lem fresh new mem capital v small bound =
    build_lem fresh new (u64 (mem.size * 2)) _ _ (omega arith)
      (omega (arith, length-hex capital (view mem), length-view v))
      (λ c room.
        encode_loop_lem capital mem.size 0 [] (bytes mem.content) [] c refl refl
          (omega (arith, v.allocated, v.fits)) (omega (arith, room)) small
        ∙ ap (λ k. some (hex capital (view mem) ++ drop k c)) same)
  where
    same : mem.size * 2 ≡ u64 (mem.size * 2)
    same = omega arith
