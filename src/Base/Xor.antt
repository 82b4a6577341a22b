-- ===== src/Base/Xor.antt =====
-- Laws of `^` on numbers of every width, from the step on binary digits.
use Prim.Native.Nat.{
  ℕ, zero, suc, ◌+◌, ◌*◌, ◌/◌, ◌%◌, ◌^◌, ◌≤◌, ◌<◌, differ, bit_xor, bit_xor-bitwise,
}
use mathlib.Core.Path.{◌≡◌, refl, sym, ap, ◌∙◌}
use native.Mathlib.Nat.{pow-suc}
use native.Mathlib.Omega.{arith}
use libnap.Base.Bits.{bit_xor_step, bit_xor-zero}

differ_sum : (x y : ℕ) → x < 2 → y < 2 → differ x y ≡ (x + y) % 2
differ_sum zero zero p q = refl
differ_sum zero (suc zero) p q = refl
differ_sum (suc zero) zero p q = refl
differ_sum (suc zero) (suc zero) p q = refl
differ_sum x y p q = absurd (omega arith)

-- The lowest digit of `a ^ b` is that of the sum.
digit_step : (a b : ℕ) → bit_xor a b ≡ bit_xor (a / 2) (b / 2) * 2 + (a + b) % 2
digit_step a b =
    omega (arith, bit_xor_step a b, differ_sum (a % 2) (b % 2) (omega arith) (omega arith))

half : (a b : ℕ) → bit_xor a b / 2 ≡ bit_xor (a / 2) (b / 2)
half a b = omega (arith, digit_step a b)

zero_xor : (b : ℕ) → bit_xor 0 b ≡ b
zero_xor b = simp bit_xor-bitwise refl

comm_below : (bound a b : ℕ) → a ≤ bound → bit_xor a b ≡ bit_xor b a
comm_below bound zero b h = zero_xor b ∙ sym (bit_xor-zero b)
comm_below zero (suc a) b h = absurd (omega arith)
comm_below (suc bound) (suc a) b h = omega (
  arith,
  digit_step (suc a) b,
  digit_step b (suc a),
  comm_below bound (suc a / 2) (b / 2) (omega arith),
)

pub bit_xor_comm : (a b : ℕ) → bit_xor a b ≡ bit_xor b a
bit_xor_comm a b = comm_below a a b (omega arith)

assoc_below : (bound a b c : ℕ) → a ≤ bound → bit_xor (bit_xor a b) c ≡ bit_xor a (bit_xor b c)
assoc_below bound zero b c h = ap (λ t. bit_xor t c) (zero_xor b) ∙ sym (zero_xor (bit_xor b c))
assoc_below zero (suc a) b c h = absurd (omega arith)
assoc_below (suc bound) (suc a) b c h = omega (
  arith,
  digit_step (suc a) b,
  digit_step b c,
  digit_step (bit_xor (suc a) b) c,
  digit_step (suc a) (bit_xor b c),
  ap (λ t. bit_xor t (c / 2)) (half (suc a) b),
  ap (λ t. bit_xor (suc a / 2) t) (half b c),
  assoc_below bound (suc a / 2) (b / 2) (c / 2) (omega arith),
)

pub bit_xor_assoc : (a b c : ℕ) → bit_xor (bit_xor a b) c ≡ bit_xor a (bit_xor b c)
bit_xor_assoc a b c = assoc_below a a b c (omega arith)

self_below : (bound a : ℕ) → a ≤ bound → bit_xor a a ≡ 0
self_below bound zero h = zero_xor 0
self_below zero (suc a) h = absurd (omega arith)
self_below (suc bound) (suc a) h =
    omega (arith, digit_step (suc a) (suc a), self_below bound (suc a / 2) (omega arith))

pub bit_xor_self : (a : ℕ) → bit_xor a a ≡ 0
bit_xor_self a = self_below a a (omega arith)

pub bit_xor_bound : (k a b : ℕ) → a < 2 ^ k → b < 2 ^ k → bit_xor a b < 2 ^ k
bit_xor_bound zero a b p q =
    let e : a ≡ 0 = omega (arith, p) in
    let f : b ≡ 0 = omega (arith, q) in rw (e, f) (omega (arith, zero_xor 0))
bit_xor_bound (suc k) a b p q = omega (
  arith,
  pow-suc 2 k,
  digit_step a b,
  bit_xor_bound k (a / 2) (b / 2) (omega (arith, pow-suc 2 k)) (omega (arith, pow-suc 2 k)),
)

-- The same number twice goes away.
pub bit_xor_twice : (a b : ℕ) → bit_xor (bit_xor a b) b ≡ a
bit_xor_twice a b = bit_xor_assoc a b b ∙ ap (bit_xor a) (bit_xor_self b) ∙ bit_xor-zero a

-- A digit above a number.
pub bit_xor_power : (k r : ℕ) → r < 2 ^ k → bit_xor r (2 ^ k) ≡ r + 2 ^ k
bit_xor_power zero r h = let e : r ≡ 0 = omega (arith, h) in rw e (zero_xor (2 ^ 0))
bit_xor_power (suc k) r h =
    let below : (2 ^ suc k) / 2 ≡ 2 ^ k = omega (arith, pow-suc 2 k) in
    omega (
      arith,
      pow-suc 2 k,
      digit_step r (2 ^ suc k),
      ap (λ t. bit_xor (r / 2) t) below,
      bit_xor_power k (r / 2) (omega (arith, pow-suc 2 k)),
    )

pub bit_xor_medial :
    (a b c d : ℕ) → bit_xor (bit_xor a b) (bit_xor c d) ≡ bit_xor (bit_xor a c) (bit_xor b d)
bit_xor_medial a b c d =
    bit_xor_assoc a b (bit_xor c d)
    ∙ ap (bit_xor a)
        (sym (bit_xor_assoc b c d) ∙ ap (λ t. bit_xor t d) (bit_xor_comm b c) ∙ bit_xor_assoc c b d)
    ∙ sym (bit_xor_assoc a c (bit_xor b d))
