-- ===== src/Base/Bits.antt =====
-- Laws of `&`, `|` and `^` on numbers of every width, from the recursion on binary digits, and
-- the check of a law on all bytes by evaluation.
use Prim.Native.Nat.{ℕ, zero, suc, ◌+◌, ◌-◌, ◌*◌, ◌/◌, ◌%◌, ◌^◌, ◌≤◌, ◌<◌, min, max}
use Prim.Native.Nat.{bit_and, bit_or, bit_xor, digits, differ}
use Prim.Native.Nat.{bit_and-bitwise, bit_or-bitwise, bit_xor-bitwise}
use mathlib.Core.Path.{◌≡◌, refl, sym, ap, ◌∙◌}
use mathlib.Core.Bool.{Bool, true, ◌&&◌}
use native.Mathlib.Nat.{pow-suc, one-le-pow}
use native.Mathlib.Omega.{arith}

-- A test that every number below the bound passes.
unfoldable pub each_below : ℕ → (ℕ → Bool) → Bool
each_below zero test = true
each_below (suc top) test = each_below top test && test top

pub each_below_lem :
    (bound : ℕ) (test : ℕ → Bool) (n : ℕ) → each_below bound test ≡ true → n < bound → test n ≡ true
unfolding each_below
each_below_lem zero test n passed less = absurd (omega arith)
each_below_lem (suc top) test n passed less = ground (arith, each_below_lem top test n)

-- An operation on digits, with the value `rest` where the first number is used up and `op` on two
-- digits. Fuel beyond the first number is not used.
module _ (rest : ℕ → ℕ) (op : ℕ → ℕ → ℕ) where
  used_up : (fuel y : ℕ) → digits rest op fuel 0 y ≡ rest y
  used_up zero y = refl
  used_up (suc fuel) y = refl

  spare : (bound more x y : ℕ) → x ≤ bound → digits rest op (x + more) x y ≡ digits rest op x x y
  spare bound more zero y h = used_up (0 + more) y
  spare zero more (suc x) y h = absurd (omega arith)
  spare (suc bound) more (suc x) y h =
      let half = suc x / 2 in
      let first : suc x + more ≡ suc (half + (x - half + more)) = omega arith in
      let second : x ≡ half + (x - half) = omega arith in
      let long = spare bound (x - half + more) half (y / 2) (omega arith) in
      let short =
        ap (λ fuel. digits rest op fuel half (y / 2)) second
        ∙ spare bound (x - half) half (y / 2) (omega arith) in
      ap (λ fuel. digits rest op fuel (suc x) y) first
      ∙ ap (λ (high : ℕ). high * 2 + op (suc x % 2) (y % 2)) (long ∙ sym short)

  halves :
      (law : (y : ℕ) → rest y ≡ rest (y / 2) * 2 + op 0 (y % 2)) (x y : ℕ)
      → digits rest op x x y ≡ digits rest op (x / 2) (x / 2) (y / 2) * 2 + op (x % 2) (y % 2)
  halves law zero y = law y
  halves law (suc x) y =
      let half = suc x / 2 in
      let split : x ≡ half + (x - half) = omega arith in
      ap (λ (high : ℕ). high * 2 + op (suc x % 2) (y % 2))
        (ap (λ fuel. digits rest op fuel half (y / 2)) split
          ∙ spare half (x - half) half (y / 2) (omega arith))

pub bit_and_step : (a b : ℕ) → bit_and a b ≡ bit_and (a / 2) (b / 2) * 2 + min (a % 2) (b % 2)
bit_and_step a b = simp bit_and-bitwise (halves (λ y. 0) min (λ y. omega arith) a b)

pub bit_or_step : (a b : ℕ) → bit_or a b ≡ bit_or (a / 2) (b / 2) * 2 + max (a % 2) (b % 2)
bit_or_step a b = simp bit_or-bitwise (halves (λ y. y) max (λ y. omega arith) a b)

pub bit_xor_step : (a b : ℕ) → bit_xor a b ≡ bit_xor (a / 2) (b / 2) * 2 + differ (a % 2) (b % 2)
bit_xor_step a b = simp bit_xor-bitwise (halves (λ y. y) differ (λ y. omega arith) a b)

-- `x & 0`, `x | 0` and `x ^ 0`, with a bound to recur on.
zero-laws : (n a : ℕ) → a ≤ n → (bit_and a 0 ≡ 0) × (bit_or a 0 ≡ a) × (bit_xor a 0 ≡ a)
zero-laws n zero h = (refl, refl, refl)
zero-laws zero (suc a) h = absurd (omega arith)
zero-laws (suc n) (suc a) h =
    let below = zero-laws n (suc a / 2) (omega arith) in
    (
      omega (arith, bit_and_step (suc a) 0, below.0),
      omega (arith, bit_or_step (suc a) 0, below.1),
      omega (arith, bit_xor_step (suc a) 0, below.2, differ-zero (suc a % 2)),
    )
  where
    differ-zero : (n : ℕ) → differ n 0 ≡ n
    differ-zero zero = refl
    differ-zero (suc n) = refl

pub bit_and-zero : (a : ℕ) → bit_and a 0 ≡ 0
bit_and-zero a = (zero-laws a a (omega arith)).0

pub bit_or-zero : (a : ℕ) → bit_or a 0 ≡ a
bit_or-zero a = (zero-laws a a (omega arith)).1

pub bit_xor-zero : (a : ℕ) → bit_xor a 0 ≡ a
bit_xor-zero a = (zero-laws a a (omega arith)).2

pub double_power : (q k : ℕ) → q * 2 ^ suc k ≡ (q * 2 ^ k) * 2
double_power q k = omega (arith, ap (λ (t : ℕ). q * t) (pow-suc 2 k))

-- A field of `k` bits beside a multiple of `2 ^ k`: `|` adds, and the mask of `k` ones selects.
pub bit_or-add : (k q r : ℕ) → r < 2 ^ k → bit_or (q * 2 ^ k) r ≡ q * 2 ^ k + r
bit_or-add zero q r h = ground (arith, bit_or-zero q)
bit_or-add (suc k) q r h = ground (
  arith,
  double_power q k,
  bit_or_step (q * 2 ^ suc k) r,
  bit_or-add k q (r / 2) (omega (arith, pow-suc 2 k)),
)

mask_field : (k q r : ℕ) → r < 2 ^ k → bit_and (q * 2 ^ k + r) (2 ^ k - 1) ≡ r
mask_field zero q r h = rw bit_and-zero (omega arith)
mask_field (suc k) q r h = ground (
  arith,
  double_power q k,
  pow-suc 2 k,
  one-le-pow k 2,
  bit_and_step (q * 2 ^ suc k + r) (2 ^ suc k - 1),
  mask_field k q (r / 2) (omega (arith, pow-suc 2 k)),
)

pub bit_and-mod : (k a : ℕ) → bit_and a (2 ^ k - 1) ≡ a % 2 ^ k
bit_and-mod k a = ground (arith, one-le-pow k 2, mask_field k (a / 2 ^ k) (a % 2 ^ k))

or_comm-below : (n a b : ℕ) → a ≤ n → bit_or a b ≡ bit_or b a
or_comm-below n zero b h =
    let e : bit_or 0 b ≡ b = simp bit_or-bitwise refl in e ∙ sym (bit_or-zero b)
or_comm-below zero (suc a) b h = absurd (omega arith)
or_comm-below (suc n) (suc a) b h = omega (
  arith,
  bit_or_step (suc a) b,
  bit_or_step b (suc a),
  or_comm-below n (suc a / 2) (b / 2) (omega arith),
)

pub bit_or_comm : (a b : ℕ) → bit_or a b ≡ bit_or b a
bit_or_comm a b = or_comm-below a a b (omega arith)

-- A mask above `k` digits.
and_field : (k q r m : ℕ) → r < 2 ^ k → bit_and (q * 2 ^ k + r) (m * 2 ^ k) ≡ bit_and q m * 2 ^ k
and_field zero q r m h =
    let e : q * 2 ^ 0 + r ≡ q = omega (arith, h) in
    let f : m * 2 ^ 0 ≡ m = omega arith in rw (e, f) (omega arith)
and_field (suc k) q r m h = ground (
  arith,
  double_power q k,
  double_power m k,
  double_power (bit_and q m) k,
  bit_and_step (q * 2 ^ suc k + r) (m * 2 ^ suc k),
  and_field k q (r / 2) m (omega (arith, pow-suc 2 k)),
)

-- A mask of eight ones.
pub byte_field : (k n : ℕ) → bit_and n (255 * 2 ^ k) ≡ n / 2 ^ k % 256 * 2 ^ k
byte_field k n =
    let e : n / 2 ^ k * 2 ^ k + n % 2 ^ k ≡ n = ground (arith, one-le-pow k 2) in
    ap (λ t. bit_and t (255 * 2 ^ k)) (sym e)
    ∙ and_field k (n / 2 ^ k) (n % 2 ^ k) 255 (ground (arith, one-le-pow k 2))
    ∙ ap (λ (t : ℕ). t * 2 ^ k) (bit_and-mod 8 (n / 2 ^ k))
