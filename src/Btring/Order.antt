-- ===== src/Btring/Order.antt =====
-- `operator==`, `operator>`, `operator>=`, `operator<` and `operator<=` against the order of
-- byte strings in which the first difference decides, and a proper prefix comes first.
use libnap.Base.{ℕ, zero, suc, ◌≤◌, ◌<◌, ◌^◌, min, List, [], ◌∷◌, some}
use libnap.Base.{◌≡◌, ◌≢◌, ◌⊎◌, inl, inr, refl, ap, ◌∙◌, arith, length, take}
use libnap.Base.{Bool, true, false, not, ltb, leb, ◌==◌, if◌then◌else◌}
use mathlib.Core.Option
use native.Mathlib.Numerals.{towards_suc}
use libnap.Btring.{Btring, bytes, eq, gt, ge, lt, le, memcmp_eq, int_rounds, greater_loop}
use libnap.Btring.View.{view, IsValid, length-view}
use libnap.Base.{Bool-cases, ==_iff, not-==→ne}

-- The specification: `xs` comes after `ys`.
abbrev pub after : List ℕ → List ℕ → Bool
after [] ys = false
after (x ∷ xs) [] = true
after (x ∷ xs) (y ∷ ys) = if x == y then after xs ys else ltb y x

-- The loop over two lists, read from the front.
abbrev compare_front : ℕ → List ℕ → List ℕ → Bool → Bool
compare_front zero a b otherwise = otherwise
compare_front (suc n) [] b otherwise = otherwise
compare_front (suc n) (x ∷ a) [] otherwise = otherwise
compare_front (suc n) (x ∷ a) (y ∷ b) otherwise =
    if x == y then compare_front n a b otherwise else ltb y x

module _ (otherwise : Bool) where
  greater_loop-shift :
      (n i x y : ℕ) (a b : List ℕ)
      → greater_loop n (suc i) (x ∷ a) (y ∷ b) otherwise ≡ greater_loop n i a b otherwise
  unfolding greater_loop
  greater_loop-shift zero i x y a b = refl
  greater_loop-shift (suc n) i x y a b =
      simp towards_suc (rw (greater_loop-shift n (suc i) x y a b))

  greater_loop-front :
      (n : ℕ) (a b : List ℕ)
      → n ≤ length a
      → n ≤ length b
      → greater_loop n 0 a b otherwise ≡ some (compare_front n a b otherwise)
  unfolding greater_loop
  greater_loop-front zero a b p q = refl
  greater_loop-front (suc n) [] b p q = absurd (omega arith)
  greater_loop-front (suc n) (x ∷ a) [] p q = absurd (omega arith)
  greater_loop-front (suc n) (x ∷ a) (y ∷ b) p q =
      ground (
        arith,
        greater_loop-shift n 0 x y a b,
        greater_loop-front n a b (omega arith) (omega arith),
      )

-- The two results for strings of which one is a prefix of the other.
compare_front-after :
    (m n : ℕ) (a b : List ℕ)
    → m ≤ length a
    → n ≤ length b
    → (compare_front (min m n) a b (ltb n m) ≡ after (take m a) (take n b))
      × (compare_front (min m n) a b (leb n m) ≡ not (after (take n b) (take m a)))
compare_front-after zero zero a b p q = (refl, refl)
compare_front-after zero (suc n) a [] p q = absurd (omega arith)
compare_front-after zero (suc n) a (y ∷ b) p q =
    let e : min 0 (suc n) ≡ 0 = omega arith in rw e (ground arith)
compare_front-after (suc m) zero [] b p q = absurd (omega arith)
compare_front-after (suc m) zero (x ∷ a) b p q =
    let e : min (suc m) 0 ≡ 0 = omega arith in rw e (ground arith)
compare_front-after (suc m) (suc n) [] b p q = absurd (omega arith)
compare_front-after (suc m) (suc n) (x ∷ a) [] p q = absurd (omega arith)
compare_front-after (suc m) (suc n) (x ∷ a) (y ∷ b) p q =
    let step : min (suc m) (suc n) ≡ suc (min m n) = omega arith in
    rw step ground (arith, compare_front-after m n a b (omega arith) (omega arith))

int_rounds_lem : (n : ℕ) → n < 2 ^ 31 → int_rounds n ≡ n
unfolding int_rounds
int_rounds_lem n h = ground arith

not-not : (b : Bool) → not (not b) ≡ b
not-not true = refl
not-not false = refl

module _ (a b : Btring) (va : IsValid a) (vb : IsValid b) (ma : a.size < 2 ^ 31)
    (mb : b.size < 2 ^ 31) where
  compared :
      (otherwise : Bool)
      → greater_loop
          (int_rounds (min a.size b.size))
          0
          (bytes a.content)
          (bytes b.content)
          otherwise
        ≡ some (compare_front (min a.size b.size) (bytes a.content) (bytes b.content) otherwise)
  compared otherwise = rw (int_rounds_lem (min a.size b.size) (omega arith)) (
      greater_loop-front otherwise (min a.size b.size) (bytes a.content) (bytes b.content)
        (omega (arith, va.allocated, va.fits)) (omega (arith, vb.allocated, vb.fits)))

  both :
      (compare_front (min a.size b.size) (bytes a.content) (bytes b.content) (ltb b.size a.size)
        ≡ after (view a) (view b))
      × (compare_front (min a.size b.size) (bytes a.content) (bytes b.content) (leb b.size a.size)
          ≡ not (after (view b) (view a)))
  both =
      compare_front-after a.size b.size (bytes a.content) (bytes b.content)
        (omega (arith, va.allocated, va.fits)) (omega (arith, vb.allocated, vb.fits))

  -- Of two well-formed strings shorter than 2^31 bytes the four operators decide the order of
  -- their bytes, reading nothing out of range: `>` and `<` are strict, `>=` and `<=` are not.
  pub order_lem :
      (gt a b ≡ some (after (view a) (view b)))
      × (ge a b ≡ some (not (after (view b) (view a))))
      × (lt a b ≡ some (after (view b) (view a)))
      × (le a b ≡ some (not (after (view a) (view b))))
  unfolding gt ge lt le
  order_lem = (
    compared _ ∙ ap some both.0,
    compared _ ∙ ap some both.1,
    ap (Option.map not) (compared _ ∙ ap some both.1) ∙ ap some (not-not _),
    ap (Option.map not) (compared _ ∙ ap some both.0),
  )

-- Equality.
memcmp_eq_lem :
    (n : ℕ) (a b : List ℕ)
    → n ≤ length a
    → n ≤ length b
    → ((memcmp_eq a b n ≡ some true) × (take n a ≡ take n b))
      ⊎ ((memcmp_eq a b n ≡ some false) × (take n a ≢ take n b))
unfolding memcmp_eq
memcmp_eq_lem zero a b p q = inl (refl, refl)
memcmp_eq_lem (suc n) [] b p q = absurd (omega arith)
memcmp_eq_lem (suc n) (x ∷ a) [] p q = absurd (omega arith)
memcmp_eq_lem (suc n) (x ∷ a) (y ∷ b) p q =
    ground (arith, memcmp_eq_lem n a b (omega arith) (omega arith))

sizes-eq : (a b : Btring) → IsValid a → IsValid b → view a ≡ view b → b.size ≡ a.size
sizes-eq a b va vb e = omega (arith, length-view va, length-view vb, ap length e)

-- `==` of well-formed strings of any length reads nothing out of range, and says whether they
-- have the same bytes.
pub eq_lem :
    (a b : Btring)
    → IsValid a
    → IsValid b
    → ((eq a b ≡ some true) × (view a ≡ view b)) ⊎ ((eq a b ≡ some false) × (view a ≢ view b))
unfolding eq
eq_lem a b va vb = elim (Bool-cases (b.size == a.size)) [
  | inl same ↦
      let e : b.size ≡ a.size = (==_iff _ _).0 same in
      let compared =
        memcmp_eq_lem a.size (bytes b.content) (bytes a.content)
          (omega (arith, vb.allocated, vb.fits, e)) (omega (arith, va.allocated, va.fits)) in
      ground (arith, same, compared)
  | inr differs ↦ inr (rw differs, λ e. not-==→ne _ _ differs (sizes-eq a b va vb e))
]

-- The order of the specification is a strict total order.
pub after_trans : (xs ys zs : List ℕ) → after ys xs ≡ true → after zs ys ≡ true → after zs xs ≡ true
after_trans [] [] [] p q = q
after_trans [] (y ∷ ys) [] p q = absurd (cc)
after_trans [] ys (z ∷ zs) p q = refl
after_trans (x ∷ xs) [] zs p q = absurd (cc)
after_trans (x ∷ xs) (y ∷ ys) [] p q = absurd (cc)
after_trans (x ∷ xs) (y ∷ ys) (z ∷ zs) p q = ground (arith, after_trans xs ys zs)

pub after_trichotomy :
    (xs ys : List ℕ)
    → ((after xs ys ≡ true) × (after ys xs ≡ false) × (xs ≢ ys))
      ⊎ ((after xs ys ≡ false) × (after ys xs ≡ true) × (xs ≢ ys))
      ⊎ ((after xs ys ≡ false) × (after ys xs ≡ false) × (xs ≡ ys))
after_trichotomy [] [] = inr (inr (refl, refl, refl))
after_trichotomy [] (y ∷ ys) = inr (inl (refl, refl, λ e. cc))
after_trichotomy (x ∷ xs) [] = inl (refl, refl, λ e. cc)
after_trichotomy (x ∷ xs) (y ∷ ys) = ground (arith, after_trichotomy xs ys)

-- On well-formed strings shorter than 2^31 bytes, `<` is transitive.
pub lt_trans :
    (a b c : Btring)
    → IsValid a
    → IsValid b
    → IsValid c
    → a.size < 2 ^ 31
    → b.size < 2 ^ 31
    → c.size < 2 ^ 31
    → lt a b ≡ some true
    → lt b c ≡ some true
    → lt a c ≡ some true
lt_trans a b c va vb vc ma mb mc p q =
    let ab = (order_lem a b va vb ma mb).2 in
    let bc = (order_lem b c vb vc mb mc).2 in
    let ac = (order_lem a c va vc ma mc).2 in
    ground (arith, ab, bc, ac, after_trans (view a) (view b) (view c))

-- On well-formed strings shorter than 2^31 bytes, exactly one of `<`, `==` and `>` holds.
pub lt_trichotomy :
    (a b : Btring)
    → IsValid a
    → IsValid b
    → a.size < 2 ^ 31
    → b.size < 2 ^ 31
    → ((lt a b ≡ some true) × (eq a b ≡ some false) × (gt a b ≡ some false))
      ⊎ ((lt a b ≡ some false) × (eq a b ≡ some true) × (gt a b ≡ some false))
      ⊎ ((lt a b ≡ some false) × (eq a b ≡ some false) × (gt a b ≡ some true))
lt_trichotomy a b va vb ma mb =
    let (greater, at_least, less, at_most) = order_lem a b va vb ma mb in
    ground (arith, greater, less, eq_lem a b va vb, after_trichotomy (view a) (view b))
