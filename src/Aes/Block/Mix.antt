-- ===== src/Aes/Block/Mix.antt =====
-- src/aes.h, `mixcolumns` and `invmixcolumns` on a column, with the lookup tables of src/aes.cpp.
use libnap.Base.{
  ℕ, zero, suc, ◌-◌, ◌<◌, ◌≤◌, ◌^◌, bit_xor, List, true, ◌≡◌, refl, ap, sym, ◌∙◌, arith,
}
use libnap.Base.{
  each_below, each_below_lem, ◌==◌, ==_iff, ltb, ltb→lt, inl, inr, Bool-cases, not-ltb→le,
}
use libnap.Base.{
  bit_xor_comm, bit_xor_assoc, bit_xor_bound, bit_xor_power, bit_xor_medial, bit_xor-zero,
}
use native.Mathlib.Nat.{pow-suc}
use libnap.Aes.Tables.{gm_2, gm_3, gm_9, gm_b, gm_d, gm_e}
use libnap.Aes.Block.{at, xor4, mix_column, inv_mix_column}

-- Sums of four.
xor4_sum :
    (a b c d a' b' c' d' : ℕ)
    → bit_xor (xor4 a b c d) (xor4 a' b' c' d')
      ≡ xor4 (bit_xor a a') (bit_xor b b') (bit_xor c c') (bit_xor d d')
xor4_sum a b c d a' b' c' d' =
    bit_xor_medial (bit_xor (bit_xor a b) c) d (bit_xor (bit_xor a' b') c') d'
    ∙ ap (λ t. bit_xor t (bit_xor d d'))
        (bit_xor_medial (bit_xor a b) c (bit_xor a' b') c'
          ∙ ap (λ t. bit_xor t (bit_xor c c')) (bit_xor_medial a b a' b'))

xor4_turn : (a b c d : ℕ) → xor4 a b c d ≡ xor4 b c d a
xor4_turn a b c d =
    ap (λ t. bit_xor t d) (bit_xor_assoc a b c)
    ∙ bit_xor_assoc a (bit_xor b c) d
    ∙ bit_xor_comm a (bit_xor (bit_xor b c) d)

xor4_bound : (a b c d : ℕ) → a < 256 → b < 256 → c < 256 → d < 256 → xor4 a b c d < 256
xor4_bound a b c d p q r s =
    bit_xor_bound 8 (bit_xor (bit_xor a b) c) d
      (bit_xor_bound 8 (bit_xor a b) c (bit_xor_bound 8 a b p q) r) s

transpose :
    (a b c d a' b' c' d' e f g h e' f' g' h' : ℕ)
    → xor4 (xor4 a b c d) (xor4 a' b' c' d') (xor4 e f g h) (xor4 e' f' g' h')
      ≡ xor4 (xor4 a a' e e') (xor4 b b' f f') (xor4 c c' g g') (xor4 d d' h h')
transpose a b c d a' b' c' d' e f g h e' f' g' h' =
    ap (λ t. bit_xor (bit_xor t (xor4 e f g h)) (xor4 e' f' g' h')) (xor4_sum a b c d a' b' c' d')
    ∙ ap (λ t. bit_xor t (xor4 e' f' g' h'))
        (xor4_sum (bit_xor a a') (bit_xor b b') (bit_xor c c') (bit_xor d d') e f g h)
    ∙ xor4_sum (bit_xor (bit_xor a a') e) (bit_xor (bit_xor b b') f) (bit_xor (bit_xor c c') g)
        (bit_xor (bit_xor d d') h) e' f' g' h'

-- A table that respects `^` with each power of two respects `^`.
module _ (t : List ℕ)
    (digits : each_below 256
        (λ x. each_below 8 (λ i. at t (bit_xor x (2 ^ i)) == bit_xor (at t x) (at t (2 ^ i))))
      ≡ true)
    (origin : at t 0 ≡ 0) where
  at_digit :
      (x i : ℕ) → x < 256 → i < 8 → at t (bit_xor x (2 ^ i)) ≡ bit_xor (at t x) (at t (2 ^ i))
  at_digit x i p q = (==_iff _ _).0 (each_below_lem 8 _ i (each_below_lem 256 _ x digits p) q)

  at_below :
      (k x y : ℕ)
      → k ≤ 8
      → x < 256
      → y < 2 ^ k
      → y < 256
      → at t (bit_xor x y) ≡ bit_xor (at t x) (at t y)
  at_below zero x y few p q q' =
      let e : y ≡ 0 = omega (arith, q) in rw (e, bit_xor-zero x, origin, bit_xor-zero (at t x)) refl
  at_below (suc k) x y few p q q' = elim (Bool-cases (ltb y (2 ^ k))) [
    | inl low ↦ at_below k x y (omega arith) p (ltb→lt _ _ low) q'
    | inr high ↦
        let r = y - 2 ^ k in
        let less : r < 2 ^ k = omega (arith, pow-suc 2 k, not-ltb→le _ _ high) in
        let parts : bit_xor r (2 ^ k) ≡ y =
          bit_xor_power k r less ∙ omega (arith, not-ltb→le _ _ high) in
        let small : r < 256 = omega (arith, q') in
        ap (λ s. at t (bit_xor x s)) (sym parts)
        ∙ ap (at t) (sym (bit_xor_assoc x r (2 ^ k)))
        ∙ at_digit (bit_xor x r) k (bit_xor_bound 8 x r p small) (omega arith)
        ∙ ap (λ s. bit_xor s (at t (2 ^ k))) (at_below k x r (omega arith) p less small)
        ∙ bit_xor_assoc (at t x) (at t r) (at t (2 ^ k))
        ∙ ap (bit_xor (at t x)) (sym (at_digit r k small (omega arith)) ∙ ap (at t) parts)
  ]

  at-xor4 :
      (a b c d : ℕ)
      → a < 256
      → b < 256
      → c < 256
      → d < 256
      → at t (xor4 a b c d) ≡ xor4 (at t a) (at t b) (at t c) (at t d)
  at-xor4 a b c d p q r s =
      let ab = bit_xor_bound 8 a b p q in
      at_below 8 (bit_xor (bit_xor a b) c) d (omega arith) (bit_xor_bound 8 (bit_xor a b) c ab r) s
        s
      ∙ ap (λ v. bit_xor v (at t d))
          (at_below 8 (bit_xor a b) c (omega arith) ab r r
            ∙ ap (λ v. bit_xor v (at t c)) (at_below 8 a b (omega arith) p q q))

abbrev Respects : List ℕ → Type 0
Respects t =
    (a b c d : ℕ)
    → a < 256
    → b < 256
    → c < 256
    → d < 256
    → at t (xor4 a b c d) ≡ xor4 (at t a) (at t b) (at t c) (at t d)

gm_9-Respects : Respects gm_9
unfolding each_below
gm_9-Respects = at-xor4 gm_9 refl refl

gm_b-Respects : Respects gm_b
unfolding each_below
gm_b-Respects = at-xor4 gm_b refl refl

gm_d-Respects : Respects gm_d
unfolding each_below
gm_d-Respects = at-xor4 gm_d refl refl

gm_e-Respects : Respects gm_e
unfolding each_below
gm_e-Respects = at-xor4 gm_e refl refl

-- The products of the two matrices, and the bounds, on each byte.
products :
    (each_below 256
        (λ a. xor4 (at gm_e (at gm_2 a)) (at gm_b a) (at gm_d a) (at gm_9 (at gm_3 a)) == a)
      ≡ true)
    × (each_below 256
          (λ b. xor4 (at gm_e (at gm_3 b)) (at gm_b (at gm_2 b)) (at gm_d b) (at gm_9 b) == 0)
        ≡ true)
    × (each_below 256
          (λ c. xor4 (at gm_e c) (at gm_b (at gm_3 c)) (at gm_d (at gm_2 c)) (at gm_9 c) == 0)
        ≡ true)
    × (each_below 256
          (λ d. xor4 (at gm_e d) (at gm_b d) (at gm_d (at gm_3 d)) (at gm_9 (at gm_2 d)) == 0)
        ≡ true)
unfolding each_below
products = (refl, refl, refl, refl)

bounds :
    (each_below 256 (λ a. ltb (at gm_2 a) 256) ≡ true)
    × (each_below 256 (λ a. ltb (at gm_3 a) 256) ≡ true)
unfolding each_below
bounds = (refl, refl)

two_bound : (a : ℕ) → a < 256 → at gm_2 a < 256
two_bound a h = ltb→lt _ _ (each_below_lem 256 _ a bounds.0 h)

three_bound : (a : ℕ) → a < 256 → at gm_3 a < 256
three_bound a h = ltb→lt _ _ (each_below_lem 256 _ a bounds.1 h)

-- The row of the product that gives the first byte.
first_row :
    (a b c d : ℕ)
    → a < 256
    → b < 256
    → c < 256
    → d < 256
    → xor4
        (at gm_e (xor4 (at gm_2 a) (at gm_3 b) c d))
        (at gm_b (xor4 a (at gm_2 b) (at gm_3 c) d))
        (at gm_d (xor4 a b (at gm_2 c) (at gm_3 d)))
        (at gm_9 (xor4 (at gm_3 a) b c (at gm_2 d)))
      ≡ a
first_row a b c d p q r s =
    let e = gm_e-Respects (at gm_2 a) (at gm_3 b) c d (two_bound a p) (three_bound b q) r s in
    let f = gm_b-Respects a (at gm_2 b) (at gm_3 c) d p (two_bound b q) (three_bound c r) s in
    let g = gm_d-Respects a b (at gm_2 c) (at gm_3 d) p q (two_bound c r) (three_bound d s) in
    let h = gm_9-Respects (at gm_3 a) b c (at gm_2 d) (three_bound a p) q r (two_bound d s) in
    let one = (==_iff _ _).0 (each_below_lem 256 _ a products.0 p) in
    let two = (==_iff _ _).0 (each_below_lem 256 _ b products.1 q) in
    let three = (==_iff _ _).0 (each_below_lem 256 _ c products.2 r) in
    let four = (==_iff _ _).0 (each_below_lem 256 _ d products.3 s) in
    rw (e, f, g, h)
      (transpose _ _ _ _ _ _ _ _ _ _ _ _ _ _ _ _
        ∙ rw (one, two, three, four)
            (bit_xor-zero (bit_xor (bit_xor a 0) 0) ∙ bit_xor-zero (bit_xor a 0) ∙ bit_xor-zero a))

pub mix_column_bound :
    (p q r s : ℕ)
    → p < 256
    → q < 256
    → r < 256
    → s < 256
    → let m = mix_column (record { c0 = p; c1 = q; c2 = r; c3 = s }) in
      (m.c0 < 256) × (m.c1 < 256) × (m.c2 < 256) × (m.c3 < 256)
unfolding mix_column
mix_column_bound p q r s hp hq hr hs = (
  xor4_bound _ _ _ _ (two_bound p hp) (three_bound q hq) hr hs,
  xor4_bound _ _ _ _ hp (two_bound q hq) (three_bound r hr) hs,
  xor4_bound _ _ _ _ hp hq (two_bound r hr) (three_bound s hs),
  xor4_bound _ _ _ _ (three_bound p hp) hq hr (two_bound s hs),
)

-- A row of the inverse on the sums in the order in which its first row has them, from the order of
-- the source.
turned :
    {w w' x x' y y' z z' : ℕ}
    → w ≡ w'
    → x ≡ x'
    → y ≡ y'
    → z ≡ z'
    → xor4 (at gm_e w) (at gm_b x) (at gm_d y) (at gm_9 z)
      ≡ xor4 (at gm_e w') (at gm_b x') (at gm_d y') (at gm_9 z')
turned {w} {x} {y} {z} p q r s = rw (sym p, sym q, sym r, sym s) refl

pub inv_mix_column-mix_column :
    (p q r s : ℕ)
    → p < 256
    → q < 256
    → r < 256
    → s < 256
    → inv_mix_column (mix_column (record { c0 = p; c1 = q; c2 = r; c3 = s }))
      ≡ record { c0 = p; c1 = q; c2 = r; c3 = s }
unfolding mix_column inv_mix_column
inv_mix_column-mix_column p q r s hp hq hr hs =
    let m0 = xor4_turn (at gm_2 p) (at gm_3 q) r s in
    let m1 = xor4_turn p (at gm_2 q) (at gm_3 r) s in
    let m2 = xor4_turn p q (at gm_2 r) (at gm_3 s) in
    let m3 = xor4_turn (at gm_3 p) q r (at gm_2 s) in
    let n0 = m0 ∙ xor4_turn (at gm_3 q) r s (at gm_2 p) in
    let n1 = m1 ∙ xor4_turn (at gm_2 q) (at gm_3 r) s p in
    let n2 = m2 ∙ xor4_turn q (at gm_2 r) (at gm_3 s) p in
    let n3 = m3 ∙ xor4_turn q r (at gm_2 s) (at gm_3 p) in
    let o0 = n0 ∙ xor4_turn r s (at gm_2 p) (at gm_3 q) in
    let o1 = n1 ∙ xor4_turn (at gm_3 r) s p (at gm_2 q) in
    let o2 = n2 ∙ xor4_turn (at gm_2 r) (at gm_3 s) p q in
    let o3 = n3 ∙ xor4_turn r (at gm_2 s) (at gm_3 p) q in
    let zeroth = first_row p q r s hp hq hr hs in
    let first = xor4_turn _ _ _ _ ∙ turned m1 m2 m3 m0 ∙ first_row q r s p hq hr hs hp in
    let second =
      xor4_turn _ _ _ _ ∙ xor4_turn _ _ _ _ ∙ turned n2 n3 n0 n1 ∙ first_row r s p q hr hs hp hq in
    let third =
      xor4_turn _ _ _ _
      ∙ xor4_turn _ _ _ _
      ∙ xor4_turn _ _ _ _
      ∙ turned o3 o0 o1 o2
      ∙ first_row s p q r hs hp hq hr in
    rw (zeroth, first, second, third) refl
