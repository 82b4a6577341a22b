-- ===== src/Aes/Key/Reverse.antt =====
-- src/aes.cpp, the end of `_key_expansion`: the round keys in the reverse order.
use libnap.Base.{
  ℕ, zero, suc, ◌+◌, ◌-◌, ◌*◌, ◌≤◌, ◌<◌, ◌≢◌, List, [], ◌∷◌, ◌≡◌, refl, ap, ◌∙◌, arith,
}
use libnap.Base.{get_or, set, length, length-set}
use libnap.Aes.Key.{reverse_keys}

get_or-set : (l : List ℕ) (i x : ℕ) → i < length l → get_or (set l i x) i 0 ≡ x
get_or-set [] i x h = absurd (omega arith)
get_or-set (y ∷ l) zero x h = refl
get_or-set (y ∷ l) (suc i) x h = get_or-set l i x (omega (arith, h))

get_or-set_other : (l : List ℕ) (i j x : ℕ) → i ≢ j → get_or (set l i x) j 0 ≡ get_or l j 0
get_or-set_other [] i j x h = refl
get_or-set_other (y ∷ l) zero zero x h = absurd (h refl)
get_or-set_other (y ∷ l) zero (suc j) x h = refl
get_or-set_other (y ∷ l) (suc i) zero x h = refl
get_or-set_other (y ∷ l) (suc i) (suc j) x h = get_or-set_other l i j x (λ e. h (ap suc e))

-- The four words at two places are the same.
pub record SameWords (ke : List ℕ) (re : ℕ) (kd : List ℕ) (rd : ℕ) : Type 0 where
  pub w0 : get_or kd rd 0 ≡ get_or ke re 0
  pub w1 : get_or kd (rd + 1) 0 ≡ get_or ke (re + 1) 0
  pub w2 : get_or kd (rd + 2) 0 ≡ get_or ke (re + 2) 0
  pub w3 : get_or kd (rd + 3) 0 ≡ get_or ke (re + 3) 0

-- The array after the four writes of a round.
abbrev written : List ℕ → ℕ → ℕ → List ℕ → List ℕ
written ke e d kd =
    set
      (set (set (set kd d (get_or ke e 0)) (d + 1) (get_or ke (e + 1) 0)) (d + 2)
        (get_or ke (e + 2) 0))
      (d + 3) (get_or ke (e + 3) 0)

length-written : (ke : List ℕ) (e d : ℕ) (kd : List ℕ) → length (written ke e d kd) ≡ length kd
length-written ke e d kd =
    length-set _ (d + 3) _ ∙ length-set _ (d + 2) _ ∙ length-set _ (d + 1) _ ∙ length-set kd d _

written-above :
    (ke : List ℕ) (e d : ℕ) (kd : List ℕ) (j : ℕ)
    → d + 4 ≤ j
    → get_or (written ke e d kd) j 0 ≡ get_or kd j 0
written-above ke e d kd j h =
    get_or-set_other _ (d + 3) j _ (λ x. omega (arith, x, h))
    ∙ get_or-set_other _ (d + 2) j _ (λ x. omega (arith, x, h))
    ∙ get_or-set_other _ (d + 1) j _ (λ x. omega (arith, x, h))
    ∙ get_or-set_other kd d j _ (λ x. omega (arith, x, h))

written-SameWords :
    (ke : List ℕ) (e d : ℕ) (kd : List ℕ) → d + 4 ≤ length kd → SameWords ke e (written ke e d kd) d
written-SameWords ke e d kd h =
    let k0 = set kd d (get_or ke e 0) in
    let k1 = set k0 (d + 1) (get_or ke (e + 1) 0) in
    let k2 = set k1 (d + 2) (get_or ke (e + 2) 0) in
    let l0 = length-set kd d (get_or ke e 0) in
    let l1 = length-set k0 (d + 1) (get_or ke (e + 1) 0) in
    let l2 = length-set k1 (d + 2) (get_or ke (e + 2) 0) in
    record {
      w0 =
          get_or-set_other k2 (d + 3) d _ (λ x. omega (arith, x))
          ∙ get_or-set_other k1 (d + 2) d _ (λ x. omega (arith, x))
          ∙ get_or-set_other k0 (d + 1) d _ (λ x. omega (arith, x))
          ∙ get_or-set kd d _ (omega (arith, h));
      w1 =
          get_or-set_other k2 (d + 3) (d + 1) _ (λ x. omega (arith, x))
          ∙ get_or-set_other k1 (d + 2) (d + 1) _ (λ x. omega (arith, x))
          ∙ get_or-set k0 (d + 1) _ (omega (arith, h, l0));
      w2 =
          get_or-set_other k2 (d + 3) (d + 2) _ (λ x. omega (arith, x))
          ∙ get_or-set k1 (d + 2) _ (omega (arith, h, l0, l1));
      w3 = get_or-set k2 (d + 3) _ (omega (arith, h, l0, l1, l2));
    }

above_kept :
    (n e d : ℕ) (ke kd : List ℕ) (j : ℕ)
    → d ≡ 4 * n - 4
    → 4 * n ≤ j
    → get_or (reverse_keys n e d ke kd) j 0 ≡ get_or kd j 0
unfolding reverse_keys
above_kept zero e d ke kd j at_d h = refl
above_kept (suc n) e d ke kd j at_d h =
    above_kept n (e + 4) (d - 4) ke (written ke e d kd) j (omega (arith, at_d)) (omega (arith, h))
    ∙ written-above ke e d kd j (omega (arith, at_d, h))

-- The `k`th group of four from the index `e` on is the group of four that leaves `k` above it.
pub reverse_keys_lem :
    (n k b e d : ℕ) (ke kd : List ℕ)
    → d ≡ 4 * n - 4
    → k + b + 1 ≡ n
    → 4 * n ≤ length kd
    → SameWords ke (e + 4 * k) (reverse_keys n e d ke kd) (4 * b)
unfolding reverse_keys
reverse_keys_lem zero k b e d ke kd at_d total room = absurd (omega (arith, total))
reverse_keys_lem (suc n) zero b e d ke kd at_d total room =
    let top : 4 * b ≡ d = omega (arith, at_d, total) in
    let from : e + 4 * 0 ≡ e = omega arith in
    let w = written-SameWords ke e d kd (omega (arith, at_d, room)) in
    let kept = (λ (j : ℕ) (h : d ≤ j).
      above_kept n (e + 4) (d - 4) ke (written ke e d kd) j (omega (arith, at_d))
        (omega (arith, h, at_d))) in
    rw (top, from)
      (record {
        w0 = kept d (omega arith) ∙ w.w0;
        w1 = kept (d + 1) (omega arith) ∙ w.w1;
        w2 = kept (d + 2) (omega arith) ∙ w.w2;
        w3 = kept (d + 3) (omega arith) ∙ w.w3;
      })
reverse_keys_lem (suc n) (suc k) b e d ke kd at_d total room =
    let from : e + 4 * suc k ≡ e + 4 + 4 * k = omega arith in
    rw from (
      reverse_keys_lem n k b (e + 4) (d - 4) ke (written ke e d kd) (omega (arith, at_d))
        (omega (arith, total)) (omega (arith, room, length-written ke e d kd)))
