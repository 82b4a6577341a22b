-- ===== src/Btring/Fill.antt =====
-- src/btring.cpp: `fill` and `at`.
use libnap.Base.{ℕ, zero, suc, ◌+◌, ◌≤◌, ◌<◌, ◌^◌, List, [], ◌∷◌, ◌++◌, none, some, ◌≡◌}
use libnap.Base.{refl, ap, sym, ◌∙◌, arith, length, drop, replicate, append_assoc, get_elem?}
use libnap.Base.{length-append, length-replicate, length-drop, store_next, length-snoc, take-append}
use libnap.Base.{leb, inl, inr, Bool-cases, leb→le, not-leb→lt}
use libnap.Base.{get_elem?-take, get_elem?-eq-none, get_elem?-eq-some}
use libnap.Btring.{Btring, byte, out_of_bounds, bytes, empty, fill, fill_loop, recap, at}
use libnap.Btring.View.{view, IsValid, empty-IsValid, Yields, Yields-front, content_of, length-view}
use libnap.Btring.Resize.{recap_lem}

fill_loop_lem :
    (c n i : ℕ) (p rest : List ℕ)
    → i ≡ length p
    → n ≤ length rest
    → fill_loop c n i (p ++ rest) ≡ some (p ++ (replicate n c ++ drop n rest))
unfolding fill_loop
fill_loop_lem c zero i p rest e h = refl
fill_loop_lem c (suc n) i p [] e h = absurd (omega arith)
fill_loop_lem c (suc n) i p (x ∷ r) e h = rw (store_next p x r i c e) (
    fill_loop_lem c n (i + 1) (p ++ c ∷ []) r (omega (arith, length-snoc p c)) (omega arith)
    ∙ ap some (append_assoc p (c ∷ []) (replicate n c ++ drop n r)))

length-filled :
    (c n : ℕ) (a : List ℕ) → n ≤ length a → length (replicate n c ++ drop n a) ≡ length a
length-filled c n a h =
    omega (arith, length-append (replicate n c) (drop n a), length-replicate n c, length-drop n a)

module _ (fresh : ℕ → List ℕ) (new : (n : ℕ) → length (fresh n) ≡ n) where
  -- `fill` makes any string a well-formed string of `len` bytes `c`, without a fault.
  pub fill_lem :
      (c len : ℕ) (b : Btring) → len < 2 ^ 64 → Yields (fill fresh c len b) (replicate len c)
  unfolding fill
  fill_lem c zero b bound =
      unfold recap in
      (record { value = empty; returned = refl; valid = empty-IsValid; shows = refl })
  fill_lem c (suc n) b bound =
      let (ok, none_yet, room) = recap_lem fresh new (suc n) b bound in
      let (a, is_array) = content_of ok (omega (arith, room)) in
      let a_len : length a ≡ (recap fresh (suc n) b).capacity = rw is_array at ok.allocated in
      let written = fill_loop_lem c (suc n) 0 [] a refl (omega (arith, a_len, room)) in
      rw (is_array, fill)
        (rw written (
          Yields-front _ _ (suc n) _
            (omega (arith, a_len, length-filled c (suc n) a (omega (arith, a_len, room)))) room
            ok.bounded
            (take-append (suc n) (replicate (suc n) c) _ (sym (length-replicate (suc n) c)))))

-- `at` is the list access, with the exception past the last byte.
pub at_lem :
    (b : Btring) (pos : ℕ)
    → IsValid b
    → at b pos ≡ (elim (get_elem? (view b) pos) [ none ↦ out_of_bounds | some c ↦ byte c ])
unfolding at
at_lem b pos v = elim (Bool-cases (leb b.size pos)) [
  | inl past ↦
      let nothing =
        get_elem?-eq-none (view b) pos (omega (arith, length-view v, leb→le _ _ past)) in
      rw past (rw nothing)
  | inr inside ↦
      let before : pos < b.size = not-leb→lt _ _ inside in
      let (c, found) =
        get_elem?-eq-some (bytes b.content) pos (omega (arith, v.allocated, v.fits)) in
      rw inside (rw (get_elem?-take b.size pos (bytes b.content) before) (rw found))
]
