-- ===== src/Base/Memory.antt =====
-- Arrays of raw memory as lists: reads, writes and copies, which fault out of range.
use Prim.Native.Nat.{ℕ, zero, suc, ◌+◌, ◌≤◌}
use mathlib.Core.Path.{◌≡◌, refl, ap, sym, ◌∙◌}
use mathlib.Core.Bool.{◌&&◌}
use mathlib.Core.List.{List, [], ◌∷◌, ◌++◌, append_assoc}
use mathlib.Core.Option
use mathlib.Core.Option.{Option, none, some}
use native.Mathlib.Omega.{arith}
use libnap.Base.Tests.{leb, if◌then◌else◌}
use libnap.Base.Lists.{length, get_elem?, take, drop, length-append, length-take, length-drop}
use libnap.Base.Lists.{take-append}

module _ {ℓ} {A : Type ℓ} where
  -- `xs[i]`
  abbrev pub load : List A → ℕ → Option A
  load xs i = get_elem? xs i

  -- `xs[i] = v`
  abbrev pub store : List A → ℕ → A → Option (List A)
  store [] i v = none
  store (x ∷ xs) zero v = some (v ∷ xs)
  store (x ∷ xs) (suc i) v = Option.map (λ r. x ∷ r) (store xs i v)

  -- `memcpy(dst + off, src, n)`
  unfoldable pub memcpy : List A → ℕ → List A → ℕ → Option (List A)
  memcpy dst off src n =
      if leb (off + n) (length dst) && leb n (length src)
      then some (take off dst ++ (take n src ++ drop (off + n) dst))
      else none

module _ {ℓ} {A : Type ℓ} where
  pub load-append :
      (p : List A) (x : A) (r : List A) (i : ℕ) → i ≡ length p → load (p ++ x ∷ r) i ≡ some x
  load-append [] x r zero h = refl
  load-append [] x r (suc i) h = absurd (omega arith)
  load-append (y ∷ p) x r zero h = absurd (omega arith)
  load-append (y ∷ p) x r (suc i) h = load-append p x r i (omega arith)

  pub store-append :
      (p : List A) (x : A) (r : List A) (i : ℕ) (v : A)
      → i ≡ length p
      → store (p ++ x ∷ r) i v ≡ some (p ++ v ∷ r)
  store-append [] x r zero v h = refl
  store-append [] x r (suc i) v h = absurd (omega arith)
  store-append (y ∷ p) x r zero v h = absurd (omega arith)
  store-append (y ∷ p) x r (suc i) v h =
      ap (Option.map (λ r. y ∷ r)) (store-append p x r i v (omega arith))

  pub memcpy_lem :
      (dst : List A) (off : ℕ) (src : List A) (n : ℕ)
      → off + n ≤ length dst
      → n ≤ length src
      → memcpy dst off src n ≡ some (take off dst ++ (take n src ++ drop (off + n) dst))
  unfolding memcpy
  memcpy_lem dst off src n h k = ground arith

  -- A copy that stays inside the target keeps its length.
  pub length-copied :
      (dst : List A) (off : ℕ) (src : List A) (n : ℕ)
      → off + n ≤ length dst
      → n ≤ length src
      → length (take off dst ++ (take n src ++ drop (off + n) dst)) ≡ length dst
  length-copied dst off src n h k = omega (
    arith,
    length-append (take off dst) (take n src ++ drop (off + n) dst),
    length-append (take n src) (drop (off + n) dst),
    length-take off dst,
    length-take n src,
    length-drop (off + n) dst,
  )

  -- What stands before the end of the copied part.
  pub take-copied :
      (dst : List A) (off : ℕ) (src : List A) (n m : ℕ)
      → off + n ≤ length dst
      → n ≤ length src
      → m ≡ off + n
      → take m (take off dst ++ (take n src ++ drop (off + n) dst)) ≡ take off dst ++ take n src
  take-copied dst off src n m h k e = rw (← append_assoc) (
      take-append m (take off dst ++ take n src) (drop (off + n) dst) (
        omega (
          arith,
          length-append (take off dst) (take n src),
          length-take off dst,
          length-take n src,
        )))

  -- A copy that stays inside both arrays returns, keeps the target's length, and leaves the
  -- copied bytes behind what stood in front of them.
  pub memcpy_runs :
      (dst : List A) (off : ℕ) (src : List A) (n : ℕ)
      → off + n ≤ length dst
      → n ≤ length src
      → (out : List A) × (memcpy dst off src n ≡ some out)
        × (length out ≡ length dst)
        × (take (off + n) out ≡ take off dst ++ take n src)
  memcpy_runs dst off src n h k = (
    take off dst ++ (take n src ++ drop (off + n) dst),
    memcpy_lem dst off src n h k,
    length-copied dst off src n h k,
    take-copied dst off src n (off + n) h k refl,
  )

  -- A write behind the part `p` that is already written.
  pub store_next :
      (p : List A) (x : A) (r : List A) (i : ℕ) (v : A)
      → i ≡ length p
      → store (p ++ x ∷ r) i v ≡ some ((p ++ v ∷ []) ++ r)
  store_next p x r i v h = store-append p x r i v h ∙ ap some (sym (append_assoc p (v ∷ []) r))

  pub snoc-append : (p : List A) (v : A) (r : List A) → p ++ v ∷ r ≡ (p ++ v ∷ []) ++ r
  snoc-append p v r = sym (append_assoc p (v ∷ []) r)

  -- Two elements in between, grouped to either side.
  pub snoc_snoc-append :
      (p : List A) (v w : A) (r : List A) → ((p ++ v ∷ []) ++ w ∷ []) ++ r ≡ p ++ v ∷ w ∷ r
  snoc_snoc-append p v w r = append_assoc (p ++ v ∷ []) (w ∷ []) r ∙ append_assoc p (v ∷ []) (w ∷ r)

  pub length-snoc : (p : List A) (v : A) → length (p ++ v ∷ []) ≡ length p + 1
  length-snoc p v = length-append p (v ∷ [])

  pub load_next :
      (p : List A) (x y : A) (r : List A) (i : ℕ)
      → i ≡ length p + 1
      → load (p ++ x ∷ y ∷ r) i ≡ some y
  load_next p x y r i h =
      ap (λ l. load l i) (sym (append_assoc p (x ∷ []) (y ∷ r)))
      ∙ load-append (p ++ x ∷ []) y r i (omega (arith, length-snoc p x))

  -- An access behind a prefix.
  pub load_behind : (p xs : List A) (i k : ℕ) → i ≡ length p + k → load (p ++ xs) i ≡ load xs k
  load_behind [] xs i k h = ap (load xs) (omega arith)
  load_behind (y ∷ p) xs zero k h = absurd (omega arith)
  load_behind (y ∷ p) xs (suc i) k h = load_behind p xs i k (omega arith)

  pub store_behind :
      (p xs : List A) (i k : ℕ) (v : A) (ys : List A)
      → i ≡ length p + k
      → store xs k v ≡ some ys
      → store (p ++ xs) i v ≡ some (p ++ ys)
  store_behind [] xs i k v ys h e = let same : i ≡ k = omega arith in rw same e
  store_behind (y ∷ p) xs zero k v ys h e = absurd (omega arith)
  store_behind (y ∷ p) xs (suc i) k v ys h e =
      ap (Option.map (λ r. y ∷ r)) (store_behind p xs i k v ys (omega arith) e)
