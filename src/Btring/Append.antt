-- ===== src/Btring/Append.antt =====
-- src/btring.cpp: `_append`, and the operations that are made of it.
use libnap.Base.{ℕ, zero, suc, ◌+◌, ◌*◌, ◌/◌, ◌≤◌, ◌<◌, ◌^◌, bit_or, List, ◌++◌, Option, none, some}
use libnap.Base.{◌≡◌, refl, ap, sym, ◌∙◌, arith, length, take, length-append}
use libnap.Base.{memcpy_runs}
use libnap.Base.{bit_or_step, bit_or-zero, inl, inr, Bool-cases, ltb}
use native.Mathlib.Nat.{zero-add}
use libnap.Base.{u64, append-nil, lt→ltb, ne→not-==, not-ltb→le}
use libnap.Btring.{
  Btring, bytes, empty, moved, grown, extended, append, append_btring, plus, of_bytes,
}
use libnap.Btring.View.{
  view, IsValid, Yields, length-view, content_of, Yields-front, Yields-bind, Yields-eq,
  empty-IsValid,
}
use libnap.Btring.Resize.{of_size_lem}

bit_or_fifteen : (t : ℕ) → bit_or t 15 ≡ t / 16 * 16 + 15
bit_or_fifteen t = omega (
  arith,
  bit_or_step t 15,
  bit_or_step (t / 2) 7,
  bit_or_step (t / 2 / 2) 3,
  bit_or_step (t / 2 / 2 / 2) 1,
  bit_or-zero (t / 2 / 2 / 2 / 2),
)

-- The string's bytes are at the front of the array that `moved` returns.
moved_lem :
    (temp : List ℕ) (content : Option (List ℕ)) (size : ℕ)
    → size ≤ length (bytes content)
    → size ≤ length temp
    → (out : List ℕ) × (moved temp content size ≡ some out)
      × (length out ≡ length temp)
      × (take size out ≡ take size (bytes content))
unfolding moved
moved_lem temp none zero h room = (temp, refl, refl, refl)
moved_lem temp none (suc n) h room = absurd (omega arith)
moved_lem temp (some c) zero h room = (temp, refl, refl, refl)
moved_lem temp (some c) (suc n) h room =
    let (out, runs, len, front) = memcpy_runs temp 0 c (suc n) (omega arith) h in
    (out, rw (lt→ltb 0 (suc n) (omega arith)) runs, len, rw zero-add at front)

grown_lem :
    (temp : List ℕ) (total : ℕ) (b : Btring) (src : List ℕ) (n : ℕ)
    → IsValid b
    → n ≤ length src
    → length temp ≡ total
    → b.size + n ≤ total
    → total < 2 ^ 64
    → Yields (grown temp total b src n) (view b ++ take n src)
unfolding grown
grown_lem temp total b src n v readable same room bound =
    let (t, runs, len, front) =
      moved_lem temp b.content b.size (omega (arith, v.allocated, v.fits)) (omega arith) in
    let (out, runs', len', front') = memcpy_runs t b.size src n (omega (arith, len)) readable in
    let size : u64 (n + b.size) ≡ b.size + n = omega (arith, len) in
    rw (runs, runs')
      (Yields-front out total _ _ (len' ∙ len ∙ same) (omega arith) bound
        (rw size (front' ∙ ap (λ p. p ++ take n src) front)))

extended_lem :
    (b : Btring) (src : List ℕ) (n : ℕ)
    → IsValid b
    → n ≤ length src
    → b.size + n ≤ b.capacity
    → 0 < b.capacity
    → Yields (extended b src n) (view b ++ take n src)
unfolding extended
extended_lem b src n v readable room pos =
    let (c, is_array) = content_of v pos in
    let c_len : length c ≡ b.capacity = rw is_array at v.allocated in
    let (out, runs, len, front) = memcpy_runs c b.size src n (omega (arith, c_len)) readable in
    let size : u64 (n + b.size) ≡ b.size + n = omega (arith, v.bounded) in
    rw (is_array, runs)
      (Yields-front out b.capacity _ _ (len ∙ c_len) (omega arith) v.bounded (rw size front))

-- `_append` of an array.
append_array :
    (fresh : ℕ → List ℕ)
    → ((n : ℕ) → length (fresh n) ≡ n)
    → (b : Btring) (src : List ℕ) (n : ℕ) → IsValid b
    → n ≤ length src
    → b.size + n < 2 ^ 64
    → Yields (append fresh b (some src) n) (view b ++ take n src)
unfolding append
append_array fresh new b src zero v readable bound = record {
  value = b;
  returned = refl;
  valid = v;
  shows = sym (append-nil (view b));
}
append_array fresh new b src (suc n) v readable bound =
    let total : u64 (suc n + b.size) ≡ b.size + suc n = omega arith in
    let wide = bit_or_fifteen (u64 (suc n + b.size)) in
    rw (ne→not-== (suc n) 0 (omega arith))
      (elim (Bool-cases (ltb b.capacity (u64 (suc n + b.size)))) [
        | inl grows ↦ rw grows (
            grown_lem _ _ b src (suc n) v readable (new _) (omega (arith, wide))
              (omega (arith, wide)))
        | inr stays ↦
            let room = not-ltb→le _ _ stays in
            rw stays
              (extended_lem b src (suc n) v readable (omega (arith, room)) (omega (arith, room)))
      ])

module _ (fresh : ℕ → List ℕ) (new : (n : ℕ) → length (fresh n) ≡ n) where
  -- `_append` to a well-formed string, from a pointer to `n` bytes or from the null pointer with
  -- `n` zero, where the sizes add up without overflow: it touches no memory out of range, the
  -- result is well formed, and the string grows by exactly these bytes.
  pub append_lem :
      (b : Btring) (con : Option (List ℕ)) (n : ℕ)
      → IsValid b
      → n ≤ length (bytes con)
      → b.size + n < 2 ^ 64
      → Yields (append fresh b con n) (view b ++ take n (bytes con))
  append_lem b (some src) n v readable bound = append_array fresh new b src n v readable bound
  append_lem b none (suc n) v readable bound = absurd (omega arith)
  append_lem b none zero v readable bound = record {
    value = b;
    returned = unfold append in refl;
    valid = v;
    shows = sym (append-nil (view b));
  }

  pub append_btring_lem :
      (b s : Btring)
      → IsValid b
      → IsValid s
      → b.size + s.size < 2 ^ 64
      → Yields (append_btring fresh b s) (view b ++ view s)
  unfolding append_btring
  append_btring_lem b s vb vs bound =
      append_lem b s.content s.size vb (omega (arith, vs.allocated, vs.fits)) bound

  pub of_bytes_lem :
      (c : Option (List ℕ)) (n : ℕ)
      → n ≤ length (bytes c)
      → n < 2 ^ 64
      → Yields (of_bytes fresh c n) (take n (bytes c))
  unfolding of_bytes
  of_bytes_lem c n readable bound = append_lem empty c n empty-IsValid readable (omega arith)

  -- `operator+` of two well-formed strings whose sizes add up without overflow is their
  -- concatenation: no fault, a well-formed result, and the bytes of both in order.
  pub plus_lem :
      (a s : Btring)
      → IsValid a
      → IsValid s
      → a.size + s.size < 2 ^ 64
      → Yields (plus fresh a s) (view a ++ view s)
  unfolding plus
  plus_lem a s va vs bound =
      Yields-bind (of_size_lem fresh new (u64 (a.size + s.size)) (omega arith)) λ ret v none_yet.
        let start : ret.size ≡ 0 = omega (arith, length-view v, ap length none_yet) in
        Yields-bind (append_btring_lem ret a v va (omega (arith, start))) λ ret' v' front.
          let size : ret'.size ≡ a.size = omega (
            arith,
            length-view v',
            ap length front,
            length-append (view ret) (view a),
            ap length none_yet,
            length-view va,
          ) in
          let both = front ∙ ap (λ p. p ++ view a) none_yet in
          Yields-eq (append_btring_lem ret' s v' vs (omega (arith, size)))
            (ap (λ p. p ++ view s) both)
