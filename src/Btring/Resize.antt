-- ===== src/Btring/Resize.antt =====
-- src/btring.cpp: `_recap`, `_recap_hold`, `_set`, and the operations that are made of them.
use libnap.Base.{ℕ, zero, suc, ◌≤◌, ◌<◌, ◌^◌, min, List, [], Option, none, some}
use libnap.Base.{◌≡◌, refl, sym, ◌∙◌, arith, length, take}
use libnap.Base.{memcpy_runs, take_all, take-take}
use libnap.Base.{true, inl, inr, Bool-cases, ltb, leb, ◌||◌, if◌then◌else◌}
use libnap.Base.{ne→not-==, leb→le}
use libnap.Btring.{
  Btring, bytes, is_null, empty, recap, recap_hold, carried, overwritten, set, of_size, resize,
}
use libnap.Base.{take-take-min, lt→not-leb, not-leb→lt}
use native.Mathlib.Nat.{zero-add}
use libnap.Btring.View.{view, IsValid, Yields, length-view, Yields-front, content_of, empty-IsValid}

-- A requested capacity is rounded up to 15.
abbrev rounded : ℕ → ℕ
rounded cap = if ltb cap 15 then 15 else cap

rounded_lem : (cap : ℕ) → cap < 2 ^ 64 → (cap ≤ rounded cap) × (rounded cap < 2 ^ 64)
rounded_lem cap h = ground arith

zero-min : (n : ℕ) → min 0 n ≡ 0
zero-min n = omega arith

carried_lem :
    (new : List ℕ) (cap : ℕ) (content : Option (List ℕ)) (size : ℕ)
    → length new ≡ cap
    → size ≤ cap
    → size ≤ length (bytes content)
    → (out : List ℕ) × (carried new cap content size ≡ some out)
      × (length out ≡ cap)
      × (take size out ≡ take size (bytes content))
unfolding carried
carried_lem new cap none (suc n) len room readable = absurd (omega arith)
carried_lem new cap none zero len room readable = (new, refl, len, refl)
carried_lem new cap (some c) n len room readable =
    let (out, runs, len', front) = memcpy_runs new 0 c n (omega (arith, len)) readable in
    let amount : min cap n ≡ n = omega arith in
    (out, rw amount runs, len' ∙ len, rw zero-add at front)

module _ (fresh : ℕ → List ℕ) (new : (n : ℕ) → length (fresh n) ≡ n) where
  -- `_recap` gives an empty string with room for `cap` bytes, whatever stood there before.
  pub recap_lem :
      (cap : ℕ) (b : Btring)
      → cap < 2 ^ 64
      → let r = recap fresh cap b in IsValid r × (r.size ≡ 0) × (cap ≤ r.capacity)
  unfolding recap
  recap_lem cap b bound = ground (arith, new cap, new 15)

  pub of_size_lem : (len : ℕ) → len < 2 ^ 64 → Yields (some (of_size fresh len)) []
  unfolding of_size
  of_size_lem len bound =
      let (ok, none_yet, room) = recap_lem len empty bound in
      record { value = of_size fresh len; returned = refl; valid = ok; shows = rw none_yet }

  -- `resize` to `cap` below 2^64 never faults; the result is well formed and has that length,
  -- and it begins with the old string, or with its first `cap` bytes.
  pub record Resized (cap : ℕ) (b : Btring) (result : Option Btring) : Type 0 where
    pub value : Btring
    pub returned : result ≡ some value
    pub valid : IsValid value
    pub sized : value.size ≡ cap
    pub kept : take (min cap b.size) (view value) ≡ take cap (view b)

  held :
      (cap : ℕ) (b : Btring)
      → IsValid b
      → 0 < cap
      → b.capacity < cap
      → cap < 2 ^ 64
      → Resized cap b (recap_hold fresh cap b)
  unfolding recap_hold
  held cap b v pos grows bound =
      let (wide, below) = rounded_lem cap bound in
      let (out, runs, len, front) =
        carried_lem (fresh (rounded cap)) (rounded cap) b.content b.size (new (rounded cap))
          (omega (arith, wide)) (omega (arith, v.allocated, v.fits)) in
      let amount : min cap b.size ≡ b.size = omega (arith, v.fits) in
      rw (ne→not-== cap 0 (omega arith)) (
        rw (lt→not-leb cap b.capacity grows) (
          rw runs (record {
            value = record { content = some out; capacity = rounded cap; size = cap };
            returned = refl;
            valid = record { allocated = len; fits = wide; bounded = below };
            sized = refl;
            kept = rw amount (
                take-take b.size cap out (omega (arith, v.fits))
                ∙ front
                ∙ sym (take_all cap (view b) (omega (arith, length-view v, v.fits))));
          })))

  within :
      (cap : ℕ) (b : Btring)
      → 0 < cap
      → leb cap b.capacity ≡ true
      → recap_hold fresh cap b ≡ some (record b { size = cap })
  unfolding recap_hold
  within cap b pos fits = rw (ne→not-== cap 0 (omega arith)) (rw fits)

  -- `resize` of a well-formed string to any length is no fault and leaves a well-formed string of
  -- this length, whose front is the old string as far as both reach.
  pub resize_lem :
      (cap : ℕ) (b : Btring) → IsValid b → cap < 2 ^ 64 → Resized cap b (resize fresh cap b)
  unfolding resize
  resize_lem zero b v bound =
      unfold recap_hold in
      (record {
        value = empty;
        returned = refl;
        valid = empty-IsValid;
        sized = refl;
        kept = rw (zero-min b.size);
      })
  resize_lem (suc n) b v bound = elim (Bool-cases (leb (suc n) b.capacity)) [
    | inl fits ↦ rw (within (suc n) b (omega arith) fits) (record {
      value = record b { size = suc n };
      returned = refl;
      valid = record { allocated = v.allocated; fits = leb→le _ _ fits; bounded = v.bounded };
      sized = refl;
      kept =
          take-take (min (suc n) b.size) (suc n) (bytes b.content) (omega arith)
          ∙ sym (take-take-min (suc n) b.size (bytes b.content));
    })
    | inr grows ↦ held (suc n) b v (omega arith) (not-leb→lt _ _ grows) bound
  ]

  overwritten_lem :
      (b : Btring) (con : Option (List ℕ)) (n : ℕ)
      → IsValid b
      → 0 < n
      → n ≤ b.capacity
      → n ≤ length (bytes con)
      → Yields (overwritten b con n) (take n (bytes con))
  unfolding overwritten
  overwritten_lem b none n v pos room readable = absurd (omega arith)
  overwritten_lem b (some src) n v pos room readable =
      let (c, is_array) = content_of v (omega arith) in
      let c_len : length c ≡ b.capacity = rw is_array at v.allocated in
      let (out, runs, len, front) = memcpy_runs c 0 src n (omega (arith, c_len)) readable in
      rw (is_array, runs)
        (Yields-front out b.capacity n _ (len ∙ c_len) room v.bounded (rw zero-add at front))

  -- `_set` replaces the string by the bytes that the pointer is at, whether the array is kept or
  -- a larger one is allocated.
  pub set_lem :
      (b : Btring) (con : Option (List ℕ)) (n : ℕ)
      → IsValid b
      → n ≤ length (bytes con)
      → n < 2 ^ 64
      → Yields (set fresh b con n) (take n (bytes con))
  unfolding set
  set_lem b con zero v readable bound = record {
    value = record b { size = 0 };
    returned = refl;
    valid = record { allocated = v.allocated; fits = omega arith; bounded = v.bounded };
    shows = refl;
  }
  set_lem b con (suc n) v readable bound =
      rw (ne→not-== (suc n) 0 (omega arith))
        (elim (Bool-cases (is_null b.content || ltb b.capacity (suc n))) [
          | inl new_array ↦
              let (ok, none_yet, room) = recap_lem (suc n) b bound in
              rw new_array
                (overwritten_lem (recap fresh (suc n) b) con (suc n) ok (omega arith) room readable)
          | inr stays ↦
              rw stays (overwritten_lem b con (suc n) v (omega arith) (ground arith) readable)
        ])
