-- ===== src/Aes/Gcm/Counter.antt =====
-- src/aes.cpp, GCM: `inc32`.
use libnap.Base.{
  ℕ, ◌+◌, ◌*◌, ◌/◌, ◌%◌, ◌^◌, ◌<◌, List, [], ◌∷◌, ◌≡◌, refl, arith, Bool-cases, inl, inr, ltb,
  ltb→lt, IsBytes, IsBytes-parts, take, drop, length-eq_zero, u32,
}
use libnap.Aes.Iv.Increment.{number}
use libnap.Aes.Modes.Cipher.{IsBlock, four_split}
use libnap.Aes.Gcm.{inc32}

digits :
    (t : ℕ)
    → t < 2 ^ 32
    → (((t / 2 ^ 24 % 2 ^ 8) * 256 + t / 2 ^ 16 % 2 ^ 8) * 256 + t / 2 ^ 8 % 2 ^ 8) * 256
        + t % 2 ^ 8
      ≡ t
digits t h = omega (arith, h)

abbrev Counts : List ℕ → Type 0
Counts block =
    (take 12 (inc32 block) ≡ take 12 block)
    × (number (drop 12 (inc32 block)) 0 ≡ (number (drop 12 block) 0 + 1) % 2 ^ 32)
    × IsBlock (inc32 block)

counts :
    (x0 x1 x2 x3 y0 y1 y2 y3 z0 z1 z2 z3 w0 w1 w2 w3 : ℕ)
    → IsBytes (x0 ∷ x1 ∷ x2 ∷ x3 ∷ y0 ∷ y1 ∷ y2 ∷ y3 ∷ z0 ∷ z1 ∷ z2 ∷ z3 ∷ w0 ∷ w1 ∷ w2 ∷ w3 ∷ [])
    → Counts (x0 ∷ x1 ∷ x2 ∷ x3 ∷ y0 ∷ y1 ∷ y2 ∷ y3 ∷ z0 ∷ z1 ∷ z2 ∷ z3 ∷ w0 ∷ w1 ∷ w2 ∷ w3 ∷ [])
unfolding inc32
counts x0 x1 x2 x3 y0 y1 y2 y3 z0 z1 z2 z3 w0 w1 w2 w3 h =
    let last =
      (IsBytes-parts (x0 ∷ x1 ∷ x2 ∷ x3 ∷ y0 ∷ y1 ∷ y2 ∷ y3 ∷ z0 ∷ z1 ∷ z2 ∷ z3 ∷ [])
        (w0 ∷ w1 ∷ w2 ∷ w3 ∷ []) h).1 in
    elim (Bool-cases (ltb w3 0xff)) [
      | inl below ↦
          let small = ltb→lt _ _ below in
          rw below (
            refl,
            omega (arith, small, last.0, last.1.0, last.1.1.0),
            record { size = refl; are_bytes = omega (arith, small, h) },
          )
      | inr full ↦
          let t = w3 + w2 * 2 ^ 8 + w1 * 2 ^ 16 + w0 * 2 ^ 24 + 1 in
          rw full (
            refl,
            omega (arith, digits (u32 t) (omega arith)),
            record { size = refl; are_bytes = omega (arith, h) },
          )
    ]

-- `inc32` of a block of sixteen bytes: the first twelve bytes stay, and the number that the last
-- four are in big-endian order goes up by one, after 2 ^ 32 - 1 to zero.
pub inc32_lem :
    (block : List ℕ)
    → IsBlock block
    → (take 12 (inc32 block) ≡ take 12 block)
      × (number (drop 12 (inc32 block)) 0 ≡ (number (drop 12 block) 0 + 1) % 2 ^ 32)
      × IsBlock (inc32 block)
unfolding inc32
inc32_lem block h =
    let (x0, x1, x2, x3, s, e, hs) = four_split 12 block h.size in
    let (y0, y1, y2, y3, t, f, ht) = four_split 8 s hs in
    let (z0, z1, z2, z3, u, g, hu) = four_split 4 t ht in
    let (w0, w1, w2, w3, v, k, hv) = four_split 0 u hu in
    let none_left = length-eq_zero v hv in
    let bytes = rw (e, f, g, k, none_left) at h.are_bytes in
    let c = counts x0 x1 x2 x3 y0 y1 y2 y3 z0 z1 z2 z3 w0 w1 w2 w3 bytes in
    rw (e, f, g, k, none_left) c
