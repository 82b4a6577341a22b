-- ===== src/Hash/Sha1.antt =====
-- src/hash.h and src/hash.cpp, class SHA1: the constants, `_sha1_transform`, and the operations.
pub mod Digest
use libnap.Base.{
  ℕ, zero, suc, ◌+◌, ◌-◌, ◌*◌, ◌%◌, ◌^◌, bit_and, bit_or, bit_xor, List, [], ◌∷◌, ◌++◌,
}
use libnap.Base.{Option, some, get_or, set, replicate, u32, not32, ◌<<<◌, ◌>>>◌, ◌>>=◌}
use libnap.Btring.{Btring, bytes}
use libnap.Hash.Common.{rotate_left, reverse32, bytes32, bytes64}
use libnap.Hash.Blocks.{Blocks, pad}
use libnap.Hash.Blocks as Blocks

-- `_h`, and the variables `A` to `E`.
pub record Regs : Type 0 where
  pub a : ℕ
  pub b : ℕ
  pub c : ℕ
  pub d : ℕ
  pub e : ℕ

-- `w[i]` of the first sixteen words.
unfoldable pub word : List ℕ → ℕ → ℕ
word b_buf i =
    bit_or
      (bit_or (bit_or (u32 (get_or b_buf (i * 4) 0 <<< 24)) (get_or b_buf (i * 4 + 1) 0 <<< 16))
        (get_or b_buf (i * 4 + 2) 0 <<< 8))
      (get_or b_buf (i * 4 + 3) 0)

-- The loops over `w`, with the rounds left and the index.
unfoldable pub fill_words : ℕ → ℕ → List ℕ → List ℕ → List ℕ
fill_words zero i b_buf w = w
fill_words (suc n) i b_buf w = fill_words n (i + 1) b_buf (set w i (word b_buf i))

unfoldable pub extend_words : ℕ → ℕ → List ℕ → List ℕ
extend_words zero t w = w
extend_words (suc n) t w = extend_words n (t + 1) (
    set w t (
      rotate_left
        (bit_xor (bit_xor (bit_xor (get_or w (t - 3) 0) (get_or w (t - 8) 0)) (get_or w (t - 14) 0))
          (get_or w (t - 16) 0))
        1))

abbrev pub sha1_k : List ℕ
sha1_k = 0x5A827999 ∷ 0x6ED9EBA1 ∷ 0x8F1BBCDC ∷ 0xCA62C1D6 ∷ []

-- The functions of the four loops.
unfoldable pub choose : ℕ → ℕ → ℕ → ℕ
choose b c d = bit_or (bit_and b c) (bit_and (not32 b) d)

unfoldable pub parity : ℕ → ℕ → ℕ → ℕ
parity b c d = bit_xor (bit_xor b c) d

unfoldable pub majority : ℕ → ℕ → ℕ → ℕ
majority b c d = bit_or (bit_or (bit_and b c) (bit_and b d)) (bit_and c d)

-- The body of a loop, which differ in the function and the constant.
unfoldable pub step : (ℕ → ℕ → ℕ → ℕ) → ℕ → ℕ → Regs → Regs
step f k w r =
    let first = u32 (rotate_left r.a 5 + f r.b r.c r.d) in
    let tmp = u32 (first + (r.e + w + k)) in
    record { a = tmp; b = r.a; c = rotate_left r.b 30; d = r.c; e = r.d }

unfoldable pub steps : (ℕ → ℕ → ℕ → ℕ) → ℕ → ℕ → ℕ → List ℕ → Regs → Regs
steps f k zero t w r = r
steps f k (suc n) t w r = steps f k n (t + 1) w (step f k (get_or w t 0) r)

-- `_sha1_transform` on the words: the counter `_round` is kept by the object.
unfoldable pub compress : Regs → List ℕ → Regs
compress s b_buf =
    let w = extend_words 64 16 (fill_words 16 0 b_buf (replicate 80 0)) in
    let r1 = steps choose (get_or sha1_k 0 0) 20 0 w s in
    let r2 = steps parity (get_or sha1_k 1 0) 20 20 w r1 in
    let r3 = steps majority (get_or sha1_k 2 0) 20 40 w r2 in
    let r4 = steps parity (get_or sha1_k 3 0) 20 60 w r3 in
    record {
      a = u32 (s.a + r4.a);
      b = u32 (s.b + r4.b);
      c = u32 (s.c + r4.c);
      d = u32 (s.d + r4.d);
      e = u32 (s.e + r4.e);
    }

abbrev pub sha1_init : Regs
sha1_init = record {
  a = 0x67452301;
  b = 0xEFCDAB89;
  c = 0x98BADCFE;
  d = 0x10325476;
  e = 0xC3D2E1F0;
}

abbrev pub Sha1 : Type 0
Sha1 = Blocks Regs

unfoldable pub reset : Sha1
reset = record { value = sha1_init; buffer = replicate 64 0; buffer_len = 0; round = 0 }

unfoldable pub add : Sha1 → List ℕ → ℕ → Option Sha1
add = Blocks.add compress 64

unfoldable pub add_btring : Sha1 → Btring → Option Sha1
add_btring s text = add s (bytes text.content) (u32 text.size)

-- The words of `length` with their bytes reversed, and the higher word first in memory.
unfoldable pub length_bytes : ℕ → List ℕ
length_bytes length =
    let h = reverse32 (length >>> 32) in
    let l = reverse32 (u32 length) in bytes64 (bit_or (l <<< 32) h)

-- `_h` with the bytes reversed in place.
unfoldable pub reversed : Regs → Regs
reversed r = record {
  a = reverse32 r.a;
  b = reverse32 r.b;
  c = reverse32 r.c;
  d = reverse32 r.d;
  e = reverse32 r.e;
}

-- `btring(_h, 20)`
unfoldable pub output : Regs → List ℕ
output r = bytes32 r.a ++ bytes32 r.b ++ bytes32 r.c ++ bytes32 r.d ++ bytes32 r.e

-- The object afterwards, and the result.
unfoldable pub calculate : Sha1 → Option (Sha1 × List ℕ)
calculate s = do
  padded ← pad compress 64 length_bytes s
  let h = reversed padded.value
  some (record padded { value = h }, output h)
