-- ===== src/Hash/Md5.antt =====
-- src/hash.h and src/hash.cpp, class MD5: the constants, `_md5_transform`, and the operations.
pub mod Digest
use libnap.Base.{ℕ, zero, suc, ◌+◌, ◌*◌, ◌%◌, ◌^◌, bit_and, bit_or, bit_xor, List, [], ◌∷◌, ◌++◌}
use libnap.Base.{Option, some, get_or, set, replicate, u32, not32, ◌<<<◌, ◌>>>◌, ◌>>=◌}
use libnap.Btring.{Btring, bytes}
use libnap.Hash.Common.{rotate_left, bytes32}
use libnap.Hash.Blocks.{Blocks, pad}
use libnap.Hash.Blocks as Blocks

-- `_md_buf`, and the variables `a` to `d`.
pub record Regs : Type 0 where
  pub a : ℕ
  pub b : ℕ
  pub c : ℕ
  pub d : ℕ

unfoldable pub md5_f : ℕ → ℕ → ℕ → ℕ
md5_f x y z = bit_or (bit_and x y) (bit_and (not32 x) z)

unfoldable pub md5_g : ℕ → ℕ → ℕ → ℕ
md5_g x y z = bit_or (bit_and x z) (bit_and y (not32 z))

unfoldable pub md5_h : ℕ → ℕ → ℕ → ℕ
md5_h x y z = bit_xor (bit_xor x y) z

unfoldable pub md5_i : ℕ → ℕ → ℕ → ℕ
md5_i x y z = bit_xor y (bit_or x (not32 z))

-- `MD5_FF`, `MD5_GG`, `MD5_HH` and `MD5_II`, which give the new `a`.
unfoldable pub ff : ℕ → ℕ → ℕ → ℕ → ℕ → ℕ → ℕ → ℕ
ff a b c d x s ac = u32 (rotate_left (u32 (a + (md5_f b c d + x + ac))) s + b)

unfoldable pub gg : ℕ → ℕ → ℕ → ℕ → ℕ → ℕ → ℕ → ℕ
gg a b c d x s ac = u32 (rotate_left (u32 (a + (md5_g b c d + x + ac))) s + b)

unfoldable pub hh : ℕ → ℕ → ℕ → ℕ → ℕ → ℕ → ℕ → ℕ
hh a b c d x s ac = u32 (rotate_left (u32 (a + (md5_h b c d + x + ac))) s + b)

unfoldable pub ii : ℕ → ℕ → ℕ → ℕ → ℕ → ℕ → ℕ → ℕ
ii a b c d x s ac = u32 (rotate_left (u32 (a + (md5_i b c d + x + ac))) s + b)

unfoldable pub round1 : (ℕ → ℕ) → Regs → Regs
round1 x r =
    let a1 = ff r.a r.b r.c r.d (x 0) 7 0xd76aa478 in
    let d1 = ff r.d a1 r.b r.c (x 1) 12 0xe8c7b756 in
    let c1 = ff r.c d1 a1 r.b (x 2) 17 0x242070db in
    let b1 = ff r.b c1 d1 a1 (x 3) 22 0xc1bdceee in
    let a2 = ff a1 b1 c1 d1 (x 4) 7 0xf57c0faf in
    let d2 = ff d1 a2 b1 c1 (x 5) 12 0x4787c62a in
    let c2 = ff c1 d2 a2 b1 (x 6) 17 0xa8304613 in
    let b2 = ff b1 c2 d2 a2 (x 7) 22 0xfd469501 in
    let a3 = ff a2 b2 c2 d2 (x 8) 7 0x698098d8 in
    let d3 = ff d2 a3 b2 c2 (x 9) 12 0x8b44f7af in
    let c3 = ff c2 d3 a3 b2 (x 10) 17 0xffff5bb1 in
    let b3 = ff b2 c3 d3 a3 (x 11) 22 0x895cd7be in
    let a4 = ff a3 b3 c3 d3 (x 12) 7 0x6b901122 in
    let d4 = ff d3 a4 b3 c3 (x 13) 12 0xfd987193 in
    let c4 = ff c3 d4 a4 b3 (x 14) 17 0xa679438e in
    let b4 = ff b3 c4 d4 a4 (x 15) 22 0x49b40821 in record { a = a4; b = b4; c = c4; d = d4 }

unfoldable pub round2 : (ℕ → ℕ) → Regs → Regs
round2 x r =
    let a1 = gg r.a r.b r.c r.d (x 1) 5 0xf61e2562 in
    let d1 = gg r.d a1 r.b r.c (x 6) 9 0xc040b340 in
    let c1 = gg r.c d1 a1 r.b (x 11) 14 0x265e5a51 in
    let b1 = gg r.b c1 d1 a1 (x 0) 20 0xe9b6c7aa in
    let a2 = gg a1 b1 c1 d1 (x 5) 5 0xd62f105d in
    let d2 = gg d1 a2 b1 c1 (x 10) 9 0x2441453 in
    let c2 = gg c1 d2 a2 b1 (x 15) 14 0xd8a1e681 in
    let b2 = gg b1 c2 d2 a2 (x 4) 20 0xe7d3fbc8 in
    let a3 = gg a2 b2 c2 d2 (x 9) 5 0x21e1cde6 in
    let d3 = gg d2 a3 b2 c2 (x 14) 9 0xc33707d6 in
    let c3 = gg c2 d3 a3 b2 (x 3) 14 0xf4d50d87 in
    let b3 = gg b2 c3 d3 a3 (x 8) 20 0x455a14ed in
    let a4 = gg a3 b3 c3 d3 (x 13) 5 0xa9e3e905 in
    let d4 = gg d3 a4 b3 c3 (x 2) 9 0xfcefa3f8 in
    let c4 = gg c3 d4 a4 b3 (x 7) 14 0x676f02d9 in
    let b4 = gg b3 c4 d4 a4 (x 12) 20 0x8d2a4c8a in record { a = a4; b = b4; c = c4; d = d4 }

unfoldable pub round3 : (ℕ → ℕ) → Regs → Regs
round3 x r =
    let a1 = hh r.a r.b r.c r.d (x 5) 4 0xfffa3942 in
    let d1 = hh r.d a1 r.b r.c (x 8) 11 0x8771f681 in
    let c1 = hh r.c d1 a1 r.b (x 11) 16 0x6d9d6122 in
    let b1 = hh r.b c1 d1 a1 (x 14) 23 0xfde5380c in
    let a2 = hh a1 b1 c1 d1 (x 1) 4 0xa4beea44 in
    let d2 = hh d1 a2 b1 c1 (x 4) 11 0x4bdecfa9 in
    let c2 = hh c1 d2 a2 b1 (x 7) 16 0xf6bb4b60 in
    let b2 = hh b1 c2 d2 a2 (x 10) 23 0xbebfbc70 in
    let a3 = hh a2 b2 c2 d2 (x 13) 4 0x289b7ec6 in
    let d3 = hh d2 a3 b2 c2 (x 0) 11 0xeaa127fa in
    let c3 = hh c2 d3 a3 b2 (x 3) 16 0xd4ef3085 in
    let b3 = hh b2 c3 d3 a3 (x 6) 23 0x4881d05 in
    let a4 = hh a3 b3 c3 d3 (x 9) 4 0xd9d4d039 in
    let d4 = hh d3 a4 b3 c3 (x 12) 11 0xe6db99e5 in
    let c4 = hh c3 d4 a4 b3 (x 15) 16 0x1fa27cf8 in
    let b4 = hh b3 c4 d4 a4 (x 2) 23 0xc4ac5665 in record { a = a4; b = b4; c = c4; d = d4 }

unfoldable pub round4 : (ℕ → ℕ) → Regs → Regs
round4 x r =
    let a1 = ii r.a r.b r.c r.d (x 0) 6 0xf4292244 in
    let d1 = ii r.d a1 r.b r.c (x 7) 10 0x432aff97 in
    let c1 = ii r.c d1 a1 r.b (x 14) 15 0xab9423a7 in
    let b1 = ii r.b c1 d1 a1 (x 5) 21 0xfc93a039 in
    let a2 = ii a1 b1 c1 d1 (x 12) 6 0x655b59c3 in
    let d2 = ii d1 a2 b1 c1 (x 3) 10 0x8f0ccc92 in
    let c2 = ii c1 d2 a2 b1 (x 10) 15 0xffeff47d in
    let b2 = ii b1 c2 d2 a2 (x 1) 21 0x85845dd1 in
    let a3 = ii a2 b2 c2 d2 (x 8) 6 0x6fa87e4f in
    let d3 = ii d2 a3 b2 c2 (x 15) 10 0xfe2ce6e0 in
    let c3 = ii c2 d3 a3 b2 (x 6) 15 0xa3014314 in
    let b3 = ii b2 c3 d3 a3 (x 13) 21 0x4e0811a1 in
    let a4 = ii a3 b3 c3 d3 (x 4) 6 0xf7537e82 in
    let d4 = ii d3 a4 b3 c3 (x 11) 10 0xbd3af235 in
    let c4 = ii c3 d4 a4 b3 (x 2) 15 0x2ad7d2bb in
    let b4 = ii b3 c4 d4 a4 (x 9) 21 0xeb86d391 in record { a = a4; b = b4; c = c4; d = d4 }

-- The loop of `byte2dword`, with the rounds left and the index `i`; `j` is `i * 4`.
unfoldable pub byte2dword : ℕ → ℕ → List ℕ → List ℕ → List ℕ
byte2dword zero i output input = output
byte2dword (suc n) i output input =
    let j = i * 4 in
    byte2dword n (i + 1)
      (set output i (
        bit_or
          (bit_or (bit_or (get_or input j 0) (get_or input (j + 1) 0 <<< 8))
            (get_or input (j + 2) 0 <<< 16))
          (get_or input (j + 3) 0 <<< 24)))
      input

-- The bytes that `dword2byte` writes for the words of `input`.
unfoldable pub dword2byte : List ℕ → List ℕ
dword2byte [] = []
dword2byte (w ∷ input) =
    bit_and w 0xff
    ∷ bit_and (w >>> 8) 0xff
    ∷ bit_and (w >>> 16) 0xff
    ∷ bit_and (w >>> 24) 0xff
    ∷ dword2byte input

-- `_md5_transform` on the words: the counter `_round` is kept by the object.
unfoldable pub compress : Regs → List ℕ → Regs
compress s block =
    let words = byte2dword 16 0 (replicate 16 0) block in
    let x : ℕ → ℕ = (λ i. get_or words i 0) in
    let r = round4 x (round3 x (round2 x (round1 x s))) in
    record { a = u32 (s.a + r.a); b = u32 (s.b + r.b); c = u32 (s.c + r.c); d = u32 (s.d + r.d) }

abbrev pub md5_init : Regs
md5_init = record { a = 0x67452301; b = 0xefcdab89; c = 0x98badcfe; d = 0x10325476 }

abbrev pub Md5 : Type 0
Md5 = Blocks Regs

unfoldable pub reset : Md5
reset = record { value = md5_init; buffer = replicate 64 0; buffer_len = 0; round = 0 }

unfoldable pub add : Md5 → List ℕ → ℕ → Option Md5
add = Blocks.add compress 32

unfoldable pub add_btring : Md5 → Btring → Option Md5
add_btring s text = add s (bytes text.content) (u32 text.size)

-- `a_length`: the two words of `length`, the lower first.
unfoldable pub length_bytes : ℕ → List ℕ
length_bytes length = dword2byte (u32 length ∷ length >>> 32 ∷ [])

-- `btring(_md_buf, 16)`
unfoldable pub output : Regs → List ℕ
output r = bytes32 r.a ++ bytes32 r.b ++ bytes32 r.c ++ bytes32 r.d

-- The object afterwards, and the result.
unfoldable pub calculate : Md5 → Option (Md5 × List ℕ)
calculate s = do padded ← pad compress 32 length_bytes s; some (padded, output padded.value)
