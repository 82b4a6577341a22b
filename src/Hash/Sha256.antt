-- ===== src/Hash/Sha256.antt =====
-- src/hash.h and src/hash.cpp, class SHA256: the state, the compression of a block, and the
-- streaming operations. `none` is a fault, or the end of the fuel.
pub mod Add
pub mod Digest
use libnap.Base.{ℕ, zero, suc, ◌+◌, ◌-◌, ◌*◌, ◌/◌, ◌%◌, ◌^◌, bit_and, bit_xor, List, [], ◌∷◌, ◌++◌}
use libnap.Base.{Option, some, none, if◌then◌else◌, ◌==◌, leb, ◌>>=◌, u32, u64, not32, ◌>>>◌}
use libnap.Base.{get_or, drop, replicate, memcpy, store, set}
use libnap.Btring.{Btring, bytes}
use libnap.Hash.Common.{rotate_right, swap32, bytes32, bytes64, word_at}

-- The registers `a` to `h`, and the array `sha256`.
pub record Regs : Type 0 where
  pub a : ℕ
  pub b : ℕ
  pub c : ℕ
  pub d : ℕ
  pub e : ℕ
  pub f : ℕ
  pub g : ℕ
  pub h : ℕ

pub record Sha256 : Type 0 where
  pub sha256 : Regs
  pub buffer : List ℕ
  pub buffer_len : ℕ
  pub cal_byte : ℕ

abbrev pub sha256_init : Regs
sha256_init = record {
  a = 0x6a09e667;
  b = 0xbb67ae85;
  c = 0x3c6ef372;
  d = 0xa54ff53a;
  e = 0x510e527f;
  f = 0x9b05688c;
  g = 0x1f83d9ab;
  h = 0x5be0cd19;
}

abbrev pub sha256_const : List ℕ
sha256_const =
    0x428a2f98 ∷ 0x71374491 ∷ 0xb5c0fbcf ∷ 0xe9b5dba5 ∷ 0x3956c25b ∷ 0x59f111f1 ∷ 0x923f82a4
    ∷ 0xab1c5ed5 ∷ 0xd807aa98 ∷ 0x12835b01 ∷ 0x243185be ∷ 0x550c7dc3 ∷ 0x72be5d74 ∷ 0x80deb1fe
    ∷ 0x9bdc06a7 ∷ 0xc19bf174 ∷ 0xe49b69c1 ∷ 0xefbe4786 ∷ 0x0fc19dc6 ∷ 0x240ca1cc ∷ 0x2de92c6f
    ∷ 0x4a7484aa ∷ 0x5cb0a9dc ∷ 0x76f988da ∷ 0x983e5152 ∷ 0xa831c66d ∷ 0xb00327c8 ∷ 0xbf597fc7
    ∷ 0xc6e00bf3 ∷ 0xd5a79147 ∷ 0x06ca6351 ∷ 0x14292967 ∷ 0x27b70a85 ∷ 0x2e1b2138 ∷ 0x4d2c6dfc
    ∷ 0x53380d13 ∷ 0x650a7354 ∷ 0x766a0abb ∷ 0x81c2c92e ∷ 0x92722c85 ∷ 0xa2bfe8a1 ∷ 0xa81a664b
    ∷ 0xc24b8b70 ∷ 0xc76c51a3 ∷ 0xd192e819 ∷ 0xd6990624 ∷ 0xf40e3585 ∷ 0x106aa070 ∷ 0x19a4c116
    ∷ 0x1e376c08 ∷ 0x2748774c ∷ 0x34b0bcb5 ∷ 0x391c0cb3 ∷ 0x4ed8aa4a ∷ 0x5b9cca4f ∷ 0x682e6ff3
    ∷ 0x748f82ee ∷ 0x78a5636f ∷ 0x84c87814 ∷ 0x8cc70208 ∷ 0x90befffa ∷ 0xa4506ceb ∷ 0xbef9a3f7
    ∷ 0xc67178f2 ∷ []

unfoldable pub ch : ℕ → ℕ → ℕ → ℕ
ch x y z = bit_xor (bit_and x y) (bit_and (not32 x) z)

unfoldable pub ma : ℕ → ℕ → ℕ → ℕ
ma x y z = bit_xor (bit_xor (bit_and x y) (bit_and x z)) (bit_and y z)

unfoldable pub usi0 : ℕ → ℕ
usi0 x = bit_xor (bit_xor (rotate_right 2 x) (rotate_right 13 x)) (rotate_right 22 x)

unfoldable pub usi1 : ℕ → ℕ
usi1 x = bit_xor (bit_xor (rotate_right 6 x) (rotate_right 11 x)) (rotate_right 25 x)

unfoldable pub lsi0 : ℕ → ℕ
lsi0 x = bit_xor (bit_xor (rotate_right 7 x) (rotate_right 18 x)) (x >>> 3)

unfoldable pub lsi1 : ℕ → ℕ
lsi1 x = bit_xor (bit_xor (rotate_right 17 x) (rotate_right 19 x)) (x >>> 10)

-- The two loops that fill `W`, with the rounds left and the index.
unfoldable pub fill_words : ℕ → ℕ → List ℕ → List ℕ → List ℕ
fill_words zero i pdata w = w
fill_words (suc n) i pdata w = fill_words n (i + 1) pdata (set w i (swap32 (word_at pdata (i * 4))))

unfoldable pub extend_words : ℕ → ℕ → List ℕ → List ℕ
extend_words zero i w = w
extend_words (suc n) i w = extend_words n (i + 1) (
    set w i (
      u32 (
        lsi1 (get_or w (i - 2) 0)
        + get_or w (i - 7) 0
        + lsi0 (get_or w (i - 15) 0)
        + get_or w (i - 16) 0)))

unfoldable pub round : ℕ → ℕ → Regs → Regs
round k w r =
    let t1 = u32 (r.h + usi1 r.e + ch r.e r.f r.g + k + w) in
    let t2 = u32 (usi0 r.a + ma r.a r.b r.c) in
    record {
      a = u32 (t1 + t2);
      b = r.a;
      c = r.b;
      d = r.c;
      e = u32 (r.d + t1);
      f = r.e;
      g = r.f;
      h = r.g;
    }

unfoldable pub rounds : ℕ → ℕ → List ℕ → Regs → Regs
rounds zero i w r = r
rounds (suc n) i w r = rounds n (i + 1) w (round (get_or sha256_const i 0) (get_or w i 0) r)

unfoldable pub compress : Regs → List ℕ → Regs
compress s pdata =
    let w = extend_words 48 16 (fill_words 16 0 pdata (replicate 64 0)) in
    let r = rounds 64 0 w s in
    record {
      a = u32 (s.a + r.a);
      b = u32 (s.b + r.b);
      c = u32 (s.c + r.c);
      d = u32 (s.d + r.d);
      e = u32 (s.e + r.e);
      f = u32 (s.f + r.f);
      g = u32 (s.g + r.g);
      h = u32 (s.h + r.h);
    }

-- `calSHA256`
unfoldable pub cal_sha256 : Sha256 → Sha256
cal_sha256 s = record s { sha256 = compress s.sha256 s.buffer; cal_byte = u64 (s.cal_byte + 64) }

-- `reset`, which the constructor calls.
unfoldable pub reset : Sha256
reset = record { sha256 = sha256_init; buffer = replicate 64 0; buffer_len = 0; cal_byte = 0 }

-- A full buffer is compressed and counts as empty.
unfoldable pub full_block : Sha256 → Sha256
full_block s = record (cal_sha256 s) { buffer_len = 0 }

-- The loop of `add`: `data` is what can be read at the pointer.
unfoldable pub add_loop : ℕ → Sha256 → List ℕ → ℕ → Option Sha256
add_loop zero s bytes len = none
add_loop (suc fuel) s bytes len =
    let need = u32 (64 + 2 ^ 32 - s.buffer_len) in
    let whole = (do
      buffer ← memcpy s.buffer s.buffer_len bytes need
      add_loop fuel (full_block (record s { buffer = buffer })) (drop need bytes) (len - need)) in
    let part = (do
      buffer ← memcpy s.buffer s.buffer_len bytes len
      some (record s { buffer = buffer; buffer_len = u32 (s.buffer_len + len) })) in
    if len == 0 then some s else if leb need len then whole else part

-- `len` is a `uint32_t`, which a call converts its argument to.
unfoldable pub add : Sha256 → List ℕ → ℕ → Option Sha256
add s bytes len = add_loop (u32 len + 1) s bytes (u32 len)

unfoldable pub add_btring : Sha256 → Btring → Option Sha256
add_btring s text = add s (bytes text.content) text.size

-- `sha256_buffer[sha256_buffer_len] = 0x80`, and zeros behind it.
unfoldable pub pad_buffer : Sha256 → Option Sha256
pad_buffer s = do
  marked ← store s.buffer s.buffer_len 0x80
  padded ← memcpy marked (s.buffer_len + 1) (replicate 64 0) (64 - s.buffer_len - 1)
  some (record s { buffer = padded })

-- The extra block of `calculate`.
unfoldable pub extra_block : Sha256 → Sha256
extra_block s =
    let fill = 64 - s.buffer_len in
    let s' = cal_sha256 s in
    record s' {
      cal_byte = u64 (s'.cal_byte + 2 ^ 64 - fill);
      buffer_len = 0;
      buffer = replicate 64 0;
    }

-- `SWAP64` as the bytes that it leaves in memory.
unfoldable pub swap64_bytes : ℕ → List ℕ
swap64_bytes n =
    n / 2 ^ 56 % 256
    ∷ n / 2 ^ 48 % 256
    ∷ n / 2 ^ 40 % 256
    ∷ n / 2 ^ 32 % 256
    ∷ n / 2 ^ 24 % 256
    ∷ n / 2 ^ 16 % 256
    ∷ n / 2 ^ 8 % 256
    ∷ n % 256
    ∷ []

-- The words are swapped in place.
unfoldable pub swap_words : Regs → Regs
swap_words r = record {
  a = swap32 r.a;
  b = swap32 r.b;
  c = swap32 r.c;
  d = swap32 r.d;
  e = swap32 r.e;
  f = swap32 r.f;
  g = swap32 r.g;
  h = swap32 r.h;
}

-- `btring(sha256, sizeof(sha256))`
unfoldable pub output : Regs → List ℕ
output r =
    bytes32 r.a
    ++ bytes32 r.b
    ++ bytes32 r.c
    ++ bytes32 r.d
    ++ bytes32 r.e
    ++ bytes32 r.f
    ++ bytes32 r.g
    ++ bytes32 r.h

-- The object afterwards, and the result.
unfoldable pub calculate : Sha256 → Option (Sha256 × List ℕ)
calculate s = do
  s1 ← pad_buffer s
  let s2 = if leb 56 s1.buffer_len then extra_block s1 else s1
  let len = u64 ((s2.cal_byte + s2.buffer_len) * 8)
  last ← memcpy s2.buffer 56 (swap64_bytes len) 8
  let s3 = cal_sha256 (record s2 { buffer = last })
  let swapped = swap_words s3.sha256
  some (record s3 { sha256 = swapped }, output swapped)
