-- ===== src/Hash/Blocks.antt =====
-- src/hash.h and src/hash.cpp: what the classes MD5 and SHA1 have in common. Their members `add`
-- are the same text over fields of other names, and their members `calculate` differ in the bytes
-- of the length and of the result, so the model has this code once. `compress` stands for the
-- arithmetic of `_md5_transform` and `_sha1_transform`.
pub mod Add
pub mod Digest
use libnap.Base.{ℕ, zero, suc, ◌+◌, ◌-◌, ◌*◌, ◌%◌, ◌^◌, List, [], ◌∷◌, Option, some, none}
use libnap.Base.{if◌then◌else◌, ◌==◌, ltb, ◌>>=◌, u32, u64, drop, replicate, memcpy}

-- The fields `_md_buf` or `_h`, `_block_buffer` or `_b_buf`, its `_len`, and `_round`.
pub record Blocks (C : Type 0) : Type 0 where
  pub value : C
  pub buffer : List ℕ
  pub buffer_len : ℕ
  pub round : ℕ

-- `_PADDING`
abbrev pub padding_block : List ℕ
padding_block = 0x80 ∷ replicate 63 0

-- The choice of `padding` in `calculate`.
unfoldable pub padding_size : ℕ → ℕ
padding_size len = if ltb len 56 then 56 - len else if len == 56 then 64 else 64 - (len - 56)

-- `length` in `calculate`.
unfoldable pub bit_length : ℕ → ℕ → ℕ
bit_length round len = u64 (u64 (round * 64 + len) * 8)

module _ {C : Type 0} (compress : C → List ℕ → C) where
  unfoldable pub transform : Blocks C → Blocks C
  transform s = record s { value = compress s.value s.buffer; round = u32 (s.round + 1) }

  -- The loop of `add`: `width` is that of the sum in the test, which is 32 bits for MD5 and 64
  -- bits for SHA1, whose `_b_buf_len` is a `size_t`.
  unfoldable pub add_loop : ℕ → ℕ → Blocks C → List ℕ → ℕ → Option (Blocks C)
  add_loop width zero s bytes len = none
  add_loop width (suc fuel) s bytes len =
      let sum = (s.buffer_len + len) % 2 ^ width in
      let part = (do
        buffer ← memcpy s.buffer s.buffer_len bytes len
        some (record s { buffer = buffer; buffer_len = sum })) in
      let need = u32 (64 + 2 ^ 32 - s.buffer_len) in
      let whole = (do
        buffer ← memcpy s.buffer s.buffer_len bytes need
        let s' = transform (record s { buffer = buffer })
        add_loop width fuel (record s' { buffer_len = 0 }) (drop need bytes)
            (u32 (len + 2 ^ 32 - need))) in
      if ltb sum 64 then part else whole

  unfoldable pub add : ℕ → Blocks C → List ℕ → ℕ → Option (Blocks C)
  add width s bytes len = add_loop width (len + 1) s bytes len

  -- `calculate` up to the result, with the eight bytes of the length.
  unfoldable pub pad : ℕ → (ℕ → List ℕ) → Blocks C → Option (Blocks C)
  pad width length_bytes s = do
    s1 ← add width s padding_block (padding_size s.buffer_len)
    add width s1 (length_bytes (bit_length s.round s.buffer_len)) 8
