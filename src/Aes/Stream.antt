-- ===== src/Aes/Stream.antt =====
-- src/aes.h, class AesBuffer: bytes come in pieces, and are handled in blocks of sixteen. The
-- members of the derived class are `mode`, of a type that the class chooses, and `handle` is its
-- virtual function: from the members, whether the output is the input's own memory, what can be
-- read at the input, the memory from the output on, and the number of bytes, to the members
-- afterwards and this memory. `_result` stands for its bytes.
pub mod Rounds
pub mod Add
pub mod Pieces
use libnap.Base.{
  ℕ, zero, suc, ◌+◌, ◌-◌, ◌*◌, ◌/◌, ◌%◌, ◌^◌, List, [], ◌∷◌, ◌++◌, Option, some, none, Bool, true,
  false,
}
use libnap.Base.{
  ◌&&◌, if◌then◌else◌, ◌==◌, ltb, leb, ◌>>=◌, u32, take, drop, length, replicate, memcpy,
}

-- `_buffer`, `_buffer_len` and `_result`.
pub record Buffer (S : Type 0) : Type 0 where
  pub buffer : List ℕ
  pub buffer_len : ℕ
  pub result : List ℕ
  pub mode : S

abbrev pub Handle : Type 0 → Type 0
Handle S = S → Bool → List ℕ → List ℕ → ℕ → Option (S × List ℕ)

-- A loop over blocks by a pointer that goes on, with the rounds left. One round is `step`: from the
-- members and a block, to the members and the block put out.
unfoldable pub each_block : {S : Type 0} → (S → List ℕ → S × List ℕ) → ℕ → S → List ℕ → S × List ℕ
each_block step zero m buf = (m, [])
each_block step (suc n) m buf =
    let first = step m (take 16 buf) in
    let more = each_block step n first.0 (drop 16 buf) in (more.0, first.1 ++ more.1)

-- The loop over the blocks that `handle` of ECB, CBC and CTR have in common, with the rounds left
-- and `i`. The offset `i * 16` is a `uint32_t`, and the block put out is written there. `ready` is
-- false where the members have no block that can be read. CBC copies the input to the output first
-- and reads it there, which are the same bytes as long as no offset wraps around.
unfoldable pub block_loop :
    {S : Type 0}
    → (S → Bool)
    → (S → List ℕ → S × List ℕ)
    → ℕ
    → ℕ
    → S
    → List ℕ
    → List ℕ
    → Option (S × List ℕ)
block_loop ready step zero i m buf out = some (m, out)
block_loop ready step (suc n) i m buf out =
    let offset = u32 (i * 16) in
    let r = step m (take 16 (drop offset buf)) in
    let rest = (do out' ← memcpy out offset r.1 16; block_loop ready step n (i + 1) r.0 buf out') in
    if ready m then rest else none

-- `handle` of a class whose rounds are `step`: `none` where the input is too short, and where the
-- `uint32_t` that counts the blocks never comes to their number.
unfoldable pub handle_blocks :
    {S : Type 0} → (S → Bool) → (Bool → S → List ℕ → S × List ℕ) → Handle S
handle_blocks ready step m in_place buf out len =
    if leb len (length buf) && ltb (len / 16) (2 ^ 32)
    then block_loop ready (step in_place) (len / 16) 0 m buf out
    else none

-- A fresh object.
unfoldable pub start : {S : Type 0} → S → Buffer S
start m = record { buffer = replicate 16 0; buffer_len = 0; result = []; mode = m }

module _ {S : Type 0} (handle : Handle S) where
  -- `add` where no byte is left over from before. Zeros stand for the new bytes of `resize`.
  unfoldable pub add_whole : Buffer S → List ℕ → ℕ → Option (Buffer S)
  add_whole s bytes data_len =
      let max_deal = data_len - data_len % 16 in
      let few = (do
        buffer ← memcpy s.buffer 0 bytes data_len
        some (record s { buffer = buffer; buffer_len = data_len })) in
      let many = (do
        let resized = s.result ++ replicate max_deal 0
        let at = length resized - max_deal
        handled ← handle s.mode false bytes (drop at resized) max_deal
        let s' = record s { mode = handled.0; result = take at resized ++ handled.1 }
        let keep = (do
          buffer ← memcpy s'.buffer 0 (drop max_deal bytes) (data_len - max_deal)
          some (record s' { buffer = buffer; buffer_len = data_len - max_deal }))
        if max_deal == data_len then some s' else keep) in
      if ltb data_len 16 then few else many

  -- `add`. The call of `add` inside finds `_buffer_len` zero.
  unfoldable pub add : Buffer S → List ℕ → ℕ → Option (Buffer S)
  add s bytes data_len =
      let few = (do
        buffer ← memcpy s.buffer s.buffer_len bytes data_len
        some (record s { buffer = buffer; buffer_len = s.buffer_len + data_len })) in
      let rent_length = u32 (16 + 2 ^ 32 - s.buffer_len) in
      let many = (do
        buffer ← memcpy s.buffer s.buffer_len bytes rent_length
        handled ← handle s.mode true buffer buffer 16
        add_whole
            (record s {
              buffer = handled.1;
              buffer_len = 0;
              result = s.result ++ handled.1;
              mode = handled.0;
            })
            (drop rent_length bytes) (data_len - rent_length)) in
      if s.buffer_len == 0
      then add_whole s bytes data_len
      else if ltb (s.buffer_len + data_len) 16
      then few
      else many
