-- ===== src/Hex.antt =====
-- src/trans.h and src/trans.cpp, class `Hex`. The loops work on the content of the result, which
-- has been resized before; `n` counts the rounds left and `i` is the index.
pub mod Encode
pub mod Decode
mod Examples
use libnap.Base.{
  ℕ, zero, suc, ◌+◌, ◌-◌, ◌*◌, ◌/◌, ◌%◌, ◌^◌, bit_and, bit_or, List, Option, none, some,
}
use libnap.Base.{
  Bool, true, false, not, ◌||◌, if◌then◌else◌, ◌==◌, ltb, ◌>>=◌, u8, u64, ◌<<<◌, ◌>>>◌,
}
use libnap.Base.{load, store}
use libnap.Btring.{Btring, bytes, empty, resize, on_content}

-- `HEX_TRANS`
pub hex_trans : ℕ → Bool → ℕ
hex_trans x up = if ltb 9 x then x + (if up then 0x37 else 0x57) else bit_or x 0x30

-- `STR_TRANS`, an `int` that may be negative, modulo 256: it is only stored into bytes.
pub str_trans : ℕ → ℕ
str_trans x =
    if ltb x 0x40
    then u8 (x + 256 - 0x30)
    else if ltb x 0x47
    then u8 (x + 256 - 0x37)
    else if ltb x 0x67
    then u8 (x + 256 - 0x57)
    else 0x10

pub encode_loop : Bool → List ℕ → ℕ → ℕ → List ℕ → Option (List ℕ)
encode_loop capital m zero i out = some out
encode_loop capital m (suc n) i out = do
  high ← load m i
  out' ← store out (i * 2) (u8 (hex_trans (high >>> 4) capital))
  low ← load m i
  out'' ← store out' (i * 2 + 1) (u8 (hex_trans (bit_and low 0x0F) capital))
  encode_loop capital m n (i + 1) out''

-- The second half of a byte, where the text has one.
pub decode_low : Bool → ℕ → List ℕ → ℕ → List ℕ → Option (List ℕ)
decode_low odd len m i buffer =
    if not odd || ltb (i * 2 + 1) len
    then (do
      low ← load m (i * 2 + 1)
      so_far ← load buffer i
      store buffer i (u8 (so_far + str_trans low)))
    else some buffer

pub decode_loop : Bool → ℕ → List ℕ → ℕ → ℕ → List ℕ → Option (List ℕ)
decode_loop odd len m zero i buffer = some buffer
decode_loop odd len m (suc n) i buffer = do
  high ← load m (i * 2)
  buffer' ← store buffer i (u8 (str_trans high <<< 4))
  buffer'' ← decode_low odd len m i buffer'
  decode_loop odd len m n (i + 1) buffer''

module _ (fresh : ℕ → List ℕ) where
  -- `Hex::encode`
  pub encode : Btring → Bool → Option Btring
  encode mem capital = do
    result ← resize fresh (u64 (mem.size * 2)) empty
    on_content result result.content (encode_loop capital (bytes mem.content) mem.size 0)

  -- `Hex::decode`
  pub decode : Btring → Option Btring
  decode mem =
      let len = mem.size in
      let odd = not (len % 2 == 0) in
      let size = if odd then len / 2 + 1 else len / 2 in
      do
        result ← resize fresh size empty
        on_content result result.content (decode_loop odd len (bytes mem.content) size 0)
