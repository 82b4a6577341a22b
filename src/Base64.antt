-- ===== src/Base64.antt =====
-- src/trans.h and src/trans.cpp, class `Base64`. Reads and writes go to an array at an offset, as
-- the source's pointers do; `safe` chooses the alphabet for URLs.
pub mod Encode
pub mod Decode
mod Examples
use libnap.Base.{
  ℕ, zero, suc, ◌+◌, ◌-◌, ◌*◌, ◌/◌, ◌%◌, ◌^◌, bit_and, bit_or, List, [], ◌∷◌, Option, some,
}
use libnap.Base.{
  Bool, true, false, if◌then◌else◌, ◌==◌, ◌>>=◌, u8, u64, ◌<<<◌, ◌>>>◌, load, store, codes,
}
use libnap.Btring.{Btring, bytes, empty, resize, on_content}

-- `b64_table` and `b64_safe_table`
abbrev pub table : Bool → List ℕ
table false = codes "ABCDEFGHIJKLMNOPQRSTUVWXYZabcdefghijklmnopqrstuvwxyz0123456789+/"
table true = codes "ABCDEFGHIJKLMNOPQRSTUVWXYZabcdefghijklmnopqrstuvwxyz0123456789-_"

-- `b64_detable` and `b64_safe_detable`
abbrev pub detable : Bool → List ℕ
detable false =
    0 ∷ 0 ∷ 0 ∷ 0 ∷ 0 ∷ 0 ∷ 0 ∷ 0 ∷ 0 ∷ 0 ∷ 0 ∷ 0 ∷ 0 ∷ 0 ∷ 0 ∷ 0 ∷ 0 ∷ 0 ∷ 0 ∷ 0 ∷ 0 ∷ 0 ∷ 0 ∷ 0
    ∷ 0 ∷ 0 ∷ 0 ∷ 0 ∷ 0 ∷ 0 ∷ 0 ∷ 0 ∷ 0 ∷ 0 ∷ 0 ∷ 0 ∷ 0 ∷ 0 ∷ 0 ∷ 0 ∷ 0 ∷ 0 ∷ 0 ∷ 62 ∷ 0 ∷ 0 ∷ 0
    ∷ 63 ∷ 52 ∷ 53 ∷ 54 ∷ 55 ∷ 56 ∷ 57 ∷ 58 ∷ 59 ∷ 60 ∷ 61 ∷ 0 ∷ 0 ∷ 0 ∷ 61 ∷ 0 ∷ 0 ∷ 0 ∷ 0 ∷ 1 ∷ 2
    ∷ 3 ∷ 4 ∷ 5 ∷ 6 ∷ 7 ∷ 8 ∷ 9 ∷ 10 ∷ 11 ∷ 12 ∷ 13 ∷ 14 ∷ 15 ∷ 16 ∷ 17 ∷ 18 ∷ 19 ∷ 20 ∷ 21 ∷ 22
    ∷ 23 ∷ 24 ∷ 25 ∷ 0 ∷ 0 ∷ 0 ∷ 0 ∷ 0 ∷ 0 ∷ 26 ∷ 27 ∷ 28 ∷ 29 ∷ 30 ∷ 31 ∷ 32 ∷ 33 ∷ 34 ∷ 35 ∷ 36
    ∷ 37 ∷ 38 ∷ 39 ∷ 40 ∷ 41 ∷ 42 ∷ 43 ∷ 44 ∷ 45 ∷ 46 ∷ 47 ∷ 48 ∷ 49 ∷ 50 ∷ 51 ∷ 0 ∷ 0 ∷ 0 ∷ 0 ∷ 0
    ∷ []
detable true =
    0 ∷ 0 ∷ 0 ∷ 0 ∷ 0 ∷ 0 ∷ 0 ∷ 0 ∷ 0 ∷ 0 ∷ 0 ∷ 0 ∷ 0 ∷ 0 ∷ 0 ∷ 0 ∷ 0 ∷ 0 ∷ 0 ∷ 0 ∷ 0 ∷ 0 ∷ 0 ∷ 0
    ∷ 0 ∷ 0 ∷ 0 ∷ 0 ∷ 0 ∷ 0 ∷ 0 ∷ 0 ∷ 0 ∷ 0 ∷ 0 ∷ 0 ∷ 0 ∷ 0 ∷ 0 ∷ 0 ∷ 0 ∷ 0 ∷ 0 ∷ 0 ∷ 0 ∷ 62 ∷ 0 ∷ 0
    ∷ 52 ∷ 53 ∷ 54 ∷ 55 ∷ 56 ∷ 57 ∷ 58 ∷ 59 ∷ 60 ∷ 61 ∷ 0 ∷ 0 ∷ 0 ∷ 61 ∷ 0 ∷ 0 ∷ 0 ∷ 0 ∷ 1 ∷ 2 ∷ 3
    ∷ 4 ∷ 5 ∷ 6 ∷ 7 ∷ 8 ∷ 9 ∷ 10 ∷ 11 ∷ 12 ∷ 13 ∷ 14 ∷ 15 ∷ 16 ∷ 17 ∷ 18 ∷ 19 ∷ 20 ∷ 21 ∷ 22 ∷ 23
    ∷ 24 ∷ 25 ∷ 0 ∷ 0 ∷ 0 ∷ 0 ∷ 63 ∷ 0 ∷ 26 ∷ 27 ∷ 28 ∷ 29 ∷ 30 ∷ 31 ∷ 32 ∷ 33 ∷ 34 ∷ 35 ∷ 36 ∷ 37
    ∷ 38 ∷ 39 ∷ 40 ∷ 41 ∷ 42 ∷ 43 ∷ 44 ∷ 45 ∷ 46 ∷ 47 ∷ 48 ∷ 49 ∷ 50 ∷ 51 ∷ 0 ∷ 0 ∷ 0 ∷ 0 ∷ 0 ∷ []

-- `enblock(str + s, base + b, ent)`
pub enblock : List ℕ → List ℕ → ℕ → List ℕ → ℕ → Option (List ℕ)
enblock ent str s base b = do
  s0 ← load str s
  e0 ← load ent (s0 >>> 2)
  base0 ← store base b e0
  s1 ← load str (s + 1)
  e1 ← load ent (bit_and (bit_or (s0 <<< 4) (s1 >>> 4)) 0x3f)
  base1 ← store base0 (b + 1) e1
  s2 ← load str (s + 2)
  e2 ← load ent (bit_and (bit_or (s1 <<< 2) (s2 >>> 6)) 0x3f)
  base2 ← store base1 (b + 2) e2
  e3 ← load ent (bit_and s2 0x3f)
  store base2 (b + 3) e3

-- `deblock(str + s, base + b, det)`
pub deblock : List ℕ → List ℕ → ℕ → List ℕ → ℕ → Option (List ℕ)
deblock det str s base b = do
  b0 ← load base b
  d0 ← load det b0
  b1 ← load base (b + 1)
  d1 ← load det b1
  str0 ← store str s (u8 (bit_or (d0 <<< 2) (bit_and d1 0x30 >>> 4)))
  b2 ← load base (b + 2)
  d2 ← load det b2
  str1 ← store str0 (s + 1) (u8 (bit_or (d1 <<< 4) (d2 >>> 2)))
  b3 ← load base (b + 3)
  d3 ← load det b3
  store str1 (s + 2) (u8 (bit_or (d2 <<< 6) d3))

-- The whole blocks of `encode`: `n` rounds left at index `i`.
pub encode_loop : List ℕ → List ℕ → ℕ → ℕ → List ℕ → Option (List ℕ)
encode_loop ent m zero i out = some out
encode_loop ent m (suc n) i out = do
  out' ← enblock ent m (i * 3) out (i * 4)
  encode_loop ent m n (i + 1) out'

-- The two cases of the switch in `encode`.
pub pad_one : List ℕ → List ℕ → ℕ → ℕ → List ℕ → Option (List ℕ)
pad_one ent m str_str len out = do
  t0 ← load m str_str
  block ← enblock ent (t0 ∷ 0 ∷ 0 ∷ []) 0 out (len - 4)
  store block (len - 2) b'='

pub pad_two : List ℕ → List ℕ → ℕ → ℕ → List ℕ → Option (List ℕ)
pad_two ent m str_str len out = do
  t0 ← load m str_str
  t1 ← load m (str_str + 1)
  enblock ent (t0 ∷ t1 ∷ 0 ∷ []) 0 out (len - 4)

-- The padded last block of `encode`, over a string of `size` bytes into a result of `len`.
pub encode_tail : List ℕ → List ℕ → ℕ → ℕ → List ℕ → Option (List ℕ)
encode_tail ent m size len out =
    let str_str = size - size % 3 in
    if size % 3 == 0 then some out else do
      out' ← if size % 3 == 1 then pad_one ent m str_str len out else pad_two ent m str_str len out
      store out' (len - 1) b'='

-- The blocks of `decode` before the last one.
pub decode_loop : List ℕ → List ℕ → ℕ → ℕ → List ℕ → Option (List ℕ)
decode_loop det base zero i out = some out
decode_loop det base (suc n) i out = do
  out' ← deblock det out (i * 3) base (i * 4)
  decode_loop det base n (i + 1) out'

-- One and two bytes of the last block of `decode`, written before the end of the result.
pub last_one : List ℕ → List ℕ → ℕ → ℕ → List ℕ → Option (List ℕ)
last_one det base size len out = do
  c0 ← load base (size - 4)
  d0 ← load det c0
  c1 ← load base (size - 3)
  d1 ← load det c1
  store out (len - 1) (u8 (bit_or (d0 <<< 2) (d1 >>> 4)))

pub last_two : List ℕ → List ℕ → ℕ → ℕ → List ℕ → Option (List ℕ)
last_two det base size len out = do
  c0 ← load base (size - 4)
  d0 ← load det c0
  c1 ← load base (size - 3)
  d1 ← load det c1
  out' ← store out (len - 2) (u8 (bit_or (d0 <<< 2) (d1 >>> 4)))
  c2 ← load base (size - 2)
  d2 ← load det c2
  store out' (len - 1) (u8 (bit_or (d1 <<< 4) (d2 >>> 2)))

module _ (fresh : ℕ → List ℕ) where
  -- `Base64::encode`
  pub encode : Btring → Bool → Option Btring
  encode mem safe =
      let m = bytes mem.content in
      let len = u64 ((mem.size / 3 + (if mem.size % 3 == 0 then 0 else 1)) * 4) in
      if mem.size == 0 then some empty else do
        ret ← resize fresh len empty
        on_content ret ret.content λ out. (do
          out' ← encode_loop (table safe) m (mem.size / 3) 0 out
          encode_tail (table safe) m mem.size len out')

  -- The last block of `decode`, padded by two and by one character.
  pub decode_padded : List ℕ → List ℕ → ℕ → Btring → Option Btring
  decode_padded det base size ret = do
    c2 ← load base (size - 2)
    let one = do
      ret' ← resize fresh (u64 (ret.size + 2 ^ 64 - 2)) ret
      on_content ret' ret'.content (last_one det base size ret'.size)
    let two = do
      ret' ← resize fresh (u64 (ret.size + 2 ^ 64 - 1)) ret
      on_content ret' ret'.content (last_two det base size ret'.size)
    if c2 == b'=' then one else two

  -- The last block of `decode`.
  pub decode_tail : List ℕ → List ℕ → ℕ → Btring → Option Btring
  decode_tail det base size ret = do
    c3 ← load base (size - 1)
    if c3 == b'='
        then decode_padded det base size ret
        else on_content ret ret.content λ out. deblock det out (ret.size - 3) base (size - 4)

  -- `Base64::decode`. The count of blocks before the last one wraps for a text shorter than one.
  pub decode : Btring → Bool → Option Btring
  decode base safe =
      let b = bytes base.content in
      if base.size == 0 then some empty else do
        ret ← resize fresh (base.size / 4 * 3) empty
        ret' ←
            on_content ret ret.content
              (decode_loop (detable safe) b (u64 (base.size / 4 + 2 ^ 64 - 1)) 0)
        decode_tail (detable safe) b base.size ret'
