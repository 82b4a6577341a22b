-- ===== src/Aes/Gcm.antt =====
-- src/aes.h and src/aes.cpp: the classes AesGCMEncryption and AesGCMDecryption over AesBuffer. The
-- constructors and `resetdata` read twelve bytes of the initial vector.
pub mod Blocks
pub mod Hash
pub mod Whole
pub mod Finish
pub mod RoundTrip
pub mod Counter
mod Examples
use libnap.Base.{
  memcpy, ◌>>=◌, ℕ, zero, suc, ◌+◌, ◌-◌, ◌*◌, ◌/◌, ◌%◌, ◌^◌, List, [], ◌∷◌, ◌++◌, Option, some,
  none, Bool, true, false, if◌then◌else◌, ◌==◌,
}
use libnap.Base.{ltb, leb, u8, u32, u64, ◌>>>◌, bit_and, take, drop, length, replicate, get_or, set}
use libnap.Aes.Key.{AesKey}
use libnap.Aes.Bytes.{encrypt_bytes, xor_bytes}
use libnap.Aes.Iv.{increment}
use libnap.Aes.Galois.{g_num128}
use libnap.Aes.Stream.{Buffer, Handle, each_block, start}
use libnap.Aes.Modes.{crypt}

-- `_iv`, `_original_iv`, `J0`, `J0_begin` and `S`.
pub record Gcm : Type 0 where
  pub iv : List ℕ
  pub original_iv : List ℕ
  pub j0 : List ℕ
  pub j0_begin : List ℕ
  pub sum : List ℕ

unfoldable pub inc32 : List ℕ → List ℕ
inc32 block =
    let b : ℕ → ℕ = λ i. get_or block i 0 in
    let t = u32 (b 15 + b 14 * 2 ^ 8 + b 13 * 2 ^ 16 + b 12 * 2 ^ 24 + 1) in
    if ltb (b 15) 0xff
    then set block 15 (b 15 + 1)
    else set (set (set (set block 15 (u8 t)) 14 (u8 (t >>> 8))) 13 (u8 (t >>> 16))) 12
        (u8 (t >>> 24))

-- One round of `gctr`, from `J0` and a block, and all its rounds.
unfoldable pub gctr_step : AesKey → List ℕ → List ℕ → List ℕ × List ℕ
gctr_step key j0 block = (inc32 j0, xor_bytes (encrypt_bytes key j0) block)

unfoldable pub gctr : AesKey → List ℕ → List ℕ → ℕ → List ℕ × List ℕ
gctr key j0 bytes len = each_block (gctr_step key) (len / 16) j0 bytes

-- One round of `ghash`, with `H`, `S` and a block; the loop, with the rounds left; and the whole,
-- where `x` has at least the `xlen` bytes.
unfoldable pub ghash_block : List ℕ → List ℕ → List ℕ → List ℕ
ghash_block h s block = g_num128 (xor_bytes s block) h

unfoldable pub ghash_loop : List ℕ → ℕ → List ℕ → List ℕ → List ℕ
ghash_loop h zero s x = s
ghash_loop h (suc n) s x = ghash_loop h n (ghash_block h s (take 16 x)) (drop 16 x)

unfoldable pub ghash : List ℕ → List ℕ → List ℕ → ℕ → List ℕ
ghash h s x xlen =
    let m = xlen / 16 in
    let s' = ghash_loop h m s x in
    let last = xlen - m * 16 in
    if last == 0
    then s'
    else ghash_block h s' (take last (drop (m * 16) x) ++ replicate (16 - last) 0)

-- `H`, by the constructor.
unfoldable pub hash_key : AesKey → List ℕ
hash_key key = encrypt_bytes key (replicate 16 0)

-- All of `J0` is written: twelve bytes of the vector, which it must have, three zeros and a one.
unfoldable pub calculate_j0 : Gcm → Option Gcm
calculate_j0 m = do
  filled ← memcpy (replicate 16 0) 0 m.iv 12
  let begin = take 12 filled ++ 0 ∷ 0 ∷ 0 ∷ 1 ∷ []
  some (record m { j0 = inc32 begin; j0_begin = begin })

-- `U64TOCHAR`
unfoldable pub u64_to_char : ℕ → List ℕ
u64_to_char n =
    u8 (n >>> 56)
    ∷ u8 (n >>> 48)
    ∷ u8 (n >>> 40)
    ∷ u8 (n >>> 32)
    ∷ u8 (n >>> 24)
    ∷ u8 (n >>> 16)
    ∷ u8 (n >>> 8)
    ∷ u8 (bit_and n 0xff)
    ∷ []

module _ (key : AesKey) (aad : List ℕ) where
  unfoldable pub resetdata : Gcm → Option Gcm
  resetdata m = do
    m' ← calculate_j0 (record m { iv = m.original_iv })
    some (record m' { sum = ghash (hash_key key) (replicate 16 0) aad (length aad) })

  -- The constructors.
  unfoldable pub of_iv : List ℕ → Option Gcm
  of_iv iv = resetdata (record {
    iv = iv;
    original_iv = iv;
    j0 = replicate 16 0;
    j0_begin = replicate 16 0;
    sum = replicate 16 0;
  })

  -- `handle` of the two classes. `gctr` and `ghash` go through the memory by pointers.
  unfoldable pub handle_encrypt : Handle Gcm
  handle_encrypt m in_place buf out len =
      let r = gctr key m.j0 buf len in
      let put = (do
        out' ← memcpy out 0 r.1 len
        some (record m { j0 = r.0; sum = ghash (hash_key key) m.sum out' len }, out')) in
      if leb len (length buf) then put else none

  unfoldable pub handle_decrypt : Handle Gcm
  handle_decrypt m in_place buf out len =
      let r = gctr key m.j0 buf len in
      let put = (do
        out' ← memcpy out 0 r.1 len
        some (record m { j0 = r.0; sum = ghash (hash_key key) m.sum buf len }, out')) in
      if leb len (length buf) then put else none

  -- The end of `endinput`, from the line that moves the result out.
  unfoldable pub tagged : Buffer Gcm → Option (Buffer Gcm × (List ℕ × List ℕ))
  tagged s =
      let res = s.result in
      let m = s.mode in
      let len_buf = u64_to_char (u64 (length aad * 8)) ++ u64_to_char (u64 (length res * 8)) in
      let sum = ghash (hash_key key) m.sum len_buf 16 in
      let r = gctr key m.j0_begin sum 16 in
      some (
        record s {
          result = [];
          mode = record m { sum = sum; j0 = r.0; original_iv = increment 12 m.original_iv };
        },
        (r.1, res),
      )

  -- `endinput` of the two classes: the rest, if there is one, is filled up with zeros.
  unfoldable pub end_encrypt : Buffer Gcm → Option (Buffer Gcm × (List ℕ × List ℕ))
  end_encrypt s =
      let len = u8 s.buffer_len in
      let m = s.mode in
      let r = gctr key m.j0 (take len s.buffer ++ replicate (16 - len) 0) 16 in
      let full = record s {
        result = s.result ++ take len r.1;
        mode = record m { j0 = r.0; sum = ghash (hash_key key) m.sum r.1 len };
      } in
      tagged (if len == 0 then s else full)

  unfoldable pub end_decrypt : Buffer Gcm → Option (Buffer Gcm × (List ℕ × List ℕ))
  end_decrypt s =
      let len = u8 s.buffer_len in
      let m = s.mode in
      let r = gctr key m.j0 (take len s.buffer ++ replicate (16 - len) 0) 16 in
      let full = record s {
        result = s.result ++ take len r.1;
        mode = record m { j0 = r.0; sum = ghash (hash_key key) m.sum s.buffer len };
      } in
      tagged (if len == 0 then s else full)

  -- What comes of a message in pieces: the tag and the result.
  abbrev pub encryption : Buffer Gcm → List (List ℕ) → Option (Buffer Gcm × (List ℕ × List ℕ))
  encryption = crypt handle_encrypt end_encrypt resetdata

  abbrev pub decryption : Buffer Gcm → List (List ℕ) → Option (Buffer Gcm × (List ℕ × List ℕ))
  decryption = crypt handle_decrypt end_decrypt resetdata

  -- The same with a new object.
  abbrev pub encrypt_message : List ℕ → List (List ℕ) → Option (Buffer Gcm × (List ℕ × List ℕ))
  encrypt_message iv pieces = do m ← of_iv iv; encryption (start m) pieces

  abbrev pub decrypt_message : List ℕ → List (List ℕ) → Option (Buffer Gcm × (List ℕ × List ℕ))
  decrypt_message iv pieces = do m ← of_iv iv; decryption (start m) pieces
