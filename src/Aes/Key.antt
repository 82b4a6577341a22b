-- ===== src/Aes/Key.antt =====
-- src/aes.h and src/aes.cpp, class AesKey: the words of the round keys. `none` is a read or a copy
-- out of range.
pub mod Reverse
use libnap.Base.{ℕ, zero, suc, ◌+◌, ◌-◌, ◌*◌, ◌/◌, ◌%◌, ◌^◌, bit_and, bit_or, bit_xor, List, Option}
use libnap.Base.{
  some, none, if◌then◌else◌, ◌==◌, leb, ltb, ◌>>=◌, u32, ◌<<<◌, ◌>>>◌, get_or, set, length,
}
use libnap.Base.{replicate, memcpy}
use libnap.Aes.Tables.{aes_rcon, aes_s_box}

pub data KeyType : Type 0 where
  t_128 t_192 t_256 : KeyType

-- The numbers of the enumeration, which are the words of a key, and `round`.
unfoldable pub key_words : KeyType → ℕ
key_words t_128 = 4
key_words t_192 = 6
key_words t_256 = 8

unfoldable pub round : KeyType → ℕ
round t_128 = 10
round t_192 = 12
round t_256 = 14

pub record AesKey : Type 0 where
  pub type : KeyType
  pub keys_e : List ℕ
  pub keys_d : List ℕ
  pub array_length : ℕ

-- `INT32`
unfoldable pub int32 : ℕ → ℕ → ℕ → ℕ → ℕ
int32 a b c d = bit_or (bit_or (bit_or (u32 (a <<< 24)) (u32 (b <<< 16))) (u32 (c <<< 8))) d

unfoldable pub load_words : ℕ → ℕ → List ℕ → List ℕ → List ℕ
load_words zero i key words = words
load_words (suc n) i key words =
    let t = i * 4 in
    load_words n (i + 1) key (
      set words i (
        int32 (get_or key t 0) (get_or key (t + 1) 0) (get_or key (t + 2) 0)
          (get_or key (t + 3) 0)))

-- The bytes of `v` replaced in place.
unfoldable pub subword : ℕ → ℕ
subword v =
    let sub : ℕ → ℕ = (λ b. get_or aes_s_box (b % 256) 0) in
    sub v + sub (v / 2 ^ 8) * 2 ^ 8 + sub (v / 2 ^ 16) * 2 ^ 16 + sub (v / 2 ^ 24) * 2 ^ 24

unfoldable pub mix : ℕ → ℕ
mix n = subword (bit_or (u32 (n <<< 8)) (bit_and n 0xff000000 >>> 24))

unfoldable pub next_word : ℕ → ℕ → ℕ → ℕ
next_word nk i temp =
    if i % nk == 0
    then bit_xor (mix temp) (get_or aes_rcon (i / nk) 0)
    else if ltb 6 nk
    then (if i % nk == 4 then subword temp else temp)
    else temp

unfoldable pub expand : ℕ → ℕ → ℕ → List ℕ → List ℕ
expand nk zero i words = words
expand nk (suc n) i words =
    let temp = next_word nk i (get_or words (i - 1) 0) in
    expand nk n (i + 1) (set words i (bit_xor (get_or words (i - nk) 0) temp))

-- The loop that copies the round keys in the reverse order: `e` and `d` are the indices of the
-- pointers `p_e` and `p_d`.
unfoldable pub reverse_keys : ℕ → ℕ → ℕ → List ℕ → List ℕ → List ℕ
reverse_keys zero e d keys_e keys_d = keys_d
reverse_keys (suc n) e d keys_e keys_d =
    let k0 = set keys_d d (get_or keys_e e 0) in
    let k1 = set k0 (d + 1) (get_or keys_e (e + 1) 0) in
    let k2 = set k1 (d + 2) (get_or keys_e (e + 2) 0) in
    let k3 = set k2 (d + 3) (get_or keys_e (e + 3) 0) in reverse_keys n (e + 4) (d - 4) keys_e k3

-- `_init` and `_key_expansion`, whose array of keys is not set before.
unfoldable pub init : List ℕ → KeyType → Option AesKey
init key type =
    let nk = key_words type in
    let exp_length = 4 * (round type + 1) in
    let keys_e = expand nk (exp_length - nk) nk (load_words nk 0 key (replicate exp_length 0)) in
    let keys_d = reverse_keys (exp_length / 4) 0 (exp_length - 4) keys_e (replicate exp_length 0) in
    if leb (4 * nk) (length key)
    then some (record { type = type; keys_e = keys_e; keys_d = keys_d; array_length = exp_length })
    else none

-- The key of a given length, filled up with zeros or cut to 32 bytes.
unfoldable pub padded_key : ℕ → List ℕ → ℕ → KeyType → Option AesKey
padded_key size key length type =
    if length == size
    then init key type
    else (do tmp ← memcpy (replicate size 0) 0 key length; init tmp type)

unfoldable pub of_length : List ℕ → ℕ → Option AesKey
of_length key length =
    if leb length 16
    then padded_key 16 key length t_128
    else if leb length 24
    then padded_key 24 key length t_192
    else (let cut = if ltb 32 length then 32 else length in padded_key 32 key cut t_256)
