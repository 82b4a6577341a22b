-- ===== src/Aes/Gcm/Examples.antt =====
-- A test case of the authors of GCM for src/aes.cpp, with AES-128, and runs on messages in pieces.
use libnap.Base.{
  none, bytewise, flatten-bytewise, bytewise-AllShort, ℕ, ◌+◌, ◌%◌, ◌^◌, List, [], ◌∷◌, ◌++◌,
  Option, some, ◌≡◌, refl, arith, ◌>>=◌, flatten, take, drop, replicate, memcpy,
}
use libnap.Aes.Key.{
  AesKey, init, key_words, round, int32, load_words, subword, mix, next_word, expand, reverse_keys,
  padded_key, t_128,
}
use libnap.Aes.Block.{
  map_row, map_bytes, s_box, subbytes, leftshift_1, leftshift_2, rightshift_1, shiftrows,
  mix_column, map_columns, mixcolumns, xor_row, addroundkey, encrypt_rounds, encrypt_block,
}
use libnap.Aes.Bytes.{to_row, to_matrix, of_matrix, encrypt_bytes, xor_bytes}
use libnap.Aes.Iv.{increment_loop, increment}
use libnap.Aes.Iv.Increment.{number}
use libnap.Aes.Galois.{
  int32_to_char, shift_word, shift_right_block, next_v, bit_rounds, byte_rounds, g_num128,
}
use libnap.Aes.Stream.{each_block, start, add, add_whole}
use libnap.Aes.Stream.Pieces.{add_pieces}
use libnap.Aes.Modes.{reset, end, crypt}
use libnap.Aes.Modes.Cipher.{IsBlock}
use libnap.Aes.Gcm.{
  inc32, gctr_step, gctr, ghash_block, ghash_loop, ghash, hash_key, calculate_j0, u64_to_char,
  resetdata, of_iv, handle_encrypt, tagged, end_encrypt, encrypt_message, decrypt_message,
}
use libnap.Aes.Gcm.Whole.{text, Crypted}
use libnap.Aes.Gcm.RoundTrip.{gcm_lem, gcm_round_trip}
use libnap.Aes.Gcm.Counter.{inc32_lem}

abbrev zero_iv : List ℕ
zero_iv = replicate 12 0

abbrev zero_message : List (List ℕ)
zero_message = replicate 5 0 ∷ replicate 11 0 ∷ []

gcm_standard :
    (do
      key ← init (replicate 16 0) t_128
      r ← encrypt_message key [] zero_iv zero_message
      some r.1)
    ≡ some (
      0xab ∷ 0x6e ∷ 0x47 ∷ 0xd4 ∷ 0x2c ∷ 0xec ∷ 0x13 ∷ 0xbd ∷ 0xf5 ∷ 0x3a ∷ 0x67 ∷ 0xb2 ∷ 0x12
          ∷ 0x57 ∷ 0xbd ∷ 0xdf ∷ [],
      0x03 ∷ 0x88 ∷ 0xda ∷ 0xce ∷ 0x60 ∷ 0xb6 ∷ 0xa3 ∷ 0x92 ∷ 0xf3 ∷ 0x28 ∷ 0xc2 ∷ 0xb9 ∷ 0x71
          ∷ 0xb2 ∷ 0xfe ∷ 0x78 ∷ [],
    )
unfolding memcpy init key_words round int32 load_words subword mix next_word expand reverse_keys
    padded_key map_row map_bytes s_box subbytes leftshift_1 leftshift_2 rightshift_1 shiftrows
    mix_column map_columns mixcolumns xor_row addroundkey encrypt_rounds encrypt_block to_row
    to_matrix of_matrix encrypt_bytes xor_bytes increment_loop increment each_block start add
    add_whole add_pieces reset end crypt int32_to_char shift_word shift_right_block next_v
    bit_rounds byte_rounds g_num128 inc32 gctr_step gctr ghash_block ghash_loop ghash hash_key
    calculate_j0 u64_to_char resetdata of_iv handle_encrypt tagged end_encrypt
gcm_standard = refl

abbrev plain_key : AesKey
plain_key = record {
  type = t_128;
  keys_e = replicate 44 0;
  keys_d = replicate 44 0;
  array_length = 44;
}

abbrev aad_bytes : List ℕ
aad_bytes = 1 ∷ 2 ∷ 3 ∷ []

abbrev last_counter : List ℕ
last_counter = replicate 12 7 ++ (255 ∷ 255 ∷ 255 ∷ 255 ∷ [])

gcm_lem_example :
    let msg = flatten zero_message in
    Crypted plain_key zero_iv aad_bytes msg
      (text plain_key zero_iv msg)
      (encrypt_message plain_key aad_bytes zero_iv zero_message)
    × Crypted plain_key zero_iv aad_bytes msg msg
        (decrypt_message plain_key aad_bytes zero_iv zero_message)
gcm_lem_example = gcm_lem plain_key zero_iv aad_bytes (omega arith) zero_message (omega arith)

gcm_round_trip_example :
    let run : Option (List ℕ × (List ℕ × List ℕ)) = (do
      sent ← encrypt_message plain_key [] zero_iv zero_message
      got ← decrypt_message plain_key [] zero_iv (bytewise sent.1.1)
      some (sent.1.0, got.1)) in
    (t : List ℕ) × (run ≡ some (t, (t, flatten zero_message)))
gcm_round_trip_example =
    gcm_round_trip plain_key zero_iv [] (omega arith) zero_message bytewise flatten-bytewise
      (bytewise-AllShort (2 ^ 64) (omega arith)) (omega arith)

-- A vector of eleven bytes is read beyond its end.
short_vector : of_iv plain_key [] (replicate 11 0) ≡ none
unfolding of_iv resetdata calculate_j0 memcpy
short_vector = refl

inc32_lem_example :
    (take 12 (inc32 last_counter) ≡ take 12 last_counter)
    × (number (drop 12 (inc32 last_counter)) 0 ≡ (number (drop 12 last_counter) 0 + 1) % 2 ^ 32)
    × IsBlock (inc32 last_counter)
inc32_lem_example = inc32_lem last_counter (record { size = refl; are_bytes = omega arith })
