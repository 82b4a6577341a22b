-- ===== src/Aes/Modes/Examples.antt =====
-- The examples of NIST SP 800-38A for src/aes.cpp, with AES-128, and runs of the modes on messages
-- in pieces.
use libnap.Base.{
  bytewise, flatten-bytewise, bytewise-AllShort, memcpy, replicate, ℕ, ◌+◌, List, [], ◌∷◌, ◌++◌,
  some, none, false, ◌≡◌, refl, arith, ◌>>=◌, flatten, length, take, IsBytes, ◌%◌, ◌^◌,
}
use Prim.{Unit, tt}
use libnap.Aes.Key.{
  AesKey, init, key_words, round, int32, load_words, subword, mix, next_word, expand, reverse_keys,
  padded_key, t_128,
}
use libnap.Aes.Block.{
  map_row, map_bytes, s_box, inv_s_box, subbytes, invsubbytes, leftshift_1, leftshift_2,
  rightshift_1, shiftrows, invshiftrows, mix_column, inv_mix_column, map_columns, mixcolumns,
  invmixcolumns, xor_row, addroundkey, encrypt_rounds, encrypt_block, decrypt_rounds, decrypt_block,
}
use libnap.Aes.Bytes.{to_row, to_matrix, of_matrix, encrypt_bytes, decrypt_bytes, xor_bytes}
use libnap.Aes.Iv.{increment_loop, increment}
use libnap.Aes.Iv.Increment.{number, increment_lem}
use libnap.Aes.Padding.{no_padding, pkcs7, iso10126, add_padding, remove_padding, char_value}
use libnap.Aes.Stream.{block_loop, handle_blocks, start, add, add_whole}
use libnap.Aes.Stream.Pieces.{add_pieces}
use libnap.Aes.Stream.Add.{Adds, aes_add_lem, start-Absorbed}
use libnap.Aes.Modes.{
  always_ready, counter_ready, no_members, of_iv, ecb_encrypt, ecb_decrypt, cbc_encrypt,
  cbc_decrypt, ctr_crypt, restore_iv, keep_members, shorten, end_encrypt, end_counter, end_decrypt,
  reset, end, crypt, ecb_encryption, ecb_decryption, cbc_encryption, cbc_decryption, ctr_encryption,
}
use libnap.Aes.Modes.Cipher.{IsBlock}
use libnap.Aes.Modes.Rounds.{ecb_same, encrypted_size}
use libnap.Aes.Modes.Finish.{handle_blocks-Serves}
use libnap.Aes.Modes.Codebook.{ecb_round_trip, cbc_round_trip}
use libnap.Aes.Modes.Counter.{Streamed, ctr_lem, ctr_round_trip}
use libnap.Aes.Modes.Split.{Taken, cbc_split_lem}

abbrev key_bytes : List ℕ
key_bytes =
    0x2b ∷ 0x7e ∷ 0x15 ∷ 0x16 ∷ 0x28 ∷ 0xae ∷ 0xd2 ∷ 0xa6 ∷ 0xab ∷ 0xf7 ∷ 0x15 ∷ 0x88 ∷ 0x09 ∷ 0xcf
    ∷ 0x4f ∷ 0x3c ∷ []

abbrev iv_bytes : List ℕ
iv_bytes = 0 ∷ 1 ∷ 2 ∷ 3 ∷ 4 ∷ 5 ∷ 6 ∷ 7 ∷ 8 ∷ 9 ∷ 10 ∷ 11 ∷ 12 ∷ 13 ∷ 14 ∷ 15 ∷ []

abbrev counter_bytes : List ℕ
counter_bytes =
    0xf0 ∷ 0xf1 ∷ 0xf2 ∷ 0xf3 ∷ 0xf4 ∷ 0xf5 ∷ 0xf6 ∷ 0xf7 ∷ 0xf8 ∷ 0xf9 ∷ 0xfa ∷ 0xfb ∷ 0xfc ∷ 0xfd
    ∷ 0xfe ∷ 0xff ∷ []

-- The block of the standard in two pieces.
abbrev front_bytes : List ℕ
front_bytes = 0x6b ∷ 0xc1 ∷ 0xbe ∷ 0xe2 ∷ 0x2e ∷ []

abbrev rest_bytes : List ℕ
rest_bytes = 0x40 ∷ 0x9f ∷ 0x96 ∷ 0xe9 ∷ 0x3d ∷ 0x7e ∷ 0x11 ∷ 0x73 ∷ 0x93 ∷ 0x17 ∷ 0x2a ∷ []

abbrev two_pieces : List (List ℕ)
two_pieces = front_bytes ∷ rest_bytes ∷ []

ecb_standard :
    (do
      key ← init key_bytes t_128
      r ← ecb_encryption key (λ i. i) no_padding (start no_members) two_pieces
      some r.1)
    ≡ some (
        0x3a ∷ 0xd7 ∷ 0x7b ∷ 0xb4 ∷ 0x0d ∷ 0x7a ∷ 0x36 ∷ 0x60 ∷ 0xa8 ∷ 0x9e ∷ 0xca ∷ 0xf3 ∷ 0x24
        ∷ 0x66 ∷ 0xef ∷ 0x97 ∷ [])
unfolding memcpy init key_words round int32 load_words subword mix next_word expand reverse_keys
    padded_key map_row map_bytes s_box subbytes leftshift_1 leftshift_2 rightshift_1 shiftrows
    mix_column map_columns mixcolumns xor_row addroundkey encrypt_rounds encrypt_block to_row
    to_matrix of_matrix encrypt_bytes add_padding block_loop handle_blocks start add add_whole
    add_pieces ecb_encrypt end_encrypt keep_members reset end crypt
ecb_standard = refl

cbc_standard :
    (do
      key ← init key_bytes t_128
      r ← cbc_encryption key (λ i. i) no_padding (start (of_iv iv_bytes)) two_pieces
      some r.1)
    ≡ some (
        0x76 ∷ 0x49 ∷ 0xab ∷ 0xac ∷ 0x81 ∷ 0x19 ∷ 0xb2 ∷ 0x46 ∷ 0xce ∷ 0xe9 ∷ 0x8e ∷ 0x9b ∷ 0x12
        ∷ 0xe9 ∷ 0x19 ∷ 0x7d ∷ [])
unfolding memcpy init key_words round int32 load_words subword mix next_word expand reverse_keys
    padded_key map_row map_bytes s_box subbytes leftshift_1 leftshift_2 rightshift_1 shiftrows
    mix_column map_columns mixcolumns xor_row addroundkey encrypt_rounds encrypt_block to_row
    to_matrix of_matrix encrypt_bytes xor_bytes add_padding block_loop handle_blocks start add
    add_whole add_pieces cbc_encrypt of_iv restore_iv end_encrypt reset end crypt
cbc_standard = refl

ctr_standard :
    (do
      key ← init key_bytes t_128
      r ← ctr_encryption key (start (of_iv counter_bytes)) two_pieces
      some r.1)
    ≡ some (
        0x87 ∷ 0x4d ∷ 0x61 ∷ 0x91 ∷ 0xb6 ∷ 0x20 ∷ 0xe3 ∷ 0x26 ∷ 0x1b ∷ 0xef ∷ 0x68 ∷ 0x64 ∷ 0x99
        ∷ 0x0d ∷ 0xb6 ∷ 0xce ∷ [])
unfolding memcpy init key_words round int32 load_words subword mix next_word expand reverse_keys
    padded_key map_row map_bytes s_box subbytes leftshift_1 leftshift_2 rightshift_1 shiftrows
    mix_column map_columns mixcolumns xor_row addroundkey encrypt_rounds encrypt_block to_row
    to_matrix of_matrix encrypt_bytes xor_bytes increment_loop increment block_loop handle_blocks
    start add add_whole add_pieces ctr_crypt counter_ready of_iv restore_iv end_counter reset end
    crypt
ctr_standard = refl

-- The padding of a short message is one block, and is taken off.
decrypts_short :
    (do
      key ← init key_bytes t_128
      sent ← ecb_encryption key (λ i. i) pkcs7 (start no_members) (front_bytes ∷ [])
      got ← ecb_decryption key (λ n. []) pkcs7 (start no_members) (sent.1 ∷ [])
      some got.1)
    ≡ some front_bytes
unfolding memcpy init key_words round int32 load_words subword mix next_word expand reverse_keys
    padded_key map_row map_bytes s_box subbytes leftshift_1 leftshift_2 rightshift_1 shiftrows
    mix_column map_columns mixcolumns xor_row addroundkey encrypt_rounds encrypt_block to_row
    to_matrix of_matrix encrypt_bytes inv_s_box invsubbytes invshiftrows inv_mix_column
    invmixcolumns decrypt_rounds decrypt_block decrypt_bytes add_padding remove_padding char_value
    block_loop handle_blocks start add add_whole add_pieces ecb_encrypt ecb_decrypt end_encrypt
    end_decrypt shorten keep_members reset end crypt
decrypts_short = refl

-- An empty message has no last byte to read, where the padding is read from it.
decrypts_nothing :
    (do
      key ← init key_bytes t_128
      got ← ecb_decryption key (λ n. []) pkcs7 (start no_members) []
      some got.1)
    ≡ none
unfolding init key_words end_decrypt end crypt add_pieces start remove_padding
decrypts_nothing = refl

decrypts_unpadded :
    (do
      key ← init key_bytes t_128
      got ← ecb_decryption key (λ n. []) no_padding (start no_members) []
      some got.1)
    ≡ some []
unfolding init key_words end_decrypt end reset crypt add_pieces start remove_padding shorten
    keep_members round int32 load_words subword mix next_word expand reverse_keys padded_key s_box
decrypts_unpadded = refl

carries : increment 3 (7 ∷ 255 ∷ 255 ∷ []) ≡ 8 ∷ 0 ∷ 0 ∷ []
unfolding increment increment_loop
carries = refl

abbrev zero_key : AesKey
zero_key = record {
  type = t_128;
  keys_e = replicate 44 0;
  keys_d = replicate 44 0;
  array_length = 44;
}

aes_add_lem_example :
    Adds
      (ecb_encrypt zero_key false)
      no_members
      ([] ++ take 11 rest_bytes)
      (add (handle_blocks always_ready (ecb_encrypt zero_key)) (start no_members) rest_bytes 11)
aes_add_lem_example =
    aes_add_lem (ecb_encrypt zero_key false) (handle_blocks always_ready (ecb_encrypt zero_key))
      (handle_blocks-Serves (λ m. Unit {0}) always_ready (ecb_encrypt zero_key) (ecb_same zero_key)
        (λ m ok. refl) (λ m b h ok. tt) (λ m b h. unfold ecb_encrypt in encrypted_size zero_key b))
      tt (start no_members) [] rest_bytes 11 (omega arith) (omega arith)
      (start-Absorbed (ecb_encrypt zero_key false) no_members)

increment_lem_example :
    let next = increment 3 (7 ∷ 255 ∷ 255 ∷ []) in
    (length next ≡ 3)
    × IsBytes next
    × (number next 0 ≡ (number (7 ∷ 255 ∷ 255 ∷ []) 0 + 1) % 256 ^ 3)
increment_lem_example = increment_lem 2 (7 ∷ 255 ∷ 255 ∷ []) refl (omega arith)

two_pieces-IsBytes : IsBytes (flatten two_pieces)
two_pieces-IsBytes = omega arith

ecb_round_trip_example :
    (do
      key ← init key_bytes t_128
      sent ← ecb_encryption key (λ i. 9) iso10126 (start no_members) two_pieces
      got ← ecb_decryption key (λ n. []) iso10126 (start no_members) (bytewise sent.1)
      some got.1)
    ≡ some (flatten two_pieces)
ecb_round_trip_example =
    ecb_round_trip key_bytes t_128 (unfold key_words in omega arith) (λ i. 9) (λ i. omega arith)
      (λ n. []) iso10126 tt two_pieces bytewise flatten-bytewise
      (bytewise-AllShort (2 ^ 32) (omega arith)) (omega arith) two_pieces-IsBytes

iv-IsBlock : IsBlock iv_bytes
iv-IsBlock = record { size = refl; are_bytes = omega arith }

cbc_round_trip_example :
    (do
      key ← init key_bytes t_128
      sent ← cbc_encryption key (λ i. 9) pkcs7 (start (of_iv iv_bytes)) two_pieces
      got ← cbc_decryption key (λ n. []) pkcs7 (start (of_iv iv_bytes)) (sent.1 ∷ [])
      some got.1)
    ≡ some (flatten two_pieces)
cbc_round_trip_example =
    cbc_round_trip key_bytes t_128 (unfold key_words in omega arith) (λ i. 9) (λ i. omega arith)
      (λ n. []) pkcs7 tt iv_bytes two_pieces iv-IsBlock (omega arith) two_pieces-IsBytes

ctr_lem_example :
    Streamed zero_key counter_bytes
      (flatten two_pieces)
      (ctr_encryption zero_key (start (of_iv counter_bytes)) two_pieces)
ctr_lem_example = ctr_lem zero_key counter_bytes (omega arith) two_pieces (omega arith)

ctr_round_trip_example :
    (do
      sent ← ctr_encryption zero_key (start (of_iv counter_bytes)) two_pieces
      got ← ctr_encryption zero_key (start (of_iv counter_bytes)) (bytewise sent.1)
      some got.1)
    ≡ some (flatten two_pieces)
ctr_round_trip_example =
    ctr_round_trip zero_key counter_bytes (omega arith) two_pieces bytewise flatten-bytewise
      (bytewise-AllShort (2 ^ 32) (omega arith)) (omega arith)

cbc_split_lem_example :
    let handle = handle_blocks always_ready (cbc_decrypt zero_key) in
    let plain = xor_bytes (decrypt_bytes zero_key (front_bytes ++ rest_bytes)) iv_bytes in
    Taken
      (front_bytes ++ rest_bytes)
      plain
      (add_pieces handle (start (of_iv iv_bytes)) ((front_bytes ++ rest_bytes) ∷ []))
    × Taken plain plain (add_pieces handle (start (of_iv iv_bytes)) (front_bytes ∷ rest_bytes ∷ []))
cbc_split_lem_example =
    cbc_split_lem zero_key iv_bytes front_bytes rest_bytes refl (omega arith) (omega arith)
