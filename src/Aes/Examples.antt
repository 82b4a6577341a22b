-- ===== src/Aes/Examples.antt =====
-- The example of FIPS 197 for src/aes.cpp: a block, the key 00 01 .. 0f, and the block encrypted.
use libnap.Base.{ℕ, List, [], ◌∷◌, some, ◌≡◌, refl, ◌>>=◌}
use libnap.Aes.Key.{
  init, key_words, round, int32, load_words, subword, mix, next_word, expand, reverse_keys,
  padded_key, of_length,
}
use libnap.Aes.Block.{
  Row, Matrix, map_row, map_bytes, s_box, inv_s_box, subbytes, invsubbytes, leftshift_1,
  leftshift_2, rightshift_1, shiftrows, invshiftrows, mix_column, inv_mix_column, map_columns,
  mixcolumns, invmixcolumns, xor_row, addroundkey, encrypt_rounds, encrypt_block, decrypt_rounds,
  decrypt_block,
}
use libnap.Aes.RoundTrip.{block_round_trip}
use libnap.Aes.Key.{t_128}
use libnap.Aes.Block.Inverse.{IsState, layers_undone}
use libnap.Base.{arith}
use libnap.Aes.Padding.{
  pkcs7, iso10126, add_padding, remove_padding, fill_random, char_value, minus,
}

abbrev key : List ℕ
key = 0 ∷ 1 ∷ 2 ∷ 3 ∷ 4 ∷ 5 ∷ 6 ∷ 7 ∷ 8 ∷ 9 ∷ 10 ∷ 11 ∷ 12 ∷ 13 ∷ 14 ∷ 15 ∷ []

abbrev row : ℕ → ℕ → ℕ → ℕ → Row
row a b c d = record { x0 = a; x1 = b; x2 = c; x3 = d }

abbrev plain : Matrix
plain = record {
  r0 = row 0x00 0x44 0x88 0xcc;
  r1 = row 0x11 0x55 0x99 0xdd;
  r2 = row 0x22 0x66 0xaa 0xee;
  r3 = row 0x33 0x77 0xbb 0xff;
}

abbrev cipher : Matrix
cipher = record {
  r0 = row 0x69 0x6a 0xd8 0x70;
  r1 = row 0xc4 0x7b 0xcd 0xb4;
  r2 = row 0xe0 0x04 0xb7 0xc5;
  r3 = row 0xd8 0x30 0x80 0x5a;
}

encrypts : (do k ← of_length key 16; some (encrypt_block k plain)) ≡ some cipher
unfolding init key_words round int32 load_words subword mix next_word expand reverse_keys padded_key
    of_length map_row map_bytes s_box subbytes leftshift_1 leftshift_2 rightshift_1 shiftrows
    mix_column map_columns mixcolumns xor_row addroundkey encrypt_rounds encrypt_block
encrypts = refl

decrypts : (do k ← of_length key 16; some (decrypt_block k cipher)) ≡ some plain
unfolding init key_words round int32 load_words subword mix next_word expand reverse_keys padded_key
    of_length map_row map_bytes inv_s_box invsubbytes leftshift_1 leftshift_2 rightshift_1
    invshiftrows inv_mix_column map_columns invmixcolumns xor_row addroundkey decrypt_rounds
    decrypt_block
decrypts = refl

pads :
    add_padding (λ i. i) iso10126 key 14
    ≡ some (0 ∷ 1 ∷ 2 ∷ 3 ∷ 4 ∷ 5 ∷ 6 ∷ 7 ∷ 8 ∷ 9 ∷ 10 ∷ 11 ∷ 12 ∷ 13 ∷ 14 ∷ 2 ∷ [], 2)
unfolding add_padding fill_random
pads = refl

-- A last byte that is a negative `char` gives a negative length.
negative : remove_padding pkcs7 (200 ∷ []) 1 ≡ some (minus 56)
unfolding remove_padding char_value
negative = refl

plain-IsState : IsState plain
plain-IsState = omega arith

layers_undone_example :
    (invsubbytes (subbytes plain) ≡ plain)
    × (invshiftrows (shiftrows plain) ≡ plain)
    × (invmixcolumns (mixcolumns plain) ≡ plain)
    × (addroundkey key 4 (addroundkey key 4 plain) ≡ plain)
layers_undone_example = layers_undone key 4 plain plain-IsState

block_round_trip_example :
    (do k ← init key t_128; some (decrypt_block k (encrypt_block k plain))) ≡ some plain
block_round_trip_example =
    block_round_trip key t_128 plain (unfold key_words in omega arith) plain-IsState
