-- ===== src/Aes/Galois.antt =====
-- src/aes.cpp: `g_num128` and `shift_right_block` of AesFun, on blocks of sixteen bytes.
use libnap.Base.{ℕ, zero, suc, ◌+◌, List, [], ◌∷◌, ◌++◌, if◌then◌else◌, ◌==◌}
use libnap.Base.{bit_and, bit_or, bit_xor, ◌<<<◌, ◌>>>◌, replicate, get_or, set}
use libnap.Aes.Key.{int32}
use libnap.Aes.Bytes.{xor_bytes}

-- `INT32TOCHAR`
unfoldable pub int32_to_char : ℕ → List ℕ
int32_to_char n =
    bit_and (n >>> 24) 0xff ∷ bit_and (n >>> 16) 0xff ∷ bit_and (n >>> 8) 0xff ∷ bit_and n 0xff ∷ []

-- Four of the bytes, from `i` on, with the byte before them.
unfoldable pub shift_word : ℕ → List ℕ → ℕ → List ℕ
shift_word before v i =
    let val =
      int32 (get_or v i 0) (get_or v (i + 1) 0) (get_or v (i + 2) 0) (get_or v (i + 3) 0) >>> 1 in
    int32_to_char (if bit_and before 1 == 0 then val else bit_or val 0x80000000)

unfoldable pub shift_right_block : List ℕ → List ℕ
shift_right_block v =
    shift_word 0 v 0
    ++ shift_word (get_or v 3 0) v 4
    ++ shift_word (get_or v 7 0) v 8
    ++ shift_word (get_or v 11 0) v 12

-- What `v` becomes in a round.
unfoldable pub next_v : List ℕ → List ℕ
next_v v =
    let shifted = shift_right_block v in
    if bit_and (get_or v 15 0) 1 == 0
    then shifted
    else set shifted 0 (bit_xor (get_or shifted 0 0) 0xe1)

-- The loop over the bits of a byte `x`, with the rounds left, and `z` and `v`.
unfoldable pub bit_rounds : ℕ → ℕ → List ℕ → List ℕ → List ℕ × List ℕ
bit_rounds zero x z v = (z, v)
bit_rounds (suc n) x z v =
    bit_rounds n x (if bit_and x (1 <<< n) == 0 then z else xor_bytes z v) (next_v v)

unfoldable pub byte_rounds : List ℕ → List ℕ → List ℕ → List ℕ
byte_rounds [] z v = z
byte_rounds (x ∷ xs) z v = let r = bit_rounds 8 x z v in byte_rounds xs r.0 r.1

unfoldable pub g_num128 : List ℕ → List ℕ → List ℕ
g_num128 x y = byte_rounds x (replicate 16 0) y
