-- ===== src/Aes/Bytes.antt =====
-- src/aes.h and src/aes.cpp: a block of sixteen bytes through the ciphers, in the order that the
-- macro `char2matrix4x4` changes to rows and back, and the loop that adds sixteen bytes to others.
use libnap.Base.{ℕ, ◌+◌, List, [], ◌∷◌, get_or, bit_xor}
use libnap.Aes.Key.{AesKey}
use libnap.Aes.Block.{Row, Matrix, encrypt_block, decrypt_block}

-- `char2matrix4x4(matrix, in)`
unfoldable pub to_row : ℕ → List ℕ → Row
to_row r bytes = record {
  x0 = get_or bytes r 0;
  x1 = get_or bytes (r + 4) 0;
  x2 = get_or bytes (r + 8) 0;
  x3 = get_or bytes (r + 12) 0;
}

unfoldable pub to_matrix : List ℕ → Matrix
to_matrix bytes = record {
  r0 = to_row 0 bytes;
  r1 = to_row 1 bytes;
  r2 = to_row 2 bytes;
  r3 = to_row 3 bytes;
}

-- `char2matrix4x4(out, matrix)`: the macro is its own inverse.
unfoldable pub of_matrix : Matrix → List ℕ
of_matrix m =
    m.r0.x0 ∷ m.r1.x0 ∷ m.r2.x0 ∷ m.r3.x0 ∷ m.r0.x1 ∷ m.r1.x1 ∷ m.r2.x1 ∷ m.r3.x1 ∷ m.r0.x2
    ∷ m.r1.x2 ∷ m.r2.x2 ∷ m.r3.x2 ∷ m.r0.x3 ∷ m.r1.x3 ∷ m.r2.x3 ∷ m.r3.x3 ∷ []

unfoldable pub encrypt_bytes : AesKey → List ℕ → List ℕ
encrypt_bytes key bytes = of_matrix (encrypt_block key (to_matrix bytes))

unfoldable pub decrypt_bytes : AesKey → List ℕ → List ℕ
decrypt_bytes key bytes = of_matrix (decrypt_block key (to_matrix bytes))

-- The loops `out[n] ^= piv[n]` over a block: both are sixteen bytes.
unfoldable pub xor_bytes : List ℕ → List ℕ → List ℕ
xor_bytes [] ys = []
xor_bytes (x ∷ xs) [] = x ∷ xs
xor_bytes (x ∷ xs) (y ∷ ys) = bit_xor x y ∷ xor_bytes xs ys
