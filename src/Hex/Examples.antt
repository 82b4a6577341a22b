-- ===== src/Hex/Examples.antt =====
-- The theorems on src/trans.cpp, class Hex, at concrete strings.
use libnap.Base.{
  ℕ, List, [], ◌∷◌, some, true, false, replicate, length-replicate, ◌>>=◌, refl, arith,
}
use libnap.Btring.{Btring}
use libnap.Btring.View.{IsValid, Yields, view}
use libnap.Hex.{encode, decode}
use libnap.Hex.Encode.{hex_encode_lem}
use libnap.Hex.Decode.{unhex, hex_decode_lem, hex_decode-encode}

abbrev zeros : ℕ → List ℕ
zeros n = replicate n 0

-- Two bytes in an array of three, and an odd number of digits.
abbrev bytes_ab_01 : Btring
bytes_ab_01 = record { content = some (0xab ∷ 0x01 ∷ 7 ∷ []); capacity = 3; size = 2 }

bytes_ab_01-IsValid : IsValid bytes_ab_01
bytes_ab_01-IsValid = record { allocated = refl; fits = omega arith; bounded = omega arith }

abbrev odd_text : Btring
odd_text = record { content = some (97 ∷ 66 ∷ 49 ∷ []); capacity = 3; size = 3 }

odd_text-IsValid : IsValid odd_text
odd_text-IsValid = record { allocated = refl; fits = omega arith; bounded = omega arith }

hex_encode_example : Yields (encode zeros bytes_ab_01 true) (65 ∷ 66 ∷ 48 ∷ 49 ∷ [])
hex_encode_example =
    hex_encode_lem zeros (λ n. length-replicate {A = ℕ} n 0) bytes_ab_01 true bytes_ab_01-IsValid
      (omega arith) (omega arith)

hex_decode_example : Yields (decode zeros odd_text) (unhex (view odd_text))
hex_decode_example =
    hex_decode_lem zeros (λ n. length-replicate {A = ℕ} n 0) odd_text odd_text-IsValid

hex_round_trip_example : Yields (encode zeros bytes_ab_01 false >>= decode zeros) (0xab ∷ 0x01 ∷ [])
hex_round_trip_example =
    hex_decode-encode zeros (λ n. length-replicate {A = ℕ} n 0) bytes_ab_01 false
      bytes_ab_01-IsValid (omega arith) (omega arith)
