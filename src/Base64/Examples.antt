-- ===== src/Base64/Examples.antt =====
-- The theorems on src/trans.cpp, class Base64, at concrete strings.
use libnap.Base.{
  ℕ, List, [], ◌∷◌, some, true, false, replicate, length-replicate, ◌>>=◌, refl, arith,
}
use libnap.Btring.{Btring}
use libnap.Btring.View.{IsValid, Yields, view}
use libnap.Base64.{encode, decode}
use libnap.Base64.Encode.{base64, base64_encode_lem}
use libnap.Base64.Decode.{unbase64}
use libnap.Base64.Decode.Whole.{base64_decode_lem}
use libnap.Base64.Decode.RoundTrip.{base64_decode-encode}

abbrev zeros : ℕ → List ℕ
zeros n = replicate n 0

-- Four bytes in an array of five, and a text of two groups.
abbrev four_bytes : Btring
four_bytes = record { content = some (255 ∷ 239 ∷ 0 ∷ 65 ∷ 9 ∷ []); capacity = 5; size = 4 }

four_bytes-IsValid : IsValid four_bytes
four_bytes-IsValid = record { allocated = refl; fits = omega arith; bounded = omega arith }

abbrev two_groups : Btring
two_groups = record {
  content = some (65 ∷ 66 ∷ 67 ∷ 68 ∷ 65 ∷ 81 ∷ 61 ∷ 61 ∷ []);
  capacity = 8;
  size = 8;
}

two_groups-IsValid : IsValid two_groups
two_groups-IsValid = record { allocated = refl; fits = omega arith; bounded = omega arith }

base64-encode_example : Yields (encode zeros four_bytes true) (base64 true (view four_bytes))
base64-encode_example =
    base64_encode_lem zeros (λ n. length-replicate {A = ℕ} n 0) four_bytes true four_bytes-IsValid
      (omega arith) (omega arith)

base64_decode_example : Yields (decode zeros two_groups false) (unbase64 false (view two_groups))
base64_decode_example =
    base64_decode_lem zeros (λ n. length-replicate {A = ℕ} n 0) false two_groups two_groups-IsValid
      (omega arith) refl

base64_round_trip_example :
    Yields
      (encode zeros four_bytes false >>= λ text. decode zeros text false)
      (255 ∷ 239 ∷ 0 ∷ 65 ∷ [])
base64_round_trip_example =
    base64_decode-encode zeros (λ n. length-replicate {A = ℕ} n 0) four_bytes false
      four_bytes-IsValid (omega arith) (omega arith)
