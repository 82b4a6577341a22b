-- ===== src/Hash/Common.antt =====
-- What the three hash classes share: rotations, byte order, and reads of words from bytes. An
-- index that the source writes as a constant below an array's length never reaches the default.
use libnap.Base.{ℕ, ◌+◌, ◌-◌, ◌*◌, ◌/◌, ◌%◌, ◌^◌, bit_and, bit_or, List, [], ◌∷◌, get_or, u32}
use libnap.Base.{◌<<<◌, ◌>>>◌}

-- `((x) << (n)) | ((x) >> (32 - (n)))` of a `uint32_t`: `ROTATE_LEFT` and `SHA1_S`.
unfoldable pub rotate_left : ℕ → ℕ → ℕ
rotate_left x n = bit_or (u32 (x <<< n)) (x >>> (32 - n))

-- `SHA256S(bit, num)`
unfoldable pub rotate_right : ℕ → ℕ → ℕ
rotate_right bit num = bit_or (num >>> bit) (u32 (num <<< (32 - bit)))

-- `REVERSE32` and `SWAP32`
unfoldable pub reverse32 : ℕ → ℕ
reverse32 n =
    bit_or
      (bit_or (bit_or (bit_and n 0xff000000 >>> 24) (bit_and n 0x00ff0000 >>> 8))
        (u32 (bit_and n 0x0000ff00 <<< 8)))
      (u32 (bit_and n 0x000000ff <<< 24))

unfoldable pub swap32 : ℕ → ℕ
swap32 n =
    bit_or
      (bit_or (bit_or (u32 (bit_and n 0x000000FF <<< 24)) (u32 (bit_and n 0x0000FF00 <<< 8)))
        (bit_and n 0x00FF0000 >>> 8))
      (bit_and n 0xFF000000 >>> 24)

-- The bytes of a `uint32_t` in memory, on a little-endian machine, and back.
abbrev pub bytes32 : ℕ → List ℕ
bytes32 n = n % 256 ∷ n / 256 % 256 ∷ n / 65536 % 256 ∷ n / 16777216 % 256 ∷ []

abbrev pub bytes64 : ℕ → List ℕ
bytes64 n =
    n % 256
    ∷ n / 2 ^ 8 % 256
    ∷ n / 2 ^ 16 % 256
    ∷ n / 2 ^ 24 % 256
    ∷ n / 2 ^ 32 % 256
    ∷ n / 2 ^ 40 % 256
    ∷ n / 2 ^ 48 % 256
    ∷ n / 2 ^ 56 % 256
    ∷ []

-- The same eight bytes, the highest first.
abbrev pub high_first64 : ℕ → List ℕ
high_first64 n =
    n / 2 ^ 56 % 256
    ∷ n / 2 ^ 48 % 256
    ∷ n / 2 ^ 40 % 256
    ∷ n / 2 ^ 32 % 256
    ∷ n / 2 ^ 24 % 256
    ∷ n / 2 ^ 16 % 256
    ∷ n / 2 ^ 8 % 256
    ∷ n % 256
    ∷ []

-- `*((uint32_t*)(p + i))`
abbrev pub word_at : List ℕ → ℕ → ℕ
word_at p i =
    get_or p i 0
    + get_or p (i + 1) 0 * 2 ^ 8
    + get_or p (i + 2) 0 * 2 ^ 16
    + get_or p (i + 3) 0 * 2 ^ 24
