-- ===== src/Hash/Bytes.antt =====
-- src/hash.cpp: `REVERSE32` and the eight bytes of the length of MD5 and SHA1, in arithmetic.
use libnap.Base.{ℕ, ◌+◌, ◌*◌, ◌/◌, ◌%◌, ◌<◌, ◌^◌, List, [], ◌∷◌, ◌≡◌, refl, sym, ◌∙◌, arith}
use libnap.Base.{bit_and, bit_or, byte_field, bit_or-add, bit_and-mod, bit_or_comm}
use libnap.Base.{u32, ◌<<<◌, ◌>>>◌}
use libnap.Hash.Common.{reverse32, bytes32}

join : (k low high : ℕ) → low < 2 ^ k → bit_or low (high * 2 ^ k) ≡ high * 2 ^ k + low
join k low high h = bit_or_comm low (high * 2 ^ k) ∙ bit_or-add k high low h

pub reverse32_lem :
    (n : ℕ)
    → reverse32 n
      ≡ n % 256 * 2 ^ 24
        + (n / 2 ^ 8 % 256 * 2 ^ 16 + (n / 2 ^ 16 % 256 * 2 ^ 8 + n / 2 ^ 24 % 256))
unfolding reverse32
reverse32_lem n =
    let a : bit_and n 0xff000000 >>> 24 ≡ n / 2 ^ 24 % 256 = omega (arith, byte_field 24 n) in
    let b : bit_and n 0x00ff0000 >>> 8 ≡ n / 2 ^ 16 % 256 * 2 ^ 8 =
      omega (arith, byte_field 16 n) in
    let c : u32 (bit_and n 0x0000ff00 <<< 8) ≡ n / 2 ^ 8 % 256 * 2 ^ 16 =
      omega (arith, byte_field 8 n) in
    let d : u32 (bit_and n 0x000000ff <<< 24) ≡ n % 256 * 2 ^ 24 = omega (arith, bit_and-mod 8 n) in
    let ab = join 8 (n / 2 ^ 24 % 256) (n / 2 ^ 16 % 256) (omega arith) in
    let abc =
      join 16 (n / 2 ^ 16 % 256 * 2 ^ 8 + n / 2 ^ 24 % 256) (n / 2 ^ 8 % 256) (omega arith) in
    let abcd =
      join 24 (n / 2 ^ 8 % 256 * 2 ^ 16 + (n / 2 ^ 16 % 256 * 2 ^ 8 + n / 2 ^ 24 % 256)) (n % 256)
        (omega arith) in
    rw (a, b, c, d, ab, abc, abcd) refl

pub list4 :
    {a a' b b' c c' d d' : ℕ} {l l' : List ℕ}
    → a ≡ a'
    → b ≡ b'
    → c ≡ c'
    → d ≡ d'
    → l ≡ l'
    → Path (List ℕ) (a ∷ b ∷ c ∷ d ∷ l) (a' ∷ b' ∷ c' ∷ d' ∷ l')
list4 {a} {b} {c} {d} {l} ea eb ec ed el = rw (sym ea, sym eb, sym ec, sym ed, sym el) refl

pub bytes32-reverse32 :
    (n : ℕ)
    → bytes32 (reverse32 n) ≡ n / 2 ^ 24 % 256 ∷ n / 2 ^ 16 % 256 ∷ n / 2 ^ 8 % 256 ∷ n % 256 ∷ []
bytes32-reverse32 n =
    let e = reverse32_lem n in
    list4 (omega (arith, e)) (omega (arith, e)) (omega (arith, e)) (omega (arith, e)) refl
