-- ===== src/Base64/Decode.antt =====
-- src/trans.cpp, the definition of Base64 decoding, and one block of `Base64::decode`.
pub mod Blocks
pub mod Whole
pub mod RoundTrip
use libnap.Base.{
  ℕ, zero, suc, ◌+◌, ◌-◌, ◌*◌, ◌/◌, ◌%◌, ◌≤◌, ◌<◌, ◌^◌, List, [], ◌∷◌, ◌++◌, Option, some,
}
use libnap.Base.{Bool, true, false, ◌≡◌, refl, ap, sym, ◌∙◌, arith, length, take, drop, get_or}
use libnap.Base.{append_assoc, length-append, load, store, load_behind, store_behind}
use libnap.Base.{bit_and, bit_or, bit_or-add, u8, u64, if◌then◌else◌, ◌==◌, ltb, ◌>>=◌, ◌&&◌}
use libnap.Base.{each_below, each_below_lem, ltb→lt, ==_iff}
use libnap.Base64.{detable, deblock, last_one, last_two}
use libnap.Base64.Encode.{load-get_or}

-- The six bits of a character.
abbrev pub value : Bool → ℕ → ℕ
value safe c = get_or (detable safe) c 0

abbrev pub three : Bool → ℕ → ℕ → ℕ → ℕ → List ℕ
three safe w x y z =
    (value safe w * 4 + value safe x / 16) % 256
    ∷ (value safe x * 16 + value safe y / 4) % 256
    ∷ (value safe y * 64 + value safe z) % 256
    ∷ []

-- The last group may be padded.
abbrev pub last_group : Bool → ℕ → ℕ → ℕ → ℕ → List ℕ
last_group safe w x y z =
    if z == b'='
    then (if y == b'=' then take 1 (three safe w x y z) else take 2 (three safe w x y z))
    else three safe w x y z

abbrev pub unbase64 : Bool → List ℕ → List ℕ
unbase64 safe (w ∷ x ∷ y ∷ z ∷ []) = last_group safe w x y z
unbase64 safe (w ∷ x ∷ y ∷ z ∷ c ∷ t) = three safe w x y z ++ unbase64 safe (c ∷ t)
unbase64 safe t = []

abbrev pub IsAscii : List ℕ → Type 0
IsAscii [] = Unit
IsAscii (c ∷ t) = (c < 128) × IsAscii t

length-detable : (safe : Bool) → length (detable safe) ≡ 128
length-detable true = refl
length-detable false = refl

load-value : (safe : Bool) (c : ℕ) → c < 128 → load (detable safe) c ≡ some (value safe c)
load-value safe c h = load-get_or (detable safe) c (omega (arith, length-detable safe))

value_table :
    (each_below 128 (λ c. ltb (value true c) 64) ≡ true)
    × (each_below 128 (λ c. ltb (value false c) 64) ≡ true)
unfolding each_below
value_table = (refl, refl)

value-lt : (safe : Bool) (c : ℕ) → c < 128 → value safe c < 64
value-lt true c h = ltb→lt _ _ (each_below_lem 128 (λ c. ltb (value true c) 64) c value_table.0 h)
value-lt false c h = ltb→lt _ _ (each_below_lem 128 (λ c. ltb (value false c) 64) c value_table.1 h)

high_table : each_below 64 (λ d. bit_and d 0x30 / 16 == d / 16) ≡ true
unfolding each_below
high_table = refl

high_bits : (d : ℕ) → d < 64 → bit_and d 0x30 / 16 ≡ d / 16
high_bits d h =
    (==_iff _ _).0 (each_below_lem 64 (λ d. bit_and d 0x30 / 16 == d / 16) d high_table h)

-- The three bytes that four values are joined to.
module _ (d0 d1 d2 d3 : ℕ) (h1 : d1 < 64) (h2 : d2 < 64) (h3 : d3 < 64) where
  join_first : u8 (bit_or (d0 * 4) (bit_and d1 0x30 / 16)) ≡ (d0 * 4 + d1 / 16) % 256
  join_first = omega (arith, high_bits d1 h1, bit_or-add 2 d0 (bit_and d1 0x30 / 16))

  join_first' : u8 (bit_or (d0 * 4) (d1 / 16)) ≡ (d0 * 4 + d1 / 16) % 256
  join_first' = omega (arith, bit_or-add 2 d0 (d1 / 16))

  join_second : u8 (bit_or (d1 * 16) (d2 / 4)) ≡ (d1 * 16 + d2 / 4) % 256
  join_second = omega (arith, bit_or-add 4 d1 (d2 / 4))

  join_third : u8 (bit_or (d2 * 64) d3) ≡ (d2 * 64 + d3) % 256
  join_third = omega (arith, bit_or-add 6 d2 d3)

module _ (safe : Bool) (pre : List ℕ) (w x y z : ℕ) (t : List ℕ) (j : ℕ) (at_base : j ≡ length pre)
    (hw : w < 128) (hx : x < 128) (hy : y < 128) (hz : z < 128) where
  abbrev group : List ℕ
  group = w ∷ x ∷ y ∷ z ∷ t

  pub deblock_lem :
      (p : List ℕ) (o1 o2 o3 : ℕ) (out : List ℕ) (i : ℕ)
      → i ≡ length p
      → deblock (detable safe) (p ++ o1 ∷ o2 ∷ o3 ∷ out) i (pre ++ group) j
        ≡ some (p ++ (three safe w x y z ++ out))
  unfolding deblock
  deblock_lem p o1 o2 o3 out i at_out =
      let vx = value-lt safe x hx in
      let vy = value-lt safe y hy in
      let vz = value-lt safe z hz in
      rw
        (
          load_behind pre group j 0 (omega arith),
          load-value safe w hw,
          load_behind pre group (j + 1) 1 (omega arith),
          load-value safe x hx,
          join_first (value safe w) (value safe x) (value safe y) (value safe z) vx vy vz,
          store_behind p (o1 ∷ o2 ∷ o3 ∷ out) i 0 _ _ (omega arith) refl,
          load_behind pre group (j + 2) 2 (omega arith),
          load-value safe y hy,
          join_second (value safe w) (value safe x) (value safe y) (value safe z) vx vy vz,
          store_behind p _ (i + 1) 1 _ _ (omega arith) refl,
          load_behind pre group (j + 3) 3 (omega arith),
          load-value safe z hz,
          join_third (value safe w) (value safe x) (value safe y) (value safe z) vx vy vz,
        )
        (store_behind p _ (i + 2) 2 _ _ (omega arith) refl)

  pub last_one_lem :
      (p : List ℕ) (o1 : ℕ) (out : List ℕ) (size len : ℕ)
      → size ≡ j + 4
      → len ≡ length p + 1
      → last_one (detable safe) (pre ++ group) size len (p ++ o1 ∷ out)
        ≡ some (p ++ (take 1 (three safe w x y z) ++ out))
  unfolding last_one
  last_one_lem p o1 out size len total result =
      rw
        (
          load_behind pre group (size - 4) 0 (omega arith),
          load-value safe w hw,
          load_behind pre group (size - 3) 1 (omega arith),
          load-value safe x hx,
          join_first' (value safe w) (value safe x) 0 0 (value-lt safe x hx) (omega arith)
              (omega arith),
        )
        (store_behind p (o1 ∷ out) (len - 1) 0 _ _ (omega arith) refl)

  pub last_two_lem :
      (p : List ℕ) (o1 o2 : ℕ) (out : List ℕ) (size len : ℕ)
      → size ≡ j + 4
      → len ≡ length p + 2
      → last_two (detable safe) (pre ++ group) size len (p ++ o1 ∷ o2 ∷ out)
        ≡ some (p ++ (take 2 (three safe w x y z) ++ out))
  unfolding last_two
  last_two_lem p o1 o2 out size len total result =
      let vx = value-lt safe x hx in
      let vy = value-lt safe y hy in
      rw
        (
          load_behind pre group (size - 4) 0 (omega arith),
          load-value safe w hw,
          load_behind pre group (size - 3) 1 (omega arith),
          load-value safe x hx,
          join_first' (value safe w) (value safe x) (value safe y) 0 vx vy (omega arith),
          store_behind p (o1 ∷ o2 ∷ out) (len - 2) 0 _ _ (omega arith) refl,
          load_behind pre group (size - 2) 2 (omega arith),
          load-value safe y hy,
          join_second (value safe w) (value safe x) (value safe y) 0 vx vy (omega arith),
        )
        (store_behind p _ (len - 1) 1 _ _ (omega arith) refl)
