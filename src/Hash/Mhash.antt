-- ===== src/Hash/Mhash.antt =====
-- src/hash.cpp: `mhash`, a 32-bit checksum.
use libnap.Base.{ℕ, zero, suc, ◌+◌, ◌-◌, ◌^◌, bit_and, bit_xor, List, [], ◌∷◌}
use libnap.Base.{Option, some, none, if◌then◌else◌, ◌==◌, u32, not32, ltb, ◌<<<◌, ◌>>>◌}

-- `(*str)` added to a `uint32_t`: a `char` above 127 is negative.
unfoldable pub char_to_u32 : ℕ → ℕ
char_to_u32 c = if ltb c 128 then c else c + 2 ^ 32 - 256

-- One round on `(hash, x)`.
unfoldable pub mhash_round : ℕ → ℕ → ℕ
mhash_round hash c =
    let h = u32 (u32 (hash <<< 4) + char_to_u32 c) in
    let x = bit_and h 0xF0000000 in
    let h' = if x == 0 then h else bit_xor h (x >>> 24) in bit_and h' (not32 x)

unfoldable pub mhash_loop : ℕ → List ℕ → ℕ → Option ℕ
mhash_loop zero str hash = some hash
mhash_loop (suc n) [] hash = none
mhash_loop (suc n) (c ∷ str) hash = mhash_loop n str (mhash_round hash c)

unfoldable pub mhash : List ℕ → ℕ → Option ℕ
mhash str len = mhash_loop len str 0
