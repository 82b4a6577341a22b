-- ===== src/Aes/Block.antt =====
-- src/aes.h, class AesFun: the transformations of a block. The array `matrix4x4` is four rows of
-- four bytes, which is how the code indexes it, and a row is a `matrix1x4`.
pub mod Mix
pub mod Inverse
pub mod Cipher
use libnap.Base.{ℕ, zero, suc, ◌+◌, ◌-◌, ◌*◌, bit_and, bit_xor, List, ◌>>>◌, get_or}
use libnap.Aes.Tables.{gm_2, gm_3, gm_9, gm_b, gm_d, gm_e, aes_s_box, aes_inv_s_box}
use libnap.Aes.Key.{AesKey, round}

pub record Row : Type 0 where
  pub x0 : ℕ
  pub x1 : ℕ
  pub x2 : ℕ
  pub x3 : ℕ

pub record Matrix : Type 0 where
  pub r0 : Row
  pub r1 : Row
  pub r2 : Row
  pub r3 : Row

-- A loop over the sixteen bytes.
unfoldable pub map_row : (ℕ → ℕ) → Row → Row
map_row f r = record { x0 = f r.x0; x1 = f r.x1; x2 = f r.x2; x3 = f r.x3 }

unfoldable pub map_bytes : (ℕ → ℕ) → Matrix → Matrix
map_bytes f m = record {
  r0 = map_row f m.r0;
  r1 = map_row f m.r1;
  r2 = map_row f m.r2;
  r3 = map_row f m.r3;
}

unfoldable pub s_box : ℕ → ℕ
s_box b = get_or aes_s_box b 0

unfoldable pub inv_s_box : ℕ → ℕ
inv_s_box b = get_or aes_inv_s_box b 0

unfoldable pub subbytes : Matrix → Matrix
subbytes m = map_bytes s_box m

unfoldable pub invsubbytes : Matrix → Matrix
invsubbytes m = map_bytes inv_s_box m

unfoldable pub leftshift_1 : Row → Row
leftshift_1 r = record { x0 = r.x1; x1 = r.x2; x2 = r.x3; x3 = r.x0 }

unfoldable pub leftshift_2 : Row → Row
leftshift_2 r = record { x0 = r.x2; x1 = r.x3; x2 = r.x0; x3 = r.x1 }

unfoldable pub rightshift_1 : Row → Row
rightshift_1 r = record { x0 = r.x3; x1 = r.x0; x2 = r.x1; x3 = r.x2 }

unfoldable pub shiftrows : Matrix → Matrix
shiftrows m = record m { r1 = leftshift_1 m.r1; r2 = leftshift_2 m.r2; r3 = rightshift_1 m.r3 }

unfoldable pub invshiftrows : Matrix → Matrix
invshiftrows m = record m { r1 = rightshift_1 m.r1; r2 = leftshift_2 m.r2; r3 = leftshift_1 m.r3 }

-- `arr`, a column, and the lookups.
pub record Column : Type 0 where
  pub c0 : ℕ
  pub c1 : ℕ
  pub c2 : ℕ
  pub c3 : ℕ

abbrev pub at : List ℕ → ℕ → ℕ
at table b = get_or table b 0

abbrev pub xor4 : ℕ → ℕ → ℕ → ℕ → ℕ
xor4 a b c d = bit_xor (bit_xor (bit_xor a b) c) d

unfoldable pub mix_column : Column → Column
mix_column a = record {
  c0 = xor4 (at gm_2 a.c0) (at gm_3 a.c1) a.c2 a.c3;
  c1 = xor4 a.c0 (at gm_2 a.c1) (at gm_3 a.c2) a.c3;
  c2 = xor4 a.c0 a.c1 (at gm_2 a.c2) (at gm_3 a.c3);
  c3 = xor4 (at gm_3 a.c0) a.c1 a.c2 (at gm_2 a.c3);
}

unfoldable pub inv_mix_column : Column → Column
inv_mix_column a = record {
  c0 = xor4 (at gm_e a.c0) (at gm_b a.c1) (at gm_d a.c2) (at gm_9 a.c3);
  c1 = xor4 (at gm_9 a.c0) (at gm_e a.c1) (at gm_b a.c2) (at gm_d a.c3);
  c2 = xor4 (at gm_d a.c0) (at gm_9 a.c1) (at gm_e a.c2) (at gm_b a.c3);
  c3 = xor4 (at gm_b a.c0) (at gm_d a.c1) (at gm_9 a.c2) (at gm_e a.c3);
}

-- The loop over the columns of a matrix.
unfoldable pub map_columns : (Column → Column) → Matrix → Matrix
map_columns f m =
    let a = f (record { c0 = m.r0.x0; c1 = m.r1.x0; c2 = m.r2.x0; c3 = m.r3.x0 }) in
    let b = f (record { c0 = m.r0.x1; c1 = m.r1.x1; c2 = m.r2.x1; c3 = m.r3.x1 }) in
    let c = f (record { c0 = m.r0.x2; c1 = m.r1.x2; c2 = m.r2.x2; c3 = m.r3.x2 }) in
    let d = f (record { c0 = m.r0.x3; c1 = m.r1.x3; c2 = m.r2.x3; c3 = m.r3.x3 }) in
    record {
      r0 = record { x0 = a.c0; x1 = b.c0; x2 = c.c0; x3 = d.c0 };
      r1 = record { x0 = a.c1; x1 = b.c1; x2 = c.c1; x3 = d.c1 };
      r2 = record { x0 = a.c2; x1 = b.c2; x2 = c.c2; x3 = d.c2 };
      r3 = record { x0 = a.c3; x1 = b.c3; x2 = c.c3; x3 = d.c3 };
    }

unfoldable pub mixcolumns : Matrix → Matrix
mixcolumns m = map_columns mix_column m

unfoldable pub invmixcolumns : Matrix → Matrix
invmixcolumns m = map_columns inv_mix_column m

-- A row of `addroundkey`, with the mask and the shift of its byte in the key words.
unfoldable pub xor_row : ℕ → ℕ → List ℕ → ℕ → Row → Row
xor_row mask shift keys rk r = record {
  x0 = bit_xor r.x0 (bit_and (get_or keys rk 0) mask >>> shift);
  x1 = bit_xor r.x1 (bit_and (get_or keys (rk + 1) 0) mask >>> shift);
  x2 = bit_xor r.x2 (bit_and (get_or keys (rk + 2) 0) mask >>> shift);
  x3 = bit_xor r.x3 (bit_and (get_or keys (rk + 3) 0) mask >>> shift);
}

unfoldable pub addroundkey : List ℕ → ℕ → Matrix → Matrix
addroundkey keys rk m = record {
  r0 = xor_row 0xff000000 24 keys rk m.r0;
  r1 = xor_row 0x00ff0000 16 keys rk m.r1;
  r2 = xor_row 0x0000ff00 8 keys rk m.r2;
  r3 = xor_row 0x000000ff 0 keys rk m.r3;
}

-- The loops of the two ciphers, with the rounds left and the index of the pointer `rk`.
unfoldable pub encrypt_rounds : ℕ → List ℕ → ℕ → Matrix → Matrix
encrypt_rounds zero keys rk m = addroundkey keys (rk + 4) (shiftrows (subbytes m))
encrypt_rounds (suc n) keys rk m =
    encrypt_rounds n keys (rk + 4) (addroundkey keys (rk + 4) (mixcolumns (shiftrows (subbytes m))))

unfoldable pub encrypt_block : AesKey → Matrix → Matrix
encrypt_block key m = encrypt_rounds (round key.type - 1) key.keys_e 0 (addroundkey key.keys_e 0 m)

unfoldable pub decrypt_rounds : ℕ → List ℕ → ℕ → Matrix → Matrix
decrypt_rounds zero keys rk m = addroundkey keys (rk + 4) (invshiftrows (invsubbytes m))
decrypt_rounds (suc n) keys rk m =
    decrypt_rounds n keys (rk + 4)
      (invmixcolumns (addroundkey keys (rk + 4) (invsubbytes (invshiftrows m))))

unfoldable pub decrypt_block : AesKey → Matrix → Matrix
decrypt_block key m = decrypt_rounds (round key.type - 1) key.keys_d 0 (addroundkey key.keys_d 0 m)
