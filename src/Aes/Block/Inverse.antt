-- ===== src/Aes/Block/Inverse.antt =====
-- src/aes.h: the transformations of a block, and those that `decrypt_block` undoes them with.
use libnap.Base.{ℕ, ◌<◌, List, ◌≡◌, refl}
use libnap.Base.{each_below, each_below_lem, ◌==◌, ==_iff, bit_xor_twice, true}
use libnap.Aes.Block.{
  Row, Matrix, map_row, map_bytes, s_box, inv_s_box, subbytes, invsubbytes, leftshift_1,
  leftshift_2, rightshift_1, shiftrows, invshiftrows, map_columns, mixcolumns, invmixcolumns,
  xor_row, addroundkey,
}
use libnap.Aes.Block.Mix.{inv_mix_column-mix_column}

pub record AreBytes (r : Row) : Type 0 where
  pub b0 : r.x0 < 256
  pub b1 : r.x1 < 256
  pub b2 : r.x2 < 256
  pub b3 : r.x3 < 256

-- The numbers of a block are bytes.
pub record IsState (m : Matrix) : Type 0 where
  pub row0 : AreBytes m.r0
  pub row1 : AreBytes m.r1
  pub row2 : AreBytes m.r2
  pub row3 : AreBytes m.r3

box_table : each_below 256 (λ b. inv_s_box (s_box b) == b) ≡ true
unfolding each_below s_box inv_s_box
box_table = refl

inv_s_box-s_box : (b : ℕ) → b < 256 → inv_s_box (s_box b) ≡ b
inv_s_box-s_box b h = (==_iff _ _).0 (each_below_lem 256 _ b box_table h)

row_undone : (r : Row) → AreBytes r → map_row inv_s_box (map_row s_box r) ≡ r
unfolding map_row
row_undone r h =
    rw
      (
        inv_s_box-s_box r.x0 h.b0,
        inv_s_box-s_box r.x1 h.b1,
        inv_s_box-s_box r.x2 h.b2,
        inv_s_box-s_box r.x3 h.b3,
      )
      refl

pub invsubbytes-subbytes : (m : Matrix) → IsState m → invsubbytes (subbytes m) ≡ m
unfolding subbytes invsubbytes map_bytes
invsubbytes-subbytes m h =
    rw
      (
        row_undone m.r0 h.row0,
        row_undone m.r1 h.row1,
        row_undone m.r2 h.row2,
        row_undone m.r3 h.row3,
      )
      refl

invshiftrows-shiftrows : (m : Matrix) → invshiftrows (shiftrows m) ≡ m
unfolding invshiftrows shiftrows leftshift_1 leftshift_2 rightshift_1
invshiftrows-shiftrows m = refl

pub invmixcolumns-mixcolumns : (m : Matrix) → IsState m → invmixcolumns (mixcolumns m) ≡ m
unfolding mixcolumns invmixcolumns map_columns
invmixcolumns-mixcolumns m h =
    rw
      (
        inv_mix_column-mix_column m.r0.x0 m.r1.x0 m.r2.x0 m.r3.x0 h.row0.b0 h.row1.b0 h.row2.b0
            h.row3.b0,
        inv_mix_column-mix_column m.r0.x1 m.r1.x1 m.r2.x1 m.r3.x1 h.row0.b1 h.row1.b1 h.row2.b1
            h.row3.b1,
        inv_mix_column-mix_column m.r0.x2 m.r1.x2 m.r2.x2 m.r3.x2 h.row0.b2 h.row1.b2 h.row2.b2
            h.row3.b2,
        inv_mix_column-mix_column m.r0.x3 m.r1.x3 m.r2.x3 m.r3.x3 h.row0.b3 h.row1.b3 h.row2.b3
            h.row3.b3,
      )
      refl

key_row_twice :
    (mask shift : ℕ) (keys : List ℕ) (rk : ℕ) (r : Row)
    → xor_row mask shift keys rk (xor_row mask shift keys rk r) ≡ r
unfolding xor_row
key_row_twice mask shift keys rk r =
    rw (bit_xor_twice r.x0 _, bit_xor_twice r.x1 _, bit_xor_twice r.x2 _, bit_xor_twice r.x3 _) refl

pub addroundkey_twice :
    (keys : List ℕ) (rk : ℕ) (m : Matrix) → addroundkey keys rk (addroundkey keys rk m) ≡ m
unfolding addroundkey
addroundkey_twice keys rk m =
    rw
      (
        key_row_twice _ _ keys rk m.r0,
        key_row_twice _ _ keys rk m.r1,
        key_row_twice _ _ keys rk m.r2,
        key_row_twice _ _ keys rk m.r3,
      )
      refl

-- On a block of bytes, `invsubbytes`, `invshiftrows` and `invmixcolumns` undo `subbytes`,
-- `shiftrows` and `mixcolumns`, and `addroundkey` with the same words undoes itself.
pub layers_undone :
    (keys : List ℕ) (rk : ℕ) (m : Matrix)
    → IsState m
    → (invsubbytes (subbytes m) ≡ m)
      × (invshiftrows (shiftrows m) ≡ m)
      × (invmixcolumns (mixcolumns m) ≡ m)
      × (addroundkey keys rk (addroundkey keys rk m) ≡ m)
layers_undone keys rk m h = (
  invsubbytes-subbytes m h,
  invshiftrows-shiftrows m,
  invmixcolumns-mixcolumns m h,
  addroundkey_twice keys rk m,
)
