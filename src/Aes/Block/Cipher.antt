-- ===== src/Aes/Block/Cipher.antt =====
-- src/aes.h, `encrypt_block` and `decrypt_block`.
use libnap.Base.{ℕ, zero, suc, ◌+◌, ◌-◌, ◌*◌, ◌<◌, List, ◌≡◌, refl, ap, ◌∙◌, arith, get_or}
use libnap.Base.{
  each_below, each_below_lem, ltb, ltb→lt, true, bit_and, bit_xor_bound, byte_field, bit_and-mod,
  ◌>>>◌,
}
use libnap.Aes.Key.{AesKey, KeyType, round, t_128, t_192, t_256}
use libnap.Aes.Key.Reverse.{SameWords}
use libnap.Aes.Block.{
  Row, Matrix, map_row, map_bytes, s_box, subbytes, invsubbytes, leftshift_1, leftshift_2,
  rightshift_1, shiftrows, invshiftrows, map_columns, mixcolumns, invmixcolumns, xor_row,
  addroundkey, encrypt_rounds, encrypt_block, decrypt_rounds, decrypt_block,
}
use libnap.Aes.Block.Mix.{mix_column_bound}
use libnap.Aes.Block.Inverse.{
  AreBytes, IsState, invsubbytes-subbytes, invmixcolumns-mixcolumns, addroundkey_twice,
}

addroundkey_same :
    (ke kd : List ℕ) (re rd : ℕ) (m : Matrix)
    → SameWords ke re kd rd
    → addroundkey kd rd m ≡ addroundkey ke re m
unfolding addroundkey xor_row
addroundkey_same ke kd re rd m h = rw (h.w0, h.w1, h.w2, h.w3) refl

same_key_undone :
    (ke kd : List ℕ) (re rd : ℕ) (m : Matrix)
    → SameWords ke re kd rd
    → addroundkey kd rd (addroundkey ke re m) ≡ m
same_key_undone ke kd re rd m h =
    addroundkey_same ke kd re rd (addroundkey ke re m) h ∙ addroundkey_twice ke re m

-- The round keys of `kd` are those of `ke` in the reverse order.
abbrev pub Reversed : ℕ → List ℕ → List ℕ → Type 0
Reversed nr ke kd = (e d re rd : ℕ) → e + d ≡ nr → re ≡ 4 * e → rd ≡ 4 * d → SameWords ke re kd rd

shift_undone : (m : Matrix) → IsState m → invsubbytes (invshiftrows (shiftrows (subbytes m))) ≡ m
unfolding invshiftrows shiftrows leftshift_1 leftshift_2 rightshift_1
shift_undone m h = invsubbytes-subbytes m h

last_undone : (m : Matrix) → IsState m → invshiftrows (invsubbytes (shiftrows (subbytes m))) ≡ m
unfolding invshiftrows shiftrows leftshift_1 leftshift_2 rightshift_1 invsubbytes map_bytes map_row
last_undone m h = unfold invsubbytes map_bytes map_row in invsubbytes-subbytes m h

box_bounds : each_below 256 (λ b. ltb (s_box b) 256) ≡ true
unfolding each_below s_box
box_bounds = refl

s_box_bound : (b : ℕ) → b < 256 → s_box b < 256
s_box_bound b h = ltb→lt _ _ (each_below_lem 256 _ b box_bounds h)

row_boxed : (r : Row) → AreBytes r → AreBytes (map_row s_box r)
unfolding map_row
row_boxed r h = record {
  b0 = s_box_bound r.x0 h.b0;
  b1 = s_box_bound r.x1 h.b1;
  b2 = s_box_bound r.x2 h.b2;
  b3 = s_box_bound r.x3 h.b3;
}

shifted : (m : Matrix) → IsState m → IsState (shiftrows (subbytes m))
unfolding subbytes map_bytes shiftrows leftshift_1 leftshift_2 rightshift_1
shifted m h =
    let b = row_boxed m.r1 h.row1 in
    let c = row_boxed m.r2 h.row2 in
    let d = row_boxed m.r3 h.row3 in
    record {
      row0 = row_boxed m.r0 h.row0;
      row1 = record { b0 = b.b1; b1 = b.b2; b2 = b.b3; b3 = b.b0 };
      row2 = record { b0 = c.b2; b1 = c.b3; b2 = c.b0; b3 = c.b1 };
      row3 = record { b0 = d.b3; b1 = d.b0; b2 = d.b1; b3 = d.b2 };
    }

mixcolumns-IsState : (m : Matrix) → IsState m → IsState (mixcolumns m)
unfolding mixcolumns map_columns
mixcolumns-IsState m h =
    let a =
      mix_column_bound m.r0.x0 m.r1.x0 m.r2.x0 m.r3.x0 h.row0.b0 h.row1.b0 h.row2.b0 h.row3.b0 in
    let b =
      mix_column_bound m.r0.x1 m.r1.x1 m.r2.x1 m.r3.x1 h.row0.b1 h.row1.b1 h.row2.b1 h.row3.b1 in
    let c =
      mix_column_bound m.r0.x2 m.r1.x2 m.r2.x2 m.r3.x2 h.row0.b2 h.row1.b2 h.row2.b2 h.row3.b2 in
    let d =
      mix_column_bound m.r0.x3 m.r1.x3 m.r2.x3 m.r3.x3 h.row0.b3 h.row1.b3 h.row2.b3 h.row3.b3 in
    record {
      row0 = record { b0 = a.0; b1 = b.0; b2 = c.0; b3 = d.0 };
      row1 = record { b0 = a.1; b1 = b.1; b2 = c.1; b3 = d.1 };
      row2 = record { b0 = a.2; b1 = b.2; b2 = c.2; b3 = d.2 };
      row3 = record { b0 = a.3; b1 = b.3; b2 = c.3; b3 = d.3 };
    }

xor_row-AreBytes :
    (mask shift : ℕ) (keys : List ℕ) (rk : ℕ) (r : Row)
    → ((w : ℕ) → bit_and w mask >>> shift < 256)
    → AreBytes r
    → AreBytes (xor_row mask shift keys rk r)
unfolding xor_row
xor_row-AreBytes mask shift keys rk r field h = record {
  b0 = bit_xor_bound 8 r.x0 _ h.b0 (field (get_or keys rk 0));
  b1 = bit_xor_bound 8 r.x1 _ h.b1 (field (get_or keys (rk + 1) 0));
  b2 = bit_xor_bound 8 r.x2 _ h.b2 (field (get_or keys (rk + 2) 0));
  b3 = bit_xor_bound 8 r.x3 _ h.b3 (field (get_or keys (rk + 3) 0));
}

addroundkey-IsState :
    (keys : List ℕ) (rk : ℕ) (m : Matrix) → IsState m → IsState (addroundkey keys rk m)
unfolding addroundkey
addroundkey-IsState keys rk m h = record {
  row0 = xor_row-AreBytes _ _ keys rk m.r0 (λ w. omega (arith, byte_field 24 w)) h.row0;
  row1 = xor_row-AreBytes _ _ keys rk m.r1 (λ w. omega (arith, byte_field 16 w)) h.row1;
  row2 = xor_row-AreBytes _ _ keys rk m.r2 (λ w. omega (arith, byte_field 8 w)) h.row2;
  row3 = xor_row-AreBytes _ _ keys rk m.r3 (λ w. omega (arith, bit_and-mod 8 w)) h.row3;
}

module _ (nr : ℕ) (ke kd : List ℕ) (reversed : Reversed nr ke kd) where
  rounds_undone :
      (n p rk rd : ℕ) (m : Matrix)
      → n + p + 1 ≡ nr
      → rk ≡ 4 * p
      → rd ≡ 4 * n
      → IsState m
      → decrypt_rounds (n + p) kd 0 (addroundkey kd 0 (encrypt_rounds n ke rk m))
        ≡ decrypt_rounds p kd rd (shiftrows (subbytes m))
  unfolding encrypt_rounds decrypt_rounds
  rounds_undone zero p rk rd m total at_e at_d h =
      let start : rd ≡ 0 = omega (arith, at_d) in
      let rounds : 0 + p ≡ p = omega arith in
      rw (start, rounds)
        (ap (decrypt_rounds p kd 0) (
          same_key_undone ke kd (rk + 4) 0 (shiftrows (subbytes m))
            (reversed (p + 1) 0 (rk + 4) 0 (omega (arith, total)) (omega (arith, at_e)) refl)))
  rounds_undone (suc n) p rk rd m total at_e at_d h =
      let rounds : suc n + p ≡ n + suc p = omega arith in
      let below : rd ≡ 4 * n + 4 = omega (arith, at_d) in
      let m' = addroundkey ke (rk + 4) (mixcolumns (shiftrows (subbytes m))) in
      let ok = addroundkey-IsState ke (rk + 4) _ (mixcolumns-IsState _ (shifted m h)) in
      rw (rounds, below)
        (rounds_undone n (suc p) (rk + 4) (4 * n) m' (omega (arith, total)) (omega (arith, at_e))
            refl ok
          ∙ ap (λ x. decrypt_rounds p kd (4 * n + 4) (invmixcolumns (addroundkey kd (4 * n + 4) x)))
              (shift_undone m' ok)
          ∙ ap (λ x. decrypt_rounds p kd (4 * n + 4) (invmixcolumns x))
              (same_key_undone ke kd (rk + 4) (4 * n + 4) (mixcolumns (shiftrows (subbytes m))) (
                reversed (p + 1) (n + 1) (rk + 4) (4 * n + 4) (omega (arith, total))
                  (omega (arith, at_e)) (omega arith)))
          ∙ ap (decrypt_rounds p kd (4 * n + 4))
              (invmixcolumns-mixcolumns (shiftrows (subbytes m)) (shifted m h)))

encrypt_rounds-IsState :
    (n : ℕ) (keys : List ℕ) (rk : ℕ) (m : Matrix) → IsState m → IsState (encrypt_rounds n keys rk m)
unfolding encrypt_rounds
encrypt_rounds-IsState zero keys rk m h = addroundkey-IsState keys (rk + 4) _ (shifted m h)
encrypt_rounds-IsState (suc n) keys rk m h =
    encrypt_rounds-IsState n keys (rk + 4) _
      (addroundkey-IsState keys (rk + 4) _ (mixcolumns-IsState _ (shifted m h)))

pub encrypt_block-IsState : (key : AesKey) (m : Matrix) → IsState m → IsState (encrypt_block key m)
unfolding encrypt_block
encrypt_block-IsState key m h =
    encrypt_rounds-IsState (round key.type - 1) key.keys_e 0 _
      (addroundkey-IsState key.keys_e 0 m h)

rounds_positive : (t : KeyType) → (n : ℕ) × (round t ≡ suc n)
unfolding round
rounds_positive t_128 = (9, refl)
rounds_positive t_192 = (11, refl)
rounds_positive t_256 = (13, refl)

pub decrypt-encrypt :
    (key : AesKey) (m : Matrix)
    → Reversed (round key.type) key.keys_e key.keys_d
    → IsState m
    → decrypt_block key (encrypt_block key m) ≡ m
unfolding encrypt_block decrypt_block decrypt_rounds
decrypt-encrypt key m reversed h =
    let (n, some_rounds) = rounds_positive key.type in
    let ke = key.keys_e in
    let kd = key.keys_d in
    let m' = addroundkey ke 0 m in
    let ok = addroundkey-IsState ke 0 m h in
    let count : round key.type - 1 ≡ n + 0 = omega (arith, some_rounds) in
    let count' : round key.type - 1 ≡ n = omega (arith, some_rounds) in
    ap (λ k. decrypt_rounds k kd 0 (addroundkey kd 0 (encrypt_rounds (round key.type - 1) ke 0 m')))
      count
    ∙ ap (λ k. decrypt_rounds (n + 0) kd 0 (addroundkey kd 0 (encrypt_rounds k ke 0 m'))) count'
    ∙ rounds_undone (round key.type) ke kd reversed n 0 0 (4 * n) m' (omega (arith, some_rounds))
        refl refl ok
    ∙ ap (addroundkey kd (4 * n + 4)) (last_undone m' ok)
    ∙ same_key_undone ke kd 0 (4 * n + 4) m
        (reversed 0 (n + 1) 0 (4 * n + 4) (omega (arith, some_rounds)) refl (omega arith))
