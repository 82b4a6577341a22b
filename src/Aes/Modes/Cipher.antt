-- ===== src/Aes/Modes/Cipher.antt =====
-- src/aes.h: what the modes of AES use of the ciphers of a block, as an interface, and a key from
-- `_init` that fills it.
use libnap.Base.{ℕ, suc, ◌+◌, ◌*◌, ◌≤◌, List, ◌∷◌, some, ◌≡◌, refl, ap, ◌∙◌, arith}
use libnap.Base.{length, length-eq_zero, next_split, IsBytes, get_or-IsByte}
use libnap.Aes.Key.{AesKey, KeyType, key_words, init}
use libnap.Aes.Block.{Matrix, encrypt_block}
use libnap.Aes.Block.Inverse.{AreBytes, IsState}
use libnap.Aes.Block.Cipher.{decrypt-encrypt, encrypt_block-IsState}
use libnap.Aes.Bytes.{to_row, to_matrix, of_matrix, encrypt_bytes, decrypt_bytes}
use libnap.Aes.RoundTrip.{key_from_init}

-- Sixteen bytes.
pub record IsBlock (b : List ℕ) : Type 0 where
  pub size : length b ≡ 16
  pub are_bytes : IsBytes b

-- A key, with what the modes need of its two ciphers.
pub record HasCiphers (key : AesKey) : Type 0 where
  pub encrypts : (b : List ℕ) → IsBytes b → IsBlock (encrypt_bytes key b)
  pub undoes : (b : List ℕ) → IsBlock b → decrypt_bytes key (encrypt_bytes key b) ≡ b

row_AreBytes : (r : ℕ) (b : List ℕ) → IsBytes b → AreBytes (to_row r b)
unfolding to_row
row_AreBytes r b h = record {
  b0 = get_or-IsByte b r h;
  b1 = get_or-IsByte b (r + 4) h;
  b2 = get_or-IsByte b (r + 8) h;
  b3 = get_or-IsByte b (r + 12) h;
}

to_matrix-IsState : (b : List ℕ) → IsBytes b → IsState (to_matrix b)
unfolding to_matrix
to_matrix-IsState b h = record {
  row0 = row_AreBytes 0 b h;
  row1 = row_AreBytes 1 b h;
  row2 = row_AreBytes 2 b h;
  row3 = row_AreBytes 3 b h;
}

of_matrix-IsBlock : (m : Matrix) → IsState m → IsBlock (of_matrix m)
unfolding of_matrix
of_matrix-IsBlock m h =
    let a = h.row0 in
    let b = h.row1 in
    let c = h.row2 in
    let d = h.row3 in
    record {
      size = refl;
      are_bytes = omega (
        arith, a.b0, b.b0, c.b0, d.b0, a.b1, b.b1, c.b1, d.b1, a.b2, b.b2, c.b2, d.b2, a.b3, b.b3,
        c.b3, d.b3,
      );
    }

to_matrix-of_matrix : (m : Matrix) → to_matrix (of_matrix m) ≡ m
unfolding to_matrix of_matrix to_row
to_matrix-of_matrix m = refl

pub four_split :
    (n : ℕ) (l : List ℕ)
    → length l ≡ suc (suc (suc (suc n)))
    → (a b c d : ℕ) × (t : List ℕ) × (l ≡ a ∷ b ∷ c ∷ d ∷ t) × (length t ≡ n)
four_split n l h =
    let (a, t1, e1, h1) = next_split _ l h in
    let (b, t2, e2, h2) = next_split _ t1 h1 in
    let (c, t3, e3, h3) = next_split _ t2 h2 in
    let (d, t4, e4, h4) = next_split _ t3 h3 in (a, b, c, d, t4, rw (e1, e2, e3, e4) refl, h4)

of_matrix-to_matrix : (b : List ℕ) → length b ≡ 16 → of_matrix (to_matrix b) ≡ b
unfolding to_matrix of_matrix to_row
of_matrix-to_matrix b h =
    let (x0, x1, x2, x3, s, e, hs) = four_split 12 b h in
    let (y0, y1, y2, y3, t, f, ht) = four_split 8 s hs in
    let (z0, z1, z2, z3, u, g, hu) = four_split 4 t ht in
    let (w0, w1, w2, w3, v, k, hv) = four_split 0 u hu in
    let none_left = length-eq_zero v hv in rw (e, f, g, k, none_left) refl

-- `_init` gives such a key, from as many bytes as the kind of key has.
pub init-HasCiphers :
    (bytes : List ℕ) (type : KeyType)
    → 4 * key_words type ≤ length bytes
    → (key : AesKey) × (init bytes type ≡ some key) × HasCiphers key
init-HasCiphers bytes type enough =
    let (key, made, reversed) = key_from_init bytes type enough in
    (
      key,
      made,
      record {
        encrypts = λ b h.
            unfold encrypt_bytes in
            of_matrix-IsBlock _ (encrypt_block-IsState key _ (to_matrix-IsState b h));
        undoes = λ b h.
            unfold encrypt_bytes decrypt_bytes in
            rw (to_matrix-of_matrix (encrypt_block key (to_matrix b))) (
              ap of_matrix
                (decrypt-encrypt key (to_matrix b) reversed (to_matrix-IsState b h.are_bytes))
              ∙ of_matrix-to_matrix b h.size);
      },
    )
