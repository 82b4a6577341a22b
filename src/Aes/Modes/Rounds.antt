-- ===== src/Aes/Modes/Rounds.antt =====
-- src/aes.cpp: the rounds of ECB and CBC, each of which the other direction undoes.
use libnap.Base.{ℕ, suc, List, [], ◌∷◌, Bool, false, ◌≡◌, refl, ap, ◌∙◌}
use libnap.Base.{IsBytes, length, bit_xor_bound, bit_xor_twice}
use Prim.{Unit, tt}
use libnap.Aes.Key.{AesKey}
use libnap.Aes.Bytes.{encrypt_bytes, decrypt_bytes, xor_bytes, of_matrix}
use libnap.Aes.Modes.{NoMembers, Ivs, ecb_encrypt, ecb_decrypt, cbc_encrypt, cbc_decrypt}
use libnap.Aes.Modes.Cipher.{IsBlock, HasCiphers}
use libnap.Aes.Modes.Chain.{Undoes}

pub length-xor_bytes : (a b : List ℕ) → length (xor_bytes a b) ≡ length a
unfolding xor_bytes
length-xor_bytes [] b = refl
length-xor_bytes (x ∷ a) [] = refl
length-xor_bytes (x ∷ a) (y ∷ b) = ap suc (length-xor_bytes a b)

xor_bytes-IsBytes : (a b : List ℕ) → IsBytes a → IsBytes b → IsBytes (xor_bytes a b)
unfolding xor_bytes
xor_bytes-IsBytes [] b h k = tt
xor_bytes-IsBytes (x ∷ a) [] h k = h
xor_bytes-IsBytes (x ∷ a) (y ∷ b) h k = (bit_xor_bound 8 x y h.0 k.0, xor_bytes-IsBytes a b h.1 k.1)

pub xor_bytes_twice : (a b : List ℕ) → xor_bytes (xor_bytes a b) b ≡ a
unfolding xor_bytes
xor_bytes_twice [] b = refl
xor_bytes_twice (x ∷ a) [] = refl
xor_bytes_twice (x ∷ a) (y ∷ b) = rw (bit_xor_twice x y) (ap (λ l. x ∷ l) (xor_bytes_twice a b))

xor_bytes-IsBlock : (a b : List ℕ) → IsBlock a → IsBlock b → IsBlock (xor_bytes a b)
xor_bytes-IsBlock a b h k = record {
  size = length-xor_bytes a b ∙ h.size;
  are_bytes = xor_bytes-IsBytes a b h.are_bytes k.are_bytes;
}

pub encrypted_size : (key : AesKey) (b : List ℕ) → length (encrypt_bytes key b) ≡ 16
unfolding encrypt_bytes of_matrix
encrypted_size key b = refl

module _ (key : AesKey) (c : HasCiphers key) where
  pub ecb_round :
      (m : NoMembers) (b : List ℕ)
      → Unit {0}
      → IsBlock b
      → Undoes (λ m. Unit {0}) (ecb_encrypt key false) (ecb_decrypt key false) m b
  unfolding ecb_encrypt ecb_decrypt
  ecb_round m b ok h = record {
    undone = ap (λ l. (m, l)) (c.undoes b h);
    ok = tt;
    block = c.encrypts b h.are_bytes;
  }

  pub cbc_round :
      (m : Ivs) (b : List ℕ)
      → IsBlock m.iv
      → IsBlock b
      → Undoes (λ m. IsBlock m.iv) (cbc_encrypt key false) (cbc_decrypt key false) m b
  unfolding cbc_encrypt cbc_decrypt
  cbc_round m b ok h =
      let mixed = xor_bytes-IsBlock b m.iv h ok in
      let out = encrypt_bytes key (xor_bytes b m.iv) in
      record {
        undone =
            ap (λ l. (record m { iv = out }, xor_bytes l m.iv)) (c.undoes (xor_bytes b m.iv) mixed)
            ∙ ap (λ l. (record m { iv = out }, l)) (xor_bytes_twice b m.iv);
        ok = c.encrypts (xor_bytes b m.iv) mixed.are_bytes;
        block = c.encrypts (xor_bytes b m.iv) mixed.are_bytes;
      }

pub decrypted_size : (key : AesKey) (b : List ℕ) → length (decrypt_bytes key b) ≡ 16
unfolding decrypt_bytes of_matrix
decrypted_size key b = refl

pub ecb_same : (key : AesKey) (in_place : Bool) → ecb_encrypt key in_place ≡ ecb_encrypt key false
unfolding ecb_encrypt
ecb_same key in_place = refl

pub ecb_back_same :
    (key : AesKey) (in_place : Bool) → ecb_decrypt key in_place ≡ ecb_decrypt key false
unfolding ecb_decrypt
ecb_back_same key in_place = refl

pub cbc_same : (key : AesKey) (in_place : Bool) → cbc_encrypt key in_place ≡ cbc_encrypt key false
unfolding cbc_encrypt
cbc_same key in_place = refl
