-- ===== src/Aes/RoundTrip.antt =====
-- src/aes.cpp and src/aes.h: a key from `_init`, and a block encrypted and decrypted with it.
use libnap.Base.{ℕ, ◌+◌, ◌-◌, ◌*◌, ◌/◌, ◌≤◌, List, some, ◌≡◌, refl, ap, arith, length}
use libnap.Base.{le→leb, ◌>>=◌, replicate, length-replicate}
use libnap.Aes.Key.{AesKey, KeyType, key_words, round, init, reverse_keys}
use libnap.Aes.Key.Reverse.{reverse_keys_lem}
use libnap.Aes.Block.{Matrix, encrypt_block, decrypt_block}
use libnap.Aes.Block.Inverse.{IsState}
use libnap.Aes.Block.Cipher.{Reversed, decrypt-encrypt}

keys-Reversed :
    (nr : ℕ) (ke : List ℕ)
    → Reversed nr ke
        (reverse_keys (4 * (nr + 1) / 4) 0 (4 * (nr + 1) - 4) ke (replicate (4 * (nr + 1)) 0))
keys-Reversed nr ke e d re rd total at_e at_d =
    let groups : 4 * (nr + 1) / 4 ≡ nr + 1 = omega arith in
    let from : re ≡ 0 + 4 * e = omega (arith, at_e) in
    rw (groups, from, at_d)
      (reverse_keys_lem (nr + 1) e d 0 (4 * (nr + 1) - 4) ke (replicate (4 * (nr + 1)) 0)
        (omega arith) (omega (arith, total))
        (omega (arith, length-replicate {A = ℕ} (4 * (nr + 1)) 0)))

pub key_from_init :
    (bytes : List ℕ) (type : KeyType)
    → 4 * key_words type ≤ length bytes
    → (key : AesKey) × (init bytes type ≡ some key)
      × Reversed (round key.type) key.keys_e key.keys_d
unfolding init
key_from_init bytes type enough =
    rw (le→leb (4 * key_words type) (length bytes) enough) (_, refl, keys-Reversed (round type) _)

-- For each of the three kinds of key, from as many bytes as it has: `_init` touches no memory out
-- of range, and `decrypt_block` with its key undoes `encrypt_block` on every block of bytes.
pub block_round_trip :
    (key : List ℕ) (type : KeyType) (m : Matrix)
    → 4 * key_words type ≤ length key
    → IsState m
    → (do k ← init key type; some (decrypt_block k (encrypt_block k m))) ≡ some m
unfolding init
block_round_trip key type m enough h =
    rw (le→leb (4 * key_words type) (length key) enough)
      (ap some (decrypt-encrypt _ m (keys-Reversed (round type) _) h))
