-- ===== src/Aes/Modes/Codebook.antt =====
-- src/aes.cpp: the modes ECB and CBC, from the message to its bytes encrypted, and back.
use libnap.Base.{
  AllShort, AllShort-flatten, ◌+◌, ◌^◌, length-append, arith, ℕ, ◌*◌, ◌<◌, ◌≤◌, List, [], ◌∷◌, ◌++◌,
  Option, some, Bool, false, ◌≡◌, refl, ◌∙◌,
}
use libnap.Base.{IsBytes, length, append-nil, ◌>>=◌, flatten, append-IsBytes}
use Prim.{Unit, tt}
use libnap.Aes.Stream.Add.{Serves}
use libnap.Aes.Key.{KeyType, key_words, init}
use libnap.Aes.Bytes.{decrypt_bytes, xor_bytes}
use libnap.Aes.Padding.{PaddingType}
use libnap.Aes.Padding.Marked.{Marks}
use libnap.Aes.Stream.{Buffer, each_block, handle_blocks, start, add, add_whole}
use libnap.Aes.Stream.Pieces.{add_pieces}
use libnap.Aes.Modes.{
  always, always_ready, no_members, of_iv, ecb_encrypt, ecb_decrypt, cbc_encrypt, cbc_decrypt,
  restore_iv, end_decrypt, crypt, keep_members, ecb_encryption, ecb_decryption, cbc_encryption,
  cbc_decryption,
}
use libnap.Aes.Modes.Cipher.{IsBlock, init-HasCiphers}
use libnap.Aes.Modes.Rounds.{
  length-xor_bytes, encrypted_size, decrypted_size, ecb_same, ecb_back_same, cbc_same, ecb_round,
  cbc_round,
}
use libnap.Aes.Modes.Chain.{chain_lem}
use libnap.Aes.Modes.Finish.{handle_blocks-Serves, encrypts_lem, decrypts_lem}

-- One piece is handled out of place.
one_piece :
    {S : Type 0} (step : Bool → S → List ℕ → S × List ℕ)
    (endinput : Buffer S → Option (Buffer S × List ℕ)) (resetdata : S → Option S) (m : S)
    (l : List ℕ)
    → crypt (handle_blocks always_ready step) endinput resetdata (start m) (l ∷ [])
      ≡ crypt
          (handle_blocks always_ready (λ in_place. step false))
          endinput
          resetdata
          (start m)
          (l ∷ [])
unfolding crypt add_pieces add add_whole handle_blocks start
one_piece step endinput resetdata m l = refl

-- The modes whose rounds need nothing of the members.
unready-Serves :
    {S : Type 0} (step : Bool → S → List ℕ → S × List ℕ)
    → ((in_place : Bool) → step in_place ≡ step false)
    → ((m : S) (b : List ℕ) → length b ≡ 16 → length (step false m b).1 ≡ 16)
    → Serves (step false) (λ m. Unit {0}) (2 ^ 32) (handle_blocks always_ready step)
unready-Serves step same sized =
    handle_blocks-Serves (λ m. Unit {0}) always_ready step same (λ m ok. refl) (λ m b h ok. tt)
      sized

module _ (bytes : List ℕ) (kind : KeyType) (enough : 4 * key_words kind ≤ length bytes)
    (random : ℕ → ℕ) (bound : (i : ℕ) → random i < 256) (fresh : ℕ → List ℕ) (type : PaddingType)
    (marks : Marks type) where
  -- A message of bytes given to AesECBEncryption in any pieces, and what it returns given to
  -- AesECBDecryption in any pieces, comes back, for the three kinds of key and the kinds of padding
  -- that say their length; no access is out of range. The pieces are of less than 2^32 bytes each,
  -- and the random numbers are bytes.
  pub ecb_round_trip :
      (pieces : List (List ℕ)) (cut : List ℕ → List (List ℕ))
      → ((l : List ℕ) → flatten (cut l) ≡ l)
      → ((l : List ℕ) → AllShort (2 ^ 32) (cut l))
      → AllShort (2 ^ 32) pieces
      → IsBytes (flatten pieces)
      → (do
        key ← init bytes kind
        sent ← ecb_encryption key random type (start no_members) pieces
        got ← ecb_decryption key fresh type (start no_members) (cut sent.1)
        some got.1)
        ≡ some (flatten pieces)
  ecb_round_trip pieces cut joins cut_short short are_bytes =
      let (key, made, c) = init-HasCiphers bytes kind enough in
      let msg = flatten pieces in
      let sent =
        encrypts_lem (ecb_encrypt key false) (handle_blocks always_ready (ecb_encrypt key))
          (unready-Serves (ecb_encrypt key) (ecb_same key)
            (λ m b h. unfold ecb_encrypt in encrypted_size key b))
          {m = no_members} tt random bound type marks keep_members pieces short in
      let undone =
        chain_lem (ecb_encrypt key false) (ecb_decrypt key false) (ecb_round key c) sent.count
          no_members (msg ++ sent.pad) tt sent.padded.size
          (append-IsBytes msg sent.pad are_bytes sent.padded.are_bytes) in
      let out = (each_block (ecb_encrypt key false) sent.count no_members (msg ++ sent.pad)).1 in
      let (s, got) =
        decrypts_lem (ecb_encrypt key false) (ecb_decrypt key false)
          (handle_blocks always_ready (ecb_decrypt key))
          (unready-Serves (ecb_decrypt key) (ecb_back_same key)
            (λ m b h. unfold ecb_decrypt in decrypted_size key b))
          no_members tt fresh type marks keep_members msg sent.pad sent.count (cut out) sent.padded
          undone (joins out) (cut_short out) in
      rw (made, sent.returned, got) refl

  -- A message of bytes given to AesCBCEncryption in any pieces, and what it returns given to
  -- AesCBCDecryption in one piece, with the same initial vector of sixteen bytes, comes back, for
  -- the three kinds of key and the kinds of padding that say their length; no access is out of
  -- range. The message has less than 2^32 - 16 bytes, and the random numbers are bytes.
  pub cbc_round_trip :
      (iv : List ℕ) (pieces : List (List ℕ))
      → IsBlock iv
      → length (flatten pieces) + 16 < 2 ^ 32
      → IsBytes (flatten pieces)
      → (do
        key ← init bytes kind
        sent ← cbc_encryption key random type (start (of_iv iv)) pieces
        got ← cbc_decryption key fresh type (start (of_iv iv)) (sent.1 ∷ [])
        some got.1)
        ≡ some (flatten pieces)
  cbc_round_trip iv pieces ok bound_size are_bytes =
      let (key, made, c) = init-HasCiphers bytes kind enough in
      let m = of_iv iv in
      let msg = flatten pieces in
      let sent =
        encrypts_lem (cbc_encrypt key false) (handle_blocks always_ready (cbc_encrypt key))
          (unready-Serves (cbc_encrypt key) (cbc_same key)
            (λ m b h. unfold cbc_encrypt in encrypted_size key (xor_bytes b m.iv)))
          {m = m} tt random bound type marks restore_iv pieces
          (AllShort-flatten (2 ^ 32) pieces (omega (arith, bound_size))) in
      let undone =
        chain_lem (cbc_encrypt key false) (cbc_decrypt key false) (cbc_round key c) sent.count m
          (msg ++ sent.pad) (unfold of_iv in ok) sent.padded.size
          (append-IsBytes msg sent.pad are_bytes sent.padded.are_bytes) in
      let out = (each_block (cbc_encrypt key false) sent.count m (msg ++ sent.pad)).1 in
      let short_out : length out < 2 ^ 32 = omega (
        arith,
        undone.size,
        sent.padded.size,
        sent.padded.short,
        length-append msg sent.pad,
        bound_size,
      ) in
      let (s, got) =
        decrypts_lem (cbc_encrypt key false) (cbc_decrypt key false)
          (handle_blocks always_ready (λ in_place. cbc_decrypt key false))
          (unready-Serves (λ in_place. cbc_decrypt key false) (λ in_place. refl)
            (λ m b h.
              unfold cbc_decrypt in
              length-xor_bytes (decrypt_bytes key b) m.iv ∙ decrypted_size key b))
          m tt fresh type marks restore_iv msg sent.pad sent.count (out ∷ []) sent.padded undone
          (append-nil out) (short_out, tt) in
      rw
        (
          made,
          sent.returned,
          one_piece (cbc_decrypt key) (end_decrypt fresh type) (always restore_iv) m out,
          got,
        )
        refl
