-- ===== src/Aes/Gcm/RoundTrip.antt =====
-- src/aes.cpp, GCM: messages in pieces, and encryption followed by decryption.
use Prim.{tt}
use libnap.Base.{
  AllShort, ◌≤◌, ◌^◌, ℕ, List, [], Option, some, Bool, true, false, ◌≡◌, refl, ap, ◌∙◌, flatten,
  length, ◌>>=◌,
}
use libnap.Aes.Key.{AesKey}
use libnap.Aes.Bytes.{xor_bytes}
use libnap.Aes.Stream.{start}
use libnap.Aes.Stream.Add.{start-Absorbed}
use libnap.Aes.Stream.Pieces.{pieces_lem}
use libnap.Aes.Modes.{crypt}
use libnap.Aes.Modes.Rounds.{length-xor_bytes, xor_bytes_twice}
use libnap.Aes.Modes.Counter.{blocks_for}
use libnap.Aes.Gcm.{inc32, resetdata, encrypt_message, decrypt_message}
use libnap.Aes.Gcm.Blocks.{stream, handle_of, step, handle-Serves}
use libnap.Aes.Gcm.Whole.{members, of_iv_lem, first_counter, text, tag, Crypted}
use libnap.Aes.Gcm.Finish.{end_of, cipher, ended}

module _ (key : AesKey) (iv aad : List ℕ) (enough : 12 ≤ length iv) where
  session :
      (encrypts : Bool) (pieces : List (List ℕ))
      → AllShort (2 ^ 64) pieces
      → Crypted key iv aad (flatten pieces) (cipher encrypts key iv aad (flatten pieces)) (
          crypt
            (handle_of encrypts key aad)
            (end_of encrypts key aad)
            (resetdata key aad)
            (start (members key aad iv))
            pieces)
  unfolding crypt
  session encrypts pieces short =
      let m = members key aad iv in
      let given =
        pieces_lem (step encrypts key) (handle_of encrypts key aad) (handle-Serves encrypts key aad)
          tt (start m) [] pieces short (start-Absorbed (step encrypts key) m) in
      rw given.returned
        (ended encrypts key iv aad given.state (flatten pieces) enough given.absorbed)

  -- A message given in any pieces to AesGCMEncryption, or to AesGCMDecryption, with an initial
  -- vector of the twelve bytes that are read, returns the result and the tag of the mode GCM, with no
  -- access out of range: the bytes of the message, each changed by `^` with the byte at its place in
  -- the encrypted counters behind the first; and the hash of the additional data, the encrypted text
  -- and the two lengths in bits, each of the first two filled with zeros to whole blocks, changed by
  -- the encrypted first counter. The encrypted text is what the one puts out and the other takes in.
  -- The object is empty afterwards, and has the members of one that is made with the next initial
  -- vector. The length of a piece is below 2^64.
  pub gcm_lem :
      (pieces : List (List ℕ))
      → AllShort (2 ^ 64) pieces
      → let msg = flatten pieces in
        Crypted key iv aad msg (text key iv msg) (encrypt_message key aad iv pieces)
        × Crypted key iv aad msg msg (decrypt_message key aad iv pieces)
  gcm_lem pieces short =
      rw (of_iv_lem key aad iv enough) (session true pieces short, session false pieces short)

  -- What AesGCMEncryption returns of a message in any pieces, given in any pieces to an
  -- AesGCMDecryption with the same key, initial vector and additional data, comes back with the
  -- same tag, where the initial vector has the twelve bytes that are read and the length of each
  -- piece is below 2^64.
  pub gcm_round_trip :
      (pieces : List (List ℕ)) (cut : List ℕ → List (List ℕ))
      → ((l : List ℕ) → flatten (cut l) ≡ l)
      → ((l : List ℕ) → AllShort (2 ^ 64) (cut l))
      → AllShort (2 ^ 64) pieces
      → let run : Option (List ℕ × (List ℕ × List ℕ)) = (do
        sent ← encrypt_message key aad iv pieces
        got ← decrypt_message key aad iv (cut sent.1.1)
        some (sent.1.0, got.1)) in
        (t : List ℕ) × (run ≡ some (t, (t, flatten pieces)))
  gcm_round_trip pieces cut joins cut_short short =
      let msg = flatten pieces in
      let keys = stream key (blocks_for (length msg)) (inc32 (first_counter iv)) in
      let out = text key iv msg in
      let sent = (gcm_lem pieces short).0 in
      let got = (gcm_lem (cut out) (cut_short out)).1 in
      let back : text key iv out ≡ msg =
        ap (λ (n : ℕ). xor_bytes out (stream key (blocks_for n) (inc32 (first_counter iv))))
          (length-xor_bytes msg keys)
        ∙ xor_bytes_twice msg keys in
      (tag key iv aad out, rw (sent.returned, got.returned, joins out, back) refl)
