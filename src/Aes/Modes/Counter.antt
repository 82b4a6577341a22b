-- ===== src/Aes/Modes/Counter.antt =====
-- src/aes.cpp, class AesCTREncryption: the mode is a stream of key bytes.
use libnap.Base.{
  AllShort, le→leb, ◌≤◌, ◌^◌, ℕ, zero, suc, ◌+◌, ◌-◌, ◌*◌, ◌/◌, ◌<◌, List, [], ◌∷◌, ◌++◌, Option,
  some, Bool, false, inl, inr, ◌≡◌, refl, sym, ap, ◌∙◌, arith,
}
use libnap.Base.{
  take, drop, length, length-eq_zero, take_all, take-append, length-append, length-take,
  length-drop, append-nil, u8, ◌>>=◌, ◌==◌, flatten, bit_xor, Bool-cases, ==_iff, not-==→ne,
  take-append-drop,
}
use libnap.Aes.Key.{AesKey}
use libnap.Aes.Bytes.{encrypt_bytes, xor_bytes}
use libnap.Aes.Iv.{increment}
use libnap.Aes.Stream.{Buffer, each_block, handle_blocks, start}
use libnap.Aes.Stream.Add.{Serves, Absorbed, start-Absorbed, aes_add_lem}
use libnap.Aes.Stream.Pieces.{AllHandled, pieces_lem, Absorbed-AllHandled}
use libnap.Aes.Iv.Increment.{length-increment}
use libnap.Aes.Modes.{
  counter_ready, always, Ivs, of_iv, ctr_crypt, restore_iv, end_counter, reset, end, crypt,
  ctr_encryption,
}
use libnap.Aes.Modes.Rounds.{length-xor_bytes, xor_bytes_twice, encrypted_size}
use libnap.Aes.Modes.Finish.{handle_blocks-Serves}

-- The counter after `n` blocks, and the bytes of the counters before it, encrypted.
abbrev pub advance : ℕ → List ℕ → List ℕ
advance zero iv = iv
advance (suc n) iv = advance n (increment 16 iv)

abbrev pub keystream : AesKey → ℕ → List ℕ → List ℕ
keystream key zero iv = []
keystream key (suc n) iv = encrypt_bytes key iv ++ keystream key n (increment 16 iv)

-- The number of blocks that hold so many bytes.
abbrev pub blocks_for : ℕ → ℕ
blocks_for len = (len + 15) / 16

pub xor_bytes-append :
    (a b c d : List ℕ)
    → length a ≡ length c
    → xor_bytes (a ++ b) (c ++ d) ≡ xor_bytes a c ++ xor_bytes b d
unfolding xor_bytes
xor_bytes-append [] b [] d h = refl
xor_bytes-append [] b (y ∷ c) d h = absurd (omega arith)
xor_bytes-append (x ∷ a) b [] d h = absurd (omega arith)
xor_bytes-append (x ∷ a) b (y ∷ c) d h =
    ap (λ l. bit_xor x y ∷ l) (xor_bytes-append a b c d (omega arith))

pub take-xor_bytes : (a b k : List ℕ) → take (length a) (xor_bytes (a ++ b) k) ≡ xor_bytes a k
unfolding xor_bytes
take-xor_bytes [] b k = refl
take-xor_bytes (x ∷ a) b [] = ap (λ l. x ∷ l) (take-append (length a) a b refl)
take-xor_bytes (x ∷ a) b (y ∷ k) = ap (λ l. bit_xor x y ∷ l) (take-xor_bytes a b k)

-- The loop over blocks.
streams :
    (key : AesKey) (n : ℕ) (m : Ivs) (l : List ℕ)
    → length l ≡ n * 16
    → each_block (ctr_crypt key false) n m l
      ≡ (record m { iv = advance n m.iv }, xor_bytes l (keystream key n m.iv))
unfolding each_block ctr_crypt
streams key zero m l size = unfold xor_bytes in rw (length-eq_zero l (omega (arith, size))) refl
streams key (suc n) m l size =
    let front : length (take 16 l) ≡ length (encrypt_bytes key m.iv) =
      omega (arith, length-take 16 l, size, encrypted_size key m.iv) in
    let next : Ivs = record m { iv = increment 16 m.iv } in
    let whole : xor_bytes l (keystream key (suc n) m.iv)
        ≡ xor_bytes (take 16 l) (encrypt_bytes key m.iv)
          ++ xor_bytes (drop 16 l) (keystream key n next.iv) =
      ap (λ k. xor_bytes k (keystream key (suc n) m.iv)) (sym (take-append-drop 16 l))
      ∙ xor_bytes-append (take 16 l) (drop 16 l) (encrypt_bytes key m.iv) (keystream key n next.iv)
          front in
    rw (streams key n next (drop 16 l) (omega (arith, length-drop 16 l, size)), whole) refl

ctr_same : (key : AesKey) (in_place : Bool) → ctr_crypt key in_place ≡ ctr_crypt key false
unfolding ctr_crypt
ctr_same key in_place = refl

ctr_sized :
    (key : AesKey) (m : Ivs) (b : List ℕ) → length b ≡ 16 → length (ctr_crypt key false m b).1 ≡ 16
unfolding ctr_crypt
ctr_sized key m b h = length-xor_bytes b (encrypt_bytes key m.iv) ∙ h

abbrev IsReady : Ivs → Type 0
IsReady m = 16 ≤ length m.iv

ctr-Serves :
    (key : AesKey)
    → Serves (ctr_crypt key false) IsReady (2 ^ 32) (handle_blocks counter_ready (ctr_crypt key))
ctr-Serves key =
    handle_blocks-Serves IsReady counter_ready (ctr_crypt key) (ctr_same key)
      (λ m h. unfold counter_ready in le→leb 16 (length m.iv) h)
      (λ m b size h. unfold ctr_crypt in omega (arith, h, length-increment 16 m.iv)) (ctr_sized key)

-- What has come of a message, with the object ready for the next.
pub record Streamed (key : AesKey) (iv msg : List ℕ) (result : Option (Buffer Ivs × List ℕ))
    : Type 0 where
  pub state : Buffer Ivs
  pub returned : result ≡ some (state, xor_bytes msg (keystream key (blocks_for (length msg)) iv))
  pub counter : state.mode ≡ of_iv (advance (blocks_for (length msg)) iv)
  pub empty : (state.buffer_len ≡ 0) × (state.result ≡ [])

module _ (key : AesKey) (iv : List ℕ) (enough : 16 ≤ length iv) where
  iv-IsReady : IsReady (of_iv iv)
  unfolding of_iv
  iv-IsReady = enough

  finished :
      {s : Buffer Ivs} (msg stale : List ℕ)
      → AllHandled (ctr_crypt key false) (of_iv iv) (msg ++ stale) s
      → length stale < 16
      → (take (length msg) s.result ≡ xor_bytes msg (keystream key (blocks_for (length msg)) iv))
        × (s.mode.iv ≡ advance (blocks_for (length msg)) iv)
        × (length s.result ≡ length msg + length stale)
  unfolding of_iv
  finished {s} msg stale all short =
      let count : all.count ≡ blocks_for (length msg) =
        omega (arith, all.size, length-append msg stale, short) in
      let run = streams key all.count (of_iv iv) (msg ++ stale) all.size in
      let result : s.result
          ≡ xor_bytes (msg ++ stale) (keystream key (blocks_for (length msg)) iv) =
        all.result_run
        ∙ ap (λ r. r.1) run
        ∙ ap (λ n. xor_bytes (msg ++ stale) (keystream key n iv)) count in
      (
        ap (take (length msg)) result ∙ take-xor_bytes msg stale _,
        ap (λ m. m.iv) (all.mode_run ∙ ap (λ r. r.0) run) ∙ ap (λ n. advance n iv) count,
        ap length result ∙ length-xor_bytes (msg ++ stale) _ ∙ length-append msg stale,
      )

  ended_stream :
      (s : Buffer Ivs) (msg : List ℕ)
      → Absorbed (ctr_crypt key false) (of_iv iv) msg s
      → Streamed key iv msg
          (end (end_counter (handle_blocks counter_ready (ctr_crypt key))) (always restore_iv) s)
  unfolding end end_counter reset restore_iv of_iv
  ended_stream s msg h =
      let len = s.buffer_len in
      let handle = handle_blocks counter_ready (ctr_crypt key) in
      let word : u8 len ≡ len = omega (arith, h.short) in
      let kept : length h.rest ≡ len =
        omega (arith, sym (ap length h.held), length-take len s.buffer, h.room, h.short) in
      let size : length msg ≡ h.count * 16 + len =
        omega (arith, ap length h.message, length-append h.front h.rest, h.size, kept) in
      let done : Buffer Ivs → Buffer Ivs = λ t. record t {
        buffer_len = 0;
        result = [];
        mode = record { iv = t.mode.iv; original = t.mode.iv };
      } in
      rw word (elim (Bool-cases (len == 0)) [
        | inl whole ↦
            let none_left : len ≡ 0 = (==_iff _ _).0 whole in
            let all =
              Absorbed-AllHandled (ctr_crypt key false) handle (ctr-Serves key) iv-IsReady h h.count
                (omega (arith, size, none_left)) in
            let (out, counter, total) =
              finished msg [] (rw (sym (append-nil msg)) at all) (omega arith) in
            let plain : s.result ≡ xor_bytes msg (keystream key (blocks_for (length msg)) iv) =
              sym (take_all (length msg) s.result (omega (arith, total))) ∙ out in
            rw whole (record {
              state = done s;
              returned = ap (λ l. some (done s, l)) plain;
              counter = ap of_iv counter;
              empty = (refl, refl);
            })
        | inr part ↦
            let some_left = not-==→ne _ _ part in
            let stale = take (16 - len) (drop len s.buffer) in
            let stale_size : length stale ≡ 16 - len = omega (
              arith,
              length-take (16 - len) (drop len s.buffer),
              length-drop len s.buffer,
              h.room,
            ) in
            let more =
              aes_add_lem (ctr_crypt key false) handle (ctr-Serves key) iv-IsReady s msg
                (drop len s.buffer) (16 - len) (omega (arith, length-drop len s.buffer, h.room))
                (omega arith) h in
            let all =
              Absorbed-AllHandled (ctr_crypt key false) handle (ctr-Serves key) iv-IsReady
                more.absorbed (h.count + 1)
                (omega (arith, length-append msg stale, stale_size, size, h.short)) in
            let (out, counter, total) =
              finished msg stale all (omega (arith, stale_size, some_left)) in
            let cut : length more.state.result - (16 - len) ≡ length msg =
              omega (arith, total, stale_size) in
            rw (part, more.returned, cut, out)
              (record {
                state = done more.state;
                returned = refl;
                counter = ap of_iv counter;
                empty = (refl, refl);
              })
      ])

  -- A message given to AesCTREncryption in any pieces of less than 2^32 bytes each, with a counter
  -- of the sixteen bytes that are read, returns its bytes, each changed by `^` with
  -- the byte at its place in the blocks of the counter, encrypted one after the other; no access is
  -- out of range. The object is empty afterwards, and goes on with the next counter, also after
  -- `reset`.
  pub ctr_lem :
      (pieces : List (List ℕ))
      → AllShort (2 ^ 32) pieces
      → Streamed key iv (flatten pieces) (ctr_encryption key (start (of_iv iv)) pieces)
  unfolding crypt
  ctr_lem pieces short =
      let given =
        pieces_lem (ctr_crypt key false) (handle_blocks counter_ready (ctr_crypt key))
          (ctr-Serves key) iv-IsReady (start (of_iv iv)) [] pieces short
          (start-Absorbed (ctr_crypt key false) (of_iv iv)) in
      rw given.returned (ended_stream given.state (flatten pieces) given.absorbed)

  -- What AesCTREncryption returns of a message in any pieces, given in any pieces to an object with
  -- the same key and counter, comes back, for every key and counter of the sixteen bytes that are
  -- read, where the pieces are of less than 2^32 bytes each.
  pub ctr_round_trip :
      (pieces : List (List ℕ)) (cut : List ℕ → List (List ℕ))
      → ((l : List ℕ) → flatten (cut l) ≡ l)
      → ((l : List ℕ) → AllShort (2 ^ 32) (cut l))
      → AllShort (2 ^ 32) pieces
      → (do
        sent ← ctr_encryption key (start (of_iv iv)) pieces
        got ← ctr_encryption key (start (of_iv iv)) (cut sent.1)
        some got.1)
        ≡ some (flatten pieces)
  ctr_round_trip pieces cut joins cut_short short =
      let msg = flatten pieces in
      let keys = keystream key (blocks_for (length msg)) iv in
      let sent = ctr_lem pieces short in
      let got = ctr_lem (cut (xor_bytes msg keys)) (cut_short (xor_bytes msg keys)) in
      rw
        (
          sent.returned,
          got.returned,
          joins (xor_bytes msg keys),
          length-xor_bytes msg keys,
          xor_bytes_twice msg keys,
        )
        refl
