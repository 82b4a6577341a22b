-- ===== src/Hash/Sha256/Digest.antt =====
-- src/hash.cpp, `SHA256::calculate`, on an object that has taken in a message, and the padding of
-- FIPS 180-4.
use libnap.Base.{
  AllShort, ℕ, ◌+◌, ◌-◌, ◌*◌, ◌%◌, ◌≤◌, ◌<◌, ◌^◌, List, [], ◌∷◌, ◌++◌, Option, some, ◌≡◌,
}
use libnap.Base.{
  refl, ap, sym, ◌∙◌, arith, length, take, drop, replicate, length-drop, length-replicate,
}
use libnap.Base.{u64, leb, inl, inr, Bool-cases, leb→le, not-leb→lt, append_assoc, ◌>>=◌, flatten}
use libnap.Base.{store, store-append, memcpy_runs, length-append, take-append-drop, take_all}
use libnap.Base.{
  take-append, take-replicate, replicate-append, append-nil, length-snoc, snoc-append, memcpy,
}
use libnap.Hash.Stream.{add_all, chain, AreBlocks, Holds, Holds-filled, length-rest, length-message}
use libnap.Hash.Sha256.{
  Sha256, sha256_init, compress, cal_sha256, extra_block, pad_buffer, swap64_bytes, output,
  swap_words, calculate, add, reset,
}
use libnap.Hash.Sha256.Add.{Absorbed, Adds, reset-Absorbed, sha256_add_lem}

-- The padding of FIPS 180-4, section 5.1.1: a one bit, zeros up to 56 bytes modulo 64, and the
-- length in bits as eight bytes, the highest first.
abbrev pub zeros : ℕ → List ℕ
zeros n = replicate n 0

abbrev pub padding : ℕ → List ℕ
padding n = 0x80 ∷ (zeros ((119 - n % 64) % 64) ++ swap64_bytes (n * 8))

-- `result` is the output of the blocks of the padded message, chained.
pub record Digests (m : List ℕ) (result : Option (Sha256 × List ℕ)) : Type 0 where
  pub state : Sha256
  pub blocks : List (List ℕ)
  pub whole : AreBlocks blocks
  pub padded : flatten blocks ≡ m ++ padding (length m)
  pub returned : result ≡ some (state, output (swap_words (chain compress sha256_init blocks)))

nonempty : (l : List ℕ) → 0 < length l → (x : ℕ) × (r : List ℕ) × (l ≡ x ∷ r)
nonempty [] h = absurd (omega arith)
nonempty (x ∷ r) h = (x, r, refl)

-- The zeros cut, joined and counted.
take-zeros :
    (r : List ℕ) (a b n : ℕ)
    → length r + 1 + a ≡ n
    → take n (r ++ 0x80 ∷ zeros (a + b)) ≡ r ++ 0x80 ∷ zeros a
take-zeros r a b n e =
    ap (λ l. take n (r ++ 0x80 ∷ l)) (sym (replicate-append {A = ℕ} a b 0))
    ∙ ap (take n) (sym (append_assoc r (0x80 ∷ zeros a) (zeros b)))
    ∙ take-append n (r ++ 0x80 ∷ zeros a) (zeros b)
        (omega (arith, e, length-append r (128 ∷ zeros a), length-replicate {A = ℕ} a 0))

zeros-join :
    (m x : List ℕ) (a b n : ℕ)
    → a + b ≡ n
    → (m ++ 0x80 ∷ zeros a) ++ (zeros b ++ x) ≡ m ++ 0x80 ∷ (zeros n ++ x)
zeros-join m x a b n e =
    append_assoc m (0x80 ∷ zeros a) (zeros b ++ x)
    ∙ ap (λ l. m ++ 0x80 ∷ l) (sym (append_assoc (zeros a) (zeros b) x))
    ∙ ap (λ l. m ++ 0x80 ∷ (l ++ x)) (replicate-append {A = ℕ} a b 0)
    ∙ ap (λ k. m ++ 0x80 ∷ (zeros k ++ x)) e

module _ (m : List ℕ) (s : Sha256) (h : Absorbed m s) where
  abbrev rest : List ℕ
  rest = h.held.rest

  abbrev len : ℕ
  len = s.buffer_len

  rest_size : length rest ≡ len
  rest_size = length-rest compress h.held

  -- The buffer with the one bit and the zeros.
  pad_buffer_lem :
      (out : List ℕ) × (pad_buffer s ≡ some (record s { buffer = out }))
      × (length out ≡ 64)
      × (out ≡ rest ++ 0x80 ∷ zeros (63 - len))
  unfolding pad_buffer
  pad_buffer_lem =
      let (x, r, parts) =
        nonempty (drop len s.buffer)
          (omega (arith, length-drop len s.buffer, h.held.room, h.held.short)) in
      let split : s.buffer ≡ rest ++ x ∷ r =
        sym (take-append-drop len s.buffer)
        ∙ ap (λ l. l ++ drop len s.buffer) h.held.front
        ∙ ap (λ l. rest ++ l) parts in
      let marks : store s.buffer len 0x80 ≡ some (rest ++ 0x80 ∷ r) =
        ap (λ l. store l len 0x80) split ∙ store-append rest x r len 0x80 (sym rest_size) in
      let size : length (rest ++ 0x80 ∷ r) ≡ 64 = omega (
        arith,
        length-append rest (x ∷ r),
        length-append rest (128 ∷ r),
        ap length split,
        h.held.room,
      ) in
      let (out, runs, out_size, front) =
        memcpy_runs (rest ++ 0x80 ∷ r) (len + 1) (zeros 64) (64 - len - 1)
          (omega (arith, size, h.held.short)) (omega (arith, length-replicate {A = ℕ} 64 0)) in
      let amount : 64 - len - 1 ≡ 63 - len = omega arith in
      let marked : take (len + 1) (rest ++ 0x80 ∷ r) ≡ rest ++ 0x80 ∷ [] =
        ap (take (len + 1)) (snoc-append rest 128 r)
        ∙ take-append (len + 1) (rest ++ 0x80 ∷ []) r
            (omega (arith, length-snoc rest 128, rest_size)) in
      let filled : take (64 - len - 1) (zeros 64) ≡ zeros (63 - len) =
        take-replicate {A = ℕ} (64 - len - 1) 64 0 (omega arith) ∙ ap zeros amount in
      let all =
        sym (take_all (len + 1 + (64 - len - 1)) out (omega (arith, out_size, size)))
        ∙ front
        ∙ ap (λ l. l ++ take (64 - len - 1) (zeros 64)) marked
        ∙ ap (λ l. (rest ++ 0x80 ∷ []) ++ l) filled
        ∙ append_assoc rest (0x80 ∷ []) (zeros (63 - len)) in
      (out, rw (marks, runs), out_size ∙ size, all)

  size_of_message : length m ≡ h.count * 64 + len
  size_of_message = length-message compress h.held

  -- The end of `calculate` on a buffer whose first 56 bytes end the zeros.
  abbrev finish : Sha256 → Option (Sha256 × List ℕ)
  finish s2 = do
    last ← memcpy s2.buffer 56 (swap64_bytes (u64 ((s2.cal_byte + s2.buffer_len) * 8))) 8
    let s3 = cal_sha256 (record s2 { buffer = last })
    some (record s3 { sha256 = swap_words s3.sha256 }, output (swap_words s3.sha256))

  finish_lem :
      (s2 : Sha256) (front_part : List ℕ) (count : ℕ) (m' buffer : List ℕ) (used : ℕ)
      → (held : Holds compress sha256_init m' s2.sha256 buffer used count) → length s2.buffer ≡ 64
      → take 56 s2.buffer ≡ held.rest ++ front_part
      → u64 ((s2.cal_byte + s2.buffer_len) * 8) ≡ length m * 8
      → m' ++ (front_part ++ swap64_bytes (length m * 8)) ≡ m ++ padding (length m)
      → Digests m (finish s2)
  unfolding cal_sha256
  finish_lem s2 front_part count m' buffer used held room front bits padded =
      let (out, runs, size, all_front) =
        memcpy_runs s2.buffer 56 (swap64_bytes (length m * 8)) 8 (omega (arith, room))
          (unfold swap64_bytes in omega arith) in
      let eight : take 8 (swap64_bytes (length m * 8)) ≡ swap64_bytes (length m * 8) =
        unfold swap64_bytes in refl in
      let all : out ≡ held.rest ++ (front_part ++ swap64_bytes (length m * 8)) =
        sym (take_all 64 out (omega (arith, size, room)))
        ∙ all_front
        ∙ ap (λ l. l ++ take 8 (swap64_bytes (length m * 8))) front
        ∙ ap (λ l. (held.rest ++ front_part) ++ l) eight
        ∙ append_assoc held.rest front_part (swap64_bytes (length m * 8)) in
      let final =
        Holds-filled compress held out (front_part ++ swap64_bytes (length m * 8)) (size ∙ room)
          all in
      let after : Sha256 = record s2 {
        buffer = out;
        cal_byte = u64 (s2.cal_byte + 64);
        sha256 = swap_words (compress s2.sha256 out);
      } in
      rw (bits, runs)
        (record {
          state = after;
          blocks = final.blocks;
          whole = final.whole;
          padded =
              sym (append-nil (flatten final.blocks))
              ∙ ap (λ l. flatten final.blocks ++ l) final.front
              ∙ sym final.message
              ∙ padded;
          returned = ap (λ c. some (after, output (swap_words c))) final.chained;
        })

  -- The length of the message in bits fits in eight bytes.
  module _ (small : length m * 8 < 2 ^ 64) where
    short_lem :
        (out : List ℕ)
        → length out ≡ 64
        → out ≡ rest ++ 0x80 ∷ zeros (63 - len)
        → len < 56
        → Digests m (finish (record s { buffer = out }))
    short_lem out size all few =
        finish_lem (record s { buffer = out }) (0x80 ∷ zeros (55 - len)) h.count m s.buffer len
          h.held size
          (ap (take 56) (all ∙ ap (λ k. rest ++ 0x80 ∷ zeros k) (omega (arith, few)))
            ∙ take-zeros rest (55 - len) 8 56 (omega (arith, rest_size, few)))
          (omega (arith, h.byte_count, small, size_of_message))
          (ap (λ k. m ++ 0x80 ∷ (zeros k ++ swap64_bytes (length m * 8)))
            (omega (arith, size_of_message, few)))

    long_lem :
        (out : List ℕ)
        → length out ≡ 64
        → out ≡ rest ++ 0x80 ∷ zeros (63 - len)
        → 56 ≤ len
        → Digests m (finish (extra_block (record s { buffer = out })))
    unfolding extra_block cal_sha256
    long_lem out size all many =
        let held = Holds-filled compress h.held out (0x80 ∷ zeros (63 - len)) size all in
        finish_lem (extra_block (record s { buffer = out })) (zeros 56) (h.count + 1) _ out 0 held
          (length-replicate {A = ℕ} 64 0) (ap (λ l. l ++ zeros 56) held.front)
          (omega (arith, h.byte_count, small, size_of_message, many, h.held.short))
          (zeros-join m (swap64_bytes (length m * 8)) (63 - len) 56 ((119 - length m % 64) % 64)
            (omega (arith, size_of_message, many, h.held.short)))

    calculate_lem : Digests m (calculate s)
    unfolding calculate
    calculate_lem =
        let (out, runs, size, all) = pad_buffer_lem in
        rw (runs) (elim (Bool-cases (leb 56 s.buffer_len)) [
          | inl many ↦ rw (many) (long_lem out size all (leb→le _ _ many))
          | inr few ↦ rw (few) (short_lem out size all (not-leb→lt _ _ few))
        ])

add_all_lem :
    (m : List ℕ) (pieces : List (List ℕ)) (s : Sha256)
    → AllShort (2 ^ 32) pieces
    → Absorbed m s
    → Adds (m ++ flatten pieces) (add_all add s pieces)
add_all_lem m [] s short h = record { state = s; returned = refl; absorbed = rw append-nil h }
add_all_lem m (p ∷ pieces) s (below, short) h =
    let first = sha256_add_lem s m p (length p) below (omega arith) h in
    let all : m ++ take (length p) p ≡ m ++ p =
      ap (λ l. m ++ l) (take_all (length p) p (omega arith)) in
    let next = add_all_lem (m ++ p) pieces first.state short (rw (all) at first.absorbed) in
    rw (first.returned) (rw append_assoc at next)

-- A fresh object to which the pieces of a message are added, one after the other, and which is then
-- asked for the result, returns the output of the chained blocks of the message with its padding,
-- for every way to cut a message of less than 2^61 bytes into pieces of less than 2^32 bytes. It
-- touches no memory out of range, and every loop ends.
pub sha256_pieces_lem :
    (pieces : List (List ℕ))
    → AllShort (2 ^ 32) pieces
    → length (flatten pieces) * 8 < 2 ^ 64
    → Digests (flatten pieces) (do s ← add_all add reset pieces; calculate s)
sha256_pieces_lem pieces short small =
    let added = add_all_lem [] pieces reset short reset-Absorbed in
    rw (added.returned) (calculate_lem (flatten pieces) added.state added.absorbed small)
