-- ===== src/Aes/Modes/Split.antt =====
-- src/aes.cpp, `AesCBCDecryption::handle` on a block that comes in two pieces.
use libnap.Base.{
  Bool, ℕ, ◌+◌, ◌-◌, ◌^◌, ◌<◌, List, [], ◌∷◌, ◌++◌, Option, some, true, false, ◌≡◌, refl, sym, ap,
  ◌∙◌, arith,
}
use libnap.Base.{
  take, drop, length, length-append, length-replicate, replicate, u32, lt→ltb, le→not-ltb,
  ne→not-==, memcpy_runs, take_self, take_all,
}
use libnap.Aes.Key.{AesKey}
use libnap.Aes.Bytes.{decrypt_bytes, xor_bytes}
use libnap.Aes.Stream.{Buffer, handle_blocks, start, add, add_whole}
use libnap.Aes.Stream.Pieces.{add_pieces}
use libnap.Aes.Modes.Rounds.{length-xor_bytes, decrypted_size}
use libnap.Aes.Modes.{always_ready, Ivs, of_iv, cbc_decrypt}
use libnap.Aes.Modes.Finish.{handle_one}

-- What the object has after the pieces.
pub record Taken (iv result : List ℕ) (s : Option (Buffer Ivs)) : Type 0 where
  pub state : Buffer Ivs
  pub returned : s ≡ some state
  pub plain : state.result ≡ result
  pub next_iv : state.mode.iv ≡ iv

module _ (key : AesKey) (iv : List ℕ) where
  cbc_sized : (in_place : Bool) (b : List ℕ) → length (cbc_decrypt key in_place (of_iv iv) b).1 ≡ 16
  unfolding cbc_decrypt
  cbc_sized in_place b = length-xor_bytes (decrypt_bytes key b) (of_iv iv).iv ∙ decrypted_size key b

  whole_block :
      (block : List ℕ)
      → length block ≡ 16
      → Taken block (xor_bytes (decrypt_bytes key block) iv) (
          add_pieces (handle_blocks always_ready (cbc_decrypt key)) (start (of_iv iv)) (block ∷ []))
  unfolding add_pieces add add_whole start of_iv cbc_decrypt
  whole_block block size =
      let one =
        handle_one (cbc_decrypt key) (of_iv iv) false block (replicate 16 0) size refl
          (cbc_sized false block) in
      rw (size, one) (record { state = _; returned = refl; plain = refl; next_iv = refl })

  two_parts :
      (a b : List ℕ)
      → length a + length b ≡ 16
      → 0 < length a
      → 0 < length b
      → let plain = xor_bytes (decrypt_bytes key (a ++ b)) iv in
        Taken plain plain (
          add_pieces (handle_blocks always_ready (cbc_decrypt key)) (start (of_iv iv)) (a ∷ b ∷ []))
  unfolding add_pieces add add_whole start of_iv cbc_decrypt
  two_parts a b size some_a some_b =
      let room = length-replicate {A = ℕ} 16 0 in
      let (first, kept, len, front) =
        memcpy_runs (replicate 16 0) 0 a (length a) (omega (arith, room, size)) (omega arith) in
      let (full, filled, len', front') =
        memcpy_runs first (length a) b (length b) (omega (arith, len, room, size)) (omega arith) in
      let held : take (length a) first ≡ a =
        ap (λ n. take n first) (omega arith) ∙ front ∙ take_self a in
      let whole : full ≡ a ++ b =
        sym (take_all (length a + length b) full (omega (arith, len', len, room, size)))
        ∙ front'
        ∙ ap (λ l. l ++ take (length b) b) held
        ∙ ap (λ l. a ++ l) (take_self b) in
      let few = lt→ltb (length a) 16 (omega (arith, size, some_b)) in
      let some_left = ne→not-== (length a) 0 (omega (arith, some_a)) in
      let many = le→not-ltb (length a + length b) 16 (omega (arith, size)) in
      let need : u32 (16 + 2 ^ 32 - length a) ≡ length b = omega (arith, size) in
      let rest : length b - length b ≡ 0 = omega arith in
      let one =
        handle_one (cbc_decrypt key) (of_iv iv) true (a ++ b) (a ++ b)
          (omega (arith, length-append a b, size)) (omega (arith, length-append a b, size))
          (cbc_sized true (a ++ b)) in
      let plain = (cbc_decrypt key true (of_iv iv) (a ++ b)).1 in
      let (same, nothing, len'', front'') =
        memcpy_runs plain 0 (drop (length b) b) 0 (omega arith) (omega arith) in
      rw (few, kept, some_left, many, need, filled, whole, one, rest, nothing)
        (record { state = _; returned = refl; plain = refl; next_iv = refl })

  -- Where a block comes in two pieces, neither of them empty, AesCBCDecryption puts out the same
  -- bytes as where it comes in one. But in one piece it keeps the block itself for the next one,
  -- as the mode asks, and in two pieces it keeps the bytes that it has put out.
  pub cbc_split_lem :
      (a b : List ℕ)
      → length a + length b ≡ 16
      → 0 < length a
      → 0 < length b
      → let handle = handle_blocks always_ready (cbc_decrypt key) in
        let plain = xor_bytes (decrypt_bytes key (a ++ b)) iv in
        Taken (a ++ b) plain (add_pieces handle (start (of_iv iv)) ((a ++ b) ∷ []))
        × Taken plain plain (add_pieces handle (start (of_iv iv)) (a ∷ b ∷ []))
  cbc_split_lem a b size some_a some_b = (
    whole_block (a ++ b) (omega (arith, length-append a b, size)),
    two_parts a b size some_a some_b,
  )
