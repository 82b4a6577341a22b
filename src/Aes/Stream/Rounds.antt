-- ===== src/Aes/Stream/Rounds.antt =====
-- src/aes.h and src/aes.cpp: the loop over blocks that the modes of AES have in common.
use libnap.Base.{ℕ, zero, suc, ◌+◌, ◌*◌, ◌≤◌, List, ◌++◌}
use libnap.Base.{◌≡◌, refl, arith, take, drop, length}
use libnap.Base.{append_assoc, append-nil, length-drop, take-append_le}
use libnap.Base.{take_all}
use libnap.Base.{drop-append_le, length-eq_zero}
use libnap.Base.{
  memcpy, memcpy_lem, drop-drop, drop-append, take-append, take-append-drop, length-append,
  length-take, sym, ap, ◌∙◌, some, Bool, true, ◌^◌, u32,
}
use libnap.Aes.Stream.{each_block, block_loop}

module _ {S : Type 0} (step : S → List ℕ → S × List ℕ) where
  -- The loop reads no byte behind its blocks.
  pub each_block-append :
      (n : ℕ) (m : S) (front junk : List ℕ)
      → n * 16 ≤ length front
      → each_block step n m (front ++ junk) ≡ each_block step n m front
  unfolding each_block
  each_block-append zero m front junk size = refl
  each_block-append (suc n) m front junk size =
      rw
        (
          take-append_le 16 front junk (omega (arith, size)),
          drop-append_le 16 front junk (omega (arith, size)),
          each_block-append n (step m (take 16 front)).0 (drop 16 front) junk
              (omega (arith, size, length-drop 16 front)),
        )
        refl

  -- Blocks handled one part after the other.
  pub each_block_join :
      (n k : ℕ) (m : S) (a b : List ℕ)
      → length a ≡ n * 16
      → let first = each_block step n m a in
        let more = each_block step k first.0 b in
        each_block step (n + k) m (a ++ b) ≡ (more.0, first.1 ++ more.1)
  unfolding each_block
  each_block_join zero k m a b size =
      let none_left = length-eq_zero a (omega (arith, size)) in
      let rounds : 0 + k ≡ k = omega arith in rw (none_left, rounds) refl
  each_block_join (suc n) k m a b size =
      let rounds : suc n + k ≡ suc (n + k) = omega arith in
      rw
        (
          rounds,
          take-append_le 16 a b (omega (arith, size)),
          drop-append_le 16 a b (omega (arith, size)),
          each_block_join n k (step m (take 16 a)).0 (drop 16 a) b
              (omega (arith, size, length-drop 16 a)),
        )
        (rw append_assoc refl)

  pub each_block_one : (m : S) (b : List ℕ) → length b ≡ 16 → each_block step 1 m b ≡ step m b
  unfolding each_block
  each_block_one m b size = rw (take_all 16 b (omega (arith, size)), append-nil (step m b).1) refl

-- A block written behind a part that is already written.
write_next :
    (p hole b : List ℕ) (at : ℕ)
    → at ≡ length p
    → length b ≡ 16
    → 16 ≤ length hole
    → memcpy (p ++ hole) at b 16 ≡ some ((p ++ b) ++ drop 16 hole)
write_next p hole b at e size room =
    let all = length-append p hole in
    let front : take at (p ++ hole) ≡ p = take-append at p hole e in
    let parts = take-append-drop 16 hole in
    let first : length (p ++ take 16 hole) ≡ at + 16 =
      omega (arith, length-append p (take 16 hole), length-take 16 hole, e, room) in
    let back : drop (at + 16) (p ++ hole) ≡ drop 16 hole =
      ap (λ l. drop (at + 16) (p ++ l)) (sym parts)
      ∙ ap (drop (at + 16)) (sym (append_assoc p (take 16 hole) (drop 16 hole)))
      ∙ drop-append (at + 16) (p ++ take 16 hole) (drop 16 hole) (sym first) in
    memcpy_lem (p ++ hole) at b 16 (omega (arith, all, e, room)) (omega (arith, size))
    ∙ rw (front, back, take_all 16 b (omega (arith, size)))
        (ap some (sym (append_assoc p b (drop 16 hole))))

module _ {S : Type 0} (Ok : S → Type 0) (ready : S → Bool) (step : S → List ℕ → S × List ℕ)
    (readable : (m : S) → Ok m → ready m ≡ true)
    (keeps : (m : S) (b : List ℕ) → length b ≡ 16 → Ok m → Ok (step m b).0)
    (sized : (m : S) (b : List ℕ) → length b ≡ 16 → length (step m b).1 ≡ 16) where
  -- The loop with offsets, while these do not wrap around.
  pub block_loop_lem :
      (n i : ℕ) (m : S) (buf done hole : List ℕ)
      → Ok m
      → (i + n) * 16 ≤ length buf
      → (i + n) * 16 ≤ 2 ^ 32
      → length done ≡ i * 16
      → length hole ≡ n * 16
      → let r = each_block step n m (drop (i * 16) buf) in
        block_loop ready step n i m buf (done ++ hole) ≡ some (r.0, done ++ r.1)
  unfolding block_loop each_block
  block_loop_lem zero i m buf done hole ok enough bound size room =
      rw (length-eq_zero hole (omega (arith, room))) refl
  block_loop_lem (suc n) i m buf done hole ok enough bound size room =
      let rest = drop (i * 16) buf in
      let offset : u32 (i * 16) ≡ i * 16 = omega (arith, bound) in
      let block : length (take 16 rest) ≡ 16 =
        omega (arith, length-take 16 rest, length-drop (i * 16) buf, enough) in
      let r = step m (take 16 rest) in
      let out = sized m (take 16 rest) block in
      let written = write_next done hole r.1 (i * 16) (sym size) out (omega (arith, room)) in
      let next : drop 16 rest ≡ drop ((i + 1) * 16) buf =
        drop-drop buf (i * 16) 16 ∙ ap (λ k. drop k buf) (omega arith) in
      let more =
        block_loop_lem n (i + 1) r.0 buf (done ++ r.1) (drop 16 hole)
          (keeps m (take 16 rest) block ok) (omega (arith, enough)) (omega (arith, bound))
          (omega (arith, length-append done r.1, size, out))
          (omega (arith, length-drop 16 hole, room)) in
      rw (readable m ok, offset, written, next, more)
        (ap (λ l. some ((each_block step n r.0 (drop ((i + 1) * 16) buf)).0, l))
          (append_assoc done r.1 _))
