-- ===== src/Aes/Gcm/Hash.antt =====
-- src/aes.cpp, GCM: `ghash` of a text is the rounds over its blocks, the last filled with zeros.
use libnap.Base.{
  ℕ, zero, suc, ◌+◌, ◌-◌, ◌*◌, ◌/◌, ◌<◌, List, ◌++◌, inl, inr, ◌≡◌, refl, sym, ap, ◌∙◌, arith, ◌==◌,
  Bool-cases, ==_iff, not-==→ne, ne→not-==, false,
}
use libnap.Base.{
  take, drop, length, length-eq_zero, take_all, take-append_le, drop-append_le, length-append,
  length-take, length-drop, length-replicate, take-append-drop, replicate, append_assoc, append-nil,
}
use libnap.Aes.Modes.Counter.{blocks_for}
use libnap.Aes.Gcm.{ghash_block, ghash_loop, ghash}
use libnap.Aes.Gcm.Blocks.{ghash_whole}

-- The text with zeros up to a whole block.
abbrev pub padded : List ℕ → List ℕ
padded l = l ++ replicate (blocks_for (length l) * 16 - length l) 0

pub length-padded : (l : List ℕ) → length (padded l) ≡ blocks_for (length l) * 16
length-padded l = omega (
  arith,
  length-append l (replicate (blocks_for (length l) * 16 - length l) 0),
  length-replicate {A = ℕ} (blocks_for (length l) * 16 - length l) 0,
)

-- Front and rest of a text.
pub padded-append : (a b : List ℕ) (n : ℕ) → length a ≡ n * 16 → padded (a ++ b) ≡ a ++ padded b
padded-append a b n size =
    let missing : blocks_for (length (a ++ b)) * 16 - length (a ++ b)
        ≡ blocks_for (length b) * 16 - length b =
      omega (arith, length-append a b, size) in
    rw missing (append_assoc a b _)

pub padded-short :
    (b : List ℕ) → 0 < length b → length b < 16 → padded b ≡ b ++ replicate (16 - length b) 0
padded-short b h k =
    let missing : blocks_for (length b) * 16 - length b ≡ 16 - length b = omega (arith, h, k) in
    rw missing refl

module _ (h : List ℕ) where
  pub ghash_loop-append :
      (n k : ℕ) (s a b : List ℕ)
      → length a ≡ n * 16
      → ghash_loop h (n + k) s (a ++ b) ≡ ghash_loop h k (ghash_loop h n s a) b
  unfolding ghash_loop
  ghash_loop-append zero k s a b size =
      let none_left = length-eq_zero a (omega (arith, size)) in
      let rounds : 0 + k ≡ k = omega arith in rw (none_left, rounds) refl
  ghash_loop-append (suc n) k s a b size =
      let rounds : suc n + k ≡ suc (n + k) = omega arith in
      let next : ghash_loop h (suc (n + k)) s (a ++ b)
          ≡ ghash_loop h (n + k) (ghash_block h s (take 16 (a ++ b))) (drop 16 (a ++ b)) =
        refl in
      let front = take-append_le 16 a b (omega (arith, size)) in
      let rest = drop-append_le 16 a b (omega (arith, size)) in
      ap (λ t. ghash_loop h t s (a ++ b)) rounds
      ∙ next
      ∙ ap (λ t. ghash_loop h (n + k) (ghash_block h s t) (drop 16 (a ++ b))) front
      ∙ ap (ghash_loop h (n + k) (ghash_block h s (take 16 a))) rest
      ∙ ghash_loop-append n k (ghash_block h s (take 16 a)) (drop 16 a) b
          (omega (arith, size, length-drop 16 a))

  -- The loop reads no byte behind its blocks.
  pub ghash_loop_front :
      (n : ℕ) (s a b : List ℕ) → length a ≡ n * 16 → ghash_loop h n s (a ++ b) ≡ ghash_loop h n s a
  unfolding ghash_loop
  ghash_loop_front n s a b size =
      let none : n ≡ n + 0 = omega arith in
      ap (λ t. ghash_loop h t s (a ++ b)) none ∙ ghash_loop-append n 0 s a b size

  pub ghash_loop-one : (s b : List ℕ) → length b ≡ 16 → ghash_loop h 1 s b ≡ ghash_block h s b
  unfolding ghash_loop
  ghash_loop-one s b size = rw (take_all 16 b (omega (arith, size))) refl

  -- Blocks and a last one that is filled with zeros.
  pub ghash_loop-padded :
      (n : ℕ) (s a b : List ℕ)
      → length a ≡ n * 16
      → 0 < length b
      → length b < 16
      → ghash_block h (ghash_loop h n s a) (b ++ replicate (16 - length b) 0)
        ≡ ghash_loop h (blocks_for (length (a ++ b))) s (padded (a ++ b))
  ghash_loop-padded n s a b size some_left short =
      let count : blocks_for (length (a ++ b)) ≡ n + 1 =
        omega (arith, length-append a b, size, some_left, short) in
      let last : padded b ≡ b ++ replicate (16 - length b) 0 = padded-short b some_left short in
      let one : length (padded b) ≡ 16 = omega (arith, length-padded b, some_left, short) in
      let whole = ghash_loop-append n 1 s a (padded b) size in
      ap (ghash_block h (ghash_loop h n s a)) (sym last)
      ∙ sym (ghash_loop-one (ghash_loop h n s a) (padded b) one)
      ∙ sym whole
      ∙ ap (λ t. ghash_loop h t s (a ++ padded b)) (sym count)
      ∙ ap (ghash_loop h (blocks_for (length (a ++ b))) s) (sym (padded-append a b n size))

  -- Less than a block, of which `x` has more bytes behind.
  pub ghash_short :
      (s x : List ℕ) (len : ℕ)
      → 0 < len
      → len < 16
      → ghash h s x len ≡ ghash_block h s (take len x ++ replicate (16 - len) 0)
  unfolding ghash ghash_loop
  ghash_short s x len some_left short =
      let none : len / 16 ≡ 0 = omega (arith, short) in
      let all : len - 0 ≡ len = omega arith in
      let filled : (len == 0) ≡ false = ne→not-== len 0 (omega (arith, some_left)) in
      rw (none, all, filled) refl

  last_block :
      (s x : List ℕ)
      → (length x - length x / 16 * 16 == 0) ≡ false
      → let n = length x / 16 in
        let len = length x - n * 16 in
        ghash h s x (length x)
        ≡ ghash_block h (ghash_loop h n s x) (take len (drop (n * 16) x) ++ replicate (16 - len) 0)
  unfolding ghash
  last_block s x part = rw part refl

  -- The loop and the part behind it, as one loop.
  pub ghash_padded :
      (s x : List ℕ) → ghash h s x (length x) ≡ ghash_loop h (blocks_for (length x)) s (padded x)
  ghash_padded s x = elim (Bool-cases (length x - length x / 16 * 16 == 0)) [
    | inl whole ↦
        let n = length x / 16 in
        let none_left : length x - n * 16 ≡ 0 = (==_iff _ _).0 whole in
        let size : length x ≡ n * 16 = omega (arith, none_left) in
        let count : blocks_for (length x) ≡ n = omega (arith, size) in
        let missing : blocks_for (length x) * 16 - length x ≡ 0 = omega (arith, count, size) in
        ap (ghash h s x) size ∙ ghash_whole h s x n ∙ rw (missing, count, append-nil x) refl
    | inr part ↦
        let n = length x / 16 in
        let front = take (n * 16) x in
        let rest = drop (n * 16) x in
        let len = length x - n * 16 in
        let parts = take-append-drop (n * 16) x in
        let size : length front ≡ n * 16 = omega (arith, length-take (n * 16) x) in
        let left : length rest ≡ len = length-drop (n * 16) x in
        let some_left = not-==→ne _ _ part in
        let all : take len rest ≡ rest = take_all len rest (omega (arith, left)) in
        let begun : ghash_loop h n s x ≡ ghash_loop h n s front =
          ap (ghash_loop h n s) (sym parts) ∙ ghash_loop_front n s front rest size in
        let ended =
          ghash_loop-padded n s front rest size (omega (arith, left, some_left))
            (omega (arith, left)) in
        last_block s x part
        ∙ ap (λ t. ghash_block h t (take len rest ++ replicate (16 - len) 0)) begun
        ∙ ap (λ t. ghash_block h (ghash_loop h n s front) (t ++ replicate (16 - len) 0)) all
        ∙ ap (λ k. ghash_block h (ghash_loop h n s front) (rest ++ replicate (16 - k) 0)) (sym left)
        ∙ ended
        ∙ ap (λ t. ghash_loop h (blocks_for (length t)) s (padded t)) parts
  ]
