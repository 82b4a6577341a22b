-- ===== src/Hash/Blocks/Digest.antt =====
-- The padding that `calculate` of MD5 and SHA1 (src/hash.cpp) takes in before the result is read.
use libnap.Base.{ℕ, suc, ◌+◌, ◌-◌, ◌*◌, ◌%◌, ◌<◌, ◌^◌, List, [], ◌∷◌, ◌++◌, Option, some, ◌≡◌}
use libnap.Base.{
  refl, ap, sym, ◌∙◌, arith, length, take, replicate, length-append, length-replicate,
}
use libnap.Base.{ltb, inl, inr, Bool-cases, ltb→lt, not-ltb→le, append_assoc, append-nil, flatten}
use libnap.Base.{◌==◌, ==_iff, not-==→ne, take_all, take-replicate}
use libnap.Hash.Stream.{chain, AreBlocks, length-rest, length-message}
use libnap.Hash.Blocks.{Blocks, padding_block, padding_size, bit_length, pad}
use libnap.Hash.Blocks.Add.{Absorbed, Exact, blocks_add_lem}

nothing : (l : List ℕ) → length l ≡ 0 → l ≡ []
nothing [] h = refl
nothing (x ∷ l) h = absurd (omega arith)

-- The zeros that follow the one bit of the padding.
abbrev pub zero_count : ℕ → ℕ
zero_count n = (119 - n % 64) % 64

padding_size_lem :
    (n count len : ℕ) → n ≡ count * 64 + len → len < 64 → padding_size len ≡ zero_count n + 1
unfolding padding_size
padding_size_lem n count len e short = elim (Bool-cases (ltb len 56)) [
  | inl few ↦ rw (few) (omega (arith, ltb→lt _ _ few, e))
  | inr many ↦ elim (Bool-cases (len == 56)) [
    | inl exact ↦ rw (many, exact) (omega (arith, (==_iff len 56).0 exact, e))
    | inr other ↦
        rw (many, other) (omega (arith, not-ltb→le _ _ many, not-==→ne len 56 other, e, short))
  ]
]

padding_front : (n : ℕ) → n < 64 → take (n + 1) padding_block ≡ 0x80 ∷ replicate n 0
padding_front n few =
    let e : n + 1 ≡ suc n = omega arith in
    ap (λ k. take k padding_block) e
    ∙ ap (λ l. 0x80 ∷ l) (take-replicate {A = ℕ} n 63 0 (omega (arith, few)))

module _ {C : Type 0} (compress : C → List ℕ → C) (start : C) (width : ℕ)
    (length_bytes : ℕ → List ℕ) where
  -- A one bit, zeros up to 56 bytes modulo 64, and the length in bits as eight bytes.
  unfoldable pub padding : ℕ → List ℕ
  padding n = 0x80 ∷ (replicate (zero_count n) 0 ++ length_bytes (n * 8))

  -- `result` is an object whose value is that of the blocks of the message `all`, chained.
  pub record Digests (all : List ℕ) (result : Option (Blocks C)) : Type 0 where
    pub state : Blocks C
    pub blocks : List (List ℕ)
    pub returned : result ≡ some state
    pub whole : AreBlocks blocks
    pub padded : flatten blocks ≡ all
    pub chained : state.value ≡ chain compress start blocks

  whole_message :
      (all : List ℕ) (s : Blocks C) (result : Option (Blocks C))
      → result ≡ some s
      → length all % 64 ≡ 0
      → Absorbed compress start all s
      → Digests all result
  whole_message all s result e even h =
      let none_left = nothing h.held.rest (
        omega (
          arith,
          length-rest compress h.held,
          length-message compress h.held,
          even,
          h.held.short,
        )) in
      record {
        state = s;
        blocks = h.held.blocks;
        returned = e;
        whole = h.held.whole;
        padded =
            sym (h.held.message ∙ ap (λ l. flatten h.held.blocks ++ l) none_left ∙ append-nil _);
        chained = h.held.chained;
      }

  padded_size :
      (m : List ℕ) (n : ℕ)
      → n ≡ length m
      → length (length_bytes (n * 8)) ≡ 8
      → length (m ++ padding n) % 64 ≡ 0
  unfolding padding
  padded_size m n e eight = omega (
    arith,
    e,
    eight,
    length-append m (0x80 ∷ (replicate (zero_count n) 0 ++ length_bytes (n * 8))),
    length-append (replicate {A = ℕ} (zero_count n) 0) (length_bytes (n * 8)),
    length-replicate {A = ℕ} (zero_count n) 0,
  )

  module _ (eight : (n : ℕ) → length (length_bytes n) ≡ 8)
      (exact : Exact compress start width 64) where
    pub pad_lem :
        (m : List ℕ) (s : Blocks C)
        → length m < 2 ^ 38
        → Absorbed compress start m s
        → Digests (m ++ padding (length m)) (pad compress width length_bytes s)
    unfolding pad padding
    pad_lem m s small h =
        let n = length m in
        let size = length-message compress h.held in
        let first_size = padding_size_lem n h.count s.buffer_len size h.held.short in
        let bits : bit_length s.round s.buffer_len ≡ n * 8 =
          unfold bit_length in omega (arith, h.counted, size, small) in
        let few : zero_count n < 64 = omega arith in
        let marked : take (zero_count n + 1) padding_block ≡ 0x80 ∷ replicate (zero_count n) 0 =
          padding_front (zero_count n) few in
        let first =
          blocks_add_lem compress start width s m padding_block (zero_count n + 1)
            (omega (arith, few, length-replicate {A = ℕ} 63 0)) (omega (arith, few))
            (λ sum below. exact sum (omega (arith, below, few))) h in
        let second =
          blocks_add_lem compress start width first.state
            (m ++ take (zero_count n + 1) padding_block) (length_bytes (n * 8)) 8
            (omega (arith, eight (n * 8))) (omega arith)
            (λ sum below. exact sum (omega (arith, below))) first.absorbed in
        let all : (m ++ take (zero_count n + 1) padding_block) ++ take 8 (length_bytes (n * 8))
            ≡ m ++ padding n =
          ap (λ l. (m ++ l) ++ take 8 (length_bytes (n * 8))) marked
          ∙ ap (λ l. (m ++ 0x80 ∷ replicate (zero_count n) 0) ++ l)
              (take_all 8 (length_bytes (n * 8)) (omega (arith, eight (n * 8))))
          ∙ append_assoc m (0x80 ∷ replicate (zero_count n) 0) (length_bytes (n * 8)) in
        let even : length (m ++ padding n) % 64 ≡ 0 = padded_size m n refl (eight (n * 8)) in
        rw (first_size, bits)
          (whole_message (m ++ padding n) second.state _ (rw (first.returned) second.returned) even
            (rw (all) at second.absorbed))
