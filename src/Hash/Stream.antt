-- ===== src/Hash/Stream.antt =====
-- The message that an object of src/hash.cpp has taken in: whole blocks of 64 bytes, compressed in
-- order, and a rest at the front of the buffer. The classes differ in the compression alone.
use libnap.Base.{ℕ, ◌+◌, ◌*◌, ◌≤◌, ◌<◌, List, [], ◌∷◌, ◌++◌, Option, some, ◌≡◌}
use libnap.Base.{refl, ap, sym, ◌∙◌, arith, length, take, flatten, memcpy, memcpy_runs}
use libnap.Base.{◌>>=◌, append_assoc, append-nil, length-append, length-take, take_all}

-- Every part has the length of a block.
abbrev pub AreBlocks : List (List ℕ) → Type 0
AreBlocks [] = Unit
AreBlocks (b ∷ bs) = (length b ≡ 64) × AreBlocks bs

AreBlocks-snoc :
    (bs : List (List ℕ)) (b : List ℕ) → AreBlocks bs → length b ≡ 64 → AreBlocks (bs ++ b ∷ [])
AreBlocks-snoc [] b h e = (e, tt)
AreBlocks-snoc (c ∷ bs) b (hc, h) e = (hc, AreBlocks-snoc bs b h e)

flatten-snoc : (bs : List (List ℕ)) (b : List ℕ) → flatten (bs ++ b ∷ []) ≡ flatten bs ++ b
flatten-snoc [] b = append-nil b
flatten-snoc (c ∷ bs) b = ap (λ r. c ++ r) (flatten-snoc bs b) ∙ sym (append_assoc c (flatten bs) b)

pub length-flatten : (bs : List (List ℕ)) → AreBlocks bs → length (flatten bs) ≡ length bs * 64
length-flatten [] h = refl
length-flatten (b ∷ bs) (e, h) = omega (arith, length-append b (flatten bs), length-flatten bs h, e)

module _ {C : Type 0} (compress : C → List ℕ → C) where
  pub chain : C → List (List ℕ) → C
  chain c [] = c
  chain c (b ∷ bs) = chain (compress c b) bs

  pub chain_nil : (c : C) → chain c [] ≡ c
  unfolding chain
  chain_nil c = refl

  chain-snoc :
      (c : C) (bs : List (List ℕ)) (b : List ℕ) → chain c (bs ++ b ∷ []) ≡ compress (chain c bs) b
  unfolding chain
  chain-snoc c [] b = refl
  chain-snoc c (a ∷ bs) b = chain-snoc (compress c a) bs b

  pub record Holds (start : C) (m : List ℕ) (value : C) (buffer : List ℕ) (len count : ℕ)
      : Type 0 where
    pub blocks : List (List ℕ)
    pub rest : List ℕ
    pub message : m ≡ flatten blocks ++ rest
    pub whole : AreBlocks blocks
    pub chained : value ≡ chain start blocks
    pub room : length buffer ≡ 64
    pub front : take len buffer ≡ rest
    pub short : len < 64
    pub counted : count ≡ length blocks

  module _ {start : C} {m : List ℕ} {value : C} {buffer : List ℕ} {len count : ℕ}
      (h : Holds start m value buffer len count) where
    pub length-rest : length h.rest ≡ len
    length-rest = omega (arith, ap length h.front, length-take len buffer, h.room, h.short)

    pub length-message : length m ≡ count * 64 + len
    length-message = omega (
      arith,
      ap length h.message,
      length-append (flatten h.blocks) h.rest,
      length-flatten h.blocks h.whole,
      length-rest,
      ap (λ (t : ℕ). t * 64) h.counted,
    )

    -- Bytes that do not fill the buffer.
    pub Holds-part :
        (bytes : List ℕ) (n : ℕ)
        → n ≤ length bytes
        → len + n < 64
        → (out : List ℕ) × (memcpy buffer len bytes n ≡ some out)
          × Holds start (m ++ take n bytes) value out (len + n) count
    Holds-part bytes n readable fits =
        let (out, runs, size, front) =
          memcpy_runs buffer len bytes n (omega (arith, h.room)) readable in
        (
          out,
          runs,
          record {
            blocks = h.blocks;
            rest = h.rest ++ take n bytes;
            message =
                ap (λ l. l ++ take n bytes) h.message
                ∙ append_assoc (flatten h.blocks) h.rest (take n bytes);
            whole = h.whole;
            chained = h.chained;
            room = size ∙ h.room;
            front = front ∙ ap (λ l. l ++ take n bytes) h.front;
            short = fits;
            counted = h.counted;
          },
        )

    -- The buffer filled up by the bytes `xs`, and compressed.
    pub Holds-filled :
        (out xs : List ℕ)
        → length out ≡ 64
        → out ≡ h.rest ++ xs
        → Holds start (m ++ xs) (compress value out) out 0 (count + 1)
    Holds-filled out xs size all = record {
      blocks = h.blocks ++ out ∷ [];
      rest = [];
      message =
          ap (λ l. l ++ xs) h.message
          ∙ append_assoc (flatten h.blocks) h.rest xs
          ∙ ap (λ l. flatten h.blocks ++ l) (sym all)
          ∙ sym (flatten-snoc h.blocks out)
          ∙ sym (append-nil (flatten (h.blocks ++ out ∷ [])));
      whole = AreBlocks-snoc h.blocks out h.whole size;
      chained = ap (λ c. compress c out) h.chained ∙ sym (chain-snoc start h.blocks out);
      room = size;
      front = refl;
      short = omega arith;
      counted = omega (arith, h.counted, length-append h.blocks (out ∷ []));
    }

    -- Bytes that fill the buffer are copied behind the rest.
    pub Holds-block :
        (bytes : List ℕ) (need : ℕ)
        → need ≤ length bytes
        → len + need ≡ 64
        → (out : List ℕ) × (memcpy buffer len bytes need ≡ some out)
          × Holds start (m ++ take need bytes) (compress value out) out 0 (count + 1)
    Holds-block bytes need readable fills =
        let (out, runs, size, front) =
          memcpy_runs buffer len bytes need (omega (arith, h.room)) readable in
        let all : out ≡ h.rest ++ take need bytes =
          sym (take_all (len + need) out (omega (arith, size, h.room)))
          ∙ front
          ∙ ap (λ l. l ++ take need bytes) h.front in
        (out, runs, Holds-filled out (take need bytes) (size ∙ h.room) all)

    -- Any buffer will do when none of it is in use.
    pub Holds-fresh :
        (out : List ℕ) → length out ≡ 64 → h.rest ≡ [] → Holds start m value out 0 count
    Holds-fresh out size none_left = record {
      blocks = h.blocks;
      rest = [];
      message = h.message ∙ ap (λ l. flatten h.blocks ++ l) none_left;
      whole = h.whole;
      chained = h.chained;
      room = size;
      front = refl;
      short = omega arith;
      counted = h.counted;
    }

-- Pieces that are added one after the other.
module _ {S : Type 0} (add : S → List ℕ → ℕ → Option S) where
  abbrev pub add_all : S → List (List ℕ) → Option S
  add_all s [] = some s
  add_all s (p ∷ ps) = do s' ← add s p (length p); add_all s' ps
