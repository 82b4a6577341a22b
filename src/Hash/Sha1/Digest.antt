-- ===== src/Hash/Sha1/Digest.antt =====
-- src/hash.cpp, class SHA1: `add` and `calculate` on messages.
use libnap.Base.{ℕ, ◌*◌, ◌<◌, ◌^◌, List, [], ◌∷◌, ◌++◌, Option, some, ◌≡◌}
use libnap.Base.{
  refl, ap, sym, ◌∙◌, arith, length, take, replicate, length-replicate, ◌>>=◌, flatten,
}
use libnap.Hash.Stream.{chain, chain_nil, AreBlocks}
use libnap.Base.{bit_or-add, u32, ◌>>>◌, append_assoc, append-nil, take_all}
use libnap.Hash.Bytes.{list4, reverse32_lem}
use libnap.Hash.Common.{bytes64, high_first64, reverse32}
use libnap.Hash.Stream.{add_all}
use libnap.Base.{AllShort}
use libnap.Hash.Blocks.Add.{Absorbed, Adds, Exact, blocks_add_lem}
use libnap.Hash.Blocks.Digest.{zero_count, padding, pad_lem}
use libnap.Hash.Sha1.{
  Sha1, sha1_init, compress, reset, length_bytes, output, reversed, calculate, add,
}

-- A fresh object has taken in nothing.
pub reset-Absorbed : Absorbed compress sha1_init [] reset
unfolding reset
reset-Absorbed = record {
  count = 0;
  held = record {
    blocks = [];
    rest = [];
    message = refl;
    whole = tt;
    chained = sym (chain_nil compress sha1_init);
    room = length-replicate {A = ℕ} 64 0;
    front = refl;
    short = omega arith;
    counted = refl;
  };
  counted = refl;
}

exact : Exact compress sha1_init 64 64
exact sum below = omega (arith, below)

eight : (n : ℕ) → length (length_bytes n) ≡ 8
unfolding length_bytes
eight n = refl

-- SHA1 writes the length with the highest byte first.
length_bytes_lem : (n : ℕ) → n < 2 ^ 64 → length_bytes n ≡ high_first64 n
unfolding length_bytes
length_bytes_lem n h =
    let high = reverse32_lem (n >>> 32) in
    let low = reverse32_lem (u32 n) in
    let sum = bit_or-add 32 (reverse32 (u32 n)) (reverse32 (n >>> 32)) (omega (arith, high)) in
    ap bytes64 sum
    ∙ list4 (omega (arith, high)) (omega (arith, high)) (omega (arith, high)) (omega (arith, high))
        (list4 (omega (arith, high, low)) (omega (arith, high, low)) (omega (arith, high, low))
          (omega (arith, high, low)) refl)

-- `result` is the output of the chained blocks of the message with its padding.
pub record Digests (m : List ℕ) (result : Option (Sha1 × List ℕ)) : Type 0 where
  pub state : Sha1
  pub blocks : List (List ℕ)
  pub whole : AreBlocks blocks
  pub padded :
      flatten blocks
      ≡ m ++ 0x80 ∷ (replicate (zero_count (length m)) 0 ++ high_first64 (length m * 8))
  pub returned : result ≡ some (state, output (reversed (chain compress sha1_init blocks)))

pub calculate_lem :
    (m : List ℕ) (s : Sha1)
    → length m < 2 ^ 38
    → Absorbed compress sha1_init m s
    → Digests m (calculate s)
unfolding calculate padding
calculate_lem m s small h =
    let d = pad_lem compress sha1_init 64 length_bytes eight exact m s small h in
    rw (d.returned) (record {
      state = record d.state { value = reversed (chain compress sha1_init d.blocks) };
      blocks = d.blocks;
      whole = d.whole;
      padded =
          d.padded
          ∙ ap (λ l. m ++ 0x80 ∷ (replicate (zero_count (length m)) 0 ++ l))
              (length_bytes_lem (length m * 8) (omega (arith, small)));
      returned =
          ap (λ v. some (record d.state { value = reversed v }, output (reversed v))) d.chained;
    })

add_all_lem :
    (m : List ℕ) (pieces : List (List ℕ)) (s : Sha1)
    → AllShort (2 ^ 32) pieces
    → Absorbed compress sha1_init m s
    → Adds compress sha1_init (m ++ flatten pieces) (add_all add s pieces)
unfolding add
add_all_lem m [] s short h = record { state = s; returned = refl; absorbed = rw append-nil h }
add_all_lem m (p ∷ pieces) s (below, short) h =
    let first =
      blocks_add_lem compress sha1_init 64 s m p (length p) (omega arith) (omega (arith, below))
        (λ sum small. omega (arith, small, below)) h in
    let all : m ++ take (length p) p ≡ m ++ p =
      ap (λ l. m ++ l) (take_all (length p) p (omega arith)) in
    let next = add_all_lem (m ++ p) pieces first.state short (rw (all) at first.absorbed) in
    rw (first.returned) (rw append_assoc at next)

-- A fresh object to which the pieces of a message are added, one after the other, and which is then
-- asked for the result, returns the output of the chained blocks of the message with its padding,
-- for every way to cut a message of less than 2^38 bytes into pieces of less than 2^32 bytes. It
-- touches no memory out of range, and every loop ends.
pub sha1_pieces_lem :
    (pieces : List (List ℕ))
    → AllShort (2 ^ 32) pieces
    → length (flatten pieces) < 2 ^ 38
    → Digests (flatten pieces) (do s ← add_all add reset pieces; calculate s)
sha1_pieces_lem pieces short small =
    let added = add_all_lem [] pieces reset short reset-Absorbed in
    rw (added.returned) (calculate_lem (flatten pieces) added.state small added.absorbed)
