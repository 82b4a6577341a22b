-- ===== src/Hash/Md5/Digest.antt =====
-- src/hash.cpp, class MD5: `add` and `calculate` on messages.
use libnap.Base.{ℕ, ◌*◌, ◌<◌, ◌^◌, List, [], ◌∷◌, ◌++◌, Option, some, ◌≡◌}
use libnap.Base.{
  refl, ap, sym, ◌∙◌, arith, length, take, replicate, length-replicate, ◌>>=◌, flatten,
}
use libnap.Hash.Stream.{chain, chain_nil, AreBlocks}
use libnap.Base.{◌-◌, bit_and-mod, u32, ◌>>>◌, append_assoc, append-nil, take_all}
use libnap.Hash.Bytes.{list4}
use libnap.Hash.Common.{bytes64}
use libnap.Hash.Stream.{add_all}
use libnap.Base.{AllShort}
use libnap.Hash.Blocks.Add.{Absorbed, Adds, Exact, blocks_add_lem}
use libnap.Hash.Blocks.Digest.{zero_count, padding, pad_lem}
use libnap.Hash.Md5.{
  Md5, md5_init, compress, reset, length_bytes, dword2byte, output, calculate, add,
}

-- A fresh object has taken in nothing.
pub reset-Absorbed : Absorbed compress md5_init [] reset
unfolding reset
reset-Absorbed = record {
  count = 0;
  held = record {
    blocks = [];
    rest = [];
    message = refl;
    whole = tt;
    chained = sym (chain_nil compress md5_init);
    room = length-replicate {A = ℕ} 64 0;
    front = refl;
    short = omega arith;
    counted = refl;
  };
  counted = refl;
}

exact : Exact compress md5_init 32 64
exact sum below = omega (arith, below)

eight : (n : ℕ) → length (length_bytes n) ≡ 8
unfolding length_bytes dword2byte
eight n = refl

-- MD5 writes the length with the lowest byte first.
length_bytes_lem : (n : ℕ) → n < 2 ^ 64 → length_bytes n ≡ bytes64 n
unfolding length_bytes dword2byte
length_bytes_lem n h =
    list4 (omega (arith, bit_and-mod 8 (u32 n))) (omega (arith, bit_and-mod 8 (u32 n >>> 8)))
      (omega (arith, bit_and-mod 8 (u32 n >>> 16))) (omega (arith, bit_and-mod 8 (u32 n >>> 24)))
      (list4 (omega (arith, bit_and-mod 8 (n >>> 32)))
        (omega (arith, bit_and-mod 8 (n >>> 32 >>> 8)))
        (omega (arith, bit_and-mod 8 (n >>> 32 >>> 16)))
        (omega (arith, bit_and-mod 8 (n >>> 32 >>> 24))) refl)

-- `result` is the output of the chained blocks of the message with its padding.
pub record Digests (m : List ℕ) (result : Option (Md5 × List ℕ)) : Type 0 where
  pub state : Md5
  pub blocks : List (List ℕ)
  pub whole : AreBlocks blocks
  pub padded :
      flatten blocks ≡ m ++ 0x80 ∷ (replicate (zero_count (length m)) 0 ++ bytes64 (length m * 8))
  pub returned : result ≡ some (state, output (chain compress md5_init blocks))

pub calculate_lem :
    (m : List ℕ) (s : Md5)
    → length m < 2 ^ 38
    → Absorbed compress md5_init m s
    → Digests m (calculate s)
unfolding calculate padding
calculate_lem m s small h =
    let d = pad_lem compress md5_init 32 length_bytes eight exact m s small h in
    rw (d.returned) (record {
      state = d.state;
      blocks = d.blocks;
      whole = d.whole;
      padded =
          d.padded
          ∙ ap (λ l. m ++ 0x80 ∷ (replicate (zero_count (length m)) 0 ++ l))
              (length_bytes_lem (length m * 8) (omega (arith, small)));
      returned = ap (λ v. some (d.state, output v)) d.chained;
    })

add_all_lem :
    (m : List ℕ) (pieces : List (List ℕ)) (s : Md5)
    → AllShort (2 ^ 32 - 64) pieces
    → Absorbed compress md5_init m s
    → Adds compress md5_init (m ++ flatten pieces) (add_all add s pieces)
unfolding add
add_all_lem m [] s short h = record { state = s; returned = refl; absorbed = rw append-nil h }
add_all_lem m (p ∷ pieces) s (below, short) h =
    let first =
      blocks_add_lem compress md5_init 32 s m p (length p) (omega arith) (omega (arith, below))
        (λ sum small. omega (arith, small, below)) h in
    let all : m ++ take (length p) p ≡ m ++ p =
      ap (λ l. m ++ l) (take_all (length p) p (omega arith)) in
    let next = add_all_lem (m ++ p) pieces first.state short (rw (all) at first.absorbed) in
    rw (first.returned) (rw append_assoc at next)

-- A fresh object to which the pieces of a message are added, one after the other, and which is then
-- asked for the result, returns the output of the chained blocks of the message with its padding,
-- for every way to cut a message of less than 2^38 bytes into pieces of less than 2^32 - 64 bytes.
-- It touches no memory out of range, and every loop ends.
pub md5_pieces_lem :
    (pieces : List (List ℕ))
    → AllShort (2 ^ 32 - 64) pieces
    → length (flatten pieces) < 2 ^ 38
    → Digests (flatten pieces) (do s ← add_all add reset pieces; calculate s)
md5_pieces_lem pieces short small =
    let added = add_all_lem [] pieces reset short reset-Absorbed in
    rw (added.returned) (calculate_lem (flatten pieces) added.state small added.absorbed)
