-- ===== src/Aes/Modes/Chain.antt =====
-- src/aes.cpp: the loops over blocks of two modes, one of which undoes the other.
use libnap.Base.{ℕ, zero, suc, ◌*◌, List, ◌≡◌, refl, sym, ap, arith}
use libnap.Base.{
  take, drop, length, IsBytes, take-IsBytes, drop-IsBytes, append-IsBytes, length-take, length-drop,
  length-append,
}
use libnap.Base.{take-append, drop-append, take-append-drop, length-eq_zero}
use Prim.{tt}
use libnap.Aes.Stream.{each_block}
use libnap.Aes.Modes.Cipher.{IsBlock}

-- One round of `step` and of `back`, which stay in step.
pub record Undoes {S : Type 0} (Ok : S → Type 0) (step back : S → List ℕ → S × List ℕ) (m : S)
    (b : List ℕ) : Type 0 where
  pub undone : back m (step m b).1 ≡ ((step m b).0, b)
  pub ok : Ok (step m b).0
  pub block : IsBlock (step m b).1

-- The same of the loops.
pub record UndoesAll {S : Type 0} (step back : S → List ℕ → S × List ℕ) (n : ℕ) (m : S) (l : List ℕ)
    : Type 0 where
  pub undone : each_block back n m (each_block step n m l).1 ≡ ((each_block step n m l).0, l)
  pub size : length (each_block step n m l).1 ≡ n * 16
  pub are_bytes : IsBytes (each_block step n m l).1

module _ {S : Type 0} {Ok : S → Type 0} (step back : S → List ℕ → S × List ℕ)
    (each : (m : S) (b : List ℕ) → Ok m → IsBlock b → Undoes Ok step back m b) where
  pub chain_lem :
      (n : ℕ) (m : S) (l : List ℕ)
      → Ok m
      → length l ≡ n * 16
      → IsBytes l
      → UndoesAll step back n m l
  unfolding each_block
  chain_lem zero m l ok size are_bytes =
      rw (length-eq_zero l (omega (arith, size)))
        (record { undone = refl; size = refl; are_bytes = tt })
  chain_lem (suc n) m l ok size are_bytes =
      let block : IsBlock (take 16 l) = record {
        size = omega (arith, length-take 16 l, size);
        are_bytes = take-IsBytes 16 l are_bytes;
      } in
      let first = each m (take 16 l) ok block in
      let out = (step m (take 16 l)).1 in
      let rest =
        chain_lem n (step m (take 16 l)).0 (drop 16 l) first.ok
          (omega (arith, length-drop 16 l, size)) (drop-IsBytes 16 l are_bytes) in
      let more = (each_block step n (step m (take 16 l)).0 (drop 16 l)).1 in
      record {
        undone =
            rw
              (
                take-append 16 out more (sym first.block.size),
                drop-append 16 out more (sym first.block.size),
                first.undone,
                rest.undone,
              )
              (ap (λ k. ((each_block step n (step m (take 16 l)).0 (drop 16 l)).0, k))
                (take-append-drop 16 l));
        size = omega (arith, length-append out more, first.block.size, rest.size);
        are_bytes = append-IsBytes out more first.block.are_bytes rest.are_bytes;
      }
