-- ===== src/Hash/Sha256/Add.antt =====
-- src/hash.cpp, `SHA256::add`, on a message that comes in pieces.
use libnap.Base.{ℕ, zero, suc, ◌+◌, ◌-◌, ◌*◌, ◌≤◌, ◌<◌, ◌^◌, List, [], ◌++◌, Option, some, ◌≡◌}
use libnap.Base.{refl, ap, sym, ◌∙◌, arith, length, take, drop, length-drop, length-replicate}
use libnap.Base.{u32, u64, leb, inl, inr, Bool-cases, leb→le, not-leb→lt}
use libnap.Base.{ne→not-==, append_assoc, append-nil, take-drop-append}
use libnap.Hash.Stream.{chain_nil, Holds, Holds-part, Holds-block}
use libnap.Hash.Sha256.{Sha256, sha256_init, compress, cal_sha256, full_block, reset, add_loop, add}

-- The object has taken in the message `m`.
pub record Absorbed (m : List ℕ) (s : Sha256) : Type 0 where
  pub count : ℕ
  pub held : Holds compress sha256_init m s.sha256 s.buffer s.buffer_len count
  pub byte_count : s.cal_byte ≡ u64 (count * 64)

pub record Adds (m : List ℕ) (result : Option Sha256) : Type 0 where
  pub state : Sha256
  pub returned : result ≡ some state
  pub absorbed : Absorbed m state

Adds-eq : {m m' : List ℕ} {r : Option Sha256} → Adds m r → m ≡ m' → Adds m' r
Adds-eq {r} a e = rw e at a

-- A fresh object has taken in nothing.
pub reset-Absorbed : Absorbed [] reset
unfolding reset
reset-Absorbed = record {
  count = 0;
  held = record {
    blocks = [];
    rest = [];
    message = refl;
    whole = tt;
    chained = sym (chain_nil compress sha256_init);
    room = length-replicate {A = ℕ} 64 0;
    front = refl;
    short = omega arith;
    counted = refl;
  };
  byte_count = refl;
}

full_block-Absorbed :
    (s : Sha256) (out m : List ℕ) (count : ℕ)
    → Holds compress sha256_init m (compress s.sha256 out) out 0 (count + 1)
    → s.cal_byte ≡ u64 (count * 64)
    → Absorbed m (full_block (record s { buffer = out }))
unfolding full_block cal_sha256
full_block-Absorbed s out m count held bytes = record {
  count = count + 1;
  held = held;
  byte_count = omega (arith, bytes);
}

add_loop_lem :
    (fuel : ℕ) (s : Sha256) (m bytes : List ℕ) (len : ℕ)
    → len < fuel
    → len ≤ length bytes
    → Absorbed m s
    → Adds (m ++ take len bytes) (add_loop fuel s bytes len)
unfolding add_loop
add_loop_lem zero s m bytes len enough readable h = absurd (omega arith)
add_loop_lem (suc fuel) s m bytes zero enough readable h = record {
  state = s;
  returned = refl;
  absorbed = rw append-nil h;
}
add_loop_lem (suc fuel) s m bytes (suc n) enough readable h =
    let len = suc n in
    let need : u32 (64 + 2 ^ 32 - s.buffer_len) ≡ 64 - s.buffer_len = omega (arith, h.held.short) in
    let nonempty = ne→not-== len 0 (omega arith) in
    rw (need, nonempty)
      (elim (Bool-cases (leb (64 - s.buffer_len) len)) [
        | inl full ↦
            let fits = leb→le _ _ full in
            let (out, runs, held) =
              Holds-block compress h.held bytes (64 - s.buffer_len) (omega (arith, fits))
                (omega (arith, h.held.short)) in
            let next =
              add_loop_lem fuel (full_block (record s { buffer = out }))
                (m ++ take (64 - s.buffer_len) bytes) (drop (64 - s.buffer_len) bytes)
                (len - (64 - s.buffer_len)) (omega (arith, h.held.short))
                (omega (arith, length-drop (64 - s.buffer_len) bytes))
                (full_block-Absorbed s out _ h.count held h.byte_count) in
            rw (full, runs)
              (Adds-eq next (
                append_assoc m (take (64 - s.buffer_len) bytes) _
                ∙ ap (λ l. m ++ l) (take-drop-append (64 - s.buffer_len) len bytes fits)))
        | inr partial ↦
            let short = not-leb→lt _ _ partial in
            let (out, runs, held) =
              Holds-part compress h.held bytes len readable (omega (arith, short, h.held.short)) in
            let size : u32 (s.buffer_len + len) ≡ s.buffer_len + len = omega (arith, short) in
            rw (partial, runs, size)
              (record {
                state = record s { buffer = out; buffer_len = s.buffer_len + len };
                returned = refl;
                absorbed = record { count = h.count; held = held; byte_count = h.byte_count };
              })
      ])

-- From an object that has taken in `m`, `add` of `len` readable bytes, which are less than 2^32,
-- returns, touches no memory out of range, and gives an object that has taken in `m` followed by these bytes.
pub sha256_add_lem :
    (s : Sha256) (m bytes : List ℕ) (len : ℕ)
    → len < 2 ^ 32
    → len ≤ length bytes
    → Absorbed m s
    → Adds (m ++ take len bytes) (add s bytes len)
unfolding add
sha256_add_lem s m bytes len bound readable h =
    let word : u32 len ≡ len = omega (arith, bound) in
    rw word (add_loop_lem (len + 1) s m bytes len (omega arith) readable h)
