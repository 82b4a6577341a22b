-- ===== src/Hash/Blocks/Add.antt =====
-- The member `add` of MD5 and SHA1 (src/hash.cpp), on a message that comes in pieces.
use libnap.Base.{ℕ, zero, suc, ◌+◌, ◌-◌, ◌%◌, ◌≤◌, ◌<◌, ◌^◌, List, ◌++◌, Option, some, ◌≡◌}
use libnap.Base.{refl, ap, ◌∙◌, arith, length, take, drop, length-drop}
use libnap.Base.{u32, ltb, inl, inr, Bool-cases, ltb→lt, not-ltb→le, append_assoc, take-drop-append}
use libnap.Hash.Stream.{Holds, Holds-part, Holds-block}
use libnap.Hash.Blocks.{Blocks, transform, add_loop, add}

module _ {C : Type 0} (compress : C → List ℕ → C) (start : C) where
  -- The object has taken in the message `m`.
  pub record Absorbed (m : List ℕ) (s : Blocks C) : Type 0 where
    pub count : ℕ
    pub held : Holds compress start m s.value s.buffer s.buffer_len count
    pub counted : s.round ≡ u32 count

  pub record Adds (m : List ℕ) (result : Option (Blocks C)) : Type 0 where
    pub state : Blocks C
    pub returned : result ≡ some state
    pub absorbed : Absorbed m state

  Adds-eq : {m m' : List ℕ} {r : Option (Blocks C)} → Adds m r → m ≡ m' → Adds m' r
  Adds-eq {r} a e = rw e at a

  -- The sum of the test is exact.
  abbrev pub Exact : ℕ → ℕ → Type 0
  Exact width len = (sum : ℕ) → sum < 64 + len → sum % 2 ^ width ≡ sum

  module _ (width : ℕ) where
    add_loop_lem :
        (fuel : ℕ) (s : Blocks C) (m bytes : List ℕ) (len : ℕ)
        → len < fuel
        → len ≤ length bytes
        → len < 2 ^ 32
        → Exact width len
        → Absorbed m s
        → Adds (m ++ take len bytes) (add_loop compress width fuel s bytes len)
    unfolding add_loop transform
    add_loop_lem zero s m bytes len enough readable bound exact h = absurd (omega arith)
    add_loop_lem (suc fuel) s m bytes len enough readable bound exact h =
        let need : u32 (64 + 2 ^ 32 - s.buffer_len) ≡ 64 - s.buffer_len =
          omega (arith, h.held.short) in
        rw (need, exact (s.buffer_len + len) (omega (arith, h.held.short)))
          (elim (Bool-cases (ltb (s.buffer_len + len) 64)) [
            | inl few ↦
                let (out, runs, held) =
                  Holds-part compress h.held bytes len readable (ltb→lt _ _ few) in
                rw (few, runs)
                  (record {
                    state = record s { buffer = out; buffer_len = s.buffer_len + len };
                    returned = refl;
                    absorbed = record { count = h.count; held = held; counted = h.counted };
                  })
            | inr many ↦
                let fits : 64 - s.buffer_len ≤ len = omega (arith, not-ltb→le _ _ many) in
                let (out, runs, held) =
                  Holds-block compress h.held bytes (64 - s.buffer_len) (omega (arith, fits))
                    (omega (arith, h.held.short)) in
                let left : u32 (len + 2 ^ 32 - (64 - s.buffer_len)) ≡ len - (64 - s.buffer_len) =
                  omega (arith, fits) in
                let next =
                  add_loop_lem fuel
                    (record {
                      value = compress s.value out;
                      buffer = out;
                      buffer_len = 0;
                      round = u32 (s.round + 1);
                    })
                    (m ++ take (64 - s.buffer_len) bytes) (drop (64 - s.buffer_len) bytes)
                    (len - (64 - s.buffer_len)) (omega (arith, h.held.short))
                    (omega (arith, length-drop (64 - s.buffer_len) bytes)) (omega arith)
                    (λ sum below. exact sum (omega (arith, below)))
                    (record {
                      count = h.count + 1;
                      held = held;
                      counted = omega (arith, h.counted);
                    }) in
                rw (many, runs, left)
                  (Adds-eq next (
                    append_assoc m (take (64 - s.buffer_len) bytes) _
                    ∙ ap (λ l. m ++ l) (take-drop-append (64 - s.buffer_len) len bytes fits)))
          ])

    -- From an object that has taken in `m`, `add` of `len` readable bytes, less than 2^32, returns,
    -- touches no memory out of range, and gives an object that has taken in `m` followed by these
    -- bytes, where the sum that the loop tests does not overflow.
    pub blocks_add_lem :
        (s : Blocks C) (m bytes : List ℕ) (len : ℕ)
        → len ≤ length bytes
        → len < 2 ^ 32
        → Exact width len
        → Absorbed m s
        → Adds (m ++ take len bytes) (add compress width s bytes len)
    unfolding add
    blocks_add_lem s m bytes len readable bound exact h =
        add_loop_lem (len + 1) s m bytes len (omega arith) readable bound exact h
