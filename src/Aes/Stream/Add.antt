-- ===== src/Aes/Stream/Add.antt =====
-- src/aes.h, `AesBuffer::add` on a message that comes in pieces, for a class whose rounds do not
-- depend on where the output is written.
use libnap.Base.{
  take-append, zero, suc, drop-append, length-replicate, replicate, ℕ, ◌+◌, ◌-◌, ◌*◌, ◌/◌, ◌%◌, ◌≤◌,
  ◌<◌, ◌^◌, List, [], ◌++◌, Option, some, Bool, true, false,
}
use libnap.Base.{◌≡◌, refl, ap, sym, ◌∙◌, arith, ◌==◌, ltb, u32, take, drop, length}
use libnap.Base.{append_assoc, append-nil, length-append, length-take, length-drop}
use libnap.Base.{
  take_all, take-append-drop, memcpy, memcpy_runs, Bool-cases, inl, inr, ltb→lt, not-ltb→le,
}
use libnap.Base.{==_iff, take-drop-append}
use libnap.Aes.Stream.Rounds.{each_block-append, each_block_join, each_block_one}
use libnap.Aes.Stream.{Buffer, Handle, each_block, start, add_whole, add}

module _ {S : Type 0} (step : S → List ℕ → S × List ℕ) where
  -- The object has taken in the message `msg`, from the members `m0` on.
  pub record Absorbed (m0 : S) (msg : List ℕ) (s : Buffer S) : Type 0 where
    pub count : ℕ
    pub front : List ℕ
    pub rest : List ℕ
    pub message : msg ≡ front ++ rest
    pub size : length front ≡ count * 16
    pub mode_run : s.mode ≡ (each_block step count m0 front).0
    pub result_run : s.result ≡ (each_block step count m0 front).1
    pub room : length s.buffer ≡ 16
    pub held : take s.buffer_len s.buffer ≡ rest
    pub short : s.buffer_len < 16

  pub record Adds (m0 : S) (msg : List ℕ) (result : Option (Buffer S)) : Type 0 where
    pub state : Buffer S
    pub returned : result ≡ some state
    pub absorbed : Absorbed m0 msg state

  pub Adds-eq : {m0 : S} {a b : List ℕ} {r : Option (Buffer S)} → Adds m0 a r → a ≡ b → Adds m0 b r
  Adds-eq {r} h e = rw e at h

  pub start-Absorbed : (m : S) → Absorbed m [] (start m)
  unfolding start each_block
  start-Absorbed m = record {
    count = 0;
    front = [];
    rest = [];
    message = refl;
    size = refl;
    mode_run = refl;
    result_run = refl;
    room = refl;
    held = refl;
    short = omega arith;
  }

  -- `handle` runs the rounds, wherever the output is written, on as many bytes as `limit`. `Ok`
  -- members are those that it needs.
  pub record Serves (Ok : S → Type 0) (limit : ℕ) (handle : Handle S) : Type 0 where
    pub runs :
        (m : S) (in_place : Bool) (bytes out : List ℕ) (n : ℕ)
        → Ok m
        → n * 16 ≤ length bytes
        → n * 16 ≤ limit
        → length out ≡ n * 16
        → handle m in_place bytes out (n * 16) ≡ some (each_block step n m bytes)
    pub keeps : (m : S) (b : List ℕ) → length b ≡ 16 → Ok m → Ok (step m b).0
    pub sized : (m : S) (b : List ℕ) → length b ≡ 16 → length (step m b).1 ≡ 16
    pub some_block : 16 < limit

  pub each_block-Ok :
      (Ok : S → Type 0)
      → ((m : S) (b : List ℕ) → length b ≡ 16 → Ok m → Ok (step m b).0)
      → (n : ℕ) (m : S) (l : List ℕ) → length l ≡ n * 16
      → Ok m
      → Ok (each_block step n m l).0
  unfolding each_block
  each_block-Ok Ok keeps zero m l size ok = ok
  each_block-Ok Ok keeps (suc n) m l size ok =
      each_block-Ok Ok keeps n (step m (take 16 l)).0 (drop 16 l)
        (omega (arith, length-drop 16 l, size))
        (keeps m (take 16 l) (omega (arith, length-take 16 l, size)) ok)

  pub length-each_block :
      ((m : S) (b : List ℕ) → length b ≡ 16 → length (step m b).1 ≡ 16)
      → (n : ℕ) (m : S) (l : List ℕ) → n * 16 ≤ length l
      → length (each_block step n m l).1 ≡ n * 16
  unfolding each_block
  length-each_block sized zero m l size = refl
  length-each_block sized (suc n) m l size =
      let r = step m (take 16 l) in
      omega (
        arith,
        length-append r.1 (each_block step n r.0 (drop 16 l)).1,
        sized m (take 16 l) (omega (arith, length-take 16 l, size)),
        length-each_block sized n r.0 (drop 16 l) (omega (arith, length-drop 16 l, size)),
      )

  module _ {Ok : S → Type 0} {limit : ℕ} (handle : Handle S) (serves : Serves Ok limit handle)
      {m0 : S} (ok0 : Ok m0) where
    Absorbed-Ok : {msg : List ℕ} {s : Buffer S} → Absorbed m0 msg s → Ok s.mode
    Absorbed-Ok {msg} {s} h =
        rw h.mode_run (each_block-Ok Ok serves.keeps h.count m0 h.front h.size ok0)

    -- More whole blocks are handled.
    Absorbed-blocks :
        {msg : List ℕ} {s : Buffer S} (h : Absorbed m0 msg s) (bytes : List ℕ) (n : ℕ)
        → s.buffer_len ≡ 0
        → n * 16 ≤ length bytes
        → let done = each_block step n s.mode bytes in
          Absorbed m0
            (msg ++ take (n * 16) bytes)
            (record s { mode = done.0; result = s.result ++ done.1 })
    Absorbed-blocks {msg} {s} h bytes n empty enough =
        let taken = take (n * 16) bytes in
        let no_rest : h.rest ≡ [] = sym h.held ∙ ap (λ k. take k s.buffer) empty in
        let same : each_block step n s.mode bytes ≡ each_block step n s.mode taken =
          ap (each_block step n s.mode) (sym (take-append-drop (n * 16) bytes))
          ∙ each_block-append step n s.mode taken (drop (n * 16) bytes)
              (omega (arith, length-take (n * 16) bytes, enough)) in
        let joined = each_block_join step h.count n m0 h.front taken h.size in
        record {
          count = h.count + n;
          front = h.front ++ taken;
          rest = [];
          message =
              ap (λ l. l ++ taken) (h.message ∙ ap (λ r. h.front ++ r) no_rest)
              ∙ append_assoc h.front [] taken
              ∙ sym (append-nil (h.front ++ taken));
          size =
              omega
                (arith, h.size, length-append h.front taken, length-take (n * 16) bytes, enough);
          mode_run = rw (same, h.mode_run) (sym (ap (λ r. r.0) joined));
          result_run = rw (same, h.mode_run, h.result_run) (sym (ap (λ r. r.1) joined));
          room = h.room;
          held = ap (λ k. take k s.buffer) empty;
          short = h.short;
        }

    -- Bytes are kept behind those that are left.
    Absorbed-kept :
        {msg : List ℕ} {s : Buffer S} (h : Absorbed m0 msg s) (bytes : List ℕ) (n : ℕ)
        → n ≤ length bytes
        → s.buffer_len + n < 16
        → (out : List ℕ) × (memcpy s.buffer s.buffer_len bytes n ≡ some out)
          × Absorbed m0
              (msg ++ take n bytes)
              (record s { buffer = out; buffer_len = s.buffer_len + n })
    Absorbed-kept {msg} {s} h bytes n enough few =
        let (out, copied, size, front) =
          memcpy_runs s.buffer s.buffer_len bytes n (omega (arith, h.room, few)) enough in
        (
          out,
          copied,
          record {
            count = h.count;
            front = h.front;
            rest = h.rest ++ take n bytes;
            message =
                ap (λ l. l ++ take n bytes) h.message ∙ append_assoc h.front h.rest (take n bytes);
            size = h.size;
            mode_run = h.mode_run;
            result_run = h.result_run;
            room = size ∙ h.room;
            held = front ∙ ap (λ l. l ++ take n bytes) h.held;
            short = few;
          },
        )

    add_whole_lem :
        {msg : List ℕ} (s : Buffer S) (bytes : List ℕ) (len : ℕ)
        → s.buffer_len ≡ 0
        → len ≤ length bytes
        → len < limit
        → Absorbed m0 msg s
        → Adds m0 (msg ++ take len bytes) (add_whole handle s bytes len)
    unfolding add_whole
    add_whole_lem {msg} s bytes len empty enough bound h = elim (Bool-cases (ltb len 16)) [
      | inl few ↦
          let (out, copied, ok) =
            Absorbed-kept h bytes len enough (omega (arith, empty, ltb→lt _ _ few)) in
          let from : memcpy s.buffer 0 bytes len ≡ some out = rw empty at copied in
          let sum : s.buffer_len + len ≡ len = omega (arith, empty) in
          rw (few, from)
            (record {
              state = record s { buffer = out; buffer_len = len };
              returned = refl;
              absorbed = rw sum at ok;
            })
      | inr many ↦
          let n = len / 16 in
          let deal : len - len % 16 ≡ n * 16 = omega arith in
          let done = each_block step n s.mode bytes in
          let s' : Buffer S = record s { mode = done.0; result = s.result ++ done.1 } in
          let ok = Absorbed-blocks h bytes n empty (omega (arith, enough)) in
          let zeros = replicate (n * 16) 0 in
          let new : length zeros ≡ n * 16 = length-replicate {A = ℕ} (n * 16) 0 in
          let at : length (s.result ++ zeros) - n * 16 ≡ length s.result =
            omega (arith, length-append s.result zeros, new) in
          let out = drop-append (length s.result) s.result zeros refl in
          let old = take-append (length s.result) s.result zeros refl in
          let handled =
            serves.runs s.mode false bytes zeros n (Absorbed-Ok h) (omega (arith, enough))
              (omega (arith, bound)) new in
          rw (many, deal, at, out, old, handled)
            (elim (Bool-cases (n * 16 == len)) [
              | inl all ↦ rw (all) (
                  Adds-eq (record { state = s'; returned = refl; absorbed = ok })
                    (ap (λ k. msg ++ take k bytes) ((==_iff _ _).0 all)))
              | inr some_left ↦
                  let (out, copied, kept) =
                    Absorbed-kept ok (drop (n * 16) bytes) (len - n * 16)
                      (omega (arith, enough, length-drop (n * 16) bytes)) (omega (arith, empty)) in
                  let from : memcpy s.buffer 0 (drop (n * 16) bytes) (len - n * 16) ≡ some out =
                    rw empty at copied in
                  let sum : s.buffer_len + (len - n * 16) ≡ len - n * 16 = omega (arith, empty) in
                  rw (some_left, from)
                    (Adds-eq
                      (record {
                        state = record s' { buffer = out; buffer_len = len - n * 16 };
                        returned = refl;
                        absorbed = rw sum at kept;
                      })
                      (append_assoc msg (take (n * 16) bytes) _
                        ∙ ap (λ l. msg ++ l) (take-drop-append (n * 16) len bytes (omega arith))))
            ])
    ]

    -- The bytes left over are filled up to a block, which is handled in place.
    Absorbed-filled :
        {msg : List ℕ} {s : Buffer S} (h : Absorbed m0 msg s) (bytes : List ℕ) (need : ℕ)
        → s.buffer_len + need ≡ 16
        → need ≤ length bytes
        → (full : List ℕ) × (memcpy s.buffer s.buffer_len bytes need ≡ some full)
          × (handle s.mode true full full 16 ≡ some (step s.mode full))
          × Absorbed m0 (msg ++ take need bytes) (record s {
            buffer = (step s.mode full).1;
            buffer_len = 0;
            result = s.result ++ (step s.mode full).1;
            mode = (step s.mode full).0;
          })
    Absorbed-filled {msg} {s} h bytes need fits enough =
        let (full, copied, size, front) =
          memcpy_runs s.buffer s.buffer_len bytes need (omega (arith, h.room, fits)) enough in
        let whole : length full ≡ 16 = size ∙ h.room in
        let one = each_block_one step s.mode full whole in
        let block : h.rest ++ take need bytes ≡ full =
          ap (λ l. l ++ take need bytes) (sym h.held)
          ∙ sym front
          ∙ take_all _ full (omega (arith, whole, fits)) in
        let joined =
          each_block_join step h.count 1 m0 h.front full h.size ∙ rw (sym h.mode_run, one) refl in
        (
          full,
          copied,
          serves.runs s.mode true full full 1 (Absorbed-Ok h) (omega (arith, whole))
                (omega (arith, serves.some_block)) whole
              ∙ ap some one,
          record {
            count = h.count + 1;
            front = h.front ++ full;
            rest = [];
            message =
                ap (λ l. l ++ take need bytes) h.message
                ∙ append_assoc h.front h.rest (take need bytes)
                ∙ ap (λ l. h.front ++ l) block
                ∙ sym (append-nil (h.front ++ full));
            size = omega (arith, h.size, length-append h.front full, whole);
            mode_run = sym (ap (λ r. r.0) joined);
            result_run =
                ap (λ l. l ++ (step s.mode full).1) h.result_run ∙ sym (ap (λ r. r.1) joined);
            room = serves.sized s.mode full whole;
            held = refl;
            short = omega arith;
          },
        )

    -- From an object that has taken in `msg`, `add` of `len` readable bytes returns, touches no
    -- memory out of range, and gives an object that has taken in `msg` followed by these bytes, for
    -- a class whose rounds do not depend on where the output is written, and put out blocks of
    -- sixteen bytes, where `len` is below the number of bytes that its `handle` can take at once.
    pub aes_add_lem :
        (s : Buffer S) (msg bytes : List ℕ) (len : ℕ)
        → len ≤ length bytes
        → len < limit
        → Absorbed m0 msg s
        → Adds m0 (msg ++ take len bytes) (add handle s bytes len)
    unfolding add
    aes_add_lem s msg bytes len enough bound h = elim (Bool-cases (s.buffer_len == 0)) [
      | inl empty ↦ rw empty (add_whole_lem s bytes len ((==_iff _ _).0 empty) enough bound h)
      | inr some_left ↦ rw some_left (elim (Bool-cases (ltb (s.buffer_len + len) 16)) [
        | inl few ↦
            let (out, copied, ok) = Absorbed-kept h bytes len enough (ltb→lt _ _ few) in
            rw (few, copied)
              (record {
                state = record s { buffer = out; buffer_len = s.buffer_len + len };
                returned = refl;
                absorbed = ok;
              })
        | inr many ↦
            let need = 16 - s.buffer_len in
            let rent : u32 (16 + 2 ^ 32 - s.buffer_len) ≡ need = omega (arith, h.short) in
            let short = not-ltb→le _ _ many in
            let (full, copied, handled, ok) =
              Absorbed-filled h bytes need (omega (arith, h.short))
                (omega (arith, short, enough)) in
            let more =
              add_whole_lem _ (drop need bytes) (len - need) refl
                (omega (arith, enough, length-drop need bytes)) (omega (arith, bound)) ok in
            rw (many, rent, copied, handled)
              (Adds-eq more (
                append_assoc msg (take need bytes) _
                ∙ ap (λ l. msg ++ l) (take-drop-append need len bytes (omega (arith, short)))))
      ])
    ]
