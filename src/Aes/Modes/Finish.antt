-- ===== src/Aes/Modes/Finish.antt =====
-- src/aes.h and src/aes.cpp: `end` of the modes with padding.
use libnap.Base.{
  ◌^◌, AllShort, lt→ltb, memcpy_lem, drop_all, append-nil, ℕ, ◌+◌, ◌-◌, ◌*◌, ◌/◌, ◌<◌, ◌≤◌, List,
  [], ◌++◌, Option, some, Bool, true, false, ◌≡◌, refl, sym, ap, ◌∙◌, arith,
}
use libnap.Base.{
  IsBytes, take, length, load, take-append, drop-append, take_all, length-take, length-append, u8,
  leb, le→leb, load_behind, flatten,
}
use libnap.Aes.Padding.{PaddingType}
use libnap.Aes.Padding.Marked.{Marks, add_padding_lem, last_byte, remove_padding_mark}
use libnap.Aes.Stream.{block_loop, Buffer, Handle, each_block, handle_blocks, start}
use libnap.Aes.Stream.Rounds.{block_loop_lem}
use libnap.Aes.Stream.Add.{Absorbed, Serves, aes_add_lem, start-Absorbed}
use libnap.Aes.Stream.Pieces.{pieces_lem, Absorbed-AllHandled}
use libnap.Aes.Modes.{always, always_ready, end_encrypt, end_decrypt, shorten, reset, end, crypt}
use libnap.Aes.Modes.Chain.{UndoesAll}

-- `handle` runs its rounds, where these do not depend on where the output is written, on less than
-- 2^32 bytes.
pub handle_blocks-Serves :
    {S : Type 0} (Ok : S → Type 0) (ready : S → Bool) (step : Bool → S → List ℕ → S × List ℕ)
    → ((in_place : Bool) → step in_place ≡ step false)
    → ((m : S) → Ok m → ready m ≡ true)
    → ((m : S) (b : List ℕ) → length b ≡ 16 → Ok m → Ok (step false m b).0)
    → ((m : S) (b : List ℕ) → length b ≡ 16 → length (step false m b).1 ≡ 16)
    → Serves (step false) Ok (2 ^ 32) (handle_blocks ready step)
unfolding handle_blocks
handle_blocks-Serves Ok ready step same readable keeps sized = record {
  runs = λ m in_place bytes out n ok enough bound room.
      let blocks : n * 16 / 16 ≡ n = omega arith in
      let few = lt→ltb n (2 ^ 32) (omega (arith, bound)) in
      let loop =
        block_loop_lem Ok ready (step false) readable keeps sized n 0 m bytes [] out ok
          (omega (arith, enough)) (omega (arith, bound)) refl room in
      rw (le→leb (n * 16) (length bytes) enough, blocks, few, same in_place) loop;
  keeps = keeps;
  sized = sized;
  some_block = omega arith;
}

-- One block.
pub handle_one :
    {S : Type 0} (step : Bool → S → List ℕ → S × List ℕ) (m : S) (in_place : Bool)
    (block out : List ℕ)
    → length block ≡ 16
    → length out ≡ 16
    → length (step in_place m block).1 ≡ 16
    → handle_blocks always_ready step m in_place block out 16 ≡ some (step in_place m block)
unfolding handle_blocks block_loop
handle_one step m in_place block out size room sized =
    let enough : leb 16 (length block) ≡ true = le→leb 16 (length block) (omega (arith, size)) in
    let whole = take_all 16 block (omega (arith, size)) in
    let result = (step in_place m block).1 in
    let written = memcpy_lem out 0 result 16 (omega (arith, room)) (omega (arith, sized)) in
    let none_left = drop_all 16 out (omega (arith, room)) in
    let all = take_all 16 result (omega (arith, sized)) in
    rw (enough, whole, written, none_left, all, append-nil result) refl

-- A message and its padding.
pub record IsPadded (msg pad : List ℕ) (count : ℕ) : Type 0 where
  pub size : length (msg ++ pad) ≡ count * 16
  pub short : length pad ≤ 16
  pub some_pad : 0 < length pad
  pub are_bytes : IsBytes pad
  pub mark : load pad (length pad - 1) ≡ some (length pad)

-- The object after `end`.
abbrev pub cleared : {S : Type 0} → (S → S) → Buffer S → Buffer S
cleared resetdata s = record s { buffer_len = 0; result = []; mode = resetdata s.mode }

pub record Ended {S : Type 0} (step : S → List ℕ → S × List ℕ) (m : S) (msg : List ℕ)
    (resetdata : S → S) (result : Option (Buffer S × List ℕ)) : Type 0 where
  pub state : Buffer S
  pub pad : List ℕ
  pub count : ℕ
  pub padded : IsPadded msg pad count
  pub returned : result ≡ some (state, (each_block step count m (msg ++ pad)).1)
  pub mode_reset : state.mode ≡ resetdata (each_block step count m (msg ++ pad)).0
  pub empty : (state.buffer_len ≡ 0) × (state.result ≡ [])

module _ {S : Type 0} (step : S → List ℕ → S × List ℕ) {Ok : S → Type 0} {limit : ℕ}
    (handle : Handle S) (serves : Serves step Ok limit handle) {m : S} (ok : Ok m) (random : ℕ → ℕ)
    (bound : (i : ℕ) → random i < 256) (type : PaddingType) (marks : Marks type) where
  -- The object whose buffer is filled up.
  Absorbed-filled_up :
      {msg : List ℕ} {s : Buffer S} (h : Absorbed step m msg s) (pad : List ℕ)
      → length pad ≡ 16 - s.buffer_len
      → Absorbed step m msg (record s { buffer = take s.buffer_len s.buffer ++ pad })
  Absorbed-filled_up {msg} {s} h pad size =
      let kept : length (take s.buffer_len s.buffer) ≡ s.buffer_len =
        omega (arith, length-take s.buffer_len s.buffer, h.room, h.short) in
      record {
        count = h.count;
        front = h.front;
        rest = h.rest;
        message = h.message;
        size = h.size;
        mode_run = h.mode_run;
        result_run = h.result_run;
        room = omega (arith, length-append (take s.buffer_len s.buffer) pad, kept, size, h.short);
        held = take-append s.buffer_len (take s.buffer_len s.buffer) pad (sym kept) ∙ h.held;
        short = h.short;
      }

  pub end_encrypt_lem :
      (resetdata : S → S) (s : Buffer S) (msg : List ℕ)
      → Absorbed step m msg s
      → Ended step m msg resetdata (end (end_encrypt handle random type) (always resetdata) s)
  unfolding end end_encrypt reset
  end_encrypt_lem resetdata s msg h =
      let len = s.buffer_len in
      let word : u8 len ≡ len = omega (arith, h.short) in
      let p = add_padding_lem random bound type s.buffer len marks h.room h.short in
      let kept : length (take len s.buffer) ≡ len =
        omega (arith, length-take len s.buffer, h.room, h.short) in
      let from : 16 - (16 - len) ≡ len = omega (arith, h.short) in
      let added = drop-append len (take len s.buffer) p.bytes (sym kept) in
      let fill = take_all (16 - len) p.bytes (omega (arith, p.size)) in
      let more =
        aes_add_lem step handle serves ok _ msg p.bytes (16 - len) (omega (arith, p.size))
          (omega (arith, serves.some_block)) (Absorbed-filled_up h p.bytes p.size) in
      let ended = rw fill at more.absorbed in
      let size : length (msg ++ p.bytes) ≡ (h.count + 1) * 16 = omega (
        arith,
        length-append msg p.bytes,
        ap length h.message,
        length-append h.front h.rest,
        h.size,
        ap length h.held,
        kept,
        p.size,
        h.short,
      ) in
      let all = Absorbed-AllHandled step handle serves ok ended (h.count + 1) size in
      let last : length p.bytes - 1 ≡ 15 - len = omega (arith, p.size) in
      rw (word, p.returned, from, added, more.returned, all.result_run)
        (record {
          state = cleared resetdata more.state;
          pad = p.bytes;
          count = all.count;
          padded = record {
            size = all.size;
            short = omega (arith, p.size);
            some_pad = omega (arith, p.size, h.short);
            are_bytes = p.are_bytes;
            mark = rw (last, p.size) p.mark;
          };
          returned = refl;
          mode_reset = ap resetdata all.mode_run;
          empty = (refl, refl);
        })

  -- A whole session of encryption.
  pub encrypts_lem :
      (resetdata : S → S) (pieces : List (List ℕ))
      → AllShort limit pieces
      → Ended step m
          (flatten pieces)
          resetdata
          (crypt handle (end_encrypt handle random type) (always resetdata) (start m) pieces)
  unfolding crypt
  encrypts_lem resetdata pieces short =
      let given =
        pieces_lem step handle serves ok (start m) [] pieces short (start-Absorbed step m) in
      rw given.returned (end_encrypt_lem resetdata given.state (flatten pieces) given.absorbed)

-- `end` of a decryption takes the padding off.
pub end_decrypt_lem :
    {S : Type 0} (fresh : ℕ → List ℕ) (type : PaddingType)
    → Marks type
    → (resetdata : S → S) (s : Buffer S) (msg pad : List ℕ) (count : ℕ) → IsPadded msg pad count
    → s.result ≡ msg ++ pad
    → end (end_decrypt fresh type) (always resetdata) s ≡ some (cleared resetdata s, msg)
unfolding end end_decrypt shorten reset
end_decrypt_lem fresh type marks resetdata s msg pad count h result =
    let n = length pad in
    let total = length-append msg pad in
    let mark : load (msg ++ pad) (length msg + (n - 1)) ≡ some n =
      load_behind msg pad (length msg + (n - 1)) (n - 1) refl ∙ h.mark in
    let last =
      last_byte (msg ++ pad) (length msg + (n - 1)) n (omega (arith, total, h.some_pad)) mark in
    let front : length (msg ++ pad) - n ≡ length msg = omega (arith, total) in
    rw
      (
        result,
        last,
        remove_padding_mark type n marks h.short,
        front,
        take-append (length msg) msg pad refl,
      )
      refl

-- A whole session of decryption, whose rounds undo those of the encryption.
module _ {S : Type 0} (step back : S → List ℕ → S × List ℕ) {Ok : S → Type 0} {limit : ℕ}
    (handle : Handle S) (serves : Serves back Ok limit handle) (m : S) (ok : Ok m) where
  pub decrypts_lem :
      (fresh : ℕ → List ℕ) (type : PaddingType)
      → Marks type
      → (resetdata : S → S) (msg pad : List ℕ) (count : ℕ) (pieces : List (List ℕ))
      → IsPadded msg pad count
      → UndoesAll step back count m (msg ++ pad)
      → flatten pieces ≡ (each_block step count m (msg ++ pad)).1
      → AllShort limit pieces
      → (s : Buffer S) × (crypt handle (end_decrypt fresh type) (always resetdata) (start m) pieces
          ≡ some (s, msg))
  unfolding crypt
  decrypts_lem fresh type marks resetdata msg pad count pieces padded undoes joins short =
      let given =
        pieces_lem back handle serves ok (start m) [] pieces short (start-Absorbed back m) in
      let whole = rw joins at given.absorbed in
      let all = Absorbed-AllHandled back handle serves ok whole count undoes.size in
      let same : all.count ≡ count = omega (arith, undoes.size, all.size) in
      let result : given.state.result ≡ msg ++ pad =
        all.result_run ∙ rw (same, undoes.undone) refl in
      rw given.returned
        (_, end_decrypt_lem fresh type marks resetdata given.state msg pad count padded result)
