-- ===== src/Aes/Gcm/Finish.antt =====
-- src/aes.cpp, GCM: `endinput` of the two classes, from the state that `add` leaves.
use libnap.Base.{
  ◌≤◌, ℕ, suc, ◌-◌, ◌*◌, ◌<◌, List, [], ◌++◌, Option, Bool, true, false, inl, inr, ◌≡◌, refl, sym,
  ap, ◌∙◌, arith, if◌then◌else◌, ◌==◌, Bool-cases, ==_iff, not-==→ne, u8,
}
use libnap.Base.{
  take, length, length-eq_zero, length-append, length-take, length-replicate, replicate, append-nil,
}
use libnap.Aes.Key.{AesKey}
use libnap.Aes.Bytes.{encrypt_bytes, xor_bytes}
use libnap.Aes.Stream.{Buffer}
use libnap.Aes.Stream.Add.{Absorbed}
use libnap.Aes.Modes.{end}
use libnap.Aes.Modes.Rounds.{length-xor_bytes}
use libnap.Aes.Modes.Counter.{blocks_for, xor_bytes-append, take-xor_bytes}
use libnap.Aes.Gcm.{
  Gcm, inc32, gctr, ghash_block, ghash_loop, ghash, hash_key, resetdata, tagged, end_encrypt,
  end_decrypt,
}
use libnap.Aes.Gcm.Blocks.{
  counted, stream, length-stream, stream_snoc, gctr_stream, hashed, step, rounds, ghash_whole,
}
use libnap.Aes.Gcm.Hash.{padded, ghash_loop-padded, ghash_short, ghash_padded}
use libnap.Aes.Gcm.Whole.{members, first_counter, text, Crypted, Summed, tagged_lem}

-- `endinput` of the two classes.
abbrev pub end_of : Bool → AesKey → List ℕ → Buffer Gcm → Option (Buffer Gcm × (List ℕ × List ℕ))
end_of true key aad = end_encrypt key aad
end_of false key aad = end_decrypt key aad

-- The object with the rest of the message handled.
abbrev filled : Bool → AesKey → Buffer Gcm → ℕ → Buffer Gcm
filled encrypts key s len =
    let m = s.mode in
    let r = gctr key m.j0 (take len s.buffer ++ replicate (16 - len) 0) 16 in
    record s {
      result = s.result ++ take len r.1;
      mode = record m {
        j0 = r.0;
        sum = ghash (hash_key key) m.sum (hashed encrypts s.buffer r.1) len;
      };
    }

end_of_lem :
    (encrypts : Bool) (key : AesKey) (aad : List ℕ) (s : Buffer Gcm)
    → let len = u8 s.buffer_len in
      end_of encrypts key aad s ≡ tagged key aad (if len == 0 then s else filled encrypts key s len)
unfolding end_encrypt end_decrypt
end_of_lem true key aad s = refl
end_of_lem false key aad s = refl

module _ (encrypts : Bool) (key : AesKey) (iv aad : List ℕ) where
  -- What is hashed of a message.
  abbrev pub cipher : List ℕ → List ℕ
  cipher msg = hashed encrypts msg (text key iv msg)

  length-cipher : (msg : List ℕ) → length (cipher msg) ≡ length msg
  length-cipher msg = sides encrypts
    where
      sides : (e : Bool) → length (hashed e msg (text key iv msg)) ≡ length msg
      sides true = length-xor_bytes msg _
      sides false = refl

  -- Whole blocks have been handled.
  record Run (n : ℕ) (front : List ℕ) (s : Buffer Gcm) : Type 0 where
    out : s.result ≡ xor_bytes front (stream key n (inc32 (first_counter iv)))
    counter : s.mode.j0 ≡ counted n (inc32 (first_counter iv))
    sum :
        s.mode.sum
        ≡ ghash_loop
            (hash_key key)
            n
            (members key aad iv).sum
            (hashed encrypts front (xor_bytes front (stream key n (inc32 (first_counter iv)))))
    begin : s.mode.j0_begin ≡ first_counter iv
    original : s.mode.original_iv ≡ iv

  Absorbed-Run :
      {msg : List ℕ} {s : Buffer Gcm} (h : Absorbed (step encrypts key) (members key aad iv) msg s)
      → Run h.count h.front s
  Absorbed-Run {msg} {s} h =
      let m = members key aad iv in
      let all = rounds encrypts key h.count m h.front in
      let run = gctr_stream key h.count m.j0 h.front h.size in
      let mode = h.mode_run ∙ ap (λ r. r.0) all in
      record {
        out = h.result_run ∙ ap (λ r. r.1) all ∙ ap (λ r. r.1) run;
        counter = ap (λ m. m.j0) mode ∙ ap (λ r. r.0) run;
        sum =
            ap (λ m. m.sum) mode
            ∙ ap (λ r. ghash_loop (hash_key key) h.count m.sum (hashed encrypts h.front r.1)) run;
        begin = ap (λ m. m.j0_begin) mode;
        original = ap (λ m. m.original_iv) mode;
      }

  hashed-append :
      (e : Bool) (a b c d : List ℕ) → hashed e a c ++ hashed e b d ≡ hashed e (a ++ b) (c ++ d)
  hashed-append true a b c d = refl
  hashed-append false a b c d = refl

  take-hashed :
      (e : Bool) (n : ℕ) (a b : List ℕ) → take n (hashed e a b) ≡ hashed e (take n a) (take n b)
  take-hashed true n a b = refl
  take-hashed false n a b = refl

  length-hashed : (e : Bool) (a k : List ℕ) → length (hashed e a (xor_bytes a k)) ≡ length a
  length-hashed true a k = length-xor_bytes a k
  length-hashed false a k = refl

  -- No byte is left over.
  whole-Summed :
      (msg : List ℕ) (n : ℕ) (s : Buffer Gcm)
      → Run n msg s
      → length msg ≡ n * 16
      → Summed key iv aad msg (cipher msg) s
  whole-Summed msg n s h size =
      let m = members key aad iv in
      let count : n ≡ blocks_for (length msg) = omega (arith, size) in
      let all : length (cipher msg) ≡ n * 16 = length-cipher msg ∙ size in
      let texts : hashed encrypts msg (xor_bytes msg (stream key n (inc32 (first_counter iv))))
          ≡ cipher msg =
        ap (λ k. hashed encrypts msg (xor_bytes msg (stream key k (inc32 (first_counter iv)))))
          count in
      record {
        result = h.out ∙ ap (λ k. xor_bytes msg (stream key k (inc32 (first_counter iv)))) count;
        sum =
            h.sum
            ∙ ap (ghash_loop (hash_key key) n m.sum) texts
            ∙ sym (ghash_whole (hash_key key) m.sum (cipher msg) n)
            ∙ ap (ghash (hash_key key) m.sum (cipher msg)) (sym all)
            ∙ ghash_padded (hash_key key) m.sum (cipher msg);
        begin = h.begin;
        original = h.original;
      }

  -- The rest, filled up with zeros, under the next counter.
  last_out :
      (rest j : List ℕ)
      → length rest < 16
      → take (length rest) (gctr key j (rest ++ replicate (16 - length rest) 0) 16).1
        ≡ xor_bytes rest (encrypt_bytes key j)
  unfolding gctr
  last_out rest j short =
      let zeros = replicate (16 - length rest) 0 in
      let size : length (rest ++ zeros) ≡ 16 =
        omega
          (arith, length-append rest zeros, length-replicate {A = ℕ} (16 - length rest) 0, short) in
      ap (λ r. take (length rest) r.1) (gctr_stream key 1 j (rest ++ zeros) size)
      ∙ take-xor_bytes rest zeros (stream key 1 j)
      ∙ ap (xor_bytes rest) (append-nil (encrypt_bytes key j))

  filled-Summed :
      (front rest : List ℕ) (n : ℕ) (s : Buffer Gcm)
      → Run n front s
      → length front ≡ n * 16
      → take (length rest) s.buffer ≡ rest
      → 0 < length rest
      → length rest < 16
      → Summed key iv aad
          (front ++ rest)
          (cipher (front ++ rest))
          (filled encrypts key s (length rest))
  filled-Summed front rest n s h size held some_left short =
      let m = members key aad iv in
      let len = length rest in
      let first = inc32 (first_counter iv) in
      let keys = stream key n first in
      let out = xor_bytes front keys in
      let last = xor_bytes rest (encrypt_bytes key (counted n first)) in
      let r = (gctr key s.mode.j0 (take len s.buffer ++ replicate (16 - len) 0) 16).1 in
      let zeros = replicate (16 - len) 0 in
      let more : take len r ≡ last =
        ap (λ b. take len (gctr key s.mode.j0 (b ++ zeros) 16).1) held
        ∙ last_out rest s.mode.j0 short
        ∙ ap (λ j. xor_bytes rest (encrypt_bytes key j)) h.counter in
      let count : suc n ≡ blocks_for (length (front ++ rest)) =
        omega (arith, length-append front rest, size, some_left, short) in
      let joined : out ++ last ≡ text key iv (front ++ rest) =
        sym (
          xor_bytes-append front rest keys (encrypt_bytes key (counted n first))
            (size ∙ sym (length-stream key n first)))
        ∙ ap (xor_bytes (front ++ rest)) (sym (stream_snoc key n first))
        ∙ ap (λ k. xor_bytes (front ++ rest) (stream key k first)) count in
      let front_text = hashed encrypts front out in
      let rest_text = hashed encrypts rest last in
      let rest_size : length rest_text ≡ len = length-hashed encrypts rest _ in
      let whole : front_text ++ rest_text ≡ cipher (front ++ rest) =
        hashed-append encrypts front rest out last ∙ ap (hashed encrypts (front ++ rest)) joined in
      let taken : take len (hashed encrypts s.buffer r) ≡ rest_text =
        take-hashed encrypts len s.buffer r
        ∙ ap (λ b. hashed encrypts b (take len r)) held
        ∙ ap (hashed encrypts rest) more in
      record {
        result = ap (λ l. l ++ take len r) h.out ∙ ap (λ l. out ++ l) more ∙ joined;
        sum =
            ghash_short (hash_key key) s.mode.sum (hashed encrypts s.buffer r) len some_left short
            ∙ ap (λ l. ghash_block (hash_key key) s.mode.sum (l ++ zeros)) taken
            ∙ ap (λ t. ghash_block (hash_key key) t (rest_text ++ zeros)) h.sum
            ∙ ap
                (λ k.
                  ghash_block (hash_key key) (ghash_loop (hash_key key) n m.sum front_text)
                    (rest_text ++ replicate (16 - k) 0))
                (sym rest_size)
            ∙ ghash_loop-padded (hash_key key) n m.sum front_text rest_text
                (length-hashed encrypts front keys ∙ size) (omega (arith, rest_size, some_left))
                (omega (arith, rest_size, short))
            ∙ ap (λ l. ghash_loop (hash_key key) (blocks_for (length l)) m.sum (padded l)) whole;
        begin = h.begin;
        original = h.original;
      }

  pub ended :
      (s : Buffer Gcm) (msg : List ℕ)
      → 12 ≤ length iv
      → Absorbed (step encrypts key) (members key aad iv) msg s
      → Crypted key iv aad msg (cipher msg) (end (end_of encrypts key aad) (resetdata key aad) s)
  unfolding end
  ended s msg enough h =
      let len = s.buffer_len in
      let word : u8 len ≡ len = omega (arith, h.short) in
      let kept : length h.rest ≡ len =
        omega (arith, sym (ap length h.held), length-take len s.buffer, h.room, h.short) in
      let run = Absorbed-Run h in
      let final =
        λ (t : Buffer Gcm). tagged_lem key iv aad msg (cipher msg) t enough (length-cipher msg) in
      rw (end_of_lem encrypts key aad s, word)
        (elim (Bool-cases (len == 0)) [
          | inl whole ↦
              let none_left : h.rest ≡ [] = length-eq_zero h.rest (kept ∙ (==_iff _ _).0 whole) in
              let same : h.front ≡ msg =
                sym (append-nil h.front) ∙ ap (λ r. h.front ++ r) (sym none_left) ∙ sym h.message in
              let size : length msg ≡ h.count * 16 = ap length (sym same) ∙ h.size in
              rw whole (final s (whole-Summed msg h.count s (rw same at run) size))
          | inr part ↦
              let some_left = not-==→ne _ _ part in
              let held : take (length h.rest) s.buffer ≡ h.rest =
                ap (λ k. take k s.buffer) kept ∙ h.held in
              let t =
                filled-Summed h.front h.rest h.count s run h.size held
                  (omega (arith, kept, some_left)) (omega (arith, kept, h.short)) in
              rw part (final (filled encrypts key s len) (rw (sym h.message, kept) at t))
        ])
