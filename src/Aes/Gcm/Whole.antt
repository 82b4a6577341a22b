-- ===== src/Aes/Gcm/Whole.antt =====
-- src/aes.cpp, GCM: a whole message, against the definition of the mode in NIST SP 800-38D.
use libnap.Base.{
  ◌≤◌, take-append, length-take, memcpy_lem, ℕ, zero, suc, ◌+◌, ◌*◌, ◌/◌, List, [], ◌∷◌, ◌++◌,
  Option, some, Bool, true, false, ◌≡◌, refl, sym, ap, ◌∙◌, arith, if◌then◌else◌, ◌==◌, u64, ◌>>=◌,
  bit_and, ◌<<<◌,
}
use libnap.Base.{take, length, length-append, replicate, append-nil}
use libnap.Aes.Key.{AesKey}
use libnap.Aes.Bytes.{encrypt_bytes, xor_bytes}
use libnap.Aes.Iv.{increment}
use libnap.Aes.Iv.Increment.{length-increment}
use libnap.Aes.Galois.{next_v, bit_rounds, byte_rounds, g_num128}
use libnap.Aes.Stream.{Buffer, each_block}
use libnap.Aes.Modes.{reset}
use libnap.Aes.Modes.Rounds.{length-xor_bytes}
use libnap.Aes.Modes.Counter.{blocks_for}
use libnap.Aes.Gcm.{
  Gcm, inc32, gctr_step, gctr, ghash_block, ghash_loop, ghash, hash_key, calculate_j0, u64_to_char,
  resetdata, of_iv, tagged,
}
use libnap.Aes.Gcm.Blocks.{stream, gctr_stream, ghash_whole}
use libnap.Aes.Gcm.Hash.{padded, length-padded, ghash_loop-append, ghash_loop-one, ghash_padded}

-- The first counter, the text under the counters behind it, and the lengths in bits.
abbrev pub first_counter : List ℕ → List ℕ
first_counter iv = take 12 iv ++ (0 ∷ 0 ∷ 0 ∷ 1 ∷ [])

abbrev pub text : AesKey → List ℕ → List ℕ → List ℕ
text key iv msg = xor_bytes msg (stream key (blocks_for (length msg)) (inc32 (first_counter iv)))

abbrev pub lengths : List ℕ → List ℕ → List ℕ
lengths aad c = u64_to_char (u64 (length aad * 8)) ++ u64_to_char (u64 (length c * 8))

-- The hash of a text of whole blocks, and the tag of an encrypted text.
abbrev pub hash : AesKey → List ℕ → List ℕ
hash key l = ghash_loop (hash_key key) (length l / 16) (replicate 16 0) l

abbrev pub tag : AesKey → List ℕ → List ℕ → List ℕ → List ℕ
tag key iv aad c =
    xor_bytes (hash key ((padded aad ++ padded c) ++ lengths aad c))
      (encrypt_bytes key (first_counter iv))

-- The members of an object with this initial vector.
abbrev pub members : AesKey → List ℕ → List ℕ → Gcm
members key aad iv = record {
  iv = iv;
  original_iv = iv;
  j0 = inc32 (first_counter iv);
  j0_begin = first_counter iv;
  sum = ghash (hash_key key) (replicate 16 0) aad (length aad);
}

resetdata_lem :
    (key : AesKey) (aad : List ℕ) (m : Gcm)
    → 12 ≤ length m.original_iv
    → resetdata key aad m ≡ some (members key aad m.original_iv)
unfolding resetdata calculate_j0
resetdata_lem key aad m enough =
    let iv = m.original_iv in
    let copied = memcpy_lem (replicate 16 0) 0 iv 12 (omega arith) enough in
    let front : take 12 (take 12 iv ++ (0 ∷ 0 ∷ 0 ∷ 0 ∷ [])) ≡ take 12 iv =
      take-append 12 (take 12 iv) _ (omega (arith, length-take 12 iv, enough)) in
    rw (copied, front) refl

pub of_iv_lem :
    (key : AesKey) (aad iv : List ℕ) → 12 ≤ length iv → of_iv key aad iv ≡ some (members key aad iv)
unfolding of_iv
of_iv_lem key aad iv enough = resetdata_lem key aad _ enough

-- What has come of a message, with the object ready for the next, under the next initial vector:
-- the tag is that of `c`.
pub record Crypted (key : AesKey) (iv aad msg c : List ℕ)
    (result : Option (Buffer Gcm × (List ℕ × List ℕ))) : Type 0 where
  pub state : Buffer Gcm
  pub returned : result ≡ some (state, (tag key iv aad c, text key iv msg))
  pub ready : of_iv key aad (increment 12 iv) ≡ some state.mode
  pub empty : (state.buffer_len ≡ 0) × (state.result ≡ [])

length-kept : (b : Bool) (z v : List ℕ) → length (if b then z else xor_bytes z v) ≡ length z
length-kept true z v = refl
length-kept false z v = length-xor_bytes z v

length-bit_rounds : (n x : ℕ) (z v : List ℕ) → length (bit_rounds n x z v).0 ≡ length z
unfolding bit_rounds
length-bit_rounds zero x z v = refl
length-bit_rounds (suc n) x z v =
    length-bit_rounds n x _ (next_v v) ∙ length-kept (bit_and x (1 <<< n) == 0) z v

length-byte_rounds : (xs z v : List ℕ) → length (byte_rounds xs z v) ≡ length z
unfolding byte_rounds
length-byte_rounds [] z v = refl
length-byte_rounds (x ∷ xs) z v =
    length-byte_rounds xs (bit_rounds 8 x z v).0 (bit_rounds 8 x z v).1 ∙ length-bit_rounds 8 x z v

length-ghash_block : (h s b : List ℕ) → length (ghash_block h s b) ≡ 16
unfolding ghash_block g_num128
length-ghash_block h s b = length-byte_rounds (xor_bytes s b) (replicate 16 0) h

-- The object after a message, before the lengths are hashed.
pub record Summed (key : AesKey) (iv aad msg c : List ℕ) (s : Buffer Gcm) : Type 0 where
  pub result : s.result ≡ text key iv msg
  pub sum :
      s.mode.sum
      ≡ ghash_loop (hash_key key) (blocks_for (length c)) (members key aad iv).sum (padded c)
  pub begin : s.mode.j0_begin ≡ first_counter iv
  pub original : s.mode.original_iv ≡ iv

module _ (key : AesKey) (iv aad : List ℕ) where
  lengths_size : (c : List ℕ) → length (lengths aad c) ≡ 16
  unfolding u64_to_char
  lengths_size c = refl

  lengths_sum :
      (c : List ℕ) (s : List ℕ)
      → s ≡ ghash_loop (hash_key key) (blocks_for (length c)) (members key aad iv).sum (padded c)
      → ghash (hash_key key) s (lengths aad c) 16
        ≡ hash key ((padded aad ++ padded c) ++ lengths aad c)
  unfolding u64_to_char
  lengths_sum c s e =
      let h = hash_key key in
      let zeros = replicate 16 0 in
      let first = blocks_for (length aad) in
      let more = blocks_for (length c) in
      let front = padded aad ++ padded c in
      let size : length front ≡ (first + more) * 16 =
        omega (arith, length-append (padded aad) (padded c), length-padded aad, length-padded c) in
      let count : length (front ++ lengths aad c) / 16 ≡ first + more + 1 =
        omega (arith, length-append front (lengths aad c), size) in
      let start = ghash_padded h zeros aad in
      let joined =
        ghash_loop-append h first more zeros (padded aad) (padded c) (length-padded aad) in
      let whole = ghash_loop-append h (first + more) 1 zeros front (lengths aad c) size in
      ghash_whole h s (lengths aad c) 1
      ∙ ap (λ t. ghash_loop h 1 t (lengths aad c))
          (e ∙ ap (λ t. ghash_loop h more t (padded c)) start ∙ sym joined)
      ∙ sym whole
      ∙ ap (λ t. ghash_loop h t zeros (front ++ lengths aad c)) (sym count)

  signed :
      (msg c : List ℕ) (s : Buffer Gcm)
      → length c ≡ length msg
      → Summed key iv aad msg c s
      → (gctr key s.mode.j0_begin (ghash (hash_key key) s.mode.sum (lengths aad s.result) 16) 16).1
        ≡ tag key iv aad c
  unfolding gctr
  signed msg c s size t =
      let h = hash_key key in
      let sum = lengths_sum c s.mode.sum t.sum in
      let all = hash key ((padded aad ++ padded c) ++ lengths aad c) in
      let same : length s.result ≡ length c =
        ap length t.result ∙ length-xor_bytes msg _ ∙ sym size in
      let summed : ghash h s.mode.sum (lengths aad s.result) 16 ≡ all =
        ap
          (λ (n : ℕ).
            ghash h s.mode.sum (u64_to_char (u64 (length aad * 8)) ++ u64_to_char (u64 (n * 8))) 16)
          same
        ∙ sum in
      let block : length all ≡ 16 =
        ap length (sym sum ∙ ghash_whole h s.mode.sum (lengths aad c) 1 ∙ one_block h s.mode.sum c)
        ∙ length-ghash_block h s.mode.sum (lengths aad c) in
      ap (λ l. (each_block (gctr_step key) 1 s.mode.j0_begin l).1) summed
      ∙ ap (λ r. r.1) (gctr_stream key 1 s.mode.j0_begin all block)
      ∙ ap (λ j. xor_bytes all (encrypt_bytes key j ++ [])) t.begin
      ∙ ap (xor_bytes all) (append-nil (encrypt_bytes key (first_counter iv)))
    where
      one_block :
          (h s c : List ℕ) → ghash_loop h 1 s (lengths aad c) ≡ ghash_block h s (lengths aad c)
      one_block h s c = ghash_loop-one h s (lengths aad c) (lengths_size c)

  -- The object that `tagged` leaves.
  abbrev signed_state : Buffer Gcm → Buffer Gcm
  signed_state s =
      let sum = ghash (hash_key key) s.mode.sum (lengths aad s.result) 16 in
      record s {
        result = [];
        mode = record s.mode {
          sum = sum;
          j0 = (gctr key s.mode.j0_begin sum 16).0;
          original_iv = increment 12 s.mode.original_iv;
        };
      }

  pub tagged_lem :
      (msg c : List ℕ) (s : Buffer Gcm)
      → 12 ≤ length iv
      → length c ≡ length msg
      → Summed key iv aad msg c s
      → Crypted key iv aad msg c
          (do ret ← tagged key aad s; s' ← reset (resetdata key aad) ret.0; some (s', ret.1))
  unfolding tagged reset
  tagged_lem msg c s enough size t =
      let next = increment 12 iv in
      let left = signed_state s in
      let long : 12 ≤ length next = omega (arith, length-increment 12 iv, enough) in
      let state : Buffer Gcm = record left {
        buffer_len = 0;
        result = [];
        mode = members key aad next;
      } in
      let vector : left.mode.original_iv ≡ next = ap (increment 12) t.original in
      let again : resetdata key aad left.mode ≡ some (members key aad next) =
        resetdata_lem key aad left.mode (rw vector long)
        ∙ ap (λ v. some (members key aad v)) vector in
      record {
        state = state;
        returned = rw again (
            ap (λ a. some (state, (a, s.result))) (signed msg c s size t)
            ∙ ap (λ b. some (state, (tag key iv aad c, b))) t.result);
        ready = of_iv_lem key aad next long;
        empty = (refl, refl);
      }
