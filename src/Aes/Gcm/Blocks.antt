-- ===== src/Aes/Gcm/Blocks.antt =====
-- src/aes.cpp, GCM: the loops of `gctr` and `ghash` as rounds over single blocks.
use Prim.{Unit, tt}
use libnap.Base.{
  ◌+◌, some, ◌≤◌, memcpy, memcpy_lem, take_all, drop_all, ◌^◌, ℕ, zero, suc, ◌-◌, ◌*◌, ◌/◌, List,
  [], ◌∷◌, ◌++◌, Bool, true, false, ◌≡◌, refl, sym, ap, ◌∙◌, arith, bit_xor_comm, bit_xor,
}
use libnap.Base.{
  take, drop, length, length-eq_zero, take-append, drop-append, length-append, length-take,
  length-drop, take-append-drop, le→leb, append_assoc, append-nil,
}
use libnap.Aes.Key.{AesKey}
use libnap.Aes.Bytes.{encrypt_bytes, xor_bytes}
use libnap.Aes.Stream.{Handle, each_block}
use libnap.Aes.Stream.Add.{Serves, length-each_block}
use libnap.Aes.Modes.Rounds.{length-xor_bytes, encrypted_size}
use libnap.Aes.Modes.Counter.{xor_bytes-append}
use libnap.Aes.Gcm.{
  Gcm, inc32, gctr_step, gctr, ghash_block, ghash_loop, ghash, hash_key, handle_encrypt,
  handle_decrypt,
}

-- The counter after `n` blocks, and the bytes of the counters before it, encrypted.
abbrev pub counted : ℕ → List ℕ → List ℕ
counted zero j = j
counted (suc n) j = counted n (inc32 j)

abbrev pub stream : AesKey → ℕ → List ℕ → List ℕ
stream key zero j = []
stream key (suc n) j = encrypt_bytes key j ++ stream key n (inc32 j)

pub length-stream : (key : AesKey) (n : ℕ) (j : List ℕ) → length (stream key n j) ≡ n * 16
length-stream key zero j = refl
length-stream key (suc n) j = omega (
  arith,
  length-append (encrypt_bytes key j) (stream key n (inc32 j)),
  encrypted_size key j,
  length-stream key n (inc32 j),
)

pub stream_snoc :
    (key : AesKey) (n : ℕ) (j : List ℕ)
    → stream key (suc n) j ≡ stream key n j ++ encrypt_bytes key (counted n j)
stream_snoc key zero j = append-nil (encrypt_bytes key j)
stream_snoc key (suc n) j =
    ap (λ l. encrypt_bytes key j ++ l) (stream_snoc key n (inc32 j))
    ∙ sym (append_assoc (encrypt_bytes key j) (stream key n (inc32 j)) _)

pub xor_bytes_comm : (a b : List ℕ) → length a ≡ length b → xor_bytes a b ≡ xor_bytes b a
unfolding xor_bytes
xor_bytes_comm [] [] h = refl
xor_bytes_comm [] (y ∷ b) h = absurd (omega (arith, h))
xor_bytes_comm (x ∷ a) [] h = absurd (omega (arith, h))
xor_bytes_comm (x ∷ a) (y ∷ b) h =
    rw (bit_xor_comm x y) (ap (λ l. bit_xor y x ∷ l) (xor_bytes_comm a b (omega (arith, h))))

-- `gctr` of whole blocks.
pub gctr_stream :
    (key : AesKey) (n : ℕ) (j l : List ℕ)
    → length l ≡ n * 16
    → each_block (gctr_step key) n j l ≡ (counted n j, xor_bytes l (stream key n j))
unfolding each_block gctr_step
gctr_stream key zero j l size = unfold xor_bytes in rw (length-eq_zero l (omega (arith, size))) refl
gctr_stream key (suc n) j l size =
    let front : length (take 16 l) ≡ length (encrypt_bytes key j) =
      omega (arith, length-take 16 l, size, encrypted_size key j) in
    let swapped = xor_bytes_comm (encrypt_bytes key j) (take 16 l) (sym front) in
    let whole : xor_bytes l (stream key (suc n) j)
        ≡ xor_bytes (take 16 l) (encrypt_bytes key j)
          ++ xor_bytes (drop 16 l) (stream key n (inc32 j)) =
      ap (λ k. xor_bytes k (stream key (suc n) j)) (sym (take-append-drop 16 l))
      ∙ xor_bytes-append (take 16 l) (drop 16 l) (encrypt_bytes key j) (stream key n (inc32 j))
          front in
    rw
      (
        gctr_stream key n (inc32 j) (drop 16 l) (omega (arith, length-drop 16 l, size)),
        swapped,
        whole,
      )
      refl

-- The text that is hashed: what is put out by encryption, what is taken in by decryption.
abbrev pub hashed : Bool → List ℕ → List ℕ → List ℕ
hashed true taken out = out
hashed false taken out = taken

take-hashed :
    (e : Bool) (l o q : List ℕ)
    → 16 ≡ length o
    → take 16 (hashed e l (o ++ q)) ≡ hashed e (take 16 l) o
take-hashed true l o q h = take-append 16 o q h
take-hashed false l o q h = refl

drop-hashed :
    (e : Bool) (l o q : List ℕ)
    → 16 ≡ length o
    → drop 16 (hashed e l (o ++ q)) ≡ hashed e (drop 16 l) q
drop-hashed true l o q h = drop-append 16 o q h
drop-hashed false l o q h = refl

abbrev pub handle_of : Bool → AesKey → List ℕ → Handle Gcm
handle_of true key aad = handle_encrypt key aad
handle_of false key aad = handle_decrypt key aad

module _ (encrypts : Bool) (key : AesKey) where
  -- A block through both loops.
  abbrev pub step : Gcm → List ℕ → Gcm × List ℕ
  step m block =
      let r = gctr_step key m.j0 block in
      (
        record m { j0 = r.0; sum = ghash_block (hash_key key) m.sum (hashed encrypts block r.1) },
        r.1,
      )

  pub step_sized : (m : Gcm) (b : List ℕ) → length b ≡ 16 → length (step m b).1 ≡ 16
  unfolding gctr_step
  step_sized m b h = length-xor_bytes (encrypt_bytes key m.j0) b ∙ encrypted_size key m.j0

  step_out : (j l : List ℕ) → length (gctr_step key j l).1 ≡ 16
  unfolding gctr_step
  step_out j l = length-xor_bytes (encrypt_bytes key j) l ∙ encrypted_size key j

  pub rounds :
      (n : ℕ) (m : Gcm) (l : List ℕ)
      → let r = each_block (gctr_step key) n m.j0 l in
        each_block step n m l ≡ (
          record m { j0 = r.0; sum = ghash_loop (hash_key key) n m.sum (hashed encrypts l r.1) },
          r.1,
        )
  unfolding each_block ghash_loop
  rounds zero m l = refl
  rounds (suc n) m l =
      let out = (gctr_step key m.j0 (take 16 l)).1 in
      let more = (each_block (gctr_step key) n (gctr_step key m.j0 (take 16 l)).0 (drop 16 l)).1 in
      let front : take 16 (hashed encrypts l (out ++ more)) ≡ hashed encrypts (take 16 l) out =
        take-hashed encrypts l out more (sym (step_out m.j0 (take 16 l))) in
      let rest : drop 16 (hashed encrypts l (out ++ more)) ≡ hashed encrypts (drop 16 l) more =
        drop-hashed encrypts l out more (sym (step_out m.j0 (take 16 l))) in
      rw (rounds n (step m (take 16 l)).0 (drop 16 l), front, rest) refl

-- `ghash` of whole blocks.
pub ghash_whole : (h s x : List ℕ) (n : ℕ) → ghash h s x (n * 16) ≡ ghash_loop h n s x
unfolding ghash
ghash_whole h s x n =
    let blocks : n * 16 / 16 ≡ n = omega arith in
    let none_left : n * 16 - n * 16 ≡ 0 = omega arith in rw (blocks, none_left) refl

-- All of the memory is written.
memcpy_all :
    (out src : List ℕ) (n : ℕ) → length out ≡ n → length src ≡ n → memcpy out 0 src n ≡ some src
memcpy_all out src n room size =
    memcpy_lem out 0 src n (omega (arith, room)) (omega (arith, size))
    ∙ rw
        (
          take_all n src (omega (arith, size)),
          drop_all (0 + n) out (omega (arith, room)),
          append-nil src,
        )
        refl

handle-runs :
    (e : Bool) (key : AesKey) (aad : List ℕ) (m : Gcm) (in_place : Bool) (bytes out : List ℕ)
    (n : ℕ)
    → n * 16 ≤ length bytes
    → length out ≡ n * 16
    → handle_of e key aad m in_place bytes out (n * 16) ≡ some (each_block (step e key) n m bytes)
unfolding handle_encrypt handle_decrypt gctr
handle-runs e key aad m in_place bytes out n enough room =
    let blocks : n * 16 / 16 ≡ n = omega arith in
    let result = (each_block (gctr_step key) n m.j0 bytes).1 in
    let size : length result ≡ n * 16 =
      length-each_block (gctr_step key) (λ j b h. step_out e key j b) n m.j0 bytes enough in
    let written : memcpy out 0 result (n * 16) ≡ some result =
      memcpy_all out result (n * 16) room size in
    by_class e blocks written
  where
    by_class :
        (e : Bool)
        → n * 16 / 16 ≡ n
        → memcpy out 0 (each_block (gctr_step key) n m.j0 bytes).1 (n * 16)
          ≡ some (each_block (gctr_step key) n m.j0 bytes).1
        → handle_of e key aad m in_place bytes out (n * 16)
          ≡ some (each_block (step e key) n m bytes)
    by_class true blocks written =
        rw
          (
            le→leb (n * 16) (length bytes) enough,
            blocks,
            written,
            rounds true key n m bytes,
            ghash_whole (hash_key key) m.sum (each_block (gctr_step key) n m.j0 bytes).1 n,
          )
          refl
    by_class false blocks written =
        rw
          (
            le→leb (n * 16) (length bytes) enough,
            blocks,
            written,
            rounds false key n m bytes,
            ghash_whole (hash_key key) m.sum bytes n,
          )
          refl

abbrev pub Always : Gcm → Type 0
Always m = Unit

-- `handle` of both classes, on as many bytes as a `size_t` can count.
pub handle-Serves :
    (encrypts : Bool) (key : AesKey) (aad : List ℕ)
    → Serves (step encrypts key) Always (2 ^ 64) (handle_of encrypts key aad)
handle-Serves encrypts key aad = record {
  runs = λ m in_place bytes out n ok enough bound room.
      handle-runs encrypts key aad m in_place bytes out n enough room;
  keeps = λ m b h ok. tt;
  sized = step_sized encrypts key;
  some_block = omega arith;
}
