-- ===== src/Aes/Padding/Marked.antt =====
-- src/aes.cpp, class AesPadding: the kinds of padding that say how many bytes they add.
use libnap.Base.{
  ℕ, zero, suc, ◌+◌, ◌-◌, ◌^◌, ◌<◌, ◌≤◌, List, [], ◌∷◌, ◌++◌, Option, none, some, true, false, ◌≡◌,
  refl, sym, ap, ◌∙◌, arith,
}
use libnap.Base.{
  IsBytes, take, drop, length, load, store, store-append, memcpy_lem, memcpy, take-append-drop,
  take-drop-append, length-take, length-drop, length-replicate, append_assoc, append-nil,
  length-eq_zero, next_split, length-snoc, drop_all, take_all, append-IsBytes, replicate, u8, ◌>>=◌,
  load_behind, ltb, lt→ltb, le→not-ltb,
}
use Prim.{Unit, tt}
use libnap.Aes.Padding.{
  PaddingType, pkcs5, pkcs7, iso10126, zeros, no_padding, plus, fill_random, add_padding,
  char_value, remove_padding,
}

-- The kinds of padding whose last byte is their length.
abbrev pub Marks : PaddingType → Type 0
Marks pkcs5 = Unit
Marks pkcs7 = Unit
Marks iso10126 = Unit
Marks zeros = ⊥
Marks no_padding = ⊥

-- A block filled up from `len` bytes on.
pub record Padded (buf : List ℕ) (len : ℕ) (result : Option (List ℕ × ℕ)) : Type 0 where
  pub bytes : List ℕ
  pub returned : result ≡ some (take len buf ++ bytes, 16 - len)
  pub size : length bytes ≡ 16 - len
  pub are_bytes : IsBytes bytes
  pub mark : load bytes (15 - len) ≡ some (16 - len)

replicate-IsBytes : (n c : ℕ) → c < 256 → IsBytes (replicate n c)
replicate-IsBytes zero c h = tt
replicate-IsBytes (suc n) c h = (h, replicate-IsBytes n c h)

load-replicate : (n c i : ℕ) → i < n → load (replicate n c) i ≡ some c
load-replicate zero c i h = absurd (omega arith)
load-replicate (suc n) c zero h = refl
load-replicate (suc n) c (suc i) h = load-replicate n c i (omega arith)

-- PKCS5 and PKCS7.
repeated :
    (buf : List ℕ) (len : ℕ)
    → length buf ≡ 16
    → len < 16
    → Padded buf len (do
      let fill = u8 (16 + 2 ^ 8 - len)
      out ← memcpy buf len (replicate fill fill) fill
      some (out, fill))
repeated buf len size short =
    let fill : u8 (16 + 2 ^ 8 - len) ≡ 16 - len = omega (arith, short) in
    let n = 16 - len in
    let copied =
      memcpy_lem buf len (replicate n n) n (omega (arith, short, size))
        (omega (arith, length-replicate n n)) in
    let whole : take n (replicate n n) ≡ replicate n n =
      take_all n (replicate n n) (omega (arith, length-replicate n n)) in
    let none_left : drop (len + n) buf ≡ [] = drop_all (len + n) buf (omega (arith, short, size)) in
    rw (fill, copied, whole, none_left)
      (record {
        bytes = replicate n n;
        returned = ap (λ l. some (take len buf ++ l, n)) (append-nil (replicate n n));
        size = length-replicate n n;
        are_bytes = replicate-IsBytes n n (omega arith);
        mark = load-replicate n n (15 - len) (omega (arith, short));
      })

-- The loop that fills with random bytes writes these, and keeps what is in front and behind.
filled :
    (random : ℕ → ℕ)
    → ((i : ℕ) → random i < 256)
    → (n i : ℕ) (a b z : List ℕ) → length a ≡ i
    → length b ≡ n
    → (c : List ℕ) × (fill_random random n i (a ++ (b ++ z)) ≡ some (a ++ (c ++ z)))
      × (length c ≡ n)
      × IsBytes c
unfolding fill_random
filled random bound zero i a [] z at_i size = ([], refl, refl, tt)
filled random bound zero i a (y ∷ b) z at_i size = absurd (omega arith)
filled random bound (suc n) i a [] z at_i size = absurd (omega arith)
filled random bound (suc n) i a (y ∷ b) z at_i size =
    let (c, runs, size', are_bytes) =
      filled random bound n (i + 1) (a ++ random i ∷ []) b z
        (omega (arith, length-snoc a (random i), at_i)) (omega (arith, size)) in
    (
      random i ∷ c,
      rw
          (
            store-append a y (b ++ z) i (random i) (sym at_i),
            sym (append_assoc a (random i ∷ []) (b ++ z)),
          )
          (runs ∙ ap some (append_assoc a (random i ∷ []) (c ++ z))),
      omega (arith, size'),
      (bound i, are_bytes),
    )

-- ISO 10126.
random_filled :
    (random : ℕ → ℕ)
    → ((i : ℕ) → random i < 256)
    → (buf : List ℕ) (len : ℕ) → length buf ≡ 16
    → len < 16
    → Padded buf len (do
      let fill = u8 (16 + 2 ^ 8 - len)
      marked ← store buf 15 fill
      out ← fill_random random (15 - len) len marked
      some (out, fill))
random_filled random bound buf len size short =
    let fill : u8 (16 + 2 ^ 8 - len) ≡ 16 - len = omega (arith, short) in
    let n = 16 - len in
    let mid = take (15 - len) (drop len buf) in
    let (x, last, l_eq, l_size) =
      next_split 0 (drop 15 buf) (omega (arith, size, length-drop 15 buf)) in
    let none_left = length-eq_zero last l_size in
    let front : take len buf ++ mid ≡ take 15 buf =
      take-drop-append len 15 buf (omega (arith, short)) in
    let whole : take 15 buf ++ x ∷ [] ≡ buf =
      ap (λ l. take 15 buf ++ l) (sym (l_eq ∙ ap (λ l. x ∷ l) none_left))
      ∙ take-append-drop 15 buf in
    let stored : store buf 15 n ≡ some (take len buf ++ (mid ++ n ∷ [])) =
      ap (λ b. store b 15 n) (sym whole)
      ∙ store-append (take 15 buf) x [] 15 n (omega (arith, size, length-take 15 buf))
      ∙ ap (λ l. some (l ++ n ∷ [])) (sym front)
      ∙ ap some (append_assoc (take len buf) mid (n ∷ [])) in
    let (c, runs, c_size, are_bytes) =
      filled random bound (15 - len) len (take len buf) mid (n ∷ [])
        (omega (arith, length-take len buf, size, short))
        (omega (arith, length-take (15 - len) (drop len buf), length-drop len buf, size, short)) in
    rw (fill, stored, runs)
      (record {
        bytes = c ++ n ∷ [];
        returned = refl;
        size = omega (arith, length-snoc c n, c_size, short);
        are_bytes = append-IsBytes c (n ∷ []) are_bytes (omega arith, tt);
        mark = load_behind c (n ∷ []) (15 - len) 0 (omega (arith, c_size));
      })

pub add_padding_lem :
    (random : ℕ → ℕ)
    → ((i : ℕ) → random i < 256)
    → (type : PaddingType) (buf : List ℕ) (len : ℕ) → Marks type
    → length buf ≡ 16
    → len < 16
    → Padded buf len (add_padding random type buf len)
unfolding add_padding
add_padding_lem random bound pkcs5 buf len marks size short = repeated buf len size short
add_padding_lem random bound pkcs7 buf len marks size short = repeated buf len size short
add_padding_lem random bound iso10126 buf len marks size short =
    random_filled random bound buf len size short
add_padding_lem random bound zeros buf len marks size short = absurd marks
add_padding_lem random bound no_padding buf len marks size short = absurd marks

abbrev value_of : Option ℕ → ℕ
value_of none = 0
value_of (some v) = v

-- The last byte of a string.
pub last_byte :
    (l : List ℕ) (n v : ℕ) → length l ≡ suc n → load l n ≡ some v → drop (length l - 1) l ≡ v ∷ []
last_byte [] n v h k = absurd (omega arith)
last_byte (x ∷ []) zero v h k = ap (λ a. a ∷ []) (ap value_of k)
last_byte (x ∷ []) (suc n) v h k = absurd (omega arith)
last_byte (x ∷ y ∷ l) zero v h k = absurd (omega arith)
last_byte (x ∷ y ∷ l) (suc n) v h k =
    let e : length (x ∷ y ∷ l) - 1 ≡ suc (length (y ∷ l) - 1) = omega arith in
    rw e (last_byte (y ∷ l) n v (omega arith) k)

mark_value : (v : ℕ) → v ≤ 16 → some (char_value v) ≡ some (plus v)
unfolding char_value
mark_value v small =
    let positive : ltb v 128 ≡ true = lt→ltb v 128 (omega (arith, small)) in
    let in_block : ltb 16 v ≡ false = le→not-ltb 16 v small in rw (positive, in_block) refl

-- A mark is read as the number of bytes to remove.
pub remove_padding_mark :
    (type : PaddingType) (v : ℕ)
    → Marks type
    → v ≤ 16
    → remove_padding type (v ∷ []) 1 ≡ some (plus v)
unfolding remove_padding char_value
remove_padding_mark pkcs5 v marks small = mark_value v small
remove_padding_mark pkcs7 v marks small = mark_value v small
remove_padding_mark iso10126 v marks small = mark_value v small
remove_padding_mark zeros v marks small = absurd marks
remove_padding_mark no_padding v marks small = absurd marks
