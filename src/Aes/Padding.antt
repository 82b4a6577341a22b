-- ===== src/Aes/Padding.antt =====
-- src/aes.h and src/aes.cpp, class AesPadding: the last block is a list of sixteen bytes. The
-- generator of random numbers is a parameter, with the bytes that it gives in turn.
pub mod Marked
use libnap.Base.{ℕ, zero, suc, ◌+◌, ◌-◌, ◌^◌, List, Option, some, if◌then◌else◌, ltb, ◌>>=◌, u8}
use libnap.Base.{load, store, memcpy, replicate}

pub data PaddingType : Type 0 where
  pkcs5 pkcs7 iso10126 zeros no_padding : PaddingType

-- The loop that fills with random bytes, with the rounds left and the index.
unfoldable pub fill_random : (ℕ → ℕ) → ℕ → ℕ → List ℕ → Option (List ℕ)
fill_random random zero i buf = some buf
fill_random random (suc n) i buf = do
  next ← store buf i (random i)
  fill_random random n (i + 1) next

-- The block afterwards, and the returned length.
unfoldable pub add_padding : (ℕ → ℕ) → PaddingType → List ℕ → ℕ → Option (List ℕ × ℕ)
add_padding random no_padding buf len = some (buf, 0)
add_padding random pkcs5 buf len = do
  let fill = u8 (16 + 2 ^ 8 - len)
  out ← memcpy buf len (replicate fill fill) fill
  some (out, fill)
add_padding random pkcs7 buf len = do
  let fill = u8 (16 + 2 ^ 8 - len)
  out ← memcpy buf len (replicate fill fill) fill
  some (out, fill)
add_padding random iso10126 buf len = do
  let fill = u8 (16 + 2 ^ 8 - len)
  marked ← store buf 15 fill
  out ← fill_random random (15 - len) len marked
  some (out, fill)
add_padding random zeros buf len = do
  let fill = u8 (16 + 2 ^ 8 - len)
  out ← memcpy buf len (replicate fill 0) fill
  some (out, fill)

-- The returned number is an `int`, of which the last `char` is one; `minus n` is a negative one.
pub data Removed : Type 0 where
  plus : ℕ → Removed
  minus : ℕ → Removed

unfoldable pub char_value : ℕ → Removed
char_value b = if ltb b 128 then (if ltb 16 b then minus 1 else plus b) else minus (256 - b)

unfoldable pub remove_padding : PaddingType → List ℕ → ℕ → Option Removed
remove_padding no_padding buf len = some (plus 0)
remove_padding zeros buf len = some (plus 0)
remove_padding pkcs5 buf len = do last ← load buf (len - 1); some (char_value last)
remove_padding pkcs7 buf len = do last ← load buf (len - 1); some (char_value last)
remove_padding iso10126 buf len = do last ← load buf (len - 1); some (char_value last)
