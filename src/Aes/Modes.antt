-- ===== src/Aes/Modes.antt =====
-- src/aes.cpp and src/aes.h: the classes AesECBEncryption, AesECBDecryption, AesCBCEncryption,
-- AesCBCDecryption and AesCTREncryption over AesBuffer. `_result` stands for its bytes, of which
-- `resize` gives a front where it makes the string shorter.
pub mod Cipher
pub mod Chain
pub mod Finish
pub mod Rounds
pub mod Codebook
pub mod Counter
pub mod Split
mod Examples
use libnap.Base.{
  ℕ, ◌+◌, ◌-◌, ◌^◌, List, [], ◌++◌, Option, some, none, true, Bool, if◌then◌else◌, ◌==◌,
}
use libnap.Base.{◌>>=◌, u8, take, drop, length, replicate, load, leb}
use libnap.Aes.Key.{AesKey}
use libnap.Aes.Bytes.{encrypt_bytes, decrypt_bytes, xor_bytes}
use libnap.Aes.Iv.{increment}
use libnap.Aes.Padding.{PaddingType, Removed, plus, minus, add_padding, remove_padding}
use libnap.Aes.Stream.{Buffer, Handle, handle_blocks, add}
use libnap.Aes.Stream.Pieces.{add_pieces}

-- ECB has no members that `handle` changes.
pub data NoMembers : Type 0 where
  no_members : NoMembers

-- `_iv` and `_original_iv`, or `_counter` and `_original_counter`.
pub record Ivs : Type 0 where
  pub iv : List ℕ
  pub original : List ℕ

-- The constructors.
pub of_iv : List ℕ → Ivs
of_iv iv = record { iv = iv; original = iv }

-- One round of each `handle`, with whether the output is the input's own memory.
pub ecb_encrypt : AesKey → Bool → NoMembers → List ℕ → NoMembers × List ℕ
ecb_encrypt key in_place m block = (m, encrypt_bytes key block)

pub ecb_decrypt : AesKey → Bool → NoMembers → List ℕ → NoMembers × List ℕ
ecb_decrypt key in_place m block = (m, decrypt_bytes key block)

-- `_piv` points to the block put out.
pub cbc_encrypt : AesKey → Bool → Ivs → List ℕ → Ivs × List ℕ
cbc_encrypt key in_place m block =
    let out = encrypt_bytes key (xor_bytes block m.iv) in (record m { iv = out }, out)

-- `_piv` points into the input, which is the block put out where they are the same memory.
pub cbc_decrypt : AesKey → Bool → Ivs → List ℕ → Ivs × List ℕ
cbc_decrypt key in_place m block =
    let out = xor_bytes (decrypt_bytes key block) m.iv in
    (record m { iv = if in_place then out else block }, out)

pub ctr_crypt : AesKey → Bool → Ivs → List ℕ → Ivs × List ℕ
ctr_crypt key in_place m block =
    (record m { iv = increment 16 m.iv }, xor_bytes block (encrypt_bytes key m.iv))

-- The sixteen bytes of the counter that each round reads.
unfoldable pub counter_ready : Ivs → Bool
counter_ready m = leb 16 (length m.iv)

-- The rounds of ECB and CBC, the latter of an initial vector of sixteen bytes.
abbrev pub always_ready : {S : Type 0} → S → Bool
always_ready m = true

-- `resetdata`
pub restore_iv : Ivs → Ivs
restore_iv m = record m { iv = m.original }

-- `_result.resize(len - removepad)`: a negative length makes the string longer, by bytes `fresh`.
pub shorten : (ℕ → List ℕ) → List ℕ → Removed → List ℕ
shorten fresh result (plus n) = take (length result - n) result
shorten fresh result (minus n) = result ++ fresh n

module _ {S : Type 0} (handle : Handle S) where
  -- `endinput` of the two encryptions: the padding is written into `_buffer`, and then added.
  pub end_encrypt : (ℕ → ℕ) → PaddingType → Buffer S → Option (Buffer S × List ℕ)
  end_encrypt random type s = do
    padded ← add_padding random type s.buffer (u8 s.buffer_len)
    s' ← add handle (record s { buffer = padded.0 }) (drop (16 - padded.1) padded.0) padded.1
    some (record s' { result = [] }, s'.result)

-- `endinput` of AesCTREncryption: what is left over is filled up with what stands in `_buffer`,
-- and the counter reached is kept for `resetdata`.
pub end_counter : Handle Ivs → Buffer Ivs → Option (Buffer Ivs × List ℕ)
end_counter handle s =
    let len = u8 s.buffer_len in
    let f = 16 - len in
    let finish : Buffer Ivs → List ℕ → Buffer Ivs × List ℕ =
      λ s' res. (record s' { result = []; mode = record s'.mode { original = s'.mode.iv } }, res) in
    let filled = (do
      s' ← add handle s (drop len s.buffer) f
      some (finish s' (take (length s'.result - f) s'.result))) in
    if len == 0 then some (finish s s.result) else filled

-- `endinput` of the two decryptions, with the last byte of the result, which an empty one has not.
unfoldable pub end_decrypt :
    {S : Type 0} → (ℕ → List ℕ) → PaddingType → Buffer S → Option (Buffer S × List ℕ)
end_decrypt fresh type s = do
  removed ← remove_padding type (drop (length s.result - 1) s.result) 1
  some (record s { result = [] }, shorten fresh s.result removed)

-- `reset`, with the class's `resetdata`.
unfoldable pub reset : {S : Type 0} → (S → Option S) → Buffer S → Option (Buffer S)
reset resetdata s = do
  mode ← resetdata s.mode
  some (record s { buffer_len = 0; result = []; mode = mode })

-- `end`, with the class's `endinput` and `resetdata`.
unfoldable pub end :
    {S R : Type 0}
    → (Buffer S → Option (Buffer S × R))
    → (S → Option S)
    → Buffer S
    → Option (Buffer S × R)
end endinput resetdata s = do ret ← endinput s; s' ← reset resetdata ret.0; some (s', ret.1)

-- A message is given in pieces, and ended.
unfoldable pub crypt :
    {S R : Type 0}
    → Handle S
    → (Buffer S → Option (Buffer S × R))
    → (S → Option S)
    → Buffer S
    → List (List ℕ)
    → Option (Buffer S × R)
crypt handle endinput resetdata s pieces = do
  s' ← add_pieces handle s pieces
  end endinput resetdata s'

-- A `resetdata` that cannot fault.
abbrev pub always : {S : Type 0} → (S → S) → S → Option S
always f m = some (f m)

-- `resetdata` of the ECB classes.
pub keep_members : NoMembers → NoMembers
keep_members m = m

abbrev pub Session : Type 0 → Type 0
Session S = Buffer S → List (List ℕ) → Option (Buffer S × List ℕ)

-- The classes: what comes of a message in pieces.
abbrev pub ecb_encryption : AesKey → (ℕ → ℕ) → PaddingType → Session NoMembers
ecb_encryption key random type =
    let handle = handle_blocks always_ready (ecb_encrypt key) in
    crypt handle (end_encrypt handle random type) (always keep_members)

abbrev pub ecb_decryption : AesKey → (ℕ → List ℕ) → PaddingType → Session NoMembers
ecb_decryption key fresh type =
    crypt (handle_blocks always_ready (ecb_decrypt key)) (end_decrypt fresh type)
      (always keep_members)

abbrev pub cbc_encryption : AesKey → (ℕ → ℕ) → PaddingType → Session Ivs
cbc_encryption key random type =
    let handle = handle_blocks always_ready (cbc_encrypt key) in
    crypt handle (end_encrypt handle random type) (always restore_iv)

abbrev pub cbc_decryption : AesKey → (ℕ → List ℕ) → PaddingType → Session Ivs
cbc_decryption key fresh type =
    crypt (handle_blocks always_ready (cbc_decrypt key)) (end_decrypt fresh type)
      (always restore_iv)

abbrev pub ctr_encryption : AesKey → Session Ivs
ctr_encryption key =
    let handle = handle_blocks counter_ready (ctr_crypt key) in
    crypt handle (end_counter handle) (always restore_iv)
