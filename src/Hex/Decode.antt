-- ===== src/Hex/Decode.antt =====
-- src/trans.cpp, `Hex::decode`, against a definition of the decoding on lists.
use libnap.Base.{
  IsBytes, ℕ, zero, suc, ◌+◌, ◌*◌, ◌/◌, ◌%◌, ◌≤◌, ◌<◌, ◌^◌, List, [], ◌∷◌, ◌++◌, some,
}
use libnap.Base.{Bool, true, false, not, ◌≡◌, refl, ap, sym, ◌∙◌, arith, length, take, drop}
use libnap.Base.{length-snoc, load-append, load_next, store-append}
use libnap.Base.{snoc-append, snoc_snoc-append, u8, each_below, each_below_lem, ◌==◌, ==_iff, ◌>>=◌}
use libnap.Btring.{Btring, bytes}
use libnap.Btring.View.{view, IsValid, Yields, Yields-bind, Yields-eq, length-view}
use libnap.Btring.InPlace.{build_lem}
use libnap.Hex.{str_trans, decode_low, decode_loop, decode, encode}
use libnap.Hex.Encode.{digit, hex, hex_encode_lem}

-- Two digits to a byte; a last digit alone is the high half.
abbrev pub unhex : List ℕ → List ℕ
unhex [] = []
unhex (x ∷ []) = u8 (str_trans x * 16) ∷ []
unhex (x ∷ y ∷ t) = u8 (u8 (str_trans x * 16) + str_trans y) ∷ unhex t

decode_low_takes :
    (odd : Bool) (len i x y v : ℕ) (pre t p out : List ℕ)
    → i * 2 ≡ length pre
    → i ≡ length p
    → i * 2 + 1 < len
    → decode_low odd len (pre ++ x ∷ y ∷ t) i (p ++ v ∷ out)
      ≡ some (p ++ u8 (v + str_trans y) ∷ out)
unfolding decode_low
decode_low_takes odd len i x y v pre t p out at_m at_out inside = ground (
  arith,
  load_next pre x y t (i * 2 + 1) (omega arith),
  load-append p v out i at_out,
  store-append p v out i (u8 (v + str_trans y)) at_out,
)

decode_low_skips :
    (len i : ℕ) (m buffer : List ℕ) → len ≤ i * 2 + 1 → decode_low true len m i buffer ≡ some buffer
unfolding decode_low
decode_low_skips len i m buffer past = ground arith

module _ (odd : Bool) (len : ℕ) (parity : odd ≡ not (len % 2 == 0)) where
  decode_loop_lem :
      (n s i : ℕ) (pre t p out : List ℕ)
      → n ≡ (s + 1) / 2
      → len ≡ i * 2 + s
      → i * 2 ≡ length pre
      → i ≡ length p
      → s ≤ length t
      → n ≤ length out
      → decode_loop odd len (pre ++ t) n i (p ++ out) ≡ some (p ++ (unhex (take s t) ++ drop n out))
  unfolding decode_loop
  decode_loop_lem zero zero i pre t p out rounds left at_m at_out readable room = refl
  decode_loop_lem zero (suc s) i pre t p out rounds left at_m at_out readable room =
      absurd (omega arith)
  decode_loop_lem (suc n) zero i pre t p out rounds left at_m at_out readable room =
      absurd (omega arith)
  decode_loop_lem (suc n) (suc s) i pre [] p out rounds left at_m at_out readable room =
      absurd (omega arith)
  decode_loop_lem (suc n) (suc s) i pre (x ∷ t) p [] rounds left at_m at_out readable room =
      absurd (omega arith)
  decode_loop_lem (suc (suc n)) (suc zero) i pre (x ∷ t) p (o ∷ out) rounds left at_m at_out
        readable room =
      absurd (omega arith)
  decode_loop_lem (suc zero) (suc zero) i pre (x ∷ t) p (o ∷ out) rounds left at_m at_out readable
        room =
      let high = u8 (str_trans x * 16) in
      let is_odd : odd ≡ true = ground (arith, parity, left) in
      let skips =
        ap (λ c. decode_low c len (pre ++ x ∷ t) i (p ++ high ∷ out)) is_odd
        ∙ decode_low_skips len i (pre ++ x ∷ t) (p ++ high ∷ out) (omega arith) in
      rw (load-append pre x t (i * 2) at_m, store-append p o out i high at_out, skips)
  decode_loop_lem (suc n) (suc (suc s)) i pre (x ∷ []) p (o ∷ out) rounds left at_m at_out readable
        room =
      absurd (omega arith)
  decode_loop_lem (suc n) (suc (suc s)) i pre (x ∷ y ∷ t) p (o ∷ out) rounds left at_m at_out
        readable room =
      let high = u8 (str_trans x * 16) in
      rw
        (
          load-append pre x (y ∷ t) (i * 2) at_m,
          store-append p o out i high at_out,
          decode_low_takes odd len i x y high pre t p out at_m at_out (omega arith),
        )
        (ap (λ l. decode_loop odd len l n (i + 1) (p ++ u8 (high + str_trans y) ∷ out))
            (sym (snoc_snoc-append pre x y t))
          ∙ ap (decode_loop odd len (((pre ++ x ∷ []) ++ y ∷ []) ++ t) n (i + 1))
              (snoc-append p (u8 (high + str_trans y)) out)
          ∙ decode_loop_lem n s (i + 1) ((pre ++ x ∷ []) ++ y ∷ []) t
              (p ++ u8 (high + str_trans y) ∷ []) out (omega arith) (omega arith)
              (omega (arith, length-snoc pre x, length-snoc (pre ++ x ∷ []) y))
              (omega (arith, length-snoc p (u8 (high + str_trans y)))) (omega arith) (omega arith)
          ∙ ap some
              (sym (snoc-append p (u8 (high + str_trans y)) (unhex (take s t) ++ drop n out))))

length-unhex : (m : List ℕ) → length (unhex m) ≡ (length m + 1) / 2
length-unhex [] = refl
length-unhex (x ∷ []) = refl
length-unhex (x ∷ y ∷ t) = omega (arith, length-unhex t)

-- `decode` of a well-formed string never faults and returns a well-formed string of the decoded
-- bytes, whatever the text is; where its length is odd, the last digit is the high half.
pub hex_decode_lem :
    (fresh : ℕ → List ℕ)
    → ((n : ℕ) → length (fresh n) ≡ n)
    → (mem : Btring) → IsValid mem
    → Yields (decode fresh mem) (unhex (view mem))
unfolding decode
hex_decode_lem fresh new mem v =
    build_lem fresh new _ _ _ (ground (arith, v.fits, v.bounded))
      (ground (arith, length-unhex (view mem), length-view v))
      (λ c room.
        decode_loop_lem (not (mem.size % 2 == 0)) mem.size refl _ mem.size 0 [] (bytes mem.content)
          [] c (ground arith) (omega arith) refl refl (omega (arith, v.allocated, v.fits)) room)

digit_table :
    (each_below 16 (λ x. str_trans (digit true x) == x) ≡ true)
    × (each_below 16 (λ x. str_trans (digit false x) == x) ≡ true)
unfolding str_trans each_below
digit_table = (refl, refl)

str_trans-digit : (capital : Bool) (x : ℕ) → x < 16 → str_trans (digit capital x) ≡ x
str_trans-digit true x h = (==_iff _ _).0 (each_below_lem 16 _ x digit_table.0 h)
str_trans-digit false x h = (==_iff _ _).0 (each_below_lem 16 _ x digit_table.1 h)

pub unhex-hex : (capital : Bool) (m : List ℕ) → IsBytes m → unhex (hex capital m) ≡ m
unhex-hex capital [] small = refl
unhex-hex capital (c ∷ m) small =
    rw
      (
        str_trans-digit capital (c / 16) (omega (arith, small.0)),
        str_trans-digit capital (c % 16) (omega arith),
        unhex-hex capital m small.1,
      )
      (ap (λ d. d ∷ m) (omega (arith, small.0)))

-- `decode` undoes `encode`, in capital and in small letters, for every well-formed string of
-- bytes that is not so long that its text has no `size_t` length.
pub hex_decode-encode :
    (fresh : ℕ → List ℕ)
    → ((n : ℕ) → length (fresh n) ≡ n)
    → (mem : Btring) (capital : Bool) → IsValid mem
    → IsBytes (view mem)
    → mem.size * 2 < 2 ^ 64
    → Yields (encode fresh mem capital >>= decode fresh) (view mem)
hex_decode-encode fresh new mem capital v small bound =
    Yields-bind (hex_encode_lem fresh new mem capital v small bound) λ text ok shows.
      Yields-eq (hex_decode_lem fresh new text ok)
        (ap unhex shows ∙ unhex-hex capital (view mem) small)
