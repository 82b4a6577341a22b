-- ===== src/Base64/Decode/Blocks.antt =====
-- src/trans.cpp, the loop and the last block of `Base64::decode`.
use libnap.Base.{ℕ, zero, suc, ◌+◌, ◌-◌, ◌*◌, ◌≤◌, ◌<◌, ◌^◌, List, [], ◌∷◌, ◌++◌, Option, some}
use libnap.Base.{Bool, ◌≡◌, refl, ap, sym, ◌∙◌, arith, length, take, drop, min}
use libnap.Base.{append_assoc, length-append, take-append}
use libnap.Base.{if◌then◌else◌, load_behind, u64, ◌==◌, ◌>>=◌, inl, inr, Bool-cases, take_all}
use libnap.Btring.{Btring, resize, on_content}
use libnap.Btring.View.{view, IsValid, Yields, length-view}
use libnap.Btring.Resize.{resize_lem}
use libnap.Btring.InPlace.{on_view_lem}
use libnap.Base64.{detable, decode_loop, last_one, last_two, decode_padded, decode_tail}
use libnap.Base64.Decode.{three, last_group, IsAscii, deblock_lem, last_one_lem}
use libnap.Base64.Decode.{last_two_lem}

-- Whole groups.
abbrev pub triples : Bool → List ℕ → List ℕ
triples safe (w ∷ x ∷ y ∷ z ∷ s) = three safe w x y z ++ triples safe s
triples safe s = []

pub decode_loop_lem :
    (safe : Bool) (n i : ℕ) (pre s junk p out : List ℕ)
    → IsAscii s
    → length s ≡ n * 4
    → i * 4 ≡ length pre
    → i * 3 ≡ length p
    → n * 3 ≤ length out
    → decode_loop (detable safe) (pre ++ (s ++ junk)) n i (p ++ out)
      ≡ some (p ++ (triples safe s ++ drop (n * 3) out))
unfolding decode_loop
decode_loop_lem safe zero i pre [] junk p out ascii rounds at_base at_out room = refl
decode_loop_lem safe (suc n) i pre (w ∷ x ∷ y ∷ z ∷ s) junk p (o1 ∷ o2 ∷ o3 ∷ out) ascii rounds
      at_base at_out room =
    let (hw, (hx, (hy, (hz, rest)))) = ascii in
    let block = three safe w x y z in
    let next =
      decode_loop_lem safe n (i + 1) (pre ++ w ∷ x ∷ y ∷ z ∷ []) s junk (p ++ block) out rest
        (omega arith) (omega (arith, length-append pre (w ∷ x ∷ y ∷ z ∷ [])))
        (omega (arith, length-append p block)) (omega arith) in
    let count : suc n * 3 ≡ suc (suc (suc (n * 3))) = omega arith in
    rw
      (
        count,
        deblock_lem safe pre w x y z (s ++ junk) (i * 4) at_base hw hx hy hz p o1 o2 o3 out (i * 3)
            at_out,
      )
      (ap (λ l. decode_loop (detable safe) l n (i + 1) (p ++ (block ++ out)))
          (sym (append_assoc pre (w ∷ x ∷ y ∷ z ∷ []) (s ++ junk)))
        ∙ ap (decode_loop (detable safe) ((pre ++ w ∷ x ∷ y ∷ z ∷ []) ++ (s ++ junk)) n (i + 1))
            (sym (append_assoc p block out))
        ∙ next
        ∙ ap some (append_assoc p block _))
decode_loop_lem safe n i pre s junk p out ascii rounds at_base at_out room = absurd (omega arith)

module _ (fresh : ℕ → List ℕ) (new : (n : ℕ) → length (fresh n) ≡ n) (safe : Bool) (pre : List ℕ)
    (w x y z : ℕ) (junk : List ℕ) (size : ℕ) (total : size ≡ length pre + 4) (hw : w < 128)
    (hx : x < 128) (hy : y < 128) (hz : z < 128) where
  abbrev base : List ℕ
  base = pre ++ w ∷ x ∷ y ∷ z ∷ junk

  module _ (ret : Btring) (v : IsValid ret) (p : List ℕ) (o1 o2 o3 : ℕ)
      (shows : view ret ≡ p ++ o1 ∷ o2 ∷ o3 ∷ []) where
    ret_size : ret.size ≡ length p + 3
    ret_size = omega (arith, length-view v, ap length shows, length-append p (o1 ∷ o2 ∷ o3 ∷ []))

    -- The string after it is cut to the decoded length.
    cut :
        (k : ℕ) (xs : List ℕ)
        → k ≡ length p + length xs
        → k < ret.size
        → p ++ xs ≡ take k (view ret)
        → (f : Btring → List ℕ → Option (List ℕ)) (ys : List ℕ) → length ys ≡ length xs
        → ((b : Btring)
            → b.size ≡ k
            → (rest : List ℕ) → f b ((p ++ xs) ++ rest) ≡ some ((p ++ ys) ++ rest))
        → Yields (resize fresh k ret >>= λ r. on_content r r.content (f r)) (p ++ ys)
    cut k xs k_lem shorter kept f ys same writes =
        let r = resize_lem fresh new k ret v (omega (arith, v.fits, v.bounded)) in
        let shorter' : min k ret.size ≡ k = omega arith in
        let all : take k (view r.value) ≡ view r.value =
          take_all k (view r.value) (omega (arith, length-view r.valid, r.sized)) in
        rw r.returned (
          on_view_lem (f r.value) (p ++ xs) (p ++ ys) r.valid
            (sym all ∙ (rw shorter' at r.kept) ∙ sym kept)
            (omega (arith, length-append p xs, length-append p ys)) (writes r.value r.sized))

    kept_front :
        (xs ys : List ℕ) (k : ℕ)
        → xs ++ ys ≡ o1 ∷ o2 ∷ o3 ∷ []
        → k ≡ length p + length xs
        → p ++ xs ≡ take k (view ret)
    kept_front xs ys k parts k_lem =
        rw (shows, ← parts, ← append_assoc)
          (sym (take-append k (p ++ xs) ys (omega (arith, length-append p xs, k_lem))))

    decode_padded_lem :
        Yields
          (decode_padded fresh (detable safe) base size ret)
          (p ++ (if y == b'=' then take 1 (three safe w x y z) else take 2 (three safe w x y z)))
    unfolding decode_padded
    decode_padded_lem =
        rw (load_behind pre (w ∷ x ∷ y ∷ z ∷ junk) (size - 2) 2 (omega arith))
          (elim (Bool-cases (y == b'=')) [
            | inl both ↦ rw both (
                cut _ (o1 ∷ []) one_left (omega (arith, ret_size, v.fits, v.bounded))
                  (kept_front (o1 ∷ []) (o2 ∷ o3 ∷ []) _ refl one_left)
                  (λ r. last_one (detable safe) base size r.size) _ refl
                  (λ b b_size rest.
                    rw
                      (
                        append_assoc p (o1 ∷ []) rest,
                        append_assoc p (take 1 (three safe w x y z)) rest,
                      )
                      (last_one_lem safe pre w x y z junk (length pre) refl hw hx hy hz p o1 rest
                        size b.size total (b_size ∙ one_left))))
            | inr only ↦ rw only (
                cut _ (o1 ∷ o2 ∷ []) two_left (omega (arith, ret_size, v.fits, v.bounded))
                  (kept_front (o1 ∷ o2 ∷ []) (o3 ∷ []) _ refl two_left)
                  (λ r. last_two (detable safe) base size r.size) _ refl
                  (λ b b_size rest.
                    rw
                      (
                        append_assoc p (o1 ∷ o2 ∷ []) rest,
                        append_assoc p (take 2 (three safe w x y z)) rest,
                      )
                      (last_two_lem safe pre w x y z junk (length pre) refl hw hx hy hz p o1 o2 rest
                        size b.size total (b_size ∙ two_left))))
          ])
      where
        one_left : u64 (ret.size + 2 ^ 64 - 2) ≡ length p + 1
        one_left = omega (arith, ret_size, v.fits, v.bounded)

        two_left : u64 (ret.size + 2 ^ 64 - 1) ≡ length p + 2
        two_left = omega (arith, ret_size, v.fits, v.bounded)

    pub decode_tail_lem :
        Yields (decode_tail fresh (detable safe) base size ret) (p ++ last_group safe w x y z)
    unfolding decode_tail
    decode_tail_lem =
        rw (load_behind pre (w ∷ x ∷ y ∷ z ∷ junk) (size - 1) 3 (omega arith))
          (elim (Bool-cases (z == b'=')) [
            | inl padded ↦ rw padded decode_padded_lem
            | inr whole ↦ rw whole (
                on_view_lem _ _ (p ++ three safe w x y z) v shows
                  (omega (
                    arith,
                    length-append p (o1 ∷ o2 ∷ o3 ∷ []),
                    length-append p (three safe w x y z),
                  ))
                  (λ rest.
                    rw
                      (
                        append_assoc p (o1 ∷ o2 ∷ o3 ∷ []) rest,
                        append_assoc p (three safe w x y z) rest,
                      )
                      (deblock_lem safe pre w x y z junk (size - 4) (omega arith) hw hx hy hz p o1
                        o2 o3 rest (ret.size - 3) (omega (arith, ret_size)))))
          ])
