-- ===== src/Btring/InPlace.antt =====
-- Code that writes into the content of a string, as the encoders do after `resize`.
use libnap.Base.{ℕ, ◌≤◌, ◌<◌, ◌^◌, List, [], ◌∷◌, ◌++◌, Option, none, some, ◌>>=◌}
use libnap.Base.{◌≡◌, refl, ap, sym, ◌∙◌, arith, length, take, drop, length-append, length-drop}
use libnap.Base.{take-append, take-append-drop}
use libnap.Btring.{Btring, bytes, empty, on_content, resize}
use libnap.Btring.View.{view, IsValid, Yields, Yields-front, empty-IsValid, length-view}
use libnap.Btring.Resize.{resize_lem}

length-eq-zero : (c : List ℕ) → length c ≡ 0 → c ≡ []
length-eq-zero [] h = refl
length-eq-zero (x ∷ c) h = absurd (omega arith)

-- Code that works in place on a well-formed string leaves one, if it keeps the array's length.
pub on_content_lem :
    {b : Btring} (f : List ℕ → Option (List ℕ)) (c bs : List ℕ)
    → IsValid b
    → f (bytes b.content) ≡ some c
    → length c ≡ b.capacity
    → take b.size c ≡ bs
    → Yields (on_content b b.content f) bs
on_content_lem {b} f c bs v runs len front = by_content b.content refl
  where
    by_content : (o : Option (List ℕ)) → b.content ≡ o → Yields (on_content b o f) bs
    by_content none e =
        let no_bytes : length c ≡ 0 =
          omega (arith, len, v.allocated, ap (λ o. length (bytes o)) e) in
        let runs' : f [] ≡ some c = rw e at runs in
        unfold on_content in
        rw runs' (record {
          value = b;
          returned = refl;
          valid = v;
          shows = rw e (rw (← length-eq-zero c no_bytes) front);
        })
    by_content (some a) e =
        let runs' : f a ≡ some c = rw e at runs in
        unfold on_content in
        rw runs' (Yields-front c b.capacity b.size bs len v.fits v.bounded front)

-- An empty string is resized, and then code writes all of it: the result is what it writes.
pub build_lem :
    (fresh : ℕ → List ℕ)
    → ((n : ℕ) → length (fresh n) ≡ n)
    → (size : ℕ) (f : List ℕ → Option (List ℕ)) (bs : List ℕ) → size < 2 ^ 64
    → length bs ≡ size
    → ((c : List ℕ) → size ≤ length c → f c ≡ some (bs ++ drop size c))
    → Yields (resize fresh size empty >>= λ r. on_content r r.content f) bs
build_lem fresh new size f bs bound len writes =
    let r = resize_lem fresh new size empty empty-IsValid bound in
    let room : size ≤ length (bytes r.value.content) =
      omega (arith, r.sized, r.valid.fits, r.valid.allocated) in
    rw r.returned (
      on_content_lem f (bs ++ drop size (bytes r.value.content)) bs r.valid
        (writes (bytes r.value.content) room)
        (omega (
          arith,
          length-append bs (drop size (bytes r.value.content)),
          length-drop size (bytes r.value.content),
          len,
          room,
          r.valid.allocated,
        ))
        (take-append r.value.size bs _ (r.sized ∙ sym len)))

-- The same for code that rewrites the string and leaves what stands behind it in the array.
pub on_view_lem :
    {b : Btring} (f : List ℕ → Option (List ℕ)) (xs ys : List ℕ)
    → IsValid b
    → view b ≡ xs
    → length ys ≡ length xs
    → ((junk : List ℕ) → f (xs ++ junk) ≡ some (ys ++ junk))
    → Yields (on_content b b.content f) ys
on_view_lem {b} f xs ys v shows len rewrites =
    let junk = drop b.size (bytes b.content) in
    let whole : xs ++ junk ≡ bytes b.content =
      ap (λ l. l ++ junk) (sym shows) ∙ take-append-drop b.size (bytes b.content) in
    let size : length ys ≡ b.size = omega (arith, len, ap length shows, length-view v) in
    on_content_lem f (ys ++ junk) ys v (rw whole at (rewrites junk))
      (omega (
        arith,
        length-append ys junk,
        size,
        length-drop b.size (bytes b.content),
        v.allocated,
        v.fits,
      ))
      (take-append b.size ys junk (sym size))
