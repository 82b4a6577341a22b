-- ===== src/Base64/Decode/Whole.antt =====
-- src/trans.cpp, `Base64::decode` of a whole text.
use libnap.Base.{ℕ, ◌+◌, ◌-◌, ◌*◌, ◌/◌, ◌%◌, ◌≤◌, ◌<◌, ◌^◌, List, [], ◌∷◌, ◌++◌, Option, some}
use libnap.Base.{Bool, ◌≡◌, ◌≢◌, refl, ap, sym, ◌∙◌, arith, length, drop}
use libnap.Base.{append_assoc, length-append, length-drop, take-append-drop, take-append}
use libnap.Base.{u64, ◌==◌, ◌>>=◌, inl, inr, Bool-cases, ==_iff, not-==→ne, ne→not-==}
use libnap.Base.{>>=-assoc}
use libnap.Btring.{Btring, bytes, empty, resize, on_content}
use libnap.Btring.View.{view, IsValid, Yields, Yields-eq, length-view, empty-IsValid}
use libnap.Btring.Resize.{resize_lem}
use libnap.Btring.InPlace.{on_content_lem}
use libnap.Base64.{detable, decode_loop, decode_tail, decode}
use libnap.Base64.Decode.{three, last_group, unbase64, IsAscii}
use libnap.Base64.Decode.Blocks.{triples, decode_loop_lem, decode_tail_lem}

-- A text of whole groups, cut before the last one.
record Groups (safe : Bool) (l : List ℕ) : Type 0 where
  front : List ℕ
  w : ℕ
  x : ℕ
  y : ℕ
  z : ℕ
  joined : l ≡ front ++ w ∷ x ∷ y ∷ z ∷ []
  front_groups : length front % 4 ≡ 0
  front_ascii : IsAscii front
  last_ascii : (w < 128) × (x < 128) × (y < 128) × (z < 128)
  decoded : unbase64 safe l ≡ triples safe front ++ last_group safe w x y z

groups : (safe : Bool) (l : List ℕ) → 0 < length l → length l % 4 ≡ 0 → IsAscii l → Groups safe l
groups safe (w ∷ x ∷ y ∷ z ∷ []) pos whole (hw, (hx, (hy, (hz, rest)))) = record {
  front = [];
  w = w;
  x = x;
  y = y;
  z = z;
  joined = refl;
  front_groups = refl;
  front_ascii = tt;
  last_ascii = (hw, hx, hy, hz);
  decoded = refl;
}
groups safe (w ∷ x ∷ y ∷ z ∷ c ∷ t) pos whole (hw, (hx, (hy, (hz, rest)))) =
    let g = groups safe (c ∷ t) (omega arith) (omega arith) rest in
    record {
      front = w ∷ x ∷ y ∷ z ∷ g.front;
      w = g.w;
      x = g.x;
      y = g.y;
      z = g.z;
      joined = ap (λ r. w ∷ x ∷ y ∷ z ∷ r) g.joined;
      front_groups = omega (arith, g.front_groups);
      front_ascii = (hw, (hx, (hy, (hz, g.front_ascii))));
      last_ascii = g.last_ascii;
      decoded =
          ap (λ r. three safe w x y z ++ r) g.decoded
          ∙ sym (append_assoc (three safe w x y z) (triples safe g.front) _);
    }
groups safe l pos whole ascii = absurd (omega arith)

length-triples :
    (safe : Bool) (s : List ℕ) → length s % 4 ≡ 0 → length (triples safe s) ≡ length s / 4 * 3
length-triples safe [] h = refl
length-triples safe (w ∷ x ∷ y ∷ z ∷ s) h = omega (arith, length-triples safe s (omega arith))
length-triples safe s h = absurd (omega arith)

first_three : (l : List ℕ) → 3 ≤ length l → (a b c : ℕ) × (r : List ℕ) × (l ≡ a ∷ b ∷ c ∷ r)
first_three (a ∷ b ∷ c ∷ r) h = (a, b, c, r, refl)
first_three l h = absurd (omega arith)

-- What the loop leaves: the front decoded, and room for three bytes.
record Looped (safe : Bool) (size : ℕ) (front : List ℕ) (result : Option Btring) : Type 0 where
  value : Btring
  returned : result ≡ some value
  valid : IsValid value
  o1 : ℕ
  o2 : ℕ
  o3 : ℕ
  shows : view value ≡ triples safe front ++ o1 ∷ o2 ∷ o3 ∷ []

module _ (fresh : ℕ → List ℕ) (new : (n : ℕ) → length (fresh n) ≡ n) (safe : Bool) where
  looped :
      (size n : ℕ) (front text : List ℕ)
      → size < 2 ^ 64
      → size / 4 ≡ n + 1
      → length front ≡ n * 4
      → IsAscii front
      → Looped safe size front (
          resize fresh (size / 4 * 3) empty >>= λ ret.
          on_content ret ret.content (decode_loop (detable safe) (front ++ text) n 0))
  looped size n front text bound blocks len ascii =
      let r = resize_lem fresh new (size / 4 * 3) empty empty-IsValid (omega arith) in
      let c = bytes r.value.content in
      let room : n * 3 + 3 ≤ length c = omega (arith, r.sized, r.valid.fits, r.valid.allocated) in
      let (o1, o2, o3, rest, parts) =
        first_three (drop (n * 3) c) (omega (arith, room, length-drop (n * 3) c)) in
      let front' = triples safe front in
      let front_size : length front' ≡ n * 3 =
        omega (arith, length-triples safe front (omega arith), len) in
      let written = front' ++ drop (n * 3) c in
      let regrouped : written ≡ (front' ++ o1 ∷ o2 ∷ o3 ∷ []) ++ rest =
        ap (λ l. front' ++ l) parts ∙ sym (append_assoc front' (o1 ∷ o2 ∷ o3 ∷ []) rest) in
      let y =
        on_content_lem (decode_loop (detable safe) (front ++ text) n 0) written
          (front' ++ o1 ∷ o2 ∷ o3 ∷ []) r.valid
          (decode_loop_lem safe n 0 [] front text [] c ascii len refl refl (omega (arith, room)))
          (omega (
            arith,
            length-append front' (drop (n * 3) c),
            length-drop (n * 3) c,
            front_size,
            room,
            r.valid.allocated,
          ))
          (rw regrouped (
            take-append r.value.size (front' ++ o1 ∷ o2 ∷ o3 ∷ []) rest
              (omega (arith, r.sized, length-append front' (o1 ∷ o2 ∷ o3 ∷ []), front_size)))) in
      rw r.returned (record {
        value = y.value;
        returned = y.returned;
        valid = y.valid;
        o1 = o1;
        o2 = o2;
        o3 = o3;
        shows = y.shows;
      })

  decode-Groups :
      (base : Btring)
      → IsValid base
      → base.size ≢ 0
      → (g : Groups safe (view base))
      → Yields (decode fresh base safe) (triples safe g.front ++ last_group safe g.w g.x g.y g.z)
  unfolding decode
  decode-Groups base v some_text g =
      let last = g.w ∷ g.x ∷ g.y ∷ g.z ∷ [] in
      let junk = drop base.size (bytes base.content) in
      let all : bytes base.content ≡ g.front ++ (last ++ junk) =
        sym (take-append-drop base.size (bytes base.content))
        ∙ ap (λ l. l ++ junk) g.joined
        ∙ append_assoc g.front last junk in
      let total : base.size ≡ length g.front + 4 =
        omega (arith, length-view v, ap length g.joined, length-append g.front last) in
      let rounds : u64 (base.size / 4 + 2 ^ 64 - 1) ≡ length g.front / 4 =
        omega (arith, total, g.front_groups, v.fits, v.bounded) in
      let loop =
        looped base.size (length g.front / 4) g.front (last ++ junk)
          (omega (arith, v.fits, v.bounded)) (omega (arith, total, g.front_groups))
          (omega (arith, g.front_groups)) g.front_ascii in
      let (hw, hx, hy, hz) = g.last_ascii in
      let tail =
        decode_tail_lem fresh new safe g.front g.w g.x g.y g.z junk base.size total hw hx hy hz
          loop.value loop.valid (triples safe g.front) loop.o1 loop.o2 loop.o3 loop.shows in
      let b = g.front ++ (last ++ junk) in
      let grouped =
        >>=-assoc (resize fresh (base.size / 4 * 3) empty)
          (λ ret. on_content ret ret.content (decode_loop (detable safe) b (length g.front / 4) 0))
          (decode_tail fresh (detable safe) b base.size) in
      rw (ne→not-== base.size 0 some_text, all, rounds, ← grouped, loop.returned) tail

  -- On a well-formed text of ASCII characters whose length is a multiple of four, `decode` never
  -- faults and returns the well-formed string that the definition of the decoding gives.
  pub base64_decode_lem :
      (base : Btring)
      → IsValid base
      → IsAscii (view base)
      → base.size % 4 ≡ 0
      → Yields (decode fresh base safe) (unbase64 safe (view base))
  base64_decode_lem base v ascii whole = elim (Bool-cases (base.size == 0)) [
    | inl nothing ↦
        let no_bytes : base.size ≡ 0 = (==_iff _ _).0 nothing in
        unfold decode in
        rw nothing
          (record { value = empty; returned = refl; valid = empty-IsValid; shows = rw no_bytes })
    | inr some_bytes ↦
        let some_text : base.size ≢ 0 = not-==→ne _ _ some_bytes in
        let g =
          groups safe (view base) (omega (arith, length-view v, some_text))
            (omega (arith, length-view v, whole)) ascii in
        Yields-eq (decode-Groups base v some_text g) (sym g.decoded)
  ]
