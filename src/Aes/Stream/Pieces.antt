-- ===== src/Aes/Stream/Pieces.antt =====
-- src/aes.h, `AesBuffer::add(const btring&)` on one piece of a message after the other.
use libnap.Base.{
  AllShort, ℕ, ◌*◌, List, [], ◌∷◌, ◌++◌, Option, some, ◌≡◌, refl, sym, ap, ◌∙◌, arith,
}
use libnap.Base.{
  ◌>>=◌, take, length, flatten, append_assoc, append-nil, take_self, length-append, length-take,
  length-eq_zero,
}
use libnap.Aes.Stream.{Buffer, Handle, each_block, add}
use libnap.Aes.Stream.Add.{Absorbed, Adds, Adds-eq, Serves, aes_add_lem}

-- The calls of `add`, one for each piece.
unfoldable pub add_pieces : {S : Type 0} → Handle S → Buffer S → List (List ℕ) → Option (Buffer S)
add_pieces handle s [] = some s
add_pieces handle s (p ∷ pieces) = do s' ← add handle s p (length p); add_pieces handle s' pieces

-- All bytes are in whole blocks, and handled.
pub record AllHandled {S : Type 0} (step : S → List ℕ → S × List ℕ) (m : S) (msg : List ℕ)
    (s : Buffer S) : Type 0 where
  pub count : ℕ
  pub size : length msg ≡ count * 16
  pub result_run : s.result ≡ (each_block step count m msg).1
  pub mode_run : s.mode ≡ (each_block step count m msg).0
  pub none_left : s.buffer_len ≡ 0

module _ {S : Type 0} (step : S → List ℕ → S × List ℕ) {Ok : S → Type 0} {limit : ℕ}
    (handle : Handle S) (serves : Serves step Ok limit handle) {m : S} (ok : Ok m) where
  pub pieces_lem :
      (s : Buffer S) (msg : List ℕ) (pieces : List (List ℕ))
      → AllShort limit pieces
      → Absorbed step m msg s
      → Adds step m (msg ++ flatten pieces) (add_pieces handle s pieces)
  unfolding add_pieces
  pieces_lem s msg [] short h =
      Adds-eq step (record { state = s; returned = refl; absorbed = h }) (sym (append-nil msg))
  pieces_lem s msg (p ∷ pieces) (below, short) h =
      let first = aes_add_lem step handle serves ok s msg p (length p) (omega arith) below h in
      let whole : msg ++ take (length p) p ≡ msg ++ p = ap (λ l. msg ++ l) (take_self p) in
      let more = pieces_lem first.state (msg ++ p) pieces short (rw whole at first.absorbed) in
      rw first.returned (Adds-eq step more (append_assoc msg p (flatten pieces)))

  -- A message of whole blocks leaves no bytes over.
  pub Absorbed-AllHandled :
      {msg : List ℕ} {s : Buffer S} (h : Absorbed step m msg s) (n : ℕ)
      → length msg ≡ n * 16
      → AllHandled step m msg s
  Absorbed-AllHandled {msg} {s} h n size =
      let kept : length h.rest ≡ s.buffer_len =
        omega (arith, sym (ap length h.held), length-take s.buffer_len s.buffer, h.room, h.short) in
      let empty : length h.rest ≡ 0 =
        omega
          (arith, size, ap length h.message, length-append h.front h.rest, h.size, kept, h.short) in
      let all : msg ≡ h.front =
        h.message ∙ ap (λ r. h.front ++ r) (length-eq_zero h.rest empty) ∙ append-nil h.front in
      record {
        count = h.count;
        size = omega (arith, ap length all, h.size);
        result_run = h.result_run ∙ ap (λ l. (each_block step h.count m l).1) (sym all);
        mode_run = h.mode_run ∙ ap (λ l. (each_block step h.count m l).0) (sym all);
        none_left = omega (arith, kept, empty);
      }
