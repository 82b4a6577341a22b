-- ===== src/Base/Bytes.antt =====
-- Lists of bytes.
use Prim.Native.Nat.{ℕ, zero, suc, ◌<◌}
use Prim.{Unit, tt}
use mathlib.Core.Path.{◌≡◌, refl, ap}
use mathlib.Core.List.{List, [], ◌∷◌, ◌++◌}
use native.Mathlib.Omega.{arith}
use libnap.Base.Lists.{take, drop, get_or, length, length-append, flatten}

abbrev pub IsBytes : List ℕ → Type 0
IsBytes [] = Unit
IsBytes (c ∷ m) = (c < 256) × IsBytes m

pub append-IsBytes : (a b : List ℕ) → IsBytes a → IsBytes b → IsBytes (a ++ b)
append-IsBytes [] b h k = k
append-IsBytes (x ∷ a) b h k = (h.0, append-IsBytes a b h.1 k)

pub take-IsBytes : (n : ℕ) (a : List ℕ) → IsBytes a → IsBytes (take n a)
take-IsBytes zero a h = tt
take-IsBytes (suc n) [] h = tt
take-IsBytes (suc n) (x ∷ a) h = (h.0, take-IsBytes n a h.1)

pub drop-IsBytes : (n : ℕ) (a : List ℕ) → IsBytes a → IsBytes (drop n a)
drop-IsBytes zero a h = h
drop-IsBytes (suc n) [] h = tt
drop-IsBytes (suc n) (x ∷ a) h = drop-IsBytes n a h.1

pub get_or-IsByte : (a : List ℕ) (i : ℕ) → IsBytes a → get_or a i 0 < 256
get_or-IsByte [] i h = omega arith
get_or-IsByte (x ∷ a) zero h = h.0
get_or-IsByte (x ∷ a) (suc i) h = get_or-IsByte a i h.1

pub IsBytes-parts : (a b : List ℕ) → IsBytes (a ++ b) → IsBytes a × IsBytes b
IsBytes-parts [] b h = (tt, h)
IsBytes-parts (x ∷ a) b h = let (p, q) = IsBytes-parts a b h.1 in ((h.0, p), q)

-- Pieces of less than `k` bytes each.
abbrev pub AllShort : ℕ → List (List ℕ) → Type 0
AllShort k [] = Unit
AllShort k (p ∷ ps) = (length p < k) × AllShort k ps

pub AllShort-flatten : (k : ℕ) (ps : List (List ℕ)) → length (flatten ps) < k → AllShort k ps
AllShort-flatten k [] h = tt
AllShort-flatten k (p ∷ ps) h =
    let sum = length-append p (flatten ps) in
    (omega (arith, h, sum), AllShort-flatten k ps (omega (arith, h, sum)))

-- A list cut into its elements.
abbrev pub bytewise : List ℕ → List (List ℕ)
bytewise [] = []
bytewise (x ∷ l) = (x ∷ []) ∷ bytewise l

pub flatten-bytewise : (l : List ℕ) → flatten (bytewise l) ≡ l
flatten-bytewise [] = refl
flatten-bytewise (x ∷ l) = ap (λ k. x ∷ k) (flatten-bytewise l)

pub bytewise-AllShort : (k : ℕ) → 1 < k → (l : List ℕ) → AllShort k (bytewise l)
bytewise-AllShort k h [] = tt
bytewise-AllShort k h (x ∷ l) = (h, bytewise-AllShort k h l)
