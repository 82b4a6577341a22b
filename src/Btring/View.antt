-- ===== src/Btring/View.antt =====
-- What a `btring` stands for, the list of its bytes, and when its three fields fit together.
use libnap.Base.{◌>>=◌, ℕ, ◌≤◌, ◌<◌, ◌^◌, List, Option, none, some, ◌≡◌, refl, ◌∙◌}
use libnap.Base.{arith, length, take, length-take}
use libnap.Btring.{Btring, bytes, empty}

-- The string: the first `length` bytes of the array.
abbrev pub view : Btring → List ℕ
view b = take b.size (bytes b.content)

pub record IsValid (b : Btring) : Type 0 where
  pub allocated : length (bytes b.content) ≡ b.capacity
  pub fits : b.size ≤ b.capacity
  pub bounded : b.capacity < 2 ^ 64

-- `result` is no fault, and holds a well-formed string with these bytes.
pub record Yields (result : Option Btring) (bs : List ℕ) : Type 0 where
  pub value : Btring
  pub returned : result ≡ some value
  pub valid : IsValid value
  pub shows : view value ≡ bs

pub length-view : {b : Btring} → IsValid b → length (view b) ≡ b.size
length-view {b} v = omega (arith, length-take b.size (bytes b.content), v.allocated, v.fits)

-- A string with room has an array.
array_of :
    (o : Option (List ℕ)) (n : ℕ) → length (bytes o) ≡ n → 0 < n → (c : List ℕ) × (o ≡ some c)
array_of none n e pos = absurd (omega arith)
array_of (some c) n e pos = (c, refl)

pub content_of : {b : Btring} → IsValid b → 0 < b.capacity → (c : List ℕ) × (b.content ≡ some c)
content_of {b} v pos = array_of b.content b.capacity v.allocated pos

-- An array whose front is the string.
pub Yields-front :
    (out : List ℕ) (cap n : ℕ) (bs : List ℕ)
    → length out ≡ cap
    → n ≤ cap
    → cap < 2 ^ 64
    → take n out ≡ bs
    → Yields (some (record { content = some out; capacity = cap; size = n })) bs
Yields-front out cap n bs len room bound front = record {
  value = record { content = some out; capacity = cap; size = n };
  returned = refl;
  valid = record { allocated = len; fits = room; bounded = bound };
  shows = front;
}

pub empty-IsValid : IsValid empty
empty-IsValid = omega arith

-- The rule for one step after another.
pub Yields-bind :
    {m : Option Btring} {f : Btring → Option Btring} {bs cs : List ℕ}
    → Yields m bs
    → ((b : Btring) → IsValid b → view b ≡ bs → Yields (f b) cs)
    → Yields (m >>= f) cs
Yields-bind {f} first then_ = rw first.returned (then_ first.value first.valid first.shows)

pub Yields-eq : {m : Option Btring} {bs cs : List ℕ} → Yields m bs → bs ≡ cs → Yields m cs
Yields-eq y e = record {
  value = y.value;
  returned = y.returned;
  valid = y.valid;
  shows = y.shows ∙ e;
}
