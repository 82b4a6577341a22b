-- ===== src/Btring.antt =====
-- src/btring.h and src/btring.cpp: the byte string `btring` that every other part works on.
-- The state of a `btring` and the operations that change it. `none` is a fault: memory that the
-- code would touch outside an array, or through a null pointer. What `new uint8_t[n]` holds is
-- not determined by the language, so the content of a new array is the parameter `fresh`.
pub mod View
pub mod Resize
pub mod Append
pub mod Fill
pub mod Order
pub mod InPlace
mod Examples
use libnap.Base.{ℕ, zero, suc, ◌+◌, bit_or, min, List, [], Option, none, some}
use libnap.Base.{
  Bool, true, false, ◌||◌, if◌then◌else◌, ◌==◌, ltb, leb, ◌>>=◌, u64, memcpy, load, store, u32, not,
  ◌%◌, ◌^◌, ◌∷◌,
}
use mathlib.Core.Option

-- `content` is null or an array; `capacity` its length; `size` (the field `length`) how much of it
-- is the string.
pub record Btring : Type 0 where
  pub content : Option (List ℕ)
  pub capacity : ℕ
  pub size : ℕ

-- The array behind a pointer, with no byte behind the null pointer.
abbrev pub bytes : Option (List ℕ) → List ℕ
bytes none = []
bytes (some c) = c

abbrev pub is_null : Option (List ℕ) → Bool
is_null none = true
is_null (some c) = false

-- `btring()`
abbrev pub empty : Btring
empty = record { content = none; capacity = 0; size = 0 }

-- The old content copied to the front of a new array, as `_append` does it.
pub moved : List ℕ → Option (List ℕ) → ℕ → Option (List ℕ)
moved temp content size =
    if ltb 0 size then (do old ← content; memcpy temp 0 old size) else some temp

-- The old content carried over into a new array, as `_recap_hold` does it.
pub carried : List ℕ → ℕ → Option (List ℕ) → ℕ → Option (List ℕ)
carried new cap none size = some new
carried new cap (some temp) size = memcpy new 0 temp (min cap size)

-- The two branches of `_append`: into a new array, or behind the old content.
pub grown : List ℕ → ℕ → Btring → List ℕ → ℕ → Option Btring
grown temp total b src n = do
  temp' ← moved temp b.content b.size
  temp'' ← memcpy temp' b.size src n
  some (record { content = some temp''; capacity = total; size = u64 (n + b.size) })

pub extended : Btring → List ℕ → ℕ → Option Btring
extended b src n = do
  old ← b.content
  new ← memcpy old b.size src n
  some (record { content = some new; capacity = b.capacity; size = u64 (n + b.size) })

-- The copy to the front of the array at the end of `_set`.
pub overwritten : Btring → Option (List ℕ) → ℕ → Option Btring
overwritten b con n = do
  content ← b.content
  src ← con
  new ← memcpy content 0 src n
  some (record { content = some new; capacity = b.capacity; size = n })

-- Code that works on `str()`: the content is replaced by what the code leaves in it. Through
-- the null pointer it may run if it touches no memory.
pub on_content : Btring → Option (List ℕ) → (List ℕ → Option (List ℕ)) → Option Btring
on_content b none f = Option.map (λ nothing. b) (f [])
on_content b (some c) f = Option.map (λ c'. record b { content = some c' }) (f c)

-- `swap`
pub swap : Btring → Btring → record { this : Btring; other : Btring }
swap a b = record {
  this = record { content = b.content; capacity = b.capacity; size = b.size };
  other = record { content = a.content; capacity = a.capacity; size = a.size };
}

-- `shift` takes the caller's array over and sets his pointer to null.
pub shift : Option (List ℕ) → ℕ → record { naps : Btring; buffer : Option (List ℕ) }
shift buffer len = record {
  naps = record { content = buffer; capacity = len; size = len };
  buffer = none;
}

-- `btring(btring&&)`
pub move_from : Btring → record { this : Btring; old : Btring }
move_from old = record {
  this = record { content = old.content; capacity = old.capacity; size = old.size };
  old = record { content = none; capacity = 0; size = 0 };
}

-- `at`: a byte of the string, or the exception of an index out of bounds.
pub data At : Type 0 where
  byte : ℕ → At
  out_of_bounds : At
  fault : At

pub at : Btring → ℕ → At
at b pos =
    if leb b.size pos
    then out_of_bounds
    else elim (load (bytes b.content) pos) [ none ↦ fault | some c ↦ byte c ]

-- `operator[]`, which divides by the length.
pub index : Btring → ℕ → Option ℕ
index b pos = if b.size == 0 then none else load (bytes b.content) (pos % b.size)

-- `memcmp(a, b, n) == 0`
pub memcmp_eq : List ℕ → List ℕ → ℕ → Option Bool
memcmp_eq a b zero = some true
memcmp_eq [] b (suc n) = none
memcmp_eq (x ∷ a) [] (suc n) = none
memcmp_eq (x ∷ a) (y ∷ b) (suc n) = if x == y then memcmp_eq a b n else some false

-- `operator==(const btring&)` of two objects.
pub eq : Btring → Btring → Option Bool
eq this o =
    if o.size == this.size
    then memcmp_eq (bytes o.content) (bytes this.content) this.size
    else some false

-- `(int)` of a `size_t`, as the bound of a loop that counts up from 0: a value whose 32 low bits
-- stand for a negative number allows no round.
pub int_rounds : ℕ → ℕ
int_rounds n = if ltb (u32 n) (2 ^ 31) then u32 n else 0

-- The loop of `operator>` and `operator>=`: `n` rounds left at index `i`, and what is returned
-- when no byte differs.
pub greater_loop : ℕ → ℕ → List ℕ → List ℕ → Bool → Option Bool
greater_loop zero i a b otherwise = some otherwise
greater_loop (suc n) i a b otherwise = do
  x ← load a i
  y ← load b i
  let rest = greater_loop n (i + 1) a b otherwise
  if x == y then rest else some (ltb y x)

pub gt : Btring → Btring → Option Bool
gt this str =
    greater_loop (int_rounds (min this.size str.size)) 0 (bytes this.content) (bytes str.content)
      (ltb str.size this.size)

pub ge : Btring → Btring → Option Bool
ge this str =
    greater_loop (int_rounds (min this.size str.size)) 0 (bytes this.content) (bytes str.content)
      (leb str.size this.size)

pub lt : Btring → Btring → Option Bool
lt this str = Option.map not (ge this str)

pub le : Btring → Btring → Option Bool
le this str = Option.map not (gt this str)

-- The loop of `fill`, with `n` bytes left to write from index `i` on.
pub fill_loop : ℕ → ℕ → ℕ → List ℕ → Option (List ℕ)
fill_loop c zero i content = some content
fill_loop c (suc n) i content = do content' ← store content i c; fill_loop c n (i + 1) content'

module _ (fresh : ℕ → List ℕ) where
  -- `_recap`
  pub recap : ℕ → Btring → Btring
  recap cap b =
      if cap == 0
      then record { content = none; capacity = 0; size = 0 }
      else let cap' = if ltb cap 15 then 15 else cap in
        record { content = some (fresh cap'); capacity = cap'; size = 0 }

  -- `_recap_hold`
  pub recap_hold : ℕ → Btring → Option Btring
  recap_hold cap b =
      if cap == 0
      then some (record { content = none; capacity = 0; size = 0 })
      else if leb cap b.capacity
      then some (record b { size = cap })
      else let cap' = if ltb cap 15 then 15 else cap in
        do
          new ← carried (fresh cap') cap' b.content b.size
          some (record { content = some new; capacity = cap'; size = cap })

  -- `_append`
  pub append : Btring → Option (List ℕ) → ℕ → Option Btring
  append b con n = if n == 0 then some b else elim con [
    | none ↦ some b
    | some src ↦
        let total = u64 (n + b.size) in
        if ltb b.capacity total
        then grown (fresh (bit_or total 15)) (bit_or total 15) b src n
        else extended b src n
  ]

  -- `_set`
  pub set : Btring → Option (List ℕ) → ℕ → Option Btring
  set b con n =
      if n == 0
      then some (record b { size = 0 })
      else overwritten (if is_null b.content || ltb b.capacity n then recap n b else b) con n

  pub reserve : ℕ → Btring → Btring
  reserve len b = recap len b

  pub resize : ℕ → Btring → Option Btring
  resize len b = recap_hold len b

  pub clear : Btring → Option Btring
  clear b = resize 0 b

  pub fill : ℕ → ℕ → Btring → Option Btring
  fill c len b =
      let b' = recap len b in
      elim b'.content [
        | none ↦ if len == 0 then some b' else none
        | some content ↦ do
          content' ← fill_loop c len 0 content
          some (record b' { content = some content'; size = len })
      ]

  -- `btring(const void*, size_t)`
  pub of_bytes : Option (List ℕ) → ℕ → Option Btring
  of_bytes c len = append empty c len

  -- `btring(size_t)`
  pub of_size : ℕ → Btring
  of_size len = recap len empty

  -- `btring(const btring&)`
  pub copy : Btring → Option Btring
  copy old = do this ← clear empty; append this old.content old.size

  -- `append(const btring&)`
  pub append_btring : Btring → Btring → Option Btring
  append_btring b s = append b s.content s.size

  -- `operator=(const btring&)`; an object assigned to itself is left alone.
  pub assign : Btring → Btring → Option Btring
  assign b old = set b old.content old.size

  -- `operator+`
  pub plus : Btring → Btring → Option Btring
  plus a s = do ret ← append_btring (of_size (u64 (a.size + s.size))) a; append_btring ret s
