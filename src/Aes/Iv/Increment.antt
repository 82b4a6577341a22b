-- ===== src/Aes/Iv/Increment.antt =====
-- src/aes.h, class CryptIV: `operator++` is the successor of a number in big-endian bytes.
use libnap.Base.{
  length-set, ℕ, zero, suc, ◌+◌, ◌-◌, ◌*◌, ◌%◌, ◌<◌, ◌^◌, List, [], ◌∷◌, ◌++◌, Bool, true, false,
}
use libnap.Base.{◌≡◌, refl, sym, ap, ◌∙◌, arith, if◌then◌else◌, ◌==◌, get_or, set, ◌⊎◌, inl, inr}
use Prim.{tt}
use libnap.Base.{
  length, length-eq_zero, IsBytes-parts, length-snoc, append_assoc, append-nil, IsBytes,
  append-IsBytes,
}
use libnap.Base.{Bool-cases, ==_iff, not-==→ne, eq→==}
use native.Mathlib.Nat.{pow-suc, mod-eq_of_lt, mod_self}
use libnap.Aes.Iv.{increment_loop, increment}

-- The number that big-endian bytes spell.
abbrev pub number : List ℕ → ℕ → ℕ
number [] acc = acc
number (x ∷ xs) acc = number xs (acc * 256 + x)

number-snoc : (p : List ℕ) (x acc : ℕ) → number (p ++ x ∷ []) acc ≡ number p acc * 256 + x
number-snoc [] x acc = refl
number-snoc (y ∷ p) x acc = number-snoc p x (acc * 256 + y)

-- A non-empty list by its last element.
last_split : (n : ℕ) (p : List ℕ) → length p ≡ suc n → (q : List ℕ) × (x : ℕ) × (p ≡ q ++ x ∷ [])
last_split n [] h = absurd (omega arith)
last_split zero (x ∷ []) h = ([], x, refl)
last_split zero (x ∷ y ∷ p) h = absurd (omega arith)
last_split (suc n) (y ∷ p) h =
    let (q, x, e) = last_split n p (omega arith) in (y ∷ q, x, ap (λ l. y ∷ l) e)

set_at :
    (p : List ℕ) (x v : ℕ) (z : List ℕ) (i : ℕ) → i ≡ length p → set (p ++ x ∷ z) i v ≡ p ++ v ∷ z
set_at [] x v z zero h = refl
set_at [] x v z (suc i) h = absurd (omega arith)
set_at (y ∷ p) x v z zero h = absurd (omega arith)
set_at (y ∷ p) x v z (suc i) h = ap (λ l. y ∷ l) (set_at p x v z i (omega arith))

get_at : (p : List ℕ) (x : ℕ) (z : List ℕ) (i : ℕ) → i ≡ length p → get_or (p ++ x ∷ z) i 0 ≡ x
get_at [] x z zero h = refl
get_at [] x z (suc i) h = absurd (omega arith)
get_at (y ∷ p) x z zero h = absurd (omega arith)
get_at (y ∷ p) x z (suc i) h = get_at p x z i (omega arith)

number_bound : (n : ℕ) (p : List ℕ) → length p ≡ n → IsBytes p → number p 0 < 256 ^ n
number_bound zero [] h k = omega arith
number_bound zero (x ∷ p) h k = absurd (omega arith)
number_bound (suc n) p h k =
    let (q, x, e) = last_split n p h in
    let k' = rw e at k in
    let parts = IsBytes-parts q (x ∷ []) k' in
    let below = number_bound n q (omega (arith, h, ap length e, length-snoc q x)) parts.0 in
    omega (arith, below, parts.1.0, pow-suc 256 n, ap (λ l. number l 0) e, number-snoc q x 0)

-- What the loop leaves of the bytes up to the index `i`, which `p` are.
record Counted (i : ℕ) (p : List ℕ) (z result : List ℕ) : Type 0 where
  bytes : List ℕ
  runs : result ≡ bytes ++ z
  size : length bytes ≡ i
  are_bytes : IsBytes bytes
  next : (number bytes 0 ≡ number p 0 + 1) ⊎ ((number p 0 + 1 ≡ 256 ^ i) × (number bytes 0 ≡ 0))

same_branch : {A : Type 0} (b : Bool) (x y : A) → (if b then x else (if true then x else y)) ≡ x
same_branch true x y = refl
same_branch false x y = refl

carried :
    (bytes i : ℕ) (p z : List ℕ)
    → length p ≡ i
    → IsBytes p
    → Counted i p z (increment_loop bytes i true (p ++ z))
unfolding increment_loop
carried bytes zero p z h k =
    let none_left = length-eq_zero p h in
    rw none_left
      (record { bytes = []; runs = refl; size = refl; are_bytes = tt; next = inr (refl, refl) })
carried bytes (suc i) p z h k =
    let (q, x, e) = last_split i p h in
    let k' = rw e at k in
    let (q_bytes, x_byte) = IsBytes-parts q (x ∷ []) k' in
    let size : i ≡ length q = omega (arith, h, ap length e, length-snoc q x) in
    let whole = append_assoc q (x ∷ []) z in
    let at_i = get_at q x z i size in
    let below = number_bound i q (sym size) q_bytes in
    rw
      (
        e,
        whole,
        at_i,
        set_at q x 0 z i size,
        set_at q x (x + 1) z i size,
        same_branch (i == bytes - 1) _ (q ++ x ∷ z),
      )
      (elim (Bool-cases (x == 255)) [
        | inl full ↦
            let all : x ≡ 255 = (==_iff _ _).0 full in
            let rest = carried bytes i q (0 ∷ z) (sym size) q_bytes in
            rw full (record {
              bytes = rest.bytes ++ 0 ∷ [];
              runs = rest.runs ∙ sym (append_assoc rest.bytes (0 ∷ []) z);
              size = omega (arith, rest.size, length-snoc rest.bytes 0);
              are_bytes = append-IsBytes rest.bytes (0 ∷ []) rest.are_bytes (omega arith, tt);
              next = elim rest.next [
                | inl n ↦ inl (omega (arith, n, all, number-snoc q x 0, number-snoc rest.bytes 0 0))
                | inr (n, m) ↦ inr (
                  omega (arith, n, all, number-snoc q x 0, pow-suc 256 i),
                  omega (arith, m, number-snoc rest.bytes 0 0),
                )
              ];
            })
        | inr not_full ↦
            let less : x + 1 < 256 = omega (arith, not-==→ne _ _ not_full, x_byte.0) in
            rw not_full (record {
              bytes = q ++ (x + 1) ∷ [];
              runs = sym (append_assoc q ((x + 1) ∷ []) z);
              size = omega (arith, size, length-snoc q (x + 1));
              are_bytes = append-IsBytes q ((x + 1) ∷ []) q_bytes (less, tt);
              next = inl (omega (arith, number-snoc q x 0, number-snoc q (x + 1) 0));
            })
      ])

flag_unused :
    (n : ℕ) (buf : List ℕ)
    → increment_loop (suc n) (suc n) false buf ≡ increment_loop (suc n) (suc n) true buf
unfolding increment_loop
flag_unused n buf = let last : (n == suc n - 1) ≡ true = eq→== _ _ (omega arith) in rw last refl

-- On a counter of one byte or more, `operator++` keeps the length and gives bytes, and the number
-- that they spell, the first byte being the highest, is the old number plus one, modulo the number
-- of all counters of that length.
pub increment_lem :
    (n : ℕ) (buf : List ℕ)
    → length buf ≡ suc n
    → IsBytes buf
    → let next = increment (suc n) buf in
      (length next ≡ suc n) × IsBytes next × (number next 0 ≡ (number buf 0 + 1) % 256 ^ suc n)
unfolding increment
increment_lem n buf h k =
    let same : increment_loop (suc n) (suc n) false buf
        ≡ increment_loop (suc n) (suc n) true (buf ++ []) =
      flag_unused n buf ∙ ap (increment_loop (suc n) (suc n) true) (sym (append-nil buf)) in
    let c = carried (suc n) (suc n) buf [] h k in
    let result : increment_loop (suc n) (suc n) false buf ≡ c.bytes =
      same ∙ c.runs ∙ append-nil c.bytes in
    let value : number c.bytes 0 ≡ (number buf 0 + 1) % 256 ^ suc n = elim c.next [
      | inl next ↦
          let below : number buf 0 + 1 < 256 ^ suc n =
            omega (arith, next, number_bound (suc n) c.bytes c.size c.are_bytes) in
          next ∙ sym (mod-eq_of_lt below)
      | inr (full, none_left) ↦
          none_left ∙ sym (ap (λ k. k % 256 ^ suc n) full ∙ mod_self (256 ^ suc n))
    ] in
    rw result (c.size, c.are_bytes, value)

length-chosen :
    (b : Bool) (k : ℕ) (x y : List ℕ)
    → length x ≡ k
    → length y ≡ k
    → length (if b then x else y) ≡ k
length-chosen true k x y h h' = h
length-chosen false k x y h h' = h'

length-increment_loop :
    (bytes i : ℕ) (flag : Bool) (l : List ℕ) → length (increment_loop bytes i flag l) ≡ length l
unfolding increment_loop
length-increment_loop bytes zero flag l = refl
length-increment_loop bytes (suc i) flag l =
    let k = length l in
    let carry = length-increment_loop bytes i true (set l i 0) ∙ length-set l i 0 in
    let plain = length-set l i (get_or l i 0 + 1) in
    let either = length-chosen (get_or l i 0 == 255) k _ _ carry plain in
    length-chosen (i == bytes - 1) k _ _ either (length-chosen flag k _ _ either refl)

-- The counter keeps its bytes.
pub length-increment : (bytes : ℕ) (l : List ℕ) → length (increment bytes l) ≡ length l
unfolding increment
length-increment bytes l = length-increment_loop bytes bytes false l
