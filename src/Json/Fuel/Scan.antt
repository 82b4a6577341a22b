-- ===== src/Json/Fuel/Scan.antt =====
-- src/json.cpp: the scanners of the parser, and rules for what the end of the fuel is not.
use libnap.Base.{
  ℕ, zero, suc, ◌+◌, ◌≤◌, ◌<◌, List, [], ◌∷◌, Option, some, none, Bool, true, false, ◌==◌,
  if◌then◌else◌, ltb, ◌&&◌, ◌||◌, arith, length, drop,
}
use Prim.{Unit, tt}
use libnap.Json.Results.{
  Outcome, done, json_error, type_error, unknown_error, out_of_range, undefined, out_of_fuel, ◌>>=◌,
}
use libnap.Json.{
  Node, type_of, JsonType, object, array, code_of, check_type, has, at_key, append_item,
}
use libnap.Json.Parser.{
  skip_from, first, is_space, string_bytes, is_word, is_number_char, number_len, key_found,
}

-- There is fuel left, and a value is as `P` says.
abbrev pub Ensures {ℓ} : {A : Type ℓ} → (A → Type 0) → Outcome A → Type 0
Ensures P (done a) = P a
Ensures P (json_error pos msg) = Unit
Ensures P type_error = Unit
Ensures P undefined = Unit
Ensures P unknown_error = Unit
Ensures P (out_of_range pos) = Unit
Ensures P out_of_fuel = ⊥

pub bind-Ensures {ℓ κ} :
    {A : Type ℓ} {B : Type κ} (P : A → Type 0) (Q : B → Type 0) (r : Outcome A) (f : A → Outcome B)
    → Ensures P r
    → ((a : A) → P a → Ensures Q (f a))
    → Ensures Q (r >>= f)
bind-Ensures P Q (done a) f h k = k a h
bind-Ensures P Q (json_error pos msg) f h k = tt
bind-Ensures P Q type_error f h k = tt
bind-Ensures P Q undefined f h k = tt
bind-Ensures P Q unknown_error f h k = tt
bind-Ensures P Q (out_of_range pos) f h k = tt
bind-Ensures P Q out_of_fuel f h k = h

pub weaken-Ensures {ℓ} :
    {A : Type ℓ} (P Q : A → Type 0) (r : Outcome A)
    → ((a : A) → P a → Q a)
    → Ensures P r
    → Ensures Q r
weaken-Ensures P Q (done a) k h = k a h
weaken-Ensures P Q (json_error pos msg) k h = tt
weaken-Ensures P Q type_error k h = tt
weaken-Ensures P Q undefined k h = tt
weaken-Ensures P Q unknown_error k h = tt
weaken-Ensures P Q (out_of_range pos) k h = tt
weaken-Ensures P Q out_of_fuel k h = h

pub if-Ensures {ℓ} :
    {A : Type ℓ} (P : A → Type 0) (b : Bool) (x y : Outcome A)
    → Ensures P x
    → Ensures P y
    → Ensures P (if b then x else y)
if-Ensures P true x y h k = h
if-Ensures P false x y h k = k

-- Anything but the end of the fuel.
abbrev pub Any {ℓ} : {A : Type ℓ} → A → Type 0
Any a = Unit

abbrev pub Past : ℕ → Outcome (ℕ × Node) → Type 0
Past pos r = Ensures (λ (x : ℕ × Node). pos < x.0) r

pub skip_from-Ensures :
    (r : List ℕ) (pos : ℕ) → Ensures (λ p. (pos ≤ p) × (p < pos + length r)) (skip_from r pos)
unfolding skip_from
skip_from-Ensures [] pos = tt
skip_from-Ensures (c ∷ r) pos =
    let weaken : Ensures (λ p. (pos ≤ p) × (p < pos + length (c ∷ r))) (skip_from r (pos + 1)) =
      weaken-Ensures (λ p. (pos + 1 ≤ p) × (p < pos + 1 + length r)) _ (skip_from r (pos + 1))
        (λ p h. omega (arith, h.0, h.1)) (skip_from-Ensures r (pos + 1)) in
    if-Ensures (λ p. (pos ≤ p) × (p < pos + length (c ∷ r))) (is_space c) _ _ weaken (omega arith)

pub first-Ensures : (r : List ℕ) (pos : ℕ) → Ensures (λ c. 0 < length r) (first r pos)
unfolding first
first-Ensures [] pos = tt
first-Ensures (c ∷ r) pos = omega arith

pub string_bytes-Ensures :
    (n : ℕ) (r : List ℕ) (pos : ℕ) → Ensures (λ l. Any l) (string_bytes n r pos)
unfolding string_bytes
string_bytes-Ensures zero r pos = tt
string_bytes-Ensures (suc n) [] pos = tt
string_bytes-Ensures (suc n) (c ∷ r) pos =
    bind-Ensures (λ l. Any l) (λ l. Any l) (string_bytes n r pos) _ (string_bytes-Ensures n r pos)
      (λ l h. tt)

pub is_word-Ensures : (word r : List ℕ) (pos : ℕ) → Ensures (λ b. Any b) (is_word word r pos)
unfolding is_word
is_word-Ensures [] r pos = tt
is_word-Ensures (w ∷ word) r pos =
    bind-Ensures (λ c. 0 < length r) (λ b. Any b) (first r pos) _ (first-Ensures r pos)
      (λ c h. pick (c == w) (is_word word (drop 1 r) pos) (is_word-Ensures word (drop 1 r) pos))
  where
    pick :
        (b : Bool) (x : Outcome Bool)
        → Ensures (λ y. Any y) x
        → Ensures (λ y. Any y) (elim b [ true ↦ x | false ↦ done false ])
    pick true x h = h
    pick false x h = tt

pub check_type-Ensures : (t : JsonType) (n : Node) → Ensures (λ m. Any m) (check_type t n)
unfolding check_type
check_type-Ensures t n =
    if-Ensures (λ m. Any m) (code_of (type_of n) == code_of t) _ _ tt
      (if-Ensures (λ m. Any m) (code_of (type_of n) == 0) _ _ tt
        (if-Ensures (λ m. Any m) (ltb (code_of (type_of n)) 255 && ltb (code_of t) 255) _ _ tt tt))

pub has-Ensures : (key : List ℕ) (n : Node) → Ensures (λ m. Any m) (has key n)
unfolding has
has-Ensures key n =
    bind-Ensures (λ m. Any m) (λ m. Any m) (check_type object n) _ (check_type-Ensures object n)
      (λ m h. tt)

pub at_key-Ensures : (key : List ℕ) (n : Node) → Ensures (λ m. Any m) (at_key key n)
unfolding at_key
at_key-Ensures key n =
    bind-Ensures (λ m. Any m) (λ m. Any m) (check_type object n) _ (check_type-Ensures object n)
      (λ m h. bind-Ensures (λ x. Any x) (λ m. Any m) (has key m) _ (has-Ensures key m) (λ x k. tt))

pub append_item-Ensures : (child n : Node) → Ensures (λ m. Any m) (append_item child n)
unfolding append_item
append_item-Ensures child n =
    bind-Ensures (λ m. Any m) (λ m. Any m) (check_type array n) _ (check_type-Ensures array n)
      (λ m h. tt)

number_len_grows : (r : List ℕ) (len : ℕ) → len ≤ number_len r len
unfolding number_len
number_len_grows [] len = omega arith
number_len_grows (c ∷ r) len =
    if_bound ((len == 0) || is_number_char c) (number_len_grows r (len + 1))
  where
    if_bound :
        (b : Bool)
        → len + 1 ≤ number_len r (len + 1)
        → len ≤ (if b then number_len r (len + 1) else len)
    if_bound true h = omega (arith, h)
    if_bound false h = omega arith

pub some_number : (r : List ℕ) → 0 < length r → 0 < number_len r 0
unfolding number_len
some_number [] h = absurd (omega arith)
some_number (c ∷ r) h = omega (arith, number_len_grows r 1)

pub key_found-Ensures :
    (found : Option ℕ) (pos : ℕ) → Ensures (λ len. Any len) (key_found found pos)
unfolding key_found
key_found-Ensures none pos = tt
key_found-Ensures (some len) pos = tt
