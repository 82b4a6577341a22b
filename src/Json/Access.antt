-- ===== src/Json/Access.antt =====
-- src/json.cpp: the members of JsonNode on objects and arrays.
use libnap.Base.{
  u64, ◌^◌, ℕ, zero, suc, ◌+◌, ◌-◌, ◌≤◌, ◌<◌, max, List, Bool, true, false, not, if◌then◌else◌, leb,
  ◌≡◌, ◌≢◌, inl, inr, refl, ◌∙◌, arith, Bool-cases, leb→le, not-leb→lt, lt→not-leb, lt→ltb,
}
use libnap.Json.Results.{
  Outcome, done, json_error, type_error, unknown_error, out_of_range, undefined, out_of_fuel,
}
use libnap.Json.{
  JsonType, Node, node, fresh, type_of, fields_of, Items, no_items, item, Fields, null, integer,
  string, boolean, object, array, code_of, check_type, has_key, get, put, count_items, add_item,
  item_at, erase_at, size, has, at_key, append_key, remove_key, append_item, grow, at_index,
  has_index, remove_index,
}
use libnap.Json.Map.{IsSorted, put_here, put_other, put-IsSorted}

abbrev pub refuses {ℓ} : {A : Type ℓ} → Outcome A → Bool
refuses (done a) = false
refuses (json_error p m) = false
refuses type_error = true
refuses unknown_error = false
refuses (out_of_range p) = false
refuses undefined = false
refuses out_of_fuel = false

refuses_neither :
    {A : Type 0} (b : Bool) (x : A) → refuses (if b then done x else undefined) ≡ false
refuses_neither true x = refl
refuses_neither false x = refl

-- A node that can be used as an object, or as an array.
abbrev pub fits : JsonType → JsonType → Bool
fits t null = true
fits object object = true
fits array array = true
fits _ _ = false

-- The members for objects throw on every node but objects and null, and those for arrays on every
-- node but arrays and null: `append`, `operator[]`, `has` and `remove`.
pub type_lem :
    (n child : Node) (key : List ℕ) (index : ℕ)
    → let on_object = not (fits object (type_of n)) in
      let on_array = not (fits array (type_of n)) in
      (refuses (append_key key child n) ≡ on_object)
      × (refuses (at_key key n) ≡ on_object)
      × (refuses (has key n) ≡ on_object)
      × (refuses (remove_key key n) ≡ on_object)
      × (refuses (append_item child n) ≡ on_array)
      × (refuses (at_index index n) ≡ on_array)
      × (refuses (has_index index n) ≡ on_array)
      × (refuses (remove_index index n) ≡ on_array)
unfolding append_key at_key has remove_key append_item at_index has_index remove_index check_type
    code_of size
type_lem (node null fs xs v) child key index =
    (refl, refl, refl, refl, refl, refuses_neither _ _, refl, refl)
type_lem (node integer fs xs v) child key index = (refl, refl, refl, refl, refl, refl, refl, refl)
type_lem (node string fs xs v) child key index = (refl, refl, refl, refl, refl, refl, refl, refl)
type_lem (node boolean fs xs v) child key index = (refl, refl, refl, refl, refl, refl, refl, refl)
type_lem (node object fs xs v) child key index = (refl, refl, refl, refl, refl, refl, refl, refl)
type_lem (node array fs xs v) child key index =
    (refl, refl, refl, refl, refl, refuses_neither _ _, refl, refl)

-- The object after `append(key, child)`.
pub record Appended (key : List ℕ) (child n : Node) : Type 0 where
  pub state : Node
  pub returned : append_key key child n ≡ done state
  pub sorted : IsSorted (fields_of state)
  pub present : has key state ≡ done (state, true)
  pub found : at_key key state ≡ done (state, child)
  pub others :
      (key' : List ℕ)
      → key ≢ key'
      → (has_key key' (fields_of state) ≡ has_key key' (fields_of n))
        × (get key' (fields_of state) ≡ get key' (fields_of n))

-- The map with the key, which `operator[]` makes if it is missing.
abbrev with_key : List ℕ → Fields → Fields
with_key key fs = if has_key key fs then fs else put key fresh fs

with_key-IsSorted : (key : List ℕ) (fs : Fields) → IsSorted fs → IsSorted (with_key key fs)
with_key-IsSorted key fs s = elim (Bool-cases (has_key key fs)) [
  | inl there ↦ rw there s
  | inr missing ↦ rw missing (put-IsSorted key fresh fs s)
]

with_key-other :
    (k k' : List ℕ) (fs : Fields)
    → k ≢ k'
    → (has_key k' (with_key k fs) ≡ has_key k' fs) × (get k' (with_key k fs) ≡ get k' fs)
with_key-other k k' fs ne = elim (Bool-cases (has_key k fs)) [
  | inl there ↦ rw there (refl, refl)
  | inr missing ↦ let other = put_other k k' fresh fs ne in rw missing (other.1, other.0)
]

appended :
    (key : List ℕ) (child n : Node) (fs : Fields) (xs : Items) (v : List ℕ)
    → append_key key child n ≡ done (node object (put key child (with_key key fs)) xs v)
    → fields_of n ≡ fs
    → IsSorted fs
    → Appended key child n
unfolding at_key has check_type code_of
appended key child n fs xs v returned own s =
    let all = with_key key fs in
    let (found, present) = put_here key child all in
    record {
      state = node object (put key child all) xs v;
      returned = returned;
      sorted = put-IsSorted key child all (with_key-IsSorted key fs s);
      present = rw present refl;
      found = rw (present, found) refl;
      others = λ k' ne.
          let first = with_key-other key k' fs ne in
          let second = put_other key k' child all ne in
          rw own (second.1 ∙ first.0, second.0 ∙ first.1);
    }

-- `append(key, child)` on an object or a null node whose keys are in order leaves an object whose
-- keys are in order, of which `has` finds the key and `operator[]` refers to the child and changes
-- nothing; every other key is there or not, with its child, as before.
pub append_key_lem :
    (key : List ℕ) (child n : Node)
    → fits object (type_of n) ≡ true
    → IsSorted (fields_of n)
    → Appended key child n
unfolding append_key at_key has check_type code_of
append_key_lem key child (node integer fs xs v) h s = absurd (cc)
append_key_lem key child (node string fs xs v) h s = absurd (cc)
append_key_lem key child (node boolean fs xs v) h s = absurd (cc)
append_key_lem key child (node array fs xs v) h s = absurd (cc)
append_key_lem key child (node null fs xs v) h s =
    appended key child (node null fs xs v) fs xs v refl refl s
append_key_lem key child (node object fs xs v) h s =
    appended key child (node object fs xs v) fs xs v refl refl s

count-add_item : (xs : Items) (n : Node) → count_items (add_item xs n) ≡ count_items xs + 1
unfolding count_items add_item
count-add_item no_items n = omega arith
count-add_item (item x xs) n = omega (arith, count-add_item xs n)

item_at-add_item : (xs : Items) (j : ℕ) → item_at (add_item xs fresh) j ≡ item_at xs j
unfolding item_at add_item
item_at-add_item no_items zero = refl
item_at-add_item no_items (suc j) = refl
item_at-add_item (item x xs) zero = refl
item_at-add_item (item x xs) (suc j) = item_at-add_item xs j

count-grow : (n : ℕ) (xs : Items) → count_items (grow n xs) ≡ count_items xs + n
unfolding grow
count-grow zero xs = omega arith
count-grow (suc n) xs = omega (arith, count-grow n (add_item xs fresh), count-add_item xs fresh)

item_at-grow : (n : ℕ) (xs : Items) (j : ℕ) → item_at (grow n xs) j ≡ item_at xs j
unfolding grow
item_at-grow zero xs j = refl
item_at-grow (suc n) xs j = item_at-grow n (add_item xs fresh) j ∙ item_at-add_item xs j

item_at-out : (xs : Items) (j : ℕ) → count_items xs ≤ j → item_at xs j ≡ fresh
unfolding item_at count_items
item_at-out no_items j h = refl
item_at-out (item x xs) zero h = absurd (omega (arith, h))
item_at-out (item x xs) (suc j) h = item_at-out xs j (omega (arith, h))

count-erase_at :
    (xs : Items) (i : ℕ) → i < count_items xs → count_items (erase_at xs i) + 1 ≡ count_items xs
unfolding erase_at count_items
count-erase_at no_items i h = absurd (omega (arith, h))
count-erase_at (item x xs) zero h = omega arith
count-erase_at (item x xs) (suc i) h = omega (arith, count-erase_at xs i (omega (arith, h)))

-- A child that is taken away, and those behind it.
item_at-erase_at :
    (xs : Items) (i j : ℕ)
    → (j < i → item_at (erase_at xs i) j ≡ item_at xs j)
      × (i ≤ j → item_at (erase_at xs i) j ≡ item_at xs (suc j))
unfolding erase_at item_at
item_at-erase_at no_items i j = (λ h. refl, λ h. refl)
item_at-erase_at (item x xs) zero j = (λ h. absurd (omega (arith, h)), λ h. refl)
item_at-erase_at (item x xs) (suc i) zero = (λ h. refl, λ h. absurd (omega (arith, h)))
item_at-erase_at (item x xs) (suc i) (suc j) =
    let rest = item_at-erase_at xs i j in
    (λ h. rest.0 (omega (arith, h)), λ h. rest.1 (omega (arith, h)))

-- What `remove(index)` leaves.
pub record Removed (index : ℕ) (fs : Fields) (items : Items) (v : List ℕ) : Type 0 where
  pub shorter : Items
  pub returned : remove_index index (node array fs items v) ≡ done (node array fs shorter v, true)
  pub length : count_items shorter + 1 ≡ count_items items
  pub before : (j : ℕ) → j < index → item_at shorter j ≡ item_at items j
  pub behind : (j : ℕ) → index ≤ j → item_at shorter j ≡ item_at items (suc j)

-- The array after `operator[](index)`.
pub record Indexed (index : ℕ) (fs : Fields) (xs : Items) (v : List ℕ) : Type 0 where
  pub items : Items
  pub returned :
      at_index index (node array fs xs v) ≡ done (node array fs items v, item_at items index)
  pub length : count_items items ≡ max (count_items xs) (index + 1)
  pub kept : (j : ℕ) → j < count_items xs → item_at items j ≡ item_at xs j
  pub new : (j : ℕ) → count_items xs ≤ j → item_at items j ≡ fresh
  pub present : has_index index (node array fs items v) ≡ done (node array fs items v, true)
  pub removed : Removed index fs items v

indexed :
    (index : ℕ) (fs : Fields) (xs items : Items) (v : List ℕ)
    → at_index index (node array fs xs v) ≡ done (node array fs items v, item_at items index)
    → count_items items ≡ max (count_items xs) (index + 1)
    → ((j : ℕ) → item_at items j ≡ item_at xs j)
    → Indexed index fs xs v
unfolding has_index remove_index check_type code_of size
indexed index fs xs items v returned length same =
    let inside : index < count_items items = omega (arith, length) in
    record {
      items = items;
      returned = returned;
      length = length;
      kept = λ j h. same j;
      new = λ j h. same j ∙ item_at-out xs j h;
      present = rw (lt→ltb index (count_items items) inside) refl;
      removed = record {
        shorter = erase_at items index;
        returned = rw (lt→not-leb (count_items items) index inside) refl;
        length = count-erase_at items index inside;
        before = λ j. (item_at-erase_at items index j).0;
        behind = λ j. (item_at-erase_at items index j).1;
      };
    }

-- `operator[]` of an index below 2^64 - 1 on an array is no access out of range, keeps the children
-- that are there and puts null nodes behind them as far as the index, so that `has` finds the index,
-- and `remove` takes away the child at the index, and moves those behind it by one place.
pub index_lem :
    (index : ℕ) (fs : Fields) (xs : Items) (v : List ℕ) → index < 2 ^ 64 - 1 → Indexed index fs xs v
unfolding at_index check_type code_of size
index_lem index fs xs v bound = elim (Bool-cases (leb (count_items xs) index)) [
  | inl beyond ↦
      let n = index - count_items xs + 1 in
      let word : u64 n ≡ n = omega (arith, bound) in
      let length : count_items (grow n xs) ≡ max (count_items xs) (index + 1) =
        omega (arith, count-grow n xs, leb→le _ _ beyond) in
      let inside = lt→ltb index (count_items (grow n xs)) (omega (arith, length)) in
      indexed index fs xs (grow n xs) v (rw (beyond, word, inside) refl) length
        (λ j. item_at-grow n xs j)
  | inr within ↦
      let inside = lt→ltb index (count_items xs) (not-leb→lt _ _ within) in
      indexed index fs xs xs v (rw (within, inside) refl) (omega (arith, not-leb→lt _ _ within))
        (λ j. refl)
]
