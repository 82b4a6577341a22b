-- ===== src/Json.antt =====
-- src/json.h and src/json.cpp, class JsonNode. A `btring` is its bytes. The map of an object is the
-- list of its pairs in the order of the keys, which `operator<` of `btring` gives.
pub mod Results
pub mod Parser
pub mod Printer
pub mod Map
pub mod Access
pub mod Fuel
pub mod Errors
pub mod Text
pub mod Reading
pub mod RoundTrip
mod Examples
use libnap.Base.{
  ℕ, zero, suc, ◌+◌, ◌-◌, List, [], Bool, true, false, not, ◌==◌, if◌then◌else◌, ltb, leb, ◌&&◌,
  ◌||◌,
}
use libnap.Btring.Order.{after}
use libnap.Json.Results.{Outcome, done, type_error, undefined, ◌>>=◌}
use libnap.Base.{u64}

pub data JsonType : Type 0 where
  null integer string boolean object array : JsonType

-- `_type`, `_values_object`, `_values_array` and `_value`.
mutual
  pub data Node : Type 0 where
    node : JsonType → Fields → Items → List ℕ → Node

  pub data Items : Type 0 where
    no_items : Items
    item : Node → Items → Items

  pub data Fields : Type 0 where
    no_fields : Fields
    field : List ℕ → Node → Fields → Fields

-- `JsonNode{JsonType::Null}`
abbrev pub fresh : Node
fresh = node null no_fields no_items []

abbrev pub type_of : Node → JsonType
type_of (node t fs xs v) = t

abbrev pub fields_of : Node → Fields
fields_of (node t fs xs v) = fs

abbrev pub items_of : Node → Items
items_of (node t fs xs v) = xs

abbrev pub with_type : JsonType → Node → Node
with_type t (node t' fs xs v) = node t fs xs v

abbrev pub with_fields : Fields → Node → Node
with_fields fs (node t fs' xs v) = node t fs xs v

abbrev pub with_items : Items → Node → Node
with_items xs (node t fs xs' v) = node t fs xs v

-- `set`, and the second half of `operator=`.
abbrev pub with_value : JsonType → List ℕ → Node → Node
with_value t v (node t' fs xs v') = node t fs xs v

-- The numbers of the enumeration.
pub code_of : JsonType → ℕ
code_of null = 0
code_of integer = 1
code_of string = 2
code_of boolean = 3
code_of object = 256
code_of array = 257

pub is_null : JsonType → Bool
is_null t = code_of t == 0

-- `throwTypeException`
pub check_type : JsonType → Node → Outcome Node
check_type t n =
    let own = code_of (type_of n) in
    if own == code_of t
    then done n
    else if own == 0
    then done (with_type t n)
    else if ltb own 255 && ltb (code_of t) 255
    then done n
    else type_error

-- `operator<` on keys.
abbrev pub before : List ℕ → List ℕ → Bool
before a b = after b a

-- `find`, `emplace` and assignment through `operator[]`, and `erase`, of `std::map`.
pub has_key : List ℕ → Fields → Bool
has_key k no_fields = false
has_key k (field k' v fs) =
    if before k' k then has_key k fs else if before k k' then false else true

pub get : List ℕ → Fields → Node
get k no_fields = fresh
get k (field k' v fs) = if before k' k then get k fs else if before k k' then fresh else v

pub put : List ℕ → Node → Fields → Fields
put k v no_fields = field k v no_fields
put k v (field k' v' fs) =
    let rest = field k' v' (put k v fs) in
    if before k' k then rest else if before k k' then field k v (field k' v' fs) else field k' v fs

pub erase : List ℕ → Fields → Fields
erase k no_fields = no_fields
erase k (field k' v fs) =
    let rest = field k' v (erase k fs) in
    if before k' k then rest else if before k k' then field k' v fs else fs

pub count_fields : Fields → ℕ
count_fields no_fields = 0
count_fields (field k v fs) = suc (count_fields fs)

-- The vector.
pub count_items : Items → ℕ
count_items no_items = 0
count_items (item n xs) = suc (count_items xs)

pub add_item : Items → Node → Items
add_item no_items n = item n no_items
add_item (item x xs) n = item x (add_item xs n)

pub item_at : Items → ℕ → Node
item_at no_items i = fresh
item_at (item x xs) zero = x
item_at (item x xs) (suc i) = item_at xs i

pub erase_at : Items → ℕ → Items
erase_at no_items i = no_items
erase_at (item x xs) zero = xs
erase_at (item x xs) (suc i) = item x (erase_at xs i)

pub size : Node → Outcome ℕ
size (node array fs xs v) = done (count_items xs)
size (node object fs xs v) = done (count_fields fs)
size (node null fs xs v) = type_error
size (node integer fs xs v) = type_error
size (node string fs xs v) = type_error
size (node boolean fs xs v) = type_error

pub set_null : Node → Node
set_null n = fresh

-- The members return the node afterwards, and what they return: `operator[]` the child that the
-- reference is to, which an assignment puts back by `put`.
pub has : List ℕ → Node → Outcome (Node × Bool)
has key n = do n' ← check_type object n; done (n', has_key key (fields_of n'))

pub at_key : List ℕ → Node → Outcome (Node × Node)
at_key key n = do
  n' ← check_type object n
  found ← has key n'
  let all = fields_of found.0
  let with_key = if found.1 then all else put key fresh all
  done (with_fields with_key found.0, get key with_key)

pub append_key : List ℕ → Node → Node → Outcome Node
append_key key child n = do
  n' ← check_type object n
  slot ← at_key key n'
  done (with_fields (put key child (fields_of slot.0)) slot.0)

pub remove_key : List ℕ → Node → Outcome (Node × Bool)
remove_key key n = do
  n' ← check_type object n
  done (with_fields (erase key (fields_of n')) n', has_key key (fields_of n'))

pub append_item : Node → Node → Outcome Node
append_item child n = do
  n' ← check_type array n
  done (with_items (add_item (items_of n') child) n')

-- The loop that grows the vector, with the rounds left.
pub grow : ℕ → Items → Items
grow zero xs = xs
grow (suc n) xs = grow n (add_item xs fresh)

-- `index - size + 1ull` is a `size_t`.
pub at_index : ℕ → Node → Outcome (Node × Node)
at_index index n = do
  n' ← check_type array n
  count ← size n'
  let missing = u64 (index - count + 1)
  let grown = if leb count index then grow missing (items_of n') else items_of n'
  let child = done (with_items grown n', item_at grown index)
  if ltb index (count_items grown) then child else undefined

pub has_index : ℕ → Node → Outcome (Node × Bool)
has_index index n = do n' ← check_type array n; count ← size n'; done (n', ltb index count)

pub remove_index : ℕ → Node → Outcome (Node × Bool)
remove_index index n = do
  n' ← check_type array n
  let xs = items_of n'
  let out = leb (count_items xs) index
  done (with_items (if out then xs else erase_at xs index) n', not out)
