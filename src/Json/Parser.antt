-- ===== src/Json/Parser.antt =====
-- src/json.h and src/json.cpp, class JsonParser. The text is a list of bytes, of which a position
-- has the bytes from it on: `at` reads the first of them, or throws.
use libnap.Base.{
  ℕ, zero, suc, ◌+◌, ◌-◌, ◌*◌, List, [], ◌∷◌, Option, some, none, Bool, true, false, ◌==◌,
  if◌then◌else◌, leb, ◌&&◌, ◌||◌, drop, take, length,
}
use libnap.Json.Results.{
  Outcome, done, json_error, type_error, unknown_error, out_of_range, undefined, out_of_fuel, ◌>>=◌,
}
use libnap.Json.{
  Node, fresh, type_of, with_type, with_value, with_fields, fields_of, object, array, string,
  boolean, integer, is_null, put, set_null, at_key, append_item,
}

-- `SKIP_SPACE`
abbrev pub is_space : ℕ → Bool
is_space c = (c == 0x20) || ((c == 13) || ((c == 10) || (c == 9)))

unfoldable pub skip_from : List ℕ → ℕ → Outcome ℕ
skip_from [] pos = out_of_range pos
skip_from (c ∷ r) pos = if is_space c then skip_from r (pos + 1) else done pos

abbrev pub skip_space : List ℕ → ℕ → Outcome ℕ
skip_space json pos = skip_from (drop pos json) pos

-- `json->at(index)`, while `pos` is the position of the caller.
unfoldable pub first : List ℕ → ℕ → Outcome ℕ
first [] pos = out_of_range pos
first (c ∷ r) pos = done c

abbrev pub at : List ℕ → ℕ → Outcome ℕ
at json pos = first (drop pos json) pos

-- The loop of `getStringLen`, with `len`; `none` is -1.
unfoldable pub string_len : List ℕ → ℕ → Option ℕ
string_len [] len = none
string_len (c ∷ []) len = if c == 92 then none else if c == 34 then some len else none
string_len (c ∷ d ∷ r) len = elim (c == 92) [
  | true ↦ string_len r (len + 2)
  | false ↦ elim (c == 34) [ true ↦ some len | false ↦ string_len (d ∷ r) (len + 1) ]
]

-- The loop of `getString`, with the rounds left. The bytes are written one behind the other into a
-- string that is large enough and cut in the end.
unfoldable pub string_bytes : ℕ → List ℕ → ℕ → Outcome (List ℕ)
string_bytes zero r pos = done []
string_bytes (suc n) [] pos = out_of_range pos
string_bytes (suc n) (c ∷ r) pos = do
  rest ← string_bytes n r pos
  done (if c == 92 then rest else c ∷ rest)

-- A chain of `json->at(pos + 1) == .. && ..`.
unfoldable pub is_word : List ℕ → List ℕ → ℕ → Outcome Bool
is_word [] r pos = done true
is_word (w ∷ word) r pos = do
  c ← first r pos
  elim (c == w) [ true ↦ is_word word (drop 1 r) pos | false ↦ done false ]

abbrev pub is_digit : ℕ → Bool
is_digit c = leb c 57 && leb 48 c

-- What goes on with a number.
abbrev pub is_number_char : ℕ → Bool
is_number_char c = (c == 45) || (is_digit c || (c == 46))

-- The loop of `checkNumberLen`, with `len`.
unfoldable pub number_len : List ℕ → ℕ → ℕ
number_len [] len = len
number_len (c ∷ r) len = if (len == 0) || is_number_char c then number_len r (len + 1) else len

-- `btring::from` of a `btring`: `operator>>` stops at a zero and at the end of a line.
unfoldable pub streamed : List ℕ → List ℕ
streamed [] = []
streamed (c ∷ r) = if (c == 0) || (c == 10) then [] else c ∷ streamed r

-- The cases of the first character of a value.
pub data Lead : Type 0 where
  brace bracket letter_t letter_f letter_n quote other : Lead

unfoldable pub lead_of : ℕ → Lead
lead_of c =
    if c == 123
    then brace
    else if c == 91
    then bracket
    else if c == 116
    then letter_t
    else if c == 102
    then letter_f
    else if c == 110
    then letter_n
    else if c == 34
    then quote
    else other

-- A parser of a value at a position, into a node.
abbrev pub Parse : Type 0
Parse = ℕ → Node → Outcome (ℕ × Node)

-- `checkBooleanLen` and `checkNullLen`: `word` is what follows the first character.
unfoldable pub parse_word : List ℕ → List ℕ → Node → Node → ℕ → Outcome (ℕ × Node)
parse_word json word value n pos = do
  found ← is_word word (drop (pos + 1) json) pos
  if found then done (pos + suc (length word), value) else json_error pos 4

unfoldable pub string_found : List ℕ → Option ℕ → Parse
string_found json none pos n = json_error pos 3
string_found json (some len) pos n = do
  temp ← string_bytes len (drop (pos + 1) json) pos
  done (pos + (len + 2), with_value string (streamed temp) n)

unfoldable pub parse_string : List ℕ → Parse
parse_string json pos n = string_found json (string_len (drop (pos + 1) json) 0) pos n

unfoldable pub parse_number : List ℕ → ℕ → Parse
parse_number json c pos n =
    let len = number_len (drop pos json) 0 in
    if (c == 45) || is_digit c
    then done (pos + len, with_value integer (take len (drop pos json)) n)
    else json_error pos 4

-- `parseObject` and `parseArray` up to the loop.
unfoldable pub parse_object : List ℕ → Parse → Parse
parse_object json loop pos n = do
  p ← skip_space json (pos + 1)
  c ← at json p
  if c == 125 then done (p + 1, n) else if c == 34 then loop p n else json_error p 0

unfoldable pub parse_array : List ℕ → Parse → Parse
parse_array json loop pos n = do
  p ← skip_space json (pos + 1)
  c ← at json p
  if c == 93 then done (p + 1, n) else loop p n

-- The end of a round: a comma, or the closing bracket.
unfoldable pub next_round : List ℕ → ℕ → Parse → Parse
next_round json close loop pos n = do
  p ← skip_space json pos
  c ← at json p
  if c == 44 then loop (p + 1) n else if c == close then done (p + 1, n) else json_error p 0

unfoldable pub key_found : Option ℕ → ℕ → Outcome ℕ
key_found none pos = json_error pos 3
key_found (some len) pos = done len

-- `parseKV`, with `parseValue`. The child is put back where the reference is to.
unfoldable pub parse_kv : List ℕ → Parse → Parse
parse_kv json value pos n = do
  p ← skip_space json pos
  c ← at json p
  len ← (if c == 34 then key_found (string_len (drop (p + 1) json) 0) p else json_error p 3)
  let key = take len (drop (p + 1) json)
  slot ← at_key key n
  let child = if is_null (type_of slot.1) then slot.1 else set_null slot.1
  q ← skip_space json (p + (len + 2))
  d ← at json q
  r ← (if d == 58 then value (q + 1) child else json_error q 0)
  done (r.0, with_fields (put key r.1 (fields_of slot.0)) slot.0)

unfoldable pub parse_lead : List ℕ → Parse → Parse → Lead → ℕ → Parse
parse_lead json objects arrays brace c pos n = parse_object json objects pos (with_type object n)
parse_lead json objects arrays bracket c pos n = parse_array json arrays pos (with_type array n)
parse_lead json objects arrays letter_t c pos n =
    parse_word json (114 ∷ 117 ∷ 101 ∷ []) (with_value boolean (49 ∷ []) n) n pos
parse_lead json objects arrays letter_f c pos n =
    parse_word json (97 ∷ 108 ∷ 115 ∷ 101 ∷ []) (with_value boolean (48 ∷ []) n) n pos
parse_lead json objects arrays letter_n c pos n =
    parse_word json (117 ∷ 108 ∷ 108 ∷ []) (set_null n) n pos
parse_lead json objects arrays quote c pos n = parse_string json pos n
parse_lead json objects arrays other c pos n = parse_number json c pos n

unfoldable mutual
  pub parse_value : List ℕ → ℕ → Parse
  parse_value json zero pos n = out_of_fuel
  parse_value json (suc fuel) pos n = do
    p ← skip_space json pos
    c ← at json p
    parse_lead json (object_loop json fuel) (array_loop json fuel) (lead_of c) c p n

  pub object_loop : List ℕ → ℕ → Parse
  object_loop json zero pos n = out_of_fuel
  object_loop json (suc fuel) pos n = do
    kv ← parse_kv json (parse_value json fuel) pos n
    next_round json 125 (object_loop json fuel) kv.0 kv.1

  pub array_loop : List ℕ → ℕ → Parse
  array_loop json zero pos n = out_of_fuel
  array_loop json (suc fuel) pos n = do
    x ← parse_value json fuel pos fresh
    n' ← append_item x.1 n
    next_round json 93 (array_loop json fuel) x.0 n'

-- The two handlers of `parse`.
unfoldable pub caught : Outcome (ℕ × Node) → Outcome (Bool × Node)
caught (done r) = done (true, r.1)
caught (json_error pos msg) = unknown_error
caught type_error = unknown_error
caught unknown_error = unknown_error
caught (out_of_range pos) = json_error pos 2
caught undefined = undefined
caught out_of_fuel = out_of_fuel

unfoldable pub parse_root : List ℕ → ℕ → ℕ → Node → Outcome (ℕ × Node)
parse_root json fuel pos root = do
  c ← at json pos
  if c == 91
      then parse_array json (array_loop json fuel) pos (with_type array root)
      else if c == 123
      then parse_object json (object_loop json fuel) pos (with_type object root)
      else json_error pos 0

-- `parse`: the first `SKIP_SPACE` stands outside the `try`.
unfoldable pub parse : List ℕ → Node → Outcome (Bool × Node)
parse json root = do
  pos ← skip_space json 0
  let left = length json - pos
  if left == 0
      then done (true, root)
      else if left == 1
      then done (false, root)
      else caught (parse_root json (2 * length json + 2) pos root)
