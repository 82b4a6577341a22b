-- ===== src/Json/Examples.antt =====
-- Runs of src/json.cpp on small texts.
use libnap.Base.{
  arith, ◌+◌, ◌*◌, ◌≤◌, length, ℕ, List, [], some, Bool, true, ◌==◌, ◌≡◌, ◌≢◌, inl, refl, codes,
  get_or,
}
use Prim.{tt}
use libnap.Json.Errors.{IsBlank, Reported, parse_error_lem}
use libnap.Json.Fuel.{parse_ends}
use libnap.Json.Access.{Appended, Indexed, refuses, type_lem, append_key_lem, index_lem}
use libnap.Json.RoundTrip.{IsCanonical}
use libnap.Json.RoundTrip.Whole.{json_round_trip}
use libnap.Json.Results.{done, unknown_error, json_error, out_of_range, out_of_fuel}
use libnap.Json.{
  Node, node, Items, no_items, item, Fields, no_fields, field, null, integer, string, boolean,
  object, array, fresh, code_of, is_null, check_type, has_key, get, put, erase, count_fields,
  count_items, add_item, item_at, size, set_null, has, at_key, append_key, remove_key, append_item,
  grow, at_index, has_index, remove_index,
}
use libnap.Json.Parser.{
  skip_from, first, string_len, string_bytes, is_word, number_len, streamed, lead_of, parse_word,
  string_found, parse_string, key_found, parse_number, parse_object, parse_array, next_round,
  parse_kv, parse_lead, parse_value, caught, parse_root, parse,
}
use libnap.Json.Printer.{escaped, close, strify_value, stringify, as_text}

abbrev read_one : List ℕ → Bool
read_one v = get_or v 0 0 == 49

-- An array with an object of two keys, given in the other order, and other values.
abbrev tree : Node
tree =
    node array no_fields
      (item
        (node object
          (field (codes "a") (node integer no_fields no_items (codes "-1.5"))
            (field (codes "b") (node null no_fields no_items []) no_fields))
          no_items [])
        (item (node boolean no_fields no_items (codes "1"))
          (item (node string no_fields no_items (codes "x\"y")) no_items)))
      []

parses_tree :
    parse (codes " [{\"b\" : null,\"a\":-1.5} , true,\"x\\\"y\"] ") fresh ≡ done (true, tree)
unfolding skip_from first string_len string_bytes is_word number_len streamed lead_of parse_word
    parse_string parse_number parse_object parse_array next_round parse_kv parse_lead parse_value
    caught parse_root parse code_of is_null check_type has_key get put set_null has at_key key_found
    string_found append_item add_item
parses_tree = refl

prints_tree : stringify read_one tree ≡ some (codes "[{\"a\":-1.5,\"b\":null},true,\"x\\\"y\"]")
unfolding escaped close strify_value stringify count_items count_fields
prints_tree = refl

json_round_trip_example :
    (out : List ℕ) × (stringify read_one tree ≡ some out) × (parse out fresh ≡ done (true, tree))
unfolding IsCanonical
json_round_trip_example = json_round_trip read_one refl refl tree tt (
  refl,
  refl,
  (
    (
      refl,
      refl,
      ((refl, tt), (tt, tt)),
      (
        (refl, refl, tt),
        (refl, refl, (refl, (refl, (refl, (refl, tt))))),
        ((refl, refl, tt), (refl, refl, refl), tt),
      ),
    ),
    (
      (refl, refl, inl refl),
      ((refl, refl, (refl, refl, refl, (refl, refl, refl, (refl, refl, refl, tt)))), tt),
    ),
  ),
)

parse_ends_example : parse (codes "[{\"a\":[") fresh ≢ out_of_fuel
parse_ends_example = parse_ends (codes "[{\"a\":[") fresh

parse_error_lem_example :
    let json = codes " \n" in
    Reported json tree (parse json tree)
    × (IsBlank json → parse json tree ≡ out_of_range (length json))
    × ((p q msg : ℕ)
        → skip_from json 0 ≡ done p
        → p + 2 ≤ length json
        → parse_root json (2 * length json + 2) p tree ≡ json_error q msg
        → parse json tree ≡ unknown_error)
parse_error_lem_example = parse_error_lem (codes " \n") tree

abbrev small : Fields
small = field (codes "a") fresh (field (codes "c") fresh no_fields)

abbrev pair : Items
pair = item fresh (item tree no_items)

type_lem_example :
    let n = node string no_fields no_items (codes "x") in
    (refuses (append_key (codes "k") tree n) ≡ true)
    × (refuses (at_key (codes "k") n) ≡ true)
    × (refuses (has (codes "k") n) ≡ true)
    × (refuses (remove_key (codes "k") n) ≡ true)
    × (refuses (append_item tree n) ≡ true)
    × (refuses (at_index 3 n) ≡ true)
    × (refuses (has_index 3 n) ≡ true)
    × (refuses (remove_index 3 n) ≡ true)
type_lem_example = type_lem (node string no_fields no_items (codes "x")) tree (codes "k") 3

append_key_lem_example : Appended (codes "b") tree (node object small no_items [])
append_key_lem_example =
    append_key_lem (codes "b") tree (node object small no_items []) refl ((refl, tt), (tt, tt))

index_lem_example : Indexed 4 no_fields pair []
index_lem_example = index_lem 4 no_fields pair [] (omega arith)

grows_array :
    at_index 3 (node array no_fields pair [])
    ≡ done
        (node array no_fields (item fresh (item tree (item fresh (item fresh no_items)))) [], fresh)
unfolding at_index check_type code_of size count_items grow add_item item_at
grows_array = refl

text_of_true : as_text read_one (node boolean no_fields no_items (codes "1")) ≡ some (codes "true")
unfolding as_text
text_of_true = refl

removes_key :
    remove_key (codes "a") (node object small no_items [])
    ≡ done (node object (field (codes "c") fresh no_fields) no_items [], true)
unfolding remove_key check_type code_of has_key erase
removes_key = refl
