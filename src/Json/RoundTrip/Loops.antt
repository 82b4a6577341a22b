-- ===== src/Json/RoundTrip/Loops.antt =====
-- src/json.cpp: the loops of the parser over printed elements, for values that are read back.
use libnap.Base.{
  ℕ, ◌+◌, List, [], ◌∷◌, ◌++◌, some, true, false, ◌==◌, ◌≡◌, refl, sym, ap, ◌∙◌, arith, length,
  length-append, take-append, append_assoc, ==_iff,
}
use libnap.Json.Results.{done}
use libnap.Json.{
  Node, node, fresh, Items, no_items, item, Fields, no_fields, object, array, code_of, is_null,
  check_type, has, at_key, add_item, append_item,
}
use libnap.Json.Parser.{is_space, string_len, key_found, Parse, parse_kv, next_round}
use libnap.Json.Map.{AllBefore, add_last, has_key_last, put_last, put_again, get_last}
use libnap.Json.Reading.{Rest, past, skip_here, at_here, IsClean, string_len-clean}

abbrev pub join_items : Items → Items → Items
join_items no_items ys = ys
join_items (item n xs) ys = item n (join_items xs ys)

pub join_items_last :
    (xs : Items) (n : Node) (ys : Items) → join_items (add_item xs n) ys ≡ join_items xs (item n ys)
unfolding add_item
join_items_last no_items n ys = refl
join_items_last (item x xs) n ys = ap (item x) (join_items_last xs n ys)

pub join_items_none : (xs : Items) → join_items xs no_items ≡ xs
join_items_none no_items = refl
join_items_none (item n xs) = ap (item n) (join_items_none xs)

abbrev pub object_of : Fields → Node
object_of fs = node object fs no_items []

abbrev pub array_of : Items → Node
array_of xs = node array no_fields xs []

pub append_item_array :
    (child : Node) (xs : Items)
    → append_item child (array_of xs) ≡ done (array_of (add_item xs child))
unfolding append_item check_type code_of
append_item_array child xs = refl

at_key_new :
    (k : List ℕ) (fs : Fields)
    → AllBefore k fs
    → at_key k (object_of fs) ≡ done (object_of (add_last fs k fresh), fresh)
unfolding at_key has check_type code_of
at_key_new k fs h = rw (has_key_last k fs h, put_last k fresh fs h, get_last k fresh fs h) refl

-- The end of a round.
module _ (json : List ℕ) (pos close : ℕ) (loop : Parse) (n : Node) (r : List ℕ) where
  pub closes :
      Rest json pos (close ∷ r)
      → is_space close ≡ false
      → (close == 44) ≡ false
      → next_round json close loop pos n ≡ done (pos + 1, n)
  unfolding next_round
  closes h e d =
      let same : (close == close) ≡ true = (==_iff close close).1 refl in
      rw (skip_here json pos close r h e, at_here json pos close r h, d, same) refl

  pub goes_on : Rest json pos (44 ∷ r) → next_round json close loop pos n ≡ loop (pos + 1) n
  unfolding next_round
  goes_on h = rw (skip_here json pos 44 r h refl, at_here json pos 44 r h) refl

-- A pair, of which `value` reads the second part.
pub pair_read :
    (json : List ℕ) (pos : ℕ) (value : Parse) (k : List ℕ) (n : Node) (acc : Fields) (r : List ℕ)
    (end : ℕ)
    → IsClean k
    → AllBefore k acc
    → Rest json pos (34 ∷ (k ++ 34 ∷ 58 ∷ r))
    → value (pos + (length k + 3)) fresh ≡ done (end, n)
    → parse_kv json value pos (object_of acc) ≡ done (end, object_of (add_last acc k n))
unfolding parse_kv key_found is_null code_of
pair_read json pos value k n acc r end clean new h reads =
    let inner : Rest json (pos + 1) (k ++ 34 ∷ 58 ∷ r) =
      past json pos (34 ∷ []) _ (pos + 1) refl h in
    let len : string_len (k ++ 34 ∷ 58 ∷ r) 0 ≡ some (length k) =
      string_len-clean k (58 ∷ r) 0 clean ∙ ap some (omega arith) in
    let colon : Rest json (pos + (length k + 2)) (58 ∷ r) =
      past json (pos + 1) (k ++ 34 ∷ []) (58 ∷ r) _ (omega (arith, length-append k (34 ∷ [])))
        (inner ∙ sym (append_assoc k (34 ∷ []) (58 ∷ r))) in
    let from : pos + (length k + 2) + 1 ≡ pos + (length k + 3) = omega arith in
    rw
      (
        skip_here json pos 34 _ h refl,
        at_here json pos 34 _ h,
        inner,
        len,
        take-append (length k) k (34 ∷ 58 ∷ r) refl,
        at_key_new k acc new,
        skip_here json _ 58 r colon refl,
        at_here json _ 58 r colon,
        from,
        reads,
        put_again k fresh n acc new,
      )
      refl
