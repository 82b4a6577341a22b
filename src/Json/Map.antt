-- ===== src/Json/Map.antt =====
-- src/json.cpp: the map of an object, as the list of its pairs in the order of the keys.
use libnap.Base.{ℕ, List, [], ◌∷◌, true, false, ◌==◌, ◌≡◌, ◌≢◌, refl, sym, ap, ◌∙◌, inl, inr, eq→==}
use Prim.{Unit, tt}
use libnap.Btring.Order.{after_trans, after_trichotomy}
use libnap.Json.{Node, Fields, no_fields, field, before, has_key, get, put}

-- Every key comes before `k`, or behind it.
abbrev pub AllBefore : List ℕ → Fields → Type 0
AllBefore k no_fields = Unit
AllBefore k (field k' n fs) = (before k' k ≡ true) × AllBefore k fs

abbrev pub AllAfter : List ℕ → Fields → Type 0
AllAfter k no_fields = Unit
AllAfter k (field k' n fs) = (before k k' ≡ true) × AllAfter k fs

-- Each key comes before all that follow.
abbrev pub IsSorted : Fields → Type 0
IsSorted no_fields = Unit
IsSorted (field k n fs) = AllAfter k fs × IsSorted fs

-- All keys of one list come before all of the other.
abbrev pub Apart : Fields → Fields → Type 0
Apart fs no_fields = Unit
Apart fs (field k n gs) = AllBefore k fs × Apart fs gs

abbrev pub add_last : Fields → List ℕ → Node → Fields
add_last no_fields k n = field k n no_fields
add_last (field k' m fs) k n = field k' m (add_last fs k n)

abbrev pub join : Fields → Fields → Fields
join no_fields gs = gs
join (field k n fs) gs = field k n (join fs gs)

pub join_last :
    (fs : Fields) (k : List ℕ) (n : Node) (gs : Fields)
    → join (add_last fs k n) gs ≡ join fs (field k n gs)
join_last no_fields k n gs = refl
join_last (field k' m fs) k n gs = ap (field k' m) (join_last fs k n gs)

pub join_none : (fs : Fields) → join fs no_fields ≡ fs
join_none no_fields = refl
join_none (field k n fs) = ap (field k n) (join_none fs)

-- A new key that comes last.
pub has_key_last : (k : List ℕ) (fs : Fields) → AllBefore k fs → has_key k fs ≡ false
unfolding has_key
has_key_last k no_fields h = refl
has_key_last k (field k' n fs) h = rw h.0 (has_key_last k fs h.1)

pub put_last : (k : List ℕ) (n : Node) (fs : Fields) → AllBefore k fs → put k n fs ≡ add_last fs k n
unfolding put
put_last k n no_fields h = refl
put_last k n (field k' m fs) h = rw h.0 (ap (field k' m) (put_last k n fs h.1))

irreflexive : (k : List ℕ) → before k k ≡ false
irreflexive [] = refl
irreflexive (x ∷ k) = let e : (x == x) ≡ true = eq→== x x refl in rw e (irreflexive k)

pub put_again :
    (k : List ℕ) (m n : Node) (fs : Fields)
    → AllBefore k fs
    → put k n (add_last fs k m) ≡ add_last fs k n
unfolding put
put_again k m n no_fields h = rw (irreflexive k) refl
put_again k m n (field k' x fs) h = rw h.0 (ap (field k' x) (put_again k m n fs h.1))

pub get_last : (k : List ℕ) (n : Node) (fs : Fields) → AllBefore k fs → get k (add_last fs k n) ≡ n
unfolding get
get_last k n no_fields h = rw (irreflexive k) refl
get_last k n (field k' x fs) h = rw h.0 (get_last k n fs h.1)

AllBefore-add_last :
    (k k' : List ℕ) (n : Node) (fs : Fields)
    → before k' k ≡ true
    → AllBefore k fs
    → AllBefore k (add_last fs k' n)
AllBefore-add_last k k' n no_fields e h = (e, tt)
AllBefore-add_last k k' n (field k'' m fs) e h = (h.0, AllBefore-add_last k k' n fs e h.1)

pub Apart-add_last :
    (fs : Fields) (k : List ℕ) (n : Node) (gs : Fields)
    → Apart fs gs
    → AllAfter k gs
    → Apart (add_last fs k n) gs
Apart-add_last fs k n no_fields h a = tt
Apart-add_last fs k n (field k' m gs) h a =
    (AllBefore-add_last k' k n fs a.0 h.0, Apart-add_last fs k n gs h.1 a.1)

pub Apart-none : (gs : Fields) → Apart no_fields gs
Apart-none no_fields = tt
Apart-none (field k n gs) = (tt, Apart-none gs)

-- How two keys stand.
data Compared (a b : List ℕ) : Type 0 where
  less : before a b ≡ true → before b a ≡ false → Compared a b
  more : before b a ≡ true → before a b ≡ false → Compared a b
  same : before a b ≡ false → before b a ≡ false → a ≡ b → Compared a b

compared : (a b : List ℕ) → Compared a b
compared a b = elim (after_trichotomy a b) [
  | inl (p, q, n) ↦ more p q
  | inr (inl (p, q, n)) ↦ less q p
  | inr (inr (p, q, e)) ↦ same q p e
]

before_trans : (a b c : List ℕ) → before a b ≡ true → before b c ≡ true → before a c ≡ true
before_trans a b c h k = after_trans a b c h k

less-not : (a b : List ℕ) → before a b ≡ true → before b a ≡ false
less-not a b h = elim (compared a b) [ less p q ↦ q | more p q ↦ absurd (cc) | same p q e ↦ q ]

pub put_here :
    (k : List ℕ) (n : Node) (fs : Fields)
    → (get k (put k n fs) ≡ n) × (has_key k (put k n fs) ≡ true)
unfolding put get has_key
put_here k n no_fields = (rw (irreflexive k) refl, rw (irreflexive k) refl)
put_here k n (field k' m fs) = elim (compared k' k) [
  | less p q ↦ let (a, b) = put_here k n fs in (rw p (rw p a), rw p (rw p b))
  | more p q ↦ (rw (q, p) (rw (irreflexive k) refl), rw (q, p) (rw (irreflexive k) refl))
  | same p q e ↦ (rw (p, q) (rw (p, q) refl), rw (p, q) (rw (p, q) refl))
]

pub put_other :
    (k k' : List ℕ) (n : Node) (fs : Fields)
    → k ≢ k'
    → (get k' (put k n fs) ≡ get k' fs) × (has_key k' (put k n fs) ≡ has_key k' fs)
unfolding put get has_key
put_other k k' n no_fields ne = elim (compared k k') [
  | less p q ↦ (rw p refl, rw p refl)
  | more p q ↦ (rw (q, p) refl, rw (q, p) refl)
  | same p q e ↦ absurd (ne e)
]
put_other k k' n (field k1 m fs) ne = elim (compared k1 k) [
  | less p q ↦
      let (a, b) = put_other k k' n fs ne in
      elim (compared k1 k') [
        | less r s ↦ (rw p (rw r a), rw p (rw r b))
        | more r s ↦ (rw p (rw (s, r) refl), rw p (rw (s, r) refl))
        | same r s e ↦ (rw p (rw (r, s) refl), rw p (rw (r, s) refl))
      ]
  | more p q ↦ elim (compared k k') [
    | less r s ↦ (rw (q, p) (rw r refl), rw (q, p) (rw r refl))
    | more r s ↦
        let t = before_trans k' k k1 r p in
        let u = less-not k' k1 t in
        (rw (q, p) (rw (s, r, u, t) refl), rw (q, p) (rw (s, r, u, t) refl))
    | same r s e ↦ absurd (ne e)
  ]
  | same p q e ↦ elim (compared k1 k') [
    | less r s ↦ (rw (p, q) (rw r refl), rw (p, q) (rw r refl))
    | more r s ↦ (rw (p, q) (rw (s, r) refl), rw (p, q) (rw (s, r) refl))
    | same r s e' ↦ absurd (ne (sym e ∙ e'))
  ]
]

AllAfter-put :
    (x k : List ℕ) (n : Node) (fs : Fields)
    → before x k ≡ true
    → AllAfter x fs
    → AllAfter x (put k n fs)
unfolding put
AllAfter-put x k n no_fields h a = (h, tt)
AllAfter-put x k n (field k' m fs) h a = elim (compared k' k) [
  | less p q ↦ rw p (a.0, AllAfter-put x k n fs h a.1)
  | more p q ↦ rw (q, p) (h, (a.0, a.1))
  | same p q e ↦ rw (p, q) (a.0, a.1)
]

AllAfter-trans : (x k : List ℕ) (fs : Fields) → before x k ≡ true → AllAfter k fs → AllAfter x fs
AllAfter-trans x k no_fields h a = tt
AllAfter-trans x k (field k' m fs) h a = (before_trans x k k' h a.0, AllAfter-trans x k fs h a.1)

pub put-IsSorted : (k : List ℕ) (n : Node) (fs : Fields) → IsSorted fs → IsSorted (put k n fs)
unfolding put
put-IsSorted k n no_fields h = (tt, tt)
put-IsSorted k n (field k' m fs) h = elim (compared k' k) [
  | less p q ↦ rw p (AllAfter-put k' k n fs p h.0, put-IsSorted k n fs h.1)
  | more p q ↦ rw (q, p) ((p, AllAfter-trans k k' fs p h.0), (h.0, h.1))
  | same p q e ↦ rw (p, q) (h.0, h.1)
]
