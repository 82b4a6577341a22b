-- ===== src/Json/Errors.antt =====
-- src/json.cpp: the exceptions that leave `parse`.
use libnap.Base.{
  ◌⊎◌, ◌≤◌, ne→not-==, ℕ, ◌+◌, ◌-◌, ◌*◌, List, [], ◌∷◌, Bool, true, false, ◌==◌, if◌then◌else◌, ◌≡◌,
  refl, ap, ◌∙◌, arith, length, Bool-cases, inl, inr,
}
use Prim.{Unit, tt}
use libnap.Json.Results.{
  Outcome, done, json_error, type_error, unknown_error, out_of_range, undefined, out_of_fuel, ◌>>=◌,
}
use libnap.Json.{Node}
use libnap.Json.Parser.{is_space, skip_from, caught, parse_root, parse}

-- A text of spaces alone.
abbrev pub IsBlank : List ℕ → Type 0
IsBlank [] = Unit
IsBlank (c ∷ r) = (is_space c ≡ true) × IsBlank r

-- What `parse` does inside the `try`, from the first character that is no space.
abbrev pub Inside : List ℕ → Node → Outcome (ℕ × Node) → Type 0
Inside json root o =
    (pos : ℕ) × (skip_from json 0 ≡ done pos) × (parse_root json (2 * length json + 2) pos root ≡ o)

-- What can leave `parse` of a text: the fuel is the matter of `parse_ends`.
abbrev pub Reported : List ℕ → Node → Outcome (Bool × Node) → Type 0
Reported json root (done r) = Unit
Reported json root (json_error pos msg) = (◌≡◌ {A = ℕ} msg 2) × Inside json root (out_of_range pos)
Reported json root type_error = ⊥
Reported json root unknown_error =
    ((pos : ℕ) × (msg : ℕ) × Inside json root (json_error pos msg))
    ⊎ (Inside json root type_error ⊎ Inside json root unknown_error)
Reported json root (out_of_range pos) = IsBlank json
Reported json root undefined = Inside json root undefined
Reported json root out_of_fuel = Unit

abbrev Skipped : List ℕ → Outcome ℕ → Type 0
Skipped r (done p) = Unit
Skipped r (json_error pos msg) = ⊥
Skipped r type_error = ⊥
Skipped r unknown_error = ⊥
Skipped r (out_of_range pos) = IsBlank r
Skipped r undefined = ⊥
Skipped r out_of_fuel = ⊥

skips : (r : List ℕ) (pos : ℕ) → Skipped r (skip_from r pos)
unfolding skip_from
skips [] pos = tt
skips (c ∷ r) pos = elim (Bool-cases (is_space c)) [
  | inl space ↦ rw space (more space (skip_from r (pos + 1)) (skips r (pos + 1)))
  | inr other ↦ rw other tt
]
  where
    more : is_space c ≡ true → (o : Outcome ℕ) → Skipped r o → Skipped (c ∷ r) o
    more e (done p) h = tt
    more e (json_error p m) h = h
    more e type_error h = h
    more e unknown_error h = h
    more e (out_of_range p) h = (e, h)
    more e undefined h = h
    more e out_of_fuel h = h

skips_blank : (r : List ℕ) (pos : ℕ) → IsBlank r → skip_from r pos ≡ out_of_range (pos + length r)
unfolding skip_from
skips_blank [] pos h = ap out_of_range (omega arith)
skips_blank (c ∷ r) pos h = rw h.0 (skips_blank r (pos + 1) h.1 ∙ ap out_of_range (omega arith))

caught-Reported :
    (json : List ℕ) (root : Node) (p : ℕ) (o : Outcome (ℕ × Node))
    → skip_from json 0 ≡ done p
    → parse_root json (2 * length json + 2) p root ≡ o
    → Reported json root (caught o)
unfolding caught
caught-Reported json root p (done r) s e = tt
caught-Reported json root p (json_error q m) s e = inl (q, m, (p, s, e))
caught-Reported json root p type_error s e = inr (inl (p, s, e))
caught-Reported json root p unknown_error s e = inr (inr (p, s, e))
caught-Reported json root p (out_of_range q) s e = (refl, (p, s, e))
caught-Reported json root p undefined s e = (p, s, e)
caught-Reported json root p out_of_fuel s e = tt

then-Reported :
    (json : List ℕ) (root : Node) (o : Outcome ℕ) (f : ℕ → Outcome (Bool × Node))
    → Skipped json o
    → ((p : ℕ) → o ≡ done p → Reported json root (f p))
    → Reported json root (o >>= f)
then-Reported json root (done p) f h k = k p refl
then-Reported json root (json_error p m) f h k = absurd h
then-Reported json root type_error f h k = absurd h
then-Reported json root unknown_error f h k = absurd h
then-Reported json root (out_of_range p) f h k = h
then-Reported json root undefined f h k = absurd h
then-Reported json root out_of_fuel f h k = absurd h

if-Reported :
    (json : List ℕ) (root : Node) (b : Bool) (x y : Outcome (Bool × Node))
    → Reported json root x
    → Reported json root y
    → Reported json root (if b then x else y)
if-Reported json root true x y h k = h
if-Reported json root false x y h k = k

-- From a text of spaces alone, the empty one too, `parse` throws the exception of `at` itself, and
-- from no other text. A JsonException with a position that it throws has the message number two,
-- and is thrown only where `at` threw inside the `try`, with the position at that moment. Where
-- `throwError` was called inside, what leaves `parse` is the unknown exception, without position
-- and number, which has no other cause than an exception of this class inside.
pub parse_error_lem :
    (json : List ℕ) (root : Node)
    → Reported json root (parse json root)
      × (IsBlank json → parse json root ≡ out_of_range (length json))
      × ((p q msg : ℕ)
          → skip_from json 0 ≡ done p
          → p + 2 ≤ length json
          → parse_root json (2 * length json + 2) p root ≡ json_error q msg
          → parse json root ≡ unknown_error)
unfolding parse caught
parse_error_lem json root = (
  then-Reported json root (skip_from json 0) _ (skips json 0) (λ p s.
      if-Reported json root (length json - p == 0) _ _ tt (
        if-Reported json root (length json - p == 1) _ _ tt
          (caught-Reported json root p (parse_root json (2 * length json + 2) p root) s refl))),
  λ h. rw (skips_blank json 0 h) (ap out_of_range (omega arith)),
  λ p q msg s left e.
      let some_left = ne→not-== (length json - p) 0 (omega (arith, left)) in
      let more_left = ne→not-== (length json - p) 1 (omega (arith, left)) in
      rw (s, some_left, more_left, e) refl,
)
