-- ===== src/Btring/Examples.antt =====
-- The theorems on src/btring.cpp at concrete strings.
use libnap.Base.{
  ℕ, List, [], ◌∷◌, none, some, true, false, replicate, length-replicate, refl, arith, ◌≡◌, ◌≢◌,
  ◌⊎◌, memcpy,
}
use libnap.Btring.{
  Btring, append, plus, set, resize, fill, at, byte, gt, ge, lt, le, eq, swap, shift, move_from,
  index, reserve, clear, assign, copy, empty, grown, moved, recap, recap_hold, overwritten,
}
use libnap.Btring.View.{IsValid, Yields, view}
use libnap.Btring.Resize.{Resized, resize_lem, set_lem}
use libnap.Btring.Append.{append_lem, plus_lem}
use libnap.Btring.Fill.{fill_lem, at_lem}
use libnap.Btring.Order.{order_lem, eq_lem, lt_trans, lt_trichotomy}

abbrev zeros : ℕ → List ℕ
zeros n = replicate n 0

abbrev ab : Btring
ab = record { content = some (97 ∷ 98 ∷ 0 ∷ []); capacity = 3; size = 2 }

ab-IsValid : IsValid ab
ab-IsValid = record { allocated = refl; fits = omega arith; bounded = omega arith }

abbrev abc : Btring
abc = record { content = some (97 ∷ 98 ∷ 99 ∷ []); capacity = 3; size = 3 }

abc-IsValid : IsValid abc
abc-IsValid = record { allocated = refl; fits = omega arith; bounded = omega arith }

abbrev b : Btring
b = record { content = some (98 ∷ []); capacity = 1; size = 1 }

b-IsValid : IsValid b
b-IsValid = record { allocated = refl; fits = omega arith; bounded = omega arith }

append_example : Yields (append zeros ab (some (120 ∷ 121 ∷ [])) 2) (97 ∷ 98 ∷ 120 ∷ 121 ∷ [])
append_example =
    append_lem zeros (λ n. length-replicate {A = ℕ} n 0) ab (some (120 ∷ 121 ∷ [])) 2 ab-IsValid
      (omega arith) (omega arith)

plus_example : Yields (plus zeros ab abc) (97 ∷ 98 ∷ 97 ∷ 98 ∷ 99 ∷ [])
plus_example =
    plus_lem zeros (λ n. length-replicate {A = ℕ} n 0) ab abc ab-IsValid abc-IsValid (omega arith)

set_example : Yields (set zeros ab (some (7 ∷ 8 ∷ 9 ∷ 10 ∷ [])) 4) (7 ∷ 8 ∷ 9 ∷ 10 ∷ [])
set_example =
    set_lem zeros (λ n. length-replicate {A = ℕ} n 0) ab (some (7 ∷ 8 ∷ 9 ∷ 10 ∷ [])) 4 ab-IsValid
      (omega arith) (omega arith)

resize_example : Resized zeros (λ n. length-replicate {A = ℕ} n 0) 5 ab (resize zeros 5 ab)
resize_example = resize_lem zeros (λ n. length-replicate {A = ℕ} n 0) 5 ab ab-IsValid (omega arith)

fill_example : Yields (fill zeros 42 3 ab) (42 ∷ 42 ∷ 42 ∷ [])
fill_example = fill_lem zeros (λ n. length-replicate {A = ℕ} n 0) 42 3 ab (omega arith)

at_example : at ab 1 ≡ byte 98
at_example = at_lem ab 1 ab-IsValid

order_example :
    (gt abc ab ≡ some true)
    × (ge abc ab ≡ some true)
    × (lt abc ab ≡ some false)
    × (le abc ab ≡ some false)
order_example = order_lem abc ab abc-IsValid ab-IsValid (omega arith) (omega arith)

eq_example :
    ((eq ab abc ≡ some true) × (view ab ≡ view abc))
    ⊎ ((eq ab abc ≡ some false) × (view ab ≢ view abc))
eq_example = eq_lem ab abc ab-IsValid abc-IsValid

trans_example : lt ab b ≡ some true
trans_example =
    lt_trans ab abc b ab-IsValid abc-IsValid b-IsValid (omega arith) (omega arith) (omega arith)
      (order_lem ab abc ab-IsValid abc-IsValid (omega arith) (omega arith)).2
      (order_lem abc b abc-IsValid b-IsValid (omega arith) (omega arith)).2

trichotomy_example :
    ((lt ab b ≡ some true) × (eq ab b ≡ some false) × (gt ab b ≡ some false))
    ⊎ ((lt ab b ≡ some false) × (eq ab b ≡ some true) × (gt ab b ≡ some false))
    ⊎ ((lt ab b ≡ some false) × (eq ab b ≡ some false) × (gt ab b ≡ some true))
trichotomy_example = lt_trichotomy ab b ab-IsValid b-IsValid (omega arith) (omega arith)

-- The operations that move arrays from one object to another.
swap_test : swap ab abc ≡ record { this = abc; other = ab }
unfolding swap
swap_test = refl

shift_test : (shift (some (97 ∷ [])) 1).buffer ≡ none
unfolding shift
shift_test = refl

move_from_test : move_from abc ≡ record { this = abc; old = empty }
unfolding move_from
move_from_test = refl

index_test : index abc 4 ≡ some 98
unfolding index
index_test = refl

reserve_test : (reserve zeros 20 abc).capacity ≡ 20
unfolding reserve recap
reserve_test = refl

clear_test : clear zeros abc ≡ some empty
unfolding clear resize recap_hold
clear_test = refl

assign_test :
    assign zeros abc b
    ≡ some (record { content = some (98 ∷ 98 ∷ 99 ∷ []); capacity = 3; size = 1 })
unfolding assign set overwritten memcpy
assign_test = refl

copy_test : copy zeros b ≡ some (record { content = some (98 ∷ zeros 14); capacity = 15; size = 1 })
unfolding copy clear resize recap_hold append grown moved memcpy
copy_test = refl
