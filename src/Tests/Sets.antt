-- ===== src/Tests/Sets.antt =====
-- Runs of the bounded set.
use pkc_js.Base.{
  List, ◌++◌, ◌⊎◌, ◌↔◌, ◌≡◌, ◌≤◌, refl, true, false, String, [], ◌∷◌, arith, str_eq, eq_iff,
}
use pkc_js.LimitedSet.{
  IsForgotten, LimitedSet, add, delete, has, size, IsValid, add-IsValid, add-bounded,
  delete-IsValid,
}

abbrev empty : LimitedSet String
empty = record { max_size = 2; members = []; insertion_order = [] }

empty-IsValid : IsValid str_eq empty
empty-IsValid = record { same_length = refl; same_values = λ v. refl; once = λ v. omega arith }

abbrev two : LimitedSet String
two = record { max_size = 2; members = "a" ∷ "b" ∷ []; insertion_order = "b" ∷ "a" ∷ [] }

-- "a" was refreshed, so "b" goes.
oldest_goes :
    add str_eq "c" two
    ≡ record { max_size = 2; members = "a" ∷ "c" ∷ []; insertion_order = "a" ∷ "c" ∷ [] }
unfolding add
oldest_goes = refl

add-IsValid_example : IsValid str_eq (add str_eq "a" empty)
add-IsValid_example = add-IsValid str_eq eq_iff "a" empty empty-IsValid

one-IsValid : IsValid str_eq (add str_eq "a" empty)
one-IsValid = add-IsValid str_eq eq_iff "a" empty empty-IsValid

two-IsValid : IsValid str_eq (add str_eq "b" (add str_eq "a" empty))
two-IsValid = add-IsValid str_eq eq_iff "b" (add str_eq "a" empty) one-IsValid

-- The set is full, so "a" goes.
add-bounded_example :
    ((has str_eq "a" (add str_eq "c" (add str_eq "b" (add str_eq "a" empty))) ≡ true) ↔ (
      ◌≡◌ {A = String} "c" "a"
      ⊎ ((has str_eq "a" (add str_eq "b" (add str_eq "a" empty)) ≡ true)
          × (¬ IsForgotten str_eq "c" "a" (add str_eq "b" (add str_eq "a" empty))))))
    × ((older : List String) × (LimitedSet.insertion_order
            (add str_eq "c" (add str_eq "b" (add str_eq "a" empty)))
          ≡ older ++ "c" ∷ []))
    × (size str_eq (add str_eq "c" (add str_eq "b" (add str_eq "a" empty))) ≤ 2)
unfolding add size
add-bounded_example =
    add-bounded str_eq eq_iff "c" "a" (add str_eq "b" (add str_eq "a" empty)) two-IsValid
      (omega arith)

delete-IsValid_example :
    IsValid str_eq (delete str_eq "a" (add str_eq "a" empty)).0
    × (has str_eq "a" (delete str_eq "a" (add str_eq "a" empty)).0 ≡ false)
delete-IsValid_example = delete-IsValid str_eq eq_iff "a" (add str_eq "a" empty) one-IsValid
