-- ===== src/Base/Maps.antt =====
-- The JavaScript `Map` and `Set`: lists in the order of insertion. `eq` is the equality of the keys.
use mathlib.Core.Path.{◌≡◌, ◌∙◌, refl, ap, sym}
use mathlib.Core.Logic.{◌↔◌, inl, inr}
use mathlib.Core.Bool.{Bool, true, not, ◌&&◌, ◌||◌}
use mathlib.Core.List.{List, [], ◌∷◌, ◌++◌}
use mathlib.Core.Option.{Option, none, some}
use native.Mathlib.Omega.{arith}
use pkc_js.Base.Tests.{if◌then◌else◌, Bool-cases}
use pkc_js.Base.Lists.{any}

module _ {A : Type 0} (eq : A → A → Bool) where
  abbrev pub contains : A → List A → Bool
  contains v xs = any (λ x. eq v x) xs

  -- `Set.add`
  abbrev pub insert : A → List A → List A
  insert v xs = if contains v xs then xs else xs ++ v ∷ []

  -- `Set.delete`
  abbrev pub discard : A → List A → List A
  discard v [] = []
  discard v (x ∷ xs) = let rest = discard v xs in if eq v x then rest else x ∷ rest

  module _ {B : Type 0} where
    -- `Map.get`
    abbrev pub lookup : A → List (A × B) → Option B
    lookup k [] = none
    lookup k ((l, b) ∷ entries) = let rest = lookup k entries in if eq k l then some b else rest

    -- `Map.set`: a key that is there keeps its place.
    abbrev pub assign : A → B → List (A × B) → List (A × B)
    assign k b [] = (k, b) ∷ []
    assign k b ((l, c) ∷ entries) =
        let rest = assign k b entries in if eq k l then (l, b) ∷ entries else (l, c) ∷ rest

    -- `Map.delete`
    abbrev pub erase : A → List (A × B) → List (A × B)
    erase k [] = []
    erase k ((l, c) ∷ entries) =
        let rest = erase k entries in if eq k l then rest else (l, c) ∷ rest

  module _ (lawful : (x y : A) → (eq x y ≡ true) ↔ (x ≡ y)) where
    pub eq_refl : (x : A) → eq x x ≡ true
    eq_refl x = (lawful x x).1 refl

    pub eq_sym : (x y : A) → eq x y ≡ eq y x
    eq_sym x y = elim (Bool-cases (eq x y)) [
      | inl e ↦ e ∙ sym ((lawful y x).1 (sym ((lawful x y).0 e)))
      | inr e ↦ elim (Bool-cases (eq y x)) [
        | inl f ↦ (lawful x y).1 (sym ((lawful y x).0 f)) ∙ sym f
        | inr f ↦ e ∙ sym f
      ]
    ]

    pub contains-append :
        (v w : A) (xs : List A) → contains w (xs ++ v ∷ []) ≡ contains w xs || eq w v
    contains-append v w [] = ground arith
    contains-append v w (x ∷ xs) = ground (arith, contains-append v w xs)

    pub contains-insert :
        (v w : A) (xs : List A) → contains w (insert v xs) ≡ eq v w || contains w xs
    contains-insert v w xs = elim (Bool-cases (contains v xs)) [
      | inl there ↦ elim (Bool-cases (eq v w)) [
        | inl e ↦
            let alike : contains v xs ≡ contains w xs =
              ap (λ z. contains z xs) ((lawful v w).0 e) in
            rw there (ground (arith, alike, there))
        | inr e ↦ rw there (rw e refl)
      ]
      | inr new ↦ rw new (ground (arith, contains-append v w xs, eq_sym v w))
    ]

    pub contains-discard :
        (v w : A) (xs : List A) → contains w (discard v xs) ≡ not (eq v w) && contains w xs
    contains-discard v w [] = ground arith
    contains-discard v w (x ∷ xs) =
        ground (arith, contains-discard v w xs, lawful v x, lawful w x, lawful v w)

    module _ {B : Type 0} where
      pub lookup-assign :
          (k l : A) (b : B) (entries : List (A × B))
          → lookup l (assign k b entries) ≡ (if eq k l then some b else lookup l entries)
      lookup-assign k l b [] = ground (arith, eq_sym k l)
      lookup-assign k l b ((m, c) ∷ entries) =
          ground (arith, lookup-assign k l b entries, lawful k m, lawful l m, lawful k l)

      pub lookup-erase :
          (k l : A) (entries : List (A × B))
          → lookup l (erase k entries) ≡ (if eq k l then none else lookup l entries)
      lookup-erase k l [] = ground arith
      lookup-erase k l ((m, c) ∷ entries) =
          ground (arith, lookup-erase k l entries, lawful k m, lawful l m, lawful k l)
