-- ===== src/PageScoring/Order.antt =====
-- The stable sort by score of src/pages/page-sort-scoring.ts.
use pkc_js.Base.{
  ◌≡◌, ◌∙◌, inl, inr, refl, sym, ap, Bool, true, false, ◌&&◌, ◌||◌, List, [], ◌∷◌, filter_by, All,
  arith, Bool-cases,
}
use pkc_js.PageScoring.{PageComment, Score, insert_scored, sort_scored}

module _ {N : Type 0} (leq : N → N → Bool) (score_of : PageComment → Score N) where
  -- No score is below a later one.
  abbrev pub Descending : List (PageComment × N) → Type 0
  Descending [] = Unit
  Descending (x ∷ xs) = All (λ y. leq y.1 x.1 ≡ true) xs × Descending xs

  -- The entries of one score.
  abbrev pub alike : N → PageComment × N → Bool
  alike n pair = leq n pair.1 && leq pair.1 n

  contra : (c : Bool) → c ≡ true → c ≡ false → ⊥
  contra c g h = cc

  pub filter_pass :
      {A : Type 0} (p : A → Bool) (x : A) (xs : List A)
      → p x ≡ true
      → filter_by p (x ∷ xs) ≡ x ∷ filter_by p xs
  filter_pass p x xs e = rw (filter_by, e) refl

  pub filter_fail :
      {A : Type 0} (p : A → Bool) (x : A) (xs : List A)
      → p x ≡ false
      → filter_by p (x ∷ xs) ≡ filter_by p xs
  filter_fail p x xs e = rw (filter_by, e) refl

  filter_cons :
      (p : PageComment × N → Bool) (x : PageComment × N) (xs ys : List (PageComment × N))
      → filter_by p xs ≡ filter_by p ys
      → filter_by p (x ∷ xs) ≡ filter_by p (x ∷ ys)
  filter_cons p x xs ys h = elim (Bool-cases (p x)) [
    | inl e ↦ filter_pass p x xs e ∙ ap (λ zs. x ∷ zs) h ∙ sym (filter_pass p x ys e)
    | inr e ↦ filter_fail p x xs e ∙ h ∙ sym (filter_fail p x ys e)
  ]

  filter_swap :
      (p : PageComment × N → Bool) (x y : PageComment × N) (zs : List (PageComment × N))
      → (p x ≡ true → p y ≡ false)
      → filter_by p (y ∷ x ∷ zs) ≡ filter_by p (x ∷ y ∷ zs)
  filter_swap p x y zs h = elim (Bool-cases (p y)) [
    | inr f ↦ filter_fail p y (x ∷ zs) f ∙ filter_cons p x zs (y ∷ zs) (sym (filter_fail p y zs f))
    | inl f ↦ elim (Bool-cases (p x)) [
      | inl e ↦ absurd (contra (p y) f (h e))
      | inr e ↦
          filter_cons p y (x ∷ zs) zs (filter_fail p x zs e) ∙ sym (filter_fail p x (y ∷ zs) e)
    ]
  ]

  module _ (total : (a b : N) → leq a b || leq b a ≡ true)
      (trans : (a b c : N) → leq a b ≡ true → leq b c ≡ true → leq a c ≡ true) where
    All-insert_scored :
        (P : PageComment × N → Type 0) (x : PageComment × N) (ys : List (PageComment × N))
        → P x
        → All P ys
        → All P (insert_scored leq score_of x ys)
    unfolding insert_scored
    All-insert_scored P x [] p h = (p, tt)
    All-insert_scored P x (y ∷ ys) p h = elim (Bool-cases (leq y.1 x.1)) [
      | inl e ↦ rw e (p, h)
      | inr e ↦ rw e (h.0, All-insert_scored P x ys p h.1)
    ]

    All-below :
        (a b : N) (ys : List (PageComment × N))
        → leq a b ≡ true
        → All (λ y. leq y.1 a ≡ true) ys
        → All (λ y. leq y.1 b ≡ true) ys
    All-below a b [] e h = tt
    All-below a b (y ∷ ys) e h = (trans y.1 a b h.0 e, All-below a b ys e h.1)

    Descending-insert_scored :
        (x : PageComment × N) (ys : List (PageComment × N))
        → Descending ys
        → Descending (insert_scored leq score_of x ys)
    unfolding insert_scored
    Descending-insert_scored x [] h = (tt, tt)
    Descending-insert_scored x (y ∷ ys) h = elim (Bool-cases (leq y.1 x.1)) [
      | inl e ↦ rw e ((e, All-below y.1 x.1 ys e h.0), h)
      | inr e ↦
          let below : leq x.1 y.1 ≡ true = ground (arith, total x.1 y.1, e) in
          rw e (
            All-insert_scored (λ z. leq z.1 y.1 ≡ true) x ys below h.0,
            Descending-insert_scored x ys h.1,
          )
    ]

    pub Descending-sort_scored :
        (xs : List (PageComment × N)) → Descending (sort_scored leq score_of xs)
    unfolding sort_scored
    Descending-sort_scored [] = tt
    Descending-sort_scored (x ∷ xs) =
        Descending-insert_scored x (sort_scored leq score_of xs) (Descending-sort_scored xs)

    pub All-sort_scored :
        (P : PageComment × N → Type 0) (xs : List (PageComment × N))
        → All P xs
        → All P (sort_scored leq score_of xs)
    unfolding sort_scored
    All-sort_scored P [] h = tt
    All-sort_scored P (x ∷ xs) h =
        All-insert_scored P x (sort_scored leq score_of xs) h.0 (All-sort_scored P xs h.1)

    apart : (n a b : N) → leq n a && leq a n ≡ true → leq b a ≡ false → leq n b && leq b n ≡ false
    apart n a b same e = elim (Bool-cases (leq b n)) [
      | inl f ↦
          let up : leq n a ≡ true = ground (arith, same) in
          absurd (contra (leq b a) (trans b n a f up) e)
      | inr f ↦ ground (arith, f)
    ]

    -- An entry is inserted before the entries of its score.
    alike-insert_scored :
        (n : N) (x : PageComment × N) (ys : List (PageComment × N))
        → filter_by (alike n) (insert_scored leq score_of x ys) ≡ filter_by (alike n) (x ∷ ys)
    unfolding insert_scored
    alike-insert_scored n x [] = refl
    alike-insert_scored n x (y ∷ ys) = elim (Bool-cases (leq y.1 x.1)) [
      | inl e ↦ rw e refl
      | inr e ↦ rw e (
          filter_cons (alike n) y (insert_scored leq score_of x ys) (x ∷ ys)
            (alike-insert_scored n x ys)
          ∙ filter_swap (alike n) x y ys (λ same. apart n x.1 y.1 same e))
    ]

    pub alike-sort_scored :
        (n : N) (xs : List (PageComment × N))
        → filter_by (alike n) (sort_scored leq score_of xs) ≡ filter_by (alike n) xs
    unfolding sort_scored
    alike-sort_scored n [] = refl
    alike-sort_scored n (x ∷ xs) =
        alike-insert_scored n x (sort_scored leq score_of xs)
        ∙ filter_cons (alike n) x (sort_scored leq score_of xs) xs (alike-sort_scored n xs)
