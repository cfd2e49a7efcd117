-- ===== src/PageScoring/Subtrees.antt =====
-- What the loop over the stack in src/pages/page-sort-scoring.ts collects, from the children by parent.
use pkc_js.Base.{
  ℕ, zero, suc, ◌+◌, ◌≤◌, ◌<◌, ◌≡◌, ◌∙◌, ◌↔◌, ◌⊎◌, inl, inr, refl, sym, ap, subst, String, none,
  some, List, [], ◌∷◌, ◌++◌, Any, All, str_eq, lookup, arith, Option-cases,
}
use pkc_js.PageScoring.{PageComment, children_in, push_all, walk}

abbrev pub Contains : PageComment → List PageComment → Type 0
Contains entry xs = Any (λ x. x ≡ entry) xs

pub append_nil : (xs : List PageComment) → xs ++ [] ≡ xs
append_nil [] = refl
append_nil (x ∷ xs) = ap (λ ys. x ∷ ys) (append_nil xs)

pub append_assoc : (xs ys zs : List PageComment) → xs ++ ys ++ zs ≡ xs ++ (ys ++ zs)
append_assoc [] ys zs = refl
append_assoc (x ∷ xs) ys zs = ap (λ ws. x ∷ ws) (append_assoc xs ys zs)

Contains-append :
    (e : PageComment) (xs ys : List PageComment)
    → Contains e (xs ++ ys) ↔ (Contains e xs ⊎ Contains e ys)
Contains-append e [] ys = ((λ h. inr h), λ h. elim h [ inl f ↦ absurd f | inr f ↦ f ])
Contains-append e (x ∷ xs) ys = ground (arith, Contains-append e xs ys)

-- The entry is under the comment: its child, or under a child of it.
pub data Descends (kids : String → List PageComment) : String → PageComment → Type 0 where
  child :
      (cid : String) → (entry : PageComment) → Contains entry (kids cid) → Descends kids cid entry
  deeper :
      (cid : String)
      → (between entry : PageComment) → Contains between (kids cid)
      → Descends kids between.cid entry
      → Descends kids cid entry

module _ (children_by_parent : List (String × List PageComment)) where
  abbrev pub children : String → List PageComment
  children cid = children_in (lookup str_eq cid children_by_parent)

  -- In `rounds` rounds the loop takes the cid off the stack and collects what is found.
  pub record Collects (cid : String) : Type 0 where
    pub rounds : ℕ
    pub found : List PageComment
    pub loops :
        (extra : ℕ) (stack : List String) (collected : List PageComment)
        → walk (rounds + extra) children_by_parent (cid ∷ stack) collected
          ≡ walk extra children_by_parent stack (collected ++ found)
    pub all_found : (entry : PageComment) → Contains entry found ↔ Descends children cid entry

  record CollectsAll (siblings : List PageComment) : Type 0 where
    pub rounds : ℕ
    pub found : List PageComment
    pub loops :
        (extra : ℕ) (stack : List String) (collected : List PageComment)
        → walk (rounds + extra) children_by_parent (push_all siblings stack) collected
          ≡ walk extra children_by_parent stack (collected ++ found)
    pub all_found :
        (entry : PageComment)
        → Contains entry found ↔ Any (λ sibling. Descends children sibling.cid entry) siblings

  joined :
      {A : Type 0} {B : Type 0} {C : Type 0} {P : Type 0} {Q : Type 0}
      → A ↔ (B ⊎ C)
      → B ↔ P
      → C ↔ Q
      → A ↔ (Q ⊎ P)
  joined both others mine = (
    (λ a. elim (both.0 a) [ inl b ↦ inr (others.0 b) | inr c ↦ inl (mine.0 c) ]),
    (λ h. elim h [ inl q ↦ both.1 (inr (mine.1 q)) | inr p ↦ both.1 (inl (others.1 p)) ]),
  )

  join_siblings :
      (siblings : List PageComment)
      → All (λ sibling. Collects sibling.cid) siblings
      → CollectsAll siblings
  join_siblings [] h = record {
    rounds = 0;
    found = [];
    loops = λ extra stack collected.
        let same : 0 + extra ≡ extra = omega arith in
        ap (λ n. walk n children_by_parent stack collected) same
        ∙ ap (walk extra children_by_parent stack) (sym (append_nil collected));
    all_found = λ entry. ((λ f. f), λ f. f);
  }
  join_siblings (sibling ∷ siblings) h =
      let rest : CollectsAll siblings = join_siblings siblings h.1 in
      let own : Collects sibling.cid = h.0 in
      record {
        rounds = rest.rounds + own.rounds;
        found = rest.found ++ own.found;
        loops = λ extra stack collected.
            let assoc : rest.rounds + own.rounds + extra ≡ rest.rounds + (own.rounds + extra) =
              omega arith in
            ap (λ n. walk n children_by_parent (push_all siblings (sibling.cid ∷ stack)) collected)
              assoc
            ∙ rest.loops (own.rounds + extra) (sibling.cid ∷ stack) collected
            ∙ own.loops extra stack (collected ++ rest.found)
            ∙ ap (walk extra children_by_parent stack)
                (append_assoc collected rest.found own.found);
        all_found = λ entry.
            joined (Contains-append entry rest.found own.found) (rest.all_found entry)
              (own.all_found entry);
      }

  Descends-cases :
      (cid : String) (entry : PageComment)
      → Descends children cid entry
      → Contains entry (children cid)
        ⊎ ((between : PageComment) × Contains between (children cid)
            × Descends children between.cid entry)
  Descends-cases _ _ (child cid entry c) = inl c
  Descends-cases _ _ (deeper cid between entry c d) = inr (between, c, d)

  through_some :
      (entry : PageComment) (siblings : List PageComment)
      → Any (λ sibling. Descends children sibling.cid entry) siblings
      → (between : PageComment) × Contains between siblings × Descends children between.cid entry
  through_some entry [] h = absurd h
  through_some entry (x ∷ xs) (inl d) = (x, inl refl, d)
  through_some entry (x ∷ xs) (inr h) =
      let (between, c, d) = through_some entry xs h in (between, inr c, d)

  some_through :
      (entry between : PageComment) (siblings : List PageComment)
      → Contains between siblings
      → Descends children between.cid entry
      → Any (λ sibling. Descends children sibling.cid entry) siblings
  some_through entry between [] h d = absurd h
  some_through entry between (x ∷ xs) (inl e) d =
      inl (subst (λ y. Descends children (PageComment.cid y) entry) (sym e) d)
  some_through entry between (x ∷ xs) (inr h) d = inr (some_through entry between xs h d)

  -- What is under a comment whose children are known.
  under_iff :
      (cid : String) (entry : PageComment) (siblings : List PageComment)
      → children cid ≡ siblings
      → (Contains entry siblings ⊎ Any (λ sibling. Descends children sibling.cid entry) siblings)
        ↔ Descends children cid entry
  under_iff cid entry siblings e = (
    (λ h. elim h [
      | inl c ↦ child cid entry (subst (Contains entry) (sym e) c)
      | inr a ↦
          let (between, c, d) = through_some entry siblings a in
          deeper cid between entry (subst (Contains between) (sym e) c) d
    ]),
    (λ d. elim (Descends-cases cid entry d) [
      | inl c ↦ inl (subst (Contains entry) e c)
      | inr (between, c, below) ↦
          inr (some_through entry between siblings (subst (Contains between) e c) below)
    ]),
  )

  -- What a comment without children, and one with children, collects.
  childless : (cid : String) → lookup str_eq cid children_by_parent ≡ none → Collects cid
  unfolding walk
  childless cid e = record {
    rounds = 1;
    found = [];
    loops = λ extra stack collected.
        let one : 1 + extra ≡ suc extra = omega arith in
        ap (λ n. walk n children_by_parent (cid ∷ stack) collected) one
        ∙ rw (walk, e) (ap (walk extra children_by_parent stack) (sym (append_nil collected)));
    all_found = λ entry.
        let under = under_iff cid entry [] (ap children_in e) in
        ((λ f. absurd f), λ d. elim (under.1 d) [ inl f ↦ f | inr f ↦ f ]);
  }

  with_children :
      (cid : String) (siblings : List PageComment)
      → lookup str_eq cid children_by_parent ≡ some siblings
      → CollectsAll siblings
      → Collects cid
  unfolding walk
  with_children cid siblings e rest = record {
    rounds = suc rest.rounds;
    found = siblings ++ rest.found;
    loops = λ extra stack collected.
        let one : suc rest.rounds + extra ≡ suc (rest.rounds + extra) = omega arith in
        ap (λ n. walk n children_by_parent (cid ∷ stack) collected) one
        ∙ rw (walk, e)
            (rest.loops extra stack (collected ++ siblings)
              ∙ ap (walk extra children_by_parent stack)
                  (append_assoc collected siblings rest.found));
    all_found = λ entry.
        let under = under_iff cid entry siblings (ap children_in e) in
        let both = Contains-append entry siblings rest.found in
        let below = rest.all_found entry in
        (
          (λ c. elim (both.0 c) [ inl x ↦ under.0 (inl x) | inr y ↦ under.0 (inr (below.0 y)) ]),
          (λ d. elim (under.1 d) [ inl x ↦ both.1 (inl x) | inr a ↦ both.1 (inr (below.1 a)) ]),
        );
  }

  -- `height` falls from a comment to its children: nobody is under himself.
  module _ (height : String → ℕ)
      (falls : (cid : String) → All (λ entry. height entry.cid < height cid) (children cid)) where
    each_sibling :
        (k : ℕ) (bound : ℕ)
        → ((cid : String) → height cid < k → Collects cid)
        → bound ≤ k
        → (siblings : List PageComment) → All (λ entry. height entry.cid < bound) siblings
        → All (λ sibling. Collects sibling.cid) siblings
    each_sibling k bound each low [] h = tt
    each_sibling k bound each low (x ∷ xs) h =
        (each x.cid (omega (arith, low, h.0)), each_sibling k bound each low xs h.1)

    pub collects : (k : ℕ) (cid : String) → height cid < k → Collects cid
    collects zero cid h = absurd (omega (arith, h))
    collects (suc k) cid h = elim (Option-cases (lookup str_eq cid children_by_parent)) [
      | inl e ↦ childless cid e
      | inr (siblings, e) ↦
          let lower : All (λ entry. height entry.cid < height cid) siblings =
            subst (All (λ entry. height entry.cid < height cid)) (ap children_in e) (falls cid) in
          with_children cid siblings e (
            join_siblings siblings (
              each_sibling k (height cid) (λ c below. collects k c below) (omega (arith, h))
                siblings lower))
    ]
