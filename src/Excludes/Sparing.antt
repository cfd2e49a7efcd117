-- ===== src/Excludes/Sparing.antt =====
-- The loop of src/runtime/node/community/challenges/exclude/exclude.ts over the rules: who is spared a
-- challenge, and which failure of a name is reported.
use pkc_js.Base.{
  ℕ, ◌≡◌, refl, ◌↔◌, ◌⊎◌, String, Bool, true, Option, none, some, List, [], ◌∷◌, Any, arith, ap,
  inl, inr,
}
use pkc_js.Excludes.{
  Exclude, CommunityChallenge, NameFailure, MatchOutcome, matched, unmatched, ShouldExclude,
}
use pkc_js.Excludes.Publication.{
  Kinds, Standing, PublicationType, first_failure, after_test, scan_excludes,
  should_exclude_publication,
}
use pkc_js.Excludes.Asked.{Spares, Blocks, FirstBlocks}
use pkc_js.Excludes.Rules.{test, test-eq-matched, test-eq-failure}

same_failure : (a b : Option NameFailure) → unmatched a ≡ unmatched b → a ≡ b
same_failure a b e = cc

module _ (now : ℕ) (has_token : ℕ → PublicationType → Bool → Bool) (signer : String)
    (standing : Standing) (kinds : Kinds) (community_roles : Option (List (String × String)))
    (matches_any : List String → MatchOutcome) where
  abbrev later :
      MatchOutcome → Option NameFailure → (Option NameFailure → ShouldExclude) → ShouldExclude
  later o failure rest =
      after_test now has_token signer standing kinds community_roles matches_any o failure rest

  abbrev scan : Option NameFailure → List Exclude → ShouldExclude
  scan failure es =
      scan_excludes now has_token signer standing kinds community_roles matches_any failure es

  after_test_iff :
      (o : MatchOutcome) (failure : Option NameFailure) (rest : Option NameFailure → ShouldExclude)
      (Here Later : Type 0)
      → (o ≡ matched) ↔ Here
      → ((g : Option NameFailure) → (ShouldExclude.should_exclude (rest g) ≡ true) ↔ Later)
      → (ShouldExclude.should_exclude (later o failure rest) ≡ true) ↔ (Here ⊎ Later)
  after_test_iff matched failure rest Here Later here there = ((λ _. inl (here.0 refl)), λ _. refl)
  after_test_iff (unmatched f) failure rest Here Later here there =
      let g =
        first_failure now has_token signer standing kinds community_roles matches_any failure f in
      (
        (λ h. inr ((there g).0 h)),
        λ r. elim r [
          | inl h ↦ let wrong = here.1 h in absurd (ground (arith, wrong))
          | inr l ↦ (there g).1 l
        ],
      )

  scan_iff :
      (failure : Option NameFailure) (es : List Exclude)
      → (ShouldExclude.should_exclude (scan failure es) ≡ true)
        ↔ Any (Spares now has_token signer standing kinds community_roles matches_any) es
  unfolding scan_excludes
  scan_iff failure [] = ground arith
  scan_iff failure (e ∷ es) =
      after_test_iff (test now has_token signer standing kinds community_roles matches_any e)
        failure (λ g. scan g es)
        (Spares now has_token signer standing kinds community_roles matches_any e)
        (Any (Spares now has_token signer standing kinds community_roles matches_any) es)
        (test-eq-matched now has_token signer standing kinds community_roles matches_any e)
        (λ g. scan_iff g es)

  -- What the rest of the loop reports, given the failure recorded so far.
  abbrev Reports : NameFailure → Option NameFailure → Type 0 → Type 0 → Type 0
  Reports f failure Spared First = (¬ Spared) × ((failure ≡ some f) ⊎ ((failure ≡ none) × First))

  after_test-Reports :
      (o : MatchOutcome) (failure : Option NameFailure) (rest : Option NameFailure → ShouldExclude)
      (f : NameFailure) (Here Later First : Type 0) (Fails : NameFailure → Type 0)
      → (o ≡ matched) ↔ Here
      → ((g : NameFailure) → (o ≡ unmatched (some g)) ↔ Fails g)
      → ((g : Option NameFailure)
          → (ShouldExclude.name_failure (rest g) ≡ some f) ↔ Reports f g Later First)
      → (ShouldExclude.name_failure (later o failure rest) ≡ some f)
        ↔ Reports f failure (Here ⊎ Later) (Fails f ⊎ (((g : NameFailure) → ¬ Fails g) × First))
  after_test-Reports matched failure rest f Here Later First Fails here fails there = (
    (λ wrong. absurd (ground (arith, wrong))),
    λ (unspared, _). absurd (unspared (inl (here.0 refl))),
  )
  after_test-Reports (unmatched o) (some k) rest f Here Later First Fails here fails there =
      let unspared : ¬ Here = λ s. let wrong = here.1 s in ground (arith, wrong) in
      (
        (λ h.
            let (not_later, known) = (there (some k)).0 h in
            (
              (λ s. elim s [ inl s' ↦ unspared s' | inr s' ↦ not_later s' ]),
              elim known [ inl same ↦ inl same | inr (wrong, _) ↦ absurd (ground (arith, wrong)) ],
            )),
        λ (not_any, known). (there (some k)).1 (
          (λ s. not_any (inr s)),
          elim known [ inl same ↦ inl same | inr (wrong, _) ↦ absurd (ground (arith, wrong)) ],
        ),
      )
  after_test-Reports (unmatched none) none rest f Here Later First Fails here fails there =
      let unspared : ¬ Here = λ s. let wrong = here.1 s in ground (arith, wrong) in
      let sound : (g : NameFailure) → ¬ Fails g =
        λ g b. let wrong = (fails g).1 b in ground (arith, wrong) in
      (
        (λ h.
            let (not_later, known) = (there none).0 h in
            (
              (λ s. elim s [ inl s' ↦ unspared s' | inr s' ↦ not_later s' ]),
              elim known [
                | inl wrong ↦ absurd (ground (arith, wrong))
                | inr (_, first) ↦ inr (refl, inr (sound, first))
              ],
            )),
        λ (not_any, known). (there none).1 (
          (λ s. not_any (inr s)),
          elim known [
            | inl wrong ↦ inl wrong
            | inr (_, which) ↦ elim which [
              | inl b ↦ absurd (sound f b)
              | inr (_, first) ↦ inr (refl, first)
            ]
          ],
        ),
      )
  after_test-Reports (unmatched (some k)) none rest f Here Later First Fails here fails there =
      let unspared : ¬ Here = λ s. let wrong = here.1 s in ground (arith, wrong) in
      (
        (λ h.
            let (not_later, known) = (there (some k)).0 h in
            (
              (λ s. elim s [ inl s' ↦ unspared s' | inr s' ↦ not_later s' ]),
              elim known [
                | inl same ↦ inr (refl, inl ((fails f).0 (ap unmatched same)))
                | inr (wrong, _) ↦ absurd (ground (arith, wrong))
              ],
            )),
        λ (not_any, known). (there (some k)).1 (
          (λ s. not_any (inr s)),
          elim known [
            | inl wrong ↦ absurd (ground (arith, wrong))
            | inr (_, which) ↦ elim which [
              | inl b ↦ inl (same_failure (some k) (some f) ((fails f).1 b))
              | inr (clear, _) ↦ absurd (clear k ((fails k).0 refl))
            ]
          ],
        ),
      )

  scan-Reports :
      (failure : Option NameFailure) (es : List Exclude) (f : NameFailure)
      → (ShouldExclude.name_failure (scan failure es) ≡ some f)
        ↔ Reports f failure
            (Any (Spares now has_token signer standing kinds community_roles matches_any) es)
            (FirstBlocks now has_token signer standing kinds community_roles matches_any f es)
  unfolding scan_excludes
  scan-Reports failure [] f = (
    (λ h. ((λ wrong. wrong), inl h)),
    λ (_, known). elim known [ inl h ↦ h | inr (_, wrong) ↦ absurd wrong ],
  )
  scan-Reports failure (e ∷ es) f =
      after_test-Reports (test now has_token signer standing kinds community_roles matches_any e)
        failure (λ g. scan g es) f
        (Spares now has_token signer standing kinds community_roles matches_any e)
        (Any (Spares now has_token signer standing kinds community_roles matches_any) es)
        (FirstBlocks now has_token signer standing kinds community_roles matches_any f es)
        (λ g. Blocks now has_token signer standing kinds community_roles matches_any g e)
        (test-eq-matched now has_token signer standing kinds community_roles matches_any e)
        (test-eq-failure now has_token signer standing kinds community_roles matches_any e)
        (λ g. scan-Reports g es f)

  -- The author is spared the challenge exactly when one of its rules spares the author, whatever the
  -- other rules say: the rule says something, and everything that it asks holds of the author and of
  -- the request. What it may ask is a post or reply score, a count of posts or replies, an age of the
  -- first comment, a kind of publication, a token of the rate limit, a key among its keys, a match of
  -- its names, and a match of the identities that hold one of its roles.
  pub should_exclude_publication_iff :
      (challenge : CommunityChallenge)
      → (ShouldExclude.should_exclude (
            should_exclude_publication now has_token signer standing kinds community_roles
              matches_any challenge)
          ≡ true)
        ↔ Any
            (Spares now has_token signer standing kinds community_roles matches_any)
            (CommunityChallenge.exclude challenge)
  unfolding should_exclude_publication
  should_exclude_publication_iff challenge = scan_iff none (CommunityChallenge.exclude challenge)

  -- A failure of the author's name is reported exactly when no rule spares the author and it is the
  -- failure of the first rule that one blocks. A failure blocks a rule when everything passes that
  -- the rule asks beside names and roles, and the match of its names fails so, whatever its roles, or
  -- its names match and the match of its roles fails so.
  pub should_exclude_publication-FirstBlocks :
      (challenge : CommunityChallenge) (f : NameFailure)
      → (ShouldExclude.name_failure (
            should_exclude_publication now has_token signer standing kinds community_roles
              matches_any challenge)
          ≡ some f)
        ↔ ((¬ Any
              (Spares now has_token signer standing kinds community_roles matches_any)
              (CommunityChallenge.exclude challenge))
            × FirstBlocks now has_token signer standing kinds community_roles matches_any f
                (CommunityChallenge.exclude challenge))
  unfolding should_exclude_publication
  should_exclude_publication-FirstBlocks challenge f =
      let reports = scan-Reports none (CommunityChallenge.exclude challenge) f in
      (
        (λ h.
            let (unspared, known) = reports.0 h in
            (
              unspared,
              elim known [ inl wrong ↦ absurd (ground (arith, wrong)) | inr (_, first) ↦ first ],
            )),
        λ (unspared, first). reports.1 (unspared, inr (refl, first)),
      )
