-- ===== src/Excludes/Rules.antt =====
-- The outcome of one rule of src/runtime/node/community/challenges/exclude/exclude.ts.
use pkc_js.Base.{
  ℕ, ◌≡◌, ◌≢◌, refl, sym, ◌∙◌, ◌↔◌, ◌⊎◌, String, Bool, true, false, ◌&&◌, Option, none, some, List,
  [], ◌∷◌, is_empty, if◌then◌else◌, arith, ap, inl, inr, Option-cases,
}
use pkc_js.Excludes.{Exclude, NameFailure, MatchOutcome, matched, unmatched}
use pkc_js.Excludes.Publication.{
  Kinds, Standing, PublicationType, test_role, match_names, match_roles, and_then, test_exclude,
}
use pkc_js.Excludes.Asked.{
  holders, HoldersMatch, NamesMatch, RolesMatch, Spares, NamesFail, RolesFail, Blocks,
}
use pkc_js.Excludes.Passing.{says, passes_cheaply, passes_iff}

guarded_iff :
    (b : Bool) (o outcome : MatchOutcome)
    → outcome ≢ unmatched none
    → ((if b then o else unmatched none) ≡ outcome) ↔ ((b ≡ true) × (o ≡ outcome))
guarded_iff true o outcome real = ((λ e. (refl, e)), λ (same, e). e)
guarded_iff false o outcome real = ((λ e. absurd (real (sym e))), λ (wrong, e). absurd (cc))

module _ (now : ℕ) (has_token : ℕ → PublicationType → Bool → Bool) (signer : String)
    (standing : Standing) (kinds : Kinds) (community_roles : Option (List (String × String)))
    (matches_any : List String → MatchOutcome) where
  answer_iff :
      (keys : List String) (outcome : MatchOutcome)
      → outcome ≢ unmatched none
      → ((if is_empty keys then unmatched none else matches_any keys) ≡ outcome)
        ↔ ((keys ≢ []) × (matches_any keys ≡ outcome))
  answer_iff [] outcome real =
      ((λ e. absurd (real (sym e))), λ (some_key, e). absurd (some_key refl))
  answer_iff (key ∷ keys) outcome real = ((λ e. ((λ empty. cc), e)), λ (some_key, e). e)

  role_iff :
      (asked : List String) (outcome : MatchOutcome)
      → outcome ≢ unmatched none
      → (test_role now has_token signer standing kinds community_roles matches_any asked ≡ outcome)
        ↔ HoldersMatch now has_token signer standing kinds community_roles matches_any asked outcome
  unfolding test_role
  role_iff asked outcome real = elim (Option-cases community_roles) [
    | inl absent ↦
        rw (absent, test_role)
          ((λ e. absurd (real (sym e))), λ (roles, e, some_key, held). absurd (cc))
    | inr (roles, there) ↦
        let answer =
          answer_iff
            (holders now has_token signer standing kinds community_roles matches_any asked roles)
            outcome real in
        rw (there, test_role)
          (
            (λ e. (roles, refl, (answer.0 e).0, (answer.0 e).1)),
            λ (others, same, some_key, held).
                let alike : holders now has_token signer standing kinds community_roles matches_any
                      asked others
                    ≡ holders now has_token signer standing kinds community_roles matches_any asked
                        roles =
                  ap (holders now has_token signer standing kinds community_roles matches_any asked)
                    (ground (arith, same)) in
                answer.1 ((λ empty. some_key (alike ∙ empty)), ap matches_any (sym alike) ∙ held),
          )
  ]

  abbrev names_outcome : Exclude → MatchOutcome
  names_outcome e =
      match_names now has_token signer standing kinds community_roles matches_any e.names

  abbrev roles_outcome : Exclude → MatchOutcome
  roles_outcome e =
      match_roles now has_token signer standing kinds community_roles matches_any e.roles

  names_iff :
      (names : Option (List String))
      → ((match_names now has_token signer standing kinds community_roles matches_any names
            ≡ matched)
          ↔ NamesMatch now has_token signer standing kinds community_roles matches_any names)
        × ((f : NameFailure)
            → (match_names now has_token signer standing kinds community_roles matches_any names
                ≡ unmatched (some f))
              ↔ NamesFail now has_token signer standing kinds community_roles matches_any f names)
  names_iff none = (ground arith, λ f. ground arith)
  names_iff (some names) = (ground arith, λ f. ground arith)

  roles_iff :
      (roles : Option (List String))
      → ((match_roles now has_token signer standing kinds community_roles matches_any roles
            ≡ matched)
          ↔ RolesMatch now has_token signer standing kinds community_roles matches_any roles)
        × ((f : NameFailure)
            → (match_roles now has_token signer standing kinds community_roles matches_any roles
                ≡ unmatched (some f))
              ↔ RolesFail now has_token signer standing kinds community_roles matches_any f roles)
  roles_iff none = (ground arith, λ f. ground arith)
  roles_iff (some asked) = (
    role_iff asked matched (λ e. ground arith),
    λ f. role_iff asked (unmatched (some f)) (λ e. ground arith),
  )

  and_then-eq-matched :
      (a b : MatchOutcome)
      → (and_then now has_token signer standing kinds community_roles matches_any a b ≡ matched)
        ↔ ((a ≡ matched) × (b ≡ matched))
  and_then-eq-matched matched b = ground arith
  and_then-eq-matched (unmatched f) b = ground arith

  and_then-eq-failure :
      (a b : MatchOutcome) (f : NameFailure)
      → (and_then now has_token signer standing kinds community_roles matches_any a b
          ≡ unmatched (some f))
        ↔ ((a ≡ unmatched (some f)) ⊎ ((a ≡ matched) × (b ≡ unmatched (some f))))
  and_then-eq-failure matched b f = ground arith
  and_then-eq-failure (unmatched g) b f = ground arith

  abbrev pub test : Exclude → MatchOutcome
  test e = test_exclude now has_token signer standing kinds community_roles matches_any e

  pub test-eq-matched :
      (e : Exclude)
      → (test e ≡ matched)
        ↔ Spares now has_token signer standing kinds community_roles matches_any e
  unfolding test_exclude
  test-eq-matched e =
      let passes = passes_iff now has_token signer standing kinds community_roles matches_any e in
      let names = (names_iff e.names).0 in
      let roles = (roles_iff e.roles).0 in
      let both = and_then-eq-matched (names_outcome e) (roles_outcome e) in
      let outcome =
        and_then now has_token signer standing kinds community_roles matches_any (names_outcome e)
          (roles_outcome e) in
      let guard =
        guarded_iff
          (says now has_token signer standing kinds community_roles matches_any e
            && passes_cheaply now has_token signer standing kinds community_roles matches_any e)
          outcome matched (λ wrong. ground (arith, wrong)) in
      (
        (λ h.
            let (here, all_match) = guard.0 h in
            let (a, b) = both.0 all_match in
            record { passes = passes.0 here; names_match = names.0 a; roles_match = roles.0 b }),
        λ s. guard.1 (passes.1 s.passes, both.1 (names.1 s.names_match, roles.1 s.roles_match)),
      )

  pub test-eq-failure :
      (e : Exclude) (f : NameFailure)
      → (test e ≡ unmatched (some f))
        ↔ Blocks now has_token signer standing kinds community_roles matches_any f e
  unfolding test_exclude
  test-eq-failure e f =
      let passes = passes_iff now has_token signer standing kinds community_roles matches_any e in
      let (names, names_fail) = names_iff e.names in
      let roles_fail = (roles_iff e.roles).1 f in
      let either = and_then-eq-failure (names_outcome e) (roles_outcome e) f in
      let outcome =
        and_then now has_token signer standing kinds community_roles matches_any (names_outcome e)
          (roles_outcome e) in
      let guard =
        guarded_iff
          (says now has_token signer standing kinds community_roles matches_any e
            && passes_cheaply now has_token signer standing kinds community_roles matches_any e)
          outcome (unmatched (some f)) (λ wrong. ground (arith, wrong)) in
      (
        (λ h.
            let (here, failing) = guard.0 h in
            record {
              passes = passes.0 here;
              fails = elim (either.0 failing) [
                | inl a ↦ inl ((names_fail f).0 a)
                | inr (a, b) ↦ inr (names.0 a, roles_fail.0 b)
              ];
            }),
        λ s. guard.1 (
          passes.1 s.passes,
          either.1 (elim (Blocks.fails s) [
            | inl a ↦ inl ((names_fail f).1 a)
            | inr (a, b) ↦ inr (names.1 a, roles_fail.1 b)
          ]),
        ),
      )
