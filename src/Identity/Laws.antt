-- ===== src/Identity/Laws.antt =====
-- What a match of an author's identity rests on, and what it costs.
use pkc_js.Base.{
  ℕ, ◌≤◌, ◌≡◌, ◌↔◌, ◌⊎◌, inl, inr, refl, sym, subst, ◌∙◌, ap, map, String, Bool, true, false, ◌||◌,
  Option, none, some, List, [], ◌∷◌, str_eq, includes, any, Any, any_iff, includes_sound,
  includes_complete, if◌then◌else◌, arith, eq_iff, Bool-cases, Option-cases,
}
use pkc_js.Names.{is_string_domain}
use pkc_js.Excludes.{MatchOutcome, matched}
use pkc_js.Identity.{
  Resolved, address, no_record, failed, Matcher, new_matcher, no_match, verdict_of, ask_once,
  name_resolves_to_signer, names_author, matches_identity, scan_identities, matches_any_identity,
}

module _ (to_lower_case : String → String) (resolve : ℕ → String → Resolved) (signer : String)
    (wire_name : Option String) where
  -- Keys first and in full, then the name.
  scan_identities_lem :
      (listed : Bool) (ids : List String) (m : Matcher)
      → scan_identities to_lower_case resolve signer wire_name listed ids m ≡ (
          if includes ids signer
          then (matched, m)
          else if listed || any (names_author to_lower_case resolve signer wire_name) ids
          then name_resolves_to_signer to_lower_case resolve signer wire_name m
          else (no_match, m))
  unfolding scan_identities
  scan_identities_lem listed [] m = ground arith
  scan_identities_lem listed (x ∷ ids) m = ground (
    arith,
    scan_identities_lem (names_author to_lower_case resolve signer wire_name x || listed) ids m,
  )

  verdict-eq-matched :
      (r : Resolved)
      → (verdict_of to_lower_case resolve signer wire_name r ≡ matched) ↔ (r ≡ address signer)
  unfolding verdict_of
  verdict-eq-matched (address a) = ground (arith, eq_iff a signer)
  verdict-eq-matched no_record = ground arith
  verdict-eq-matched (failed e) = ground arith

  -- The claimed name is a domain that belongs to the signer, by the resolver's first answer.
  pub record NameIsOwned (ids : List String) : Type 0 where
    pub name : String
    pub claimed : wire_name ≡ some name
    pub domain : is_string_domain name ≡ true
    pub listed : Any (λ x. names_author to_lower_case resolve signer wire_name x ≡ true) ids
    pub owned : resolve 0 name ≡ address signer

  fresh_name :
      (name : String)
      → wire_name ≡ some name
      → (name_resolves_to_signer to_lower_case resolve signer wire_name new_matcher).0 ≡ (
          if is_string_domain name
          then verdict_of to_lower_case resolve signer wire_name (resolve 0 name)
          else no_match)
  unfolding name_resolves_to_signer
  fresh_name name e = ground arith

  name_only :
      (ids : List String)
      → includes ids signer ≡ false
      → any (names_author to_lower_case resolve signer wire_name) ids ≡ true
      → (name_resolves_to_signer to_lower_case resolve signer wire_name new_matcher).0 ≡ matched
      → NameIsOwned ids
  unfolding name_resolves_to_signer
  name_only ids unlisted named e = elim (Option-cases wire_name) [
    | inl nobody ↦ absurd (ground arith)
    | inr (name, claims) ↦ elim (Bool-cases (is_string_domain name)) [
      | inr plain ↦ absurd (ground (arith, fresh_name name claims))
      | inl domain ↦ record {
        name = name;
        claimed = claims;
        domain = domain;
        listed = (any_iff (names_author to_lower_case resolve signer wire_name) ids).0 named;
        owned = (verdict-eq-matched (resolve 0 name)).0 (ground (arith, fresh_name name claims));
      }
    ]
  ]

  matched_sound :
      (ids : List String)
      → (matches_any_identity to_lower_case resolve signer wire_name ids new_matcher).0 ≡ matched
      → Any (λ x. x ≡ signer) ids ⊎ NameIsOwned ids
  unfolding matches_any_identity
  matched_sound ids h = elim (Bool-cases (includes ids signer)) [
    | inl listed ↦ inl (includes_sound ids signer listed)
    | inr unlisted ↦
        elim (Bool-cases (any (names_author to_lower_case resolve signer wire_name) ids)) [
          | inl named ↦ inr (
              name_only ids unlisted named
                (ground (arith, scan_identities_lem false ids new_matcher)))
          | inr unnamed ↦ absurd (ground (arith, scan_identities_lem false ids new_matcher))
        ]
  ]

  owned_matches :
      (ids : List String)
      → NameIsOwned ids
      → (matches_any_identity to_lower_case resolve signer wire_name ids new_matcher).0 ≡ matched
  unfolding matches_any_identity
  owned_matches ids o = ground (
    arith,
    scan_identities_lem false ids new_matcher,
    fresh_name o.name o.claimed,
    verdict-eq-matched (resolve 0 o.name),
    (any_iff (names_author to_lower_case resolve signer wire_name) ids).1 o.listed,
    o.domain,
    o.owned,
  )

  -- Where the signer's own address is listed, nothing is resolved.
  pub matches_any_by_key :
      (ids : List String) (m : Matcher)
      → Any (λ x. x ≡ signer) ids
      → matches_any_identity to_lower_case resolve signer wire_name ids m ≡ (matched, m)
  unfolding matches_any_identity
  matches_any_by_key ids m listed =
      ground (arith, scan_identities_lem false ids m, includes_complete ids signer listed)

  -- A new matcher matches an author against listed identities exactly when the signer's own
  -- address is listed, or the name that the author claims is listed and resolves to the signer.
  -- A name that somebody else owns never matches.
  pub matches_any-eq-matched_iff :
      (ids : List String)
      → ((matches_any_identity to_lower_case resolve signer wire_name ids new_matcher).0 ≡ matched)
        ↔ (Any (λ x. x ≡ signer) ids ⊎ NameIsOwned ids)
  matches_any-eq-matched_iff ids = (
    matched_sound ids,
    λ r. elim r [
      | inl listed ↦ ap (λ p. p.0) (matches_any_by_key ids new_matcher listed)
      | inr owned ↦ owned_matches ids owned
    ],
  )

  -- A question to a matcher.
  pub data Query : Type 0 where
    one : String → Query
    many : List String → Query

  pub ask : Query → Matcher → MatchOutcome × Matcher
  ask (one identity) m = matches_identity to_lower_case resolve signer wire_name identity m
  ask (many ids) m = matches_any_identity to_lower_case resolve signer wire_name ids m

  pub ask_all : List Query → Matcher → List MatchOutcome × Matcher
  ask_all [] m = ([], m)
  ask_all (q ∷ qs) m = let (o, m') = ask q m in let (os, m'') = ask_all qs m' in (o ∷ os, m'')

  -- The matcher is new, or remembers the verdict on the resolver's first answer.
  abbrev Remembers : Matcher → Type 0
  Remembers m =
      (m ≡ new_matcher)
      ⊎ ((name : String) × (wire_name ≡ some name)
          × (m.name_outcome
              ≡ some (verdict_of to_lower_case resolve signer wire_name (resolve 0 name)))
          × (m.resolves ≡ 1))

  ask_once_step :
      (name : String) (m : Matcher)
      → wire_name ≡ some name
      → Remembers m
      → ((ask_once to_lower_case resolve signer wire_name name m).0
          ≡ verdict_of to_lower_case resolve signer wire_name (resolve 0 name))
        × Remembers (ask_once to_lower_case resolve signer wire_name name m).1
  unfolding ask_once
  ask_once_step name m w (inl e) = rw e (refl, inr (name, w, refl, refl))
  ask_once_step name m w (inr (known, w', o, r)) =
      let same : known ≡ name = ground (arith, w, w') in
      let e : ask_once to_lower_case resolve signer wire_name name m
          ≡ (verdict_of to_lower_case resolve signer wire_name (resolve 0 name), m) =
        ground (arith, same) in
      (ap (λ p. p.0) e, subst Remembers (sym (ap (λ p. p.1) e)) (inr (known, w', o, r)))

  unnamed :
      (m : Matcher)
      → wire_name ≡ none
      → name_resolves_to_signer to_lower_case resolve signer wire_name m ≡ (no_match, m)
  unfolding name_resolves_to_signer
  unnamed m nobody = ground arith

  undotted :
      (name : String) (m : Matcher)
      → wire_name ≡ some name
      → is_string_domain name ≡ false
      → name_resolves_to_signer to_lower_case resolve signer wire_name m ≡ (no_match, m)
  unfolding name_resolves_to_signer
  undotted name m claims plain = ground arith

  asked :
      (name : String) (m : Matcher)
      → wire_name ≡ some name
      → is_string_domain name ≡ true
      → name_resolves_to_signer to_lower_case resolve signer wire_name m
        ≡ ask_once to_lower_case resolve signer wire_name name m
  unfolding name_resolves_to_signer
  asked name m claims domain = ground arith

  -- A matcher that is not asked stays as it is, and answers as a new one.
  unasked :
      {r r' : MatchOutcome × Matcher} (m : Matcher)
      → Remembers m
      → r ≡ (no_match, m)
      → r' ≡ (no_match, new_matcher)
      → (r.0 ≡ r'.0) × Remembers r.1
  unasked m h e e' =
      (ap (λ p. p.0) e ∙ sym (ap (λ p. p.0) e'), subst Remembers (sym (ap (λ p. p.1) e)) h)

  name_step :
      (m : Matcher)
      → Remembers m
      → ((name_resolves_to_signer to_lower_case resolve signer wire_name m).0
          ≡ (name_resolves_to_signer to_lower_case resolve signer wire_name new_matcher).0)
        × Remembers (name_resolves_to_signer to_lower_case resolve signer wire_name m).1
  name_step m h = elim (Option-cases wire_name) [
    | inl nobody ↦ unasked m h (unnamed m nobody) (unnamed new_matcher nobody)
    | inr (name, claims) ↦ elim (Bool-cases (is_string_domain name)) [
      | inr plain ↦
          unasked m h (undotted name m claims plain) (undotted name new_matcher claims plain)
      | inl domain ↦
          let (o, r) = ask_once_step name m claims h in
          let (o', r') = ask_once_step name new_matcher claims (inl refl) in
          let e = asked name m claims domain in
          let e' = asked name new_matcher claims domain in
          (
            ap (λ p. p.0) e ∙ o ∙ sym o' ∙ sym (ap (λ p. p.0) e'),
            subst Remembers (sym (ap (λ p. p.1) e)) r,
          )
    ]
  ]

  scan_step :
      (ids : List String) (m : Matcher)
      → Remembers m
      → ((matches_any_identity to_lower_case resolve signer wire_name ids m).0
          ≡ (matches_any_identity to_lower_case resolve signer wire_name ids new_matcher).0)
        × Remembers (matches_any_identity to_lower_case resolve signer wire_name ids m).1
  unfolding matches_any_identity
  scan_step ids m h =
      let (same, kept) = name_step m h in
      rw (scan_identities_lem false ids m, scan_identities_lem false ids new_matcher)
        (elim (Bool-cases (includes ids signer)) [
          | inl listed ↦ rw listed (refl, h)
          | inr unlisted ↦
              elim (Bool-cases (any (names_author to_lower_case resolve signer wire_name) ids)) [
                | inl named ↦ rw (unlisted, named) (same, kept)
                | inr unnamed_ids ↦ rw (unlisted, unnamed_ids) (refl, h)
              ]
        ])

  one_step :
      (identity : String) (m : Matcher)
      → Remembers m
      → ((matches_identity to_lower_case resolve signer wire_name identity m).0
          ≡ (matches_identity to_lower_case resolve signer wire_name identity new_matcher).0)
        × Remembers (matches_identity to_lower_case resolve signer wire_name identity m).1
  unfolding matches_identity
  one_step identity m h =
      let (same, kept) = name_step m h in
      elim (Bool-cases (is_string_domain identity)) [
        | inr plain ↦ elim (Bool-cases (str_eq identity signer)) [
          | inl key ↦ rw (plain, key) (refl, h)
          | inr other_key ↦ rw (plain, other_key) (refl, h)
        ]
        | inl domain ↦
            elim (Bool-cases (names_author to_lower_case resolve signer wire_name identity)) [
              | inl named ↦ rw (domain, named) (same, kept)
              | inr other_name ↦ rw (domain, other_name) (refl, h)
            ]
      ]

  ask_step :
      (q : Query) (m : Matcher)
      → Remembers m
      → ((ask q m).0 ≡ (ask q new_matcher).0) × Remembers (ask q m).1
  unfolding ask
  ask_step (one identity) m h = one_step identity m h
  ask_step (many ids) m h = scan_step ids m h

  ask_all_from :
      (qs : List Query) (m : Matcher)
      → Remembers m
      → ((ask_all qs m).0 ≡ map (λ q. (ask q new_matcher).0) qs) × ((ask_all qs m).1.resolves ≤ 1)
  unfolding ask_all
  ask_all_from [] m (inl e) = (refl, rw e (omega arith))
  ask_all_from [] m (inr (name, w, o, r)) = (refl, omega arith)
  ask_all_from (q ∷ qs) m h =
      let (same, kept) = ask_step q m h in
      let (later, few) = ask_all_from qs (ask q m).1 kept in (cc (same, later), few)

  -- Whatever a request's matcher is asked, and however the resolver's answers change in between,
  -- it asks the resolver at most once, and answers each question as a new matcher would.
  pub ask_all_once :
      (qs : List Query)
      → ((ask_all qs new_matcher).0 ≡ map (λ q. (ask q new_matcher).0) qs)
        × ((ask_all qs new_matcher).1.resolves ≤ 1)
  ask_all_once qs = ask_all_from qs new_matcher (inl refl)
