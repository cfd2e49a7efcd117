-- ===== src/Excludes/Asked.antt =====
-- What the rules of src/runtime/node/community/challenges/exclude/exclude.ts ask of an author.
use pkc_js.Base.{
  ℕ, ◌+◌, ◌<◌, ◌≤◌, ◌≡◌, ◌≢◌, ◌⊎◌, String, Bool, true, Option, none, some, List, [], ◌∷◌, map,
  filter_by, includes, Any,
}
use pkc_js.Excludes.{
  Score, plus, score_le, PublicationTypes, Exclude, NameFailure, MatchOutcome, matched, unmatched,
}
use pkc_js.Excludes.Publication.{Kinds, Standing, PublicationType, get_publication_type}

-- A list that is there and not empty.
abbrev pub HasSome : Option (List String) → Type 0
HasSome none = ⊥
HasSome (some xs) = xs ≢ []

-- The rule says something about the author or the publication.
abbrev pub SaysSomething : Exclude → Type 0
SaysSomething e =
    (e.post_score ≢ none)
    ⊎ (e.reply_score ≢ none)
    ⊎ (e.post_count ≢ none)
    ⊎ (e.reply_count ≢ none)
    ⊎ (e.first_comment_timestamp ≢ none)
    ⊎ HasSome e.public_keys
    ⊎ HasSome e.names
    ⊎ (e.publication_type ≢ none)
    ⊎ (e.rate_limit ≢ none)
    ⊎ HasSome e.roles

-- The score is at least what is asked, if anything is; no score counts as 0.
abbrev pub Reaches : Option Score → Option Score → Type 0
Reaches none score = Unit
Reaches (some asked) none = score_le asked (plus 0) ≡ true
Reaches (some asked) (some score) = score_le asked score ≡ true

-- The first comment is as many seconds old as is asked; one at time 0 never is.
abbrev pub IsOldEnough : ℕ → Option ℕ → Option ℕ → Type 0
IsOldEnough now none first = Unit
IsOldEnough now (some seconds) none = ⊥
IsOldEnough now (some seconds) (some first) = (0 < first) × (first + seconds ≤ now)

-- The request is a publication of one of the kinds that are asked.
abbrev pub IsOfType : Option PublicationTypes → Kinds → Type 0
IsOfType none kinds = Unit
IsOfType (some types) kinds =
    ((PublicationTypes.post types ≡ true) × (kinds.is_post ≡ true))
    ⊎ ((PublicationTypes.reply types ≡ true) × (kinds.is_reply ≡ true))
    ⊎ ((PublicationTypes.vote types ≡ true) × (kinds.is_vote ≡ true))
    ⊎ ((PublicationTypes.comment_edit types ≡ true) × (kinds.is_comment_edit ≡ true))
    ⊎ ((PublicationTypes.comment_moderation types ≡ true) × (kinds.is_comment_moderation ≡ true))
    ⊎ ((PublicationTypes.community_edit types ≡ true) × (kinds.is_community_edit ≡ true))

module _ (now : ℕ) (has_token : ℕ → PublicationType → Bool → Bool) (signer : String)
    (standing : Standing) (kinds : Kinds) (community_roles : Option (List (String × String)))
    (matches_any : List String → MatchOutcome) where
  -- A limiter of this many tokens an hour has one left for a publication of this kind.
  abbrev pub HasTokenFor : ℕ → Bool → Option PublicationType → Type 0
  HasTokenFor limit succeeded none = Unit
  HasTokenFor limit succeeded (some kind) = has_token limit kind succeeded ≡ true

  -- It is the limiter of successful challenges, unless the rule picks that of the failed ones.
  abbrev pub HasToken : Option ℕ → Option Bool → Type 0
  HasToken none succeeded = Unit
  HasToken (some limit) none = HasTokenFor limit true (get_publication_type kinds)
  HasToken (some limit) (some succeeded) = HasTokenFor limit succeeded (get_publication_type kinds)

  abbrev pub IsListed : Option (List String) → Type 0
  IsListed none = Unit
  IsListed (some keys) = Any (λ key. key ≡ signer) keys

  -- The rule says something, and the author passes all that it asks beside names and roles.
  pub record PassesOthers (e : Exclude) : Type 0 where
    pub says_something : SaysSomething e
    pub has_post_score : Reaches e.post_score standing.post_score
    pub has_reply_score : Reaches e.reply_score standing.reply_score
    pub is_old_enough : IsOldEnough now e.first_comment_timestamp standing.first_comment_timestamp
    pub is_of_type : IsOfType e.publication_type kinds
    pub has_token_left : HasToken e.rate_limit e.rate_limit_challenge_success
    pub is_listed : IsListed e.public_keys
    pub has_posts : Reaches e.post_count (some (plus standing.post_count))
    pub has_replies : Reaches e.reply_count (some (plus standing.reply_count))

  -- The identities to which the community gives one of the roles.
  abbrev pub holders : List String → List (String × String) → List String
  holders asked roles = map (λ r. r.0) (filter_by (λ r. includes asked r.1) roles)

  -- There are holders of the roles, and this is what matching the author against them comes to.
  abbrev pub HoldersMatch : List String → MatchOutcome → Type 0
  HoldersMatch asked outcome =
      (roles : List (String × String)) × (community_roles ≡ some roles)
      × (holders asked roles ≢ [])
      × (matches_any (holders asked roles) ≡ outcome)

  abbrev pub NamesMatch : Option (List String) → Type 0
  NamesMatch none = Unit
  NamesMatch (some names) = matches_any names ≡ matched

  abbrev pub RolesMatch : Option (List String) → Type 0
  RolesMatch none = Unit
  RolesMatch (some asked) = HoldersMatch asked matched

  -- The rule spares the author.
  pub record Spares (e : Exclude) : Type 0 where
    pub passes : PassesOthers e
    pub names_match : NamesMatch e.names
    pub roles_match : RolesMatch e.roles

  abbrev pub NamesFail : NameFailure → Option (List String) → Type 0
  NamesFail failure none = ⊥
  NamesFail failure (some names) = matches_any names ≡ unmatched (some failure)

  abbrev pub RolesFail : NameFailure → Option (List String) → Type 0
  RolesFail failure none = ⊥
  RolesFail failure (some asked) = HoldersMatch asked (unmatched (some failure))

  -- All but names and roles passes, and the match of the names fails so or, after names that match,
  -- that of the roles.
  pub record Blocks (failure : NameFailure) (e : Exclude) : Type 0 where
    pub passes : PassesOthers e
    pub fails : NamesFail failure e.names ⊎ (NamesMatch e.names × RolesFail failure e.roles)

  -- The first of the rules that a failure blocks is blocked by this one.
  abbrev pub FirstBlocks : NameFailure → List Exclude → Type 0
  FirstBlocks f [] = ⊥
  FirstBlocks f (e ∷ es) = Blocks f e ⊎ (((g : NameFailure) → ¬ Blocks g e) × FirstBlocks f es)
