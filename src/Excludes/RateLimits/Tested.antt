-- ===== src/Excludes/RateLimits/Tested.antt =====
-- The rate limits that src/runtime/node/community/challenges/exclude/rate-limiter.ts tests are the ones
-- that it counts.
use pkc_js.Base.{
  ℕ, ◌≡◌, ◌∙◌, ◌↔◌, inl, inr, refl, sym, ap, subst, Bool, true, false, Option, none, some, List, [],
  ◌∷◌, Any, contains, contains-insert, eq_refl, arith,
}
use pkc_js.Excludes.{Exclude}
use pkc_js.Excludes.Publication.{
  Kinds, PublicationType, post, reply, vote, comment_edit, comment_moderation, community_edit,
  get_publication_type,
}
use pkc_js.Excludes.RateLimits.{
  LimiterName, limiter_name, number_of, same_bool, same_name, add_filtered_rate_limiter, add_if,
  add_type, add_limit, get_rate_limiters_to_add_to,
}

number_of_inj : (a b : PublicationType) → number_of a ≡ number_of b → a ≡ b
number_of_inj post post e = refl
number_of_inj post reply e = absurd (omega (arith, e))
number_of_inj post vote e = absurd (omega (arith, e))
number_of_inj post comment_edit e = absurd (omega (arith, e))
number_of_inj post comment_moderation e = absurd (omega (arith, e))
number_of_inj post community_edit e = absurd (omega (arith, e))
number_of_inj reply post e = absurd (omega (arith, e))
number_of_inj reply reply e = refl
number_of_inj reply vote e = absurd (omega (arith, e))
number_of_inj reply comment_edit e = absurd (omega (arith, e))
number_of_inj reply comment_moderation e = absurd (omega (arith, e))
number_of_inj reply community_edit e = absurd (omega (arith, e))
number_of_inj vote post e = absurd (omega (arith, e))
number_of_inj vote reply e = absurd (omega (arith, e))
number_of_inj vote vote e = refl
number_of_inj vote comment_edit e = absurd (omega (arith, e))
number_of_inj vote comment_moderation e = absurd (omega (arith, e))
number_of_inj vote community_edit e = absurd (omega (arith, e))
number_of_inj comment_edit post e = absurd (omega (arith, e))
number_of_inj comment_edit reply e = absurd (omega (arith, e))
number_of_inj comment_edit vote e = absurd (omega (arith, e))
number_of_inj comment_edit comment_edit e = refl
number_of_inj comment_edit comment_moderation e = absurd (omega (arith, e))
number_of_inj comment_edit community_edit e = absurd (omega (arith, e))
number_of_inj comment_moderation post e = absurd (omega (arith, e))
number_of_inj comment_moderation reply e = absurd (omega (arith, e))
number_of_inj comment_moderation vote e = absurd (omega (arith, e))
number_of_inj comment_moderation comment_edit e = absurd (omega (arith, e))
number_of_inj comment_moderation comment_moderation e = refl
number_of_inj comment_moderation community_edit e = absurd (omega (arith, e))
number_of_inj community_edit post e = absurd (omega (arith, e))
number_of_inj community_edit reply e = absurd (omega (arith, e))
number_of_inj community_edit vote e = absurd (omega (arith, e))
number_of_inj community_edit comment_edit e = absurd (omega (arith, e))
number_of_inj community_edit comment_moderation e = absurd (omega (arith, e))
number_of_inj community_edit community_edit e = refl

same_bool_inj : (a b : Bool) → same_bool a b ≡ true → a ≡ b
same_bool_inj true b e = sym e
same_bool_inj false true e = cc
same_bool_inj false false e = refl

same_bool_refl : (a : Bool) → same_bool a a ≡ true
same_bool_refl true = refl
same_bool_refl false = refl

same_name_iff : (a b : LimiterName) → (same_name a b ≡ true) ↔ (a ≡ b)
same_name_iff a b = (
  (λ h.
      let limits : a.rate_limit ≡ b.rate_limit = ground (arith, h) in
      let numbers : number_of a.publication_type ≡ number_of b.publication_type =
        ground (arith, h) in
      let successes : same_bool a.challenge_success b.challenge_success ≡ true =
        ground (arith, h) in
      ap (λ l. limiter_name l a.publication_type a.challenge_success) limits
      ∙ ap (λ k. limiter_name b.rate_limit k a.challenge_success)
          (number_of_inj a.publication_type b.publication_type numbers)
      ∙ ap (λ c. limiter_name b.rate_limit b.publication_type c)
          (same_bool_inj a.challenge_success b.challenge_success successes)),
  (λ e. subst (λ c. same_name a c ≡ true) e (ground (arith, same_bool_refl a.challenge_success))),
)

-- A name that is there stays, and the added name is there.
stays_added :
    (x : LimiterName) (limit : ℕ) (kind : PublicationType) (success : Bool)
    (names : List LimiterName)
    → contains same_name x names ≡ true
    → contains same_name x (add_filtered_rate_limiter limit kind success names) ≡ true
unfolding add_filtered_rate_limiter
stays_added x limit kind success names h =
    let grown = contains-insert same_name same_name_iff (limiter_name limit kind success) x names in
    ground (arith, grown, h)

stays_if :
    (x : LimiterName) (b : Bool) (limit : ℕ) (kind : PublicationType) (success : Bool)
    (names : List LimiterName)
    → contains same_name x names ≡ true
    → contains same_name x (add_if b limit kind success names) ≡ true
stays_if x true limit kind success names h = stays_added x limit kind success names h
stays_if x false limit kind success names h = h

stays_type :
    (x : LimiterName) (kind : Option PublicationType) (limit : ℕ) (success : Bool)
    (names : List LimiterName)
    → contains same_name x names ≡ true
    → contains same_name x (add_type kind limit success names) ≡ true
stays_type x none limit success names h = h
stays_type x (some kind) limit success names h = stays_added x limit kind success names h

stays_outer :
    (x : LimiterName) (limit : ℕ) (kinds : Kinds) (success : Bool) (names : List LimiterName)
    → contains same_name x (add_type (get_publication_type kinds) limit success names) ≡ true
    → contains same_name x (add_limit (some limit) kinds success names) ≡ true
stays_outer x limit kinds success names h =
    let first : List LimiterName = add_type (get_publication_type kinds) limit success names in
    let second : List LimiterName = add_if kinds.is_comment_edit limit comment_edit success first in
    let third : List LimiterName =
      add_if kinds.is_comment_moderation limit comment_moderation success second in
    stays_if x kinds.is_community_edit limit community_edit success third (
      stays_if x kinds.is_comment_moderation limit comment_moderation success second
        (stays_if x kinds.is_comment_edit limit comment_edit success first h))

stays_limit :
    (x : LimiterName) (limit : Option ℕ) (kinds : Kinds) (success : Bool) (names : List LimiterName)
    → contains same_name x names ≡ true
    → contains same_name x (add_limit limit kinds success names) ≡ true
stays_limit x none kinds success names h = h
stays_limit x (some limit) kinds success names h =
    stays_outer x limit kinds success names
      (stays_type x (get_publication_type kinds) limit success names h)

stays_to_the_end :
    (x : LimiterName) (excludes : List Exclude) (kinds : Kinds) (success : Bool)
    (names : List LimiterName)
    → contains same_name x names ≡ true
    → contains same_name x (get_rate_limiters_to_add_to excludes kinds success names) ≡ true
unfolding get_rate_limiters_to_add_to
stays_to_the_end x [] kinds success names h = h
stays_to_the_end x (exclude ∷ excludes) kinds success names h =
    stays_to_the_end x excludes kinds success (add_limit exclude.rate_limit kinds success names)
      (stays_limit x exclude.rate_limit kinds success names h)

added_by_rule :
    (limit : ℕ) (rate_limit : Option ℕ) (kind : PublicationType) (kinds : Kinds) (success : Bool)
    (names : List LimiterName)
    → rate_limit ≡ some limit
    → get_publication_type kinds ≡ some kind
    → contains same_name
        (limiter_name limit kind success)
        (add_limit rate_limit kinds success names)
      ≡ true
unfolding add_filtered_rate_limiter
added_by_rule limit rate_limit kind kinds success names e f =
    let x : LimiterName = limiter_name limit kind success in
    let self = eq_refl same_name same_name_iff x in
    let grown = contains-insert same_name same_name_iff x x names in
    let there : contains same_name x (add_type (some kind) limit success names) ≡ true =
      ground (arith, grown, self) in
    subst (λ o. contains same_name x (add_limit o kinds success names) ≡ true) (sym e)
      (stays_outer x limit kinds success names
        (subst (λ o. contains same_name x (add_type o limit success names) ≡ true) (sym f) there))

-- The limiter that a rule reads for a request, by the first kind that fits, is among those that lose a
-- token when the exchange of such a request ends with the outcome that the rule counts.
pub tested_limiter_added :
    (exclude : Exclude) (excludes : List Exclude) (kinds : Kinds) (success : Bool) (limit : ℕ)
    (kind : PublicationType) (names : List LimiterName)
    → Any (λ x. x ≡ exclude) excludes
    → exclude.rate_limit ≡ some limit
    → get_publication_type kinds ≡ some kind
    → contains same_name
        (limiter_name limit kind success)
        (get_rate_limiters_to_add_to excludes kinds success names)
      ≡ true
unfolding get_rate_limiters_to_add_to
tested_limiter_added exclude [] kinds success limit kind names h e f = absurd h
tested_limiter_added exclude (x ∷ xs) kinds success limit kind names (inl same) e f =
    stays_to_the_end (limiter_name limit kind success) xs kinds success
      (add_limit x.rate_limit kinds success names)
      (added_by_rule limit x.rate_limit kind kinds success names
        (ap (λ y. Exclude.rate_limit y) same ∙ e) f)
tested_limiter_added exclude (x ∷ xs) kinds success limit kind names (inr h) e f =
    tested_limiter_added exclude xs kinds success limit kind
      (add_limit x.rate_limit kinds success names) h e f
