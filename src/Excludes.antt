-- ===== src/Excludes.antt =====
-- The exclude rules of a community's challenges: the records of community/types.ts that
-- src/runtime/node/community/challenges reads, and what a request carries for them.
pub mod Publication
pub mod Asked
mod Passing
mod Rules
pub mod Sparing
pub mod RateLimits
use pkc_js.Base.{ℕ, Bool, true, false, String, Option, List, leb}
use pkc_js.Messages.{Message}

-- A score may be negative; `minus n` is -(n + 1).
pub data Score : Type 0 where
  plus minus : ℕ → Score

abbrev pub score_le : Score → Score → Bool
score_le (plus m) (plus n) = leb m n
score_le (plus m) (minus n) = false
score_le (minus m) (plus n) = true
score_le (minus m) (minus n) = leb n m

-- `exclude.publicationType`; an absent flag is `false`.
pub record PublicationTypes : Type 0 where
  pub post : Bool
  pub reply : Bool
  pub vote : Bool
  pub comment_edit : Bool
  pub comment_moderation : Bool
  pub community_edit : Bool

-- The source reads `challenges` by its length alone, so `[]` stands for an absent field too.
pub record Exclude : Type 0 where
  pub post_score : Option Score
  pub reply_score : Option Score
  pub post_count : Option Score
  pub reply_count : Option Score
  pub first_comment_timestamp : Option ℕ
  pub public_keys : Option (List String)
  pub names : Option (List String)
  pub publication_type : Option PublicationTypes
  pub rate_limit : Option ℕ
  pub rate_limit_challenge_success : Option Bool
  pub roles : Option (List String)
  pub challenges : List ℕ

-- What the decisions read of a challenge's public record; `[]` stands for an absent `exclude`.
pub record CommunityChallenge : Type 0 where
  pub exclude : List Exclude
  pub pending_approval : Bool

-- Why a domain identity that names the author could not be verified.
pub record NameFailure : Type 0 where
  pub reason : Message

pub data MatchOutcome : Type 0 where
  matched : MatchOutcome
  unmatched : Option NameFailure → MatchOutcome

pub record ShouldExclude : Type 0 where
  pub should_exclude : Bool
  pub name_failure : Option NameFailure
