-- ===== src/Validation.antt =====
-- src/runtime/node/community/local-community/publication-validation.ts: may a community accept a
-- publication? This file has the records that the checks read; the child modules have the checks.
pub mod Passing
pub mod Wire
pub mod Parents
pub mod Comments
pub mod Others
pub mod Validity
pub mod Guarantees
use pkc_js.Base.{
  ℕ, String, Bool, true, false, Option, none, some, List, [], ◌∷◌, includes, is_empty,
  if◌then◌else◌, filter_by, map,
}
use pkc_js.Json.{Json}
use pkc_js.Messages.{Message}
use pkc_js.Names.{CommunityFields, Author}
use pkc_js.Excludes.{NameFailure, MatchOutcome, matched, unmatched}
use pkc_js.Identity.{Resolved}
use pkc_js.Crossposts.{Number}

-- The outcome of a check: `undefined`, a message, or a thrown TypeError.
pub data Check : Type 0 where
  pass : Check
  reject : Message → Check
  crash : Check

-- The checks run in order, up to the first that does not pass.
infixl 5 ◌>>◌
abbrev pub ◌>>◌ : Check → Check → Check
pass >> k = k
reject m >> k = reject m
crash >> k = crash

abbrev pub reject_if : Bool → Message → Check
reject_if b m = if b then reject m else pass

-- What all kinds of publication share, with the names of the publication's own fields.
pub record Publication : Type 0 where
  pub own_keys : List String
  pub community_fields : CommunityFields
  pub author : Option Author
  pub timestamp : ℕ
  pub parent_cid : Option String
  pub comment_cid : Option String
  pub signature_public_key : String

pub record GalleryItem : Type 0 where
  pub url : String
  pub html_tag_name : String

-- `raw` is the whole publication as JSON, for the crosspost chain. `[]` stands for an absent list
-- where the source looks at the length.
pub record CommentPublication : Type 0 where
  pub own_keys : List String
  pub raw : Json
  pub parent_cid : Option String
  pub post_cid : Option String
  pub link : Option String
  pub content : Option String
  pub spoiler : Option Bool
  pub gallery : Option (List GalleryItem)
  pub flairs : List Json
  pub author_flairs : List Json
  pub quoted_cids : List String
  pub signature : String

-- `vote: 1 | -1 | 0`
pub data VoteValue : Type 0 where
  up down cancel : VoteValue

pub record VotePublication : Type 0 where
  pub own_keys : List String
  pub comment_cid : String
  pub vote : VoteValue
  pub signature_public_key : String

pub record CommentModeration : Type 0 where
  pub own_keys : List String
  pub comment_cid : String
  pub locked : Option Bool
  pub archived : Option Bool
  pub approved : Option Bool
  pub signature : String

-- `roles` says whether the edit has roles; `edit_keys` are the fields that it changes.
pub record CommunityEdit : Type 0 where
  pub own_keys : List String
  pub edit_keys : List String
  pub roles : Bool
  pub address : Option String
  pub name : Option String

pub record CommentEdit : Type 0 where
  pub own_keys : List String
  pub comment_cid : String
  pub content : Option String
  pub spoiler : Option Bool
  pub deleted : Option Bool
  pub flairs : List Json
  pub signature : String
  pub signature_public_key : String

-- The publication of a request, in the field for its kind.
pub record Request : Type 0 where
  pub comment : Option CommentPublication
  pub comment_edit : Option CommentEdit
  pub vote : Option VotePublication
  pub comment_moderation : Option CommentModeration
  pub community_edit : Option CommunityEdit

-- A flag that is absent is `false`, and a maximum that is absent is 0: the source tests both alike.
pub record Features : Type 0 where
  pub require_post_link : Bool
  pub require_post_link_is_media : Bool
  pub require_reply_link : Bool
  pub require_reply_link_is_media : Bool
  pub no_markdown_images : Bool
  pub no_markdown_videos : Bool
  pub no_markdown_audio : Bool
  pub no_images : Bool
  pub no_videos : Bool
  pub no_audio : Bool
  pub no_spoilers : Bool
  pub no_image_replies : Bool
  pub no_video_replies : Bool
  pub no_audio_replies : Bool
  pub no_spoiler_replies : Bool
  pub no_reply_links : Bool
  pub no_nested_replies : Bool
  pub post_flairs : Bool
  pub require_post_flairs : Bool
  pub author_flairs : Bool
  pub require_author_flairs : Bool
  pub pseudonymity_mode : Bool
  pub no_crossposts : Bool
  pub max_crosspost_depth : Option Number
  pub max_post_gallery_items : ℕ
  pub max_reply_gallery_items : ℕ
  pub no_upvotes : Bool
  pub no_downvotes : Bool
  pub no_post_upvotes : Bool
  pub no_post_downvotes : Bool
  pub no_reply_upvotes : Bool
  pub no_reply_downvotes : Bool
  pub no_archive : Bool

-- A stored comment.
pub record CommentRow : Type 0 where
  pub cid : String
  pub post_cid : String
  pub depth : ℕ
  pub timestamp : ℕ
  pub pending_approval : Bool
  pub signature_public_key : String

-- `queryCommentFlagsSetByMod`
pub record ModFlags : Type 0 where
  pub removed : Bool
  pub locked : Bool
  pub archived : Bool

-- The queries of the community's database.
pub record Db : Type 0 where
  pub query_comment : String → Option CommentRow
  pub query_comment_flags : String → ModFlags
  pub is_author_deleted : String → Bool
  pub query_is_comment_approved : CommentRow → Option Bool
  pub query_parents_cids : String → List String
  pub has_comment : String → Bool
  pub has_comment_moderation : String → Bool
  pub has_comment_edit : String → Bool
  pub query_vote : String → String → Bool
  pub query_pseudonymity_alias : String → Option String

-- The lists of field names that the schemas give.
pub record ReservedFields : Type 0 where
  pub author : List String
  pub comment : List String
  pub vote : List String
  pub comment_moderation : List String
  pub community_edit : List String
  pub comment_edit : List String
  pub community_ipfs : List String

-- What the checks take from elsewhere: the clock, the size of the publication as JSON, the tests of
-- links and of markdown (over URL, mime and markdown libraries), Remeda's `isDeepEqual`, the address
-- of a key, and the resolver of names.
pub record Outside : Type 0 where
  pub now : ℕ
  pub publication_bytes : ℕ
  pub is_malformed : Publication → Bool
  pub is_link_valid : String → Bool
  pub is_link_of_media : String → Bool
  pub is_link_of_image : String → Bool
  pub is_link_of_video : String → Bool
  pub is_link_of_audio : String → Bool
  pub is_link_of_animated_image : String → Bool
  pub contains_markdown_images : String → Bool
  pub contains_markdown_videos : String → Bool
  pub contains_markdown_audio : String → Bool
  pub is_deep_equal : Json → Json → Bool
  pub address_of_public_key : String → String
  pub resolve_author_name : String → Resolved

-- `roles` are the pairs of a role key and its role.
pub record Community : Type 0 where
  pub address : String
  pub anchor_public_key : Option String
  pub signer_address : String
  pub resolve_author_names : Bool
  pub roles : Option (List (String × String))
  pub features : Features
  pub post_flairs : List Json
  pub author_flairs : List Json
  pub db : Db

-- `matchPublicationAuthorAgainstRoles`; `matches_any` is the request's identity matcher.
abbrev pub role_keys : List String → List (String × String) → List String
role_keys wanted roles = map (λ r. r.0) (filter_by (λ r. includes wanted r.1) roles)

unfoldable pub match_publication_author_against_roles :
    Community → List String → (List String → MatchOutcome) → MatchOutcome
match_publication_author_against_roles community wanted matches_any =
    elim (Community.roles community) [
      | none ↦ unmatched none
      | some roles ↦
          if is_empty (role_keys wanted roles)
          then unmatched none
          else matches_any (role_keys wanted roles)
    ]

-- `intersection(a, b).length > 0`
abbrev pub intersects : List String → List String → Bool
intersects [] b = false
intersects (x ∷ a) b = let rest = intersects a b in if includes b x then true else rest

-- What is done with a stored comment, and without it.
abbrev pub on_stored : Check → (CommentRow → Check) → Option CommentRow → Check
on_stored missing k none = missing
on_stored missing k (some row) = k row
