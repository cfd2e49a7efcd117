-- ===== src/Validation/Guarantees/Others.antt =====
-- When the checks of votes, moderations, community edits and comment edits pass.
use pkc_js.Base.{
  ◌≡◌, ◌↔◌, ◌⊎◌, ◌<◌, ◌||◌, ℕ, String, Bool, true, false, none, Option, some, truthy, Option-cases,
  inl, inr, List, [], ◌∷◌, arith, All, every, includes, is_some, str_eq, eq_iff,
}
use pkc_js.Json.{Json}
use pkc_js.Validation.Guarantees.Comments.{IsAllowed, check_post_flairs_iff}
use pkc_js.Messages.{
  err_comment_moderation_attempted_without_being_moderator,
  err_comment_moderation_no_comment_to_edit,
  err_community_edit_attempted_to_modify_owner_exclusive_props,
  err_community_edit_attempted_to_modify_community_without_being_owner_or_admin,
  err_comment_edit_has_reserved_field, err_comment_edit_no_comment_to_edit,
}
use pkc_js.Excludes.{MatchOutcome, matched}
use pkc_js.Validation.{
  intersects, on_stored, reject_if, pass, reject, crash, VoteValue, VotePublication,
  CommentModeration, CommunityEdit, CommentEdit, Outside, Community, Features, CommentRow, ModFlags,
  Db, ReservedFields, match_publication_author_against_roles,
}
use pkc_js.Validation.Parents.{is_true}
use pkc_js.Validation.Comments.Media.{check_markdown}
use pkc_js.Validation.Others.{
  check_vote, check_vote_on, is_up, is_down, is_cancel, check_moderation, check_moderated,
  check_edit, check_comment_edit, check_edited, original_author,
}
use pkc_js.Validation.Passing.{
  >>-eq-pass, reject_if-eq-pass, require_match-eq-pass, on_stored-eq-pass,
}
use pkc_js.Validation.Guarantees.Wire.{Disjoint, intersects_iff}

-- What the community's features leave of the votes on a comment of this depth.
abbrev pub MayVote : Features → ℕ → VoteValue → Type 0
MayVote features depth value =
    (is_up value ≡ true
      → (Features.no_upvotes features ≡ false)
        × (depth ≡ 0 → Features.no_post_upvotes features ≡ false)
        × (0 < depth → Features.no_reply_upvotes features ≡ false))
    × (is_down value ≡ true
        → (Features.no_downvotes features ≡ false)
          × (depth ≡ 0 → Features.no_post_downvotes features ≡ false)
          × (0 < depth → Features.no_reply_downvotes features ≡ false))

abbrev pub HasVote : Outside → Community → VotePublication → CommentRow → Type 0
HasVote outside community v target =
    Db.query_vote (Community.db community) (CommentRow.cid target)
      (Outside.address_of_public_key outside v.signature_public_key)
    ≡ true

abbrev pub VotesOn : Outside → Community → VotePublication → CommentRow → Type 0
VotesOn outside community v target =
    MayVote (Community.features community) (CommentRow.depth target) v.vote
    × (is_cancel v.vote ≡ true → HasVote outside community v target)

-- The part of it that is left when the votes of its kind are on at all.
abbrev VotesLeft : Outside → Community → VotePublication → CommentRow → Type 0
VotesLeft outside community v target =
    let features = Community.features community in
    let depth = CommentRow.depth target in
    (is_up v.vote ≡ true
      → (depth ≡ 0 → Features.no_post_upvotes features ≡ false)
        × (0 < depth → Features.no_reply_upvotes features ≡ false))
    × (is_down v.vote ≡ true
        → (depth ≡ 0 → Features.no_post_downvotes features ≡ false)
          × (0 < depth → Features.no_reply_downvotes features ≡ false))
    × (is_cancel v.vote ≡ true → HasVote outside community v target)

vote_on_iff :
    (outside : Outside) (community : Community) (v : VotePublication) (target : CommentRow)
    → (check_vote_on outside community v target ≡ pass) ↔ VotesLeft outside community v target
unfolding check_vote_on
vote_on_iff outside community v target = ground arith

-- A vote passes just when it has no reserved field, the comment is stored, the community's features
-- allow this vote on a comment of this depth, and a vote that cancels has one to cancel.
pub check_vote_iff :
    (outside : Outside) (reserved : ReservedFields) (community : Community) (v : VotePublication)
    → (check_vote outside reserved community v ≡ pass) ↔ (
        Disjoint (ReservedFields.vote reserved) v.own_keys
        × (target : CommentRow) × (Db.query_comment (Community.db community) v.comment_cid
            ≡ some target)
        × VotesOn outside community v target)
unfolding check_vote
check_vote_iff outside reserved community v =
    let fields = intersects_iff (ReservedFields.vote reserved) v.own_keys in
    let stored = Db.query_comment (Community.db community) v.comment_cid in
    let on_target =
      on_stored-eq-pass crash (check_vote_on outside community v) (VotesLeft outside community v)
        stored (λ e. ground arith) (vote_on_iff outside community v) in
    (
      (λ h.
          let (target, e, k) = on_target.0 (ground arith) in
          (ground (arith, fields), target, e, ground arith)),
      λ (d, target, e, k).
          let passes = on_target.1 (target, e, ground arith) in ground (arith, fields),
    )

abbrev pub IsMod : Community → (List String → MatchOutcome) → Type 0
IsMod community matches_any =
    match_publication_author_against_roles community ("owner" ∷ "moderator" ∷ "admin" ∷ [])
      matches_any
    ≡ matched

abbrev pub Moderates : Community → CommentModeration → CommentRow → Type 0
Moderates community m target =
    let db = Community.db community in
    (is_true m.locked ≡ true → CommentRow.depth target ≡ 0)
    × (is_true m.archived ≡ true → CommentRow.depth target ≡ 0)
    × (is_true m.archived ≡ true
        → Features.no_archive (Community.features community) ≡ true
        → ModFlags.archived (Db.query_comment_flags db (CommentRow.cid target)) ≡ true)
    × (Db.has_comment_moderation db m.signature ≡ false)
    × (is_some m.approved ≡ true → CommentRow.pending_approval target ≡ true)

moderated_iff :
    (community : Community) (m : CommentModeration) (target : CommentRow)
    → (check_moderated community m target ≡ pass) ↔ Moderates community m target
unfolding check_moderated
moderated_iff community m target = ground arith

-- A moderation passes just when it has no reserved field, its author holds the role of an owner,
-- moderator or admin, the comment is stored, only a post is locked or archived, nothing is newly
-- archived where archiving is off, it is no duplicate, and only a pending comment is approved or
-- disapproved.
pub check_moderation_iff :
    (reserved : ReservedFields) (community : Community) (matches_any : List String → MatchOutcome)
    (m : CommentModeration)
    → (check_moderation reserved community matches_any m ≡ pass) ↔ (
        Disjoint (ReservedFields.comment_moderation reserved) m.own_keys
        × IsMod community matches_any
        × (target : CommentRow) × (Db.query_comment (Community.db community) m.comment_cid
            ≡ some target)
        × Moderates community m target)
unfolding check_moderation
check_moderation_iff reserved community matches_any m =
    let fields = intersects_iff (ReservedFields.comment_moderation reserved) m.own_keys in
    let stored = Db.query_comment (Community.db community) m.comment_cid in
    let role =
      require_match-eq-pass
        (match_publication_author_against_roles community ("owner" ∷ "moderator" ∷ "admin" ∷ [])
          matches_any)
        err_comment_moderation_attempted_without_being_moderator in
    let on_target =
      on_stored-eq-pass (reject err_comment_moderation_no_comment_to_edit)
        (check_moderated community m) (Moderates community m) stored (λ e. ground arith)
        (moderated_iff community m) in
    ground (arith, fields, role, on_target)

abbrev pub HoldsRole : Community → List String → (List String → MatchOutcome) → Type 0
HoldsRole community roles matches_any =
    match_publication_author_against_roles community roles matches_any ≡ matched

public_keys_iff :
    (allowed keys : List String)
    → (every (λ key. includes allowed key || str_eq key "address") keys ≡ true)
      ↔ All (λ key. (includes allowed key ≡ true) ⊎ (key ≡ "address")) keys
public_keys_iff allowed [] = ground arith
public_keys_iff allowed (key ∷ keys) =
    ground (arith, public_keys_iff allowed keys, eq_iff key "address")

-- The edit changes what only an owner may change.
abbrev pub ChangesOwnerProps : CommunityEdit → Type 0
ChangesOwnerProps e = (e.roles ≡ true) ⊎ ((truthy e.address ≡ true) ⊎ (truthy e.name ≡ true))

-- A community edit passes just when it has no reserved field, its author is an owner or an admin, an
-- owner if it sets the roles, or an address or a name that is not empty, and it changes public
-- properties only.
pub check_edit_iff :
    (reserved : ReservedFields) (community : Community) (matches_any : List String → MatchOutcome)
    (e : CommunityEdit)
    → (check_edit reserved community matches_any e ≡ pass) ↔ (
        Disjoint (ReservedFields.community_edit reserved) e.own_keys
        × (ChangesOwnerProps e → HoldsRole community ("owner" ∷ []) matches_any)
        × HoldsRole community ("owner" ∷ "admin" ∷ []) matches_any
        × All
            (λ key.
              (includes (ReservedFields.community_ipfs reserved) key ≡ true) ⊎ (key ≡ "address"))
            e.edit_keys)
unfolding check_edit
check_edit_iff reserved community matches_any e =
    let fields = intersects_iff (ReservedFields.community_edit reserved) e.own_keys in
    let owner =
      require_match-eq-pass
        (match_publication_author_against_roles community ("owner" ∷ []) matches_any)
        err_community_edit_attempted_to_modify_owner_exclusive_props in
    let admin =
      require_match-eq-pass
        (match_publication_author_against_roles community ("owner" ∷ "admin" ∷ []) matches_any)
        err_community_edit_attempted_to_modify_community_without_being_owner_or_admin in
    ground (
      arith,
      fields,
      owner,
      admin,
      public_keys_iff (ReservedFields.community_ipfs reserved) e.edit_keys,
    )

-- The key that an alias of the comment stands for or, where it has none, the key that signed it.
abbrev pub IsOriginalAuthor : Db → CommentRow → String → Type 0
IsOriginalAuthor db target key =
    (Db.query_pseudonymity_alias db (CommentRow.cid target) ≡ some key)
    ⊎ ((Db.query_pseudonymity_alias db (CommentRow.cid target) ≡ none)
        × (key ≡ CommentRow.signature_public_key target))

original_author_iff :
    (db : Db) (target : CommentRow) (key : String)
    → (key ≡ original_author db target) ↔ IsOriginalAuthor db target key
unfolding original_author
original_author_iff db target key =
    elim (Option-cases (Db.query_pseudonymity_alias db (CommentRow.cid target))) [
      | inl e ↦ ground arith
      | inr (alias, e) ↦ ground arith
    ]

-- The content is absent or empty, or the test finds nothing in it.
abbrev pub Lacks : (String → Bool) → Option String → Type 0
Lacks test none = Unit
Lacks test (some content) = (content ≡ "") ⊎ (test content ≡ false)

abbrev pub HasAllowedMarkdown : Outside → Features → Option String → Type 0
HasAllowedMarkdown outside features content =
    (Features.no_markdown_images features ≡ true
      → Lacks (Outside.contains_markdown_images outside) content)
    × (Features.no_markdown_videos features ≡ true
        → Lacks (Outside.contains_markdown_videos outside) content)
    × (Features.no_markdown_audio features ≡ true
        → Lacks (Outside.contains_markdown_audio outside) content)

markdown_iff :
    (outside : Outside) (features : Features) (content : Option String)
    → (check_markdown outside features content ≡ pass) ↔ HasAllowedMarkdown outside features content
unfolding check_markdown
markdown_iff outside features none = ground arith
markdown_iff outside features (some content) = ground (arith, eq_iff content "")

-- No flairs, or flairs of the community's own where it allows them.
abbrev pub HasAllowedFlairs : Outside → Community → List Json → Type 0
HasAllowedFlairs outside community flairs =
    (flairs ≡ [])
    ⊎ ((Features.post_flairs (Community.features community) ≡ true)
        × All (IsAllowed (Outside.is_deep_equal outside) (Community.post_flairs community)) flairs)

abbrev pub Edits : Outside → Community → CommentEdit → CommentRow → Type 0
Edits outside community e target =
    let db = Community.db community in
    let features = Community.features community in
    IsOriginalAuthor db target e.signature_public_key
    × (Db.has_comment_edit db e.signature ≡ false)
    × HasAllowedMarkdown outside features e.content
    × (e.spoiler ≡ some true
        → (Features.no_spoilers features ≡ false)
          × (0 < CommentRow.depth target → Features.no_spoiler_replies features ≡ false))
    × HasAllowedFlairs outside community e.flairs

edited_iff :
    (outside : Outside) (community : Community) (e : CommentEdit) (target : CommentRow)
    → (check_edited outside community e target ≡ pass) ↔ Edits outside community e target
unfolding check_edited
edited_iff outside community e target =
    let db = Community.db community in
    let signer = eq_iff e.signature_public_key (original_author db target) in
    let author = original_author_iff db target e.signature_public_key in
    let markdown = markdown_iff outside (Community.features community) e.content in
    let flairs = check_post_flairs_iff outside community e.flairs in
    elim (Option-cases e.spoiler) [
      | inl absent ↦ ground (arith, signer, author, markdown, flairs)
      | inr (spoiler, present) ↦ ground (arith, signer, author, markdown, flairs)
    ]

-- A comment edit passes just when it has no reserved field, the comment is stored, the edit is signed
-- with the key of the comment's original author (the one that an alias of the comment stands for, if
-- there is one), it is no duplicate, its content has no markdown images, videos or audio where the
-- community has none, it marks a spoiler only where the community has spoilers on a comment of this
-- depth, and it has no flairs, or the community allows flairs and each is one of its own.
pub check_comment_edit_iff :
    (outside : Outside) (reserved : ReservedFields) (community : Community) (e : CommentEdit)
    → (check_comment_edit outside reserved community e ≡ pass) ↔ (
        Disjoint (ReservedFields.comment_edit reserved) e.own_keys
        × (target : CommentRow) × (Db.query_comment (Community.db community) e.comment_cid
            ≡ some target)
        × Edits outside community e target)
unfolding check_comment_edit
check_comment_edit_iff outside reserved community e =
    let fields = intersects_iff (ReservedFields.comment_edit reserved) e.own_keys in
    let stored = Db.query_comment (Community.db community) e.comment_cid in
    let on_target =
      on_stored-eq-pass (reject err_comment_edit_no_comment_to_edit)
        (check_edited outside community e) (Edits outside community e) stored (λ e. ground arith)
        (edited_iff outside community e) in
    let guard = intersects (ReservedFields.comment_edit reserved) e.own_keys in
    let (split, join) = >>-eq-pass (reject_if guard err_comment_edit_has_reserved_field) (
      on_stored (reject err_comment_edit_no_comment_to_edit) (check_edited outside community e)
        stored) in
    let disjoint_iff : (reject_if guard err_comment_edit_has_reserved_field ≡ pass)
        ↔ Disjoint (ReservedFields.comment_edit reserved) e.own_keys =
      ground (arith, fields, reject_if-eq-pass guard err_comment_edit_has_reserved_field) in
    (
      (λ h.
          let (target, stored_as, edits) = on_target.0 (split h).1 in
          (disjoint_iff.0 (split h).0, target, stored_as, edits)),
      λ (d, target, stored_as, edits).
          join (disjoint_iff.1 d, on_target.1 (target, stored_as, edits)),
    )
