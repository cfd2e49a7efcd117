-- ===== src/Validation/Guarantees/Parents.antt =====
-- When the check of the parent and the post passes.
use pkc_js.Base.{
  ◌≡◌, ◌≢◌, ◌↔◌, ◌≤◌, String, Bool, true, false, Option, none, some, List, [], ◌∷◌, arith,
  Option-cases, Bool-cases, inl, inr,
}
use pkc_js.Excludes.{MatchOutcome, matched}
use pkc_js.Validation.{
  pass, Publication, Request, Community, CommentRow, ModFlags, Db,
  match_publication_author_against_roles,
}
use pkc_js.Validation.Parents.{
  check_parent, check_parent_and_post_state, lock_bypass, is_deletion, is_disapproved, about_cid,
  is_about_comment,
}
use pkc_js.Validation.Passing.{require_match-eq-pass}

-- The author holds a role that may act under a locked post.
abbrev pub IsModerator : Community → (List String → MatchOutcome) → Type 0
IsModerator community matches_any =
    match_publication_author_against_roles community ("owner" ∷ "admin" ∷ "moderator" ∷ [])
      matches_any
    ≡ matched

-- The comment and its post take publications of users.
abbrev pub IsOpen :
    Community → Request → (List String → MatchOutcome) → String → CommentRow → Type 0
IsOpen community request matches_any parent_cid parent =
    let db = Community.db community in
    let post_flags = Db.query_comment_flags db (CommentRow.post_cid parent) in
    (ModFlags.removed (Db.query_comment_flags db parent_cid) ≡ false)
    × (Db.is_author_deleted db parent_cid ≡ false)
    × (ModFlags.removed post_flags ≡ false)
    × (Db.is_author_deleted db (CommentRow.post_cid parent) ≡ false)
    × (ModFlags.locked post_flags ≡ true
        → (Request.vote request ≡ none) × IsModerator community matches_any)
    × (ModFlags.archived post_flags ≡ false)

-- The comment was approved, or never had to be.
abbrev pub IsApproved : Community → CommentRow → Type 0
IsApproved community parent =
    (CommentRow.pending_approval parent ≡ false)
    × (Db.query_is_comment_approved (Community.db community) parent ≢ some false)

abbrev pub MayFollow :
    Community → Request → Publication → (List String → MatchOutcome) → String → CommentRow → Type 0
MayFollow community request p matches_any parent_cid parent =
    (CommentRow.timestamp parent ≤ p.timestamp)
    × (Request.comment_moderation request ≡ none
        → IsOpen community request matches_any parent_cid parent)
    × (Request.comment_moderation request ≡ none
        → is_deletion (Request.comment_edit request) ≡ false
        → IsApproved community parent)

lock_bypass_iff :
    (community : Community) (request : Request) (matches_any : List String → MatchOutcome)
    → (lock_bypass community request matches_any ≡ matched)
      ↔ ((Request.vote request ≡ none) × IsModerator community matches_any)
unfolding lock_bypass
lock_bypass_iff community request matches_any = elim (Request.vote request) [
  | none ↦ ground arith
  | some v ↦ ground arith
]

is_disapproved_iff : (a : Option Bool) → (is_disapproved a ≡ false) ↔ (a ≢ some false)
is_disapproved_iff none = ground arith
is_disapproved_iff (some true) = ground arith
is_disapproved_iff (some false) = ground arith

check_parent_iff :
    (community : Community) (request : Request) (p : Publication)
    (matches_any : List String → MatchOutcome) (parent_cid : String) (parent : CommentRow)
    → (check_parent community request p matches_any parent_cid parent ≡ pass)
      ↔ MayFollow community request p matches_any parent_cid parent
unfolding check_parent
check_parent_iff community request p matches_any parent_cid parent =
    let lock = lock_bypass_iff community request matches_any in
    let required = require_match-eq-pass (lock_bypass community request matches_any) in
    let disapproved =
      is_disapproved_iff (Db.query_is_comment_approved (Community.db community) parent) in
    elim (Request.comment_moderation request) [
      | none ↦ ground (arith, lock, required _, disapproved)
      | some m ↦ ground arith
    ]

-- What the publication is about: the stored comment that its `parentCid`, or else its `commentCid`,
-- names.
abbrev pub FollowsParent : Community → Request → Publication → (List String → MatchOutcome) → Type 0
FollowsParent community request p matches_any =
    (parent_cid : String) × (parent : CommentRow) × (about_cid p ≡ some parent_cid)
    × (Db.query_comment (Community.db community) parent_cid ≡ some parent)
    × MayFollow community request p matches_any parent_cid parent

-- A publication that is about a comment passes just when that comment is stored and not younger;
-- unless it is a moderation, neither the comment nor its post is removed or deleted, the post is
-- not archived, and it is locked only for one that is no vote and comes from an owner, admin or
-- moderator; and, unless it is a moderation or deletes the comment, the comment is approved.
pub check_parent_and_post_state_iff :
    (community : Community) (request : Request) (p : Publication)
    (matches_any : List String → MatchOutcome)
    → (check_parent_and_post_state community request p matches_any ≡ pass)
      ↔ (is_about_comment p ≡ true → FollowsParent community request p matches_any)
unfolding check_parent_and_post_state
check_parent_and_post_state_iff community request p matches_any =
    let db = Community.db community in
    (
      (λ h about. elim (Option-cases (about_cid p)) [
        | inl e ↦ absurd (ground arith)
        | inr (cid, e) ↦ elim (Option-cases (Db.query_comment db cid)) [
          | inl r ↦ absurd (ground arith)
          | inr (parent, r) ↦
              let (to, _) = check_parent_iff community request p matches_any cid parent in
              (cid, parent, e, r, to (ground arith))
        ]
      ]),
      λ follows. elim (Bool-cases (is_about_comment p)) [
        | inl about ↦
            let (cid, parent, e, r, k) = follows about in
            let (_, from) = check_parent_iff community request p matches_any cid parent in
            let passes = from k in ground arith
        | inr about ↦ ground arith
      ],
    )
