-- ===== src/PageScoring.antt =====
-- src/pages/page-sort-scoring.ts: which comments a page sort shows, and in which order. The child has
-- the proofs.
pub mod Order
pub mod Ranking
pub mod Subtrees
pub mod Descendants
use pkc_js.Base.{
  ℕ, zero, suc, ◌+◌, String, Bool, true, false, not, ◌&&◌, ◌||◌, leb, Option, none, some, List, [],
  ◌∷◌, ◌++◌, map, reverse, any, if◌then◌else◌, filter_by, assign, lookup, truthy, str_eq, Result,
  ok, throw, ◌>>=◌,
}
use pkc_js.Json.{Json}
use pkc_js.Names.{codes, same_codes, ends_with, drop_code, is_string_domain}

-- The fields of a page entry (`comment` and `commentUpdate`) that are read; `edit` is `edit.deleted` of
-- an edit that is there.
pub record PageComment : Type 0 where
  pub community_name : Option String
  pub community_public_key : Option String
  pub parent_cid : Option String
  pub timestamp : ℕ
  pub cid : String
  pub removed : Option Bool
  pub approved : Option Bool
  pub pinned : Option Bool
  pub pending_approval : Option Bool
  pub edit : Option (Option Bool)
  pub replies : Option Json

pub record Exclusions : Type 0 where
  pub exclude_removed_comments : Bool
  pub exclude_deleted_comments : Bool
  pub exclude_comment_with_approved_false : Bool
  pub exclude_comment_pending_approval : Bool

abbrev is_true : Option Bool → Bool
is_true (some true) = true
is_true _ = false

abbrev is_false : Option Bool → Bool
is_false (some false) = true
is_false _ = false

abbrev deleted_of : Option (Option Bool) → Option Bool
deleted_of none = none
deleted_of (some deleted) = deleted

-- `address.slice(0, -4)`
abbrev without_ending : List ℕ → List ℕ
without_ending s = reverse (drop_code (drop_code (drop_code (drop_code (reverse s)))))

-- `getEquivalentCommunityAddresses`; `to_lower_case` is the JavaScript runtime's.
unfoldable pub get_equivalent_community_addresses : (String → String) → String → List (List ℕ)
get_equivalent_community_addresses to_lower_case address =
    let lower : List ℕ = codes (to_lower_case address) in
    let own : List ℕ = codes address in
    if ends_with (reverse (codes ".bso")) lower
    then own ∷ (without_ending own ++ codes ".eth") ∷ []
    else if ends_with (reverse (codes ".eth")) lower
    then own ∷ (without_ending own ++ codes ".bso") ∷ []
    else own ∷ []

unfoldable pub community_identity_row_filter : (String → String) → String → PageComment → Bool
unfolding get_equivalent_community_addresses
community_identity_row_filter to_lower_case address entry =
    if is_string_domain address
    then not (truthy entry.community_name)
      || any (λ name. any (λ n. same_codes (codes n) name) (listed entry.community_name))
          (get_equivalent_community_addresses to_lower_case address)
    else not (truthy entry.community_public_key)
      || any (λ key. str_eq key address) (listed entry.community_public_key)
  where
    listed : Option String → List String
    listed none = []
    listed (some s) = s ∷ []

unfoldable pub passes_exclusions : Exclusions → PageComment → Bool
passes_exclusions exclusions entry =
    not (exclusions.exclude_removed_comments && is_true entry.removed)
    && not (exclusions.exclude_deleted_comments && is_true (deleted_of entry.edit))
    && not (exclusions.exclude_comment_with_approved_false && is_false entry.approved)
    && not (exclusions.exclude_comment_pending_approval && is_true entry.pending_approval)

unfoldable pub apply_page_sort_exclusions :
    (String → String) → String → Exclusions → List PageComment → List PageComment
unfolding community_identity_row_filter passes_exclusions
apply_page_sort_exclusions to_lower_case address exclusions comments =
    filter_by
      (λ entry.
        community_identity_row_filter to_lower_case address entry
        && passes_exclusions exclusions entry)
      comments

unfoldable pub filter_replies_for_page_sort :
    (String → String) → String → List PageComment → List PageComment
unfolding apply_page_sort_exclusions
filter_replies_for_page_sort to_lower_case address replies =
    apply_page_sort_exclusions to_lower_case address
      (record {
        exclude_removed_comments = false;
        exclude_deleted_comments = false;
        exclude_comment_with_approved_false = false;
        exclude_comment_pending_approval = false;
      })
      replies

-- `timestamp >= baseTimestamp - maxAgeSeconds`
abbrev pub in_window : Option ℕ → ℕ → PageComment → Bool
in_window none base_timestamp entry = true
in_window (some max_age_seconds) base_timestamp entry =
    leb base_timestamp (entry.timestamp + max_age_seconds)

-- The pinned and the unpinned comments.
unfoldable pub partition_page_comments_for_sort :
    Bool → Option ℕ → ℕ → List PageComment → List PageComment × List PageComment
partition_page_comments_for_sort pinned_first max_age_seconds base_timestamp comments =
    let unpinned : List PageComment =
      if pinned_first then filter_by (λ entry. not (is_true entry.pinned)) comments else comments in
    (
      if pinned_first then filter_by (λ entry. is_true entry.pinned) comments else [],
      filter_by (in_window max_age_seconds base_timestamp) unpinned,
    )

unfoldable pub strip_replies_from_page_comment : PageComment → PageComment
strip_replies_from_page_comment entry = record entry { replies = none }

-- The set of a key, if there is one.
abbrev pub children_in : Option (List PageComment) → List PageComment
children_in none = []
children_in (some children) = children

-- An entry joins the children of its parent.
unfoldable pub join_children :
    Option String
    → PageComment
    → List (String × List PageComment)
    → List (String × List PageComment)
join_children none entry children_by_parent = children_by_parent
join_children (some parent_cid) entry children_by_parent =
    if str_eq parent_cid ""
    then children_by_parent
    else assign str_eq parent_cid
        (children_in (lookup str_eq parent_cid children_by_parent) ++ entry ∷ []) children_by_parent

unfoldable pub group_by_parent :
    List PageComment → List (String × List PageComment) → List (String × List PageComment)
unfolding join_children strip_replies_from_page_comment
group_by_parent [] children_by_parent = children_by_parent
group_by_parent (entry ∷ replies) children_by_parent =
    let stripped : PageComment = strip_replies_from_page_comment entry in
    group_by_parent replies (join_children stripped.parent_cid stripped children_by_parent)

-- `stack.push` for each child; the end of the stack is the head here.
abbrev pub push_all : List PageComment → List String → List String
push_all [] stack = stack
push_all (child ∷ children) stack = push_all children (child.cid ∷ stack)

-- The loop over the stack, for a number of rounds.
unfoldable pub walk :
    ℕ
    → List (String × List PageComment)
    → List String
    → List PageComment
    → Option (List PageComment)
walk zero children_by_parent stack collected = none
walk (suc fuel) children_by_parent [] collected = some collected
walk (suc fuel) children_by_parent (cid ∷ stack) collected =
    elim (lookup str_eq cid children_by_parent) [
      | none ↦ walk fuel children_by_parent stack collected
      | some children ↦
          walk fuel children_by_parent (push_all children stack) (collected ++ children)
    ]

unfoldable pub descendants_lookup : ℕ → List PageComment → String → Option (List PageComment)
unfolding group_by_parent walk
descendants_lookup fuel replies cid = walk fuel (group_by_parent replies []) (cid ∷ []) []

-- What a sort file returns: `null`, no number, or a number. The numbers are a parameter.
pub data Score (N : Type 0) : Type 0 where
  declined : Score N
  no_number : Score N
  number : (value : N) → Score N

-- `leq` compares two scores, and `score_of` is the sort file's function.
module _ {N : Type 0} (leq : N → N → Bool) (score_of : PageComment → Score N) where
  -- The loop of `kept`; the error carries the cid.
  unfoldable pub scored : List PageComment → Result String (List (PageComment × N))
  scored [] = ok []
  scored (entry ∷ entries) = elim (score_of entry) [
    | declined ↦ scored entries
    | no_number ↦ throw entry.cid
    | number value ↦ scored entries >>= λ rest. ok ((entry, value) ∷ rest)
  ]

  -- The JavaScript `sort` by `b.score - a.score`, which is stable: an entry goes before those of no
  -- higher score that came after it.
  unfoldable pub insert_scored : PageComment × N → List (PageComment × N) → List (PageComment × N)
  insert_scored x [] = x ∷ []
  insert_scored x (y ∷ ys) =
      let later = insert_scored x ys in if leq y.1 x.1 then x ∷ y ∷ ys else y ∷ later

  unfoldable pub sort_scored : List (PageComment × N) → List (PageComment × N)
  unfolding insert_scored
  sort_scored [] = []
  sort_scored (x ∷ xs) = insert_scored x (sort_scored xs)

  unfoldable pub kept : List PageComment → Result String (List PageComment)
  unfolding scored sort_scored
  kept entries = scored entries >>= λ pairs. ok (map (λ pair. pair.0) (sort_scored pairs))

  unfoldable pub order_page_comments_by_score :
      List PageComment → List PageComment → Result String (List PageComment)
  unfolding kept
  order_page_comments_by_score pinned unpinned =
      kept pinned >>= λ top. kept unpinned >>= λ rest. ok (top ++ rest)
