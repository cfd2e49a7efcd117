-- ===== src/Tests/Pages.antt =====
-- Runs of the ordering of a page, with numbers for the scores.
use pkc_js.Base.{
  ℕ, ◌≡◌, ◌<◌, refl, String, Bool, true, false, if◌then◌else◌, Option, none, some, ◌↔◌, suc, ◌+◌,
  All, List, [], ◌∷◌, ◌++◌, map, leb, ok, throw, arith, str_eq, eq_iff, subst, filter_by,
  Bool-cases, inl, inr,
}
use pkc_js.PageScoring.{
  strip_replies_from_page_comment, PageComment, Score, declined, no_number, number,
  community_identity_row_filter, descendants_lookup, walk, group_by_parent,
  order_page_comments_by_score, partition_page_comments_for_sort,
}
use pkc_js.PageScoring.Descendants.{IsUnder, is_reply_to, replies_to, descendants_lookup_ends}
use pkc_js.PageScoring.Subtrees.{Contains}
use pkc_js.Names.{are_equivalent_names, is_string_domain}
use pkc_js.PageScoring.Ranking.{
  IsRanking, is_scorable, order_page_comments_by_score-IsRanking,
  order_page_comments_by_score-throw,
}

abbrev comment_under : Option String → String → ℕ → Bool → PageComment
comment_under parent_cid cid timestamp pinned = record {
  community_name = none;
  community_public_key = none;
  parent_cid = parent_cid;
  timestamp = timestamp;
  cid = cid;
  removed = none;
  approved = none;
  pinned = some pinned;
  pending_approval = none;
  edit = none;
  replies = none;
}

abbrev comment_with : String → ℕ → Bool → PageComment
comment_with cid timestamp pinned = comment_under none cid timestamp pinned

abbrev old_pin : PageComment
old_pin = comment_with "pin" 5 true

abbrev first_of_two : PageComment
first_of_two = comment_with "first" 40 false

abbrev second_of_two : PageComment
second_of_two = comment_with "second" 40 false

abbrev newest : PageComment
newest = comment_with "newest" 50 false

abbrev oldest : PageComment
oldest = comment_with "oldest" 10 false

-- Newest first; the comment of time 50 is declined by the second sort.
abbrev by_time : PageComment → Score ℕ
by_time entry = number entry.timestamp

abbrev broken : PageComment → Score ℕ
broken entry =
    if str_eq entry.cid "second"
    then no_number
    else if leb 50 entry.timestamp
    then declined
    else number 1

windowed :
    partition_page_comments_for_sort true
      (some 60)
      75
      (first_of_two ∷ old_pin ∷ oldest ∷ newest ∷ [])
    ≡ (old_pin ∷ [], first_of_two ∷ newest ∷ [])
unfolding partition_page_comments_for_sort
windowed = refl

ordered :
    order_page_comments_by_score leb by_time
      (old_pin ∷ [])
      (first_of_two ∷ newest ∷ second_of_two ∷ [])
    ≡ ok (old_pin ∷ newest ∷ first_of_two ∷ second_of_two ∷ [])
unfolding order_page_comments_by_score
ordered = refl

order_page_comments_by_score-IsRanking_example :
    (top : List PageComment) × (rest : List PageComment) × (order_page_comments_by_score leb by_time
        (old_pin ∷ [])
        (first_of_two ∷ newest ∷ second_of_two ∷ [])
      ≡ ok (top ++ rest))
    × IsRanking leb by_time (old_pin ∷ []) top
    × IsRanking leb by_time (first_of_two ∷ newest ∷ second_of_two ∷ []) rest
order_page_comments_by_score-IsRanking_example =
    order_page_comments_by_score-IsRanking leb by_time (λ a b. ground arith)
      (λ a b c e f. ground (arith, e, f)) (old_pin ∷ [])
      (first_of_two ∷ newest ∷ second_of_two ∷ []) refl refl

order_page_comments_by_score-throw_example :
    (bad : PageComment) × (is_scorable leb broken bad ≡ false)
    × (order_page_comments_by_score leb broken (old_pin ∷ []) (newest ∷ second_of_two ∷ [])
        ≡ throw bad.cid)
order_page_comments_by_score-throw_example =
    order_page_comments_by_score-throw leb broken (old_pin ∷ []) (newest ∷ second_of_two ∷ []) refl

-- A thread: "a" is under the post, "b" and "c" are under "a".
abbrev thread : List PageComment
thread =
    comment_under (some "b") "d" 4 false
    ∷ comment_under (some "post") "a" 1 false
    ∷ comment_under (some "a") "b" 2 false
    ∷ comment_under (some "a") "c" 3 false
    ∷ []

thread_walked :
    descendants_lookup 9 thread "post"
    ≡ some (
        comment_under (some "post") "a" 1 false
        ∷ comment_under (some "a") "b" 2 false
        ∷ comment_under (some "a") "c" 3 false
        ∷ comment_under (some "b") "d" 4 false
        ∷ [])
unfolding descendants_lookup walk group_by_parent
thread_walked = refl

-- A comment that names itself as its parent, which no hash of a comment can.
loop_runs_on : descendants_lookup 100 (comment_under (some "x") "x" 1 false ∷ []) "x" ≡ none
unfolding descendants_lookup walk group_by_parent
loop_runs_on = refl

abbrev height_of : String → ℕ
height_of cid =
    if str_eq cid "post"
    then 4
    else if str_eq cid "a"
    then 3
    else if str_eq cid "b"
    then 2
    else if str_eq cid "c"
    then 1
    else 0

All-filter_by :
    (P : PageComment → Type 0) (p : PageComment → Bool) (xs : List PageComment)
    → All (λ x. p x ≡ true → P x) xs
    → All P (filter_by p xs)
All-filter_by P p [] h = tt
All-filter_by P p (x ∷ xs) h = elim (Bool-cases (p x)) [
  | inl e ↦ rw (filter_by, e) (h.0 e, All-filter_by P p xs h.1)
  | inr e ↦ rw (filter_by, e) (All-filter_by P p xs h.1)
]

thread_falls :
    (parent : String)
    → All (λ entry. height_of entry.cid < height_of parent) (replies_to parent thread)
unfolding replies_to strip_replies_from_page_comment
thread_falls parent =
    let under = λ (p : String) (k : ℕ) (h : str_eq p parent ≡ true) (low : k < height_of p).
      subst (λ q. k < height_of q) ((eq_iff p parent).0 h) low in
    All-filter_by (λ entry. height_of entry.cid < height_of parent) (is_reply_to parent)
      (map (λ entry. strip_replies_from_page_comment entry) thread)
      (
        (λ h. under "b" 0 h (omega arith)),
        (
          (λ h. under "post" 3 h (omega arith)),
          ((λ h. under "a" 2 h (omega arith)), ((λ h. under "a" 1 h (omega arith)), tt)),
        ),
      )

descendants_lookup_ends_example :
    (rounds : ℕ) × (found : List PageComment) × ((extra : ℕ)
      → descendants_lookup (rounds + suc extra) thread "post" ≡ some found)
    × ((entry : PageComment) → Contains entry found ↔ IsUnder thread "post" entry)
descendants_lookup_ends_example = descendants_lookup_ends thread "post" height_of thread_falls

abbrev lowered : String → String
lowered s = if str_eq s "X.eth" then "x.eth" else s

abbrev other_case : PageComment
other_case = record first_of_two { community_name = some "X.eth" }

-- The row is hidden, though its name is the community's: only the case differs.
case_hides_row :
    (community_identity_row_filter lowered "x.eth" other_case ≡ false)
    × (are_equivalent_names lowered "X.eth" "x.eth" ≡ true)
unfolding community_identity_row_filter are_equivalent_names is_string_domain
case_hides_row = (refl, refl)
