-- ===== src/PageScoring/Descendants.antt =====
-- The subtree that src/pages/page-sort-scoring.ts collects with a stack.
use pkc_js.Base.{
  ℕ, suc, ◌+◌, ◌<◌, ◌≡◌, ◌∙◌, ◌↔◌, inl, inr, refl, sym, ap, fun_ext, subst, String, Bool, false,
  not, ◌&&◌, Option, none, some, List, [], ◌∷◌, ◌++◌, map, All, filter_by, if◌then◌else◌, str_eq,
  eq_iff, lookup, assign, lookup-assign, arith, Bool-cases,
}
use pkc_js.PageScoring.{
  PageComment, children_in, join_children, group_by_parent, walk, descendants_lookup,
  strip_replies_from_page_comment,
}
use pkc_js.PageScoring.Subtrees.{Contains, Descends, Collects, collects, append_nil, append_assoc}

abbrev pub is_parent : String → Option String → Bool
is_parent cid none = false
is_parent cid (some parent_cid) = not (str_eq parent_cid "") && str_eq parent_cid cid

-- The replies to a comment, without their own `replies`.
abbrev pub is_reply_to : String → PageComment → Bool
is_reply_to cid entry = is_parent cid entry.parent_cid

unfoldable pub replies_to : String → List PageComment → List PageComment
replies_to cid replies =
    filter_by (is_reply_to cid) (map (λ entry. strip_replies_from_page_comment entry) replies)

joins :
    (cid p : String) (entry : PageComment) (known : List (String × List PageComment))
    → children_in (
        lookup str_eq cid
          (assign str_eq p (children_in (lookup str_eq p known) ++ entry ∷ []) known))
      ≡ children_in (lookup str_eq cid known) ++ (if str_eq p cid then entry ∷ [] else [])
joins cid p entry known =
    let found =
      lookup-assign str_eq eq_iff p cid (children_in (lookup str_eq p known) ++ entry ∷ []) known in
    rw found (elim (Bool-cases (str_eq p cid)) [
      | inl e ↦
          rw e (ap (λ c. children_in (lookup str_eq c known) ++ entry ∷ []) ((eq_iff p cid).0 e))
      | inr e ↦ rw e (sym (append_nil (children_in (lookup str_eq cid known))))
    ])

children_in-join_children :
    (cid : String) (parent : Option String) (entry : PageComment)
    (known : List (String × List PageComment))
    → children_in (lookup str_eq cid (join_children parent entry known))
      ≡ children_in (lookup str_eq cid known) ++ (if is_parent cid parent then entry ∷ [] else [])
unfolding join_children
children_in-join_children cid none entry known =
    sym (append_nil (children_in (lookup str_eq cid known)))
children_in-join_children cid (some p) entry known = elim (Bool-cases (str_eq p "")) [
  | inl f ↦ rw f (sym (append_nil (children_in (lookup str_eq cid known))))
  | inr f ↦ rw f (joins cid p entry known)
]

filter_by-cons :
    (p : PageComment → Bool) (x : PageComment) (xs : List PageComment)
    → (if p x then x ∷ [] else []) ++ filter_by p xs ≡ filter_by p (x ∷ xs)
filter_by-cons p x xs = elim (Bool-cases (p x)) [
  | inl e ↦ rw (filter_by, e) refl
  | inr e ↦ rw (filter_by, e) refl
]

children_in-group_by_parent :
    (cid : String) (replies : List PageComment) (known : List (String × List PageComment))
    → children_in (lookup str_eq cid (group_by_parent replies known))
      ≡ children_in (lookup str_eq cid known) ++ replies_to cid replies
unfolding group_by_parent replies_to
children_in-group_by_parent cid [] known = sym (append_nil (children_in (lookup str_eq cid known)))
children_in-group_by_parent cid (entry ∷ replies) known =
    let stripped : PageComment = strip_replies_from_page_comment entry in
    let here : List PageComment = children_in (lookup str_eq cid known) in
    children_in-group_by_parent cid replies (join_children stripped.parent_cid stripped known)
    ∙ ap (λ xs. xs ++ replies_to cid replies)
        (children_in-join_children cid stripped.parent_cid stripped known)
    ∙ append_assoc here (if is_reply_to cid stripped then stripped ∷ [] else [])
        (replies_to cid replies)
    ∙ ap (λ xs. here ++ xs)
        (filter_by-cons (is_reply_to cid) stripped
          (map (λ e. strip_replies_from_page_comment e) replies))

-- The entry is under the comment, among the replies.
abbrev pub IsUnder : List PageComment → String → PageComment → Type 0
IsUnder replies cid entry = Descends (λ parent. replies_to parent replies) cid entry

children_of_replies :
    (replies : List PageComment) (cid : String)
    → children_in (lookup str_eq cid (group_by_parent replies [])) ≡ replies_to cid replies
children_of_replies replies cid = children_in-group_by_parent cid replies []

-- If nobody replies below himself, that is, some height falls from each comment to the replies to it,
-- the loop over the stack ends: from some number of rounds on the call returns, always the same list,
-- and that has exactly the entries under the comment.
pub descendants_lookup_ends :
    (replies : List PageComment) (cid : String) (height : String → ℕ)
    → ((parent : String)
        → All (λ entry. height entry.cid < height parent) (replies_to parent replies))
    → (rounds : ℕ) × (found : List PageComment) × ((extra : ℕ)
        → descendants_lookup (rounds + suc extra) replies cid ≡ some found)
      × ((entry : PageComment) → Contains entry found ↔ IsUnder replies cid entry)
unfolding descendants_lookup walk
descendants_lookup_ends replies cid height falls =
    let known : List (String × List PageComment) = group_by_parent replies [] in
    let all : Collects known cid =
      collects known height
        (λ parent.
          subst (All (λ entry. height entry.cid < height parent))
            (sym (children_of_replies replies parent)) (falls parent))
        (suc (height cid)) cid (omega arith) in
    (
      all.rounds,
      all.found,
      (λ extra. all.loops (suc extra) [] []),
      subst (λ kids. (entry : PageComment) → Contains entry all.found ↔ Descends kids cid entry)
          (fun_ext (children_of_replies replies)) all.all_found,
    )
