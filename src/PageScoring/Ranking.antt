-- ===== src/PageScoring/Ranking.antt =====
-- The order of a page in src/pages/page-sort-scoring.ts.
use pkc_js.Base.{
  ◌≡◌, ◌∙◌, ◌⊎◌, inl, inr, refl, sym, ap, String, Bool, true, false, ◌&&◌, ◌||◌, List, [], ◌∷◌,
  ◌++◌, map, every, filter_by, All, arith, Bool-cases, Result, ok, throw,
}
use pkc_js.PageScoring.{
  PageComment, Score, declined, no_number, number, scored, kept, sort_scored,
  order_page_comments_by_score,
}
use pkc_js.PageScoring.Order.{
  Descending, alike, Descending-sort_scored, All-sort_scored, alike-sort_scored, filter_pass,
  filter_fail,
}

module _ {N : Type 0} (leq : N → N → Bool) (score_of : PageComment → Score N) where
  abbrev is_score : Score N → Bool
  is_score no_number = false
  is_score _ = true

  -- Has the sort file a score for the entry, or does it decline it?
  abbrev pub is_scorable : PageComment → Bool
  is_scorable entry = is_score (score_of entry)

  abbrev same_score : N → Score N → Bool
  same_score n (number value) = leq n value && leq value n
  same_score n _ = false

  -- Is the score of the entry this one?
  abbrev pub has_score : N → PageComment → Bool
  has_score n entry = same_score n (score_of entry)

  abbrev Above : Score N → Score N → Type 0
  Above (number a) (number b) = leq b a ≡ true
  Above _ _ = ⊥

  -- The entries are numbered, and none is below a later one.
  abbrev pub IsDescending : List PageComment → Type 0
  IsDescending [] = Unit
  IsDescending (x ∷ xs) =
      ((n : N) × (score_of x ≡ number n))
      × All (λ y. Above (score_of x) (score_of y)) xs
      × IsDescending xs

  -- The entries with a score in descending order, those of one score in the order of the input.
  pub record IsRanking (entries ranking : List PageComment) : Type 0 where
    pub descending : IsDescending ranking
    pub stable : (n : N) → filter_by (has_score n) ranking ≡ filter_by (has_score n) entries

  abbrev Truly : PageComment × N → Type 0
  Truly pair = score_of pair.0 ≡ number pair.1

  abbrev entries_of : List (PageComment × N) → List PageComment
  entries_of pairs = map (λ pair. pair.0) pairs

  IsDescending-entries_of :
      (pairs : List (PageComment × N))
      → All Truly pairs
      → Descending leq score_of pairs
      → IsDescending (entries_of pairs)
  IsDescending-entries_of [] h d = tt
  IsDescending-entries_of (x ∷ xs) h d =
      ((x.1, h.0), above x xs h.0 h.1 d.0, IsDescending-entries_of xs h.1 d.1)
    where
      above :
          (x : PageComment × N) (ys : List (PageComment × N))
          → Truly x
          → All Truly ys
          → All (λ y. leq y.1 x.1 ≡ true) ys
          → All (λ y. Above (score_of x.0) (score_of y)) (entries_of ys)
      above x [] t ts h = tt
      above x (y ∷ ys) t ts h = (rw t (rw ts.0 h.0), above x ys t ts.1 h.1)

  has_score-entries_of :
      (n : N) (pairs : List (PageComment × N))
      → All Truly pairs
      → filter_by (has_score n) (entries_of pairs)
        ≡ entries_of (filter_by (alike leq score_of n) pairs)
  has_score-entries_of n [] h = refl
  has_score-entries_of n (x ∷ xs) h =
      let same : has_score n x.0 ≡ alike leq score_of n x = ap (same_score n) h.0 in
      elim (Bool-cases (alike leq score_of n x)) [
        | inl e ↦
            filter_pass leq score_of (has_score n) x.0 (entries_of xs) (same ∙ e)
            ∙ ap (λ zs. x.0 ∷ zs) (has_score-entries_of n xs h.1)
            ∙ ap entries_of (sym (filter_pass leq score_of (alike leq score_of n) x xs e))
        | inr e ↦
            filter_fail leq score_of (has_score n) x.0 (entries_of xs) (same ∙ e)
            ∙ has_score-entries_of n xs h.1
            ∙ ap entries_of (sym (filter_fail leq score_of (alike leq score_of n) x xs e))
      ]

  -- What the loop collects.
  record Scored (entries : List PageComment) : Type 0 where
    pub pairs : List (PageComment × N)
    pub returns : scored leq score_of entries ≡ ok pairs
    pub truly : All Truly pairs
    pub same :
        (n : N) → filter_by (has_score n) (entries_of pairs) ≡ filter_by (has_score n) entries

  collect :
      (entry : PageComment) (entries : List PageComment) (score : Score N)
      → score_of entry ≡ score
      → is_score score ≡ true
      → Scored entries
      → Scored (entry ∷ entries)
  unfolding scored
  collect entry entries no_number e h rest = cc
  collect entry entries declined e h rest = record {
    pairs = rest.pairs;
    returns = rw (scored, e) rest.returns;
    truly = rest.truly;
    same = λ n.
        rest.same n
        ∙ sym (filter_fail leq score_of (has_score n) entry entries (ap (same_score n) e));
  }
  collect entry entries (number value) e h rest = record {
    pairs = (entry, value) ∷ rest.pairs;
    returns = rw (scored, e) (rw rest.returns refl);
    truly = (e, rest.truly);
    same = λ n. elim (Bool-cases (has_score n entry)) [
      | inl f ↦
          filter_pass leq score_of (has_score n) entry (entries_of rest.pairs) f
          ∙ ap (λ zs. entry ∷ zs) (rest.same n)
          ∙ sym (filter_pass leq score_of (has_score n) entry entries f)
      | inr f ↦
          filter_fail leq score_of (has_score n) entry (entries_of rest.pairs) f
          ∙ rest.same n
          ∙ sym (filter_fail leq score_of (has_score n) entry entries f)
    ];
  }

  pairs_of : (entries : List PageComment) → every is_scorable entries ≡ true → Scored entries
  unfolding scored
  pairs_of [] h = record { pairs = []; returns = refl; truly = tt; same = λ n. refl }
  pairs_of (entry ∷ entries) h =
      collect entry entries (score_of entry) refl (ground (arith, h))
        (pairs_of entries (ground (arith, h)))

  -- The loop throws at a comment of the list without a number.
  abbrev pub ThrowsAt : Result String (List (PageComment × N)) → PageComment → Type 0
  ThrowsAt call bad = (is_scorable bad ≡ false) × (call ≡ throw bad.cid)

  fails :
      (entry : PageComment) (entries : List PageComment) (score : Score N)
      → score_of entry ≡ score
      → (is_score score ≡ false)
        ⊎ ((bad : PageComment) × ThrowsAt (scored leq score_of entries) bad)
      → (bad : PageComment) × ThrowsAt (scored leq score_of (entry ∷ entries)) bad
  unfolding scored
  fails entry entries no_number e h = (entry, (ap is_score e, rw (scored, e) refl))
  fails entry entries declined e (inl h) = cc
  fails entry entries declined e (inr (bad, (g, f))) = (bad, (g, rw (scored, e) f))
  fails entry entries (number value) e (inl h) = cc
  fails entry entries (number value) e (inr (bad, (g, f))) = (bad, (g, rw (scored, e) (rw f refl)))

  scored-ThrowsAt :
      (entries : List PageComment)
      → every is_scorable entries ≡ false
      → (bad : PageComment) × ThrowsAt (scored leq score_of entries) bad
  scored-ThrowsAt [] h = cc
  scored-ThrowsAt (entry ∷ entries) h =
      fails entry entries (score_of entry) refl (elim (Bool-cases (is_scorable entry)) [
        | inl e ↦ inr (scored-ThrowsAt entries (ground (arith, h, e)))
        | inr e ↦ inl e
      ])

  -- If the sort file returns no number for some comment, pinned or not, and does not decline it, the
  -- ordering throws, with the cid of such a comment.
  pub order_page_comments_by_score-throw :
      (pinned unpinned : List PageComment)
      → every is_scorable pinned && every is_scorable unpinned ≡ false
      → (bad : PageComment) × (is_scorable bad ≡ false)
        × (order_page_comments_by_score leq score_of pinned unpinned ≡ throw bad.cid)
  unfolding order_page_comments_by_score kept
  order_page_comments_by_score-throw pinned unpinned h =
      elim (Bool-cases (every is_scorable pinned)) [
        | inr e ↦ let (bad, (g, f)) = scored-ThrowsAt pinned e in (bad, g, rw f refl)
        | inl e ↦
            let found = pairs_of pinned e in
            let (bad, (g, f)) = scored-ThrowsAt unpinned (ground (arith, h, e)) in
            (bad, g, rw found.returns (rw f refl))
      ]

  module _ (total : (a b : N) → leq a b || leq b a ≡ true)
      (trans : (a b c : N) → leq a b ≡ true → leq b c ≡ true → leq a c ≡ true) where
    kept-IsRanking :
        (entries : List PageComment)
        → every is_scorable entries ≡ true
        → (ranking : List PageComment) × (kept leq score_of entries ≡ ok ranking)
          × IsRanking entries ranking
    unfolding kept
    kept-IsRanking entries h =
        let found = pairs_of entries h in
        let sorted : List (PageComment × N) = sort_scored leq score_of found.pairs in
        let truly = All-sort_scored leq score_of total trans Truly found.pairs found.truly in
        (
          entries_of sorted,
          rw found.returns refl,
          record {
            descending =
                IsDescending-entries_of sorted truly
                  (Descending-sort_scored leq score_of total trans found.pairs);
            stable = λ n.
                has_score-entries_of n sorted truly
                ∙ ap entries_of (alike-sort_scored leq score_of total trans n found.pairs)
                ∙ sym (has_score-entries_of n found.pairs found.truly)
                ∙ found.same n;
          },
        )

    -- If the sort file has a score for every comment or declines it, the page is a ranking of the pinned
    -- comments and then one of the others: in descending order of the scores, with the comments of one
    -- score in the order of the input, so every scored comment as often as there and no declined one.
    pub order_page_comments_by_score-IsRanking :
        (pinned unpinned : List PageComment)
        → every is_scorable pinned ≡ true
        → every is_scorable unpinned ≡ true
        → (top : List PageComment) × (rest : List PageComment) × (order_page_comments_by_score leq
              score_of pinned unpinned
            ≡ ok (top ++ rest))
          × IsRanking pinned top
          × IsRanking unpinned rest
    unfolding order_page_comments_by_score
    order_page_comments_by_score-IsRanking pinned unpinned h k =
        let (top, first, ranked) = kept-IsRanking pinned h in
        let (rest, second, ranked_rest) = kept-IsRanking unpinned k in
        (top, rest, rw first (rw second refl), ranked, ranked_rest)
