-- ===== src/Registry/Lookups.antt =====
-- What the lookups in the two maps of src/pkc/tracked-instance-registry.ts come to after a change.
use pkc_js.Base.{
  ◌≡◌, ◌↔◌, ◌∙◌, refl, sym, subst, ap, Bool, true, not, ◌&&◌, ◌||◌, String, Option, none, some,
  List, [], ◌∷◌, if◌then◌else◌, arith, str_eq, eq_iff, Bool-cases, Option-cases, ap_if, inl, inr,
  contains, insert, discard, lookup, assign, erase, is_some, is_empty, lookup-assign, lookup-erase,
  contains-insert, contains-discard,
}
use pkc_js.Registry.{members_of, drop_name, release}

module _ {T : Type 0} (same : T → T → Bool) where
  -- Does the entry of the instance list the name?
  abbrev pub owns : List (T × List String) → T → String → Bool
  owns entries value name = contains str_eq name (members_of (lookup same value entries))

  abbrev pub holders : List (String × List T) → String → List T
  holders aliases name = members_of (lookup str_eq name aliases)

  module _ (lawful : (x y : T) → (same x y ≡ true) ↔ (x ≡ y)) where
    owns-same :
        (v w : T) (name : String) (entries : List (T × List String))
        → same v w ≡ true
        → owns entries v name ≡ owns entries w name
    owns-same v w name entries e = ap (λ z. owns entries z name) ((lawful v w).0 e)

    pub owns-insert :
        (v w : T) (name n : String) (entries : List (T × List String))
        → owns (assign same v (insert str_eq name (members_of (lookup same v entries))) entries) w n
          ≡ same v w && str_eq name n || owns entries w n
    owns-insert v w name n entries =
        let names : List String = members_of (lookup same v entries) in
        let found = lookup-assign same lawful v w (insert str_eq name names) entries in
        elim (Bool-cases (same v w)) [
          | inl e ↦
              let grown = contains-insert str_eq eq_iff name n names in
              let alike = owns-same v w n entries e in
              rw found (rw e (ground (arith, grown, alike)))
          | inr e ↦ rw found (rw e refl)
        ]

    pub owns-discard :
        (v w : T) (name n : String) (entries : List (T × List String))
        → owns
            (assign same v (discard str_eq name (members_of (lookup same v entries))) entries)
            w
            n
          ≡ not (same v w && str_eq name n) && owns entries w n
    owns-discard v w name n entries =
        let names : List String = members_of (lookup same v entries) in
        let found = lookup-assign same lawful v w (discard str_eq name names) entries in
        elim (Bool-cases (same v w)) [
          | inl e ↦
              let cut = contains-discard str_eq eq_iff name n names in
              let alike = owns-same v w n entries e in rw found (rw e (ground (arith, cut, alike)))
          | inr e ↦ rw found (rw e refl)
        ]

    pub owns-drop_name :
        (v w : T) (name n : String) (entries : List (T × List String))
        → owns (drop_name same v name entries) w n
          ≡ not (same v w && str_eq name n) && owns entries w n
    unfolding drop_name
    owns-drop_name v w name n entries = elim (Option-cases (lookup same v entries)) [
      | inl e ↦ elim (Bool-cases (same v w)) [
        | inl f ↦
            let alike : lookup same v entries ≡ lookup same w entries =
              ap (λ z. lookup same z entries) ((lawful v w).0 f) in
            let missing : lookup same w entries ≡ none = sym alike ∙ e in
            rw (drop_name, e) (rw missing (ground arith))
        | inr f ↦ rw (drop_name, e) (rw f refl)
      ]
      | inr (names, e) ↦
          let cut = owns-discard v w name n entries in
          rw (drop_name, e)
            (subst
              (λ found.
                owns (assign same v (discard str_eq name (members_of found)) entries) w n
                ≡ not (same v w && str_eq name n) && owns entries w n)
              e cut)
    ]

    pub owns-erase :
        (v w : T) (n : String) (entries : List (T × List String))
        → owns (erase same v entries) w n ≡ not (same v w) && owns entries w n
    owns-erase v w n entries =
        let found = lookup-erase same lawful v w entries in
        elim (Bool-cases (same v w)) [ inl e ↦ rw found (rw e refl) | inr e ↦ rw found (rw e refl) ]

    pub has-drop_name :
        (v w : T) (name : String) (entries : List (T × List String))
        → is_some (lookup same w (drop_name same v name entries)) ≡ is_some (lookup same w entries)
    unfolding drop_name
    has-drop_name v w name entries = elim (Option-cases (lookup same v entries)) [
      | inl e ↦ rw (drop_name, e) refl
      | inr (names, e) ↦
          let found = lookup-assign same lawful v w (discard str_eq name names) entries in
          rw (drop_name, e)
            (rw found (elim (Bool-cases (same v w)) [
              | inl f ↦
                  let there : lookup same w entries ≡ some names =
                    sym (ap (λ z. lookup same z entries) ((lawful v w).0 f)) ∙ e in
                  rw f (rw there refl)
              | inr f ↦ rw f refl
            ]))
    ]

  -- The set of the name is `left`, and the name has gone if that is empty.
  pub record IsLeft (name : String) (left : List T) (before after : List (String × List T))
      : Type 0 where
    pub members :
        (n : String) → holders after n ≡ (if str_eq name n then left else holders before n)
    pub listed :
        (n : String)
        → is_some (lookup str_eq n after)
          ≡ (if str_eq name n then not (is_empty left) else is_some (lookup str_eq n before))

  -- A map in which only the lookup of one name is new.
  IsLeft-lookup :
      (name : String) (left : List T) (found : Option (List T))
      (before after : List (String × List T))
      → members_of found ≡ left
      → is_some found ≡ not (is_empty left)
      → ((n : String)
          → lookup str_eq n after ≡ (if str_eq name n then found else lookup str_eq n before))
      → IsLeft name left before after
  IsLeft-lookup name left found before after e there changed = record {
    members = λ n. rw (changed n) (
        ap_if members_of (str_eq name n) found (lookup str_eq n before)
        ∙ ap (λ xs. if str_eq name n then xs else holders before n) e);
    listed = λ n. rw (changed n) (
        ap_if is_some (str_eq name n) found (lookup str_eq n before)
        ∙ ap (λ b. if str_eq name n then b else is_some (lookup str_eq n before)) there);
  }

  pub IsLeft-assign :
      (name : String) (x : T) (xs : List T) (before : List (String × List T))
      → IsLeft name (x ∷ xs) before (assign str_eq name (x ∷ xs) before)
  IsLeft-assign name x xs before =
      IsLeft-lookup name (x ∷ xs) (some (x ∷ xs)) before (assign str_eq name (x ∷ xs) before) refl
        refl (λ n. lookup-assign str_eq eq_iff name n (x ∷ xs) before)

  IsLeft-cases :
      (name : String) (left : List T) (before : List (String × List T))
      → IsLeft name left before
          (if is_empty left then erase str_eq name before else assign str_eq name left before)
  IsLeft-cases name [] before =
      IsLeft-lookup name [] none before (erase str_eq name before) refl refl
        (λ n. lookup-erase str_eq eq_iff name n before)
  IsLeft-cases name (x ∷ xs) before = IsLeft-assign name x xs before

  IsLeft-missing :
      (name : String) (aliases : List (String × List T))
      → lookup str_eq name aliases ≡ none
      → IsLeft name [] aliases aliases
  IsLeft-missing name aliases e = IsLeft-lookup name [] none aliases aliases refl refl (λ n.
      elim (Bool-cases (str_eq name n)) [
        | inl f ↦ rw f (sym (ap (λ z. lookup str_eq z aliases) ((eq_iff name n).0 f)) ∙ e)
        | inr f ↦ rw f refl
      ])

  pub release-IsLeft :
      (v : T) (name : String) (aliases : List (String × List T))
      → IsLeft name (discard same v (holders aliases name)) aliases (release same v name aliases)
  unfolding release
  release-IsLeft v name aliases = elim (Option-cases (lookup str_eq name aliases)) [
    | inl e ↦ rw (release, e) (IsLeft-missing name aliases e)
    | inr (hs, e) ↦ rw (release, e) (IsLeft-cases name (discard same v hs) aliases)
  ]
