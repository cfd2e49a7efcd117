-- ===== src/Registry/History.antt =====
-- Any sequence of operations of src/pkc/tracked-instance-registry.ts, and what is found after it.
use pkc_js.Base.{
  ◌≡◌, ◌↔◌, ◌∙◌, refl, sym, subst, lookup-assign, ◌⊎◌, ap, Bool, true, false, ◌||◌, String, Option,
  none, some, List, [], ◌∷◌, if◌then◌else◌, str_eq, Bool-cases, inl, inr, contains, lookup, assign,
  is_some, Result, ok, throw, eq_refl,
}
use pkc_js.Registry.{
  Registry, Failure, untracked_value, empty, track, add_aliases, remove_aliases, untrack,
  delete_property, set_property, find_by_alias, members_of, sole,
}
use pkc_js.Registry.Operations.{
  Operation, track_value, add_names, remove_names, untrack_value, delete_name, set_name, operate,
  run, move, move_all, after, Agree, forget_owner,
}
use pkc_js.Registry.Owners.{Owners, no_owners, Describes, give, begin_tracking, listed_of}
use pkc_js.Registry.Claims.{add_each-Describes, has-assign, tracked_already}
use pkc_js.Registry.Moves.{untrack-Describes, remove_each-Describes}

module _ {T : Type 0} (same : T → T → Bool) where
  module _ (lawful : (x y : T) → (same x y ≡ true) ↔ (x ≡ y)) where
    unnamed :
        (n : String) (found : Option (List String))
        → is_some found ≡ false
        → false ≡ contains str_eq n (members_of found)
    unnamed n none h = refl
    unnamed n (some names) h = cc

    nameless :
        (value v : T) (n : String) (entries : List (T × List String))
        → is_some (lookup same value entries) ≡ false
        → (same value v ≡ true) ⊎ (same value v ≡ false)
        → contains str_eq n (members_of (if same value v then some [] else lookup same v entries))
          ≡ contains str_eq n (members_of (lookup same v entries))
    nameless value v n entries h (inl e) = rw e (
        unnamed n (lookup same v entries)
          (sym (ap (λ z. is_some (lookup same z entries)) ((lawful value v).0 e)) ∙ h))
    nameless value v n entries h (inr e) = rw e refl

    begin-Describes :
        (value : T) (o : Owners T) (r : Registry T)
        → Describes same o r
        → Describes same (begin_tracking same value o) (
            if is_some (lookup same value r.entries)
            then r
            else record r { entries = assign same value [] r.entries })
    begin-Describes value o r h = elim (Bool-cases (is_some (lookup same value r.entries))) [
      | inl e ↦ rw e (record {
        tracked = λ v.
            h.tracked v
            ∙ sym (tracked_already same lawful value v o r h (sym (h.tracked value) ∙ e))
            ∙ ap (λ b. same value v || b) (h.tracked v);
        names = h.names;
        held = h.held;
        listed = h.listed;
      })
      | inr e ↦ rw e (record {
        tracked = λ v.
            has-assign same lawful value v [] r.entries ∙ ap (λ b. same value v || b) (h.tracked v);
        names = λ v n.
            ap (λ found. contains str_eq n (members_of found))
              (lookup-assign same lawful value v [] r.entries)
            ∙ nameless value v n r.entries e (Bool-cases (same value v))
            ∙ h.names v n;
        held = h.held;
        listed = h.listed;
      })
    ]

    add_aliases-Agree :
        (value : T) (names : List String) (o : Owners T) (r : Registry T)
        → Describes same o r
        → Agree same (move same (add_names value names) o) (add_aliases same value names r)
    unfolding add_aliases
    add_aliases-Agree value names o r h =
        elim (Bool-cases (is_some (lookup same value r.entries))) [
          | inl e ↦
              let there : o.is_tracked value ≡ true = sym (h.tracked value) ∙ e in
              rw e (rw there (add_each-Describes same lawful value names o r h there))
          | inr e ↦
              let absent : o.is_tracked value ≡ false = sym (h.tracked value) ∙ e in
              rw e (rw absent refl)
        ]

    track-Agree :
        (value : T) (names : Option (List String)) (o : Owners T) (r : Registry T)
        → Describes same o r
        → Agree same (move same (track_value value names) o) (track same value names r)
    unfolding track
    track-Agree value none o r h = begin-Describes value o r h
    track-Agree value (some names) o r h =
        let begun : Owners T = begin_tracking same value o in
        let tracked : Registry T =
          if is_some (lookup same value r.entries)
          then r
          else record r { entries = assign same value [] r.entries } in
        let there : begun.is_tracked value ≡ true = rw (eq_refl same lawful value) refl in
        subst (λ call. Agree same call (add_aliases same value names tracked))
          (ap (λ b. if b then ok (give same value names begun) else throw untracked_value) there)
          (add_aliases-Agree value names begun tracked (begin-Describes value o r h))

    sole_lem : (name : String) (holder : Option T) → sole same name (listed_of holder) ≡ ok holder
    unfolding sole
    sole_lem name none = refl
    sole_lem name (some value) = refl

    -- What an alias finds is its owner.
    pub find_by_alias_lem :
        (name : String) (o : Owners T) (r : Registry T)
        → Describes same o r
        → find_by_alias same name r ≡ ok (o.owner name)
    unfolding find_by_alias
    find_by_alias_lem name o r h = ap (sole same name) (h.held name) ∙ sole_lem name (o.owner name)

    delete-Agree :
        (name : String) (o : Owners T) (r : Registry T)
        → Describes same o r
        → Agree same (move same (delete_name name) o) (delete_property same name r)
    unfolding delete_property
    delete-Agree name o r h = rw (find_by_alias_lem name o r h) (gone (o.owner name))
      where
        gone :
            (holder : Option T)
            → Agree same
                (ok (forget_owner same holder o))
                (elim holder [ none ↦ ok r | some value ↦ ok (untrack same value r) ])
        gone none = h
        gone (some value) = untrack-Describes same lawful value o r h

    remove-Agree :
        (value : T) (names : List String) (o : Owners T) (r : Registry T)
        → Describes same o r
        → Agree same
            (move same (remove_names value names) o)
            (ok (remove_aliases same value names r))
    unfolding remove_aliases
    remove-Agree value names o r h = elim (Bool-cases (is_some (lookup same value r.entries))) [
      | inl e ↦
          let there : o.is_tracked value ≡ true = sym (h.tracked value) ∙ e in
          rw e (rw there (remove_each-Describes same lawful value names o r h))
      | inr e ↦
          let absent : o.is_tracked value ≡ false = sym (h.tracked value) ∙ e in rw e (rw absent h)
    ]

    operate-Agree :
        (operation : Operation T) (o : Owners T) (r : Registry T)
        → Describes same o r
        → Agree same (move same operation o) (operate same operation r)
    unfolding operate set_property track
    operate-Agree (track_value value names) o r h = track-Agree value names o r h
    operate-Agree (add_names value names) o r h = add_aliases-Agree value names o r h
    operate-Agree (remove_names value names) o r h = remove-Agree value names o r h
    operate-Agree (untrack_value value) o r h = untrack-Describes same lawful value o r h
    operate-Agree (delete_name name) o r h = delete-Agree name o r h
    operate-Agree (set_name name value) o r h = track-Agree value (some (name ∷ [])) o r h

    empty-Describes : Describes same (no_owners T) (empty T)
    empty-Describes = record {
      tracked = λ value. refl;
      names = λ value name. refl;
      held = λ name. refl;
      listed = λ name. refl;
    }

    after-Agree :
        (called : Result Failure (Owners T)) (call : Result Failure (Registry T)) (o : Owners T)
        (r : Registry T)
        → Describes same o r
        → Agree same called call
        → Describes same (after same called o) (after same call r)
    after-Agree (throw e) (throw f) o r h agree = h
    after-Agree (throw e) (ok r') o r h agree = absurd agree
    after-Agree (ok o') (throw f) o r h agree = absurd agree
    after-Agree (ok o') (ok r') o r h agree = agree

    run_from :
        (operations : List (Operation T)) (o : Owners T) (r : Registry T)
        → Describes same o r
        → Describes same (move_all same operations o) (run same operations r)
    unfolding run
    run_from [] o r h = h
    run_from (operation ∷ operations) o r h =
        run_from operations (after same (move same operation o) o)
          (after same (operate same operation r) r)
          (after-Agree (move same operation o) (operate same operation r) o r h
            (operate-Agree operation o r h))

    -- After any sequence of operations the two maps of the registry tell the owners that the same
    -- operations give on owners alone, where an alias has one owner or none: the maps agree with each
    -- other, no instance is listed under an alias of another, and no alias without an owner is kept.
    pub run-Describes :
        (operations : List (Operation T))
        → Describes same (move_all same operations (no_owners T)) (run same operations (empty T))
    run-Describes operations = run_from operations (no_owners T) (empty T) empty-Describes

    -- After any sequence of operations the lookup of an alias does not throw: it gives the owner
    -- that the same operations give on owners alone.
    pub find_by_alias-run :
        (operations : List (Operation T)) (name : String)
        → find_by_alias same name (run same operations (empty T))
          ≡ ok (Owners.owner (move_all same operations (no_owners T)) name)
    find_by_alias-run operations name =
        find_by_alias_lem name (move_all same operations (no_owners T))
          (run same operations (empty T)) (run-Describes operations)
