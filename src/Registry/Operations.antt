-- ===== src/Registry/Operations.antt =====
-- The operations of src/pkc/tracked-instance-registry.ts as values, and sequences of them.
use pkc_js.Base.{
  ◌≡◌, Bool, String, Option, none, some, List, [], ◌∷◌, if◌then◌else◌, Result, ok, throw,
}
use pkc_js.Registry.{
  Registry, Failure, untracked_value, track, add_aliases, remove_aliases, untrack, delete_property,
  set_property,
}
use pkc_js.Registry.Owners.{Owners, Describes, give, free, forget, begin_tracking}

-- The calls that change a registry.
pub data Operation (T : Type 0) : Type 0 where
  track_value : (value : T) → (names : Option (List String)) → Operation T
  add_names : (value : T) → (names : List String) → Operation T
  remove_names : (value : T) → (names : List String) → Operation T
  untrack_value : (value : T) → Operation T
  delete_name : (name : String) → Operation T
  set_name : (name : String) → (value : T) → Operation T

module _ {T : Type 0} (same : T → T → Bool) where
  unfoldable pub operate : Operation T → Registry T → Result Failure (Registry T)
  operate (track_value value names) r = track same value names r
  operate (add_names value names) r = add_aliases same value names r
  operate (remove_names value names) r = ok (remove_aliases same value names r)
  operate (untrack_value value) r = ok (untrack same value r)
  operate (delete_name name) r = delete_property same name r
  operate (set_name name value) r = set_property same name value r

  abbrev pub forget_owner : Option T → Owners T → Owners T
  forget_owner none o = o
  forget_owner (some value) o = forget same value o

  -- The operations on the owners alone.
  abbrev pub move : Operation T → Owners T → Result Failure (Owners T)
  move (track_value value none) o = ok (begin_tracking same value o)
  move (track_value value (some names)) o = ok (give same value names (begin_tracking same value o))
  move (add_names value names) o =
      if o.is_tracked value then ok (give same value names o) else throw untracked_value
  move (remove_names value names) o = ok (if o.is_tracked value then free same value names o else o)
  move (untrack_value value) o = ok (forget same value o)
  move (delete_name name) o = ok (forget_owner (o.owner name) o)
  move (set_name name value) o = ok (give same value (name ∷ []) (begin_tracking same value o))

  -- A call that throws leaves the registry as it is, and the caller goes on.
  abbrev pub after : {A : Type 0} → Result Failure A → A → A
  after (throw error) before = before
  after (ok value) before = value

  unfoldable pub run : List (Operation T) → Registry T → Registry T
  unfolding operate
  run [] r = r
  run (operation ∷ operations) r = run operations (after (operate operation r) r)

  abbrev pub move_all : List (Operation T) → Owners T → Owners T
  move_all [] o = o
  move_all (operation ∷ operations) o = move_all operations (after (move operation o) o)

  -- Both throw, or both return and the owners are described again.
  abbrev pub Agree : Result Failure (Owners T) → Result Failure (Registry T) → Type 0
  Agree (throw error) (throw error') = error ≡ error'
  Agree (ok o) (ok r) = Describes same o r
  Agree _ _ = ⊥
