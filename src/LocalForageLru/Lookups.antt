-- ===== src/LocalForageLru/Lookups.antt =====
-- What src/runtime/browser/localforage-lru.ts finds under a key after a write.
use pkc_js.Base.{
  ℕ, suc, ◌≡◌, ◌∙◌, ◌⊎◌, inl, inr, refl, sym, ap, String, Bool, false, Option, none, some, ok,
  throw, Result-cases, Option-cases, Bool-cases, if◌then◌else◌, str_eq, eq_iff, eq_refl, leb,
}
use pkc_js.LocalForageLru.{
  Database, Lru, make_place, update_databases, promote, get_item, set_item, peek,
}
use pkc_js.LocalForageLru.Contract.{IsLawful}

module _ {D V E : Type 0} (db : Database D V E) (quota : E → Bool) (max_size : ℕ)
    (lawful : IsLawful db) where
  -- A value of the first database hides that of the second.
  abbrev pub first_of : Option V → Option V → Option V
  first_of none value2 = value2
  first_of (some value) value2 = some value

  pub peek_lem :
      (key : String) (s : Lru D)
      → peek db quota max_size key s
        ≡ first_of (db.get_item key s.database1) (db.get_item key s.database2)
  unfolding peek
  peek_lem key s = elim (Option-cases (db.get_item key s.database1)) [
    | inl e ↦ rw (peek, e) refl
    | inr (value, e) ↦ rw (peek, e) refl
  ]

  pub get-set_self :
      (key : String) (value : Option V) (d written : D)
      → db.set_item key value d ≡ ok written
      → db.get_item key written ≡ value
  get-set_self key value d written e =
      lawful.get-set key key value d written e
      ∙ ap (λ b. if b then value else db.get_item key d) (eq_refl str_eq eq_iff key)

  -- The written value is seen, in the first database or in the second.
  pub peek-make_place :
      (key : String) (value : V) (s : Lru D) (written : D)
      → db.set_item key (some value) s.database1 ≡ ok written
      → peek db quota max_size key (make_place db quota max_size written s) ≡ some value
  unfolding make_place
  peek-make_place key value s written e = elim (Bool-cases (leb max_size (suc s.database_size))) [
    | inl full ↦ rw full (
        rw
          (peek_lem key
            (record { database1 = db.clear s.database2; database2 = written; database_size = 0 }))
          (rw (lawful.get-clear key s.database2)
            (get-set_self key (some value) s.database1 written e)))
    | inr roomy ↦ rw roomy (
        rw (peek_lem key (record s { database1 = written; database_size = suc s.database_size }))
          (rw (get-set_self key (some value) s.database1 written e) refl))
  ]

  pub set_item_lem :
      (key : String) (value : V) (s : Lru D) (written : D)
      → db.set_item key (some value) s.database1 ≡ ok written
      → (after : Lru D) × (set_item db quota max_size key (some value) s ≡ ok after)
        × (peek db quota max_size key after ≡ some value)
  unfolding set_item update_databases
  set_item_lem key value s written e = elim (Option-cases (db.get_item key s.database1)) [
    | inl f ↦ (
      make_place db quota max_size written s,
      rw (set_item, f) (rw (update_databases, e) refl),
      peek-make_place key value s written e,
    )
    | inr (old, f) ↦ (
      record s { database1 = written },
      rw (set_item, f) (rw e refl),
      peek_lem key (record s { database1 = written })
          ∙ ap (λ found. first_of found (db.get_item key s.database2))
              (get-set_self key (some value) s.database1 written e),
    )
  ]

  -- A read that gives the value, or that throws what the write to the first database threw.
  abbrev pub ReadsBack : String → V → Lru D → Type 0
  ReadsBack key value s =
      ((after : Lru D) × (get_item db quota max_size key s ≡ ok (some value, after)))
      ⊎ ((error : E) × (db.set_item key (some value) s.database1 ≡ throw error)
          × (quota error ≡ false)
          × (get_item db quota max_size key s ≡ throw error))

  get_item-peek :
      (key : String) (value : V) (s : Lru D)
      → peek db quota max_size key s ≡ some value
      → ReadsBack key value s
  unfolding get_item promote update_databases
  get_item-peek key value s seen = elim (Option-cases (db.get_item key s.database1)) [
    | inr (found, e) ↦
        let same : some found ≡ some value =
          sym (peek_lem key s ∙ ap (λ x. first_of x (db.get_item key s.database2)) e) ∙ seen in
        inl (s, rw (get_item, e) (ap (λ x. ok (x, s)) same))
    | inl e ↦
        let second : db.get_item key s.database2 ≡ some value =
          sym (peek_lem key s ∙ ap (λ x. first_of x (db.get_item key s.database2)) e) ∙ seen in
        elim (Result-cases (db.set_item key (some value) s.database1)) [
          | inl (written, w) ↦ inl (
            make_place db quota max_size written s,
            rw (get_item, e) (rw second (rw (update_databases, w) refl)),
          )
          | inr (error, w) ↦ elim (Bool-cases (quota error)) [
            | inl q ↦ inl (s, rw (get_item, e) (rw second (rw (update_databases, w) (rw q refl))))
            | inr q ↦
                inr
                  (error, w, q, rw (get_item, e) (rw second (rw (update_databases, w) (rw q refl))))
          ]
        ]
  ]

  -- A value that the database takes is read back: `setItem` returns, and `getItem` of the same key
  -- then gives the value, or throws what the database throws at the write that promotes it.
  pub get_item-set_item :
      (key : String) (value : V) (s : Lru D) (written : D)
      → db.set_item key (some value) s.database1 ≡ ok written
      → (after : Lru D) × (set_item db quota max_size key (some value) s ≡ ok after)
        × ReadsBack key value after
  get_item-set_item key value s written e =
      let (after, set, seen) = set_item_lem key value s written e in
      (after, set, get_item-peek key value after seen)
