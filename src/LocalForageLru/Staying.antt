-- ===== src/LocalForageLru/Staying.antt =====
-- Where a value of src/runtime/browser/localforage-lru.ts is, and how long it will not be driven out.
use pkc_js.Base.{
  ℕ, suc, ◌+◌, ◌≤◌, ◌<◌, ◌≡◌, ◌∙◌, ◌⊎◌, inl, inr, refl, sym, ap, String, Bool, true, false, Option,
  none, some, ok, Result-cases, Bool-cases, if◌then◌else◌, arith, leb, str_eq, eq_iff,
}
use pkc_js.LocalForageLru.{Database, Lru, make_place, update_databases}
use pkc_js.LocalForageLru.Contract.{IsLawful}
use pkc_js.LocalForageLru.Lookups.{get-set_self}
use pkc_js.LocalForageLru.Operations.{kept_state}

module _ {D V E : Type 0} (db : Database D V E) (quota : E → Bool) (max_size : ℕ)
    (lawful : IsLawful db) where
  -- The value is in the first database, or in the second with time left: `n` operations will not
  -- drive it out.
  abbrev pub Stays : String → V → ℕ → Lru D → Type 0
  Stays key value n s =
      ((db.get_item key s.database1 ≡ some value) × (n ≤ max_size))
      ⊎ ((db.get_item key s.database1 ≡ none)
          × (db.get_item key s.database2 ≡ some value)
          × (n + s.database_size < max_size))

  pub get-set_ne :
      (key other : String) (value : Option V) (d written : D)
      → str_eq other key ≡ false
      → db.set_item other value d ≡ ok written
      → db.get_item key written ≡ db.get_item key d
  get-set_ne key other value d written differ w =
      lawful.get-set other key value d written w
      ∙ ap (λ b. if b then value else db.get_item key d) differ

  pub make_place_first :
      (key : String) (value : V) (n : ℕ) (s : Lru D) (written : D)
      → db.get_item key written ≡ some value
      → n < max_size
      → Stays key value n (make_place db quota max_size written s)
  unfolding make_place
  make_place_first key value n s written there time =
      elim (Bool-cases (leb max_size (suc s.database_size))) [
        | inl full ↦ rw full (inr (lawful.get-clear key s.database2, there, omega (arith, time)))
        | inr roomy ↦ rw roomy (inl (there, omega (arith, time)))
      ]

  make_place_other :
      (key : String) (value : V) (n : ℕ) (s : Lru D) (written : D)
      → db.get_item key written ≡ db.get_item key s.database1
      → Stays key value (suc n) s
      → Stays key value n (make_place db quota max_size written s)
  unfolding make_place
  make_place_other key value n s written same (inl (there, time)) =
      make_place_first key value n s written (same ∙ there) (omega (arith, time))
  make_place_other key value n s written same (inr (absent, there, time)) =
      elim (Bool-cases (leb max_size (suc s.database_size))) [
        | inl full ↦ absurd (ground (arith, full, time))
        | inr roomy ↦ rw roomy (inr (same ∙ absent, there, omega (arith, time)))
      ]

  -- One operation less, and the state as it was.
  pub later :
      (key : String) (value : V) (n : ℕ) (s : Lru D)
      → Stays key value (suc n) s
      → Stays key value n s
  later key value n s (inl (there, time)) = inl (there, omega (arith, time))
  later key value n s (inr (absent, there, time)) = inr (absent, there, omega (arith, time))

  time_left :
      (key : String) (value : V) (n : ℕ) (s : Lru D) → Stays key value (suc n) s → n < max_size
  time_left key value n s (inl (there, time)) = omega (arith, time)
  time_left key value n s (inr (absent, there, time)) = omega (arith, time)

  -- The entry of the database after an update: nothing has changed, or the value was written.
  update_databases_cases :
      (other : String) (value : Option V) (s : Lru D)
      → (kept_state db quota max_size s (update_databases db quota max_size other value s) ≡ s)
        ⊎ ((written : D) × (db.set_item other value s.database1 ≡ ok written)
            × (update_databases db quota max_size other value s
                ≡ ok (make_place db quota max_size written s)))
  unfolding update_databases
  update_databases_cases other value s = elim (Result-cases (db.set_item other value s.database1)) [
    | inl (written, w) ↦ inr (written, w, rw (update_databases, w) refl)
    | inr (error, w) ↦ elim (Bool-cases (quota error)) [
      | inl q ↦ inl (rw (update_databases, w) (rw q refl))
      | inr q ↦ inl (rw (update_databases, w) (rw q refl))
    ]
  ]

  pub update_databases-Stays :
      (key other : String) (value : V) (given : Option V) (n : ℕ) (s : Lru D)
      → (str_eq other key ≡ false) ⊎ ((str_eq other key ≡ true) × (given ≡ some value))
      → Stays key value (suc n) s
      → Stays key value n
          (kept_state db quota max_size s (update_databases db quota max_size other given s))
  update_databases-Stays key other value given n s which h =
      elim (update_databases_cases other given s) [
        | inl e ↦ rw e (later key value n s h)
        | inr (written, w, e) ↦ rw e (elim which [
          | inl differ ↦
              make_place_other key value n s written
                (get-set_ne key other given s.database1 written differ w) h
          | inr (same, its) ↦
              make_place_first key value n s written
                (ap (λ k. db.get_item k written) (sym ((eq_iff other key).0 same))
                  ∙ get-set_self db quota max_size lawful other given s.database1 written w
                  ∙ its)
                (time_left key value n s h)
        ])
      ]
