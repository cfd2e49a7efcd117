-- ===== src/LocalForageLru.antt =====
-- src/runtime/browser/localforage-lru.ts: a cache over two databases of the browser. Writes go to the
-- first; when that is full the second is cleared and the two change places. The children have the
-- proofs.
pub mod Contract
pub mod Lookups
mod Staying
pub mod Operations
pub mod Recency
pub mod Bounds
use pkc_js.Base.{
  ℕ, suc, String, Bool, true, false, not, ◌&&◌, ◌||◌, ◌==◌, leb, Option, none, some, List, [], ◌∷◌,
  ◌++◌, map, if◌then◌else◌, Result, ok, throw, ◌>>=◌, str_eq, lookup, assign, insert,
}

-- The operations of the localforage package on one database. `null` is the value `none`, which
-- `get_item` also gives for a missing key. A write may be rejected with an error.
pub record Database (D V E : Type 0) : Type 0 where
  pub get_item : String → D → Option V
  pub set_item : String → Option V → D → Result E D
  pub remove_item : String → D → D
  pub clear : D → D
  pub keys : D → List String
  pub length_of : D → ℕ

-- The variables of the closure.
pub record Lru (D : Type 0) : Type 0 where
  pub database1 : D
  pub database2 : D
  pub database_size : ℕ

-- `localForageOptions`
pub record ForageOptions : Type 0 where
  pub name : Option String
  pub size : Option ℕ

pub data OptionsError : Type 0 where
  size_not_number : OptionsError
  name_not_string : OptionsError

module _ {D V E : Type 0} (db : Database D V E) (max_size : ℕ) where
  -- The larger database is the active one, unless it is full.
  unfoldable pub choose_active : D → D → Lru D
  choose_active forage1 forage2 =
      let size1 : ℕ = db.length_of forage1 in
      let size2 : ℕ = db.length_of forage2 in
      if (leb size2 size1 && not (size1 == max_size)) || size2 == max_size
      then record { database1 = forage1; database2 = forage2; database_size = size1 }
      else record { database1 = forage2; database2 = forage1; database_size = size2 }

-- `quota` tells whether the message of an error is that the quota of the storage is exceeded, and
-- `max_size` is the `size` of the options.
module _ {D V E : Type 0} (db : Database D V E) (quota : E → Bool) (max_size : ℕ) where
  -- `database1` with the value in it, and the two change places when it is full.
  unfoldable pub make_place : D → Lru D → Lru D
  make_place written s =
      if leb max_size (suc s.database_size)
      then record { database1 = db.clear s.database2; database2 = written; database_size = 0 }
      else record s { database1 = written; database_size = suc s.database_size }

  unfoldable pub update_databases : String → Option V → Lru D → Result E (Lru D)
  unfolding make_place
  update_databases key value s = elim (db.set_item key value s.database1) [
    | throw error ↦ if quota error then ok s else throw error
    | ok written ↦ ok (make_place written s)
  ]

  -- What was found in the first and in the second database.
  unfoldable pub promote : String → Option V → Option V → Lru D → Result E (Option V × Lru D)
  unfolding update_databases
  promote key (some value) value2 s = ok (some value, s)
  promote key none none s = ok (none, s)
  promote key none (some value) s =
      update_databases key (some value) s >>= λ updated. ok (some value, updated)

  unfoldable pub get_item : String → Lru D → Result E (Option V × Lru D)
  unfolding promote
  get_item key s = promote key (db.get_item key s.database1) (db.get_item key s.database2) s

  unfoldable pub set_item : String → Option V → Lru D → Result E (Lru D)
  unfolding update_databases
  set_item key value s = elim (db.get_item key s.database1) [
    | none ↦ update_databases key value s
    | some old ↦
        db.set_item key value s.database1 >>= λ written. ok (record s { database1 = written })
  ]

  unfoldable pub remove_item : String → Lru D → Lru D
  remove_item key s = record s {
    database1 = db.remove_item key s.database1;
    database2 = db.remove_item key s.database2;
  }

  unfoldable pub clear : Lru D → Lru D
  clear s = record s { database1 = db.clear s.database1; database2 = db.clear s.database2 }

  abbrev pub without_repeats : List String → List String → List String
  without_repeats seen [] = seen
  without_repeats seen (key ∷ rest) = without_repeats (insert str_eq key seen) rest

  unfoldable pub keys : Lru D → List String
  keys s = without_repeats [] (db.keys s.database1 ++ db.keys s.database2)

  -- The value of a key without promoting it, as `entries` reads it.
  unfoldable pub peek : String → Lru D → Option V
  peek key s = elim (db.get_item key s.database1) [
    | some value ↦ some value
    | none ↦ db.get_item key s.database2
  ]

  unfoldable pub entries : Lru D → List (String × Option V)
  unfolding keys peek
  entries s = map (λ key. (key, peek key s)) (keys s)

-- `open_databases` opens the two databases of a name, and `instances` has what was made so far.
module _ {D V E : Type 0} (db : Database D V E) (open_databases : String → D × D) where
  unfoldable pub create_local_forage_instance : String → Option ℕ → Result OptionsError (Lru D × ℕ)
  unfolding choose_active
  create_local_forage_instance name none = throw size_not_number
  create_local_forage_instance name (some size) =
      ok (choose_active db size (open_databases name).0 (open_databases name).1, size)

  unfoldable pub create_instance :
      ForageOptions
      → List (String × (Lru D × ℕ))
      → Result OptionsError ((Lru D × ℕ) × List (String × (Lru D × ℕ)))
  unfolding create_local_forage_instance
  create_instance options instances = elim options.name [
    | none ↦ throw name_not_string
    | some name ↦ elim (lookup str_eq name instances) [
      | some instance ↦ ok (instance, instances)
      | none ↦ create_local_forage_instance name options.size >>= λ instance.
          ok (instance, assign str_eq name instance instances)
    ]
  ]
