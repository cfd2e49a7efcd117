-- ===== src/LocalForageLru/Contract.antt =====
-- What src/runtime/browser/localforage-lru.ts relies on in the localforage package: a write that is
-- not rejected, a removal and a clearing do what they say, and nothing else.
use pkc_js.Base.{suc, ◌≤◌, ◌≡◌, String, Option, none, ok, if◌then◌else◌, str_eq}
use pkc_js.LocalForageLru.{Database}

pub record IsLawful {D V E : Type 0} (db : Database D V E) : Type 0 where
  pub get-set :
      (key l : String) (value : Option V) (d written : D)
      → db.set_item key value d ≡ ok written
      → db.get_item l written ≡ (if str_eq key l then value else db.get_item l d)
  pub get-remove :
      (key l : String) (d : D)
      → db.get_item l (db.remove_item key d) ≡ (if str_eq key l then none else db.get_item l d)
  pub get-clear : (l : String) (d : D) → db.get_item l (db.clear d) ≡ none
  pub length-set :
      (key : String) (value : Option V) (d written : D)
      → db.set_item key value d ≡ ok written
      → db.length_of written ≤ suc (db.length_of d)
  pub length-overwrite :
      (key : String) (value : Option V) (d written : D)
      → (db.get_item key d ≡ none → ⊥)
      → db.set_item key value d ≡ ok written
      → db.length_of written ≤ db.length_of d
  pub length-remove : (key : String) (d : D) → db.length_of (db.remove_item key d) ≤ db.length_of d
  pub length-clear : (d : D) → db.length_of (db.clear d) ≡ 0
