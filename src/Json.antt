-- ===== src/Json.antt =====
-- Parsed JSON, for code that walks raw records: crosspost-depth.ts, validate-challenge-result.ts.
-- A string, number or boolean is `scalar` with its text, since that code looks only at shapes.
use pkc_js.Base.{String, Option, none, some, List, [], ◌∷◌, str_eq, if◌then◌else◌}

mutual
  pub data Json : Type 0 where
    null : Json
    scalar : String → Json
    arr : Items → Json
    obj : Fields → Json

  pub data Items : Type 0 where
    nil : Items
    cons : Json → Items → Items

  pub data Fields : Type 0 where
    end : Fields
    field : String → Json → Fields → Fields

-- `fields[key]`
unfoldable pub find : String → Fields → Option Json
find key end = none
find key (field k v fs) = if str_eq k key then some v else find key fs

-- `{ ...fields, [key]: value }`: an overwritten key keeps its place, a new one goes last.
unfoldable pub insert : String → Json → Fields → Fields
insert key value end = field key value end
insert key value (field k v fs) =
    if str_eq k key then field key value fs else field k v (insert key value fs)

-- `{ ...a, ...b }`
unfoldable pub spread : Fields → Fields → Fields
spread a end = a
spread a (field k v fs) = spread (insert k v a) fs

-- `Object.keys`, `Object.values`
abbrev pub keys : Fields → List String
keys end = []
keys (field k v fs) = k ∷ keys fs

abbrev pub values : Fields → List Json
values end = []
values (field k v fs) = v ∷ values fs

abbrev pub elements : Items → List Json
elements nil = []
elements (cons v vs) = v ∷ elements vs
