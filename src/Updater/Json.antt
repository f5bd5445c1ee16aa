-- ===== src/Updater/Json.antt =====
-- `compareJSONSubset` of internal/updater/recreate.go, on what `json.Unmarshal` makes of a document.
-- An object is a Go map: a list of fields, of which the first with a key counts.
pub mod Subset
use doupro.Base.{Bool, true, false, ◌&&◌, Option, none, some, Text, text_eq, ◌==◌, ℕ, suc, ◌+◌}

mutual
  pub data Json : Type 0 where
    null : Json
    bool : Bool → Json
    number string : Text → Json
    array : Items → Json
    object : Fields → Json

  pub data Items : Type 0 where
    end_items : Items
    item : Json → Items → Items

  pub data Fields : Type 0 where
    end_fields : Fields
    field : Text → Json → Fields → Fields

abbrev pub get : Text → Fields → Option Json
get key end_fields = none
get key (field k v fs) =
    let rest = get key fs in elim (text_eq k key) [ true ↦ some v | false ↦ rest ]

abbrev pub same : Bool → Bool → Bool
same true b = b
same false true = false
same false false = true

abbrev pub size : Fields → ℕ
size end_fields = 0
size (field k v fs) = suc (size fs)

-- `reflect.DeepEqual`; two objects are equal if they are of one size and each field of the first is
-- one of the second, as the keys of a map differ.
unfoldable mutual
  pub deep_equal : Json → Json → Bool
  deep_equal null null = true
  deep_equal (bool a) (bool b) = same a b
  deep_equal (number a) (number b) = text_eq a b
  deep_equal (string a) (string b) = text_eq a b
  deep_equal (array xs) (array ys) = items_equal xs ys
  deep_equal (object fs) (object gs) = size fs == size gs && fields_equal fs gs
  deep_equal _ _ = false

  pub items_equal : Items → Items → Bool
  items_equal end_items end_items = true
  items_equal (item x xs) (item y ys) = deep_equal x y && items_equal xs ys
  items_equal _ _ = false

  pub fields_equal : Fields → Fields → Bool
  fields_equal end_fields gs = true
  fields_equal (field k v fs) gs =
      elim (get k gs) [ none ↦ false | some w ↦ deep_equal v w ] && fields_equal fs gs

-- Whether `compareJSONSubset` returns no error.
unfoldable mutual
  pub compare_json_subset : Json → Json → Bool
  compare_json_subset (object fs) (object gs) = fields_subset fs gs
  compare_json_subset (object fs) _ = false
  compare_json_subset want got = deep_equal want got

  pub fields_subset : Fields → Fields → Bool
  fields_subset end_fields gs = true
  fields_subset (field k v fs) gs =
      elim (get k gs) [ none ↦ false | some w ↦ compare_json_subset v w ] && fields_subset fs gs
