-- ===== src/Updater/Json/Subset.antt =====
-- What a document that passes the comparison has at each path of keys.
use doupro.Base.{
  Bool, true, false, ◌≡◌, refl, Option, none, some, List, [], ◌∷◌, Text, text_eq, text_eq_iff,
  arith, Bool-cases, Option-cases, inl, inr,
}
use doupro.Updater.Json.{
  Json, Fields, null, bool, number, string, array, object, end_fields, field, get, deep_equal,
  compare_json_subset, fields_subset,
}

-- The value at a path of keys, through objects only.
abbrev pub at : List Text → Json → Option Json
at [] j = some j
at (k ∷ ks) (object fs) = elim (get k fs) [ none ↦ none | some j ↦ at ks j ]
at (k ∷ ks) _ = none

abbrev pub is_object : Json → Bool
is_object (object fs) = true
is_object _ = false

fields_subset-get :
    (fs gs : Fields) (k : Text) (v : Json)
    → fields_subset fs gs ≡ true
    → get k fs ≡ some v
    → (w : Json) × (get k gs ≡ some w) × (compare_json_subset v w ≡ true)
unfolding compare_json_subset
fields_subset-get end_fields gs k v h e = cc
fields_subset-get (field j u fs) gs k v h e = elim (Option-cases (get j gs)) [
  | inl missing ↦ absurd (ground arith)
  | inr (w, found) ↦ elim (Bool-cases (text_eq j k)) [
    | inl here ↦ (w, ground (arith, text_eq_iff j k), ground arith)
    | inr there ↦ fields_subset-get fs gs k v (ground arith) (ground arith)
  ]
]

leaf :
    (want got : Json)
    → is_object want ≡ false
    → compare_json_subset want got ≡ true
    → deep_equal want got ≡ true
unfolding compare_json_subset
leaf (object fs) got n h = cc
leaf null got n h = h
leaf (bool a) got n h = h
leaf (number a) got n h = h
leaf (string a) got n h = h
leaf (array xs) got n h = h

object_only :
    (fs : Fields) (got : Json)
    → compare_json_subset (object fs) got ≡ true
    → (gs : Fields) × (got ≡ object gs) × (fields_subset fs gs ≡ true)
unfolding compare_json_subset
object_only fs (object gs) h = (gs, refl, h)
object_only fs null h = cc
object_only fs (bool a) h = cc
object_only fs (number a) h = cc
object_only fs (string a) h = cc
object_only fs (array xs) h = cc

at-cons :
    (k : Text) (ks : List Text) (want v : Json)
    → at (k ∷ ks) want ≡ some v
    → (fs : Fields) × (want ≡ object fs) × (u : Json) × (get k fs ≡ some u) × (at ks u ≡ some v)
at-cons k ks (object fs) v e = elim (Option-cases (get k fs)) [
  | inl missing ↦ absurd (ground arith)
  | inr (u, found) ↦ (fs, refl, u, found, ground arith)
]
at-cons k ks null v e = cc
at-cons k ks (bool a) v e = cc
at-cons k ks (number a) v e = cc
at-cons k ks (string a) v e = cc
at-cons k ks (array xs) v e = cc

-- A document that passes the comparison holds, at every path of keys at which the wanted one holds a
-- value that is no object, an equal value.
pub compare_json_subset-at :
    (path : List Text) (want got v : Json)
    → compare_json_subset want got ≡ true
    → at path want ≡ some v
    → is_object v ≡ false
    → (w : Json) × (at path got ≡ some w) × (deep_equal v w ≡ true)
compare_json_subset-at [] want got v h e n = (got, refl, ground (arith, leaf want got))
compare_json_subset-at (k ∷ ks) want got v h e n =
    let (fs, is_fs, u, of_u, deeper) = at-cons k ks want v e in
    let (gs, is_gs, sub) = object_only fs got (ground arith) in
    let (w, of_w, below) = fields_subset-get fs gs k u sub of_u in
    let (x, of_x, same_) = compare_json_subset-at ks u w v below deeper n in
    (x, ground arith, same_)
