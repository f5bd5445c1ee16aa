-- ===== src/Updater/Update/Guarded.antt =====
-- What an update does to the guard.
use doupro.Base.{
  ◌≡◌, refl, none, some, ◌∷◌, Text, codes, text_eq, text_eq_iff, arith, Bool-cases, Option-cases,
  inl, inr, ◌⊎◌,
}
use doupro.Updater.Guard.{OperationGuard, Refusal, lookup, begin, begin_operation, end}
use doupro.Updater.Guard.Exclusion.{lookup-erase-none, lookup-erase_ne}
use doupro.Updater.Update.{World, Surroundings, update, read_row, name_of}

refused_same :
    (name kind : Text) (g : OperationGuard) (e : Refusal)
    → (begin_operation name kind g).0 ≡ some e
    → (begin_operation name kind g).1 ≡ g
unfolding begin_operation begin
refused_same name kind g e h = ground arith

begun_before :
    (name kind : Text) (g : OperationGuard)
    → (begin_operation name kind g).0 ≡ none
    → (lookup name g.active ≡ none)
      × ((begin_operation name kind g).1 ≡ record g { active = (name, kind) ∷ g.active })
unfolding begin_operation begin
begun_before name kind g h = ground arith

released :
    (name kind k : Text) (g : OperationGuard)
    → lookup name g.active ≡ none
    → lookup k (end name (record g { active = (name, kind) ∷ g.active })).active ≡ lookup k g.active
unfolding end
released name kind k g h = elim (Bool-cases (text_eq name k)) [
  | inl same ↦
      ground (arith, text_eq_iff name k, text_eq_iff name name, lookup-erase-none name k g.active)
  | inr other ↦
      ground (arith, text_eq_iff name k, text_eq_iff name name, lookup-erase_ne name k g.active)
]

end_same : (name : Text) (g : OperationGuard) → (end name g).maintenance ≡ g.maintenance
unfolding end
end_same name g = refl

module _ (x : Surroundings) where
  -- However an update ends, refused, failed or successful, afterwards the guard holds for each container
  -- the operation that it held before, and is under maintenance if it was; a refused update changed
  -- nothing else either.
  pub update_releases :
      (id target k : Text) (g : OperationGuard) (w : World)
      → (lookup k (update x id target g w).1.active ≡ lookup k g.active)
        × ((update x id target g w).1.maintenance ≡ g.maintenance)
        × (((begin_operation (name_of x id (read_row x id w)) (codes "update") g).0 ≡ none)
            ⊎ ((update x id target g w).2 ≡ w))
  unfolding update
  update_releases id target k g w =
      let name = name_of x id (read_row x id w) in
      elim (Option-cases (begin_operation name (codes "update") g).0) [
        | inl begun ↦
            let (free, is_begun) = begun_before name (codes "update") g begun in
            ground (
              arith,
              is_begun,
              released name (codes "update") k g free,
              end_same name (record g { active = (name, codes "update") ∷ g.active }),
            )
        | inr (e, bad) ↦ ground (arith, refused_same name (codes "update") g e)
      ]
