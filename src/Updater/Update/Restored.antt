-- ===== src/Updater/Update/Restored.antt =====
-- What a failed update, or a failed rollback, leaves in the store.
use doupro.Base.{
  false, ◌≡◌, ◌≢◌, refl, Option, none, some, Text, arith, Bool-cases, inl, inr, ◌⊎◌, sym, ◌∙◌, ap,
}
use doupro.Store.Containers.{replace_container}
use doupro.Updater.Validate.{Inspection}
use doupro.Updater.Recreate.{RecreateError, RecreationResult, trim_slash}
use doupro.Updater.Update.{
  World, Surroundings, UpdateError, Cause, stable_of, read_row, previous_of, revert, revert_end,
  recreated, reverted, replace, fail_before_removal,
}
use doupro.Updater.Update.OnRecord.{
  KeepsPrevious, KeepsReference, previous_of-KeepsPrevious, stable_of-KeepsReference,
}

module _ (x : Surroundings) where
  open x use {engine, stores, reads}

  fail_keeps :
      (original : Text) (r : RecreationResult) (c : RecreateError) (w : World)
      → ((fail_before_removal x original r c w).1.rows ≡ w.rows)
        × ((fail_before_removal x original r c w).1.watches ≡ w.watches)
  unfolding fail_before_removal
  fail_keeps original r c w = ground arith

  -- The revert recreated the container in place of `live`, from the reference in its configuration,
  -- and its row replaces that of `id`: it has the new ID and state, the old name, that
  -- reference, or the one on record in place of a digest, and the previous image on record.
  abbrev IsReverted : Text → Text → Inspection → World → World → Type 0
  IsReverted id live before w w' =
      (u0 : World) × (u : World) × (r : RecreationResult) × (current : Text) × (previous : Text)
      × (recreated x live before before.config.image u0 ≡ ((none, r), u))
      × (u.rows ≡ w.rows)
      × (w'.log ≡ u.log)
      × KeepsReference x id before.config.image u current
      × KeepsPrevious x id u previous
      × (w'.rows
          ≡ replace_container id
              (record {
                id = r.id;
                name = trim_slash before.name;
                state = r.state;
                current_image = current;
                previous_image = previous;
                update_available = false;
              })
              w.rows)

  -- The rows after a failed update or rollback, by the error: as before, but that those of a
  -- container that was reverted have its new row.
  abbrev IsRestored : Text → Text → Inspection → UpdateError → World → World → Type 0
  IsRestored id live before e w w' =
      ((w'.rows ≡ w.rows) × ((c : Cause) → e ≢ reverted c))
      ⊎ ((c : Cause) × (e ≡ reverted c) × IsReverted id live before w w')

  -- What is left of the two tables.
  abbrev pub IsUndone : Text → Text → Inspection → UpdateError → World → World → Type 0
  IsUndone id live before e w w' = IsRestored id live before e w w' × (w'.watches ≡ w.watches)

  revert_end-IsUndone :
      (id live : Text) (before : Inspection) (c : Cause) (err : Option RecreateError)
      (r : RecreationResult) (u0 u w' : World) (e : UpdateError)
      → recreated x live before before.config.image u0 ≡ ((err, r), u)
      → revert_end x id before c err r u ≡ (some e, w')
      → IsUndone id live before e u w'
  revert_end-IsUndone id live before c (some f) r u0 u w' e from_ h =
      (inl (ground arith, λ d i. ground arith), ground arith)
  revert_end-IsUndone id live before c none r u0 u w' e from_ h =
      let stored = read_row x id u in
      elim (Bool-cases (stores u replace)) [
        | inl ok_ ↦ (
          inr (
            c,
            ground arith,
            (
              u0,
              u,
              r,
              stable_of x before.config.image stored,
              previous_of x stored,
              from_,
              refl,
              ground arith,
              stable_of-KeepsReference x id before.config.image u,
              previous_of-KeepsPrevious x id u,
              ground arith,
            ),
          ),
          ground arith,
        )
        | inr bad ↦ (inl (ground arith, λ d i. ground arith), ground arith)
      ]

  pub revert-IsUndone :
      (id live : Text) (before : Inspection) (c : Cause) (w w' : World) (e : UpdateError)
      → revert x id live before c w ≡ (some e, w')
      → IsUndone id live before e w w'
  unfolding revert
  revert-IsUndone id live before c w w' e h =
      let ((err, r), w1) = recreated x live before before.config.image w in
      revert_end-IsUndone id live before c err r w w1 w' e refl h

  not_a_revert :
      (id : Text) (r : RecreationResult) (c : RecreateError) (w w' : World) (e : UpdateError)
      → fail_before_removal x id r c w ≡ (some e, w')
      → (d : Cause) → e ≢ reverted d
  unfolding fail_before_removal
  not_a_revert id r c w w' e h d i = ground arith

  pub fail-IsUndone :
      (id live : Text) (before : Inspection) (r : RecreationResult) (c : RecreateError)
      (w w' : World) (e : UpdateError)
      → fail_before_removal x id r c w ≡ (some e, w')
      → IsUndone id live before e w w'
  fail-IsUndone id live before r c w w' e h =
      let (rows, watches) = fail_keeps id r c w in
      let end_ : w' ≡ (fail_before_removal x id r c w).1 = λ i. (sym h i).1 in
      (
        inl (ap (λ (u : World). u.rows) end_ ∙ rows, not_a_revert id r c w w' e h),
        ap (λ (u : World). u.watches) end_ ∙ watches,
      )

  IsReverted-from :
      (id live : Text) (before : Inspection) (w w1 w' : World)
      → w1.rows ≡ w.rows
      → IsReverted id live before w1 w'
      → IsReverted id live before w w'
  IsReverted-from id live before w w1 w' rows
        (u0, u, r, current, previous, from_, given, calls, stays, keeps, put) =
      (
        u0,
        u,
        r,
        current,
        previous,
        from_,
        given ∙ rows,
        calls,
        stays,
        keeps,
        put ∙ ap (replace_container id _) rows,
      )

  pub IsUndone-from :
      (id live : Text) (before : Inspection) (e : UpdateError) (w w1 w' : World)
      → w1.rows ≡ w.rows
      → w1.watches ≡ w.watches
      → IsUndone id live before e w1 w'
      → IsUndone id live before e w w'
  IsUndone-from id live before e w w1 w' rows watches (restored, kept) = (
    elim restored [
      | inl (same, no_) ↦ inl (same ∙ rows, no_)
      | inr (c, is_c, back) ↦ inr (c, is_c, IsReverted-from id live before w w1 w' rows back)
    ],
    kept ∙ watches,
  )
