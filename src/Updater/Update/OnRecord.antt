-- ===== src/Updater/Update/OnRecord.antt =====
-- What an update and a revert take from the row on record: the reference and the previous image.
use doupro.Base.{
  true, false, ◌≡◌, ◌≢◌, refl, none, some, [], Text, text_eq, text_eq_iff, arith, Bool-cases,
  Option-cases, subst, sym, ap, inl, inr, ◌⊎◌,
}
use doupro.Store.Containers.{ContainerRecord, get_container}
use doupro.Updater.Update.{
  World, Surroundings, is_digest_reference, stable_image_reference, stable_of, read_row,
  previous_of,
}

module _ (x : Surroundings) where
  open x use {reads}

  -- The previous image is the one on record, or none if the row cannot be read or is not there.
  abbrev pub KeepsPrevious : Text → World → Text → Type 0
  KeepsPrevious id u previous =
      ((q : ContainerRecord) × (reads u ≡ true)
        × (get_container id u.rows ≡ some q)
        × (previous ≡ q.previous_image))
      ⊎ (((reads u ≡ false) ⊎ (get_container id u.rows ≡ none)) × (previous ≡ []))

  pub previous_of-KeepsPrevious :
      (id : Text) (u : World) → KeepsPrevious id u (previous_of x (read_row x id u))
  previous_of-KeepsPrevious id u = elim (Bool-cases (reads u)) [
    | inr bad ↦ inr (inl bad, rw bad refl)
    | inl ok_ ↦ elim (Option-cases (get_container id u.rows)) [
      | inl e ↦ inr (inr e, rw ok_ (rw e refl))
      | inr (q, e) ↦ inl (q, ok_, e, rw ok_ (rw e refl))
    ]
  ]

  -- A reference that is not a digest.
  abbrev IsStable : Text → Type 0
  IsStable image = (image ≢ []) × (is_digest_reference x image ≡ false)

  -- The reference is the one on record, which is stable, in place of a digest; or it is the image
  -- itself, as it is no digest, or as the row cannot be read, is not there, or has no stable one.
  abbrev pub KeepsReference : Text → Text → World → Text → Type 0
  KeepsReference id image u current =
      ((q : ContainerRecord) × (reads u ≡ true)
        × (get_container id u.rows ≡ some q)
        × (is_digest_reference x image ≡ true)
        × IsStable q.current_image
        × (current ≡ q.current_image))
      ⊎ (((is_digest_reference x image ≡ false)
            ⊎ (reads u ≡ false)
            ⊎ (get_container id u.rows ≡ none)
            ⊎ ((q : ContainerRecord) × (get_container id u.rows ≡ some q)
                × ((q.current_image ≡ []) ⊎ (is_digest_reference x q.current_image ≡ true))))
          × (current ≡ image))

  found-KeepsReference :
      (id image : Text) (u : World) (q : ContainerRecord)
      → reads u ≡ true
      → get_container id u.rows ≡ some q
      → KeepsReference id image u (stable_image_reference x image q.current_image)
  found-KeepsReference id image u q ok_ e = elim (Bool-cases (is_digest_reference x image)) [
    | inr tag ↦ inr (inl tag, rw tag refl)
    | inl digest ↦ elim (Bool-cases (text_eq q.current_image [])) [
      | inl none_ ↦ inr (
        inr (inr (inr (q, e, inl ((text_eq_iff q.current_image []).0 none_)))),
        rw digest (rw none_ refl),
      )
      | inr given ↦ elim (Bool-cases (is_digest_reference x q.current_image)) [
        | inl other ↦ inr (inr (inr (inr (q, e, inr other))), rw digest (rw given (rw other refl)))
        | inr stable ↦ inl (
          q,
          ok_,
          e,
          digest,
          (λ i. ground (arith, (text_eq_iff q.current_image []).1 i), stable),
          rw digest (rw given (rw stable refl)),
        )
      ]
    ]
  ]

  pub stable_of-KeepsReference :
      (id image : Text) (u : World)
      → KeepsReference id image u (stable_of x image (read_row x id u))
  stable_of-KeepsReference id image u = elim (Bool-cases (reads u)) [
    | inr bad ↦ inr (inr (inl bad), rw bad refl)
    | inl ok_ ↦ elim (Option-cases (get_container id u.rows)) [
      | inl e ↦ inr (inr (inr (inl e)), rw ok_ (rw e refl))
      | inr (q, e) ↦
          let row : read_row x id u ≡ some q = rw ok_ e in
          subst (KeepsReference id image u) (ap (stable_of x image) (sym row))
            (found-KeepsReference id image u q ok_ e)
    ]
  ]
