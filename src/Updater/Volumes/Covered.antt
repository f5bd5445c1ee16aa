-- ===== src/Updater/Volumes/Covered.antt =====
-- Which directories the mounts, binds and tmpfs of a host configuration cover.
use doupro.Base.{
  has_char, IsOneOf, true, false, ◌≡◌, ◌↔◌, ◌⊎◌, inl, inr, refl, List, [], ◌∷◌, ◌++◌, Text, text_eq,
  text_eq_iff, text_eq_refl, includes, arith, ap, sym, ◌∙◌, subst, ℕ, ◌==◌, Bool-cases,
}
use doupro.Web.Csv.{split}
use doupro.Updater.Volumes.{Mount, HostConfig, covered, targets, bind_targets, second_of}

-- The text begins with this part, and then ends or has the separator.
abbrev pub IsFirst : ℕ → Text → Text → Type 0
IsFirst d y t = (has_char d y ≡ false) × ((t ≡ y) ⊎ ((rest : Text) × (t ≡ y ++ (d ∷ rest))))

-- A bind `source:directory` or `source:directory:options`.
abbrev BindsTo : Text → Text → Type 0
BindsTo directory bind =
    (source : Text) × (behind : Text) × (has_char b':' source ≡ false)
    × (bind ≡ source ++ (b':' ∷ behind))
    × IsFirst b':' directory behind

-- Something of the host configuration is mounted at the directory.
abbrev pub IsCovered : HostConfig → Text → Type 0
IsCovered host directory =
    ((m : Mount) × IsOneOf host.mounts m × (m.target ≡ directory))
    ⊎ ((bind : Text) × IsOneOf host.binds bind × BindsTo directory bind)
    ⊎ IsOneOf host.tmpfs directory

split-whole : (d : ℕ) (s : Text) → has_char d s ≡ false → split d s ≡ s ∷ []
unfolding split
split-whole d [] h = refl
split-whole d (c ∷ s) h = ground (arith, split-whole d s)

split-append : (d : ℕ) (s t : Text) → has_char d s ≡ false → split d (s ++ (d ∷ t)) ≡ s ∷ split d t
unfolding split
split-append d [] t h = ground arith
split-append d (c ∷ s) t h = ground (arith, split-append d s t)

-- A text has no separator, or a first one.
cut :
    (d : ℕ) (t : Text)
    → (has_char d t ≡ false)
      ⊎ ((s : Text) × (rest : Text) × (has_char d s ≡ false) × (t ≡ s ++ (d ∷ rest)))
cut d [] = inl refl
cut d (c ∷ t) = elim (Bool-cases (c == d)) [
  | inl here ↦ inr ([], t, refl, ground arith)
  | inr on ↦ elim (cut d t) [
    | inl no_ ↦ inl (ground arith)
    | inr (s, rest, h, e) ↦ inr (c ∷ s, rest, ground arith, ap (λ u. c ∷ u) e)
  ]
]

IsFirst-found :
    (d : ℕ) (t : Text) → (y : Text) × (ys : List Text) × (split d t ≡ y ∷ ys) × IsFirst d y t
IsFirst-found d t = elim (cut d t) [
  | inl no_ ↦ (t, [], split-whole d t no_, (no_, inl refl))
  | inr (s, rest, h, e) ↦
      (s, split d rest, ap (split d) e ∙ split-append d s rest h, (h, inr (rest, e)))
]

first_split : (d : ℕ) (y t : Text) → IsFirst d y t → (ys : List Text) × (split d t ≡ y ∷ ys)
first_split d y t (h, inl e) = ([], ap (split d) e ∙ split-whole d y h)
first_split d y t (h, inr (rest, e)) = (split d rest, ap (split d) e ∙ split-append d y rest h)

bind_sound :
    (directory bind : Text)
    → includes (second_of (split b':' bind)) directory ≡ true
    → BindsTo directory bind
bind_sound directory bind h = elim (cut b':' bind) [
  | inl no_ ↦ absurd (ground (arith, split-whole b':' bind no_))
  | inr (s, rest, plain, e) ↦
      let (y, ys, is_split, first) = IsFirst-found b':' rest in
      let parts : split b':' bind ≡ s ∷ y ∷ ys =
        ap (split b':') e ∙ split-append b':' s rest plain ∙ ap (λ l. s ∷ l) is_split in
      let same : y ≡ directory = ground (arith, text_eq_iff y directory) in
      (s, rest, plain, e, subst (λ k. IsFirst b':' k rest) same first)
]

bind_complete :
    (directory bind : Text)
    → BindsTo directory bind
    → includes (second_of (split b':' bind)) directory ≡ true
bind_complete directory bind (s, rest, plain, e, first) =
    let (ys, is_split) = first_split b':' directory rest first in
    let parts : split b':' bind ≡ s ∷ directory ∷ ys =
      ap (split b':') e ∙ split-append b':' s rest plain ∙ ap (λ l. s ∷ l) is_split in
    rw parts (rw (text_eq_refl directory) refl)

includes-append :
    (xs ys : List Text) (s : Text)
    → (includes (xs ++ ys) s ≡ true) ↔ ((includes xs s ≡ true) ⊎ (includes ys s ≡ true))
includes-append [] ys s = (λ h. inr h, λ h. ground arith)
includes-append (x ∷ xs) ys s =
    let (there, back) = includes-append xs ys s in
    elim (Bool-cases (text_eq x s)) [
      | inl e ↦ rw e ((λ h. inl refl), (λ h. refl))
      | inr e ↦ rw e (there, back)
    ]

includes_iff : (xs : List Text) (s : Text) → (includes xs s ≡ true) ↔ IsOneOf xs s
includes_iff [] s = (λ h. absurd (ground arith), λ h. absurd h)
includes_iff (x ∷ xs) s =
    let (there, back) = includes_iff xs s in
    (
      λ h. elim (Bool-cases (text_eq x s)) [
        | inl e ↦ inl (sym ((text_eq_iff x s).0 e))
        | inr e ↦ inr (there (ground arith))
      ],
      λ h. elim h [
        | inl e ↦ rw ((text_eq_iff x s).1 (sym e)) refl
        | inr l ↦ let at_ = back l in ground arith
      ],
    )

targets_iff :
    (ms : List Mount) (s : Text)
    → (includes (targets ms) s ≡ true) ↔ ((m : Mount) × IsOneOf ms m × (m.target ≡ s))
targets_iff [] s = (λ h. absurd (ground arith), λ (m, l, e). absurd l)
targets_iff (n ∷ ms) s =
    let (there, back) = targets_iff ms s in
    (
      λ h. elim (Bool-cases (text_eq n.target s)) [
        | inl e ↦ (n, inl refl, (text_eq_iff n.target s).0 e)
        | inr e ↦ let (m, l, is_s) = there (ground arith) in (m, inr l, is_s)
      ],
      λ (m, l, e). elim l [
        | inl same ↦
            rw ((text_eq_iff n.target s).1 (ap (λ (k : Mount). k.target) (sym same) ∙ e)) refl
        | inr r ↦ let at_ = back (m, r, e) in ground arith
      ],
    )

binds_iff :
    (bs : List Text) (s : Text)
    → (includes (bind_targets bs) s ≡ true) ↔ ((b : Text) × IsOneOf bs b × BindsTo s b)
unfolding split
binds_iff [] s = (λ h. absurd (ground arith), λ (b, l, e). absurd l)
binds_iff (c ∷ bs) s =
    let (there, back) = binds_iff bs s in
    let (apart, joined) = includes-append (second_of (split b':' c)) (bind_targets bs) s in
    (
      λ h. elim (apart h) [
        | inl e ↦ (c, inl refl, bind_sound s c e)
        | inr e ↦ let (b, l, binds) = there e in (b, inr l, binds)
      ],
      λ (b, l, e). elim l [
        | inl same ↦ joined (inl (bind_complete s c (subst (BindsTo s) same e)))
        | inr r ↦ joined (inr (back (b, r, e)))
      ],
    )

pub covered_iff :
    (host : HostConfig) (s : Text) → (includes (covered host) s ≡ true) ↔ IsCovered host s
unfolding covered
covered_iff host s =
    let (apart, joined) =
      includes-append (targets host.mounts) (bind_targets host.binds ++ host.tmpfs) s in
    let (apart1, joined1) = includes-append (bind_targets host.binds) host.tmpfs s in
    (
      λ h. elim (apart h) [
        | inl e ↦ inl ((targets_iff host.mounts s).0 e)
        | inr e ↦ elim (apart1 e) [
          | inl l ↦ inr (inl ((binds_iff host.binds s).0 l))
          | inr r ↦ inr (inr ((includes_iff host.tmpfs s).0 r))
        ]
      ],
      λ h. elim h [
        | inl e ↦ joined (inl ((targets_iff host.mounts s).1 e))
        | inr (inl l) ↦ joined (inr (joined1 (inl ((binds_iff host.binds s).1 l))))
        | inr (inr r) ↦ joined (inr (joined1 (inr ((includes_iff host.tmpfs s).1 r))))
      ],
    )
