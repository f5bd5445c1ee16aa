-- ===== src/Registry/Ref/Replaced.antt =====
-- A reference whose tag is replaced.
use doupro.Base.{
  Bool, true, false, not, ◌≡◌, refl, sym, ap, subst, ◌∙◌, inl, inr, ◌||◌, ◌++◌, Option, none, some,
  [], ◌∷◌, ℕ, Text, codes, text_eq, text_eq_iff, strip_prefix, has_char, arith, Bool-cases,
}
use doupro.Registry.Ref.{
  Ref, split_first, split_last, hub, is_host, registry_part, tag_part, canonical, qualified, ref_of,
  parse_ref, shortened, replace_tag,
}
use doupro.Registry.Ref.Parts.{
  has-append, split_first-none, split_first-missing, split_first-before, split_first-at,
  split_first-append, split_last-at, strip_prefix-back, append_assoc,
}

-- The tag has no character that ends another part.
abbrev pub IsPlain : Text → Type 0
IsPlain tag = (has_char b'/' tag ≡ false) × (has_char b':' tag ≡ false)

-- A remainder and a tag are told apart again.
ref_of-tagged :
    (registry repo tag : Text)
    → IsPlain tag
    → ref_of registry (repo ++ (b':' ∷ tag)) ≡ record {
      registry = canonical registry;
      repository = qualified (canonical registry) repo;
      tag = tag;
    }
ref_of-tagged registry repo tag (_, plain) = rw (split_last-at b':' repo tag plain) refl

tagged_slash : (s tag : Text) → IsPlain tag → has_char b'/' (s ++ (b':' ∷ tag)) ≡ has_char b'/' s
tagged_slash s tag (plain, _) = ground (arith, has-append b'/' s (b':' ∷ tag))

abbrev first_is_host : Option (Text × Text) → Bool
first_is_host none = false
first_is_host (some (first, rest)) = is_host first

-- A reference of another registry than the Hub.
abbrev IsElsewhere : Ref → Type 0
IsElsewhere r =
    (text_eq r.registry hub ≡ false)
    × (canonical r.registry ≡ r.registry)
    × (is_host r.registry ≡ true)
    × (has_char b'/' r.registry ≡ false)

elsewhere-Replaced :
    (r : Ref) (tag : Text)
    → IsPlain tag
    → IsElsewhere r
    → parse_ref (replace_tag r tag) ≡ record r { tag = tag }
unfolding parse_ref replace_tag
elsewhere-Replaced r tag plain (other, same, host, slashless) = rw other (
    rw (append_assoc r.registry (b'/' ∷ r.repository) (b':' ∷ tag)) (
      rw (split_first-at b'/' r.registry (r.repository ++ (b':' ∷ tag)) slashless)
        (rw host (ref_of-tagged r.registry r.repository tag plain ∙ rw same (rw other refl)))))

hub_repository :
    (repo tag : Text)
    → IsPlain tag
    → first_is_host (split_first b'/' (repo ++ (b':' ∷ tag))) ≡ false
    → parse_ref (repo ++ (b':' ∷ tag))
      ≡ record { registry = hub; repository = qualified hub repo; tag = tag }
unfolding parse_ref
hub_repository repo tag plain h =
    go (split_first b'/' (repo ++ (b':' ∷ tag))) h ∙ ref_of-tagged hub repo tag plain
  where
    go :
        (found : Option (Text × Text))
        → first_is_host found ≡ false
        → (let (registry, remainder) = registry_part found (repo ++ (b':' ∷ tag)) in
            ref_of registry remainder)
          ≡ ref_of hub (repo ++ (b':' ∷ tag))
    go none k = refl
    go (some (first, rest)) k = rw k refl

official-Replaced :
    (c : ℕ) (x old tag : Text)
    → IsPlain tag
    → has_char b'/' (c ∷ x) ≡ false
    → parse_ref (
        replace_tag
          (record { registry = hub; repository = codes "library/" ++ (c ∷ x); tag = old })
          tag)
      ≡ record { registry = hub; repository = codes "library/" ++ (c ∷ x); tag = tag }
unfolding replace_tag
official-Replaced c x old tag plain h =
    let none_found =
      split_first-none b'/' ((c ∷ x) ++ (b':' ∷ tag)) (tagged_slash (c ∷ x) tag plain ∙ h) in
    hub_repository (c ∷ x) tag plain (ap first_is_host none_found) ∙ rw h refl

owned-Replaced :
    (repo old tag : Text)
    → IsPlain tag
    → has_char b'/' repo ≡ true
    → shortened (strip_prefix (codes "library/") repo) repo ≡ repo
    → first_is_host (split_first b'/' repo) ≡ false
    → parse_ref (replace_tag (record { registry = hub; repository = repo; tag = old }) tag)
      ≡ record { registry = hub; repository = repo; tag = tag }
unfolding replace_tag
owned-Replaced repo old tag plain slash same h =
    ap (λ p. parse_ref (p ++ (b':' ∷ tag))) same
    ∙ (hub_repository repo tag plain (go (split_first b'/' repo) refl h) ∙ rw slash refl)
  where
    go :
        (found : Option (Text × Text))
        → split_first b'/' repo ≡ found
        → first_is_host found ≡ false
        → first_is_host (split_first b'/' (repo ++ (b':' ∷ tag))) ≡ false
    go none e k = absurd (ground (arith, split_first-missing b'/' repo))
    go (some (first, rest)) e k =
        ap first_is_host (split_first-append b'/' repo (b':' ∷ tag) first rest e) ∙ k

-- A repository of the Hub that Docker's own client would name so: `library` holds no nested one, and the
-- first part of another does not look like a registry.
abbrev is_usual_repository : Option Text → Text → Bool
is_usual_repository (some (c ∷ x)) repo = not (has_char b'/' (c ∷ x))
is_usual_repository _ repo = not (first_is_host (split_first b'/' repo))

abbrev pub is_usual : Ref → Bool
is_usual r =
    not (text_eq r.registry hub)
    || is_usual_repository (strip_prefix (codes "library/") r.repository) r.repository

qualified-slash : (repo : Text) → has_char b'/' (qualified hub repo) ≡ true
qualified-slash repo = elim (Bool-cases (has_char b'/' repo)) [ inl h ↦ rw h h | inr h ↦ rw h refl ]

parse_ref-IsElsewhere :
    (image : Text) → text_eq (parse_ref image).registry hub ≡ false → IsElsewhere (parse_ref image)
unfolding parse_ref
parse_ref-IsElsewhere image h = go (split_first b'/' image) refl h
  where
    part : Option (Text × Text) → Ref
    part found = let (registry, remainder) = registry_part found image in ref_of registry remainder

    go :
        (found : Option (Text × Text))
        → split_first b'/' image ≡ found
        → text_eq (part found).registry hub ≡ false
        → IsElsewhere (part found)
    go none e k = absurd (ground arith)
    go (some (first, rest)) e k =
        let slashless = split_first-before b'/' image first rest e in ground (arith, slashless)

hub-Replaced :
    (repo old tag : Text)
    → IsPlain tag
    → has_char b'/' repo ≡ true
    → is_usual_repository (strip_prefix (codes "library/") repo) repo ≡ true
    → parse_ref (replace_tag (record { registry = hub; repository = repo; tag = old }) tag)
      ≡ record { registry = hub; repository = repo; tag = tag }
hub-Replaced repo old tag plain slash usual = go (strip_prefix (codes "library/") repo) refl usual
  where
    go :
        (found : Option Text)
        → strip_prefix (codes "library/") repo ≡ found
        → is_usual_repository found repo ≡ true
        → parse_ref (replace_tag (record { registry = hub; repository = repo; tag = old }) tag)
          ≡ record { registry = hub; repository = repo; tag = tag }
    go none e k =
        owned-Replaced repo old tag plain slash (ap (λ f. shortened f repo) e) (ground arith)
    go (some []) e k =
        owned-Replaced repo old tag plain slash (ap (λ f. shortened f repo) e) (ground arith)
    go (some (c ∷ x)) e k =
        subst
          (λ p.
            parse_ref (replace_tag (record { registry = hub; repository = p; tag = old }) tag)
            ≡ record { registry = hub; repository = p; tag = tag })
          (sym (strip_prefix-back (codes "library/") repo (c ∷ x) e))
          (official-Replaced c x old tag plain (ground arith))

parse_ref-qualified :
    (image : Text)
    → text_eq (parse_ref image).registry hub ≡ true
    → has_char b'/' (parse_ref image).repository ≡ true
unfolding parse_ref
parse_ref-qualified image h =
    let (registry, remainder) = registry_part (split_first b'/' image) image in
    let repo = (tag_part (split_last b':' remainder) remainder).0 in
    subst (λ s. has_char b'/' (qualified s repo) ≡ true)
      (sym ((text_eq_iff (canonical registry) hub).0 h)) (qualified-slash repo)

-- A reference whose tag is replaced is read as the same repository of the same registry, with the new
-- tag, if that tag has neither a slash nor a colon, and the reference, where it is of Docker Hub, does not
-- name a nested repository under `library` or one whose first part looks like a registry.
pub parse_ref-replace_tag :
    (image tag : Text)
    → IsPlain tag
    → is_usual (parse_ref image) ≡ true
    → parse_ref (replace_tag (parse_ref image) tag) ≡ record (parse_ref image) { tag = tag }
parse_ref-replace_tag image tag plain usual =
    elim (Bool-cases (text_eq (parse_ref image).registry hub)) [
      | inr other ↦
          elsewhere-Replaced (parse_ref image) tag plain (parse_ref-IsElsewhere image other)
      | inl on_hub ↦
          let r = parse_ref image in
          subst
            (λ s.
              parse_ref
                (replace_tag (record { registry = s; repository = r.repository; tag = r.tag }) tag)
              ≡ record { registry = s; repository = r.repository; tag = tag })
            (sym ((text_eq_iff r.registry hub).0 on_hub))
            (hub-Replaced r.repository r.tag tag plain (parse_ref-qualified image on_hub)
              (ground arith))
    ]
