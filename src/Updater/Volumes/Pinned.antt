-- ===== src/Updater/Volumes/Pinned.antt =====
-- Which mounts the new container is created with.
use doupro.Base.{
  IsOneOf, not, Bool, true, false, ◌≡◌, ◌≢◌, ◌↔◌, ◌⊎◌, inl, inr, refl, List, [], ◌∷◌, ◌++◌, codes,
  text_eq_iff, includes, keep, arith, Bool-cases, if◌then◌else◌, if_both, ap, sym, ◌∙◌, subst,
}
use doupro.Updater.Volumes.Covered.{IsCovered, covered_iff}
use doupro.Updater.Volumes.{
  Mount, MountPoint, HostConfig, covered, is_anonymous, mount_of, mounts_of,
  preserve_anonymous_volumes,
}

-- The volume has a name, and neither a mount, nor a bind, nor a tmpfs of the host configuration is
-- mounted at its directory.
pub record IsAnonymous (host : HostConfig) (p : MountPoint) : Type 0 where
  pub volume : p.kind ≡ codes "volume"
  pub named : p.name ≢ []
  pub uncovered : ¬ IsCovered host p.destination

-- The mount is of the volume of one of these mount points, at its directory, and read-only if it was
-- not writable there.
abbrev pub IsPinned : HostConfig → List MountPoint → Mount → Type 0
IsPinned host points m =
    (p : MountPoint) × IsOneOf points p
    × IsAnonymous host p
    × (m.kind ≡ codes "volume")
    × (m.source ≡ p.name)
    × (m.target ≡ p.destination)
    × ((m.read_only ≡ true) ↔ (p.rw ≡ false))

mount_of-fields :
    (p : MountPoint) (m : Mount)
    → m.kind ≡ codes "volume"
    → m.source ≡ p.name
    → m.target ≡ p.destination
    → ((m.read_only ≡ true) ↔ (p.rw ≡ false))
    → m ≡ mount_of p
mount_of-fields p m kind source target access =
    let same : m.read_only ≡ not p.rw = elim (Bool-cases m.read_only) [
      | inl e ↦ ground (arith, access.0 e)
      | inr e ↦ ground (arith, access.1)
    ] in
    λ i. record { kind = kind i; source = source i; target = target i; read_only = same i }

IsOneOf-append_left : {A : Type 0} (xs ys : List A) (x : A) → IsOneOf xs x → IsOneOf (xs ++ ys) x
IsOneOf-append_left [] ys x h = absurd h
IsOneOf-append_left (y ∷ xs) ys x (inl e) = inl e
IsOneOf-append_left (y ∷ xs) ys x (inr h) = inr (IsOneOf-append_left xs ys x h)

IsOneOf-append_right : {A : Type 0} (xs ys : List A) (x : A) → IsOneOf ys x → IsOneOf (xs ++ ys) x
IsOneOf-append_right [] ys x h = h
IsOneOf-append_right (y ∷ xs) ys x h = inr (IsOneOf-append_right xs ys x h)

IsOneOf-append_split :
    {A : Type 0} (xs ys : List A) (x : A) → IsOneOf (xs ++ ys) x → IsOneOf xs x ⊎ IsOneOf ys x
IsOneOf-append_split [] ys x h = inr h
IsOneOf-append_split (y ∷ xs) ys x (inl e) = inl (inl e)
IsOneOf-append_split (y ∷ xs) ys x (inr h) = elim (IsOneOf-append_split xs ys x h) [
  | inl l ↦ inl (inr l)
  | inr r ↦ inr r
]

is_anonymous_sound :
    (host : HostConfig) (p : MountPoint) → is_anonymous host p ≡ true → IsAnonymous host p
is_anonymous_sound host p h = record {
  volume = ground (arith, text_eq_iff p.kind (codes "volume"));
  named = λ e. ground (arith, text_eq_iff p.name []);
  uncovered = λ c. let at_ = (covered_iff host p.destination).1 c in ground arith;
}

is_anonymous_complete :
    (host : HostConfig) (p : MountPoint) → IsAnonymous host p → is_anonymous host p ≡ true
is_anonymous_complete host p h = elim (Bool-cases (includes (covered host) p.destination)) [
  | inl at_ ↦ absurd (h.uncovered ((covered_iff host p.destination).0 at_))
  | inr free ↦
      ground (arith, text_eq_iff p.kind (codes "volume"), text_eq_iff p.name [], h.volume, h.named)
]

widen :
    (host : HostConfig) (p : MountPoint) (ps : List MountPoint) (m : Mount)
    → IsPinned host ps m
    → IsPinned host (p ∷ ps) m
widen host p ps m (q, given, a, kind, source, target, access) =
    (q, inr given, a, kind, source, target, access)

read_only_iff :
    (p : MountPoint) (m : Mount) → m ≡ mount_of p → (m.read_only ≡ true) ↔ (p.rw ≡ false)
read_only_iff p m e =
    let same : m.read_only ≡ not p.rw = ap (λ (k : Mount). k.read_only) e in
    (λ h. ground arith, λ h. ground arith)

mounts_of_sound :
    (host : HostConfig) (points : List MountPoint) (m : Mount)
    → IsOneOf (mounts_of (keep (is_anonymous host) points)) m
    → IsPinned host points m
mounts_of_sound host [] m h = absurd h
mounts_of_sound host (p ∷ ps) m h = elim (Bool-cases (is_anonymous host p)) [
  | inl yes_ ↦
      elim (subst
        (λ (b : Bool).
          IsOneOf
            (mounts_of (if b then p ∷ keep (is_anonymous host) ps else keep (is_anonymous host) ps))
            m)
        yes_ h) [
          | inl e ↦ (
            p,
            inl refl,
            is_anonymous_sound host p yes_,
            ap (λ (k : Mount). k.kind) e,
            ap (λ (k : Mount). k.source) e,
            ap (λ (k : Mount). k.target) e,
            read_only_iff p m e,
          )
          | inr r ↦ widen host p ps m (mounts_of_sound host ps m r)
        ]
  | inr no_ ↦ widen host p ps m (
      mounts_of_sound host ps m (
        subst
          (λ (b : Bool).
            IsOneOf
              (mounts_of
                (if b then p ∷ keep (is_anonymous host) ps else keep (is_anonymous host) ps))
              m)
          no_ h))
]

mounts_of_complete :
    (host : HostConfig) (points : List MountPoint) (p : MountPoint) (m : Mount)
    → IsOneOf points p
    → is_anonymous host p ≡ true
    → m ≡ mount_of p
    → IsOneOf (mounts_of (keep (is_anonymous host) points)) m
mounts_of_complete host [] p m h a e = absurd h
mounts_of_complete host (q ∷ ps) p m (inl same) a e =
    rw (ap (is_anonymous host) (sym same) ∙ a) (inl (e ∙ ap mount_of same))
mounts_of_complete host (q ∷ ps) p m (inr r) a e =
    if_both (λ ms. IsOneOf (mounts_of ms) m) (is_anonymous host q)
      (λ _. inr (mounts_of_complete host ps p m r a e)) (λ _. mounts_of_complete host ps p m r a e)

-- The new container is created with exactly the mounts of the old one's host configuration and, for
-- each of its mount points that is a named volume at a directory where the host configuration has no
-- mount, no bind and no tmpfs, a mount of that volume at that directory, read-only if and only if it
-- was not writable. A bind is at the part between its first colon and the second, or its end.
pub preserve_anonymous_volumes_iff :
    (host : HostConfig) (points : List MountPoint) (m : Mount)
    → IsOneOf (preserve_anonymous_volumes host points).mounts m
      ↔ (IsOneOf host.mounts m ⊎ IsPinned host points m)
unfolding preserve_anonymous_volumes
preserve_anonymous_volumes_iff host points m = (
  λ h. elim (IsOneOf-append_split host.mounts (mounts_of (keep (is_anonymous host) points)) m h) [
    | inl l ↦ inl l
    | inr r ↦ inr (mounts_of_sound host points m r)
  ],
  λ h. elim h [
    | inl l ↦ IsOneOf-append_left host.mounts (mounts_of (keep (is_anonymous host) points)) m l
    | inr (p, given, a, kind, source, target, access) ↦
        IsOneOf-append_right host.mounts (mounts_of (keep (is_anonymous host) points)) m (
          mounts_of_complete host points p m given (is_anonymous_complete host p a)
            (mount_of-fields p m kind source target access))
  ],
)
