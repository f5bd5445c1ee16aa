-- ===== src/Updater/Recreate/Fidelity.antt =====
-- What the container that a successful recreation leaves has of the old one's settings.
use doupro.Base.{
  true, false, ◌≡◌, refl, Option, none, some, List, [], ◌∷◌, Text, text_eq, text_eq_iff, includes,
  arith, Bool-cases, inl, inr, subst, All, ◌⊎◌,
}
use doupro.Updater.Json.{Json, compare_json_subset, deep_equal}
use doupro.Updater.Json.Subset.{at, is_object, compare_json_subset-at}
use doupro.Updater.Volumes.{preserve_anonymous_volumes}
use doupro.Updater.Validate.{
  Inspection, RecreationPlan, EndpointSettings, Networks, normalized_host_config,
  validate_recreation, network_of, network_kept, all_kept, networks_kept, endpoint_kept,
  copy_endpoint, copy_networks, network_config_of, string_slice_contained,
}
use doupro.Updater.Engine.{Log, Engine, create}
use doupro.Updater.Recreate.{RecreationResult, recreate, plan}
use doupro.Updater.Recreate.Steps.{before_creation, recreate_success}

-- The aliases of the one are aliases of the other, which has its MAC address if it has one.
pub record IsReachable (e g : EndpointSettings) : Type 0 where
  pub aliases : All (λ a. includes g.aliases a ≡ true) e.aliases
  pub mac_address : (e.mac_address ≡ []) ⊎ (e.mac_address ≡ g.mac_address)

contained-All :
    (want got : List Text)
    → string_slice_contained want got ≡ true
    → All (λ a. includes got a ≡ true) want
contained-All [] got c = tt
contained-All (w ∷ want) got c = (ground arith, contained-All want got (ground arith))

endpoint_kept-IsReachable : (e g : EndpointSettings) → endpoint_kept e g ≡ true → IsReachable e g
endpoint_kept-IsReachable e g k = record {
  aliases = contained-All e.aliases g.aliases (ground (arith, k));
  mac_address =
      ground (arith, text_eq_iff e.mac_address [], text_eq_iff e.mac_address g.mac_address, k);
}

network_of-copy :
    (name : Text) (ns : Networks) (e : EndpointSettings)
    → network_of name ns ≡ some (some e)
    → network_of name (copy_networks ns) ≡ some (copy_endpoint (some e))
network_of-copy name [] e h = cc
network_of-copy name ((n, f) ∷ ns) e h = elim (Bool-cases (text_eq n name)) [
  | inl here ↦ ground arith
  | inr there ↦ ground (arith, network_of-copy name ns e)
]

network_kept-some :
    (e : EndpointSettings) (o : Option (Option EndpointSettings))
    → network_kept (some e) o ≡ true
    → (g : EndpointSettings) × (o ≡ some (some g)) × (endpoint_kept e g ≡ true)
network_kept-some e none k = cc
network_kept-some e (some none) k = cc
network_kept-some e (some (some g)) k = (g, refl, k)

all_kept-network :
    (name : Text) (ns got : Networks) (e : EndpointSettings)
    → all_kept ns got ≡ true
    → network_of name ns ≡ some (some e)
    → network_kept (some e) (network_of name got) ≡ true
all_kept-network name [] got e k h = cc
all_kept-network name ((n, f) ∷ ns) got e k h = elim (Bool-cases (text_eq n name)) [
  | inl here ↦
      let n_is : n ≡ name = (text_eq_iff n name).0 here in
      let f_is : f ≡ some e = ground arith in
      subst (λ u. network_kept u (network_of name got) ≡ true) f_is
        (subst (λ u. network_kept f (network_of u got) ≡ true) n_is (ground arith))
  | inr there ↦ all_kept-network name ns got e (ground arith) (ground arith)
]

networks_kept-network :
    (ns : Networks) (name : Text) (e : EndpointSettings) (o : Option Networks)
    → network_of name ns ≡ some (some e)
    → networks_kept (network_config_of (some ns)) o ≡ true
    → (got : Networks) × (g : EndpointSettings) × (o ≡ some got)
      × (network_of name got ≡ some (some g))
      × IsReachable e g
unfolding network_config_of
networks_kept-network [] name e o of_ns k = cc
networks_kept-network (n ∷ ns) name e none of_ns k = cc
networks_kept-network (n ∷ ns) name e (some got) of_ns k =
    let (g, at_name, kept) = network_kept-some _ (network_of name got) (
      all_kept-network name (copy_networks (n ∷ ns)) got _ k
        (network_of-copy name (n ∷ ns) e of_ns)) in
    let near = endpoint_kept-IsReachable _ g kept in
    (got, g, refl, at_name, record { aliases = near.aliases; mac_address = near.mac_address })

module _ (e : Engine) where
  open e use {inspection, config_json, host_json}

  -- The inspection of the new container that is compared with the plan.
  abbrev pub created : Text → Inspection → Text → Text → Log → Inspection
  created old before target id log =
      inspection
        ((create (plan e before target), true) ∷ before_creation e old (plan e before target) log)
        id

  created_faithful :
      (old : Text) (before : Inspection) (target : Text) (r' : RecreationResult) (log log' : Log)
      → recreate e old before target log ≡ (none, r', log')
      → validate_recreation config_json host_json
          (plan e before target)
          (created old before target r'.id log)
        ≡ true
  created_faithful old before target r' log log' h =
      (recreate_success e old before target r' log log' h).1

  config_part :
      (p : RecreationPlan) (i : Inspection)
      → validate_recreation config_json host_json p i ≡ true
      → compare_json_subset (config_json p.config) (config_json i.config) ≡ true
  unfolding validate_recreation
  config_part p i h = ground arith

  host_part :
      (p : RecreationPlan) (i : Inspection)
      → validate_recreation config_json host_json p i ≡ true
      → compare_json_subset
          (host_json (normalized_host_config p.host_config))
          (host_json (normalized_host_config i.host_config))
        ≡ true
  unfolding validate_recreation
  host_part p i h = ground arith

  networks_part :
      (p : RecreationPlan) (i : Inspection)
      → validate_recreation config_json host_json p i ≡ true
      → networks_kept p.network_config i.networks ≡ true
  unfolding validate_recreation
  networks_part p i h = ground arith

  recreate_keeps_config :
      (old : Text) (before : Inspection) (target : Text) (r' : RecreationResult) (log log' : Log)
      (path : List Text) (v : Json)
      → recreate e old before target log ≡ (none, r', log')
      → at path (config_json (record before.config { image = target })) ≡ some v
      → is_object v ≡ false
      → (w : Json) × (at path (config_json (created old before target r'.id log).config) ≡ some w)
        × (deep_equal v w ≡ true)
  recreate_keeps_config old before target r' log log' path v h is_v leaf =
      compare_json_subset-at path _ _ v
        (config_part (plan e before target) _ (created_faithful old before target r' log log' h))
        is_v leaf

  recreate_keeps_host :
      (old : Text) (before : Inspection) (target : Text) (r' : RecreationResult) (log log' : Log)
      (path : List Text) (v : Json)
      → recreate e old before target log ≡ (none, r', log')
      → at path (
          host_json
            (normalized_host_config (preserve_anonymous_volumes before.host_config before.points)))
        ≡ some v
      → is_object v ≡ false
      → (w : Json) × (at path
            (host_json (normalized_host_config (created old before target r'.id log).host_config))
          ≡ some w)
        × (deep_equal v w ≡ true)
  recreate_keeps_host old before target r' log log' path v h is_v leaf =
      compare_json_subset-at path _ _ v
        (host_part (plan e before target) _ (created_faithful old before target r' log log' h)) is_v
        leaf

  -- After a successful recreation every setting of the old container's configuration and every one of
  -- its host configuration, at any path of keys, has an equal value in the new container's. The image's
  -- name is the target, the anonymous volumes are mounted by name, and an explicit false for the
  -- disabling of the OOM killer is no setting.
  pub recreate_keeps_settings :
      (old : Text) (before : Inspection) (target : Text) (r' : RecreationResult) (log log' : Log)
      (path host_path : List Text) (v host_v : Json)
      → recreate e old before target log ≡ (none, r', log')
      → at path (config_json (record before.config { image = target })) ≡ some v
      → is_object v ≡ false
      → at host_path (
          host_json
            (normalized_host_config (preserve_anonymous_volumes before.host_config before.points)))
        ≡ some host_v
      → is_object host_v ≡ false
      → ((w : Json) × (at path (config_json (created old before target r'.id log).config) ≡ some w)
          × (deep_equal v w ≡ true))
        × ((w : Json) × (at host_path (
                host_json
                  (normalized_host_config (created old before target r'.id log).host_config))
              ≡ some w)
            × (deep_equal host_v w ≡ true))
  recreate_keeps_settings old before target r' log log' path host_path v host_v h is_v leaf is_host
        host_leaf =
      (
        recreate_keeps_config old before target r' log log' path v h is_v leaf,
        recreate_keeps_host old before target r' log log' host_path host_v h is_host host_leaf,
      )

  -- After a successful recreation the new container is in every network that the old one was in, with
  -- each of the old one's aliases there, and with its MAC address if it had one.
  pub recreate_keeps_network :
      (old : Text) (before : Inspection) (target : Text) (r' : RecreationResult) (log log' : Log)
      (ns : Networks) (name : Text) (end : EndpointSettings)
      → recreate e old before target log ≡ (none, r', log')
      → before.networks ≡ some ns
      → network_of name ns ≡ some (some end)
      → (got : Networks) × (g : EndpointSettings) × ((created old before target r'.id log).networks
          ≡ some got)
        × (network_of name got ≡ some (some g))
        × IsReachable end g
  recreate_keeps_network old before target r' log log' ns name end h of_before of_ns =
      let kept =
        networks_part (plan e before target) _ (created_faithful old before target r' log log' h) in
      networks_kept-network ns name end (created old before target r'.id log).networks of_ns (
        subst
          (λ n.
            networks_kept (network_config_of n) (created old before target r'.id log).networks
            ≡ true)
          of_before kept)
