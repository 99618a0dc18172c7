-- ===== src/Registry/Index.antt =====
-- The three indexes agree with the identities, whatever is registered, replaced and removed.
use rdws_us.Prelude.{
  ℕ, ◌+◌, ◌-◌, String, Bool, false, ◌&&◌, Option, none, some, List, [], ◌∷◌, ◌++◌, ◌≡◌, ◌==◌, arith,
  eq_iff, if◌then◌else◌, count_if, count_if-append, erase_if,
}
use rdws_us.Prelude.Table.{text_key, lookup, erase, lookup-insert, lookup-erase}
use rdws_us.Identity.{ServiceIdentity}
use rdws_us.Registry.{
  ServiceRegistry, add_capabilities, erase_pair, remove_capabilities, ids_at, add_to_indexes,
  remove_from_indexes, store_identity,
}

-- How often a capability is indexed for a service, and how often a service is in a vector.
abbrev pub pairs_of : String → String → List (String × String) → ℕ
pairs_of capability id = count_if (λ p. p.0 == capability && p.1 == id)

abbrev pub times : String → List String → ℕ
times id = count_if (λ x. x == id)

pairs_of-add_capabilities :
    (capability id : String) (cs : List String) (id' : String) (index : List (String × String))
    → pairs_of capability id (add_capabilities cs id' index)
      ≡ pairs_of capability id index + (if id' == id then times capability cs else 0)
unfolding add_capabilities count_if
pairs_of-add_capabilities capability id [] id' index = ground arith
pairs_of-add_capabilities capability id (c ∷ cs) id' index = ground (
  arith,
  pairs_of-add_capabilities capability id cs id' (index ++ (c, id') ∷ []),
  count_if-append (λ p. p.0 == capability && p.1 == id) index ((c, id') ∷ []),
)

pairs_of-erase_pair :
    (capability id c id' : String) (index : List (String × String))
    → pairs_of capability id (erase_pair c id' index)
      ≡ pairs_of capability id index - (if c == capability && id' == id then 1 else 0)
unfolding erase_pair count_if
pairs_of-erase_pair capability id c id' [] = ground arith
pairs_of-erase_pair capability id c id' ((d, i) ∷ index) = ground (
  arith,
  pairs_of-erase_pair capability id c id' index,
  eq_iff d c,
  eq_iff i id',
  eq_iff d capability,
  eq_iff i id,
  eq_iff c capability,
  eq_iff id' id,
)

pairs_of-remove_capabilities :
    (capability id : String) (cs : List String) (id' : String) (index : List (String × String))
    → pairs_of capability id (remove_capabilities cs id' index)
      ≡ pairs_of capability id index - (if id' == id then times capability cs else 0)
unfolding remove_capabilities count_if
pairs_of-remove_capabilities capability id [] id' index = ground arith
pairs_of-remove_capabilities capability id (c ∷ cs) id' index = ground (
  arith,
  pairs_of-remove_capabilities capability id cs id' (erase_pair c id' index),
  pairs_of-erase_pair capability id c id' index,
)

times-erase_if :
    (id gone : String) (ids : List String)
    → times id (erase_if (λ x. x == gone) ids) ≡ (if gone == id then 0 else times id ids)
unfolding erase_if count_if
times-erase_if id gone [] = ground arith
times-erase_if id gone (x ∷ ids) =
    ground (arith, times-erase_if id gone ids, eq_iff x gone, eq_iff x id, eq_iff gone id)

abbrev pub capabilities_of : Option ServiceIdentity → List String
capabilities_of none = []
capabilities_of (some s) = s.capabilities

abbrev pub runs_on : Option ServiceIdentity → String → Bool
runs_on none machine = false
runs_on (some s) machine = s.machine_name == machine

abbrev pub runs_in : Option ServiceIdentity → String → Bool
runs_in none environment = false
runs_in (some s) environment = s.environment == environment

abbrev pub once : Bool → ℕ
once b = if b then 1 else 0

-- Each identity stands under its own id, and each index holds exactly the ids that belong there.
pub record IsIndexed (r : ServiceRegistry) : Type 0 where
  pub keyed :
      (id : String) (s : ServiceIdentity) → lookup id r.identities ≡ some s → s.service_id ≡ id
  pub by_capability :
      (capability id : String)
      → pairs_of capability id r.capability_index
        ≡ times capability (capabilities_of (lookup id r.identities))
  pub by_machine :
      (machine id : String)
      → times id (ids_at machine r.machine_index) ≡ once (runs_on (lookup id r.identities) machine)
  pub by_environment :
      (environment id : String)
      → times id (ids_at environment r.environment_index)
        ≡ once (runs_in (lookup id r.identities) environment)

module _ (s : ServiceIdentity) (r : ServiceRegistry) (v : IsIndexed r) where
  -- Storing and indexing an id that is not there.
  pub add-IsIndexed :
      lookup s.service_id r.identities ≡ none → IsIndexed (add_to_indexes s (store_identity s r))
  unfolding add_to_indexes count_if
  add-IsIndexed h = record {
    keyed = λ id t e.
        ground (
          arith,
          lookup-insert s.service_id id s r.identities,
          eq_iff s.service_id id,
          v.keyed id t,
        );
    by_capability = λ capability id. ground (
      arith,
      pairs_of-add_capabilities capability id s.capabilities s.service_id r.capability_index,
      v.by_capability capability id,
      lookup-insert s.service_id id s r.identities,
      eq_iff s.service_id id,
    );
    by_machine = λ machine id. ground (
      arith,
      lookup-insert s.machine_name machine
          (ids_at s.machine_name r.machine_index ++ s.service_id ∷ []) r.machine_index,
      count_if-append (λ x. x == id) (ids_at s.machine_name r.machine_index) (s.service_id ∷ []),
      v.by_machine machine id,
      lookup-insert s.service_id id s r.identities,
      eq_iff s.service_id id,
      eq_iff s.machine_name machine,
    );
    by_environment = λ environment id. ground (
      arith,
      lookup-insert s.environment environment
          (ids_at s.environment r.environment_index ++ s.service_id ∷ []) r.environment_index,
      count_if-append (λ x. x == id) (ids_at s.environment r.environment_index) (s.service_id ∷ []),
      v.by_environment environment id,
      lookup-insert s.service_id id s r.identities,
      eq_iff s.service_id id,
      eq_iff s.environment environment,
    );
  }

module _ (s : ServiceIdentity) (r : ServiceRegistry) (v : IsIndexed r) where
  -- Unindexing and erasing an identity that is there.
  abbrev pub without : ServiceRegistry
  without = record (remove_from_indexes s r) { identities = erase s.service_id r.identities }

  pub without-IsIndexed : lookup s.service_id r.identities ≡ some s → IsIndexed without
  unfolding remove_from_indexes count_if
  without-IsIndexed h = record {
    keyed = λ id t e.
        ground
          (arith, lookup-erase s.service_id id r.identities, eq_iff s.service_id id, v.keyed id t);
    by_capability = λ capability id. ground (
      arith,
      pairs_of-remove_capabilities capability id s.capabilities s.service_id r.capability_index,
      v.by_capability capability id,
      lookup-erase s.service_id id r.identities,
      eq_iff s.service_id id,
    );
    by_machine = λ machine id. ground (
      arith,
      lookup-insert s.machine_name machine
          (erase_if (λ x. x == s.service_id) (ids_at s.machine_name r.machine_index))
          r.machine_index,
      times-erase_if id s.service_id (ids_at s.machine_name r.machine_index),
      v.by_machine machine id,
      lookup-erase s.service_id id r.identities,
      eq_iff s.service_id id,
      eq_iff s.machine_name machine,
    );
    by_environment = λ environment id. ground (
      arith,
      lookup-insert s.environment environment
          (erase_if (λ x. x == s.service_id) (ids_at s.environment r.environment_index))
          r.environment_index,
      times-erase_if id s.service_id (ids_at s.environment r.environment_index),
      v.by_environment environment id,
      lookup-erase s.service_id id r.identities,
      eq_iff s.service_id id,
      eq_iff s.environment environment,
    );
  }
