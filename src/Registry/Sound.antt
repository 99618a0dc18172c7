-- ===== src/Registry/Sound.antt =====
-- What the calls on the registry do to its indexes and its lock, one by one.
use rdws_us.Prelude.{
  ℕ, String, Bool, false, none, some, List, [], ◌∷◌, ◌≡◌, refl, arith, eq_iff, ap, sym, ◌∙◌,
  Option-cases, inl, inr, ◌⊎◌, subst, count_if,
}
use rdws_us.Prelude.Floats.{Floats}
use rdws_us.Prelude.Run.{done}
use rdws_us.Prelude.Table.{text_key, lookup, erase, lookup-insert, lookup-erase}
use rdws_us.Identity.{ServiceIdentity}
use rdws_us.Registry.{
  ServiceRegistry, LoadBalancingStrategy, round_robin, empty_registry, add_to_indexes,
  remove_from_indexes, store_identity, replace_service, update_service, register_service,
  drop_service, unregister_service,
}
use rdws_us.Registry.Locking.{
  register_service_cases, update_service_cases, unregister_service_cases,
}
use rdws_us.Registry.Queries.{modify}
use rdws_us.Registry.Select.{choose, select_best_service}
use rdws_us.Registry.Index.{IsIndexed, add-IsIndexed, without, without-IsIndexed}

-- The invariant depends on the indexes and on what is stored under each id.
IsIndexed-same :
    (r t : ServiceRegistry)
    → t.capability_index ≡ r.capability_index
    → t.machine_index ≡ r.machine_index
    → t.environment_index ≡ r.environment_index
    → ((id : String) → lookup id t.identities ≡ lookup id r.identities)
    → IsIndexed r
    → IsIndexed t
IsIndexed-same r t c m e same v = record {
  keyed = λ id s h. v.keyed id s (sym (same id) ∙ h);
  by_capability = λ capability id. rw (c, same id) (v.by_capability capability id);
  by_machine = λ machine id. rw (m, same id) (v.by_machine machine id);
  by_environment = λ environment id. rw (e, same id) (v.by_environment environment id);
}

-- An update, as removal and registration in one.
replace-IsIndexed :
    (old s : ServiceIdentity) (r : ServiceRegistry)
    → IsIndexed r
    → lookup s.service_id r.identities ≡ some old
    → IsIndexed (add_to_indexes s (store_identity s (remove_from_indexes old r)))
unfolding add_to_indexes remove_from_indexes
replace-IsIndexed old s r v h =
    let own : old.service_id ≡ s.service_id = v.keyed s.service_id old h in
    let bare = without-IsIndexed old r v (ap (λ k. lookup k r.identities) own ∙ h) in
    let gone : lookup s.service_id (erase old.service_id r.identities) ≡ none = ground (
      arith,
      lookup-erase old.service_id s.service_id r.identities,
      eq_iff old.service_id s.service_id,
    ) in
    IsIndexed-same (add_to_indexes s (store_identity s (without old r v)))
      (add_to_indexes s (store_identity s (remove_from_indexes old r))) refl refl refl
      (λ id. ground (
        arith,
        lookup-insert s.service_id id s (erase old.service_id r.identities),
        lookup-insert s.service_id id s r.identities,
        lookup-erase old.service_id id r.identities,
        eq_iff old.service_id id,
        eq_iff s.service_id id,
      ))
      (add-IsIndexed s (without old r v) bare gone)

pub record IsSound (r : ServiceRegistry) : Type 0 where
  pub indexed : IsIndexed r
  pub free : r.locked ≡ false

pub empty_registry-IsSound : IsSound empty_registry
unfolding lookup count_if
empty_registry-IsSound = record {
  indexed = record {
    keyed = λ id s e. cc;
    by_capability = λ capability id. refl;
    by_machine = λ machine id. refl;
    by_environment = λ environment id. refl;
  };
  free = refl;
}

-- What the three members can end with.
register_ends :
    (s : ServiceIdentity) (r : ServiceRegistry) (b : Bool) (t : ServiceRegistry)
    → r.locked ≡ false
    → register_service s r ≡ done (b, t)
    → (t ≡ r)
      ⊎ ((lookup s.service_id r.identities ≡ none) × (t ≡ add_to_indexes s (store_identity s r)))
register_ends s r b t free e = ground (arith, register_service_cases s r free)

update_ends :
    (s : ServiceIdentity) (r : ServiceRegistry) (b : Bool) (t : ServiceRegistry)
    → r.locked ≡ false
    → update_service s r ≡ done (b, t)
    → (t ≡ r)
      ⊎ ((old : ServiceIdentity) × (lookup s.service_id r.identities ≡ some old)
          × (t ≡ add_to_indexes s (store_identity s (remove_from_indexes old r))))
unfolding replace_service
update_ends s r b t free e = elim (Option-cases (lookup s.service_id r.identities)) [
  | inl missing ↦ inl (ground (arith, update_service_cases s r free))
  | inr (old, found) ↦ inr (old, found, ground (arith, update_service_cases s r free))
]

unregister_ends :
    (id : String) (r : ServiceRegistry) (b : Bool) (t : ServiceRegistry)
    → r.locked ≡ false
    → unregister_service id r ≡ done (b, t)
    → (t ≡ r)
      ⊎ ((old : ServiceIdentity) × (lookup id r.identities ≡ some old)
          × (t ≡ record (remove_from_indexes old r) { identities = erase id r.identities }))
unfolding drop_service remove_from_indexes
unregister_ends id r b t free e = elim (Option-cases (lookup id r.identities)) [
  | inl missing ↦ inl (ground (arith, unregister_service_cases id r free))
  | inr (old, found) ↦ inr (old, found, ground (arith, unregister_service_cases id r free))
]

module _ (r : ServiceRegistry) (v : IsSound r) where
  pub register-IsSound :
      (s : ServiceIdentity) (b : Bool) (t : ServiceRegistry)
      → register_service s r ≡ done (b, t)
      → IsSound t
  unfolding add_to_indexes
  register-IsSound s b t e = elim (register_ends s r b t v.free e) [
    | inl same ↦ subst IsSound (sym same) v
    | inr (new, made) ↦
        subst IsSound (sym made)
          (record { indexed = add-IsIndexed s r v.indexed new; free = v.free })
  ]

  pub update-IsSound :
      (s : ServiceIdentity) (b : Bool) (t : ServiceRegistry)
      → update_service s r ≡ done (b, t)
      → IsSound t
  unfolding add_to_indexes remove_from_indexes
  update-IsSound s b t e = elim (update_ends s r b t v.free e) [
    | inl same ↦ subst IsSound (sym same) v
    | inr (old, found, made) ↦
        subst IsSound (sym made)
          (record { indexed = replace-IsIndexed old s r v.indexed found; free = v.free })
  ]

  pub unregister-IsSound :
      (id : String) (b : Bool) (t : ServiceRegistry)
      → unregister_service id r ≡ done (b, t)
      → IsSound t
  unfolding remove_from_indexes
  unregister-IsSound id b t e = elim (unregister_ends id r b t v.free e) [
    | inl same ↦ subst IsSound (sym same) v
    | inr (old, found, made) ↦
        let own : old.service_id ≡ id = v.indexed.keyed id old found in
        let bare =
          without-IsIndexed old r v.indexed (ap (λ k. lookup k r.identities) own ∙ found) in
        subst IsSound (sym made) (record {
          indexed =
              IsIndexed-same (without old r v.indexed)
                (record (remove_from_indexes old r) { identities = erase id r.identities }) refl
                refl refl (λ k. ap (λ j. lookup k (erase j r.identities)) (sym own)) bare;
          free = v.free;
        })
  ]

  -- A change of one entry that leaves its id, capabilities, machine and environment alone.
  pub modify-IsSound :
      (change : ServiceIdentity → ServiceIdentity) (id : String)
      → ((s : ServiceIdentity) → (change s).service_id ≡ s.service_id)
      → ((s : ServiceIdentity) → (change s).capabilities ≡ s.capabilities)
      → ((s : ServiceIdentity) → (change s).machine_name ≡ s.machine_name)
      → ((s : ServiceIdentity) → (change s).environment ≡ s.environment)
      → IsSound (modify change id r)
  modify-IsSound change id own caps machine env = elim (Option-cases (lookup id r.identities)) [
    | inl missing ↦ rw (missing, modify) v
    | inr (s, found) ↦
        rw (found, modify)
          (record {
            indexed = record {
              keyed = λ k t e. ground (
                arith,
                lookup-insert id k (change s) r.identities,
                eq_iff id k,
                own s,
                v.indexed.keyed k t,
                v.indexed.keyed id s found,
              );
              by_capability = λ c k. ground (
                arith,
                lookup-insert id k (change s) r.identities,
                eq_iff id k,
                caps s,
                v.indexed.by_capability c k,
                found,
              );
              by_machine = λ m k. ground (
                arith,
                lookup-insert id k (change s) r.identities,
                eq_iff id k,
                machine s,
                v.indexed.by_machine m k,
                found,
              );
              by_environment = λ m k. ground (
                arith,
                lookup-insert id k (change s) r.identities,
                eq_iff id k,
                env s,
                v.indexed.by_environment m k,
                found,
              );
            };
            free = v.free;
          })
  ]

  choose-IsSound :
      (F : Floats) (draw : ℕ → ℕ) (strategy : LoadBalancingStrategy) (capability : String)
      (available : List String)
      → IsSound (choose F draw strategy capability available r).1
  unfolding choose
  choose-IsSound F draw strategy capability [] = v
  choose-IsSound F draw round_robin capability (first ∷ rest) = record {
    indexed = IsIndexed-same r _ refl refl refl (λ id. refl) v.indexed;
    free = v.free;
  }
  choose-IsSound F draw _ capability (first ∷ rest) = v

  pub select-IsSound :
      (F : Floats) (draw : ℕ → ℕ) (now : ℕ) (capability : String) (strategy : LoadBalancingStrategy)
      → IsSound (select_best_service F draw now capability strategy r).1
  unfolding select_best_service
  select-IsSound F draw now capability strategy = choose-IsSound F draw strategy capability _
