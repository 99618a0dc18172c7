-- ===== src/Gateway/Slots.antt =====
-- The slots of the requests in flight over any sequence of steps of the gateway: the handlers of
-- src/service_broker/Services/ServiceGateway.cpp.
use rdws_us.Prelude.{
  ℕ, String, none, some, [], ◌∷◌, ◌≡◌, sym, ap, subst, ◌∙◌, arith, eq_iff, Bool-cases, Option-cases,
  inl, inr,
}
use rdws_us.Prelude.Table.{
  Table, text_key, number_key, lookup, insert, erase, Distinct, lookup-insert, lookup-erase,
  insert-Distinct, erase-Distinct,
}
use rdws_us.Gateway.Types.{PendingRequest}
use rdws_us.Gateway.Requests.{advance, advance_at}
use rdws_us.Gateway.Waiting.{time_out, expire, is_stale, expire_all}
use rdws_us.Gateway.Connections.{fail_all}
use rdws_us.Gateway.Expiry.{expire_all-missing, lookup-expire_all}
use rdws_us.Gateway.Disconnect.{failed_at, lookup-fail_all}

-- No id has two slots, and each slot holds the request of its id.
pub record IsSlotted (m : Table String PendingRequest) : Type 0 where
  pub distinct : Distinct m
  pub own : (id : String) (p : PendingRequest) → lookup id m ≡ some p → p.request_id ≡ id

module _ (m : Table String PendingRequest) (v : IsSlotted m) where
  pub insert-IsSlotted :
      (id : String) (p : PendingRequest) → p.request_id ≡ id → IsSlotted (insert id p m)
  insert-IsSlotted id p named = record {
    distinct = insert-Distinct id p m v.distinct;
    own = λ j q e. ground (arith, lookup-insert id j p m, eq_iff id j, v.own j q);
  }

  pub erase-IsSlotted : (id : String) → IsSlotted (erase id m)
  erase-IsSlotted id = record {
    distinct = erase-Distinct id m v.distinct;
    own = λ j q e. ground (arith, lookup-erase id j m, v.own j q);
  }

  advance_at-missing : (now : ℕ) (id : String) → lookup id m ≡ none → advance_at now id m ≡ m
  advance_at-missing now id missing = ground arith

  advance_at-found :
      (now : ℕ) (id : String) (p : PendingRequest)
      → lookup id m ≡ some p
      → advance_at now id m ≡ insert id (advance now p) m
  advance_at-found now id p found = ground arith

  pub advance_at-IsSlotted : (now : ℕ) (id : String) → IsSlotted (advance_at now id m)
  unfolding advance
  advance_at-IsSlotted now id = elim (Option-cases (lookup id m)) [
    | inl missing ↦ subst IsSlotted (sym (advance_at-missing now id missing)) v
    | inr (p, found) ↦
        subst IsSlotted (sym (advance_at-found now id p found))
          (insert-IsSlotted id (advance now p) (ground (arith, v.own id p found)))
  ]

expire_all-Distinct :
    (now : ℕ) (m : Table String PendingRequest) → Distinct m → Distinct (expire_all now m)
unfolding expire_all
expire_all-Distinct now [] d = tt
expire_all-Distinct now ((id, p) ∷ m) d = elim (Bool-cases (is_stale now (expire now p))) [
  | inl stale ↦ rw stale (expire_all-Distinct now m d.1)
  | inr fresh ↦ rw fresh (expire_all-missing now id m d.0, expire_all-Distinct now m d.1)
]

fail_all-Distinct :
    (service : String) (m : Table String PendingRequest)
    → Distinct m
    → Distinct (fail_all service m)
unfolding fail_all
fail_all-Distinct service [] d = tt
fail_all-Distinct service ((id, p) ∷ m) d =
    (lookup-fail_all service id m ∙ ap (failed_at service) d.0, fail_all-Distinct service m d.1)

module _ (m : Table String PendingRequest) (v : IsSlotted m) where
  pub expire_all-IsSlotted : (now : ℕ) → IsSlotted (expire_all now m)
  unfolding time_out
  expire_all-IsSlotted now = record {
    distinct = expire_all-Distinct now m v.distinct;
    own = λ id q e. elim (Option-cases (lookup id m)) [
      | inl missing ↦ ground (arith, lookup-expire_all now id m v.distinct, missing, e)
      | inr (p, found) ↦
          ground (arith, lookup-expire_all now id m v.distinct, found, v.own id p found, e)
    ];
  }

  pub fail_all-IsSlotted : (service : String) → IsSlotted (fail_all service m)
  fail_all-IsSlotted service = record {
    distinct = fail_all-Distinct service m v.distinct;
    own = λ id q e. elim (Option-cases (lookup id m)) [
      | inl missing ↦ ground (arith, lookup-fail_all service id m, missing, e)
      | inr (p, found) ↦ ground (arith, lookup-fail_all service id m, found, v.own id p found, e)
    ];
  }
