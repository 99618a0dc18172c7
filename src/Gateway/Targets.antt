-- ===== src/Gateway/Targets.antt =====
-- Which connection a request goes to: sendDirectRequest of
-- src/service_broker/Services/ServiceGateway.cpp.
use rdws_us.Prelude.{
  ℕ, String, true, false, ◌&&◌, some, [], ◌∷◌, ◌++◌, ◌==◌, ◌≡◌, ap, arith, All, eq_iff, Bool-cases,
  inl, inr,
}
use rdws_us.Prelude.Table.{Table}
use rdws_us.Gateway.Types.{ClientConnection}
use rdws_us.Gateway.Requests.{find_target}

-- The descriptor is that of the first connection on which the service is identified.
abbrev pub FirstServing : String → ℕ → Table ℕ ClientConnection → Type 0
FirstServing id fd m =
    (before : Table ℕ ClientConnection) × (conn : ClientConnection) × (after : Table ℕ
      ClientConnection)
    × (m ≡ before ++ (fd, conn) ∷ after)
    × (conn.identified ≡ true)
    × (conn.service_id ≡ id)
    × All (λ e. (e.1.identified && e.1.service_id == id) ≡ false) before

some_injective : (a b : ℕ) → some a ≡ some b → a ≡ b
some_injective a b h = cc

pub find_target-FirstServing :
    (id : String) (fd : ℕ) (m : Table ℕ ClientConnection)
    → find_target id m ≡ some fd
    → FirstServing id fd m
unfolding find_target
find_target-FirstServing id fd [] h = absurd cc
find_target-FirstServing id fd ((k, c) ∷ m) h =
    elim (Bool-cases (c.identified && c.service_id == id)) [
      | inl serves ↦ (
        [],
        c,
        m,
        ap (λ j. (j, c) ∷ m) (some_injective k fd (ground (arith, serves, h))),
        ground (arith, serves),
        (eq_iff c.service_id id).0 (ground (arith, serves)),
        tt,
      )
      | inr other ↦
          let (before, conn, after, split, identified, named, none_before) =
            find_target-FirstServing id fd m (ground (arith, other, h)) in
          (
            (k, c) ∷ before,
            conn,
            after,
            ap (λ l. (k, c) ∷ l) split,
            identified,
            named,
            (other, none_before),
          )
    ]
