-- ===== src/Registry/Balance.antt =====
-- Which service a load balancing strategy selects.
use rdws_us.Prelude.{
  ℕ, ◌^◌, ◌<◌, String, true, false, some, List, [], ◌∷◌, ◌≡◌, refl, ◌==◌, arith, eq_refl, sym, ap,
  subst, ◌⊎◌, ◌≢◌, inl, inr, length, All, All-map, All-keep_if, All-get_or, any_of, count_if,
  Bool-cases, Option-cases,
}
use rdws_us.Prelude.Int.{ℤ, pos, ltb_ℤ}
use rdws_us.Prelude.Floats.{Floats}
use rdws_us.Prelude.Table.{text_key, lookup}
use rdws_us.Identity.{
  ServiceIdentity, has_capability, get_load_percentage, is_overloaded, is_healthy,
}
use rdws_us.Registry.{
  ServiceRegistry, LoadBalancingStrategy, round_robin, least_loaded, fastest_response, random,
}
use rdws_us.Registry.Queries.{range, is_available, find_available_services}
use rdws_us.Registry.Select.{max_milliseconds, choose, select_best_service}
use rdws_us.Registry.Lowest.{NoneBelow, lowest_from-among, lowest_from-least}
use rdws_us.Registry.Index.{pairs_of, times, IsIndexed}

range-indexed :
    (capability : String) (index : List (String × String))
    → All (λ id. 0 < pairs_of capability id index) (range capability index)
unfolding range count_if
range-indexed capability [] = tt
range-indexed capability ((c, id) ∷ index) =
    let P : String → Type 0 = λ i. 0 < pairs_of capability i ((c, id) ∷ index) in
    let rest =
      All-map P _ (range capability index) (λ i h. ground arith) (range-indexed capability index) in
    elim (Bool-cases (c == capability)) [
      | inl same ↦
          let e : range capability ((c, id) ∷ index) ≡ id ∷ range capability index = rw same in
          subst (All P) (sym e) (ground (arith, eq_refl id), rest)
      | inr other ↦
          let e : range capability ((c, id) ∷ index) ≡ range capability index = rw other in
          subst (All P) (sym e) rest
    ]

any_of-times :
    (capability : String) (cs : List String)
    → 0 < times capability cs
    → any_of (λ c. c == capability) cs ≡ true
unfolding any_of count_if
any_of-times capability [] h = absurd (omega arith)
any_of-times capability (c ∷ cs) h = ground (arith, any_of-times capability cs)

-- A service that may serve the capability now.
pub record Serves (r : ServiceRegistry) (now : ℕ) (capability id : String) : Type 0 where
  pub service : ServiceIdentity
  pub registered : lookup id r.identities ≡ some service
  pub own : service.service_id ≡ id
  pub capable : has_capability service capability ≡ true
  pub healthy : is_healthy 60 now service ≡ true
  pub spare : is_overloaded service ≡ false

module _ (r : ServiceRegistry) (v : IsIndexed r) (now : ℕ) (capability : String) where
  available-Serves : All (Serves r now capability) (find_available_services now capability r)
  unfolding find_available_services
  available-Serves =
      All-keep_if (Serves r now capability) (λ id. 0 < pairs_of capability id r.capability_index)
        (λ id. is_available now (lookup id r.identities)) (range capability r.capability_index)
        (λ id indexed ready. elim (Option-cases (lookup id r.identities)) [
          | inl missing ↦ absurd (ground arith)
          | inr (s, found) ↦ record {
            service = s;
            registered = found;
            own = v.keyed id s found;
            capable =
                unfold has_capability in
                any_of-times capability s.capabilities
                  (ground (arith, v.by_capability capability id));
            healthy = ground arith;
            spare = ground arith;
          }
        ])
        (range-indexed capability r.capability_index)

ltb_ℤ_irrefl : (x : ℤ) → ltb_ℤ x x ≡ false
ltb_ℤ_irrefl x = ground arith

ltb_ℤ_trans : (x y z : ℤ) → ltb_ℤ x y ≡ true → ltb_ℤ y z ≡ true → ltb_ℤ x z ≡ true
ltb_ℤ_trans x y z h k = ground arith

-- Whatever holds of all services of a list that is not empty holds of the one that is chosen.
choose-among {κ} :
    (P : String → Type κ) (F : Floats) (draw : ℕ → ℕ) (strategy : LoadBalancingStrategy)
    (capability first : String) (rest : List String) (r : ServiceRegistry)
    → ((n : ℕ) → 0 < n → draw n < n)
    → All P (first ∷ rest)
    → P (choose F draw strategy capability (first ∷ rest) r).0
unfolding choose
choose-among P F draw round_robin capability first rest r drawn a =
    All-get_or P (first ∷ rest) _ "" (omega arith) a
choose-among P F draw least_loaded capability first rest r drawn a =
    lowest_from-among F.lt (get_load_percentage F) r.identities P first _ (first ∷ rest) a.0 a
choose-among P F draw fastest_response capability first rest r drawn a =
    lowest_from-among ltb_ℤ (λ s. s.avg_response_time) r.identities P first _ (first ∷ rest) a.0 a
choose-among P F draw random capability first rest r drawn a =
    All-get_or P (first ∷ rest) _ "" (drawn (length (first ∷ rest)) (omega arith)) a

List-cases {ℓ} :
    {A : Type ℓ} (xs : List A) → (xs ≡ []) ⊎ ((x : A) × (rest : List A) × (xs ≡ x ∷ rest))
List-cases [] = inl refl
List-cases (x ∷ rest) = inr (x, rest, refl)

load_below :
    (F : Floats) (s : ServiceIdentity)
    → s.max_concurrent < 2 ^ 32
    → is_overloaded s ≡ false
    → ((n m : ℕ)
        → n < m
        → m < 2 ^ 32
        → F.lt (F.mul (F.div (F.of_int (pos n)) (F.of_int (pos m))) (F.lit 100 0)) (F.lit 100 0)
          ≡ true)
    → F.lt (get_load_percentage F s) (F.lit 100 0) ≡ true
unfolding get_load_percentage is_overloaded
load_below F s h spare law = ground (arith, law s.current_load s.max_concurrent)

module _ (F : Floats) (draw : ℕ → ℕ) (now : ℕ) (capability : String) (r : ServiceRegistry)
    (v : IsIndexed r) where
  -- Under every strategy, if the indexes agree with the identities and the random draw is in
  -- range: the result is empty where no service is available, and otherwise it is the id of a
  -- registered service that has the capability, is healthy and is not overloaded.
  pub select_best_service-Serves :
      (strategy : LoadBalancingStrategy)
      → ((n : ℕ) → 0 < n → draw n < n)
      → let id = (select_best_service F draw now capability strategy r).0 in
        ((find_available_services now capability r ≡ []) × (id ≡ "")) ⊎ Serves r now capability id
  unfolding select_best_service choose
  select_best_service-Serves strategy drawn =
      let available = available-Serves r v now capability in
      elim (List-cases (find_available_services now capability r)) [
        | inl e ↦ inl (e, ap (λ xs. (choose F draw strategy capability xs r).0) e)
        | inr (first, rest, e) ↦ inr (
            subst (λ xs. Serves r now capability (choose F draw strategy capability xs r).0) (sym e)
              (choose-among (Serves r now capability) F draw strategy capability first rest r drawn
                (subst (All (Serves r now capability)) e available)))
      ]

  -- The services that are available, all with a load that is not below that of `s`.
  abbrev pub NoneLighter : ServiceIdentity → Type 0
  NoneLighter s =
      NoneBelow F.lt (get_load_percentage F) r.identities (get_load_percentage F s)
        (find_available_services now capability r)

  abbrev pub NoneFaster : ServiceIdentity → Type 0
  NoneFaster s =
      NoneBelow ltb_ℤ (λ t. t.avg_response_time) r.identities s.avg_response_time
        (find_available_services now capability r)

  -- LEAST_LOADED selects a service such that no available one has a smaller load, if some service
  -- is available, the limits are 32-bit numbers, and the quotient of two such numbers n < m, times
  -- 100.0, is below 100.0.
  pub select_best_service-NoneLighter :
      find_available_services now capability r ≢ []
      → ((id : String) (s : ServiceIdentity)
          → lookup id r.identities ≡ some s
          → s.max_concurrent < 2 ^ 32)
      → ((n m : ℕ)
          → n < m
          → m < 2 ^ 32
          → F.lt (F.mul (F.div (F.of_int (pos n)) (F.of_int (pos m))) (F.lit 100 0)) (F.lit 100 0)
            ≡ true)
      → (s : ServiceIdentity) × (lookup
            (select_best_service F draw now capability least_loaded r).0
            r.identities
          ≡ some s)
        × NoneLighter s
  unfolding select_best_service choose
  select_best_service-NoneLighter some_available bounded below_hundred =
      let available = available-Serves r v now capability in
      let Lightest : List String → Type 0 = λ xs.
        (s : ServiceIdentity) × (lookup (choose F draw least_loaded capability xs r).0 r.identities
          ≡ some s)
        × NoneBelow F.lt (get_load_percentage F) r.identities (get_load_percentage F s) xs in
      elim (List-cases (find_available_services now capability r)) [
        | inl e ↦ absurd (some_available e)
        | inr (first, rest, e) ↦
            let served = (subst (All (Serves r now capability)) e available).0 in
            subst Lightest (sym e) (
              lowest_from-least F.lt (get_load_percentage F) r.identities F.lt_irrefl F.lt_trans
                first (F.lit 100 0) rest served.service served.registered
                (load_below F served.service (bounded first served.service served.registered)
                  served.spare below_hundred))
      ]

  -- FASTEST_RESPONSE selects a service such that no available one has a smaller average response
  -- time, if some service is available and the averages are below the largest 64-bit number.
  pub select_best_service-NoneFaster :
      find_available_services now capability r ≢ []
      → ((id : String) (s : ServiceIdentity)
          → lookup id r.identities ≡ some s
          → ltb_ℤ s.avg_response_time max_milliseconds ≡ true)
      → (s : ServiceIdentity) × (lookup
            (select_best_service F draw now capability fastest_response r).0
            r.identities
          ≡ some s)
        × NoneFaster s
  unfolding select_best_service choose
  select_best_service-NoneFaster some_available bounded =
      let available = available-Serves r v now capability in
      let Fastest : List String → Type 0 = λ xs.
        (s : ServiceIdentity) × (lookup (choose F draw fastest_response capability xs r).0
            r.identities
          ≡ some s)
        × NoneBelow ltb_ℤ (λ t. t.avg_response_time) r.identities s.avg_response_time xs in
      elim (List-cases (find_available_services now capability r)) [
        | inl e ↦ absurd (some_available e)
        | inr (first, rest, e) ↦
            let served = (subst (All (Serves r now capability)) e available).0 in
            subst Fastest (sym e) (
              lowest_from-least ltb_ℤ (λ t. t.avg_response_time) r.identities ltb_ℤ_irrefl
                ltb_ℤ_trans first max_milliseconds rest served.service served.registered
                (bounded first served.service served.registered))
      ]
