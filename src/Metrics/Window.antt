-- ===== src/Metrics/Window.antt =====
-- The counters and the window of MetricsTracker::record over a sequence of calls.
use rdws_us.Prelude.{
  ℕ, ◌+◌, ◌%◌, ◌^◌, ◌≤◌, ◌<◌, suc, String, not, List, [], ◌∷◌, ◌++◌, if◌then◌else◌, length,
  length-append, leb, ltb, count_if, map, true, ◌==◌, eq_iff, ◌≡◌, refl, sym, ◌∙◌, ap, arith,
  Bool-cases, inl, inr,
}
use rdws_us.Prelude.Floats.{Floats}
use rdws_us.Prelude.Table.{text_key, Table, lookup, lookup-insert}
use rdws_us.Metrics.{
  CapabilityStats, Sample, max_samples, drop_first, push_sample, no_stats, add_sample, stats_at,
  record_sample,
}

-- The last n elements of a list.
unfoldable pub last_of : {D : Type 0} → ℕ → List D → List D
last_of n [] = []
last_of n (x ∷ xs) = if ltb (length xs) n then x ∷ xs else last_of n xs

last_of-short : {D : Type 0} (n : ℕ) (xs : List D) → length xs ≤ n → last_of n xs ≡ xs
unfolding last_of
last_of-short n [] short = refl
last_of-short n (x ∷ xs) short = ground arith

append-one : {D : Type 0} (xs ys : List D) (x : D) → (xs ++ x ∷ []) ++ ys ≡ xs ++ x ∷ ys
append-one [] ys x = refl
append-one (y ∷ xs) ys x = ap (λ zs. y ∷ zs) (append-one xs ys x)

append_nil : {D : Type 0} (xs : List D) → xs ++ [] ≡ xs
append_nil [] = refl
append_nil (x ∷ xs) = ap (λ ys. x ∷ ys) (append_nil xs)

last_of-long :
    {D : Type 0} (n : ℕ) (x : D) (xs : List D) → n ≤ length xs → last_of n (x ∷ xs) ≡ last_of n xs
unfolding last_of
last_of-long n x xs long = ground arith

length-push_sample :
    {D : Type 0} (window : List D) (x : D)
    → length window ≤ max_samples
    → length (push_sample window x) ≤ max_samples
unfolding push_sample drop_first
length-push_sample [] x short = omega arith
length-push_sample (y ∷ ys) x short =
    ground (arith, length-append ys (x ∷ []), length-append (y ∷ ys) (x ∷ []))

full-long :
    {D : Type 0} (ys rest : List D) (x : D)
    → leb max_samples (suc (length ys)) ≡ true
    → max_samples ≤ length (ys ++ x ∷ rest)
full-long ys rest x full = ground (arith, full, length-append ys (x ∷ rest))

-- A full window gives up its oldest sample, which the last samples of all do not hold either.
last_of-push_sample :
    {D : Type 0} (window rest : List D) (x : D)
    → length window ≤ max_samples
    → last_of max_samples (push_sample window x ++ rest) ≡ last_of max_samples (window ++ x ∷ rest)
unfolding push_sample drop_first
last_of-push_sample [] rest x short = refl
last_of-push_sample (y ∷ ys) rest x short = elim (Bool-cases (leb max_samples (suc (length ys)))) [
  | inl full ↦ rw full (
      ap (last_of max_samples) (append-one ys rest x)
      ∙ sym (last_of-long max_samples y (ys ++ x ∷ rest) (full-long ys rest x full)))
  | inr room ↦ rw room (ap (last_of max_samples) (append-one (y ∷ ys) rest x))
]

module _ (F : Floats) (largest : F.D) where
  abbrev pub Calls : Type 0
  Calls = List (String × Sample F.D)

  unfoldable pub record_all :
      Calls → Table String (CapabilityStats F.D) → Table String (CapabilityStats F.D)
  record_all [] stats = stats
  record_all ((capability, sample) ∷ calls) stats =
      record_all calls (record_sample F largest capability sample stats)

  -- The samples of one capability, in the order of the calls.
  unfoldable pub samples_of : String → Calls → List (Sample F.D)
  samples_of capability [] = []
  samples_of capability ((c, sample) ∷ calls) =
      if c == capability then sample ∷ samples_of capability calls else samples_of capability calls

  unfoldable pub add_all : List (Sample F.D) → CapabilityStats F.D → CapabilityStats F.D
  add_all [] s = s
  add_all (sample ∷ samples) s = add_all samples (add_sample F largest s sample)

  stats_at-record_sample :
      (capability c : String) (sample : Sample F.D) (stats : Table String (CapabilityStats F.D))
      → stats_at F largest capability (record_sample F largest c sample stats) ≡ (
          if c == capability
          then add_sample F largest (stats_at F largest capability stats) sample
          else stats_at F largest capability stats)
  unfolding stats_at record_sample
  stats_at-record_sample capability c sample stats = ground (
    arith,
    eq_iff c capability,
    lookup-insert c capability (add_sample F largest (stats_at F largest c stats) sample) stats,
  )

  stats_at-record_all :
      (capability : String) (calls : Calls) (stats : Table String (CapabilityStats F.D))
      → stats_at F largest capability (record_all calls stats)
        ≡ add_all (samples_of capability calls) (stats_at F largest capability stats)
  unfolding record_all samples_of add_all
  stats_at-record_all capability [] stats = refl
  stats_at-record_all capability ((c, sample) ∷ calls) stats = ground (
    arith,
    stats_at-record_sample capability c sample stats,
    stats_at-record_all capability calls (record_sample F largest c sample stats),
  )

  request_count-add_all :
      (samples : List (Sample F.D)) (s : CapabilityStats F.D)
      → s.request_count < 2 ^ 64
      → (add_all samples s).request_count ≡ (s.request_count + length samples) % 2 ^ 64
  unfolding add_all add_sample
  request_count-add_all [] s bound = omega arith
  request_count-add_all (sample ∷ samples) s bound =
      omega (arith, request_count-add_all samples (add_sample F largest s sample) (omega arith))

  error_count-add_all :
      (samples : List (Sample F.D)) (s : CapabilityStats F.D)
      → s.error_count < 2 ^ 64
      → (add_all samples s).error_count
        ≡ (s.error_count + count_if (λ sample. not sample.success) samples) % 2 ^ 64
  unfolding add_all add_sample count_if
  error_count-add_all [] s bound = omega arith
  error_count-add_all (sample ∷ samples) s bound =
      ground (arith, error_count-add_all samples (add_sample F largest s sample) (ground arith))

  timeout_count-add_all :
      (samples : List (Sample F.D)) (s : CapabilityStats F.D)
      → s.timeout_count < 2 ^ 64
      → (add_all samples s).timeout_count
        ≡ (s.timeout_count + count_if (λ sample. sample.timed_out) samples) % 2 ^ 64
  unfolding add_all add_sample count_if
  timeout_count-add_all [] s bound = omega arith
  timeout_count-add_all (sample ∷ samples) s bound =
      ground (arith, timeout_count-add_all samples (add_sample F largest s sample) (ground arith))

  recent_latencies-add_all :
      (samples : List (Sample F.D)) (s : CapabilityStats F.D)
      → length s.recent_latencies ≤ max_samples
      → (add_all samples s).recent_latencies
        ≡ last_of max_samples (s.recent_latencies ++ map (λ sample. sample.latency_ms) samples)
  unfolding add_all add_sample
  recent_latencies-add_all [] s short = sym (
      ap (last_of max_samples) (append_nil s.recent_latencies)
      ∙ last_of-short max_samples s.recent_latencies short)
  recent_latencies-add_all (sample ∷ samples) s short =
      recent_latencies-add_all samples (add_sample F largest s sample)
        (length-push_sample s.recent_latencies sample.latency_ms short)
      ∙ last_of-push_sample s.recent_latencies (map (λ sample. sample.latency_ms) samples)
          sample.latency_ms short

  -- After any calls of record on a new tracker, a capability counts its own calls, errors
  -- and timeouts, modulo 2^64, and keeps the latencies of its last 200 calls in their order.
  pub record_all-Counts :
      (capability : String) (calls : Calls)
      → let own = samples_of capability calls in
        let stats = stats_at F largest capability (record_all calls []) in
        (stats.request_count ≡ length own % 2 ^ 64)
        × (stats.error_count ≡ count_if (λ sample. not sample.success) own % 2 ^ 64)
        × (stats.timeout_count ≡ count_if (λ sample. sample.timed_out) own % 2 ^ 64)
        × (stats.recent_latencies ≡ last_of max_samples (map (λ sample. sample.latency_ms) own))
  unfolding stats_at lookup
  record_all-Counts capability calls =
      let at = stats_at-record_all capability calls [] in
      let own = samples_of capability calls in
      (
        ap (λ s. s.request_count) at
            ∙ request_count-add_all own (no_stats F largest) (omega arith)
            ∙ omega arith,
        ap (λ s. s.error_count) at
            ∙ error_count-add_all own (no_stats F largest) (omega arith)
            ∙ omega arith,
        ap (λ s. s.timeout_count) at
            ∙ timeout_count-add_all own (no_stats F largest) (omega arith)
            ∙ omega arith,
        ap (λ s. s.recent_latencies) at
            ∙ recent_latencies-add_all own (no_stats F largest) (omega arith),
      )
