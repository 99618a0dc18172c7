-- ===== src/Tests/Metrics.antt =====
-- Two capabilities of a tracker.
use rdws_us.Prelude.{ℕ, ◌%◌, ◌^◌, true, false, not, [], ◌∷◌, length, count_if, map, ◌≡◌, refl}
use rdws_us.Metrics.{Sample, max_samples, stats_at, record_sample, add_sample, push_sample}
use rdws_us.Prelude.Table.{lookup, insert}
use rdws_us.Metrics.Window.{Calls, record_all, record_all-Counts, samples_of, last_of}
use rdws_us.Tests.Data.{naturals}

abbrev quick : Sample ℕ
quick = record { latency_ms = 3; success = true; timed_out = false }

abbrev late : Sample ℕ
late = record { latency_ms = 9; success = false; timed_out = true }

abbrev calls : Calls naturals 1000
calls = ("echo", quick) ∷ ("ping", quick) ∷ ("echo", late) ∷ []

echo_window :
    (stats_at naturals 1000 "echo" (record_all naturals 1000 calls [])).recent_latencies
    ≡ 3 ∷ 9 ∷ []
unfolding stats_at record_all lookup record_sample insert add_sample push_sample
echo_window = refl

record_all-Counts_example :
    let own = samples_of naturals 1000 "echo" calls in
    let stats = stats_at naturals 1000 "echo" (record_all naturals 1000 calls []) in
    (stats.request_count ≡ length own % 2 ^ 64)
    × (stats.error_count ≡ count_if (λ sample. not sample.success) own % 2 ^ 64)
    × (stats.timeout_count ≡ count_if (λ sample. sample.timed_out) own % 2 ^ 64)
    × (stats.recent_latencies ≡ last_of max_samples (map (λ sample. sample.latency_ms) own))
record_all-Counts_example = record_all-Counts naturals 1000 "echo" calls
