-- ===== src/Metrics.antt =====
-- src/shared/utils/metrics.cpp and metrics.h: record and reset of MetricsTracker, whose mutex makes
-- each call one step. The tracker is its map of statistics.
use rdws_us.Prelude.{
  ℕ, ◌+◌, ◌%◌, ◌^◌, String, Bool, not, Option, none, some, List, [], ◌∷◌, ◌++◌, if◌then◌else◌,
  length, leb, value_or,
}
use rdws_us.Prelude.Floats.{Floats}
use rdws_us.Prelude.Table.{text_key, Table, lookup, insert}
pub mod Window

pub record CapabilityStats (D : Type 0) : Type 0 where
  pub request_count : ℕ
  pub error_count : ℕ
  pub timeout_count : ℕ
  pub total_latency_ms : D
  pub min_latency_ms : D
  pub max_latency_ms : D
  pub recent_latencies : List D

pub record Sample (D : Type 0) : Type 0 where
  pub latency_ms : D
  pub success : Bool
  pub timed_out : Bool

abbrev pub max_samples : ℕ
max_samples = 200

-- ++ of a uint64_t
abbrev pub increment_if : Bool → ℕ → ℕ
increment_if test n = if test then (n + 1) % 2 ^ 64 else n

unfoldable pub drop_first : {D : Type 0} → List D → List D
drop_first [] = []
drop_first (x ∷ xs) = xs

unfoldable pub push_sample : {D : Type 0} → List D → D → List D
push_sample samples latency =
    if leb max_samples (length samples)
    then drop_first samples ++ latency ∷ []
    else samples ++ latency ∷ []

-- `largest` is std::numeric_limits<double>::max().
module _ (F : Floats) (largest : F.D) where
  abbrev pub no_stats : CapabilityStats F.D
  no_stats = record {
    request_count = 0;
    error_count = 0;
    timeout_count = 0;
    total_latency_ms = F.lit 0 0;
    min_latency_ms = largest;
    max_latency_ms = F.lit 0 0;
    recent_latencies = [];
  }

  unfoldable pub add_sample : CapabilityStats F.D → Sample F.D → CapabilityStats F.D
  add_sample s sample = record {
    request_count = (s.request_count + 1) % 2 ^ 64;
    error_count = increment_if (not sample.success) s.error_count;
    timeout_count = increment_if sample.timed_out s.timeout_count;
    total_latency_ms = F.add s.total_latency_ms sample.latency_ms;
    min_latency_ms =
        if F.lt s.min_latency_ms sample.latency_ms then s.min_latency_ms else sample.latency_ms;
    max_latency_ms =
        if F.lt sample.latency_ms s.max_latency_ms then s.max_latency_ms else sample.latency_ms;
    recent_latencies = push_sample s.recent_latencies sample.latency_ms;
  }

  -- operator[] of std::map, which makes an entry where there is none.
  unfoldable pub stats_at : String → Table String (CapabilityStats F.D) → CapabilityStats F.D
  stats_at capability stats = value_or (lookup capability stats) no_stats

  unfoldable pub record_sample :
      String → Sample F.D → Table String (CapabilityStats F.D) → Table String (CapabilityStats F.D)
  record_sample capability sample stats =
      insert capability (add_sample (stats_at capability stats) sample) stats

  unfoldable pub reset : Table String (CapabilityStats F.D) → Table String (CapabilityStats F.D)
  reset stats = []
