-- ===== src/Metrics.antt =====
-- src/metrics.rs: the counters and the latency histogram. A counter is an `AtomicU64`, which wraps
-- around. A latency is a number of nanoseconds, as `Instant::elapsed` measures it: the rounding of
-- its conversion to `f64` is left out.
pub mod Histogram
pub mod Render
use archetype_proxy_server.Prelude.{
  ℕ, zero, suc, ◌+◌, ◌/◌, ◌%◌, ◌*◌, List, [], ◌∷◌, map, leb, if◌then◌else◌,
}
use archetype_proxy_server.Text.{u64_bound}

-- `LATENCY_BUCKETS_SECS`, in nanoseconds
abbrev pub latency_buckets_ns : List ℕ
latency_buckets_ns =
    5_000_000 ∷ 10_000_000 ∷ 25_000_000 ∷ 50_000_000 ∷ 100_000_000 ∷ 250_000_000 ∷ 500_000_000
    ∷ 1_000_000_000 ∷ 2_500_000_000 ∷ 5_000_000_000 ∷ 10_000_000_000 ∷ []

pub record Metrics : Type 0 where
  pub handshakes_total : ℕ
  pub decrypt_failures_total : ℕ
  pub upstream_requests_total : ℕ
  pub upstream_errors_total : ℕ
  pub latency_buckets : List ℕ
  pub latency_count : ℕ
  pub latency_sum_micros : ℕ

-- `Metrics::new`
unfoldable pub new : Metrics
new = record {
  handshakes_total = 0;
  decrypt_failures_total = 0;
  upstream_requests_total = 0;
  upstream_errors_total = 0;
  latency_buckets = map (λ _. 0) latency_buckets_ns;
  latency_count = 0;
  latency_sum_micros = 0;
}

-- `fetch_add(n)`
abbrev pub fetch_add : ℕ → ℕ → ℕ
fetch_add counter n = (counter + n) % u64_bound

unfoldable pub inc_handshakes : Metrics → Metrics
inc_handshakes m = record m { handshakes_total = fetch_add m.handshakes_total 1 }

unfoldable pub inc_decrypt_failures : Metrics → Metrics
inc_decrypt_failures m = record m { decrypt_failures_total = fetch_add m.decrypt_failures_total 1 }

unfoldable pub inc_upstream_requests : Metrics → Metrics
inc_upstream_requests m = record m {
  upstream_requests_total = fetch_add m.upstream_requests_total 1;
}

unfoldable pub inc_upstream_errors : Metrics → Metrics
inc_upstream_errors m = record m { upstream_errors_total = fetch_add m.upstream_errors_total 1 }

-- The loop over the buckets, the bounds and the counters in step.
unfoldable pub count_in : ℕ → List ℕ → List ℕ → List ℕ
count_in ns [] counters = counters
count_in ns (bound ∷ bounds) [] = []
count_in ns (bound ∷ bounds) (c ∷ counters) =
    (if leb ns bound then fetch_add c 1 else c) ∷ count_in ns bounds counters

-- `observe_upstream_latency`; the sum is kept in microseconds, rounded to the nearest.
unfoldable pub observe_upstream_latency : ℕ → Metrics → Metrics
unfolding count_in
observe_upstream_latency ns m = record m {
  latency_buckets = count_in ns latency_buckets_ns m.latency_buckets;
  latency_count = fetch_add m.latency_count 1;
  latency_sum_micros = fetch_add m.latency_sum_micros ((ns + 500) / 1000);
}

-- `observe_upstream_latency` for each observation in turn, from fresh metrics.
unfoldable pub observe_all : List ℕ → Metrics → Metrics
unfolding observe_upstream_latency
observe_all [] m = m
observe_all (ns ∷ rest) m = observe_all rest (observe_upstream_latency ns m)
