-- ===== src/Metrics/Render.antt =====
-- `render_prometheus` of src/metrics.rs: the lines of the exposition. `Display for f64`, for the
-- sum in seconds, is given.
use archetype_proxy_server.Prelude.{ℕ, ◌≡◌, ◌<◌, List, [], ◌∷◌, ◌++◌, map, length}
use archetype_proxy_server.Text.{Str, codes, decimal, u64_bound}
use archetype_proxy_server.Metrics.{Metrics, new, latency_buckets_ns, observe_all}
use archetype_proxy_server.Metrics.Histogram.{at_most, observe_all-new}

-- The bounds in seconds, as `{ub}` prints them.
abbrev pub bucket_labels : List Str
bucket_labels =
    codes "0.005"
    ∷ codes "0.01"
    ∷ codes "0.025"
    ∷ codes "0.05"
    ∷ codes "0.1"
    ∷ codes "0.25"
    ∷ codes "0.5"
    ∷ codes "1"
    ∷ codes "2.5"
    ∷ codes "5"
    ∷ codes "10"
    ∷ []

abbrev pub latency : Str
latency = codes "archetype_proxy_upstream_latency_seconds"

abbrev pub headed : (kind name help : Str) → List Str
headed kind name help =
    (codes "# HELP " ++ name ++ codes " " ++ help)
    ∷ (codes "# TYPE " ++ name ++ codes " " ++ kind)
    ∷ []

-- The closure `counter`.
unfoldable pub counter : (name help : Str) → ℕ → List Str
unfolding decimal
counter name help v = headed (codes "counter") name help ++ (name ++ codes " " ++ decimal v) ∷ []

unfoldable pub bucket_line : (label : Str) → ℕ → Str
unfolding decimal
bucket_line label c = latency ++ codes "_bucket{le=\"" ++ label ++ codes "\"} " ++ decimal c

-- The loop over the buckets, the labels and the counts in step.
unfoldable pub bucket_lines : List Str → List ℕ → List Str
unfolding bucket_line
bucket_lines [] counts = []
bucket_lines (label ∷ labels) [] = []
bucket_lines (label ∷ labels) (c ∷ counts) = bucket_line label c ∷ bucket_lines labels counts

module _ (show_seconds : (micros : ℕ) → Str) where
  unfoldable pub histogram : Metrics → List Str
  unfolding bucket_lines
  histogram m =
      headed (codes "histogram") latency (codes "Upstream round-trip latency.")
      ++ bucket_lines bucket_labels m.latency_buckets
      ++ bucket_line (codes "+Inf") m.latency_count
        ∷ (latency ++ codes "_sum " ++ show_seconds m.latency_sum_micros)
        ∷ (latency ++ codes "_count " ++ decimal m.latency_count)
        ∷ []

  -- The lines of the text; each one ends with a line feed.
  unfoldable pub render_prometheus : (active_sessions : ℕ) → Metrics → List Str
  unfolding counter histogram
  render_prometheus active_sessions m =
      counter (codes "archetype_proxy_handshakes_total")
        (codes "Total attestation handshakes served on /attest.") m.handshakes_total
      ++ counter (codes "archetype_proxy_decrypt_failures_total")
          (codes "Total trusted-request decrypt/MAC verification failures.")
          m.decrypt_failures_total
      ++ counter (codes "archetype_proxy_upstream_requests_total")
          (codes "Total upstream requests attempted.") m.upstream_requests_total
      ++ counter (codes "archetype_proxy_upstream_errors_total")
          (codes "Total upstream requests that failed at the transport level.")
          m.upstream_errors_total
      ++ headed (codes "gauge") (codes "archetype_proxy_active_sessions")
          (codes "Live AtB sessions in the registry.")
      ++ (codes "archetype_proxy_active_sessions " ++ decimal active_sessions) ∷ histogram m

  -- After fewer than 2 ^ 64 observations, the histogram shows for each bound how many of them were
  -- at most the bound, and their number as the last bucket and as the count.
  pub histogram-observe_all :
      (seen : List ℕ)
      → length seen < u64_bound
      → histogram (observe_all seen new)
        ≡ headed (codes "histogram") latency (codes "Upstream round-trip latency.")
          ++ bucket_lines bucket_labels (map (λ b. at_most b seen) latency_buckets_ns)
          ++ bucket_line (codes "+Inf") (length seen)
            ∷ (latency ++ codes "_sum " ++ show_seconds (observe_all seen new).latency_sum_micros)
            ∷ (latency ++ codes "_count " ++ decimal (length seen))
            ∷ []
  unfolding histogram
  histogram-observe_all seen h =
      let (buckets, count) = observe_all-new seen h in simp (buckets, count)
