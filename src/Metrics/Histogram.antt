-- ===== src/Metrics/Histogram.antt =====
-- The histogram is cumulative and exact, until a counter wraps around.
use archetype_proxy_server.Prelude.{
  ℕ, ◌+◌, ◌<◌, ◌≤◌, ◌≡◌, refl, ap, ap₂, ◌∙◌, List, [], ◌∷◌, map, leb, if◌then◌else◌, arith, length,
}
use archetype_proxy_server.Text.{u64_bound}
use archetype_proxy_server.Metrics.{
  Metrics, new, latency_buckets_ns, fetch_add, count_in, observe_upstream_latency, observe_all,
}

-- How many of the observations are at most `bound`.
abbrev pub at_most : ℕ → List ℕ → ℕ
at_most bound [] = 0
at_most bound (ns ∷ rest) = (if leb ns bound then 1 else 0) + at_most bound rest

at_most-le-length : (bound : ℕ) (seen : List ℕ) → at_most bound seen ≤ length seen
at_most-le-length bound [] = omega arith
at_most-le-length bound (ns ∷ rest) = ground (arith, at_most-le-length bound rest)

-- A later bucket counts whatever an earlier one counts.
pub at_most_mono : (a b : ℕ) (seen : List ℕ) → a ≤ b → at_most a seen ≤ at_most b seen
at_most_mono a b [] h = omega arith
at_most_mono a b (ns ∷ rest) h = ground (arith, at_most_mono a b rest)

fetch_add-eq : (c n : ℕ) → c + n < u64_bound → fetch_add c n ≡ c + n
fetch_add-eq c n h = omega arith

-- Counters that lie below the bound by the observations still to come add up exactly.
count_all :
    (bounds : List ℕ) (base : ℕ → ℕ) (ns : ℕ)
    → ((b : ℕ) → base b + 1 < u64_bound)
    → count_in ns bounds (map base bounds) ≡ map (λ b. base b + (if leb ns b then 1 else 0)) bounds
unfolding count_in
count_all [] base ns h = refl
count_all (b ∷ bounds) base ns h = ap₂ ◌∷◌ (ground (arith, h b)) (count_all bounds base ns h)

map-eq : (f g : ℕ → ℕ) → ((b : ℕ) → f b ≡ g b) → (xs : List ℕ) → map f xs ≡ map g xs
map-eq f g h [] = refl
map-eq f g h (x ∷ xs) = ap₂ ◌∷◌ (h x) (map-eq f g h xs)

-- The counters after `seen`, from counters that start at `base`.
observe_from :
    (seen : List ℕ) (base : ℕ → ℕ) (m : Metrics)
    → m.latency_buckets ≡ map base latency_buckets_ns
    → ((b : ℕ) → base b + length seen < u64_bound)
    → m.latency_count + length seen < u64_bound
    → ((observe_all seen m).latency_buckets ≡ map (λ b. base b + at_most b seen) latency_buckets_ns)
      × ((observe_all seen m).latency_count ≡ m.latency_count + length seen)
unfolding observe_all
observe_from [] base m e h k =
    (e ∙ map-eq base (λ b. base b + 0) (λ b. omega arith) latency_buckets_ns, omega arith)
observe_from (ns ∷ rest) base m e h k =
    let next = λ (b : ℕ). base b + (if leb ns b then 1 else 0) in
    let stepped =
      ap (count_in ns latency_buckets_ns) e
      ∙ count_all latency_buckets_ns base ns (λ b. omega (arith, h b)) in
    let (buckets, count) =
      observe_from rest next (observe_upstream_latency ns m) stepped (λ b. ground (arith, h b))
        (omega arith) in
    (
      buckets
          ∙ map-eq (λ b. next b + at_most b rest) (λ b. base b + at_most b (ns ∷ rest))
              (λ b. omega arith) latency_buckets_ns,
      count ∙ omega arith,
    )

-- After fewer than 2^64 observations each bucket counts exactly those at most its bound, and the
-- total counts them all.
pub observe_all-new :
    (seen : List ℕ)
    → length seen < u64_bound
    → ((observe_all seen new).latency_buckets ≡ map (λ b. at_most b seen) latency_buckets_ns)
      × ((observe_all seen new).latency_count ≡ length seen)
unfolding new
observe_all-new seen h =
    let (buckets, count) = observe_from seen (λ _. 0) new refl (λ b. omega arith) (omega arith) in
    (
      buckets
          ∙ map-eq (λ b. 0 + at_most b seen) (λ b. at_most b seen) (λ b. omega arith)
              latency_buckets_ns,
      count ∙ omega arith,
    )
