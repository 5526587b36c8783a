-- ===== src/Orchestrator/Metrics/Histogram.antt =====
-- The latency histogram against the list of the latencies that it has seen.
use dds.Base.{
  ℕ, ◌+◌, ◌≤◌, ◌<◌, ◌≡◌, refl, ◌∙◌, Bool, true, false, ◌||◌, List, [], ◌∷◌, arith, length, leb,
  if◌then◌else◌,
}
use dds.Orchestrator.Metrics.{
  LatencyHistogram, buckets_ms, no_latencies, zero_counts, bump, observe,
}

unfoldable pub observe_all : List ℕ → LatencyHistogram → LatencyHistogram
observe_all [] h = h
observe_all (x ∷ xs) h = observe_all xs (observe x h)

-- how many of the latencies are at most `b`
unfoldable pub at_most : ℕ → List ℕ → ℕ
at_most b [] = 0
at_most b (x ∷ xs) = (if leb x b then 1 else 0) + at_most b xs

-- the count of the buckets up to `b`
unfoldable pub cumulative : ℕ → List (ℕ × ℕ) → ℕ
cumulative b [] = 0
cumulative b ((bucket, count) ∷ rest) = (if leb bucket b then count else 0) + cumulative b rest

-- The buckets rise from above `low`.
abbrev pub Rising : ℕ → List (ℕ × ℕ) → Type 0
Rising low [] = Unit
Rising low ((bucket, count) ∷ rest) = (low < bucket) × Rising bucket rest

abbrev pub has_bucket : ℕ → List (ℕ × ℕ) → Bool
has_bucket b [] = false
has_bucket b ((bucket, count) ∷ rest) =
    (if leb bucket b then leb b bucket else false) || has_bucket b rest

bump-Rising : (ms low : ℕ) (counts : List (ℕ × ℕ)) → Rising low counts → Rising low (bump ms counts)
unfolding bump
bump-Rising ms low [] h = tt
bump-Rising ms low ((bucket, count) ∷ rest) h = ground (arith, bump-Rising ms bucket rest h.1)

pub has_bucket-above :
    (b low : ℕ) (counts : List (ℕ × ℕ)) → Rising low counts → has_bucket b counts ≡ true → low < b
has_bucket-above b low [] h k = cc
has_bucket-above b low ((bucket, count) ∷ rest) h k =
    ground (arith, has_bucket-above b bucket rest h.1)

pub cumulative-above :
    (b low : ℕ) (counts : List (ℕ × ℕ)) → Rising low counts → b ≤ low → cumulative b counts ≡ 0
unfolding cumulative
cumulative-above b low [] h k = refl
cumulative-above b low ((bucket, count) ∷ rest) h k =
    ground (arith, cumulative-above b bucket rest h.1)

-- One latency more is one more in every bucket from its own on.
cumulative-bump :
    (ms b low : ℕ) (counts : List (ℕ × ℕ))
    → Rising low counts
    → has_bucket b counts ≡ true
    → cumulative b (bump ms counts) ≡ (if leb ms b then 1 else 0) + cumulative b counts
unfolding cumulative bump
cumulative-bump ms b low [] h k = cc
cumulative-bump ms b low ((bucket, count) ∷ rest) h k = ground (
  arith,
  cumulative-bump ms b bucket rest h.1,
  has_bucket-above b bucket rest h.1,
  cumulative-above b bucket rest h.1,
  cumulative-above b bucket (bump ms rest) (bump-Rising ms bucket rest h.1),
)

has_bucket-bump :
    (ms b : ℕ) (counts : List (ℕ × ℕ)) → has_bucket b (bump ms counts) ≡ has_bucket b counts
unfolding bump
has_bucket-bump ms b [] = refl
has_bucket-bump ms b ((bucket, count) ∷ rest) = ground (arith, has_bucket-bump ms b rest)

-- The buckets of a histogram rise, and `b` is one of them.
pub record HasBucket (b : ℕ) (h : LatencyHistogram) : Type 0 where
  pub rising : Rising 0 h.counts
  pub member : has_bucket b h.counts ≡ true

pub observe-HasBucket :
    (ms b : ℕ) (h : LatencyHistogram) → HasBucket b h → HasBucket b (observe ms h)
unfolding observe
observe-HasBucket ms b h k = record {
  rising = bump-Rising ms 0 h.counts k.rising;
  member = has_bucket-bump ms b h.counts ∙ k.member;
}

cumulative-observe_all :
    (b : ℕ) (xs : List ℕ) (h : LatencyHistogram)
    → HasBucket b h
    → cumulative b (observe_all xs h).counts ≡ cumulative b h.counts + at_most b xs
unfolding observe_all at_most
cumulative-observe_all b [] h k = omega arith
cumulative-observe_all b (x ∷ xs) h k =
    let now : cumulative b (observe x h).counts
        ≡ (if leb x b then 1 else 0) + cumulative b h.counts =
      unfold observe in cumulative-bump x b 0 h.counts k.rising k.member in
    omega (arith, now, cumulative-observe_all b xs (observe x h) (observe-HasBucket x b h k))

abbrev pub is_bucket : ℕ → Bool
is_bucket b = has_bucket b (zero_counts buckets_ms)

pub no_latencies-Rising : Rising 0 no_latencies.counts
unfolding zero_counts
no_latencies-Rising = omega arith

cumulative-zero : (b : ℕ) (bs : List ℕ) → cumulative b (zero_counts bs) ≡ 0
unfolding cumulative zero_counts
cumulative-zero b [] = refl
cumulative-zero b (x ∷ xs) = ground (arith, cumulative-zero b xs)

-- After any latencies, the buckets up to one of the histogram's boundaries have counted exactly the
-- latencies that are at most that boundary.
pub cumulative-eq-at_most :
    (b : ℕ) (xs : List ℕ)
    → is_bucket b ≡ true
    → cumulative b (observe_all xs no_latencies).counts ≡ at_most b xs
cumulative-eq-at_most b xs k = omega (
  arith,
  cumulative-observe_all b xs no_latencies (record { rising = no_latencies-Rising; member = k }),
  cumulative-zero b buckets_ms,
)

pub total-observe_all :
    (xs : List ℕ) (h : LatencyHistogram) → (observe_all xs h).total ≡ h.total + length xs
unfolding observe_all observe
total-observe_all [] h = omega arith
total-observe_all (x ∷ xs) h = omega (arith, total-observe_all xs (observe x h))

pub observe_all-HasBucket :
    (b : ℕ) (xs : List ℕ) (h : LatencyHistogram) → HasBucket b h → HasBucket b (observe_all xs h)
unfolding observe_all
observe_all-HasBucket b [] h k = k
observe_all-HasBucket b (x ∷ xs) h k =
    observe_all-HasBucket b xs (observe x h) (observe-HasBucket x b h k)
