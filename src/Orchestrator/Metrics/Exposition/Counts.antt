-- ===== src/Orchestrator/Metrics/Exposition/Counts.antt =====
-- The lines of a histogram against the latencies that it has seen.
use dds.Base.{
  ℕ, ◌+◌, ◌≡◌, refl, ap, ◌∙◌, String, true, false, Option, none, some, List, [], ◌∷◌, ◌++◌, length,
  arith, leb, Bool-cases, inl, inr, if◌then◌else◌,
}
use dds.Orchestrator.Metrics.{zero_counts, LatencyHistogram, no_latencies, observe, bump, fits}
use dds.Orchestrator.Metrics.Histogram.{
  observe_all, at_most, cumulative, cumulative-above, cumulative-eq-at_most, has_bucket,
  has_bucket-above, Rising, is_bucket, observe_all-HasBucket, no_latencies-Rising,
}
use dds.Orchestrator.Metrics.Exposition.{Line, total_count, bucket_lines, prometheus_lines}

-- The count of the line for a bucket.
unfoldable pub count_at : ℕ → List Line → Option ℕ
count_at b [] = none
count_at b (Line.bucket name labels (some ms) n ∷ rest) =
    let later = count_at b rest in if (if leb ms b then leb b ms else false) then some n else later
count_at b (_ ∷ rest) = count_at b rest

-- The count of the line that ends a histogram.
unfoldable pub count_of : List Line → Option ℕ
count_of [] = none
count_of (Line.count name labels n ∷ rest) = some n
count_of (_ ∷ rest) = count_of rest

module _ (name labels : String) where
  count_at-bucket_lines :
      (b counted low : ℕ) (counts : List (ℕ × ℕ)) (rest : List Line)
      → Rising low counts
      → has_bucket b counts ≡ true
      → count_at b (bucket_lines name labels counted counts ++ rest)
        ≡ some (counted + cumulative b counts)
  unfolding count_at bucket_lines cumulative
  count_at-bucket_lines b counted low [] rest h k = cc
  count_at-bucket_lines b counted low ((ms, n) ∷ counts) rest h k =
      elim (Bool-cases (if leb ms b then leb b ms else false)) [
        | inl own ↦
            let below : leb ms b ≡ true = ground arith in
            let none_above = cumulative-above b ms counts h.1 (ground arith) in
            rw (own, below, none_above) (ap some (omega arith))
        | inr other ↦
            let later : has_bucket b counts ≡ true = rw other at k in
            let below : leb ms b ≡ true = ground (arith, has_bucket-above b ms counts h.1 later) in
            rw (other, below)
              (count_at-bucket_lines b (counted + n) ms counts rest h.1 later
                ∙ ap some (omega arith))
      ]

  count_of-bucket_lines :
      (counted : ℕ) (counts : List (ℕ × ℕ)) (rest : List Line)
      → count_of (bucket_lines name labels counted counts ++ rest) ≡ count_of rest
  unfolding count_of bucket_lines
  count_of-bucket_lines counted [] rest = refl
  count_of-bucket_lines counted ((ms, n) ∷ counts) rest =
      count_of-bucket_lines (counted + n) counts rest

total-bump :
    (ms : ℕ) (counts : List (ℕ × ℕ))
    → total_count (bump ms counts) ≡ (if fits ms counts then 1 else 0) + total_count counts
unfolding bump fits total_count
total-bump ms [] = refl
total-bump ms ((b, n) ∷ rest) = ground (arith, total-bump ms rest)

counted-observe_all :
    (xs : List ℕ) (h : LatencyHistogram)
    → total_count (observe_all xs h).counts + (observe_all xs h).overflow
      ≡ total_count h.counts + h.overflow + length xs
unfolding observe_all observe
counted-observe_all [] h = omega arith
counted-observe_all (x ∷ xs) h =
    ground (arith, counted-observe_all xs (observe x h), total-bump x h.counts)

-- The exposition of a histogram that has seen some latencies is exact: the line of each bucket counts the
-- latencies that are at most its bound, and the count at the end is the number of all of them.
pub exposition_is_exact :
    (name labels : String) (b : ℕ) (xs : List ℕ)
    → is_bucket b ≡ true
    → let lines = prometheus_lines name labels (observe_all xs no_latencies) in
      (count_at b lines ≡ some (at_most b xs)) × (count_of lines ≡ some (length xs))
unfolding prometheus_lines
exposition_is_exact name labels b xs k =
    let h = observe_all xs no_latencies in
    let has =
      observe_all-HasBucket b xs no_latencies
        (record { rising = no_latencies-Rising; member = k }) in
    (
      count_at-bucket_lines name labels b 0 0 h.counts _ has.rising has.member
          ∙ ap some (omega (arith, cumulative-eq-at_most b xs k)),
      count_of-bucket_lines name labels 0 h.counts _
          ∙ (unfold count_of total_count zero_counts in
              ap some (omega (arith, counted-observe_all xs no_latencies))),
    )
