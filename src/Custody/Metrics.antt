-- ===== src/Custody/Metrics.antt =====
-- core/runtime/src/openroad_platform_runtime/store.py: the metrics of an attempt.
use chip_evolve.Base.{
  ℕ, Bool, not, List, [], ◌∷◌, ◌++◌, ◌==◌, String, str_eq, first, some_row, select, map,
}
use chip_evolve.Contracts.Names.{schema_version}
use chip_evolve.Contracts.Artifact.{Metric, is_valid_metric}
use chip_evolve.Runtime.Result.{
  Result, ok, err, ◌>>=◌, ◌>>◌, guard, required, contract_error, integrity_error,
}
use chip_evolve.Runtime.Attempts.{is_attempt}
use chip_evolve.Custody.Objects.{MetricRow, Store}

abbrev pub has_metric_id : String → MetricRow → Bool
has_metric_id id r = str_eq r.metric_id id

abbrev pub metric_row : String → ℕ → ℕ → Metric → MetricRow
metric_row id attempt_id now m = record {
  metric_id = id;
  attempt_id = attempt_id;
  metric = m;
  created_at = now;
}

abbrev pub and_row : MetricRow → Store → Store
and_row row s = record s { metrics = s.metrics ++ row ∷ [] }

-- The loop, of metrics with the ids that they are given
unfoldable pub register_metrics_each :
    ℕ → ℕ → List (String × Metric) → Store → Result (List String × Store)
register_metrics_each attempt_id now [] s = ok ([], s)
register_metrics_each attempt_id now ((id, m) ∷ rest) s = do
  guard (is_valid_metric m) contract_error
  guard (not (some_row (has_metric_id id) s.metrics)) integrity_error
  required integrity_error (first (is_attempt attempt_id) s.db.attempts) >>= λ attempt.
      register_metrics_each attempt_id now rest (and_row (metric_row id attempt_id now m) s)
      >>= λ written. ok (id ∷ written.0, written.1)

abbrev pub committed : Store → Result (List String × Store) → Result (List String) × Store
committed s (err e) = (err e, s)
committed s (ok (ids, after)) = (ok ids, after)

-- register_metrics: one transaction
unfoldable pub register_metrics :
    ℕ → ℕ → List (String × Metric) → Store → Result (List String) × Store
unfolding register_metrics_each
register_metrics attempt_id now ms s = committed s (register_metrics_each attempt_id now ms s)

-- The schema version is not a column: `Metric(…)` gives it its default.
abbrev pub read_metric : MetricRow → Metric
read_metric r = record r.metric { schema_version = schema_version }

unfoldable pub list_metrics : Store → ℕ → List Metric
list_metrics s attempt_id = map read_metric (select (λ r. r.attempt_id == attempt_id) s.metrics)
