-- ===== src/Observability/Metrics.antt =====
-- internal/observability/metrics.go. The float64 values of counters are whole numbers, which `ℕ` holds
-- exactly (float64 does up to 2^53); durations are nanoseconds. How fmt prints a float64 is a parameter.
use mpc_custody.Prelude.{
  ℕ, ◌+◌, Option, List, [], ◌∷◌, ◌++◌, none, some, map, take, drop, length, ◌==◌, if◌then◌else◌,
}
use mpc_custody.Go.Str.{Str, bytes}
use mpc_custody.Go.Dict.{Dict, lookup, insert}
use mpc_custody.Go.Sort.{sort_by_key}

pub record Metrics : Type 0 where
  pub counters : Dict ℕ
  pub latencies : Dict (List ℕ)

abbrev pub new_metrics : Metrics
new_metrics = record { counters = []; latencies = [] }

-- strings.ReplaceAll(value, `"`, `\"`)
unfoldable pub escape_quotes : Str → Str
escape_quotes [] = []
escape_quotes (c ∷ s) = if c == 34 then 92 ∷ 34 ∷ escape_quotes s else c ∷ escape_quotes s

-- strings.Join(parts, ",")
unfoldable pub join_commas : List Str → Str
join_commas [] = []
join_commas (s ∷ []) = s
join_commas (s ∷ t ∷ rest) = s ++ b',' ∷ join_commas (t ∷ rest)

label_part : Str × Str → Str
unfolding escape_quotes
label_part (key, value) = key ++ (b'=' ∷ 34 ∷ (escape_quotes value ++ 34 ∷ []))

unfoldable pub metric_key : Str → Dict Str → Str
unfolding label_part join_commas sort_by_key
metric_key name [] = name
metric_key name (label ∷ labels) =
    name ++ (b'{' ∷ (join_commas (map label_part (sort_by_key (label ∷ labels))) ++ b'}' ∷ []))

unfoldable pub inc : Str → Dict Str → Metrics → Metrics
unfolding metric_key
inc name labels m =
    let key = metric_key name labels in
    record m {
      counters = insert key (elim (lookup key m.counters) [ none ↦ 1 | some n ↦ n + 1 ]) m.counters;
    }

unfoldable pub observe_duration : Str → Dict Str → ℕ → Metrics → Metrics
unfolding metric_key
observe_duration name labels duration m =
    let key = metric_key name labels in
    let samples : List ℕ = elim (lookup key m.latencies) [ none ↦ [] | some old ↦ old ] in
    record m { latencies = insert key (samples ++ duration ∷ []) m.latencies }

-- strings.IndexByte, with `none` for -1
unfoldable pub index_byte : ℕ → Str → Option ℕ
index_byte c [] = none
index_byte c (x ∷ s) =
    let rest = index_byte c s in
    if x == c then some 0 else elim rest [ none ↦ none | some n ↦ some (n + 1) ]

unfoldable pub sample_key : Str → Str → Str
unfolding index_byte
sample_key key suffix = elim (index_byte b'{' key) [
  | none ↦ key ++ suffix
  | some label_start ↦ take label_start key ++ (suffix ++ drop label_start key)
]

abbrev pub sum : List ℕ → ℕ
sum [] = 0
sum (n ∷ ns) = n + sum ns

-- WritePrometheus: `format_count` is `%g` of a whole number, `format_int` is `%d`, and
-- `format_seconds` is `%g` of a duration's seconds.
module _ (format_count format_int format_seconds : ℕ → Str) where
  abbrev line : Str → Str → Str
  line key value = key ++ (32 ∷ (value ++ 10 ∷ []))

  unfoldable pub write_counters : Dict ℕ → Str
  write_counters [] = []
  write_counters ((key, n) ∷ rest) = line key (format_count n) ++ write_counters rest

  unfoldable pub write_latencies : Dict (List ℕ) → Str
  unfolding sample_key
  write_latencies [] = []
  write_latencies ((key, []) ∷ rest) = write_latencies rest
  write_latencies ((key, d ∷ ds) ∷ rest) =
      line (sample_key key (bytes "_count")) (format_int (length (d ∷ ds)))
      ++ (line (sample_key key (bytes "_sum")) (format_seconds (sum (d ∷ ds)))
          ++ write_latencies rest)

  unfoldable pub write_prometheus : Metrics → Str
  unfolding write_counters write_latencies sort_by_key
  write_prometheus m =
      write_counters (sort_by_key m.counters) ++ write_latencies (sort_by_key m.latencies)
