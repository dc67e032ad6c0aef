-- ===== src/Observability/Samples.antt =====
-- The series of a latency in internal/observability/metrics.go: sampleKey on what metricKey gives.
use mpc_custody.Prelude.{
  ℕ, ◌≡◌, refl, none, some, [], ◌∷◌, ◌++◌, length, drop-append, take-append_length, arith,
}
use mathlib.Core.List.{append_assoc}
use mpc_custody.Go.Str.{Str}
use mpc_custody.Go.Dict.{Dict}
use mpc_custody.Go.Split.{NoByte}
use mpc_custody.Observability.Metrics.{metric_key, index_byte, sample_key}

index_byte-NoByte : (c : ℕ) (s : Str) → NoByte c s → index_byte c s ≡ none
unfolding index_byte
index_byte-NoByte c [] h = refl
index_byte-NoByte c (x ∷ s) h = ground (arith, index_byte-NoByte c s h.1)

index_byte-append : (c : ℕ) (s t : Str) → NoByte c s → index_byte c (s ++ c ∷ t) ≡ some (length s)
unfolding index_byte
index_byte-append c [] t h = ground arith
index_byte-append c (x ∷ s) t h = ground (arith, index_byte-append c s t h.1)

sample_key-labels :
    (name suffix rest : Str)
    → NoByte b'{' name
    → sample_key (name ++ b'{' ∷ rest) suffix ≡ (name ++ suffix) ++ b'{' ∷ rest
unfolding sample_key
sample_key-labels name suffix rest h =
    rw
      (
        sample_key,
        index_byte-append b'{' name rest h,
        take-append_length name (b'{' ∷ rest),
        drop-append name (b'{' ∷ rest),
        append_assoc name suffix (b'{' ∷ rest),
      )
      refl

-- The count and the sum of a latency have the labels of the latency: adding a suffix to a key gives
-- the key of the name with the suffix, where the name has no brace.
pub sample_key-metric_key :
    (name suffix : Str) (labels : Dict Str)
    → NoByte b'{' name
    → sample_key (metric_key name labels) suffix ≡ metric_key (name ++ suffix) labels
unfolding metric_key sample_key
sample_key-metric_key name suffix [] h = rw (sample_key, index_byte-NoByte b'{' name h) refl
sample_key-metric_key name suffix (label ∷ labels) h = sample_key-labels name suffix _ h
