-- ===== src/Sc/Batches.antt =====
-- GetTokenIntervalsByNumberOfBatches of pkg/sc/script_node_def.go: the intervals of the token space
-- of Cassandra, int64, that the batches of a node that reads a table work on, and the indexes of
-- files for a node that reads files.
use capillaries.Prelude.{
  ℕ, zero, suc, ◌+◌, ◌/◌, Option, none, some, List, [], ◌∷◌, ◌==◌, if◌then◌else◌,
}
use capillaries.Prelude.Int.{max_int64, min_int64, ℤ, pos, ◌+ℤ◌, ◌-ℤ◌, wrap64}

-- MaxAcceptedBatchesByTableReader
abbrev pub max_accepted_batches : ℕ
max_accepted_batches = 1000000

-- `int64(math.MaxInt64/n) - int64(math.MinInt64/n)` for a positive number: Go's division truncates.
unfoldable pub token_interval_per_batch : ℕ → ℤ
token_interval_per_batch n = wrap64 (pos (9223372036854775807 / n + 9223372036854775808 / n))

-- The loop with `n` intervals to go; the last one ends at the end of the space.
unfoldable pub intervals_loop : ℕ → ℤ → ℤ → List (ℤ × ℤ)
intervals_loop zero step left = []
intervals_loop (suc zero) step left = (left, max_int64) ∷ []
intervals_loop (suc (suc n)) step left =
    let right = wrap64 (wrap64 (left +ℤ step) -ℤ pos 1) in
    (left, right) ∷ intervals_loop (suc n) step (wrap64 (right +ℤ pos 1))

-- For a table reader; `batches` is the expected number of batches, between 1 and
-- MaxAcceptedBatchesByTableReader in a node that has been deserialized.
unfoldable pub table_intervals : ℕ → List (ℤ × ℤ)
table_intervals n =
    if n == 1
    then (min_int64, max_int64) ∷ []
    else intervals_loop n (token_interval_per_batch n) min_int64

unfoldable pub file_intervals : ℕ → ℕ → List (ℤ × ℤ)
file_intervals i zero = []
file_intervals i (suc n) = (pos i, pos i) ∷ file_intervals (suc i) n

-- The fields of a node that the function reads: the batches of a table reader, the number of files
-- of a file reader.
pub data Reader : Type 0 where
  table_reader : ℕ → Reader
  file_reader : ℕ → Reader
  no_reader : Reader

-- `none` is the error for a node that reads neither.
unfoldable pub get_token_intervals_by_number_of_batches : Reader → Option (List (ℤ × ℤ))
unfolding table_intervals file_intervals
get_token_intervals_by_number_of_batches (table_reader n) = some (table_intervals n)
get_token_intervals_by_number_of_batches (file_reader n) = some (file_intervals 0 n)
get_token_intervals_by_number_of_batches no_reader = none
