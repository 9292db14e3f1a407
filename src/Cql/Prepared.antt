-- ===== src/Cql/Prepared.antt =====
-- pkg/cql/cql_query_builder.go: the columns and the values of a prepared statement. The maps are
-- those of NewQB; a value is converted by valueToCqlParam, a parameter for decimals.
use capillaries.Prelude.{
  List, [], ◌∷◌, ◌++◌, ℕ, Option, none, some, ◌==◌, length, set_at, take, if◌then◌else◌,
}
use capillaries.Prelude.Text.{Text}
use capillaries.Prelude.Assoc.{Assoc, lookup, put}
use capillaries.Prelude.Outcome.{Outcome, done, error}

pub data PreparedError : Type 0 where
  same_column_twice non_prepared_column : Text → PreparedError
  length_mismatch invalid_run_id : PreparedError

-- A value is none until it is written, Go's nil.
pub record PreparedColumnData (V : Type 0) : Type 0 where
  pub columns : List Text
  pub values : List (Option V)
  pub column_idx_map : Assoc ℕ
  pub value_idx_map : Assoc ℕ

module _ {V : Type 0} where
  abbrev pub no_columns : PreparedColumnData V
  no_columns = record { columns = []; values = []; column_idx_map = []; value_idx_map = [] }

  unfoldable pub add_new_column : Text → PreparedColumnData V → PreparedColumnData V
  add_new_column column cd = record {
    columns = cd.columns ++ column ∷ [];
    values = cd.values ++ none ∷ [];
    column_idx_map = put column (length cd.column_idx_map) cd.column_idx_map;
    value_idx_map = cd.value_idx_map;
  }

  -- addColumnName; with an error the data are as before.
  unfoldable pub add_column_name :
      Text → PreparedColumnData V → Outcome PreparedError (PreparedColumnData V)
  unfolding add_new_column
  add_column_name column cd = elim (lookup column cd.column_idx_map) [
    | some i ↦ error (same_column_twice column)
    | none ↦ done (add_new_column column cd)
  ]

  unfoldable pub set_value : Text → ℕ → V → PreparedColumnData V → PreparedColumnData V
  set_value column i value cd = record {
    columns = cd.columns;
    values = set_at i (some value) cd.values;
    column_idx_map = cd.column_idx_map;
    value_idx_map = put column i cd.value_idx_map;
  }

  -- addColumnValue
  unfoldable pub add_column_value :
      (V → V) → Text → V → PreparedColumnData V → Outcome PreparedError (PreparedColumnData V)
  unfolding set_value
  add_column_value value_to_cql_param column value cd = elim (lookup column cd.column_idx_map) [
    | none ↦ error (non_prepared_column column)
    | some i ↦ done (set_value column i (value_to_cql_param value) cd)
  ]

  -- InsertRunParams
  unfoldable pub insert_run_params : PreparedColumnData V → Outcome PreparedError (List (Option V))
  insert_run_params cd =
      if length cd.column_idx_map == length cd.value_idx_map
      then done (take (length cd.value_idx_map) cd.values)
      else error length_mismatch
