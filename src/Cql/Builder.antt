-- ===== src/Cql/Builder.antt =====
-- pkg/cql/cql_query_builder.go: QueryBuilder and the calls that fill it in.
use capillaries.Prelude.{List, [], ◌∷◌, ◌++◌, map}
use capillaries.Prelude.Int.{ℤ, pos}
use capillaries.Prelude.Text.{Text, bytes, text_eq}
use capillaries.Prelude.Decimal.{decimal}
use capillaries.Prelude.Outcome.{Outcome, and_then, done}
use capillaries.Prelude.{if◌then◌else◌}
use capillaries.Prelude.Trim.{trim_space}
use capillaries.Cql.Value.{
  CqlValue, QuotePolicy, TableFieldType, cql_type, double_quotes, force_unquote, join,
  leave_quote_as_is, text_value, value_to_string,
}
use capillaries.Cql.Prepared.{
  PreparedColumnData, PreparedError, add_column_name, add_column_value, no_columns,
}

pub record ColumnDefs : Type 0 where
  pub columns : List Text
  pub types : List Text

pub record ColumnData : Type 0 where
  pub columns : List Text
  pub values : List Text

pub record QueryBuilder : Type 0 where
  pub column_defs : ColumnDefs
  pub partition_key_columns : List Text
  pub clustering_key_columns : List Text
  pub column_data : ColumnData
  pub prepared_column_data : PreparedColumnData CqlValue
  pub conditions : List Text
  pub if_conditions : List Text
  pub select_limit : ℤ
  pub formatted_keyspace : Text
  pub order_by_columns : List Text

-- NewQB
abbrev pub new_qb : QueryBuilder
new_qb = record {
  column_defs = record { columns = []; types = [] };
  partition_key_columns = [];
  clustering_key_columns = [];
  column_data = record { columns = []; values = [] };
  prepared_column_data = no_columns;
  conditions = [];
  if_conditions = [];
  select_limit = pos 0;
  formatted_keyspace = [];
  order_by_columns = [];
}

unfoldable pub column_def : Text → TableFieldType → QueryBuilder → QueryBuilder
column_def column field_type qb = record qb {
  column_defs = record {
    columns = qb.column_defs.columns ++ column ∷ [];
    types = qb.column_defs.types ++ cql_type field_type ∷ [];
  };
}

unfoldable pub partition_key : List Text → QueryBuilder → QueryBuilder
partition_key columns qb = record qb { partition_key_columns = columns }

unfoldable pub clustering_key : List Text → QueryBuilder → QueryBuilder
clustering_key columns qb = record qb { clustering_key_columns = columns }

unfoldable pub keyspace : Text → QueryBuilder → QueryBuilder
keyspace name qb =
    let trimmed = trim_space name in
    record qb { formatted_keyspace = if text_eq trimmed [] then [] else trimmed ++ bytes "." }

unfoldable pub limit : ℤ → QueryBuilder → QueryBuilder
limit n qb = record qb { select_limit = n }

unfoldable pub add_column : Text → CqlValue → QuotePolicy → ColumnData → ColumnData
add_column column value policy cd = record {
  columns = cd.columns ++ column ∷ [];
  values = cd.values ++ value_to_string value policy ∷ [];
}

unfoldable pub write : Text → CqlValue → QueryBuilder → QueryBuilder
unfolding add_column
write column value qb = record qb {
  column_data = add_column column value leave_quote_as_is qb.column_data;
}

unfoldable pub write_force_unquote : Text → CqlValue → QueryBuilder → QueryBuilder
unfolding add_column
write_force_unquote column value qb = record qb {
  column_data = add_column column value force_unquote qb.column_data;
}

unfoldable pub write_prepared_column : Text → QueryBuilder → Outcome PreparedError QueryBuilder
write_prepared_column column qb =
    and_then (add_column_name column qb.prepared_column_data)
      (λ cd. done (record qb { prepared_column_data = cd }))

unfoldable pub write_prepared_value :
    (CqlValue → CqlValue) → Text → CqlValue → QueryBuilder → Outcome PreparedError QueryBuilder
write_prepared_value value_to_cql_param column value qb =
    and_then (add_column_value value_to_cql_param column value qb.prepared_column_data)
      (λ cd. done (record qb { prepared_column_data = cd }))

-- addSimple and addSimpleForceUnquote: the text of a condition.
unfoldable pub simple_condition : Text → Text → CqlValue → QuotePolicy → Text
simple_condition column op value policy = column ++ 32 ∷ op ++ 32 ∷ value_to_string value policy

-- addInInt, and addInInt16
unfoldable pub in_int_condition : Text → List ℤ → Text
in_int_condition column values =
    column ++ bytes " IN ( " ++ join (bytes ", ") (map decimal values) ++ bytes " )"

-- addInString
unfoldable pub in_string_condition : Text → List Text → Text
in_string_condition column values =
    column ++ bytes " IN ( '" ++ join (bytes "', '") (map double_quotes values) ++ bytes "' )"

unfoldable pub add_condition : Text → QueryBuilder → QueryBuilder
add_condition item qb = record qb { conditions = qb.conditions ++ item ∷ [] }

unfoldable pub cond : Text → Text → CqlValue → QueryBuilder → QueryBuilder
unfolding add_condition simple_condition
cond column op value qb = add_condition (simple_condition column op value leave_quote_as_is) qb

unfoldable pub cond_prepared : Text → Text → QueryBuilder → QueryBuilder
unfolding add_condition simple_condition
cond_prepared column op qb =
    add_condition (simple_condition column op (text_value (bytes "?")) force_unquote) qb

unfoldable pub cond_in_prepared : Text → QueryBuilder → QueryBuilder
unfolding add_condition simple_condition
cond_in_prepared column qb =
    add_condition (simple_condition column (bytes "IN") (text_value (bytes "?")) force_unquote) qb

unfoldable pub cond_in_int : Text → List ℤ → QueryBuilder → QueryBuilder
unfolding add_condition in_int_condition
cond_in_int column values qb = add_condition (in_int_condition column values) qb

unfoldable pub cond_in_string : Text → List Text → QueryBuilder → QueryBuilder
unfolding add_condition in_string_condition
cond_in_string column values qb = add_condition (in_string_condition column values) qb

unfoldable pub order_by : List Text → QueryBuilder → QueryBuilder
order_by columns qb = record qb { order_by_columns = columns }

unfoldable pub if_condition : Text → Text → CqlValue → QueryBuilder → QueryBuilder
unfolding simple_condition
if_condition column op value qb = record qb {
  if_conditions = qb.if_conditions ++ simple_condition column op value leave_quote_as_is ∷ [];
}
