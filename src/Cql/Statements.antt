-- ===== src/Cql/Statements.antt =====
-- pkg/cql/cql_query_builder.go: the texts of statements.
use capillaries.Prelude.{List, [], ◌∷◌, ◌++◌, map, ◌==◌, if◌then◌else◌}
use capillaries.Prelude.Int.{ℤ, pos, negsuc, int_eq, int_lt}
use capillaries.Prelude.Text.{Text, bytes}
use capillaries.Prelude.Decimal.{decimal}
use capillaries.Prelude.Outcome.{Outcome, done, error}
use capillaries.Cql.Value.{join, run_id_suffix}
use capillaries.Cql.Prepared.{PreparedError, invalid_run_id}
use capillaries.Cql.Builder.{QueryBuilder}

pub data IfNotExists : Type 0 where
  if_exists_overwrite if_not_exists_lwt : IfNotExists

abbrev pub run_id_for_empty_run : ℤ
run_id_for_empty_run = negsuc 0

-- What stands before a statement with the run id 0.
unfoldable pub mark_invalid : Text → ℤ → Text → Text
mark_invalid mark run_id q = if int_eq run_id (pos 0) then mark ++ q else q

unfoldable pub table_name : QueryBuilder → Text → ℤ → Text
table_name qb name run_id = qb.formatted_keyspace ++ name ++ run_id_suffix run_id

unfoldable pub if_not_exists_str : IfNotExists → Text
if_not_exists_str if_exists_overwrite = []
if_not_exists_str if_not_exists_lwt = bytes "IF NOT EXISTS"

-- `INSERT INTO %s%s%s ( %s ) VALUES ( %s ) %s;`
unfoldable pub insert_text : Text → List Text → List Text → IfNotExists → Text
unfolding if_not_exists_str
insert_text table columns values mode =
    bytes "INSERT INTO "
    ++ table
    ++ bytes " ( "
    ++ join (bytes ", ") columns
    ++ bytes " ) VALUES ( "
    ++ join (bytes ", ") values
    ++ bytes " ) "
    ++ if_not_exists_str mode
    ++ bytes ";"

unfoldable pub insert_run_unprepared_query : QueryBuilder → Text → ℤ → IfNotExists → Text
unfolding insert_text table_name mark_invalid
insert_run_unprepared_query qb name run_id mode =
    mark_invalid (bytes "INVALID runId: ") run_id
      (insert_text (table_name qb name run_id) qb.column_data.columns qb.column_data.values mode)

unfoldable pub insert_unprepared_query : QueryBuilder → Text → IfNotExists → Text
unfolding insert_run_unprepared_query
insert_unprepared_query qb name mode = insert_run_unprepared_query qb name run_id_for_empty_run mode

-- InsertRunPreparedQuery: a question mark for each column.
unfoldable pub insert_run_prepared_query :
    QueryBuilder → Text → ℤ → IfNotExists → Outcome PreparedError Text
unfolding insert_text table_name
insert_run_prepared_query qb name run_id mode =
    let columns = qb.prepared_column_data.columns in
    if int_eq run_id (pos 0)
    then error invalid_run_id
    else done (insert_text (table_name qb name run_id) columns (map (λ c. bytes "?") columns) mode)

-- A clause that is left out when it has no items.
unfoldable pub clause_of : Text → Text → Text → List Text → Text
clause_of before sep after [] = []
clause_of before sep after (item ∷ items) = before ++ join sep (item ∷ items) ++ after

unfoldable pub limit_clause : ℤ → Text
limit_clause n = if int_lt (pos 0) n then bytes " LIMIT " ++ decimal n else []

unfoldable pub select_run : QueryBuilder → Text → ℤ → List Text → Text
unfolding table_name mark_invalid clause_of limit_clause
select_run qb name run_id columns = mark_invalid (bytes "INVALID runId: ") run_id (
    bytes "SELECT "
    ++ join (bytes ", ") columns
    ++ bytes " FROM "
    ++ table_name qb name run_id
    ++ clause_of (bytes " WHERE ") (bytes " AND ") [] qb.conditions
    ++ clause_of (bytes " ORDER BY ") (bytes ",") (bytes " ") qb.order_by_columns
    ++ limit_clause qb.select_limit
    ++ bytes ";")

unfoldable pub select : QueryBuilder → Text → List Text → Text
unfolding select_run
select qb name columns = select_run qb name run_id_for_empty_run columns

unfoldable pub delete_run : QueryBuilder → Text → ℤ → Text
unfolding table_name mark_invalid
delete_run qb name run_id = mark_invalid (bytes "DEV ERROR, INVALID runId: ") run_id (
    bytes "DELETE FROM "
    ++ table_name qb name run_id
    ++ bytes " WHERE "
    ++ join (bytes " AND ") qb.conditions)

unfoldable pub delete : QueryBuilder → Text → Text
unfolding delete_run
delete qb name = delete_run qb name run_id_for_empty_run

-- `col = value` for each column; the two lists grow together.
unfoldable pub assignments : List Text → List Text → List Text
assignments (c ∷ cs) (v ∷ vs) = (c ++ bytes " = " ++ v) ∷ assignments cs vs
assignments _ _ = []

unfoldable pub update_run : QueryBuilder → Text → ℤ → Text
unfolding table_name mark_invalid clause_of assignments
update_run qb name run_id = mark_invalid (bytes "INVALID runId: ") run_id (
    bytes "UPDATE "
    ++ table_name qb name run_id
    ++ bytes " SET "
    ++ join (bytes ", ") (assignments qb.column_data.columns qb.column_data.values)
    ++ bytes " WHERE "
    ++ join (bytes " AND ") qb.conditions
    ++ clause_of (bytes " IF ") (bytes " AND ") [] qb.if_conditions)

unfoldable pub update : QueryBuilder → Text → Text
unfolding update_run
update qb name = update_run qb name run_id_for_empty_run

-- `col TYPE` for each column.
unfoldable pub typed_columns : List Text → List Text → List Text
typed_columns (c ∷ cs) (t ∷ ts) = (c ++ bytes " " ++ t) ∷ typed_columns cs ts
typed_columns _ _ = []

unfoldable pub key_clause : List Text → List Text → Text
unfolding clause_of
key_clause [] clustering = []
key_clause (p ∷ ps) clustering =
    bytes ", PRIMARY KEY(("
    ++ join (bytes ", ") (p ∷ ps)
    ++ bytes ")"
    ++ clause_of (bytes ", ") (bytes ", ") [] clustering
    ++ bytes ")"

-- `strings.Trim(s, " ")`
unfoldable pub trim_blanks_left : Text → Text
trim_blanks_left [] = []
trim_blanks_left (b ∷ s) = let rest = trim_blanks_left s in if b == 32 then rest else b ∷ s

unfoldable pub trim_blanks_right : Text → Text
trim_blanks_right [] = []
trim_blanks_right (b ∷ s) = elim (trim_blanks_right s) [
  | [] ↦ if b == 32 then [] else b ∷ []
  | (c ∷ rest) ↦ b ∷ c ∷ rest
]

unfoldable pub properties_clause : Text → Text
unfolding trim_blanks_left trim_blanks_right
properties_clause properties = elim (trim_blanks_right (trim_blanks_left properties)) [
  | [] ↦ []
  | (b ∷ rest) ↦ 32 ∷ b ∷ rest
]

unfoldable pub create_run : QueryBuilder → Text → ℤ → IfNotExists → Text → Text
unfolding table_name mark_invalid key_clause typed_columns properties_clause
create_run qb name run_id mode properties = mark_invalid (bytes "INVALID runId: ") run_id (
    bytes "CREATE TABLE "
    ++ elim mode [ if_exists_overwrite ↦ [] | if_not_exists_lwt ↦ bytes "IF NOT EXISTS " ]
    ++ table_name qb name run_id
    ++ bytes " ( "
    ++ join (bytes ", ") (typed_columns qb.column_defs.columns qb.column_defs.types)
    ++ key_clause qb.partition_key_columns qb.clustering_key_columns
    ++ bytes ")"
    ++ properties_clause properties
    ++ bytes ";")

unfoldable pub without_dots : Text → Text
without_dots [] = []
without_dots (b ∷ s) = let rest = without_dots s in if b == 46 then rest else b ∷ rest

unfoldable pub drop_keyspace : QueryBuilder → Text
unfolding without_dots
drop_keyspace qb = bytes "DROP KEYSPACE IF EXISTS " ++ without_dots qb.formatted_keyspace
