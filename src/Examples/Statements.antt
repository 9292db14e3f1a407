-- ===== src/Examples/Statements.antt =====
-- Runs of the query builder of pkg/cql.
use capillaries.Prelude.{
  false, ◌≡◌, refl, List, [], ◌∷◌, some, none, ℕ, map, length, drop, take, arith, ◌++◌,
}
use capillaries.Prelude.Int.{pos}
use capillaries.Prelude.Text.{Text, bytes}
use capillaries.Prelude.Assoc.{lookup}
use capillaries.Prelude.Outcome.{done}
use capillaries.Cql.Value.{int_value, text_value, value_to_string, leave_quote_as_is}
use capillaries.Cql.Prepared.{PreparedColumnData, PreparedError, insert_run_params, no_columns}
use capillaries.Cql.Builder.{
  QueryBuilder, cond, cond_in_int, if_condition, in_string_condition, keyspace, new_qb, write,
}
use capillaries.Cql.Statements.{select_run, update}
use capillaries.Cql.Quoting.{read_strings, read_strings-in_string_condition}
use capillaries.Cql.Tables.{table_name_injective}
use capillaries.Cql.Calls.{Call, column, value, make_calls}
use capillaries.Cql.Params.{insert_run_params-make_calls}

-- The conditional update of the run counter.
update_run_counter :
    update
      (if_condition (bytes "last_run") (bytes "=") (int_value (pos 41)) (
        cond
          (bytes "ks")
          (bytes "=")
          (text_value (bytes "o'k"))
          (write (bytes "last_run") (int_value (pos 42)) (keyspace (bytes " ks ") new_qb))))
      (bytes "wf_run_counter")
    ≡ bytes "UPDATE ks.wf_run_counter SET last_run = 42 WHERE ks = 'o''k' IF last_run = 41"
unfolding update if_condition cond write keyspace capillaries.Prelude.Text.text_eq
    capillaries.Prelude.Trim.trim_space capillaries.Cql.Value.run_id_suffix
    capillaries.Cql.Value.join value_to_string capillaries.Prelude.Decimal.decimal
update_run_counter = refl

select_of_a_run :
    select_run
      (cond_in_int (bytes "rowid") (pos 7 ∷ pos 8 ∷ []) (keyspace (bytes "ks") new_qb))
      (bytes "order_items")
      (pos 12)
      (bytes "rowid" ∷ [])
    ≡ bytes "SELECT rowid FROM ks.order_items_00012 WHERE rowid IN ( 7, 8 );"
unfolding select_run capillaries.Cql.Value.join cond_in_int keyspace
    capillaries.Prelude.Text.text_eq capillaries.Prelude.Trim.trim_space
    capillaries.Cql.Value.run_id_suffix capillaries.Prelude.Decimal.digits
    capillaries.Prelude.Decimal.decimal
select_of_a_run = refl

read_strings-in_string_condition_example :
    (take 4 (in_string_condition (bytes "name") (bytes "a'" ∷ bytes "', '" ∷ [])) ≡ bytes "name")
    × (read_strings 2
          (drop 11 (in_string_condition (bytes "name") (bytes "a'" ∷ bytes "', '" ∷ [])))
        ≡ some (bytes "a'" ∷ bytes "', '" ∷ [], bytes " )"))
read_strings-in_string_condition_example =
    read_strings-in_string_condition (bytes "name") (bytes "a'") (bytes "', '" ∷ [])

abbrev ks : QueryBuilder
ks = record new_qb { formatted_keyspace = bytes "ks." }

table_name_injective_example : (bytes "orders" ≡ bytes "orders") × ◌≡◌ {A = ℕ} 7 7
table_name_injective_example =
    table_name_injective ks (bytes "orders") (bytes "orders") 7 7 (omega arith) (omega arith)
      (omega arith) (omega arith) refl

abbrev two_columns : List (Call ℕ)
two_columns =
    column (bytes "a")
    ∷ value (bytes "a") 1
    ∷ column (bytes "b")
    ∷ value (bytes "b") 2
    ∷ value (bytes "a") 3
    ∷ []

abbrev prepared : PreparedColumnData ℕ
prepared = record {
  columns = bytes "a" ∷ bytes "b" ∷ [];
  values = some 3 ∷ some 2 ∷ [];
  column_idx_map = (bytes "b", 1) ∷ (bytes "a", 0) ∷ [];
  value_idx_map = (bytes "a", 0) ∷ (bytes "b", 1) ∷ [];
}

insert_run_params-make_calls_example : insert_run_params prepared ≡ done (some 3 ∷ some 2 ∷ [])
unfolding make_calls capillaries.Cql.Calls.make_call capillaries.Cql.Prepared.add_column_name lookup
    capillaries.Cql.Prepared.add_column_value capillaries.Prelude.Assoc.put
    capillaries.Prelude.Text.text_eq
insert_run_params-make_calls_example =
    insert_run_params-make_calls (λ v. v) two_columns prepared refl
