-- ===== src/Cql/Value.antt =====
-- pkg/cql/cql_query_builder.go: values as text in a statement, the types of columns, and the names
-- of the tables of a run. A time is held by its text in the layout of Cassandra, and a value of
-- another type by the text that `%v` gives.
use capillaries.Prelude.{List, [], ◌∷◌, ◌++◌, ◌-◌, ℕ, zero, suc, if◌then◌else◌, ◌==◌, length}
use capillaries.Prelude.Int.{ℤ, pos, negsuc}
use capillaries.Prelude.Text.{Text, bytes}
use capillaries.Prelude.Decimal.{decimal, digits}

pub data QuotePolicy : Type 0 where
  leave_quote_as_is force_unquote : QuotePolicy

pub data CqlValue : Type 0 where
  text_value : Text → CqlValue
  time_value : Text → CqlValue
  int_value : ℤ → CqlValue
  other_value : Text → CqlValue

-- `strings.ReplaceAll(v, "'", "''")`
unfoldable pub double_quotes : Text → Text
double_quotes [] = []
double_quotes (b ∷ s) = let rest = double_quotes s in if b == 39 then 39 ∷ 39 ∷ rest else b ∷ rest

-- `fmt.Sprintf("'%s'", s)`
unfoldable pub quoted : Text → Text
quoted s = 39 ∷ s ++ 39 ∷ []

unfoldable pub value_to_string : CqlValue → QuotePolicy → Text
unfolding double_quotes quoted
value_to_string (text_value v) force_unquote = double_quotes v
value_to_string (text_value v) leave_quote_as_is = quoted (double_quotes v)
value_to_string (time_value v) force_unquote = v
value_to_string (time_value v) leave_quote_as_is = quoted v
value_to_string (int_value v) policy = decimal v
value_to_string (other_value v) policy = v

-- `strings.Join`
unfoldable pub join : Text → List Text → Text
join sep [] = []
join sep (s ∷ []) = s
join sep (s ∷ t ∷ rest) = s ++ sep ++ join sep (t ∷ rest)

unfoldable pub zeros : ℕ → Text
zeros zero = []
zeros (suc n) = 48 ∷ zeros n

-- `%05d` of a number that is not negative.
unfoldable pub padded : ℕ → Text
unfolding zeros
padded n = let d = digits 20 n [] in zeros (5 - length d) ++ d

-- RunIdSuffix
unfoldable pub run_id_suffix : ℤ → Text
unfolding padded
run_id_suffix (pos zero) = []
run_id_suffix (pos (suc n)) = 95 ∷ padded (suc n)
run_id_suffix (negsuc n) = []

pub data TableFieldType : Type 0 where
  field_type_int field_type_decimal2 field_type_float field_type_string : TableFieldType
  field_type_bool field_type_date_time : TableFieldType
  field_type_unknown : Text → TableFieldType

unfoldable pub cql_type : TableFieldType → Text
cql_type field_type_int = bytes "BIGINT"
cql_type field_type_decimal2 = bytes "DECIMAL"
cql_type field_type_float = bytes "DOUBLE"
cql_type field_type_string = bytes "TEXT"
cql_type field_type_bool = bytes "BOOLEAN"
cql_type field_type_date_time = bytes "TIMESTAMP"
cql_type (field_type_unknown t) = bytes "UKNOWN_TYPE_" ++ t
