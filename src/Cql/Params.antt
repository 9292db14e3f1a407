-- ===== src/Cql/Params.antt =====
-- The parameters of a prepared statement, pkg/cql/cql_query_builder.go: column by column, the value
-- written last.
use mathlib.Core.Path.{subst}
use capillaries.Prelude.{
  ◌≡◌, refl, sym, ap, ◌∙◌, Bool, List, [], ◌∷◌, ℕ, zero, suc, ◌≤◌, ◌==◌, Option, none, some, arith,
  length, map, count_if, all, get_elem?, set_at, take, if◌then◌else◌, length-append, length-map,
  map-append, count_if-append, get_elem?-append_last, get_elem?-append_left,
}
use capillaries.Prelude.Text.{Text, text_eq, eq_of_text_eq, text_eq_comm}
use capillaries.Prelude.Assoc.{
  Assoc, lookup, put, count_key, lookup-put, count_key-put, count_key-eq_zero,
}
use capillaries.Prelude.Outcome.{done, error, and_then-eq_done}
use capillaries.Cql.Calls.{
  Call, column, value, has_value, is_some, make_call, make_calls, note_write, written, length-put,
  set_at-map, count_has_value,
}
use capillaries.Cql.Prepared.{
  PreparedColumnData, add_column_name, add_column_value, add_new_column, set_value,
  insert_run_params, length_mismatch, no_columns, non_prepared_column,
}

-- The data of a prepared statement against what has been written: the columns and the values grow in
-- lockstep, and the maps know their positions.
record IsLockstep {V : Type 0} (cd : PreparedColumnData V) (w : Assoc V) : Type 0 where
  values_written : cd.values ≡ map (λ c. lookup c w) cd.columns
  columns_counted : length cd.column_idx_map ≡ length cd.columns
  found : (c : Text) (i : ℕ) → lookup c cd.column_idx_map ≡ some i → get_elem? cd.columns i ≡ some c
  once :
      (c : Text)
      → count_if (text_eq c) cd.columns ≡ (if is_some (lookup c cd.column_idx_map) then 1 else 0)
  values_counted : length cd.value_idx_map ≡ count_if (has_value w) cd.columns
  value_once : (c : Text) → count_key c cd.value_idx_map ≡ (if has_value w c then 1 else 0)
  only_columns : (c : Text) → lookup c cd.column_idx_map ≡ none → lookup c w ≡ none

module _ {V : Type 0} where
  no_columns-IsLockstep : IsLockstep {V = V} no_columns []
  unfolding lookup
  no_columns-IsLockstep = record {
    values_written = refl;
    columns_counted = refl;
    found = λ c i h. cc;
    once = λ c. refl;
    values_counted = refl;
    value_once = λ c. refl;
    only_columns = λ c h. refl;
  }

  add_new_column-IsLockstep :
      (c : Text) (cd : PreparedColumnData V) (w : Assoc V)
      → lookup c cd.column_idx_map ≡ none
      → IsLockstep cd w
      → IsLockstep (add_new_column c cd) w
  unfolding add_new_column
  add_new_column-IsLockstep c cd w n inv = record {
    values_written = ground (
      arith,
      map-append (λ d. lookup d w) cd.columns (c ∷ []),
      inv.values_written,
      inv.only_columns c n,
    );
    columns_counted = ground (
      arith,
      length-put c (length cd.column_idx_map) cd.column_idx_map,
      count_key-eq_zero c cd.column_idx_map n,
      length-append cd.columns (c ∷ []),
      inv.columns_counted,
    );
    found = λ d i h. ground (
      arith,
      lookup-put c d (length cd.column_idx_map) cd.column_idx_map,
      inv.found d i,
      inv.columns_counted,
      get_elem?-append_last cd.columns c,
      get_elem?-append_left cd.columns c d i,
      eq_of_text_eq c d,
    );
    once = λ d. ground (
      arith,
      lookup-put c d (length cd.column_idx_map) cd.column_idx_map,
      count_if-append (text_eq d) cd.columns (c ∷ []),
      inv.once d,
      text_eq_comm c d,
      eq_of_text_eq c d,
    );
    values_counted = ground (
      arith,
      count_if-append (has_value w) cd.columns (c ∷ []),
      inv.values_counted,
      inv.only_columns c n,
    );
    value_once = inv.value_once;
    only_columns = λ d h.
        inv.only_columns d
          (ground (arith, lookup-put c d (length cd.column_idx_map) cd.column_idx_map));
  }

  set_value-IsLockstep :
      (c : Text) (i : ℕ) (v : V) (cd : PreparedColumnData V) (w : Assoc V)
      → lookup c cd.column_idx_map ≡ some i
      → IsLockstep cd w
      → IsLockstep (set_value c i v cd) (put c v w)
  unfolding set_value
  set_value-IsLockstep c i v cd w h inv =
      let single : count_if (text_eq c) cd.columns ≡ 1 = ground (arith, inv.once c) in
      record {
        values_written =
            ap (set_at i (some v)) inv.values_written
            ∙ set_at-map c v w i cd.columns (inv.found c i h) single;
        columns_counted = inv.columns_counted;
        found = inv.found;
        once = inv.once;
        values_counted = ground (
          arith,
          length-put c i cd.value_idx_map,
          inv.value_once c,
          inv.values_counted,
          count_has_value c v w cd.columns,
          single,
        );
        value_once = λ d.
            ground
              (arith, count_key-put c d i cd.value_idx_map, lookup-put c d v w, inv.value_once d);
        only_columns =
            λ d n. ground (arith, lookup-put c d v w, inv.only_columns d n, eq_of_text_eq c d);
      }

  add_column_name-eq_done :
      (c : Text) (cd cd' : PreparedColumnData V)
      → add_column_name c cd ≡ done cd'
      → (lookup c cd.column_idx_map ≡ none) × (cd' ≡ add_new_column c cd)
  unfolding add_column_name
  add_column_name-eq_done c cd cd' h = ground arith

  set_or_error :
      (convert : V → V) (c : Text) (v : V) (cd cd' : PreparedColumnData V) (found : Option ℕ)
      → elim found [
        | none ↦ error (non_prepared_column c)
        | some i ↦ done (set_value c i (convert v) cd)
      ]
        ≡ done cd'
      → (i : ℕ) × (found ≡ some i) × (cd' ≡ set_value c i (convert v) cd)
  set_or_error convert c v cd cd' none h = cc
  set_or_error convert c v cd cd' (some i) h = (i, refl, ground arith)

  add_column_value-eq_done :
      (convert : V → V) (c : Text) (v : V) (cd cd' : PreparedColumnData V)
      → add_column_value convert c v cd ≡ done cd'
      → (i : ℕ) × (lookup c cd.column_idx_map ≡ some i) × (cd' ≡ set_value c i (convert v) cd)
  unfolding add_column_value
  add_column_value-eq_done convert c v cd cd' h =
      set_or_error convert c v cd cd' (lookup c cd.column_idx_map) h

  make_call-IsLockstep :
      (convert : V → V) (call : Call V) (cd cd' : PreparedColumnData V) (w : Assoc V)
      → make_call convert call cd ≡ done cd'
      → IsLockstep cd w
      → IsLockstep cd' (note_write convert call w)
  unfolding make_call
  make_call-IsLockstep convert (column c) cd cd' w h inv =
      let added = add_column_name-eq_done c cd cd' h in
      subst (λ d. IsLockstep d w) (sym added.1) (add_new_column-IsLockstep c cd w added.0 inv)
  make_call-IsLockstep convert (value c v) cd cd' w h inv =
      let set = add_column_value-eq_done convert c v cd cd' h in
      subst (λ d. IsLockstep d (put c (convert v) w)) (sym set.2)
        (set_value-IsLockstep c set.0 (convert v) cd w set.1 inv)

  make_calls-IsLockstep :
      (convert : V → V) (calls : List (Call V)) (cd cd' : PreparedColumnData V) (w : Assoc V)
      → make_calls convert calls cd ≡ done cd'
      → IsLockstep cd w
      → IsLockstep cd' (written convert calls w)
  unfolding make_calls
  make_calls-IsLockstep convert [] cd cd' w h inv = subst (λ d. IsLockstep d w) (ground arith) inv
  make_calls-IsLockstep convert (call ∷ calls) cd cd' w h inv =
      let split = and_then-eq_done (make_call convert call cd) (make_calls convert calls) cd' h in
      make_calls-IsLockstep convert calls split.0 cd' (note_write convert call w) split.2
        (make_call-IsLockstep convert call cd split.0 w split.1 inv)

count_if_le : (p : Text → Bool) (cs : List Text) → count_if p cs ≤ length cs
count_if_le p [] = omega arith
count_if_le p (c ∷ cs) = ground (arith, count_if_le p cs)

all-count_if : (p : Text → Bool) (cs : List Text) → all p cs ≡ (length cs == count_if p cs)
all-count_if p [] = refl
all-count_if p (c ∷ cs) = ground (arith, all-count_if p cs, count_if_le p cs)

take-length : {V : Type 0} (n : ℕ) (xs : List V) → length xs ≡ n → take n xs ≡ xs
take-length zero [] h = refl
take-length zero (x ∷ xs) h = absurd (omega arith)
take-length (suc n) [] h = refl
take-length (suc n) (x ∷ xs) h = ground (arith, take-length n xs)

module _ {V : Type 0} where
  -- After calls of WritePreparedColumn and WritePreparedValue that all succeed, in any order, the
  -- parameters of the statement are, column by column in the order of the statement, the values
  -- written last, if each column has one; otherwise InsertRunParams gives an error.
  pub insert_run_params-make_calls :
      (convert : V → V) (calls : List (Call V)) (cd : PreparedColumnData V)
      → make_calls convert calls no_columns ≡ done cd
      → insert_run_params cd ≡ (
          if all (has_value (written convert calls [])) cd.columns
          then done (map (λ c. lookup c (written convert calls [])) cd.columns)
          else error length_mismatch)
  unfolding insert_run_params
  insert_run_params-make_calls convert calls cd h =
      let inv = make_calls-IsLockstep convert calls no_columns cd [] h no_columns-IsLockstep in
      ground (
        arith,
        inv.values_written,
        inv.columns_counted,
        inv.values_counted,
        all-count_if (has_value (written convert calls [])) cd.columns,
        length-map (λ c. lookup c (written convert calls [])) cd.columns,
        take-length (length cd.value_idx_map) cd.values,
      )
