-- ===== src/Cql/Calls.antt =====
-- Sequences of calls that prepare a statement, pkg/cql/cql_query_builder.go, and what they write.
use capillaries.Prelude.{
  ◌≡◌, refl, Bool, true, false, List, [], ◌∷◌, ℕ, zero, suc, ◌+◌, ◌≤◌, Option, none, some, arith,
  length, map, count_if, get_elem?, set_at, if◌then◌else◌,
}
use capillaries.Prelude.Text.{Text, text_eq, text_eq_refl, eq_of_text_eq}
use capillaries.Prelude.Assoc.{Assoc, lookup, put, delete, count_key, lookup-put}
use capillaries.Prelude.Outcome.{Outcome, done, and_then}
use capillaries.Cql.Prepared.{PreparedColumnData, PreparedError, add_column_name, add_column_value}

abbrev pub is_some : {V : Type 0} → Option V → Bool
is_some none = false
is_some (some v) = true

-- The columns that have a value.
abbrev pub has_value : {V : Type 0} → Assoc V → Text → Bool
has_value w c = is_some (lookup c w)

found_below :
    (c : Text) (cs : List Text) (i : ℕ) → get_elem? cs i ≡ some c → 1 ≤ count_if (text_eq c) cs
found_below c [] i g = cc
found_below c (d ∷ cs) zero g = ground (arith, text_eq_refl c)
found_below c (d ∷ cs) (suc i) g = ground (arith, found_below c cs i g)

module _ {V : Type 0} where
  length-delete : (k : Text) (m : Assoc V) → length (delete k m) + count_key k m ≡ length m
  unfolding delete
  length-delete k [] = omega arith
  length-delete k ((j, v) ∷ m) = ground (arith, length-delete k m)

  pub length-put :
      (k : Text) (v : V) (m : Assoc V) → length (put k v m) + count_key k m ≡ suc (length m)
  unfolding put
  length-put k v m = omega (arith, length-delete k m)

  -- Where a key is not, a write of it changes nothing.
  map_absent :
      (c : Text) (v : V) (w : Assoc V) (cs : List Text)
      → count_if (text_eq c) cs ≡ 0
      → map (λ d. lookup d w) cs ≡ map (λ d. lookup d (put c v w)) cs
  map_absent c v w [] n = refl
  map_absent c v w (d ∷ cs) n = ground (arith, map_absent c v w cs, lookup-put c d v w)

  -- Where it is once, a write of it changes this place.
  pub set_at-map :
      (c : Text) (v : V) (w : Assoc V) (i : ℕ) (cs : List Text)
      → get_elem? cs i ≡ some c
      → count_if (text_eq c) cs ≡ 1
      → set_at i (some v) (map (λ d. lookup d w) cs) ≡ map (λ d. lookup d (put c v w)) cs
  set_at-map c v w i [] g n = cc
  set_at-map c v w zero (d ∷ cs) g n =
      ground (arith, map_absent c v w cs, lookup-put c d v w, text_eq_refl c)
  set_at-map c v w (suc i) (d ∷ cs) g n =
      ground (arith, set_at-map c v w i cs, lookup-put c d v w, found_below c cs i)

  pub count_has_value :
      (c : Text) (v : V) (w : Assoc V) (cs : List Text)
      → count_if (has_value (put c v w)) cs ≡ (
          if has_value w c
          then count_if (has_value w) cs
          else count_if (has_value w) cs + count_if (text_eq c) cs)
  count_has_value c v w [] = ground arith
  count_has_value c v w (d ∷ cs) =
      ground (arith, count_has_value c v w cs, lookup-put c d v w, eq_of_text_eq c d)

-- A call of WritePreparedColumn or WritePreparedValue.
pub data Call (V : Type 0) : Type 0 where
  column : Text → Call V
  value : Text → V → Call V

module _ {V : Type 0} (convert : V → V) where
  unfoldable pub make_call :
      Call V → PreparedColumnData V → Outcome PreparedError (PreparedColumnData V)
  make_call (column c) cd = add_column_name c cd
  make_call (value c v) cd = add_column_value convert c v cd

  unfoldable pub make_calls :
      List (Call V) → PreparedColumnData V → Outcome PreparedError (PreparedColumnData V)
  make_calls [] cd = done cd
  make_calls (call ∷ calls) cd = and_then (make_call call cd) (make_calls calls)

  -- What is written: for each column the converted value of the last call with this column.
  abbrev pub note_write : Call V → Assoc V → Assoc V
  note_write (column c) w = w
  note_write (value c v) w = put c (convert v) w

  abbrev pub written : List (Call V) → Assoc V → Assoc V
  written [] w = w
  written (call ∷ calls) w = written calls (note_write call w)
