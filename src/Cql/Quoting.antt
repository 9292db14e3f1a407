-- ===== src/Cql/Quoting.antt =====
-- How CQL reads the string literals that pkg/cql/cql_query_builder.go writes: a literal ends at a
-- quote that no other quote follows, and two quotes in a row stand for one.
use capillaries.Prelude.{
  ◌≡◌, ◌≢◌, refl, Bool, true, false, List, [], ◌∷◌, ◌++◌, Option, some, none, ℕ, zero, suc, arith,
  if◌then◌else◌, ◌==◌, length, map, drop, take, take-append, drop-append,
}
use mathlib.Core.List.{append_assoc}
use capillaries.Prelude.Text.{Text, bytes, has_prefix}
use capillaries.Cql.Value.{
  double_quotes, join, value_to_string, text_value, leave_quote_as_is, quoted,
}
use capillaries.Cql.Builder.{in_string_condition}

abbrev in_front : ℕ → Option (Text × Text) → Option (Text × Text)
in_front b none = none
in_front b (some r) = some (b ∷ r.0, r.1)

-- The text of a literal, from behind its opening quote, and what stands behind it. The flag says
-- that the last byte was a quote whose meaning is open.
unfoldable pub read_string : Bool → Text → Option (Text × Text)
read_string false [] = none
read_string true [] = some ([], [])
read_string false (b ∷ s) =
    let pending = read_string true s in
    let plain = read_string false s in if b == 39 then pending else in_front b plain
read_string true (b ∷ s) =
    let plain = read_string false s in if b == 39 then in_front 39 plain else some ([], b ∷ s)

-- A text that does not continue a literal.
abbrev pub IsOutside : Text → Type 0
IsOutside [] = Unit
IsOutside (b ∷ s) = b ≢ 39

read_string-outside : (s : Text) → IsOutside s → read_string true s ≡ some ([], s)
unfolding read_string
read_string-outside [] h = refl
read_string-outside (b ∷ s) h = ground arith

pub read_string-double_quotes :
    (s rest : Text)
    → IsOutside rest
    → read_string false (double_quotes s ++ 39 ∷ rest) ≡ some (s, rest)
unfolding read_string double_quotes
read_string-double_quotes [] rest h = read_string-outside rest h
read_string-double_quotes (b ∷ s) rest h = ground (arith, read_string-double_quotes s rest h)

-- The literals of a list, from behind the first opening quote, at most as many as the fuel.
unfoldable pub read_strings : ℕ → Text → Option (List Text × Text)
read_strings zero t = none
read_strings (suc n) t = elim (read_string false t) [
  | none ↦ none
  | some r ↦ elim (has_prefix r.1 (bytes ", '")) [
    | false ↦ some (r.0 ∷ [], r.1)
    | true ↦ elim (read_strings n (drop 3 r.1)) [
      | none ↦ none
      | some more ↦ some (r.0 ∷ more.0, more.1)
    ]
  ]
]

read_strings_last :
    (n : ℕ) (t v r : Text)
    → read_string false t ≡ some (v, r)
    → has_prefix r (bytes ", '") ≡ false
    → read_strings (suc n) t ≡ some (v ∷ [], r)
unfolding read_strings
read_strings_last n t v r e h = ground arith

read_strings_more :
    (n : ℕ) (t v r : Text) (vs : List Text) (u : Text)
    → read_string false t ≡ some (v, r)
    → has_prefix r (bytes ", '") ≡ true
    → read_strings n (drop 3 r) ≡ some (vs, u)
    → read_strings (suc n) t ≡ some (v ∷ vs, u)
unfolding read_strings
read_strings_more n t v r vs u e h m = ground arith

read_strings-join :
    (v : Text) (vs : List Text)
    → read_strings
        (length (v ∷ vs))
        (join (bytes "', '") (map double_quotes (v ∷ vs)) ++ bytes "' )")
      ≡ some (v ∷ vs, bytes " )")
unfolding join has_prefix
read_strings-join v [] =
    read_strings_last 0 (double_quotes v ++ bytes "' )") v (bytes " )")
      (read_string-double_quotes v (bytes " )") (ground arith)) refl
read_strings-join v (w ∷ vs) =
    let rest : Text = join (bytes "', '") (map double_quotes (w ∷ vs)) in
    rw
      (
        append_assoc (double_quotes v ++ bytes "', '") rest (bytes "' )"),
        append_assoc (double_quotes v) (bytes "', '") (rest ++ bytes "' )"),
      )
      (read_strings_more (length (w ∷ vs))
        (double_quotes v ++ (bytes "', '" ++ (rest ++ bytes "' )"))) v
        (bytes ", '" ++ (rest ++ bytes "' )")) (w ∷ vs) (bytes " )")
        (read_string-double_quotes v (bytes ", '" ++ (rest ++ bytes "' )")) (ground arith)) refl
        (read_strings-join w vs))

-- The condition of CondInString on values that are not empty is read back by CQL as the column, the
-- list of exactly these values, whatever bytes they have, and the closing parenthesis.
pub read_strings-in_string_condition :
    (column v : Text) (vs : List Text)
    → (take (length column) (in_string_condition column (v ∷ vs)) ≡ column)
      × (read_strings
            (length (v ∷ vs))
            (drop (length (column ++ bytes " IN ( '")) (in_string_condition column (v ∷ vs)))
          ≡ some (v ∷ vs, bytes " )"))
unfolding in_string_condition
read_strings-in_string_condition column v vs =
    let items : Text = join (bytes "', '") (map double_quotes (v ∷ vs)) in
    let tail : Text = items ++ bytes "' )" in
    let shape : in_string_condition column (v ∷ vs) ≡ column ++ bytes " IN ( '" ++ tail =
      append_assoc (column ++ bytes " IN ( '") items (bytes "' )") in
    (
      rw (shape, append_assoc column (bytes " IN ( '") tail)
          (take-append column (bytes " IN ( '" ++ tail)),
      rw (shape, drop-append (column ++ bytes " IN ( '") tail) (read_strings-join v vs),
    )

-- A text value that Write, Cond or If puts into a statement is read back by CQL as this text,
-- whatever bytes it has, and what follows the literal is left as it is.
pub read_string-value_to_string :
    (s rest : Text)
    → IsOutside rest
    → read_string false (drop 1 (value_to_string (text_value s) leave_quote_as_is ++ rest))
      ≡ some (s, rest)
unfolding value_to_string quoted
read_string-value_to_string s rest h =
    rw (append_assoc (double_quotes s) (39 ∷ []) rest) (read_string-double_quotes s rest h)
