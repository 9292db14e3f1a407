-- ===== src/Cql/Tables.antt =====
-- The names of the tables of a run, pkg/cql/cql_query_builder.go: different runs and different
-- tables have different names.
use capillaries.Prelude.{
  ◌≡◌, refl, sym, ap, ◌∙◌, [], ◌∷◌, ◌++◌, ℕ, zero, suc, ◌+◌, ◌-◌, ◌*◌, ◌/◌, ◌%◌, ◌≤◌, ◌<◌, arith,
  length, length-append, drop, drop-append,
}
use capillaries.Prelude.Int.{pos}
use capillaries.Prelude.Text.{Text}
use capillaries.Prelude.Decimal.{digits}
use capillaries.Cql.Value.{padded, run_id_suffix, zeros}
use capillaries.Cql.Builder.{QueryBuilder}
use capillaries.Cql.Statements.{table_name}

-- The number that a text of digits stands for, behind a number already read.
unfoldable pub from_digits : ℕ → Text → ℕ
from_digits n [] = n
from_digits n (d ∷ s) = from_digits (n * 10 + (d - 48)) s

abbrev pub pow10 : ℕ → ℕ
pow10 zero = 1
pow10 (suc n) = 10 * pow10 n

from_digits-digits :
    (fuel n : ℕ) (found : Text)
    → n < pow10 fuel
    → from_digits 0 (digits fuel n found) ≡ from_digits n found
unfolding from_digits digits
from_digits-digits zero n found h = ground arith
from_digits-digits (suc fuel) n found h =
    ground (arith, from_digits-digits fuel (n / 10) ((48 + n % 10) ∷ found))

length-digits :
    (fuel g n : ℕ) (found : Text)
    → suc g ≤ fuel
    → n < pow10 (suc g)
    → length (digits fuel n found) ≤ suc g + length found
unfolding digits
length-digits zero g n found b h = absurd (omega arith)
length-digits (suc fuel) zero n found b h = ground arith
length-digits (suc fuel) (suc g) n found b h =
    ground (arith, length-digits fuel g (n / 10) ((48 + n % 10) ∷ found))

from_digits-zeros : (k : ℕ) (s : Text) → from_digits 0 (zeros k ++ s) ≡ from_digits 0 s
unfolding from_digits zeros
from_digits-zeros zero s = refl
from_digits-zeros (suc k) s = from_digits-zeros k s

length-zeros : (k : ℕ) → length (zeros k) ≡ k
unfolding zeros
length-zeros zero = refl
length-zeros (suc k) = ap suc (length-zeros k)

-- Five digits, which stand for the number.
from_digits-padded : (n : ℕ) → n < 100000 → from_digits 0 (padded n) ≡ n
unfolding padded from_digits
from_digits-padded n h =
    from_digits-zeros (5 - length (digits 20 n [])) (digits 20 n [])
    ∙ from_digits-digits 20 n [] (omega arith)

length-padded : (n : ℕ) → n < 100000 → length (padded n) ≡ 5
unfolding padded
length-padded n h =
    let short : length (digits 20 n []) ≤ 5 = length-digits 20 4 n [] (omega arith) (omega arith) in
    omega (
      arith,
      short,
      length-append (zeros (5 - length (digits 20 n []))) (digits 20 n []),
      length-zeros (5 - length (digits 20 n [])),
    )

-- Texts with ends of one length are split in one way.
append_split : (a b c d : Text) → length b ≡ length d → a ++ b ≡ c ++ d → (a ≡ c) × (b ≡ d)
append_split [] b [] d n e = (refl, e)
append_split [] b (x ∷ c) d n e = absurd (omega (arith, n, ap length e, length-append (x ∷ c) d))
append_split (x ∷ a) b [] d n e = absurd (omega (arith, n, ap length e, length-append (x ∷ a) b))
append_split (x ∷ a) b (y ∷ c) d n e =
    let rest = append_split a b c d n (ground arith) in (ground (arith, rest), rest.1)

-- Two runs, or two tables, have different table names: for run ids in the range of a positive int16,
-- equal names in a keyspace are those of the same table and of the same run.
pub table_name_injective :
    (qb : QueryBuilder) (a b : Text) (m n : ℕ)
    → 1 ≤ m
    → m ≤ 32767
    → 1 ≤ n
    → n ≤ 32767
    → table_name qb a (pos m) ≡ table_name qb b (pos n)
    → (a ≡ b) × (m ≡ n)
unfolding table_name run_id_suffix
table_name_injective qb a b zero n hm bm hn bn e = absurd (omega arith)
table_name_injective qb a b (suc m) zero hm bm hn bn e = absurd (omega arith)
table_name_injective qb a b (suc m) (suc n) hm bm hn bn e =
    let parts =
      append_split (qb.formatted_keyspace ++ a) (95 ∷ padded (suc m)) (qb.formatted_keyspace ++ b)
        (95 ∷ padded (suc n))
        (omega (arith, length-padded (suc m) (omega arith), length-padded (suc n) (omega arith)))
        e in
    (
      sym (drop-append qb.formatted_keyspace a)
          ∙ ap (drop (length qb.formatted_keyspace)) parts.0
          ∙ drop-append qb.formatted_keyspace b,
      sym (from_digits-padded (suc m) (omega arith))
          ∙ ap (λ s. from_digits 0 (drop 1 s)) parts.1
          ∙ from_digits-padded (suc n) (omega arith),
    )
