-- ===== src/Wfdb/Callers.antt =====
-- Concurrent callers of GetNextRunCounter, pkg/wfdb/run_counter.go, on one row of the table of run
-- counters. Each query takes effect at once; its answer may be lost, and an update whose answer is
-- lost may have been applied.
use capillaries.Prelude.{◌≡◌, List, [], ◌∷◌, ◌++◌, Bool, ℕ, get_elem?, set_at, some, if◌then◌else◌}
use capillaries.Prelude.Int.{ℤ, pos, int_eq}
use capillaries.Prelude.Outcome.{done, error}
use capillaries.Wfmodel.Row.{int_value}
use capillaries.Wfdb.RunCounter.{
  Caller, CounterError, selecting, updating, on_select, on_update, new_run_id, get_next_run_counter,
}

pub record Keyspace : Type 0 where
  pub last_run : ℤ
  pub callers : List Caller

-- `UPDATE ... SET last_run = new IF last_run = seen`
unfoldable pub update_if : ℤ → ℤ → ℤ
update_if last seen = if int_eq last seen then new_run_id seen else last

pub data Step (s t : Keyspace) : Type 0 where
  call :
      t ≡ record { last_run = s.last_run; callers = s.callers ++ get_next_run_counter ∷ [] }
      → Step s t
  select :
      (i retry : ℕ)
      → get_elem? s.callers i ≡ some (selecting retry)
      → t ≡ record {
        last_run = s.last_run;
        callers =
            set_at i
              (on_select retry (done ((("last_run", int_value s.last_run) ∷ []) ∷ [])))
              s.callers;
      }
      → Step s t
  select_lost :
      (i retry : ℕ) (e : CounterError)
      → get_elem? s.callers i ≡ some (selecting retry)
      → t
        ≡ record { last_run = s.last_run; callers = set_at i (on_select retry (error e)) s.callers }
      → Step s t
  update :
      (i retry : ℕ) (seen : ℤ)
      → get_elem? s.callers i ≡ some (updating retry seen)
      → t ≡ record {
        last_run = update_if s.last_run seen;
        callers = set_at i (on_update retry seen (done (int_eq s.last_run seen))) s.callers;
      }
      → Step s t
  update_lost :
      (i retry : ℕ) (seen : ℤ) (e : CounterError) (applied : Bool)
      → get_elem? s.callers i ≡ some (updating retry seen)
      → t ≡ record {
        last_run = if applied then update_if s.last_run seen else s.last_run;
        callers = set_at i (on_update retry seen (error e)) s.callers;
      }
      → Step s t

pub data Reach (s : Keyspace) : Keyspace → Type 0 where
  at_start : Reach s s
  after : {t u : Keyspace} → Reach s t → Step t u → Reach s u

-- A keyspace before its first run.
abbrev pub no_runs : Keyspace
no_runs = record { last_run = pos 0; callers = [] }
