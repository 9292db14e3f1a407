-- ===== src/Api/World.antt =====
-- The environment of pkg/api/message_handler.go: the state database, the script files, the clock,
-- the cache and the data processors. Each call is answered by a function of the calls made so far,
-- about which nothing is assumed, so what is proved holds whatever the environment answers.
use Prim.Native.String.{String}
use capillaries.Prelude.{Bool, false, Option, none, some, List, ◌∷◌, if◌then◌else◌}
use capillaries.Prelude.Int.{ℤ}
use capillaries.Prelude.Text.{Text}
use capillaries.Prelude.Assoc.{Assoc}
use capillaries.Wfmodel.Row.{Row, Time, Result, ok, err}
use capillaries.Wfmodel.Status.{NodeBatchStatus, RunStatus}
use capillaries.Dpc.Policy.{DependencyPolicyDef, NodeCmd}

-- What the handler tells apart in the text of an error: a lost connection, a duplicate record.
pub record Error : Type 0 where
  pub is_conn : Bool
  pub is_duplicate : Bool

-- An error of the code's own, or of a deserializer.
abbrev pub plain_error : Error
plain_error = record { is_conn = false; is_duplicate = false }

pub data Reply {ℓ} (A : Type ℓ) : Type ℓ where
  got : A → Reply A
  failed : Error → Reply A

pub data RerunPolicy : Type 0 where
  node_rerun node_fail other_policy : RerunPolicy

-- The fields of a script node that the handler reads: a table reader's table and a lookup's table.
pub record ScriptNode : Type 0 where
  pub rerun_policy : RerunPolicy
  pub max_batch_processing_time : ℤ
  pub reader_table : Option Text
  pub lookup_table : Option Text
  pub dep_pol_def : DependencyPolicyDef

pub record Script : Type 0 where
  pub script_nodes : Assoc ScriptNode
  pub table_creator_nodes : Assoc Text

pub data ScriptInit : Type 0 where
  script_loaded : Script → ScriptInit
  url_problem content_problem connectivity_problem unknown_problem : ScriptInit

-- The fields of wfmodel.Message that the handler reads.
pub record BatchMessage : Type 0 where
  pub run_id : ℤ
  pub target_node_name : Text
  pub batch_idx : ℤ
  pub batches_total : ℤ

-- The answer of the cache of dependency checks: its text is parsed, or it cannot be.
pub data Cached : Type 0 where
  cache_miss cache_unparsed : Cached
  cache_hit : String → ℤ → ℤ → ℤ → ℤ → Cached

pub data Call : Type 0 where
  db_connect get_run_status_rows new_script_from_files get_single_batch_status_rows : Call
  get_all_batch_history get_run_properties get_node_history : Call
  get_all_runs_properties get_run_history get_dependency_history : Call
  cache_get cache_remove read_clock : Call
  cache_add : NodeCmd → ℤ → ℤ → ℤ → ℤ → Call
  set_batch_status : NodeBatchStatus → Call
  set_node_status : NodeBatchStatus → Call
  set_run_status : RunStatus → Call
  delete_data_and_unique_indexes : Call
  call_processor : ℤ → ℤ → Call

-- The calls made so far, the latest first.
abbrev pub Trace : Type 0
Trace = List Call

pub record Env : Type 0 where
  pub connect : Trace → Option Error
  pub run_status_rows : Trace → Reply (List Row)
  pub script : Trace → ScriptInit
  pub single_batch_rows : Trace → Reply (List Row)
  pub all_batch_rows : Trace → Reply (List Row)
  pub run_properties_row : Trace → Reply Row
  pub node_history_rows : Trace → Reply (List Row)
  pub all_runs_properties_rows : Trace → Reply (List Row)
  pub run_history_rows : Trace → Reply (List Row)
  pub dependency_history_rows : Trace → Reply (List Row)
  pub has_cache : Bool
  pub cached : Trace → Cached
  pub now : Trace → Time
  pub write : Call → Trace → Option Error
  pub delete_leftovers : Trace → Option Error
  pub processor : ℤ → ℤ → Trace → Reply NodeBatchStatus

abbrev pub M : Type 0 → Type 0
M A = Trace → A × Trace

infixl 5 ◌>>=◌ ◌>>◌
abbrev pub ◌>>=◌ : {A B : Type 0} → M A → (A → M B) → M B
◌>>=◌ m f t = f (m t).0 (m t).1

abbrev pub ◌>>◌ : {A B : Type 0} → M A → M B → M B
m >> k = m >>= λ _. k

abbrev pub pure : {A : Type 0} → A → M A
pure a t = (a, t)

-- A call, recorded in the trace, and its answer.
abbrev pub call : {A : Type 0} → Call → (Trace → A) → M A
call c answer t = (answer t, c ∷ t)

-- A deserializer's error is one that the handler does not recognise.
abbrev pub decoded {ℓ} : {A : Type ℓ} → Result A → Reply A
decoded (ok a) = got a
decoded (err e) = failed plain_error

-- The continuation of a call that may fail, and the same with the error handed on.
abbrev pub on_reply : {A B : Type 0} → Reply A → (Error → M B) → (A → M B) → M B
on_reply (got a) h k = k a
on_reply (failed e) h k = h e

abbrev pub on_error : {B : Type 0} → Option Error → (Error → M B) → M B → M B
on_error none h k = k
on_error (some e) h k = h e

pub data Acknowledge : Type 0 where
  ack retry : Acknowledge

-- Retry on a lost connection, acknowledge any other error.
abbrev pub retry_if_conn : Error → M Acknowledge
retry_if_conn e = pure (if e.is_conn then retry else ack)

pub data FurtherProcessing : Type 0 where
  proceed further_ack further_retry : FurtherProcessing

-- Case analysis on an answer.
pub on_reply_ind {ℓ} :
    {A B : Type 0} (P : M B → Type ℓ) (r : Reply A) (h : Error → M B) (k : A → M B)
    → ((e : Error) → P (h e))
    → ((a : A) → P (k a))
    → P (on_reply r h k)
on_reply_ind P (got a) h k hh hk = hk a
on_reply_ind P (failed e) h k hh hk = hh e

pub on_error_ind {ℓ} :
    {B : Type 0} (P : M B → Type ℓ) (r : Option Error) (h : Error → M B) (k : M B)
    → ((e : Error) → P (h e))
    → P k
    → P (on_error r h k)
on_error_ind P none h k hh hk = hk
on_error_ind P (some e) h k hh hk = hh e
