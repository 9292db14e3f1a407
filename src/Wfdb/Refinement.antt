-- ===== src/Wfdb/Refinement.antt =====
-- Each step of the callers of GetNextRunCounter, pkg/wfdb/run_counter.go, is a step of the counter:
-- retries and lost answers leave the counter as it is, or lose an id.
use capillaries.Prelude.{
  ◌≡◌, refl, ap, sym, ◌∙◌, Bool, false, true, All, All-append, All-set_at, All-get_elem?, [], ◌∷◌,
  ◌++◌, ◌+◌, ◌≤◌, ◌<◌, ℕ, suc, arith, none, some, map, get_elem?, set_at, get_elem?-map, map-set_at,
  map-append,
}
use mathlib.Core.Path.{subst}
use capillaries.Prelude.Int.{ℤ, pos, int_eq, wrap16, wrap16_of_fits, eq_of_int_eq}
use capillaries.Prelude.Outcome.{done, error}
use capillaries.Wfmodel.Row.{int_value}
use capillaries.Wfdb.RunCounter.{
  Caller, selecting, updating, returned, failed, on_update, next_round,
  cannot_increment_run_counter, get_next_run_counter, new_run_id,
}
use capillaries.Wfdb.Counter.{
  Counter, CounterStep, idle, join, give, lose, issued, IsGuarded, IsWaiting, Refines,
  Refines-waiting, guarded_lt, new_run_id_pos, on_select-IsWaiting, next_round-IsWaiting,
}
use capillaries.Wfdb.Callers.{
  Keyspace, Step, call, select, select_lost, update, update_lost, update_if,
}

-- The counter makes a step to one that the keyspace stands for.
abbrev IsSimulated : Keyspace → Counter → Type 0
IsSimulated t a = (b : Counter) × CounterStep a b × Refines t b

waiting-IsSimulated :
    (s t : Keyspace) (a : Counter) (i : ℕ) (c d : Caller)
    → Refines s a
    → get_elem? s.callers i ≡ some c
    → issued c ≡ none
    → IsWaiting d
    → t.last_run ≡ s.last_run
    → t.callers ≡ set_at i d s.callers
    → IsSimulated t a
waiting-IsSimulated s t a i c d r e n w same callers =
    let kept = Refines-waiting s a i c d r e n w in
    (
      a,
      idle refl,
      record {
        register = same ∙ kept.register;
        bounded = kept.bounded;
        ids = ap (map issued) callers ∙ kept.ids;
        guarded = subst (All IsGuarded) (sym callers) kept.guarded;
      },
    )

-- An update that is applied and answered gives its caller the next id.
applied-IsSimulated :
    (s t : Keyspace) (a : Counter) (i retry : ℕ)
    → Refines s a
    → get_elem? s.callers i ≡ some (updating retry (pos a.last))
    → t.last_run ≡ pos (suc a.last)
    → t.callers ≡ set_at i (returned (pos (suc a.last))) s.callers
    → IsSimulated t a
applied-IsSimulated s t a i retry r e l callers =
    let guard = All-get_elem? IsGuarded i s.callers (updating retry (pos a.last)) e r.guarded in
    let room : a.last < 32767 = guarded_lt retry a.last r.bounded guard in
    let id : Caller = returned (pos (suc a.last)) in
    (
      record { last = suc a.last; given = set_at i (some (pos (suc a.last))) a.given },
      give i
          (subst (λ g. get_elem? g i ≡ some none) r.ids
            (get_elem?-map issued s.callers i (updating retry (pos a.last)) e))
          room refl,
      record {
        register = l;
        bounded = room;
        ids =
            ap (map issued) callers
            ∙ map-set_at issued i id s.callers
            ∙ ap (set_at i (issued id)) r.ids;
        guarded =
            subst (All IsGuarded) (sym callers) (All-set_at IsGuarded i id s.callers tt r.guarded);
      },
    )

-- An update that is applied and whose answer is lost loses the id.
lost-IsSimulated :
    (s t : Keyspace) (a : Counter) (i retry : ℕ) (d : Caller)
    → Refines s a
    → get_elem? s.callers i ≡ some (updating retry (pos a.last))
    → IsWaiting d
    → t.last_run ≡ pos (suc a.last)
    → t.callers ≡ set_at i d s.callers
    → IsSimulated t a
lost-IsSimulated s t a i retry d r e w l callers =
    let guard = All-get_elem? IsGuarded i s.callers (updating retry (pos a.last)) e r.guarded in
    let room : a.last < 32767 = guarded_lt retry a.last r.bounded guard in
    let kept = Refines-waiting s a i (updating retry (pos a.last)) d r e refl w in
    (
      record { last = suc a.last; given = a.given },
      lose room refl,
      record {
        register = l;
        bounded = room;
        ids = ap (map issued) callers ∙ kept.ids;
        guarded = subst (All IsGuarded) (sym callers) kept.guarded;
      },
    )

-- What an update does to the register, applied or not.
update_if_same :
    (n : ℕ) (last seen : ℤ)
    → n ≤ 32767
    → last ≡ pos n
    → int_eq last seen ≡ true
    → (seen ≡ pos n) × (update_if last seen ≡ pos (suc n))
unfolding update_if
update_if_same n last seen b l h =
    let same : seen ≡ pos n = sym (eq_of_int_eq last seen h) ∙ l in
    (same, rw h (rw same (new_run_id_pos n b)))

update_if_other : (last seen : ℤ) → int_eq last seen ≡ false → update_if last seen ≡ last
unfolding update_if
update_if_other last seen h = rw h refl

next_id : (n : ℕ) (seen : ℤ) → n < 32767 → seen ≡ pos n → wrap16 (new_run_id seen) ≡ pos (suc n)
next_id n seen room e =
    rw e (
      rw (new_run_id_pos n (omega arith))
        (wrap16_of_fits (pos (suc n)) (omega arith) (omega arith)))

update-IsSimulated :
    (s t : Keyspace) (a : Counter) (i retry : ℕ) (seen : ℤ) (b : Bool)
    → Refines s a
    → get_elem? s.callers i ≡ some (updating retry seen)
    → int_eq s.last_run seen ≡ b
    → t.last_run ≡ update_if s.last_run seen
    → t.callers ≡ set_at i (on_update retry seen (done b)) s.callers
    → IsSimulated t a
unfolding on_update
update-IsSimulated s t a i retry seen true r e h l callers =
    let same = update_if_same a.last s.last_run seen r.bounded r.register h in
    let guard = All-get_elem? IsGuarded i s.callers (updating retry seen) e r.guarded in
    let room : a.last < 32767 =
      guarded_lt retry a.last r.bounded (subst (λ v. IsGuarded (updating retry v)) same.0 guard) in
    let id : wrap16 (new_run_id seen) ≡ pos (suc a.last) = next_id a.last seen room same.0 in
    applied-IsSimulated s t a i retry r (e ∙ ap (λ v. some (updating retry v)) same.0) (l ∙ same.1)
      (callers ∙ ap (λ v. set_at i (returned v) s.callers) id)
update-IsSimulated s t a i retry seen false r e h l callers =
    waiting-IsSimulated s t a i (updating retry seen) (next_round (retry + 1)) r e refl
      (next_round-IsWaiting (retry + 1)) (l ∙ update_if_other s.last_run seen h) callers

update_lost-IsSimulated :
    (s t : Keyspace) (a : Counter) (i retry : ℕ) (seen : ℤ) (b : Bool)
    → Refines s a
    → get_elem? s.callers i ≡ some (updating retry seen)
    → int_eq s.last_run seen ≡ b
    → t.last_run ≡ update_if s.last_run seen
    → t.callers ≡ set_at i (failed cannot_increment_run_counter) s.callers
    → IsSimulated t a
update_lost-IsSimulated s t a i retry seen true r e h l callers =
    let same = update_if_same a.last s.last_run seen r.bounded r.register h in
    lost-IsSimulated s t a i retry (failed cannot_increment_run_counter) r
      (e ∙ ap (λ v. some (updating retry v)) same.0) (refl, tt) (l ∙ same.1) callers
update_lost-IsSimulated s t a i retry seen false r e h l callers =
    waiting-IsSimulated s t a i (updating retry seen) (failed cannot_increment_run_counter) r e refl
      (refl, tt) (l ∙ update_if_other s.last_run seen h) callers

-- A caller that comes in has no id.
joined :
    (s : Keyspace) (a : Counter)
    → Refines s a
    → map issued s.callers ++ issued get_next_run_counter ∷ [] ≡ a.given ++ none ∷ []
unfolding get_next_run_counter
joined s a r = rw ((next_round-IsWaiting 0).0, r.ids) refl

-- Each step of the callers and of the database is a step of the counter: it gives a caller without
-- an id the next id, or loses that id, or lets a caller in, or leaves the counter as it is.
pub Step-IsSimulated :
    (s t : Keyspace) (a : Counter)
    → Step s t
    → Refines s a
    → (b : Counter) × CounterStep a b × Refines t b
unfolding on_update get_next_run_counter
Step-IsSimulated s t a (call e) r = (
  record { last = a.last; given = a.given ++ none ∷ [] },
  join refl,
  record {
    register = ap (λ k. k.last_run) e ∙ r.register;
    bounded = r.bounded;
    ids =
        ap (λ k. map issued k.callers) e
        ∙ map-append issued s.callers (get_next_run_counter ∷ [])
        ∙ joined s a r;
    guarded =
        subst (λ k. All IsGuarded k.callers) (sym e)
          (All-append IsGuarded s.callers (get_next_run_counter ∷ []) r.guarded
            ((next_round-IsWaiting 0).1, tt));
  },
)
Step-IsSimulated s t a (select i retry h e) r =
    waiting-IsSimulated s t a i (selecting retry) _ r h refl
      (on_select-IsWaiting retry (done ((("last_run", int_value s.last_run) ∷ []) ∷ [])))
      (ap (λ k. k.last_run) e) (ap (λ k. k.callers) e)
Step-IsSimulated s t a (select_lost i retry why h e) r =
    waiting-IsSimulated s t a i (selecting retry) _ r h refl (on_select-IsWaiting retry (error why))
      (ap (λ k. k.last_run) e) (ap (λ k. k.callers) e)
Step-IsSimulated s t a (update i retry seen h e) r =
    update-IsSimulated s t a i retry seen (int_eq s.last_run seen) r h refl (ap (λ k. k.last_run) e)
      (ap (λ k. k.callers) e)
Step-IsSimulated s t a (update_lost i retry seen why false h e) r =
    waiting-IsSimulated s t a i (updating retry seen) (failed cannot_increment_run_counter) r h refl
      (refl, tt) (ap (λ k. k.last_run) e) (ap (λ k. k.callers) e)
Step-IsSimulated s t a (update_lost i retry seen why true h e) r =
    update_lost-IsSimulated s t a i retry seen (int_eq s.last_run seen) r h refl
      (ap (λ k. k.last_run) e) (ap (λ k. k.callers) e)
