-- ===== src/TaskStore/Outcome.antt =====
-- What the fields of a task tell of its end: its state, `termination`, `exitCode`, `error`, `result` and
-- `requestedStop` together, in the words of a client.
use enhanced_ssh.Prelude.{
  ℕ, zero, suc, true, String, List, Option, none, some, ◌≡◌, ◌≢◌, refl, arith, Bool-cases,
  Option-cases, inl, inr, subst,
}
use enhanced_ssh.Errors.{Failure, GatewayErrorCode}
use enhanced_ssh.TaskStore.Types.{
  InternalTask, TaskCompletion, TaskState, running, succeeded, failed, timed_out, cancelled,
  ExecutionTermination, exit, timeout, cancel, output_limit, spawn_error, RequestedStop,
  stop_cancelled, stop_timed_out, TaskOutputStream, stdout, stderr, ExitCode, is_running,
}
use enhanced_ssh.TaskStore.Table.{
  complete, fail, append_output, request_stop, stop_for_shutdown, state_for_termination, or_keep,
}

-- The state in which a worker that returned leaves its task: success is a return without a termination,
-- or an exit with code 0, and nothing else.
pub data Verdict (state : TaskState) (termination : Option ExecutionTermination) (code : ExitCode)
    : Type 0 where
  done : termination ≡ none → state ≡ succeeded → Verdict state termination code
  exited_well :
      termination ≡ some exit
      → code ≡ some (some 0)
      → state ≡ succeeded
      → Verdict state termination code
  exited_badly :
      termination ≡ some exit
      → code ≢ some (some 0)
      → state ≡ failed
      → Verdict state termination code
  ran_out : termination ≡ some timeout → state ≡ timed_out → Verdict state termination code
  called_off : termination ≡ some cancel → state ≡ cancelled → Verdict state termination code
  overflowed : termination ≡ some output_limit → state ≡ failed → Verdict state termination code
  not_spawned : termination ≡ some spawn_error → state ≡ failed → Verdict state termination code

state_for_termination-Verdict :
    (termination : Option ExecutionTermination) (code : ExitCode)
    → Verdict (state_for_termination termination code) termination code
unfolding state_for_termination
state_for_termination-Verdict none code = done refl refl
state_for_termination-Verdict (some timeout) code = ran_out refl refl
state_for_termination-Verdict (some cancel) code = called_off refl refl
state_for_termination-Verdict (some output_limit) code = overflowed refl refl
state_for_termination-Verdict (some spawn_error) code = not_spawned refl refl
state_for_termination-Verdict (some exit) none = exited_badly refl (λ e. ground arith) refl
state_for_termination-Verdict (some exit) (some none) = exited_badly refl (λ e. ground arith) refl
state_for_termination-Verdict (some exit) (some (some zero)) = exited_well refl refl refl
state_for_termination-Verdict (some exit) (some (some (suc n))) =
    exited_badly refl (λ e. ground arith) (ground arith)

or_keep-none {ℓ} : {A : Type ℓ} (o : Option A) → or_keep o none ≡ o
or_keep-none none = refl
or_keep-none (some a) = refl

module _ {R : Type 0} where
  pub data Outcome (t : InternalTask R) : Type 0 where
    still_runs :
        t.state ≡ running
        → t.termination ≡ none
        → t.exit_code ≡ none
        → t.result ≡ none
        → t.error ≡ none
        → Outcome t
    was_cancelled :
        t.requested_stop ≡ some stop_cancelled
        → t.state ≡ cancelled
        → t.termination ≡ some cancel
        → t.exit_code ≡ some none
        → t.error ≡ none
        → Outcome t
    was_timed_out :
        t.requested_stop ≡ some stop_timed_out
        → t.state ≡ timed_out
        → t.termination ≡ some timeout
        → t.exit_code ≡ some none
        → t.error ≡ none
        → Outcome t
    threw :
        (reported : GatewayErrorCode × String)
        → t.requested_stop ≡ none
        → t.state ≡ failed
        → t.error ≡ some reported
        → t.termination ≡ none
        → t.exit_code ≡ none
        → t.result ≡ none
        → Outcome t
    returned :
        t.requested_stop ≡ none
        → t.error ≡ none
        → Verdict t.state t.termination t.exit_code
        → Outcome t

  -- A running task has no trace of an end yet.
  record Untouched (t : InternalTask R) : Type 0 where
    state : t.state ≡ running
    termination : t.termination ≡ none
    exit_code : t.exit_code ≡ none
    result : t.result ≡ none
    error : t.error ≡ none

  Outcome-running : (t : InternalTask R) → is_running t.state ≡ true → Outcome t → Untouched t
  Outcome-running t runs (still_runs s m c r e) = record {
    state = s;
    termination = m;
    exit_code = c;
    result = r;
    error = e;
  }
  Outcome-running t runs (was_cancelled q s m c e) = absurd (ground arith)
  Outcome-running t runs (was_timed_out q s m c e) = absurd (ground arith)
  Outcome-running t runs (threw x q s e m c r) = absurd (ground arith)
  Outcome-running t runs (returned q e v) = absurd (Verdict-final _ _ _ v runs)
    where
      Verdict-final :
          (state : TaskState) (m : Option ExecutionTermination) (code : ExitCode)
          → Verdict state m code
          → is_running state ≡ true
          → ⊥
      Verdict-final state m code (done a s) r = ground arith
      Verdict-final state m code (exited_well a b s) r = ground arith
      Verdict-final state m code (exited_badly a b s) r = ground arith
      Verdict-final state m code (ran_out a s) r = ground arith
      Verdict-final state m code (called_off a s) r = ground arith
      Verdict-final state m code (overflowed a s) r = ground arith
      Verdict-final state m code (not_spawned a s) r = ground arith

  pub request_stop-Outcome :
      (stop : RequestedStop) (t : InternalTask R) → Outcome t → Outcome (request_stop stop t)
  unfolding request_stop
  request_stop-Outcome stop t h = elim (Bool-cases (is_running t.state)) [
    | inl runs ↦
        let f = Outcome-running t runs h in
        still_runs (ground (arith, f.state)) (ground (arith, f.termination))
          (ground (arith, f.exit_code)) (ground (arith, f.result)) (ground (arith, f.error))
    | inr ended ↦ subst Outcome (ground arith) h
  ]

  pub append_output-Outcome :
      (now : ℕ) (stream : TaskOutputStream) (bytes : List ℕ) (t : InternalTask R)
      → Outcome t
      → Outcome (append_output now stream bytes t)
  unfolding append_output
  append_output-Outcome now stdout bytes t h = elim (Bool-cases (is_running t.state)) [
    | inl runs ↦
        let f = Outcome-running t runs h in
        rw runs (still_runs f.state f.termination f.exit_code f.result f.error)
    | inr ended ↦ rw ended h
  ]
  append_output-Outcome now stderr bytes t h = elim (Bool-cases (is_running t.state)) [
    | inl runs ↦
        let f = Outcome-running t runs h in
        rw runs (still_runs f.state f.termination f.exit_code f.result f.error)
    | inr ended ↦ rw ended h
  ]

  pub stop_for_shutdown-Outcome : (t : InternalTask R) → Outcome t → Outcome (stop_for_shutdown t)
  unfolding stop_for_shutdown
  stop_for_shutdown-Outcome t h = elim (Bool-cases (is_running t.state)) [
    | inl runs ↦
        let f = Outcome-running t runs h in
        rw runs (still_runs f.state f.termination f.exit_code f.result f.error)
    | inr ended ↦ rw ended h
  ]

  pub complete-Outcome :
      (ttl_ms now : ℕ) (c : TaskCompletion R) (t : InternalTask R)
      → is_running t.state ≡ true
      → Outcome t
      → Outcome (complete ttl_ms now c t)
  unfolding complete
  complete-Outcome ttl_ms now c t runs h =
      let f = Outcome-running t runs h in
      elim (Option-cases t.requested_stop) [
        | inl nothing ↦ rw nothing (
            returned nothing f.error (
              rw (f.termination, f.exit_code, or_keep-none c.termination, or_keep-none c.exit_code)
                (state_for_termination-Verdict c.termination c.exit_code)))
        | inr (stop_cancelled, e) ↦ rw e (was_cancelled e refl refl refl f.error)
        | inr (stop_timed_out, e) ↦ rw e (was_timed_out e refl refl refl f.error)
      ]

  pub fail-Outcome :
      (ttl_ms now : ℕ) (e : Failure) (t : InternalTask R)
      → is_running t.state ≡ true
      → Outcome t
      → Outcome (fail ttl_ms now e t)
  unfolding fail
  fail-Outcome ttl_ms now failure t runs h =
      let f = Outcome-running t runs h in
      elim (Option-cases t.requested_stop) [
        | inl nothing ↦ rw nothing (threw _ nothing refl refl f.termination f.exit_code f.result)
        | inr (stop_cancelled, e) ↦ rw e (was_cancelled e refl refl refl f.error)
        | inr (stop_timed_out, e) ↦ rw e (was_timed_out e refl refl refl f.error)
      ]
