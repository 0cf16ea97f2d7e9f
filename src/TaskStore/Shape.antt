-- ===== src/TaskStore/Shape.antt =====
-- The shape of a task: when its times are set, what a requested stop entails, and what its end leaves in
-- its fields. Every change of a task keeps it.
use enhanced_ssh.Prelude.{ℕ, ◌+◌, true, false, List, Option, none, some, ◌≡◌, refl, ◌⊎◌, inr, arith}
use enhanced_ssh.Errors.{Failure}
use enhanced_ssh.TaskStore.Types.{
  InternalTask, TaskCompletion, ExecutionTermination, RequestedStop, TaskOutputStream, stdout,
  stderr, is_running, state_of_stop, termination_of_stop,
}
use enhanced_ssh.TaskStore.Table.{
  complete, fail, append_output, request_stop, stop_for_shutdown, state_for_termination,
}
use enhanced_ssh.TaskStore.Outcome.{
  Outcome, request_stop-Outcome, append_output-Outcome, stop_for_shutdown-Outcome, complete-Outcome,
  fail-Outcome,
}
use enhanced_ssh.TaskStore.ChangeLaws.{Keeps}

state_for_termination-final :
    (termination : Option ExecutionTermination) (exit_code : Option (Option ℕ))
    → is_running (state_for_termination termination exit_code) ≡ false
unfolding state_for_termination
state_for_termination-final termination exit_code = ground arith

module _ {R : Type 0} where
  -- A running task has no final times; a finished one expires `ttl_ms` after it finished.
  abbrev pub TimesFit : ℕ → InternalTask R → Type 0
  TimesFit ttl_ms t =
      ((is_running t.state ≡ true) × (t.finished_at_ms ≡ none) × (t.expires_at_ms ≡ none))
      ⊎ ((finished : ℕ) × (is_running t.state ≡ false)
          × (t.finished_at_ms ≡ some finished)
          × (t.expires_at_ms ≡ some (finished + ttl_ms)))

  -- Only a stopped task is aborted; a finished task that was asked to stop says so.
  abbrev pub StopFits : InternalTask R → Type 0
  StopFits t = elim t.requested_stop [
    | none ↦ t.aborted ≡ false
    | some stop ↦
        (t.aborted ≡ true)
        × ((is_running t.state ≡ true)
            ⊎ ((t.state ≡ state_of_stop stop)
                × (t.termination ≡ some (termination_of_stop stop))
                × (t.exit_code ≡ some none)))
  ]

  pub record IsShaped (ttl_ms : ℕ) (t : InternalTask R) : Type 0 where
    pub times : TimesFit ttl_ms t
    pub stop : StopFits t
    pub outcome : Outcome t

  pub request_stop-IsShaped :
      (ttl_ms : ℕ) (s : RequestedStop) (t : InternalTask R)
      → IsShaped ttl_ms t
      → IsShaped ttl_ms (request_stop s t)
  unfolding request_stop
  request_stop-IsShaped ttl_ms s t h = record {
    times = ground (arith, h.times);
    stop = ground (arith, h.stop);
    outcome = request_stop-Outcome s t h.outcome;
  }

  pub append_output-IsShaped :
      (ttl_ms now : ℕ) (stream : TaskOutputStream) (bytes : List ℕ) (t : InternalTask R)
      → IsShaped ttl_ms t
      → IsShaped ttl_ms (append_output now stream bytes t)
  unfolding append_output
  append_output-IsShaped ttl_ms now stdout bytes t h = record {
    times = ground (arith, h.times);
    stop = ground (arith, h.stop);
    outcome = append_output-Outcome now stdout bytes t h.outcome;
  }
  append_output-IsShaped ttl_ms now stderr bytes t h = record {
    times = ground (arith, h.times);
    stop = ground (arith, h.stop);
    outcome = append_output-Outcome now stderr bytes t h.outcome;
  }

  pub stop_for_shutdown-IsShaped :
      (ttl_ms : ℕ) (t : InternalTask R) → IsShaped ttl_ms t → IsShaped ttl_ms (stop_for_shutdown t)
  unfolding stop_for_shutdown
  stop_for_shutdown-IsShaped ttl_ms t h = record {
    times = ground (arith, h.times);
    stop = ground (arith, h.stop);
    outcome = stop_for_shutdown-Outcome t h.outcome;
  }

  -- A settled task is finished, whatever the worker returned or threw.
  pub complete-final :
      (ttl_ms now : ℕ) (c : TaskCompletion R) (t : InternalTask R)
      → is_running (complete ttl_ms now c t).state ≡ false
  unfolding complete
  complete-final ttl_ms now c t =
      ground (arith, state_for_termination-final c.termination c.exit_code)

  pub fail-final :
      (ttl_ms now : ℕ) (e : Failure) (t : InternalTask R)
      → is_running (fail ttl_ms now e t).state ≡ false
  unfolding fail
  fail-final ttl_ms now e t = ground arith

  pub complete-IsShaped :
      (ttl_ms now : ℕ) (c : TaskCompletion R) (t : InternalTask R)
      → is_running t.state ≡ true
      → IsShaped ttl_ms t
      → IsShaped ttl_ms (complete ttl_ms now c t)
  unfolding complete
  complete-IsShaped ttl_ms now c t runs h = record {
    times = inr (now, complete-final ttl_ms now c t, refl, refl);
    stop = ground (arith, h.stop);
    outcome = complete-Outcome ttl_ms now c t runs h.outcome;
  }

  pub fail-IsShaped :
      (ttl_ms now : ℕ) (e : Failure) (t : InternalTask R)
      → is_running t.state ≡ true
      → IsShaped ttl_ms t
      → IsShaped ttl_ms (fail ttl_ms now e t)
  unfolding fail
  fail-IsShaped ttl_ms now e t runs h = record {
    times = inr (now, fail-final ttl_ms now e t, refl, refl);
    stop = ground (arith, h.stop);
    outcome = fail-Outcome ttl_ms now e t runs h.outcome;
  }

  -- Every change keeps the run id and starts no finished task again.
  pub request_stop-Keeps : (s : RequestedStop) → Keeps (request_stop {R = R} s)
  unfolding request_stop
  request_stop-Keeps s = record { id = λ t. ground arith; calm = λ t. ground arith }

  pub append_output-Keeps :
      (now : ℕ) (stream : TaskOutputStream) (bytes : List ℕ)
      → Keeps (append_output {R = R} now stream bytes)
  unfolding append_output
  append_output-Keeps now stdout bytes = record { id = λ t. ground arith; calm = λ t. ground arith }
  append_output-Keeps now stderr bytes = record { id = λ t. ground arith; calm = λ t. ground arith }

  pub complete-Keeps : (ttl_ms now : ℕ) (c : TaskCompletion R) → Keeps (complete ttl_ms now c)
  unfolding complete
  complete-Keeps ttl_ms now c = record {
    id = λ t. ground arith;
    calm = λ t h. ground (arith, complete-final ttl_ms now c t);
  }

  pub fail-Keeps : (ttl_ms now : ℕ) (e : Failure) → Keeps (fail {R = R} ttl_ms now e)
  unfolding fail
  fail-Keeps ttl_ms now e = record {
    id = λ t. ground arith;
    calm = λ t h. ground (arith, fail-final ttl_ms now e t);
  }
