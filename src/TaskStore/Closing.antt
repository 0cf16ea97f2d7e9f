-- ===== src/TaskStore/Closing.antt =====
-- `shutdown`: the store admits no task any more, and every task that still runs has been aborted.
use enhanced_ssh.Prelude.{
  ℕ, true, false, String, List, [], ◌∷◌, ◌≡◌, refl, sym, subst, ◌⊎◌, inl, inr, arith, Bool-cases,
}
use enhanced_ssh.Result.{err, Result-cases}
use enhanced_ssh.TaskStore.Types.{
  InternalTask, StartTaskOptions, TaskStartResult, is_running, RequestedStop, stop_cancelled,
  stop_timed_out, TaskOutputStream,
}
use enhanced_ssh.TaskStore.Types
use enhanced_ssh.TaskStore.Table.{
  complete, fail, append_output, request_stop, stop_for_shutdown, cleanup,
}
use enhanced_ssh.TaskStore.Store.{
  TaskStore, start, require_task, cancel, settle_complete, settle_fail, write, time_out, stop_all,
  shutdown, gateway_stopping,
}
use enhanced_ssh.TaskStore.TableLaws.{All, cleanup-All}
use enhanced_ssh.TaskStore.ChangeLaws.{modify-All}
use enhanced_ssh.TaskStore.Shape.{complete-final, fail-final}
use enhanced_ssh.TaskStore.Step.{
  Step, starts, looks, cancels, completes, fails, writes, times_out, shuts_down, Reach, here, next,
}

module _ {R : Type 0} where
  -- A task that has ended or was told to.
  abbrev pub IsStopped : InternalTask R → Type 0
  IsStopped t = (is_running t.state ≡ false) ⊎ (t.aborted ≡ true)

  pub record IsClosed (s : TaskStore R) : Type 0 where
    pub closing : s.closing ≡ true
    pub stopped : All IsStopped s.tasks

  start-closed :
      (s : TaskStore R) (now started_at_ms : ℕ) (create_run_id : ℕ → String)
      (options : StartTaskOptions)
      → s.closing ≡ true
      → start s now started_at_ms create_run_id options ≡ (err gateway_stopping, s)
  unfolding start
  start-closed s now started_at_ms create_run_id options e = ground arith

  request_stop-IsStopped :
      (stop : RequestedStop) (t : InternalTask R) → IsStopped t → IsStopped (request_stop stop t)
  unfolding request_stop
  request_stop-IsStopped stop t h = ground arith

  append_output-IsStopped :
      (now : ℕ) (stream : TaskOutputStream) (bytes : List ℕ) (t : InternalTask R)
      → IsStopped t
      → IsStopped (append_output now stream bytes t)
  unfolding append_output
  append_output-IsStopped now Types.stdout bytes t h = ground arith
  append_output-IsStopped now Types.stderr bytes t h = ground arith

  stop_for_shutdown-IsStopped : (t : InternalTask R) → IsStopped (stop_for_shutdown t)
  unfolding stop_for_shutdown
  stop_for_shutdown-IsStopped t = elim (Bool-cases (is_running t.state)) [
    | inl runs ↦ rw runs (inr refl)
    | inr fin ↦ rw fin (inl fin)
  ]

  stop_all-stopped : (ts : List (InternalTask R)) → All IsStopped (stop_all ts)
  unfolding stop_all
  stop_all-stopped [] = tt
  stop_all-stopped (t ∷ ts) = (stop_for_shutdown-IsStopped t, stop_all-stopped ts)

  cancel-IsClosed :
      (s : TaskStore R) (now : ℕ) (id : String) → IsClosed s → IsClosed (cancel s now id).1
  unfolding cancel require_task
  cancel-IsClosed s now id h =
      let kept = cleanup-All IsStopped now s.tasks h.stopped in
      elim (Result-cases (require_task s now id).0) [
        | inr (e, missing) ↦ rw (missing, cancel) (record { closing = h.closing; stopped = kept })
        | inl (t, found) ↦
            rw (found, cancel)
              (record {
                closing = h.closing;
                stopped =
                    modify-All IsStopped (request_stop stop_cancelled) id (cleanup now s.tasks)
                      (λ u _. request_stop-IsStopped stop_cancelled u) kept;
              })
      ]

  Step-IsClosed : {s t : TaskStore R} → Step s t → IsClosed s → IsClosed t
  unfolding require_task settle_complete settle_fail write time_out shutdown
  Step-IsClosed {s} (starts now started_at_ms create_run_id options) h =
      subst (λ m. IsClosed m.1)
        (sym (start-closed s now started_at_ms create_run_id options h.closing)) h
  Step-IsClosed {s} (looks now id) h = record {
    closing = h.closing;
    stopped = cleanup-All IsStopped now s.tasks h.stopped;
  }
  Step-IsClosed {s} (cancels now id) h = cancel-IsClosed s now id h
  Step-IsClosed {s} (completes now id c t found runs) h = record {
    closing = h.closing;
    stopped =
        modify-All IsStopped (complete s.ttl_ms now c) id s.tasks
          (λ u _ _. inl (complete-final s.ttl_ms now c u)) h.stopped;
  }
  Step-IsClosed {s} (fails now id e t found runs) h = record {
    closing = h.closing;
    stopped =
        modify-All IsStopped (fail s.ttl_ms now e) id s.tasks
          (λ u _ _. inl (fail-final s.ttl_ms now e u)) h.stopped;
  }
  Step-IsClosed {s} (writes now id stream bytes) h = record {
    closing = h.closing;
    stopped =
        modify-All IsStopped (append_output now stream bytes) id s.tasks
          (λ u _. append_output-IsStopped now stream bytes u) h.stopped;
  }
  Step-IsClosed {s} (times_out id) h = record {
    closing = h.closing;
    stopped =
        modify-All IsStopped (request_stop stop_timed_out) id s.tasks
          (λ u _. request_stop-IsStopped stop_timed_out u) h.stopped;
  }
  Step-IsClosed {s} shuts_down h = record { closing = refl; stopped = stop_all-stopped s.tasks }

  Reach-IsClosed : {s t : TaskStore R} → IsClosed s → Reach s t → IsClosed t
  Reach-IsClosed h here = h
  Reach-IsClosed h (next r st) = Step-IsClosed st (Reach-IsClosed h r)

  shutdown-IsClosed : (s : TaskStore R) → IsClosed (shutdown s)
  unfolding shutdown
  shutdown-IsClosed s = record { closing = refl; stopped = stop_all-stopped s.tasks }

  -- After `shutdown`, whatever happens next, every task has ended or is aborted, and `start` fails
  -- and leaves the store as it is.
  pub shutdown_final :
      (s u : TaskStore R) (now started_at_ms : ℕ) (create_run_id : ℕ → String)
      (options : StartTaskOptions)
      → Reach (shutdown s) u
      → All IsStopped u.tasks
        × (start u now started_at_ms create_run_id options ≡ (err gateway_stopping, u))
  shutdown_final s u now started_at_ms create_run_id options r =
      let h = Reach-IsClosed (shutdown-IsClosed s) r in
      (h.stopped, start-closed u now started_at_ms create_run_id options h.closing)
