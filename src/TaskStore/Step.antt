-- ===== src/TaskStore/Step.antt =====
-- Everything that can happen to a task store, as a step relation: the calls of its clients, and what
-- the workers and timers of its running tasks do.
use enhanced_ssh.Prelude.{ℕ, true, String, List, some, ◌≡◌}
use enhanced_ssh.Errors.{Failure}
use enhanced_ssh.TaskStore.Types.{
  InternalTask, TaskCompletion, StartTaskOptions, TaskOutputStream, is_running,
}
use enhanced_ssh.TaskStore.Table.{find}
use enhanced_ssh.TaskStore.Store.{
  TaskStore, start, require_task, cancel, settle_complete, settle_fail, write, time_out, shutdown,
}

module _ {R : Type 0} where
  -- A worker settles once, so only while its task is running. `looks` is `status` and `tail`, which
  -- change the store by `#require` alone.
  pub data Step (s : TaskStore R) : TaskStore R → Type 0 where
    starts :
        (now started_at_ms : ℕ) (create_run_id : ℕ → String) (options : StartTaskOptions)
        → Step s (start s now started_at_ms create_run_id options).1
    looks : (now : ℕ) (id : String) → Step s (require_task s now id).1
    cancels : (now : ℕ) (id : String) → Step s (cancel s now id).1
    completes :
        (now : ℕ) (id : String) (completion : TaskCompletion R) (t : InternalTask R)
        → find id s.tasks ≡ some t
        → is_running t.state ≡ true
        → Step s (settle_complete s now id completion)
    fails :
        (now : ℕ) (id : String) (failure : Failure) (t : InternalTask R)
        → find id s.tasks ≡ some t
        → is_running t.state ≡ true
        → Step s (settle_fail s now id failure)
    writes :
        (now : ℕ) (id : String) (stream : TaskOutputStream) (bytes : List ℕ)
        → Step s (write s now id stream bytes)
    times_out : (id : String) → Step s (time_out s id)
    shuts_down : Step s (shutdown s)

  pub data Reach (s : TaskStore R) : TaskStore R → Type 0 where
    here : Reach s s
    next : {t u : TaskStore R} → Reach s t → Step t u → Reach s u
