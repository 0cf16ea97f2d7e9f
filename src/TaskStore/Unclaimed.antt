-- ===== src/TaskStore/Unclaimed.antt =====
-- The run id of a new task is that of no running task: what the `has` test of `#uniqueRunId` is for.
use enhanced_ssh.Prelude.{
  ℕ, true, String, none, some, ◌≡◌, ◌≢◌, sym, ◌∙◌, subst, ap, inl, inr, leb, Bool-cases,
}
use enhanced_ssh.Errors.{Failure}
use enhanced_ssh.Result.{Result, ok, err, ok-injective, Result-cases}
use enhanced_ssh.TaskStore.Types.{InternalTask, StartTaskOptions, TaskStartResult, is_running}
use enhanced_ssh.TaskStore.Table.{find, active_count, cleanup}
use enhanced_ssh.TaskStore.Store.{
  TaskStore, make_retention_room, unique_run_id, admit, start, check_timeout,
}
use enhanced_ssh.TaskStore.TableLaws.{Distinct}
use enhanced_ssh.TaskStore.Room.{cleanup-Shrinks, room-Shrinks}
use enhanced_ssh.TaskStore.Invariant.{Inv, unique_run_id-fresh}
use enhanced_ssh.TaskStore.Step.{
  Step, starts, looks, cancels, completes, fails, writes, times_out, shuts_down,
}
use enhanced_ssh.TaskStore.Fate.{Avoids}

refused : {x : Failure} {r : TaskStartResult} → Path (Result TaskStartResult) (err x) (ok r) → ⊥
refused q = cc

module _ {R : Type 0} where
  admit-unclaimed :
      (s : TaskStore R) (started_at_ms : ℕ) (create_run_id : ℕ → String)
      (options : StartTaskOptions) (r : TaskStartResult) (id : String) (t : InternalTask R)
      → Distinct s.tasks
      → find id s.tasks ≡ some t
      → is_running t.state ≡ true
      → (admit s started_at_ms create_run_id options).0 ≡ ok r
      → r.run_id ≢ id
  unfolding admit
  admit-unclaimed s started_at_ms create_run_id options r id t d there runs e =
      let room = make_retention_room s.max_retained_tasks s.tasks in
      elim (Result-cases room.0) [
        | inr (x, none_left) ↦ absurd (refused (rw (none_left, admit) at e))
        | inl (a, done) ↦ elim (Result-cases (unique_run_id create_run_id 0 8 room.1)) [
          | inr (x, no_id) ↦ absurd (refused (rw (done, no_id, admit) at e))
          | inl (new, found) ↦ λ same.
              let (_, free) = unique_run_id-fresh create_run_id 0 8 room.1 new found in
              let new_is : new ≡ r.run_id =
                ap (λ q. q.run_id) (ok-injective (rw (done, found, admit) at e)) in
              let kept =
                (room-Shrinks s.max_retained_tasks s.tasks d).keeps_running id t there runs in
              let free_id : find id room.1 ≡ none =
                subst (λ i. find i room.1 ≡ none) (new_is ∙ same) free in
              clash (sym free_id ∙ kept)
        ]
      ]
    where
      clash : {u : InternalTask R} → none ≡ some u → ⊥
      clash q = cc

  start-unclaimed :
      (s : TaskStore R) (now started_at_ms : ℕ) (create_run_id : ℕ → String)
      (options : StartTaskOptions) (r : TaskStartResult) (id : String) (t : InternalTask R)
      → Inv s
      → find id s.tasks ≡ some t
      → is_running t.state ≡ true
      → (start s now started_at_ms create_run_id options).0 ≡ ok r
      → r.run_id ≢ id
  unfolding start
  start-unclaimed s now started_at_ms create_run_id options r id t h there runs e =
      let cleaned : TaskStore R = record s { tasks = cleanup now s.tasks } in
      let k = cleanup-Shrinks s.ttl_ms now s.tasks h.distinct h.shaped in
      elim (Bool-cases s.closing) [
        | inl closing ↦ absurd (refused (rw closing at e))
        | inr open_still ↦ elim (Result-cases (check_timeout options.timeout_ms)) [
          | inr (x, bad) ↦ absurd (refused (rw (open_still, bad) at e))
          | inl (a, good) ↦
              elim (Bool-cases (leb s.max_concurrent_tasks (active_count cleaned.tasks))) [
                | inl full ↦ absurd (refused (rw (open_still, good, full) at e))
                | inr calm ↦
                    admit-unclaimed cleaned started_at_ms create_run_id options r id t k.distinct
                      (k.keeps_running id t there runs) runs (rw (open_still, good, calm) at e)
              ]
        ]
      ]

  -- No step gives the run id of a running task to a new one.
  pub running-Avoids :
      {s u : TaskStore R} (id : String) (t : InternalTask R) (st : Step s u)
      → Inv s
      → find id s.tasks ≡ some t
      → is_running t.state ≡ true
      → Avoids id st
  running-Avoids {s} id t (starts now started_at_ms create_run_id options) h there runs =
      λ r e. start-unclaimed s now started_at_ms create_run_id options r id t h there runs e
  running-Avoids id t (looks now other) h there runs = tt
  running-Avoids id t (cancels now other) h there runs = tt
  running-Avoids id t (completes now other c u found r) h there runs = tt
  running-Avoids id t (fails now other e u found r) h there runs = tt
  running-Avoids id t (writes now other stream bytes) h there runs = tt
  running-Avoids id t (times_out other) h there runs = tt
  running-Avoids id t shuts_down h there runs = tt
