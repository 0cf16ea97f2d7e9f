-- ===== src/TaskStore/Fate.antt =====
-- What one step does to the task under one run id.
use enhanced_ssh.Prelude.{
  ℕ, Bool, true, false, String, List, [], ◌∷◌, ◌++◌, Option, none, some, ◌≡◌, ◌≢◌, refl, sym, subst,
  ◌∙◌, ◌⊎◌, inl, inr, arith, leb, if◌then◌else◌, str_eq, eq_iff, Bool-cases, Option-cases,
}
use enhanced_ssh.Errors.{Failure}
use enhanced_ssh.Result.{ok, Result-cases}
use enhanced_ssh.TaskStore.Types.{
  InternalTask, TaskCompletion, StartTaskOptions, TaskStartResult, RequestedStop, stop_cancelled,
  stop_timed_out, TaskOutputStream, is_running,
}
use enhanced_ssh.TaskStore.Table.{
  find, modify, active_count, cleanup, complete, fail, append_output, request_stop,
  stop_for_shutdown,
}
use enhanced_ssh.TaskStore.Store.{
  TaskStore, make_retention_room, unique_run_id, new_task, started, admit, start, check_timeout,
  require_task, cancel, settle_complete, settle_fail, write, time_out, shutdown,
}
use enhanced_ssh.TaskStore.TableLaws.{Distinct}
use enhanced_ssh.TaskStore.ChangeLaws.{
  Keeps, modify-find_self, modify-find_ne, modify-find-none, snoc-find, stop_all-find,
}
use enhanced_ssh.TaskStore.Shape.{
  request_stop-Keeps, append_output-Keeps, complete-Keeps, fail-Keeps,
}
use enhanced_ssh.TaskStore.Room.{Shrinks, cleanup-Shrinks, room-Shrinks}
use enhanced_ssh.TaskStore.Invariant.{Inv, same_running}
use enhanced_ssh.TaskStore.Step.{
  Step, starts, looks, cancels, completes, fails, writes, times_out, shuts_down,
}

module _ {R : Type 0} where
  -- One change of a task object.
  pub data Advance (ttl_ms : ℕ) (t u : InternalTask R) : Type 0 where
    asked : (stop : RequestedStop) → u ≡ request_stop stop t → Advance ttl_ms t u
    wrote :
        (now : ℕ) (stream : TaskOutputStream) (bytes : List ℕ)
        → u ≡ append_output now stream bytes t
        → Advance ttl_ms t u
    completed :
        (now : ℕ) (c : TaskCompletion R)
        → is_running t.state ≡ true
        → u ≡ complete ttl_ms now c t
        → Advance ttl_ms t u
    failed :
        (now : ℕ) (e : Failure)
        → is_running t.state ≡ true
        → u ≡ fail ttl_ms now e t
        → Advance ttl_ms t u
    shut : u ≡ stop_for_shutdown t → Advance ttl_ms t u

  -- The entry `o` of the table becomes `o'`: it stays, a finished task is dropped, or it changes.
  pub data Fate (ttl_ms : ℕ) (o o' : Option (InternalTask R)) : Type 0 where
    stays : o' ≡ o → Fate ttl_ms o o'
    dropped :
        ((t : InternalTask R) → o ≡ some t → is_running t.state ≡ false)
        → o' ≡ none
        → Fate ttl_ms o o'
    changes :
        (t u : InternalTask R) → o ≡ some t → o' ≡ some u → Advance ttl_ms t u → Fate ttl_ms o o'

  modify-Fate :
      (ttl_ms : ℕ) (f : InternalTask R → InternalTask R) (id0 id : String)
      (ts : List (InternalTask R))
      → Keeps f
      → ((t : InternalTask R) → find id0 ts ≡ some t → Advance ttl_ms t (f t))
      → Fate ttl_ms (find id ts) (find id (modify id0 f ts))
  modify-Fate ttl_ms f id0 id ts k adv = elim (Bool-cases (str_eq id0 id)) [
    | inr miss ↦ stays (modify-find_ne f k id0 id ts (λ e. ground (arith, eq_iff id0 id)))
    | inl hit ↦
        let same : id0 ≡ id = (eq_iff id0 id).0 hit in
        elim (Option-cases (find id0 ts)) [
          | inl nothing ↦
              subst (λ i. Fate ttl_ms (find i ts) (find i (modify id0 f ts))) same
                (stays (modify-find-none f k id0 id0 ts nothing ∙ sym nothing))
          | inr (t, e) ↦
              subst (λ i. Fate ttl_ms (find i ts) (find i (modify id0 f ts))) same
                (changes t (f t) e (modify-find_self f k id0 ts t e) (adv t e))
        ]
  ]

  -- Dropping finished tasks, as a fact about two entries.
  abbrev Dropping : Option (InternalTask R) → Option (InternalTask R) → Type 0
  Dropping o o1 =
      (o1 ≡ o) ⊎ ((o1 ≡ none) × ((t : InternalTask R) → o ≡ some t → is_running t.state ≡ false))

  Shrinks-Dropping :
      (id : String) (ts us : List (InternalTask R))
      → Shrinks ts us
      → Dropping (find id ts) (find id us)
  Shrinks-Dropping id ts us k = elim (k.same id) [
    | inl e ↦ inl e
    | inr gone ↦ inr (gone, not_running gone)
  ]
    where
      clash : (o : Option (InternalTask R)) (t : InternalTask R) → o ≡ none → o ≡ some t → ⊥
      clash o t p q = cc

      not_running :
          find id us ≡ none
          → (t : InternalTask R) → find id ts ≡ some t
          → is_running t.state ≡ false
      not_running gone t e = elim (Bool-cases (is_running t.state)) [
        | inl r ↦ absurd (clash (find id us) t gone (k.keeps_running id t e r))
        | inr n ↦ n
      ]

  Shrinks-Fate :
      (ttl_ms : ℕ) (id : String) (ts us : List (InternalTask R))
      → Shrinks ts us
      → Fate ttl_ms (find id ts) (find id us)
  Shrinks-Fate ttl_ms id ts us k = elim (Shrinks-Dropping id ts us k) [
    | inl e ↦ stays e
    | inr (gone, fin) ↦ dropped fin gone
  ]

  Fate-none :
      {ttl_ms : ℕ} {o o' : Option (InternalTask R)} → o ≡ none → Fate ttl_ms o o' → o' ≡ none
  Fate-none nothing (stays e) = e ∙ nothing
  Fate-none nothing (dropped fin gone) = gone
  Fate-none nothing (changes t u e e' adv) = cc

  -- A drop, and then a change.
  Fate-trans :
      {ttl_ms : ℕ} {o o1 o2 : Option (InternalTask R)}
      → Dropping o o1
      → Fate ttl_ms o1 o2
      → Fate ttl_ms o o2
  Fate-trans {ttl_ms} {o} {o1} {o2} (inl e) f = subst (λ x. Fate ttl_ms x o2) e f
  Fate-trans (inr (gone, fin)) f = dropped fin (Fate-none gone f)

  snoc-same :
      (id : String) (ts : List (InternalTask R)) (t : InternalTask R)
      → t.run_id ≢ id
      → find id (ts ++ t ∷ []) ≡ find id ts
  snoc-same id ts t apart =
      snoc-find id ts t
      ∙ old_only (find id ts) (str_eq t.run_id id) (ground (arith, eq_iff t.run_id id))
    where
      old_only :
          (o : Option (InternalTask R)) (b : Bool)
          → b ≡ false
          → elim o [ none ↦ if b then some t else none | some u ↦ some u ] ≡ o
      old_only o b e = ground arith

  admit-Fate :
      (s : TaskStore R) (started_at_ms : ℕ) (create_run_id : ℕ → String)
      (options : StartTaskOptions) (id : String)
      → Distinct s.tasks
      → ((r : TaskStartResult)
          → (admit s started_at_ms create_run_id options).0 ≡ ok r
          → r.run_id ≢ id)
      → Fate s.ttl_ms
          (find id s.tasks)
          (find id (admit s started_at_ms create_run_id options).1.tasks)
  unfolding admit
  admit-Fate s started_at_ms create_run_id options id d avoid =
      let room = make_retention_room s.max_retained_tasks s.tasks in
      let fate =
        Shrinks-Fate s.ttl_ms id s.tasks room.1 (room-Shrinks s.max_retained_tasks s.tasks d) in
      elim (Result-cases room.0) [
        | inr (e, none_left) ↦ rw (none_left, admit) fate
        | inl (a, done) ↦ elim (Result-cases (unique_run_id create_run_id 0 8 room.1)) [
          | inr (e, no_id) ↦ rw (done, no_id, admit) fate
          | inl (new, found) ↦
              let task : InternalTask R =
                new_task s.max_log_bytes_per_stream started_at_ms options new in
              rw (done, found, admit)
                (subst (Fate s.ttl_ms (find id s.tasks))
                  (sym (
                    snoc-same id room.1 task (avoid (started task) (rw (done, found, admit) refl))))
                  fate)
        ]
      ]

  start-Fate :
      (s : TaskStore R) (now started_at_ms : ℕ) (create_run_id : ℕ → String)
      (options : StartTaskOptions) (id : String)
      → Inv s
      → ((r : TaskStartResult)
          → (start s now started_at_ms create_run_id options).0 ≡ ok r
          → r.run_id ≢ id)
      → Fate s.ttl_ms
          (find id s.tasks)
          (find id (start s now started_at_ms create_run_id options).1.tasks)
  unfolding start
  start-Fate s now started_at_ms create_run_id options id h avoid =
      let cleaned : TaskStore R = record s { tasks = cleanup now s.tasks } in
      let k = cleanup-Shrinks s.ttl_ms now s.tasks h.distinct h.shaped in
      elim (Bool-cases s.closing) [
        | inl closing ↦ rw closing (stays refl)
        | inr open_still ↦ elim (Result-cases (check_timeout options.timeout_ms)) [
          | inr (e, bad) ↦ rw (open_still, bad) (stays refl)
          | inl (a, good) ↦
              elim (Bool-cases (leb s.max_concurrent_tasks (active_count cleaned.tasks))) [
                | inl full ↦ rw (open_still, good, full) (Shrinks-Fate s.ttl_ms id s.tasks _ k)
                | inr calm ↦
                    rw (open_still, good, calm)
                      (Fate-trans (Shrinks-Dropping id s.tasks _ k) (
                        admit-Fate cleaned started_at_ms create_run_id options id k.distinct
                          (λ r e. avoid r (rw (open_still, good, calm) e))))
              ]
        ]
      ]

  cancel-Fate :
      (s : TaskStore R) (now : ℕ) (id0 id : String)
      → Inv s
      → Fate s.ttl_ms (find id s.tasks) (find id (cancel s now id0).1.tasks)
  unfolding cancel require_task
  cancel-Fate s now id0 id h =
      let k = cleanup-Shrinks s.ttl_ms now s.tasks h.distinct h.shaped in
      elim (Result-cases (require_task s now id0).0) [
        | inr (e, missing) ↦ rw (missing, cancel) (Shrinks-Fate s.ttl_ms id s.tasks _ k)
        | inl (t, found) ↦
            rw (found, cancel)
              (Fate-trans (Shrinks-Dropping id s.tasks _ k) (
                modify-Fate s.ttl_ms (request_stop stop_cancelled) id0 id (cleanup now s.tasks)
                  (request_stop-Keeps stop_cancelled) (λ u _. asked stop_cancelled refl)))
      ]

  shutdown-Fate :
      (s : TaskStore R) (id : String) → Fate s.ttl_ms (find id s.tasks) (find id (shutdown s).tasks)
  unfolding shutdown
  shutdown-Fate s id = elim (Option-cases (find id s.tasks)) [
    | inl nothing ↦ stays (stop_all-find id s.tasks ∙ rw nothing refl)
    | inr (t, e) ↦
        changes t (stop_for_shutdown t) e (stop_all-find id s.tasks ∙ rw e refl) (shut refl)
  ]

  -- The step gives the run id `id` to no new task.
  abbrev pub Avoids : (id : String) {s t : TaskStore R} → Step s t → Type 0
  Avoids id {s} (starts now started_at_ms create_run_id options) =
      (r : TaskStartResult)
      → (start s now started_at_ms create_run_id options).0 ≡ ok r
      → r.run_id ≢ id
  Avoids id {s} (looks now other) = Unit
  Avoids id {s} (cancels now other) = Unit
  Avoids id {s} (completes now other c t found runs) = Unit
  Avoids id {s} (fails now other e t found runs) = Unit
  Avoids id {s} (writes now other stream bytes) = Unit
  Avoids id {s} (times_out other) = Unit
  Avoids id {s} shuts_down = Unit

  pub Step-Fate :
      {s t : TaskStore R} (id : String) (st : Step s t)
      → Avoids id st
      → Inv s
      → Fate s.ttl_ms (find id s.tasks) (find id t.tasks)
  unfolding require_task settle_complete settle_fail write time_out
  Step-Fate {s} id (starts now started_at_ms create_run_id options) avoid h =
      start-Fate s now started_at_ms create_run_id options id h avoid
  Step-Fate {s} id (looks now other) avoid h =
      Shrinks-Fate s.ttl_ms id s.tasks _ (cleanup-Shrinks s.ttl_ms now s.tasks h.distinct h.shaped)
  Step-Fate {s} id (cancels now other) avoid h = cancel-Fate s now other id h
  Step-Fate {s} id (completes now other c t found runs) avoid h =
      modify-Fate s.ttl_ms (complete s.ttl_ms now c) other id s.tasks
        (complete-Keeps s.ttl_ms now c)
        (λ u e. completed now c (same_running t u found e runs) refl)
  Step-Fate {s} id (fails now other e t found runs) avoid h =
      modify-Fate s.ttl_ms (fail s.ttl_ms now e) other id s.tasks (fail-Keeps s.ttl_ms now e)
        (λ u f. failed now e (same_running t u found f runs) refl)
  Step-Fate {s} id (writes now other stream bytes) avoid h =
      modify-Fate s.ttl_ms (append_output now stream bytes) other id s.tasks
        (append_output-Keeps now stream bytes) (λ u _. wrote now stream bytes refl)
  Step-Fate {s} id (times_out other) avoid h =
      modify-Fate s.ttl_ms (request_stop stop_timed_out) other id s.tasks
        (request_stop-Keeps stop_timed_out) (λ u _. asked stop_timed_out refl)
  Step-Fate {s} id shuts_down avoid h = shutdown-Fate s id
