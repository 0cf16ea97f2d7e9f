-- ===== src/TaskStore/Invariant.antt =====
-- The store's invariant, and that every step keeps it.
use enhanced_ssh.Prelude.{
  ℕ, zero, suc, ◌≤◌, ◌<◌, true, String, List, [], ◌∷◌, ◌++◌, Option, none, some, ◌≡◌, refl, subst,
  sym, inl, inr, arith, tests, leb, length, Bool-cases, length-append,
}
use enhanced_ssh.Result.{ok, Result-cases}
use enhanced_ssh.TaskStore.Types.{
  InternalTask, StartTaskOptions, stop_cancelled, stop_timed_out, is_running,
}
use enhanced_ssh.TaskStore.Table.{
  find, modify, active_count, cleanup, complete, fail, append_output, request_stop,
}
use enhanced_ssh.TaskStore.Store.{
  TaskStore, TaskStoreOptions, create, make_retention_room, unique_run_id, new_task, admit, start,
  check_timeout, require_task, cancel, settle_complete, settle_fail, write, time_out, shutdown,
  is_run_id,
}
use enhanced_ssh.TaskStore.TableLaws.{All, Distinct, cleanup-All}
use enhanced_ssh.TaskStore.ChangeLaws.{
  Keeps, modify-Distinct, modify-length, modify-active, modify-All, snoc-Distinct, snoc-All,
  snoc-active, stop_all-Distinct, stop_all-length, stop_all-active, stop_all-All,
}
use enhanced_ssh.TaskStore.Outcome.{still_runs}
use enhanced_ssh.TaskStore.Shape.{
  IsShaped, request_stop-IsShaped, append_output-IsShaped, stop_for_shutdown-IsShaped,
  complete-IsShaped, fail-IsShaped, request_stop-Keeps, append_output-Keeps, complete-Keeps,
  fail-Keeps,
}
use enhanced_ssh.TaskStore.Room.{Shrinks, cleanup-Shrinks, room-Shrinks, room-All, room-ok}
use enhanced_ssh.TaskStore.Step.{
  Step, starts, looks, cancels, completes, fails, writes, times_out, shuts_down, Reach, here, next,
}

module _ {R : Type 0} where
  -- What the table of a store satisfies, at these limits.
  pub record Fits (ttl_ms max_retained max_concurrent : ℕ) (ts : List (InternalTask R))
      : Type 0 where
    pub distinct : Distinct ts
    pub retained : length ts ≤ max_retained
    pub concurrent : active_count ts ≤ max_concurrent
    pub shaped : All (IsShaped ttl_ms) ts

  abbrev pub Inv : TaskStore R → Type 0
  Inv s = Fits s.ttl_ms s.max_retained_tasks s.max_concurrent_tasks s.tasks

  module _ {ttl_ms max_retained max_concurrent : ℕ} where
    Fits-modify :
        (f : InternalTask R → InternalTask R) (id : String) (ts : List (InternalTask R))
        → Keeps f
        → ((t : InternalTask R) → find id ts ≡ some t → IsShaped ttl_ms t → IsShaped ttl_ms (f t))
        → Fits ttl_ms max_retained max_concurrent ts
        → Fits ttl_ms max_retained max_concurrent (modify id f ts)
    Fits-modify f id ts k keep h = record {
      distinct = modify-Distinct f k id ts h.distinct;
      retained = omega (arith, modify-length f k id ts, h.retained);
      concurrent = omega (arith, modify-active f k id ts, h.concurrent);
      shaped = modify-All (IsShaped ttl_ms) f id ts keep h.shaped;
    }

    Fits-Shrinks :
        (ts us : List (InternalTask R))
        → Fits ttl_ms max_retained max_concurrent ts
        → Shrinks ts us
        → All (IsShaped ttl_ms) us
        → Fits ttl_ms max_retained max_concurrent us
    Fits-Shrinks ts us h k shaped = record {
      distinct = k.distinct;
      retained = omega (arith, k.shorter, h.retained);
      concurrent = omega (arith, k.calmer, h.concurrent);
      shaped = shaped;
    }

    Fits-cleanup :
        (now : ℕ) (ts : List (InternalTask R))
        → Fits ttl_ms max_retained max_concurrent ts
        → Fits ttl_ms max_retained max_concurrent (cleanup now ts)
    Fits-cleanup now ts h =
        Fits-Shrinks ts (cleanup now ts) h (cleanup-Shrinks ttl_ms now ts h.distinct h.shaped)
          (cleanup-All (IsShaped ttl_ms) now ts h.shaped)

    Fits-room :
        (maximum : ℕ) (ts : List (InternalTask R))
        → Fits ttl_ms max_retained max_concurrent ts
        → Fits ttl_ms max_retained max_concurrent (make_retention_room maximum ts).1
    Fits-room maximum ts h =
        Fits-Shrinks ts _ h (room-Shrinks maximum ts h.distinct)
          (room-All (IsShaped ttl_ms) maximum ts h.shaped)

    Fits-snoc :
        (ts : List (InternalTask R)) (t : InternalTask R)
        → Fits ttl_ms max_retained max_concurrent ts
        → find t.run_id ts ≡ none
        → length ts < max_retained
        → active_count ts < max_concurrent
        → IsShaped ttl_ms t
        → Fits ttl_ms max_retained max_concurrent (ts ++ t ∷ [])
    Fits-snoc ts t h new room calm shape = record {
      distinct = snoc-Distinct ts t h.distinct new;
      retained = omega (arith, length-append ts (t ∷ []));
      concurrent = omega (arith, snoc-active ts t);
      shaped = snoc-All (IsShaped ttl_ms) ts t h.shaped shape;
    }

  -- An allocated run id is well formed and in use by no task.
  pub unique_run_id-fresh :
      (create_run_id : ℕ → String) (call attempts : ℕ) (ts : List (InternalTask R)) (id : String)
      → unique_run_id create_run_id call attempts ts ≡ ok id
      → (is_run_id id ≡ true) × (find id ts ≡ none)
  unfolding unique_run_id
  unique_run_id-fresh create_run_id call zero ts id e = cc
  unique_run_id-fresh create_run_id call (suc attempts) ts id e =
      ground (arith, unique_run_id-fresh create_run_id (suc call) attempts ts id)

  new_task-IsShaped :
      (ttl_ms log_bytes started_at_ms : ℕ) (options : StartTaskOptions) (id : String)
      → IsShaped {R = R} ttl_ms (new_task log_bytes started_at_ms options id)
  new_task-IsShaped ttl_ms log_bytes started_at_ms options id = record {
    times = inl (refl, refl, refl);
    stop = refl;
    outcome = still_runs refl refl refl refl refl;
  }

  admit-Inv :
      (s : TaskStore R) (started_at_ms : ℕ) (create_run_id : ℕ → String)
      (options : StartTaskOptions)
      → active_count s.tasks < s.max_concurrent_tasks
      → Inv s
      → Inv (admit s started_at_ms create_run_id options).1
  unfolding admit
  admit-Inv s started_at_ms create_run_id options calm h =
      let room = make_retention_room s.max_retained_tasks s.tasks in
      let kept = room-Shrinks s.max_retained_tasks s.tasks h.distinct in
      let fits = Fits-room s.max_retained_tasks s.tasks h in
      elim (Result-cases room.0) [
        | inr (e, failed) ↦ rw (failed, admit) fits
        | inl (a, done) ↦ elim (Result-cases (unique_run_id create_run_id 0 8 room.1)) [
          | inr (e, failed) ↦ rw (done, failed, admit) fits
          | inl (id, found) ↦
              let (_, new) = unique_run_id-fresh create_run_id 0 8 room.1 id found in
              rw (done, found, admit)
                (Fits-snoc room.1 (new_task s.max_log_bytes_per_stream started_at_ms options id)
                  fits new (room-ok s.max_retained_tasks s.tasks a h.distinct done)
                  (omega (arith, kept.calmer))
                  (new_task-IsShaped s.ttl_ms s.max_log_bytes_per_stream started_at_ms options id))
        ]
      ]

  start-Inv :
      (s : TaskStore R) (now started_at_ms : ℕ) (create_run_id : ℕ → String)
      (options : StartTaskOptions)
      → Inv s
      → Inv (start s now started_at_ms create_run_id options).1
  unfolding start
  start-Inv s now started_at_ms create_run_id options h =
      let cleaned : TaskStore R = record s { tasks = cleanup now s.tasks } in
      let fits = Fits-cleanup now s.tasks h in
      elim (Bool-cases s.closing) [
        | inl closing ↦ rw closing h
        | inr open_still ↦ elim (Result-cases (check_timeout options.timeout_ms)) [
          | inr (e, bad) ↦ rw (open_still, bad) h
          | inl (a, good) ↦
              elim (Bool-cases (leb s.max_concurrent_tasks (active_count cleaned.tasks))) [
                | inl full ↦ rw (open_still, good, full) fits
                | inr calm ↦
                    rw (open_still, good, calm)
                      (admit-Inv cleaned started_at_ms create_run_id options (omega (tests, calm))
                        fits)
              ]
        ]
      ]

  cancel-Inv : (s : TaskStore R) (now : ℕ) (id : String) → Inv s → Inv (cancel s now id).1
  unfolding cancel require_task
  cancel-Inv s now id h =
      let fits = Fits-cleanup now s.tasks h in
      elim (Result-cases (require_task s now id).0) [
        | inr (e, missing) ↦ rw (missing, cancel) fits
        | inl (t, found) ↦
            rw (found, cancel)
              (Fits-modify (request_stop stop_cancelled) id (cleanup now s.tasks)
                (request_stop-Keeps stop_cancelled)
                (λ u _. request_stop-IsShaped s.ttl_ms stop_cancelled u) fits)
      ]

  shutdown-Inv : (s : TaskStore R) → Inv s → Inv (shutdown s)
  unfolding shutdown
  shutdown-Inv s h = record {
    distinct = stop_all-Distinct s.tasks h.distinct;
    retained = omega (arith, stop_all-length s.tasks, h.retained);
    concurrent = omega (arith, stop_all-active s.tasks, h.concurrent);
    shaped =
        stop_all-All (IsShaped s.ttl_ms) s.tasks (stop_for_shutdown-IsShaped s.ttl_ms) h.shaped;
  }

  -- What is found under one run id is one task.
  pub same_running :
      {o : Option (InternalTask R)} (t u : InternalTask R)
      → o ≡ some t
      → o ≡ some u
      → is_running t.state ≡ true
      → is_running u.state ≡ true
  same_running t u e f runs =
      let same : t ≡ u = ground arith in subst (λ v. is_running v.state ≡ true) same runs

  -- Every step keeps the invariant: run ids are distinct, the store holds at most
  -- `max_retained_tasks` tasks of which at most `max_concurrent_tasks` run, and each task has its
  -- shape: final times exactly when it is finished, and a state, a termination, an exit code, an
  -- error and a requested stop that agree.
  pub Step-Inv : {s t : TaskStore R} → Step s t → Inv s → Inv t
  unfolding require_task settle_complete settle_fail write time_out
  Step-Inv {s} (starts now started_at_ms create_run_id options) h =
      start-Inv s now started_at_ms create_run_id options h
  Step-Inv {s} (looks now id) h = Fits-cleanup now s.tasks h
  Step-Inv {s} (cancels now id) h = cancel-Inv s now id h
  Step-Inv {s} (completes now id c t found runs) h =
      Fits-modify (complete s.ttl_ms now c) id s.tasks (complete-Keeps s.ttl_ms now c)
        (λ u f. complete-IsShaped s.ttl_ms now c u (same_running t u found f runs)) h
  Step-Inv {s} (fails now id e t found runs) h =
      Fits-modify (fail s.ttl_ms now e) id s.tasks (fail-Keeps s.ttl_ms now e)
        (λ u f. fail-IsShaped s.ttl_ms now e u (same_running t u found f runs)) h
  Step-Inv {s} (writes now id stream bytes) h =
      Fits-modify (append_output now stream bytes) id s.tasks (append_output-Keeps now stream bytes)
        (λ u _. append_output-IsShaped s.ttl_ms now stream bytes u) h
  Step-Inv {s} (times_out id) h =
      Fits-modify (request_stop stop_timed_out) id s.tasks (request_stop-Keeps stop_timed_out)
        (λ u _. request_stop-IsShaped s.ttl_ms stop_timed_out u) h
  Step-Inv {s} shuts_down h = shutdown-Inv s h

  Reach-Inv : {s t : TaskStore R} → Reach s t → Inv s → Inv t
  Reach-Inv here h = h
  Reach-Inv (next r st) h = Step-Inv st (Reach-Inv r h)

  create-empty :
      (options : TaskStoreOptions) (s : TaskStore R) → create options ≡ ok s → s.tasks ≡ []
  unfolding create
  create-empty options s e = ground arith

  create-Inv : (options : TaskStoreOptions) (s : TaskStore R) → create options ≡ ok s → Inv s
  unfolding active_count
  create-Inv options s e =
      subst (Fits s.ttl_ms s.max_retained_tasks s.max_concurrent_tasks)
        (sym (create-empty options s e))
        (record { distinct = tt; retained = omega arith; concurrent = no_task; shaped = tt })
    where
      no_task : active_count {R = R} [] ≤ s.max_concurrent_tasks
      no_task = omega arith

  pub Reach-create-Inv :
      (options : TaskStoreOptions) (s t : TaskStore R) → create options ≡ ok s → Reach s t → Inv t
  Reach-create-Inv options s t e r = Reach-Inv r (create-Inv options s e)
