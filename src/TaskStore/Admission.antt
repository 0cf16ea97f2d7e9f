-- ===== src/TaskStore/Admission.antt =====
-- What a successful `start` has done.
use enhanced_ssh.Prelude.{
  ℕ, ◌<◌, true, false, String, List, [], ◌∷◌, ◌++◌, none, some, ◌≡◌, refl, subst, ◌∙◌, inl, inr,
  arith, tests, leb, eq_iff, Bool-cases,
}
use enhanced_ssh.Errors.{Failure}
use enhanced_ssh.Result.{Result, ok, err, Result-cases}
use enhanced_ssh.TaskStore.Types.{InternalTask, StartTaskOptions, TaskStartResult}
use enhanced_ssh.TaskStore.Table.{find, active_count, cleanup}
use enhanced_ssh.TaskStore.Store.{
  TaskStore, make_retention_room, unique_run_id, new_task, started, admit, start, check_timeout,
  is_run_id,
}
use enhanced_ssh.TaskStore.ChangeLaws.{snoc-find}
use enhanced_ssh.TaskStore.Invariant.{unique_run_id-fresh}

module _ {R : Type 0} where
  -- The new task is in the table under a well-formed run id that no kept task had, with empty logs
  -- and no stop requested; and the store was open and had room among the running tasks.
  pub record Registers (s u : TaskStore R) (now started_at_ms : ℕ) (options : StartTaskOptions)
      (r : TaskStartResult) : Type 0 where
    pub well_formed : is_run_id r.run_id ≡ true
    pub registered :
        find r.run_id u.tasks
        ≡ some (new_task s.max_log_bytes_per_stream started_at_ms options r.run_id)
    pub reported :
        r ≡ started {R = R} (new_task s.max_log_bytes_per_stream started_at_ms options r.run_id)
    pub was_open : s.closing ≡ false
    pub had_room : active_count (cleanup now s.tasks) < s.max_concurrent_tasks

  snoc-new :
      (ts : List (InternalTask R)) (t : InternalTask R)
      → find t.run_id ts ≡ none
      → find t.run_id (ts ++ t ∷ []) ≡ some t
  snoc-new ts t new = snoc-find t.run_id ts t ∙ rw new (ground (arith, eq_iff t.run_id t.run_id))

  abbrev Admitted :
      TaskStore R → ℕ → StartTaskOptions → Result TaskStartResult × TaskStore R → Type 0
  Admitted s started_at_ms options (err e, u) = Unit
  Admitted s started_at_ms options (ok r, u) =
      (is_run_id r.run_id ≡ true)
      × (find r.run_id u.tasks
          ≡ some (new_task s.max_log_bytes_per_stream started_at_ms options r.run_id))
      × (r ≡ started {R = R} (new_task s.max_log_bytes_per_stream started_at_ms options r.run_id))

  admit-Admitted :
      (s : TaskStore R) (started_at_ms : ℕ) (create_run_id : ℕ → String)
      (options : StartTaskOptions)
      → Admitted s started_at_ms options (admit s started_at_ms create_run_id options)
  unfolding admit
  admit-Admitted s started_at_ms create_run_id options =
      let room = make_retention_room s.max_retained_tasks s.tasks in
      elim (Result-cases room.0) [
        | inr (e, none_left) ↦ rw (none_left, admit) tt
        | inl (a, done) ↦ elim (Result-cases (unique_run_id create_run_id 0 8 room.1)) [
          | inr (e, no_id) ↦ rw (done, no_id, admit) tt
          | inl (id, found) ↦
              let (good, new) = unique_run_id-fresh create_run_id 0 8 room.1 id found in
              let task : InternalTask R =
                new_task s.max_log_bytes_per_stream started_at_ms options id in
              rw (done, found, admit) (good, snoc-new room.1 task new, refl)
        ]
      ]

  Admitted-ok :
      (s : TaskStore R) (started_at_ms : ℕ) (options : StartTaskOptions)
      (m : Result TaskStartResult × TaskStore R) (r : TaskStartResult)
      → Admitted s started_at_ms options m
      → m.0 ≡ ok r
      → Admitted s started_at_ms options (ok r, m.1)
  Admitted-ok s started_at_ms options (err e, u) r h p = absurd (refused p)
    where
      refused : Path (Result TaskStartResult) (err e) (ok r) → ⊥
      refused q = cc
  Admitted-ok s started_at_ms options (ok r', u) r h p =
      subst (λ x. Admitted s started_at_ms options (x, u)) p h

  -- A `start` that succeeds found an open store with room for one more running task, and registered
  -- under a well-formed run id the new task that it reports.
  pub start-Registers :
      (s : TaskStore R) (now started_at_ms : ℕ) (create_run_id : ℕ → String)
      (options : StartTaskOptions) (r : TaskStartResult)
      → (start s now started_at_ms create_run_id options).0 ≡ ok r
      → Registers s (start s now started_at_ms create_run_id options).1 now started_at_ms options r
  unfolding start
  start-Registers s now started_at_ms create_run_id options r e =
      let cleaned : TaskStore R = record s { tasks = cleanup now s.tasks } in
      elim (Bool-cases s.closing) [
        | inl closing ↦ absurd (refused (rw closing at e))
        | inr open_still ↦ elim (Result-cases (check_timeout options.timeout_ms)) [
          | inr (x, bad) ↦ absurd (refused (rw (open_still, bad) at e))
          | inl (a, good) ↦
              elim (Bool-cases (leb s.max_concurrent_tasks (active_count cleaned.tasks))) [
                | inl full ↦ absurd (refused (rw (open_still, good, full) at e))
                | inr calm ↦
                    let m = admit cleaned started_at_ms create_run_id options in
                    let (well, there, said) =
                      Admitted-ok cleaned started_at_ms options m r
                        (admit-Admitted cleaned started_at_ms create_run_id options)
                        (rw (open_still, good, calm) at e) in
                    rw (open_still, good, calm)
                      (record {
                        well_formed = well;
                        registered = there;
                        reported = said;
                        was_open = refl;
                        had_room = omega (tests, calm);
                      })
              ]
        ]
      ]
    where
      refused : {x : Failure} → Path (Result TaskStartResult) (err x) (ok r) → ⊥
      refused q = cc
