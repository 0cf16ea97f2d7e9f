-- ===== src/TaskStore/Lifecycle.antt =====
-- What a client may rely on over the life of a task: a running task stays, a finished one does not
-- change, an accepted cancellation is carried out.
use enhanced_ssh.Prelude.{
  ℕ, Bool, true, false, String, Option, none, some, ◌≡◌, refl, sym, subst, ◌∙◌, ◌⊎◌, inl, inr,
  arith,
}
use enhanced_ssh.Errors.{Failure}
use enhanced_ssh.Result.{Result, ok, err, Result-cases}
use enhanced_ssh.TaskStore.Types.{
  InternalTask, TaskState, cancelled, cancel as cancel_termination, RequestedStop, stop_cancelled,
  stop_timed_out, is_running, state_of_stop, termination_of_stop,
}
use enhanced_ssh.TaskStore.Types
use enhanced_ssh.TaskStore.Table.{
  find, modify, may_stop, complete, fail, append_output, request_stop, stop_for_shutdown, cleanup,
}
use enhanced_ssh.TaskStore.Store.{TaskStore, require_task, cancel}
use enhanced_ssh.TaskStore.TableLaws.{All-find}
use enhanced_ssh.TaskStore.ChangeLaws.{modify-find_self}
use enhanced_ssh.TaskStore.Shape.{IsShaped, request_stop-Keeps}
use enhanced_ssh.TaskStore.Invariant.{Inv, Step-Inv}
use enhanced_ssh.TaskStore.Step.{Step, cancels}
use enhanced_ssh.TaskStore.Unclaimed.{running-Avoids}
use enhanced_ssh.TaskStore.Fate.{
  Advance, asked, wrote, completed, failed, shut, Fate, stays, dropped, changes, Avoids, Step-Fate,
}

ok-inj : {a b : Bool × TaskState} → Path (Result (Bool × TaskState)) (ok a) (ok b) → a.0 ≡ b.0
ok-inj e = ground arith

module _ {R : Type 0} where
  -- Steps none of which gives the run id `id` to a new task.
  pub data Run (id : String) (s : TaskStore R) : TaskStore R → Type 0 where
    here : Run id s s
    next : {t u : TaskStore R} → Run id s t → (st : Step t u) → Avoids id st → Run id s u

  Run-Inv : {id : String} {s u : TaskStore R} → Run id s u → Inv s → Inv u
  Run-Inv here h = h
  Run-Inv (next r st avoid) h = Step-Inv st (Run-Inv r h)

  -- A finished task is deaf to every change.
  Advance-finished :
      {ttl_ms : ℕ} {t u : InternalTask R} → is_running t.state ≡ false → Advance ttl_ms t u → u ≡ t
  unfolding request_stop append_output stop_for_shutdown
  Advance-finished fin (asked stop e) = e ∙ ground arith
  Advance-finished fin (wrote now stream bytes e) = e ∙ rw fin refl
  Advance-finished fin (completed now c runs e) = absurd (ground arith)
  Advance-finished fin (failed now f runs e) = absurd (ground arith)
  Advance-finished fin (shut e) = e ∙ rw fin refl

  -- The entry of a finished task is that task, or gone.
  abbrev Kept : InternalTask R → Option (InternalTask R) → Type 0
  Kept t o = (o ≡ some t) ⊎ (o ≡ none)

  Fate-finished :
      {ttl_ms : ℕ} (t : InternalTask R) {o o' : Option (InternalTask R)}
      → is_running t.state ≡ false
      → Kept t o
      → Fate ttl_ms o o'
      → Kept t o'
  Fate-finished t fin (inl e) (stays f) = inl (f ∙ e)
  Fate-finished t fin (inr e) (stays f) = inr (f ∙ e)
  Fate-finished t fin k (dropped gone f) = inr f
  Fate-finished t fin (inl e) (changes u v e' f adv) =
      let same : u ≡ t = ground arith in
      let calm : is_running u.state ≡ false =
        subst (λ w. is_running w.state ≡ false) (sym same) fin in
      inl (f ∙ ground (arith, Advance-finished calm adv))
  Fate-finished t fin (inr e) (changes u v e' f adv) = absurd (clash e e')
    where
      clash : {o : Option (InternalTask R)} → o ≡ none → o ≡ some u → ⊥
      clash p q = cc

  Run-finished :
      {id : String} {s u : TaskStore R} (t : InternalTask R)
      → Inv s
      → find id s.tasks ≡ some t
      → is_running t.state ≡ false
      → Run id s u
      → Kept t (find id u.tasks)
  Run-finished t h e fin here = inl e
  Run-finished {id} t h e fin (next r st avoid) =
      Fate-finished t fin (Run-finished t h e fin r) (Step-Fate id st avoid (Run-Inv r h))

  -- A finished task never changes again: as long as no new task is given its run id, what the store
  -- holds under the id is that very task.
  pub finished_final :
      (id : String) (s u : TaskStore R) (t t' : InternalTask R)
      → Inv s
      → find id s.tasks ≡ some t
      → is_running t.state ≡ false
      → Run id s u
      → find id u.tasks ≡ some t'
      → t' ≡ t
  finished_final id s u t t' h e fin r e' = elim (Run-finished t h e fin r) [
    | inl k ↦ ground arith
    | inr gone ↦ absurd (ground arith)
  ]

  Fate-running :
      {ttl_ms : ℕ} (t : InternalTask R) {o o' : Option (InternalTask R)}
      → o ≡ some t
      → is_running t.state ≡ true
      → Fate ttl_ms o o'
      → (t' : InternalTask R) × (o' ≡ some t') × ((t' ≡ t) ⊎ Advance ttl_ms t t')
  Fate-running t e runs (stays f) = (t, f ∙ e, inl refl)
  Fate-running t e runs (dropped gone f) = let no_run = gone t e in absurd (ground arith)
  Fate-running {ttl_ms} t e runs (changes u v e' f adv) =
      let same : u ≡ t = ground arith in (v, f, inr (subst (λ w. Advance ttl_ms w v) same adv))

  -- No step drops a running task or puts another in its place: afterwards it is there, unchanged or changed in one of the ways
  -- that a worker, a timer, `cancel` or `shutdown` changes a task.
  pub running_kept :
      (id : String) (s u : TaskStore R) (t : InternalTask R) (st : Step s u)
      → Inv s
      → find id s.tasks ≡ some t
      → is_running t.state ≡ true
      → (t' : InternalTask R) × (find id u.tasks ≡ some t') × ((t' ≡ t) ⊎ Advance s.ttl_ms t t')
  running_kept id s u t st h e runs =
      Fate-running t e runs (Step-Fate id st (running-Avoids id t st h e runs) h)

  -- A requested stop is never taken back or replaced.
  Advance-stop :
      {ttl_ms : ℕ} {t u : InternalTask R} (stop : RequestedStop)
      → t.requested_stop ≡ some stop
      → Advance ttl_ms t u
      → u.requested_stop ≡ some stop
  unfolding request_stop append_output stop_for_shutdown complete fail
  Advance-stop stop e (asked other f) = rw f (ground arith)
  Advance-stop stop e (wrote now Types.stdout bytes f) = rw f (ground arith)
  Advance-stop stop e (wrote now Types.stderr bytes f) = rw f (ground arith)
  Advance-stop stop e (completed now c runs f) = rw f (ground arith)
  Advance-stop stop e (failed now x runs f) = rw f (ground arith)
  Advance-stop stop e (shut f) = rw f (ground arith)

  abbrev Stopping : RequestedStop → Option (InternalTask R) → Type 0
  Stopping stop o = (t : InternalTask R) → o ≡ some t → t.requested_stop ≡ some stop

  Fate-stop :
      {ttl_ms : ℕ} (stop : RequestedStop) {o o' : Option (InternalTask R)}
      → Stopping stop o
      → Fate ttl_ms o o'
      → Stopping stop o'
  Fate-stop stop h (stays e) t f = h t (sym e ∙ f)
  Fate-stop stop h (dropped gone e) t f = absurd (ground arith)
  Fate-stop stop h (changes u v e e' adv) t f =
      let same : v ≡ t = ground arith in
      subst (λ w. w.requested_stop ≡ some stop) same (Advance-stop stop (h u e) adv)

  Run-stop :
      {id : String} {s u : TaskStore R} (stop : RequestedStop)
      → Inv s
      → Stopping stop (find id s.tasks)
      → Run id s u
      → Stopping stop (find id u.tasks)
  Run-stop stop h e here = e
  Run-stop {id} stop h e (next r st avoid) =
      Fate-stop stop (Run-stop stop h e r) (Step-Fate id st avoid (Run-Inv r h))

  -- A task that was asked to stop: it is aborted, and it runs or has ended as asked.
  pub record EndsAs (stop : RequestedStop) (t : InternalTask R) : Type 0 where
    pub aborted : t.aborted ≡ true
    pub ended :
        (is_running t.state ≡ true)
        ⊎ ((t.state ≡ state_of_stop stop)
            × (t.termination ≡ some (termination_of_stop stop))
            × (t.exit_code ≡ some none))

  IsShaped-EndsAs :
      (ttl_ms : ℕ) (stop : RequestedStop) (t : InternalTask R)
      → IsShaped ttl_ms t
      → t.requested_stop ≡ some stop
      → EndsAs stop t
  IsShaped-EndsAs ttl_ms stop t h e = ground (arith, h.stop)

  require-found :
      (s : TaskStore R) (now : ℕ) (id : String) (t : InternalTask R)
      → (require_task s now id).0 ≡ ok t
      → find id (cleanup now s.tasks) ≡ some t
  unfolding require_task
  require-found s now id t e = ground arith

  request_stop-set :
      (stop : RequestedStop) (t : InternalTask R)
      → may_stop t ≡ true
      → (request_stop stop t).requested_stop ≡ some stop
  unfolding request_stop
  request_stop-set stop t e = rw e refl

  cancel-Stopping :
      (s : TaskStore R) (now : ℕ) (id : String) (state : TaskState)
      → (cancel s now id).0 ≡ ok (true, state)
      → Stopping stop_cancelled (find id (cancel s now id).1.tasks)
  unfolding cancel require_task
  cancel-Stopping s now id state e t f = elim (Result-cases (require_task s now id).0) [
    | inr (x, missing) ↦ absurd (refused (rw (missing, cancel) at e))
    | inl (t0, found) ↦
        let may : may_stop t0 ≡ true = ok-inj (rw (found, cancel) at e) in
        let now_there : find id (modify id (request_stop stop_cancelled) (cleanup now s.tasks))
            ≡ some (request_stop stop_cancelled t0) =
          modify-find_self (request_stop stop_cancelled) (request_stop-Keeps stop_cancelled) id
            (cleanup now s.tasks) t0 (require-found s now id t0 found) in
        let same : request_stop stop_cancelled t0 ≡ t =
          some-eq (sym now_there ∙ (rw (found, cancel) at f)) in
        subst (λ w. w.requested_stop ≡ some stop_cancelled) same
          (request_stop-set stop_cancelled t0 may)
  ]
    where
      refused :
          {x : Failure} {a : Bool × TaskState} → Path (Result (Bool × TaskState)) (err x) (ok a) → ⊥
      refused p = cc

      some-eq : {a b : InternalTask R} → some a ≡ some b → a ≡ b
      some-eq p = ground arith

  -- Once `cancel` has accepted, the task is aborted, and whatever its worker, its timer or a client
  -- does, it ends as cancelled with a null exit code; a completion that arrives later, or a timer
  -- that fires, cannot make it succeed, fail or time out.
  pub cancel_honoured :
      (s u : TaskStore R) (now : ℕ) (id : String) (state : TaskState) (t : InternalTask R)
      → Inv s
      → (cancel s now id).0 ≡ ok (true, state)
      → Run id (cancel s now id).1 u
      → find id u.tasks ≡ some t
      → EndsAs stop_cancelled t
  cancel_honoured s u now id state t h e r f =
      let h' = Step-Inv (cancels now id) h in
      let fit = Run-Inv r h' in
      IsShaped-EndsAs u.ttl_ms stop_cancelled t
        (All-find (IsShaped u.ttl_ms) id u.tasks fit.shaped f)
        (Run-stop stop_cancelled h' (cancel-Stopping s now id state e) r t f)
