-- ===== src/TaskStore/Tests.antt =====
-- The task store at work, and its theorems at concrete inputs.
use enhanced_ssh.Prelude.{
  length, ◌==◌, if◌then◌else◌, ℕ, ◌⊎◌, true, false, String, [], ◌∷◌, none, some, ◌≡◌, refl,
}
use enhanced_ssh.Result.{ok, err}
use enhanced_ssh.RollingLog
use enhanced_ssh.TaskStore.Types.{
  InternalTask, exec, running, succeeded, exit, TaskCompletion, StartTaskOptions, TaskStartResult,
  stop_cancelled,
}
use enhanced_ssh.TaskStore.Table.{
  find, modify, remove, cleanup, active_count, earliest_finished, complete, request_stop,
  stop_for_shutdown, finish, state_for_termination,
}
use enhanced_ssh.TaskStore.Store.{
  TaskStore, TaskStoreOptions, create, start, admit, make_retention_room, make_room, unique_run_id,
  is_run_id, require_task, cancel, settle_complete, shutdown, stop_all, new_task, gateway_stopping,
}
use enhanced_ssh.TaskStore.TableLaws.{All}
use enhanced_ssh.TaskStore.Room.{RoomOutcome, room-outcome}
use enhanced_ssh.TaskStore.Step.{Step, Reach, starts, cancels, completes, looks}
use enhanced_ssh.TaskStore.Step
use enhanced_ssh.TaskStore.Invariant.{Inv, Reach-create-Inv}
use enhanced_ssh.TaskStore.Fate.{Advance}
use enhanced_ssh.TaskStore.Lifecycle.{Run, EndsAs, finished_final, running_kept, cancel_honoured}
use enhanced_ssh.TaskStore.Lifecycle
use enhanced_ssh.TaskStore.Admission.{Registers, start-Registers}
use enhanced_ssh.TaskStore.Closing.{IsStopped, shutdown_final}

run_store : Unit {0}
unfolding create start admit make_retention_room make_room unique_run_id is_run_id require_task
    cancel settle_complete shutdown stop_all find modify remove cleanup active_count
    earliest_finished complete request_stop stop_for_shutdown finish state_for_termination
    RollingLog.create
run_store = tt

abbrev limits : TaskStoreOptions
limits = record {
  ttl_ms = 100;
  max_retained_tasks = 2;
  max_concurrent_tasks = 1;
  max_log_bytes_per_stream = none;
}

abbrev fresh_store : TaskStore ℕ
fresh_store = record {
  ttl_ms = 100;
  max_retained_tasks = 2;
  max_concurrent_tasks = 1;
  max_log_bytes_per_stream = 1048576;
  tasks = [];
  closing = false;
}

created : create limits ≡ ok fresh_store
unfolding run_store
created = refl

abbrev id_a : String
id_a = "aaaaaaaaaaaaaaaaaaaaaaaaaaaaaaaaaaaaaaaaaaa"

abbrev job : StartTaskOptions
job = record { kind = exec; target = "build"; timeout_ms = none }

abbrev busy_store : TaskStore ℕ
busy_store = record fresh_store { tasks = new_task 1048576 5 job id_a ∷ [] }

started_store : (start fresh_store 5 5 (λ k. id_a) job).1 ≡ busy_store
unfolding run_store
started_store = refl

abbrev task_a : InternalTask ℕ
task_a = new_task 1048576 5 job id_a

busy-Inv : Inv busy_store
unfolding run_store
busy-Inv =
    Reach-create-Inv limits fresh_store busy_store created
      (Step.next Step.here (starts 5 5 (λ k. id_a) job))

abbrev success : TaskCompletion ℕ
success = record { termination = some exit; exit_code = some (some 0); result = some 7 }

abbrev done_task : InternalTask ℕ
done_task = record task_a {
  state = succeeded;
  finished_at_ms = some 9;
  updated_at_ms = 9;
  expires_at_ms = some 109;
  termination = some exit;
  exit_code = some (some 0);
  result = some 7;
}

abbrev done_store : TaskStore ℕ
done_store = record fresh_store { tasks = done_task ∷ [] }

completes_busy : settle_complete busy_store 9 id_a success ≡ done_store
unfolding run_store
completes_busy = refl

done-Inv : Inv done_store
unfolding run_store
done-Inv = Reach-create-Inv limits fresh_store done_store created (
    Step.next (Step.next Step.here (starts 5 5 (λ k. id_a) job))
      (completes 9 id_a success task_a refl refl))

store_tests :
    ((start busy_store 6 6 (λ k. id_a) job).1 ≡ busy_store)
    × ((require_task done_store 109 id_a).1.tasks ≡ [])
    × ((require_task done_store 108 id_a).1.tasks ≡ done_task ∷ [])
unfolding run_store
store_tests = (refl, refl, refl)

look_once : Run id_a done_store done_store
unfolding run_store
look_once = Lifecycle.next Lifecycle.here (looks 20 id_a) tt

found_done : find id_a done_store.tasks ≡ some done_task
unfolding run_store
found_done = refl

finished_final_example : ◌≡◌ {A = InternalTask ℕ} done_task done_task
finished_final_example =
    finished_final id_a done_store done_store done_task done_task done-Inv found_done refl look_once
      found_done

found_busy : find id_a busy_store.tasks ≡ some task_a
unfolding run_store
found_busy = refl

abbrev wide_limits : TaskStoreOptions
wide_limits = record limits { max_concurrent_tasks = 2 }

abbrev wide_store : TaskStore ℕ
wide_store = record fresh_store { max_concurrent_tasks = 2 }

abbrev wide_busy : TaskStore ℕ
wide_busy = record busy_store { max_concurrent_tasks = 2 }

wide-Inv : Inv wide_busy
unfolding run_store
wide-Inv =
    Reach-create-Inv wide_limits wide_store wide_busy refl
      (Step.next Step.here (starts 5 5 (λ k. id_a) job))

found_wide : find id_a wide_busy.tasks ≡ some task_a
unfolding run_store
found_wide = refl

-- The first candidate is the run id of the running task.
abbrev colliding : ℕ → String
colliding k = if k == 0 then id_a else "bbbbbbbbbbbbbbbbbbbbbbbbbbbbbbbbbbbbbbbbbbb"

running_kept_example :
    (t : InternalTask ℕ) × (find id_a (start wide_busy 6 6 colliding job).1.tasks ≡ some t)
    × ((t ≡ task_a) ⊎ Advance 100 task_a t)
running_kept_example =
    running_kept id_a wide_busy (start wide_busy 6 6 colliding job).1 task_a
      (starts 6 6 colliding job) wide-Inv found_wide refl

both_run : length (start wide_busy 6 6 colliding job).1.tasks ≡ 2
unfolding run_store
both_run = refl

abbrev stopping_task : InternalTask ℕ
stopping_task = request_stop stop_cancelled task_a

accepted : (cancel busy_store 6 id_a).0 ≡ ok (true, running)
unfolding run_store
accepted = refl

abbrev stopped_task : InternalTask ℕ
stopped_task = complete 100 9 success stopping_task

late_completion :
    Run id_a
      (cancel busy_store 6 id_a).1
      (settle_complete (cancel busy_store 6 id_a).1 9 id_a success)
unfolding run_store
late_completion =
    Lifecycle.next Lifecycle.here (completes 9 id_a success stopping_task refl refl) tt

found_stopped :
    find id_a (settle_complete (cancel busy_store 6 id_a).1 9 id_a success).tasks
    ≡ some stopped_task
unfolding run_store
found_stopped = refl

cancel_honoured_example : EndsAs stop_cancelled stopped_task
cancel_honoured_example =
    cancel_honoured busy_store (settle_complete (cancel busy_store 6 id_a).1 9 id_a success) 6 id_a
      running stopped_task busy-Inv accepted late_completion found_stopped

abbrev receipt : TaskStartResult
receipt = record {
  run_id = id_a;
  target = "build";
  kind = exec;
  state = running;
  started_at_ms = 5;
}

admitted_a : (start fresh_store 5 5 (λ k. id_a) job).0 ≡ ok receipt
unfolding run_store
admitted_a = refl

start-Registers_example :
    Registers fresh_store (start fresh_store 5 5 (λ k. id_a) job).1 5 5 job receipt
start-Registers_example = start-Registers fresh_store 5 5 (λ k. id_a) job receipt admitted_a

room-outcome_example : RoomOutcome 1 (make_retention_room 1 (done_task ∷ []))
unfolding run_store
room-outcome_example = room-outcome 1 (done_task ∷ []) (refl, tt)

shutdown_final_example :
    All IsStopped (shutdown busy_store).tasks
    × (start (shutdown busy_store) 7 7 (λ k. id_a) job
        ≡ (err gateway_stopping, shutdown busy_store))
shutdown_final_example =
    shutdown_final busy_store (shutdown busy_store) 7 7 (λ k. id_a) job Step.here
