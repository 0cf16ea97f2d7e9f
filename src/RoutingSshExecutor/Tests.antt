-- ===== src/RoutingSshExecutor/Tests.antt =====
-- Three targets over two executors and a fallback at work, and the theorems at concrete inputs.
use enhanced_ssh.Prelude.{true, false, ◌||◌, String, List, [], ◌∷◌, ◌≡◌, refl, get, delete}
use enhanced_ssh.Result.{ok, err}
use enhanced_ssh.RoutingSshExecutor.{
  Runner, RoutingSshExecutor, create, run, execution_error, has_runner, add_runner, drop_runner,
  retire, remove_route, remove_all, keep_shared, remove_routes, runner_closed, unique, close,
}
use enhanced_ssh.RoutingSshExecutor.Runs.{here, next, removes, retires}
use enhanced_ssh.RoutingSshExecutor.Safety.{remove_routes-run, remove_routes-spares_running}
use enhanced_ssh.RoutingSshExecutor.Leaks.{close-all}

run_routes : Unit {0}
unfolding create run add_runner drop_runner retire remove_route remove_all keep_shared remove_routes
    runner_closed unique close get delete
run_routes = tt

-- Two of the targets share the executor 1.
abbrev routes : List (String × Runner)
routes = ("a", 1) ∷ ("b", 1) ∷ ("c", 2) ∷ []

abbrev removed : RoutingSshExecutor
removed = record {
  fallback = 0;
  routes = ("b", 1) ∷ [];
  removed_aliases = "a" ∷ "c" ∷ [];
  retired_runners = 2 ∷ [];
  closed = false;
  close_operation = false;
}

-- The executor that `b` still has is not closed.
removal : remove_routes (create 0 routes) ("a" ∷ "c" ∷ []) ≡ (2 ∷ [], removed)
unfolding run_routes
removal = refl

runs_tests :
    (run removed "b" ≡ ok 1)
    × (run removed "other" ≡ ok 0)
    × (run removed "a" ≡ err (execution_error "the SSH target has been removed"))
    × (run (close removed).1 "b" ≡ err (execution_error "the SSH executor is closed"))
    × ((close removed).0 ≡ 0 ∷ 1 ∷ 2 ∷ [])
unfolding run_routes
runs_tests = (refl, refl, refl, refl, refl)

remove_routes-run_example : ¬ (run removed "a" ≡ ok 1)
unfolding run_routes
remove_routes-run_example =
    remove_routes-run [] (create 0 routes) ("a" ∷ "c" ∷ []) "a" ([], removed) 1 refl here

remove_routes-spares_running_example : has_runner 1 (2 ∷ []) ≡ false
unfolding run_routes
remove_routes-spares_running_example =
    remove_routes-spares_running 0 routes [] (create 0 routes) ("a" ∷ "c" ∷ []) "b" 1 here refl

close-all_example :
    (has_runner 2 (close (runner_closed removed 2)).0 || has_runner 2 (2 ∷ [])) ≡ true
unfolding run_routes
close-all_example =
    close-all 0 routes (2 ∷ []) (runner_closed removed 2) 2 refl
      (next (next here (removes ("a" ∷ "c" ∷ []))) (retires 2)) refl
