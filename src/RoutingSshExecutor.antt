-- ===== src/RoutingSshExecutor.antt =====
-- src/infra/routing-ssh-executor.ts: which executor runs a command, and which ones are closed when
-- targets are removed. An executor is known by a number. Its `run` and `close` are not part of the
-- model: `run` returns the executor that is asked, and the outcome of a `close` is a call of its own.
pub mod Runs
pub mod Safety
pub mod Leaks
mod Tests
use enhanced_ssh.Prelude.{
  ℕ, Bool, true, false, not, ◌||◌, String, List, [], ◌∷◌, ◌++◌, Option, none, some, ◌==◌,
  if◌then◌else◌, any, includes, get, delete, map,
}
use mathlib.Core.Option.{get_or as or_else}
use enhanced_ssh.Errors.{Failure, other_error}
use enhanced_ssh.Result.{Result, ok, err, require, ◌>>◌}

abbrev pub Runner : Type 0
Runner = ℕ

-- `close_operation` is whether there is one.
pub record RoutingSshExecutor : Type 0 where
  pub fallback : Runner
  pub routes : List (String × Runner)
  pub removed_aliases : List String
  pub retired_runners : List Runner
  pub closed : Bool
  pub close_operation : Bool

unfoldable pub create : Runner → List (String × Runner) → RoutingSshExecutor
create fallback routes = record {
  fallback = fallback;
  routes = routes;
  removed_aliases = [];
  retired_runners = [];
  closed = false;
  close_operation = false;
}

-- A SshExecutionError is an error of which the message is kept.
abbrev pub execution_error : String → Failure
execution_error message = other_error message

unfoldable pub run : RoutingSshExecutor → String → Result Runner
run executor alias = do
  require (not executor.closed) (execution_error "the SSH executor is closed")
  require (not (includes alias executor.removed_aliases))
      (execution_error "the SSH target has been removed")
  ok (or_else (get alias executor.routes) executor.fallback)

-- Set.has, Set.add and Set.delete.
abbrev pub has_runner : Runner → List Runner → Bool
has_runner runner runners = any (λ other. other == runner) runners

unfoldable pub add_runner : Runner → List Runner → List Runner
add_runner runner runners = if has_runner runner runners then runners else runners ++ runner ∷ []

unfoldable pub drop_runner : Runner → List Runner → List Runner
drop_runner runner [] = []
drop_runner runner (other ∷ runners) =
    let rest = drop_runner runner runners in if other == runner then rest else other ∷ rest

abbrev pub add_alias : String → List String → List String
add_alias alias aliases = if includes alias aliases then aliases else aliases ++ alias ∷ []

-- if (runner !== undefined && runner !== this.#fallback) this.#retiredRunners.add(runner)
unfoldable pub retire : Runner → Option Runner → List Runner → List Runner
retire fallback none retired = retired
retire fallback (some runner) retired =
    if runner == fallback then retired else add_runner runner retired

-- The body of the loop over the aliases.
unfoldable pub remove_route : RoutingSshExecutor → String → RoutingSshExecutor
remove_route executor alias = record executor {
  removed_aliases = add_alias alias executor.removed_aliases;
  routes = delete alias executor.routes;
  retired_runners = retire executor.fallback (get alias executor.routes) executor.retired_runners;
}

unfoldable pub remove_all : RoutingSshExecutor → List String → RoutingSshExecutor
remove_all executor [] = executor
remove_all executor (alias ∷ aliases) = remove_all (remove_route executor alias) aliases

-- for (const runner of this.#routes.values()) this.#retiredRunners.delete(runner)
unfoldable pub keep_shared : List (String × Runner) → List Runner → List Runner
keep_shared [] retired = retired
keep_shared ((alias, runner) ∷ routes) retired = keep_shared routes (drop_runner runner retired)

-- `removeRoutes` up to the point where it closes the retired executors, which the result lists.
unfoldable pub remove_routes : RoutingSshExecutor → List String → List Runner × RoutingSshExecutor
remove_routes executor aliases =
    let removed = remove_all executor aliases in
    let kept = keep_shared removed.routes removed.retired_runners in
    (kept, record removed { retired_runners = kept })

-- After `await runner.close()` in `removeRoutes`.
unfoldable pub runner_closed : RoutingSshExecutor → Runner → RoutingSshExecutor
runner_closed executor runner = record executor {
  retired_runners = drop_runner runner executor.retired_runners;
}

-- new Set([...])
unfoldable pub unique : List Runner → List Runner → List Runner
unique [] found = found
unique (runner ∷ runners) found = unique runners (add_runner runner found)

abbrev pub runners_of : List (String × Runner) → List Runner
runners_of routes = map (λ route. route.1) routes

-- `close`, which lists the executors that it closes; a second call joins the first one.
unfoldable pub close : RoutingSshExecutor → List Runner × RoutingSshExecutor
close executor = if executor.close_operation then ([], record executor { closed = true }) else (
  unique (executor.fallback ∷ (runners_of executor.routes ++ executor.retired_runners)) [],
  record executor { closed = true; close_operation = true },
)

-- operation.catch(...)
unfoldable pub close_failed : RoutingSshExecutor → RoutingSshExecutor
close_failed executor = record executor { close_operation = false }
