-- ===== src/RoutingSshExecutor/Safety.antt =====
-- Which executor may run, and which may be closed.
use enhanced_ssh.Prelude.{
  Bool, true, false, not, ◌||◌, String, List, [], ◌∷◌, Option, none, some, ◌≡◌, refl, sym, ◌∙◌, ap,
  arith, ==_iff, includes, get, Option-cases, inl, inr,
}
use mathlib.Core.Option.{get_or as or_else}
use enhanced_ssh.Result.{ok, require-ok, ok-injective}
use enhanced_ssh.RoutingSshExecutor.{
  Runner, RoutingSshExecutor, create, run, has_runner, retire, remove_route, remove_all,
  remove_routes, runner_closed, close_failed,
}
use enhanced_ssh.RoutingSshExecutor.Runs.{
  Step, removes, retires, closes, fails, Reach, here, next, is_routed, has_runner-add_runner,
  has_runner-drop_runner, has_runner-keep_shared, includes-add_alias, close-same,
}

removed-remove_all :
    (executor : RoutingSshExecutor) (aliases : List String) (alias : String)
    → (includes alias executor.removed_aliases || includes alias aliases) ≡ true
    → includes alias (remove_all executor aliases).removed_aliases ≡ true
unfolding remove_all remove_route
removed-remove_all executor [] alias h = ground arith
removed-remove_all executor (first ∷ aliases) alias h =
    removed-remove_all (remove_route executor first) aliases alias
      (ground (arith, includes-add_alias alias first executor.removed_aliases))

Step-removed :
    {from to : List Runner × RoutingSshExecutor} (alias : String)
    → Step from to
    → includes alias from.1.removed_aliases ≡ true
    → includes alias to.1.removed_aliases ≡ true
unfolding remove_routes runner_closed close_failed
Step-removed alias (removes {executor = executor} aliases) h =
    removed-remove_all executor aliases alias (ground arith)
Step-removed alias (retires runner) h = h
Step-removed alias (closes {executor = executor}) h =
    close-same (λ e. includes alias e.removed_aliases) executor refl refl ∙ h
Step-removed alias fails h = h

Reach-removed :
    (from to : List Runner × RoutingSshExecutor) (alias : String)
    → Reach from to
    → includes alias from.1.removed_aliases ≡ true
    → includes alias to.1.removed_aliases ≡ true
Reach-removed from to alias here h = h
Reach-removed from to alias (next runs step) h =
    Step-removed alias step (Reach-removed from _ alias runs h)

-- Once a removal has named an alias, no command runs for it any more, whatever is called afterwards:
-- not even by the executor that other targets fall back on.
pub remove_routes-run :
    (done : List Runner) (executor : RoutingSshExecutor) (aliases : List String) (alias : String)
    (later : List Runner × RoutingSshExecutor) (runner : Runner)
    → includes alias aliases ≡ true
    → Reach (done, (remove_routes executor aliases).1) later
    → ¬ (run later.1 alias ≡ ok runner)
unfolding run remove_routes
remove_routes-run done executor aliases alias later runner named runs e =
    let gone =
      Reach-removed (done, (remove_routes executor aliases).1) later alias runs
        (removed-remove_all executor aliases alias (ground arith)) in
    let (still_open, s1) = require-ok (not later.1.closed) _ _ e in
    let (there, s2) = require-ok (not (includes alias later.1.removed_aliases)) _ _ s1 in
    absurd (ground arith)

-- The executor that others fall back on is not among the retired ones.
abbrev spares : RoutingSshExecutor → Bool
spares executor = not (has_runner executor.fallback executor.retired_runners)

retire-spares :
    (fallback : Runner) (found : Option Runner) (retired : List Runner)
    → has_runner fallback retired ≡ false
    → has_runner fallback (retire fallback found retired) ≡ false
unfolding retire
retire-spares fallback none retired h = h
retire-spares fallback (some runner) retired h =
    ground (arith, has_runner-add_runner fallback runner retired, ==_iff runner fallback)

remove_all-spares :
    (executor : RoutingSshExecutor) (aliases : List String)
    → spares executor ≡ true
    → spares (remove_all executor aliases) ≡ true
unfolding remove_all remove_route
remove_all-spares executor [] h = h
remove_all-spares executor (alias ∷ aliases) h =
    remove_all-spares (remove_route executor alias) aliases (
      ground (
        arith,
        retire-spares executor.fallback (get alias executor.routes) executor.retired_runners,
      ))

remove_routes-spares :
    (executor : RoutingSshExecutor) (aliases : List String)
    → spares executor ≡ true
    → spares (remove_routes executor aliases).1 ≡ true
unfolding remove_routes
remove_routes-spares executor aliases h =
    let removed = remove_all executor aliases in
    ground (
      arith,
      remove_all-spares executor aliases h,
      has_runner-keep_shared removed.fallback removed.routes removed.retired_runners,
    )

Step-spares :
    {from to : List Runner × RoutingSshExecutor}
    → Step from to
    → spares from.1 ≡ true
    → spares to.1 ≡ true
unfolding runner_closed close_failed
Step-spares (removes {executor = executor} aliases) h = remove_routes-spares executor aliases h
Step-spares (retires {executor = executor} runner) h =
    ground (arith, has_runner-drop_runner executor.fallback runner executor.retired_runners)
Step-spares (closes {executor = executor}) h = close-same spares executor refl refl ∙ h
Step-spares fails h = h

Reach-spares :
    (from to : List Runner × RoutingSshExecutor)
    → Reach from to
    → spares from.1 ≡ true
    → spares to.1 ≡ true
Reach-spares from to here h = h
Reach-spares from to (next runs step) h = Step-spares step (Reach-spares from _ runs h)

routed-get :
    (alias : String) (runner : Runner) (routes : List (String × Runner))
    → get alias routes ≡ some runner
    → is_routed runner routes ≡ true
unfolding get
routed-get alias runner [] e = absurd (ground arith)
routed-get alias runner ((k, x) ∷ routes) e =
    ground (arith, routed-get alias runner routes, ==_iff x runner)

-- After any calls on a new executor, a removal closes no executor that a command can still run with:
-- neither one that a surviving alias has a route to, nor the one that others fall back on.
pub remove_routes-spares_running :
    (fallback : Runner) (routes : List (String × Runner)) (done : List Runner)
    (executor : RoutingSshExecutor) (aliases : List String) (alias : String) (runner : Runner)
    → Reach ([], create fallback routes) (done, executor)
    → run (remove_routes executor aliases).1 alias ≡ ok runner
    → has_runner runner (remove_routes executor aliases).0 ≡ false
unfolding run remove_routes create
remove_routes-spares_running fallback routes done executor aliases alias runner runs e =
    let removed = remove_all executor aliases in
    let h = remove_all-spares executor aliases (Reach-spares _ _ runs refl) in
    let shared = has_runner-keep_shared runner removed.routes removed.retired_runners in
    let (still_open, s1) = require-ok (not removed.closed) _ _ e in
    let (there, s2) = require-ok (not (includes alias removed.removed_aliases)) _ _ s1 in
    elim (Option-cases (get alias removed.routes)) [
      | inl none_there ↦
          let same : runner ≡ removed.fallback =
            sym (ok-injective s2) ∙ ap (λ o. or_else o removed.fallback) none_there in
          ground (arith, ap (λ r. has_runner r removed.retired_runners) same)
      | inr (found, at) ↦
          let same : runner ≡ found =
            sym (ok-injective s2) ∙ ap (λ o. or_else o removed.fallback) at in
          ground (
            arith,
            routed-get alias found removed.routes at,
            ap (λ r. is_routed r removed.routes) same,
          )
    ]
