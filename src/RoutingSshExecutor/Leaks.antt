-- ===== src/RoutingSshExecutor/Leaks.antt =====
-- No executor is lost: what once had a route is closed in the end.
use enhanced_ssh.Prelude.{
  Bool, true, false, ◌||◌, String, List, [], ◌∷◌, ◌++◌, Option, none, some, ◌≡◌, refl, ◌∙◌, arith,
  ◌==◌, ==_iff, get,
}
use enhanced_ssh.RoutingSshExecutor.{
  Runner, RoutingSshExecutor, create, has_runner, add_runner, retire, remove_route, remove_all,
  remove_routes, runner_closed, unique, runners_of, close, close_failed,
}
use enhanced_ssh.RoutingSshExecutor.Runs.{
  Step, removes, retires, closes, fails, Reach, here, next, is_routed, is_it, has_runner-append,
  has_runner-add_runner, has_runner-drop_runner, has_runner-keep_shared, is_routed-delete,
  close-same,
}

-- An executor that is still known to be closed later, or is closed.
abbrev pub accounts : Runner → List Runner × RoutingSshExecutor → Bool
accounts r at =
    at.1.fallback == r
    || (is_routed r at.1.routes || (has_runner r at.1.retired_runners || has_runner r at.0))

has_runner-retire :
    (r fallback : Runner) (found : Option Runner) (retired : List Runner)
    → (has_runner r retired || is_it r found) ≡ true
    → (fallback == r || has_runner r (retire fallback found retired)) ≡ true
unfolding retire
has_runner-retire r fallback none retired h = ground arith
has_runner-retire r fallback (some runner) retired h = ground (
  arith,
  has_runner-add_runner r runner retired,
  ==_iff runner fallback,
  ==_iff runner r,
  ==_iff fallback r,
)

-- The executors that a removal leaves, before it spares the shared ones.
known : Runner → RoutingSshExecutor → Bool
known r executor =
    executor.fallback == r || (is_routed r executor.routes || has_runner r executor.retired_runners)

remove_route-known :
    (r : Runner) (executor : RoutingSshExecutor) (alias : String)
    → known r executor ≡ true
    → known r (remove_route executor alias) ≡ true
unfolding known remove_route
remove_route-known r executor alias h = ground (
  arith,
  is_routed-delete r alias executor.routes,
  has_runner-retire r executor.fallback (get alias executor.routes) executor.retired_runners,
)

remove_all-known :
    (r : Runner) (executor : RoutingSshExecutor) (aliases : List String)
    → known r executor ≡ true
    → known r (remove_all executor aliases) ≡ true
unfolding remove_all
remove_all-known r executor [] h = h
remove_all-known r executor (alias ∷ aliases) h =
    remove_all-known r (remove_route executor alias) aliases (remove_route-known r executor alias h)

remove_routes-known :
    (r : Runner) (executor : RoutingSshExecutor) (aliases : List String)
    → known r executor ≡ true
    → known r (remove_routes executor aliases).1 ≡ true
unfolding known remove_routes
remove_routes-known r executor aliases h =
    let removed = remove_all executor aliases in
    let before = remove_all-known r executor aliases h in
    ground (arith, has_runner-keep_shared r removed.routes removed.retired_runners)

Step-accounts :
    {from to : List Runner × RoutingSshExecutor} (r : Runner)
    → Step from to
    → accounts r from ≡ true
    → accounts r to ≡ true
unfolding known runner_closed close_failed
Step-accounts r (removes {executor = executor} aliases) h =
    ground (arith, remove_routes-known r executor aliases)
Step-accounts r (retires {executor = executor} runner) h =
    ground (arith, has_runner-drop_runner r runner executor.retired_runners)
Step-accounts r (closes {done = done} {executor = executor}) h =
    close-same (λ e. accounts r (done, e)) executor refl refl ∙ h
Step-accounts r fails h = h

Reach-accounts :
    (from to : List Runner × RoutingSshExecutor) (r : Runner)
    → Reach from to
    → accounts r from ≡ true
    → accounts r to ≡ true
Reach-accounts from to r here h = h
Reach-accounts from to r (next runs step) h = Step-accounts r step (Reach-accounts from _ r runs h)

has_runner-unique :
    (r : Runner) (xs found : List Runner)
    → has_runner r (unique xs found) ≡ (has_runner r found || has_runner r xs)
unfolding unique
has_runner-unique r [] found = ground arith
has_runner-unique r (x ∷ xs) found =
    ground (arith, has_runner-unique r xs (add_runner x found), has_runner-add_runner r x found)

has_runner-runners_of :
    (r : Runner) (routes : List (String × Runner))
    → has_runner r (runners_of routes) ≡ is_routed r routes
has_runner-runners_of r [] = refl
has_runner-runners_of r ((alias, x) ∷ routes) = ground (arith, has_runner-runners_of r routes)

-- After any calls on a new executor, the fallback and every executor that it was given a route to are
-- closed already, or are among those that `close` closes, unless a close is under way.
pub close-all :
    (fallback : Runner) (routes : List (String × Runner)) (done : List Runner)
    (executor : RoutingSshExecutor) (runner : Runner)
    → (fallback == runner || is_routed runner routes) ≡ true
    → Reach ([], create fallback routes) (done, executor)
    → executor.close_operation ≡ false
    → (has_runner runner (close executor).0 || has_runner runner done) ≡ true
unfolding create close
close-all fallback routes done executor runner given runs idle =
    let h =
      Reach-accounts ([], create fallback routes) (done, executor) runner runs (ground arith) in
    let listed =
      has_runner-unique runner
        (executor.fallback ∷ (runners_of executor.routes ++ executor.retired_runners)) [] in
    let parts = has_runner-append runner (runners_of executor.routes) executor.retired_runners in
    let routed = has_runner-runners_of runner executor.routes in rw idle (ground arith)
