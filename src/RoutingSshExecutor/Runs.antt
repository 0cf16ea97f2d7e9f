-- ===== src/RoutingSshExecutor/Runs.antt =====
-- The calls on an executor, in any order, and the lists of its executors through them.
use enhanced_ssh.Prelude.{
  Bool, true, false, not, ◌&&◌, ◌||◌, String, List, [], ◌∷◌, ◌++◌, Option, none, some, ◌≡◌, refl,
  arith, ◌==◌, ==_iff, if◌then◌else◌, any, includes, str_eq, eq_iff, get, delete,
}
use enhanced_ssh.RoutingSshExecutor.{
  Runner, RoutingSshExecutor, has_runner, add_runner, drop_runner, add_alias, keep_shared,
  remove_routes, runner_closed, close, close_failed,
}

-- One call, or the outcome of one close: the executors that are closed so far grow with it.
pub data Step : List Runner × RoutingSshExecutor → List Runner × RoutingSshExecutor → Type 0 where
  removes :
      {done : List Runner} {executor : RoutingSshExecutor} (aliases : List String)
      → Step (done, executor) (done, (remove_routes executor aliases).1)
  retires :
      {done : List Runner} {executor : RoutingSshExecutor} (runner : Runner)
      → Step (done, executor) (runner ∷ done, runner_closed executor runner)
  closes :
      {done : List Runner} {executor : RoutingSshExecutor}
      → Step (done, executor) (done, (close executor).1)
  fails :
      {done : List Runner} {executor : RoutingSshExecutor}
      → Step (done, executor) (done, close_failed executor)

pub data Reach (from : List Runner × RoutingSshExecutor)
    : List Runner × RoutingSshExecutor → Type 0 where
  here : Reach from from
  next : {at to : List Runner × RoutingSshExecutor} → Reach from at → Step at to → Reach from to

-- Whether an executor has a route.
abbrev pub is_routed : Runner → List (String × Runner) → Bool
is_routed runner routes = any (λ (route : String × Runner). route.1 == runner) routes

pub has_runner-append :
    (r : Runner) (xs ys : List Runner)
    → has_runner r (xs ++ ys) ≡ (has_runner r xs || has_runner r ys)
has_runner-append r [] ys = refl
has_runner-append r (x ∷ xs) ys = ground (arith, has_runner-append r xs ys)

pub has_runner-add_runner :
    (r runner : Runner) (xs : List Runner)
    → has_runner r (add_runner runner xs) ≡ (has_runner r xs || runner == r)
unfolding add_runner
has_runner-add_runner r runner xs =
    ground (arith, has_runner-append r xs (runner ∷ []), ==_iff runner r, ==_iff runner runner)

pub has_runner-drop_runner :
    (r runner : Runner) (xs : List Runner)
    → has_runner r (drop_runner runner xs) ≡ (has_runner r xs && not (runner == r))
unfolding drop_runner
has_runner-drop_runner r runner [] = refl
has_runner-drop_runner r runner (x ∷ xs) =
    ground (arith, has_runner-drop_runner r runner xs, ==_iff x runner, ==_iff x r, ==_iff runner r)

pub has_runner-keep_shared :
    (r : Runner) (routes : List (String × Runner)) (xs : List Runner)
    → has_runner r (keep_shared routes xs) ≡ (has_runner r xs && not (is_routed r routes))
unfolding keep_shared
has_runner-keep_shared r [] xs = ground arith
has_runner-keep_shared r ((alias, runner) ∷ routes) xs = ground (
  arith,
  has_runner-keep_shared r routes (drop_runner runner xs),
  has_runner-drop_runner r runner xs,
)

-- Whether a look-up gave this executor.
abbrev pub is_it : Runner → Option Runner → Bool
is_it r none = false
is_it r (some runner) = runner == r

-- An executor that has a route keeps one, or had the route that is deleted.
pub is_routed-delete :
    (r : Runner) (alias : String) (routes : List (String × Runner))
    → is_routed r routes ≡ true
    → (is_routed r (delete alias routes) || is_it r (get alias routes)) ≡ true
unfolding delete get
is_routed-delete r alias [] h = absurd (ground arith)
is_routed-delete r alias ((k, x) ∷ routes) h =
    ground (arith, is_routed-delete r alias routes, eq_iff k alias)

pub is_routed-delete_only :
    (r : Runner) (alias : String) (routes : List (String × Runner))
    → is_routed r (delete alias routes) ≡ true
    → is_routed r routes ≡ true
unfolding delete
is_routed-delete_only r alias [] h = h
is_routed-delete_only r alias ((k, x) ∷ routes) h =
    ground (arith, is_routed-delete_only r alias routes, eq_iff k alias)

pub includes-append :
    (x : String) (xs ys : List String) → includes x (xs ++ ys) ≡ (includes x xs || includes x ys)
includes-append x [] ys = refl
includes-append x (y ∷ xs) ys = ground (arith, includes-append x xs ys)

pub includes-add_alias :
    (x alias : String) (xs : List String)
    → includes x (add_alias alias xs) ≡ (includes x xs || str_eq alias x)
includes-add_alias x alias xs =
    ground (arith, includes-append x xs (alias ∷ []), eq_iff alias x, eq_iff alias alias)

either_same :
    {A : Type 0} (f : RoutingSshExecutor → A) (executor : RoutingSshExecutor) (test : Bool)
    (u v : List Runner × RoutingSshExecutor)
    → f u.1 ≡ f executor
    → f v.1 ≡ f executor
    → (let w : List Runner × RoutingSshExecutor = if test then u else v in f w.1 ≡ f executor)
either_same f executor true u v p q = p
either_same f executor false u v p q = q

-- What `close` changes are its own two fields.
pub close-same :
    {A : Type 0} (f : RoutingSshExecutor → A) (executor : RoutingSshExecutor)
    → f (record executor { closed = true }) ≡ f executor
    → f (record executor { closed = true; close_operation = true }) ≡ f executor
    → f (close executor).1 ≡ f executor
unfolding close
close-same f executor p q = either_same f executor executor.close_operation _ _ p q
