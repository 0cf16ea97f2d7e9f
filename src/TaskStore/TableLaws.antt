-- ===== src/TaskStore/TableLaws.antt =====
-- Laws of the task table: what each change of the list does to lookup, to distinctness of the run
-- ids, to the count of running tasks and to a predicate on all tasks.
use enhanced_ssh.Prelude.{
  ℕ, suc, ◌≤◌, true, false, String, List, [], ◌∷◌, none, some, ◌≡◌, ◌≢◌, refl, subst, inl, inr,
  arith, if◌then◌else◌, length, str_eq, eq_iff, Bool-cases, Option-cases,
}
use enhanced_ssh.TaskStore.Types.{InternalTask, is_running}
use enhanced_ssh.TaskStore.Table.{
  find, remove, active_count, is_expired, cleanup, finished_key, earliest_finished,
}

module _ {R : Type 0} where
  abbrev pub All : (InternalTask R → Type 0) → List (InternalTask R) → Type 0
  All P [] = Unit
  All P (t ∷ ts) = P t × All P ts

  -- No two tasks have one run id.
  abbrev pub Distinct : List (InternalTask R) → Type 0
  Distinct [] = Unit
  Distinct (t ∷ ts) = (find t.run_id ts ≡ none) × Distinct ts

  pub find-run_id :
      (id : String) (ts : List (InternalTask R)) (t : InternalTask R)
      → find id ts ≡ some t
      → t.run_id ≡ id
  unfolding find
  find-run_id id [] t e = cc
  find-run_id id (x ∷ ts) t e = ground (arith, eq_iff x.run_id id, find-run_id id ts t)

  pub All-find :
      (P : InternalTask R → Type 0) (id : String) (ts : List (InternalTask R)) {t : InternalTask R}
      → All P ts
      → find id ts ≡ some t
      → P t
  unfolding find
  All-find P id [] h e = cc
  All-find P id (x ∷ ts) {t} h e = elim (Bool-cases (str_eq x.run_id id)) [
    | inl hit ↦ let same : x ≡ t = ground arith in subst P same h.0
    | inr miss ↦ All-find P id ts h.1 (ground arith)
  ]

  -- cleanup
  pub cleanup-find-none :
      (now : ℕ) (id : String) (ts : List (InternalTask R))
      → find id ts ≡ none
      → find id (cleanup now ts) ≡ none
  unfolding find cleanup
  cleanup-find-none now id [] e = refl
  cleanup-find-none now id (t ∷ ts) e = ground (arith, cleanup-find-none now id ts)

  pub cleanup-Distinct :
      (now : ℕ) (ts : List (InternalTask R)) → Distinct ts → Distinct (cleanup now ts)
  unfolding cleanup
  cleanup-Distinct now [] d = tt
  cleanup-Distinct now (t ∷ ts) d =
      ground (arith, cleanup-Distinct now ts d.1, cleanup-find-none now t.run_id ts d.0)

  pub cleanup-All :
      (P : InternalTask R → Type 0) (now : ℕ) (ts : List (InternalTask R))
      → All P ts
      → All P (cleanup now ts)
  unfolding cleanup
  cleanup-All P now [] h = tt
  cleanup-All P now (t ∷ ts) h = ground (arith, cleanup-All P now ts h.1)

  pub cleanup-length : (now : ℕ) (ts : List (InternalTask R)) → length (cleanup now ts) ≤ length ts
  unfolding cleanup
  cleanup-length now [] = omega arith
  cleanup-length now (t ∷ ts) = ground (arith, cleanup-length now ts)

  pub cleanup-active :
      (now : ℕ) (ts : List (InternalTask R)) → active_count (cleanup now ts) ≤ active_count ts
  unfolding cleanup active_count
  cleanup-active now [] = omega arith
  cleanup-active now (t ∷ ts) = ground (arith, cleanup-active now ts)

  -- A task that is not expired stays; and nothing but the tasks of before is found.
  pub cleanup-find :
      (now : ℕ) (id : String) (ts : List (InternalTask R)) (t : InternalTask R)
      → Distinct ts
      → find id ts ≡ some t
      → find id (cleanup now ts) ≡ (if is_expired now t then none else some t)
  unfolding find cleanup
  cleanup-find now id [] t d e = cc
  cleanup-find now id (x ∷ ts) t d e = elim (Bool-cases (str_eq x.run_id id)) [
    | inl hit ↦
        let same_id : x.run_id ≡ id = (eq_iff x.run_id id).0 hit in
        let gone : find id ts ≡ none = subst (λ i. find i ts ≡ none) same_id d.0 in
        let same : x ≡ t = ground arith in ground (arith, cleanup-find-none now id ts gone)
    | inr miss ↦ ground (arith, cleanup-find now id ts t d.1)
  ]

  -- remove
  pub remove-find-none :
      (id other : String) (ts : List (InternalTask R))
      → find id ts ≡ none
      → find id (remove other ts) ≡ none
  unfolding find remove
  remove-find-none id other [] e = refl
  remove-find-none id other (t ∷ ts) e = ground (arith, remove-find-none id other ts)

  pub remove-Distinct :
      (id : String) (ts : List (InternalTask R)) → Distinct ts → Distinct (remove id ts)
  unfolding remove
  remove-Distinct id [] d = tt
  remove-Distinct id (t ∷ ts) d =
      ground (arith, remove-Distinct id ts d.1, remove-find-none t.run_id id ts d.0)

  pub remove-find_self :
      (id : String) (ts : List (InternalTask R)) → Distinct ts → find id (remove id ts) ≡ none
  unfolding find remove
  remove-find_self id [] d = refl
  remove-find_self id (t ∷ ts) d = elim (Bool-cases (str_eq t.run_id id)) [
    | inl hit ↦ rw hit (subst (λ i. find i ts ≡ none) ((eq_iff t.run_id id).0 hit) d.0)
    | inr miss ↦ ground (arith, remove-find_self id ts d.1)
  ]

  pub remove-find_ne :
      (id other : String) (ts : List (InternalTask R))
      → id ≢ other
      → find id (remove other ts) ≡ find id ts
  unfolding find remove
  remove-find_ne id other [] ne = refl
  remove-find_ne id other (t ∷ ts) ne =
      ground (arith, eq_iff t.run_id id, eq_iff t.run_id other, remove-find_ne id other ts)

  pub remove-All :
      (P : InternalTask R → Type 0) (id : String) (ts : List (InternalTask R))
      → All P ts
      → All P (remove id ts)
  unfolding remove
  remove-All P id [] h = tt
  remove-All P id (t ∷ ts) h = ground (arith, remove-All P id ts h.1)

  pub remove-length :
      (id : String) (ts : List (InternalTask R)) (t : InternalTask R)
      → find id ts ≡ some t
      → suc (length (remove id ts)) ≡ length ts
  unfolding find remove
  remove-length id [] t e = cc
  remove-length id (x ∷ ts) t e = ground (arith, remove-length id ts t)

  pub remove-active :
      (id : String) (ts : List (InternalTask R)) → active_count (remove id ts) ≤ active_count ts
  unfolding remove active_count
  remove-active id [] = omega arith
  remove-active id (t ∷ ts) = ground (arith, remove-active id ts)

  -- earliest_finished
  pub earliest-finished :
      (ts : List (InternalTask R)) (t : InternalTask R)
      → Distinct ts
      → earliest_finished ts ≡ some t
      → (find t.run_id ts ≡ some t) × (is_running t.state ≡ false)
  unfolding find earliest_finished
  earliest-finished [] t d e = cc
  earliest-finished (x ∷ ts) t d e =
      ground (arith, earliest-finished ts t d.1, eq_iff x.run_id t.run_id, eq_iff x.run_id x.run_id)

  -- Without a finished task all are running.
  pub earliest-none :
      (ts : List (InternalTask R))
      → earliest_finished ts ≡ none
      → All (λ t. is_running t.state ≡ true) ts
  unfolding earliest_finished
  earliest-none [] e = tt
  earliest-none (x ∷ ts) e = elim (Option-cases (earliest_finished ts)) [
    | inl nothing ↦ (ground arith, earliest-none ts nothing)
    | inr (u, some_u) ↦ absurd (ground arith)
  ]

  none-running :
      (ts : List (InternalTask R)) (id : String) (u : InternalTask R)
      → earliest_finished ts ≡ none
      → find id ts ≡ some u
      → is_running u.state ≡ true
  none-running ts id u nothing e =
      All-find (λ t. is_running t.state ≡ true) id ts (earliest-none ts nothing) e

  -- No finished task was finished before it.
  pub earliest-le :
      (ts : List (InternalTask R)) (t u : InternalTask R) (id : String)
      → earliest_finished ts ≡ some t
      → find id ts ≡ some u
      → is_running u.state ≡ false
      → finished_key t ≤ finished_key u
  unfolding find earliest_finished
  earliest-le [] t u id e f r = cc
  earliest-le (x ∷ ts) t u id e f r = elim (Option-cases (earliest_finished ts)) [
    | inl nothing ↦ ground (arith, none-running ts id u nothing)
    | inr (v, some_v) ↦ ground (arith, earliest-le ts v u id some_v)
  ]
