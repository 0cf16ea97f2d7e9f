-- ===== src/TaskStore/ChangeLaws.antt =====
-- Laws of the changes that keep every task in the table: `modify`, `stop_all`, and a new task at the
-- end.
use enhanced_ssh.Prelude.{
  suc, ◌≤◌, true, false, String, List, [], ◌∷◌, ◌++◌, none, some, ◌≡◌, ◌≢◌, refl, sym, ap, subst,
  inl, inr, arith, if◌then◌else◌, length, str_eq, eq_iff, Bool-cases,
}
use mathlib.Core.Option
use enhanced_ssh.TaskStore.Types.{InternalTask, is_running}
use enhanced_ssh.TaskStore.Table.{find, modify, active_count, stop_for_shutdown}
use enhanced_ssh.TaskStore.Store.{stop_all}
use enhanced_ssh.TaskStore.TableLaws.{All, Distinct}

module _ {R : Type 0} where
  -- `f` keeps the run id, and starts no task again.
  pub record Keeps (f : InternalTask R → InternalTask R) : Type 0 where
    pub id : (t : InternalTask R) → (f t).run_id ≡ t.run_id
    pub calm : (t : InternalTask R) → is_running (f t).state ≡ true → is_running t.state ≡ true

  module _ (f : InternalTask R → InternalTask R) (k : Keeps f) (id : String) where
    pub modify-find_self :
        (ts : List (InternalTask R)) (t : InternalTask R)
        → find id ts ≡ some t
        → find id (modify id f ts) ≡ some (f t)
    unfolding find modify
    modify-find_self [] t e = cc
    modify-find_self (x ∷ ts) t e =
        ground (arith, eq_iff x.run_id id, eq_iff (f x).run_id id, k.id x, modify-find_self ts t)

    pub modify-find_ne :
        (other : String) (ts : List (InternalTask R))
        → id ≢ other
        → find other (modify id f ts) ≡ find other ts
    unfolding find modify
    modify-find_ne other [] ne = refl
    modify-find_ne other (x ∷ ts) ne = ground (
      arith,
      eq_iff x.run_id id,
      eq_iff (f x).run_id other,
      eq_iff x.run_id other,
      k.id x,
      modify-find_ne other ts,
    )

    pub modify-find-none :
        (other : String) (ts : List (InternalTask R))
        → find other ts ≡ none
        → find other (modify id f ts) ≡ none
    unfolding find modify
    modify-find-none other [] e = refl
    modify-find-none other (x ∷ ts) e = ground (
      arith,
      eq_iff x.run_id id,
      eq_iff (f x).run_id other,
      eq_iff x.run_id other,
      k.id x,
      modify-find-none other ts,
    )

    pub modify-Distinct : (ts : List (InternalTask R)) → Distinct ts → Distinct (modify id f ts)
    unfolding modify
    modify-Distinct [] d = tt
    modify-Distinct (x ∷ ts) d = elim (Bool-cases (str_eq x.run_id id)) [
      | inl hit ↦ rw hit (subst (λ i. find i ts ≡ none) (sym (k.id x)) d.0, d.1)
      | inr miss ↦ rw miss (modify-find-none x.run_id ts d.0, modify-Distinct ts d.1)
    ]

    pub modify-length : (ts : List (InternalTask R)) → length (modify id f ts) ≡ length ts
    unfolding modify
    modify-length [] = refl
    modify-length (x ∷ ts) = ground (arith, modify-length ts)

    pub modify-active :
        (ts : List (InternalTask R)) → active_count (modify id f ts) ≤ active_count ts
    unfolding modify active_count
    modify-active [] = omega arith
    modify-active (x ∷ ts) = ground (arith, k.calm x, modify-active ts)

  pub modify-All :
      (P : InternalTask R → Type 0) (f : InternalTask R → InternalTask R) (id : String)
      (ts : List (InternalTask R))
      → ((t : InternalTask R) → find id ts ≡ some t → P t → P (f t))
      → All P ts
      → All P (modify id f ts)
  unfolding modify find
  modify-All P f id [] keep h = tt
  modify-All P f id (x ∷ ts) keep h = elim (Bool-cases (str_eq x.run_id id)) [
    | inl hit ↦ rw hit (keep x (rw hit refl) h.0, h.1)
    | inr miss ↦ rw miss (h.0, modify-All P f id ts (λ t e. keep t (rw miss e)) h.1)
  ]

  -- A new task at the end.
  pub snoc-find :
      (id : String) (ts : List (InternalTask R)) (t : InternalTask R)
      → find id (ts ++ t ∷ [])
        ≡ elim (find id ts) [ none ↦ if str_eq t.run_id id then some t else none | some u ↦ some u ]
  unfolding find
  snoc-find id [] t = refl
  snoc-find id (x ∷ ts) t = ground (arith, snoc-find id ts t)

  pub snoc-Distinct :
      (ts : List (InternalTask R)) (t : InternalTask R)
      → Distinct ts
      → find t.run_id ts ≡ none
      → Distinct (ts ++ t ∷ [])
  unfolding find
  snoc-Distinct [] t d new = (refl, tt)
  snoc-Distinct (x ∷ ts) t d new =
      let apart : str_eq t.run_id x.run_id ≡ false =
        ground (arith, eq_iff t.run_id x.run_id, eq_iff x.run_id t.run_id) in
      (rw (snoc-find x.run_id ts t, d.0, apart) refl, snoc-Distinct ts t d.1 (ground arith))

  pub snoc-All :
      (P : InternalTask R → Type 0) (ts : List (InternalTask R)) (t : InternalTask R)
      → All P ts
      → P t
      → All P (ts ++ t ∷ [])
  snoc-All P [] t h p = (p, tt)
  snoc-All P (x ∷ ts) t h p = (h.0, snoc-All P ts t h.1 p)

  pub snoc-active :
      (ts : List (InternalTask R)) (t : InternalTask R)
      → active_count (ts ++ t ∷ []) ≤ suc (active_count ts)
  unfolding active_count
  snoc-active [] t = ground arith
  snoc-active (x ∷ ts) t = ground (arith, snoc-active ts t)

  -- `stop_all` changes each task by `stop_for_shutdown`.
  pub stop_for_shutdown-Keeps : Keeps stop_for_shutdown
  unfolding stop_for_shutdown
  stop_for_shutdown-Keeps = record { id = λ t. ground arith; calm = λ t. ground arith }

  pub stop_all-find :
      (id : String) (ts : List (InternalTask R))
      → find id (stop_all ts) ≡ Option.map stop_for_shutdown (find id ts)
  unfolding find stop_all
  stop_all-find id [] = refl
  stop_all-find id (x ∷ ts) =
      let same : str_eq (stop_for_shutdown x).run_id id ≡ str_eq x.run_id id =
        ap (λ i. str_eq i id) (stop_for_shutdown-Keeps.id x) in
      rw (same, stop_all-find id ts) (ground arith)

  pub stop_all-Distinct : (ts : List (InternalTask R)) → Distinct ts → Distinct (stop_all ts)
  unfolding stop_all
  stop_all-Distinct [] d = tt
  stop_all-Distinct (x ∷ ts) d = (
    rw (stop_for_shutdown-Keeps.id x, stop_all-find x.run_id ts, d.0) refl,
    stop_all-Distinct ts d.1,
  )

  pub stop_all-length : (ts : List (InternalTask R)) → length (stop_all ts) ≡ length ts
  unfolding stop_all
  stop_all-length [] = refl
  stop_all-length (x ∷ ts) = ap suc (stop_all-length ts)

  pub stop_all-active : (ts : List (InternalTask R)) → active_count (stop_all ts) ≤ active_count ts
  unfolding stop_all active_count
  stop_all-active [] = omega arith
  stop_all-active (x ∷ ts) = ground (arith, stop_for_shutdown-Keeps.calm x, stop_all-active ts)

  pub stop_all-All :
      (P : InternalTask R → Type 0) (ts : List (InternalTask R))
      → ((t : InternalTask R) → P t → P (stop_for_shutdown t))
      → All P ts
      → All P (stop_all ts)
  unfolding stop_all
  stop_all-All P [] keep h = tt
  stop_all-All P (x ∷ ts) keep h = (keep x h.0, stop_all-All P ts keep h.1)
