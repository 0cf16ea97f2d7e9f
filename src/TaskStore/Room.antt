-- ===== src/TaskStore/Room.antt =====
-- `#cleanup` and `#makeRetentionRoom`: what they drop, and that the loop ends with room or with
-- running tasks only.
use enhanced_ssh.Prelude.{
  ℕ, zero, suc, ◌≤◌, ◌<◌, true, false, String, List, none, some, ◌≡◌, ◌≢◌, refl, sym, ◌∙◌, ◌⊎◌, inl,
  inr, arith, tests, leb, length, str_eq, eq_iff, Bool-cases, Option-cases, subst,
}
use enhanced_ssh.Result.{Result, ok, err}
use enhanced_ssh.TaskStore.Types.{InternalTask, is_running}
use enhanced_ssh.TaskStore.Table.{
  find, remove, active_count, is_expired, cleanup, earliest_finished,
}
use enhanced_ssh.TaskStore.Store.{make_room, make_retention_room, retention_reached}
use enhanced_ssh.TaskStore.TableLaws.{
  All, Distinct, All-find, cleanup-find-none, cleanup-Distinct, cleanup-length, cleanup-active,
  cleanup-find, remove-Distinct, remove-find_ne, remove-find_self, remove-All, remove-length,
  remove-active, earliest-finished, earliest-none,
}
use enhanced_ssh.TaskStore.Shape.{IsShaped}

module _ {R : Type 0} where
  -- `us` is `ts` with some finished tasks dropped.
  pub record Shrinks (ts us : List (InternalTask R)) : Type 0 where
    pub distinct : Distinct us
    pub shorter : length us ≤ length ts
    pub calmer : active_count us ≤ active_count ts
    pub same : (id : String) → (find id us ≡ find id ts) ⊎ (find id us ≡ none)
    pub keeps_running :
        (id : String) (t : InternalTask R)
        → find id ts ≡ some t
        → is_running t.state ≡ true
        → find id us ≡ some t

  pub Shrinks-refl : (ts : List (InternalTask R)) → Distinct ts → Shrinks ts ts
  Shrinks-refl ts d = record {
    distinct = d;
    shorter = omega arith;
    calmer = omega arith;
    same = λ id. inl refl;
    keeps_running = λ id t e r. e;
  }

  pub Shrinks-trans :
      {ts us vs : List (InternalTask R)} → Shrinks ts us → Shrinks us vs → Shrinks ts vs
  Shrinks-trans p q = record {
    distinct = q.distinct;
    shorter = omega (arith, p.shorter, q.shorter);
    calmer = omega (arith, p.calmer, q.calmer);
    same = λ id. elim (q.same id) [
      | inl e ↦ elim (p.same id) [ inl f ↦ inl (e ∙ f) | inr f ↦ inr (e ∙ f) ]
      | inr e ↦ inr e
    ];
    keeps_running = λ id t e r. q.keeps_running id t (p.keeps_running id t e r) r;
  }

  running-not_expired :
      (ttl_ms now : ℕ) (t : InternalTask R)
      → IsShaped ttl_ms t
      → is_running t.state ≡ true
      → is_expired now t ≡ false
  running-not_expired ttl_ms now t h r = ground (arith, h.times)

  pub cleanup-Shrinks :
      (ttl_ms now : ℕ) (ts : List (InternalTask R))
      → Distinct ts
      → All (IsShaped ttl_ms) ts
      → Shrinks ts (cleanup now ts)
  cleanup-Shrinks ttl_ms now ts d shaped = record {
    distinct = cleanup-Distinct now ts d;
    shorter = cleanup-length now ts;
    calmer = cleanup-active now ts;
    same = λ id. elim (Option-cases (find id ts)) [
      | inl nothing ↦ inr (cleanup-find-none now id ts nothing)
      | inr (t, e) ↦ elim (Bool-cases (is_expired now t)) [
        | inl old ↦ inr (rw (cleanup-find now id ts t d e, old) refl)
        | inr young ↦ inl (rw (cleanup-find now id ts t d e, young) (sym e))
      ]
    ];
    keeps_running = λ id t e r.
        let young =
          running-not_expired ttl_ms now t (All-find (IsShaped ttl_ms) id ts shaped e) r in
        rw (cleanup-find now id ts t d e, young) refl;
  }

  remove-Shrinks :
      (ts : List (InternalTask R)) (t : InternalTask R)
      → Distinct ts
      → earliest_finished ts ≡ some t
      → Shrinks ts (remove t.run_id ts)
  remove-Shrinks ts t d e =
      let (found, final) = earliest-finished ts t d e in
      record {
        distinct = remove-Distinct t.run_id ts d;
        shorter = omega (arith, remove-length t.run_id ts t found);
        calmer = remove-active t.run_id ts;
        same = λ id. elim (Bool-cases (str_eq id t.run_id)) [
          | inl hit ↦
              let same_id : id ≡ t.run_id = (eq_iff id t.run_id).0 hit in
              inr (rw same_id (remove-find_self t.run_id ts d))
          | inr miss ↦ inl (remove-find_ne id t.run_id ts (apart id t.run_id miss))
        ];
        keeps_running = λ id u f r. elim (Bool-cases (str_eq id t.run_id)) [
          | inl hit ↦
              let same_id : id ≡ t.run_id = (eq_iff id t.run_id).0 hit in
              let same : some u ≡ some t = sym f ∙ rw same_id found in
              absurd (clash u t same r final)
          | inr miss ↦ remove-find_ne id t.run_id ts (apart id t.run_id miss) ∙ f
        ];
      }
    where
      apart : (a b : String) → str_eq a b ≡ false → a ≢ b
      apart a b miss same = ground (arith, eq_iff a b)

      clash :
          (u t : InternalTask R)
          → some u ≡ some t
          → is_running u.state ≡ true
          → is_running t.state ≡ false
          → ⊥
      clash u t same r f =
          let same' : u ≡ t = ground arith in
          let both : is_running t.state ≡ true = subst (λ v. is_running v.state ≡ true) same' r in
          ground arith

  -- The loop of `make_retention_room` only drops finished tasks.
  make_room-Shrinks :
      (maximum fuel : ℕ) (ts : List (InternalTask R))
      → Distinct ts
      → Shrinks ts (make_room maximum fuel ts).1
  unfolding make_room
  make_room-Shrinks maximum zero ts d = Shrinks-refl ts d
  make_room-Shrinks maximum (suc fuel) ts d = elim (Bool-cases (leb maximum (length ts))) [
    | inr room ↦ rw room (Shrinks-refl ts d)
    | inl full ↦ elim (Option-cases (earliest_finished ts)) [
      | inl nothing ↦ rw (full, nothing) (Shrinks-refl ts d)
      | inr (t, e) ↦
          let dropped = remove-Shrinks ts t d e in
          rw (full, e)
            (Shrinks-trans dropped
              (make_room-Shrinks maximum fuel (remove t.run_id ts) dropped.distinct))
    ]
  ]

  make_room-All :
      (P : InternalTask R → Type 0) (maximum fuel : ℕ) (ts : List (InternalTask R))
      → All P ts
      → All P (make_room maximum fuel ts).1
  unfolding make_room
  make_room-All P maximum zero ts h = h
  make_room-All P maximum (suc fuel) ts h = elim (Bool-cases (leb maximum (length ts))) [
    | inr room ↦ rw room h
    | inl full ↦ elim (Option-cases (earliest_finished ts)) [
      | inl nothing ↦ rw (full, nothing) h
      | inr (t, e) ↦
          rw (full, e)
            (make_room-All P maximum fuel (remove t.run_id ts) (remove-All P t.run_id ts h))
    ]
  ]

  -- How the loop may end.
  abbrev pub RoomOutcome : ℕ → Result (Unit {0}) × List (InternalTask R) → Type 0
  RoomOutcome maximum (ok _, us) = length us < maximum
  RoomOutcome maximum (err e, us) =
      (e ≡ retention_reached maximum)
      × (maximum ≤ length us)
      × All (λ t. is_running t.state ≡ true) us

  make_room-outcome :
      (maximum fuel : ℕ) (ts : List (InternalTask R))
      → Distinct ts
      → length ts < fuel
      → RoomOutcome maximum (make_room maximum fuel ts)
  unfolding make_room
  make_room-outcome maximum zero ts d h = absurd (omega arith)
  make_room-outcome maximum (suc fuel) ts d h = elim (Bool-cases (leb maximum (length ts))) [
    | inr room ↦ rw room (omega (tests, room))
    | inl full ↦ elim (Option-cases (earliest_finished ts)) [
      | inl nothing ↦ rw (full, nothing) (refl, omega (tests, full), earliest-none ts nothing)
      | inr (t, e) ↦
          let found = (earliest-finished ts t d e).0 in
          rw (full, e)
            (make_room-outcome maximum fuel (remove t.run_id ts) (remove-Distinct t.run_id ts d)
              (omega (arith, remove-length t.run_id ts t found)))
    ]
  ]

  pub room-Shrinks :
      (maximum : ℕ) (ts : List (InternalTask R))
      → Distinct ts
      → Shrinks ts (make_retention_room maximum ts).1
  unfolding make_retention_room
  room-Shrinks maximum ts d = make_room-Shrinks maximum (suc (length ts)) ts d

  pub room-All :
      (P : InternalTask R → Type 0) (maximum : ℕ) (ts : List (InternalTask R))
      → All P ts
      → All P (make_retention_room maximum ts).1
  unfolding make_retention_room
  room-All P maximum ts h = make_room-All P maximum (suc (length ts)) ts h

  -- With distinct run ids the loop ends within its fuel: with room for one task more, or with an
  -- error where all the tasks that fill the store are running.
  pub room-outcome :
      (maximum : ℕ) (ts : List (InternalTask R))
      → Distinct ts
      → RoomOutcome maximum (make_retention_room maximum ts)
  unfolding make_retention_room
  room-outcome maximum ts d = make_room-outcome maximum (suc (length ts)) ts d (omega arith)

  outcome-ok :
      (maximum : ℕ) (m : Result (Unit {0}) × List (InternalTask R)) (a : Unit {0})
      → RoomOutcome maximum m
      → m.0 ≡ ok a
      → length m.1 < maximum
  outcome-ok maximum (ok b, us) a h e = h
  outcome-ok maximum (err f, us) a h e = cc

  pub room-ok :
      (maximum : ℕ) (ts : List (InternalTask R)) (a : Unit {0})
      → Distinct ts
      → (make_retention_room maximum ts).0 ≡ ok a
      → length (make_retention_room maximum ts).1 < maximum
  room-ok maximum ts a d e =
      outcome-ok maximum (make_retention_room maximum ts) a (room-outcome maximum ts d) e
