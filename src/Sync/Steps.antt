-- ===== src/Sync/Steps.antt =====
-- The steps inside lock_acquire and lock_release: each keeps the invariant and fails no ASSERT.
use mathlib.Core.Path.{fun_ext}
use ukernel.Prelude.{
  ℕ, ◌≡◌, ◌≢◌, refl, ap, ◌∙◌, inl, inr, true, false, List, [], ◌∷◌, ◌++◌, arith, ◌==◌, ==_refl,
  ne→==, update, has, Distinct, has-append, Distinct-append_one, Bool-cases, ret,
}
use ukernel.Sync.{
  Phase, idle, testing, asleep, taken, named, dropping, raising, Call, sema_down, sema_up, advance,
  System, step, is_asleep,
}
use ukernel.Sync.Owner.{Holds, IsValid, Steps, owner_of_acting}

update_same : (f : ℕ → Phase) (i : ℕ) {p : Phase} → f i ≡ p → update f i p ≡ f
update_same f i e = fun_ext λ j. ground arith

module _ (o me : ℕ) (s : System) (v : IsValid o s) (ne : me ≢ 0) (call : Call) where
  -- `holder = running_thread()`
  pub step_taken : s.phase me ≡ taken → Steps call me s
  unfolding step advance
  step_taken e =
      let (eo, h) = owner_of_acting o me s v ne (rw e refl) in
      let held : (s.lock.holder ≡ 0) × (s.lock.holder_repeat_nr ≡ 0) = rw e at h in
      (
        record { lock = record s.lock { holder = me }; phase = update s.phase me named },
        rw e refl,
        me,
        record {
          value = ground (arith, v.value);
          owner = λ nz. rw (==_refl me) (refl, held.1);
          free = λ z. absurd (ne z);
          acting = λ t h. ground (arith, v.acting t);
          listed = λ t. ground (arith, v.listed t);
          distinct = v.distinct;
          no_null = v.no_null;
          small = v.small;
          alert = inr (inl ne);
        },
      )

  -- `holder_repeat_nr = 1`, after its ASSERT
  pub step_named : s.phase me ≡ named → Steps call me s
  unfolding step advance
  step_named e =
      let (eo, h) = owner_of_acting o me s v ne (rw e refl) in
      let held : (s.lock.holder ≡ me) × (s.lock.holder_repeat_nr ≡ 0) = rw e at h in
      (
        record { lock = record s.lock { holder_repeat_nr = 1 }; phase = update s.phase me idle },
        rw e (ground arith),
        me,
        record {
          value = ground (arith, v.value);
          owner = λ nz. rw (==_refl me) (held.0, omega arith);
          free = λ z. absurd (ne z);
          acting = λ t h. ground (arith, v.acting t);
          listed = λ t. ground (arith, v.listed t);
          distinct = v.distinct;
          no_null = v.no_null;
          small = omega arith;
          alert = inr (inl ne);
        },
      )

  -- `holder_repeat_nr = 0`
  pub step_dropping : s.phase me ≡ dropping → Steps call me s
  unfolding step advance
  step_dropping e =
      let (eo, h) = owner_of_acting o me s v ne (rw e refl) in
      let held : (s.lock.holder ≡ 0) × (s.lock.holder_repeat_nr ≡ 1) = rw e at h in
      (
        record { lock = record s.lock { holder_repeat_nr = 0 }; phase = update s.phase me raising },
        rw e refl,
        me,
        record {
          value = ground (arith, v.value);
          owner = λ nz. rw (==_refl me) (held.0, refl);
          free = λ z. absurd (ne z);
          acting = λ t h. ground (arith, v.acting t);
          listed = λ t. ground (arith, v.listed t);
          distinct = v.distinct;
          no_null = v.no_null;
          small = omega arith;
          alert = inr (inl ne);
        },
      )

  -- a sleeping thread makes no step
  pub step_asleep : s.phase me ≡ asleep → Steps call me s
  unfolding step advance
  step_asleep e = (
    s,
    rw e (ap (λ f. ret (record { lock = s.lock; phase = f })) (update_same s.phase me e)),
    o,
    v,
  )

  not_owner : s.phase me ≡ testing → o ≢ me
  not_owner e eo =
      let nz : o ≢ 0 = ground arith in
      let at : s.phase o ≡ testing = ap s.phase eo ∙ e in
      let h : Holds o testing s.lock.holder s.lock.holder_repeat_nr = rw at at (v.owner nz) in h

  -- sema_down with the value gone: to sleep, at the end of the waiters
  step_testing_sleep : s.phase me ≡ testing → o ≢ 0 → Steps call me s
  unfolding step advance sema_down
  step_testing_sleep e nz =
      let out : has me s.lock.semaphore.waiters ≡ false = v.listed me ∙ ap is_asleep e in
      let other = not_owner e in
      (
        record {
          lock = record s.lock {
            semaphore = record s.lock.semaphore { waiters = s.lock.semaphore.waiters ++ me ∷ [] };
          };
          phase = update s.phase me asleep;
        },
        rw e (ground (arith, v.value)),
        o,
        record {
          value = v.value;
          owner = λ _. rw (ne→== o me other) (v.owner nz);
          free = v.free;
          acting = λ t h. ground (arith, v.acting t);
          listed = λ t. ground (arith, v.listed t, has-append t s.lock.semaphore.waiters (me ∷ []));
          distinct = Distinct-append_one s.lock.semaphore.waiters me v.distinct out;
          no_null = ground (arith, v.no_null, has-append 0 s.lock.semaphore.waiters (me ∷ []));
          small = v.small;
          alert = inr (inl nz);
        },
      )

  -- sema_down with the value there: the thread takes it
  step_testing_take : s.phase me ≡ testing → o ≡ 0 → Steps call me s
  unfolding step advance sema_down
  step_testing_take e z = (
    record {
      lock = record s.lock { semaphore = record s.lock.semaphore { value = 0 } };
      phase = update s.phase me taken;
    },
    rw e (ground (arith, v.value)),
    me,
    record {
      value = ground arith;
      owner = λ _. rw (==_refl me) (v.free z);
      free = λ y. absurd (ne y);
      acting = λ t h. ground (arith, v.acting t);
      listed = λ t. ground (arith, v.listed t);
      distinct = v.distinct;
      no_null = v.no_null;
      small = v.small;
      alert = inr (inl ne);
    },
  )

  pub step_testing : s.phase me ≡ testing → Steps call me s
  step_testing e = elim (Bool-cases (o == 0)) [
    | inl z ↦ step_testing_take e (ground arith)
    | inr nz ↦ step_testing_sleep e (ground arith)
  ]

  -- sema_up with no waiter
  step_raising_nil : s.phase me ≡ raising → s.lock.semaphore.waiters ≡ [] → Steps call me s
  unfolding step advance sema_up
  step_raising_nil e w =
      let (eo, h) = owner_of_acting o me s v ne (rw e refl) in
      let held : (s.lock.holder ≡ 0) × (s.lock.holder_repeat_nr ≡ 0) = rw e at h in
      (
        record {
          lock = record s.lock { semaphore = record { value = 1; waiters = [] } };
          phase = update s.phase me idle;
        },
        rw e (ground (arith, v.value)),
        0,
        record {
          value = refl;
          owner = λ nz. absurd (nz refl);
          free = λ _. held;
          acting = λ t h. ground (arith, v.acting t);
          listed = λ t. ground (arith, v.listed t);
          distinct = tt;
          no_null = refl;
          small = v.small;
          alert = inl refl;
        },
      )

  -- sema_up with waiters: the first of them is woken
  step_raising_cons :
      (x : ℕ) (xs : List ℕ)
      → s.phase me ≡ raising
      → s.lock.semaphore.waiters ≡ x ∷ xs
      → Steps call me s
  unfolding step advance sema_up
  step_raising_cons x xs e w =
      let (eo, h) = owner_of_acting o me s v ne (rw e refl) in
      let held : (s.lock.holder ≡ 0) × (s.lock.holder_repeat_nr ≡ 0) = rw e at h in
      let d : Distinct (x ∷ xs) = rw w at v.distinct in
      let first : has x (x ∷ xs) ≡ is_asleep (s.phase x) = rw w at (v.listed x) in
      let sleeps : is_asleep (s.phase x) ≡ true = ground arith in
      (
        record {
          lock = record s.lock { semaphore = record { value = 1; waiters = xs } };
          phase = update (update s.phase me idle) x testing;
        },
        rw e (ground (arith, v.value, sleeps)),
        0,
        record {
          value = refl;
          owner = λ nz. absurd (nz refl);
          free = λ _. held;
          acting = λ t h. ground (arith, v.acting t);
          listed = λ t. ground (arith, v.listed t, d.0);
          distinct = d.1;
          no_null = ground (arith, v.no_null);
          small = v.small;
          alert = inr (inr (x, rw (==_refl x) refl));
        },
      )

  pub step_raising : s.phase me ≡ raising → Steps call me s
  step_raising e = split s.lock.semaphore.waiters refl
    where
      split : (ws : List ℕ) → s.lock.semaphore.waiters ≡ ws → Steps call me s
      split [] w = step_raising_nil e w
      split (x ∷ xs) w = step_raising_cons x xs e w
