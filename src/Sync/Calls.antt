-- ===== src/Sync/Calls.antt =====
-- The entries of lock_acquire and lock_release, and all steps together.

use ukernel.Prelude.{
  ℕ, ◌+◌, ◌-◌, ◌%◌, ◌^◌, ◌≤◌, ◌<◌, ◌≡◌, ◌≢◌, refl, ap, ◌∙◌, inl, inr, arith, ltb, ◌==◌, ==_refl,
  ne→==, update, Bool-cases, ret,
}
use ukernel.Sync.{
  Phase, idle, testing, asleep, taken, named, dropping, raising, Call, acquire, release,
  lock_acquire, lock_release, advance, System, step,
}
use ukernel.Sync.Owner.{IsValid, Permitted, Steps, holder_owner}
use ukernel.Sync.Steps.{
  step_taken, step_named, step_dropping, step_asleep, step_testing, step_raising,
}

module _ (o me : ℕ) (s : System) (v : IsValid o s) (ne : me ≢ 0) (call : Call) where
  -- lock_acquire by the holder: one more acquisition
  step_again :
      s.phase me ≡ idle
      → s.lock.holder ≡ me
      → s.lock.holder_repeat_nr + 1 < 2 ^ 32
      → Steps acquire me s
  unfolding step advance lock_acquire
  step_again e hold fits =
      let eo = holder_owner o me s v ne hold in
      let nz : o ≢ 0 = ground arith in
      let at : s.phase o ≡ idle = ap s.phase eo ∙ e in
      let held : (s.lock.holder ≡ o) × (1 ≤ s.lock.holder_repeat_nr) = rw at at (v.owner nz) in
      let sum : (s.lock.holder_repeat_nr + 1) % 2 ^ 32 ≡ s.lock.holder_repeat_nr + 1 =
        omega arith in
      (
        record {
          lock = record s.lock { holder_repeat_nr = s.lock.holder_repeat_nr + 1 };
          phase = update s.phase me idle;
        },
        rw e (ground arith),
        me,
        record {
          value = ground (arith, v.value);
          owner = λ _. rw (==_refl me) (hold, omega arith);
          free = λ z. absurd (ne z);
          acting = λ t h. ground (arith, v.acting t);
          listed = λ t. ground (arith, v.listed t);
          distinct = v.distinct;
          no_null = v.no_null;
          small = fits;
          alert = inr (inl ne);
        },
      )

  -- lock_acquire by another thread: on to sema_down
  step_want : s.phase me ≡ idle → s.lock.holder ≢ me → Steps acquire me s
  unfolding step advance lock_acquire
  step_want e other =
      let apart : o ≢ me = λ eo.
        let nz : o ≢ 0 = ground arith in
        let at : s.phase o ≡ idle = ap s.phase eo ∙ e in
        let held : (s.lock.holder ≡ o) × (1 ≤ s.lock.holder_repeat_nr) = rw at at (v.owner nz) in
        other (held.0 ∙ eo) in
      (
        record { lock = s.lock; phase = update s.phase me testing },
        rw e (ground arith),
        o,
        record {
          value = v.value;
          owner = λ nz. rw (ne→== o me apart) (v.owner nz);
          free = v.free;
          acting = λ t h. ground (arith, v.acting t);
          listed = λ t. ground (arith, v.listed t);
          distinct = v.distinct;
          no_null = v.no_null;
          small = v.small;
          alert = inr (inr (me, rw (==_refl me) refl));
        },
      )

  -- lock_release of one acquisition of several
  step_less :
      s.phase me ≡ idle → s.lock.holder ≡ me → 1 < s.lock.holder_repeat_nr → Steps release me s
  unfolding step advance lock_release
  step_less e hold more =
      let eo = holder_owner o me s v ne hold in
      let diff : (s.lock.holder_repeat_nr + (2 ^ 32 - 1)) % 2 ^ 32 ≡ s.lock.holder_repeat_nr - 1 =
        omega (arith, v.small) in
      (
        record {
          lock = record s.lock { holder_repeat_nr = s.lock.holder_repeat_nr - 1 };
          phase = update s.phase me idle;
        },
        rw e (ground arith),
        me,
        record {
          value = ground (arith, v.value);
          owner = λ _. rw (==_refl me) (hold, omega arith);
          free = λ z. absurd (ne z);
          acting = λ t h. ground (arith, v.acting t);
          listed = λ t. ground (arith, v.listed t);
          distinct = v.distinct;
          no_null = v.no_null;
          small = omega (arith, v.small);
          alert = inr (inl ne);
        },
      )

  -- lock_release of the last acquisition, up to `holder = NULL`
  step_last :
      s.phase me ≡ idle → s.lock.holder ≡ me → ¬ (1 < s.lock.holder_repeat_nr) → Steps release me s
  unfolding step advance lock_release
  step_last e hold last =
      let eo = holder_owner o me s v ne hold in
      let nz : o ≢ 0 = ground arith in
      let at : s.phase o ≡ idle = ap s.phase eo ∙ e in
      let held : (s.lock.holder ≡ o) × (1 ≤ s.lock.holder_repeat_nr) = rw at at (v.owner nz) in
      let one : s.lock.holder_repeat_nr ≡ 1 = omega arith in
      (
        record { lock = record s.lock { holder = 0 }; phase = update s.phase me dropping },
        rw e (ground arith),
        me,
        record {
          value = ground (arith, v.value);
          owner = λ _. rw (==_refl me) (refl, one);
          free = λ z. absurd (ne z);
          acting = λ t h. ground (arith, v.acting t);
          listed = λ t. ground (arith, v.listed t);
          distinct = v.distinct;
          no_null = v.no_null;
          small = v.small;
          alert = inr (inl ne);
        },
      )

step_idle :
    (o me : ℕ) (s : System) (call : Call)
    → IsValid o s
    → Permitted call me s
    → s.phase me ≡ idle
    → Steps call me s
step_idle o me s acquire v p e = elim (Bool-cases (s.lock.holder == me)) [
  | inl h ↦ step_again o me s v (p.0) acquire e (ground arith) (p.1 e (ground arith))
  | inr n ↦ step_want o me s v (p.0) acquire e (ground arith)
]
step_idle o me s release v p e = elim (Bool-cases (ltb 1 s.lock.holder_repeat_nr)) [
  | inl h ↦ step_less o me s v (p.0) release e (p.1 e) (ground arith)
  | inr n ↦ step_last o me s v (p.0) release e (p.1 e) (ground arith)
]

Permitted-ne : (call : Call) (me : ℕ) (s : System) → Permitted call me s → me ≢ 0
Permitted-ne acquire me s p = p.0
Permitted-ne release me s p = p.0

-- From a valid state, a permitted step of any thread fails no ASSERT of sync.c and leads to a
-- valid state.
pub step-IsValid :
    (o me : ℕ) (s : System) (call : Call)
    → IsValid o s
    → Permitted call me s
    → (s' : System) × (step call me s ≡ ret s') × (o' : ℕ) × IsValid o' s'
step-IsValid o me s call v p = split (s.phase me) refl
  where
    split : (q : Phase) → s.phase me ≡ q → Steps call me s
    split idle e = step_idle o me s call v p e
    split testing e = step_testing o me s v (Permitted-ne call me s p) call e
    split asleep e = step_asleep o me s v (Permitted-ne call me s p) call e
    split taken e = step_taken o me s v (Permitted-ne call me s p) call e
    split named e = step_named o me s v (Permitted-ne call me s p) call e
    split dropping e = step_dropping o me s v (Permitted-ne call me s p) call e
    split raising e = step_raising o me s v (Permitted-ne call me s p) call e
