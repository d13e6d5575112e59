-- ===== src/Sync/Tests.antt =====
-- Runs of threads 10 and 20 over one lock, and the theorems at them.
use ukernel.Prelude.{ℕ, ◌≡◌, ◌≢◌, refl, inr, arith, [], ◌∷◌, Outcome, ret, panic}
use ukernel.Sync.{
  lock_init, sema_init, idle, testing, Call, acquire, release, System, step, advance, sema_down,
  sema_up, lock_acquire, lock_release,
}
use ukernel.Sync.Owner.{Permitted}
use ukernel.Sync.Exclusion.{
  start, Reach, here, next, mutual_exclusion, no_lost_wakeup, step_guarded,
}

abbrev from : Outcome System → System
from (ret s) = s
from panic = start

-- 10 wants the lock and takes it.
abbrev s1 : System
s1 = from (step acquire 10 start)

r1 : Reach s1
unfolding step advance lock_init sema_init sema_down sema_up lock_acquire lock_release
r1 = next acquire 10 here (omega arith, λ p h. ground arith) refl

abbrev s2 : System
s2 = from (step acquire 10 s1)

r2 : Reach s2
unfolding step advance lock_init sema_init sema_down sema_up lock_acquire lock_release
r2 = next acquire 10 r1 (omega arith, λ p h. ground arith) refl

abbrev s3 : System
s3 = from (step acquire 10 s2)

r3 : Reach s3
unfolding step advance lock_init sema_init sema_down sema_up lock_acquire lock_release
r3 = next acquire 10 r2 (omega arith, λ p h. ground arith) refl

abbrev s4 : System
s4 = from (step acquire 10 s3)

r4 : Reach s4
unfolding step advance lock_init sema_init sema_down sema_up lock_acquire lock_release
r4 = next acquire 10 r3 (omega arith, λ p h. ground arith) refl

-- 20 and 30 want it and go to sleep.
abbrev s5 : System
s5 = from (step acquire 20 s4)

r5 : Reach s5
unfolding step advance lock_init sema_init sema_down sema_up lock_acquire lock_release
r5 = next acquire 20 r4 (omega arith, λ p h. ground arith) refl

abbrev s6 : System
s6 = from (step acquire 20 s5)

r6 : Reach s6
unfolding step advance lock_init sema_init sema_down sema_up lock_acquire lock_release
r6 = next acquire 20 r5 (omega arith, λ p h. ground arith) refl

abbrev s7 : System
s7 = from (step acquire 30 s6)

r7 : Reach s7
unfolding step advance lock_init sema_init sema_down sema_up lock_acquire lock_release
r7 = next acquire 30 r6 (omega arith, λ p h. ground arith) refl

abbrev s8 : System
s8 = from (step acquire 30 s7)

r8 : Reach s8
unfolding step advance lock_init sema_init sema_down sema_up lock_acquire lock_release
r8 = next acquire 30 r7 (omega arith, λ p h. ground arith) refl

-- 10 gives it back, and wakes 20.
abbrev s9 : System
s9 = from (step release 10 s8)

r9 : Reach s9
unfolding step advance lock_init sema_init sema_down sema_up lock_acquire lock_release
r9 = next release 10 r8 (omega arith, λ p. ground arith) refl

abbrev s10 : System
s10 = from (step release 10 s9)

r10 : Reach s10
unfolding step advance lock_init sema_init sema_down sema_up lock_acquire lock_release
r10 = next release 10 r9 (omega arith, λ p. ground arith) refl

abbrev s11 : System
s11 = from (step release 10 s10)

r11 : Reach s11
unfolding step advance lock_init sema_init sema_down sema_up lock_acquire lock_release
r11 = next release 10 r10 (omega arith, λ p. ground arith) refl

-- After it 30 sleeps, the semaphore is 1, and 20 is the thread that will test it.
woken_20 : (s11.phase 20 ≡ testing) × (s11.lock.semaphore.waiters ≡ 30 ∷ [])
unfolding step advance lock_init sema_init sema_down sema_up lock_acquire lock_release
woken_20 = (refl, refl)

no_lost_wakeup_example : (t : ℕ) × (s11.phase t ≡ testing)
unfolding step advance lock_init sema_init sema_down sema_up lock_acquire lock_release
no_lost_wakeup_example = no_lost_wakeup r11 refl refl

-- 10 and 10 are in the section after its `holder = 10`.
mutual_exclusion_example : ◌≡◌ {A = ℕ} 10 10
unfolding step advance lock_init sema_init sema_down sema_up lock_acquire lock_release
mutual_exclusion_example =
    mutual_exclusion 10 10 r8 (inr (omega arith, refl)) (inr (omega arith, refl))

step_guarded_example :
    ((call : Call) → Permitted call 20 s4 → (s' : System) × (step call 20 s4 ≡ ret s') × Reach s')
    × (s4.phase 20 ≡ idle → s4.lock.holder ≢ 20 → step release 20 s4 ≡ panic)
step_guarded_example = step_guarded 20 r4
