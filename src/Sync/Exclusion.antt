-- ===== src/Sync/Exclusion.antt =====
-- What threads that use one lock see, in whatever order their steps come.
use mathlib.Core.Path.{subst}
use ukernel.Prelude.{ℕ, ◌≡◌, ◌≢◌, refl, sym, ◌∙◌, ◌⊎◌, inl, inr, true, false, arith, ret, panic}
use ukernel.Sync.{
  lock_init, sema_init, idle, testing, Call, release, System, step, advance, lock_release,
}
use ukernel.Sync.Owner.{is_bystander, is_nil, IsValid, Permitted, holder_owner}
use ukernel.Sync.Calls.{step-IsValid}

-- a fresh lock, and no thread in a call
abbrev pub start : System
start = record { lock = lock_init; phase = λ t. idle }

-- The systems that permitted steps of any threads, in any order, lead to.
pub data Reach : System → Type 0 where
  here : Reach start
  next :
      {s s' : System} (call : Call) (me : ℕ)
      → Reach s
      → Permitted call me s
      → step call me s ≡ ret s'
      → Reach s'

start-IsValid : IsValid 0 start
unfolding lock_init sema_init
start-IsValid = record {
  value = refl;
  owner = λ nz. absurd (nz refl);
  free = λ z. (refl, refl);
  acting = λ t h. absurd (ground arith);
  listed = λ t. refl;
  distinct = tt;
  no_null = refl;
  small = omega arith;
  alert = inl refl;
}

ret-injective : {A : Type 0} {a b : A} → ret a ≡ ret b → a ≡ b
ret-injective e = cc

pub Reach-IsValid : {s : System} → Reach s → (o : ℕ) × IsValid o s
Reach-IsValid here = (0, start-IsValid)
Reach-IsValid (next {s} call me r p e) =
    let (o, v) = Reach-IsValid r in
    let (s'', e', o', v') = step-IsValid o me s call v p in
    (o', subst (λ t. IsValid o' t) (ret-injective (sym e' ∙ e)) v')

-- The thread is between the end of its sema_down and its sema_up.
abbrev pub InSection : ℕ → System → Type 0
InSection t s = (is_bystander (s.phase t) ≡ false) ⊎ ((t ≢ 0) × (s.lock.holder ≡ t))

owner_of_section : (o t : ℕ) (s : System) → IsValid o s → InSection t s → t ≡ o
owner_of_section o t s v (inl h) = (v.acting t h).0
owner_of_section o t s v (inr (nz, h)) = sym (holder_owner o t s v nz h)

-- Mutual exclusion: in no reachable state are two threads between sema_down and sema_up.
pub mutual_exclusion : {s : System} (t u : ℕ) → Reach s → InSection t s → InSection u s → t ≡ u
mutual_exclusion {s} t u r a b =
    let (o, v) = Reach-IsValid r in owner_of_section o t s v a ∙ sym (owner_of_section o u s v b)

-- No wake-up is lost: in a reachable state in which threads sleep on the lock while its semaphore
-- is 1, some thread is about to test the semaphore.
pub no_lost_wakeup :
    {s : System}
    → Reach s
    → is_nil s.lock.semaphore.waiters ≡ false
    → s.lock.semaphore.value ≡ 1
    → (t : ℕ) × (s.phase t ≡ testing)
no_lost_wakeup {s} r some_wait one = let (o, v) = Reach-IsValid r in pick o v v.alert
  where
    pick :
        (o : ℕ)
        → IsValid o s
        → (is_nil s.lock.semaphore.waiters ≡ true) ⊎ ((o ≢ 0) ⊎ ((t : ℕ) × (s.phase t ≡ testing)))
        → (t : ℕ) × (s.phase t ≡ testing)
    pick o v (inl none_wait) = absurd (ground arith)
    pick o v (inr (inl nz)) = absurd (ground (arith, v.value))
    pick o v (inr (inr w)) = w

-- In a reachable state a permitted step of any thread fails no ASSERT, and a thread in no call
-- that releases a lock it does not hold stops the machine.
pub step_guarded :
    {s : System} (me : ℕ)
    → Reach s
    → ((call : Call) → Permitted call me s → (s' : System) × (step call me s ≡ ret s') × Reach s')
      × (s.phase me ≡ idle → s.lock.holder ≢ me → step release me s ≡ panic)
unfolding step advance lock_release
step_guarded {s} me r = (
  λ call p.
      let (o, v) = Reach-IsValid r in
      let (s', e, o', v') = step-IsValid o me s call v p in (s', e, next call me r p e),
  λ e other. rw e (ground arith),
)
