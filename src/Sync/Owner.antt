-- ===== src/Sync/Owner.antt =====
-- The lock's invariant: one thread at most is past sema_down, and the lock's fields say which.
use ukernel.Prelude.{
  ℕ, ◌+◌, ◌^◌, ◌≤◌, ◌<◌, ◌≡◌, ◌≢◌, ◌⊎◌, inl, inr, Bool, true, false, List, [], ◌∷◌, arith, ◌==◌,
  if◌then◌else◌, has, Distinct, Bool-cases, ret,
}
use ukernel.Sync.{
  Phase, idle, testing, asleep, taken, named, dropping, raising, Call, acquire, release, System,
  step, is_asleep,
}

-- The phases in which a thread has no part of the lock, or has all of it and is in no call.
abbrev pub is_bystander : Phase → Bool
is_bystander idle = true
is_bystander testing = true
is_bystander asleep = true
is_bystander p = false

abbrev pub is_nil : List ℕ → Bool
is_nil [] = true
is_nil (x ∷ xs) = false

-- the lock's fields while thread `o`, at the phase, has the semaphore's one unit
abbrev pub Holds : ℕ → Phase → (holder repeat : ℕ) → Type 0
Holds o idle holder repeat = (holder ≡ o) × (1 ≤ repeat)
Holds o taken holder repeat = (holder ≡ 0) × (repeat ≡ 0)
Holds o named holder repeat = (holder ≡ o) × (repeat ≡ 0)
Holds o dropping holder repeat = (holder ≡ 0) × (repeat ≡ 1)
Holds o raising holder repeat = (holder ≡ 0) × (repeat ≡ 0)
Holds o testing holder repeat = ⊥
Holds o asleep holder repeat = ⊥

-- `o` is the thread that has the semaphore's unit, 0 if the semaphore has it.
pub record IsValid (o : ℕ) (s : System) : Type 0 where
  pub value : s.lock.semaphore.value ≡ (if o == 0 then 1 else 0)
  pub owner : o ≢ 0 → Holds o (s.phase o) s.lock.holder s.lock.holder_repeat_nr
  pub free : o ≡ 0 → (s.lock.holder ≡ 0) × (s.lock.holder_repeat_nr ≡ 0)
  pub acting : (t : ℕ) → is_bystander (s.phase t) ≡ false → (t ≡ o) × (o ≢ 0)
  pub listed : (t : ℕ) → has t s.lock.semaphore.waiters ≡ is_asleep (s.phase t)
  pub distinct : Distinct s.lock.semaphore.waiters
  pub no_null : has 0 s.lock.semaphore.waiters ≡ false
  pub small : s.lock.holder_repeat_nr < 2 ^ 32
  pub alert :
      (is_nil s.lock.semaphore.waiters ≡ true) ⊎ ((o ≢ 0) ⊎ ((t : ℕ) × (s.phase t ≡ testing)))

-- A thread calls lock_release only while it holds the lock, and does not take the lock again once
-- its count of acquisitions is as large as a uint32_t.
abbrev pub Permitted : Call → ℕ → System → Type 0
Permitted acquire me s =
    (me ≢ 0) × (s.phase me ≡ idle → s.lock.holder ≡ me → s.lock.holder_repeat_nr + 1 < 2 ^ 32)
Permitted release me s = (me ≢ 0) × (s.phase me ≡ idle → s.lock.holder ≡ me)

-- a step that fails no ASSERT and leads to a valid state
abbrev pub Steps : Call → ℕ → System → Type 0
Steps call me s = (s' : System) × (step call me s ≡ ret s') × (o : ℕ) × IsValid o s'

module _ (o me : ℕ) (s : System) (v : IsValid o s) (ne : me ≢ 0) where
  -- a thread that the lock names as its holder, and that is in no call, is the owner
  pub holder_owner : s.lock.holder ≡ me → o ≡ me
  holder_owner h = elim (Bool-cases (o == 0)) [
    | inl z ↦ ground (arith, v.free)
    | inr nz ↦ at (s.phase o) (v.owner (ground arith))
  ]
    where
      at : (p : Phase) → Holds o p s.lock.holder s.lock.holder_repeat_nr → o ≡ me
      at idle g = ground arith
      at testing g = absurd g
      at asleep g = absurd g
      at taken g = ground arith
      at named g = ground arith
      at dropping g = ground arith
      at raising g = ground arith

  pub owner_of_acting :
      is_bystander (s.phase me) ≡ false
      → (o ≡ me) × Holds me (s.phase me) s.lock.holder s.lock.holder_repeat_nr
  owner_of_acting h =
      let (e, nz) = v.acting me h in let e' : o ≡ me = ground arith in (e', rw e' at (v.owner nz))
