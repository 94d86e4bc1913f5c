-- ===== src/Threading/Spin.antt =====
-- What `spin_lock` and `spin_unlock` of threading.c do, and the calls of several threads on one lock.
use os_course_term.Common.{
  ℕ, ◌+◌, ◌-◌, ◌≤◌, ◌≡◌, refl, ◌≢◌, arith, false, not, ◌==◌, if◌then◌else◌, List, [], ◌∷◌, Outcome,
  ok, died, fault, blocked, ◌>>◌, update, Bool-cases, inl, inr, ==_refl, ne→==,
}
use os_course_term.Threading.{SpinLock, SpinState, is_held, spin_lock, spin_unlock}

-- A lock that nobody holds has no owner.
pub record IsLock (l : SpinLock) : Type 0 where
  pub free : l.locked ≡ 0 → l.owner ≡ 0

-- A lock that another thread holds blocks the call.
pub spin_lock-blocked :
    (me : ℕ) (s : SpinState) → s.lock.locked ≢ 0 → s.lock.owner ≢ me → spin_lock me s ≡ blocked
unfolding spin_lock
spin_lock-blocked me s held other =
    rw (ne→== s.lock.locked 0 held, ne→== s.lock.owner me other) refl

pub spin_lock-spin_unlock :
    (me : ℕ) (s : SpinState)
    → IsLock s.lock
    → is_held me s.lock ≡ false
    → (spin_lock me >> spin_unlock me) s ≡ ok tt s
unfolding spin_lock spin_unlock
spin_lock-spin_unlock me s v mine =
    let l : SpinLock = s.lock in
    let taken : (l.locked + 1 == 0) ≡ false = ground arith in
    let count : l.locked + 1 - 1 ≡ l.locked = omega arith in
    let owner : (if l.locked == 0 then 0 else me) ≡ l.owner = ground (arith, v.free) in
    simp (mine, taken, ==_refl me, count, owner) refl

pub data Call : Type 0 where
  lock : ℕ → Call
  unlock : ℕ → Call

-- The lock, and how often each thread has taken it and not given it back.
pub record System : Type 0 where
  pub cpu : SpinState
  pub depth : ℕ → ℕ

abbrev pub settle : System → (ℕ → ℕ) → Outcome SpinState (Unit {0}) → System
settle y depth (ok _ s) = record { cpu = s; depth = depth }
settle y depth died = y
settle y depth fault = y
settle y depth blocked = y

-- A call that blocks is tried again later, and a failed assert halts the machine.
unfoldable pub step : System → Call → System
step y (lock t) = settle y (update y.depth t (y.depth t + 1)) (spin_lock t y.cpu)
step y (unlock t) = settle y (update y.depth t (y.depth t - 1)) (spin_unlock t y.cpu)

unfoldable pub run : System → List Call → System
run y [] = y
run y (c ∷ cs) = run (step y c) cs

-- The depth of the owner is the count in the lock, and all others have depth 0.
pub record IsOwned (y : System) : Type 0 where
  pub lock : IsLock y.cpu.lock
  pub depth : (t : ℕ) → t ≢ 0 → y.depth t ≡ (if y.cpu.lock.owner == t then y.cpu.lock.locked else 0)

abbrev pub caller : Call → ℕ
caller (lock t) = t
caller (unlock t) = t

step-IsOwned : (y : System) (c : Call) → caller c ≢ 0 → IsOwned y → IsOwned (step y c)
unfolding step spin_lock spin_unlock
step-IsOwned y (lock t) h v = elim (Bool-cases (is_held t y.cpu.lock)) [
  | inl held ↦ rw held v
  | inr mine ↦ rw mine (record {
    lock = record { free = λ e. absurd (omega arith) };
    depth = λ u hu. ground (arith, v.depth u hu, v.depth t h, v.lock.free);
  })
]
step-IsOwned y (unlock t) h v = elim (Bool-cases (not (y.cpu.lock.locked == 0))) [
  | inr none ↦ rw none v
  | inl some ↦ elim (Bool-cases (y.cpu.lock.owner == t)) [
    | inr other ↦ rw (some, other) v
    | inl mine ↦
        rw (some, mine)
          (record {
            lock = record { free = λ e. ground arith };
            depth = λ u hu. ground (arith, v.depth u hu, v.depth t h);
          })
  ]
]

abbrev pub AllThreads : List Call → Type 0
AllThreads [] = Unit {0}
AllThreads (c ∷ cs) = (caller c ≢ 0) × AllThreads cs

run-IsOwned : (y : System) (cs : List Call) → AllThreads cs → IsOwned y → IsOwned (run y cs)
unfolding run
run-IsOwned y [] h v = v
run-IsOwned y (c ∷ cs) (h, hs) v = run-IsOwned (step y c) cs hs (step-IsOwned y c h v)

-- However the calls of the threads follow each other, no two threads hold the lock at a time.
pub run-exclusive :
    (y : System) (cs : List Call) (t u : ℕ)
    → IsOwned y
    → AllThreads cs
    → t ≢ 0
    → u ≢ 0
    → 1 ≤ (run y cs).depth t
    → 1 ≤ (run y cs).depth u
    → t ≡ u
run-exclusive y cs t u v h ht hu dt du =
    let w = run-IsOwned y cs h v in ground (arith, w.depth t ht, w.depth u hu)

-- A lock that is free or held by the caller itself is taken once more.
pub spin_lock_taken :
    (me : ℕ) (s : SpinState)
    → is_held me s.lock ≡ false
    → spin_lock me s ≡ ok tt (record s { lock = record { locked = s.lock.locked + 1; owner = me } })
unfolding spin_lock
spin_lock_taken me s mine = rw mine refl

pub spin_unlock_given :
    (me count : ℕ) (s : SpinState)
    → s.lock ≡ record { locked = count + 1; owner = me }
    → spin_unlock me s
      ≡ ok tt (record s { lock = record { locked = count; owner = if count == 0 then 0 else me } })
unfolding spin_unlock
spin_unlock_given me count s e =
    let taken : (count + 1 == 0) ≡ false = ground arith in
    let less : count + 1 - 1 ≡ count = omega arith in rw e (simp (taken, ==_refl me, less) refl)

pub given_back :
    (me count : ℕ)
    → is_held me (record { locked = count; owner = if count == 0 then 0 else me }) ≡ false
given_back me count = elim (Bool-cases (count == 0)) [
  | inl none ↦ rw none refl
  | inr some ↦ rw (some, ==_refl me) refl
]
