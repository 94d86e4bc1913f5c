-- ===== src/Threading/Fair.antt =====
-- Many switches one after the other: every running thread gets its turn.
use os_course_term.Common.{
  ℕ, suc, ◌+◌, ◌^◌, ◌<◌, ◌≡◌, refl, sym, ap, ◌∙◌, subst, arith, false, List, [], ◌∷◌, ◌++◌, length,
  has, Outcome, ok, and_then, Returns, returns, Returns-bind, Returns-mono, subst₂,
}
use mathlib.Core.List.{append_assoc}
use os_course_term.LinkedList.Ring.{IsRing}
use os_course_term.Threading.Switch.{
  Scheduler, list_of, thread_running, switch_thread_switch, switch-IsRoundRobin,
}

abbrev pub lists_of : List ℕ → List ℕ
lists_of [] = []
lists_of (t ∷ ts) = list_of t ∷ lists_of ts

pub lists_of-append : (ts us : List ℕ) → lists_of (ts ++ us) ≡ lists_of ts ++ lists_of us
lists_of-append [] us = refl
lists_of-append (t ∷ ts) us = ap (λ (r : List ℕ). list_of t ∷ r) (lists_of-append ts us)

abbrev pub AllRunning : Scheduler → List ℕ → Type 0
AllRunning s [] = Unit {0}
AllRunning s (t ∷ ts) = ((s.threads t).state ≡ thread_running) × (t + 16 < 2 ^ 64) × AllRunning s ts

pub AllRunning-append :
    (s : Scheduler) (ts us : List ℕ) → AllRunning s ts → AllRunning s us → AllRunning s (ts ++ us)
AllRunning-append s [] us a b = b
AllRunning-append s (t ∷ ts) us (r, small, a) b = (r, small, AllRunning-append s ts us a b)

pub AllRunning-kept :
    (s s' : Scheduler) (ts : List ℕ)
    → ((t : ℕ) → (s.threads t).state ≡ thread_running → (s'.threads t).state ≡ thread_running)
    → AllRunning s ts
    → AllRunning s' ts
AllRunning-kept s s' [] kept a = tt
AllRunning-kept s s' (t ∷ ts) kept (r, small, a) = (kept t r, small, AllRunning-kept s s' ts kept a)

-- The current thread and those of the queue, in its order, are all running, and are different.
pub record IsScheduled (s : Scheduler) (ts : List ℕ) : Type 0 where
  pub ring : IsRing s.heads s.running_threads (lists_of ts)
  pub apart : has (list_of s.current_thread) (s.running_threads ∷ lists_of ts) ≡ false
  pub running : AllRunning s (s.current_thread ∷ ts)

pub apart_same :
    {c t head' head : ℕ} {xs ys : List ℕ}
    → c ≡ t
    → head' ≡ head
    → xs ≡ ys
    → has (list_of t) (head ∷ ys) ≡ false
    → has (list_of c) (head' ∷ xs) ≡ false
apart_same {t = t} {head' = head'} {xs = xs} {ys = ys} e f g h =
    subst (λ (c : ℕ). has (list_of c) (head' ∷ xs) ≡ false) (sym e)
      (subst₂ (λ (head : ℕ) (zs : List ℕ). has (list_of t) (head ∷ zs) ≡ false) (sym f) (sym g) h)

switch-IsScheduled :
    (s : Scheduler) (old_rsp t : ℕ) (ts : List ℕ)
    → IsScheduled s (t ∷ ts)
    → Returns
        (λ rsp s'. (s'.current_thread ≡ t) × IsScheduled s' (ts ++ s.current_thread ∷ []))
        (switch_thread_switch old_rsp s)
switch-IsScheduled s old_rsp t ts v =
    let (s', run, w) =
      switch-IsRoundRobin s old_rsp t (lists_of ts) v.ring v.apart v.running.0 v.running.2.1 in
    let queue = sym (lists_of-append ts (s.current_thread ∷ [])) in
    rw run (
      returns (
        w.current,
        record {
          ring =
              subst₂ (λ (head : ℕ) (xs : List ℕ). IsRing s'.heads head xs) (sym w.queue) queue
                w.ring;
          apart = apart_same w.current w.queue (sym queue) w.apart;
          running =
              AllRunning-kept s s' (s'.current_thread ∷ ts ++ s.current_thread ∷ [])
                (λ u r. w.states u ∙ r)
                (rw w.current (
                  v.running.2.0,
                  v.running.2.1,
                  AllRunning-append s ts (s.current_thread ∷ []) v.running.2.2
                      (v.running.0, v.running.1, tt),
                ));
        },
      ))

-- The switches that the timer makes, one for each saved stack.
pub switches : List ℕ → Scheduler → Outcome Scheduler (Unit {0})
switches [] s = ok tt s
switches (rsp ∷ rsps) s = and_then (switch_thread_switch rsp s) λ _. switches rsps

-- As long as all threads keep running, every thread of the queue becomes the current one after as
-- many switches as it has threads before it, and one more; those before it then come after the old
-- current one in the queue.
pub switches_turn :
    (before : List ℕ) (t : ℕ) (behind rsps : List ℕ) (s : Scheduler)
    → IsScheduled s (before ++ t ∷ behind)
    → length rsps ≡ suc (length before)
    → Returns
        (λ _ s'. (s'.current_thread ≡ t) × IsScheduled s' (behind ++ s.current_thread ∷ before))
        (switches rsps s)
unfolding switches
switches_turn before t behind [] s v h = absurd (omega arith)
switches_turn [] t behind (rsp ∷ []) s v h =
    Returns-bind (switch-IsScheduled s rsp t behind v) λ _ s' w. returns w
switches_turn [] t behind (rsp ∷ more ∷ rsps) s v h = absurd (omega arith)
switches_turn (x ∷ before) t behind (rsp ∷ rsps) s v h =
    Returns-bind (switch-IsScheduled s rsp x (before ++ t ∷ behind) v) λ _ s' (current, w).
      let again : IsScheduled s' (before ++ t ∷ (behind ++ s.current_thread ∷ [])) =
        subst (IsScheduled s') (append_assoc before (t ∷ behind) (s.current_thread ∷ [])) w in
      Returns-mono
        (switches_turn before t (behind ++ s.current_thread ∷ []) rsps s' again (omega arith))
        λ _ s'' (turn, u). (turn, subst (IsScheduled s'') (order s' current) u)
  where
    order :
        (s' : Scheduler)
        → s'.current_thread ≡ x
        → (behind ++ s.current_thread ∷ []) ++ s'.current_thread ∷ before
          ≡ behind ++ s.current_thread ∷ x ∷ before
    order s' e = rw e (append_assoc behind (s.current_thread ∷ []) (x ∷ before))
