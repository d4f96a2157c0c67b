-- ===== src/Scheduler/Calls/States.antt =====
-- mini_rtos/src/scheduler.c: what the writes to the control blocks do to their states.
use self_mini_os.Common.{
  ℕ, ◌≡◌, ◌≢◌, refl, sym, ap, ◌∙◌, inl, inr, Option, none, some, ◌==◌, ◌>>=◌, arith, Bool-cases,
  Option-cases,
}
use mathlib.Core.Option.{some-injective}
use self_mini_os.Scheduler.{terminated, Tcb, Scheduler, change}
use self_mini_os.Scheduler.Tasks.{push_blocked, unlink_blocked, is_current}
use self_mini_os.Scheduler.Tasks.Live.{SameTcb}
use self_mini_os.Scheduler.Inherit.{lend, give_back, restore, unchain}
use self_mini_os.Scheduler.Calls.{}

-- no block is marked as free
abbrev pub AllUsed : Scheduler → Type 0
AllUsed s = (i : ℕ) → (s.tcb i).state ≢ terminated

pub same-AllUsed : (s s' : Scheduler) → s'.tcb ≡ s.tcb → AllUsed s → AllUsed s'
same-AllUsed s s' e v i = λ q. v i (ap (λ (f : ℕ → Tcb). (f i).state) (sym e) ∙ q)

pub states-AllUsed :
    (s s' : Scheduler) → ((u : ℕ) → (s'.tcb u).state ≡ (s.tcb u).state) → AllUsed s → AllUsed s'
states-AllUsed s s' e v i = λ q. v i (sym (e i) ∙ q)

pub change-AllUsed :
    (f : Tcb → Tcb) (t : ℕ) (s : Scheduler)
    → (f (s.tcb t)).state ≢ terminated
    → AllUsed s
    → AllUsed (change f t s)
change-AllUsed f t s h v i = elim (Bool-cases (i == t)) [ inl e ↦ rw e h | inr e ↦ rw e (v i) ]

-- what a call leaves, if it ends
pub record Leaves (o : Option Scheduler) : Type 0 where
  pub used : (s' : Scheduler) → o ≡ some s' → AllUsed s'

pub Leaves-some : (s : Scheduler) → AllUsed s → Leaves (some s)
Leaves-some s v = record {
  used = λ s' e. same-AllUsed s s' (ap (λ (z : Scheduler). z.tcb) (sym (some-injective s s' e))) v;
}

pub Leaves-then :
    (o : Option Scheduler) (g : Scheduler → Option Scheduler)
    → Leaves o
    → ((z : Scheduler) → AllUsed z → Leaves (g z))
    → Leaves (o >>= g)
Leaves-then none g h k = record { used = λ s' e. cc e }
Leaves-then (some z) g h k = k z (h.used z refl)

pub SameTcb-Leaves : (s : Scheduler) (o : Option Scheduler) → SameTcb s o → AllUsed s → Leaves o
SameTcb-Leaves s o h v = record { used = λ s' e. same-AllUsed s s' (h.same s' e) v }

pub push-state : (t u : ℕ) (s : Scheduler) → ((push_blocked t s).tcb u).state ≡ (s.tcb u).state
unfolding push_blocked
push-state t u s = elim (Option-cases s.blocked_list) [
  | inl e ↦ rw e (ground arith)
  | inr (b, e) ↦ rw e (ground arith)
]

pub unlink-state : (t u : ℕ) (s : Scheduler) → ((unlink_blocked t s).tcb u).state ≡ (s.tcb u).state
unfolding unlink_blocked
unlink-state t u s = elim (Bool-cases (is_current t s.blocked_list)) [
  | inl c ↦ elim (Option-cases (s.tc.next t)) [
    | inl e ↦ rw (c, e) refl
    | inr (b, e) ↦ rw (c, e) (ground arith)
  ]
  | inr c ↦ elim (Option-cases (s.tc.next t)) [
    | inl e ↦ rw (c, e) refl
    | inr (b, e) ↦ rw (c, e) (ground arith)
  ]
]

pub lend-state : (t b u : ℕ) (s : Scheduler) → ((lend t b s).tcb u).state ≡ (s.tcb u).state
unfolding lend
lend-state t b u s = ground arith

pub give_back-state : (t u : ℕ) (s : Scheduler) → ((give_back t s).tcb u).state ≡ (s.tcb u).state
unfolding give_back restore unchain
give_back-state t u s = elim (Option-cases (s.tcb t).blocking) [
  | inl e ↦ ground (arith, e)
  | inr (b, e) ↦ ground (arith, e)
]

pub Leaves-join :
    {A : Type 0} (o : Option A) (f : A → Option Scheduler)
    → ((a : A) → Leaves (f a))
    → Leaves (o >>= f)
Leaves-join none f h = record { used = λ s' e. cc e }
Leaves-join (some a) f h = h a
