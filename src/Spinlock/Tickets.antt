-- ===== src/Spinlock/Tickets.antt =====
-- spinlock.c: the ticket lock serves its threads in the order of their tickets, across the
-- wrap-around of the tickets.
use self_mini_os.Common.{
  ℕ, zero, suc, ◌+◌, ◌%◌, ◌≤◌, ◌<◌, ◌≡◌, ◌≢◌, refl, sym, ap, ◌∙◌, false, some, List, [], ◌∷◌, ◌++◌,
  length, length-append, get_elem?, set, arith, u32_mod, add32, ◌↔◌,
}
use mathlib.Core.Path.{subst}
use mathlib.Core.Option.{some-injective}
use self_mini_os.Spinlock.{
  RawSpinLock, raw_spin_lock_init, take_ticket, own, disown, hand_over, raw_spin_is_locked, Stage,
  waiting, served, owning, leaving, Customer, remove, TicketStep, take, wait, pass, enter, unlock,
  leave, TicketReach, fresh, then_step,
}

-- consecutive tickets from `o` on
abbrev pub Tickets : ℕ → List Customer → Type 0
Tickets o [] = Unit
Tickets o (c ∷ cs) = (c.ticket ≡ o) × Tickets (add32 o 1) cs

abbrev pub AllWait : List Customer → Type 0
AllWait [] = Unit
AllWait (c ∷ cs) = (c.stage ≡ waiting) × AllWait cs

abbrev pub OnlyFirst : List Customer → Type 0
OnlyFirst [] = Unit
OnlyFirst (c ∷ cs) = AllWait cs

record Inv (n : ℕ) (l : RawSpinLock) (cs : List Customer) : Type 0 where
  few : length cs ≤ n
  small : l.owner_ticket < u32_mod
  handed : l.next_ticket ≡ (l.owner_ticket + length cs) % u32_mod
  tickets : Tickets l.owner_ticket cs
  first : OnlyFirst cs

Tickets-append :
    (o t : ℕ) (cs : List Customer) (c : Customer)
    → o < u32_mod
    → c.ticket ≡ (o + length cs) % u32_mod
    → Tickets o cs
    → Tickets o (cs ++ c ∷ [])
Tickets-append o t [] c h e ts = (omega arith, tt)
Tickets-append o t (x ∷ cs) c h e ts =
    (ts.0, Tickets-append (add32 o 1) t cs c (omega arith) (omega arith) ts.1)

AllWait-append :
    (cs : List Customer) (c : Customer) → c.stage ≡ waiting → AllWait cs → AllWait (cs ++ c ∷ [])
AllWait-append [] c e h = (e, tt)
AllWait-append (x ∷ cs) c e h = (h.0, AllWait-append cs c e h.1)

OnlyFirst-append :
    (cs : List Customer) (c : Customer)
    → c.stage ≡ waiting
    → OnlyFirst cs
    → OnlyFirst (cs ++ c ∷ [])
OnlyFirst-append [] c e h = tt
OnlyFirst-append (x ∷ cs) c e h = AllWait-append cs c e h

-- the ticket at an index
pub Tickets-get_elem? :
    (o : ℕ) (cs : List Customer) (i : ℕ) (c : Customer)
    → o < u32_mod
    → Tickets o cs
    → get_elem? cs i ≡ some c
    → (c.ticket ≡ (o + i) % u32_mod) × (i < length cs)
Tickets-get_elem? o [] i c h ts e = cc e
Tickets-get_elem? o (x ∷ cs) zero c h ts e =
    let same = some-injective x c e in
    (subst (λ y. y.ticket ≡ (o + 0) % u32_mod) same (omega (arith, ts.0)), omega arith)
Tickets-get_elem? o (x ∷ cs) (suc i) c h ts e =
    omega (arith, Tickets-get_elem? (add32 o 1) cs i c (omega arith) ts.1 e)

AllWait-get_elem? :
    (cs : List Customer) (i : ℕ) (c : Customer)
    → AllWait cs
    → get_elem? cs i ≡ some c
    → c.stage ≡ waiting
AllWait-get_elem? [] i c h e = cc e
AllWait-get_elem? (x ∷ cs) zero c h e = subst (λ y. y.stage ≡ waiting) (some-injective x c e) h.0
AllWait-get_elem? (x ∷ cs) (suc i) c h e = AllWait-get_elem? cs i c h.1 e

-- a thread that is past its test is the first
OnlyFirst-get_elem? :
    (cs : List Customer) (i : ℕ) (c : Customer)
    → OnlyFirst cs
    → get_elem? cs i ≡ some c
    → c.stage ≢ waiting
    → i ≡ 0
OnlyFirst-get_elem? [] i c h e o = cc e
OnlyFirst-get_elem? (x ∷ cs) zero c h e o = refl
OnlyFirst-get_elem? (x ∷ cs) (suc i) c h e o = absurd (o (AllWait-get_elem? cs i c h e))

AllWait-OnlyFirst : (cs : List Customer) → AllWait cs → OnlyFirst cs
AllWait-OnlyFirst [] h = tt
AllWait-OnlyFirst (c ∷ cs) h = h.1

module _ {n : ℕ} (bound : n < u32_mod) where
  -- the first thread changes its stage, and the lock no ticket
  first-Inv :
      (l l' : RawSpinLock) (cs : List Customer) (c : Customer) (i : ℕ) (stage : Stage)
      → l'.owner_ticket ≡ l.owner_ticket
      → l'.next_ticket ≡ l.next_ticket
      → get_elem? cs i ≡ some c
      → i ≡ 0
      → Inv n l cs
      → Inv n l' (set cs i (record c { stage = stage }))
  first-Inv l l' [] c i stage a b e z inv = cc e
  first-Inv l l' (x ∷ cs) c zero stage a b e z inv = record {
    few = inv.few;
    small = omega (arith, a, inv.small);
    handed = omega (arith, a, b, inv.handed);
    tickets =
        subst (λ o. Tickets o (record c { stage = stage } ∷ cs)) (sym a)
          (
            ap (λ (y : Customer). y.ticket) (sym (some-injective x c e)) ∙ inv.tickets.0,
            inv.tickets.1,
          );
    first = inv.first;
  }
  first-Inv l l' (x ∷ cs) c (suc i) stage a b e z inv = absurd (omega (arith, z))

  leave-Inv :
      (l : RawSpinLock) (cs : List Customer) (i : ℕ)
      → 0 < length cs
      → i ≡ 0
      → Inv n l cs
      → Inv n (hand_over l) (remove cs i)
  unfolding hand_over
  leave-Inv l [] i some_one z inv = absurd (omega (arith, some_one))
  leave-Inv l (x ∷ cs) zero some_one z inv = record {
    few = omega (arith, inv.few);
    small = omega arith;
    handed = omega (arith, inv.handed);
    tickets = inv.tickets.1;
    first = AllWait-OnlyFirst cs inv.first;
  }
  leave-Inv l (x ∷ cs) (suc i) some_one z inv = absurd (omega (arith, z))

  -- the thread whose ticket is up is the first
  up-first :
      (l : RawSpinLock) (cs : List Customer) (c : Customer) (i : ℕ)
      → get_elem? cs i ≡ some c
      → l.owner_ticket ≡ c.ticket
      → Inv n l cs
      → i ≡ 0
  up-first l cs c i e same inv = omega (
    arith,
    same,
    inv.small,
    inv.few,
    Tickets-get_elem? l.owner_ticket cs i c inv.small inv.tickets e,
  )

  past-first :
      (l : RawSpinLock) (cs : List Customer) (c : Customer) (i : ℕ) (stage : Stage)
      → get_elem? cs i ≡ some c
      → c.stage ≡ stage
      → stage ≢ waiting
      → Inv n l cs
      → i ≡ 0
  past-first l cs c i stage e at past inv =
      OnlyFirst-get_elem? cs i c inv.first e (λ w. past (sym at ∙ w))

  TicketStep-Inv :
      {s t : RawSpinLock × List Customer} → TicketStep n s t → Inv n s.0 s.1 → Inv n t.0 t.1
  unfolding take_ticket own disown
  TicketStep-Inv (take {l} {cs} room) inv =
      let c : Customer = record { ticket = l.next_ticket; stage = waiting } in
      record {
        few = omega (arith, length-append cs (c ∷ []));
        small = inv.small;
        handed = omega (arith, length-append cs (c ∷ []), inv.handed);
        tickets = Tickets-append l.owner_ticket 0 cs c inv.small inv.handed inv.tickets;
        first = OnlyFirst-append cs c refl inv.first;
      }
  TicketStep-Inv (wait i e at late) inv = inv
  TicketStep-Inv (pass {l} {cs} {c} i e at same) inv =
      first-Inv l l cs c i served refl refl e (up-first l cs c i e same inv) inv
  TicketStep-Inv (enter {l} {cs} {c} i cpu e at) inv =
      first-Inv l (own l cpu) cs c i owning refl refl e
        (past-first l cs c i served e at (λ q. cc q) inv) inv
  TicketStep-Inv (unlock {l} {cs} {c} i e at) inv =
      first-Inv l (disown l) cs c i leaving refl refl e
        (past-first l cs c i owning e at (λ q. cc q) inv) inv
  TicketStep-Inv (leave {l} {cs} {c} i e at) inv =
      leave-Inv l cs i
        (omega (arith, (Tickets-get_elem? l.owner_ticket cs i c inv.small inv.tickets e).1))
        (past-first l cs c i leaving e at (λ q. cc q) inv) inv

  TicketReach-Inv : {s : RawSpinLock × List Customer} → TicketReach n s → Inv n s.0 s.1
  unfolding raw_spin_lock_init
  TicketReach-Inv fresh = record {
    few = omega arith;
    small = omega arith;
    handed = refl;
    tickets = tt;
    first = tt;
  }
  TicketReach-Inv (then_step r st) = TicketStep-Inv st (TicketReach-Inv r)

-- what the ticket lock promises
pub record IsFair (l : RawSpinLock) (cs : List Customer) : Type 0 where
  pub exclusive : (i : ℕ) (c : Customer) → get_elem? cs i ≡ some c → c.stage ≢ waiting → i ≡ 0
  pub in_order :
      (i : ℕ) (c : Customer) → get_elem? cs i ≡ some c → (l.owner_ticket ≡ c.ticket) ↔ (i ≡ 0)
  pub locked : (raw_spin_is_locked l l ≡ false) ↔ (cs ≡ [])

is_locked_empty :
    (n : ℕ) (l : RawSpinLock) (cs : List Customer)
    → n < u32_mod
    → Inv n l cs
    → (raw_spin_is_locked l l ≡ false) ↔ (cs ≡ [])
unfolding raw_spin_is_locked
is_locked_empty n l [] bound inv =
    let same : l.next_ticket ≡ l.owner_ticket = omega (arith, inv.handed, inv.small) in
    (λ e. refl, λ e. ground (arith, same))
is_locked_empty n l (c ∷ cs) bound inv =
    let apart : ¬ (l.next_ticket ≡ l.owner_ticket) =
      λ same. absurd (omega (arith, same, inv.handed, inv.small, inv.few)) in
    (λ e. absurd (apart (ground arith)), λ e. cc e)

-- For fewer than 2 ^ 32 threads, whatever the order in which their single reads and writes run and
-- however often the tickets wrap: only the thread that has held its ticket longest is past the loop of
-- `raw_spin_lock` and not yet at the end of its unlock, and only its ticket passes the test of that loop.
-- `raw_spin_is_locked`, if no step falls between its two reads, is false exactly if no thread holds a
-- ticket. The threads call `raw_spin_lock` and `raw_spin_unlock`, and not `raw_spin_trylock`.
pub raw_spin_lock-IsFair :
    (n : ℕ) (l : RawSpinLock) (cs : List Customer)
    → n < u32_mod
    → TicketReach n (l, cs)
    → IsFair l cs
raw_spin_lock-IsFair n l cs bound r =
    let inv = TicketReach-Inv bound r in
    record {
      exclusive = λ i c e o. OnlyFirst-get_elem? cs i c inv.first e o;
      in_order = λ i c e.
          let at = Tickets-get_elem? l.owner_ticket cs i c inv.small inv.tickets e in
          (
            λ same. omega (arith, same, at, inv.small, inv.few),
            λ z. omega (arith, z, at, inv.small),
          );
      locked = is_locked_empty n l cs bound inv;
    }
