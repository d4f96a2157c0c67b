-- ===== src/Scheduler/Inherit/Writes.antt =====
-- mini_rtos/src/scheduler.c: what the writes of `inherit_priority` and `release_inherited_priority` do to the
-- blocks of the tasks.
use self_mini_os.Common.{
  ℕ, ◌+◌, ◌%◌, ◌^◌, ◌≡◌, ◌≢◌, refl, sym, ap, ◌∙◌, true, false, Option, none, some, ◌==◌, arith,
  if◌then◌else◌,
}
use self_mini_os.Traffic.{Traffic}
use self_mini_os.Traffic.Chains.{assign_ne, assign_self}
use self_mini_os.Scheduler.{
  Tcb, Scheduler, priority_key, change, has_flag, set_flag, clear_flag, flag_inherited,
}
use self_mini_os.Scheduler.Inherit.{lend, unchain, restore, give_back}

==_ne : (u t : ℕ) → u ≢ t → (u == t) ≡ false
==_ne u t ne = ground arith

==_self : (t : ℕ) → (t == t) ≡ true
==_self t = ground arith

change_self : (f : Tcb → Tcb) (t : ℕ) (s : Scheduler) → (change f t s).tcb t ≡ f (s.tcb t)
change_self f t s = assign_self s.tcb t (f (s.tcb t))

change-other : (f : Tcb → Tcb) (t u : ℕ) (s : Scheduler) → u ≢ t → (change f t s).tcb u ≡ s.tcb u
change-other f t u s ne = assign_ne s.tcb t u (f (s.tcb t)) (==_ne u t ne)

-- a blocker of flags `flags` that has been lent the priority `priority`
abbrev pub lent : ℕ → ℕ → ℕ → Tcb → Tcb
lent flags priority blocked b = record b {
  original_priority = if has_flag flag_inherited flags then b.original_priority else b.priority;
  priority = priority;
  inheritance_depth = (b.inheritance_depth + 1) % 2 ^ 32;
  blocking = some blocked;
}

pub lend-blocker :
    (blocker blocked : ℕ) (s : Scheduler)
    → blocked ≢ blocker
    → (lend blocker blocked s).tcb blocker
      ≡ lent (s.tc.flags blocker) (s.tcb blocked).priority blocked (s.tcb blocker)
unfolding lend
lend-blocker blocker blocked s ne =
    ground
      (arith, ==_ne blocked blocker ne, ==_ne blocker blocked (λ e. ne (sym e)), ==_self blocker)

pub lend-blocked :
    (blocker blocked : ℕ) (s : Scheduler)
    → blocked ≢ blocker
    → (lend blocker blocked s).tcb blocked ≡ record (s.tcb blocked) { blocked_by = some blocker }
unfolding lend
lend-blocked blocker blocked s ne = ground (
  arith,
  ==_ne blocked blocker ne,
  ==_ne blocker blocked (λ e. ne (sym e)),
  ==_self blocked,
  ==_self blocker,
)

pub lend-other :
    (blocker blocked u : ℕ) (s : Scheduler)
    → u ≢ blocker
    → u ≢ blocked
    → (lend blocker blocked s).tcb u ≡ s.tcb u
unfolding lend
lend-other blocker blocked u s ne ne' = ground (arith, ==_ne u blocker ne, ==_ne u blocked ne')

pub give_back-task :
    (t b : ℕ) (s : Scheduler)
    → b ≢ t
    → (s.tcb t).blocking ≡ some b
    → (give_back t s).tcb t ≡ record (s.tcb t) {
      priority = (s.tcb t).original_priority;
      inheritance_depth = 0;
      blocking = none;
    }
unfolding give_back
give_back-task t b s ne e =
    let here : (t == t) ≡ true = ==_self t in
    ground (arith, ==_ne b t ne, ==_ne t b (λ e. ne (sym e)), ==_self t)

pub give_back-other :
    (t b u : ℕ) (s : Scheduler)
    → b ≢ t
    → (s.tcb t).blocking ≡ some b
    → u ≢ t
    → u ≢ b
    → (give_back t s).tcb u ≡ s.tcb u
unfolding give_back
give_back-other t b u s ne e ne1 ne2 =
    ground (arith, ==_ne b t ne, ==_ne u t ne1, ==_ne u b ne2, ==_self t)

pub give_back-blocked :
    (t b : ℕ) (s : Scheduler)
    → b ≢ t
    → (s.tcb t).blocking ≡ some b
    → (give_back t s).tcb b ≡ record (s.tcb b) { blocked_by = none }
unfolding give_back
give_back-blocked t b s ne e =
    ground (arith, ==_ne b t ne, ==_ne t b (λ e. ne (sym e)), ==_self t, ==_self b)

-- the keys and names of all tasks but one stay
pub lend-key :
    (blocker blocked u : ℕ) (s : Scheduler)
    → u ≢ blocker
    → priority_key (lend blocker blocked s).tcb u ≡ priority_key s.tcb u
unfolding lend priority_key
lend-key blocker blocked u s ne = ground (arith, ==_ne u blocker ne)

pub give_back-key :
    (t b u : ℕ) (s : Scheduler)
    → (s.tcb t).blocking ≡ some b
    → u ≢ t
    → priority_key (give_back t s).tcb u ≡ priority_key s.tcb u
unfolding give_back priority_key
give_back-key t b u s e ne = ground (arith, ==_ne u t ne, ==_self t)

-- the flags, with and without the mark of inheritance
pub flags_lent : (f : ℕ) → has_flag flag_inherited (set_flag flag_inherited f) ≡ true
flags_lent f = ground arith

pub flags_back :
    (f : ℕ)
    → has_flag flag_inherited f ≡ false
    → clear_flag flag_inherited (set_flag flag_inherited f) ≡ f
flags_back f e = rw e (rw (raised f e) (omega arith))
  where
    raised :
        (f : ℕ)
        → has_flag flag_inherited f ≡ false
        → has_flag flag_inherited (f + flag_inherited) ≡ true
    raised f e = ground arith

-- what is no block and no flag stays
pub record Kept (s s' : Scheduler) : Type 0 where
  pub tree : s'.priority_tree ≡ s.priority_tree
  pub policy : s'.current_policy ≡ s.current_policy
  pub memory : s'.mallocs ≡ s.mallocs
  pub ids : s'.task_id_map ≡ s.task_id_map
  pub names : s'.task_name_map ≡ s.task_name_map

unchain-Kept : (o : Option ℕ) (t : ℕ) (s : Scheduler) → Kept s (unchain o t s)
unfolding unchain
unchain-Kept none t s = record {
  tree = refl;
  policy = refl;
  memory = refl;
  ids = refl;
  names = refl;
}
unchain-Kept (some b) t s = record {
  tree = refl;
  policy = refl;
  memory = refl;
  ids = refl;
  names = refl;
}

unchain-flags : (o : Option ℕ) (t : ℕ) (s : Scheduler) → (unchain o t s).tc ≡ s.tc
unfolding unchain
unchain-flags none t s = refl
unchain-flags (some b) t s = refl

pub give_back-Kept : (t : ℕ) (s : Scheduler) → Kept s (give_back t s)
unfolding restore give_back
give_back-Kept t s =
    let k = unchain-Kept ((restore t s).tcb t).blocking t (restore t s) in
    record { tree = k.tree; policy = k.policy; memory = k.memory; ids = k.ids; names = k.names }

pub give_back-flags :
    (t : ℕ) (s : Scheduler) → (give_back t s).tc.flags t ≡ clear_flag flag_inherited (s.tc.flags t)
unfolding restore give_back
give_back-flags t s =
    ap (λ (tc : Traffic). tc.flags t) (unchain-flags ((restore t s).tcb t).blocking t (restore t s))
    ∙ assign_self s.tc.flags t (clear_flag flag_inherited (s.tc.flags t))
