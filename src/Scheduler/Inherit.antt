-- ===== src/Scheduler/Inherit.antt =====
-- mini_rtos/src/scheduler.c: priority inheritance.
pub mod Writes
pub mod Release
pub mod Restores
use self_mini_os.Common.{
  Bool, true, false, not, Option, none, some, ℕ, leb, if◌then◌else◌, ◌>>=◌, add32,
}
use self_mini_os.Traffic.{assign}
use self_mini_os.Scheduler.{
  Tcb, Scheduler, change, has_flag, set_flag, clear_flag, flag_inherited, add_task, remove_task,
}

-- the writes of `inherit_priority` between the removal of the blocker and its return
unfoldable pub lend : ℕ → ℕ → Scheduler → Scheduler
lend blocker blocked s =
    let flags = s.tc.flags blocker in
    let save = λ (b : Tcb).
      if has_flag flag_inherited flags then b else record b { original_priority = b.priority } in
    let s1 = change save blocker s in
    let s2 = record s1 {
      tc = record s1.tc { flags = assign s1.tc.flags blocker (set_flag flag_inherited flags) };
    } in
    let s3 =
      change
        (λ b. record b {
          priority = (s2.tcb blocked).priority;
          inheritance_depth = add32 b.inheritance_depth 1;
        })
        blocker s2 in
    let s4 = change (λ b. record b { blocked_by = some blocker }) blocked s3 in
    change (λ b. record b { blocking = some blocked }) blocker s4

-- `inherit_priority`
unfoldable pub inherit_priority : ℕ → ℕ → Scheduler → Option Scheduler
unfolding lend
inherit_priority blocker blocked s =
    if leb (s.tcb blocked).priority (s.tcb blocker).priority
    then some s
    else remove_task blocker s >>= (λ s1. add_task blocker (lend blocker blocked s1) >>= (λ s2.
      some (record s2 {
        stats = record s2.stats { priority_inversions = add32 s2.stats.priority_inversions 1 };
      })))

-- the blocking chain is cleared, at the task that `t` blocks
unfoldable pub unchain : Option ℕ → ℕ → Scheduler → Scheduler
unchain none t s = s
unchain (some b) t s =
    change (λ c. record c { blocking = none }) t (change (λ c. record c { blocked_by = none }) b s)

-- the priority and the flags that `release_inherited_priority` restores
unfoldable pub restore : ℕ → Scheduler → Scheduler
restore t s =
    let s1 = change (λ b. record b { priority = b.original_priority; inheritance_depth = 0 }) t s in
    record s1 {
      tc = record s1.tc {
        flags = assign s1.tc.flags t (clear_flag flag_inherited (s1.tc.flags t));
      };
    }

-- its writes between the removal of the task and its return
unfoldable pub give_back : ℕ → Scheduler → Scheduler
unfolding restore unchain
give_back t s = unchain ((restore t s).tcb t).blocking t (restore t s)

-- `release_inherited_priority`
unfoldable pub release_inherited_priority : ℕ → Scheduler → Option Scheduler
unfolding give_back
release_inherited_priority t s =
    if not (has_flag flag_inherited (s.tc.flags t))
    then some s
    else remove_task t s >>= (λ s1. add_task t (give_back t s1))
