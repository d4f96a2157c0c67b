-- ===== src/Scheduler/Inherit/Restores.antt =====
-- mini_rtos/src/scheduler.c: `inherit_priority` and `release_inherited_priority` on the tree and the tables.
use self_mini_os.Common.{
  ℕ, ◌+◌, ◌*◌, ◌-◌, ◌%◌, ◌^◌, ◌<◌, ◌≡◌, ◌≢◌, refl, sym, ap, ap₂, ◌∙◌, false, Option, none, some,
  List, [], leb, ◌>>=◌, arith, u32_max,
}
use mathlib.Core.Path.{subst}
use self_mini_os.RbTree.{RbTree, inorder}
use self_mini_os.RbTree.Contents.{insert_after}
use self_mini_os.RbTree.Query.{In, All-In}
use self_mini_os.HashTable.{HashTable}
use self_mini_os.HashTable.Hashes.{ints}
use self_mini_os.Traffic.Chains.{assign_self}
use self_mini_os.Scheduler.{
  Tcb, Scheduler, priority_key, word_bytes, has_flag, set_flag, clear_flag, flag_inherited,
}
use self_mini_os.Scheduler.Nodes.{
  Lacks, without, Lacks-without, without-Lacks, without-insert_after, insert_after-without,
  In-insert_after, In-without, All-of,
}
use self_mini_os.Scheduler.Queues.{rekey}
use self_mini_os.Scheduler.Tables.{look, find_task_by_id-look}
use self_mini_os.Scheduler.Tasks.{find_task_by_id}
use self_mini_os.Scheduler.Steps.{
  IsScheduler, HasIds, key_inj, nodes, Listed, refit, remove_task-Left, add_task-Queued,
}
use self_mini_os.Scheduler.Inherit.{lend, inherit_priority, release_inherited_priority}
use self_mini_os.Scheduler.Inherit.Writes.{lent, lend-blocker, lend-key, flags_lent, flags_back}
use self_mini_os.Scheduler.Inherit.Release.{own_key, release-Released}

module _ (blocker blocked : ℕ) (s : Scheduler) where
  abbrev key : ℕ
  key = priority_key s.tcb blocker

  -- the key with the priority that is lent
  abbrev lent_key : ℕ
  lent_key = u32_max - ((s.tcb blocked).priority * 2 ^ 24 + (s.tcb blocker).id)

  module _ (v : IsScheduler s) (h : HasIds s) (m : Listed blocker s)
      (top : (s.tcb blocked).priority < 256) where
    Lacks-lent_key : Lacks lent_key (without key (nodes s))
    unfolding priority_key
    Lacks-lent_key =
        All-of (λ y. y.0 ≢ lent_key) (without key (nodes s))
          (λ y n e.
            let there = In-without y key (nodes s) n in
            let keyed =
              All-In (λ z. z.0 ≡ priority_key s.tcb z.1) y (nodes s) v.queue.keyed there in
            let (a, b) =
              All-In (λ z. ((s.tcb z.1).priority < 256) × ((s.tcb z.1).id < 2 ^ 24)) y (nodes s)
                h.bound there in
            let (c, d) =
              All-In (λ z. ((s.tcb z.1).priority < 256) × ((s.tcb z.1).id < 2 ^ 24)) (key, blocker)
                (nodes s) h.bound m in
            let same =
              h.unique y (key, blocker) there m
                (key_inj (s.tcb y.1).priority (s.tcb y.1).id (s.tcb blocked).priority
                  (s.tcb blocker).id a b top d (sym keyed ∙ e)) in
            All-In (λ z. z.0 ≢ key) y (without key (nodes s)) (Lacks-without key (nodes s)) n
              (keyed ∙ ap (priority_key s.tcb) same))

  -- the state that `inherit_priority` leaves, with the tables and the tree that it ends with
  abbrev inherited : Option HashTable → Option HashTable → RbTree ℕ → Scheduler
  inherited ids names tree =
      let s2 = lend blocker blocked (refit s ids names tree) in
      record s2 {
        mallocs = [];
        stats = record s2.stats {
          priority_inversions = (s2.stats.priority_inversions + 1) % 2 ^ 32;
        };
      }

  record Inherited (ids names : Option HashTable) (tree : RbTree ℕ) : Type 0 where
    run : inherit_priority blocker blocked s ≡ some (inherited ids names tree)
    valid : IsScheduler (inherited ids names tree)
    lends :
        (inherited ids names tree).tcb blocker
        ≡ lent (s.tc.flags blocker) (s.tcb blocked).priority blocked (s.tcb blocker)
    contents :
        nodes (inherited ids names tree) ≡ insert_after (lent_key, blocker) (without key (nodes s))
    flags :
        (inherited ids names tree).tc.flags blocker ≡ set_flag flag_inherited (s.tc.flags blocker)
    forgotten :
        look ints (inherited ids names tree).task_id_map (word_bytes (s.tcb blocker).id) ≡ none

  module _ (v : IsScheduler s) (h : HasIds s) (m : Listed blocker s)
      (top : (s.tcb blocked).priority < 256)
      (lower : (s.tcb blocker).priority < (s.tcb blocked).priority) where
    inherit_priority-Inherited :
        (ids : Option HashTable) × (names : Option HashTable) × (tree : RbTree ℕ) × Inherited ids
          names tree
    unfolding inherit_priority priority_key
    inherit_priority-Inherited =
        let (ids, names, tree, run, left) = remove_task-Left blocker s v m in
        let s1 = refit s ids names tree in
        let s2 = lend blocker blocked s1 in
        let ne : blocked ≢ blocker = λ e. omega (arith, ap (λ u. (s.tcb u).priority) e, lower) in
        let higher : leb (s.tcb blocked).priority (s.tcb blocker).priority ≡ false = ground arith in
        let lends = lend-blocker blocker blocked s1 ne in
        let key2 : priority_key s2.tcb blocker ≡ lent_key =
          ap (λ (b : Tcb). u32_max - (b.priority * 2 ^ 24 + b.id)) lends in
        let same : (u : ℕ) → u ≢ blocker → priority_key s2.tcb u ≡ priority_key s.tcb u =
          λ u d. lend-key blocker blocked u s1 d in
        let q =
          rekey (priority_key s.tcb) (priority_key s2.tcb) blocker tree left.queue
            (subst (Lacks key) (sym left.contents) (Lacks-without key (nodes s))) same in
        let (tree', run', q', contents, size) =
          add_task-Queued blocker s2 q v.policy refl (omega (arith, left.size, v.queue.small)) (
            subst (λ k. Lacks k (inorder tree.root)) (sym key2)
              (subst (Lacks lent_key) (sym left.contents) (Lacks-lent_key v h m top))) in
        (
          ids,
          names,
          tree',
          record {
            run = rw (higher, run, ◌>>=◌, run', ◌>>=◌) refl;
            valid = record {
              queue = q';
              policy = v.policy;
              ids = left.id_gone.valid;
              names = left.name_gone.valid;
              memory = refl;
            };
            lends = lends;
            contents =
                contents
                ∙ ap (λ k. insert_after (k, blocker) (inorder tree.root)) key2
                ∙ ap (insert_after (lent_key, blocker)) left.contents;
            flags = assign_self s.tc.flags blocker (set_flag flag_inherited (s.tc.flags blocker));
            forgotten = left.id_gone.gone;
          },
        )

    lent_key-eq :
        (ids names : Option HashTable) (tree : RbTree ℕ)
        → Inherited ids names tree
        → priority_key (inherited ids names tree).tcb blocker ≡ lent_key
    unfolding priority_key
    lent_key-eq ids names tree h' =
        ap (λ (b : Tcb). u32_max - (b.priority * 2 ^ 24 + b.id)) h'.lends

    -- `inherit_priority`, of a ready blocker of a lower priority, under `SCHED_PRIORITY` and with enough
    -- memory: the blocker gets the priority of the blocked task, and its node moves to the place of its new
    -- key, all others staying where they are. But `find_task_by_id` no longer finds it.
    pub inherit_priority_lem :
        (s' : Scheduler) × (inherit_priority blocker blocked s ≡ some s')
        × IsScheduler s'
        × ((s'.tcb blocker).priority ≡ (s.tcb blocked).priority)
        × (nodes s'
            ≡ insert_after
                (priority_key s'.tcb blocker, blocker)
                (without (priority_key s.tcb blocker) (nodes s)))
        × (find_task_by_id (s.tcb blocker).id s' ≡ some none)
    inherit_priority_lem =
        let (ids, names, tree, g) = inherit_priority-Inherited in
        (
          inherited ids names tree,
          g.run,
          g.valid,
          ap (λ (b : Tcb). b.priority) g.lends,
          g.contents
              ∙ ap (λ k. insert_after (k, blocker) (without key (nodes s)))
                  (sym (lent_key-eq ids names tree g)),
          find_task_by_id-look (s.tcb blocker).id (inherited ids names tree) g.valid.ids
              ∙ ap some g.forgotten,
        )

    -- With the mark of inheritance not yet set, `release_inherited_priority` after `inherit_priority` gives the
    -- blocker its priority and its flags back, and the tree holds the nodes that it held at the start, in
    -- the same order. But `find_task_by_id` does not find the blocker any more.
    pub release-inherit_priority :
        has_flag flag_inherited (s.tc.flags blocker) ≡ false
        → (s' : Scheduler) × (s'' : Scheduler) × (inherit_priority blocker blocked s ≡ some s')
          × (release_inherited_priority blocker s' ≡ some s'')
          × IsScheduler s''
          × ((s''.tcb blocker).priority ≡ (s.tcb blocker).priority)
          × (s''.tc.flags blocker ≡ s.tc.flags blocker)
          × (nodes s'' ≡ nodes s)
          × (find_task_by_id (s.tcb blocker).id s'' ≡ some none)
    unfolding priority_key
    release-inherit_priority unmarked =
        let (ids, names, tree, g) = inherit_priority-Inherited in
        let s' : Scheduler = inherited ids names tree in
        let ne : blocked ≢ blocker = λ e. omega (arith, ap (λ u. (s.tcb u).priority) e, lower) in
        let lk : priority_key s'.tcb blocker ≡ lent_key = lent_key-eq ids names tree g in
        let id : (s'.tcb blocker).id ≡ (s.tcb blocker).id = ap (λ (b : Tcb). b.id) g.lends in
        let original : (s'.tcb blocker).original_priority ≡ (s.tcb blocker).priority =
          ap (λ (b : Tcb). b.original_priority) g.lends ∙ rw unmarked refl in
        let old : own_key s' blocker ≡ key =
          ap₂ (λ (p i : ℕ). u32_max - (p * 2 ^ 24 + i)) original id in
        let listed : Listed blocker s' =
          subst (In (priority_key s'.tcb blocker, blocker)) (sym g.contents) (
            subst (λ k. In (k, blocker) (insert_after (lent_key, blocker) (without key (nodes s))))
              (sym lk) (In-insert_after (lent_key, blocker) (without key (nodes s)))) in
        let rest : without (priority_key s'.tcb blocker) (nodes s') ≡ without key (nodes s) =
          ap (λ k. without k (nodes s')) lk
          ∙ ap (without lent_key) g.contents
          ∙ without-insert_after lent_key blocker (without key (nodes s))
          ∙ without-Lacks lent_key (without key (nodes s)) (Lacks-lent_key v h m top) in
        let (s'', out) =
          release-Released blocker blocked s' g.valid listed
            (ap (has_flag flag_inherited) g.flags ∙ flags_lent (s.tc.flags blocker))
            (ap (λ (b : Tcb). b.blocking) g.lends) ne
            (subst (λ k. Lacks k (without (priority_key s'.tcb blocker) (nodes s'))) (sym old)
              (subst (Lacks key) (sym rest) (Lacks-without key (nodes s)))) in
        (
          s',
          s'',
          g.run,
          out.run,
          out.valid,
          out.priority ∙ original,
          out.flags
              ∙ ap (clear_flag flag_inherited) g.flags
              ∙ flags_back (s.tc.flags blocker) unmarked,
          out.contents
              ∙ ap₂ (λ (k : ℕ) (xs : List (ℕ × ℕ)). insert_after (k, blocker) xs) old rest
              ∙ insert_after-without key blocker (nodes s) v.queue.strict m,
          find_task_by_id-look (s.tcb blocker).id s'' out.valid.ids
              ∙ ap some
                  (ap (λ i. look ints s''.task_id_map (word_bytes i)) (sym id) ∙ out.forgotten),
        )
