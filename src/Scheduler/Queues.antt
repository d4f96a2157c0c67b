-- ===== src/Scheduler/Queues.antt =====
-- mini_rtos/src/scheduler.c: what the calls of `rb_insert`, `rb_find_task` and `rb_delete` do to a tree of
-- tasks with distinct keys.
use self_mini_os.Common.{
  ℕ, ◌+◌, ◌<◌, ◌≡◌, ◌≢◌, refl, sym, ap, ◌∙◌, inl, Bool, some, List, [], ◌∷◌, ◌++◌, ◌==◌, ==_iff,
  ◌>>=◌, arith, u32_mod, All, length, length-append,
}
use mathlib.Core.Path.{subst}
use self_mini_os.RbTree.{RbTree, inorder}
use self_mini_os.RbTree.Contents.{insert_after, length-insert_after}
use self_mini_os.RbTree.Insert.{IsValid, insert_lem}
use self_mini_os.RbTree.Query.{In, IsStrict, All-In, In-right}
use self_mini_os.RbTree.Removal.Locate.{find_place-absent, take_out_lem}
use self_mini_os.Scheduler.{tree_add, tree_remove}
use self_mini_os.Scheduler.Nodes.{
  All-of, Lacks, without, All-without, IsStrict-without, All-insert_after, IsStrict-insert_after,
  without-at,
}

-- a tree of the scheduler: each task stands under its own key, and the keys are distinct
pub record IsQueue (key : ℕ → ℕ) (tree : RbTree ℕ) : Type 0 where
  pub valid : IsValid tree
  pub small : tree.size + 1 < u32_mod
  pub strict : IsStrict (inorder tree.root)
  pub keyed : All (λ y. y.0 ≡ key y.1) (inorder tree.root)

pub tree_remove_lem :
    (key : ℕ → ℕ) (tree : RbTree ℕ) (t : ℕ)
    → IsQueue key tree
    → In (key t, t) (inorder tree.root)
    → (tree' : RbTree ℕ) × (tree_remove key tree t ≡ some tree')
      × IsQueue key tree'
      × (inorder tree'.root ≡ without (key t) (inorder tree.root))
      × (tree'.size + 1 ≡ tree.size)
unfolding tree_remove
tree_remove_lem key tree t q m =
    let (p, tree', run, run', out) =
      take_out_lem ◌==◌ t (key t) tree ==_iff q.valid (omega (arith, q.small)) q.strict m in
    let all = subst (All (λ y. y.0 ≡ key y.1)) out.was q.keyed in
    let here : out.key ≡ key t =
      All-In (λ y. y.0 ≡ key y.1) (out.key, t) (out.pre ++ (out.key, t) ∷ out.post) all
        (In-right (out.key, t) out.pre ((out.key, t) ∷ out.post) (inl refl)) in
    let same : without (key t) (inorder tree.root) ≡ out.pre ++ out.post =
      ap (λ k. without k (inorder tree.root)) (sym here)
      ∙ ap (without out.key) out.was
      ∙ without-at out.key t out.pre out.post (subst IsStrict out.was q.strict) in
    let nodes : inorder tree'.root ≡ without (key t) (inorder tree.root) = out.now ∙ sym same in
    let size : tree'.size + 1 ≡ tree.size = omega (
      arith,
      out.valid.counted,
      ap length out.now,
      q.valid.counted,
      ap length out.was,
      length-append out.pre out.post,
      length-append out.pre ((out.key, t) ∷ out.post),
    ) in
    (
      tree',
      rw (run, tree_remove) run',
      record {
        valid = out.valid;
        small = omega (arith, q.small);
        strict = subst IsStrict (sym nodes) (IsStrict-without (key t) (inorder tree.root) q.strict);
        keyed =
            subst (All (λ y. y.0 ≡ key y.1)) (sym nodes)
              (All-without (λ y. y.0 ≡ key y.1) (key t) (inorder tree.root) q.keyed);
      },
      nodes,
      size,
    )

pub tree_add_lem :
    (key : ℕ → ℕ) (tree : RbTree ℕ) (t : ℕ) (m : List Bool)
    → IsQueue key tree
    → tree.size + 2 < u32_mod
    → m ≡ []
    → Lacks (key t) (inorder tree.root)
    → (tree' : RbTree ℕ) × (tree_add key tree t m ≡ some (tree', []))
      × IsQueue key tree'
      × (inorder tree'.root ≡ insert_after (key t, t) (inorder tree.root))
      × (tree'.size ≡ tree.size + 1)
unfolding tree_add
tree_add_lem key tree t m q room enough out =
    let (tree', run, valid, nodes) = insert_lem key tree t q.valid q.small in
    let size : tree'.size ≡ tree.size + 1 = omega (
      arith,
      valid.counted,
      ap length nodes,
      length-insert_after (key t, t) (inorder tree.root),
      q.valid.counted,
    ) in
    (
      tree',
      rw (enough, run, ◌>>=◌) refl,
      record {
        valid = valid;
        small = omega arith;
        strict =
            subst IsStrict (sym nodes)
              (IsStrict-insert_after (key t) t (inorder tree.root) out q.strict);
        keyed =
            subst (All (λ y. y.0 ≡ key y.1)) (sym nodes)
              (All-insert_after (λ y. y.0 ≡ key y.1) (key t, t) (inorder tree.root) refl q.keyed);
      },
      nodes,
      size,
    )

-- a task that the tree does not hold
pub tree_remove-absent :
    (key : ℕ → ℕ) (tree : RbTree ℕ) (t : ℕ)
    → ((k : ℕ) → ¬ (In (k, t) (inorder tree.root)))
    → tree_remove key tree t ≡ some tree
unfolding tree_remove
tree_remove-absent key tree t out =
    rw (find_place-absent ◌==◌ t (key t) tree.root [] ==_iff out, tree_remove) refl

-- a change of the key of a task that the tree does not hold
pub rekey :
    (key key' : ℕ → ℕ) (t : ℕ) (tree : RbTree ℕ)
    → IsQueue key tree
    → Lacks (key t) (inorder tree.root)
    → ((u : ℕ) → u ≢ t → key' u ≡ key u)
    → IsQueue key' tree
rekey key key' t tree q out same = record {
  valid = q.valid;
  small = q.small;
  strict = q.strict;
  keyed =
      All-of (λ y. y.0 ≡ key' y.1) (inorder tree.root)
        (λ y m.
          let here = All-In (λ z. z.0 ≡ key z.1) y (inorder tree.root) q.keyed m in
          let other = All-In (λ z. z.0 ≢ key t) y (inorder tree.root) out m in
          here ∙ sym (same y.1 (λ e. other (here ∙ ap key e))));
}
