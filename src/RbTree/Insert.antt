-- ===== src/RbTree/Insert.antt =====
-- mini_rtos/src/rbtree.c: `rb_insert` and `rb_insert_fixup` keep the red-black rules and add one node.
use self_mini_os.Common.{
  ℕ, ◌+◌, ◌<◌, ◌≡◌, refl, sym, ap, ◌∙◌, ◌⊎◌, true, inl, inr, ltb, List, [], ◌∷◌, append-nil,
  append_assoc, arith, Bool-cases, some, add32, u32_mod, length,
}
use mathlib.Core.Path.{subst}
use self_mini_os.RbTree.{
  Color, black, red, Tree, nil, node, Frame, left_of, right_of, color, frame_color, paint, close,
  zip_up, inorder, descend, fixup, rotate_left_side, rotate_right_side, insert, RbTree,
}
use self_mini_os.RbTree.Shape.{
  weight, black_height, IsRb, Calm, CalmFrame, sibling, top_color, IsPath, Fits, zip_up-IsRb,
  IsRb-paint,
}
use self_mini_os.RbTree.Contents.{
  before, after, around, around-close, inorder-zip_up, inorder-paint, IsSorted, descend-SplitsAt,
  insert_after, insert_after-append, insert_after-IsSorted, length-insert_after,
}

Color-cases : (c : Color) → (c ≡ black) ⊎ (c ≡ red)
Color-cases black = inl refl
Color-cases red = inr refl

module _ {T : Type 0} where
  -- a red node that is painted black gains one black node on every way down
  paint_red :
      (x : Tree T)
      → IsRb x
      → color x ≡ red
      → IsRb (paint black x) × (black_height (paint black x) ≡ black_height x + 1)
  paint_red nil v e = cc
  paint_red (node black l k t r) v e = cc
  paint_red (node red l k t r) v e = ((v.0, v.1, v.2, tt), omega arith)

  -- the same of a red parent over a child `z` of any colour
  paint_parent :
      (f : Frame T) (z : Tree T)
      → IsRb z
      → IsRb (sibling f)
      → black_height (sibling f) ≡ black_height z
      → IsRb (paint black (close f z))
        × (black_height (paint black (close f z)) ≡ black_height z + 1)
  paint_parent (left_of c k t r) z v s e = ((v, s, sym e, tt), refl)
  paint_parent (right_of c l k t) z v s e = ((s, v, e, tt), omega arith)

  -- the end of the loop: `t` holds the nodes around the hole and obeys the rules below its root
  record Fixed (path : List (Frame T)) (z : Tree T) (t : Tree T) : Type 0 where
    shape : IsRb t
    nodes : inorder t ≡ around path (inorder z)

  -- what a rotation at a black uncle makes of `old`, the subtree at the grandparent over `z`
  record Turned (old : Tree T) (z : Tree T) (g : Tree T) : Type 0 where
    shape : IsRb g
    top : color g ≡ black
    tall : black_height g ≡ black_height z + 1
    nodes : inorder g ≡ inorder old

  rotate_left_side-Turned :
      (a b : Tree T) (k : ℕ) (t : T) (f : Frame T) (c : Color) (kg : ℕ) (tg : T) (u : Tree T)
      → let z : Tree T = node red a k t b in
        IsRb z
        → IsRb (sibling f)
        → black_height (sibling f) ≡ black_height z
        → color (sibling f) ≡ black
        → frame_color f ≡ red
        → IsRb u
        → black_height u ≡ black_height z
        → color u ≡ black
        → (g : Tree T) × (rotate_left_side z f kg tg u ≡ some g)
          × Turned (close (left_of c kg tg u) (close f z)) z g
  unfolding rotate_left_side
  rotate_left_side-Turned a b k t (left_of black kf tf s) c kg tg u v p q r e w x y = cc
  rotate_left_side-Turned a b k t (left_of red kf tf s) c kg tg u v p q r e w x y = (
    node black (node red a k t b) kf tf (node red s kg tg u),
    refl,
    record {
      shape = (v, (p, w, omega arith, (r, y)), omega arith, tt);
      top = refl;
      tall = omega arith;
      nodes = simp append_assoc;
    },
  )
  rotate_left_side-Turned a b k t (right_of black s kf tf) c kg tg u v p q r e w x y = cc
  rotate_left_side-Turned a b k t (right_of red s kf tf) c kg tg u v p q r e w x y = (
    node black (node red s kf tf a) k t (node red b kg tg u),
    refl,
    record {
      shape =
          ((p, v.0, omega arith, (r, v.3.0)), (v.1, w, omega arith, (v.3.1, y)), omega arith, tt);
      top = refl;
      tall = omega arith;
      nodes = simp append_assoc;
    },
  )

  rotate_right_side-Turned :
      (a b : Tree T) (k : ℕ) (t : T) (f : Frame T) (c : Color) (u : Tree T) (kg : ℕ) (tg : T)
      → let z : Tree T = node red a k t b in
        IsRb z
        → IsRb (sibling f)
        → black_height (sibling f) ≡ black_height z
        → color (sibling f) ≡ black
        → frame_color f ≡ red
        → IsRb u
        → black_height u ≡ black_height z
        → color u ≡ black
        → (g : Tree T) × (rotate_right_side z f u kg tg ≡ some g)
          × Turned (close (right_of c u kg tg) (close f z)) z g
  unfolding rotate_right_side
  rotate_right_side-Turned a b k t (right_of black s kf tf) c u kg tg v p q r e w x y = cc
  rotate_right_side-Turned a b k t (right_of red s kf tf) c u kg tg v p q r e w x y = (
    node black (node red u kg tg s) kf tf (node red a k t b),
    refl,
    record {
      shape = ((w, p, omega arith, (y, r)), v, omega arith, tt);
      top = refl;
      tall = omega arith;
      nodes = simp append_assoc;
    },
  )
  rotate_right_side-Turned a b k t (left_of black kf tf s) c u kg tg v p q r e w x y = cc
  rotate_right_side-Turned a b k t (left_of red kf tf s) c u kg tg v p q r e w x y = (
    node black (node red u kg tg a) k t (node red b kf tf s),
    refl,
    record {
      shape =
          ((w, v.0, omega arith, (y, v.3.0)), (v.1, p, omega arith, (v.3.1, r)), omega arith, tt);
      top = refl;
      tall = omega arith;
      nodes = simp append_assoc;
    },
  )

  color-paint : (x : Tree T) → color (paint black x) ≡ black
  color-paint nil = refl
  color-paint (node c l k t r) = refl

  around_two :
      (f g : Frame T) (path : List (Frame T)) (x y : Tree T)
      → inorder y ≡ inorder (close g (close f x))
      → around path (inorder y) ≡ around (f ∷ g ∷ path) (inorder x)
  around_two f g path x y e =
      ap (around path) e ∙ sym (around-close g path (close f x)) ∙ sym (around-close f (g ∷ path) x)

  -- the loop stops at a black parent
  stop-Fixed :
      (f : Frame T) (path : List (Frame T)) (z : Tree T)
      → IsRb z
      → IsPath (f ∷ path) (black_height z)
      → frame_color f ≡ black
      → Fixed (f ∷ path) z (zip_up z (f ∷ path))
  stop-Fixed f path z v p e = record {
    shape = zip_up-IsRb (f ∷ path) z v p (inr e);
    nodes = inorder-zip_up (f ∷ path) z;
  }

  -- the loop stops after a rotation
  turn-Fixed :
      (f g : Frame T) (path : List (Frame T)) (z x : Tree T)
      → Turned (close g (close f z)) z x
      → IsPath path (black_height z + 1)
      → Fixed (f ∷ g ∷ path) z (zip_up x path)
  turn-Fixed f g path z x h p = record {
    shape = zip_up-IsRb path x h.shape (subst (IsPath path) (sym h.tall) p) (inl h.top);
    nodes = inorder-zip_up path x ∙ around_two f g path z x h.nodes;
  }

  -- a red parent has a black sibling of `z` below it and a black grandparent above it
  under_red :
      (f g : Frame T) (path : List (Frame T)) (h : ℕ)
      → IsPath (f ∷ g ∷ path) h
      → frame_color f ≡ red
      → (color (sibling f) ≡ black)
        × (frame_color g ≡ black)
        × (black_height (sibling g) ≡ h)
        × IsPath path (h + 1)
  under_red f g path h p e =
      let calm = subst (λ c. CalmFrame c (sibling f) (g ∷ path)) e p.2 in
      let light : weight (frame_color f) ≡ 0 = ap weight e in
      let heavy : weight (frame_color g) ≡ 1 = ap weight calm.1 in
      (calm.0, calm.1, omega arith, subst (IsPath path) (omega arith) p.3.3)

  fixup-Fixed :
      (path : List (Frame T)) (a b : Tree T) (k : ℕ) (t : T)
      → let z : Tree T = node red a k t b in
        IsRb z
        → IsPath path (black_height z)
        → (x : Tree T) × (fixup z path ≡ some x) × Fixed path z x
  unfolding fixup
  fixup-Fixed [] a b k t v p =
      (node red a k t b, refl, record { shape = v; nodes = sym (append-nil _) })
  fixup-Fixed (f ∷ []) a b k t v p = elim (Color-cases (frame_color f)) [
    | inl e ↦ (close f (node red a k t b), rw e, stop-Fixed f [] (node red a k t b) v p e)
    | inr e ↦ cc (subst (λ c. CalmFrame c (sibling f) []) e p.2).1
  ]
  fixup-Fixed (f ∷ left_of c kg tg u ∷ path) a b k t v p =
      let z : Tree T = node red a k t b in
      let g : Frame T = left_of c kg tg u in
      elim (Color-cases (frame_color f)) [
        | inl e ↦ (zip_up z (f ∷ g ∷ path), rw e, stop-Fixed f (g ∷ path) z v p e)
        | inr e ↦
            let (calm, dark, level, above) = under_red f g path (black_height z) p e in
            elim (Color-cases (color u)) [
              | inl eu ↦
                  let (x, run, h) =
                    rotate_left_side-Turned a b k t f c kg tg u v p.0 p.1 calm e p.3.0 level eu in
                  (zip_up x path, rw (e, eu, run), turn-Fixed f g path z x h above)
              | inr eu ↦
                  let (pv, ph) = paint_parent f z v p.0 p.1 in
                  let (uv, uh) = paint_red u p.3.0 eu in
                  let (x, run, h) =
                    fixup-Fixed path (paint black (close f z)) (paint black u) kg tg
                      (pv, uv, omega arith, (color-paint (close f z), color-paint u))
                      (subst (IsPath path) (omega arith) above) in
                  (
                    x,
                    rw (e, eu, run),
                    record {
                      shape = h.shape;
                      nodes =
                          h.nodes
                          ∙ around_two f g path z
                              (node red (paint black (close f z)) kg tg (paint black u))
                              (simp inorder-paint);
                    },
                  )
            ]
      ]
  fixup-Fixed (f ∷ right_of c u kg tg ∷ path) a b k t v p =
      let z : Tree T = node red a k t b in
      let g : Frame T = right_of c u kg tg in
      elim (Color-cases (frame_color f)) [
        | inl e ↦ (zip_up z (f ∷ g ∷ path), rw e, stop-Fixed f (g ∷ path) z v p e)
        | inr e ↦
            let (calm, dark, level, above) = under_red f g path (black_height z) p e in
            elim (Color-cases (color u)) [
              | inl eu ↦
                  let (x, run, h) =
                    rotate_right_side-Turned a b k t f c u kg tg v p.0 p.1 calm e p.3.0 level eu in
                  (zip_up x path, rw (e, eu, run), turn-Fixed f g path z x h above)
              | inr eu ↦
                  let (pv, ph) = paint_parent f z v p.0 p.1 in
                  let (uv, uh) = paint_red u p.3.0 eu in
                  let (x, run, h) =
                    fixup-Fixed path (paint black u) (paint black (close f z)) kg tg
                      (uv, pv, omega arith, (color-paint u, color-paint (close f z)))
                      (subst (IsPath path) (omega arith) above) in
                  (
                    x,
                    rw (e, eu, run),
                    record {
                      shape = h.shape;
                      nodes =
                          h.nodes
                          ∙ around_two f g path z
                              (node red (paint black u) kg tg (paint black (close f z)))
                              (simp inorder-paint);
                    },
                  )
            ]
      ]

  pub calm_frame :
      (c : Color) (l r : Tree T) (path : List (Frame T))
      → Calm c l r
      → Fits c path
      → CalmFrame c l path × CalmFrame c r path
  calm_frame black l r path calm f = (tt, tt)
  calm_frame red l r path calm f =
      let top : top_color path ≡ black = ground arith in ((calm.0, top), (calm.1, top))

  pub fits_child :
      (c : Color) (l r : Tree T) (path : List (Frame T))
      → Calm c l r
      → ((color l ≡ black) ⊎ (c ≡ black)) × ((color r ≡ black) ⊎ (c ≡ black))
  fits_child black l r path calm = (inr refl, inr refl)
  fits_child red l r path calm = (inl calm.0, inl calm.1)

  -- the frames of a descent accept a subtree of black height 0
  descend-IsPath :
      (key : ℕ) (x : Tree T) (path : List (Frame T))
      → IsRb x
      → IsPath path (black_height x)
      → Fits (color x) path
      → IsPath (descend key x path) 0
  unfolding descend
  descend-IsPath key nil path v p f = p
  descend-IsPath key (node c l k t r) path v p f =
      let calm = calm_frame c l r path v.3 f in
      elim (Bool-cases (ltb key k)) [
        | inl e ↦
            rw (e, descend)
              (descend-IsPath key l (left_of c k t r ∷ path) v.0 (v.1, sym v.2, calm.1, p)
                (fits_child c l r path v.3).0)
        | inr e ↦
            rw (e, descend)
              (descend-IsPath key r (right_of c l k t ∷ path) v.1
                (v.0, v.2, calm.0, subst (λ h. IsPath path (h + weight c)) v.2 p)
                (fits_child c l r path v.3).1)
      ]

  -- what a tree of the scheduler satisfies: the red-black rules, a black root, keys in order
  pub record IsValid (tree : RbTree T) : Type 0 where
    pub shape : IsRb tree.root
    pub root_black : color tree.root ≡ black
    pub sorted : IsSorted (inorder tree.root)
    pub counted : tree.size ≡ length (inorder tree.root)

  -- `rb_insert` on a valid tree never reads through the sentinel's null child, and leaves a valid
  -- tree: red-black, sorted, with the right size, and with the one new node put behind all the nodes
  -- of its own key or a smaller one; all the others are as they were.
  pub insert_lem :
      (get_key : T → ℕ) (tree : RbTree T) (task : T)
      → IsValid tree
      → tree.size + 1 < u32_mod
      → (tree' : RbTree T) × (insert get_key tree task true ≡ some tree')
        × IsValid tree'
        × (inorder tree'.root ≡ insert_after (get_key task, task) (inorder tree.root))
  unfolding insert
  insert_lem get_key tree task v small =
      let key = get_key task in
      let path = descend key tree.root [] in
      let split = descend-SplitsAt key tree.root [] v.sorted tt tt in
      let room = descend-IsPath key tree.root [] v.shape tt (inl v.root_black) in
      let (x, run, h) = fixup-Fixed path nil nil key task (tt, tt, refl, (refl, refl)) room in
      let nodes : inorder (paint black x) ≡ insert_after (key, task) (inorder tree.root) =
        inorder-paint x black
        ∙ h.nodes
        ∙ sym (insert_after-append (key, task) (before path) (after path) split.low split.high)
        ∙ ap (insert_after (key, task)) (split.nodes ∙ append-nil (inorder tree.root)) in
      (
        record { root = paint black x; size = add32 tree.size 1 },
        rw run,
        record {
          shape = IsRb-paint x h.shape;
          root_black = color-paint x;
          sorted = rw nodes (insert_after-IsSorted (key, task) (inorder tree.root) v.sorted);
          counted =
              rw nodes
                (omega (arith, v.counted, length-insert_after (key, task) (inorder tree.root)));
        },
        nodes,
      )
