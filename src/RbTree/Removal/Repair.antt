-- ===== src/RbTree/Removal/Repair.antt =====
-- mini_rtos/src/rbtree.c: the whole loop of `rb_delete_fixup`.
use self_mini_os.Common.{
  ◌>>=◌, ℕ, ◌+◌, ◌≡◌, refl, sym, ◌∙◌, ◌⊎◌, inl, inr, List, [], ◌∷◌, append-nil, arith,
}
use mathlib.Core.Path.{subst}
use self_mini_os.RbTree.{
  Color, black, red, Tree, nil, node, Frame, left_of, right_of, color, paint, close, zip_up,
  inorder,
}
use self_mini_os.RbTree.Shape.{weight, black_height, IsRb, IsPath, CalmFrame, Fits}
use self_mini_os.RbTree.Contents.{inorder-paint}
use self_mini_os.RbTree.Removal.{delete_fixup}
use self_mini_os.RbTree.Removal.Settle.{Settled, settle_left-Settled, settle_right-Settled}
use self_mini_os.RbTree.Removal.Fixup.{
  root_color, root_color-black, color-paint, paint_black, Mended, red-Mended, root-Mended,
  Mended-close, CalmFrame-Fits, children-cases, Mends, red_right-Mends, red_left-Mends,
}

Color-cases : (c : Color) → (c ≡ black) ⊎ (c ≡ red)
Color-cases black = inl refl
Color-cases red = inr refl

module _ {T : Type 0} where
  Settled-Mended :
      (f : Frame T) (path : List (Frame T)) (x g : Tree T) (c : Color) (s : Tree T)
      (nodes : List (ℕ × T))
      → Settled x c nodes g
      → IsPath path (black_height x + 1 + weight c)
      → CalmFrame c s path
      → nodes ≡ inorder (close f x)
      → Mended (f ∷ path) x (paint black (zip_up g path))
  Settled-Mended f path x g c s nodes h p calm same = Mended-close f path x g _ (h.same ∙ same) (
      root-Mended g path h.shape (subst (IsPath path) (sym h.tall) p)
        (subst (λ y. Fits y path) (sym h.top) (CalmFrame-Fits c s path calm)))

  -- `rb_delete_fixup` never reads through the sentinel's null child where the rules hold but for one
  -- black node that is missing above `x`, and then they hold, with the nodes as they were.
  pub delete_fixup-Mends :
      (path : List (Frame T)) (x : Tree T)
      → IsRb (paint black x)
      → IsPath path (black_height x + 1)
      → root_color black path ≡ black
      → Mends path x
  unfolding delete_fixup
  delete_fixup-Mends [] x v p top = (
    paint black x,
    refl,
    record { shape = v; top = color-paint x; nodes = inorder-paint x black ∙ sym (append-nil _) },
  )
  delete_fixup-Mends (left_of c k t nil ∷ path) x v p top = absurd (omega (arith, p.1))
  delete_fixup-Mends (left_of c k t (node red l k' t' r) ∷ path) x v p top =
      let w = left_of c k t (node red l k' t' r) ∷ path in
      elim (Color-cases (color x)) [
        | inr e ↦ (zip_up (paint black x) w, rw e, red-Mended x w v e p top)
        | inl e ↦ red_right-Mends x c k t l k' t' r path (subst IsRb (paint_black x e) v) e p top
      ]
  delete_fixup-Mends (left_of c k t (node black l k' t' r) ∷ path) x v p top =
      let w : Tree T = node black l k' t' r in
      let f : Frame T = left_of c k t w in
      elim (Color-cases (color x)) [
        | inr e ↦ (zip_up (paint black x) (f ∷ path), rw e, red-Mended x (f ∷ path) v e p top)
        | inl e ↦
            let vx = subst IsRb (paint_black x e) v in
            elim (children-cases black l k' t' r) [
              | inl (all, cl, cr) ↦
                  let y = node c x k t (node red l k' t' r) in
                  let (z, run, h) =
                    delete_fixup-Mends path y
                      (vx, (p.0.0, p.0.1, p.0.2, (cl, cr)), omega (arith, p.1), tt)
                      (subst (IsPath path) (omega arith) p.3) (root_color-black c path top) in
                  (z, rw (e, all, ◌>>=◌) run, Mended-close f path x y z refl h)
              | inr some_red ↦
                  let (g, run, s) = settle_left-Settled x c k t w vx e p.0 refl p.1 some_red in
                  (
                    paint black (zip_up g path),
                    rw (e, some_red, ◌>>=◌, run),
                    Settled-Mended f path x g c w _ s p.3 p.2 refl,
                  )
            ]
      ]
  delete_fixup-Mends (right_of c nil k t ∷ path) x v p top = absurd (omega (arith, p.1))
  delete_fixup-Mends (right_of c (node red l k' t' r) k t ∷ path) x v p top =
      let w = right_of c (node red l k' t' r) k t ∷ path in
      elim (Color-cases (color x)) [
        | inr e ↦ (zip_up (paint black x) w, rw e, red-Mended x w v e p top)
        | inl e ↦ red_left-Mends x c l k' t' r k t path (subst IsRb (paint_black x e) v) e p top
      ]
  delete_fixup-Mends (right_of c (node black l k' t' r) k t ∷ path) x v p top =
      let w : Tree T = node black l k' t' r in
      let f : Frame T = right_of c w k t in
      elim (Color-cases (color x)) [
        | inr e ↦ (zip_up (paint black x) (f ∷ path), rw e, red-Mended x (f ∷ path) v e p top)
        | inl e ↦
            let vx = subst IsRb (paint_black x e) v in
            elim (children-cases black l k' t' r) [
              | inl (all, cl, cr) ↦
                  let y = node c (node red l k' t' r) k t x in
                  let (z, run, h) =
                    delete_fixup-Mends path y
                      ((p.0.0, p.0.1, p.0.2, (cl, cr)), vx, omega (arith, p.1), tt)
                      (subst (IsPath path) (omega (arith, p.1)) p.3)
                      (root_color-black c path top) in
                  (z, rw (e, all, ◌>>=◌) run, Mended-close f path x y z refl h)
              | inr some_red ↦
                  let (g, run, s) = settle_right-Settled x c k t w vx e p.0 refl p.1 some_red in
                  (
                    paint black (zip_up g path),
                    rw (e, some_red, ◌>>=◌, run),
                    Settled-Mended f path x g c w _ s p.3 p.2 refl,
                  )
            ]
      ]
