-- ===== src/RbTree/Removal/Fixup.antt =====
-- mini_rtos/src/rbtree.c: `rb_delete_fixup` makes up for a black node that is missing above `x`.
use self_mini_os.Common.{
  ◌>>=◌, ℕ, ◌+◌, ◌≡◌, refl, sym, ap, ◌∙◌, ◌⊎◌, inl, inr, true, false, not, ◌&&◌, List, [], ◌∷◌,
  append_assoc, arith, some,
}
use mathlib.Core.Path.{subst}
use self_mini_os.RbTree.{
  Color, black, red, Tree, nil, node, Frame, left_of, right_of, is_red, color, frame_color, paint,
  close, zip_up, inorder,
}
use self_mini_os.RbTree.Shape.{
  weight, black_height, IsRb, CalmFrame, IsPath, Fits, zip_up-IsRb, IsRb-paint,
}
use self_mini_os.RbTree.Contents.{around, around-close, inorder-zip_up, inorder-paint}
use self_mini_os.RbTree.Removal.{children_black, delete_fixup}
use self_mini_os.RbTree.Removal.Settle.{settle_left-Settled, settle_right-Settled}

both_black :
    (a b : Color)
    → (((not (is_red a) && not (is_red b)) ≡ true) × (a ≡ black) × (b ≡ black))
      ⊎ ((not (is_red a) && not (is_red b)) ≡ false)
both_black black black = inl (refl, refl, refl)
both_black red b = inr refl
both_black black red = inr refl

module _ {T : Type 0} where
  -- the colour of the root above a hole of the colour `c`
  abbrev pub root_color : Color → List (Frame T) → Color
  root_color c [] = c
  root_color c (f ∷ path) = root_color (frame_color f) path

  pub color-zip_up :
      (path : List (Frame T)) (x : Tree T) → color (zip_up x path) ≡ root_color (color x) path
  color-zip_up [] x = refl
  color-zip_up (left_of c k t r ∷ path) x = color-zip_up path (node c x k t r)
  color-zip_up (right_of c l k t ∷ path) x = color-zip_up path (node c l k t x)

  pub color-paint : (x : Tree T) → color (paint black x) ≡ black
  color-paint nil = refl
  color-paint (node c l k t r) = refl

  pub paint_black : (x : Tree T) → color x ≡ black → paint black x ≡ x
  paint_black nil e = refl
  paint_black (node black l k t r) e = refl
  paint_black (node red l k t r) e = cc

  height-paint : (x : Tree T) → color x ≡ red → black_height (paint black x) ≡ black_height x + 1
  height-paint nil e = cc
  height-paint (node black l k t r) e = cc
  height-paint (node red l k t r) e = omega arith

  -- the tree after the repair
  pub record Mended (path : List (Frame T)) (x : Tree T) (t : Tree T) : Type 0 where
    pub shape : IsRb t
    pub top : color t ≡ black
    pub nodes : inorder t ≡ around path (inorder x)

  -- the loop ends at a red `x`
  pub red-Mended :
      (x : Tree T) (path : List (Frame T))
      → IsRb (paint black x)
      → color x ≡ red
      → IsPath path (black_height x + 1)
      → root_color black path ≡ black
      → Mended path x (zip_up (paint black x) path)
  red-Mended x path v e p top = record {
    shape =
        zip_up-IsRb path (paint black x) v (subst (IsPath path) (sym (height-paint x e)) p)
          (inl (color-paint x));
    top = color-zip_up path (paint black x) ∙ ap (λ c. root_color c path) (color-paint x) ∙ top;
    nodes = inorder-zip_up path (paint black x) ∙ ap (around path) (inorder-paint x black);
  }

  -- the loop ends with a subtree of the right height, and the root is painted black
  pub root-Mended :
      (g : Tree T) (path : List (Frame T))
      → IsRb g
      → IsPath path (black_height g)
      → Fits (color g) path
      → Mended path g (paint black (zip_up g path))
  root-Mended g path v p f = record {
    shape = IsRb-paint (zip_up g path) (zip_up-IsRb path g v p f);
    top = color-paint (zip_up g path);
    nodes = inorder-paint (zip_up g path) black ∙ inorder-zip_up path g;
  }

  -- the same nodes, seen from one frame further down
  pub Mended-close :
      (f : Frame T) (path : List (Frame T)) (x y : Tree T) (t : Tree T)
      → inorder y ≡ inorder (close f x)
      → Mended path y t
      → Mended (f ∷ path) x t
  Mended-close f path x y t e h = record {
    shape = h.shape;
    top = h.top;
    nodes = h.nodes ∙ ap (around path) e ∙ sym (around-close f path x);
  }

  pub CalmFrame-Fits :
      (c : Color) (s : Tree T) (path : List (Frame T)) → CalmFrame c s path → Fits c path
  CalmFrame-Fits black s path h = inl refl
  CalmFrame-Fits red s path h = inr h.1

  red_sibling :
      (c : Color) (s : Tree T) (path : List (Frame T))
      → CalmFrame c s path
      → color s ≡ red
      → c ≡ black
  red_sibling black s path h e = refl
  red_sibling red s path h e = cc (h.0, e)

  pub children-cases :
      (c : Color) (l : Tree T) (k : ℕ) (t : T) (r : Tree T)
      → ((children_black (node c l k t r) ≡ some true) × (color l ≡ black) × (color r ≡ black))
        ⊎ (children_black (node c l k t r) ≡ some false)
  unfolding children_black
  children-cases c l k t r = elim (both_black (color l) (color r)) [
    | inl (e, p, q) ↦ inl (ap some e, p, q)
    | inr e ↦ inr (ap some e)
  ]

  pub root_color-black :
      (c : Color) (path : List (Frame T))
      → root_color c path ≡ black
      → root_color black path ≡ black
  root_color-black c [] e = refl
  root_color-black c (f ∷ path) e = e

  -- the same nodes, seen from a frame further up
  Mended-open :
      (f : Frame T) (path : List (Frame T)) (x : Tree T) (t : Tree T)
      → Mended (f ∷ path) x t
      → Mended path (close f x) t
  Mended-open f path x t h = record {
    shape = h.shape;
    top = h.top;
    nodes = h.nodes ∙ around-close f path x;
  }

  abbrev pub Mends : List (Frame T) → Tree T → Type 0
  Mends path x = (t : Tree T) × (delete_fixup x path ≡ some t) × Mended path x t

  -- at a black `x` whose right sibling, and whose left sibling, is red
  pub red_right-Mends :
      (x : Tree T) (c : Color) (k : ℕ) (t : T) (l : Tree T) (k' : ℕ) (t' : T) (r : Tree T)
      (path : List (Frame T))
      → IsRb x
      → color x ≡ black
      → IsPath (left_of c k t (node red l k' t' r) ∷ path) (black_height x + 1)
      → root_color black (left_of c k t (node red l k' t' r) ∷ path) ≡ black
      → Mends (left_of c k t (node red l k' t' r) ∷ path) x
  unfolding delete_fixup
  red_right-Mends x c k t nil k' t' r path v e p top = absurd (omega (arith, p.1))
  red_right-Mends x c k t (node cl a kl tl b) k' t' r path v e p top =
      let l = node cl a kl tl b in
      let f : Frame T = left_of c k t (node red l k' t' r) in
      let g : Frame T = left_of black k' t' r in
      let dark = red_sibling c (node red l k' t' r) path p.2 refl in
      let heavy : weight c ≡ 1 = ap weight dark in
      let above : IsPath (g ∷ path) (black_height x + 1) =
        (p.0.1, omega (arith, p.0.2, p.1), tt, subst (IsPath path) (omega arith) p.3) in
      let top' : root_color black (g ∷ path) ≡ black = root_color-black c path top in
      elim (children-cases cl a kl tl b) [
        | inl (all, ca, cb) ↦
            let wl : weight cl ≡ 1 = ap weight p.0.3.0 in
            let y = node red x k t (paint red l) in
            let h =
              red-Mended y (g ∷ path)
                (v, (p.0.0.0, p.0.0.1, p.0.0.2, (ca, cb)), omega (arith, wl, p.1), tt) refl
                (subst (IsPath (g ∷ path)) (omega arith) above) top' in
            (
              zip_up (paint black y) (g ∷ path),
              rw (e, all, ◌>>=◌),
              Mended-close f path x (close g y) _ (simp append_assoc) (Mended-open g path y _ h),
            )
        | inr some_red ↦
            let (y, run, s) =
              settle_left-Settled x red k t l v e p.0.0 p.0.3.0 (omega (arith, p.1)) some_red in
            let h =
              root-Mended y (g ∷ path) s.shape
                (subst (IsPath (g ∷ path)) (omega (arith, s.tall)) above) (inr refl) in
            (
              paint black (zip_up y (g ∷ path)),
              rw (e, some_red, ◌>>=◌, run),
              Mended-close f path x (close g y) _ (rw s.same (simp append_assoc))
                  (Mended-open g path y _ h),
            )
      ]

  pub red_left-Mends :
      (x : Tree T) (c : Color) (l : Tree T) (k' : ℕ) (t' : T) (r : Tree T) (k : ℕ) (t : T)
      (path : List (Frame T))
      → IsRb x
      → color x ≡ black
      → IsPath (right_of c (node red l k' t' r) k t ∷ path) (black_height x + 1)
      → root_color black (right_of c (node red l k' t' r) k t ∷ path) ≡ black
      → Mends (right_of c (node red l k' t' r) k t ∷ path) x
  unfolding delete_fixup
  red_left-Mends x c l k' t' nil k t path v e p top = absurd (omega (arith, p.1, p.0.2))
  red_left-Mends x c l k' t' (node cr a kr tr b) k t path v e p top =
      let r = node cr a kr tr b in
      let f : Frame T = right_of c (node red l k' t' r) k t in
      let g : Frame T = right_of black l k' t' in
      let dark = red_sibling c (node red l k' t' r) path p.2 refl in
      let heavy : weight c ≡ 1 = ap weight dark in
      let above : IsPath (g ∷ path) (black_height x + 1) =
        (p.0.0, omega (arith, p.1), tt, subst (IsPath path) (omega arith) p.3) in
      let top' : root_color black (g ∷ path) ≡ black = root_color-black c path top in
      elim (children-cases cr a kr tr b) [
        | inl (all, ca, cb) ↦
            let wr : weight cr ≡ 1 = ap weight p.0.3.1 in
            let y = node red (paint red r) k t x in
            let level : black_height (paint red r) ≡ black_height x =
              omega (arith, wr, p.1, p.0.2) in
            let h =
              red-Mended y (g ∷ path) ((p.0.1.0, p.0.1.1, p.0.1.2, (ca, cb)), v, level, tt) refl
                (subst (IsPath (g ∷ path)) (omega (arith, level)) above) top' in
            (
              zip_up (paint black y) (g ∷ path),
              rw (e, all, ◌>>=◌),
              Mended-close f path x (close g y) _ (simp append_assoc) (Mended-open g path y _ h),
            )
        | inr some_red ↦
            let (y, run, s) =
              settle_right-Settled x red k t r v e p.0.1 p.0.3.1 (omega (arith, p.1, p.0.2))
                some_red in
            let h =
              root-Mended y (g ∷ path) s.shape
                (subst (IsPath (g ∷ path)) (omega (arith, s.tall)) above) (inr refl) in
            (
              paint black (zip_up y (g ∷ path)),
              rw (e, some_red, ◌>>=◌, run),
              Mended-close f path x (close g y) _ (rw s.same (simp append_assoc))
                  (Mended-open g path y _ h),
            )
      ]
