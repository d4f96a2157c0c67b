-- ===== src/RbTree/Removal/Delete.antt =====
-- mini_rtos/src/rbtree.c: `rb_delete` takes one node out and keeps the rules.
use self_mini_os.Common.{
  ◌>>=◌, ℕ, ◌+◌, ◌≡◌, refl, sym, ap, ◌∙◌, inl, List, [], ◌∷◌, ◌++◌, append-nil, append_assoc, arith,
  some,
}
use mathlib.Core.Path.{subst}
use self_mini_os.RbTree.{
  Color, black, red, Tree, nil, node, Frame, left_of, right_of, color, zip_up, inorder, minimum,
}
use self_mini_os.RbTree.Shape.{
  weight, black_height, IsRb, Calm, IsPath, Fits, zip_up-IsRb, IsRb-paint,
}
use self_mini_os.RbTree.Contents.{before, after, around, inorder-zip_up}
use self_mini_os.RbTree.Insert.{calm_frame, fits_child}
use self_mini_os.RbTree.Removal.{leftmost, mend, unlink_node}
use self_mini_os.RbTree.Removal.Fixup.{root_color, color-zip_up, Mended}
use self_mini_os.RbTree.Removal.Repair.{delete_fixup-Mends}

-- the least node `y` of `zs`, put in the place of the node between `xs` and `zs`
swap_in :
    {A : Type 0} (us vs xs : List A) (y : A) (ys zs ws : List A)
    → us ≡ vs ++ (xs ++ y ∷ [])
    → y ∷ ys ≡ zs ++ ws
    → us ++ ys ≡ vs ++ ((xs ++ zs) ++ ws)
swap_in us vs xs y ys zs ws e e' =
    rw e (append_assoc vs (xs ++ y ∷ []) ys)
    ∙ ap (λ u. vs ++ u)
        (append_assoc xs (y ∷ []) ys ∙ ap (λ u. xs ++ u) e' ∙ sym (append_assoc xs zs ws))

module _ {T : Type 0} where
  root_color-red :
      (c : Color) (path : List (Frame T)) → root_color red path ≡ black → root_color c path ≡ black
  root_color-red c [] e = cc e
  root_color-red c (f ∷ path) e = e

  mend-Mended :
      (c : Color) (x : Tree T) (path : List (Frame T))
      → IsRb x
      → IsPath path (black_height x + weight c)
      → (c ≡ red → color x ≡ black)
      → root_color c path ≡ black
      → (z : Tree T) × (mend c x path ≡ some z) × Mended path x z
  unfolding mend
  mend-Mended red x path v p calm top = (
    zip_up x path,
    refl,
    record {
      shape = zip_up-IsRb path x v (subst (IsPath path) (omega arith) p) (inl (calm refl));
      top = color-zip_up path x ∙ root_color-red (color x) path top;
      nodes = inorder-zip_up path x;
    },
  )
  mend-Mended black x path v p calm top = delete_fixup-Mends path x (IsRb-paint x v) p top

  -- a part of a valid tree, and the frames above it
  pub unzip :
      (path : List (Frame T)) (x : Tree T)
      → IsRb (zip_up x path)
      → root_color (color x) path ≡ black
      → IsRb x × IsPath path (black_height x) × Fits (color x) path
  unzip [] x v top = (v, tt, inl top)
  unzip (left_of c k t r ∷ path) x v top =
      let (w, p, f) = unzip path (node c x k t r) v top in
      let calm = calm_frame c x r path w.3 f in
      (w.0, (w.1, sym w.2, calm.1, p), (fits_child c x r path w.3).0)
  unzip (right_of c l k t ∷ path) x v top =
      let (w, p, f) = unzip path (node c l k t x) v top in
      let calm = calm_frame c l x path w.3 f in
      (
        w.1,
        (w.0, w.2, calm.0, subst (λ h. IsPath path (h + weight c)) w.2 p),
        (fits_child c l x path w.3).1,
      )

  -- the node that takes the place of the removed one
  pub record Least (r : Tree T) (path : List (Frame T)) (y : ℕ × T) (c : Color) (x : Tree T)
      (up : List (Frame T)) : Type 0 where
    pub walk : leftmost r path ≡ some (c, x, up)
    pub shape : IsRb x
    pub place : IsPath up (black_height x + weight c)
    pub calm : c ≡ red → color x ≡ black
    pub top : root_color c up ≡ root_color (color r) path
    pub left : before up ≡ before path
    pub right : y ∷ (inorder x ++ after up) ≡ inorder r ++ after path

  pub leftmost-Least :
      (c : Color) (l : Tree T) (k : ℕ) (t : T) (r : Tree T)
      → let n : Tree T = node c l k t r in
        IsRb n
        → (y : ℕ × T) × (minimum n ≡ some y)
          × ((path : List (Frame T))
              → IsPath path (black_height n)
              → Fits c path
              → (cy : Color) × (x : Tree T) × (up : List (Frame T)) × Least n path y cy x up)
  unfolding minimum leftmost
  leftmost-Least c nil k t r v = (
    (k, t),
    refl,
    λ path p f. (
      c,
      r,
      path,
      record {
        walk = refl;
        shape = v.1;
        place = subst (λ h. IsPath path (h + weight c)) v.2 p;
        calm = λ e. (subst (λ z. Calm z nil r) e v.3).1;
        top = refl;
        left = refl;
        right = refl;
      },
    ),
  )
  leftmost-Least c (node c' a k' t' b) k t r v =
      let (y, smallest, deep) = leftmost-Least c' a k' t' b v.0 in
      (
        y,
        smallest,
        λ path p f.
            let calm = calm_frame c (node c' a k' t' b) r path v.3 f in
            let (cy, x, up, h) =
              deep (left_of c k t r ∷ path) (v.1, sym v.2, calm.1, p)
                (fits_child c (node c' a k' t' b) r path v.3).0 in
            (
              cy,
              x,
              up,
              record {
                walk = h.walk;
                shape = h.shape;
                place = h.place;
                calm = h.calm;
                top = h.top;
                left = h.left;
                right = h.right ∙ simp append_assoc;
              },
            ),
      )

  -- the tree without the node between `l` and `r`
  pub record Without (l r : Tree T) (path : List (Frame T)) (z : Tree T) : Type 0 where
    pub shape : IsRb z
    pub top : color z ≡ black
    pub nodes : inorder z ≡ around path (inorder l ++ inorder r)

  Mended-Without :
      (path up : List (Frame T)) (l r x z : Tree T)
      → around up (inorder x) ≡ around path (inorder l ++ inorder r)
      → Mended up x z
      → Without l r path z
  Mended-Without path up l r x z e h = record { shape = h.shape; top = h.top; nodes = h.nodes ∙ e }

  pub unlink_node-Without :
      (c : Color) (l : Tree T) (k : ℕ) (t : T) (r : Tree T) (path : List (Frame T))
      → let n : Tree T = node c l k t r in
        IsRb n
        → IsPath path (black_height n)
        → Fits c path
        → root_color c path ≡ black
        → (z : Tree T) × (unlink_node c l r path ≡ some z) × Without l r path z
  unfolding unlink_node
  unlink_node-Without c nil k t r path v p f top =
      let (z, run, h) =
        mend-Mended c r path v.1 (subst (λ h. IsPath path (h + weight c)) v.2 p)
          (λ e. (subst (λ z. Calm z nil r) e v.3).1) top in
      (z, run, Mended-Without path path nil r r z refl h)
  unlink_node-Without c (node c' a k' t' b) k t nil path v p f top =
      let l : Tree T = node c' a k' t' b in
      let (z, run, h) = mend-Mended c l path v.0 p (λ e. (subst (λ z. Calm z l nil) e v.3).0) top in
      (
        z,
        run,
        Mended-Without path path l nil l z (ap (around path) (sym (append-nil (inorder l)))) h,
      )
  unlink_node-Without c (node c' a k' t' b) k t (node c'' a' k'' t'' b') path v p f top =
      let l : Tree T = node c' a k' t' b in
      let r : Tree T = node c'' a' k'' t'' b' in
      let (y, smallest, walk) = leftmost-Least c'' a' k'' t'' b' v.1 in
      let calm = calm_frame c l r path v.3 f in
      let (cy, x, up, h) =
        walk (right_of c l y.0 y.1 ∷ path)
          (v.0, v.2, calm.0, subst (λ h. IsPath path (h + weight c)) v.2 p)
          (fits_child c l r path v.3).1 in
      let (z, run, m) = mend-Mended cy x up h.shape h.place h.calm (h.top ∙ top) in
      (
        z,
        rw (smallest, h.walk, ◌>>=◌) run,
        Mended-Without path up l r x z
            (swap_in (before up) (before path) (inorder l) y (inorder x ++ after up) (inorder r)
              (after path) h.left h.right)
            m,
      )
