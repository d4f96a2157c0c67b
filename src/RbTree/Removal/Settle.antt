-- ===== src/RbTree/Removal/Settle.antt =====
-- mini_rtos/src/rbtree.c: the rotations of `rb_delete_fixup` at a black sibling with a red child.
use self_mini_os.Common.{ℕ, ◌+◌, ◌≡◌, refl, false, List, ◌∷◌, ◌++◌, append_assoc, arith, some}
use self_mini_os.RbTree.{Color, black, red, Tree, nil, node, color, inorder}
use self_mini_os.RbTree.Shape.{weight, black_height, IsRb, Calm}
use self_mini_os.RbTree.Removal.{
  children_black, turn_inner_left, turn_inner_right, recolor_left, recolor_right, settle_left,
  settle_right,
}

module _ {T : Type 0} where
  -- the subtree at the parent of `x`, with one black node more above `x`
  pub record Settled (x : Tree T) (c : Color) (nodes : List (ℕ × T)) (g : Tree T) : Type 0 where
    pub shape : IsRb g
    pub top : color g ≡ c
    pub tall : black_height g ≡ black_height x + 1 + weight c
    pub same : inorder g ≡ nodes

  Calm-black : (c : Color) (l r : Tree T) → color l ≡ black → color r ≡ black → Calm c l r
  Calm-black black l r p q = tt
  Calm-black red l r p q = (p, q)

  pub settle_left-Settled :
      (x : Tree T) (c : Color) (k : ℕ) (t : T) (w : Tree T)
      → IsRb x
      → color x ≡ black
      → IsRb w
      → color w ≡ black
      → black_height w ≡ black_height x + 1
      → children_black w ≡ some false
      → (g : Tree T) × (settle_left x c k t w ≡ some g)
        × Settled x c (inorder x ++ (k, t) ∷ inorder w) g
  unfolding settle_left children_black turn_inner_left recolor_left
  settle_left-Settled x c k t (node black l k' t' (node red a2 k2 t2 b2)) v b vw bw h f = (
    node c (node black x k t l) k' t' (node black a2 k2 t2 b2),
    refl,
    record {
      shape = (
        (v, vw.0, omega arith, tt),
        (vw.1.0, vw.1.1, vw.1.2, tt),
        omega arith,
        Calm-black c _ _ refl refl,
      );
      top = refl;
      tall = omega arith;
      same = simp append_assoc;
    },
  )
  settle_left-Settled x c k t (node black (node red a1 k1 t1 b1) k' t' nil) v b vw bw h f = (
    node c (node black x k t a1) k1 t1 (node black b1 k' t' nil),
    refl,
    record {
      shape = (
        (v, vw.0.0, omega arith, tt),
        (vw.0.1, tt, omega arith, tt),
        omega arith,
        Calm-black c _ _ refl refl,
      );
      top = refl;
      tall = omega arith;
      same = simp append_assoc;
    },
  )
  settle_left-Settled x c k t (node black (node red a1 k1 t1 b1) k' t' (node black a2 k2 t2 b2)) v b
        vw bw h f =
      (
        node c (node black x k t a1) k1 t1 (node black b1 k' t' (node black a2 k2 t2 b2)),
        refl,
        record {
          shape = (
            (v, vw.0.0, omega arith, tt),
            (vw.0.1, vw.1, omega arith, tt),
            omega arith,
            Calm-black c _ _ refl refl,
          );
          top = refl;
          tall = omega arith;
          same = simp append_assoc;
        },
      )
  settle_left-Settled x c k t _ v b vw bw h f = cc

  pub settle_right-Settled :
      (x : Tree T) (c : Color) (k : ℕ) (t : T) (w : Tree T)
      → IsRb x
      → color x ≡ black
      → IsRb w
      → color w ≡ black
      → black_height w ≡ black_height x + 1
      → children_black w ≡ some false
      → (g : Tree T) × (settle_right x c k t w ≡ some g)
        × Settled x c (inorder w ++ (k, t) ∷ inorder x) g
  unfolding settle_right children_black turn_inner_right recolor_right
  settle_right-Settled x c k t (node black (node red a2 k2 t2 b2) k' t' r) v b vw bw h f = (
    node c (node black a2 k2 t2 b2) k' t' (node black r k t x),
    refl,
    record {
      shape = (
        (vw.0.0, vw.0.1, vw.0.2, tt),
        (vw.1, v, omega arith, tt),
        omega arith,
        Calm-black c _ _ refl refl,
      );
      top = refl;
      tall = omega arith;
      same = simp append_assoc;
    },
  )
  settle_right-Settled x c k t (node black nil k' t' (node red a1 k1 t1 b1)) v b vw bw h f = (
    node c (node black nil k' t' a1) k1 t1 (node black b1 k t x),
    refl,
    record {
      shape = (
        (tt, vw.1.0, omega arith, tt),
        (vw.1.1, v, omega arith, tt),
        omega arith,
        Calm-black c _ _ refl refl,
      );
      top = refl;
      tall = omega arith;
      same = simp append_assoc;
    },
  )
  settle_right-Settled x c k t (node black (node black a2 k2 t2 b2) k' t' (node red a1 k1 t1 b1)) v
        b vw bw h f =
      (
        node c (node black (node black a2 k2 t2 b2) k' t' a1) k1 t1 (node black b1 k t x),
        refl,
        record {
          shape = (
            (vw.0, vw.1.0, omega arith, tt),
            (vw.1.1, v, omega arith, tt),
            omega arith,
            Calm-black c _ _ refl refl,
          );
          top = refl;
          tall = omega arith;
          same = simp append_assoc;
        },
      )
  settle_right-Settled x c k t _ v b vw bw h f = cc
