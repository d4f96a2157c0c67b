-- ===== src/RbTree/Shape.antt =====
-- mini_rtos/src/rbtree.c: the red-black rules, on trees and on the frames above a node, and the
-- bound on the height that they give.
use self_mini_os.Common.{ℕ, ◌+◌, ◌*◌, ◌^◌, ◌≡◌, refl, sym, ◌⊎◌, inl, inr, List, [], ◌∷◌, arith}
use mathlib.Core.Path.{subst}
use native.Mathlib.Nat.{pow-suc}
use native.Mathlib.Numerals.{add-one}
use self_mini_os.RbTree.{
  Color, black, red, Tree, nil, node, Frame, left_of, right_of, color, frame_color, paint, zip_up,
}

abbrev pub weight : Color → ℕ
weight black = 1
weight red = 0

double : (n : ℕ) → 2 ^ (n + 1) ≡ 2 ^ n * 2
double n = rw add-one (pow-suc 2 n)

module _ {T : Type 0} where
  -- the black nodes down the left side
  abbrev pub black_height : Tree T → ℕ
  black_height nil = 0
  black_height (node c l k t r) = black_height l + weight c

  -- a red node has black children
  abbrev pub Calm : Color → Tree T → Tree T → Type 0
  Calm black l r = Unit
  Calm red l r = (color l ≡ black) × (color r ≡ black)

  -- no red node has a red child, and all ways down pass the same number of black nodes
  abbrev pub IsRb : Tree T → Type 0
  IsRb nil = Unit
  IsRb (node c l k t r) = IsRb l × IsRb r × (black_height l ≡ black_height r) × Calm c l r

  -- the frames accept, at the hole, any subtree of black height `h`; a red frame has a black frame
  -- above it and a black subtree beside the hole
  abbrev pub top_color : List (Frame T) → Color
  top_color [] = red
  top_color (f ∷ path) = frame_color f

  abbrev pub CalmFrame : Color → Tree T → List (Frame T) → Type 0
  CalmFrame black s path = Unit
  CalmFrame red s path = (color s ≡ black) × (top_color path ≡ black)

  -- the other child
  abbrev pub sibling : Frame T → Tree T
  sibling (left_of c k t r) = r
  sibling (right_of c l k t) = l

  abbrev pub IsPath : List (Frame T) → ℕ → Type 0
  IsPath [] h = Unit
  IsPath (f ∷ path) h =
      IsRb (sibling f)
      × (black_height (sibling f) ≡ h)
      × CalmFrame (frame_color f) (sibling f) path
      × IsPath path (h + weight (frame_color f))

  -- the colour that a hole must have
  abbrev pub Fits : Color → List (Frame T) → Type 0
  Fits c path = (c ≡ black) ⊎ (top_color path ≡ black)

  pub zip_up-IsRb :
      (path : List (Frame T)) (x : Tree T)
      → IsRb x
      → IsPath path (black_height x)
      → Fits (color x) path
      → IsRb (zip_up x path)
  zip_up-IsRb [] x v p e = v
  zip_up-IsRb (left_of black k t r ∷ path) x v p e =
      zip_up-IsRb path (node black x k t r) (v, p.0, sym p.1, tt) p.3 (inl refl)
  zip_up-IsRb (left_of red k t r ∷ path) x v p e =
      zip_up-IsRb path (node red x k t r) (v, p.0, sym p.1, (ground arith, p.2.0)) p.3 (inr p.2.1)
  zip_up-IsRb (right_of black l k t ∷ path) x v p e =
      zip_up-IsRb path (node black l k t x) (p.0, v, p.1, tt)
        (subst (λ h. IsPath path (h + 1)) (sym p.1) p.3) (inl refl)
  zip_up-IsRb (right_of red l k t ∷ path) x v p e =
      zip_up-IsRb path (node red l k t x) (p.0, v, p.1, (p.2.0, ground arith))
        (subst (λ h. IsPath path (h + 0)) (sym p.1) p.3) (inr p.2.1)

  pub IsRb-paint : (x : Tree T) → IsRb x → IsRb (paint black x)
  IsRb-paint nil v = v
  IsRb-paint (node c l k t r) v = (v.0, v.1, v.2, tt)
