-- ===== src/Spinlock/Counts.antt =====
-- spinlock.c: how many threads are at a place of the code, and what a step does to that number.
use self_mini_os.Common.{
  ℕ, zero, suc, ◌+◌, ◌≤◌, ◌≡◌, Bool, true, false, some, List, [], ◌∷◌, length, get_elem?, set,
  replicate, arith,
}
use self_mini_os.Spinlock.{Reach, start, more, move_at}
use mathlib.Core.Path.{subst}
use mathlib.Core.Option.{some-injective}

abbrev pub bit : Bool → ℕ
bit true = 1
bit false = 0

-- what holds at the start and is kept by each move holds after any number of steps
pub Reach-invariant :
    {L P : Type 0} (Move : L → P → L → P → Type 0) (I : L → List P → Type 0)
    → ((l l' : L) (ps : List P) (i : ℕ) (p p' : P)
        → get_elem? ps i ≡ some p
        → Move l p l' p'
        → I l ps
        → I l' (set ps i p'))
    → (s t : L × List P) → Reach Move s t
    → I s.0 s.1
    → I t.0 t.1
Reach-invariant Move I keep s t start h = h
Reach-invariant Move I keep s t (more {t = m} r (move_at i e step)) h =
    keep _ _ _ i _ _ e step (Reach-invariant Move I keep s m r h)

module _ {P : Type 0} (f : P → Bool) where
  abbrev pub count : List P → ℕ
  count [] = 0
  count (p ∷ ps) = bit (f p) + count ps

  pub count-set :
      (ps : List P) (i : ℕ) (p p' : P)
      → get_elem? ps i ≡ some p
      → count (set ps i p') + bit (f p) ≡ count ps + bit (f p')
  count-set [] i p p' e = cc e
  count-set (x ∷ ps) zero p p' e =
      let same = some-injective x p e in
      subst (λ y. bit (f p') + count ps + bit (f y) ≡ bit (f x) + count ps + bit (f p')) same
        (omega arith)
  count-set (x ∷ ps) (suc i) p p' e = omega (arith, count-set ps i p p' e)

  -- a thread that is there is counted
  pub count-get_elem? :
      (ps : List P) (i : ℕ) (p : P) → get_elem? ps i ≡ some p → bit (f p) ≤ count ps
  count-get_elem? [] i p e = cc e
  count-get_elem? (x ∷ ps) zero p e =
      subst (λ y. bit (f y) ≤ bit (f x) + count ps) (some-injective x p e) (omega arith)
  count-get_elem? (x ∷ ps) (suc i) p e = omega (arith, count-get_elem? ps i p e)

  pub count-le-length : (ps : List P) → count ps ≤ length ps
  count-le-length [] = omega arith
  count-le-length (p ∷ ps) = elim (f p) as (λ b. bit b + count ps ≤ suc (length ps)) [
    | true ↦ omega (arith, count-le-length ps)
    | false ↦ omega (arith, count-le-length ps)
  ]

  pub count-replicate : (n : ℕ) (p : P) → f p ≡ false → count (replicate n p) ≡ 0
  count-replicate zero p e = omega arith
  count-replicate (suc n) p e = rw e (omega (arith, count-replicate n p e))
