-- ===== src/RtosHeap/Fit.antt =====
-- mini_rtos/src/rtos_core.c: `rtos_malloc` keeps the heap tiled by its blocks, and is a first fit.
use self_mini_os.Common.{
  ℕ, ◌+◌, ◌-◌, ◌≤◌, ◌<◌, ◌≡◌, refl, ap, ◌⊎◌, inl, inr, Bool, true, false, ◌&&◌, Option, none, some,
  List, [], ◌∷◌, ◌++◌, leb, arith, All, Bool-cases, add32, u32_mod,
}
use mathlib.Core.Path.{subst}
use self_mini_os.RtosHeap.{
  Block, heap_size, header_size, min_block_size, memory_init, block_need, take_block, first_fit,
  rtos_malloc,
}

-- the blocks follow one another from `a` to `e`, each with room for its header
abbrev pub Tiles : ℕ → List Block → ℕ → Type 0
Tiles a [] e = a ≡ e
Tiles a (b ∷ bs) e = (b.addr ≡ a) × (header_size ≤ b.size) × Tiles (a + b.size) bs e

-- how a call that returns `p` changes the blocks: the first free block that is large enough is
-- marked as used, less a free remainder that is split off
pub record Fits (need : ℕ) (heap : List Block) (p : ℕ) (heap' : List Block) : Type 0 where
  pub skipped : List Block
  pub found : Block
  pub later : List Block
  pub taken : Block
  pub remainder : List Block
  pub was : heap ≡ skipped ++ found ∷ later
  pub is : heap' ≡ skipped ++ taken ∷ (remainder ++ later)
  pub small : All (λ b. (b.free ≡ false) ⊎ (b.size < need)) skipped
  pub was_free : found.free ≡ true
  pub used : taken.free ≡ false
  pub start : taken.addr ≡ found.addr
  pub payload : p ≡ taken.addr + header_size
  pub roomy : need ≤ taken.size
  pub inside : taken.size ≤ found.size
  -- nothing is lost; a remainder that holds a header and the least block is split off, and free, and a
  -- smaller one is left with the block
  pub exact :
      ((remainder ≡ [])
        × (taken.size ≡ found.size)
        × (found.size < need + header_size + min_block_size))
      ⊎ ((r : Block) × (remainder ≡ r ∷ [])
          × (r.free ≡ true)
          × (r.addr ≡ taken.addr + taken.size)
          × (taken.size ≡ need)
          × (taken.size + r.size ≡ found.size)
          × (header_size + min_block_size ≤ r.size))

take_block-Fits :
    (need : ℕ) (b : Block) (rest : List Block)
    → b.free ≡ true
    → need ≤ b.size
    → b.size ≤ heap_size
    → Fits need (b ∷ rest) (b.addr + header_size) (take_block need b rest)
unfolding take_block
take_block-Fits need b rest free fit top =
    elim (Bool-cases (leb (add32 (add32 need header_size) min_block_size) b.size)) [
      | inl e ↦ record {
        skipped = [];
        found = b;
        later = rest;
        taken = record b { size = need; free = false };
        remainder = record { addr = b.addr + need; size = b.size - need; free = true } ∷ [];
        was = refl;
        is = rw e;
        small = tt;
        was_free = free;
        used = refl;
        start = refl;
        payload = refl;
        roomy = omega arith;
        inside = fit;
        exact = inr (
          record { addr = b.addr + need; size = b.size - need; free = true },
          refl,
          refl,
          refl,
          refl,
          omega arith,
          ground arith,
        );
      }
      | inr e ↦ record {
        skipped = [];
        found = b;
        later = rest;
        taken = record b { free = false };
        remainder = [];
        was = refl;
        is = rw e;
        small = tt;
        was_free = free;
        used = refl;
        start = refl;
        payload = refl;
        roomy = fit;
        inside = omega arith;
        exact = inl (refl, refl, ground arith);
      }
    ]

abbrev pub IsSmall : List Block → Type 0
IsSmall = All (λ b. b.size ≤ heap_size)

-- the loop: a fit, or no free block is large enough
abbrev pub Outcome : ℕ → List Block → Option (ℕ × List Block) → Type 0
Outcome need heap none = All (λ b. (b.free ≡ false) ⊎ (b.size < need)) heap
Outcome need heap (some (p, heap')) = Fits need heap p heap'

pass_block :
    (need : ℕ) (b : Block) (rest : List Block) (r : Option (ℕ × List Block))
    → (b.free ≡ false) ⊎ (b.size < need)
    → Outcome need rest r
    → Outcome need (b ∷ rest) (elim r [ none ↦ none | some (p, rest') ↦ some (p, b ∷ rest') ])
pass_block need b rest none h o = (h, o)
pass_block need b rest (some (p, rest')) h o = record {
  skipped = b ∷ o.skipped;
  found = o.found;
  later = o.later;
  taken = o.taken;
  remainder = o.remainder;
  was = ap (λ l. b ∷ l) o.was;
  is = ap (λ l. b ∷ l) o.is;
  small = (h, o.small);
  was_free = o.was_free;
  used = o.used;
  start = o.start;
  payload = o.payload;
  roomy = o.roomy;
  inside = o.inside;
  exact = o.exact;
}

first_fit-Outcome :
    (need : ℕ) (heap : List Block) → IsSmall heap → Outcome need heap (first_fit need heap)
unfolding first_fit
first_fit-Outcome need [] h = tt
first_fit-Outcome need (b ∷ rest) h = elim (Bool-cases (b.free && leb need b.size)) [
  | inl e ↦ rw (e, first_fit) (take_block-Fits need b rest (ground arith) (ground arith) h.0)
  | inr e ↦
      rw (e, first_fit)
        (pass_block need b rest (first_fit need rest) (skip b.free b.size e)
          (first_fit-Outcome need rest h.1))
]
  where
    skip : (f : Bool) (s : ℕ) → (f && leb need s) ≡ false → (f ≡ false) ⊎ (s < need)
    skip true s e = inr (ground arith)
    skip false s e = inl refl

-- a hole in a tiled heap
pub Tiles-append :
    (a e : ℕ) (xs ys : List Block) → Tiles a (xs ++ ys) e → (m : ℕ) × Tiles a xs m × Tiles m ys e
Tiles-append a e [] ys t = (a, refl, t)
Tiles-append a e (x ∷ xs) ys t =
    let (m, p, q) = Tiles-append (a + x.size) e xs ys t.2 in (m, (t.0, t.1, p), q)

Tiles-join : (a m e : ℕ) (xs ys : List Block) → Tiles a xs m → Tiles m ys e → Tiles a (xs ++ ys) e
Tiles-join a m e [] ys p q = rw p q
Tiles-join a m e (x ∷ xs) ys p q = (p.0, p.1, Tiles-join (a + x.size) m e xs ys p.2 q)

Tiles-IsSmall : (a e : ℕ) (xs : List Block) → Tiles a xs e → e ≤ heap_size → IsSmall xs × (a ≤ e)
Tiles-IsSmall a e [] t h = (tt, omega arith)
Tiles-IsSmall a e (x ∷ xs) t h =
    let (s, b) = Tiles-IsSmall (a + x.size) e xs t.2 h in ((omega arith, s), omega arith)

-- what holds of the heap from `memory_init` on: its blocks tile the 4096 bytes
abbrev pub IsHeap : List Block → Type 0
IsHeap heap = Tiles 0 heap heap_size

pub memory_init-IsHeap : IsHeap memory_init
unfolding memory_init
memory_init-IsHeap = omega arith

-- the taken block and its remainder stand where the found block stood
middle-Tiles :
    (need : ℕ) (heap : List Block) (p : ℕ) (heap' : List Block) (m : ℕ) (f : Fits need heap p heap')
    → header_size ≤ need
    → Tiles m (f.found ∷ f.later) heap_size
    → Tiles m (f.taken ∷ (f.remainder ++ f.later)) heap_size
middle-Tiles need heap p heap' m f h t =
    let at : f.taken.addr ≡ m = omega (arith, f.start) in
    let room : header_size ≤ f.taken.size = omega (arith, f.roomy) in
    elim f.exact [
      | inl (none_left, same, _) ↦
          rw none_left (at, room, subst (λ a. Tiles a f.later heap_size) (omega arith) t.2)
      | inr (r, one_left, _, next, _, sum, least) ↦ rw one_left (
        at,
        room,
        (omega arith, omega arith, subst (λ a. Tiles a f.later heap_size) (omega arith) t.2),
      )
    ]

Fits-IsHeap :
    (need : ℕ) (heap : List Block) (p : ℕ) (heap' : List Block)
    → header_size ≤ need
    → Fits need heap p heap'
    → IsHeap heap
    → IsHeap heap'
Fits-IsHeap need heap p heap' h f t =
    let (m, front, back) = Tiles-append 0 heap_size f.skipped (f.found ∷ f.later) (rw f.was at t) in
    rw f.is (
      Tiles-join 0 m heap_size f.skipped (f.taken ∷ (f.remainder ++ f.later)) front
        (middle-Tiles need heap p heap' m f h back))

-- what a call of `rtos_malloc` may return
abbrev pub Allocates : ℕ → List Block → Option (ℕ × List Block) → Type 0
Allocates size heap none = All (λ b. (b.free ≡ false) ⊎ (b.size < block_need size)) heap
Allocates size heap (some (p, heap')) = Fits (block_need size) heap p heap' × IsHeap heap'

finish :
    (size : ℕ) (heap : List Block) (r : Option (ℕ × List Block))
    → header_size ≤ block_need size
    → IsHeap heap
    → Outcome (block_need size) heap r
    → Allocates size heap r
finish size heap none h t o = o
finish size heap (some (p, heap')) h t o = (o, Fits-IsHeap (block_need size) heap p heap' h o t)

pub need-ge-header : (size : ℕ) → size < u32_mod - 15 → header_size + size ≤ block_need size
unfolding block_need
need-ge-header size h = omega arith

-- On a heap that its blocks tile, and for a size from which no sum wraps, `rtos_malloc` takes the
-- first free block that holds the header and the size, rounded up to whole words. If what is left of it
-- holds a header and the least block, the call takes exactly what it needs and splits the rest off as a
-- free block; otherwise the block stays whole. The heap stays tiled. The call returns null only if no
-- free block is large enough.
pub rtos_malloc_lem :
    (size : ℕ) (heap : List Block)
    → size < u32_mod - 15
    → IsHeap heap
    → Allocates size heap (rtos_malloc size heap)
unfolding rtos_malloc
rtos_malloc_lem size heap h t =
    finish size heap (first_fit (block_need size) heap) (omega (arith, need-ge-header size h)) t
      (first_fit-Outcome (block_need size) heap (Tiles-IsSmall 0 heap_size heap t (omega arith)).0)
