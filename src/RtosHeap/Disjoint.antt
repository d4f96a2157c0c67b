-- ===== src/RtosHeap/Disjoint.antt =====
-- mini_rtos/src/rtos_core.c: what `rtos_malloc` hands out overlaps nothing that is in use, and the size
-- from which its sum wraps.
use self_mini_os.Common.{
  ℕ, ◌+◌, ◌-◌, ◌≤◌, ◌<◌, ◌≡◌, refl, ap, All, Bool-cases, ◌⊎◌, inl, inr, true, false, some, List, [],
  ◌∷◌, ◌++◌, arith, u32_mod,
}
use mathlib.Core.Path.{subst}
use self_mini_os.RtosHeap.{
  Block, heap_size, header_size, memory_init, block_need, rtos_malloc, first_fit, take_block,
}
use self_mini_os.RtosHeap.Fit.{
  Tiles, Tiles-append, Fits, IsHeap, Allocates, rtos_malloc_lem, need-ge-header,
}

need_wraps : (size : ℕ) → u32_mod ≤ size + 3 → size < u32_mod → block_need size ≡ 12
unfolding block_need
need_wraps size low high = omega arith

-- a block of the heap
abbrev pub Holds : Block → List Block → Type 0
Holds b [] = ⊥
Holds b (x ∷ xs) = (b ≡ x) ⊎ Holds b xs

Holds-append : (b : Block) (xs ys : List Block) → Holds b (xs ++ ys) → Holds b xs ⊎ Holds b ys
Holds-append b [] ys h = inr h
Holds-append b (x ∷ xs) ys (inl e) = inl (inl e)
Holds-append b (x ∷ xs) ys (inr h) = elim (Holds-append b xs ys h) [
  | inl l ↦ inl (inr l)
  | inr r ↦ inr r
]

Holds-left : (b : Block) (xs ys : List Block) → Holds b xs → Holds b (xs ++ ys)
Holds-left b [] ys h = absurd h
Holds-left b (x ∷ xs) ys (inl e) = inl e
Holds-left b (x ∷ xs) ys (inr h) = inr (Holds-left b xs ys h)

Holds-right : (b : Block) (xs ys : List Block) → Holds b ys → Holds b (xs ++ ys)
Holds-right b [] ys h = h
Holds-right b (x ∷ xs) ys h = inr (Holds-right b xs ys h)

-- the blocks between two ends lie between them
Tiles-le : (a e : ℕ) (xs : List Block) → Tiles a xs e → a ≤ e
Tiles-le a e [] t = omega arith
Tiles-le a e (x ∷ xs) t = omega (arith, Tiles-le (a + x.size) e xs t.2)

Holds-bounds :
    (b : Block) (a e : ℕ) (xs : List Block)
    → Tiles a xs e
    → Holds b xs
    → (a ≤ b.addr) × (b.addr + b.size ≤ e)
Holds-bounds b a e [] t h = absurd h
Holds-bounds b a e (x ∷ xs) t (inl q) =
    omega (arith, Tiles-le (a + x.size) e xs t.2, ap (λ y. y.addr) q, ap (λ y. y.size) q)
Holds-bounds b a e (x ∷ xs) t (inr h) = omega (arith, Holds-bounds b (a + x.size) e xs t.2 h)

-- the bytes that are handed out overlap no byte of a block, and the block stays as it was
pub record Apart (size p : ℕ) (heap' : List Block) (b : Block) : Type 0 where
  pub kept : Holds b heap'
  pub apart : (p + size ≤ b.addr) ⊎ (b.addr + b.size ≤ p)

Fits-Apart :
    (size p : ℕ) (heap heap' : List Block) (b : Block)
    → header_size + size ≤ block_need size
    → Fits (block_need size) heap p heap'
    → IsHeap heap
    → Holds b heap
    → b.free ≡ false
    → Apart size p heap' b
Fits-Apart size p heap heap' b room f t h busy =
    let (m, front, back) = Tiles-append 0 heap_size f.skipped (f.found ∷ f.later) (rw f.was at t) in
    elim (Holds-append b f.skipped (f.found ∷ f.later) (subst (Holds b) f.was h)) [
      | inl l ↦ record {
        kept = rw f.is (Holds-left b f.skipped (f.taken ∷ (f.remainder ++ f.later)) l);
        apart =
            inr (omega (arith, Holds-bounds b 0 m f.skipped front l, f.payload, f.start, back.0));
      }
      | inr (inl e) ↦ cc (ap (λ y. y.free) e, f.was_free)
      | inr (inr r) ↦ record {
        kept = rw f.is (
            Holds-right b f.skipped (f.taken ∷ (f.remainder ++ f.later))
              (inr (Holds-right b f.remainder f.later r)));
        apart = inl (
            omega (
              arith,
              Holds-bounds b (m + f.found.size) heap_size f.later back.2 r,
              f.payload,
              f.start,
              f.roomy,
              f.inside,
              back.0,
            ));
      }
    ]

Fits-inside :
    (size p : ℕ) (heap heap' : List Block)
    → header_size + size ≤ block_need size
    → Fits (block_need size) heap p heap'
    → IsHeap heap
    → (header_size ≤ p) × (p + size ≤ heap_size)
Fits-inside size p heap heap' room f t =
    let (m, front, back) = Tiles-append 0 heap_size f.skipped (f.found ∷ f.later) (rw f.was at t) in
    let end = Tiles-le (m + f.found.size) heap_size f.later back.2 in
    (
      omega (arith, f.payload),
      omega (arith, f.payload, f.start, f.roomy, f.inside, back.0, room, end),
    )

-- what holds of each block of a heap
each : (P : Block → Type 0) (xs : List Block) → ((b : Block) → Holds b xs → P b) → All P xs
each P [] f = tt
each P (x ∷ xs) f = (f x (inl refl), each P xs (λ b h. f b (inr h)))

-- On a heap that its blocks tile, the bytes that a successful `rtos_malloc` hands out lie inside the heap,
-- whatever is in use, and they overlap no block that was in use, header included, and every such block is still there afterwards.
-- The size must be one from which no sum wraps.
pub rtos_malloc-Apart :
    (size : ℕ) (heap : List Block) {p : ℕ} {heap' : List Block}
    → size < u32_mod - 15
    → IsHeap heap
    → rtos_malloc size heap ≡ some (p, heap')
    → (header_size ≤ p)
      × (p + size ≤ heap_size)
      × All (λ b. (b.free ≡ true) ⊎ Apart size p heap' b) heap
rtos_malloc-Apart size heap {p} {heap'} h t run =
    let (f, _) = subst (Allocates size heap) run (rtos_malloc_lem size heap h t) in
    let room = need-ge-header size h in
    let (low, high) = Fits-inside size p heap heap' room f t in
    (
      low,
      high,
      each (λ b. (b.free ≡ true) ⊎ Apart size p heap' b) heap
          (λ b held. elim (Bool-cases b.free) [
            | inl e ↦ inl e
            | inr e ↦ inr (Fits-Apart size p heap heap' b room f t held e)
          ]),
    )

-- For the three largest sizes `size + 3` wraps to below 4, so the size rounds to 0: on a fresh heap
-- the call succeeds with a block of a bare header, and the payload at 12 belongs to the next block.
pub rtos_malloc_wraps :
    (size : ℕ)
    → u32_mod ≤ size + 3
    → size < u32_mod
    → rtos_malloc size memory_init
      ≡ some (
        12,
        record { addr = 0; size = 12; free = false }
            ∷ record { addr = 12; size = 4084; free = true }
            ∷ [],
      )
unfolding rtos_malloc memory_init first_fit take_block
rtos_malloc_wraps size low high = rw (need_wraps size low high)
