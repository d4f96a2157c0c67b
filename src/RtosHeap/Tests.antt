-- ===== src/RtosHeap/Tests.antt =====
-- The allocator of mini_rtos/src/rtos_core.c on small heaps.
use self_mini_os.Common.{
  ◌-◌, ◌+◌, ◌≤◌, ◌⊎◌, All, ◌≡◌, refl, true, false, some, List, [], ◌∷◌, u32_mod, arith,
}
use self_mini_os.RtosHeap.{Block, memory_init, block_need, rtos_malloc, first_fit, take_block}
use self_mini_os.RtosHeap.Fit.{Allocates, rtos_malloc_lem}
use self_mini_os.RtosHeap.Disjoint.{Apart, rtos_malloc-Apart, rtos_malloc_wraps}

abbrev used_block : Block
used_block = record { addr = 0; size = 112; free = false }

abbrev one_used : List Block
one_used = used_block ∷ record { addr = 112; size = 3984; free = true } ∷ []

malloc_runs : rtos_malloc 98 memory_init ≡ some (12, one_used)
unfolding rtos_malloc memory_init first_fit take_block block_need
malloc_runs = refl

rtos_malloc_lem_example : Allocates 40 one_used (rtos_malloc 40 one_used)
rtos_malloc_lem_example = rtos_malloc_lem 40 one_used (omega arith) (omega arith)

abbrev two_used : List Block
two_used =
    used_block
    ∷ record { addr = 112; size = 52; free = false }
    ∷ record { addr = 164; size = 3932; free = true }
    ∷ []

rtos_malloc-Apart_example :
    (12 ≤ 124) × (124 + 40 ≤ 4096) × All (λ b. (b.free ≡ true) ⊎ Apart 40 124 two_used b) one_used
unfolding rtos_malloc first_fit take_block block_need
rtos_malloc-Apart_example = rtos_malloc-Apart 40 one_used (omega arith) (omega arith) refl

rtos_malloc_wraps_example :
    rtos_malloc (u32_mod - 1) memory_init
    ≡ some (
      12,
      record { addr = 0; size = 12; free = false }
          ∷ record { addr = 12; size = 4084; free = true }
          ∷ [],
    )
rtos_malloc_wraps_example = rtos_malloc_wraps (u32_mod - 1) (omega arith) (omega arith)
