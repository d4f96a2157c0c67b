-- ===== src/RtosHeap.antt =====
-- mini_rtos/src/rtos_core.c: `memory_init` and `rtos_malloc`, with `mem_block_t` of
-- mini_rtos/include/rtos_types.h and the sizes of mini_rtos/include/rtos_config.h.
-- The heap is the list that `free_list` and `next` link, used blocks included; an address is an
-- offset into `heap`, and the list is empty before `memory_init`. `sizeof(mem_block_t)` is 12, as on
-- the 32-bit target: a word, a byte with its padding, a pointer.
pub mod Fit
pub mod Disjoint
mod Tests
use self_mini_os.Common.{
  ℕ, ◌+◌, ◌-◌, ◌*◌, ◌/◌, ◌%◌, Bool, true, false, ◌&&◌, Option, none, some, List, [], ◌∷◌, leb,
  if◌then◌else◌, add32,
}

abbrev pub heap_size : ℕ
heap_size = 4096

abbrev pub min_block_size : ℕ
min_block_size = 16

abbrev pub header_size : ℕ
header_size = 12

pub record Block : Type 0 where
  pub addr : ℕ
  pub size : ℕ
  pub free : Bool

pub memory_init : List Block
memory_init = record { addr = 0; size = heap_size; free = true } ∷ []

-- `(size + 3) & ~3`, and the header; both sums are on `uint32_t`
pub block_need : ℕ → ℕ
block_need size = add32 (add32 size 3 / 4 * 4) header_size

-- the body of the loop at the block that is taken
pub take_block : ℕ → Block → List Block → List Block
take_block need b rest =
    if leb (add32 (add32 need header_size) min_block_size) b.size
    then record b { size = need; free = false }
      ∷ record { addr = b.addr + need; size = b.size - need; free = true }
      ∷ rest
    else record b { free = false } ∷ rest

pub first_fit : ℕ → List Block → Option (ℕ × List Block)
unfolding take_block
first_fit need [] = none
first_fit need (b ∷ rest) =
    if b.free && leb need b.size
    then some (b.addr + header_size, take_block need b rest)
    else elim (first_fit need rest) [ none ↦ none | some (p, rest') ↦ some (p, b ∷ rest') ]

pub rtos_malloc : ℕ → List Block → Option (ℕ × List Block)
rtos_malloc size heap = first_fit (block_need size) heap
