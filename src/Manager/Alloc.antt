-- ===== src/Manager/Alloc.antt =====
-- `mem_alloc` and `increaseMemoryBlockArraySize` of memory_manager.c. What `realloc` answers is an
-- argument: the cells of the new array, or `none` for `NULL`.
pub mod FirstFit
pub mod HandOut
pub mod Loop
pub mod NoMemory
pub mod Take
use assignment2_c.Prelude.{
  ℕ, zero, suc, ◌+◌, ◌-◌, ◌*◌, Bool, true, false, not, ◌&&◌, Option, none, some, ltb, leb, ◌==◌,
  if◌then◌else◌,
}
use assignment2_c.Manager.{
  Adress, null, BlockTable, Manager, ok, fault, Cmd, pure, ◌>>=◌, ◌>>◌, read, write_used,
  write_size, write_start, block_count, lock, unlock, sizeof_block, int_max, wrap, wrap_sub,
}
use assignment2_c.Manager.Cells.{shift_right}

-- From the old array and the number of bytes that are asked for.
abbrev pub Realloc : Type 0
Realloc = BlockTable → ℕ → Option BlockTable

-- `true` is the return value 0, `false` is -1. A count above the largest `int` is a fault.
unfoldable pub increase_memory_block_array_size : Realloc → ℕ → Cmd Bool
increase_memory_block_array_size realloc blocks_to_add s =
    let new_size = wrap (s.memory_blocks_size * sizeof_block + blocks_to_add * sizeof_block) in
    elim (realloc s.memory_blocks new_size) [
      | none ↦ (unlock >> pure false) s
      | some temp ↦
          if leb (s.memory_blocks_size + blocks_to_add) int_max
          then ok true (record s {
            memory_blocks_size = s.memory_blocks_size + blocks_to_add;
            memory_blocks = temp;
          })
          else fault
    ]

-- The shift that makes room behind block `i`.
unfoldable pub open_gap : ℕ → Cmd (Unit {0})
open_gap i = do
  n ← block_count
  if ltb i (n - 1) then shift_right (n - 1 - (i + 1)) (n - 1) else pure tt

-- The writes that split block `i` into its first `size` bytes and the rest.
unfoldable pub write_parts : ℕ → ℕ → Cmd Bool
write_parts size i = do
  b ← read i
  write_start (suc i) (wrap (b.start_adress + size))
  write_size (suc i) (wrap_sub b.size size)
  write_used (suc i) false
  write_size i size
  pure true

-- The part of the loop's body for a block that is too large. `false` is the failing return.
unfoldable pub split_block : Realloc → ℕ → ℕ → Cmd Bool
split_block realloc size i = do
  grown ← increase_memory_block_array_size realloc 1
  if grown then (do open_gap i; write_parts size i) else (do write_used i false; unlock; pure false)

unfoldable pub return_block : ℕ → Cmd Adress
return_block i = do b ← read i; unlock; pure b.start_adress

-- The loop's body once a block fits.
unfoldable pub take_block : Realloc → ℕ → ℕ → Cmd Adress
take_block realloc size i = do
  write_used i true
  b ← read i
  if b.size == size
      then return_block i
      else (do done ← split_block realloc size i; if done then return_block i else pure null)

-- The loop over the blocks, with the rounds that are left, and the return of `NULL` behind it.
unfoldable pub alloc_loop : Realloc → ℕ → ℕ → ℕ → Cmd Adress
alloc_loop realloc size zero i = do unlock; pure null
alloc_loop realloc size (suc k) i = do
  b ← read i
  if not b.is_used && leb size b.size
      then take_block realloc size i
      else alloc_loop realloc size k (suc i)

unfoldable pub mem_alloc : Realloc → ℕ → Cmd Adress
mem_alloc realloc size = do
  lock
  if size == 0
      then (λ (s : Manager). (unlock >> pure s.mem_pool_start) s)
      else (do n ← block_count; alloc_loop realloc size n 0)
