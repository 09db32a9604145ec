-- ===== src/Manager/Free.antt =====
-- `mem_free` of memory_manager.c: the search for the block, and the two places where it becomes
-- one block with a free neighbour.
pub mod Coalesce
pub mod Merge
pub mod Release
pub mod RoundTrip
pub mod Search
pub mod TakeBack
use assignment2_c.Prelude.{
  ℕ, zero, suc, ◌+◌, ◌-◌, Bool, false, not, Option, none, some, ltb, ◌==◌, if◌then◌else◌,
}
use assignment2_c.Manager.{
  Adress, null, Cmd, pure, ◌>>=◌, ◌>>◌, read, write_used, write_size, block_count, set_block_count,
  lock, unlock, wrap,
}
use assignment2_c.Manager.Cells.{shift_left}

-- The search from index `i`, with the rounds that are left. `none` is the index -1.
unfoldable pub find_index : ℕ → ℕ → Adress → Cmd (Option ℕ)
find_index zero i p = pure none
find_index (suc k) i p = do
  b ← read i
  if b.start_adress == p then pure (some i) else find_index k (suc i) p

unfoldable pub previous_free : ℕ → Cmd Bool
previous_free index =
    if ltb 0 index then (do a ← read (index - 1); pure (not a.is_used)) else pure false

unfoldable pub next_free : ℕ → Cmd Bool
next_free index = do
  n ← block_count
  if ltb index (n - 1) then (do c ← read (suc index); pure (not c.is_used)) else pure false

-- The shift over the block at `index`, and the count.
unfoldable pub remove_block : ℕ → Cmd (Unit {0})
remove_block index = do n ← block_count; shift_left (n - 1 - index) index; set_block_count (n - 1)

-- Returns the index of the block that the freed one is now in.
unfoldable pub merge_left : ℕ → Cmd ℕ
merge_left index = do
  free ← previous_free index
  if free
      then (do
        a ← read (index - 1)
        b ← read index
        write_size (index - 1) (wrap (a.size + b.size))
        remove_block index
        pure (index - 1))
      else pure index

unfoldable pub merge_right : ℕ → Cmd (Unit {0})
merge_right index = do
  free ← next_free index
  if free
      then (do
        b ← read index
        c ← read (suc index)
        write_size index (wrap (b.size + c.size))
        remove_block (suc index))
      else pure tt

-- What follows once the block is found and in use.
unfoldable pub release_block : ℕ → Cmd (Unit {0})
release_block index = do
  write_used index false
  index' ← merge_left index
  merge_right index'
  unlock

unfoldable pub free_at : Option ℕ → Cmd (Unit {0})
free_at none = unlock
free_at (some index) = do b ← read index; if not b.is_used then unlock else release_block index

unfoldable pub mem_free : Adress → Cmd (Unit {0})
mem_free p = do
  lock
  if p == null then unlock else (do n ← block_count; index ← find_index n 0 p; free_at index)
