-- ===== src/Manager/History.antt =====
-- The states that a client of memory_manager.c comes through after `mem_init`.
pub mod Safety
use assignment2_c.Prelude.{ℕ, ◌≡◌, ◌<◌, take}
use assignment2_c.Manager.{Adress, MemoryBlock, BlockTable, Manager, ok}
use assignment2_c.Manager.Layout.Used.{used}
use assignment2_c.Manager.Layout.Ranges.{In}
use assignment2_c.Manager.Alloc.{Realloc, mem_alloc}
use assignment2_c.Manager.Free.{mem_free}
use assignment2_c.Manager.Resize.{mem_resize}

-- The part of the array that is in use.
abbrev pub live : Manager → BlockTable
live s = take s.memory_blocks_size s.memory_blocks

-- From the state `first`: any allocation, any release, a change of the size of a block that is handed
-- out, and any writes to memory, in any number and order.
pub data Reached (realloc : Realloc) (first : Manager) : Manager → Type 0 where
  begun : Reached realloc first first
  allocated :
      {s t : Manager} (size : ℕ) (q : Adress)
      → Reached realloc first s
      → mem_alloc realloc size s ≡ ok q t
      → Reached realloc first t
  released :
      {s t : Manager} (p : Adress)
      → Reached realloc first s
      → mem_free p s ≡ ok tt t
      → Reached realloc first t
  resized :
      {s t : Manager} (p q : Adress) (old size : ℕ)
      → Reached realloc first s
      → In p old (used (live s))
      → mem_resize realloc p size s ≡ ok q t
      → Reached realloc first t
  written :
      {s : Manager} (bytes : Adress → ℕ)
      → Reached realloc first s
      → Reached realloc first (record s { bytes = bytes })
