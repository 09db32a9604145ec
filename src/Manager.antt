-- ===== src/Manager.antt =====
-- The data of memory_manager.c: the table of blocks, the globals of the file, and the commands
-- that read and write them.
pub mod Alloc
pub mod Cells
pub mod Examples
pub mod Free
pub mod History
pub mod Init
pub mod Layout
pub mod Resize
use assignment2_c.Prelude.{
  ℕ, zero, suc, ◌+◌, ◌-◌, ◌%◌, ◌^◌, ◌≡◌, Bool, true, Option, none, some, List, ◌∷◌, ◌++◌, [],
  length, get_elem?, set?, if◌then◌else◌,
}

-- A pointer is its number; `NULL` is 0.
abbrev pub Adress : Type 0
Adress = ℕ

abbrev pub null : Adress
null = 0

-- `memoryBlock` of memory_manager.h.
pub record MemoryBlock : Type 0 where
  pub start_adress : Adress
  pub size : ℕ
  pub is_used : Bool

-- `sizeof(memoryBlock)` where pointers and `size_t` have 64 bits.
abbrev pub sizeof_block : ℕ
sizeof_block = 24

-- The largest `int`.
abbrev pub int_max : ℕ
int_max = 2147483647

-- A `size_t` after an addition.
abbrev pub wrap : ℕ → ℕ
wrap n = n % 2 ^ 64

-- A `size_t` after a subtraction.
abbrev pub wrap_sub : ℕ → ℕ → ℕ
wrap_sub a b = (a + 2 ^ 64 - b) % 2 ^ 64

abbrev pub BlockTable : Type 0
BlockTable = List MemoryBlock

-- The globals. `memory_blocks` holds every cell that the array has, those past
-- `memory_blocks_size` with what was left in them. `lock_depth` counts how often the caller holds
-- the recursive lock, and `lock_ready` says that the lock is initialised. `bytes` is the memory
-- that the pool lies in.
pub record Manager : Type 0 where
  pub mem_pool_start : Adress
  pub mem_pool_size : ℕ
  pub memory_blocks : BlockTable
  pub memory_blocks_size : ℕ
  pub lock_depth : ℕ
  pub lock_ready : Bool
  pub bytes : Adress → ℕ

-- A `fault` is what C and POSIX leave undefined: an access outside the array or through `NULL`, and
-- the use of a lock that is not initialised.
pub data Run (A : Type 0) : Type 0 where
  ok : A → Manager → Run A
  fault : Run A

abbrev pub Cmd : Type 0 → Type 0
Cmd A = Manager → Run A

abbrev pub pure : {A : Type 0} → A → Cmd A
pure = ok

module _ {A B : Type 0} where
  abbrev pub and_then : Run A → (A → Cmd B) → Run B
  and_then (ok a s) k = k a s
  and_then fault k = fault

  infixl 5 ◌>>=◌ ◌>>◌
  abbrev pub ◌>>=◌ : Cmd A → (A → Cmd B) → Cmd B
  m >>= k = λ s. and_then (m s) k

  abbrev pub ◌>>◌ : Cmd A → Cmd B → Cmd B
  m >> k = m >>= λ _. k

-- `memoryBlocks[i]`.
unfoldable pub read : ℕ → Cmd MemoryBlock
read i s = elim (get_elem? s.memory_blocks i) [ none ↦ fault | some b ↦ ok b s ]

-- `memoryBlocks[i] = b`.
unfoldable pub write : ℕ → MemoryBlock → Cmd (Unit {0})
write i b s = elim (set? s.memory_blocks i b) [
  | none ↦ fault
  | some cells ↦ ok tt (record s { memory_blocks = cells })
]

-- `memoryBlocks[i].isUsed = u`.
unfoldable pub write_used : ℕ → Bool → Cmd (Unit {0})
write_used i u = do b ← read i; write i (record b { is_used = u })

-- `memoryBlocks[i].size = n`.
unfoldable pub write_size : ℕ → ℕ → Cmd (Unit {0})
write_size i n = do b ← read i; write i (record b { size = n })

-- `memoryBlocks[i].startAdress = a`.
unfoldable pub write_start : ℕ → Adress → Cmd (Unit {0})
write_start i a = do b ← read i; write i (record b { start_adress = a })

abbrev pub block_count : Cmd ℕ
block_count s = ok s.memory_blocks_size s

abbrev pub set_block_count : ℕ → Cmd (Unit {0})
set_block_count n s = ok tt (record s { memory_blocks_size = n })

-- `pthread_mutex_lock` and `pthread_mutex_unlock` of the recursive lock, by the thread that runs.
-- Before `mem_init` and after `mem_deinit` they are undefined.
-- An unlock of a lock that is not held is refused, and the code does not look at the refusal.
abbrev pub released : ℕ → ℕ
released zero = zero
released (suc d) = d

abbrev pub lock : Cmd (Unit {0})
lock s = if s.lock_ready then ok tt (record s { lock_depth = suc s.lock_depth }) else fault

abbrev pub unlock : Cmd (Unit {0})
unlock s = if s.lock_ready then ok tt (record s { lock_depth = released s.lock_depth }) else fault

-- The shapes of a state with the lock initialised: `cells` in the array; the same with the count `n`;
-- and the live blocks `xs` with `junk` after them.
abbrev pub with_cells : Manager → BlockTable → Manager
with_cells s cells = record s { memory_blocks = cells; lock_ready = true }

abbrev pub table : Manager → ℕ → BlockTable → Manager
table s n cells = record s { memory_blocks = cells; memory_blocks_size = n; lock_ready = true }

abbrev pub holding : Manager → BlockTable → BlockTable → Manager
holding s xs junk = record s {
  memory_blocks = xs ++ junk;
  memory_blocks_size = length xs;
  lock_ready = true;
}
