-- ===== src/Manager/Init.antt =====
-- `mem_init` and `mem_deinit` of memory_manager.c. What the two calls of `malloc` answer are
-- arguments: the address of the pool, and the one cell of the array with what happens to be in it,
-- `none` for `NULL`.
pub mod Lifecycle
use assignment2_c.Prelude.{
  ℕ, suc, ◌+◌, ◌-◌, Bool, true, false, ◌&&◌, Option, none, some, [], ◌∷◌, ◌==◌, if◌then◌else◌,
}
use assignment2_c.Manager.{
  Adress, null, MemoryBlock, BlockTable, Manager, ok, fault, Cmd, pure, ◌>>=◌, ◌>>◌, write_size,
  write_used, write_start, block_count, set_block_count,
}

-- `pthread_mutex_destroy`, undefined for a lock that is held or not initialised.
abbrev pub destroy_lock : Cmd (Unit {0})
destroy_lock s =
    if s.lock_ready && s.lock_depth == 0 then ok tt (record s { lock_ready = false }) else fault

unfoldable pub mem_deinit : Cmd (Unit {0})
mem_deinit s =
    if s.mem_pool_start == null
    then ok tt s
    else destroy_lock (record s {
      mem_pool_start = null;
      memory_blocks = [];
      memory_blocks_size = 0;
      mem_pool_size = 0;
    })

unfoldable pub reset : Cmd (Unit {0})
unfolding mem_deinit
reset s = if s.mem_pool_start == null then ok tt s else mem_deinit s

abbrev pub set_pool_size : ℕ → Cmd (Unit {0})
set_pool_size n s = ok tt (record s { mem_pool_size = n })

abbrev pub set_pool_start : Adress → Cmd (Unit {0})
set_pool_start p s = ok tt (record s { mem_pool_start = p })

abbrev pub new_array : Option MemoryBlock → BlockTable
new_array none = []
new_array (some cell) = cell ∷ []

abbrev pub set_array : Option MemoryBlock → Cmd (Unit {0})
set_array answer s = ok tt (record s { memory_blocks = new_array answer })

-- `pthread_mutex_init`, undefined for a lock that is initialised.
abbrev pub init_lock : Cmd (Unit {0})
init_lock s = if s.lock_ready then fault else ok tt (record s { lock_ready = true; lock_depth = 0 })

unfoldable pub mem_init : Adress → Option MemoryBlock → ℕ → Cmd (Unit {0})
unfolding reset
mem_init temp answer size = do
  reset
  set_pool_size size
  if temp == null then pure tt else (do
    set_pool_start temp
    set_array answer
    n ← block_count
    set_block_count (n + 1)
    n ← block_count
    write_size (n - 1) size
    write_used (n - 1) false
    write_start (n - 1) temp
    init_lock)
