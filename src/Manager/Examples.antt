-- ===== src/Manager/Examples.antt =====
-- Runs of memory_manager.c on a pool of 100 bytes, and the theorems at these runs.
mod Resizing
mod Steps
use assignment2_c.Prelude.{
  ℕ, zero, suc, ◌+◌, ◌*◌, ◌/◌, ◌≡◌, ◌⊎◌, refl, true, false, none, some, [], ◌∷◌, ◌++◌, arith, inl,
  length, ap,
}
use assignment2_c.Manager.{
  null, MemoryBlock, BlockTable, Manager, ok, fault, holding, read, write, write_used, write_size,
  write_start, sizeof_block, released,
}
use assignment2_c.Manager.Layout.{block, IsValid, first_fit, mark_free, coalesce}
use assignment2_c.Manager.Layout.FirstFit.{NoFit}
use assignment2_c.Manager.Layout.Used.{used}
use assignment2_c.Manager.Alloc.{
  Realloc, mem_alloc, alloc_loop, take_block, return_block, split_block, write_parts, open_gap,
  increase_memory_block_array_size,
}
use assignment2_c.Manager.Cells.{shift_left, shift_right}
use assignment2_c.Manager.Alloc.Take.{HasRoom, HasNoRoom}
use assignment2_c.Manager.Alloc.FirstFit.{Answers, mem_alloc-first_fit}
use assignment2_c.Manager.Alloc.HandOut.{HandsOut, mem_alloc-HandsOut}
use assignment2_c.Manager.Alloc.NoMemory.{candidate, mem_alloc-HasNoRoom}
use assignment2_c.Manager.Free.{
  mem_free, find_index, free_at, release_block, merge_left, merge_right, previous_free, next_free,
  remove_block,
}
use assignment2_c.Manager.Free.Coalesce.{mem_free-coalesce}
use assignment2_c.Manager.Free.TakeBack.{TakesBack, mem_free-TakesBack}
use assignment2_c.Manager.Free.RoundTrip.{Undone, mem_free-mem_alloc}
use assignment2_c.Manager.Init.{mem_init, mem_deinit}
use assignment2_c.Manager.Init.Lifecycle.{
  IsEmpty, IsSound, IsUnusable, one_block, mem_init-IsValid, mem_init-fault, mem_deinit-IsEmpty,
  mem_init-IsEmpty,
}

abbrev pub garbage : MemoryBlock
garbage = block 7 7 true

-- A `realloc` that always has memory, and one that never has.
abbrev cut : ℕ → BlockTable → BlockTable
cut zero cells = []
cut (suc n) [] = garbage ∷ cut n []
cut (suc n) (c ∷ cs) = c ∷ cut n cs

abbrev pub generous : Realloc
generous cells bytes = some (cut (bytes / sizeof_block) cells)

abbrev pub exhausted : Realloc
exhausted cells bytes = none

cut-append :
    (xs junk : BlockTable)
    → (fresh : MemoryBlock) × (cut (suc (length xs)) (xs ++ junk) ≡ xs ++ fresh ∷ [])
cut-append [] [] = (garbage, refl)
cut-append [] (c ∷ cs) = (c, refl)
cut-append (x ∷ xs) junk = let (fresh, e) = cut-append xs junk in (fresh, ap (λ l. x ∷ l) e)

pub generous-HasRoom : HasRoom generous
generous-HasRoom xs junk =
    let (fresh, e) = cut-append xs junk in
    let n : (length xs + 1) * sizeof_block / sizeof_block ≡ suc (length xs) = omega arith in
    (fresh, rw n (ap some e))

pub exhausted-HasNoRoom : HasNoRoom exhausted
exhausted-HasNoRoom cells bytes = refl

abbrev pub nothing : Manager
nothing = record {
  mem_pool_start = null;
  mem_pool_size = 0;
  memory_blocks = [];
  memory_blocks_size = 0;
  lock_depth = 0;
  lock_ready = false;
  bytes = λ a. a;
}

abbrev pub pool : Manager
pool = one_block nothing 1000 100

-- Two blocks are handed out, and there is a gap in front of each but the first.
abbrev pub blocks : BlockTable
blocks = block 1000 30 true ∷ block 1030 20 false ∷ block 1050 10 true ∷ block 1060 40 false ∷ []

abbrev pub start : Manager
start = holding pool blocks (garbage ∷ [])

pub blocks-IsValid : IsValid pool blocks
blocks-IsValid = record {
  started = omega arith;
  tiling = omega arith;
  merged = (refl, (refl, (refl, (refl, tt))));
  in_range = omega arith;
}

pub nothing-IsSound : IsSound nothing
nothing-IsSound = record {
  without_pool = λ e. record { no_start = refl; no_blocks = refl; no_lock = refl };
  with_pool = λ ne. absurd (ne refl);
}

start-IsSound : IsSound start
start-IsSound = record {
  without_pool = λ e. absurd (omega (arith, e));
  with_pool = λ ne. (refl, refl);
}

-- The second free block is the first that has 25 bytes, and it is split.
alloc_25 :
    mem_alloc generous 25 start
    ≡ ok 1060 (
        holding pool
          (block 1000 30 true
            ∷ block 1030 20 false
            ∷ block 1050 10 true
            ∷ block 1060 25 true
            ∷ block 1085 15 false
            ∷ [])
          [])
unfolding mem_alloc alloc_loop take_block return_block split_block write_parts open_gap
    increase_memory_block_array_size shift_right read write write_used write_size write_start
alloc_25 = refl

-- The freed block is merged with both neighbours.
free_1050 :
    mem_free 1050 start
    ≡ ok tt (
        holding pool
          (block 1000 30 true ∷ block 1030 70 false ∷ [])
          (block 1060 40 false ∷ block 1060 40 false ∷ garbage ∷ []))
unfolding mem_free find_index free_at release_block merge_left merge_right previous_free next_free
    remove_block shift_left read write write_used write_size
free_1050 = refl

mem_alloc-HandsOut_example :
    ((mem_alloc generous 25 start ≡ ok null start) × NoFit 25 blocks)
    ⊎ HandsOut pool blocks 25 (mem_alloc generous 25 start)
mem_alloc-HandsOut_example =
    mem_alloc-HandsOut generous 25 pool blocks (garbage ∷ []) generous-HasRoom (omega arith)
      (omega arith) blocks-IsValid

mem_alloc-first_fit_example :
    Answers pool blocks (garbage ∷ []) (first_fit 20 blocks) (mem_alloc generous 20 start)
mem_alloc-first_fit_example =
    mem_alloc-first_fit generous 20 pool blocks (garbage ∷ []) generous-HasRoom (omega arith)
      (omega arith) blocks-IsValid

mem_alloc-HasNoRoom_example :
    mem_alloc exhausted 5 start ≡ ok null (record start { lock_depth = released pool.lock_depth })
unfolding candidate
mem_alloc-HasNoRoom_example =
    mem_alloc-HasNoRoom exhausted exhausted-HasNoRoom 5 pool blocks (garbage ∷ [])
      (block 1030 20 false) (omega arith) refl (omega arith)

mem_free-coalesce_example :
    (junk' : BlockTable) × (mem_free 1050 start
      ≡ ok tt (holding pool (coalesce (mark_free 1050 blocks)) junk'))
mem_free-coalesce_example = mem_free-coalesce pool blocks (garbage ∷ []) 1050 blocks-IsValid

mem_free-TakesBack_example : TakesBack pool blocks 1000 (mem_free 1000 start)
mem_free-TakesBack_example = mem_free-TakesBack pool blocks (garbage ∷ []) 1000 blocks-IsValid

mem_free-mem_alloc_example : Undone pool blocks (mem_alloc generous 25 start)
mem_free-mem_alloc_example =
    mem_free-mem_alloc generous 25 pool blocks (garbage ∷ []) generous-HasRoom (omega arith)
      (omega arith) blocks-IsValid

mem_init-IsValid_example :
    (mem_init 1000 (some garbage) 100 nothing ≡ ok tt pool)
    × IsValid pool (block 1000 100 false ∷ [])
mem_init-IsValid_example =
    mem_init-IsValid nothing nothing-IsSound 1000 (omega arith) 100 garbage (omega arith)
      (omega arith)

mem_init-fault_example : mem_init 1000 none 100 start ≡ fault
mem_init-fault_example = mem_init-fault start start-IsSound 1000 (omega arith) 100

mem_deinit-IsEmpty_example :
    (t : Manager) × (mem_deinit start ≡ ok tt t)
    × IsEmpty t
    × IsUnusable generous t
    × (mem_deinit t ≡ ok tt t)
mem_deinit-IsEmpty_example = mem_deinit-IsEmpty generous start start-IsSound

mem_init-IsEmpty_example :
    (t : Manager) × (mem_init null (some garbage) 100 start ≡ ok tt t)
    × IsEmpty t
    × IsUnusable generous t
mem_init-IsEmpty_example = mem_init-IsEmpty generous (some garbage) 100 start start-IsSound
