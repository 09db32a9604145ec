-- ===== src/Manager/Examples/Steps.antt =====
-- A client of the pool of 100 bytes: it allocates, writes and releases.
use assignment2_c.Prelude.{ℕ, ◌≡◌, refl, true, false, [], ◌∷◌, arith}
use assignment2_c.Manager.{
  Adress, Manager, ok, holding, read, write, write_used, write_size, write_start,
}
use assignment2_c.Manager.Layout.{block}
use assignment2_c.Manager.Layout.Used.{used}
use assignment2_c.Manager.Layout.Ranges.{In}
use assignment2_c.Manager.Cells.{shift_right}
use assignment2_c.Manager.Alloc.{
  mem_alloc, alloc_loop, take_block, return_block, split_block, write_parts, open_gap,
  increase_memory_block_array_size,
}
use assignment2_c.Manager.Free.{mem_free}
use assignment2_c.Manager.Resize.{mem_resize}
use assignment2_c.Manager.Init.Lifecycle.{mem_init-IsValid}
use assignment2_c.Manager.History.{live, Reached, begun, allocated, written}
use assignment2_c.Manager.History.Safety.{IsSafe, Safely, Reached-IsSafe}
use assignment2_c.Manager.Examples.{
  garbage, generous, nothing, nothing-IsSound, pool, generous-HasRoom,
}

abbrev two_blocks : Manager
two_blocks = holding pool (block 1000 25 true ∷ block 1025 75 false ∷ []) []

first_call : mem_alloc generous 25 pool ≡ ok 1000 two_blocks
unfolding mem_alloc alloc_loop take_block return_block split_block write_parts open_gap
    increase_memory_block_array_size shift_right read write write_used write_size write_start
first_call = refl

abbrev filled : Manager
filled = record two_blocks { bytes = λ a. 1 }

history : Reached generous pool filled
history = written (λ a. 1) (allocated 25 1000 begun first_call)

Reached-IsSafe_example :
    IsSafe 100 filled
    × ((size : ℕ) → Safely 100 (mem_alloc generous size filled))
    × ((p : Adress) → Safely 100 (mem_free p filled))
    × ((p old size : ℕ)
        → In p old (used (live filled))
        → Safely 100 (mem_resize generous p size filled))
Reached-IsSafe_example =
    Reached-IsSafe generous 100 1000 garbage nothing pool filled generous-HasRoom (omega arith)
      (omega arith) (omega arith) (omega arith) nothing-IsSound
      (mem_init-IsValid nothing nothing-IsSound 1000 (omega arith) 100 garbage (omega arith)
        (omega arith)).0
      history
