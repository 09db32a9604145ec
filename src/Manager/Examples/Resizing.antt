-- ===== src/Manager/Examples/Resizing.antt =====
-- Runs of `mem_resize` on the pool of 100 bytes, and the theorems at these runs.
use assignment2_c.Prelude.{◌≡◌, refl, true, false, [], ◌∷◌, arith, inl, inr}
use assignment2_c.Manager.{
  null, BlockTable, ok, fault, holding, read, write, write_size, write_start,
}
use assignment2_c.Manager.Layout.{block, mark_free, coalesce}
use assignment2_c.Manager.Layout.Used.{used}
use assignment2_c.Manager.Cells.{shift_left}
use assignment2_c.Manager.Alloc.{mem_alloc, alloc_loop}
use assignment2_c.Manager.Alloc.NoMemory.{candidate}
use assignment2_c.Manager.Free.{previous_free, next_free, remove_block}
use assignment2_c.Manager.Resize.{
  mem_resize, find_last, resize_at, grow, next_suffices, available_size, move_block, grow_right,
}
use assignment2_c.Manager.Resize.Branches.{Outcome}
use assignment2_c.Manager.Resize.Outcome.{mem_resize-Outcome}
use assignment2_c.Manager.Resize.Failure.{
  mem_resize-IsAbsent, mem_resize-zero, mem_resize-HasNoRoom,
}
use assignment2_c.Manager.Examples.{
  garbage, generous, exhausted, pool, blocks, start, generous-HasRoom, exhausted-HasNoRoom,
  blocks-IsValid,
}

-- The block grows over the first 25 bytes of the free block behind it.
resize_1050 :
    mem_resize generous 1050 35 start
    ≡ ok 1050 (
        holding pool
          (block 1000 30 true ∷ block 1030 20 false ∷ block 1050 35 true ∷ block 1085 15 false ∷ [])
          (garbage ∷ []))
unfolding mem_resize find_last resize_at grow next_suffices next_free grow_right remove_block
    shift_left read write write_size write_start
resize_1050 = refl

-- No free block is large enough.
resize_1000 : mem_resize generous 1000 51 start ≡ ok null start
unfolding mem_resize find_last resize_at grow next_suffices next_free available_size previous_free
    move_block mem_alloc alloc_loop read
resize_1000 = refl

mem_resize-Outcome_example :
    Outcome pool blocks (garbage ∷ []) 1000 30 40 (mem_resize generous 1000 40 start)
unfolding used
mem_resize-Outcome_example =
    mem_resize-Outcome generous pool 40 blocks (garbage ∷ []) 1000 30 generous-HasRoom (omega arith)
      (omega arith) blocks-IsValid (inl (refl, refl))

-- The block of 30 bytes is to have 8, and what is freed for it has to be split.
mem_resize-HasNoRoom_example : mem_resize exhausted 1000 8 start ≡ fault
unfolding used candidate coalesce mark_free
mem_resize-HasNoRoom_example =
    mem_resize-HasNoRoom exhausted pool blocks (garbage ∷ []) 1000 30 blocks-IsValid
      (inl (refl, refl)) 8 (block 1000 50 false) exhausted-HasNoRoom (omega arith) (omega arith)
      refl (omega arith)

-- What is returned for the block at 1050 is the address of the block at 1000, which is in use.
mem_resize-zero_example :
    (junk' : BlockTable) × (mem_resize exhausted 1050 0 start
      ≡ ok 1000 (holding pool (coalesce (mark_free 1050 blocks)) junk'))
unfolding used
mem_resize-zero_example =
    mem_resize-zero exhausted pool blocks (garbage ∷ []) 1050 10 blocks-IsValid
      (inr (inl (refl, refl)))

mem_resize-IsAbsent_example : mem_resize exhausted 1031 5 start ≡ ok null start
mem_resize-IsAbsent_example =
    mem_resize-IsAbsent exhausted pool blocks (garbage ∷ []) 1031 5 blocks-IsValid
      (inr (omega arith))
