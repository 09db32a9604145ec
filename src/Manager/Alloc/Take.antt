-- ===== src/Manager/Alloc/Take.antt =====
-- What the body of the loop of `mem_alloc` does to the array.
use assignment2_c.Prelude.{
  ℕ, ◌+◌, ◌-◌, ◌*◌, ◌^◌, ◌<◌, ◌≡◌, true, false, some, none, [], ◌∷◌, ◌++◌, arith, length,
  length-append, lt→ltb, le→leb, ==_of_eq, ==_of_ne, append_assoc,
}
use assignment2_c.Manager.{
  MemoryBlock, BlockTable, Manager, ok, with_cells, released, int_max, sizeof_block, null, wrap,
  wrap_sub, table,
}
use assignment2_c.Manager.Cells.{
  read-split, write_used-split, write_size-split, shift_right-split, gap_cell,
  write_start_next-split, write_size_next-split, write_used_next-split,
}
use assignment2_c.Manager.Layout.{block}
use assignment2_c.Manager.Alloc.{
  Realloc, increase_memory_block_array_size, open_gap, split_block, write_parts, return_block,
  take_block,
}

-- `realloc` has memory for one block more, and keeps what it must keep.
abbrev pub HasRoom : Realloc → Type 0
HasRoom realloc =
    (xs junk : BlockTable)
    → (fresh : MemoryBlock) × (realloc (xs ++ junk) ((length xs + 1) * sizeof_block)
        ≡ some (xs ++ fresh ∷ []))

-- `realloc` answers `NULL`.
abbrev pub HasNoRoom : Realloc → Type 0
HasNoRoom realloc = (cells : BlockTable) (bytes : ℕ) → realloc cells bytes ≡ none

abbrev pub unlocked : Manager → Manager
unlocked s = record s { lock_depth = released s.lock_depth }

open_gap-split :
    (s : Manager) (pre : BlockTable) (b : MemoryBlock) (post : BlockTable) (fresh : MemoryBlock)
    (n : ℕ)
    → length pre + length post + 2 ≡ n
    → open_gap (length pre) (table s n (pre ++ (b ∷ post ++ fresh ∷ [])))
      ≡ ok tt (table s n (pre ++ b ∷ gap_cell post fresh ∷ post))
unfolding open_gap
open_gap-split s pre b post fresh n e =
    let r : n - 1 - (length pre + 1) ≡ length post = omega arith in
    rw (lt→ltb (length pre) (n - 1) (omega arith), r)
      (simp append_assoc at (
        shift_right-split (record s { memory_blocks_size = n }) post (pre ++ b ∷ []) fresh (n - 1)
          (omega (arith, length-append pre (b ∷ []), e))))

-- The writes that turn the block at `i` and the free cell behind it into the two parts.
filled :
    (s : Manager) (pre : BlockTable) (b h : MemoryBlock) (post : BlockTable) (size : ℕ)
    → size < b.size
    → b.start_adress + b.size < 2 ^ 64
    → (write_parts size (length pre)) (with_cells s (pre ++ b ∷ h ∷ post))
      ≡ ok true (
          with_cells s (
            pre
            ++ record b { size = size }
              ∷ block (b.start_adress + size) (b.size - size) false
              ∷ post))
unfolding write_parts
filled s pre b h post size less small =
    let start : wrap (b.start_adress + size) ≡ b.start_adress + size = omega arith in
    let rest : wrap_sub b.size size ≡ b.size - size = omega arith in
    rw (
      read-split s pre b (h ∷ post),
      write_start_next-split s pre b h post _,
      write_size_next-split s pre b _ post _,
      write_used_next-split s pre b _ post false,
      write_size-split s pre b _ size,
      start,
      rest,
    )

module _ (realloc : Realloc) (s : Manager) where
  increase-HasRoom :
      (cells cells' : BlockTable) (n : ℕ)
      → n < int_max
      → realloc cells ((n + 1) * sizeof_block) ≡ some cells'
      → increase_memory_block_array_size realloc 1 (table s n cells)
        ≡ ok true (table s (n + 1) cells')
  unfolding increase_memory_block_array_size
  increase-HasRoom cells cells' n h e =
      let w : wrap (n * sizeof_block + 1 * sizeof_block) ≡ (n + 1) * sizeof_block = omega arith in
      rw (w, e, increase_memory_block_array_size) (rw (le→leb (n + 1) int_max (omega arith)))

  increase-HasNoRoom :
      (cells : BlockTable)
      → HasNoRoom realloc
      → increase_memory_block_array_size realloc 1 (with_cells s cells)
        ≡ ok false (unlocked (with_cells s cells))
  unfolding increase_memory_block_array_size
  increase-HasNoRoom cells none_left = rw (none_left cells _, increase_memory_block_array_size)

  pub take_block-exact :
      (pre : BlockTable) (b : MemoryBlock) (post : BlockTable) (size : ℕ)
      → b.size ≡ size
      → take_block realloc size (length pre) (with_cells s (pre ++ b ∷ post))
        ≡ ok b.start_adress
            (unlocked (with_cells s (pre ++ block b.start_adress b.size true ∷ post)))
  unfolding take_block return_block
  take_block-exact pre b post size e =
      let c = block b.start_adress b.size true in
      rw (write_used-split s pre b post true, read-split s pre c post, ==_of_eq b.size size e)
        (rw (read-split s pre c post))

  module _ (pre : BlockTable) (b : MemoryBlock) (post junk : BlockTable) (fresh : MemoryBlock)
      (size n : ℕ) (count : length pre + length post + 1 ≡ n) (few : n < int_max)
      (less : size < b.size) (small : b.start_adress + b.size < 2 ^ 64) where
    -- The two parts stand in the place of the block, and the array has no cell to spare.
    split_block-HasRoom :
        realloc (pre ++ (b ∷ post ++ junk)) ((n + 1) * sizeof_block)
          ≡ some (pre ++ (b ∷ post ++ fresh ∷ []))
        → split_block realloc size (length pre) (table s n (pre ++ (b ∷ post ++ junk)))
          ≡ ok true (
              table s (n + 1) (
                pre
                ++ record b { size = size }
                  ∷ block (b.start_adress + size) (b.size - size) false
                  ∷ post))
    unfolding split_block
    split_block-HasRoom e =
        rw
          (
            increase-HasRoom (pre ++ (b ∷ post ++ junk)) (pre ++ (b ∷ post ++ fresh ∷ [])) n few e,
            open_gap-split s pre b post fresh (n + 1) (omega arith),
          )
          (filled (record s { memory_blocks_size = n + 1 }) pre b (gap_cell post fresh) post size
            less small)

  -- A larger block is split, and the first part is returned.
  pub take_block-split :
      (pre : BlockTable) (b : MemoryBlock) (post junk : BlockTable) (fresh : MemoryBlock)
      (size n : ℕ)
      → length pre + length post + 1 ≡ n
      → n < int_max
      → size < b.size
      → b.start_adress + b.size < 2 ^ 64
      → realloc (pre ++ (record b { is_used = true } ∷ post ++ junk)) ((n + 1) * sizeof_block)
        ≡ some (pre ++ (record b { is_used = true } ∷ post ++ fresh ∷ []))
      → take_block realloc size (length pre) (table s n (pre ++ (b ∷ post ++ junk)))
        ≡ ok b.start_adress (
            unlocked (
              table s (n + 1) (
                pre
                ++ block b.start_adress size true
                  ∷ block (b.start_adress + size) (b.size - size) false
                  ∷ post)))
  unfolding take_block return_block
  take_block-split pre b post junk fresh size n count few less small e =
      let c = block b.start_adress b.size true in
      let s' = record s { memory_blocks_size = n } in
      rw (
        write_used-split s' pre b (post ++ junk) true,
        read-split s' pre c (post ++ junk),
        ==_of_ne b.size size (omega arith),
        split_block-HasRoom pre c post junk fresh size n count few less small e,
        read-split (record s { memory_blocks_size = n + 1 }) pre (block b.start_adress size true)
            (block (b.start_adress + size) (b.size - size) false ∷ post),
      )

-- When `realloc` fails the block is free again, and the lock is released twice.
pub take_block-HasNoRoom :
    (realloc : Realloc) (s : Manager) (pre : BlockTable) (b : MemoryBlock) (post : BlockTable)
    (size : ℕ)
    → HasNoRoom realloc
    → size < b.size
    → take_block realloc size (length pre) (with_cells s (pre ++ b ∷ post))
      ≡ ok null (unlocked (unlocked (with_cells s (pre ++ record b { is_used = false } ∷ post))))
unfolding take_block split_block
take_block-HasNoRoom realloc s pre b post size none_left less =
    let c = block b.start_adress b.size true in
    rw (
      write_used-split s pre b post true,
      read-split s pre c post,
      ==_of_ne b.size size (omega arith),
      increase-HasNoRoom realloc s (pre ++ c ∷ post) none_left,
      write_used-split (unlocked s) pre c post false,
    )
