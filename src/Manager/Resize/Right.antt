-- ===== src/Manager/Resize/Right.antt =====
-- What `mem_resize` does when the block grows over the free block behind it.
use assignment2_c.Prelude.{
  ℕ, suc, ◌+◌, ◌-◌, ◌^◌, ◌≡◌, ◌≤◌, ◌<◌, true, false, [], ◌∷◌, ◌++◌, arith, length, length-append,
  append_assoc, Bool-cases, inl, inr, if◌then◌else◌, ◌==◌, ==_of_ne, ==_of_eq, eq_of_==, ne_of_==,
}
use assignment2_c.Manager.{MemoryBlock, BlockTable, Manager, ok, table, holding, wrap, wrap_sub}
use assignment2_c.Manager.Cells.{
  read-split, read_next-split, write_size-split, write_size_next-split, write_start_next-split,
  last_of,
}
use assignment2_c.Manager.Free.Merge.{remove_block-split}
use assignment2_c.Manager.Free.Release.{unlocked}
use assignment2_c.Manager.Resize.{grow_right}

-- `b` takes `size` bytes of its own and those of `c`. What is left of `c` stays, if anything is.
abbrev pub grown : ℕ → MemoryBlock → MemoryBlock → BlockTable → BlockTable
grown size b c post =
    if b.size + c.size == size
    then record b { size = size } ∷ post
    else record b { size = size }
      ∷ record {
        start_adress = b.start_adress + size;
        size = b.size + c.size - size;
        is_used = c.is_used;
      }
      ∷ post

module _ (s : Manager) (pre : BlockTable) (b c : MemoryBlock) (post junk : BlockTable)
    (n p size : ℕ) (count : length pre + length post + 2 ≡ n) (less : b.size < size)
    (room : size ≤ b.size + c.size) (small : b.start_adress + b.size + c.size < 2 ^ 64) where
  abbrev left_over : MemoryBlock
  left_over = record {
    start_adress = b.start_adress + size;
    size = b.size + c.size - size;
    is_used = c.is_used;
  }

  grow_right-rest :
      b.size + c.size == size ≡ false
      → grow_right (length pre) p size (table s n (pre ++ (b ∷ c ∷ post ++ junk)))
        ≡ ok p (unlocked (table s n (pre ++ (record b { size = size } ∷ left_over ∷ post ++ junk))))
  unfolding grow_right
  grow_right-rest e =
      let w : wrap_sub (wrap (c.size + b.size)) size ≡ b.size + c.size - size = omega arith in
      let a : wrap (size + b.start_adress) ≡ b.start_adress + size = omega arith in
      rw (
        read_next-split (table s n []) pre b c (post ++ junk),
        read-split (table s n []) pre b (c ∷ post ++ junk),
        w,
        write_size_next-split (table s n []) pre b c (post ++ junk) (b.size + c.size - size),
        write_size-split (table s n []) pre b _ size,
        read-split (table s n []) pre (record b { size = size }) _,
        a,
        write_start_next-split (table s n []) pre (record b { size = size }) _ (post ++ junk) _,
        read_next-split (table s n []) pre (record b { size = size }) left_over (post ++ junk),
        ==_of_ne (b.size + c.size - size) 0 (λ z. ne_of_== _ _ e (omega (arith, z))),
      )

  grow_right-whole :
      b.size + c.size == size ≡ true
      → grow_right (length pre) p size (table s n (pre ++ (b ∷ c ∷ post ++ junk)))
        ≡ ok p (
            unlocked (
              table s
                (length pre + length post + 1)
                (pre ++ (record b { size = size } ∷ post ++ last_of left_over post ∷ junk))))
  unfolding grow_right
  grow_right-whole e =
      let d = record b { size = size } in
      let w : wrap_sub (wrap (c.size + b.size)) size ≡ b.size + c.size - size = omega arith in
      let a : wrap (size + b.start_adress) ≡ b.start_adress + size = omega arith in
      let after : length (pre ++ d ∷ []) ≡ suc (length pre) =
        omega (arith, length-append pre (d ∷ [])) in
      let k : length (pre ++ d ∷ []) + length post ≡ length pre + length post + 1 =
        omega (arith, after) in
      rw (
        read_next-split (table s n []) pre b c (post ++ junk),
        read-split (table s n []) pre b (c ∷ post ++ junk),
        w,
        write_size_next-split (table s n []) pre b c (post ++ junk) (b.size + c.size - size),
        write_size-split (table s n []) pre b _ size,
        read-split (table s n []) pre d _,
        a,
        write_start_next-split (table s n []) pre d _ (post ++ junk) _,
        read_next-split (table s n []) pre d left_over (post ++ junk),
        ==_of_eq (b.size + c.size - size) 0 (omega (arith, eq_of_== _ _ e)),
        simp append_assoc at (
            remove_block-split s (pre ++ d ∷ []) left_over post junk (suc (length pre)) n after
              (omega (arith, after))),
        k,
      )

  -- The live blocks afterwards.
  pub grow_right-grown :
      (junk' : BlockTable) × (grow_right
          (length pre)
          p
          size
          (table s n (pre ++ (b ∷ c ∷ post ++ junk)))
        ≡ ok p (unlocked (holding s (pre ++ grown size b c post) junk')))
  grow_right-grown = elim (Bool-cases (b.size + c.size == size)) [
    | inl e ↦ (
      last_of left_over post ∷ junk,
      rw e (
          let k : length (pre ++ record b { size = size } ∷ post) ≡ length pre + length post + 1 =
            omega (arith, length-append pre (record b { size = size } ∷ post)) in
          rw (k, append_assoc pre (record b { size = size } ∷ post) (last_of left_over post ∷ junk))
            (grow_right-whole e)),
    )
    | inr e ↦ (
      junk,
      rw e (
          let k : length (pre ++ record b { size = size } ∷ left_over ∷ post) ≡ n =
            omega (arith, length-append pre (record b { size = size } ∷ left_over ∷ post)) in
          rw (k, append_assoc pre (record b { size = size } ∷ left_over ∷ post) junk)
            (grow_right-rest e)),
    )
  ]
