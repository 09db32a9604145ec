-- ===== src/Manager/Free/Merge.antt =====
-- What the two merges of `mem_free` do to the array.
use assignment2_c.Prelude.{
  ℕ, suc, ◌+◌, ◌-◌, ◌^◌, ◌<◌, ◌≡◌, refl, true, false, not, [], ◌∷◌, ◌++◌, arith, length,
  length-split, append_assoc, if◌then◌else◌, lt→ltb, ge→ltb, ap, ◌∙◌, Bool, Bool-cases, inl, inr,
}
use assignment2_c.Manager.{MemoryBlock, BlockTable, Manager, ok, wrap, table}
use assignment2_c.Manager.Cells.{
  read-split, read_next-split, write_size-split, shift_left-split, last_of,
}
use assignment2_c.Manager.Layout.{joined, push_block}
use assignment2_c.Manager.Layout.Tiling.{head_size}
use assignment2_c.Manager.Free.{remove_block, previous_free, next_free, merge_left, merge_right}

-- The block is overwritten by those behind it, and one cell more is junk.
pub remove_block-split :
    (s : Manager) (pre : BlockTable) (b : MemoryBlock) (post junk : BlockTable) (i n : ℕ)
    → length pre ≡ i
    → length pre + length post + 1 ≡ n
    → remove_block i (table s n (pre ++ (b ∷ post ++ junk)))
      ≡ ok tt (table s (length pre + length post) (pre ++ (post ++ last_of b post ∷ junk)))
unfolding remove_block
remove_block-split s pre b post junk i n e count =
    let r : n - 1 - i ≡ length post = omega arith in
    let m : n - 1 ≡ length pre + length post = omega arith in
    rw (r, shift_left-split (record s { memory_blocks_size = n }) post pre b junk i e) (rw m)

-- What is left behind the live blocks by the right merge.
abbrev pub right_junk : BlockTable → BlockTable → BlockTable
right_junk [] junk = junk
right_junk (c ∷ cs) junk = if not c.is_used then last_of c cs ∷ junk else junk

module _ (s : Manager) (pre : BlockTable) (b : MemoryBlock) where
  pub merge_right-last :
      (junk : BlockTable) (n : ℕ)
      → length pre + 1 ≡ n
      → merge_right (length pre) (table s n (pre ++ b ∷ junk)) ≡ ok tt (table s n (pre ++ b ∷ junk))
  unfolding merge_right next_free
  merge_right-last junk n count = rw (ge→ltb (length pre) (n - 1) (omega arith))

  module _ (c : MemoryBlock) (post junk : BlockTable) (n : ℕ)
      (count : length pre + length post + 2 ≡ n) where
    pub next_free-split :
        (f : Bool)
        → not c.is_used ≡ f
        → next_free (length pre) (table s n (pre ++ (b ∷ c ∷ post ++ junk)))
          ≡ ok f (table s n (pre ++ (b ∷ c ∷ post ++ junk)))
    unfolding next_free
    next_free-split f e = rw (← e) (
        rw (
          lt→ltb (length pre) (n - 1) (omega arith),
          read_next-split (table s n []) pre b c (post ++ junk),
        ))

    merge_right-used :
        not c.is_used ≡ false
        → merge_right (length pre) (table s n (pre ++ (b ∷ c ∷ post ++ junk)))
          ≡ ok tt (table s n (pre ++ (b ∷ c ∷ post ++ junk)))
    unfolding merge_right
    merge_right-used u = rw (next_free-split false u)

    merge_right-free :
        not c.is_used ≡ true
        → b.size + c.size < 2 ^ 64
        → merge_right (length pre) (table s n (pre ++ (b ∷ c ∷ post ++ junk)))
          ≡ ok tt (
              table s
                (length pre + length post + 1)
                (pre ++ (joined b c ∷ post ++ last_of c post ∷ junk)))
    unfolding merge_right
    merge_right-free u small =
        let d = joined b c in
        let w : wrap (b.size + c.size) ≡ b.size + c.size = omega arith in
        let m : length (pre ++ d ∷ []) + length post ≡ length pre + length post + 1 =
          omega (arith, length-split pre d []) in
        rw (next_free-split true u) (
          rw
            (
              read-split (table s n []) pre b (c ∷ post ++ junk),
              read_next-split (table s n []) pre b c (post ++ junk),
              w,
              write_size-split (table s n []) pre b (c ∷ post ++ junk) (b.size + c.size),
            )
            (simp append_assoc at (
                remove_block-split s (pre ++ d ∷ []) c post junk (suc (length pre)) n
                  (omega (arith, length-split pre d [])) (omega (arith, length-split pre d [])))
              ∙ ap (λ k. ok tt (table s k (pre ++ (d ∷ post ++ last_of c post ∷ junk)))) m))

    merge_right-cons :
        not b.is_used ≡ true
        → b.size + c.size < 2 ^ 64
        → merge_right (length pre) (table s n (pre ++ (b ∷ c ∷ post ++ junk)))
          ≡ ok tt (
              table s
                (length pre + length (push_block b (c ∷ post)))
                (pre ++ (push_block b (c ∷ post) ++ right_junk (c ∷ post) junk)))
    merge_right-cons free small = elim (Bool-cases (not c.is_used)) [
      | inl u ↦
          let m : length pre + suc (length post) ≡ length pre + length post + 1 = omega arith in
          rw (u, free) (rw m (merge_right-free u small))
      | inr u ↦
          let m : length pre + suc (suc (length post)) ≡ n = omega arith in
          rw (u, free) (rw m (merge_right-used u))
    ]

-- The free block `b` is put in front of those behind it.
pub merge_right-push_block :
    (s : Manager) (pre : BlockTable) (b : MemoryBlock) (post junk : BlockTable) (n : ℕ)
    → length pre + length post + 1 ≡ n
    → not b.is_used ≡ true
    → b.size + head_size post < 2 ^ 64
    → merge_right (length pre) (table s n (pre ++ (b ∷ post ++ junk)))
      ≡ ok tt (
          table s
            (length pre + length (push_block b post))
            (pre ++ (push_block b post ++ right_junk post junk)))
merge_right-push_block s pre b [] junk n count free small =
    let m : length pre + 1 ≡ n = omega arith in rw m (merge_right-last s pre b junk n m)
merge_right-push_block s pre b (c ∷ post) junk n count free small =
    merge_right-cons s pre b c post junk n (omega arith) free small

-- The first block has none before it.
pub merge_left-first : (s : Manager) → merge_left 0 s ≡ ok 0 s
unfolding merge_left previous_free
merge_left-first s = refl

-- The block `b` stands behind `a`.
module _ (s : Manager) (pre : BlockTable) (a b : MemoryBlock) (post junk : BlockTable) (n : ℕ)
    (count : length pre + length post + 2 ≡ n) where
  pub previous_free-split :
      (f : Bool)
      → not a.is_used ≡ f
      → previous_free (suc (length pre)) (table s n (pre ++ (a ∷ b ∷ post ++ junk)))
        ≡ ok f (table s n (pre ++ (a ∷ b ∷ post ++ junk)))
  unfolding previous_free
  previous_free-split f e =
      let m : suc (length pre) - 1 ≡ length pre = omega arith in
      rw (← e) (
        rw (
          lt→ltb 0 (suc (length pre)) (omega arith),
          m,
          read-split (table s n []) pre a (b ∷ post ++ junk),
        ))

  pub merge_left-used :
      not a.is_used ≡ false
      → merge_left (suc (length pre)) (table s n (pre ++ (a ∷ b ∷ post ++ junk)))
        ≡ ok (suc (length pre)) (table s n (pre ++ (a ∷ b ∷ post ++ junk)))
  unfolding merge_left
  merge_left-used u = rw (previous_free-split false u)

  pub merge_left-free :
      not a.is_used ≡ true
      → a.size + b.size < 2 ^ 64
      → merge_left (suc (length pre)) (table s n (pre ++ (a ∷ b ∷ post ++ junk)))
        ≡ ok (length pre) (
            table s
              (length pre + length post + 1)
              (pre ++ (joined a b ∷ post ++ last_of b post ∷ junk)))
  unfolding merge_left
  merge_left-free u small =
      let d = joined a b in
      let w : wrap (a.size + b.size) ≡ a.size + b.size = omega arith in
      let m : suc (length pre) - 1 ≡ length pre = omega arith in
      let k : length (pre ++ d ∷ []) + length post ≡ length pre + length post + 1 =
        omega (arith, length-split pre d []) in
      rw (previous_free-split true u) (
        rw (
          m,
          read-split (table s n []) pre a (b ∷ post ++ junk),
          read_next-split (table s n []) pre a b (post ++ junk),
          w,
          write_size-split (table s n []) pre a (b ∷ post ++ junk) (a.size + b.size),
          simp append_assoc at (
              remove_block-split s (pre ++ d ∷ []) b post junk (suc (length pre)) n
                (omega (arith, length-split pre d [])) (omega (arith, length-split pre d []))),
          k,
        ))
