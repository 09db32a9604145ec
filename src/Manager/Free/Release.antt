-- ===== src/Manager/Free/Release.antt =====
-- What `mem_free` does to the array once the block is found.
use assignment2_c.Prelude.{
  ℕ, suc, ◌+◌, ◌^◌, ◌<◌, ◌≡◌, refl, true, false, not, [], ◌∷◌, ◌++◌, arith, length, length-append,
  length-split, append_assoc, Bool-cases, inl, inr,
}
use assignment2_c.Manager.{MemoryBlock, BlockTable, Manager, Run, ok, table, released, holding}
use assignment2_c.Manager.Cells.{write_used-split, write_used_next-split, last_of}
use assignment2_c.Manager.Layout.{push_block, joined, freed}
use assignment2_c.Manager.Layout.Tiling.{head_size}
use assignment2_c.Manager.Layout.Coalesce.{push_block-joined, push_block-noop}
use assignment2_c.Manager.Free.{release_block}
use assignment2_c.Manager.Free.Merge.{
  merge_right-push_block, merge_left-used, merge_left-free, merge_left-first, right_junk,
}

abbrev pub unlocked : Manager → Manager
unlocked s = record s { lock_depth = released s.lock_depth }

-- The run ends with the live blocks `xs`, and has released the lock.
abbrev pub Leaves : Manager → BlockTable → Run (Unit {0}) → Type 0
Leaves s xs r = (junk : BlockTable) × (r ≡ ok tt (unlocked (holding s xs junk)))

-- The first block is freed.
pub release_block-first :
    (s : Manager) (b : MemoryBlock) (post junk : BlockTable) (n : ℕ)
    → length post + 1 ≡ n
    → b.size + head_size post < 2 ^ 64
    → Leaves s (push_block (freed b) post) (release_block 0 (table s n (b ∷ post ++ junk)))
unfolding release_block
release_block-first s b post junk n count small =
    let m : 0 + length (push_block (freed b) post) ≡ length (push_block (freed b) post) =
      omega arith in
    (
      right_junk post junk,
      rw (
        write_used-split (table s n []) [] b (post ++ junk) false,
        merge_left-first (table s n (freed b ∷ post ++ junk)),
        merge_right-push_block s [] (freed b) post junk n (omega arith) refl small,
        m,
      ),
    )

module _ (s : Manager) (pre : BlockTable) (a b : MemoryBlock) (post junk : BlockTable) (n : ℕ)
    (count : length pre + length post + 2 ≡ n)
    (small : a.size + b.size + head_size post < 2 ^ 64) where
  joined_behind :
      not a.is_used ≡ true
      → Leaves s
          (pre ++ push_block a (push_block (freed b) post))
          (release_block (suc (length pre)) (table s n (pre ++ (a ∷ b ∷ post ++ junk))))
  unfolding release_block
  joined_behind u = (
    right_junk post (last_of (freed b) post ∷ junk),
    rw (
      write_used_next-split (table s n []) pre a b (post ++ junk) false,
      merge_left-free s pre a (freed b) post junk n count u (omega arith),
      merge_right-push_block s pre (joined a (freed b)) post (last_of (freed b) post ∷ junk)
          (length pre + length post + 1) refl u small,
      push_block-joined a (freed b) post u refl,
      length-append pre (push_block (joined a (freed b)) post),
      append_assoc pre (push_block (joined a (freed b)) post)
          (right_junk post (last_of (freed b) post ∷ junk)),
    ),
  )

  kept_behind :
      not a.is_used ≡ false
      → Leaves s
          (pre ++ push_block a (push_block (freed b) post))
          (release_block (suc (length pre)) (table s n (pre ++ (a ∷ b ∷ post ++ junk))))
  unfolding release_block
  kept_behind u =
      let c = push_block (freed b) post in
      let noop : push_block a c ≡ a ∷ c = push_block-noop a c (rw u) in
      let m : length (pre ++ a ∷ []) ≡ suc (length pre) = omega (arith, length-split pre a []) in
      let k : suc (length pre) + length c ≡ length (pre ++ a ∷ c) =
        omega (arith, length-append pre (a ∷ c)) in
      (
        right_junk post junk,
        rw
            (
              write_used_next-split (table s n []) pre a b (post ++ junk) false,
              merge_left-used s pre a (freed b) post junk n count u,
              noop,
              append_assoc pre (a ∷ c) (right_junk post junk),
              ← k,
            )
            (rw (
              simp (append_assoc, m) at
                (merge_right-push_block s (pre ++ a ∷ []) (freed b) post junk n
                  (omega (arith, m, count)) refl (omega (arith, small))))),
      )

  -- The block `b` behind `a` is freed.
  pub release_block-behind :
      Leaves s
        (pre ++ push_block a (push_block (freed b) post))
        (release_block (suc (length pre)) (table s n (pre ++ (a ∷ b ∷ post ++ junk))))
  release_block-behind = elim (Bool-cases (not a.is_used)) [
    | inl u ↦ joined_behind u
    | inr u ↦ kept_behind u
  ]
