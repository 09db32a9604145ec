-- ===== src/Manager/Resize/Room.antt =====
-- What `mem_resize` computes as the size that is available, and that freeing the block makes room
-- for this size.
use assignment2_c.Prelude.{
  ℕ, suc, ◌+◌, ◌-◌, ◌^◌, ◌≡◌, ◌≤◌, ◌<◌, true, false, not, [], ◌∷◌, ◌++◌, arith, length,
  length-append, append_assoc, Bool-cases, last-cases, inl, inr, ◌&&◌, leb, ge→ltb,
}
use assignment2_c.Manager.{MemoryBlock, BlockTable, Manager, ok, table, holding, wrap, with_cells}
use assignment2_c.Manager.Cells.{read-split, read_next-split}
use assignment2_c.Manager.Layout.{IsValid, freed, coalesce}
use assignment2_c.Manager.Layout.FirstFit.{NoFit}
use assignment2_c.Manager.Layout.Tiling.{head_size, head_size-le, IsTiling-rest}
use assignment2_c.Manager.Layout.Room.{free_size, freed-fits, freed-fits_behind, freed-fits_joined}
use assignment2_c.Manager.Free.{previous_free, next_free}
use assignment2_c.Manager.Free.Merge.{next_free-split, previous_free-split}
use assignment2_c.Manager.Resize.{available_size, next_suffices}

-- The test for a free block behind, at the last block and at one with a block `c` behind it.
next_free-last :
    (s : Manager) (pre : BlockTable) (b : MemoryBlock) (junk : BlockTable) (n : ℕ)
    → length pre + 1 ≡ n
    → next_free (length pre) (table s n (pre ++ b ∷ junk)) ≡ ok false (table s n (pre ++ b ∷ junk))
unfolding next_free
next_free-last s pre b junk n count = rw (ge→ltb (length pre) (n - 1) (omega arith))

pub next_suffices-last :
    (s : Manager) (pre : BlockTable) (b : MemoryBlock) (junk : BlockTable) (n size : ℕ)
    → length pre + 1 ≡ n
    → next_suffices (length pre) size (table s n (pre ++ b ∷ junk))
      ≡ ok false (table s n (pre ++ b ∷ junk))
unfolding next_suffices
next_suffices-last s pre b junk n size count = rw (next_free-last s pre b junk n count)

-- The block `b` behind the free block `a`.
module _ (s : Manager) (pre : BlockTable) (a b : MemoryBlock) (n : ℕ) where
  after_a : length (pre ++ a ∷ []) ≡ suc (length pre)
  after_a = omega (arith, length-append pre (a ∷ []))

  available_behind-last :
      (junk : BlockTable)
      → length pre + 2 ≡ n
      → not a.is_used ≡ true
      → a.size + b.size < 2 ^ 64
      → available_size (suc (length pre)) (table s n (pre ++ (a ∷ b ∷ junk)))
        ≡ ok (a.size + b.size + 0) (table s n (pre ++ (a ∷ b ∷ junk)))
  unfolding available_size
  available_behind-last junk count free small =
      let m : suc (length pre) - 1 ≡ length pre = omega arith in
      let w : wrap (b.size + a.size) ≡ a.size + b.size + 0 = omega arith in
      rw (
        read_next-split (table s n []) pre a b junk,
        previous_free-split s pre a b [] junk n (omega arith) true free,
        m,
        read-split (table s n []) pre a (b ∷ junk),
        simp (append_assoc, after_a) at
            (next_free-last s (pre ++ a ∷ []) b junk n (omega (arith, after_a))),
        w,
      )

  module _ (c : MemoryBlock) (post junk : BlockTable) (count : length pre + length post + 3 ≡ n)
      (free : not a.is_used ≡ true) where
    available_behind-used :
        not c.is_used ≡ false
        → a.size + b.size < 2 ^ 64
        → available_size (suc (length pre)) (table s n (pre ++ (a ∷ b ∷ c ∷ post ++ junk)))
          ≡ ok (a.size + b.size + 0) (table s n (pre ++ (a ∷ b ∷ c ∷ post ++ junk)))
    unfolding available_size
    available_behind-used u small =
        let m : suc (length pre) - 1 ≡ length pre = omega arith in
        let w : wrap (b.size + a.size) ≡ a.size + b.size + 0 = omega arith in
        rw (
          read_next-split (table s n []) pre a b (c ∷ post ++ junk),
          previous_free-split s pre a b (c ∷ post) junk n (omega arith) true free,
          m,
          read-split (table s n []) pre a (b ∷ c ∷ post ++ junk),
          simp (append_assoc, after_a) at
              (next_free-split s (pre ++ a ∷ []) b c post junk n (omega (arith, after_a)) false u),
          w,
        )

    available_behind-free :
        not c.is_used ≡ true
        → a.size + b.size + c.size < 2 ^ 64
        → available_size (suc (length pre)) (table s n (pre ++ (a ∷ b ∷ c ∷ post ++ junk)))
          ≡ ok (a.size + b.size + c.size) (table s n (pre ++ (a ∷ b ∷ c ∷ post ++ junk)))
    unfolding available_size
    available_behind-free u small =
        let m : suc (length pre) - 1 ≡ length pre = omega arith in
        let w : wrap (wrap (b.size + a.size) + c.size) ≡ a.size + b.size + c.size = omega arith in
        rw (
          read_next-split (table s n []) pre a b (c ∷ post ++ junk),
          previous_free-split s pre a b (c ∷ post) junk n (omega arith) true free,
          m,
          read-split (table s n []) pre a (b ∷ c ∷ post ++ junk),
          simp (append_assoc, after_a) at
              (next_free-split s (pre ++ a ∷ []) b c post junk n (omega (arith, after_a)) true u),
          simp (append_assoc, after_a) at
              (read_next-split (table s n []) (pre ++ a ∷ []) b c (post ++ junk)),
          w,
        )

-- The three cases in one.
available_behind :
    (s : Manager) (pre : BlockTable) (a b : MemoryBlock) (post junk : BlockTable) (n : ℕ)
    → length pre + length post + 2 ≡ n
    → not a.is_used ≡ true
    → a.size + b.size + head_size post < 2 ^ 64
    → available_size (suc (length pre)) (table s n (pre ++ (a ∷ b ∷ post ++ junk)))
      ≡ ok (a.size + b.size + free_size post) (table s n (pre ++ (a ∷ b ∷ post ++ junk)))
available_behind s pre a b [] junk n count free small =
    available_behind-last s pre a b n junk (omega arith) free (omega arith)
available_behind s pre a b (c ∷ post) junk n count free small = elim (Bool-cases (not c.is_used)) [
  | inl u ↦ rw u (available_behind-free s pre a b n c post junk (omega arith) free u small)
  | inr u ↦ rw u (available_behind-used s pre a b n c post junk (omega arith) free u (omega arith))
]

-- In front there is no block, or one that is in use.
available_own :
    (s : Manager) (pre : BlockTable) (a b : MemoryBlock) (post junk : BlockTable) (n : ℕ)
    → length pre + length post + 2 ≡ n
    → not a.is_used ≡ false
    → available_size (suc (length pre)) (table s n (pre ++ (a ∷ b ∷ post ++ junk)))
      ≡ ok b.size (table s n (pre ++ (a ∷ b ∷ post ++ junk)))
unfolding available_size
available_own s pre a b post junk n count u = rw (
  read_next-split (table s n []) pre a b (post ++ junk),
  previous_free-split s pre a b post junk n count false u,
)

available_first :
    (s : Manager) (b : MemoryBlock) (junk : BlockTable)
    → available_size 0 (with_cells s (b ∷ junk)) ≡ ok b.size (with_cells s (b ∷ junk))
unfolding available_size previous_free
available_first s b junk = rw (read-split s [] b junk)

-- What the code computes, and that this many bytes can be allocated once the block is free.
pub record Available (s : Manager) (pre : BlockTable) (b : MemoryBlock) (post junk : BlockTable)
    : Type 0 where
  pub size : ℕ
  pub computed :
      available_size (length pre) (holding s (pre ++ b ∷ post) junk)
      ≡ ok size (holding s (pre ++ b ∷ post) junk)
  pub enough : (n : ℕ) → n ≤ size → ¬ NoFit n (coalesce (pre ++ freed b ∷ post))

available_after :
    (s : Manager) (pre : BlockTable) (a b : MemoryBlock) (post junk : BlockTable)
    → IsValid s (pre ++ a ∷ b ∷ post)
    → (w : ℕ) × (available_size (suc (length pre)) (holding s (pre ++ a ∷ b ∷ post) junk)
        ≡ ok w (holding s (pre ++ a ∷ b ∷ post) junk))
      × ((n : ℕ) → n ≤ w → ¬ NoFit n (coalesce (pre ++ a ∷ freed b ∷ post)))
available_after s pre a b post junk v =
    let (m, le, t) = IsTiling-rest pre (a ∷ b ∷ post) _ _ v.tiling in
    let n : ℕ = length (pre ++ a ∷ b ∷ post) in
    let count : length pre + length post + 2 ≡ n =
      omega (arith, length-append pre (a ∷ b ∷ post)) in
    elim (Bool-cases (not a.is_used)) [
      | inl u ↦ (
        a.size + b.size + free_size post,
        rw (append_assoc pre (a ∷ b ∷ post) junk) (
            available_behind s pre a b post junk n count u
              (omega (arith, v.in_range, le, t, head_size-le post _ _ t.2.2))),
        λ k h. freed-fits_joined k pre a b post v.merged u h,
      )
      | inr u ↦ (
        b.size,
        rw (append_assoc pre (a ∷ b ∷ post) junk) (available_own s pre a b post junk n count u),
        λ k h. freed-fits_behind k pre a b post v.merged (omega arith),
      )
    ]

pub available :
    (s : Manager) (pre : BlockTable) (b : MemoryBlock) (post junk : BlockTable)
    → IsValid s (pre ++ b ∷ post)
    → Available s pre b post junk
available s pre b post junk v = elim (last-cases pre) [
  | inl e ↦
      let v' : IsValid s (b ∷ post) = rw e at v in
      rw e (record {
        size = b.size;
        computed = available_first (holding s (b ∷ post) junk) b (post ++ junk);
        enough = λ n h. freed-fits n [] b post v'.merged (omega arith);
      })
  | inr (ys, a, e) ↦
      let v' : IsValid s (ys ++ a ∷ b ∷ post) =
        rw (append_assoc ys (a ∷ []) (b ∷ post)) at (rw e at v) in
      let (w, f, g) = available_after s ys a b post junk v' in
      let m : length (ys ++ a ∷ []) ≡ suc (length ys) = omega (arith, length-append ys (a ∷ [])) in
      rw e (record {
        size = w;
        computed = rw (append_assoc ys (a ∷ []) (b ∷ post), m) f;
        enough = λ n h. rw (append_assoc ys (a ∷ []) (freed b ∷ post)) (g n h);
      })
]

-- The test for room behind the block `b`, with `c` behind it.
pub next_suffices-split :
    (s : Manager) (pre : BlockTable) (b c : MemoryBlock) (post junk : BlockTable) (n size : ℕ)
    → length pre + length post + 2 ≡ n
    → b.size + c.size < 2 ^ 64
    → next_suffices (length pre) size (table s n (pre ++ (b ∷ c ∷ post ++ junk)))
      ≡ ok (not c.is_used && leb size (b.size + c.size)) (table s n (pre ++ (b ∷ c ∷ post ++ junk)))
unfolding next_suffices
next_suffices-split s pre b c post junk n size count small =
    let w : wrap (c.size + b.size) ≡ b.size + c.size = omega arith in
    elim (Bool-cases (not c.is_used)) [
      | inl u ↦
          rw (next_free-split s pre b c post junk n count true u, u)
            (rw (
              read_next-split (table s n []) pre b c (post ++ junk),
              read-split (table s n []) pre b (c ∷ post ++ junk),
              w,
            ))
      | inr u ↦ rw (next_free-split s pre b c post junk n count false u, u)
    ]
