-- ===== src/Manager/Resize/Branches.antt =====
-- The branches of `mem_resize` for a block that is handed out, with what stands before and behind it.
use assignment2_c.Prelude.{
  ℕ, ◌+◌, ◌^◌, ◌≡◌, ◌≤◌, ◌<◌, ◌⊎◌, refl, true, false, not, ◌&&◌, ◌∷◌, ◌++◌, arith, length,
  length-append, append_assoc, Bool-cases, inl, inr, ◌∙◌, sym, ap, leb,
}
use assignment2_c.Manager.{
  Adress, null, MemoryBlock, BlockTable, Manager, Run, ok, holding, int_max, read,
}
use assignment2_c.Manager.Cells.{read-split}
use assignment2_c.Manager.Layout.{IsValid, freed, coalesce, mark_free}
use assignment2_c.Manager.Layout.FirstFit.{NoFit}
use assignment2_c.Manager.Layout.Room.{length-coalesce, length-mark_free}
use assignment2_c.Manager.Layout.Tiling.{head_size-le, IsTiling-rest}
use assignment2_c.Manager.Layout.Used.{used, without, used-mark_free}
use assignment2_c.Manager.Layout.Ranges.{In}
use assignment2_c.Manager.Alloc.{Realloc}
use assignment2_c.Manager.Alloc.Take.{HasRoom}
use assignment2_c.Manager.Free.Coalesce.{start-ne-null, mem_free-coalesce}
use assignment2_c.Manager.Free.TakeBack.{coalesce-IsValid, used-coalesce-mark_free}
use assignment2_c.Manager.Resize.{available_size, next_suffices, grow_right, replace_block, grow}
use assignment2_c.Manager.Resize.Replace.{Resized, locked, IsValid-same, replace_block-Resized}
use assignment2_c.Manager.Resize.Move.{move_block-Resized}
use assignment2_c.Manager.Resize.Room.{next_suffices-split}
use assignment2_c.Manager.Resize.Right.{grow_right-grown, grown}
use assignment2_c.Manager.Resize.Grown.{mark_free-split, grown-IsValid, grown-Inserted, used-append}

-- Either nothing has changed, since the block was to grow and no free block was large enough, or
-- the block has been resized.
abbrev pub Outcome : Manager → BlockTable → BlockTable → Adress → ℕ → ℕ → Run Adress → Type 0
Outcome s xs junk p old size r =
    ((r ≡ ok null (holding s xs junk)) × (old < size) × NoFit size xs) ⊎ Resized s xs p old size r

module _ (realloc : Realloc) (s : Manager) (pre : BlockTable) (b : MemoryBlock)
    (post junk : BlockTable) (size : ℕ) (v : IsValid s (pre ++ b ∷ post))
    (in_use : b.is_used ≡ true) where
  abbrev given : Manager
  given = holding (locked s) (pre ++ b ∷ post) junk

  abbrev IsResized : Run Adress → Type 0
  IsResized = Resized s (pre ++ b ∷ post) b.start_adress b.size size

  pub IsValid-inside : IsValid (locked s) (pre ++ b ∷ post)
  IsValid-inside = IsValid-same s (locked s) (pre ++ b ∷ post) refl refl v

  pub read_here : read (length pre) given ≡ ok b given
  read_here = rw (append_assoc pre (b ∷ post) junk) (read-split given pre b (post ++ junk))

  without_here : without b.start_adress (used (pre ++ b ∷ post)) ≡ used pre ++ used post
  unfolding used
  without_here =
      sym (used-mark_free b.start_adress (pre ++ b ∷ post) _ _ v.tiling)
      ∙ ap used (mark_free-split b post pre _ _ v.tiling)
      ∙ used-append pre (freed b ∷ post)

  used_here : b.size ≡ size → used (b ∷ post) ≡ (b.start_adress, size) ∷ used post
  unfolding used
  used_here e = ground arith

  -- The block has the size already.
  pub unchanged : b.size ≡ size → IsResized (ok b.start_adress (holding s (pre ++ b ∷ post) junk))
  unchanged e = record {
    adress = b.start_adress;
    blocks = pre ++ b ∷ post;
    junk = junk;
    bytes = s.bytes;
    returns = refl;
    ne_null = start-ne-null s pre b post v;
    valid = v;
    inserted = (
      used pre,
      used post,
      without_here,
      used-append pre (b ∷ post) ∙ ap (λ l. used pre ++ l) (used_here e),
    );
    content = λ k h l. refl;
    others = λ q m k h l. refl;
  }

  module _ (room : HasRoom realloc) (pos : 0 < size)
      (few : length (pre ++ b ∷ post) < int_max) where
    pub replaced :
        (n : ℕ)
        → n ≤ size
        → ((k : ℕ) → k < b.size → k < size → k < n)
        → ¬ NoFit size (coalesce (pre ++ freed b ∷ post))
        → IsResized (replace_block realloc b.start_adress size n given)
    replaced n small enough fit =
        let p = b.start_adress in
        let xs = pre ++ b ∷ post in
        let (junk', e) = mem_free-coalesce (locked s) xs junk p IsValid-inside in
        replace_block-Resized realloc s xs (coalesce (mark_free p xs)) junk junk' p b.size size n e
          (used-coalesce-mark_free s xs p v) (start-ne-null s pre b post v) room pos
          (omega (arith, length-coalesce (mark_free p xs), length-mark_free p xs))
          (coalesce-IsValid s xs p v) (rw (mark_free-split b post pre _ _ v.tiling) fit) small
          enough

    pub grow_elsewhere :
        (w : ℕ)
        → In b.start_adress b.size (used (pre ++ b ∷ post))
        → 0 < b.size
        → b.size < size
        → next_suffices (length pre) size given ≡ ok false given
        → available_size (length pre) given ≡ ok w given
        → ((n : ℕ) → n ≤ w → ¬ NoFit n (coalesce (pre ++ freed b ∷ post)))
        → Outcome s
            (pre ++ b ∷ post)
            junk
            b.start_adress
            b.size
            size
            (grow realloc (length pre) b.start_adress size given)
    unfolding grow
    grow_elsewhere w there some_bytes larger not_right computed enough =
        rw (not_right, computed, read_here)
          (elim (Bool-cases (leb size w)) [
            | inl e ↦
                rw e (inr (replaced b.size (omega arith) (λ k h l. h) (enough size (ground arith))))
            | inr e ↦
                rw e
                  (elim (move_block-Resized realloc s (pre ++ b ∷ post) junk b.start_adress b.size
                    size v (start-ne-null s pre b post v) there some_bytes larger room few) [
                      | inl (f, none_fits) ↦ inl (f, larger, none_fits)
                      | inr r ↦ inr r
                    ])
          ])

-- The block grows over a part of the free block `c` behind it, or over all of it.
module _ (realloc : Realloc) (s : Manager) (pre : BlockTable) (b c : MemoryBlock)
    (post junk : BlockTable) (size : ℕ) (v : IsValid s (pre ++ b ∷ c ∷ post))
    (in_use : b.is_used ≡ true) where
  in_range : b.start_adress + b.size + c.size < 2 ^ 64
  in_range =
      let (m, le, t) = IsTiling-rest pre (b ∷ c ∷ post) _ _ v.tiling in
      omega (arith, v.in_range, t, head_size-le (c ∷ post) _ _ t.2)

  pub grow_right-Resized :
      not c.is_used ≡ true
      → b.size < size
      → size ≤ b.size + c.size
      → Resized s (pre ++ b ∷ c ∷ post) b.start_adress b.size size (
          grow_right
            (length pre)
            b.start_adress
            size
            (holding (locked s) (pre ++ b ∷ c ∷ post) junk))
  grow_right-Resized free less room =
      let count : length pre + length post + 2 ≡ length (pre ++ b ∷ c ∷ post) =
        omega (arith, length-append pre (b ∷ c ∷ post)) in
      let (junk', e) =
        grow_right-grown (locked s) pre b c post junk _ b.start_adress size count less room
          in_range in
      record {
        adress = b.start_adress;
        blocks = pre ++ grown size b c post;
        junk = junk';
        bytes = s.bytes;
        returns = rw (append_assoc pre (b ∷ c ∷ post) junk) e;
        ne_null = start-ne-null s pre b (c ∷ post) v;
        valid = grown-IsValid s pre b c post size v in_use free (omega arith) room;
        inserted = grown-Inserted s pre b c post size v in_use free (omega arith) room;
        content = λ k h l. refl;
        others = λ q m k h l. refl;
      }

  pub suffices :
      next_suffices (length pre) size (holding (locked s) (pre ++ b ∷ c ∷ post) junk)
      ≡ ok
          (not c.is_used && leb size (b.size + c.size))
          (holding (locked s) (pre ++ b ∷ c ∷ post) junk)
  suffices = rw (append_assoc pre (b ∷ c ∷ post) junk) (
      next_suffices-split (locked s) pre b c post junk (length (pre ++ b ∷ c ∷ post)) size
        (omega (arith, length-append pre (b ∷ c ∷ post))) (omega (arith, in_range)))
