-- ===== src/Manager/Resize/Failure.antt =====
-- Calls of `mem_resize` that do not resize a block.
use assignment2_c.Prelude.{
  ℕ, suc, ◌+◌, ◌≡◌, ◌≢◌, ◌<◌, ◌⊎◌, refl, false, none, some, [], ◌∷◌, ◌++◌, arith, length,
  Bool-cases, inl, inr, ◌==◌, ◌∙◌, ==_of_ne, eq_of_==, ne_of_==, lt→ltb, ge→ltb, sym, append_assoc,
}
use assignment2_c.Manager.{
  Adress, null, MemoryBlock, table, BlockTable, Manager, ok, fault, holding,
}
use assignment2_c.Manager.Layout.{IsValid, mark_free, coalesce}
use assignment2_c.Manager.Layout.Used.{used}
use assignment2_c.Manager.Layout.Ranges.{In}
use assignment2_c.Manager.Alloc.{Realloc, mem_alloc}
use assignment2_c.Manager.Free.{mem_free}
use assignment2_c.Manager.Free.Search.{index_of}
use assignment2_c.Manager.Free.Coalesce.{start-ne-null, mem_free-coalesce}
use assignment2_c.Manager.Cells.{read-split}
use assignment2_c.Manager.Layout.Tiling.{IsTiling-rest}
use assignment2_c.Manager.Alloc.Take.{HasNoRoom}
use assignment2_c.Manager.Alloc.NoMemory.{candidate, mem_alloc-HasNoRoom}
use assignment2_c.Manager.Resize.Grown.{In-UsedBlock, index_of-split}
use assignment2_c.Manager.Resize.Replace.{locked, IsValid-same, memmove_lem}
use assignment2_c.Manager.Resize.{moved, mem_resize, resize_at, replace_block, memmove}
use assignment2_c.Manager.Resize.Search.{find_last-index_of}

-- A call for fewer bytes frees the block first.
smaller_found :
    (realloc : Realloc) (s : Manager) (pre : BlockTable) (b : MemoryBlock) (post junk : BlockTable)
    (size : ℕ)
    → IsValid s (pre ++ b ∷ post)
    → size < b.size
    → mem_resize realloc b.start_adress size (holding s (pre ++ b ∷ post) junk)
      ≡ replace_block realloc b.start_adress size size (holding (locked s) (pre ++ b ∷ post) junk)
unfolding mem_resize resize_at
smaller_found realloc s pre b post junk size v less =
    let z : 0 + length pre ≡ length pre = omega arith in
    rw (
      ==_of_ne b.start_adress null (start-ne-null s pre b post v),
      find_last-index_of (locked s) b.start_adress (pre ++ b ∷ post) junk _ _ v.tiling,
      index_of-split b post pre 0 _ _ v.tiling,
      z,
      append_assoc pre (b ∷ post) junk,
      read-split (table (locked s) (length (pre ++ b ∷ post)) []) pre b (post ++ junk),
      ==_of_ne b.size size (omega arith),
      ge→ltb b.size size (omega arith),
      lt→ltb size b.size less,
    )

module _ (realloc : Realloc) (s : Manager) (xs junk : BlockTable) (p old : ℕ) (v : IsValid s xs)
    (there : In p old (used xs)) where
  smaller :
      (size : ℕ)
      → size < old
      → mem_resize realloc p size (holding s xs junk)
        ≡ replace_block realloc p size size (holding (locked s) xs junk)
  smaller size less =
      let u = In-UsedBlock p old xs there in
      rw (← u.starts, u.whole)
        (smaller_found realloc s u.before u.here u.after junk size (rw u.whole at v)
          (omega (arith, u.long)))

  there-ne-null : p ≢ null
  there-ne-null e =
      let u = In-UsedBlock p old xs there in
      start-ne-null s u.before u.here u.after (rw u.whole at v) (u.starts ∙ e)

  there-pos : 0 < old
  there-pos =
      let u = In-UsedBlock p old xs there in
      let (m, le, t) = IsTiling-rest u.before (u.here ∷ u.after) _ _ (rw u.whole at v.tiling) in
      omega (arith, t.1, u.long)

  IsValid-locked : IsValid (locked s) xs
  IsValid-locked = IsValid-same s (locked s) xs refl refl v

  no_byte : (bytes : Adress → ℕ) (to from a : Adress) → moved bytes to from 0 a ≡ bytes a
  no_byte bytes to from a = ground arith

  no_bytes : (bytes : Adress → ℕ) (to from : Adress) → moved bytes to from 0 ≡ bytes
  no_bytes bytes to from i a = no_byte bytes to from a i

  replace_block-zero :
      (ys junk' : BlockTable)
      → mem_free p (holding (locked s) xs junk) ≡ ok tt (holding (locked s) ys junk')
      → replace_block realloc p 0 0 (holding (locked s) xs junk)
        ≡ ok s.mem_pool_start (holding s ys junk')
  unfolding replace_block mem_alloc
  replace_block-zero ys junk' e = elim (Bool-cases (s.mem_pool_start == p)) [
    | inl same ↦ rw (e, same, eq_of_== s.mem_pool_start p same)
    | inr other ↦ rw (
      e,
      other,
      memmove_lem (holding (locked s) ys junk') s.mem_pool_start p 0 v.started there-ne-null,
      no_bytes s.bytes s.mem_pool_start p,
    )
  ]

  -- `mem_resize` to the size 0, of a block that is handed out, frees the block and returns the
  -- start of the pool, whatever block is there.
  pub mem_resize-zero :
      (junk' : BlockTable) × (mem_resize realloc p 0 (holding s xs junk)
        ≡ ok s.mem_pool_start (holding s (coalesce (mark_free p xs)) junk'))
  mem_resize-zero =
      let (junk', e) = mem_free-coalesce (locked s) xs junk p IsValid-locked in
      (junk', smaller 0 there-pos ∙ replace_block-zero (coalesce (mark_free p xs)) junk' e)

  replace_block-fault :
      (size : ℕ) (ys junk' : BlockTable) (c : MemoryBlock)
      → HasNoRoom realloc
      → 0 < size
      → mem_free p (holding (locked s) xs junk) ≡ ok tt (holding (locked s) ys junk')
      → candidate size ys ≡ some c
      → c.size ≢ size
      → replace_block realloc p size size (holding (locked s) xs junk) ≡ fault
  unfolding replace_block memmove
  replace_block-fault size ys junk' c none_left pos e f ne =
      let given : (null == p) ≡ false = ==_of_ne null p (λ z. there-ne-null (sym z)) in
      rw (e, mem_alloc-HasNoRoom realloc none_left size (locked s) ys junk' c pos f ne, given)

  -- When a block that is handed out is to become smaller, `realloc` fails, and the block that the
  -- search then stops at has to be split, `mem_resize` calls `memmove` with `NULL`.
  pub mem_resize-HasNoRoom :
      (size : ℕ) (c : MemoryBlock)
      → HasNoRoom realloc
      → 0 < size
      → size < old
      → candidate size (coalesce (mark_free p xs)) ≡ some c
      → c.size ≢ size
      → mem_resize realloc p size (holding s xs junk) ≡ fault
  mem_resize-HasNoRoom size c none_left pos less f ne =
      let (junk', e) = mem_free-coalesce (locked s) xs junk p IsValid-locked in
      smaller size less
      ∙ replace_block-fault size (coalesce (mark_free p xs)) junk' c none_left pos e f ne

-- No block begins at `p`.
abbrev pub IsAbsent : Adress → BlockTable → Type 0
IsAbsent p [] = Unit {0}
IsAbsent p (b ∷ bs) = (b.start_adress ≢ p) × IsAbsent p bs

index_of-IsAbsent : (p k : ℕ) (xs : BlockTable) → IsAbsent p xs → index_of p k xs ≡ none
unfolding index_of
index_of-IsAbsent p k [] a = refl
index_of-IsAbsent p k (b ∷ bs) a =
    rw (==_of_ne b.start_adress p a.0) (index_of-IsAbsent p (suc k) bs a.1)

-- `mem_resize` of `NULL`, or of an address in a valid pool where no block begins, returns `NULL` and
-- changes nothing.
pub mem_resize-IsAbsent :
    (realloc : Realloc) (s : Manager) (xs junk : BlockTable) (p size : ℕ)
    → IsValid s xs
    → (p ≡ null) ⊎ IsAbsent p xs
    → mem_resize realloc p size (holding s xs junk) ≡ ok null (holding s xs junk)
unfolding mem_resize resize_at
mem_resize-IsAbsent realloc s xs junk p size v h = elim (Bool-cases (p == null)) [
  | inl is_null ↦ rw is_null
  | inr other ↦
      let absent : IsAbsent p xs = elim h [
        | inl e ↦ absurd (ne_of_== p null other e)
        | inr a ↦ a
      ] in
      rw (
        other,
        find_last-index_of (locked s) p xs junk _ _ v.tiling,
        index_of-IsAbsent p 0 xs absent,
      )
]
