-- ===== src/Manager/Resize/Replace.antt =====
-- What `mem_resize` promises, and the ways in which it frees first and allocates then.
use assignment2_c.Prelude.{
  ℕ, suc, ◌+◌, ◌-◌, ◌≡◌, ◌≢◌, ◌≤◌, ◌<◌, ◌⊎◌, refl, List, arith, length, Bool-cases, inl, inr, ◌==◌,
  eq_of_==, ◌∙◌, lt→ltb, le→leb, ==_of_ne,
}
use assignment2_c.Manager.{Adress, null, BlockTable, Manager, Run, ok, holding, int_max}
use assignment2_c.Manager.Layout.{IsValid}
use assignment2_c.Manager.Layout.FirstFit.{NoFit}
use assignment2_c.Manager.Layout.Used.{used, Ranges, Inserted, without, used-Ranges}
use assignment2_c.Manager.Layout.Ranges.{In, apart}
use assignment2_c.Manager.Alloc.{Realloc, mem_alloc}
use assignment2_c.Manager.Alloc.Take.{HasRoom}
use assignment2_c.Manager.Alloc.HandOut.{mem_alloc-HandsOut}
use assignment2_c.Manager.Free.{mem_free}
use assignment2_c.Manager.Resize.{moved, memmove, replace_block}

-- The block of `old` bytes at `p` has become one of `size` bytes at `adress`. Its first bytes are
-- kept, and so is every byte of the other blocks that are handed out.
pub record Resized (s : Manager) (xs : BlockTable) (p old size : ℕ) (r : Run Adress) : Type 0 where
  pub adress : Adress
  pub blocks : BlockTable
  pub junk : BlockTable
  pub bytes : Adress → ℕ
  pub returns : r ≡ ok adress (record (holding s blocks junk) { bytes = bytes })
  pub ne_null : adress ≢ null
  pub valid : IsValid s blocks
  pub inserted : Inserted (adress, size) (without p (used xs)) (used blocks)
  pub content : (k : ℕ) → k < old → k < size → bytes (adress + k) ≡ s.bytes (p + k)
  pub others : (q m k : ℕ) → In q m (without p (used xs)) → k < m → bytes (q + k) ≡ s.bytes (q + k)

-- Inside `mem_resize` the lock is held once more.
abbrev pub locked : Manager → Manager
locked s = record s { lock_depth = suc s.lock_depth }

pub IsValid-same :
    (s t : Manager) (xs : BlockTable)
    → s.mem_pool_start ≡ t.mem_pool_start
    → s.mem_pool_size ≡ t.mem_pool_size
    → IsValid s xs
    → IsValid t xs
IsValid-same s t xs e f v = record {
  started = λ z. v.started (e ∙ z);
  tiling = rw (← e, ← f) v.tiling;
  merged = v.merged;
  in_range = omega (arith, v.in_range, e, f);
}

pub memmove_lem :
    (s : Manager) (to from n : ℕ)
    → to ≢ null
    → from ≢ null
    → memmove to from n s ≡ ok tt (record s { bytes = moved s.bytes to from n })
unfolding memmove
memmove_lem s to from n h k = rw (==_of_ne to null h, ==_of_ne from null k)

pub moved_inside :
    (bytes : Adress → ℕ) (to from n k : ℕ)
    → k < n
    → moved bytes to from n (to + k) ≡ bytes (from + k)
moved_inside bytes to from n k h =
    let e : to + k - to ≡ k = omega arith in
    rw (le→leb to (to + k) (omega arith), lt→ltb (to + k) (to + n) (omega arith), e)

pub moved_outside :
    (bytes : Adress → ℕ) (to from n a : ℕ)
    → (a < to) ⊎ (to + n ≤ a)
    → moved bytes to from n a ≡ bytes a
moved_outside bytes to from n a h = ground arith

-- Moving bytes into the new block spares every other block.
pub spared :
    (bytes : Adress → ℕ) (us vs : List (Adress × ℕ)) (to from n size q m k a end : ℕ)
    → Inserted (to, size) us vs
    → Ranges a vs end
    → n ≤ size
    → In q m us
    → k < m
    → moved bytes to from n (q + k) ≡ bytes (q + k)
spared bytes us vs to from n size q m k a end i r small there lt =
    moved_outside bytes to from n (q + k) (elim (apart us vs to size q m a end i r there) [
      | inl before ↦ inl (omega arith)
      | inr behind ↦ inr (omega arith)
    ])

-- The state after the block is freed has the live blocks `ys`; `n` bytes are moved.
module _ (realloc : Realloc) (s : Manager) (xs ys junk junk' : BlockTable) (p old size n : ℕ)
    (freed_first : mem_free p (holding (locked s) xs junk) ≡ ok tt (holding (locked s) ys junk'))
    (rest_used : used ys ≡ without p (used xs)) (given : p ≢ null) where
  allocated :
      (q : Adress) (zs junk'' : BlockTable)
      → mem_alloc realloc size (holding (locked s) ys junk') ≡ ok q (holding (locked s) zs junk'')
      → q ≢ null
      → IsValid s zs
      → Inserted (q, size) (used ys) (used zs)
      → n ≤ size
      → ((k : ℕ) → k < old → k < size → k < n)
      → Resized s xs p old size (replace_block realloc p size n (holding (locked s) xs junk))
  unfolding replace_block
  allocated q zs junk'' e ne v i small enough =
      let i' : Inserted (q, size) (without p (used xs)) (used zs) = rw rest_used at i in
      elim (Bool-cases (q == p)) [
        | inl same ↦ record {
          adress = p;
          blocks = zs;
          junk = junk'';
          bytes = s.bytes;
          returns = rw (freed_first, e, same);
          ne_null = given;
          valid = v;
          inserted = rw (eq_of_== q p same) at i';
          content = λ k h l. refl;
          others = λ r m k h l. refl;
        }
        | inr other ↦ record {
          adress = q;
          blocks = zs;
          junk = junk'';
          bytes = moved s.bytes q p n;
          returns =
              rw (freed_first, e, other, memmove_lem (holding (locked s) zs junk'') q p n ne given);
          ne_null = ne;
          valid = v;
          inserted = i';
          content = λ k h l. moved_inside s.bytes q p n k (enough k h l);
          others = λ r m k h l.
              spared s.bytes (without p (used xs)) (used zs) q p n size r m k _ _ i'
                (used-Ranges zs _ _ v.tiling) small h l;
        }
      ]

  -- Freed first: this succeeds when the freed room is large enough.
  pub replace_block-Resized :
      HasRoom realloc
      → 0 < size
      → length ys < int_max
      → IsValid s ys
      → ¬ NoFit size ys
      → n ≤ size
      → ((k : ℕ) → k < old → k < size → k < n)
      → Resized s xs p old size (replace_block realloc p size n (holding (locked s) xs junk))
  replace_block-Resized room pos few v fit small enough =
      elim (mem_alloc-HandsOut realloc size (locked s) ys junk' room pos few
        (IsValid-same s (locked s) ys refl refl v)) [
          | inl (e, none_fits) ↦ absurd (fit none_fits)
          | inr h ↦
              allocated h.adress h.blocks h.junk h.returns h.ne_null
                (IsValid-same (locked s) s h.blocks refl refl h.valid) h.inserted small enough
        ]
