-- ===== src/Manager/Resize/Grown.antt =====
-- A block that has grown over the free block behind it, in the abstract view; and where a block
-- that is handed out lies in the list.
use assignment2_c.Prelude.{
  ℕ, suc, ◌+◌, ◌-◌, ◌≡◌, ◌≤◌, ◌<◌, ◌⊎◌, refl, true, not, some, [], ◌∷◌, ◌++◌, arith, length,
  Bool-cases, inl, inr, ◌==◌, ap, ◌∙◌, sym, ==_self, ==_of_ne,
}
use assignment2_c.Manager.{Adress, MemoryBlock, BlockTable, Manager}
use assignment2_c.Manager.Layout.{IsTiling, IsMerged, IsValid, head_free, freed, mark_free}
use assignment2_c.Manager.Layout.Tiling.{IsTiling-rest}
use assignment2_c.Manager.Layout.Room.{IsTiling-replace, IsMerged-replace}
use assignment2_c.Manager.Layout.Used.{used, Inserted, without, used-mark_free}
use assignment2_c.Manager.Layout.Ranges.{In}
use assignment2_c.Manager.Free.Search.{index_of}
use assignment2_c.Manager.Resize.Right.{grown}

pub used-append : (xs ys : BlockTable) → used (xs ++ ys) ≡ used xs ++ used ys
unfolding used
used-append [] ys = refl
used-append (b ∷ xs) ys = elim (Bool-cases b.is_used) [
  | inl u ↦ rw u (ap (λ l. (b.start_adress, b.size) ∷ l) (used-append xs ys))
  | inr f ↦ rw f (used-append xs ys)
]

IsMerged-rest : (pre ys : BlockTable) → IsMerged (pre ++ ys) → IsMerged ys
IsMerged-rest [] ys m = m
IsMerged-rest (b ∷ pre) ys m = IsMerged-rest pre ys m.1

-- The block at its own address is the one that is found and marked.
module _ (b : MemoryBlock) (post : BlockTable) where
  pub mark_free-split :
      (pre : BlockTable) (a end : Adress)
      → IsTiling a (pre ++ b ∷ post) end
      → mark_free b.start_adress (pre ++ b ∷ post) ≡ pre ++ freed b ∷ post
  unfolding mark_free
  mark_free-split [] a end t = rw (==_self b.start_adress)
  mark_free-split (c ∷ pre) a end t =
      let (m, le, r) = IsTiling-rest pre (b ∷ post) _ _ t.2 in
      rw (==_of_ne c.start_adress b.start_adress (omega (arith, t.0, t.1, le, r.0)))
        (ap (λ l. c ∷ l) (mark_free-split pre (a + c.size) end t.2))

  pub index_of-split :
      (pre : BlockTable) (k : ℕ) (a end : Adress)
      → IsTiling a (pre ++ b ∷ post) end
      → index_of b.start_adress k (pre ++ b ∷ post) ≡ some (k + length pre)
  unfolding index_of
  index_of-split [] k a end t = rw (==_self b.start_adress) (ap some (omega arith))
  index_of-split (c ∷ pre) k a end t =
      let (m, le, r) = IsTiling-rest pre (b ∷ post) _ _ t.2 in
      rw (==_of_ne c.start_adress b.start_adress (omega (arith, t.0, t.1, le, r.0)))
        (index_of-split pre (suc k) (a + c.size) end t.2 ∙ ap some (omega arith))

-- A range that is handed out is that of a block in use.
pub record UsedBlock (p m : ℕ) (xs : BlockTable) : Type 0 where
  pub before : BlockTable
  pub here : MemoryBlock
  pub after : BlockTable
  pub whole : xs ≡ before ++ here ∷ after
  pub starts : here.start_adress ≡ p
  pub long : here.size ≡ m
  pub in_use : here.is_used ≡ true

extend : (p m : ℕ) (b : MemoryBlock) (bs : BlockTable) → UsedBlock p m bs → UsedBlock p m (b ∷ bs)
extend p m b bs u = record {
  before = b ∷ u.before;
  here = u.here;
  after = u.after;
  whole = ap (λ l. b ∷ l) u.whole;
  starts = u.starts;
  long = u.long;
  in_use = u.in_use;
}

pub In-UsedBlock : (p m : ℕ) (xs : BlockTable) → In p m (used xs) → UsedBlock p m xs
unfolding used
In-UsedBlock p m [] i = absurd i
In-UsedBlock p m (b ∷ bs) i = elim (Bool-cases b.is_used) [
  | inl u ↦
      let j : ((p ≡ b.start_adress) × (m ≡ b.size)) ⊎ In p m (used bs) = rw u at i in
      elim j [
        | inl e ↦ record {
          before = [];
          here = b;
          after = bs;
          whole = refl;
          starts = sym e.0;
          long = sym e.1;
          in_use = u;
        }
        | inr r ↦ extend p m b bs (In-UsedBlock p m bs r)
      ]
  | inr f ↦ extend p m b bs (In-UsedBlock p m bs (rw f at i))
]

module _ (s : Manager) (pre : BlockTable) (b c : MemoryBlock) (post : BlockTable) (size : ℕ)
    (v : IsValid s (pre ++ b ∷ c ∷ post)) (in_use : b.is_used ≡ true) (free : not c.is_used ≡ true)
    (pos : 0 < size) (room : size ≤ b.size + c.size) where
  grown-tiles :
      (m : Adress)
      → IsTiling m (b ∷ c ∷ post) (s.mem_pool_start + s.mem_pool_size)
      → IsTiling m (grown size b c post) (s.mem_pool_start + s.mem_pool_size)
  grown-tiles m t = elim (Bool-cases (b.size + c.size == size)) [
    | inl e ↦ let k : m + size ≡ m + b.size + c.size = ground arith in rw e (t.0, pos, rw k t.2.2)
    | inr e ↦
        let k : m + size + (b.size + c.size - size) ≡ m + b.size + c.size = omega arith in
        rw e (t.0, pos, (omega (arith, t.0), ground arith, rw k t.2.2))
  ]

  head_free-grown : head_free (grown size b c post) ≡ head_free (b ∷ c ∷ post)
  head_free-grown = ground arith

  grown-IsMerged : IsMerged (b ∷ c ∷ post) → IsMerged (grown size b c post)
  grown-IsMerged m = elim (Bool-cases (b.size + c.size == size)) [
    | inl e ↦ rw e (ground arith, m.1.1)
    | inr e ↦ rw e m
  ]

  pub grown-IsValid : IsValid s (pre ++ grown size b c post)
  grown-IsValid = record {
    started = v.started;
    tiling = IsTiling-replace pre (b ∷ c ∷ post) (grown size b c post) _ _ grown-tiles v.tiling;
    merged =
        IsMerged-replace pre (b ∷ c ∷ post) (grown size b c post) head_free-grown
          (grown-IsMerged (IsMerged-rest pre (b ∷ c ∷ post) v.merged)) v.merged;
    in_range = v.in_range;
  }

  used-grown : used (grown size b c post) ≡ (b.start_adress, size) ∷ used post
  unfolding used
  used-grown = ground arith

  used-rest : used (freed b ∷ c ∷ post) ≡ used post
  unfolding used
  used-rest = ground arith

  pub grown-Inserted :
      Inserted
        (b.start_adress, size)
        (without b.start_adress (used (pre ++ b ∷ c ∷ post)))
        (used (pre ++ grown size b c post))
  grown-Inserted = (
    used pre,
    used post,
    sym (used-mark_free b.start_adress (pre ++ b ∷ c ∷ post) _ _ v.tiling)
        ∙ ap used (mark_free-split b (c ∷ post) pre _ _ v.tiling)
        ∙ used-append pre (freed b ∷ c ∷ post)
        ∙ ap (λ l. used pre ++ l) used-rest,
    used-append pre (grown size b c post) ∙ ap (λ l. used pre ++ l) used-grown,
  )
