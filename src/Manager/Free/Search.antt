-- ===== src/Manager/Free/Search.antt =====
-- Where the search of `mem_free` stops.
use assignment2_c.Prelude.{
  ℕ, suc, ◌+◌, ◌≡◌, refl, false, Option, none, some, [], ◌∷◌, ◌++◌, arith, length, length-split,
  append_assoc, ◌==◌, if◌then◌else◌, Bool-cases, ◌⊎◌, inl, inr, eq_of_==, ap,
}
use assignment2_c.Manager.{Adress, MemoryBlock, BlockTable, Manager, ok, with_cells}
use assignment2_c.Manager.Cells.{read-split}
use assignment2_c.Manager.Layout.{mark_free}
use assignment2_c.Manager.Free.{find_index}

-- The index of the first block at `p` when the list begins at index `k`.
unfoldable pub index_of : Adress → ℕ → BlockTable → Option ℕ
index_of p k [] = none
index_of p k (b ∷ bs) = if b.start_adress == p then some k else index_of p (suc k) bs

pub find_index-index_of :
    (s : Manager) (p : Adress) (post pre junk : BlockTable) (i : ℕ)
    → length pre ≡ i
    → find_index (length post) i p (with_cells s (pre ++ (post ++ junk)))
      ≡ ok (index_of p i post) (with_cells s (pre ++ (post ++ junk)))
unfolding find_index index_of
find_index-index_of s p [] pre junk i e = refl
find_index-index_of s p (b ∷ post) pre junk i e =
    rw (← e, read-split s pre b (post ++ junk))
      (elim (Bool-cases (b.start_adress == p)) [
        | inl hit ↦ rw hit
        | inr miss ↦ rw miss (
            rw append_assoc at (
              find_index-index_of s p post (pre ++ b ∷ []) junk (suc (length pre))
                (omega (arith, length-split pre b []))))
      ])

-- A block at `p`, with what stands before and behind it.
pub record FoundAt (p : Adress) (xs : BlockTable) : Type 0 where
  pub before : BlockTable
  pub here : MemoryBlock
  pub after : BlockTable
  pub whole : xs ≡ before ++ here ∷ after
  pub starts : here.start_adress ≡ p
  pub marked : mark_free p xs ≡ before ++ record here { is_used = false } ∷ after

-- The search finds nothing, and nothing is to be marked; or it finds a block.
pub search-cases :
    (p : Adress) (k : ℕ) (xs : BlockTable)
    → ((index_of p k xs ≡ none) × (mark_free p xs ≡ xs))
      ⊎ ((f : FoundAt p xs) × (index_of p k xs ≡ some (k + length f.before)))
unfolding index_of mark_free
search-cases p k [] = inl (refl, refl)
search-cases p k (b ∷ bs) = elim (Bool-cases (b.start_adress == p)) [
  | inl hit ↦ inr (
    record {
      before = [];
      here = b;
      after = bs;
      whole = refl;
      starts = eq_of_== _ _ hit;
      marked = rw hit;
    },
    rw hit (ap some (omega arith)),
  )
  | inr miss ↦ elim (search-cases p (suc k) bs) [
    | inl (e, m) ↦ inl (rw miss e, rw (miss, m))
    | inr (f, e) ↦ inr (
      record {
        before = b ∷ f.before;
        here = f.here;
        after = f.after;
        whole = ap (λ l. b ∷ l) f.whole;
        starts = f.starts;
        marked = rw (miss, f.marked);
      },
      rw (miss, e) (ap some (omega arith)),
    )
  ]
]
