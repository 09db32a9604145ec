-- ===== src/Manager/Resize/Search.antt =====
-- The search of `mem_resize` goes on after a hit, and finds what the search of `mem_free` finds.
use assignment2_c.Prelude.{
  ℕ, suc, ◌+◌, ◌≡◌, ◌<◌, refl, Option, none, some, [], ◌∷◌, ◌++◌, arith, length, length-split,
  append_assoc, ◌==◌, if◌then◌else◌, Bool-cases, inl, inr, ==_of_ne, eq_of_==,
}
use assignment2_c.Manager.{Adress, BlockTable, Manager, ok, with_cells, holding}
use assignment2_c.Manager.Cells.{read-split}
use assignment2_c.Manager.Layout.{IsTiling}
use assignment2_c.Manager.Free.Search.{index_of}
use assignment2_c.Manager.Resize.{find_last}

unfoldable pub last_index : Adress → ℕ → BlockTable → Option ℕ → Option ℕ
last_index p k [] kept = kept
last_index p k (b ∷ bs) kept =
    last_index p (suc k) bs (if b.start_adress == p then some k else kept)

find_last-last_index :
    (s : Manager) (p : Adress) (post pre junk : BlockTable) (i : ℕ) (kept : Option ℕ)
    → length pre ≡ i
    → find_last (length post) i p kept (with_cells s (pre ++ (post ++ junk)))
      ≡ ok (last_index p i post kept) (with_cells s (pre ++ (post ++ junk)))
unfolding find_last last_index
find_last-last_index s p [] pre junk i kept e = refl
find_last-last_index s p (b ∷ post) pre junk i kept e =
    rw (← e, read-split s pre b (post ++ junk))
      (rw append_assoc at (
        find_last-last_index s p post (pre ++ b ∷ []) junk (suc (length pre))
          (if b.start_adress == p then some (length pre) else kept)
          (omega (arith, length-split pre b []))))

-- No block begins at an address in front of the tiling.
last_index-kept :
    (p k : ℕ) (xs : BlockTable) (kept : Option ℕ) (a end : Adress)
    → p < a
    → IsTiling a xs end
    → last_index p k xs kept ≡ kept
unfolding last_index
last_index-kept p k [] kept a end h t = refl
last_index-kept p k (b ∷ bs) kept a end h t =
    rw (==_of_ne b.start_adress p (omega arith))
      (last_index-kept p (suc k) bs kept (a + b.size) end (omega arith) t.2)

last_index-index_of :
    (p k : ℕ) (xs : BlockTable) (a end : Adress)
    → IsTiling a xs end
    → last_index p k xs none ≡ index_of p k xs
unfolding last_index index_of
last_index-index_of p k [] a end t = refl
last_index-index_of p k (b ∷ bs) a end t = elim (Bool-cases (b.start_adress == p)) [
  | inl e ↦
      let h = eq_of_== b.start_adress p e in
      rw e (last_index-kept p (suc k) bs (some k) (a + b.size) end (omega (arith, h, t.0, t.1)) t.2)
  | inr e ↦ rw e (last_index-index_of p (suc k) bs (a + b.size) end t.2)
]

-- The blocks begin at different addresses, so the last one at `p` is the first.
pub find_last-index_of :
    (s : Manager) (p : Adress) (xs junk : BlockTable) (a end : Adress)
    → IsTiling a xs end
    → find_last (length xs) 0 p none (holding s xs junk) ≡ ok (index_of p 0 xs) (holding s xs junk)
find_last-index_of s p xs junk a end t =
    rw (← last_index-index_of p 0 xs a end t)
      (find_last-last_index (holding s xs junk) p xs [] junk 0 none refl)
