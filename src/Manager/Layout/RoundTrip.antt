-- ===== src/Manager/Layout/RoundTrip.antt =====
-- Freeing the block that was just handed out gives the blocks back as they were.
use assignment2_c.Prelude.{
  ℕ, ◌+◌, ◌-◌, ◌<◌, ◌≤◌, ◌≡◌, true, false, Option, none, some, [], ◌∷◌, arith, Bool-cases, inl, inr,
  ◌==◌, ==_of_ne, ==_self,
}
use assignment2_c.Manager.{MemoryBlock, BlockTable, Adress}
use assignment2_c.Manager.Layout.{
  block, IsMerged, IsTiling, fits, carve, behind, first_fit, Gives, freed, mark_free, coalesce,
}
use assignment2_c.Manager.Layout.Coalesce.{coalesce-IsMerged, push_block-noop}
use assignment2_c.Manager.Layout.FirstFit.{first_fit-le, Gives-mono}

carve-freed :
    (n : ℕ) (b : MemoryBlock) (bs : BlockTable)
    → fits n b ≡ true
    → IsMerged (b ∷ bs)
    → coalesce (mark_free b.start_adress (carve n b bs)) ≡ b ∷ bs
unfolding coalesce mark_free
carve-freed n b bs fit m = elim (Bool-cases (b.size == n)) [
  | inl e ↦
      rw (e, ==_self b.start_adress, coalesce-IsMerged bs m.1)
        (let self : freed (block b.start_adress b.size true) ≡ b = ground arith in
          rw self (push_block-noop b bs m.0))
  | inr large ↦
      let e : n + (b.size - n) ≡ b.size = ground arith in
      rw
        (
          large,
          ==_self b.start_adress,
          coalesce-IsMerged bs m.1,
          push_block-noop (block (b.start_adress + n) (b.size - n) false) bs (ground arith),
        )
        (rw e (ground arith))
]

-- The block is not found in front of where it lies.
passed :
    (b : MemoryBlock) (bs : BlockTable) (o : Option (Adress × BlockTable))
    → IsMerged (b ∷ bs)
    → Gives (λ p ys. b.start_adress < p) o
    → Gives (λ p ys. coalesce (mark_free p ys) ≡ bs) o
    → Gives (λ p ys. coalesce (mark_free p ys) ≡ b ∷ bs) (behind b o)
unfolding coalesce mark_free
passed b bs none m lt e = tt
passed b bs (some (p, ys)) m lt e =
    rw (==_of_ne b.start_adress p (omega arith), e) (push_block-noop b bs m.0)

pub coalesce-first_fit :
    (n : ℕ) (xs : BlockTable) (a end : Adress)
    → IsTiling a xs end
    → IsMerged xs
    → Gives (λ p ys. coalesce (mark_free p ys) ≡ xs) (first_fit n xs)
unfolding first_fit
coalesce-first_fit n [] a end t m = tt
coalesce-first_fit n (b ∷ bs) a end t m = elim (Bool-cases (fits n b)) [
  | inl fit ↦ rw fit (carve-freed n b bs fit m)
  | inr miss ↦ rw miss (
      passed b bs (first_fit n bs) m
        (Gives-mono {P = λ p _. a + b.size ≤ p} {Q = λ p _. b.start_adress < p} (first_fit n bs)
          (λ p ys h. omega arith) (first_fit-le n bs (a + b.size) end t.2))
        (coalesce-first_fit n bs (a + b.size) end t.2 m.1))
]
