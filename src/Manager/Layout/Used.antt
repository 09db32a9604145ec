-- ===== src/Manager/Layout/Used.antt =====
-- The blocks that are handed out.
use assignment2_c.Prelude.{
  ℕ, ◌+◌, ◌<◌, ◌≤◌, ◌≡◌, refl, true, Option, none, some, List, [], ◌∷◌, ◌++◌, arith, Bool-cases,
  inl, inr, ◌==◌, if◌then◌else◌, ap,
}
use assignment2_c.Manager.{MemoryBlock, BlockTable, Adress}
use assignment2_c.Manager.Layout.{
  IsTiling, fits, carve, behind, first_fit, Gives, mark_free, coalesce, push_block,
}

-- Address and size of each block that is in use.
unfoldable pub used : BlockTable → List (Adress × ℕ)
used [] = []
used (b ∷ bs) = if b.is_used then (b.start_adress, b.size) ∷ used bs else used bs

-- The ranges lie between `a` and `end`, one behind the other, so that no two overlap.
abbrev pub Ranges : Adress → List (Adress × ℕ) → Adress → Type 0
Ranges a [] end = a ≤ end
Ranges a ((p, n) ∷ us) end = (a ≤ p) × Ranges (p + n) us end

-- `vs` is `us` with the range `u` put in at one place.
abbrev pub Inserted : Adress × ℕ → List (Adress × ℕ) → List (Adress × ℕ) → Type 0
Inserted u us vs =
    (front : List (Adress × ℕ)) × (back : List (Adress × ℕ)) × (us ≡ front ++ back)
    × (vs ≡ front ++ u ∷ back)

pub weaken : (us : List (Adress × ℕ)) (a b end : Adress) → a ≤ b → Ranges b us end → Ranges a us end
weaken [] a b end h r = omega arith
weaken (u ∷ us) a b end h r = (omega arith, r.1)

pub used-Ranges : (xs : BlockTable) (a end : Adress) → IsTiling a xs end → Ranges a (used xs) end
unfolding used
used-Ranges [] a end t = omega arith
used-Ranges (b ∷ bs) a end t = elim (Bool-cases b.is_used) [
  | inl u ↦ rw (u, t.0) (omega arith, used-Ranges bs (a + b.size) end t.2)
  | inr f ↦
      rw f (weaken (used bs) a (a + b.size) end (omega arith) (used-Ranges bs (a + b.size) end t.2))
]

used-carve :
    (n : ℕ) (b : MemoryBlock) (bs : BlockTable)
    → fits n b ≡ true
    → (used (b ∷ bs) ≡ used bs) × (used (carve n b bs) ≡ (b.start_adress, n) ∷ used bs)
unfolding used
used-carve n b bs fit = (ground arith, ground arith)

used-behind :
    (n : ℕ) (b : MemoryBlock) (bs : BlockTable) (o : Option (Adress × BlockTable))
    → Gives (λ p ys. Inserted (p, n) (used bs) (used ys)) o
    → Gives (λ p ys. Inserted (p, n) (used (b ∷ bs)) (used ys)) (behind b o)
unfolding used
used-behind n b bs none h = tt
used-behind n b bs (some (p, ys)) (front, back, e, f) = elim (Bool-cases b.is_used) [
  | inl u ↦ (
    (b.start_adress, b.size) ∷ front,
    back,
    rw u (ap (λ l. (b.start_adress, b.size) ∷ l) e),
    rw u (ap (λ l. (b.start_adress, b.size) ∷ l) f),
  )
  | inr g ↦ (front, back, rw g e, rw g f)
]

-- An allocation hands out one block more, of the size that was asked for.
pub used-first_fit :
    (n : ℕ) (xs : BlockTable) → Gives (λ p ys. Inserted (p, n) (used xs) (used ys)) (first_fit n xs)
unfolding first_fit
used-first_fit n [] = tt
used-first_fit n (b ∷ bs) = elim (Bool-cases (fits n b)) [
  | inl fit ↦ rw fit ([], used bs, (used-carve n b bs fit).0, (used-carve n b bs fit).1)
  | inr miss ↦ rw miss (used-behind n b bs (first_fit n bs) (used-first_fit n bs))
]

used-push_block : (b : MemoryBlock) (bs : BlockTable) → used (push_block b bs) ≡ used (b ∷ bs)
unfolding used
used-push_block b [] = refl
used-push_block b (c ∷ cs) = ground arith

-- Merging touches no block that is in use.
pub used-coalesce : (xs : BlockTable) → used (coalesce xs) ≡ used xs
unfolding used coalesce
used-coalesce [] = refl
used-coalesce (b ∷ bs) = ground (arith, used-push_block b (coalesce bs), used-coalesce bs)

-- The ranges less the first one that begins at `p`.
abbrev pub without : Adress → List (Adress × ℕ) → List (Adress × ℕ)
without p [] = []
without p ((q, n) ∷ us) = if q == p then us else (q, n) ∷ without p us

-- Nothing begins at an address before the tiling.
pub without-Ranges :
    (us : List (Adress × ℕ)) (p a end : Adress) → p < a → Ranges a us end → without p us ≡ us
unfolding without
without-Ranges [] p a end h r = refl
without-Ranges ((q, n) ∷ us) p a end h r = ground (arith, without-Ranges us p (q + n) end)

pub used-mark_free :
    (p : Adress) (xs : BlockTable) (a end : Adress)
    → IsTiling a xs end
    → used (mark_free p xs) ≡ without p (used xs)
unfolding used mark_free without
used-mark_free p [] a end t = refl
used-mark_free p (b ∷ bs) a end t = ground (
  arith,
  without-Ranges (used bs) p (a + b.size) end,
  used-Ranges bs (a + b.size) end t.2,
  used-mark_free p bs (a + b.size) end t.2,
)
