-- ===== src/Manager/Layout/FirstFit.antt =====
-- The abstract allocation keeps the pool in order.
use assignment2_c.Prelude.{
  ℕ, ◌+◌, ◌-◌, ◌<◌, ◌≤◌, ◌≡◌, refl, true, false, Option, none, some, [], ◌∷◌, arith, Bool-cases,
  inl, inr, ◌==◌,
}
use assignment2_c.Manager.{MemoryBlock, BlockTable, Adress}
use assignment2_c.Manager.Layout.{
  head_free, IsMerged, IsTiling, fits, carve, behind, first_fit, Gives,
}

carve-IsTiling :
    (n : ℕ) (b : MemoryBlock) (bs : BlockTable) (a end : Adress)
    → 0 < n
    → fits n b ≡ true
    → IsTiling a (b ∷ bs) end
    → IsTiling a (carve n b bs) end
carve-IsTiling n b bs a end pos fit t = elim (Bool-cases (b.size == n)) [
  | inl e ↦ rw e t
  | inr large ↦
      let e : a + n + (b.size - n) ≡ a + b.size = ground arith in
      rw large (t.0, pos, (ground arith, ground arith, rw e t.2))
]

carve-IsMerged :
    (n : ℕ) (b : MemoryBlock) (bs : BlockTable)
    → fits n b ≡ true
    → IsMerged (b ∷ bs)
    → IsMerged (carve n b bs)
carve-IsMerged n b bs fit m = elim (Bool-cases (b.size == n)) [
  | inl e ↦ rw e (refl, m.1)
  | inr large ↦ rw large (refl, (ground arith, m.1))
]

head_free-carve : (n : ℕ) (b : MemoryBlock) (bs : BlockTable) → head_free (carve n b bs) ≡ false
head_free-carve n b bs = ground arith

behind-IsTiling :
    (b : MemoryBlock) (o : Option (Adress × BlockTable)) (a end : Adress)
    → b.start_adress ≡ a
    → 0 < b.size
    → Gives (λ _ ys. IsTiling (a + b.size) ys end) o
    → Gives (λ _ ys. IsTiling a ys end) (behind b o)
behind-IsTiling b none a end e pos t = tt
behind-IsTiling b (some (p, ys)) a end e pos t = (e, pos, t)

pub first_fit-IsTiling :
    (n : ℕ) (xs : BlockTable) (a end : Adress)
    → 0 < n
    → IsTiling a xs end
    → Gives (λ _ ys. IsTiling a ys end) (first_fit n xs)
unfolding first_fit
first_fit-IsTiling n [] a end pos t = tt
first_fit-IsTiling n (b ∷ bs) a end pos t = elim (Bool-cases (fits n b)) [
  | inl fit ↦ rw fit (carve-IsTiling n b bs a end pos fit t)
  | inr miss ↦ rw miss (
      behind-IsTiling b (first_fit n bs) a end t.0 t.1
        (first_fit-IsTiling n bs (a + b.size) end pos t.2))
]

-- The first block of the result is free only if that of the argument is.
abbrev NotFreer : BlockTable → BlockTable → Type 0
NotFreer xs ys = head_free xs ≡ false → head_free ys ≡ false

behind-IsMerged :
    (b : MemoryBlock) (bs : BlockTable) (o : Option (Adress × BlockTable))
    → IsMerged (b ∷ bs)
    → Gives (λ _ ys. IsMerged ys × NotFreer bs ys) o
    → Gives (λ _ ys. IsMerged ys × NotFreer (b ∷ bs) ys) (behind b o)
behind-IsMerged b bs none m k = tt
behind-IsMerged b bs (some (p, ys)) m k = ((ground arith, k.0), λ h. h)

first_fit-NotFreer :
    (n : ℕ) (xs : BlockTable)
    → IsMerged xs
    → Gives (λ _ ys. IsMerged ys × NotFreer xs ys) (first_fit n xs)
unfolding first_fit
first_fit-NotFreer n [] m = tt
first_fit-NotFreer n (b ∷ bs) m = elim (Bool-cases (fits n b)) [
  | inl fit ↦ rw fit (carve-IsMerged n b bs fit m, λ _. head_free-carve n b bs)
  | inr miss ↦ rw miss (behind-IsMerged b bs (first_fit n bs) m (first_fit-NotFreer n bs m.1))
]

forget :
    (xs : BlockTable) (o : Option (Adress × BlockTable))
    → Gives (λ _ ys. IsMerged ys × NotFreer xs ys) o
    → Gives (λ _. IsMerged) o
forget xs none k = tt
forget xs (some (p, ys)) k = k.0

pub first_fit-IsMerged :
    (n : ℕ) (xs : BlockTable) → IsMerged xs → Gives (λ _. IsMerged) (first_fit n xs)
first_fit-IsMerged n xs m = forget xs (first_fit n xs) (first_fit-NotFreer n xs m)

pub Gives-mono :
    {P Q : Adress → BlockTable → Type 0} (o : Option (Adress × BlockTable))
    → ((p : Adress) (ys : BlockTable) → P p ys → Q p ys)
    → Gives P o
    → Gives Q o
Gives-mono none f h = tt
Gives-mono (some (p, ys)) f h = f p ys h

Gives-behind :
    (P : Adress → Type 0) (b : MemoryBlock) (o : Option (Adress × BlockTable))
    → Gives (λ p _. P p) o
    → Gives (λ p _. P p) (behind b o)
Gives-behind P b none h = tt
Gives-behind P b (some (p, ys)) h = h

-- The block that is handed out lies behind the start of the list.
pub first_fit-le :
    (n : ℕ) (xs : BlockTable) (a end : Adress)
    → IsTiling a xs end
    → Gives (λ p _. a ≤ p) (first_fit n xs)
unfolding first_fit
first_fit-le n [] a end t = tt
first_fit-le n (b ∷ bs) a end t = elim (Bool-cases (fits n b)) [
  | inl fit ↦ rw fit (omega arith)
  | inr miss ↦ rw miss (
      Gives-behind (λ p. a ≤ p) b (first_fit n bs)
        (Gives-mono {P = λ p _. a + b.size ≤ p} {Q = λ p _. a ≤ p} (first_fit n bs)
          (λ p ys h. omega arith) (first_fit-le n bs (a + b.size) end t.2)))
]

-- No block of the list would do.
abbrev pub NoFit : ℕ → BlockTable → Type 0
NoFit n [] = Unit {0}
NoFit n (b ∷ bs) = (fits n b ≡ false) × NoFit n bs

behind-eq-none : (b : MemoryBlock) (o : Option (Adress × BlockTable)) → behind b o ≡ none → o ≡ none
behind-eq-none b none e = refl
behind-eq-none b (some x) e = cc

-- An allocation fails only if no block would do.
pub first_fit-NoFit : (n : ℕ) (xs : BlockTable) → first_fit n xs ≡ none → NoFit n xs
unfolding first_fit
first_fit-NoFit n [] e = tt
first_fit-NoFit n (b ∷ bs) e = elim (Bool-cases (fits n b)) [
  | inl fit ↦ ground arith
  | inr miss ↦ (miss, first_fit-NoFit n bs (behind-eq-none b (first_fit n bs) (rw miss at e)))
]
