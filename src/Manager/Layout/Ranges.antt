-- ===== src/Manager/Layout/Ranges.antt =====
-- Ranges that do not overlap.
use assignment2_c.Prelude.{
  ℕ, ◌+◌, ◌≡◌, ◌≢◌, ◌≤◌, ◌⊎◌, inl, inr, refl, List, [], ◌∷◌, ◌++◌, arith, Bool-cases, ◌==◌, ap,
  ==_of_ne,
}
use assignment2_c.Manager.{Adress}
use assignment2_c.Manager.Layout.Used.{Ranges, Inserted, without}

-- The range of `m` bytes at `q` is one of these.
abbrev pub In : Adress → ℕ → List (Adress × ℕ) → Type 0
In q m [] = ⊥
In q m ((p, n) ∷ us) = ((q ≡ p) × (m ≡ n)) ⊎ In q m us

In-le : (us : List (Adress × ℕ)) (q m a end : Adress) → Ranges a us end → In q m us → a ≤ q
In-le [] q m a end r i = absurd i
In-le ((p, n) ∷ us) q m a end r (inl e) = omega arith
In-le ((p, n) ∷ us) q m a end r (inr i) = omega (arith, In-le us q m (p + n) end r.1 i)

In-middle : (front back : List (Adress × ℕ)) (q m : ℕ) → In q m (front ++ (q, m) ∷ back)
In-middle [] back q m = inl (refl, refl)
In-middle (u ∷ front) back q m = inr (In-middle front back q m)

apart_split :
    (front back : List (Adress × ℕ)) (p n q m a end : Adress)
    → Ranges a (front ++ (p, n) ∷ back) end
    → In q m (front ++ back)
    → (q + m ≤ p) ⊎ (p + n ≤ q)
apart_split [] back p n q m a end r i = inr (In-le back q m (p + n) end r.1 i)
apart_split ((o, l) ∷ front) back p n q m a end r (inl e) = inl (
    omega (arith, e, In-le (front ++ (p, n) ∷ back) p n (o + l) end r.1 (In-middle front back p n)))
apart_split ((o, l) ∷ front) back p n q m a end r (inr i) =
    apart_split front back p n q m (o + l) end r.1 i

-- A range that is put in overlaps none of the others.
pub apart :
    (us vs : List (Adress × ℕ)) (p n q m a end : Adress)
    → Inserted (p, n) us vs
    → Ranges a vs end
    → In q m us
    → (q + m ≤ p) ⊎ (p + n ≤ q)
apart us vs p n q m a end (front, back, e, f) r i =
    apart_split front back p n q m a end (rw f at r) (rw e at i)

without_split :
    (front back : List (Adress × ℕ)) (p q n : ℕ)
    → q ≢ p
    → Inserted (q, n) (without p (front ++ back)) (without p (front ++ (q, n) ∷ back))
without_split [] back p q n ne = ([], without p back, refl, rw (==_of_ne q p ne))
without_split ((o, l) ∷ front) back p q n ne = elim (Bool-cases (o == p)) [
  | inl e ↦ (front, back, rw e, rw e)
  | inr e ↦
      let (f, g, x, y) = without_split front back p q n ne in
      ((o, l) ∷ f, g, rw e (ap (λ t. (o, l) ∷ t) x), rw e (ap (λ t. (o, l) ∷ t) y))
]

-- Another range may be taken out before or after.
pub without-Inserted :
    (us vs : List (Adress × ℕ)) (p q n : ℕ)
    → q ≢ p
    → Inserted (q, n) us vs
    → Inserted (q, n) (without p us) (without p vs)
without-Inserted us vs p q n ne (front, back, e, f) = rw (e, f) (without_split front back p q n ne)

pub In-without : (us : List (Adress × ℕ)) (p q m : ℕ) → In q m (without p us) → In q m us
In-without [] p q m i = i
In-without ((o, l) ∷ us) p q m i = elim (Bool-cases (o == p)) [
  | inl e ↦ inr (rw e at i)
  | inr e ↦
      let j : ((q ≡ o) × (m ≡ l)) ⊎ In q m (without p us) = rw e at i in
      elim j [ inl x ↦ inl x | inr y ↦ inr (In-without us p q m y) ]
]
