-- ===== src/LinkedList/Links.antt =====
-- Chains of nodes when memory is written, and when blocks come and go.
use assignment2_c.Prelude.{
  ℕ, ◌+◌, ◌≡◌, ◌≢◌, ◌≤◌, ◌<◌, ◌⊎◌, refl, sym, ◌∙◌, List, [], ◌∷◌, ◌++◌, arith, inl, inr, ◌==◌,
  Bool-cases, eq_of_==,
}
use assignment2_c.Manager.{Adress}
use assignment2_c.Manager.Layout.Used.{Ranges, Inserted, without}
use assignment2_c.Manager.Layout.Ranges.{In, apart}
use assignment2_c.Memory.{Bytes, load_word, store_word}
use assignment2_c.Memory.Words.{load-store_apart}
use assignment2_c.LinkedList.{sizeof_node, next_offset}
use assignment2_c.LinkedList.Chain.{Cells, NotIn, Chain, In-bounds}

pub Chain-split :
    (us : List (Adress × ℕ)) (m : Bytes) (p : Adress) (xs ys : Cells) (q : Adress)
    → Chain us m p (xs ++ ys) q
    → (r : Adress) × Chain us m p xs r × Chain us m r ys q
Chain-split us m p [] ys q t = (p, refl, t)
Chain-split us m p ((a, v) ∷ xs) ys q t =
    let (r, f, g) = Chain-split us m (load_word 8 m (a + next_offset)) xs ys q t.3 in
    (r, (t.0, t.1, t.2, f), g)

pub Chain-join :
    (us : List (Adress × ℕ)) (m : Bytes) (p r : Adress) (xs ys : Cells) (q : Adress)
    → Chain us m p xs r
    → Chain us m r ys q
    → Chain us m p (xs ++ ys) q
Chain-join us m p r [] ys q t u = rw t u
Chain-join us m p r ((a, v) ∷ xs) ys q t u =
    (t.0, t.1, t.2, Chain-join us m (load_word 8 m (a + next_offset)) r xs ys q t.3 u)

-- Two blocks that are handed out at different addresses do not overlap.
pub In-apart :
    (us : List (Adress × ℕ)) (p n q m a end : Adress)
    → Ranges a us end
    → In p n us
    → In q m us
    → p ≢ q
    → (p + n ≤ q) ⊎ (q + m ≤ p)
In-apart [] p n q m a end r i j ne = absurd i
In-apart ((o, l) ∷ us) p n q m a end r (inl i) (inl j) ne = absurd (ne (i.0 ∙ sym j.0))
In-apart ((o, l) ∷ us) p n q m a end r (inl i) (inr j) ne =
    inl (omega (arith, i, In-bounds us q m (o + l) end r.1 j))
In-apart ((o, l) ∷ us) p n q m a end r (inr i) (inl j) ne =
    inr (omega (arith, j, In-bounds us p n (o + l) end r.1 i))
In-apart ((o, l) ∷ us) p n q m a end r (inr i) (inr j) ne =
    In-apart us p n q m (o + l) end r.1 i j ne

module _ (us : List (Adress × ℕ)) (a end : Adress) (r : Ranges a us end) where
  -- A word of another node.
  pub load_other :
      (n k : ℕ) (m : Bytes) (p q i j v : ℕ)
      → In p sizeof_node us
      → In q sizeof_node us
      → p ≢ q
      → i + n ≤ sizeof_node
      → j + k ≤ sizeof_node
      → load_word n (store_word k m (p + j) v) (q + i) ≡ load_word n m (q + i)
  load_other n k m p q i j v here there ne h l =
      load-store_apart n k m (p + j) (q + i) v
        (elim (In-apart us p sizeof_node q sizeof_node a end r here there ne) [
          | inl before ↦ inr (omega arith)
          | inr behind ↦ inl (omega arith)
        ])

  -- A write to a node that is not in the chain.
  pub Chain-store :
      (k : ℕ) (m : Bytes) (p j v x : ℕ) (cs : Cells) (q : Adress)
      → In p sizeof_node us
      → j + k ≤ sizeof_node
      → NotIn p cs
      → Chain us m x cs q
      → Chain us (store_word k m (p + j) v) x cs q
  Chain-store k m p j v x [] q here l out t = t
  Chain-store k m p j v x ((b, w) ∷ cs) q here l out t =
      let z : b + 0 ≡ b = omega arith in
      let e : load_word 2 (store_word k m (p + j) v) b ≡ load_word 2 m b =
        rw z at (load_other 2 k m p b 0 j v here t.1 out.0 (omega arith) l) in
      let f = load_other 8 k m p b next_offset j v here t.1 out.0 (omega arith) l in
      (
        t.0,
        t.1,
        e ∙ t.2,
        rw f (Chain-store k m p j v (load_word 8 m (b + next_offset)) cs q here l out.1 t.3),
      )

-- Other blocks are handed out as well.
pub Chain-In :
    (us vs : List (Adress × ℕ)) (m : Bytes) (p : Adress) (cs : Cells) (q : Adress)
    → ((a : Adress) → In a sizeof_node us → In a sizeof_node vs)
    → Chain us m p cs q
    → Chain vs m p cs q
Chain-In us vs m p [] q f t = t
Chain-In us vs m p ((a, v) ∷ cs) q f t =
    (t.0, f a t.1, t.2, Chain-In us vs m (load_word 8 m (a + next_offset)) cs q f t.3)

pub In-append : (us vs : List (Adress × ℕ)) (p n : ℕ) → In p n (us ++ vs) → In p n us ⊎ In p n vs
In-append [] vs p n i = inr i
In-append (u ∷ us) vs p n (inl e) = inl (inl e)
In-append (u ∷ us) vs p n (inr i) = elim (In-append us vs p n i) [
  | inl j ↦ inl (inr j)
  | inr j ↦ inr j
]

In-front : (us vs : List (Adress × ℕ)) (p n : ℕ) → In p n us → In p n (us ++ vs)
In-front [] vs p n i = absurd i
In-front (u ∷ us) vs p n (inl e) = inl e
In-front (u ∷ us) vs p n (inr i) = inr (In-front us vs p n i)

In-back : (us vs : List (Adress × ℕ)) (p n : ℕ) → In p n vs → In p n (us ++ vs)
In-back [] vs p n i = i
In-back (u ∷ us) vs p n i = inr (In-back us vs p n i)

pub In-Inserted :
    (us vs : List (Adress × ℕ)) (u : Adress × ℕ) (p n : ℕ)
    → Inserted u us vs
    → In p n us
    → In p n vs
In-Inserted us vs u p n (front, back, e, f) i = rw f (elim (In-append front back p n (rw e at i)) [
  | inl j ↦ In-front front (u ∷ back) p n j
  | inr j ↦ In-back front (u ∷ back) p n (inr j)
])

pub In-new : (us vs : List (Adress × ℕ)) (p n : ℕ) → Inserted (p, n) us vs → In p n vs
In-new us vs p n (front, back, e, f) = rw f (In-back front ((p, n) ∷ back) p n (inl (refl, refl)))

-- The new block is none of the nodes.
pub NotIn-new :
    (us vs : List (Adress × ℕ)) (p n b end : Adress) (m : Bytes) (x : Adress) (cs : Cells)
    (q : Adress)
    → Inserted (p, n) us vs
    → Ranges b vs end
    → 0 < n
    → Chain us m x cs q
    → NotIn p cs
NotIn-new us vs p n b end m x [] q i r pos t = tt
NotIn-new us vs p n b end m x ((a, v) ∷ cs) q i r pos t = (
  λ e. absurd (omega (arith, e, apart us vs p n a sizeof_node b end i r t.1)),
  NotIn-new us vs p n b end m (load_word 8 m (a + next_offset)) cs q i r pos t.3,
)

-- A block is taken back that is none of the nodes.
In-without_other : (us : List (Adress × ℕ)) (p a n : ℕ) → p ≢ a → In a n us → In a n (without p us)
In-without_other [] p a n ne i = i
In-without_other ((o, l) ∷ us) p a n ne i = elim (Bool-cases (o == p)) [
  | inl hit ↦ elim i [ inl e ↦ absurd (ne (sym (eq_of_== o p hit) ∙ sym e.0)) | inr j ↦ rw hit j ]
  | inr miss ↦ elim i [
    | inl e ↦ rw miss (inl e)
    | inr j ↦ rw miss (inr (In-without_other us p a n ne j))
  ]
]

pub Chain-without :
    (us : List (Adress × ℕ)) (m : Bytes) (p x : Adress) (cs : Cells) (q : Adress)
    → NotIn p cs
    → Chain us m x cs q
    → Chain (without p us) m x cs q
Chain-without us m p x [] q out t = t
Chain-without us m p x ((a, v) ∷ cs) q out t = (
  t.0,
  In-without_other us p a sizeof_node out.0 t.1,
  t.2,
  Chain-without us m p (load_word 8 m (a + next_offset)) cs q out.1 t.3,
)
