-- ===== src/LinkedList/Relink.antt =====
-- A new node, and a pointer that is set anew, in a chain of nodes.
use assignment2_c.Prelude.{ℕ, ◌+◌, ◌^◌, ◌≡◌, ◌<◌, refl, sym, ◌∙◌, List, [], ◌∷◌, ◌++◌, arith, inl}
use assignment2_c.Manager.{Adress}
use assignment2_c.Manager.Layout.Used.{Ranges}
use assignment2_c.Manager.Layout.Ranges.{In}
use assignment2_c.Memory.{Bytes, load_word, store_word}
use assignment2_c.Memory.Words.{Fits, load-store, load-store_apart, Fits-uint16}
use assignment2_c.LinkedList.{sizeof_node, next_offset}
use assignment2_c.LinkedList.Chain.{Cells, NotIn, Distinct, Chain}
use assignment2_c.LinkedList.Links.{Chain-join, Chain-store}

pub NotIn-append : (a : Adress) (xs ys : Cells) → NotIn a (xs ++ ys) → NotIn a xs × NotIn a ys
NotIn-append a [] ys n = (tt, n)
NotIn-append a ((b, v) ∷ xs) ys n = let (f, g) = NotIn-append a xs ys n.1 in ((n.0, f), g)

pub NotIn-join : (a : Adress) (xs ys : Cells) → NotIn a xs → NotIn a ys → NotIn a (xs ++ ys)
NotIn-join a [] ys n m = m
NotIn-join a ((b, v) ∷ xs) ys n m = (n.0, NotIn-join a xs ys n.1 m)

-- A node of a list of distinct nodes is neither before nor behind itself.
pub Distinct-split :
    (xs : Cells) (a v : ℕ) (ys : Cells)
    → Distinct (xs ++ (a, v) ∷ ys)
    → NotIn a xs × NotIn a ys × Distinct (xs ++ ys)
Distinct-split [] a v ys d = (tt, d.0, d.1)
Distinct-split ((b, w) ∷ xs) a v ys d =
    let (f, g, h) = Distinct-split xs a v ys d.1 in
    let (i, j) = NotIn-append b xs ((a, v) ∷ ys) d.0 in
    ((λ e. j.0 (sym e), f), g, (NotIn-join b xs ys i j.1, h))

pub Distinct-insert :
    (xs : Cells) (p d : ℕ) (ys : Cells)
    → NotIn p (xs ++ ys)
    → Distinct (xs ++ ys)
    → Distinct (xs ++ (p, d) ∷ ys)
Distinct-insert [] p d ys n h = (n, h)
Distinct-insert ((b, w) ∷ xs) p d ys n h =
    let (i, j) = NotIn-append b xs ys h.0 in
    (NotIn-join b xs ((p, d) ∷ ys) i (λ e. n.0 (sym e), j), Distinct-insert xs p d ys n.1 h.1)

-- A node with the number `d` and the pointer `w` is written at `p`.
abbrev pub with_node : Bytes → Adress → ℕ → Adress → Bytes
with_node m p d w = store_word 8 (store_word 2 m p d) (p + next_offset) w

pub with_node-data : (m : Bytes) (p d w : ℕ) → d < 2 ^ 16 → load_word 2 (with_node m p d w) p ≡ d
with_node-data m p d w h =
    load-store_apart 2 8 (store_word 2 m p d) (p + next_offset) p w (inl (omega arith))
    ∙ load-store 2 m p d (Fits-uint16 d h)

pub with_node-next :
    (m : Bytes) (p d w : ℕ) → Fits 8 w → load_word 8 (with_node m p d w) (p + next_offset) ≡ w
with_node-next m p d w h = load-store 8 (store_word 2 m p d) (p + next_offset) w h

module _ (us : List (Adress × ℕ)) (b end : Adress) (r : Ranges b us end) where
  pub Chain-with_node :
      (m : Bytes) (p d w x : ℕ) (cs : Cells) (q : Adress)
      → In p sizeof_node us
      → NotIn p cs
      → Chain us m x cs q
      → Chain us (with_node m p d w) x cs q
  Chain-with_node m p d w x cs q here out t =
      let z : p + 0 ≡ p = omega arith in
      Chain-store us b end r 8 (store_word 2 m p d) p next_offset w x cs q here (omega arith) out
        (rw z at (Chain-store us b end r 2 m p 0 d x cs q here (omega arith) out t))

  -- A new node in front of a chain.
  pub Chain-front :
      (m : Bytes) (p d x : ℕ) (cs : Cells) (q : Adress)
      → In p sizeof_node us
      → NotIn p cs
      → d < 2 ^ 16
      → Fits 8 x
      → Chain us m x cs q
      → Chain us (with_node m p d x) p ((p, d) ∷ cs) q
  Chain-front m p d x cs q here out small fits t = (
    refl,
    here,
    with_node-data m p d x small,
    rw (with_node-next m p d x fits) (Chain-with_node m p d x x cs q here out t),
  )

  -- The pointer of the node at `a` is set to the chain `post`.
  pub Chain-relink :
      (m : Bytes) (x a v q : ℕ) (pre post : Cells) (last : Adress)
      → In a sizeof_node us
      → load_word 2 m a ≡ v
      → NotIn a pre
      → NotIn a post
      → Fits 8 q
      → Chain us m x pre a
      → Chain us m q post last
      → Chain us (store_word 8 m (a + next_offset) q) x (pre ++ (a, v) ∷ post) last
  Chain-relink m x a v q pre post last here e out behind fits t u =
      let store = λ (y : Adress) (cs : Cells) (z : Adress).
        Chain-store us b end r 8 m a next_offset q y cs z here (omega arith) in
      let f : load_word 2 (store_word 8 m (a + next_offset) q) a ≡ load_word 2 m a =
        load-store_apart 2 8 m (a + next_offset) a q (inl (omega arith)) in
      Chain-join us (store_word 8 m (a + next_offset) q) x a pre ((a, v) ∷ post) last
        (store x pre a out t)
        (
          refl,
          here,
          f ∙ e,
          rw (load-store 8 m (a + next_offset) q fits) (store q post last behind u),
        )
