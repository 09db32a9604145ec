-- ===== src/LinkedList/Steps.antt =====
-- The commands on nodes, and the loops, in a state whose memory has been written.
use assignment2_c.Prelude.{
  ℕ, zero, suc, ◌+◌, ◌≡◌, ◌≢◌, ◌<◌, sym, ◌∙◌, List, [], ◌∷◌, ◌++◌, arith, length, ==_of_ne, ==_self,
}
use assignment2_c.Manager.{Adress, null}
use assignment2_c.Manager.Layout.Used.{Ranges}
use assignment2_c.Manager.Layout.Ranges.{In}
use assignment2_c.Memory.{Bytes, load_word, store_word}
use assignment2_c.Allocator.{Allocator}
use assignment2_c.LinkedList.{
  ListState, ok, sizeof_node, next_offset, get_next, set_data, set_next, with_pool,
}
use assignment2_c.LinkedList.Chain.{Cells, NotIn, Chain, has_node-In, get_next-In}
use assignment2_c.LinkedList.Read.Results.{In-ne-null, head-ne-null}
use assignment2_c.LinkedList.Insert.{last_loop, previous_loop}

module _ (allocator : Allocator) (s : ListState allocator.State) (t : allocator.State)
    (p : Adress) where
  open allocator use {State, bytes, set_bytes, owned}

  -- The state with the pool `t`, and the memory `m`.
  abbrev pub with_memory : Bytes → ListState State
  with_memory m = with_pool allocator s (set_bytes m t)

  module _ (here : In p sizeof_node (owned t)) where
    pub set_data-first :
        (v : ℕ)
        → set_data allocator p v (with_pool allocator s t)
          ≡ ok tt (with_memory (store_word 2 (bytes t) p v))
    unfolding set_data
    set_data-first v = rw (has_node-In p (owned t) here)

    pub set_next-first :
        (q : Adress)
        → set_next allocator p q (with_pool allocator s t)
          ≡ ok tt (with_memory (store_word 8 (bytes t) (p + next_offset) q))
    unfolding set_next
    set_next-first q = rw (has_node-In p (owned t) here)

    pub set_next-later :
        (m : Bytes) (q : Adress)
        → set_next allocator p q (with_memory m)
          ≡ ok tt (with_memory (store_word 8 m (p + next_offset) q))
    unfolding set_next
    set_next-later m q = rw (
      allocator.owned_set m t,
      has_node-In p (owned t) here,
      allocator.bytes_set m t,
      allocator.set_set (store_word 8 m (p + next_offset) q) m t,
    )

    pub get_next-later :
        (m : Bytes)
        → get_next allocator p (with_memory m)
          ≡ ok (load_word 8 m (p + next_offset)) (with_memory m)
    unfolding get_next
    get_next-later m =
        rw (allocator.owned_set m t, has_node-In p (owned t) here, allocator.bytes_set m t)

-- A chain to `NULL` that goes through a node does not start at `NULL`.
pub middle-ne-null :
    (us : List (Adress × ℕ)) (m : Bytes) (p : Adress) (pre : Cells) (c : Adress × ℕ) (post : Cells)
    (end : Adress)
    → Ranges 1 us end
    → Chain us m p (pre ++ c ∷ post) null
    → p ≢ null
middle-ne-null us m p [] c post end r t = head-ne-null us m p c post end r t
middle-ne-null us m p (b ∷ pre) c post end r t = head-ne-null us m p b (pre ++ c ∷ post) end r t

-- A chain does not start at an address that none of its first nodes has.
pub start-ne :
    (us : List (Adress × ℕ)) (m : Bytes) (p b : Adress) (pre : Cells) (c : Adress × ℕ)
    (post : Cells)
    → Chain us m p (pre ++ c ∷ post) null
    → NotIn b (pre ++ c ∷ [])
    → p ≢ b
start-ne us m p b [] c post t n e = n.0 (sym e ∙ t.0)
start-ne us m p b (d ∷ pre) c post t n e = n.0 (sym e ∙ t.0)

pub start-ne_null :
    (us : List (Adress × ℕ)) (m : Bytes) (p b : Adress) (cells : Cells)
    → Chain us m p cells null
    → NotIn b cells
    → b ≢ null
    → p ≢ b
start-ne_null us m p b [] t n ne e = ne (sym e ∙ t)
start-ne_null us m p b (d ∷ cs) t n ne e = n.0 (sym e ∙ t.0)

module _ (allocator : Allocator) (s : ListState allocator.State) (end : Adress)
    (r : Ranges 1 (allocator.owned s.pool) end) where
  open allocator use {bytes, owned}

  pub last_loop-append :
      (k : ℕ) (p : Adress) (pre : Cells) (a v : ℕ)
      → Chain (owned s.pool) (bytes s.pool) p (pre ++ (a, v) ∷ []) null
      → length pre < k
      → last_loop allocator k p s ≡ ok a s
  unfolding last_loop
  last_loop-append zero p pre a v t h = absurd (omega arith)
  last_loop-append (suc k) p [] a v t h = rw (t.0, get_next-In allocator s a t.1, t.3)
  last_loop-append (suc k) p ((b, w) ∷ pre) a v t h =
      let q = load_word 8 (bytes s.pool) (b + next_offset) in
      rw
        (
          t.0,
          get_next-In allocator s b t.1,
          ==_of_ne q null (middle-ne-null (owned s.pool) (bytes s.pool) q pre (a, v) [] end r t.3),
        )
        (last_loop-append k q pre a v t.3 (omega arith))

  -- The node before `target`, which is behind the node `a`.
  pub previous_loop-before :
      (k : ℕ) (p : Adress) (pre : Cells) (a v b w : ℕ) (post : Cells)
      → Chain (owned s.pool) (bytes s.pool) p (pre ++ (a, v) ∷ (b, w) ∷ post) null
      → NotIn b (pre ++ (a, v) ∷ [])
      → length pre < k
      → previous_loop allocator k p b s ≡ ok a s
  unfolding previous_loop
  previous_loop-before zero p pre a v b w post t n h = absurd (omega arith)
  previous_loop-before (suc k) p [] a v b w post t n h = rw (
    t.0,
    ==_of_ne a null (In-ne-null a (owned s.pool) end r t.1),
    get_next-In allocator s a t.1,
    t.3.0,
    ==_self b,
  )
  previous_loop-before (suc k) p ((c, x) ∷ pre) a v b w post t n h =
      let q = load_word 8 (bytes s.pool) (c + next_offset) in
      rw
        (
          t.0,
          ==_of_ne c null (In-ne-null c (owned s.pool) end r t.1),
          get_next-In allocator s c t.1,
          ==_of_ne q b
              (start-ne (owned s.pool) (bytes s.pool) q b pre (a, v) ((b, w) ∷ post) t.3 n.1),
        )
        (previous_loop-before k q pre a v b w post t.3 n.1 (omega arith))

  -- There is no node with the address `target`.
  pub previous_loop-absent :
      (k : ℕ) (p : Adress) (cells : Cells) (target : Adress)
      → Chain (owned s.pool) (bytes s.pool) p cells null
      → NotIn target cells
      → target ≢ null
      → length cells < k
      → previous_loop allocator k p target s ≡ ok null s
  unfolding previous_loop
  previous_loop-absent zero p cells target t n ne h = absurd (omega arith)
  previous_loop-absent (suc k) p [] target t n ne h = rw t
  previous_loop-absent (suc k) p ((a, v) ∷ cs) target t n ne h =
      let q = load_word 8 (bytes s.pool) (a + next_offset) in
      rw
        (
          t.0,
          ==_of_ne a null (In-ne-null a (owned s.pool) end r t.1),
          get_next-In allocator s a t.1,
          ==_of_ne q target (start-ne_null (owned s.pool) (bytes s.pool) q target cs t.3 n.1 ne),
        )
        (previous_loop-absent k q cs target t.3 n.1 ne (omega arith))
