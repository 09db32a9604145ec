-- ===== src/LinkedList/Remove/Cleanup.antt =====
-- `list_cleanup` frees every node and gives the pool back; `list_init` starts anew.
use assignment2_c.Prelude.{
  ℕ, zero, suc, ◌+◌, ◌≡◌, ◌≢◌, ◌<◌, refl, ap, ◌∙◌, some, List, [], ◌∷◌, arith, ==_of_ne, ==_of_eq,
  ◌⊎◌, length,
}
use assignment2_c.Manager.{Adress, null}
use assignment2_c.Manager.Layout.Used.{without}
use assignment2_c.Manager.Layout.Ranges.{In}
use assignment2_c.Memory.{load_word}
use assignment2_c.Allocator.{Allocator}
use assignment2_c.LinkedList.{
  ListState, RwLock, Run, ok, fault, released, writing, destroyed, sizeof_node, next_offset,
  with_pool,
}
use assignment2_c.LinkedList.Chain.{Cells, Distinct, Chain, IsList, with_lock, get_next-In}
use assignment2_c.LinkedList.Links.{Chain-without}
use assignment2_c.LinkedList.Read.Results.{In-ne-null, head-ne-null}
use assignment2_c.LinkedList.Remove.{cleanup_loop, list_cleanup}

-- The blocks that are left when every node has been freed.
abbrev pub freed_all : Cells → List (Adress × ℕ) → List (Adress × ℕ)
freed_all [] us = us
freed_all ((a, v) ∷ cs) us = freed_all cs (without a us)

module _ (allocator : Allocator) (s : ListState allocator.State) where
  open allocator use {State, bytes, owned}

  cleanup_next :
      (k : ℕ) (p a : Adress) (t t' t'' : State)
      → p ≡ a
      → a ≢ null
      → In a sizeof_node (owned t)
      → allocator.mem_free a t ≡ some t'
      → cleanup_loop allocator k
          (load_word 8 (bytes t) (a + next_offset))
          (with_pool allocator s t')
        ≡ ok tt (with_pool allocator s t'')
      → cleanup_loop allocator (suc k) p (with_pool allocator s t)
        ≡ ok tt (with_pool allocator s t'')
  unfolding cleanup_loop
  cleanup_next k p a t t' t'' e ne here f g =
      rw (e, ==_of_ne a null ne, get_next-In allocator (with_pool allocator s t) a here, f) g

  cleanup_loop-freed_all :
      (k : ℕ) (p : Adress) (cells : Cells) (t : State)
      → allocator.IsSafe t
      → Chain (owned t) (bytes t) p cells null
      → Distinct cells
      → length cells < k
      → (t' : State) × (cleanup_loop allocator k p (with_pool allocator s t)
          ≡ ok tt (with_pool allocator s t'))
        × allocator.IsSafe t'
        × (owned t' ≡ freed_all cells (owned t))
  unfolding cleanup_loop
  cleanup_loop-freed_all zero p cells t safe c d h = absurd (omega arith)
  cleanup_loop-freed_all (suc k) p [] t safe c d h = (t, rw c, safe, refl)
  cleanup_loop-freed_all (suc k) p ((a, v) ∷ cs) t safe c d h =
      let (end, below, r) = allocator.owned_ranges t safe in
      let (t', e, safe', f, g) = allocator.free_law a t safe in
      let q = load_word 8 (bytes t) (a + next_offset) in
      let c' : Chain (owned t') (bytes t') q cs null =
        rw (f, g) (Chain-without (owned t) (bytes t) a q cs null d.0 c.3) in
      let (t'', e', safe'', f') = cleanup_loop-freed_all k q cs t' safe' c' d.1 (omega arith) in
      (
        t'',
        cleanup_next k p a t t' t'' c.0 (In-ne-null a (owned t) end r c.1) c.1 e e',
        safe'',
        f' ∙ ap (freed_all cs) f,
      )

-- An empty list leaves the lock as it is.
abbrev pub lock_after : Cells → RwLock
lock_after [] = released
lock_after (c ∷ cs) = destroyed

module _ (allocator : Allocator) (s : ListState allocator.State) where
  open allocator use {State, bytes, owned}

  cleanup_from :
      (k : ℕ) (cells : Cells)
      → allocator.IsSafe s.pool
      → Chain (owned s.pool) (bytes s.pool) s.head cells null
      → Distinct cells
      → length cells < k
      → (t : State) × (list_cleanup allocator k (with_lock s released)
          ≡ ok tt (record s { pool = t; head = null; lock = lock_after cells }))
        × allocator.IsStopped t
        × (owned t ≡ [])
  unfolding list_cleanup
  cleanup_from k [] safe c d h =
      let (t, e, stopped, none_owned) = allocator.deinit_law s.pool safe in
      (
        t,
        rw (==_of_eq s.head null c, e)
            (ap (λ (p : Adress). ok tt (record s { pool = t; head = p; lock = released })) c),
        stopped,
        none_owned,
      )
  cleanup_from k (c ∷ cs) safe t d h =
      let (end, below, r) = allocator.owned_ranges s.pool safe in
      let (u, e, safe', f) =
        cleanup_loop-freed_all allocator (with_lock s writing) k s.head (c ∷ cs) s.pool safe t d
          h in
      let (w, g, stopped, none_owned) = allocator.deinit_law u safe' in
      (
        w,
        rw (
          ==_of_ne s.head null (head-ne-null (owned s.pool) (bytes s.pool) s.head c cs end r t),
          e,
          g,
        ),
        stopped,
        none_owned,
      )

  -- With fuel for the nodes, `list_cleanup` returns, and then there is no list, no pool and no block that is handed out; the
  -- lock is destroyed if there was a node.
  pub list_cleanup-IsStopped :
      (k : ℕ) (cells : Cells)
      → IsList allocator s cells
      → length cells < k
      → (t : State) × (list_cleanup allocator k s
          ≡ ok tt (record s { pool = t; head = null; lock = lock_after cells }))
        × allocator.IsStopped t
        × (owned t ≡ [])
  list_cleanup-IsStopped k cells l fuel =
      let (t, e, stopped, none_owned) = cleanup_from k cells l.safe l.chain l.distinct fuel in
      let w : s ≡ with_lock s released = ap (with_lock s) l.unlocked in
      (t, ap (list_cleanup allocator k) w ∙ e, stopped, none_owned)

-- Without a list, and with the lock initialised.
abbrev pub begun : {S : Type 0} → ListState S → S → ListState S
begun s u = record s { pool = u; head = null; lock = released }

-- What becomes of a `list_cleanup` of the list `cells` and a `list_init`. An empty list has left the lock
-- initialised, and it must not be initialised again. Otherwise there is an empty list in a pool with
-- nothing handed out, or no pool if there is no memory for it.
abbrev pub Restarts :
    (allocator : Allocator)
    → ListState allocator.State
    → Cells
    → Run allocator.State (Unit {0})
    → Type 0
Restarts allocator s [] r = r ≡ fault
Restarts allocator s (c ∷ cs) r =
    (u : allocator.State) × (r ≡ ok tt (begun s u))
    × ((IsList allocator (begun s u) [] × (allocator.owned u ≡ [])) ⊎ allocator.IsStopped u)
