-- ===== src/LinkedList/Read/Range.antt =====
-- What `list_display_range` prints.
use assignment2_c.Prelude.{
  ℕ, zero, suc, ◌+◌, ◌≡◌, ◌<◌, ◌⊎◌, refl, ap, Bool, true, false, List, [], ◌∷◌, ◌++◌, arith, length,
  length-append, inl, inr, ◌==◌, if◌then◌else◌, ==_of_ne, ==_of_eq, Bool-cases, append_assoc,
  append-nil,
}
use assignment2_c.Manager.{Adress, null}
use assignment2_c.Manager.Layout.Used.{Ranges}
use assignment2_c.Memory.{load_word}
use assignment2_c.Allocator.{Allocator}
use assignment2_c.LinkedList.{
  ListState, ok, reading, next_offset, Token, number, comma, open_bracket, close_bracket,
}
use assignment2_c.LinkedList.Read.{range_loop, list_display_range}
use assignment2_c.LinkedList.Read.Results.{listed, In-ne-null}
use assignment2_c.LinkedList.Chain.{
  Cells, Chain, IsList, get_data-In, get_next-In, with_lock, at_rest_to,
}
use assignment2_c.LinkedList.Links.{Chain-split}

-- The nodes up to the one at `end_node`, or all if it is not there.
unfoldable pub up_to : Adress → Cells → Cells
up_to end_node [] = []
up_to end_node ((a, v) ∷ cs) = if a == end_node then (a, v) ∷ [] else (a, v) ∷ up_to end_node cs

-- The numbers with a comma before each but the first.
abbrev lead : Bool → List Token → List Token
lead true l = l
lead false l = comma ∷ l

unfoldable ranged : Bool → Cells → List Token
ranged is_first [] = []
ranged is_first ((a, v) ∷ cs) = lead is_first (number v ∷ ranged false cs)

ranged-later : (c : Adress × ℕ) (cs : Cells) → ranged false (c ∷ cs) ≡ comma ∷ listed (c ∷ cs)
unfolding ranged listed
ranged-later (a, v) [] = refl
ranged-later (a, v) (c ∷ cs) = rw (ranged-later c cs)

ranged-listed : (cs : Cells) → ranged true cs ≡ listed cs
unfolding ranged listed
ranged-listed [] = refl
ranged-listed ((a, v) ∷ []) = refl
ranged-listed ((a, v) ∷ c ∷ cs) = rw (ranged-later c cs)

module _ (allocator : Allocator) (s : ListState allocator.State) (end : Adress)
    (r : Ranges 1 (allocator.owned s.pool) end) where
  open allocator use {State, bytes, owned}

  abbrev showing : List Token → ListState State
  showing out = record s { printed = out }

  range_loop-ranged :
      (k : ℕ) (p : Adress) (is_first : Bool) (end_node : Adress) (cells : Cells) (out : List Token)
      → Chain (owned s.pool) (bytes s.pool) p cells null
      → length cells < k
      → range_loop allocator k p is_first end_node (showing out)
        ≡ ok tt (showing (out ++ ranged is_first (up_to end_node cells)))
  unfolding range_loop ranged up_to
  range_loop-ranged zero p is_first end_node cells out t h = absurd (omega arith)
  range_loop-ranged (suc k) p is_first end_node [] out t h = rw (t, append-nil out)
  range_loop-ranged (suc k) p true end_node ((a, v) ∷ cs) out t h =
      let shown = out ++ number v ∷ [] in
      rw
        (
          t.0,
          ==_of_ne a null (In-ne-null a (owned s.pool) end r t.1),
          get_data-In allocator (showing out) a t.1,
          t.2,
        )
        (elim (Bool-cases (a == end_node)) [
          | inl hit ↦ rw hit
          | inr miss ↦
              rw (miss, get_next-In allocator (showing shown) a t.1)
                (rw (append_assoc out (number v ∷ []) (ranged false (up_to end_node cs))) at (
                  range_loop-ranged k (load_word 8 (bytes s.pool) (a + next_offset)) false end_node
                    cs shown t.3 (omega arith)))
        ])
  range_loop-ranged (suc k) p false end_node ((a, v) ∷ cs) out t h =
      let led = out ++ comma ∷ [] in
      let shown = out ++ comma ∷ number v ∷ [] in
      rw
        (
          t.0,
          ==_of_ne a null (In-ne-null a (owned s.pool) end r t.1),
          get_data-In allocator (showing led) a t.1,
          t.2,
          append_assoc out (comma ∷ []) (number v ∷ []),
        )
        (elim (Bool-cases (a == end_node)) [
          | inl hit ↦ rw hit
          | inr miss ↦
              rw (miss, get_next-In allocator (showing shown) a t.1)
                (rw (append_assoc out (comma ∷ number v ∷ []) (ranged false (up_to end_node cs))) at
                  (range_loop-ranged k (load_word 8 (bytes s.pool) (a + next_offset)) false end_node
                    cs shown t.3 (omega arith)))
        ])

-- The part `shown` of the list that begins at `start`, which is all of it if `start` is `NULL`.
abbrev pub StartsAt : Adress → Cells → Cells → Type 0
StartsAt start shown cells =
    ((start ≡ null) × (shown ≡ cells))
    ⊎ ((pre : Cells) × (a : Adress) × (v : ℕ) × (rest : Cells) × (shown ≡ (a, v) ∷ rest)
        × (cells ≡ pre ++ (a, v) ∷ rest)
        × (start ≡ a))

abbrev pub ranged_out : List Token → Adress → Cells → List Token
ranged_out out end_node shown =
    out ++ open_bracket ∷ (listed (up_to end_node shown) ++ close_bracket ∷ [])

module _ (allocator : Allocator) (s : ListState allocator.State) (cells shown : Cells) (k : ℕ)
    (start end_node : Adress) (l : IsList allocator s cells) (fuel : length cells < k)
    (begins : StartsAt start shown cells) where
  open allocator use {State, bytes, owned}

  shown-Chain :
      Chain (owned s.pool) (bytes s.pool) (if start == null then s.head else start) shown null
      × (length shown < k)
  shown-Chain = elim begins [
    | inl (e, f) ↦ rw (f, ==_of_eq start null e) (l.chain, fuel)
    | inr (pre, a, v, rest, e, f, g) ↦
        let (end, below, r) = allocator.owned_ranges s.pool l.safe in
        let (x, t1, t2) =
          Chain-split (owned s.pool) (bytes s.pool) s.head pre ((a, v) ∷ rest) null
            (rw f at l.chain) in
        rw (e, ==_of_ne start null (rw g (In-ne-null a (owned s.pool) end r t2.1)))
          (
            (g, t2.1, t2.2, t2.3),
            omega (arith, fuel, ap length f, length-append pre ((a, v) ∷ rest)),
          )
  ]

  -- `list_display_range` prints the numbers from the node `start_node`, or from the first if that is
  -- `NULL`, to the node `end_node`, or to the last if that is not among them. Nothing else changes.
  pub list_display_range-up_to :
      list_display_range allocator k start end_node s
      ≡ ok tt (record s { printed = ranged_out s.printed end_node shown })
  unfolding list_display_range
  list_display_range-up_to =
      let (end, below, r) = allocator.owned_ranges s.pool l.safe in
      at_rest_to s l.unlocked (list_display_range allocator k start end_node) tt
        (λ u. record u { printed = ranged_out s.printed end_node shown })
        (rw
          (
            range_loop-ranged allocator (with_lock s (reading 0)) end r k
                (if start == null then s.head else start) true end_node shown
                (s.printed ++ open_bracket ∷ []) shown-Chain.0 shown-Chain.1,
            ranged-listed (up_to end_node shown),
          )
          (simp append_assoc))
