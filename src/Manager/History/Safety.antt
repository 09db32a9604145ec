-- ===== src/Manager/History/Safety.antt =====
-- No client can make the pool invalid.
use assignment2_c.Prelude.{
  ℕ, zero, suc, ◌+◌, ◌^◌, ◌≡◌, ◌≢◌, ◌≤◌, ◌<◌, refl, sym, ap, ◌∙◌, some, [], ◌∷◌, ◌++◌, arith,
  length, take, inl, inr,
}
use assignment2_c.Manager.{
  Adress, null, MemoryBlock, BlockTable, Manager, Run, ok, fault, holding, int_max,
}
use assignment2_c.Manager.Layout.{IsTiling, IsValid}
use assignment2_c.Manager.Layout.Used.{used}
use assignment2_c.Manager.Layout.Ranges.{In}
use assignment2_c.Manager.Alloc.{Realloc, mem_alloc}
use assignment2_c.Manager.Alloc.Take.{HasRoom}
use assignment2_c.Manager.Alloc.HandOut.{mem_alloc-HandsOut, mem_alloc-zero}
use assignment2_c.Manager.Free.{mem_free}
use assignment2_c.Manager.Free.TakeBack.{mem_free-TakesBack, coalesce-IsValid}
use assignment2_c.Manager.Init.{mem_init}
use assignment2_c.Manager.Init.Lifecycle.{IsSound, one_block, mem_init-IsValid}
use assignment2_c.Manager.Resize.{mem_resize}
use assignment2_c.Manager.Resize.Replace.{IsValid-same}
use assignment2_c.Manager.Resize.Outcome.{mem_resize-Outcome}
use assignment2_c.Manager.Resize.Failure.{mem_resize-zero}
use assignment2_c.Manager.History.{live, Reached, begun, allocated, released, resized, written}

-- A state of a pool of `n` bytes between two calls: the part of the array that is in use is a valid
-- list of blocks, and no thread holds the lock.
pub record IsSafe (n : ℕ) (s : Manager) : Type 0 where
  pub junk : BlockTable
  pub shape : s ≡ holding s (live s) junk
  pub valid : IsValid s (live s)
  pub size_kept : s.mem_pool_size ≡ n
  pub lock_free : s.lock_depth ≡ 0

pub take-append : (xs ys : BlockTable) → take (length xs) (xs ++ ys) ≡ xs
take-append [] ys = refl
take-append (x ∷ xs) ys = ap (λ l. x ∷ l) (take-append xs ys)

pub safe :
    (n : ℕ) (s : Manager) (xs junk : BlockTable) (bytes : Adress → ℕ)
    → IsValid s xs
    → s.mem_pool_size ≡ n
    → s.lock_depth ≡ 0
    → IsSafe n (record (holding s xs junk) { bytes = bytes })
safe n s xs junk bytes v e f =
    let t = record (holding s xs junk) { bytes = bytes } in
    record {
      junk = junk;
      shape = rw (take-append xs junk);
      valid = rw (take-append xs junk) (IsValid-same s t xs refl refl v);
      size_kept = e;
      lock_free = f;
    }

abbrev pub with_bytes : (Adress → ℕ) → Manager → Manager
with_bytes bytes s = record s { bytes = bytes }

abbrev state_of : {A : Type 0} → Manager → Run A → Manager
state_of s (ok a t) = t
state_of s fault = s

-- Blocks are not empty, so there are at most as many as the pool has bytes.
IsTiling-length : (xs : BlockTable) (a end : Adress) → IsTiling a xs end → a + length xs ≤ end
IsTiling-length [] a end t = omega arith
IsTiling-length (b ∷ bs) a end t = omega (arith, IsTiling-length bs (a + b.size) end t.2)

-- The run returns, in a safe state.
abbrev pub Safely : {A : Type 0} → ℕ → Run A → Type 0
Safely {A} n r = (a : A) × (t : Manager) × (r ≡ ok a t) × IsSafe n t

module _ (realloc : Realloc) (n : ℕ) (room : HasRoom realloc) (small : n < int_max) where
  pub few :
      (s : Manager) (xs : BlockTable) → IsValid s xs → s.mem_pool_size ≡ n → length xs < int_max
  few s xs v e = omega (arith, IsTiling-length xs _ _ v.tiling)

  alloc_holding :
      (s : Manager) (xs junk : BlockTable) (size : ℕ)
      → IsValid s xs
      → s.mem_pool_size ≡ n
      → s.lock_depth ≡ 0
      → 0 < size
      → Safely n (mem_alloc realloc size (holding s xs junk))
  alloc_holding s xs junk size v e f pos =
      elim (mem_alloc-HandsOut realloc size s xs junk room pos (few s xs v e) v) [
        | inl (g, none_fits) ↦ (null, holding s xs junk, g, safe n s xs junk s.bytes v e f)
        | inr h ↦ (
          h.adress,
          holding s h.blocks h.junk,
          h.returns,
          safe n s h.blocks h.junk s.bytes h.valid e f,
        )
      ]

  mem_alloc-Safely : (s : Manager) (size : ℕ) → IsSafe n s → Safely n (mem_alloc realloc size s)
  mem_alloc-Safely s zero i = (
    s.mem_pool_start,
    s,
    ap (mem_alloc realloc zero) i.shape
        ∙ mem_alloc-zero realloc s (live s) i.junk
        ∙ ap (ok s.mem_pool_start) (sym i.shape),
    i,
  )
  mem_alloc-Safely s (suc k) i =
      let (q, t, e, j) =
        alloc_holding s (live s) i.junk (suc k) i.valid i.size_kept i.lock_free (omega arith) in
      (q, t, ap (mem_alloc realloc (suc k)) i.shape ∙ e, j)

  mem_free-Safely : (s : Manager) (p : Adress) → IsSafe n s → Safely n (mem_free p s)
  mem_free-Safely s p i =
      let h = mem_free-TakesBack s (live s) i.junk p i.valid in
      (
        tt,
        holding s h.blocks h.junk,
        ap (mem_free p) i.shape ∙ h.returns,
        safe n s h.blocks h.junk s.bytes h.valid i.size_kept i.lock_free,
      )

  resize_holding :
      (s : Manager) (xs junk : BlockTable) (p old size : ℕ)
      → IsValid s xs
      → s.mem_pool_size ≡ n
      → s.lock_depth ≡ 0
      → In p old (used xs)
      → Safely n (mem_resize realloc p size (holding s xs junk))
  resize_holding s xs junk p old zero v e f there =
      let (junk', g) = mem_resize-zero realloc s xs junk p old v there in
      (s.mem_pool_start, _, g, safe n s _ junk' s.bytes (coalesce-IsValid s xs p v) e f)
  resize_holding s xs junk p old (suc k) v e f there =
      elim (mem_resize-Outcome realloc s (suc k) xs junk p old room (omega arith) (few s xs v e) v
        there) [
          | inl (g, less, none_fits) ↦ (null, holding s xs junk, g, safe n s xs junk s.bytes v e f)
          | inr h ↦ (h.adress, _, h.returns, safe n s h.blocks h.junk h.bytes h.valid e f)
        ]

  mem_resize-Safely :
      (s : Manager) (p old size : ℕ)
      → IsSafe n s
      → In p old (used (live s))
      → Safely n (mem_resize realloc p size s)
  mem_resize-Safely s p old size i there =
      let (q, t, e, j) =
        resize_holding s (live s) i.junk p old size i.valid i.size_kept i.lock_free there in
      (q, t, ap (mem_resize realloc p size) i.shape ∙ e, j)

  -- The state after a run that is known to return safely.
  same_state :
      {A : Type 0} (s t : Manager) (r : Run A) (a : A) → r ≡ ok a t → Safely n r → IsSafe n t
  same_state s t r a e (b, u, f, i) = let same : t ≡ u = ap (state_of s) (sym e ∙ f) in rw same i

  every_state : {first s : Manager} → IsSafe n first → Reached realloc first s → IsSafe n s
  every_state i begun = i
  every_state i (allocated {s} {t} size q r e) =
      same_state s t _ q e (mem_alloc-Safely s size (every_state i r))
  every_state i (released {s} {t} p r e) =
      same_state s t _ tt e (mem_free-Safely s p (every_state i r))
  every_state i (resized {s} {t} p q old size r there e) =
      same_state s t _ q e (mem_resize-Safely s p old size (every_state i r) there)
  every_state i (written {s} bytes r) =
      let j = every_state i r in
      record {
        junk = j.junk;
        shape = ap (with_bytes bytes) j.shape;
        valid = IsValid-same s (record s { bytes = bytes }) (live s) refl refl j.valid;
        size_kept = j.size_kept;
        lock_free = j.lock_free;
      }

-- From a `mem_init` that succeeds, with a pool of at least one byte and fewer than the largest `int`,
-- and while `realloc` has memory for the array: whatever calls a client has made before, the pool is
-- valid and the lock is free, and every further call returns: an allocation of any size, a release of
-- any address, and a change to any size of a block that is handed out.
pub Reached-IsSafe :
    (realloc : Realloc) (n : ℕ) (temp : Adress) (cell : MemoryBlock) (before first s : Manager)
    → HasRoom realloc
    → 0 < n
    → n < int_max
    → temp ≢ null
    → temp + n < 2 ^ 64
    → IsSound before
    → mem_init temp (some cell) n before ≡ ok tt first
    → Reached realloc first s
    → IsSafe n s
      × ((size : ℕ) → Safely n (mem_alloc realloc size s))
      × ((p : Adress) → Safely n (mem_free p s))
      × ((p old size : ℕ) → In p old (used (live s)) → Safely n (mem_resize realloc p size s))
Reached-IsSafe realloc n temp cell before first s room pos small ne range sound e r =
    let (f, v) = mem_init-IsValid before sound temp ne n cell pos range in
    let begin : IsSafe n (one_block before temp n) = record {
      junk = [];
      shape = refl;
      valid = v;
      size_kept = refl;
      lock_free = refl;
    } in
    let i =
      every_state realloc n room small
        (same_state realloc n room small before first _ tt e
          (tt, one_block before temp n, f, begin))
        r in
    (
      i,
      λ size. mem_alloc-Safely realloc n room small s size i,
      λ p. mem_free-Safely realloc n room small s p i,
      λ p old size there. mem_resize-Safely realloc n room small s p old size i there,
    )
