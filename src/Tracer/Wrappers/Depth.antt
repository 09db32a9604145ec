-- ===== src/Tracer/Wrappers/Depth.antt =====
-- How many `init` run one inside the other, and what becomes of the two `initializing`.
pub mod Nested
use assignment2_c.Prelude.{
  ℕ, zero, suc, ◌+◌, ◌*◌, ◌∙◌, ◌≡◌, ◌<◌, ◌≤◌, ◌==◌, Bool, true, false, refl, none, some, Option,
  List, [], ◌∷◌, arith, ltb, leb, if◌then◌else◌, ℤ, Bool-cases, ap, inl, inr, not, ◌&&◌,
}
use assignment2_c.Manager.{Adress, null, wrap}
use assignment2_c.Tracer.{TempBuffer, temp_alloc, is_temp}
use assignment2_c.Tracer.Wrappers.{
  Request, malloc_of, free_of, realloc_of, calloc_of, memalign_of, mmap_of, munmap_of, TracerState,
  Run, Cmd, pure, set_malloc_busy, set_mmap_busy, temp_memory, move, clear, ◌>>=◌, ◌>>◌, ok, exits,
  crash, too_deep, and_then, from_temp, hand_on, free, malloc, calloc, realloc, mmap, perform,
  perform_all, look_up, init,
}

-- The run ends without an `init` that is too deep, and when it returns, the two are `b` and `m`.
abbrev pub Leaves : {A : Type 0} → Bool → Bool → Run A → Type 0
Leaves b m (ok a s) = (s.malloc_initializing ≡ b) × (s.mmap_initializing ≡ m)
Leaves b m exits = Unit
Leaves b m crash = Unit
Leaves b m too_deep = ⊥

abbrev pub Restores : {A : Type 0} → Cmd A → TracerState → Type 0
Restores c s = Leaves s.malloc_initializing s.mmap_initializing (c s)

abbrev pub idle : Bool → ℕ
idle true = 0
idle false = 1

-- How many of the two can still start an `init`.
abbrev pub idle_count : TracerState → ℕ
idle_count s = idle s.malloc_initializing + idle s.mmap_initializing

pub Leaves-and_then :
    {A B : Type 0} (b m c n : Bool) (r : Run A) (k : A → Cmd B)
    → Leaves b m r
    → ((a : A) (s : TracerState)
        → s.malloc_initializing ≡ b
        → s.mmap_initializing ≡ m
        → Leaves c n (k a s))
    → Leaves c n (and_then r k)
Leaves-and_then b m c n (ok a s) k h f = f a s h.0 h.1
Leaves-and_then b m c n exits k h f = tt
Leaves-and_then b m c n crash k h f = tt
Leaves-and_then b m c n too_deep k h f = h

pub relabel :
    {A : Type 0} (x y b m : Bool) (r : Run A) → x ≡ b → y ≡ m → Leaves x y r → Leaves b m r
relabel x y b m (ok a s) e f l = (l.0 ∙ e, l.1 ∙ f)
relabel x y b m exits e f l = tt
relabel x y b m crash e f l = tt
relabel x y b m too_deep e f l = l

pub Leaves-returns :
    {A B : Type 0} (b m : Bool) (r : Run A) (a : B)
    → Leaves b m r
    → Leaves b m (and_then r (λ _. pure a))
Leaves-returns b m r a h = Leaves-and_then b m b m r (λ _. pure a) h (λ x s e f. (e, f))

module _ (libc : List Request → ℕ) (tmpbuff : Adress) where
  pub hand_on-Leaves :
      (i : ℕ) (r : Request) (b m : Bool) (s : TracerState)
      → s.malloc_initializing ≡ b
      → s.mmap_initializing ≡ m
      → Leaves b m (hand_on libc tmpbuff i r s)
  unfolding hand_on
  hand_on-Leaves i r b m s e f = elim (Bool-cases (ltb i s.found)) [
    | inl t ↦ rw (hand_on, t) (e, f)
    | inr t ↦ rw (hand_on, t) tt
  ]

  pub from_temp-Restores :
      (s : TracerState) (a : Option (Adress × TempBuffer))
      → Leaves s.malloc_initializing s.mmap_initializing (from_temp libc tmpbuff s a)
  from_temp-Restores s none = tt
  from_temp-Restores s (some (p, t)) = (refl, refl)

  pub free-Restores : (p : Adress) (s : TracerState) → Restores (free libc tmpbuff p) s
  unfolding free
  free-Restores p s = elim (Bool-cases (is_temp tmpbuff s.temp p)) [
    | inl t ↦ rw (free, t) (refl, refl)
    | inr t ↦
        rw (free, t)
          (Leaves-returns _ _ (hand_on libc tmpbuff 1 (free_of p) s) tt
            (hand_on-Leaves 1 (free_of p) _ _ s refl refl))
  ]
