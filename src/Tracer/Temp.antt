-- ===== src/Tracer/Temp.antt =====
-- What the temporary buffer answers to a sequence of requests.
use assignment2_c.Prelude.{
  ℕ, ◌+◌, ◌^◌, ◌-◌, ◌≡◌, ◌≤◌, ◌<◌, refl, true, ◌⊎◌, none, some, List, [], ◌∷◌, arith, inl, inr,
  lt→ltb, ge→ltb,
}
use assignment2_c.Manager.{Adress, wrap}
use assignment2_c.Manager.Layout.Used.{Ranges}
use assignment2_c.Manager.Layout.Ranges.{In}
use assignment2_c.Tracer.{TempBuffer, tmpbuff_size, temp_alloc, is_temp, serve}

abbrev pub sum : List ℕ → ℕ
sum [] = 0
sum (n ∷ ns) = n + sum ns

abbrev pub after : ℕ → TempBuffer → TempBuffer
after size t = record { tmppos = t.tmppos + size; tmpallocs = wrap (t.tmpallocs + 1) }

pub temp_alloc-fits :
    (tmpbuff : Adress) (size : ℕ) (t : TempBuffer)
    → t.tmppos + size < tmpbuff_size
    → temp_alloc tmpbuff size t ≡ some (tmpbuff + t.tmppos, after size t)
unfolding temp_alloc
temp_alloc-fits tmpbuff size t h =
    let w : wrap (t.tmppos + size) ≡ t.tmppos + size = omega arith in
    rw (w, lt→ltb (t.tmppos + size) tmpbuff_size h)

-- The ranges lie between `a` and `end`, each behind the one before it, and `free` knows them all.
pub record Served (tmpbuff : Adress) (sizes : List ℕ) (t : TempBuffer) : Type 0 where
  pub ranges : List (Adress × ℕ)
  pub buffer : TempBuffer
  pub answers : serve tmpbuff sizes t ≡ some (ranges, buffer)
  pub apart : Ranges (tmpbuff + t.tmppos) ranges (tmpbuff + buffer.tmppos)
  pub position : buffer.tmppos ≡ t.tmppos + sum sizes
  pub recognised : (p n : ℕ) → In p n ranges → is_temp tmpbuff buffer p ≡ true

weaker : (us : List (Adress × ℕ)) (a b end : Adress) → a ≤ b → Ranges b us end → Ranges a us end
weaker [] a b end h r = omega arith
weaker (u ∷ us) a b end h r = (omega arith, r.1)

is_temp-between :
    (tmpbuff : Adress) (t : TempBuffer) (p : Adress)
    → tmpbuff ≤ p
    → p ≤ tmpbuff + t.tmppos
    → is_temp tmpbuff t p ≡ true
unfolding is_temp
is_temp-between tmpbuff t p h k = ground arith

serve_next :
    (tmpbuff : Adress) (size : ℕ) (sizes : List ℕ) (t : TempBuffer) (rs : List (Adress × ℕ))
    (u : TempBuffer)
    → t.tmppos + size < tmpbuff_size
    → serve tmpbuff sizes (after size t) ≡ some (rs, u)
    → serve tmpbuff (size ∷ sizes) t ≡ some ((tmpbuff + t.tmppos, size) ∷ rs, u)
unfolding serve
serve_next tmpbuff size sizes t rs u h e = rw (serve, temp_alloc-fits tmpbuff size t h, e)

-- While the requests together leave a byte of the buffer, each is answered inside the buffer with a
-- range of its own, the ranges lie one behind the other, and `free` takes none of them for memory of
-- the real allocator.
pub serve-Ranges :
    (tmpbuff : Adress) (sizes : List ℕ) (t : TempBuffer)
    → t.tmppos + sum sizes < tmpbuff_size
    → Served tmpbuff sizes t
unfolding serve
serve-Ranges tmpbuff [] t h = record {
  ranges = [];
  buffer = t;
  answers = refl;
  apart = omega arith;
  position = omega arith;
  recognised = λ p n i. absurd i;
}
serve-Ranges tmpbuff (size ∷ sizes) t h =
    let s = serve-Ranges tmpbuff sizes (after size t) (omega arith) in
    record {
      ranges = (tmpbuff + t.tmppos, size) ∷ s.ranges;
      buffer = s.buffer;
      answers = serve_next tmpbuff size sizes t s.ranges s.buffer (omega arith) s.answers;
      apart = (omega arith, weaker s.ranges _ _ _ (omega arith) s.apart);
      position = omega (arith, s.position);
      recognised = λ p n i. elim i [
        | inl e ↦
            is_temp-between tmpbuff s.buffer p (omega (arith, e.0)) (omega (arith, e.0, s.position))
        | inr j ↦ s.recognised p n j
      ];
    }

-- No request is so large that its sum with a position in the buffer wraps around.
abbrev pub AllBelow : ℕ → List ℕ → Type 0
AllBelow m [] = Unit {0}
AllBelow m (n ∷ ns) = (n < m) × AllBelow m ns

serve_rest :
    (tmpbuff : Adress) (size : ℕ) (sizes : List ℕ) (t : TempBuffer)
    → t.tmppos + size < tmpbuff_size
    → serve tmpbuff sizes (after size t) ≡ none
    → serve tmpbuff (size ∷ sizes) t ≡ none
unfolding serve
serve_rest tmpbuff size sizes t h e = rw (serve, temp_alloc-fits tmpbuff size t h, e)

serve_first :
    (tmpbuff : Adress) (size : ℕ) (sizes : List ℕ) (t : TempBuffer)
    → tmpbuff_size ≤ t.tmppos + size
    → t.tmppos + size < 2 ^ 64
    → serve tmpbuff (size ∷ sizes) t ≡ none
unfolding serve temp_alloc
serve_first tmpbuff size sizes t h k =
    let w : wrap (t.tmppos + size) ≡ t.tmppos + size = omega arith in
    rw (serve, temp_alloc, w, ge→ltb (t.tmppos + size) tmpbuff_size h)

decide_fit : (n : ℕ) → (n < tmpbuff_size) ⊎ (tmpbuff_size ≤ n)
decide_fit n = ground arith

-- Requests that together do not leave a byte of the buffer end the program, if none of them is so
-- large that its sum with a position in the buffer wraps around.
pub serve-exits :
    (tmpbuff : Adress) (sizes : List ℕ) (t : TempBuffer)
    → t.tmppos < tmpbuff_size
    → AllBelow (2 ^ 64 - tmpbuff_size) sizes
    → tmpbuff_size ≤ t.tmppos + sum sizes
    → serve tmpbuff sizes t ≡ none
serve-exits tmpbuff [] t h b k = absurd (omega arith)
serve-exits tmpbuff (size ∷ sizes) t h b k = elim (decide_fit (t.tmppos + size)) [
  | inl fits ↦
      serve_rest tmpbuff size sizes t fits
        (serve-exits tmpbuff sizes (after size t) fits b.1 (omega arith))
  | inr full ↦ serve_first tmpbuff size sizes t full (omega (arith, b.0))
]
