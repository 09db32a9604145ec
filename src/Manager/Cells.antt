-- ===== src/Manager/Cells.antt =====
-- Access to the array of blocks at an index where it is split, and the two shift loops.
use assignment2_c.Prelude.{
  ℕ, zero, suc, ◌+◌, ◌-◌, ◌≡◌, refl, [], ◌∷◌, ◌++◌, arith, length, length-append, append_assoc,
  append-nil, get_elem?-split, set?-split, last-cases, inl, inr, ap, ◌∙◌, Bool,
}
use assignment2_c.Manager.{
  MemoryBlock, BlockTable, Manager, ok, Cmd, pure, ◌>>=◌, ◌>>◌, read, write, write_used, write_size,
  write_start, with_cells,
}

module _ (s : Manager) (pre : BlockTable) (b : MemoryBlock) (post : BlockTable) where
  pub read-split :
      read (length pre) (with_cells s (pre ++ b ∷ post)) ≡ ok b (with_cells s (pre ++ b ∷ post))
  unfolding read
  read-split = rw (get_elem?-split pre b post, read)

  pub write-split :
      (c : MemoryBlock)
      → write (length pre) c (with_cells s (pre ++ b ∷ post))
        ≡ ok tt (with_cells s (pre ++ c ∷ post))
  unfolding write
  write-split c = rw (set?-split pre b post c, write)

  pub write_used-split :
      (u : Bool)
      → write_used (length pre) u (with_cells s (pre ++ b ∷ post))
        ≡ ok tt (with_cells s (pre ++ record b { is_used = u } ∷ post))
  unfolding write_used
  write_used-split u = rw (read-split, write-split _)

  pub write_size-split :
      (n : ℕ)
      → write_size (length pre) n (with_cells s (pre ++ b ∷ post))
        ≡ ok tt (with_cells s (pre ++ record b { size = n } ∷ post))
  unfolding write_size
  write_size-split n = rw (read-split, write-split _)

  pub write_start-split :
      (a : ℕ)
      → write_start (length pre) a (with_cells s (pre ++ b ∷ post))
        ≡ ok tt (with_cells s (pre ++ record b { start_adress = a } ∷ post))
  unfolding write_start
  write_start-split a = rw (read-split, write-split _)

-- `for (i = ...; i < memoryBlocksSize - 1; i++) memoryBlocks[i] = memoryBlocks[i + 1];` with the
-- rounds that are left.
unfoldable pub shift_left : ℕ → ℕ → Cmd (Unit {0})
shift_left zero i = pure tt
shift_left (suc k) i = do b ← read (suc i); write i b; shift_left k (suc i)

-- `for (j = ...; j > i + 1; j--) memoryBlocks[j] = memoryBlocks[j - 1];`
unfoldable pub shift_right : ℕ → ℕ → Cmd (Unit {0})
shift_right zero j = pure tt
shift_right (suc k) j = do b ← read (j - 1); write j b; shift_right k (j - 1)

-- The cell that the left shift leaves behind the live blocks.
abbrev pub last_of : MemoryBlock → BlockTable → MemoryBlock
last_of b [] = b
last_of b (c ∷ cs) = last_of c cs

read-at :
    (s : Manager) (pre : BlockTable) (b : MemoryBlock) (post : BlockTable) {i : ℕ}
    → length pre ≡ i
    → read i (with_cells s (pre ++ b ∷ post)) ≡ ok b (with_cells s (pre ++ b ∷ post))
read-at s pre b post e = rw (← e) (read-split s pre b post)

write-at :
    (s : Manager) (pre : BlockTable) (b : MemoryBlock) (post : BlockTable) (c : MemoryBlock) {i : ℕ}
    → length pre ≡ i
    → write i c (with_cells s (pre ++ b ∷ post)) ≡ ok tt (with_cells s (pre ++ c ∷ post))
write-at s pre b post c e = rw (← e) (write-split s pre b post c)

read-next :
    (s : Manager) (pre : BlockTable) (a b : MemoryBlock) (post : BlockTable) {i : ℕ}
    → length pre ≡ i
    → read (suc i) (with_cells s (pre ++ a ∷ b ∷ post)) ≡ ok b (with_cells s (pre ++ a ∷ b ∷ post))
read-next s pre a b post {i} e =
    rw append_assoc at
      (read-at s (pre ++ a ∷ []) b post {i = suc i} (omega (arith, length-append pre (a ∷ []), e)))

pub shift_left-split :
    (s : Manager) (ys pre : BlockTable) (b : MemoryBlock) (junk : BlockTable) (i : ℕ)
    → length pre ≡ i
    → shift_left (length ys) i (with_cells s (pre ++ (b ∷ ys ++ junk)))
      ≡ ok tt (with_cells s (pre ++ (ys ++ last_of b ys ∷ junk)))
unfolding shift_left
shift_left-split s [] pre b junk i e = refl
shift_left-split s (y ∷ ys) pre b junk i e =
    rw (read-next s pre b y (ys ++ junk) e, write-at s pre b (y ∷ ys ++ junk) y e)
      (simp append_assoc at (
        shift_left-split s ys (pre ++ y ∷ []) y junk (suc i)
          (omega (arith, length-append pre (y ∷ []), e))))

-- What the right shift leaves: the first cell twice, and the cell `z` written over.
abbrev pub doubled : BlockTable → MemoryBlock → BlockTable
doubled [] z = z ∷ []
doubled (y ∷ ys) z = y ∷ y ∷ ys

doubled-snoc :
    (ys : BlockTable) (y z : MemoryBlock) (rest : BlockTable)
    → doubled ys y ++ y ∷ rest ≡ doubled (ys ++ y ∷ []) z ++ rest
doubled-snoc [] y z rest = refl
doubled-snoc (x ∷ ys) y z rest = simp append_assoc

-- One round, with the list that is split at the cell to be copied.
shift_right-round :
    (s : Manager) (pre xs : BlockTable) (y z : MemoryBlock) (rest : BlockTable) (k j : ℕ)
    → length pre + length xs + 1 ≡ j
    → shift_right (suc k) j (with_cells s (pre ++ ((xs ++ y ∷ []) ++ z ∷ rest)))
      ≡ shift_right k (j - 1) (with_cells s (pre ++ (xs ++ y ∷ y ∷ rest)))
unfolding shift_right
shift_right-round s pre xs y z rest k j e = simp append_assoc (
    rw (
      simp append_assoc at
          (read-at s (pre ++ xs) y (z ∷ rest) {i = j - 1} (omega (arith, length-append pre xs, e))),
      simp append_assoc at (
          write-at s (pre ++ xs ++ y ∷ []) z rest y {i = j}
            (omega (arith, length-append (pre ++ xs) (y ∷ []), length-append pre xs, e))),
    ))

shift_right-rounds :
    (s : Manager) (k : ℕ) (ys pre : BlockTable) (z : MemoryBlock) (rest : BlockTable) (j : ℕ)
    → length ys ≡ k
    → length pre + k ≡ j
    → shift_right k j (with_cells s (pre ++ (ys ++ z ∷ rest)))
      ≡ ok tt (with_cells s (pre ++ (doubled ys z ++ rest)))
unfolding shift_right
shift_right-rounds s zero [] pre z rest j e f = refl
shift_right-rounds s zero (y ∷ ys) pre z rest j e f = absurd (omega arith)
shift_right-rounds s (suc k) ys pre z rest j e f = elim (last-cases ys) [
  | inl g ↦ absurd (omega (arith, ap length g))
  | inr (xs, y, g) ↦
      let m : length xs ≡ k = omega (arith, ap length g, length-append xs (y ∷ [])) in
      rw (g, ← doubled-snoc xs y z rest)
        (shift_right-round s pre xs y z rest k j (omega (arith, m))
          ∙ shift_right-rounds s k xs pre y (y ∷ rest) (j - 1) m (omega arith))
]

-- What the cell in front of `ys` holds after a right shift by one.
abbrev pub gap_cell : BlockTable → MemoryBlock → MemoryBlock
gap_cell [] z = z
gap_cell (y ∷ ys) z = y

doubled-gap_cell : (ys : BlockTable) (z : MemoryBlock) → doubled ys z ≡ gap_cell ys z ∷ ys
doubled-gap_cell [] z = refl
doubled-gap_cell (y ∷ ys) z = refl

pub shift_right-split :
    (s : Manager) (ys pre : BlockTable) (z : MemoryBlock) (j : ℕ)
    → length pre + length ys ≡ j
    → shift_right (length ys) j (with_cells s (pre ++ (ys ++ z ∷ [])))
      ≡ ok tt (with_cells s (pre ++ gap_cell ys z ∷ ys))
shift_right-split s ys pre z j f =
    simp (doubled-gap_cell, append-nil) at (shift_right-rounds s (length ys) ys pre z [] j refl f)

-- Writes to the cell behind the one at which the array is split.
module _ (s : Manager) (pre : BlockTable) (a b : MemoryBlock) (post : BlockTable) where
  length-next : length (pre ++ a ∷ []) ≡ suc (length pre)
  length-next = omega (arith, length-append pre (a ∷ []))

  pub read_next-split :
      read (suc (length pre)) (with_cells s (pre ++ a ∷ b ∷ post))
      ≡ ok b (with_cells s (pre ++ a ∷ b ∷ post))
  read_next-split = simp (append_assoc, length-next) at (read-split s (pre ++ a ∷ []) b post)

  pub write_used_next-split :
      (u : Bool)
      → write_used (suc (length pre)) u (with_cells s (pre ++ a ∷ b ∷ post))
        ≡ ok tt (with_cells s (pre ++ a ∷ record b { is_used = u } ∷ post))
  write_used_next-split u =
      simp (append_assoc, length-next) at (write_used-split s (pre ++ a ∷ []) b post u)

  pub write_size_next-split :
      (n : ℕ)
      → write_size (suc (length pre)) n (with_cells s (pre ++ a ∷ b ∷ post))
        ≡ ok tt (with_cells s (pre ++ a ∷ record b { size = n } ∷ post))
  write_size_next-split n =
      simp (append_assoc, length-next) at (write_size-split s (pre ++ a ∷ []) b post n)

  pub write_start_next-split :
      (n : ℕ)
      → write_start (suc (length pre)) n (with_cells s (pre ++ a ∷ b ∷ post))
        ≡ ok tt (with_cells s (pre ++ a ∷ record b { start_adress = n } ∷ post))
  write_start_next-split n =
      simp (append_assoc, length-next) at (write_start-split s (pre ++ a ∷ []) b post n)
