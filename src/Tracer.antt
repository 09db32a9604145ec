-- ===== src/Tracer.antt =====
-- The temporary buffer of cM2.c, which serves `malloc` and `mmap` while the real functions are looked
-- up, and the test by which `free` knows what lies in it.
mod Examples
pub mod Temp
pub mod Wrappers
use assignment2_c.Prelude.{
  ℕ, suc, ◌+◌, Bool, ◌&&◌, Option, none, some, List, [], ◌∷◌, ltb, leb, if◌then◌else◌,
}
use assignment2_c.Manager.{Adress, wrap}

-- `tmppos` and `tmpallocs`.
pub record TempBuffer : Type 0 where
  pub tmppos : ℕ
  pub tmpallocs : ℕ

-- `sizeof(tmpbuff)`.
abbrev pub tmpbuff_size : ℕ
tmpbuff_size = 1024

-- The answer during the initialisation, with the buffer at address `tmpbuff`. `none` is `exit(1)`.
unfoldable pub temp_alloc : Adress → ℕ → TempBuffer → Option (Adress × TempBuffer)
temp_alloc tmpbuff size t =
    if ltb (wrap (t.tmppos + size)) tmpbuff_size
    then some (
      tmpbuff + t.tmppos,
      record { tmppos = wrap (t.tmppos + size); tmpallocs = wrap (t.tmpallocs + 1) },
    )
    else none

-- The test of `free`.
unfoldable pub is_temp : Adress → TempBuffer → Adress → Bool
is_temp tmpbuff t ptr = leb tmpbuff ptr && leb ptr (tmpbuff + t.tmppos)

-- One request after the other: address and size of what is answered.
unfoldable pub serve : Adress → List ℕ → TempBuffer → Option (List (Adress × ℕ) × TempBuffer)
serve tmpbuff [] t = some ([], t)
serve tmpbuff (size ∷ sizes) t = elim (temp_alloc tmpbuff size t) [
  | none ↦ none
  | some (ptr, u) ↦ elim (serve tmpbuff sizes u) [
    | none ↦ none
    | some (rs, w) ↦ some ((ptr, size) ∷ rs, w)
  ]
]
