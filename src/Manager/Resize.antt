-- ===== src/Manager/Resize.antt =====
-- `mem_resize` of memory_manager.c.
pub mod Branches
pub mod Failure
pub mod Grown
pub mod Move
pub mod Outcome
pub mod Replace
pub mod Right
pub mod Room
pub mod Search
use assignment2_c.Prelude.{
  ℕ, zero, suc, ◌+◌, ◌-◌, Bool, false, ◌&&◌, ◌||◌, Option, none, some, ltb, leb, ◌==◌,
  if◌then◌else◌,
}
use assignment2_c.Manager.{
  Adress, null, ok, fault, Cmd, pure, ◌>>=◌, ◌>>◌, read, write_size, write_start, block_count, lock,
  unlock, wrap, wrap_sub,
}
use assignment2_c.Manager.Alloc.{Realloc, mem_alloc}
use assignment2_c.Manager.Free.{previous_free, next_free, remove_block, mem_free}

-- `memmove(to, from, n)`, which copies as if through a buffer. It must not be given `NULL`.
abbrev pub moved : (Adress → ℕ) → Adress → Adress → ℕ → Adress → ℕ
moved bytes to from n a = if leb to a && ltb a (to + n) then bytes (from + (a - to)) else bytes a

unfoldable pub memmove : Adress → Adress → ℕ → Cmd (Unit {0})
memmove to from n s =
    if to == null || from == null
    then fault
    else ok tt (record s { bytes = moved s.bytes to from n })

-- The search, which goes on after a hit: from index `i`, with the rounds that are left and the
-- index that is kept.
unfoldable pub find_last : ℕ → ℕ → Adress → Option ℕ → Cmd (Option ℕ)
find_last zero i p kept = pure kept
find_last (suc k) i p kept = do
  b ← read i
  find_last k (suc i) p (if b.start_adress == p then some i else kept)

-- The test for a free block behind block `i` that makes up for what is missing.
unfoldable pub next_suffices : ℕ → ℕ → Cmd Bool
next_suffices i size = do
  free ← next_free i
  if free
      then (do c ← read (suc i); b ← read i; pure (leb size (wrap (c.size + b.size))))
      else pure false

-- The block grows to its right, over a part of the next block or all of it.
unfoldable pub grow_right : ℕ → Adress → ℕ → Cmd Adress
grow_right i p size = do
  c ← read (suc i)
  b ← read i
  write_size (suc i) (wrap_sub (wrap (c.size + b.size)) size)
  write_size i size
  b ← read i
  write_start (suc i) (wrap (b.size + b.start_adress))
  c ← read (suc i)
  if c.size == 0 then remove_block (suc i) else pure tt
  unlock
  pure p

-- The size of the block, and of its free neighbours if the previous block is free.
unfoldable pub available_size : ℕ → Cmd ℕ
available_size i = do
  b ← read i
  left ← previous_free i
  if left
      then (do
        a ← read (i - 1)
        right ← next_free i
        if right
            then (do c ← read (suc i); pure (wrap (wrap (b.size + a.size) + c.size)))
            else pure (wrap (b.size + a.size)))
      else pure b.size

-- The block is freed first, and its bytes, `n` of them, are moved to the one that replaces it.
unfoldable pub replace_block : Realloc → Adress → ℕ → ℕ → Cmd Adress
replace_block realloc p size n = do
  mem_free p
  q ← mem_alloc realloc size
  if q == p then (unlock >> pure p) else (do memmove q p n; unlock; pure q)

-- Another block is allocated before this one is freed.
unfoldable pub move_block : Realloc → Adress → ℕ → ℕ → Cmd Adress
move_block realloc p size n = do
  q ← mem_alloc realloc size
  if q == null then (unlock >> pure null) else (do memmove q p n; mem_free p; unlock; pure q)

unfoldable pub grow : Realloc → ℕ → Adress → ℕ → Cmd Adress
grow realloc i p size = do
  right ← next_suffices i size
  if right then grow_right i p size else (do
    available ← available_size i
    b ← read i
    if leb size available
        then replace_block realloc p size b.size
        else move_block realloc p size b.size)

-- What follows the search.
unfoldable pub resize_at : Realloc → Option ℕ → Adress → ℕ → Cmd Adress
resize_at realloc none p size = do unlock; pure null
resize_at realloc (some i) p size = do
  b ← read i
  if b.size == size
      then (unlock >> pure p)
      else (if ltb b.size size
          then grow realloc i p size
          else (if ltb size b.size
              then replace_block realloc p size size
              else (unlock >> pure null)))

unfoldable pub mem_resize : Realloc → Adress → ℕ → Cmd Adress
mem_resize realloc p size = do
  lock
  if p == null
      then (unlock >> pure null)
      else (do n ← block_count; found ← find_last n 0 p none; resize_at realloc found p size)
