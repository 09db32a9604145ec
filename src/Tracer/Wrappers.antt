-- ===== src/Tracer/Wrappers.antt =====
-- The wrappers of cM2.c round `malloc`, `free`, `realloc`, `calloc`, `memalign`, `mmap` and `munmap`, and
-- `init`, which looks the real functions up. What they write to the terminal is left out.
pub mod Depth
mod Examples
pub mod Startup
pub mod Program
use assignment2_c.Prelude.{
  ℕ, zero, suc, ◌+◌, ◌*◌, Bool, true, false, ◌&&◌, not, Option, none, some, List, [], ◌∷◌, ltb, leb,
  ◌==◌, if◌then◌else◌, ℤ,
}
use assignment2_c.Manager.{Adress, null, wrap}
use assignment2_c.Memory.{Bytes}
use assignment2_c.Manager.Resize.{moved}
use assignment2_c.Tracer.{TempBuffer, temp_alloc, is_temp}

-- A call of an allocation function: one that the code of libc makes while it looks a name up, or one
-- that is handed on to the real function.
pub data Request : Type 0 where
  malloc_of : ℕ → Request
  free_of : Adress → Request
  realloc_of : Adress → ℕ → Request
  calloc_of : ℕ → ℕ → Request
  memalign_of : ℕ → ℕ → Request
  mmap_of : Adress → ℕ → ℤ → ℤ → ℤ → ℤ → Request
  munmap_of : Adress → ℕ → Request

-- `found` counts how many of the pointers `myfn_malloc`, `myfn_free`, `myfn_calloc`, `myfn_realloc`,
-- `myfn_memalign`, `myfn_mmap` and `myfn_munmap` are set, in the order in which `init` sets them.
-- `malloc` and `mmap` have an `initializing` each. `calls` are the calls of the real functions, the
-- last first.
pub record TracerState : Type 0 where
  pub found : ℕ
  pub malloc_initializing : Bool
  pub mmap_initializing : Bool
  pub temp : TempBuffer
  pub calls : List Request
  pub bytes : Bytes

-- `exits` is `exit(1)`, `crash` a call through a pointer that is `NULL`, and `too_deep` an `init` inside
-- more of them than the model counts.
pub data Run (A : Type 0) : Type 0 where
  ok : A → TracerState → Run A
  exits : Run A
  crash : Run A
  too_deep : Run A

abbrev pub Cmd : Type 0 → Type 0
Cmd A = TracerState → Run A

abbrev pub pure : {A : Type 0} → A → Cmd A
pure = ok

module _ {A B : Type 0} where
  abbrev pub and_then : Run A → (A → Cmd B) → Run B
  and_then (ok a s) k = k a s
  and_then exits k = exits
  and_then crash k = crash
  and_then too_deep k = too_deep

  infixl 5 ◌>>=◌ ◌>>◌
  abbrev pub ◌>>=◌ : Cmd A → (A → Cmd B) → Cmd B
  m >>= k = λ s. and_then (m s) k

  abbrev pub ◌>>◌ : Cmd A → Cmd B → Cmd B
  m >> k = m >>= λ _. k

abbrev pub found_count : Cmd ℕ
found_count s = ok s.found s

abbrev pub malloc_busy : Cmd Bool
malloc_busy s = ok s.malloc_initializing s

abbrev pub mmap_busy : Cmd Bool
mmap_busy s = ok s.mmap_initializing s

-- Pointer number `i` is set. An `init` that runs inside another one has perhaps set it before.
abbrev pub set_pointer : ℕ → Cmd (Unit {0})
set_pointer i s = ok tt (record s { found = if ltb i s.found then s.found else i + 1 })

abbrev pub set_malloc_busy : Bool → Cmd (Unit {0})
set_malloc_busy b s = ok tt (record s { malloc_initializing = b })

abbrev pub set_mmap_busy : Bool → Cmd (Unit {0})
set_mmap_busy b s = ok tt (record s { mmap_initializing = b })

-- `memset(p, 0, n)`.
abbrev pub clear : Adress → ℕ → Cmd (Unit {0})
clear p n s = ok tt (record s { bytes = λ a. if leb p a && ltb a (p + n) then 0 else s.bytes a })

abbrev pub move : Adress → Adress → ℕ → Cmd (Unit {0})
move to from n s = ok tt (record s { bytes = moved s.bytes to from n })

-- `libc` answers a call with a word, from the calls so far; `tmpbuff` is the address of the buffer.
module _ (libc : List Request → ℕ) (tmpbuff : Adress) where
  -- A call through the pointer number `i`.
  unfoldable pub hand_on : ℕ → Request → Cmd ℕ
  hand_on i r s =
      if ltb i s.found then ok (libc (r ∷ s.calls)) (record s { calls = r ∷ s.calls }) else crash

  abbrev pub from_temp : TracerState → Option (Adress × TempBuffer) → Run Adress
  from_temp s none = exits
  from_temp s (some (p, t)) = ok p (record s { temp = t })

  abbrev pub temp_memory : ℕ → Cmd Adress
  temp_memory size s = from_temp s (temp_alloc tmpbuff size s.temp)

  unfoldable pub free : Adress → Cmd (Unit {0})
  free p s = if is_temp tmpbuff s.temp p then ok tt s else (hand_on 1 (free_of p) >> pure tt) s

  abbrev pub memalign : ℕ → ℕ → Cmd Adress
  memalign blocksize size = hand_on 4 (memalign_of blocksize size)

  abbrev pub munmap : Adress → ℕ → Cmd ℕ
  munmap ptr length = hand_on 6 (munmap_of ptr length)

  -- The functions that call `init`, with it as an argument.
  module _ (init : Cmd (Unit {0})) where
    unfoldable pub malloc : ℕ → Cmd Adress
    malloc size = do
      n ← found_count
      if n == 0
          then (do
            busy ← malloc_busy
            if busy then temp_memory size else (do
              set_malloc_busy true
              init
              set_malloc_busy false
              hand_on 0 (malloc_of size)))
          else hand_on 0 (malloc_of size)

    unfoldable pub mmap : Adress → ℕ → ℤ → ℤ → ℤ → ℤ → Cmd Adress
    mmap ptr length prot flags fd offset = do
      n ← found_count
      if leb n 5
          then (do
            busy ← mmap_busy
            if busy then temp_memory length else (do
              set_mmap_busy true
              init
              set_mmap_busy false
              hand_on 5 (mmap_of ptr length prot flags fd offset)))
          else hand_on 5 (mmap_of ptr length prot flags fd offset)

    unfoldable pub realloc : Adress → ℕ → Cmd Adress
    realloc ptr size = do
      n ← found_count
      if n == 0
          then (do
            nptr ← malloc size
            if not (nptr == null) && not (ptr == null)
                then (do move nptr ptr size; free ptr)
                else pure tt
            pure nptr)
          else hand_on 3 (realloc_of ptr size)

    unfoldable pub calloc : ℕ → ℕ → Cmd Adress
    calloc nmemb size = do
      n ← found_count
      if n == 0
          then (do
            ptr ← malloc (wrap (nmemb * size))
            if ptr == null then pure tt else clear ptr (wrap (nmemb * size))
            pure ptr)
          else hand_on 2 (calloc_of nmemb size)

    unfoldable pub perform : Request → Cmd (Unit {0})
    perform (malloc_of size) = malloc size >> pure tt
    perform (free_of p) = free p
    perform (realloc_of p size) = realloc p size >> pure tt
    perform (calloc_of nmemb size) = calloc nmemb size >> pure tt
    perform (memalign_of blocksize size) = memalign blocksize size >> pure tt
    perform (mmap_of ptr length prot flags fd offset) =
        mmap ptr length prot flags fd offset >> pure tt
    perform (munmap_of ptr length) = munmap ptr length >> pure tt

    unfoldable pub perform_all : List Request → Cmd (Unit {0})
    perform_all [] = pure tt
    perform_all (r ∷ rs) = perform r >> perform_all rs

    -- `myfn_... = dlsym(RTLD_NEXT, "...")` for `k` pointers from number `i` on. `dlsym` gives the calls
    -- that each look-up makes; every look-up finds its name.
    unfoldable pub look_up : (ℕ → List Request) → ℕ → ℕ → Cmd (Unit {0})
    look_up dlsym zero i = pure tt
    look_up dlsym (suc k) i = do perform_all (dlsym i); set_pointer i; look_up dlsym k (i + 1)

  -- An `init` in which others may run, one inside the other, fewer than `depth` of them.
  unfoldable pub init : (ℕ → List Request) → ℕ → Cmd (Unit {0})
  init dlsym zero = λ s. too_deep
  init dlsym (suc depth) = look_up (init dlsym depth) dlsym 7 0
