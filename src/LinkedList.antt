-- ===== src/LinkedList.antt =====
-- The state of linked_list.c and the commands that its functions are made of: the lock, the calls of
-- the memory manager, and the reads and writes of a node.
pub mod Chain
pub mod Client
mod Examples
pub mod Insert
pub mod Links
pub mod Relink
pub mod Read
pub mod Remove
pub mod RoundTrip
pub mod Steps
use assignment2_c.Prelude.{
  ℕ, zero, suc, ◌+◌, ◌-◌, ◌%◌, ◌^◌, Bool, true, false, ◌&&◌, ◌||◌, Option, none, some, List, [],
  ◌∷◌, ◌++◌, ltb, leb, ◌==◌, if◌then◌else◌, ℤ, pos, negsuc,
}
use assignment2_c.Manager.{Adress, null}
use assignment2_c.Memory.{load_word, store_word}
use assignment2_c.Allocator.{Allocator}

-- `readWriteLock`: the calling thread holds it for reading, once more than the number says, or for
-- writing. A lock that is not initialised yet counts as destroyed.
pub data RwLock : Type 0 where
  released : RwLock
  reading : ℕ → RwLock
  writing : RwLock
  destroyed : RwLock

abbrev pub one_less : ℕ → RwLock
one_less zero = released
one_less (suc n) = reading n

-- What is printed.
pub data Token : Type 0 where
  open_bracket : Token
  number : ℕ → Token
  comma : Token
  close_bracket : Token
  new_line : Token

-- `pool` is the state of the memory manager, and `head` is what the parameter `head` points to.
pub record ListState (S : Type 0) : Type 0 where
  pub pool : S
  pub head : Adress
  pub lock : RwLock
  pub printed : List Token

-- A `fault` is what C and POSIX leave undefined, and every access through a pointer that is not the
-- address of a block that is handed out and holds a node. A `deadlock` is a wait of the only thread.
pub data Run (S A : Type 0) : Type 0 where
  ok : A → ListState S → Run S A
  fault : Run S A
  deadlock : Run S A
  out_of_fuel : Run S A

abbrev pub Cmd : Type 0 → Type 0 → Type 0
Cmd S A = ListState S → Run S A

module _ {S : Type 0} where
  abbrev pub pure : {A : Type 0} → A → Cmd S A
  pure = ok

  abbrev pub and_then : {A B : Type 0} → Run S A → (A → Cmd S B) → Run S B
  and_then (ok a s) k = k a s
  and_then fault k = fault
  and_then deadlock k = deadlock
  and_then out_of_fuel k = out_of_fuel

  infixl 5 ◌>>=◌ ◌>>◌
  abbrev pub ◌>>=◌ : {A B : Type 0} → Cmd S A → (A → Cmd S B) → Cmd S B
  m >>= k = λ s. and_then (m s) k

  abbrev pub ◌>>◌ : {A B : Type 0} → Cmd S A → Cmd S B → Cmd S B
  m >> k = m >>= λ _. k

  -- `*head`.
  abbrev pub get_head : Cmd S Adress
  get_head s = ok s.head s

  abbrev pub set_head : Adress → Cmd S (Unit {0})
  set_head p s = ok tt (record s { head = p })

  abbrev pub print : Token → Cmd S (Unit {0})
  print t s = ok tt (record s { printed = s.printed ++ t ∷ [] })

  abbrev pub with_lock : ListState S → RwLock → Run S (Unit {0})
  with_lock s l = ok tt (record s { lock = l })

  abbrev pub rdlock : Cmd S (Unit {0})
  rdlock s = elim (s.lock) [
    | released ↦ with_lock s (reading 0)
    | reading n ↦ with_lock s (reading (suc n))
    | writing ↦ deadlock
    | destroyed ↦ fault
  ]

  abbrev pub wrlock : Cmd S (Unit {0})
  wrlock s = elim (s.lock) [
    | released ↦ with_lock s writing
    | reading n ↦ deadlock
    | writing ↦ deadlock
    | destroyed ↦ fault
  ]

  abbrev pub unlock : Cmd S (Unit {0})
  unlock s = elim (s.lock) [
    | released ↦ fault
    | reading n ↦ with_lock s (one_less n)
    | writing ↦ with_lock s released
    | destroyed ↦ fault
  ]

  abbrev pub init_lock : Cmd S (Unit {0})
  init_lock s = elim (s.lock) [
    | released ↦ fault
    | reading n ↦ fault
    | writing ↦ fault
    | destroyed ↦ with_lock s released
  ]

  abbrev pub destroy_lock : Cmd S (Unit {0})
  destroy_lock s = elim (s.lock) [
    | released ↦ with_lock s destroyed
    | reading n ↦ fault
    | writing ↦ fault
    | destroyed ↦ fault
  ]

-- `sizeof(Node)`, and the place of `next` in it.
abbrev pub sizeof_node : ℕ
sizeof_node = 16

abbrev pub next_offset : ℕ
next_offset = 8

-- An `int` as a `uint16_t`, and the comparison of a `uint16_t` with an `int`.
abbrev pub to_uint16 : ℤ → ℕ
to_uint16 (pos n) = n % 2 ^ 16
to_uint16 (negsuc n) = 2 ^ 16 - 1 - n % 2 ^ 16

abbrev pub is_data : ℕ → ℤ → Bool
is_data d (pos n) = d == n
is_data d (negsuc n) = false

-- A block at `p` that can hold a node.
abbrev pub has_node : Adress → List (Adress × ℕ) → Bool
has_node p [] = false
has_node p ((q, n) ∷ us) = (q == p && leb sizeof_node n) || has_node p us

module _ (allocator : Allocator) where
  open allocator use {State, bytes, set_bytes, owned}

  abbrev pub with_pool : ListState State → State → ListState State
  with_pool s t = record s { pool = t }

  unfoldable pub get_data : Adress → Cmd State ℕ
  get_data p s = if has_node p (owned s.pool) then ok (load_word 2 (bytes s.pool) p) s else fault

  unfoldable pub get_next : Adress → Cmd State Adress
  get_next p s =
      if has_node p (owned s.pool)
      then ok (load_word 8 (bytes s.pool) (p + next_offset)) s
      else fault

  unfoldable pub set_data : Adress → ℕ → Cmd State (Unit {0})
  set_data p v s =
      if has_node p (owned s.pool)
      then ok tt (with_pool s (set_bytes (store_word 2 (bytes s.pool) p v) s.pool))
      else fault

  unfoldable pub set_next : Adress → Adress → Cmd State (Unit {0})
  set_next p q s =
      if has_node p (owned s.pool)
      then ok tt (with_pool s (set_bytes (store_word 8 (bytes s.pool) (p + next_offset) q) s.pool))
      else fault

  abbrev pub from_option : ListState State → Option State → Run State (Unit {0})
  from_option s none = fault
  from_option s (some t) = ok tt (with_pool s t)

  abbrev pub from_answer : ListState State → Option (Adress × State) → Run State Adress
  from_answer s none = fault
  from_answer s (some (p, t)) = ok p (with_pool s t)

  abbrev pub call_init : ℕ → Cmd State (Unit {0})
  call_init n s = from_option s (allocator.mem_init n s.pool)

  abbrev pub call_alloc : ℕ → Cmd State Adress
  call_alloc n s = from_answer s (allocator.mem_alloc n s.pool)

  abbrev pub call_free : Adress → Cmd State (Unit {0})
  call_free p s = from_option s (allocator.mem_free p s.pool)

  abbrev pub call_deinit : Cmd State (Unit {0})
  call_deinit s = from_option s (allocator.mem_deinit s.pool)
