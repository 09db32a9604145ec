-- ===== src/Memory.antt =====
-- Numbers in memory, as the code of linked_list.c reads and writes them through pointers: a number
-- of `n` bytes at an address, with its lowest byte first.
pub mod Words
use assignment2_c.Prelude.{ℕ, zero, suc, ◌+◌, ◌*◌, ◌/◌, ◌%◌, ◌==◌, if◌then◌else◌}
use assignment2_c.Manager.{Adress}

abbrev pub Bytes : Type 0
Bytes = Adress → ℕ

abbrev pub set_byte : Bytes → Adress → ℕ → Bytes
set_byte m a v b = if b == a then v else m b

unfoldable pub load_word : ℕ → Bytes → Adress → ℕ
load_word zero m a = 0
load_word (suc n) m a = m a % 256 + 256 * load_word n m (suc a)

unfoldable pub store_word : ℕ → Bytes → Adress → ℕ → Bytes
store_word zero m a v = m
store_word (suc n) m a v = set_byte (store_word n m (suc a) (v / 256)) a (v % 256)
