-- ===== src/Memory/Words.antt =====
-- What is read back, and what a write leaves alone.
use assignment2_c.Prelude.{
  ℕ, zero, suc, ◌+◌, ◌*◌, ◌/◌, ◌%◌, ◌^◌, ◌≡◌, ◌≤◌, ◌<◌, ◌⊎◌, refl, inl, inr, arith, ==_self,
  ==_of_ne,
}
use assignment2_c.Manager.{Adress}
use assignment2_c.Memory.{Bytes, set_byte, load_word, store_word}

-- The number has at most `n` bytes.
abbrev pub Fits : ℕ → ℕ → Type 0
Fits zero v = v ≡ 0
Fits (suc n) v = Fits n (v / 256)

pub load_word-same :
    (n : ℕ) (m m' : Bytes) (a : Adress)
    → ((k : ℕ) → k < n → m (a + k) ≡ m' (a + k))
    → load_word n m a ≡ load_word n m' a
unfolding load_word
load_word-same zero m m' a h = refl
load_word-same (suc n) m m' a h =
    let z : a + 0 ≡ a = omega arith in
    let e : m a ≡ m' a = rw z at (h 0 (omega arith)) in
    let r =
      load_word-same n m m' (suc a)
        (λ k l. let s : a + suc k ≡ suc a + k = omega arith in rw s at (h (suc k) (omega arith))) in
    rw (e, r)

pub store_word-outside :
    (n : ℕ) (m : Bytes) (a : Adress) (v : ℕ) (b : Adress)
    → (b < a) ⊎ (a + n ≤ b)
    → store_word n m a v b ≡ m b
unfolding store_word
store_word-outside zero m a v b h = refl
store_word-outside (suc n) m a v b (inl h) =
    rw (==_of_ne b a (omega arith)) (store_word-outside n m (suc a) (v / 256) b (inl (omega arith)))
store_word-outside (suc n) m a v b (inr h) =
    rw (==_of_ne b a (omega arith)) (store_word-outside n m (suc a) (v / 256) b (inr (omega arith)))

-- A word that lies apart from the one that is written.
pub load-store_apart :
    (n k : ℕ) (m : Bytes) (a b : Adress) (v : ℕ)
    → (b + n ≤ a) ⊎ (a + k ≤ b)
    → load_word n (store_word k m a v) b ≡ load_word n m b
load-store_apart n k m a b v h = load_word-same n (store_word k m a v) m b (λ i l.
    store_word-outside k m a v (b + i)
      (elim h [ inl before ↦ inl (omega arith) | inr behind ↦ inr (omega arith) ]))

pub load-store :
    (n : ℕ) (m : Bytes) (a : Adress) (v : ℕ) → Fits n v → load_word n (store_word n m a v) a ≡ v
unfolding load_word store_word
load-store zero m a v f = omega arith
load-store (suc n) m a v f =
    let low = store_word n m (suc a) (v / 256) in
    let e : load_word n (set_byte low a (v % 256)) (suc a) ≡ load_word n low (suc a) =
      load_word-same n (set_byte low a (v % 256)) low (suc a)
        (λ k l. rw (==_of_ne (suc a + k) a (omega arith))) in
    rw (==_self a, e, load-store n m (suc a) (v / 256) f) (omega arith)

pub load-Fits : (n : ℕ) (m : Bytes) (a : Adress) → Fits n (load_word n m a)
unfolding load_word
load-Fits zero m a = refl
load-Fits (suc n) m a =
    let e : (m a % 256 + 256 * load_word n m (suc a)) / 256 ≡ load_word n m (suc a) = omega arith in
    rw e (load-Fits n m (suc a))

pub Fits-pointer : (v : ℕ) → v < 2 ^ 64 → Fits 8 v
Fits-pointer v h = omega arith

pub Fits-uint16 : (v : ℕ) → v < 2 ^ 16 → Fits 2 v
Fits-uint16 v h = omega arith
