-- ===== src/Manager/Layout/Tiling.antt =====
-- Where the blocks of a tiling lie.
use assignment2_c.Prelude.{◌+◌, ◌≤◌, [], ◌∷◌, ◌++◌, arith, ℕ}
use assignment2_c.Manager.{BlockTable, Adress}
use assignment2_c.Manager.Layout.{IsTiling}

pub IsTiling-le : (bs : BlockTable) {a end : Adress} → IsTiling a bs end → a ≤ end
IsTiling-le [] t = omega arith
IsTiling-le (b ∷ bs) t = omega (arith, IsTiling-le bs t.2)

-- The size of the first block.
abbrev pub head_size : BlockTable → ℕ
head_size [] = 0
head_size (c ∷ cs) = c.size

pub head_size-le : (bs : BlockTable) (a end : Adress) → IsTiling a bs end → a + head_size bs ≤ end
head_size-le [] a end t = omega arith
head_size-le (b ∷ bs) a end t = omega (arith, IsTiling-le bs t.2)

-- The rest of a tiling is a tiling.
pub IsTiling-rest :
    (pre rest : BlockTable) (a end : Adress)
    → IsTiling a (pre ++ rest) end
    → (m : Adress) × (a ≤ m) × IsTiling m rest end
IsTiling-rest [] rest a end t = (a, omega arith, t)
IsTiling-rest (b ∷ pre) rest a end t =
    let (m, le, r) = IsTiling-rest pre rest (a + b.size) end t.2 in (m, omega arith, r)
