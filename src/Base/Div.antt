-- ===== src/Base/Div.antt =====
-- Division: rounding up, and the split of an index into a quotient and a remainder.
use Prim.Native.Nat.{ℕ, ◌+◌, ◌-◌, ◌*◌, ◌/◌, ◌%◌, ◌≤◌, ◌<◌}
use mathlib.Core.Path.{◌≡◌}
use native.Mathlib.Omega.{arith}
use native.Mathlib.Nat.{div-add-mod, mod-lt}

-- A number is at most the next multiple of `d`, as the division by `d` rounds it up.
pub le-ceil-mul : (a d q : ℕ) → 0 < d → (a + d - 1) / d ≤ q → a ≤ q * d
le-ceil-mul a d q h le = grind (arith, div-add-mod (a + d - 1) d, mod-lt (a + d - 1) h)

pub div-eq_mod-eq : (a b d : ℕ) → 0 < d → a / d ≡ b / d → a % d ≡ b % d → a ≡ b
div-eq_mod-eq a b d h p q = grind (arith, div-add-mod a d, div-add-mod b d)

-- An index below `n * d` has a quotient below `n`.
pub div-lt_of_lt-mul : (a n d : ℕ) → 0 < d → a < n * d → a / d < n
div-lt_of_lt-mul a n d h p = grind (arith, div-add-mod a d)

-- The division that rounds up is at most every `q` whose multiple reaches the number.
pub ceil-le : (a d q : ℕ) → 0 < d → a ≤ q * d → (a + d - 1) / d ≤ q
ceil-le a d q h le = grind (arith, div-add-mod (a + d - 1) d, mod-lt (a + d - 1) h)

pub ceil_pos : (a d : ℕ) → 0 < d → 0 < a → 0 < (a + d - 1) / d
ceil_pos a d h p = grind (arith, div-add-mod (a + d - 1) d, mod-lt (a + d - 1) h)
