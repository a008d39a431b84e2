-- ===== src/Memory.antt =====
-- The memory planner: include/minillm/runtime/memory_planner.h and src/runtime/memory_planner.cpp,
-- without the report. `kNoBuffer` is `none`, and the reason why a value is skipped is left out.
pub mod Live
pub mod Pool
pub mod Fit
pub mod Entries
pub mod Lists
pub mod Taking
pub mod Reuse
pub mod Rounds
pub mod Sharing
pub mod Given
pub mod Layout
pub mod Offsets
pub mod Arenas
pub mod Ranges
pub mod Planner
pub mod Sorting
pub mod Planned
pub mod Uses
pub mod Covers
pub mod Placing
pub mod Safety
use Prim.Native.String.{String}
use native.Mathlib.Nat.{mod-lt, mod-eq_of_lt, div-add-mod', mul-mod_left}
use llmengine.Base.{
  ==→eq, Bool, Bool-cases, List, Option, arith, false, if◌then◌else◌, inl, inr, ℕ, ◌%◌, ◌*◌, ◌+◌,
  ◌-◌, ◌/◌, ◌<◌, ◌==◌, ◌^◌, ◌≡◌, ◌≤◌,
}
use llmengine.Core.DType.{DType, Device}
use llmengine.Graph.Data.{ValueKind}

-- Arithmetic of `size_t` wraps around.
abbrev pub size_mod : ℕ
size_mod = 2 ^ 64

unfoldable pub align_up : ℕ → ℕ → ℕ
align_up value alignment =
    let rem = value % alignment in
    if alignment == 0
    then value
    else if rem == 0
    then value
    else (value + (alignment - rem)) % size_mod

pub record Options : Type 0 where
  pub alignment : ℕ
  pub include_outputs : Bool

-- `MemoryLiveRange`
pub record LiveRange : Type 0 where
  pub value : ℕ
  pub name : String
  pub bytes : ℕ
  pub aligned_bytes : ℕ
  pub dtype : DType
  pub device : Device
  pub kind : ValueKind
  pub first_node : ℕ
  pub last_node : ℕ
  pub eligible : Bool
  pub buffer_id : Option ℕ

-- `MemoryBuffer`
pub record Buffer : Type 0 where
  pub id : ℕ
  pub bytes : ℕ
  pub dtype : DType
  pub device : Device
  pub last_use : ℕ
  pub arena_index : Option ℕ
  pub offset : ℕ
  pub values : List ℕ

-- `MemoryPlan`
pub record Plan : Type 0 where
  pub ranges : List LiveRange
  pub buffers : List Buffer
  pub alignment : ℕ
  pub eligible_value_count : ℕ
  pub skipped_value_count : ℕ
  pub naive_bytes : ℕ
  pub planned_bytes : ℕ

pub pos-ne_zero : (n : ℕ) → 0 < n → (n == 0) ≡ false
pos-ne_zero n h = ground arith

-- Rounding up gives the least multiple of the alignment that is not below the value, where the
-- result fits a `size_t`.
pub align_up_lem :
    (value alignment : ℕ)
    → 0 < alignment
    → value + alignment ≤ size_mod
    → (align_up value alignment % alignment ≡ 0)
      × (value ≤ align_up value alignment)
      × (align_up value alignment < value + alignment)
unfolding align_up
align_up_lem value alignment h fits =
    let lt = mod-lt value h in
    let next : value + (alignment - value % alignment) ≡ (value / alignment + 1) * alignment =
      omega (arith, div-add-mod' value alignment) in
    elim (Bool-cases (value % alignment == 0)) [
      | inl e ↦ rw (pos-ne_zero alignment h, e) (==→eq _ _ e, omega arith, omega arith)
      | inr e ↦
          let small : value + (alignment - value % alignment) < size_mod = ground arith in
          rw (pos-ne_zero alignment h, e, mod-eq_of_lt small)
            (rw next (mul-mod_left _ alignment), omega arith, ground arith)
    ]
