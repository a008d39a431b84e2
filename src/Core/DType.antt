-- ===== src/Core/DType.antt =====
-- Element types and devices: include/minillm/core/dtype.h, include/minillm/core/device.h and
-- src/core/device.cpp, without the names for printing.
use llmengine.Base.{Bool, arith, false, true, ℕ, ℤ, ◌<◌, ◌≡◌, ◌≤◌}
use llmengine.Core.Status.{unsupported, Result, ok, err}

pub data DType : Type 0 where
  float32 float16 bfloat16 q8_0 int32 int64 uint8 int8 bool unknown : DType

unfoldable pub dtype_size : DType → Result ℕ
dtype_size DType.float32 = ok 4
dtype_size DType.float16 = ok 2
dtype_size DType.bfloat16 = ok 2
dtype_size DType.q8_0 = err unsupported
dtype_size DType.int32 = ok 4
dtype_size DType.int64 = ok 8
dtype_size DType.uint8 = ok 1
dtype_size DType.int8 = ok 1
dtype_size DType.bool = ok 1
dtype_size DType.unknown = err unsupported

unfoldable pub is_floating_point : DType → Bool
is_floating_point DType.float32 = true
is_floating_point DType.float16 = true
is_floating_point DType.bfloat16 = true
is_floating_point DType.q8_0 = false
is_floating_point _ = false

unfoldable pub is_integer : DType → Bool
is_integer DType.int32 = true
is_integer DType.int64 = true
is_integer DType.uint8 = true
is_integer DType.int8 = true
is_integer _ = false

-- The value of the enumerator, by which the source compares and hashes.
abbrev pub dtype_index : DType → ℕ
dtype_index DType.float32 = 0
dtype_index DType.float16 = 1
dtype_index DType.bfloat16 = 2
dtype_index DType.q8_0 = 3
dtype_index DType.int32 = 4
dtype_index DType.int64 = 5
dtype_index DType.uint8 = 6
dtype_index DType.int8 = 7
dtype_index DType.bool = 8
dtype_index DType.unknown = 9

pub dtype_index_injective : (a b : DType) → dtype_index a ≡ dtype_index b → a ≡ b
dtype_index_injective a b h = ground arith

-- A type with a size has a positive one.
pub dtype_size_pos : (d : DType) (n : ℕ) → dtype_size d ≡ ok n → (0 < n) × (n ≤ 8)
unfolding dtype_size
dtype_size_pos d n h = ground arith

pub data DeviceType : Type 0 where
  cpu cuda other : DeviceType

pub record Device : Type 0 where
  pub type : DeviceType
  pub index : ℤ

abbrev pub device_index : DeviceType → ℕ
device_index DeviceType.cpu = 0
device_index DeviceType.cuda = 1
device_index DeviceType.other = 2

pub device_index_injective : (a b : DeviceType) → device_index a ≡ device_index b → a ≡ b
device_index_injective a b h = ground arith
