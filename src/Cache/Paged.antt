-- ===== src/Cache/Paged.antt =====
-- The paged key/value cache: include/minillm/runtime/cache/paged_kv_cache.h and
-- src/runtime/cache/paged_kv_cache.cpp, in a build with no CUDA. An element type `F` with its zero
-- stands for `float`. The `int` members are set from positive arguments only and are kept as ℕ; an
-- `int` sum or product that leaves the range wraps as two's complement. `std::vector::assign` is
-- taken to have the memory. The head of `free_blocks` is the vector's back.
pub mod Blocks
pub mod Tokens
pub mod Counts
pub mod Invariant
pub mod Taking
pub mod Reserve
pub mod Outcome
pub mod Freeing
pub mod Addresses
pub mod Isolation
pub mod Writing
pub mod Cells
pub mod Extends
pub mod Room
pub mod Contents
pub mod ReadBack
pub mod Overwrite
pub mod Ending
pub mod Refinement
pub mod Store
pub mod Keeping
pub mod Run
pub mod History
use llmengine.Base.{
  Bool, List, [], false, get_or, if◌then◌else◌, is_neg, leb, length, ltb, map, negsuc, nonpositive,
  pos, pos_part, replicate, suc, zero, ℕ, ℤ, ◌%◌, ◌&&◌, ◌*◌, ◌+◌, ◌-◌, ◌/◌, ◌^◌, ◌||◌, ◌∷◌,
}
use llmengine.Core.Status.{invalid_argument, err, Status, make_ok}

-- `PagedKVCacheLayer`
pub record Layer (F : Type 0) : Type 0 where
  pub k : List F
  pub v : List F

-- `PagedKVSequence`
pub record Sequence : Type 0 where
  pub length : ℕ
  pub blocks : List ℕ

pub record PagedKvCache (F : Type 0) : Type 0 where
  pub layers : List (Layer F)
  pub free_blocks : List ℕ
  pub block_used : List Bool
  pub sequences : List Sequence
  pub num_kv_heads : ℕ
  pub head_dim : ℕ
  pub block_size : ℕ
  pub max_blocks : ℕ

-- A sum beyond `int` is negative and so is its quotient, of which the one caller asks only whether it
-- is at most a count of blocks: 0 stands for it.
unfoldable pub ceil_div_int : ℕ → ℕ → ℕ
ceil_div_int a b = if ltb (a + b - 1) (2 ^ 31) then (a + b - 1) / b else 0

-- The `int` sum of two arguments that are not negative.
unfoldable pub int_sum : ℕ → ℕ → ℤ
int_sum a b = if ltb (a + b) (2 ^ 31) then pos (a + b) else negsuc (2 ^ 32 - 1 - (a + b))

-- An `int` product, converted to `size_t`: a negative one is sign-extended.
unfoldable pub as_size : ℕ → ℕ
as_size n = if ltb (n % 2 ^ 32) (2 ^ 31) then n % 2 ^ 32 else n % 2 ^ 32 + (2 ^ 64 - 2 ^ 32)

-- What `sequences_.resize` fills in.
abbrev pub no_sequence : Sequence
no_sequence = record { length = 0; blocks = [] }

-- The loop `for (int b = max_blocks_ - 1; b >= 0; --b) free_blocks_.push_back(b)`.
unfoldable pub push_free_blocks : ℕ → List ℕ → List ℕ
push_free_blocks zero free = free
push_free_blocks (suc b) free = push_free_blocks b (b ∷ free)

module _ {F : Type 0} where
  abbrev pub seq_at : PagedKvCache F → ℕ → Sequence
  seq_at c i = get_or c.sequences i no_sequence

  abbrev pub initialized : PagedKvCache F → Bool
  initialized c = ltb 0 c.block_size && ltb 0 c.max_blocks

  abbrev pub num_layers : PagedKvCache F → ℕ
  num_layers c = length c.layers

  abbrev pub kv_hidden : PagedKvCache F → ℕ
  kv_hidden c = as_size (c.num_kv_heads * c.head_dim)

  abbrev pub free_block_count : PagedKvCache F → ℕ
  free_block_count c = length c.free_blocks

  -- `sequence_id < 0 || sequence_id >= sequences_.size()`
  abbrev pub no_such_sequence : PagedKvCache F → ℤ → Bool
  no_such_sequence c id = is_neg id || leb (length c.sequences) (pos_part id)

  -- `PagedKVCache()`
  abbrev pub default : PagedKvCache F
  default = record {
    layers = [];
    free_blocks = [];
    block_used = [];
    sequences = [];
    num_kv_heads = 0;
    head_dim = 0;
    block_size = 0;
    max_blocks = 0;
  }

  unfoldable pub release : PagedKvCache F → Status × PagedKvCache F
  release c = (
    make_ok,
    record c {
      layers = [];
      num_kv_heads = 0;
      head_dim = 0;
      block_size = 0;
      max_blocks = 0;
      free_blocks = [];
      block_used = [];
      sequences = [];
    },
  )

  unfoldable pub init : F → ℤ → ℤ → ℤ → ℤ → ℤ → PagedKvCache F → Status × PagedKvCache F
  unfolding release push_free_blocks as_size
  init zero_f layers heads dim size blocks c =
      let c' = (release c).1 in
      if nonpositive layers
        || nonpositive heads
        || nonpositive dim
        || nonpositive size
        || nonpositive blocks
      then (err invalid_argument, c')
      else (
        make_ok,
        record c' {
          num_kv_heads = pos_part heads;
          head_dim = pos_part dim;
          block_size = pos_part size;
          max_blocks = pos_part blocks;
          layers = replicate (pos_part layers) (zeroed (pos_part blocks * block_floats % 2 ^ 64));
          block_used = replicate (pos_part blocks) false;
          free_blocks = push_free_blocks (pos_part blocks) [];
          sequences = [];
        },
      )
    where
      block_floats : ℕ
      block_floats = pos_part size * as_size (pos_part heads * pos_part dim)

      zeroed : ℕ → Layer F
      zeroed n = record { k = replicate n zero_f; v = replicate n zero_f }

  -- `std::fill` of a layer's two vectors.
  unfoldable pub zero_layer : F → Layer F → Layer F
  zero_layer z l = record { k = map (λ _. z) l.k; v = map (λ _. z) l.v }

  unfoldable pub reset : F → PagedKvCache F → PagedKvCache F
  unfolding zero_layer push_free_blocks
  reset z c = record c {
    layers = map (zero_layer z) c.layers;
    block_used = replicate c.max_blocks false;
    free_blocks = push_free_blocks c.max_blocks [];
    sequences = [];
  }
