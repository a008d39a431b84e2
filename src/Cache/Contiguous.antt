-- ===== src/Cache/Contiguous.antt =====
-- The contiguous key/value cache: include/minillm/runtime/cache/kv_cache.h and
-- src/runtime/cache/kv_cache.cpp, in a build with no CUDA. An element type `F` with its zero stands
-- for `float`; the `int` members, which no operation makes negative, are numbers.
pub mod Length
use llmengine.Base.{
  Bool, List, [], if◌then◌else◌, is_neg, leb, length, ltb, map, nonpositive, not, pos, pos_part,
  replicate, ℕ, ℤ, ◌&&◌, ◌*◌, ◌+ℤ◌, ◌-◌, ◌||◌,
}
use llmengine.Core.Status.{invalid_argument, unsupported, err, Status, make_ok}

-- `KVCacheLayer`
pub record Layer (F : Type 0) : Type 0 where
  pub k : List F
  pub v : List F

pub record KvCache (F : Type 0) : Type 0 where
  pub layers : List (Layer F)
  pub num_kv_heads : ℕ
  pub head_dim : ℕ
  pub max_seq_len : ℕ
  pub cached_len : ℕ

-- `std::clamp(len, 0, max)`
abbrev pub clamp : ℤ → ℕ → ℕ
clamp len max_len = if ltb max_len (pos_part len) then max_len else pos_part len

module _ {F : Type 0} where
  abbrev pub kv_hidden : KvCache F → ℕ
  kv_hidden c = c.num_kv_heads * c.head_dim

  abbrev pub num_layers : KvCache F → ℕ
  num_layers c = length c.layers

  abbrev pub initialized : KvCache F → Bool
  initialized c = ltb 0 c.max_seq_len

  -- `KVCache()`, and what `release` leaves.
  abbrev pub released : KvCache F
  released = record { layers = []; num_kv_heads = 0; head_dim = 0; max_seq_len = 0; cached_len = 0 }

  abbrev pub release : KvCache F → Status × KvCache F
  release c = (make_ok, released)

  unfoldable pub init : F → ℤ → ℤ → ℤ → ℤ → KvCache F → KvCache F
  init z layers heads dim len c =
      if nonpositive layers || nonpositive heads || nonpositive dim || nonpositive len
      then released
      else record {
        layers =
            replicate (pos_part layers) (zeroed (pos_part len * (pos_part heads * pos_part dim)));
        num_kv_heads = pos_part heads;
        head_dim = pos_part dim;
        max_seq_len = pos_part len;
        cached_len = 0;
      }
    where
      zeroed : ℕ → Layer F
      zeroed n = record { k = replicate n z; v = replicate n z }

  -- Without CUDA.
  unfoldable pub init_cuda : ℤ → ℤ → ℤ → ℤ → KvCache F → Status × KvCache F
  init_cuda layers heads dim len c =
      if nonpositive layers || nonpositive heads || nonpositive dim || nonpositive len
      then (err invalid_argument, released)
      else (err unsupported, released)

  unfoldable pub set_cached_len : ℤ → KvCache F → KvCache F
  set_cached_len len c = record c { cached_len = clamp len c.max_seq_len }

  unfoldable pub advance : ℤ → KvCache F → KvCache F
  advance n c = set_cached_len (pos c.cached_len +ℤ n) c

  unfoldable pub can_append : ℤ → KvCache F → Bool
  can_append n c =
      not (is_neg n)
      && (leb c.cached_len c.max_seq_len && leb (pos_part n) (c.max_seq_len - c.cached_len))

  unfoldable pub reset : F → KvCache F → KvCache F
  reset z c = record c {
    cached_len = 0;
    layers = map (λ l. record { k = map (λ _. z) l.k; v = map (λ _. z) l.v }) c.layers;
  }
