-- ===== src/Cache/Paged/Keeping.antt =====
-- `free_sequence`, `init` and the other calls of src/runtime/cache/paged_kv_cache.cpp, against the
-- map of Contents.
use llmengine.Base.{
  Bool, Bool-cases, List, [], ap, arith, false, get_or, get_or-replicate_lt, if◌then◌else◌, inl,
  inr, is_neg, length, length-map, length-replicate, ltb, map, nonpositive, pos_part, refl,
  replicate, some, suc, true, zero, ℕ, ℤ, ◌%◌, ◌&&◌, ◌*◌, ◌<◌, ◌^◌, ◌||◌, ◌∙◌, ◌∷◌, ◌≡◌,
}
use llmengine.Cache.Paged.{Layer, PagedKvCache, as_size, seq_at, kv_hidden, init, zero_layer, reset}
use llmengine.Cache.Paged.Blocks.{free_block, free_each, free_sequence}
use llmengine.Cache.Paged.Tokens.{row_index, no_layer, storage, load}
use llmengine.Cache.Paged.Freeing.{free_sequence-Inv, free_sequence_keeps}
use llmengine.Cache.Paged.Addresses.{block_of}
use native.Mathlib.Nat.{mod-eq_of_lt}
use llmengine.Cache.Paged.Extends.{same-IsStored}
use llmengine.Cache.Paged.{as_size}
use llmengine.Cache.Paged.Cells.{IsStored, Mapped, cell}
use llmengine.Cache.Paged.Extends.{}
use llmengine.Cache.Paged.Contents.{Contents, forget, Refines}
use llmengine.Cache.Paged.Store.{}

-- A width within `int` is converted to itself.
as_size_lem : (n : ℕ) → n < 2 ^ 31 → as_size n ≡ n
unfolding as_size
as_size_lem n h = ground arith

-- The sizes that `init` is asked for do not leave `int` and `size_t`.
unfoldable pub pool_fits : ℕ → ℕ → ℕ → ℕ → Bool
pool_fits heads dim size blocks =
    ltb (heads * dim) (2 ^ 31) && ltb (blocks * (size * (heads * dim))) (2 ^ 64)

module _ {F : Type 0} where
  -- `r` has the storage of `c`.
  record SameStorage (c r : PagedKvCache F) : Type 0 where
    layers : r.layers ≡ c.layers
    max_blocks : r.max_blocks ≡ c.max_blocks
    block_size : r.block_size ≡ c.block_size
    num_kv_heads : r.num_kv_heads ≡ c.num_kv_heads
    head_dim : r.head_dim ≡ c.head_dim

  free_block-SameStorage : (c : PagedKvCache F) (b : ℕ) → SameStorage c (free_block c b)
  unfolding free_block
  free_block-SameStorage c b = record {
    layers = ground arith;
    max_blocks = ground arith;
    block_size = ground arith;
    num_kv_heads = ground arith;
    head_dim = ground arith;
  }

  free_each-SameStorage : (c : PagedKvCache F) (bs : List ℕ) → SameStorage c (free_each c bs)
  unfolding free_each
  free_each-SameStorage c [] = record {
    layers = refl;
    max_blocks = refl;
    block_size = refl;
    num_kv_heads = refl;
    head_dim = refl;
  }
  free_each-SameStorage c (b ∷ bs) =
      let s = free_block-SameStorage c b in
      let t = free_each-SameStorage (free_block c b) bs in
      record {
        layers = t.layers ∙ s.layers;
        max_blocks = t.max_blocks ∙ s.max_blocks;
        block_size = t.block_size ∙ s.block_size;
        num_kv_heads = t.num_kv_heads ∙ s.num_kv_heads;
        head_dim = t.head_dim ∙ s.head_dim;
      }

  free_sequence-SameStorage : (id : ℤ) (c : PagedKvCache F) → SameStorage c (free_sequence id c).1
  unfolding free_sequence
  free_sequence-SameStorage id c =
      let t = free_each-SameStorage c (seq_at c (pos_part id)).blocks in
      record {
        layers = ground (arith, t.layers);
        max_blocks = ground (arith, t.max_blocks);
        block_size = ground (arith, t.block_size);
        num_kv_heads = ground (arith, t.num_kv_heads);
        head_dim = ground (arith, t.head_dim);
      }

  same_table-cell :
      (c r : PagedKvCache F) (d : F) (key : Bool) (l id p i : ℕ)
      → SameStorage c r
      → seq_at r id ≡ seq_at c id
      → cell d key l id p i r ≡ cell d key l id p i c
  unfolding cell load row_index block_of
  same_table-cell c r d key l id p i e t =
      rw (e.layers, e.block_size, e.num_kv_heads, e.head_dim, t) refl

  free_sequence_negative :
      (c : PagedKvCache F) (id : ℤ) (j : ℕ)
      → is_neg id ≡ true
      → seq_at (free_sequence id c).1 j ≡ seq_at c j
  unfolding free_sequence
  free_sequence_negative c id j g = rw g refl

  -- A call of `free_sequence`, on a cache that implements a map of known elements, leaves a cache that
  -- implements the map without the elements of that sequence.
  pub free_sequence-Refines :
      (d : F) (c : PagedKvCache F) (m : Contents F) (id : ℤ)
      → Refines d c m
      → Refines d (free_sequence id c).1 (if is_neg id then m else forget (pos_part id) m)
  unfolding forget
  free_sequence-Refines d c m id s = record {
    inv = free_sequence-Inv id c s.inv;
    stored =
        same-IsStored c (free_sequence id c).1 e.layers e.max_blocks e.block_size e.num_kv_heads
          e.head_dim s.stored;
    reads = λ key l id' p i x h. elim (Bool-cases (is_neg id)) [
      | inl g ↦ here key l id' p i x (free_sequence_negative c id id' g) (ground (arith, g, h))
      | inr g ↦
          here key l id' p i x (free_sequence_keeps id id' c s.inv (ground (arith, g, h)))
            (ground (arith, g, h))
    ];
  }
    where
      e : SameStorage c (free_sequence id c).1
      e = free_sequence-SameStorage id c

      here :
          (key : Bool) (l id' p i : ℕ) (x : F)
          → seq_at (free_sequence id c).1 id' ≡ seq_at c id'
          → m key l id' p i ≡ some x
          → let r = (free_sequence id c).1 in
            Mapped r id' p × (i < kv_hidden r) × (cell d key l id' p i r ≡ x)
      here key l id' p i x t g =
          let u = s.reads key l id' p i x g in
          (
            rw (e.block_size, t) u.0,
            rw (e.num_kv_heads, e.head_dim) u.1,
            same_table-cell c (free_sequence id c).1 d key l id' p i e t ∙ u.2,
          )

  filled :
      (key : Bool) (l n w : ℕ) (x : Layer F)
      → length (storage key x) ≡ w
      → l < length (replicate n x)
      → length (storage key (get_or (replicate n x) l no_layer)) ≡ w
  filled key l n w x e h =
      ap (λ (y : Layer F). length (storage key y))
        (get_or-replicate_lt n l x no_layer (rw⁻¹ (length-replicate n x) h))
      ∙ e

  floats :
      (z : F) (key : Bool) (n : ℕ)
      → length (storage key (record { k = replicate n z; v = replicate n z })) ≡ n
  floats z true n = length-replicate n z
  floats z false n = length-replicate n z

  pub no_layers-IsStored :
      (c : PagedKvCache F) → c.layers ≡ [] → c.num_kv_heads ≡ 0 → c.max_blocks ≡ 0 → IsStored c
  no_layers-IsStored c e h m = record {
    width = rw h (omega arith);
    addressed = rw m (omega arith);
    sized = rw e (λ u. absurd (omega (arith, u)));
    lengths = rw e (λ key l u. absurd (omega (arith, u)));
  }

  pub init-IsStored :
      (z : F) (layers heads dim size blocks : ℤ) (c : PagedKvCache F)
      → pool_fits (pos_part heads) (pos_part dim) (pos_part size) (pos_part blocks) ≡ true
      → IsStored (init z layers heads dim size blocks c).1
  unfolding init pool_fits
  init-IsStored z layers heads dim size blocks c fit =
      elim (Bool-cases (
        nonpositive layers
        || nonpositive heads
        || nonpositive dim
        || nonpositive size
        || nonpositive blocks)) [
          | inl e ↦ rw e (no_layers-IsStored _ refl refl refl)
          | inr e ↦
              let width : pos_part heads * pos_part dim < 2 ^ 31 = ground (arith, fit) in
              let same = as_size_lem (pos_part heads * pos_part dim) width in
              let m = pos_part blocks * (pos_part size * as_size (pos_part heads * pos_part dim)) in
              let small : m < 2 ^ 64 = rw same (ground (arith, fit)) in
              let n = m % 2 ^ 64 in
              rw e (record {
                width = width;
                addressed = small;
                sized = λ u. ground (arith, e);
                lengths = λ key l h.
                    filled key l (pos_part layers) n
                      (record { k = replicate n z; v = replicate n z }) (floats z key n) h
                    ∙ mod-eq_of_lt small;
              })
        ]

  zeroed :
      (z : F) (key : Bool) (x : Layer F)
      → length (storage key (zero_layer z x)) ≡ length (storage key x)
  unfolding zero_layer
  zeroed z true x = length-map _ x.k
  zeroed z false x = length-map _ x.v

  length-zeroed :
      (z : F) (key : Bool) (l : ℕ) (xs : List (Layer F))
      → length (storage key (get_or (map (zero_layer z) xs) l no_layer))
        ≡ length (storage key (get_or xs l no_layer))
  length-zeroed z true l [] = refl
  length-zeroed z false l [] = refl
  length-zeroed z key zero (x ∷ xs) = zeroed z key x
  length-zeroed z key (suc l) (x ∷ xs) = length-zeroed z key l xs

  pub reset-IsStored : (z : F) (c : PagedKvCache F) → IsStored c → IsStored (reset z c)
  unfolding reset
  reset-IsStored z c s = record {
    width = s.width;
    addressed = s.addressed;
    sized = λ h. s.sized (omega (arith, h, length-map (zero_layer z) c.layers));
    lengths = λ key l h.
        length-zeroed z key l c.layers
        ∙ s.lengths key l (omega (arith, h, length-map (zero_layer z) c.layers));
  }
