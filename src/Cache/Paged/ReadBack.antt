-- ===== src/Cache/Paged/ReadBack.antt =====
-- What the loop of `write_tokens` in src/runtime/cache/paged_kv_cache.cpp stores is read back, and
-- the other elements stay.
use llmengine.Base.{
  Bool, List, ap, arith, false, get_or, length, pos, pos_part, true, ℕ, ℕ_discrete, ℤ, ◌*◌, ◌+◌,
  ◌<◌, ◌∙◌, ◌≡◌, ◌≤◌,
}
use llmengine.Core.Status.{ok}
use llmengine.Cache.Paged.{PagedKvCache, kv_hidden}
use llmengine.Cache.Paged.Blocks.{physical_block_for_position}
use llmengine.Cache.Paged.Tokens.{Ptr, row_index, no_layer, storage, memcpy, load, row}
use llmengine.Cache.Paged.Invariant.{Inv}
use llmengine.Cache.Paged.Addresses.{row_index_plain, block_of, physical_block-lt}
use llmengine.Cache.Paged.Blocks.{physical_block_for_position}
use llmengine.Core.Status.{ok}
use llmengine.Cache.Paged.Isolation.{length-memcpy, rows_apart, row_copy, written_token}
use llmengine.Cache.Paged.Writing.{}
use llmengine.Cache.Paged.Contents.{buffer}
use llmengine.Cache.Paged.Cells.{
  IsStored, Mapped, cell, Mapped-physical, get_or-row, length-row, memcpy_inside, memcpy_key,
  memcpy-IsStored, memcpy_elsewhere,
}

module _ {F : Type 0} where
  -- The conditions under which a row can be written: its layer, its place and its source exist.
  pub record Ready (c : PagedKvCache F) (id p layer t : ℕ) (k v : List F) : Type 0 where
    pub inv : Inv c
    pub size : 0 < c.block_size
    pub stored : IsStored c
    pub within : layer < length c.layers
    pub mapped : Mapped c id p
    pub keys : t * kv_hidden c + kv_hidden c ≤ length k
    pub values : t * kv_hidden c + kv_hidden c ≤ length v

  -- In a cache with its invariant and its storage, the row of a token that has a physical block lies
  -- within the vector of every layer.
  pub row_index_in_bounds :
      (c : PagedKvCache F) (id p : ℤ) (layer : ℕ) (key : Bool) {b : ℕ}
      → Inv c
      → IsStored c
      → layer < length c.layers
      → physical_block_for_position id p c ≡ ok b
      → row_index c b (pos_part p) + kv_hidden c
        ≤ length (storage key (get_or c.layers layer no_layer))
  row_index_in_bounds c id p layer key {b} v s h e =
      let size = s.sized (omega (arith, h)) in
      let lt = physical_block-lt c id p v e in
      let inside = (row_index_plain c b (pos_part p) s.addressed size lt).1 in
      omega (arith, s.lengths key layer h, inside)

  place :
      (c : PagedKvCache F) (id p layer : ℕ) (key : Bool)
      → Inv c
      → IsStored c
      → layer < length c.layers
      → Mapped c id p
      → row_index c (block_of c id p) p + kv_hidden c
        ≤ length (storage key (get_or c.layers layer no_layer))
  place c id p layer key v s h m =
      row_index_in_bounds c (pos id) (pos p) layer key v s h (Mapped-physical c id p m)

  pub written_cell_self :
      (c : PagedKvCache F) (id p layer t i : ℕ) (k v : List F) (key : Bool) (d : F)
      → Ready c id p layer t k v
      → i < kv_hidden c
      → cell d key layer id p i (written_token (pos layer) (block_of c id p) p t k v c)
        ≡ get_or (buffer key k v) (t * kv_hidden c + i) d
  unfolding cell load memcpy block_of row_index
  written_cell_self c id p layer t i k v true d r h =
      ap (λ xs. get_or xs (x + i) d)
        (memcpy_key false true layer x (row w t v) first layer (λ e. cc)
          (omega (arith, r.within, length-memcpy at (row w t k) c)))
      ∙ memcpy_inside at (row w t k) c i d r.within (omega (arith, fits, length-row w t k r.keys))
          (omega (arith, h, length-row w t k r.keys))
      ∙ get_or-row w t k i d h
    where
      w : ℕ
      w = kv_hidden c

      x : ℕ
      x = row_index c (block_of c id p) p

      at : Ptr
      at = record { key = true; layer = layer; index = x }

      first : PagedKvCache F
      first = memcpy at (row w t k) c

      fits : x + w ≤ length (storage true (get_or c.layers layer no_layer))
      fits = place c id p layer true r.inv r.stored r.within r.mapped
  written_cell_self c id p layer t i k v false d r h =
      memcpy_inside at (row w t v) first i d
        (omega (arith, r.within, length-memcpy _ (row w t k) c))
        (omega (
          arith,
          fits,
          length-row w t v r.values,
          (memcpy-IsStored (record at { key = true }) (row w t k) c r.stored).lengths false layer
              (omega (arith, r.within, length-memcpy (record at { key = true }) (row w t k) c)),
          r.stored.lengths false layer r.within,
        ))
        (omega (arith, h, length-row w t v r.values))
      ∙ get_or-row w t v i d h
    where
      w : ℕ
      w = kv_hidden c

      x : ℕ
      x = row_index c (block_of c id p) p

      at : Ptr
      at = record { key = false; layer = layer; index = x }

      first : PagedKvCache F
      first = memcpy (record at { key = true }) (row w t k) c

      fits : x + w ≤ length (storage false (get_or c.layers layer no_layer))
      fits = place c id p layer false r.inv r.stored r.within r.mapped

  -- Another token, or another layer, is left alone.
  pub written_cell_other :
      (c : PagedKvCache F) (id p layer t i l id' p' : ℕ) (k v : List F) (key : Bool) (d : F)
      → Ready c id p layer t k v
      → i < kv_hidden c
      → Mapped c id' p'
      → (id ≡ id' → p ≡ p' → layer ≡ l → ⊥)
      → cell d key l id' p' i (written_token (pos layer) (block_of c id p) p t k v c)
        ≡ cell d key l id' p' i c
  unfolding cell load memcpy block_of row_index
  written_cell_other c id p layer t i l id' p' k v key d r h m other = elim (ℕ_discrete layer l) [
    | no n ↦
        memcpy_elsewhere (record at { key = false }) (row w t v) first l key (y + i) d n
        ∙ memcpy_elsewhere at (row w t k) c l key (y + i) d n
    | yes e ↦
        let far =
          rows_apart c (pos id) (pos id') (pos p) (pos p') (block_of c id p) (block_of c id' p') i
            r.inv r.stored.addressed r.size h (Mapped-physical c id p r.mapped)
            (Mapped-physical c id' p' m) (λ a b. other a b e) in
        row_copy c first false key layer l t x y i v d
          (omega (arith, r.within, length-memcpy at (row w t k) c)) far
        ∙ row_copy c c true key layer l t x y i k d r.within far
  ]
    where
      w : ℕ
      w = kv_hidden c

      x : ℕ
      x = row_index c (block_of c id p) p

      y : ℕ
      y = row_index c (block_of c id' p') p'

      at : Ptr
      at = record { key = true; layer = layer; index = x }

      first : PagedKvCache F
      first = memcpy at (row w t k) c
