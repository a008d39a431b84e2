-- ===== src/Cache/Paged/Tokens.antt =====
-- The rows of keys and values: `mutable_token_ptr` to `value_ptr` of
-- src/runtime/cache/paged_kv_cache.cpp. A pointer into the storage is a layer, one of its two
-- vectors and an index; a caller's buffer is a list, and a null pointer is `none`.
use llmengine.Base.{
  Bool, List, Option, [], count, drop, false, get_or, if◌then◌else◌, is_neg, leb, max, pos,
  pos_part, set, some, suc, take, true, zero, ℕ, ℤ, ◌%◌, ◌*◌, ◌+◌, ◌==◌, ◌^◌, ◌||◌, ◌∷◌,
}
use llmengine.Core.Status.{invalid_argument, out_of_range, Result, ok, err, Status, make_ok, ◌>>=◌}
use llmengine.Cache.Paged.{Layer, PagedKvCache, int_sum, as_size, seq_at, num_layers, kv_hidden}
use llmengine.Cache.Paged.Blocks.{
  sequence_length, reserve_sequence, with_length, physical_block_for_position,
}

-- A `float*` into `layers_[layer].k` (`key`) or `.v`.
pub record Ptr : Type 0 where
  pub key : Bool
  pub layer : ℕ
  pub index : ℕ

module _ {F : Type 0} where
  -- `block * block_stride + offset * kv_hidden` in `size_t`
  unfoldable pub row_index : PagedKvCache F → ℕ → ℕ → ℕ
  unfolding as_size
  row_index c block token_pos =
      (block * (c.block_size * kv_hidden c) + token_pos % c.block_size * kv_hidden c) % 2 ^ 64

  abbrev pub no_such_layer : ℤ → PagedKvCache F → Bool
  no_such_layer layer c = is_neg layer || leb (num_layers c) (pos_part layer)

  unfoldable pub mutable_token_ptr : Bool → ℤ → ℤ → ℤ → PagedKvCache F → Result Ptr
  unfolding physical_block_for_position row_index
  mutable_token_ptr key id layer token_pos c =
      if no_such_layer layer c then err out_of_range else (do
        block ← physical_block_for_position id token_pos c
        ok (record {
          key = key;
          layer = pos_part layer;
          index = row_index c block (pos_part token_pos);
        }))

  unfoldable pub token_ptr : Bool → ℤ → ℤ → ℤ → ℤ → PagedKvCache F → Result Ptr
  unfolding physical_block_for_position row_index sequence_length
  token_ptr key id layer token_pos kv_head c =
      if no_such_layer layer c
      then err out_of_range
      else if is_neg kv_head || leb c.num_kv_heads (pos_part kv_head)
      then err out_of_range
      else if is_neg token_pos || leb (sequence_length id c) (pos_part token_pos)
      then err out_of_range
      else (do
        block ← physical_block_for_position id token_pos c
        ok (record {
          key = key;
          layer = pos_part layer;
          index = (row_index c block (pos_part token_pos) + pos_part kv_head * c.head_dim) % 2 ^ 64;
        }))

  unfoldable pub key_ptr : ℤ → ℤ → ℤ → ℤ → PagedKvCache F → Result Ptr
  unfolding token_ptr
  key_ptr = token_ptr true

  unfoldable pub value_ptr : ℤ → ℤ → ℤ → ℤ → PagedKvCache F → Result Ptr
  unfolding token_ptr
  value_ptr = token_ptr false

  -- The write of `memcpy` to the elements from `off` on; what lies beyond the vector is not written.
  unfoldable pub write_at : List F → ℕ → List F → List F
  write_at [] off src = []
  write_at (x ∷ xs) zero [] = x ∷ xs
  write_at (x ∷ xs) zero (s ∷ src) = s ∷ write_at xs zero src
  write_at (x ∷ xs) (suc off) src = x ∷ write_at xs off src

  abbrev pub no_layer : Layer F
  no_layer = record { k = []; v = [] }

  -- The vector that a pointer points into.
  abbrev pub storage : Bool → Layer F → List F
  storage true l = l.k
  storage false l = l.v

  abbrev pub with_storage : Bool → List F → Layer F → Layer F
  with_storage true xs l = record l { k = xs }
  with_storage false xs l = record l { v = xs }

  unfoldable pub memcpy : Ptr → List F → PagedKvCache F → PagedKvCache F
  unfolding write_at
  memcpy p src c =
      let l = get_or c.layers p.layer no_layer in
      record c {
        layers =
            set c.layers p.layer (with_storage p.key (write_at (storage p.key l) p.index src) l);
      }

  -- `*(p + d)` for a pointer into the storage.
  unfoldable pub load : F → Ptr → ℕ → PagedKvCache F → F
  load d p i c = get_or (storage p.key (get_or c.layers p.layer no_layer)) (p.index + i) d

  -- Row `t` of a caller's buffer.
  abbrev pub row : ℕ → ℕ → List F → List F
  row width t buf = take width (drop (t * width) buf)

  -- One round of the loop of `write_tokens`, for the token at `pos` from row `t`.
  unfoldable pub write_token :
      ℤ → ℤ → ℕ → ℕ → List F → List F → PagedKvCache F → Result (PagedKvCache F)
  unfolding mutable_token_ptr memcpy as_size
  write_token id layer pos' t k v c = do
    dst_k ← mutable_token_ptr true id layer (pos pos') c
    dst_v ← mutable_token_ptr false id layer (pos pos') c
    ok (memcpy dst_v (row (kv_hidden c) t v) (memcpy dst_k (row (kv_hidden c) t k) c))

  -- The loop, with `n` rounds left.
  unfoldable pub write_loop :
      ℤ → ℤ → ℕ → List F → List F → ℕ → ℕ → PagedKvCache F → Status × PagedKvCache F
  unfolding write_token
  write_loop id layer start k v zero t c = (make_ok, c)
  write_loop id layer start k v (suc n) t c = elim (write_token id layer (start + t) t k v c) [
    | err e ↦ (err e, c)
    | ok c' ↦ write_loop id layer start k v n (suc t) c'
  ]

  -- The part of `write_tokens` behind the argument checks, with the buffers at hand.
  unfoldable pub write_rows :
      ℤ → ℤ → ℕ → List F → List F → ℕ → PagedKvCache F → Status × PagedKvCache F
  unfolding reserve_sequence write_loop int_sum
  write_rows id layer start k v count c =
      let end_pos = int_sum start count in
      let (st, c') = reserve_sequence id end_pos c in
      elim st [
        | err e ↦ (err e, c')
        | ok _ ↦
            let (st', c'') = write_loop id layer start k v count 0 c' in
            elim st' [
              | err e ↦ (err e, c'')
              | ok _ ↦
                  let i = pos_part id in
                  (make_ok, with_length i (max (seq_at c'' i).length (pos_part end_pos)) c'')
            ]
      ]

  unfoldable pub write_tokens :
      ℤ → ℤ → ℤ → Option (List F) → Option (List F) → ℤ → PagedKvCache F → Status × PagedKvCache F
  unfolding write_rows
  write_tokens id layer start (some k) (some v) count c =
      if is_neg start || is_neg count
      then (err invalid_argument, c)
      else if no_such_layer layer c
      then (err out_of_range, c)
      else if pos_part count == 0
      then (make_ok, c)
      else write_rows id layer (pos_part start) k v (pos_part count) c
  write_tokens id layer start _ _ count c = (err invalid_argument, c)

  unfoldable pub append_tokens :
      ℤ → ℤ → Option (List F) → Option (List F) → ℤ → PagedKvCache F → Status × PagedKvCache F
  unfolding write_tokens sequence_length
  append_tokens id layer k v count c =
      write_tokens id layer (pos (sequence_length id c)) k v count c
