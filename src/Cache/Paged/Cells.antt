-- ===== src/Cache/Paged/Cells.antt =====
-- What one write of src/runtime/cache/paged_kv_cache.cpp does to the stored elements.
use llmengine.Base.{
  Bool, Bool-cases, List, [], ap, arith, dec_lt, drop, false, get_or, get_or-drop, get_or-set_ne,
  get_or-set_self, get_or-take, get_or_beyond, inl, inr, leb, length, length-drop, length-set,
  length-take, pos, refl, set, suc, sym, true, zero, ℕ, ℕ_discrete, ◌*◌, ◌+◌, ◌/◌, ◌<◌, ◌^◌, ◌∙◌,
  ◌∷◌, ◌≡◌, ◌≢◌, ◌≤◌,
}
use llmengine.Core.Status.{ok}
use llmengine.Cache.Paged.{Layer, Sequence, PagedKvCache, no_sequence, seq_at, kv_hidden}
use llmengine.Cache.Paged.Blocks.{physical_block_for_position}
use llmengine.Cache.Paged.Tokens.{
  Ptr, row_index, write_at, no_layer, storage, with_storage, memcpy, load, row,
}
use llmengine.Cache.Paged.Invariant.{}
use llmengine.Cache.Paged.Addresses.{Addressable, block_of}
use llmengine.Cache.Paged.Isolation.{length-memcpy}

module _ {F : Type 0} where
  -- Every layer has the storage of all blocks, and the sizes do not leave `int` and `size_t`.
  pub record IsStored (c : PagedKvCache F) : Type 0 where
    pub width : c.num_kv_heads * c.head_dim < 2 ^ 31
    pub addressed : Addressable c
    pub sized : 0 < length c.layers → 0 < c.block_size
    pub lengths :
        (key : Bool) (l : ℕ)
        → l < length c.layers
        → length (storage key (get_or c.layers l no_layer))
          ≡ c.max_blocks * (c.block_size * kv_hidden c)

  -- The position has a physical block.
  abbrev pub Mapped : PagedKvCache F → ℕ → ℕ → Type 0
  Mapped c id p = p / c.block_size < length (seq_at c id).blocks

  -- Element `i` of the row of a token, in one layer.
  unfoldable pub cell : F → Bool → ℕ → ℕ → ℕ → ℕ → PagedKvCache F → F
  cell d key l id p i c =
      load d (record { key = key; layer = l; index = row_index c (block_of c id p) p }) i c

  pub Mapped-physical :
      (c : PagedKvCache F) (id p : ℕ)
      → Mapped c id p
      → physical_block_for_position (pos id) (pos p) c ≡ ok (block_of c id p)
  unfolding physical_block_for_position block_of
  Mapped-physical c id p m = elim (Bool-cases (leb (length c.sequences) id)) [
    | inl e ↦
        let gone : seq_at c id ≡ no_sequence =
          get_or_beyond c.sequences id no_sequence (ground arith) in
        absurd (omega (arith, ap (λ (s : Sequence). length s.blocks) gone, m))
    | inr e ↦ ground (arith, m)
  ]

  pub physical-Mapped :
      (c : PagedKvCache F) (id p : ℕ) (b : ℕ)
      → physical_block_for_position (pos id) (pos p) c ≡ ok b
      → Mapped c id p × (b ≡ block_of c id p)
  unfolding physical_block_for_position block_of
  physical-Mapped c id p b e = ground arith

  write_at_inside :
      (xs src : List F) (off i : ℕ) (d : F)
      → off + length src ≤ length xs
      → i < length src
      → get_or (write_at xs off src) (off + i) d ≡ get_or src i d
  unfolding write_at
  write_at_inside [] src off i d h k = absurd (omega arith)
  write_at_inside (x ∷ xs) [] off i d h k = absurd (omega arith)
  write_at_inside (x ∷ xs) (s ∷ src) zero zero d h k = refl
  write_at_inside (x ∷ xs) (s ∷ src) zero (suc i) d h k =
      rw (index i) (write_at_inside xs src zero i d (omega arith) (omega arith))
    where
      index : (i : ℕ) → 0 + suc i ≡ suc (0 + i)
      index i = omega arith
  write_at_inside (x ∷ xs) (s ∷ src) (suc off) i d h k =
      rw (index off i) (write_at_inside xs (s ∷ src) off i d (omega arith) k)
    where
      index : (off i : ℕ) → suc off + i ≡ suc (off + i)
      index off i = omega arith

  length-write_at : (xs src : List F) (off : ℕ) → length (write_at xs off src) ≡ length xs
  unfolding write_at
  length-write_at [] src off = refl
  length-write_at (x ∷ xs) [] zero = refl
  length-write_at (x ∷ xs) (s ∷ src) zero = ap suc (length-write_at xs src zero)
  length-write_at (x ∷ xs) src (suc off) = ap suc (length-write_at xs src off)

  pub get_or-row :
      (w t : ℕ) (buf : List F) (i : ℕ) (d : F)
      → i < w
      → get_or (row w t buf) i d ≡ get_or buf (t * w + i) d
  get_or-row w t buf i d h = get_or-take w i (drop (t * w) buf) d h ∙ get_or-drop (t * w) i buf d

  pub length-row : (w t : ℕ) (buf : List F) → t * w + w ≤ length buf → length (row w t buf) ≡ w
  length-row w t buf h = omega (arith, length-take w (drop (t * w) buf), length-drop (t * w) buf)

  -- A copy that fits the vector puts the source there.
  pub memcpy_inside :
      (p : Ptr) (src : List F) (c : PagedKvCache F) (i : ℕ) (d : F)
      → p.layer < length c.layers
      → p.index + length src ≤ length (storage p.key (get_or c.layers p.layer no_layer))
      → i < length src
      → get_or (storage p.key (get_or (memcpy p src c).layers p.layer no_layer)) (p.index + i) d
        ≡ get_or src i d
  unfolding memcpy
  memcpy_inside p src c i d h fits k =
      ap (λ (l : Layer F). get_or (storage p.key l) (p.index + i) d)
        (get_or-set_self c.layers p.layer (with_storage p.key new old) no_layer h)
      ∙ ap (λ (xs : List F). get_or xs (p.index + i) d) (storage_self p.key new old)
      ∙ write_at_inside (storage p.key old) src p.index i d fits k
    where
      old : Layer F
      old = get_or c.layers p.layer no_layer

      new : List F
      new = write_at (storage p.key old) p.index src

      storage_self :
          (key : Bool) (xs : List F) (l : Layer F) → storage key (with_storage key xs l) ≡ xs
      storage_self true xs l = refl
      storage_self false xs l = refl

  -- A copy into the keys leaves the values alone, and a copy into the values the keys.
  pub memcpy_key :
      (a b : Bool) (n x : ℕ) (src : List F) (c : PagedKvCache F) (l : ℕ)
      → a ≢ b
      → n < length c.layers
      → storage b
          (get_or (memcpy (record { key = a; layer = n; index = x }) src c).layers l no_layer)
        ≡ storage b (get_or c.layers l no_layer)
  unfolding memcpy
  memcpy_key a b n x src c l ne h = elim (ℕ_discrete n l) [
    | no u ↦ ap (storage b) (get_or-set_ne c.layers n l new no_layer u)
    | yes e ↦
        ap (λ (m : ℕ). storage b (get_or (set c.layers n new) m no_layer)) (sym e)
        ∙ ap (storage b) (get_or-set_self c.layers n new no_layer h)
        ∙ other a b ne (write_at (storage a old) x src) old
        ∙ ap (λ (m : ℕ). storage b (get_or c.layers m no_layer)) e
  ]
    where
      old : Layer F
      old = get_or c.layers n no_layer

      new : Layer F
      new = with_storage a (write_at (storage a old) x src) old

      other :
          (a b : Bool)
          → a ≢ b
          → (xs : List F) (l : Layer F) → storage b (with_storage a xs l) ≡ storage b l
      other true true u xs l = absurd (u refl)
      other true false u xs l = refl
      other false true u xs l = refl
      other false false u xs l = absurd (u refl)

  length-storage-memcpy :
      (p : Ptr) (src : List F) (c : PagedKvCache F) (key : Bool) (l : ℕ)
      → length (storage key (get_or (memcpy p src c).layers l no_layer))
        ≡ length (storage key (get_or c.layers l no_layer))
  unfolding memcpy
  length-storage-memcpy p src c key l = elim (ℕ_discrete p.layer l) [
    | no u ↦
        ap (λ (x : Layer F). length (storage key x))
          (get_or-set_ne c.layers p.layer l new no_layer u)
    | yes e ↦
        ap (λ (m : ℕ). length (storage key (get_or (set c.layers p.layer new) m no_layer))) (sym e)
        ∙ self
        ∙ ap (λ (m : ℕ). length (storage key (get_or c.layers m no_layer))) e
  ]
    where
      old : Layer F
      old = get_or c.layers p.layer no_layer

      new : Layer F
      new = with_storage p.key (write_at (storage p.key old) p.index src) old

      same :
          (a b : Bool)
          → length (storage b (with_storage a (write_at (storage a old) p.index src) old))
            ≡ length (storage b old)
      same true true = length-write_at old.k src p.index
      same true false = refl
      same false true = refl
      same false false = length-write_at old.v src p.index

      self :
          length (storage key (get_or (set c.layers p.layer new) p.layer no_layer))
          ≡ length (storage key old)
      self = elim (dec_lt p.layer (length c.layers)) [
        | yes h ↦
            ap (λ (x : Layer F). length (storage key x))
              (get_or-set_self c.layers p.layer new no_layer h)
            ∙ same p.key key
        | no h ↦
            ap (λ (x : Layer F). length (storage key x))
              (get_or_beyond (set c.layers p.layer new) p.layer no_layer
                  (omega (arith, h, length-set c.layers p.layer new))
                ∙ sym (get_or_beyond c.layers p.layer no_layer (omega (arith, h))))
      ]

  pub memcpy-IsStored :
      (p : Ptr) (src : List F) (c : PagedKvCache F) → IsStored c → IsStored (memcpy p src c)
  unfolding memcpy
  memcpy-IsStored p src c s = record {
    width = s.width;
    addressed = s.addressed;
    sized = λ h. s.sized (omega (arith, h, length-memcpy p src c));
    lengths = λ key l h.
        length-storage-memcpy p src c key l
        ∙ s.lengths key l (omega (arith, h, length-memcpy p src c));
  }

  -- A copy changes one layer.
  pub memcpy_elsewhere :
      (p : Ptr) (src : List F) (c : PagedKvCache F) (l : ℕ) (key : Bool) (j : ℕ) (d : F)
      → p.layer ≢ l
      → get_or (storage key (get_or (memcpy p src c).layers l no_layer)) j d
        ≡ get_or (storage key (get_or c.layers l no_layer)) j d
  unfolding memcpy
  memcpy_elsewhere p src c l key j d n =
      ap (λ (x : Layer F). get_or (storage key x) j d)
        (get_or-set_ne c.layers p.layer l _ no_layer n)
