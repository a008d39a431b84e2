-- ===== src/Cache/Paged/Extends.antt =====
-- What `reserve_sequence` of src/runtime/cache/paged_kv_cache.cpp leaves of the positions that have
-- a block already.
use llmengine.Base.{
  Bool, Bool-cases, List-cases, [], ap, arith, get_or, get_or-append_left, if◌then◌else◌, inl, inr,
  is_neg, length, length-append, pos_part, refl, set, subst, suc, sym, zero, ℕ, ℤ, ◌-◌, ◌<◌, ◌==◌,
  ◌∙◌, ◌∷◌, ◌≡◌,
}
use llmengine.Core.Status.{Status-cases}
use llmengine.Cache.Paged.{Sequence, PagedKvCache, ceil_div_int, no_sequence, seq_at}
use llmengine.Cache.Paged.Blocks.{
  ensure_sequence, take_block, take_blocks, reserve_blocks, reserve_sequence, with_length,
}
use llmengine.Cache.Paged.Tokens.{row_index, load}
use llmengine.Cache.Paged.Invariant.{seq_set, pushed}
use llmengine.Cache.Paged.Reserve.{ensure_sequence_ok}
use llmengine.Cache.Paged.Taking.{length-take_block}
use llmengine.Cache.Paged.Outcome.{ensure_sequence-keeps}
use llmengine.Cache.Paged.Addresses.{block_of}
use llmengine.Cache.Paged.Cells.{IsStored, Mapped, cell}

module _ {F : Type 0} where
  -- `r` is `c` with more blocks: the tables of `c` are prefixes of those of `r`.
  pub record Extends (c r : PagedKvCache F) : Type 0 where
    pub layers : r.layers ≡ c.layers
    pub max_blocks : r.max_blocks ≡ c.max_blocks
    pub block_size : r.block_size ≡ c.block_size
    pub num_kv_heads : r.num_kv_heads ≡ c.num_kv_heads
    pub head_dim : r.head_dim ≡ c.head_dim
    pub kept :
        (j q : ℕ)
        → q < length (seq_at c j).blocks
        → (q < length (seq_at r j).blocks)
          × (get_or (seq_at r j).blocks q 0 ≡ get_or (seq_at c j).blocks q 0)

  pub Extends-refl : (c : PagedKvCache F) → Extends c c
  Extends-refl c = record {
    layers = refl;
    max_blocks = refl;
    block_size = refl;
    num_kv_heads = refl;
    head_dim = refl;
    kept = λ j q h. (h, refl);
  }

  pub Extends-trans : {a b c : PagedKvCache F} → Extends a b → Extends b c → Extends a c
  Extends-trans s t = record {
    layers = t.layers ∙ s.layers;
    max_blocks = t.max_blocks ∙ s.max_blocks;
    block_size = t.block_size ∙ s.block_size;
    num_kv_heads = t.num_kv_heads ∙ s.num_kv_heads;
    head_dim = t.head_dim ∙ s.head_dim;
    kept = λ j q h. (let u = s.kept j q h in let v = t.kept j q u.0 in (v.0, v.1 ∙ u.1));
  }

  -- A cache with the same tables.
  pub Extends-tables :
      (c r : PagedKvCache F)
      → r.layers ≡ c.layers
      → r.max_blocks ≡ c.max_blocks
      → r.block_size ≡ c.block_size
      → r.num_kv_heads ≡ c.num_kv_heads
      → r.head_dim ≡ c.head_dim
      → ((j : ℕ) → (seq_at r j).blocks ≡ (seq_at c j).blocks)
      → Extends c r
  Extends-tables c r l m b n h t = record {
    layers = l;
    max_blocks = m;
    block_size = b;
    num_kv_heads = n;
    head_dim = h;
    kept = λ j q u. rw (t j) (u, refl);
  }

  pushed-kept :
      (i b j q : ℕ) (c : PagedKvCache F)
      → i < length c.sequences
      → q < length (seq_at c j).blocks
      → let bs = (get_or (set c.sequences i (pushed i b c)) j no_sequence).blocks in
        (q < length bs) × (get_or bs q 0 ≡ get_or (seq_at c j).blocks q 0)
  pushed-kept i b j q c h u =
      rw (seq_set c.sequences i j (pushed i b c) h) (elim (Bool-cases (i == j)) [
        | inl e ↦
            let same : i ≡ j = ground arith in
            rw (e, same)
              (
                omega (arith, u, length-append (seq_at c j).blocks (b ∷ [])),
                get_or-append_left (seq_at c j).blocks (b ∷ []) q 0 u,
              )
        | inr e ↦ rw e (u, refl)
      ])

  take_block_none : (i : ℕ) (c : PagedKvCache F) → c.free_blocks ≡ [] → take_block i c ≡ c
  unfolding take_block
  take_block_none i c e = ground arith

  take_block-Extends :
      (i : ℕ) (c : PagedKvCache F) → i < length c.sequences → Extends c (take_block i c)
  unfolding take_block
  take_block-Extends i c h = elim (List-cases c.free_blocks) [
    | inl e ↦ subst (λ r. Extends c r) (sym (take_block_none i c e)) (Extends-refl c)
    | inr (b, rest, e) ↦
        rw (e, take_block)
          (record {
            layers = refl;
            max_blocks = refl;
            block_size = refl;
            num_kv_heads = refl;
            head_dim = refl;
            kept = λ j q u. pushed-kept i b j q c h u;
          })
  ]

  take_blocks-Extends :
      (n i : ℕ) (c : PagedKvCache F) → i < length c.sequences → Extends c (take_blocks n i c)
  unfolding take_blocks
  take_blocks-Extends zero i c h = Extends-refl c
  take_blocks-Extends (suc n) i c h =
      Extends-trans (take_block-Extends i c h)
        (take_blocks-Extends n i (take_block i c) (omega (arith, h, length-take_block i c)))

  pub ensure_sequence-Extends : (id : ℤ) (c : PagedKvCache F) → Extends c (ensure_sequence id c).1
  unfolding ensure_sequence
  ensure_sequence-Extends id c =
      Extends-tables c (ensure_sequence id c).1 (ground arith) (ground arith) (ground arith)
        (ground arith) (ground arith)
        (λ j. ap (λ (s : Sequence). s.blocks) (ensure_sequence-keeps id j c).0)

  reserve_blocks-Extends :
      (i n : ℕ) (c : PagedKvCache F) → i < length c.sequences → Extends c (reserve_blocks i n c).1
  unfolding reserve_blocks
  reserve_blocks-Extends i n c h = ground (
    arith,
    Extends-refl c,
    take_blocks-Extends
        ((if n == 0 then 0 else ceil_div_int n c.block_size) - length (seq_at c i).blocks) i c h,
  )

  pub reserve_sequence-Extends :
      (id n : ℤ) (c : PagedKvCache F) → Extends c (reserve_sequence id n c).1
  unfolding reserve_sequence
  reserve_sequence-Extends id n c =
      let c' = (ensure_sequence id c).1 in
      let s = ensure_sequence-Extends id c in
      elim (Status-cases (ensure_sequence id c).0) [
        | inr (x, e) ↦ rw (e, reserve_sequence) s
        | inl e ↦
            rw (e, reserve_sequence)
              (elim (Bool-cases (is_neg n)) [
                | inl neg ↦ rw neg s
                | inr nonneg ↦ rw nonneg (
                    Extends-trans s (
                      reserve_blocks-Extends (pos_part id) (pos_part n) c'
                        (ensure_sequence_ok id c e)))
              ])
      ]

  pub with_length-Extends :
      (i n : ℕ) (c : PagedKvCache F) → i < length c.sequences → Extends c (with_length i n c)
  with_length-Extends i n c h = Extends-tables c (with_length i n c) refl refl refl refl refl (λ j.
      rw (seq_set c.sequences i j (record (seq_at c i) { length = n }) h)
        (elim (Bool-cases (i == j)) [
          | inl e ↦ let same : i ≡ j = ground arith in rw (e, same) refl
          | inr e ↦ rw e refl
        ]))

  pub Extends-Mapped :
      (c r : PagedKvCache F) (id p : ℕ) → Extends c r → Mapped c id p → Mapped r id p
  Extends-Mapped c r id p e m = rw e.block_size ((e.kept id _ m).0)

  pub same-IsStored :
      (c r : PagedKvCache F)
      → r.layers ≡ c.layers
      → r.max_blocks ≡ c.max_blocks
      → r.block_size ≡ c.block_size
      → r.num_kv_heads ≡ c.num_kv_heads
      → r.head_dim ≡ c.head_dim
      → IsStored c
      → IsStored r
  same-IsStored c r l m b n h s = record {
    width = rw (n, h) s.width;
    addressed = rw (m, b, n, h) s.addressed;
    sized = rw (l, b) s.sized;
    lengths = rw (l, m, b, n, h) s.lengths;
  }

  pub Extends-IsStored : (c r : PagedKvCache F) → Extends c r → IsStored c → IsStored r
  Extends-IsStored c r e =
      same-IsStored c r e.layers e.max_blocks e.block_size e.num_kv_heads e.head_dim

  pub Extends-cell :
      (c r : PagedKvCache F) (d : F) (key : Bool) (l id p i : ℕ)
      → Extends c r
      → Mapped c id p
      → cell d key l id p i r ≡ cell d key l id p i c
  unfolding cell load row_index block_of
  Extends-cell c r d key l id p i e m =
      rw (e.layers, e.block_size, e.num_kv_heads, e.head_dim, (e.kept id _ m).1) refl
