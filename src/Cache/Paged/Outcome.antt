-- ===== src/Cache/Paged/Outcome.antt =====
-- When a reservation of src/runtime/cache/paged_kv_cache.cpp succeeds, and what a failing one leaves.
use llmengine.Base.{
  Bool-cases, arith, ceil-le, false, get_or-resize, if◌then◌else◌, inl, inr, is_neg, le-ceil-mul,
  leb, length, pos, pos_part, suc, sym, true, zero, ℕ, ℤ, ◌*◌, ◌+◌, ◌<◌, ◌==◌, ◌^◌, ◌∙◌, ◌≡◌, ◌≤◌,
}
use llmengine.Core.Status.{make_ok, is_ok, Status-cases}
use llmengine.Cache.Paged.{
  PagedKvCache, ceil_div_int, no_sequence, seq_at, initialized, free_block_count,
}
use llmengine.Cache.Paged.Blocks.{ensure_sequence, reserve_blocks, reserve_sequence}

module _ {F : Type 0} where
  -- The blocks that hold n tokens.
  abbrev pub blocks_for : ℕ → PagedKvCache F → ℕ
  blocks_for n c = if n == 0 then 0 else ceil_div_int n c.block_size

  pub ensure_sequence-keeps :
      (id : ℤ) (j : ℕ) (c : PagedKvCache F)
      → (seq_at (ensure_sequence id c).1 j ≡ seq_at c j)
        × ((ensure_sequence id c).1.free_blocks ≡ c.free_blocks)
        × ((ensure_sequence id c).1.block_size ≡ c.block_size)
  unfolding ensure_sequence
  ensure_sequence-keeps id j c = elim (Bool-cases (leb (length c.sequences) (pos_part id))) [
    | inl e ↦
        let same = get_or-resize (suc (pos_part id)) j no_sequence c.sequences (ground arith) in
        ground (arith, same)
    | inr e ↦ ground arith
  ]

  enough_blocks :
      (n m : ℕ) (c : PagedKvCache F)
      → 0 < c.block_size
      → n + c.block_size ≤ 2 ^ 31
      → leb (blocks_for n c) m ≡ leb n (m * c.block_size)
  unfolding ceil_div_int
  enough_blocks zero m c size range = ground arith
  enough_blocks (suc n) m c size range = elim (Bool-cases (leb (suc n) (m * c.block_size))) [
    | inl e ↦ let le = ceil-le (suc n) c.block_size m size (ground (arith, e)) in ground (arith, le)
    | inr e ↦ elim (Bool-cases (leb (blocks_for (suc n) c) m)) [
      | inr f ↦ f ∙ sym e
      | inl f ↦
          absurd (ground (arith, e, le-ceil-mul (suc n) c.block_size m size (ground (arith, f))))
    ]
  ]

  ensure_sequence_succeeds :
      (i : ℕ) (c : PagedKvCache F) → initialized c ≡ true → (ensure_sequence (pos i) c).0 ≡ make_ok
  unfolding ensure_sequence
  ensure_sequence_succeeds i c h = ground arith

  reserve_blocks_outcome :
      (i n : ℕ) (c : PagedKvCache F)
      → is_ok (reserve_blocks i n c).0
        ≡ leb (blocks_for n c) (length (seq_at c i).blocks + free_block_count c)
  unfolding reserve_blocks
  reserve_blocks_outcome i n c = ground arith

  -- In an initialized cache a reservation of n tokens for a sequence succeeds exactly when the blocks
  -- that it holds and the free ones have n positions, if n rounded up to a block does not leave `int`.
  pub reserve_sequence_outcome :
      (i n : ℕ) (c : PagedKvCache F)
      → initialized c ≡ true
      → n + c.block_size ≤ 2 ^ 31
      → is_ok (reserve_sequence (pos i) (pos n) c).0
        ≡ leb n ((length (seq_at c i).blocks + free_block_count c) * c.block_size)
  unfolding reserve_sequence
  reserve_sequence_outcome i n c h range =
      let kept = ensure_sequence-keeps (pos i) i c in
      rw (ensure_sequence_succeeds i c h, reserve_sequence)
        (reserve_blocks_outcome i n (ensure_sequence (pos i) c).1
          ∙ rw (kept.0, kept.1, kept.2) (enough_blocks n _ c (ground (arith, h)) range))

  reserve_blocks_fails :
      (i n : ℕ) (c : PagedKvCache F)
      → is_ok (reserve_blocks i n c).0 ≡ false
      → (reserve_blocks i n c).1 ≡ c
  unfolding reserve_blocks
  reserve_blocks_fails i n c h = ground arith

  -- A failing reservation takes no block: every sequence keeps its length and its table, and the free
  -- list is the same.
  pub reserve_sequence_fails :
      (id n : ℤ) (j : ℕ) (c : PagedKvCache F)
      → is_ok (reserve_sequence id n c).0 ≡ false
      → (seq_at (reserve_sequence id n c).1 j ≡ seq_at c j)
        × ((reserve_sequence id n c).1.free_blocks ≡ c.free_blocks)
  unfolding reserve_sequence
  reserve_sequence_fails id n j c =
      let c' = (ensure_sequence id c).1 in
      let kept = ensure_sequence-keeps id j c in
      elim (Status-cases (ensure_sequence id c).0) [
        | inr (x, e) ↦ rw (e, reserve_sequence) (λ h. (kept.0, kept.1))
        | inl e ↦
            rw (e, reserve_sequence)
              (elim (Bool-cases (is_neg n)) [
                | inl neg ↦ rw neg (λ h. (kept.0, kept.1))
                | inr nonneg ↦ rw nonneg (λ h.
                    let same = reserve_blocks_fails (pos_part id) (pos_part n) c' h in
                    rw same (kept.0, kept.1))
              ])
      ]
