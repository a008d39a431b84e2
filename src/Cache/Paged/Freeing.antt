-- ===== src/Cache/Paged/Freeing.antt =====
-- What `free_sequence` of src/runtime/cache/paged_kv_cache.cpp keeps and gives back.
use llmengine.Base.{
  Bool-cases, List, [], arith, count, false, get_or, get_or-set_ne, get_or-set_self, if◌then◌else◌,
  inl, inr, length, length-set, ltb, pos_part, refl, set, subst, sym, ℕ, ℤ, ◌+◌, ◌<◌, ◌==◌, ◌∙◌,
  ◌∷◌, ◌≡◌, ◌≢◌,
}
use llmengine.Cache.Paged.{PagedKvCache, no_sequence, seq_at, free_block_count, no_such_sequence}
use llmengine.Cache.Paged.Blocks.{free_block, free_each, free_sequence, has_sequence}
use llmengine.Cache.Paged.Counts.{total, total-set}
use llmengine.Cache.Paged.Invariant.{Inv, get_or-set-if, seq_set}

-- The state of the loop: the blocks still to be freed are in use, and each other block is free, or
-- in use by the other sequences.
record Loop {F : Type 0} (c : PagedKvCache F) (others : ℕ → ℕ) (bs : List ℕ) : Type 0 where
  owned :
      (b : ℕ)
      → count b c.free_blocks + others b + count b bs ≡ (if ltb b c.max_blocks then 1 else 0)
  used : (b : ℕ) → get_or c.block_used b false ≡ ltb 0 (others b + count b bs)
  marks : length c.block_used ≡ c.max_blocks

module _ {F : Type 0} where
  free_block-Loop :
      (c : PagedKvCache F) (others : ℕ → ℕ) (b : ℕ) (bs : List ℕ)
      → Loop c others (b ∷ bs)
      → (free_block c b
          ≡ record c { block_used = set c.block_used b false; free_blocks = b ∷ c.free_blocks })
        × Loop
            (record c { block_used = set c.block_used b false; free_blocks = b ∷ c.free_blocks })
            others
            bs
  unfolding free_block
  free_block-Loop c others b bs l =
      let lt : b < c.max_blocks = ground (arith, l.owned b) in
      let in_range : b < length c.block_used = rw l.marks lt in
      (
        ground (arith, l.owned b, l.used b),
        record {
          owned = λ a. ground (arith, l.owned a);
          used = λ a.
              rw (get_or-set-if c.block_used b a false in_range)
                (ground (arith, l.used a, l.owned a));
          marks = length-set c.block_used b false ∙ l.marks;
        },
      )

  -- What the loop over `bs` makes of `c`.
  record Freed (c : PagedKvCache F) (others : ℕ → ℕ) (bs : List ℕ) (r : PagedKvCache F)
      : Type 0 where
    loop : Loop r others []
    given_back : length r.free_blocks ≡ length c.free_blocks + length bs
    sequences : r.sequences ≡ c.sequences
    block_size : r.block_size ≡ c.block_size
    max_blocks : r.max_blocks ≡ c.max_blocks

  free_each-Freed :
      (c : PagedKvCache F) (others : ℕ → ℕ) (bs : List ℕ)
      → Loop c others bs
      → Freed c others bs (free_each c bs)
  unfolding free_each
  free_each-Freed c others [] l = record {
    loop = l;
    given_back = omega arith;
    sequences = refl;
    block_size = refl;
    max_blocks = refl;
  }
  free_each-Freed c others (b ∷ bs) l =
      let step = free_block-Loop c others b bs l in
      let rest =
        free_each-Freed
          (record c { block_used = set c.block_used b false; free_blocks = b ∷ c.free_blocks })
          others bs step.1 in
      subst (λ r. Freed c others (b ∷ bs) (free_each r bs)) (sym step.0)
        (record {
          loop = rest.loop;
          given_back = omega (arith, rest.given_back);
          sequences = rest.sequences;
          block_size = rest.block_size;
          max_blocks = rest.max_blocks;
        })

  -- At the start of the loop the blocks of sequence `i` are those to be freed.
  Inv-Loop :
      (c : PagedKvCache F) (i : ℕ)
      → i < length c.sequences
      → Inv c
      → Loop c (λ b. total b (set c.sequences i no_sequence)) (seq_at c i).blocks
  Inv-Loop c i h v = record {
    owned = λ b. omega (arith, v.owned b, total-set b c.sequences i no_sequence h);
    used = λ b. ground (arith, v.used b, total-set b c.sequences i no_sequence h);
    marks = v.marks;
  }

  Freed-Inv :
      (c r : PagedKvCache F) (i : ℕ)
      → i < length c.sequences
      → Inv c
      → Freed c (λ b. total b (set c.sequences i no_sequence)) (seq_at c i).blocks r
      → Inv (record r { sequences = set r.sequences i no_sequence })
  Freed-Inv c r i h v f = rw f.sequences (record {
    owned = λ b. omega (arith, f.loop.owned b);
    used = λ b. ground (arith, f.loop.used b);
    marks = f.loop.marks;
    fits = λ j. rw (seq_set c.sequences i j no_sequence h) (elim (Bool-cases (i == j)) [
      | inl e ↦ rw e (λ range. omega arith)
      | inr e ↦ rw (e, f.block_size) (v.fits j)
    ]);
  })

  pub free_sequence-Inv : (id : ℤ) (c : PagedKvCache F) → Inv c → Inv (free_sequence id c).1
  unfolding free_sequence
  free_sequence-Inv id c v = elim (Bool-cases (no_such_sequence c id)) [
    | inl e ↦ rw e v
    | inr e ↦
        let h : pos_part id < length c.sequences = ground arith in
        rw e
          (Freed-Inv c _ (pos_part id) h v (free_each-Freed c _ _ (Inv-Loop c (pos_part id) h v)))
  ]

  -- `free_sequence` gives every block of the sequence back to the pool and empties its table.
  pub free_sequence_returns :
      (id : ℤ) (c : PagedKvCache F)
      → Inv c
      → (free_block_count (free_sequence id c).1
          ≡ free_block_count c
            + (if no_such_sequence c id then 0 else length (seq_at c (pos_part id)).blocks))
        × (has_sequence id (free_sequence id c).1 ≡ false)
  unfolding free_sequence has_sequence
  free_sequence_returns id c v = elim (Bool-cases (no_such_sequence c id)) [
    | inl e ↦ rw e (omega arith, rw e)
    | inr e ↦
        let i = pos_part id in
        let h : i < length c.sequences = ground arith in
        let f = free_each-Freed c _ _ (Inv-Loop c i h v) in
        rw e (
          f.given_back,
          rw f.sequences (ground (arith, get_or-set_self c.sequences i no_sequence no_sequence h)),
        )
  ]

  -- `free_sequence` leaves the other sequences alone.
  pub free_sequence_keeps :
      (id : ℤ) (j : ℕ) (c : PagedKvCache F)
      → Inv c
      → j ≢ pos_part id
      → seq_at (free_sequence id c).1 j ≡ seq_at c j
  unfolding free_sequence
  free_sequence_keeps id j c v n = elim (Bool-cases (no_such_sequence c id)) [
    | inl e ↦ rw e refl
    | inr e ↦
        let i = pos_part id in
        let h : i < length c.sequences = ground arith in
        let f = free_each-Freed c _ _ (Inv-Loop c i h v) in
        rw (e, f.sequences) (get_or-set_ne c.sequences i j no_sequence no_sequence (λ q. n (sym q)))
  ]
