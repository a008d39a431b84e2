-- ===== src/Cache/Paged/Reserve.antt =====
-- What `ensure_sequence`, `reserve_sequence` and `set_sequence_length` of
-- src/runtime/cache/paged_kv_cache.cpp keep and give.
use llmengine.Base.{
  Bool-cases, arith, get_or-resize, if◌then◌else◌, inl, inr, is_neg, le-ceil-mul, leb, length,
  length-resize, ltb, pos_part, resize, suc, zero, ℕ, ℤ, ◌*◌, ◌+◌, ◌-◌, ◌<◌, ◌==◌, ◌^◌, ◌≡◌, ◌≤◌,
}
use llmengine.Core.Status.{make_ok, Status-cases}
use llmengine.Cache.Paged.{
  Sequence, PagedKvCache, ceil_div_int, no_sequence, seq_at, free_block_count,
}
use llmengine.Cache.Paged.Blocks.{
  ensure_sequence, reserve_blocks, reserve_sequence, with_length, set_sequence_length,
}
use llmengine.Cache.Paged.Counts.{total, total-set, total-resize}
use llmengine.Cache.Paged.Taking.{take_blocks-Inv, take_blocks_move}
use llmengine.Cache.Paged.Invariant.{Inv, seq_set}

-- The blocks asked for hold the tokens asked for.
ceil_div_int-room :
    (total size blocks : ℕ)
    → 0 < size
    → total + size ≤ 2 ^ 31
    → (if total == 0 then 0 else ceil_div_int total size) ≤ blocks
    → total ≤ blocks * size
unfolding ceil_div_int
ceil_div_int-room zero size blocks h range le = omega arith
ceil_div_int-room (suc n) size blocks h range le = le-ceil-mul (suc n) size blocks h (ground arith)

module _ {F : Type 0} where
  grown-Inv :
      (i : ℕ) (c : PagedKvCache F)
      → length c.sequences ≤ i
      → Inv c
      → Inv (record c { sequences = resize (suc i) no_sequence c.sequences })
  grown-Inv i c h v = record {
    owned = λ b. rw (total-resize b (suc i) c.sequences (omega arith)) (v.owned b);
    used = λ b. rw (total-resize b (suc i) c.sequences (omega arith)) (v.used b);
    marks = v.marks;
    fits = λ j. rw (get_or-resize (suc i) j no_sequence c.sequences (omega arith)) (v.fits j);
  }

  pub ensure_sequence-Inv : (id : ℤ) (c : PagedKvCache F) → Inv c → Inv (ensure_sequence id c).1
  unfolding ensure_sequence
  ensure_sequence-Inv id c v =
      let grow = λ (h : length c.sequences ≤ pos_part id). grown-Inv (pos_part id) c h v in
      ground (arith, grow)

  reserve_blocks-Inv :
      (i total : ℕ) (c : PagedKvCache F)
      → i < length c.sequences
      → Inv c
      → Inv (reserve_blocks i total c).1
  unfolding reserve_blocks
  reserve_blocks-Inv i total c h v = ground (
    arith,
    take_blocks-Inv
        ((if total == 0 then 0 else ceil_div_int total c.block_size) - length (seq_at c i).blocks) i
        c h v,
  )

  -- After a success the sequence has an entry.
  pub ensure_sequence_ok :
      (id : ℤ) (c : PagedKvCache F)
      → (ensure_sequence id c).0 ≡ make_ok
      → pos_part id < length (ensure_sequence id c).1.sequences
  unfolding ensure_sequence
  ensure_sequence_ok id c h =
      ground (arith, length-resize (suc (pos_part id)) no_sequence c.sequences)

  pub set_length-Inv :
      (i n : ℕ) (c : PagedKvCache F)
      → i < length c.sequences
      → (n + c.block_size ≤ 2 ^ 31 → n ≤ length (seq_at c i).blocks * c.block_size)
      → Inv c
      → Inv (with_length i n c)
  set_length-Inv i n c h fit v = record {
    owned = λ b. omega (arith, v.owned b, total-set b c.sequences i s h);
    used = λ b. ground (arith, v.used b, total-set b c.sequences i s h);
    marks = v.marks;
    fits = λ j.
        rw (seq_set c.sequences i j s h)
          (elim (Bool-cases (i == j)) [ inl e ↦ rw e fit | inr e ↦ rw e (v.fits j) ]);
  }
    where
      s : Sequence
      s = record (seq_at c i) { length = n }

  -- What a successful reservation for `total` tokens of sequence `i` leaves.
  pub record Claimed (i total : ℕ) (c : PagedKvCache F) : Type 0 where
    pub inv : Inv c
    pub present : i < length c.sequences
    pub room : total + c.block_size ≤ 2 ^ 31 → total ≤ length (seq_at c i).blocks * c.block_size

  pub reserve_blocks-Claimed :
      (i total : ℕ) (c : PagedKvCache F)
      → 0 < c.block_size
      → i < length c.sequences
      → Inv c
      → (reserve_blocks i total c).0 ≡ make_ok
      → Claimed i total (reserve_blocks i total c).1
  unfolding reserve_blocks
  reserve_blocks-Claimed i total c size h v e = elim (Bool-cases (leb needed current)) [
    | inl le ↦ rw le (record { inv = v; present = h; room = enough current (ground arith) })
    | inr gt ↦ elim (Bool-cases (ltb (free_block_count c) (needed - current))) [
      | inl few ↦ absurd (ground (arith))
      | inr many ↦
          let m = take_blocks_move (needed - current) i c h (ground arith) in
          rw (gt, many)
            (record {
              inv = take_blocks-Inv (needed - current) i c h v;
              present = omega (arith, m.2);
              room = rw m.3 (enough _ (ground (arith, m.1)));
            })
    ]
  ]
    where
      needed : ℕ
      needed = if total == 0 then 0 else ceil_div_int total c.block_size

      current : ℕ
      current = length (seq_at c i).blocks

      enough :
          (blocks : ℕ)
          → needed ≤ blocks
          → total + c.block_size ≤ 2 ^ 31
          → total ≤ blocks * c.block_size
      enough blocks le range = ceil_div_int-room total c.block_size blocks size range le

  -- The cache is one on which `reserve_sequence` can succeed, and it keeps its shape.
  ensure_sequence-shape :
      (id : ℤ) (c : PagedKvCache F)
      → ((ensure_sequence id c).1.block_size ≡ c.block_size)
        × ((ensure_sequence id c).1.max_blocks ≡ c.max_blocks)
        × ((ensure_sequence id c).1.free_blocks ≡ c.free_blocks)
        × ((ensure_sequence id c).1.layers ≡ c.layers)
  unfolding ensure_sequence
  ensure_sequence-shape id c = ground arith

  pub ensure_sequence_initialized :
      (id : ℤ) (c : PagedKvCache F) → (ensure_sequence id c).0 ≡ make_ok → 0 < c.block_size
  unfolding ensure_sequence
  ensure_sequence_initialized id c h = ground arith

  pub reserve_sequence-Inv :
      (id n : ℤ) (c : PagedKvCache F) → Inv c → Inv (reserve_sequence id n c).1
  unfolding reserve_sequence
  reserve_sequence-Inv id n c v =
      let c' = (ensure_sequence id c).1 in
      let v' = ensure_sequence-Inv id c v in
      elim (Status-cases (ensure_sequence id c).0) [
        | inl e ↦
            rw (e, reserve_sequence)
              (elim (Bool-cases (is_neg n)) [
                | inl neg ↦ rw neg v'
                | inr nonneg ↦ rw nonneg (
                    reserve_blocks-Inv (pos_part id) (pos_part n) c' (ensure_sequence_ok id c e) v')
              ])
        | inr (x, e) ↦ rw (e, reserve_sequence) v'
      ]

  -- What a successful `reserve_sequence` leaves.
  pub reserve_sequence-Claimed :
      (id n : ℤ) (c : PagedKvCache F)
      → Inv c
      → (reserve_sequence id n c).0 ≡ make_ok
      → Claimed (pos_part id) (pos_part n) (reserve_sequence id n c).1
  unfolding reserve_sequence
  reserve_sequence-Claimed id n c v =
      let c' = (ensure_sequence id c).1 in
      let v' = ensure_sequence-Inv id c v in
      elim (Status-cases (ensure_sequence id c).0) [
        | inl e ↦
            rw (e, reserve_sequence)
              (elim (Bool-cases (is_neg n)) [
                | inl neg ↦ rw neg (λ h. absurd (cc))
                | inr nonneg ↦ rw nonneg (
                    reserve_blocks-Claimed (pos_part id) (pos_part n) c'
                      (rw (ensure_sequence-shape id c).0 (ensure_sequence_initialized id c e))
                      (ensure_sequence_ok id c e) v')
              ])
        | inr (x, e) ↦ rw (e, reserve_sequence) (λ h. absurd (cc))
      ]

  pub set_sequence_length-Inv :
      (id n : ℤ) (c : PagedKvCache F) → Inv c → Inv (set_sequence_length id n c).1
  unfolding set_sequence_length
  set_sequence_length-Inv id n c v =
      let c' = (reserve_sequence id n c).1 in
      elim (Bool-cases (is_neg n)) [
        | inl neg ↦ rw neg v
        | inr nonneg ↦ rw nonneg (elim (Status-cases (reserve_sequence id n c).0) [
          | inl e ↦
              let r = reserve_sequence-Claimed id n c v e in
              rw (e, set_sequence_length)
                (set_length-Inv (pos_part id) (pos_part n) c' r.present r.room r.inv)
          | inr (x, e) ↦ rw (e, set_sequence_length) (reserve_sequence-Inv id n c v)
        ])
      ]
