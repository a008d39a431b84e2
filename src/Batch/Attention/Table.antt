-- ===== src/Batch/Attention/Table.antt =====
-- The block table of a batch, as `build_batch` of src/runtime/cache/paged_attention_scheduler.cpp
-- lays it out for the attention kernel.
use llmengine.Base.{
  List, [], ap, arith, ceil-le, ceil_pos, false, get_elem?, get_or, inl, inr, is_empty, leb, length,
  le→leb-false, ltb_ℤ, map, max, pos, refl, some, subst, sym, ℕ, ◌*◌, ◌+◌, ◌<◌, ◌^◌, ◌∙◌, ◌∷◌, ◌≡◌,
  ◌≤◌, ◌⊎◌,
}
use llmengine.Core.Status.{ok}
use llmengine.Cache.Paged.{PagedKvCache, seq_at}
use llmengine.Cache.Paged.Blocks.{sequence_length, block_table}
use llmengine.Cache.Paged.Invariant.{Inv}
use llmengine.Batch.Attention.{
  Batch, Attention, blocks_for_length, measure, measure_all, table_rows, finish_batch, build_batch,
}
use llmengine.Batch.Attention.Rows.{AllCovered, IsWidest, entry, rows_entry}

-- A list of sequences each of which has tokens, as many as `int` holds rounded up to a block.
abbrev pub AllPresent : {F : Type 0} → PagedKvCache F → List ℕ → Type 0
AllPresent c [] = Unit {0}
AllPresent c (i ∷ is) =
    ((0 < sequence_length (pos i) c) × (sequence_length (pos i) c + c.block_size ≤ 2 ^ 31))
    × AllPresent c is

module _ {F : Type 0} (c : PagedKvCache F) (inv : Inv c) (size : 0 < c.block_size) where
  -- A sequence with tokens is measured: its table covers its length.
  measure_ok :
      (i : ℕ)
      → 0 < sequence_length (pos i) c
      → sequence_length (pos i) c + c.block_size ≤ 2 ^ 31
      → (n : ℕ) × (measure c i ≡ ok (n, blocks_for_length n c.block_size))
        × (0 < blocks_for_length n c.block_size)
        × (n ≡ sequence_length (pos i) c)
        × (blocks_for_length n c.block_size ≤ length (seq_at c i).blocks)
  unfolding measure sequence_length block_table
  measure_ok i h range =
      let n = (seq_at c i).length in
      let known : leb (length c.sequences) i ≡ false = ground arith in
      let tokens : 0 < n = ground arith in
      let covers = ceil-le n c.block_size _ size (inv.fits i (ground arith)) in
      (n, ground arith, ceil_pos n c.block_size size tokens, ground arith, covers)

  measure_all_ok :
      (ids : List ℕ) (widest : ℕ)
      → AllPresent c ids
      → (lengths : List ℕ) × (w : ℕ) × (measure_all c ids widest ≡ ok (lengths, w))
        × (lengths ≡ map (λ i. sequence_length (pos i) c) ids)
        × (widest ≤ w)
        × AllCovered c w ids
        × ((w ≡ widest) ⊎ IsWidest c w ids)
  unfolding measure_all
  measure_all_ok [] widest p = ([], widest, refl, refl, omega arith, tt, inl refl)
  measure_all_ok (i ∷ rest) widest p =
      let (n, m, positive, same, covers) = measure_ok i p.0.0 p.0.1 in
      let need = blocks_for_length n c.block_size in
      let (lengths, w, rec, lens, wide, covered, tight) =
        measure_all_ok rest (max widest need) p.1 in
      (
        n ∷ lengths,
        w,
        rw (m, rec),
        ground (arith, same, lens),
        omega arith,
        (
          (
            p.0.0,
            subst (λ m. blocks_for_length m c.block_size ≤ length (seq_at c i).blocks) same covers,
            subst (λ m. blocks_for_length m c.block_size ≤ w) same (below widest need w wide),
          ),
          covered,
        ),
        elim tight [
          | inr (j, there, e) ↦ inr (j, ground (arith, there), e)
          | inl e ↦ elim (max-cases widest need) [
            | inl a ↦ inl (e ∙ a)
            | inr a ↦ inr (i, ground arith, e ∙ a ∙ ap (λ k. blocks_for_length k c.block_size) same)
          ]
        ],
      )
    where
      below : (a b w : ℕ) → max a b ≤ w → b ≤ w
      below a b w h = omega (arith, h)

      max-cases : (a b : ℕ) → (max a b ≡ a) ⊎ (max a b ≡ b)
      max-cases a b = ground arith

  -- When every active sequence has tokens, as many as `int` holds rounded up to a block, in a cache
  -- with its invariant, and there are active sequences within the limit, `build_batch` succeeds; the
  -- batch has the lengths of the sequences, the width of its table is positive and the number of blocks
  -- that some sequence needs, and entry `j` of the row of a sequence is the block that holds its tokens
  -- from `j * block_size` on, or -1 where it has no such tokens.
  pub build_batch_total :
      (s : Attention)
      → AllPresent c s.active_sequence_ids
      → is_empty s.active_sequence_ids ≡ false
      → ltb_ℤ s.max_batch_size (pos (length s.active_sequence_ids)) ≡ false
      → (b : Batch) × (build_batch c s ≡ ok b)
        × (b.sequence_ids ≡ s.active_sequence_ids)
        × (b.sequence_lengths ≡ map (λ i. sequence_length (pos i) c) s.active_sequence_ids)
        × (0 < b.max_blocks_per_sequence)
        × AllCovered c b.max_blocks_per_sequence s.active_sequence_ids
        × IsWidest c b.max_blocks_per_sequence s.active_sequence_ids
        × ((k i j : ℕ)
            → get_elem? s.active_sequence_ids k ≡ some i
            → j < b.max_blocks_per_sequence
            → get_or b.block_tables (k * b.max_blocks_per_sequence + j) (pos 0) ≡ entry c i j)
  unfolding build_batch finish_batch
  build_batch_total s p nonempty within =
      let ids = s.active_sequence_ids in
      let (lengths, w, m, lens, _, covered, tight) = measure_all_ok ids 0 p in
      let positive : 0 < w = some_block ids w covered nonempty in
      (
        record {
          sequence_ids = ids;
          sequence_lengths = lengths;
          block_tables = table_rows c w ids lengths;
          batch_size = length ids;
          max_blocks_per_sequence = w;
          block_size = c.block_size;
          num_kv_heads = c.num_kv_heads;
          head_dim = c.head_dim;
        },
        rw (nonempty, within, m, le→leb-false w 0 positive),
        refl,
        lens,
        positive,
        covered,
        widest w ids positive tight,
        λ k i j e h.
            subst (λ ls. get_or (table_rows c w ids ls) (k * w + j) (pos 0) ≡ entry c i j)
              (sym lens) (rows_entry c size ids w k i j covered e h),
      )
    where
      some_block : (ids : List ℕ) (w : ℕ) → AllCovered c w ids → is_empty ids ≡ false → 0 < w
      some_block [] w cov e = absurd (cc)
      some_block (i ∷ ids) w cov e =
          omega (arith, cov.0.2, ceil_pos (sequence_length (pos i) c) c.block_size size cov.0.0)

      widest : (w : ℕ) (ids : List ℕ) → 0 < w → (w ≡ 0) ⊎ IsWidest c w ids → IsWidest c w ids
      widest w ids h (inl e) = absurd (omega (arith, h, e))
      widest w ids h (inr t) = t
