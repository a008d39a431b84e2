-- ===== src/Cache/Paged/Invariant.antt =====
-- The invariant of the block allocator: every block of the pool is free or stands in one block
-- table, once, `block_used_` marks the blocks that stand in a table, and every sequence fits its
-- blocks.
use llmengine.Base.{
  Bool, Bool-cases, List, List-cases, [], ap, arith, count, count-append, false, get_or,
  if◌then◌else◌, inl, inr, length, length-append, length-set, ltb, refl, set, suc, true, zero, ℕ,
  ◌*◌, ◌++◌, ◌+◌, ◌<◌, ◌==◌, ◌^◌, ◌∙◌, ◌∷◌, ◌≡◌, ◌≤◌,
}
use llmengine.Cache.Paged.{Sequence, PagedKvCache, no_sequence, seq_at}
use llmengine.Cache.Paged.Blocks.{take_block}
use llmengine.Cache.Paged.Counts.{total, total-set}

pub record Inv {F : Type 0} (c : PagedKvCache F) : Type 0 where
  pub owned :
      (b : ℕ) → count b c.free_blocks + total b c.sequences ≡ (if ltb b c.max_blocks then 1 else 0)
  pub used : (b : ℕ) → get_or c.block_used b false ≡ ltb 0 (total b c.sequences)
  pub marks : length c.block_used ≡ c.max_blocks
  pub fits :
      (i : ℕ)
      → (seq_at c i).length + c.block_size ≤ 2 ^ 31
      → (seq_at c i).length ≤ length (seq_at c i).blocks * c.block_size

pub get_or-set-if :
    (xs : List Bool) (i j : ℕ) (v : Bool)
    → i < length xs
    → get_or (set xs i v) j false ≡ (if i == j then v else get_or xs j false)
get_or-set-if [] i j v h = absurd (omega arith)
get_or-set-if (x ∷ xs) zero zero v h = refl
get_or-set-if (x ∷ xs) zero (suc j) v h = ground arith
get_or-set-if (x ∷ xs) (suc i) zero v h = ground arith
get_or-set-if (x ∷ xs) (suc i) (suc j) v h = ground (arith, get_or-set-if xs i j v)

pub seq_set :
    (ss : List Sequence) (i j : ℕ) (s : Sequence)
    → i < length ss
    → get_or (set ss i s) j no_sequence ≡ (if i == j then s else get_or ss j no_sequence)
seq_set [] i j v h = absurd (omega arith)
seq_set (x ∷ xs) zero zero v h = refl
seq_set (x ∷ xs) zero (suc j) v h = ground arith
seq_set (x ∷ xs) (suc i) zero v h = ground arith
seq_set (x ∷ xs) (suc i) (suc j) v h = ground (arith, seq_set xs i j v)

-- A sequence that fits its blocks fits more blocks.
pub fits_more : (n k l m : ℕ) → n ≤ k * m → k ≤ l → n ≤ l * m
fits_more n k l m h le = grind arith

module _ {F : Type 0} where
  abbrev pub pushed : ℕ → ℕ → PagedKvCache F → Sequence
  pushed i b c = record (seq_at c i) { blocks = (seq_at c i).blocks ++ b ∷ [] }

  -- The table of sequence `i` gains one block at its end.
  pub total-push :
      (a i b : ℕ) (c : PagedKvCache F)
      → i < length c.sequences
      → total a (set c.sequences i (pushed i b c)) ≡ total a c.sequences + (if a == b then 1 else 0)
  total-push a i b c h = omega (
    arith,
    total-set a c.sequences i (pushed i b c) h,
    count-append a (seq_at c i).blocks (b ∷ []),
  )

  pub free_head-lt :
      (c : PagedKvCache F) (b : ℕ) (rest : List ℕ)
      → Inv c
      → c.free_blocks ≡ b ∷ rest
      → b < c.max_blocks
  free_head-lt c b rest v e = ground (arith, v.owned b, ap (count b) e)

  pushed-fits :
      (i b j : ℕ) (c : PagedKvCache F)
      → i < length c.sequences
      → Inv c
      → let s = get_or (set c.sequences i (pushed i b c)) j no_sequence in
        s.length + c.block_size ≤ 2 ^ 31 → s.length ≤ length s.blocks * c.block_size
  pushed-fits i b j c h v =
      rw (seq_set c.sequences i j (pushed i b c) h) (elim (Bool-cases (i == j)) [
        | inl e ↦ rw e (λ range.
            fits_more _ (length (seq_at c i).blocks) _ c.block_size (v.fits i range)
              (omega (arith, length-append (seq_at c i).blocks (b ∷ []))))
        | inr e ↦ rw e (v.fits j)
      ])

  pub take_block-Inv :
      (i : ℕ) (c : PagedKvCache F) → i < length c.sequences → Inv c → Inv (take_block i c)
  unfolding take_block
  take_block-Inv i c h v = elim (List-cases c.free_blocks) [
    | inl e ↦ rw (e, take_block) v
    | inr (b, rest, e) ↦
        let lt = free_head-lt c b rest v e in
        rw (e, take_block)
          (record {
            owned = λ a. ground (arith, v.owned a, ap (count a) e, total-push a i b c h);
            used = λ a. ground (
              arith,
              v.used a,
              v.marks,
              get_or-set-if c.block_used b a true,
              total-push a i b c h,
            );
            marks = length-set c.block_used b true ∙ v.marks;
            fits = λ j. pushed-fits i b j c h v;
          })
  ]
