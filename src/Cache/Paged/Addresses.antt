-- ===== src/Cache/Paged/Addresses.antt =====
-- Where the rows of tokens lie: `physical_block_for_position` and the pointers of
-- src/runtime/cache/paged_kv_cache.cpp.
use llmengine.Base.{
  ap, arith, count, div-eq_mod-eq, div-lt_of_lt-mul, false, get_or, is_neg, length, pos_part, refl,
  subst, sym, ℕ, ℕ_discrete, ℤ, ◌%◌, ◌*◌, ◌+◌, ◌/◌, ◌<◌, ◌^◌, ◌∙◌, ◌≡◌, ◌≤◌,
}
use native.Mathlib.Nat.{mod-eq_of_lt, mod-lt, le_refl, mul-le-mul}
use llmengine.Core.Status.{ok}
use llmengine.Cache.Paged.{PagedKvCache, seq_at, kv_hidden, no_such_sequence}
use llmengine.Cache.Paged.Blocks.{sequence_length, physical_block_for_position}
use llmengine.Cache.Paged.Tokens.{row_index}
use llmengine.Cache.Paged.Counts.{total, count-get_or-le, count_two-le, count-get_elem, count_twice}
use llmengine.Cache.Paged.Invariant.{Inv}

-- The same quotient and remainder in two splits of one number.
split_unique : (a b r s d : ℕ) → r < d → s < d → a * d + r ≡ b * d + s → (a ≡ b) × (r ≡ s)
split_unique a b r s d hr hs e =
    let p : a ≡ b = grind arith in (p, omega (arith, ap (λ (t : ℕ). t * d) p))

mul-inj : (a b w : ℕ) → 0 < w → a * w ≡ b * w → a ≡ b
mul-inj a b w h e = grind arith

rows_fit : (b n o d w : ℕ) → b < n → o < d → b * (d * w) + o * w + w ≤ n * (d * w)
rows_fit b n o d w h k =
    let slots : b * d + o + 1 ≤ n * d = grind arith in omega (arith, mul-le-mul slots (le_refl w))

module _ {F : Type 0} where
  -- The indices of the pool's elements do not leave `size_t`.
  abbrev pub Addressable : PagedKvCache F → Type 0
  Addressable c = c.max_blocks * (c.block_size * kv_hidden c) < 2 ^ 64

  -- Within such a pool the index of a row is not reduced, and the row lies in the pool.
  pub row_index_plain :
      (c : PagedKvCache F) (b p : ℕ)
      → Addressable c
      → 0 < c.block_size
      → b < c.max_blocks
      → (row_index c b p ≡ b * (c.block_size * kv_hidden c) + p % c.block_size * kv_hidden c)
        × (row_index c b p + kv_hidden c ≤ c.max_blocks * (c.block_size * kv_hidden c))
  unfolding row_index
  row_index_plain c b p small size lt =
      let fit =
        rows_fit b c.max_blocks (p % c.block_size) c.block_size (kv_hidden c) lt (mod-lt _ size) in
      let plain = mod-eq_of_lt (below _ _ _ fit small) in (plain, rw plain fit)
    where
      below : (x w n : ℕ) → x + w ≤ n → n < 2 ^ 64 → x < 2 ^ 64
      below x w n h k = omega arith

  unfoldable pub block_of : PagedKvCache F → ℕ → ℕ → ℕ
  block_of c i token_pos = get_or (seq_at c i).blocks (token_pos / c.block_size) 0

  -- A position that `physical_block_for_position` accepts.
  block_found :
      (id : ℤ) (p : ℤ) (c : PagedKvCache F) (b : ℕ)
      → physical_block_for_position id p c ≡ ok b
      → (pos_part p / c.block_size < length (seq_at c (pos_part id)).blocks)
        × (b ≡ block_of c (pos_part id) (pos_part p))
  unfolding physical_block_for_position block_of
  block_found id p c b e = ground arith

  -- A block in a table is one of the pool.
  pub block_of-lt :
      (c : PagedKvCache F) (i q : ℕ)
      → Inv c
      → q < length (seq_at c i).blocks
      → get_or (seq_at c i).blocks q 0 < c.max_blocks
  block_of-lt c i q v h =
      let b = get_or (seq_at c i).blocks q 0 in
      ground
        (arith, v.owned b, count-get_elem (seq_at c i).blocks q h, count-get_or-le b c.sequences i)

  -- Two places of the block tables hold different blocks.
  tables_disjoint :
      (c : PagedKvCache F) (i j q r : ℕ)
      → Inv c
      → q < length (seq_at c i).blocks
      → r < length (seq_at c j).blocks
      → get_or (seq_at c i).blocks q 0 ≡ get_or (seq_at c j).blocks r 0
      → (i ≡ j) × (q ≡ r)
  tables_disjoint c i j q r v hq hr e =
      let b = get_or (seq_at c i).blocks q 0 in
      let once : total b c.sequences ≤ 1 = ground (arith, v.owned b) in
      let in_i = count-get_elem (seq_at c i).blocks q hq in
      let in_j : 1 ≤ count b (seq_at c j).blocks = rw e (count-get_elem (seq_at c j).blocks r hr) in
      elim (ℕ_discrete i j) [
        | no n ↦ absurd (omega (arith, count_two-le b c.sequences i j n))
        | yes p ↦ elim (ℕ_discrete q r) [
          | yes k ↦ (p, k)
          | no n ↦ absurd (
              omega (
                arith,
                count-get_or-le b c.sequences i,
                count_twice (seq_at c i).blocks q r b hq (rw p hr) n refl
                    (subst (λ s. get_or (seq_at c s).blocks r 0 ≡ b) (sym p) (sym e)),
              ))
        ]
      ]

  -- In a cache with its invariant whose pool does not leave `size_t`, no two tokens share a row: equal
  -- addresses, of tokens that have a physical block, come from one sequence and one position.
  pub row_index_injective :
      (c : PagedKvCache F) (id id' p p' : ℤ) {b b' : ℕ}
      → Inv c
      → Addressable c
      → 0 < c.block_size
      → 0 < kv_hidden c
      → physical_block_for_position id p c ≡ ok b
      → physical_block_for_position id' p' c ≡ ok b'
      → row_index c b (pos_part p) ≡ row_index c b' (pos_part p')
      → (pos_part id ≡ pos_part id') × (pos_part p ≡ pos_part p')
  unfolding block_of
  row_index_injective c id id' p p' {b} {b'} v small size width e e' same =
      let found = block_found id p c b e in
      let found' = block_found id' p' c b' e' in
      let plain =
        row_index_plain c b (pos_part p) small size
          (rw found.1 (block_of-lt c (pos_part id) _ v found.0)) in
      let plain' =
        row_index_plain c b' (pos_part p') small size
          (rw found'.1 (block_of-lt c (pos_part id') _ v found'.0)) in
      let slots : b * c.block_size + pos_part p % c.block_size
          ≡ b' * c.block_size + pos_part p' % c.block_size =
        mul-inj _ _ (kv_hidden c) width (omega (arith, same, plain.0, plain'.0)) in
      let split = split_unique b b' _ _ c.block_size (mod-lt _ size) (mod-lt _ size) slots in
      let place = tables_disjoint c _ _ _ _ v found.0 found'.0 (sym found.1 ∙ split.0 ∙ found'.1) in
      (place.0, div-eq_mod-eq _ _ c.block_size size place.1 split.1)

  -- The block of a position is one of the pool.
  pub physical_block-lt :
      (c : PagedKvCache F) (id p : ℤ) {b : ℕ}
      → Inv c
      → physical_block_for_position id p c ≡ ok b
      → b < c.max_blocks
  unfolding block_of
  physical_block-lt c id p {b} v e =
      let found = block_found id p c b e in rw found.1 (block_of-lt c (pos_part id) _ v found.0)

  -- In a cache with its invariant, a position below the length of a sequence has a physical block of
  -- the pool, if the length, rounded up to a block, does not leave `int`.
  pub physical_block_total :
      (id p : ℤ) (c : PagedKvCache F)
      → Inv c
      → 0 < c.block_size
      → is_neg p ≡ false
      → pos_part p < sequence_length id c
      → sequence_length id c + c.block_size ≤ 2 ^ 31
      → (b : ℕ) × (physical_block_for_position id p c ≡ ok b) × (b < c.max_blocks)
  unfolding physical_block_for_position sequence_length
  physical_block_total id p c v size nonneg lt range =
      let i = pos_part id in
      let q = pos_part p / c.block_size in
      let known : no_such_sequence c id ≡ false = ground arith in
      let shorter : pos_part p < (seq_at c i).length = ground arith in
      let inside : q < length (seq_at c i).blocks =
        div-lt_of_lt-mul _ _ c.block_size size (omega (arith, shorter, v.fits i (ground arith))) in
      (get_or (seq_at c i).blocks q 0, ground arith, block_of-lt c i q v inside)
