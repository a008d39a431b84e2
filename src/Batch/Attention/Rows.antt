-- ===== src/Batch/Attention/Rows.antt =====
-- The rows of the block table that `build_batch` of
-- src/runtime/cache/paged_attention_scheduler.cpp lays out.
use llmengine.Base.{
  Bool-cases, List, [], ap, arith, ceil-le, contains, get_elem?, get_or, get_or-append_left,
  get_or-replicate_lt, if◌then◌else◌, inl, inr, le-ceil-mul, length, length-append, length-map,
  length-replicate, length-take, ltb, map, negsuc, pos, refl, replicate, some, suc, sym, take, true,
  zero, ℕ, ℤ, ◌*◌, ◌++◌, ◌+◌, ◌-◌, ◌<◌, ◌∙◌, ◌∷◌, ◌≡◌, ◌≤◌,
}
use llmengine.Cache.Paged.{PagedKvCache, seq_at}
use llmengine.Cache.Paged.Blocks.{sequence_length, block_table}
use llmengine.Batch.Attention.{blocks_for_length, table_row, table_rows}

module _ {F : Type 0} (c : PagedKvCache F) where
  -- The blocks of a sequence are enough for its length, and the width of the table for its blocks.
  abbrev pub AllCovered : ℕ → List ℕ → Type 0
  AllCovered w [] = Unit {0}
  AllCovered w (i ∷ is) =
      ((0 < sequence_length (pos i) c)
        × (blocks_for_length (sequence_length (pos i) c) c.block_size ≤ length (seq_at c i).blocks)
        × (blocks_for_length (sequence_length (pos i) c) c.block_size ≤ w))
      × AllCovered w is

  -- Some sequence needs the whole width.
  abbrev pub IsWidest : ℕ → List ℕ → Type 0
  IsWidest w ids =
      (i : ℕ) × (contains i ids ≡ true)
      × (w ≡ blocks_for_length (sequence_length (pos i) c) c.block_size)

  -- The `j`-th entry of a row: the block that holds tokens, or the padding.
  abbrev pub entry : ℕ → ℕ → ℤ
  entry i j =
      if ltb (j * c.block_size) (sequence_length (pos i) c)
      then pos (get_or (seq_at c i).blocks j 0)
      else negsuc 0

module _ {F : Type 0} (c : PagedKvCache F) (size : 0 < c.block_size) where
  row_entry :
      (blocks : List ℕ) (needed width j : ℕ)
      → needed ≤ length blocks
      → needed ≤ width
      → j < width
      → get_or (map pos (take needed blocks) ++ replicate (width - needed) (negsuc 0)) j (pos 0)
        ≡ (if ltb j needed then pos (get_or blocks j 0) else negsuc 0)
  row_entry [] zero width j h k l = pad width j l
    where
      pad :
          (n j : ℕ)
          → j < n
          → get_or (replicate (n - 0) (negsuc 0)) j (pos 0)
            ≡ (if ltb j 0 then pos (get_or [] j 0) else negsuc 0)
      pad n j l = rw (get_or-replicate_lt (n - 0) j (negsuc 0) (pos 0) (omega arith)) (ground arith)
  row_entry [] (suc n) width j h k l = absurd (omega arith)
  row_entry (b ∷ bs) zero width j h k l =
      rw (get_or-replicate_lt (width - 0) j (negsuc 0) (pos 0) (omega arith)) (ground arith)
  row_entry (b ∷ bs) (suc n) zero j h k l = absurd (omega arith)
  row_entry (b ∷ bs) (suc n) (suc w) zero h k l = ground arith
  row_entry (b ∷ bs) (suc n) (suc w) (suc j) h k l =
      let ih = row_entry bs n w j (omega (arith, h)) (omega (arith, k)) (omega (arith, l)) in
      let width : suc w - suc n ≡ w - n = omega arith in
      rw width (ih ∙ same_test n j (pos (get_or bs j 0)) (negsuc 0))
    where
      same_test :
          (n j : ℕ) (x y : ℤ) → (if ltb j n then x else y) ≡ (if ltb (suc j) (suc n) then x else y)
      same_test n j x y = ground arith

  length-row :
      (blocks : List ℕ) (needed width : ℕ)
      → needed ≤ length blocks
      → needed ≤ width
      → length (map pos (take needed blocks) ++ replicate (width - needed) (negsuc 0)) ≡ width
  length-row blocks needed width h k = omega (
    arith,
    length-append (map pos (take needed blocks)) (replicate (width - needed) (negsuc 0)),
    length-map pos (take needed blocks),
    length-take needed blocks,
    length-replicate (width - needed) (negsuc 0),
  )

  known_table :
      (i : ℕ) → 0 < sequence_length (pos i) c → block_table (pos i) c ≡ some (seq_at c i).blocks
  unfolding block_table sequence_length
  known_table i h = ground (arith, h)

  -- A sequence with tokens has its row.
  row_of :
      (i width : ℕ)
      → 0 < sequence_length (pos i) c
      → table_row c i (blocks_for_length (sequence_length (pos i) c) c.block_size) width
        ≡ map pos
            (take (blocks_for_length (sequence_length (pos i) c) c.block_size) (seq_at c i).blocks)
          ++ replicate
              (width - blocks_for_length (sequence_length (pos i) c) c.block_size)
              (negsuc 0)
  unfolding table_row
  row_of i width h = rw (known_table i h, table_row) refl

  -- The blocks that hold tokens are those that are needed.
  needed_test : (n j : ℕ) → ltb j (blocks_for_length n c.block_size) ≡ ltb (j * c.block_size) n
  needed_test n j = elim (Bool-cases (ltb (j * c.block_size) n)) [
    | inl e ↦ elim (Bool-cases (ltb j (blocks_for_length n c.block_size))) [
      | inl f ↦ f ∙ sym e
      | inr f ↦ absurd (ground (arith, e, le-ceil-mul n c.block_size j size (ground (arith, f))))
    ]
    | inr e ↦ let le = ceil-le n c.block_size j size (ground (arith, e)) in ground (arith, le)
  ]

  get_or-append_right :
      (xs ys : List ℤ) (n : ℕ) (d : ℤ) → get_or (xs ++ ys) (length xs + n) d ≡ get_or ys n d
  get_or-append_right [] ys n d = ap (λ m. get_or ys m d) (plain n)
    where
      plain : (n : ℕ) → 0 + n ≡ n
      plain n = omega arith
  get_or-append_right (x ∷ xs) ys n d =
      ap (λ m. get_or (x ∷ xs ++ ys) m d) (shift (length xs) n) ∙ get_or-append_right xs ys n d
    where
      shift : (m n : ℕ) → suc m + n ≡ suc (m + n)
      shift m n = omega arith

  pub rows_entry :
      (ids : List ℕ) (width k i j : ℕ)
      → AllCovered c width ids
      → get_elem? ids k ≡ some i
      → j < width
      → get_or
          (table_rows c width ids (map (λ x. sequence_length (pos x) c) ids))
          (k * width + j)
          (pos 0)
        ≡ entry c i j
  unfolding table_rows
  rows_entry [] width k i j cov e h = absurd (cc)
  rows_entry (x ∷ ids) width zero i j cov e h =
      let n = sequence_length (pos x) c in
      let needed = blocks_for_length n c.block_size in
      let blocks = (seq_at c x).blocks in
      let rest = table_rows c width ids (map (λ x. sequence_length (pos x) c) ids) in
      let at : 0 * width + j ≡ j = omega arith in
      let same : x ≡ i = cc in
      rw (at, row_of x width cov.0.0)
        (get_or-append_left (map pos (take needed blocks) ++ replicate (width - needed) (negsuc 0))
            rest j (pos 0) (omega (arith, h, length-row blocks needed width cov.0.1 cov.0.2))
          ∙ row_entry blocks needed width j cov.0.1 cov.0.2 h
          ∙ ap (λ b. if b then pos (get_or blocks j 0) else negsuc 0) (needed_test n j)
          ∙ ap (λ y. entry c y j) same)
  rows_entry (x ∷ ids) width (suc k) i j cov e h =
      let n = sequence_length (pos x) c in
      let needed = blocks_for_length n c.block_size in
      let row =
        map pos (take needed (seq_at c x).blocks) ++ replicate (width - needed) (negsuc 0) in
      let rest = table_rows c width ids (map (λ x. sequence_length (pos x) c) ids) in
      let at : suc k * width + j ≡ length row + (k * width + j) =
        rw (length-row (seq_at c x).blocks needed width cov.0.1 cov.0.2) (next k width j) in
      rw (row_of x width cov.0.0) (
        ap (λ m. get_or (row ++ rest) m (pos 0)) at
        ∙ get_or-append_right row rest (k * width + j) (pos 0)
        ∙ rows_entry ids width k i j cov.1 e h)
    where
      next : (k w j : ℕ) → suc k * w + j ≡ w + (k * w + j)
      next k w j = grind arith
