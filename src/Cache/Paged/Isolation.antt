-- ===== src/Cache/Paged/Isolation.antt =====
-- A write of one token in src/runtime/cache/paged_kv_cache.cpp changes the stored keys and values of
-- no other token.
use native.Mathlib.Nat.{mul-le-mul, le_refl}
use llmengine.Base.{
  Bool, Bool-cases, List, [], ap, arith, dec_lt, drop, false, get_or, get_or-set_ne,
  get_or-set_self, inl, inr, length, length-set, length-take, pos, pos_part, refl, set, suc, sym,
  take, true, zero, ℕ, ℕ_discrete, ℤ, ◌%◌, ◌*◌, ◌+◌, ◌<◌, ◌∙◌, ◌∷◌, ◌≡◌, ◌≢◌, ◌≤◌, ◌⊎◌,
}
use llmengine.Core.Status.{Result, ok, err, Result-cases}
use llmengine.Cache.Paged.{Layer, PagedKvCache, kv_hidden}
use llmengine.Cache.Paged.Blocks.{physical_block_for_position}
use llmengine.Cache.Paged.Tokens.{
  Ptr, row_index, no_such_layer, mutable_token_ptr, write_at, no_layer, storage, with_storage,
  memcpy, load, row, write_token,
}
use llmengine.Cache.Paged.Invariant.{Inv}
use llmengine.Cache.Paged.Addresses.{
  Addressable, row_index_plain, row_index_injective, physical_block-lt,
}

pub length-take_le : {A : Type 0} (n : ℕ) (xs : List A) → length (take n xs) ≤ n
length-take_le n xs = omega (arith, length-take n xs)

-- Multiples of w that differ are at least w apart.
apart : (m n w i : ℕ) → i < w → m ≢ n → (n * w + i < m * w) ⊎ (m * w + w ≤ n * w + i)
apart m n w i h ne = elim (dec_lt n m) [
  | yes lt ↦
      let lt' : n + 1 ≤ m = omega (arith, lt) in
      let le : (n + 1) * w ≤ m * w = mul-le-mul lt' (le_refl w) in inl (omega (arith, le))
  | no ge ↦
      let above : m + 1 ≤ n = ne_above m n ne ge in
      let le : (m + 1) * w ≤ n * w = mul-le-mul above (le_refl w) in inr (omega (arith, le))
]
  where
    ne_above : (m n : ℕ) → m ≢ n → (n < m → ⊥) → m + 1 ≤ n
    ne_above m n ne ge = omega arith

module _ {F : Type 0} where
  write_at_outside :
      (xs src : List F) (off j : ℕ) (d : F)
      → (j < off) ⊎ (off + length src ≤ j)
      → get_or (write_at xs off src) j d ≡ get_or xs j d
  unfolding write_at
  write_at_outside [] src off j d o = refl
  write_at_outside (x ∷ xs) [] zero j d o = refl
  write_at_outside (x ∷ xs) (s ∷ src) zero zero d o = absurd (omega arith)
  write_at_outside (x ∷ xs) (s ∷ src) zero (suc j) d o =
      write_at_outside xs src zero j d (inr (omega arith))
  write_at_outside (x ∷ xs) src (suc off) zero d o = refl
  write_at_outside (x ∷ xs) src (suc off) (suc j) d (inl h) =
      write_at_outside xs src off j d (inl (omega (arith, h)))
  write_at_outside (x ∷ xs) src (suc off) (suc j) d (inr h) =
      write_at_outside xs src off j d (inr (omega (arith, h)))

  pub storage-with_storage :
      (a b : Bool) (l : Layer F) (xs : List F) (j : ℕ) (d : F)
      → get_or xs j d ≡ get_or (storage a l) j d
      → get_or (storage b (with_storage a xs l)) j d ≡ get_or (storage b l) j d
  storage-with_storage true true l xs j d h = h
  storage-with_storage true false l xs j d h = refl
  storage-with_storage false true l xs j d h = refl
  storage-with_storage false false l xs j d h = h

  -- What lies outside the copied range of a `memcpy` stays, in every vector of every layer.
  pub memcpy_outside :
      (p : Ptr) (src : List F) (c : PagedKvCache F) (key : Bool) (l j : ℕ) (d : F)
      → p.layer < length c.layers
      → (j < p.index) ⊎ (p.index + length src ≤ j)
      → get_or (storage key (get_or (memcpy p src c).layers l no_layer)) j d
        ≡ get_or (storage key (get_or c.layers l no_layer)) j d
  unfolding memcpy
  memcpy_outside p src c key l j d h o = elim (ℕ_discrete p.layer l) [
    | no n ↦
        ap (λ (x : Layer F). get_or (storage key x) j d)
          (get_or-set_ne c.layers p.layer l written no_layer n)
    | yes e ↦
        ap (λ (m : ℕ). get_or (storage key (get_or (set c.layers p.layer written) m no_layer)) j d)
          (sym e)
        ∙ ap (λ (x : Layer F). get_or (storage key x) j d)
            (get_or-set_self c.layers p.layer written no_layer h)
        ∙ storage-with_storage p.key key old (write_at (storage p.key old) p.index src) j d
            (write_at_outside (storage p.key old) src p.index j d o)
        ∙ ap (λ (m : ℕ). get_or (storage key (get_or c.layers m no_layer)) j d) e
  ]
    where
      old : Layer F
      old = get_or c.layers p.layer no_layer

      written : Layer F
      written = with_storage p.key (write_at (storage p.key old) p.index src) old

  pub row-slot :
      (c : PagedKvCache F) (id p : ℤ) (b : ℕ)
      → Inv c
      → Addressable c
      → 0 < c.block_size
      → physical_block_for_position id p c ≡ ok b
      → row_index c b (pos_part p) ≡ (b * c.block_size + pos_part p % c.block_size) * kv_hidden c
  row-slot c id p b v small size e =
      (row_index_plain c b (pos_part p) small size (physical_block-lt c id p v e)).0
      ∙ factor b (pos_part p % c.block_size) c.block_size (kv_hidden c)
    where
      factor : (b o d w : ℕ) → b * (d * w) + o * w ≡ (b * d + o) * w
      factor b o d w = grind arith

  pub length-memcpy :
      (p : Ptr) (src : List F) (c : PagedKvCache F)
      → length (memcpy p src c).layers ≡ length c.layers
  unfolding memcpy
  length-memcpy p src c = length-set c.layers p.layer _

  -- The rows of two tokens that are not one token do not overlap.
  pub rows_apart :
      (c : PagedKvCache F) (id id' p p' : ℤ) (b b' i : ℕ)
      → Inv c
      → Addressable c
      → 0 < c.block_size
      → i < kv_hidden c
      → physical_block_for_position id p c ≡ ok b
      → physical_block_for_position id' p' c ≡ ok b'
      → (pos_part id ≡ pos_part id' → pos_part p ≡ pos_part p' → ⊥)
      → (row_index c b' (pos_part p') + i < row_index c b (pos_part p))
        ⊎ (row_index c b (pos_part p) + kv_hidden c ≤ row_index c b' (pos_part p') + i)
  rows_apart c id id' p p' b b' i v small size h e e' other =
      let w = kv_hidden c in
      let row = row-slot c id p b v small size e in
      let row' = row-slot c id' p' b' v small size e' in
      let slot = b * c.block_size + pos_part p % c.block_size in
      let slot' = b' * c.block_size + pos_part p' % c.block_size in
      let differ : slot ≢ slot' = λ q.
        let same =
          row_index_injective c id id' p p' v small size (omega (arith, h)) e e'
            (row ∙ ap (λ m. m * w) q ∙ sym row') in
        other same.0 same.1 in
      rw (row, row') (apart slot slot' w i h differ)

  -- A copy of at most one row.
  pub row_copy :
      (c c' : PagedKvCache F) (key key' : Bool) (n l t x y i : ℕ) (src : List F) (d : F)
      → n < length c'.layers
      → (y + i < x) ⊎ (x + kv_hidden c ≤ y + i)
      → load d
          (record { key = key'; layer = l; index = y })
          i
          (memcpy (record { key = key; layer = n; index = x }) (row (kv_hidden c) t src) c')
        ≡ load d (record { key = key'; layer = l; index = y }) i c'
  unfolding load
  row_copy c c' key key' n l t x y i src d h o =
      memcpy_outside (record { key = key; layer = n; index = x }) (row (kv_hidden c) t src) c' key'
        l (y + i) d h
        (shorter (length (row (kv_hidden c) t src))
          (length-take_le (kv_hidden c) (drop (t * kv_hidden c) src)) o)
    where
      shorter :
          (m : ℕ)
          → m ≤ kv_hidden c
          → (y + i < x) ⊎ (x + kv_hidden c ≤ y + i)
          → (y + i < x) ⊎ (x + m ≤ y + i)
      shorter m le (inl a) = inl a
      shorter m le (inr b) = inr (omega (arith, le, b))

  -- What a write of the token at `p`, in block `b`, leaves.
  abbrev pub written_token : ℤ → ℕ → ℕ → ℕ → List F → List F → PagedKvCache F → PagedKvCache F
  written_token layer b p t k v c =
      let at : Bool → Ptr =
        λ key. record { key = key; layer = pos_part layer; index = row_index c b p } in
      memcpy (at false) (row (kv_hidden c) t v) (memcpy (at true) (row (kv_hidden c) t k) c)

  pub written_by :
      (id layer : ℤ) (p t : ℕ) (k v : List F) (c c' : PagedKvCache F)
      → write_token id layer p t k v c ≡ ok c'
      → (b : ℕ) × (physical_block_for_position id (pos p) c ≡ ok b)
        × (pos_part layer < length c.layers)
        × (written_token layer b p t k v c ≡ c')
  unfolding write_token mutable_token_ptr
  written_by id layer p t k v c c' = elim (Bool-cases (no_such_layer layer c)) [
    | inl out ↦ rw (out, write_token) (λ w. absurd (cc))
    | inr inside ↦ elim (Result-cases (physical_block_for_position id (pos p) c)) [
      | inr (x, f) ↦ rw (inside, f, write_token) (λ w. absurd (cc))
      | inl (b, f) ↦
          rw (inside, f, write_token)
            (λ w. (
              b,
              refl,
              ground arith,
              ap (λ (r : Result (PagedKvCache F)). elim r [ ok a ↦ a | err x ↦ c ]) w,
            ))
    ]
  ]

  -- In a cache with its invariant whose pool does not leave `size_t`, a write of one token that succeeds leaves every stored key and
  -- value of every other token as it was, in every layer.
  pub write_token-keeps :
      (id id' layer p' : ℤ) (p t i l : ℕ) (k v : List F) (c c' : PagedKvCache F) (key : Bool)
      (d : F) {b' : ℕ}
      → Inv c
      → Addressable c
      → 0 < c.block_size
      → write_token id layer p t k v c ≡ ok c'
      → physical_block_for_position id' p' c ≡ ok b'
      → (pos_part id ≡ pos_part id' → p ≡ pos_part p' → ⊥)
      → i < kv_hidden c
      → load d (record { key = key; layer = l; index = row_index c b' (pos_part p') }) i c'
        ≡ load d (record { key = key; layer = l; index = row_index c b' (pos_part p') }) i c
  write_token-keeps id id' layer p' p t i l k v c c' key d {b'} inv small size w e' other h =
      let (b, e, there, same) = written_by id layer p t k v c c' w in
      let x = row_index c b p in
      let y = row_index c b' (pos_part p') in
      let far = rows_apart c id id' (pos p) p' b b' i inv small size h e e' other in
      let first =
        memcpy (record { key = true; layer = pos_part layer; index = x }) (row (kv_hidden c) t k)
          c in
      let kept : length first.layers ≡ length c.layers = length-memcpy _ _ c in
      rw⁻¹ same (
        row_copy c first false key (pos_part layer) l t x y i v d (omega (arith, there, kept)) far
        ∙ row_copy c c true key (pos_part layer) l t x y i k d there far)
