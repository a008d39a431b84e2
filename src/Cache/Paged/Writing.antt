-- ===== src/Cache/Paged/Writing.antt =====
-- `write_tokens` of src/runtime/cache/paged_kv_cache.cpp keeps the invariant of the allocator.
use llmengine.Base.{
  Bool-cases, List, Option, arith, inl, inr, is_neg, max, none, pos_part, refl, some, suc, zero, ℕ,
  ℤ, ◌+◌, ◌==◌, ◌^◌, ◌||◌, ◌∙◌, ◌≡◌, ◌≤◌,
}
use llmengine.Core.Status.{ok, Status-cases, Result-cases}
use llmengine.Cache.Paged.{PagedKvCache, int_sum}
use llmengine.Cache.Paged.Blocks.{reserve_sequence}
use llmengine.Cache.Paged.Tokens.{
  no_such_layer, mutable_token_ptr, memcpy, write_token, write_loop, write_rows, write_tokens,
}
use llmengine.Cache.Paged.Invariant.{Inv}
use llmengine.Cache.Paged.Reserve.{set_length-Inv, reserve_sequence-Inv, reserve_sequence-Claimed}

max_room :
    (a b d m : ℕ)
    → (a + d ≤ 2 ^ 31 → a ≤ m)
    → (b + d ≤ 2 ^ 31 → b ≤ m)
    → max a b + d ≤ 2 ^ 31
    → max a b ≤ m
max_room a b d m h k range = omega (arith, h (omega (arith, range)), k (omega (arith, range)))

module _ {F : Type 0} where
  -- `r` is `c` with other contents of the layers.
  pub record SameTables (c r : PagedKvCache F) : Type 0 where
    pub free_blocks : r.free_blocks ≡ c.free_blocks
    pub block_used : r.block_used ≡ c.block_used
    pub sequences : r.sequences ≡ c.sequences
    pub max_blocks : r.max_blocks ≡ c.max_blocks
    pub block_size : r.block_size ≡ c.block_size

  pub SameTables-refl : (c : PagedKvCache F) → SameTables c c
  SameTables-refl c = record {
    free_blocks = refl;
    block_used = refl;
    sequences = refl;
    max_blocks = refl;
    block_size = refl;
  }

  pub SameTables-trans : {a b c : PagedKvCache F} → SameTables a b → SameTables b c → SameTables a c
  SameTables-trans s t = record {
    free_blocks = t.free_blocks ∙ s.free_blocks;
    block_used = t.block_used ∙ s.block_used;
    sequences = t.sequences ∙ s.sequences;
    max_blocks = t.max_blocks ∙ s.max_blocks;
    block_size = t.block_size ∙ s.block_size;
  }

  pub SameTables-Inv : {c r : PagedKvCache F} → SameTables c r → Inv c → Inv r
  SameTables-Inv s v = record {
    owned = λ b. rw (s.free_blocks, s.sequences, s.max_blocks) (v.owned b);
    used = λ b. rw (s.block_used, s.sequences) (v.used b);
    marks = rw (s.block_used, s.max_blocks) v.marks;
    fits = λ i. rw (s.sequences, s.block_size) (v.fits i);
  }

  pub write_token-SameTables :
      (id layer : ℤ) (p t : ℕ) (k v : List F) (c r : PagedKvCache F)
      → write_token id layer p t k v c ≡ ok r
      → SameTables c r
  unfolding write_token mutable_token_ptr memcpy
  write_token-SameTables id layer p t k v c r e = record {
    free_blocks = ground arith;
    block_used = ground arith;
    sequences = ground arith;
    max_blocks = ground arith;
    block_size = ground arith;
  }

  write_loop-SameTables :
      (id layer : ℤ) (start : ℕ) (k v : List F) (n t : ℕ) (c : PagedKvCache F)
      → SameTables c (write_loop id layer start k v n t c).1
  unfolding write_loop
  write_loop-SameTables id layer start k v zero t c = SameTables-refl c
  write_loop-SameTables id layer start k v (suc n) t c =
      elim (Result-cases (write_token id layer (start + t) t k v c)) [
        | inl (c', e) ↦
            rw (e, write_loop)
              (SameTables-trans (write_token-SameTables id layer (start + t) t k v c c' e)
                (write_loop-SameTables id layer start k v n (suc t) c'))
        | inr (x, e) ↦ rw (e, write_loop) (SameTables-refl c)
      ]

  pub write_rows-Inv :
      (id layer : ℤ) (start : ℕ) (k v : List F) (n : ℕ) (c : PagedKvCache F)
      → Inv c
      → Inv (write_rows id layer start k v n c).1
  unfolding write_rows
  write_rows-Inv id layer start k v n c i =
      let total' = int_sum start n in
      let c' = (reserve_sequence id total' c).1 in
      let c'' = (write_loop id layer start k v n 0 c').1 in
      elim (Status-cases (reserve_sequence id total' c).0) [
        | inr (x, e) ↦ rw (e, write_rows) (reserve_sequence-Inv id total' c i)
        | inl e ↦
            let r = reserve_sequence-Claimed id total' c i e in
            let s = write_loop-SameTables id layer start k v n 0 c' in
            let i'' = SameTables-Inv s r.inv in
            rw (e, write_rows)
              (elim (Status-cases (write_loop id layer start k v n 0 c').0) [
                | inr (x, e') ↦ rw (e', write_rows) i''
                | inl e' ↦
                    rw (e', write_rows)
                      (set_length-Inv (pos_part id) _ c'' (rw s.sequences r.present)
                        (max_room _ _ _ _ (i''.fits (pos_part id))
                          (rw (s.sequences, s.block_size) r.room))
                        i'')
              ])
      ]

  pub write_tokens-Inv :
      (id layer start : ℤ) (k v : Option (List F)) (n : ℤ) (c : PagedKvCache F)
      → Inv c
      → Inv (write_tokens id layer start k v n c).1
  unfolding write_tokens
  write_tokens-Inv id layer start none v n c i = i
  write_tokens-Inv id layer start (some k) none n c i = i
  write_tokens-Inv id layer start (some k) (some v) n c i =
      let rows = write_rows-Inv id layer (pos_part start) k v (pos_part n) c i in
      elim (Bool-cases (is_neg start || is_neg n)) [
        | inl e ↦ rw e i
        | inr e ↦ rw e (elim (Bool-cases (no_such_layer layer c)) [
          | inl e' ↦ rw e' i
          | inr e' ↦
              rw e' (elim (Bool-cases (pos_part n == 0)) [ inl z ↦ rw z i | inr z ↦ rw z rows ])
        ])
      ]
