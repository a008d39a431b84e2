-- ===== src/Cache/Paged/Ending.antt =====
-- The loop of `write_tokens` in src/runtime/cache/paged_kv_cache.cpp ends with a success and keeps the
-- tables.
use llmengine.Base.{List, pos, refl, suc, zero, ℕ, ◌+◌, ◌∙◌, ◌≡◌}
use llmengine.Core.Status.{make_ok}
use llmengine.Cache.Paged.{PagedKvCache}
use llmengine.Cache.Paged.Blocks.{}
use llmengine.Cache.Paged.Tokens.{write_loop}
use llmengine.Cache.Paged.Addresses.{block_of}
use llmengine.Cache.Paged.Isolation.{written_token}
use llmengine.Cache.Paged.Writing.{
  SameTables, SameTables-refl, SameTables-trans, write_token-SameTables,
}
use llmengine.Cache.Paged.Cells.{IsStored}
use llmengine.Cache.Paged.Overwrite.{Writable, Writable-Ready, write_token-Ready, written-Writable}

module _ {F : Type 0} where
  -- What the loop leaves besides the elements.
  pub record Ended (c r : PagedKvCache F) : Type 0 where
    pub stored : IsStored r
    pub tables : SameTables c r
    pub num_kv_heads : r.num_kv_heads ≡ c.num_kv_heads
    pub head_dim : r.head_dim ≡ c.head_dim

  -- The loop succeeds.
  pub write_loop-Ended :
      (n t : ℕ) (c : PagedKvCache F) (id layer start : ℕ) (k v : List F)
      → Writable c id layer start n t k v
      → ((write_loop (pos id) (pos layer) start k v n t c).0 ≡ make_ok)
        × Ended c (write_loop (pos id) (pos layer) start k v n t c).1
  unfolding write_loop
  write_loop-Ended zero t c id layer start k v w = (
    refl,
    record { stored = w.stored; tables = SameTables-refl c; num_kv_heads = refl; head_dim = refl },
  )
  write_loop-Ended (suc n) t c id layer start k v w =
      let c' = written_token (pos layer) (block_of c id (start + t)) (start + t) t k v c in
      let e =
        write_token-Ready c id (start + t) layer t k v
          (Writable-Ready c id layer start n t k v w) in
      let rest =
        write_loop-Ended n (suc t) c' id layer start k v
          (written-Writable c id layer start n t k v w) in
      rw (e, write_loop)
        (
          rest.0,
          after c c' (write_loop (pos id) (pos layer) start k v n (suc t) c').1
              (write_token-SameTables (pos id) (pos layer) (start + t) t k v c c' e) refl refl
              rest.1,
        )
    where
      after :
          (a b r : PagedKvCache F)
          → SameTables a b
          → b.num_kv_heads ≡ a.num_kv_heads
          → b.head_dim ≡ a.head_dim
          → Ended b r
          → Ended a r
      after a b r s h g f = record {
        stored = f.stored;
        tables = SameTables-trans s f.tables;
        num_kv_heads = f.num_kv_heads ∙ h;
        head_dim = f.head_dim ∙ g;
      }
