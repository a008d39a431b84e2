-- ===== src/Cache/Paged/Room.antt =====
-- The room that a successful reservation of src/runtime/cache/paged_kv_cache.cpp leaves.
use llmengine.Base.{length, pos_part, ℕ, ℤ, ◌*◌, ◌+◌, ◌<◌, ◌^◌, ◌≡◌, ◌≤◌}
use llmengine.Core.Status.{make_ok}
use llmengine.Cache.Paged.{PagedKvCache, seq_at}
use llmengine.Cache.Paged.Blocks.{reserve_sequence}
use llmengine.Cache.Paged.Invariant.{Inv}
use llmengine.Cache.Paged.Reserve.{reserve_sequence-Claimed}
use llmengine.Cache.Paged.Extends.{reserve_sequence-Extends}

module _ {F : Type 0} where
  -- Sequence `i` has the positions of `total` tokens, in a cache with its invariant.
  pub record Reserved (i total : ℕ) (c : PagedKvCache F) : Type 0 where
    pub inv : Inv c
    pub present : i < length c.sequences
    pub room : total ≤ length (seq_at c i).blocks * c.block_size

  -- A `reserve_sequence` that succeeds on a cache with its invariant leaves the invariant, an entry
  -- for the sequence and blocks for the tokens asked for, if their number, rounded up to a block, does
  -- not leave `int`.
  pub reserve_sequence-Reserved :
      (id n : ℤ) (c : PagedKvCache F)
      → Inv c
      → pos_part n + c.block_size ≤ 2 ^ 31
      → (reserve_sequence id n c).0 ≡ make_ok
      → Reserved (pos_part id) (pos_part n) (reserve_sequence id n c).1
  reserve_sequence-Reserved id n c v range e =
      let r = reserve_sequence-Claimed id n c v e in
      record {
        inv = r.inv;
        present = r.present;
        room = r.room (rw ((reserve_sequence-Extends id n c).block_size) range);
      }
