-- ===== src/Cache/Paged/History.antt =====
-- Every history of calls of src/runtime/cache/paged_kv_cache.cpp implements the map of Contents.
use llmengine.Base.{
  Bool, Bool-cases, List, [], arith, false, if◌then◌else◌, inl, inr, is_neg, leb, length, none, pos,
  pos_part, refl, some, true, ℕ, ℤ, ◌%◌, ◌&&◌, ◌*◌, ◌+◌, ◌<◌, ◌^◌, ◌∷◌, ◌≡◌, ◌≤◌,
}
use native.Mathlib.Nat.{mod-eq_of_lt}
use llmengine.Core.Status.{ok, Status-cases}
use llmengine.Cache.Paged.{PagedKvCache, kv_hidden, default, release}
use llmengine.Cache.Paged.Blocks.{sequence_length, reserve_sequence, set_sequence_length}
use llmengine.Cache.Paged.Tokens.{Ptr, row_index, token_ptr, load, write_tokens, append_tokens}
use llmengine.Cache.Paged.Invariant.{Inv}
use llmengine.Cache.Paged.Reserve.{
  ensure_sequence-Inv, reserve_sequence-Claimed, set_sequence_length-Inv,
}
use llmengine.Cache.Paged.Addresses.{block_of}
use llmengine.Cache.Paged.Cells.{cell, Mapped-physical}
use llmengine.Cache.Paged.Extends.{
  Extends, Extends-refl, Extends-trans, ensure_sequence-Extends, reserve_sequence-Extends,
  with_length-Extends,
}
use llmengine.Cache.Paged.Contents.{
  Contents, nothing, forget, Refines, Extends-Refines, nothing-Refines,
}
use llmengine.Cache.Paged.Store.{after_write, reserve-Refines, write_tokens-Refines}
use llmengine.Cache.Paged.Keeping.{
  pool_fits, free_sequence-Refines, no_layers-IsStored, init-IsStored, reset-IsStored,
}
use llmengine.Cache.Paged.ReadBack.{row_index_in_bounds}
use llmengine.Cache.Paged.Run.{
  Call, inits, resets, releases, ensures, frees, reserves, sets_length, writes, appends, step, run,
  init-Inv, reset-Inv, release-Inv, default-Inv,
}

module _ {F : Type 0} where
  -- The two buffers hold `n` rows.
  abbrev pub hold_rows : PagedKvCache F → List F → List F → ℤ → Bool
  hold_rows c k v n =
      leb (pos_part n * kv_hidden c) (length k) && leb (pos_part n * kv_hidden c) (length v)

  -- A call whose buffers, if any, hold the rows that it asks for, and whose sizes and positions do not
  -- leave `int` and `size_t`.
  unfoldable pub supplied : PagedKvCache F → Call F → Bool
  unfolding pool_fits sequence_length
  supplied c (inits layers heads dim size blocks) =
      pool_fits (pos_part heads) (pos_part dim) (pos_part size) (pos_part blocks)
  supplied c (writes id layer start (some k) (some v) n) =
      hold_rows c k v n && leb (pos_part start + pos_part n + c.block_size) (2 ^ 31)
  supplied c (appends id layer (some k) (some v) n) =
      hold_rows c k v n && leb (sequence_length id c + pos_part n + c.block_size) (2 ^ 31)
  supplied c x = true

  -- What a call does to the map. Whether a write has a block to go to is the cache's answer.
  unfoldable pub spec_step : F → PagedKvCache F → Contents F → Call F → Contents F
  unfolding write_tokens append_tokens sequence_length
  spec_step d c m (inits layers heads dim size blocks) = nothing
  spec_step d c m resets = nothing
  spec_step d c m releases = nothing
  spec_step d c m (frees id) = if is_neg id then m else forget (pos_part id) m
  spec_step d c m (writes id layer start (some k) (some v) n) =
      after_write d (kv_hidden c) (pos_part id) (pos_part layer) (pos_part start) (pos_part n) k v m
        (write_tokens id layer start (some k) (some v) n c).0
  spec_step d c m (appends id layer (some k) (some v) n) =
      after_write d (kv_hidden c) (pos_part id) (pos_part layer) (sequence_length id c) (pos_part n)
        k v m (append_tokens id layer (some k) (some v) n c).0
  spec_step d c m x = m

  set_length-Extends :
      (c : PagedKvCache F) (id n : ℤ) → Inv c → Extends c (set_sequence_length id n c).1
  unfolding set_sequence_length
  set_length-Extends c id n v =
      let c' = (reserve_sequence id n c).1 in
      let ext = reserve_sequence-Extends id n c in
      elim (Bool-cases (is_neg n)) [
        | inl neg ↦ rw neg (Extends-refl c)
        | inr nonneg ↦ rw nonneg (elim (Status-cases (reserve_sequence id n c).0) [
          | inr (x, e) ↦ rw (e, set_sequence_length) ext
          | inl e ↦
              let r = reserve_sequence-Claimed id n c v e in
              rw (e, set_sequence_length)
                (Extends-trans ext (with_length-Extends (pos_part id) (pos_part n) c' r.present))
        ])
      ]

  step-Refines :
      (d z : F) (c : PagedKvCache F) (m : Contents F) (x : Call F)
      → Refines d c m
      → supplied c x ≡ true
      → Refines d (step z c x) (spec_step d c m x)
  unfolding step spec_step supplied append_tokens write_tokens release
  step-Refines d z c m (inits layers heads dim size blocks) s h =
      nothing-Refines d _ (init-Inv z layers heads dim size blocks c)
        (init-IsStored z layers heads dim size blocks c h)
  step-Refines d z c m resets s h =
      nothing-Refines d _ (reset-Inv z c) (reset-IsStored z c s.stored)
  step-Refines d z c m releases s h =
      nothing-Refines d _ (release-Inv c) (no_layers-IsStored _ refl refl refl)
  step-Refines d z c m (ensures id) s h =
      Extends-Refines d c _ m (ensure_sequence-Extends id c) (ensure_sequence-Inv id c s.inv) s
  step-Refines d z c m (frees id) s h = free_sequence-Refines d c m id s
  step-Refines d z c m (reserves id n) s h = reserve-Refines d c m id n s
  step-Refines d z c m (sets_length id n) s h =
      Extends-Refines d c _ m (set_length-Extends c id n s.inv)
        (set_sequence_length-Inv id n c s.inv) s
  step-Refines d z c m (writes id layer start none v n) s h = s
  step-Refines d z c m (writes id layer start (some k) none n) s h = s
  step-Refines d z c m (writes id layer start (some k) (some v) n) s h =
      write_tokens-Refines d c m id layer start n k v s (ground arith) (ground arith) (ground arith)
  step-Refines d z c m (appends id layer none v n) s h = s
  step-Refines d z c m (appends id layer (some k) none n) s h = s
  step-Refines d z c m (appends id layer (some k) (some v) n) s h =
      write_tokens-Refines d c m id layer (pos (sequence_length id c)) n k v s (ground arith)
        (ground arith) (ground arith)

  -- Every call of a history is supplied, in the state that it meets.
  unfoldable pub all_supplied : F → PagedKvCache F → List (Call F) → Bool
  unfolding step supplied
  all_supplied z c [] = true
  all_supplied z c (x ∷ xs) = supplied c x && all_supplied z (step z c x) xs

  unfoldable pub spec_run : F → F → PagedKvCache F → Contents F → List (Call F) → Contents F
  unfolding step spec_step
  spec_run d z c m [] = m
  spec_run d z c m (x ∷ xs) = spec_run d z (step z c x) (spec_step d c m x) xs

  -- From a cache that implements a map of known elements, every history of calls, failing ones
  -- included, whose writes come with buffers of the rows that they ask for and whose sizes and positions
  -- do not leave `int` and `size_t`, ends in a cache that implements the map after the same calls: rows put in by the writes that succeed, sequences
  -- forgotten by `free_sequence`, everything by `init`, `reset` and `release`.
  pub run-Refines :
      (d z : F) (c : PagedKvCache F) (m : Contents F) (xs : List (Call F))
      → Refines d c m
      → all_supplied z c xs ≡ true
      → Refines d (run z c xs) (spec_run d z c m xs)
  unfolding run spec_run all_supplied
  run-Refines d z c m [] s h = s
  run-Refines d z c m (x ∷ xs) s h =
      run-Refines d z (step z c x) (spec_step d c m x) xs (step-Refines d z c m x s (ground arith))
        (ground arith)

  pub default-Refines : (d : F) → Refines d default nothing
  default-Refines d = nothing-Refines d default default-Inv (no_layers-IsStored _ refl refl refl)

  -- In a cache that implements a map of known elements, `key_ptr` and `value_ptr` (`key` tells
  -- which) succeed for a layer, a head and a position below the length of the sequence, and what
  -- they point to is what the map holds for this token and head.
  pub token_ptr_reads :
      (d : F) (c : PagedKvCache F) (m : Contents F) (key : Bool) (l id p head j : ℕ) (x : F)
      → Refines d c m
      → l < length c.layers
      → head < c.num_kv_heads
      → p < sequence_length (pos id) c
      → m key l id p (head * c.head_dim + j) ≡ some x
      → (q : Ptr) × (token_ptr key (pos id) (pos l) (pos p) (pos head) c ≡ ok q)
        × (load d q j c ≡ x)
  unfolding token_ptr load cell
  token_ptr_reads d c m key l id p head j x s hl hh hp e =
      let (mapped, inside, same) = s.reads key l id p (head * c.head_dim + j) x e in
      let a : leb (length c.layers) l ≡ false = ground arith in
      let b : leb c.num_kv_heads head ≡ false = ground arith in
      let g : leb (sequence_length (pos id) c) p ≡ false = ground arith in
      let at = row_index c (block_of c id p) p in
      let assoc : at + head * c.head_dim + j ≡ at + (head * c.head_dim + j) = omega arith in
      let row_end : at + kv_hidden c ≤ c.max_blocks * (c.block_size * kv_hidden c) = omega (
        arith,
        s.stored.lengths true l hl,
        row_index_in_bounds c (pos id) (pos p) l true s.inv s.stored hl
            (Mapped-physical c id p mapped),
      ) in
      let plain : (at + head * c.head_dim) % 2 ^ 64 ≡ at + head * c.head_dim =
        mod-eq_of_lt (omega (arith, row_end, inside, s.stored.addressed)) in
      (
        record { key = key; layer = l; index = at + head * c.head_dim },
        rw (a, b, g, Mapped-physical c id p mapped, plain) refl,
        rw assoc same,
      )
