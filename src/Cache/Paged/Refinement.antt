-- ===== src/Cache/Paged/Refinement.antt =====
-- The paged cache of src/runtime/cache/paged_kv_cache.cpp implements the map of Contents: writing.
use llmengine.Base.{
  Bool, Bool-cases, List, arith, div-lt_of_lt-mul, false, inl, inr, length, ltb, negsuc, pos,
  pos_part, ℕ, ℤ, ◌&&◌, ◌*◌, ◌+◌, ◌<◌, ◌^◌, ◌∙◌, ◌≡◌, ◌≤◌,
}
use llmengine.Core.Status.{make_ok, is_ok}
use llmengine.Cache.Paged.{PagedKvCache, kv_hidden}
use llmengine.Cache.Paged.Blocks.{ensure_sequence, reserve_sequence}
use llmengine.Cache.Paged.Tokens.{write_loop}
use llmengine.Cache.Paged.Invariant.{}
use llmengine.Cache.Paged.Room.{Reserved, reserve_sequence-Reserved}
use llmengine.Cache.Paged.Addresses.{}
use llmengine.Cache.Paged.Writing.{SameTables-Inv}
use llmengine.Cache.Paged.Cells.{Mapped, cell}
use llmengine.Cache.Paged.Extends.{Extends, reserve_sequence-Extends}
use llmengine.Cache.Paged.Contents.{Contents, in_rows, put, Refines, Extends-Refines}
use llmengine.Cache.Paged.Ending.{Ended, write_loop-Ended}
use llmengine.Cache.Paged.Overwrite.{Writable, overwritten, write_loop-cell}

module _ {F : Type 0} where
  -- An element that has a place before the loop has it after the loop, with what the loop leaves.
  loop_read :
      (d : F) (c : PagedKvCache F) (id layer start n : ℕ) (k v : List F) (key : Bool)
      (l id' p i : ℕ) (x : F)
      → Writable c id layer start n 0 k v
      → Mapped c id' p
      → i < kv_hidden c
      → overwritten d (kv_hidden c) id layer start 0 n k v key l id' p i (cell d key l id' p i c)
        ≡ x
      → let r = (write_loop (pos id) (pos layer) start k v n 0 c).1 in
        Mapped r id' p × (i < kv_hidden r) × (cell d key l id' p i r ≡ x)
  loop_read d c id layer start n k v key l id' p i x w m h e =
      let f = (write_loop-Ended n 0 c id layer start k v w).1 in
      (
        rw (f.tables.sequences, f.tables.block_size) m,
        rw (f.num_kv_heads, f.head_dim) h,
        (write_loop-cell n 0 c id layer start k v key l id' p i d w m h).1 ∙ e,
      )

  -- After the loop the cache holds the rows.
  pub loop-Refines :
      (d : F) (c : PagedKvCache F) (m : Contents F) (id layer start n : ℕ) (k v : List F)
      → Writable c id layer start n 0 k v
      → Refines d c m
      → Refines d
          (write_loop (pos id) (pos layer) start k v n 0 c).1
          (put d (kv_hidden c) id layer start n k v m)
  unfolding put
  loop-Refines d c m id layer start n k v w s = record {
    inv = SameTables-Inv e.tables s.inv;
    stored = e.stored;
    reads = λ key l id' p i x h.
        elim (Bool-cases (in_rows id layer start n l id' p && ltb i (kv_hidden c))) [
          | inl g ↦
              let b : id ≡ id' = ground (arith, g) in
              let q : p < start + 0 + n = ground (arith, g) in
              loop_read d c id layer start n k v key l id' p i x w (rw⁻¹ b (w.mapped p q))
                (ground (arith, g)) (ground (arith, g, h))
          | inr g ↦
              let old = s.reads key l id' p i x (ground (arith, g, h)) in
              loop_read d c id layer start n k v key l id' p i x w old.0 old.1
                (ground (arith, g, old.1, old.2))
        ];
  }
    where
      e : Ended c (write_loop (pos id) (pos layer) start k v n 0 c).1
      e = (write_loop-Ended n 0 c id layer start k v w).1

  pub reserve_negative :
      (j : ℕ) (t : ℤ) (c : PagedKvCache F) → is_ok (reserve_sequence (negsuc j) t c).0 ≡ false
  unfolding reserve_sequence ensure_sequence
  reserve_negative j t c = ground arith

  reserve-size :
      (id t : ℤ) (c : PagedKvCache F) → (reserve_sequence id t c).0 ≡ make_ok → 0 < c.block_size
  unfolding reserve_sequence ensure_sequence
  reserve-size id t c h = ground arith

  -- A reservation makes the loop possible.
  pub reserved-Writable :
      (c : PagedKvCache F) (d : F) (m : Contents F) (id layer start n : ℕ) (t : ℤ) (k v : List F)
      → Refines d c m
      → layer < length c.layers
      → n * kv_hidden c ≤ length k
      → n * kv_hidden c ≤ length v
      → pos_part t ≡ start + n
      → start + n + c.block_size ≤ 2 ^ 31
      → (reserve_sequence (pos id) t c).0 ≡ make_ok
      → Writable (reserve_sequence (pos id) t c).1 id layer start n 0 k v
  reserved-Writable c d m id layer start n t k v s h hk hv plain range e = record {
    inv = r.inv;
    size = size;
    stored = (Extends-Refines d c _ m ext r.inv s).stored;
    within = rw ext.layers h;
    mapped = λ p q. div-lt_of_lt-mul _ _ _ size (omega (arith, q, plain, r.room));
    keys = rw (ext.num_kv_heads, ext.head_dim) (omega (arith, hk));
    values = rw (ext.num_kv_heads, ext.head_dim) (omega (arith, hv));
  }
    where
      r : Reserved id (pos_part t) (reserve_sequence (pos id) t c).1
      r = reserve_sequence-Reserved (pos id) t c s.inv (rw plain range) e

      ext : Extends c (reserve_sequence (pos id) t c).1
      ext = reserve_sequence-Extends (pos id) t c

      size : 0 < (reserve_sequence (pos id) t c).1.block_size
      size = rw ext.block_size (reserve-size (pos id) t c e)
