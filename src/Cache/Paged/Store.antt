-- ===== src/Cache/Paged/Store.antt =====
-- `write_tokens` of src/runtime/cache/paged_kv_cache.cpp implements a write to the map of Contents.
use llmengine.Base.{
  Bool-cases, List, arith, false, if◌then◌else◌, inl, inr, is_neg, leb, length, max, negsuc, pos,
  pos_part, refl, some, subst, ℕ, ℤ, ◌*◌, ◌+◌, ◌<◌, ◌==◌, ◌^◌, ◌||◌, ◌≡◌, ◌≤◌,
}
use llmengine.Core.Status.{Status, make_ok, is_ok, Status-cases}
use llmengine.Cache.Paged.{PagedKvCache, int_sum, seq_at, kv_hidden}
use llmengine.Cache.Paged.Blocks.{reserve_sequence, with_length}
use llmengine.Cache.Paged.Tokens.{write_loop, write_rows, write_tokens}
use llmengine.Cache.Paged.Invariant.{Inv}
use llmengine.Cache.Paged.Reserve.{reserve_sequence-Inv}
use llmengine.Cache.Paged.Room.{reserve_sequence-Reserved}
use llmengine.Cache.Paged.{int_sum}
use llmengine.Cache.Paged.Addresses.{}
use llmengine.Cache.Paged.Writing.{write_rows-Inv}
use llmengine.Cache.Paged.Cells.{}
use llmengine.Cache.Paged.Extends.{Extends, reserve_sequence-Extends, with_length-Extends}
use llmengine.Cache.Paged.Contents.{Contents, put, Refines, Extends-Refines}
use llmengine.Cache.Paged.Ending.{write_loop-Ended}
use llmengine.Cache.Paged.Refinement.{loop-Refines, reserve_negative, reserved-Writable}

int_sum-pos : (a b : ℕ) → a + b < 2 ^ 31 → pos_part (int_sum a b) ≡ a + b
unfolding int_sum
int_sum-pos a b h = ground arith

module _ {F : Type 0} where
  -- The map after a call of `write_tokens` that ends with `st`.
  abbrev pub after_write :
      F → ℕ → ℕ → ℕ → ℕ → ℕ → List F → List F → Contents F → Status → Contents F
  after_write d w id layer start n k v m st = if is_ok st then put d w id layer start n k v m else m

  Extends-width : (c r : PagedKvCache F) → Extends c r → kv_hidden r ≡ kv_hidden c
  Extends-width c r e = rw (e.num_kv_heads, e.head_dim) refl

  pub reserve-Refines :
      (d : F) (c : PagedKvCache F) (m : Contents F) (id t : ℤ)
      → Refines d c m
      → Refines d (reserve_sequence id t c).1 m
  reserve-Refines d c m id t s =
      Extends-Refines d c _ m (reserve_sequence-Extends id t c) (reserve_sequence-Inv id t c s.inv)
        s

  -- A write that `reserve_sequence` refuses changes no known element.
  refused-Refines :
      (d : F) (c : PagedKvCache F) (m : Contents F) (id layer : ℤ) (start n : ℕ) (k v : List F)
      → Refines d c m
      → is_ok (reserve_sequence id (int_sum start n) c).0 ≡ false
      → Refines d (write_rows id layer start k v n c).1 (
          after_write d
            (kv_hidden c)
            (pos_part id)
            (pos_part layer)
            start
            n
            k
            v
            m
            (write_rows id layer start k v n c).0)
  unfolding write_rows
  refused-Refines d c m id layer start n k v s e =
      elim (Status-cases (reserve_sequence id (int_sum start n) c).0) [
        | inl f ↦ absurd (ground (arith, e, f))
        | inr (x, f) ↦ rw (f, write_rows) (reserve-Refines d c m id (int_sum start n) s)
      ]

  write_rows-Refines :
      (d : F) (c : PagedKvCache F) (m : Contents F) (id : ℤ) (layer start n : ℕ) (k v : List F)
      → Refines d c m
      → layer < length c.layers
      → n * kv_hidden c ≤ length k
      → n * kv_hidden c ≤ length v
      → start + n + c.block_size ≤ 2 ^ 31
      → Refines d (write_rows id (pos layer) start k v n c).1 (
          after_write d
            (kv_hidden c)
            (pos_part id)
            layer
            start
            n
            k
            v
            m
            (write_rows id (pos layer) start k v n c).0)
  unfolding write_rows
  write_rows-Refines d c m (negsuc j) layer start n k v s h hk hv range =
      refused-Refines d c m (negsuc j) (pos layer) start n k v s
        (reserve_negative j (int_sum start n) c)
  write_rows-Refines d c m (pos id) layer start n k v s h hk hv range =
      let t = int_sum start n in
      let plain : pos_part t ≡ start + n = int_sum-pos start n (omega (arith, range)) in
      elim (Status-cases (reserve_sequence (pos id) t c).0) [
        | inr (x, f) ↦ refused-Refines d c m (pos id) (pos layer) start n k v s (ground (arith, f))
        | inl f ↦
            let c' = (reserve_sequence (pos id) t c).1 in
            let c'' = (write_loop (pos id) (pos layer) start k v n 0 c').1 in
            let ext = reserve_sequence-Extends (pos id) t c in
            let w = reserved-Writable c d m id layer start n t k v s h hk hv plain range f in
            let e = write_loop-Ended n 0 c' id layer start k v w in
            let rows =
              loop-Refines d c' m id layer start n k v w (reserve-Refines d c m (pos id) t s) in
            let r = reserve_sequence-Reserved (pos id) t c s.inv (rw plain range) f in
            let whole : write_rows (pos id) (pos layer) start k v n c
                ≡ (make_ok, with_length id (max (seq_at c'' id).length (pos_part t)) c'') =
              rw (f, write_rows, e.0, write_rows) refl in
            let inv : Inv (with_length id (max (seq_at c'' id).length (pos_part t)) c'') =
              subst (λ (q : Status × PagedKvCache F). Inv q.1) whole
                (write_rows-Inv (pos id) (pos layer) start k v n c s.inv) in
            rw whole (
              Extends-Refines d c'' _ _
                (with_length-Extends id _ c'' (rw e.1.tables.sequences r.present)) inv
                (subst (λ (w : ℕ). Refines d c'' (put d w id layer start n k v m))
                  (Extends-width c c' ext) rows))
      ]

  -- No row: nothing changes.
  put_no_row :
      (d : F) (w id layer start : ℕ) (k v : List F) (c : PagedKvCache F) (m : Contents F)
      → Refines d c m
      → Refines d c (put d w id layer start 0 k v m)
  unfolding put
  put_no_row d w id layer start k v c m s = record {
    inv = s.inv;
    stored = s.stored;
    reads = λ key l id' p i x h. s.reads key l id' p i x (ground (arith, h));
  }

  -- A write of `n` rows of keys and values, on a cache that implements a map of known elements,
  -- leaves a cache that implements the map with these rows put in when it succeeds, and the same map
  -- when it fails, if the two buffers hold `n` rows and the last position, rounded up to a block, does
  -- not leave `int`.
  pub write_tokens-Refines :
      (d : F) (c : PagedKvCache F) (m : Contents F) (id layer start n : ℤ) (k v : List F)
      → Refines d c m
      → pos_part n * kv_hidden c ≤ length k
      → pos_part n * kv_hidden c ≤ length v
      → pos_part start + pos_part n + c.block_size ≤ 2 ^ 31
      → Refines d (write_tokens id layer start (some k) (some v) n c).1 (
          after_write d
            (kv_hidden c)
            (pos_part id)
            (pos_part layer)
            (pos_part start)
            (pos_part n)
            k
            v
            m
            (write_tokens id layer start (some k) (some v) n c).0)
  unfolding write_tokens
  write_tokens-Refines d c m id (negsuc layer) start n k v s hk hv range =
      elim (Bool-cases (is_neg start || is_neg n)) [ inl e ↦ rw e s | inr e ↦ rw e s ]
  write_tokens-Refines d c m id (pos layer) start n k v s hk hv range =
      elim (Bool-cases (is_neg start || is_neg n)) [
        | inl e ↦ rw e s
        | inr e ↦ rw e (elim (Bool-cases (leb (length c.layers) layer)) [
          | inl f ↦ rw f s
          | inr f ↦ rw f (elim (Bool-cases (pos_part n == 0)) [
            | inl z ↦
                let none_left : pos_part n ≡ 0 = ground (arith, z) in
                rw (z, none_left)
                  (put_no_row d (kv_hidden c) (pos_part id) layer (pos_part start) k v c m s)
            | inr z ↦ rw z (
                write_rows-Refines d c m id layer (pos_part start) (pos_part n) k v s
                  (ground (arith, f)) hk hv range)
          ])
        ])
      ]
