-- ===== src/Memory/Reuse.antt =====
-- The buffers that `MemoryPlanner::plan` of src/runtime/memory_planner.cpp gives to the ranges: large
-- enough, of the right pool, and never shared by two values that live at once.
use llmengine.Base.{
  List, false, get_or, get_or-set_ne, get_or-set_self, inl, inr, length, none, pos, set, some,
  subst, sym, true, ℕ, ℕ_discrete, ◌<◌, ◌∙◌, ◌≡◌, ◌≢◌, ◌≤◌, ◌⊎◌,
}
use llmengine.Core.DType.{DType, DeviceType}
use llmengine.Graph.Data.{ValueKind}
use llmengine.Memory.{LiveRange, Buffer}
use llmengine.Memory.Pool.{same_key, range_key, buffer_key}
use llmengine.Memory.Lists.{buffer_at}

abbrev pub no_range : LiveRange
no_range = record {
  value = 0;
  name = "";
  bytes = 0;
  aligned_bytes = 0;
  dtype = DType.unknown;
  device = record { type = DeviceType.cpu; index = pos 0 };
  kind = ValueKind.intermediate;
  first_node = 0;
  last_node = 0;
  eligible = false;
  buffer_id = none;
}

abbrev pub range_at : List LiveRange → ℕ → LiveRange
range_at rs i = get_or rs i no_range

-- The buffer is large enough for the range, of its pool, and in use at its end.
pub record Placed (bs : List Buffer) (r : LiveRange) (b : ℕ) : Type 0 where
  pub known : b < length bs
  pub used : r.last_node ≤ (buffer_at bs b).last_use
  pub room : r.aligned_bytes ≤ (buffer_at bs b).bytes
  pub pool : same_key (buffer_key (buffer_at bs b)) (range_key r) ≡ true

-- Two ranges that do not overlap.
abbrev pub Apart : LiveRange → LiveRange → Type 0
Apart r s = (r.last_node < s.first_node) ⊎ (s.last_node < r.first_node)

pub record Sound (bs : List Buffer) (rs : List LiveRange) : Type 0 where
  pub ids : (b : ℕ) → b < length bs → (buffer_at bs b).id ≡ b
  pub placed : (i b : ℕ) → (range_at rs i).buffer_id ≡ some b → Placed bs (range_at rs i) b
  pub apart :
      (i j b : ℕ)
      → i ≢ j
      → (range_at rs i).buffer_id ≡ some b
      → (range_at rs j).buffer_id ≡ some b
      → Apart (range_at rs i) (range_at rs j)

-- What a change of the buffers does to the range `r` that gets the buffer `b`, and to the others.
pub record Change (bs bs' : List Buffer) (rs : List LiveRange) (r : LiveRange) (b : ℕ)
    : Type 0 where
  pub ids : (x : ℕ) → x < length bs' → (buffer_at bs' x).id ≡ x
  pub new : Placed bs' r b
  pub others :
      (x : ℕ) → x ≢ b → x < length bs → (x < length bs') × (buffer_at bs' x ≡ buffer_at bs x)
  pub over :
      (j : ℕ)
      → (range_at rs j).buffer_id ≡ some b
      → ((range_at rs j).last_node < r.first_node) × Placed bs' (range_at rs j) b

abbrev pub placed_range : LiveRange → ℕ → LiveRange
placed_range r b = record r { buffer_id = some b }

pub place-Sound :
    (bs bs' : List Buffer) (rs : List LiveRange) (i b : ℕ) (r : LiveRange)
    → i < length rs
    → Sound bs rs
    → Change bs bs' rs r b
    → Sound bs' (set rs i (placed_range r b))
place-Sound bs bs' rs i b r h ok c = record { ids = c.ids; placed = placed; apart = apart }
  where
    this : range_at (set rs i (placed_range r b)) i ≡ placed_range r b
    this = get_or-set_self rs i (placed_range r b) no_range h

    that : (j : ℕ) → i ≢ j → range_at (set rs i (placed_range r b)) j ≡ range_at rs j
    that j n = get_or-set_ne rs i j (placed_range r b) no_range n

    same : (x : ℕ) → some b ≡ some x → b ≡ x
    same x e = cc

    new : (x : ℕ) → some b ≡ some x → Placed bs' (placed_range r b) x
    new x e =
        subst (λ y. Placed bs' (placed_range r b) y) (same x e)
          (record { known = c.new.known; used = c.new.used; room = c.new.room; pool = c.new.pool })

    old : (j x : ℕ) → (range_at rs j).buffer_id ≡ some x → Placed bs' (range_at rs j) x
    old j x e = elim (ℕ_discrete x b) [
      | yes q ↦ subst (λ y. Placed bs' (range_at rs j) y) (sym q) (c.over j (rw⁻¹ q e)).1
      | no n ↦
          let p = ok.placed j x e in
          let o = c.others x n p.known in
          record { known = o.0; used = rw o.1 p.used; room = rw o.1 p.room; pool = rw o.1 p.pool }
    ]

    placed :
        (j x : ℕ)
        → (range_at (set rs i (placed_range r b)) j).buffer_id ≡ some x
        → Placed bs' (range_at (set rs i (placed_range r b)) j) x
    placed j x = elim (ℕ_discrete i j) [
      | yes q ↦ rw⁻¹ q (rw this (new x))
      | no n ↦ rw (that j n) (old j x)
    ]

    over :
        (j x : ℕ)
        → some b ≡ some x
        → (range_at rs j).buffer_id ≡ some x
        → (range_at rs j).last_node < r.first_node
    over j x e f = (c.over j (f ∙ sym e)).0

    apart :
        (j k x : ℕ)
        → j ≢ k
        → (range_at (set rs i (placed_range r b)) j).buffer_id ≡ some x
        → (range_at (set rs i (placed_range r b)) k).buffer_id ≡ some x
        → Apart
            (range_at (set rs i (placed_range r b)) j)
            (range_at (set rs i (placed_range r b)) k)
    apart j k x n = elim (ℕ_discrete i j) [
      | yes q ↦
          let m : i ≢ k = λ e. n (sym q ∙ e) in
          rw⁻¹ q (rw (this, that k m) (λ e f. inr (over k x e f)))
      | no m ↦ elim (ℕ_discrete i k) [
        | yes q ↦ rw⁻¹ q (rw (this, that j m) (λ e f. inl (over j x f e)))
        | no l ↦ rw (that j m, that k l) (ok.apart j k x n)
      ]
    ]
