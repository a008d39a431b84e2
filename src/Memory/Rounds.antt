-- ===== src/Memory/Rounds.antt =====
-- The third loop of `MemoryPlanner::plan` in src/runtime/memory_planner.cpp keeps its lists and gives
-- sound buffers.
use llmengine.Base.{
  List, [], ap, arith, get_or-append_last, get_or-append_left, get_or-set_ne, get_or-set_self,
  length, length-append, length-set, refl, set, sym, true, ℕ, ℕ_discrete, ◌++◌, ◌+◌, ◌<◌, ◌∷◌, ◌≡◌,
  ◌≢◌, ◌≤◌,
}
use llmengine.Core.DType.{}
use llmengine.Memory.{LiveRange, Buffer}
use llmengine.Memory.Pool.{same_key, range_key, buffer_key, Pools, no_buffer}
use llmengine.Memory.Lists.{buffer_at, Lists}
use llmengine.Memory.Taking.{used_again}
use llmengine.Memory.Reuse.{no_range, range_at, Sound, Change, placed_range}

-- The state of the loop, at a round for ranges that start at `now` or later. `first` gives the first
-- node of each range.
pub record Good (first : ℕ → ℕ) (now : ℕ) (p : Pools) : Type 0 where
  pub lists : Lists p.buffers now p.live p.free
  pub sound : Sound p.buffers p.ranges
  pub ordered : (i : ℕ) → (range_at p.ranges i).first_node ≤ (range_at p.ranges i).last_node
  pub firsts : (i : ℕ) → (range_at p.ranges i).first_node ≡ first i

-- The order goes through the ranges by their first node.
abbrev pub Sorted : (ℕ → ℕ) → ℕ → List ℕ → Type 0
Sorted first now [] = Unit {0}
Sorted first now (i ∷ is) = (now ≤ first i) × Sorted first (first i) is

-- A range keeps its nodes when it gets a buffer.
pub set-nodes :
    (rs : List LiveRange) (i b : ℕ) (r : LiveRange) (j : ℕ)
    → i < length rs
    → range_at rs i ≡ r
    → ((range_at (set rs i (placed_range r b)) j).first_node ≡ (range_at rs j).first_node)
      × ((range_at (set rs i (placed_range r b)) j).last_node ≡ (range_at rs j).last_node)
set-nodes rs i b r j h e = elim (ℕ_discrete i j) [
  | no n ↦ rw (get_or-set_ne rs i j (placed_range r b) no_range n) (refl, refl)
  | yes q ↦ rw⁻¹ q (
      rw (get_or-set_self rs i (placed_range r b) no_range h)
        (sym (ap (λ (x : LiveRange). x.first_node) e), sym (ap (λ (x : LiveRange). x.last_node) e)))
]

pub reuse-Change :
    (bs : List Buffer) (rs : List LiveRange) (now need b : ℕ) (vs : List ℕ) (r : LiveRange)
    → Sound bs rs
    → b < length bs
    → r.aligned_bytes ≤ (buffer_at bs b).bytes
    → same_key (buffer_key (buffer_at bs b)) (range_key r) ≡ true
    → (buffer_at bs b).last_use < r.first_node
    → r.first_node ≤ r.last_node
    → Change bs (used_again bs b r.last_node vs) rs r b
reuse-Change bs rs now need b vs r s known room pool over ordered = record {
  ids = λ x h. elim (ℕ_discrete b x) [
    | yes q ↦ rw⁻¹ q (rw this (s.ids b known))
    | no n ↦ rw (that x n) (s.ids x (omega (arith, h, same_length)))
  ];
  new = record {
    known = omega (arith, known, same_length);
    used = rw this (omega arith);
    room = rw this room;
    pool = rw this pool;
  };
  others = λ x n h. (omega (arith, h, same_length), that x (λ q. n (sym q)));
  over = λ j e.
      let p = s.placed j b e in
      (
        omega (arith, p.used, over),
        record {
          known = omega (arith, known, same_length);
          used = rw this (omega (arith, p.used, over, ordered));
          room = rw this p.room;
          pool = rw this p.pool;
        },
      );
}
  where
    again : Buffer
    again = record (buffer_at bs b) { last_use = r.last_node; values = vs }

    this : buffer_at (set bs b again) b ≡ again
    this = get_or-set_self bs b again no_buffer known

    that : (x : ℕ) → b ≢ x → buffer_at (set bs b again) x ≡ buffer_at bs x
    that x n = get_or-set_ne bs b x again no_buffer n

    same_length : length (set bs b again) ≡ length bs
    same_length = length-set bs b again

pub allocate-Change :
    (bs : List Buffer) (rs : List LiveRange) (x : Buffer) (r : LiveRange)
    → Sound bs rs
    → x.id ≡ length bs
    → x.last_use ≡ r.last_node
    → x.bytes ≡ r.aligned_bytes
    → same_key (buffer_key x) (range_key r) ≡ true
    → Change bs (bs ++ x ∷ []) rs r (length bs)
allocate-Change bs rs x r s id last bytes pool = record {
  ids = λ y h. elim (ℕ_discrete y (length bs)) [
    | yes q ↦ rw q (rw this id)
    | no n ↦ let lt : y < length bs = omega (arith, h, n, longer) in rw (that y lt) (s.ids y lt)
  ];
  new = record {
    known = omega (arith, longer);
    used = rw this (omega (arith, last));
    room = rw this (omega (arith, bytes));
    pool = rw this pool;
  };
  others = λ y n h. (omega (arith, h, longer), that y h);
  over = λ j e. absurd (omega (arith, (s.placed j (length bs) e).known));
}
  where
    longer : length (bs ++ x ∷ []) ≡ length bs + 1
    longer = length-append bs (x ∷ [])

    this : buffer_at (bs ++ x ∷ []) (length bs) ≡ x
    this = get_or-append_last bs x no_buffer

    that : (y : ℕ) → y < length bs → buffer_at (bs ++ x ∷ []) y ≡ buffer_at bs y
    that y h = get_or-append_left bs (x ∷ []) y no_buffer h
