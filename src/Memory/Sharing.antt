-- ===== src/Memory/Sharing.antt =====
-- The assignment of buffers in `MemoryPlanner::plan` of src/runtime/memory_planner.cpp: every range of
-- the order gets a buffer, and no two values that live at once share one.
use llmengine.Base.{
  List, Option-cases, [], arith, inl, inr, length, none, refl, set, some, subst, sym, ℕ, ◌++◌, ◌<◌,
  ◌∙◌, ◌∷◌, ◌≡◌, ◌≤◌,
}
use llmengine.Memory.{LiveRange, Buffer}
use llmengine.Memory.Pool.{
  PoolKey, range_key, Entry, emplace, Pools, update, drain, take_fit, reuse, allocate, assign,
}
use llmengine.Memory.Entries.{Took, take_fit-Took}
use llmengine.Memory.Lists.{same_key_refl, buffer_at, Free, Lists, Lists-later, drain-Lists}
use llmengine.Memory.Taking.{used_again, reuse-Lists, allocate-Lists}
use llmengine.Memory.Reuse.{range_at, Change, placed_range, place-Sound}
use llmengine.Memory.Rounds.{Good, set-nodes, reuse-Change, allocate-Change}

-- The range `i` of the state gets the buffer `b`, and the buffers change.
placed-Good :
    (first : ℕ → ℕ) (now i b : ℕ) (r : LiveRange) (p : Pools) (bs' : List Buffer)
    (live : List Entry) (free : PoolKey → List Entry)
    → i < length p.ranges
    → range_at p.ranges i ≡ r
    → Good first now p
    → Change p.buffers bs' p.ranges r b
    → Lists bs' now live free
    → Good first now (record {
      ranges = set p.ranges i (placed_range r b);
      buffers = bs';
      free = free;
      live = live;
    })
placed-Good first now i b r p bs' live free h e g c l = record {
  lists = l;
  sound = place-Sound p.buffers bs' p.ranges i b r h g.sound c;
  ordered = λ j. (let n = set-nodes p.ranges i b r j h e in rw (n.0, n.1) (g.ordered j));
  firsts = λ j. (set-nodes p.ranges i b r j h e).0 ∙ g.firsts j;
}

reuse-Good :
    (first : ℕ → ℕ) (i : ℕ) (r : LiveRange) (b : ℕ) (others : List Entry) (p : Pools)
    → i < length p.ranges
    → range_at p.ranges i ≡ r
    → Good first r.first_node p
    → take_fit r.aligned_bytes (p.free (range_key r)) ≡ some (b, others)
    → Good first r.first_node (reuse i r b others p)
reuse-Good first i r b others p h e g t =
    subst
      (λ x.
        Good first r.first_node
          (record (reuse i r b others p) { ranges = set p.ranges i (placed_range r x) }))
      (sym (g.sound.ids b own.0))
      (placed-Good first r.first_node i b r p (used_again p.buffers b r.last_node vs)
        (emplace (record { rank = r.last_node; buffer = b }) p.live)
        (update p.free (range_key r) others) h e g
        (reuse-Change p.buffers p.ranges r.first_node r.aligned_bytes b vs r g.sound own.0
          (omega (arith, took.enough, own.1)) own.2 own.3 (rw⁻¹ e (g.ordered i)))
        (reuse-Lists p.buffers r.first_node r.aligned_bytes b r.last_node vs p.live others p.free
          (range_key r) g.lists t))
  where
    vs : List ℕ
    vs = (buffer_at p.buffers b).values ++ r.value ∷ []

    took : Took r.aligned_bytes (p.free (range_key r)) b others
    took = take_fit-Took r.aligned_bytes (p.free (range_key r)) b others t

    own : Free p.buffers r.first_node (range_key r) (record { rank = took.rank; buffer = b })
    own = (took.every (Free p.buffers r.first_node (range_key r)) (g.lists.free_ok (range_key r))).0

allocate-Good :
    (first : ℕ → ℕ) (i : ℕ) (r : LiveRange) (p : Pools)
    → i < length p.ranges
    → range_at p.ranges i ≡ r
    → Good first r.first_node p
    → Good first r.first_node (allocate i r p)
allocate-Good first i r p h e g =
    placed-Good first r.first_node i (length p.buffers) r p (p.buffers ++ x ∷ [])
      (emplace (record { rank = r.last_node; buffer = length p.buffers }) p.live) p.free h e g
      (allocate-Change p.buffers p.ranges x r g.sound refl refl refl (same_key_refl (range_key r)))
      (allocate-Lists p.buffers r.first_node x p.live p.free g.lists)
  where
    x : Buffer
    x = record {
      id = length p.buffers;
      bytes = r.aligned_bytes;
      dtype = r.dtype;
      device = r.device;
      last_use = r.last_node;
      arena_index = none;
      offset = 0;
      values = r.value ∷ [];
    }

pub assign-Good :
    (first : ℕ → ℕ) (now i : ℕ) (r : LiveRange) (p : Pools)
    → i < length p.ranges
    → range_at p.ranges i ≡ r
    → now ≤ r.first_node
    → Good first now p
    → Good first r.first_node (assign i r p)
unfolding assign
assign-Good first now i r p h e le g =
    elim (Option-cases (take_fit r.aligned_bytes (p'.free (range_key r)))) [
      | inl t ↦ rw (t, assign) (allocate-Good first i r p' h e g')
      | inr ((b, others), t) ↦ rw (t, assign) (reuse-Good first i r b others p' h e g' t)
    ]
  where
    p' : Pools
    p' = record p {
      live = (drain p.buffers r.first_node p.live p.free).0;
      free = (drain p.buffers r.first_node p.live p.free).1;
    }

    g' : Good first r.first_node p'
    g' = record {
      lists =
          drain-Lists p.buffers r.first_node p.live p.free
            (Lists-later p.buffers now r.first_node p.live p.free le g.lists);
      sound = g.sound;
      ordered = g.ordered;
      firsts = g.firsts;
    }
