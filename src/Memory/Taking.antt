-- ===== src/Memory/Taking.antt =====
-- A free buffer is taken, or a new one is made: the two branches of the third loop of
-- `MemoryPlanner::plan` in src/runtime/memory_planner.cpp, on its lists.
use llmengine.Base.{
  Bool-cases, List, [], ap, arith, false, get_or-append_last, get_or-append_left, get_or-set_ne,
  get_or-set_self, if◌then◌else◌, inl, inr, length, length-append, length-set, refl, set, some,
  subst, sym, true, ℕ, ◌++◌, ◌<◌, ◌==◌, ◌∷◌, ◌≡◌, ◌≢◌,
}
use llmengine.Core.DType.{}
use llmengine.Memory.{Buffer}
use llmengine.Memory.Pool.{
  PoolKey, same_key, buffer_key, Entry, emplace, no_buffer, update, take_fit,
}
use llmengine.Memory.Entries.{
  times, Every, Every-map, emplace-Every, times-emplace, Every-absent, times_beyond, Took,
  take_fit-Took,
}
use llmengine.Memory.Lists.{
  same_key_sym, same_key_trans, buffer_at, Live, Free, Lists, update-respects,
}

-- The buffer `b` is used until `last`, by one value more.
abbrev pub used_again : List Buffer → ℕ → ℕ → List ℕ → List Buffer
used_again bs b last vs = set bs b (record (buffer_at bs b) { last_use = last; values = vs })

-- Entries that do not name `b` keep what they say when the buffer `b` changes.
kept-Live :
    (bs : List Buffer) (b : ℕ) (x : Buffer) (es : List Entry)
    → times b es ≡ 0
    → Every (Live bs) es
    → Every (Live (set bs b x)) es
kept-Live bs b x es z h =
    Every-map (λ e. Live bs e × (e.buffer ≢ b)) (Live (set bs b x)) es
      (λ e u. (
        omega (arith, u.0.0, length-set bs b x),
        rw (get_or-set_ne bs b e.buffer x no_buffer (λ q. u.1 (sym q))) u.0.1,
      ))
      (Every-absent (Live bs) b es z h)

kept-Free :
    (bs : List Buffer) (now b : ℕ) (x : Buffer) (k : PoolKey) (es : List Entry)
    → times b es ≡ 0
    → Every (Free bs now k) es
    → Every (Free (set bs b x) now k) es
kept-Free bs now b x k es z h =
    Every-map (λ e. Free bs now k e × (e.buffer ≢ b)) (Free (set bs b x) now k) es
      (λ e u.
        let same : buffer_at (set bs b x) e.buffer ≡ buffer_at bs e.buffer =
          get_or-set_ne bs b e.buffer x no_buffer (λ q. u.1 (sym q)) in
        (omega (arith, u.0.0, length-set bs b x), rw same u.0.1, rw same u.0.2, rw same u.0.3))
      (Every-absent (Free bs now k) b es z h)

-- A buffer in the free list of one key is in that of no other.
other_key :
    (bs : List Buffer) (now b : ℕ) (j k : PoolKey) (es : List Entry)
    → Every (Free bs now j) es
    → same_key (buffer_key (buffer_at bs b)) k ≡ true
    → same_key k j ≡ false
    → times b es ≡ 0
other_key bs now b j k [] h own ne = refl
other_key bs now b j k (e ∷ es) h own ne = elim (Bool-cases (e.buffer == b)) [
  | inr f ↦ rw f (omega (arith, other_key bs now b j k es h.1 own ne))
  | inl t ↦
      let same : e.buffer ≡ b = ground (arith, t) in
      let at : same_key (buffer_key (buffer_at bs b)) j ≡ true =
        subst (λ x. same_key (buffer_key (buffer_at bs x)) j ≡ true) same h.0.2 in
      absurd (
        let both =
          same_key_trans k (buffer_key (buffer_at bs b)) j
            (same_key_sym (buffer_key (buffer_at bs b)) k own) at in
        ground (arith, both, ne))
]

pub reuse-Lists :
    (bs : List Buffer) (now need b last : ℕ) (vs : List ℕ) (live others : List Entry)
    (free : PoolKey → List Entry) (k : PoolKey)
    → Lists bs now live free
    → take_fit need (free k) ≡ some (b, others)
    → Lists
        (used_again bs b last vs)
        now
        (emplace (record { rank = last; buffer = b }) live)
        (update free k others)
reuse-Lists bs now need b last vs live others free k l t = record {
  once = λ j x. elim (Bool-cases (same_key k j)) [
    | inl s ↦ rw s (omega (arith, l.once k x, took.counts x, times-emplace x new live))
    | inr s ↦ rw s (
        ground (
          arith,
          l.once j x,
          took.counts x,
          times-emplace x new live,
          l.once k x,
          other_key bs now b j k (free j) (l.free_ok j) own.2 s,
        ))
  ];
  live_ok =
      emplace-Every (Live bs') new live
        (
          omega (arith, own.0, length-set bs b again),
          sym (ap (λ (y : Buffer). y.last_use) (get_or-set_self bs b again no_buffer own.0)),
        )
        (kept-Live bs b again live (omega (arith, l.once k b, took.counts b, self b)) l.live_ok);
  free_ok = λ j. elim (Bool-cases (same_key k j)) [
    | inl s ↦ rw s (
        kept-Free bs now b again j others (omega (arith, l.once k b, took.counts b, self b))
          (took.every (Free bs now j)
            (subst (λ es. Every (Free bs now j) es) (sym (l.respects k j s)) (l.free_ok j))).1)
    | inr s ↦ rw s (
        kept-Free bs now b again j (free j) (other_key bs now b j k (free j) (l.free_ok j) own.2 s)
          (l.free_ok j))
  ];
  respects = update-respects free k others l.respects;
}
  where
    took : Took need (free k) b others
    took = take_fit-Took need (free k) b others t

    new : Entry
    new = record { rank = last; buffer = b }

    again : Buffer
    again = record (buffer_at bs b) { last_use = last; values = vs }

    bs' : List Buffer
    bs' = set bs b again

    own : Free bs now k (record { rank = took.rank; buffer = b })
    own = (took.every (Free bs now k) (l.free_ok k)).0

    self : (b : ℕ) → ◌≡◌ {A = ℕ} (if b == b then 1 else 0) 1
    self b = ground arith

pub allocate-Lists :
    (bs : List Buffer) (now : ℕ) (x : Buffer) (live : List Entry) (free : PoolKey → List Entry)
    → Lists bs now live free
    → Lists
        (bs ++ x ∷ [])
        now
        (emplace (record { rank = x.last_use; buffer = length bs }) live)
        free
allocate-Lists bs now x live free l = record {
  once = λ j y. ground (arith, l.once j y, times-emplace y new live, none_live, none_free j);
  live_ok =
      emplace-Every (Live (bs ++ x ∷ [])) new live
        (
          omega (arith, length-append bs (x ∷ [])),
          sym (ap (λ (y : Buffer). y.last_use) (get_or-append_last bs x no_buffer)),
        )
        (Every-map (Live bs) (Live (bs ++ x ∷ [])) live
          (λ e h. (longer e.buffer h.0, rw (at e.buffer h.0) h.1)) l.live_ok);
  free_ok = λ j.
      Every-map (Free bs now j) (Free (bs ++ x ∷ []) now j) (free j)
        (λ e h.
          let same = at e.buffer h.0 in
          (longer e.buffer h.0, rw same h.1, rw same h.2, rw same h.3))
        (l.free_ok j);
  respects = l.respects;
}
  where
    new : Entry
    new = record { rank = x.last_use; buffer = length bs }

    none_live : times (length bs) live ≡ 0
    none_live = times_beyond (length bs) live (Every-map (Live bs) _ live (λ e h. h.0) l.live_ok)

    none_free : (j : PoolKey) → times (length bs) (free j) ≡ 0
    none_free j =
        times_beyond (length bs) (free j)
          (Every-map (Free bs now j) _ (free j) (λ e h. h.0) (l.free_ok j))

    longer : (b : ℕ) → b < length bs → b < length (bs ++ x ∷ [])
    longer b h = omega (arith, h, length-append bs (x ∷ []))

    at : (b : ℕ) → b < length bs → buffer_at (bs ++ x ∷ []) b ≡ buffer_at bs b
    at b h = get_or-append_left bs (x ∷ []) b no_buffer h
