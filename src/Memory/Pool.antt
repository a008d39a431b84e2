-- ===== src/Memory/Pool.antt =====
-- The assignment of buffers: the third loop of `MemoryPlanner::plan` in
-- src/runtime/memory_planner.cpp. A `std::multiset` of pairs is its sorted list; `pools` is a
-- function from its keys.
use llmengine.Base.{
  Bool, List, Option, [], get_elem?, get_or, if◌then◌else◌, leb, length, ltb, neg_part, none, pos,
  pos_part, set, some, ℕ, ℤ, ◌&&◌, ◌++◌, ◌==◌, ◌||◌, ◌∷◌,
}
use llmengine.Core.DType.{DType, dtype_index, DeviceType, device_index}
use llmengine.Memory.{LiveRange, Buffer}

pub record PoolKey : Type 0 where
  pub dtype : DType
  pub dev_type : DeviceType
  pub dev_idx : ℤ

abbrev pub eq_ℤ : ℤ → ℤ → Bool
eq_ℤ a b = pos_part a == pos_part b && neg_part a == neg_part b

-- `PoolKey::operator==`
abbrev pub same_key : PoolKey → PoolKey → Bool
same_key a b =
    dtype_index a.dtype == dtype_index b.dtype
    && (device_index a.dev_type == device_index b.dev_type && eq_ℤ a.dev_idx b.dev_idx)

abbrev pub range_key : LiveRange → PoolKey
range_key r = record { dtype = r.dtype; dev_type = r.device.type; dev_idx = r.device.index }

abbrev pub buffer_key : Buffer → PoolKey
buffer_key b = record { dtype = b.dtype; dev_type = b.device.type; dev_idx = b.device.index }

-- An entry (n, b) of a multiset: a number and the index of a buffer.
pub record Entry : Type 0 where
  pub rank : ℕ
  pub buffer : ℕ

-- The order of pairs.
abbrev pub before : Entry → Entry → Bool
before a b = ltb a.rank b.rank || a.rank == b.rank && ltb a.buffer b.buffer

-- `emplace`
unfoldable pub emplace : Entry → List Entry → List Entry
emplace e [] = e ∷ []
emplace e (x ∷ xs) = if before x e then x ∷ emplace e xs else e ∷ x ∷ xs

pub record Pools : Type 0 where
  pub ranges : List LiveRange
  pub buffers : List Buffer
  pub free : PoolKey → List Entry
  pub live : List Entry

abbrev pub no_buffer : Buffer
no_buffer = record {
  id = 0;
  bytes = 0;
  dtype = DType.unknown;
  device = record { type = DeviceType.cpu; index = pos 0 };
  last_use = 0;
  arena_index = none;
  offset = 0;
  values = [];
}

abbrev pub update : (PoolKey → List Entry) → PoolKey → List Entry → PoolKey → List Entry
update f k v j = if same_key k j then v else f j

-- The `while` loop: buffers whose last use lies before `first` become free. `live` is the list of
-- entries still to be looked at.
unfoldable pub drain :
    List Buffer → ℕ → List Entry → (PoolKey → List Entry) → List Entry × (PoolKey → List Entry)
unfolding emplace
drain buffers first [] free = ([], free)
drain buffers first (e ∷ live) free =
    let b = get_or buffers e.buffer no_buffer in
    let k = buffer_key b in
    let rest =
      drain buffers first live
        (update free k (emplace (record { rank = b.bytes; buffer = e.buffer }) (free k))) in
    if ltb e.rank first then rest else (e ∷ live, free)

-- `lower_bound({need, 0})` and `erase`: the first entry of at least `need` bytes, and the others.
unfoldable pub take_fit : ℕ → List Entry → Option (ℕ × List Entry)
take_fit need [] = none
take_fit need (e ∷ es) =
    let rest = take_fit need es in
    if leb need e.rank
    then some (e.buffer, es)
    else elim rest [ none ↦ none | some (b, others) ↦ some (b, e ∷ others) ]

-- The range `i` gets the buffer `bi`, which was taken from its pool.
abbrev pub reuse : ℕ → LiveRange → ℕ → List Entry → Pools → Pools
reuse i r bi others p =
    let b = get_or p.buffers bi no_buffer in
    record p {
      buffers =
          set p.buffers bi (record b { last_use = r.last_node; values = b.values ++ r.value ∷ [] });
      ranges = set p.ranges i (record r { buffer_id = some b.id });
      free = update p.free (range_key r) others;
      live = emplace (record { rank = r.last_node; buffer = bi }) p.live;
    }

-- The range `i` gets a new buffer.
abbrev pub allocate : ℕ → LiveRange → Pools → Pools
allocate i r p =
    let bi = length p.buffers in
    record p {
      buffers =
          p.buffers
          ++ record {
            id = bi;
            bytes = r.aligned_bytes;
            dtype = r.dtype;
            device = r.device;
            last_use = r.last_node;
            arena_index = none;
            offset = 0;
            values = r.value ∷ [];
          }
            ∷ [];
      ranges = set p.ranges i (record r { buffer_id = some bi });
      live = emplace (record { rank = r.last_node; buffer = bi }) p.live;
    }

-- One round of the loop, for the range `r` at index `i`.
unfoldable pub assign : ℕ → LiveRange → Pools → Pools
unfolding drain take_fit emplace
assign i r p =
    let (live, free) = drain p.buffers r.first_node p.live p.free in
    let p' = record p { live = live; free = free } in
    elim (take_fit r.aligned_bytes (free (range_key r))) [
      | none ↦ allocate i r p'
      | some (bi, others) ↦ reuse i r bi others p'
    ]

-- The loop over the sorted indices of the eligible ranges.
unfoldable pub assign_all : List ℕ → Pools → Pools
unfolding assign
assign_all [] p = p
assign_all (i ∷ is) p = elim (get_elem? p.ranges i) [
  | none ↦ assign_all is p
  | some r ↦ assign_all is (assign i r p)
]
