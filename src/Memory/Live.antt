-- ===== src/Memory/Live.antt =====
-- The live ranges of values, and which of them the planner places: the first two loops of
-- `MemoryPlanner::plan` in src/runtime/memory_planner.cpp.
use llmengine.Base.{
  Bool, List, Option, [], count, false, get_or, if◌then◌else◌, length, ltb, max, none, not,
  replicate, set, some, suc, true, ℕ, ◌%◌, ◌*◌, ◌++◌, ◌+◌, ◌/◌, ◌∷◌,
}
use llmengine.Core.Status.{out_of_range, Result, ok, err}
use llmengine.Core.DType.{dtype_size, DeviceType}
use llmengine.Core.Shape.{size_max, has_dynamic_dim, numel}
use llmengine.Graph.Data.{ValueKind, Value, Node}
use llmengine.Memory.{size_mod, align_up, Options, LiveRange, Plan}

-- `first_node`, `last_node` and `has_producer`.
pub record Lives : Type 0 where
  pub first : List ℕ
  pub last : List ℕ
  pub has_producer : List Bool

abbrev pub no_lives : ℕ → Lives
no_lives n = record {
  first = replicate n 0;
  last = replicate n 0;
  has_producer = replicate n false;
}

-- A value is read by the node at `index`.
abbrev pub read_at : ℕ → ℕ → Lives → Lives
read_at index v l =
    if ltb v (length l.last)
    then record l { last = set l.last v (max (get_or l.last v 0) index) }
    else l

-- A value is written by the node at `index`.
abbrev pub written_at : ℕ → ℕ → Lives → Lives
written_at index v l =
    if ltb v (length l.last)
    then record l {
      first = set l.first v index;
      last = set l.last v (max (get_or l.last v 0) index);
      has_producer = set l.has_producer v true;
    }
    else l

abbrev pub each : (ℕ → Lives → Lives) → List ℕ → Lives → Lives
each f [] l = l
each f (v ∷ vs) l = each f vs (f v l)

-- The loop over the order, whose nodes are at hand.
unfoldable pub live_loop : ℕ → List Node → Lives → Lives
live_loop index [] l = l
live_loop index (n ∷ ns) l =
    live_loop (suc index) ns (each (written_at index) n.outputs (each (read_at index) n.inputs l))

abbrev pub kind_ok : Options → ValueKind → Bool
kind_ok o ValueKind.intermediate = true
kind_ok o ValueKind.output = o.include_outputs
kind_ok o ValueKind.input = false
kind_ok o ValueKind.constant = false

abbrev pub supported : DeviceType → Bool
supported DeviceType.cpu = true
supported DeviceType.cuda = true
supported DeviceType.other = false

abbrev pub is_output_kind : ValueKind → Bool
is_output_kind ValueKind.output = true
is_output_kind _ = false

-- The range of a value before its size is known. `last_node` is at least `first_node`.
unfoldable pub range_of : Lives → ℕ → Value → LiveRange
range_of l graph_end v = record {
  value = v.id;
  name = v.name;
  bytes = 0;
  aligned_bytes = 0;
  dtype = v.dtype;
  device = v.device;
  kind = v.kind;
  first_node = first;
  last_node = if ltb last first then first else last;
  eligible = false;
  buffer_id = none;
}
  where
    first : ℕ
    first = if get_or l.has_producer v.id false then get_or l.first v.id 0 else 0

    last : ℕ
    last = if is_output_kind v.kind then graph_end else get_or l.last v.id 0

-- The size checks of one value; `none` is a value that is skipped.
unfoldable pub sized : Options → Value → LiveRange → Result (Option LiveRange)
unfolding numel dtype_size align_up
sized o v r =
    if not (kind_ok o v.kind)
    then ok none
    else if not (supported v.device.type)
    then ok none
    else if has_dynamic_dim v.shape
    then ok none
    else elim (numel v.shape) [
      | err e ↦ ok none
      | ok count ↦ elim (dtype_size v.dtype) [
        | err e ↦ ok none
        | ok size ↦
            if ltb (size_max / size) count
            then err out_of_range
            else ok (
                some (record r {
                  bytes = count * size;
                  aligned_bytes = align_up (count * size) o.alignment;
                  eligible = true;
                }))
      ]
    ]

-- The second loop: the ranges and the counters of the plan.
unfoldable pub range_loop : Options → Lives → ℕ → List Value → Plan → Result Plan
unfolding range_of sized
range_loop o l graph_end [] p = ok p
range_loop o l graph_end (v ∷ vs) p =
    let r = range_of l graph_end v in
    let skip =
      range_loop o l graph_end vs (record p {
        ranges = p.ranges ++ r ∷ [];
        skipped_value_count = p.skipped_value_count + 1;
      }) in
    let take = λ (r' : LiveRange). range_loop o l graph_end vs (record p {
      ranges = p.ranges ++ r' ∷ [];
      eligible_value_count = p.eligible_value_count + 1;
      naive_bytes = (p.naive_bytes + r'.aligned_bytes) % size_mod;
    }) in
    elim (sized o v r) [ err e ↦ err e | ok none ↦ skip | ok (some r') ↦ take r' ]
