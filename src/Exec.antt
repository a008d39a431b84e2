-- ===== src/Exec.antt =====
-- The executor, the backend and the registry of kernels: src/runtime/executor.cpp, backend.cpp,
-- kernel_registry.cpp. The CPU and the CUDA executor are one, with the device as an argument; the
-- kernels are values of the registry, functions on the state `S` of a run.
pub mod Compile
use llmengine.Base.{
  Bool, List, Option, [], false, if◌then◌else◌, negsuc, none, nonpositive, not, some, true, ℕ, ℤ,
  ◌&&◌, ◌==◌, ◌||◌, ◌∷◌,
}
use llmengine.Core.Status.{
  out_of_range, unsupported, not_implemented, runtime_error, Result, ok, err, Status, make_ok,
}
use llmengine.Core.DType.{DeviceType, device_index}
use llmengine.Cache.Contiguous.{KvCache, initialized, advance, can_append}
use llmengine.Graph.Data.{
  OpType, input, constant, embedding, matmul, linear, add, mul, rms_norm, layer_norm, silu, swiglu,
  rope, attention, qk_norm, softmax, reshape, transpose, view, contiguous, output, custom, Node,
  Graph, node, validate,
}
use llmengine.Graph.Sort.{topological_sort}

-- The position of an operation in the enumeration.
abbrev op_index : OpType → ℕ
op_index OpType.input = 0
op_index OpType.constant = 1
op_index OpType.embedding = 2
op_index OpType.matmul = 3
op_index OpType.linear = 4
op_index OpType.add = 5
op_index OpType.mul = 6
op_index OpType.rms_norm = 7
op_index OpType.layer_norm = 8
op_index OpType.silu = 9
op_index OpType.swiglu = 10
op_index OpType.rope = 11
op_index OpType.attention = 12
op_index OpType.qk_norm = 13
op_index OpType.softmax = 14
op_index OpType.reshape = 15
op_index OpType.transpose = 16
op_index OpType.view = 17
op_index OpType.contiguous = 18
op_index OpType.output = 19
op_index OpType.custom = 20

-- `Backend::supports`
unfoldable pub supports : OpType → Bool
supports OpType.embedding = true
supports OpType.matmul = true
supports OpType.linear = true
supports OpType.add = true
supports OpType.mul = true
supports OpType.rms_norm = true
supports OpType.silu = true
supports OpType.swiglu = true
supports OpType.rope = true
supports OpType.attention = true
supports OpType.qk_norm = true
supports OpType.softmax = true
supports OpType.reshape = true
supports OpType.transpose = true
supports OpType.output = true
supports _ = false

-- The operations that need no kernel.
abbrev pub no_kernel : OpType → Bool
no_kernel OpType.input = true
no_kernel OpType.constant = true
no_kernel OpType.output = true
no_kernel _ = false

-- `KernelFn`, on a state `S`.
abbrev pub Kernel : Type 0 → Type 0
Kernel S = Node → S → Status × S

-- An entry of `kernels_`.
pub record Entry (S : Type 0) : Type 0 where
  pub device : DeviceType
  pub op : OpType
  pub kernel : Kernel S

-- Neither key of the two comes before the other.
abbrev pub is_key : {S : Type 0} → DeviceType → OpType → Entry S → Bool
is_key device op e = device_index e.device == device_index device && op_index e.op == op_index op

-- `CpuExecutor` and `CudaExecutor`, with `graph_` null as `none`.
pub record Executor : Type 0 where
  pub graph : Option Graph
  pub execution_order : List ℕ

module _ {S : Type 0} where
  unfoldable pub register_kernel : DeviceType → OpType → Kernel S → List (Entry S) → List (Entry S)
  register_kernel device op fn [] = record { device = device; op = op; kernel = fn } ∷ []
  register_kernel device op fn (e ∷ es) =
      let rest = register_kernel device op fn es in
      if is_key device op e then record e { kernel = fn } ∷ es else e ∷ rest

  unfoldable pub find : DeviceType → OpType → List (Entry S) → Result (Kernel S)
  find device op [] = err not_implemented
  find device op (e ∷ es) =
      let rest = find device op es in if is_key device op e then ok e.kernel else rest

  unfoldable pub has : DeviceType → OpType → List (Entry S) → Bool
  has device op [] = false
  has device op (e ∷ es) = is_key device op e || has device op es

  -- The loop of `compile` over the order.
  unfoldable pub check_nodes : DeviceType → List (Entry S) → Graph → List ℕ → Status
  unfolding node supports has
  check_nodes device kernels g [] = make_ok
  check_nodes device kernels g (i ∷ is) =
      let rest = check_nodes device kernels g is in
      elim (node i g) [
        | err e ↦ err e
        | ok nd ↦
            if no_kernel nd.op_type
            then rest
            else if not (supports nd.op_type)
            then err unsupported
            else if not (has device nd.op_type kernels)
            then err not_implemented
            else rest
      ]

  unfoldable pub compile : DeviceType → List (Entry S) → Graph → Executor → Status × Executor
  unfolding validate topological_sort check_nodes
  compile device kernels g x = elim (validate g) [
    | err e ↦ (err e, x)
    | ok _ ↦ elim (topological_sort g) [
      | err e ↦ (err e, x)
      | ok order ↦ elim (check_nodes device kernels g order) [
        | err e ↦ (err e, x)
        | ok _ ↦ (make_ok, record { graph = some g; execution_order = order })
      ]
    ]
  ]

  -- The loop of `run`.
  unfoldable pub run_nodes : DeviceType → List (Entry S) → Graph → List ℕ → S → Status × S
  unfolding node find
  run_nodes device kernels g [] s = (make_ok, s)
  run_nodes device kernels g (i ∷ is) s = elim (node i g) [
    | err e ↦ (err e, s)
    | ok nd ↦
        if no_kernel nd.op_type
        then run_nodes device kernels g is s
        else elim (find device nd.op_type kernels) [
          | err e ↦ (err e, s)
          | ok kernel ↦
              let (st, s') = kernel nd s in
              elim st [ err e ↦ (err runtime_error, s') | ok _ ↦ run_nodes device kernels g is s' ]
        ]
  ]

-- What `run` touches of a `RuntimeContext`; `rest` is what only the kernels see.
pub record Context (F R : Type 0) : Type 0 where
  pub kv_cache : Option (KvCache F)
  pub kv_cache_advance_tokens : ℤ
  pub paged_kv_write_pos : ℤ
  pub rest : R

module _ {F R : Type 0} where
  unfoldable pub advance_kv_cache_step : Context F R → Status × Context F R
  unfolding can_append advance
  advance_kv_cache_step c =
      let c' = record c { paged_kv_write_pos = negsuc 0 } in
      if nonpositive c.kv_cache_advance_tokens then (make_ok, c') else elim c.kv_cache [
        | none ↦ (err runtime_error, c')
        | some k ↦
            if not (initialized k)
            then (err runtime_error, c')
            else if not (can_append c.kv_cache_advance_tokens k)
            then (err out_of_range, c')
            else (make_ok, record c' { kv_cache = some (advance c.kv_cache_advance_tokens k) })
      ]

  unfoldable pub run :
      DeviceType → List (Entry (Context F R)) → Executor → Context F R → Status × Context F R
  unfolding run_nodes advance_kv_cache_step
  run device kernels x s = elim x.graph [
    | none ↦ (err runtime_error, s)
    | some g ↦
        let (st, s') = run_nodes device kernels g x.execution_order s in
        elim st [
          | err e ↦ (err e, s')
          | ok _ ↦
              let (st', s'') = advance_kv_cache_step s' in
              elim st' [ err e ↦ (err runtime_error, s'') | ok _ ↦ (make_ok, s'') ]
        ]
  ]
