-- ===== src/Lib.antt =====
-- A verification library for MiniLLMEngine, an inference engine for language models.
--
-- The program loads a model from a GGUF file, builds a graph of operations whose shapes are
-- inferred, plans the memory of the values between them, and generates tokens for several sequences
-- at once over a paged cache of keys and values. The continuous batch scheduler decides which
-- sequences run and calls the cache to reserve and free their blocks; the paged attention scheduler
-- lays out the block tables of a batch for the attention kernel.
--
-- Which module models which part (paths from the repository's root):
--
--   Core     src/core/status.cpp, src/core/shape.cpp, include/minillm/core: error codes and results,
--            element types and devices, shapes (`make_shape`, `numel`).
--   Cache    Paged: src/runtime/cache/paged_kv_cache.cpp. `PagedKvCache` has the members of the class;
--            `init`, `reset`, `release`, Blocks (`reserve_sequence`, `free_sequence`,
--            `physical_block_for_position`, ...) and Tokens (`write_tokens`, `append_tokens`,
--            `key_ptr`, ...) are its member functions. Contents is what the cache promises, a
--            map from tokens to rows; the other modules hold the proofs, of which History
--            relates every history of calls to that map.
--            Contiguous: src/runtime/cache/kv_cache.cpp.
--   Batch    Continuous: src/runtime/continuous_batch_scheduler.cpp (`submit`, `admit_waiting`, the
--            `mark_` functions, `evict_finished`, `collect_finished`). The cache that the scheduler
--            refers to is a field of its state, so that every call on it is seen. Attention:
--            src/runtime/cache/paged_attention_scheduler.cpp (`add_sequence`, `build_batch`, ...); here
--            the cache is an argument.
--   Graph    Data: src/graph/graph.cpp (insertion, lookup, `validate`). Sort: its
--            `topological_sort`. ShapeInfer: src/graph/shape_infer.cpp. Builder:
--            src/graph/graph_builder.cpp.
--   Memory   src/runtime/memory_planner.cpp: `plan` (Planner), made of the live ranges (Live),
--            the assignment of buffers (Pool) and the arenas (Layout). It runs the sort of the
--            graph first; `std::sort` is a parameter, whose laws are the record Sorts (Sorting).
--            The other modules hold the proofs.
--   Tokenizer  src/io/bpe_tokenizer.cpp: UTF-8 (Bytes), the table between bytes and code points
--            (ByteMap), `pre_tokenize` (PreTokenize), `bpe` (Bpe), `init` (Init), `encode` and `decode`.
--            Greedy is what `bpe` promises, merges of a list of texts without links; RoundTrip holds
--            the proofs on `decode` after `encode`.
--   Exec     src/runtime/executor.cpp, backend.cpp and kernel_registry.cpp (`compile`, `run`), and
--            `advance_kv_cache_step` of src/runtime/runtime_context.cpp, which ends a run.
--   Io       src/io/gguf_format.cpp and src/io/gguf_parser.cpp: the binary readers (Reader), metadata
--            (Metadata), tensor infos and the bytes of a tensor (Tensors), whole files (File); Codec,
--            RoundTrip, Consumption, Fuel and Bounds hold the proofs.
--   Base     what the modules share: Boolean tests, lists over native numbers, integers, division.
--   Tests    the theorems at concrete inputs.
--
-- Conventions. A member function takes the state and returns a result and the next state; an exception
-- is `none`. An `int` or `int64_t` that a caller chooses is an integer; members that are never negative
-- are numbers. In the paged cache the sums and products of `int` wrap as two's complement (in C++ the
-- overflow is undefined), and the theorems that need a range have it as a hypothesis; elsewhere `int`
-- arithmetic is without overflow. `size_t` and `uint64_t` arithmetic is taken modulo 2^64 where the
-- source does not test for overflow first; an allocation is taken to succeed. A `float` of a cache is an element of any type with a zero.
--
-- Loops are structural recursion on the list or the number of rounds. Some recurse on fuel:
-- `read_metadata_value` on the length of the stream plus one, since an array header takes twelve
-- bytes, so arrays cannot nest deeper (Io.Fuel), and the queue of `topological_sort` on the number of
-- nodes, each of which enters the queue once (Graph.Sort.Visit). The loops of the tokenizer over a text recurse
-- on its length, since a round takes a byte at least (Tokenizer.PreTokenize.Rounds,
-- Tokenizer.RoundTrip.Whole), and the merges on the square of the number of symbols, since a merge moves
-- a link forward (Tokenizer.Bpe.Fuel).
--
-- Not modelled: the CUDA variants of the caches and all kernels (device code and floating-point
-- arithmetic), the decoding of attention, the weight loader, the transformer graph builder, tensors
-- and most of the runtime context, the sampler, and everything that only prints. What the
-- operating system gives for a file name is an argument of `parse` and `read_tensor_data`.
pub mod Base
pub mod Core
pub mod Cache
pub mod Batch
pub mod Graph
pub mod Memory
pub mod Tokenizer
pub mod Exec
pub mod Io
pub mod Tests
