-- ===== src/Batch/Continuous.antt =====
-- The continuous batch scheduler: include/minillm/runtime/continuous_batch_scheduler.h and
-- src/runtime/continuous_batch_scheduler.cpp. The cache that it refers to is a field of its state.
-- Vectors of identifiers hold only identifiers that `submit` has checked to be non-negative, so
-- they are lists of ℕ. `none` is the exception of `std::vector::at`.
pub mod Progress
pub mod Tracking
pub mod Fifo
pub mod Evict
use llmengine.Base.{
  Bool, List, Option, [], false, get_elem?, get_or, if◌then◌else◌, is_empty, is_neg, leb, length,
  negsuc, none, nonpositive, not, pos, pos_part, resize, set, some, suc, true, ℕ, ℤ, ◌&&◌, ◌++◌,
  ◌+ℤ◌, ◌∷◌,
}
use llmengine.Core.Status.{ErrorCode, invalid_argument, ok, err, Status, make_ok}
use llmengine.Cache.Paged.{PagedKvCache}
use mathlib.Core.Option
use llmengine.Cache.Paged.Blocks.{ensure_sequence, reserve_sequence}

-- `SequenceRequest`
pub record Request : Type 0 where
  pub sequence_id : ℤ
  pub prompt_tokens : List ℤ
  pub max_tokens : ℤ

-- `SequenceOutput`
pub record Output : Type 0 where
  pub sequence_id : ℤ
  pub prompt_tokens : List ℤ
  pub generated_tokens : List ℤ
  pub finished : Bool

pub data SeqPhase : Type 0 where
  waiting prefilling decoding finished : SeqPhase

pub record SeqState : Type 0 where
  pub sequence_id : ℤ
  pub phase : SeqPhase
  pub prompt_tokens : List ℤ
  pub generated_tokens : List ℤ
  pub max_tokens : ℤ
  pub prefilled_tokens : ℤ

-- The default member values of `SeqState`.
abbrev pub no_state : SeqState
no_state = record {
  sequence_id = negsuc 0;
  phase = SeqPhase.waiting;
  prompt_tokens = [];
  generated_tokens = [];
  max_tokens = pos 64;
  prefilled_tokens = pos 0;
}

pub record Scheduler (F : Type 0) : Type 0 where
  pub cache : PagedKvCache F
  pub max_batch_size : ℤ
  pub states : List SeqState
  pub waiting_queue : List ℕ
  pub active_ids : List ℕ
  pub next_sequence_id : ℕ

abbrev pub is_finished : SeqPhase → Bool
is_finished SeqPhase.finished = true
is_finished SeqPhase.waiting = false
is_finished SeqPhase.prefilling = false
is_finished SeqPhase.decoding = false

-- `states_`, made long enough for the identifier `i`.
abbrev pub grown_states : ℕ → List SeqState → List SeqState
grown_states i states = if leb (length states) i then resize (suc i) no_state states else states

abbrev pub queued : ℕ → Request → SeqState
queued i r = record {
  sequence_id = pos i;
  phase = SeqPhase.waiting;
  prompt_tokens = r.prompt_tokens;
  generated_tokens = [];
  max_tokens = r.max_tokens;
  prefilled_tokens = pos 0;
}

-- The choice of the identifier. The test `seq_id < 0` of the source follows it, and never holds.
unfoldable pub choose_id : ℤ → ℕ → ℕ × ℕ
choose_id (pos i) next = (i, if leb next i then suc i else next)
choose_id (negsuc i) next = (next, suc next)

-- `static_cast<int>(s.prompt_tokens.size()) + s.max_tokens`
unfoldable pub total_tokens : SeqState → ℤ
unfolding ◌+ℤ◌
total_tokens st = pos (length st.prompt_tokens) +ℤ st.max_tokens

-- What a round of the loop of `admit_waiting` finds out about the front of the queue.
pub data Round (F : Type 0) : Type 0 where
  throws : Round F
  fails : ErrorCode → PagedKvCache F → Round F
  stops : PagedKvCache F → Round F
  admits : SeqState → PagedKvCache F → Round F

module _ {F : Type 0} where
  -- `ContinuousBatchScheduler(cache, config)`
  abbrev pub start : PagedKvCache F → ℤ → Scheduler F
  start cache max_batch_size = record {
    cache = cache;
    max_batch_size = max_batch_size;
    states = [];
    waiting_queue = [];
    active_ids = [];
    next_sequence_id = 0;
  }

  -- `state(sequence_id)`: a negative identifier is converted to a huge index.
  abbrev pub state : ℤ → Scheduler F → Option SeqState
  state (pos i) s = get_elem? s.states i
  state (negsuc i) s = none

  abbrev pub all_done : Scheduler F → Bool
  all_done s = is_empty s.active_ids && is_empty s.waiting_queue

  -- The part of `submit` after the identifier `i` is chosen and `next_sequence_id_` is set.
  unfoldable pub enqueue : ℕ → Request → Scheduler F → Status × Scheduler F
  enqueue i r s =
      let states' = grown_states i s.states in
      if not (is_neg (get_or states' i no_state).sequence_id)
      then (err invalid_argument, record s { states = states' })
      else (
        make_ok,
        record s { states = set states' i (queued i r); waiting_queue = s.waiting_queue ++ i ∷ [] },
      )

  unfoldable pub submit : Request → Scheduler F → Status × Scheduler F
  unfolding enqueue choose_id
  submit r s =
      if is_empty r.prompt_tokens
      then (err invalid_argument, s)
      else if nonpositive r.max_tokens
      then (err invalid_argument, s)
      else let (i, next) = choose_id r.sequence_id s.next_sequence_id in
        enqueue i r (record s { next_sequence_id = next })

  -- The end of a round of the loop: the front of the queue becomes active.
  abbrev pub activate : ℕ → SeqState → PagedKvCache F → List ℕ → Scheduler F → Scheduler F
  activate i st cache rest s = record s {
    cache = cache;
    states = set s.states i (record st { phase = SeqPhase.prefilling });
    active_ids = s.active_ids ++ i ∷ [];
    waiting_queue = rest;
  }

  unfoldable pub round : ℕ → Scheduler F → Round F
  unfolding ensure_sequence reserve_sequence total_tokens
  round i s = elim (get_elem? s.states i) [
    | none ↦ throws
    | some st ↦
        let (e, c) = ensure_sequence (pos i) s.cache in
        elim e [
          | err x ↦ fails x c
          | ok _ ↦
              let (e', c') = reserve_sequence (pos i) (total_tokens st) c in
              elim e' [ err x ↦ stops c' | ok _ ↦ admits st c' ]
        ]
  ]

  -- The loop of `admit_waiting`; the list is `waiting_queue`.
  unfoldable pub admit_loop : List ℕ → Scheduler F → Option (Status × Scheduler F)
  unfolding round
  admit_loop [] s = some (make_ok, s)
  admit_loop (i ∷ rest) s =
      if leb (pos_part s.max_batch_size) (length s.active_ids)
      then some (make_ok, s)
      else elim (round i s) [
        | throws ↦ none
        | fails x c ↦ some (err x, record s { cache = c })
        | stops c ↦ some (make_ok, record s { cache = c })
        | admits st c ↦ admit_loop rest (activate i st c rest s)
      ]

  unfoldable pub admit_waiting : Scheduler F → Option (Status × Scheduler F)
  unfolding admit_loop
  admit_waiting s =
      if nonpositive s.max_batch_size
      then some (err invalid_argument, s)
      else admit_loop s.waiting_queue s
