-- ===== src/Batch/Continuous/Progress.antt =====
-- The progress of sequences, their eviction and their collection: `mark_prefill_progress` to
-- `collect_finished` of src/runtime/continuous_batch_scheduler.cpp.
use mathlib.Core.Option
use llmengine.Base.{
  Bool, List, Option, [], get_elem?, if◌then◌else◌, is_neg, length, ltb_ℤ, negsuc, none, not, pos,
  pos_part, set, some, true, ℕ, ℤ, ◌&&◌, ◌++◌, ◌∷◌,
}
use llmengine.Cache.Paged.{PagedKvCache}
use llmengine.Cache.Paged.Blocks.{free_sequence}
use llmengine.Batch.Continuous.{Output, SeqPhase, SeqState, Scheduler, is_finished, state}

abbrev pub to_output : SeqState → Output
to_output st = record {
  sequence_id = st.sequence_id;
  prompt_tokens = st.prompt_tokens;
  generated_tokens = st.generated_tokens;
  finished = true;
}

abbrev pub collectable : SeqState → Bool
collectable st = is_finished st.phase && not (is_neg st.sequence_id)

-- The loop of `collect_finished` over `states_`.
unfoldable pub collect_loop : List SeqState → List Output × List SeqState
collect_loop [] = ([], [])
collect_loop (st ∷ rest) =
    let (outs, states) = collect_loop rest in
    if collectable st
    then (to_output st ∷ outs, record st { sequence_id = negsuc 0 } ∷ states)
    else (outs, st ∷ states)

module _ {F : Type 0} where
  -- A change of one entry of `states_`, through `state(sequence_id)`.
  unfoldable pub update_state : ℤ → (SeqState → SeqState) → Scheduler F → Option (Scheduler F)
  update_state id f s = elim (state id s) [
    | none ↦ none
    | some st ↦ some (record s { states = set s.states (pos_part id) (f st) })
  ]

  unfoldable pub mark_prefill_progress : ℤ → ℤ → Scheduler F → Option (Scheduler F)
  unfolding update_state
  mark_prefill_progress id n = update_state id λ st. record st {
    prefilled_tokens = n;
    phase = if ltb_ℤ n (pos (length st.prompt_tokens)) then st.phase else SeqPhase.decoding;
  }

  unfoldable pub mark_token_generated : ℤ → ℤ → Scheduler F → Option (Scheduler F)
  unfolding update_state
  mark_token_generated id token = update_state id λ st. record st {
    generated_tokens = st.generated_tokens ++ token ∷ [];
    phase =
        if ltb_ℤ (pos (length (st.generated_tokens ++ token ∷ []))) st.max_tokens
        then st.phase
        else SeqPhase.finished;
  }

  unfoldable pub mark_finished : ℤ → Scheduler F → Option (Scheduler F)
  unfolding update_state
  mark_finished id = update_state id λ st. record st { phase = SeqPhase.finished }

  -- The loop of `evict_finished` over `active_ids_`: the entries that stay, and the cache.
  unfoldable pub evict_loop :
      List SeqState → List ℕ → PagedKvCache F → Option (List ℕ × PagedKvCache F)
  unfolding free_sequence
  evict_loop states [] c = some ([], c)
  evict_loop states (i ∷ rest) c = elim (get_elem? states i) [
    | none ↦ none
    | some st ↦
        let gone = evict_loop states rest (free_sequence (pos i) c).1 in
        let stays = evict_loop states rest c in
        if is_finished st.phase
        then gone
        else Option.map (λ r. let (ids, c') = r in (i ∷ ids, c')) stays
  ]

  unfoldable pub evict_finished : Scheduler F → Option (Scheduler F)
  unfolding evict_loop
  evict_finished s =
      Option.map (λ r. let (ids, c) = r in record s { active_ids = ids; cache = c })
        (evict_loop s.states s.active_ids s.cache)

  unfoldable pub collect_finished : Scheduler F → List Output × Scheduler F
  unfolding collect_loop
  collect_finished s =
      let (outs, states) = collect_loop s.states in (outs, record s { states = states })
