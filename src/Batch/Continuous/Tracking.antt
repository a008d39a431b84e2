-- ===== src/Batch/Continuous/Tracking.antt =====
-- The identifiers in the lists of the scheduler stay within `states_`, so `state` does not throw,
-- and the cache keeps its invariant, through every history of calls.
use mathlib.Core.Option
use llmengine.Base.{
  AllBelow, AllBelow-append, AllBelow-mono, AllBelow-split, Bool-cases, List, Option, Option-cases,
  Returns, [], arith, get_elem?-eq-get_or, get_or, inl, inr, is_empty, is_neg, length,
  length-resize, length-set, nonpositive, not, pos, some, suc, ℕ, ℤ, ◌<◌, ◌∷◌, ◌≤◌,
}
use llmengine.Cache.Paged.{PagedKvCache}
use llmengine.Cache.Paged.Invariant.{Inv}
use llmengine.Batch.Continuous.{
  Request, SeqState, no_state, Scheduler, grown_states, queued, choose_id, start, enqueue, submit,
  admit_waiting,
}
use llmengine.Batch.Continuous.Progress.{
  update_state, mark_prefill_progress, mark_token_generated, mark_finished, evict_finished,
  collect_finished,
}
use llmengine.Batch.Continuous.Fifo.{Admitted, admit_waiting-Admitted}
use llmengine.Batch.Continuous.Evict.{
  evict_finished_lem, free_finished-Inv, AllBelow-unfinished, collect_loop_lem,
}

-- The calls on a scheduler that change it.
pub data Call : Type 0 where
  submits : Request → Call
  admits_waiting evicts collects : Call
  prefills generates : ℕ → ℤ → Call
  finishes : ℕ → Call

length-grown_states :
    (i : ℕ) (states : List SeqState)
    → (length states ≤ length (grown_states i states)) × (i < length (grown_states i states))
length-grown_states i states = ground (arith, length-resize (suc i) no_state states)

module _ {F : Type 0} where
  unfoldable pub step : Scheduler F → Call → Option (Scheduler F)
  step s (submits r) = some (submit r s).1
  step s admits_waiting = Option.map (λ r. r.1) (admit_waiting s)
  step s evicts = evict_finished s
  step s collects = some (collect_finished s).1
  step s (prefills i n) = mark_prefill_progress (pos i) n s
  step s (generates i token) = mark_token_generated (pos i) token s
  step s (finishes i) = mark_finished (pos i) s

  pub record Tracked (s : Scheduler F) : Type 0 where
    pub waiting : AllBelow (length s.states) s.waiting_queue
    pub active : AllBelow (length s.states) s.active_ids
    pub inv : Inv s.cache

  -- A call that marks a sequence names one that is tracked.
  abbrev pub Names : Scheduler F → Call → Type 0
  Names s (prefills i n) = i < length s.states
  Names s (generates i token) = i < length s.states
  Names s (finishes i) = i < length s.states
  Names s _ = Unit {0}

  enqueue-Tracked : (i : ℕ) (r : Request) (s : Scheduler F) → Tracked s → Tracked (enqueue i r s).1
  unfolding enqueue
  enqueue-Tracked i r s t =
      let states' = grown_states i s.states in
      let grown = length-grown_states i s.states in
      let active' = AllBelow-mono _ _ s.active_ids grown.0 t.active in
      let waiting' = AllBelow-mono _ _ s.waiting_queue grown.0 t.waiting in
      elim (Bool-cases (not (is_neg (get_or states' i no_state).sequence_id))) [
        | inl e ↦ rw e (record { waiting = waiting'; active = active'; inv = t.inv })
        | inr e ↦
            let same = length-set states' i (queued i r) in
            rw e (record {
              waiting = rw same (AllBelow-append _ s.waiting_queue (i ∷ []) waiting' (grown.1, tt));
              active = rw same active';
              inv = t.inv;
            })
      ]

  submit-Tracked : (r : Request) (s : Scheduler F) → Tracked s → Tracked (submit r s).1
  unfolding submit
  submit-Tracked r s t =
      let chosen = choose_id r.sequence_id s.next_sequence_id in
      let s' = record s { next_sequence_id = chosen.1 } in
      let t' : Tracked s' = record { waiting = t.waiting; active = t.active; inv = t.inv } in
      elim (Bool-cases (is_empty r.prompt_tokens)) [
        | inl e ↦ rw e t
        | inr e ↦ rw e (elim (Bool-cases (nonpositive r.max_tokens)) [
          | inl f ↦ rw f t
          | inr f ↦ rw f (enqueue-Tracked chosen.0 r s' t')
        ])
      ]

  update-Tracked :
      (i : ℕ) (f : SeqState → SeqState) (s : Scheduler F)
      → i < length s.states
      → Tracked s
      → Returns Tracked (update_state (pos i) f s)
  unfolding update_state
  update-Tracked i f s h t =
      rw (get_elem?-eq-get_or s.states i no_state h, update_state)
        (record {
          waiting = rw (length-set s.states i (f (get_or s.states i no_state))) t.waiting;
          active = rw (length-set s.states i (f (get_or s.states i no_state))) t.active;
          inv = t.inv;
        })

  Admitted-Tracked : (s s' : Scheduler F) → Tracked s → Admitted s s.waiting_queue s' → Tracked s'
  Admitted-Tracked s s' t a =
      let all = AllBelow-append _ s.active_ids s.waiting_queue t.active t.waiting in
      let split =
        AllBelow-split (length s.states) s'.active_ids s'.waiting_queue (rw a.order all) in
      record { waiting = rw a.tracked split.1; active = rw a.tracked split.0; inv = a.inv }

  evict-Tracked : (s : Scheduler F) → Tracked s → Returns Tracked (evict_finished s)
  evict-Tracked s t = rw (evict_finished_lem s t.active) (record {
    waiting = t.waiting;
    active = AllBelow-unfinished _ s.states s.active_ids t.active;
    inv = free_finished-Inv s.states s.active_ids s.cache t.inv;
  })

  collect-Tracked : (s : Scheduler F) → Tracked s → Tracked (collect_finished s).1
  unfolding collect_finished
  collect-Tracked s t =
      let same = (collect_loop_lem s.states).2 in
      record { waiting = rw same t.waiting; active = rw same t.active; inv = t.inv }

  admit-Tracked :
      (s : Scheduler F) → Tracked s → Returns Tracked (Option.map (λ r. r.1) (admit_waiting s))
  admit-Tracked s t =
      let done = admit_waiting-Admitted s t.waiting t.inv in
      elim (Option-cases (admit_waiting s)) [
        | inl e ↦ absurd (rw e at done)
        | inr (r, e) ↦ rw e (Admitted-Tracked s r.1 t (rw e at done))
      ]

  -- From a scheduler whose lists are tracked and whose cache has its invariant, a call that names
  -- tracked sequences does not throw, and leaves such a scheduler.
  pub step-Tracked :
      (s : Scheduler F) (x : Call) → Names s x → Tracked s → Returns Tracked (step s x)
  unfolding step mark_prefill_progress mark_token_generated mark_finished
  step-Tracked s (submits r) n t = submit-Tracked r s t
  step-Tracked s admits_waiting n t = admit-Tracked s t
  step-Tracked s evicts n t = evict-Tracked s t
  step-Tracked s collects n t = collect-Tracked s t
  step-Tracked s (prefills i n) h t = update-Tracked i _ s h t
  step-Tracked s (generates i token) h t = update-Tracked i _ s h t
  step-Tracked s (finishes i) h t = update-Tracked i _ s h t

  start-Tracked : (c : PagedKvCache F) (n : ℤ) → Inv c → Tracked (start c n)
  start-Tracked c n v = record { waiting = tt; active = tt; inv = v }
