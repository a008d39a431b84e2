-- ===== src/Batch/Continuous/Fifo.antt =====
-- What `admit_waiting` of src/runtime/continuous_batch_scheduler.cpp does to the two lists of
-- identifiers and to the cache.
use llmengine.Base.{
  AllBelow, Bool-cases, List, Option-cases, Returns, Returns-map, [], ap, arith, get_elem?,
  get_elem?-eq-get_or, get_or, inl, inr, leb, length, length-append, length-set, ltb→lt, max,
  nonpositive, pos, pos_part, refl, ℕ, ◌++◌, ◌<◌, ◌∙◌, ◌∷◌, ◌≡◌, ◌≤◌, ◌⊎◌,
}
use mathlib.Core.List.{append_assoc}
use llmengine.Core.Status.{ErrorCode, Status-cases}
use llmengine.Cache.Paged.{PagedKvCache}
use llmengine.Cache.Paged.Blocks.{ensure_sequence, reserve_sequence}
use llmengine.Cache.Paged.Invariant.{Inv}
use llmengine.Cache.Paged.Reserve.{ensure_sequence-Inv, reserve_sequence-Inv}
use llmengine.Batch.Continuous.{
  SeqPhase, SeqState, no_state, Scheduler, total_tokens, Round, throws, fails, stops, admits,
  activate, round, admit_loop, admit_waiting,
}

module _ {F : Type 0} where
  pub Round-cases :
      (r : Round F)
      → (r ≡ throws)
        ⊎ ((x : ErrorCode) × (c : PagedKvCache F) × (r ≡ fails x c))
        ⊎ ((c : PagedKvCache F) × (r ≡ stops c))
        ⊎ ((st : SeqState) × (c : PagedKvCache F) × (r ≡ admits st c))
  Round-cases throws = inl refl
  Round-cases (fails x c) = inr (inl (x, c, refl))
  Round-cases (stops c) = inr (inr (inl (c, refl)))
  Round-cases (admits st c) = inr (inr (inr (st, c, refl)))

  -- The cache of a round is the old one after the two calls on it.
  abbrev RoundKeeps : (PagedKvCache F → Type 0) → Round F → Type 0
  RoundKeeps P throws = Unit
  RoundKeeps P (fails x c) = P c
  RoundKeeps P (stops c) = P c
  RoundKeeps P (admits st c) = P c

  round-Inv : (i : ℕ) (s : Scheduler F) → Inv s.cache → RoundKeeps Inv (round i s)
  unfolding round
  round-Inv i s v = elim (Option-cases (get_elem? s.states i)) [
    | inl e ↦ rw (e, round) tt
    | inr (st, e) ↦
        let c = (ensure_sequence (pos i) s.cache).1 in
        let v' = ensure_sequence-Inv (pos i) s.cache v in
        rw (e, round)
          (elim (Status-cases (ensure_sequence (pos i) s.cache).0) [
            | inr (x, e') ↦ rw (e', round) v'
            | inl e' ↦
                let v'' = reserve_sequence-Inv (pos i) (total_tokens st) c v' in
                rw (e', round)
                  (elim (Status-cases (reserve_sequence (pos i) (total_tokens st) c).0) [
                    | inr (x, f) ↦ rw (f, round) v''
                    | inl f ↦ rw (f, round) v''
                  ])
          ])
  ]

  -- The state after a call of the loop on the queue `q` of `s`: the cache keeps its invariant, the
  -- active sequences followed by the waiting ones are the same list, in the same order, and the
  -- batch has not grown over its limit.
  pub record Admitted (s : Scheduler F) (q : List ℕ) (s' : Scheduler F) : Type 0 where
    pub inv : Inv s'.cache
    pub order : s'.active_ids ++ s'.waiting_queue ≡ s.active_ids ++ q
    pub bounded : length s'.active_ids ≤ max (length s.active_ids) (pos_part s.max_batch_size)
    pub grown : length s.active_ids ≤ length s'.active_ids
    pub config : s'.max_batch_size ≡ s.max_batch_size
    pub tracked : length s'.states ≡ length s.states

  stay-Admitted :
      (s : Scheduler F) (q : List ℕ) (c : PagedKvCache F)
      → s.waiting_queue ≡ q
      → Inv c
      → Admitted s q (record s { cache = c })
  stay-Admitted s q c e v = record {
    inv = v;
    order = ap (λ w. s.active_ids ++ w) e;
    bounded = omega arith;
    grown = omega arith;
    config = refl;
    tracked = refl;
  }

  round_ne_throws : (i : ℕ) (s : Scheduler F) → i < length s.states → round i s ≡ throws → ⊥
  unfolding round
  round_ne_throws i s h =
      let c = (ensure_sequence (pos i) s.cache).1 in
      let st = get_or s.states i no_state in
      rw (get_elem?-eq-get_or s.states i no_state h, round)
        (elim (Status-cases (ensure_sequence (pos i) s.cache).0) [
          | inr (x, e) ↦ rw (e, round) (λ p. cc)
          | inl e ↦
              rw (e, round)
                (elim (Status-cases (reserve_sequence (pos i) (total_tokens st) c).0) [
                  | inr (x, f) ↦ rw (f, round) (λ p. cc)
                  | inl f ↦ rw (f, round) (λ p. cc)
                ])
        ])

  activate-Admitted :
      (s s' : Scheduler F) (i : ℕ) (st : SeqState) (c : PagedKvCache F) (rest : List ℕ)
      → length s.active_ids < pos_part s.max_batch_size
      → Admitted (activate i st c rest s) rest s'
      → Admitted s (i ∷ rest) s'
  activate-Admitted s s' i st c rest room a = record {
    inv = a.inv;
    order = a.order ∙ append_assoc s.active_ids (i ∷ []) rest;
    bounded = omega (arith, a.bounded, room, length-append s.active_ids (i ∷ []));
    grown = omega (arith, a.grown, length-append s.active_ids (i ∷ []));
    config = a.config;
    tracked = a.tracked ∙ length-set s.states i (record st { phase = SeqPhase.prefilling });
  }

  admit_loop-Admitted :
      (q : List ℕ) (s : Scheduler F)
      → s.waiting_queue ≡ q
      → AllBelow (length s.states) q
      → Inv s.cache
      → Returns (λ r. Admitted s q r.1) (admit_loop q s)
  unfolding admit_loop
  admit_loop-Admitted [] s e b v = stay-Admitted s [] s.cache e v
  admit_loop-Admitted (i ∷ rest) s e b v =
      elim (Bool-cases (leb (pos_part s.max_batch_size) (length s.active_ids))) [
        | inl full ↦ rw full (stay-Admitted s (i ∷ rest) s.cache e v)
        | inr room ↦ rw room (
            let kept = round-Inv i s v in
            elim (Round-cases (round i s)) [
              | inl r ↦ absurd (round_ne_throws i s b.0 r)
              | inr (inl (x, c, r)) ↦
                  rw (r, admit_loop) (stay-Admitted s (i ∷ rest) c e (rw r at kept))
              | inr (inr (inl (c, r))) ↦
                  rw (r, admit_loop) (stay-Admitted s (i ∷ rest) c e (rw r at kept))
              | inr (inr (inr (st, c, r))) ↦
                  let next = activate i st c rest s in
                  let same = length-set s.states i (record st { phase = SeqPhase.prefilling }) in
                  rw (r, admit_loop)
                    (Returns-map (λ o. Admitted next rest o.1) (λ o. Admitted s (i ∷ rest) o.1) _
                      (λ o a. activate-Admitted s o.1 i st c rest (ltb→lt _ _ (ground arith)) a)
                      (admit_loop-Admitted rest next refl (rw same b.1) (rw r at kept)))
            ])
      ]

  -- Where every waiting identifier is tracked, `admit_waiting` returns and does not throw. On every
  -- path the cache keeps its invariant, the active sequences followed by the waiting ones are the
  -- same list in the same order (first in, first out), and the batch does not grow over its limit.
  pub admit_waiting-Admitted :
      (s : Scheduler F)
      → AllBelow (length s.states) s.waiting_queue
      → Inv s.cache
      → Returns (λ r. Admitted s s.waiting_queue r.1) (admit_waiting s)
  unfolding admit_waiting
  admit_waiting-Admitted s b v = elim (Bool-cases (nonpositive s.max_batch_size)) [
    | inl e ↦ rw e (stay-Admitted s s.waiting_queue s.cache refl v)
    | inr e ↦ rw e (admit_loop-Admitted s.waiting_queue s refl b v)
  ]
