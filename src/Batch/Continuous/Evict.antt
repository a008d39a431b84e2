-- ===== src/Batch/Continuous/Evict.antt =====
-- `evict_finished` and `collect_finished` of src/runtime/continuous_batch_scheduler.cpp: who
-- leaves, and what they give back.

use llmengine.Base.{
  AllBelow, Bool, Bool-cases, List, [], ap, arith, contains, false, filter_by, get_elem?-eq-get_or,
  get_or, get_or_beyond, if◌then◌else◌, inl, inr, is_empty, leb, length, ltb, map, not, pos, refl,
  some, subst, suc, sym, true, ℕ, ℕ_discrete, ◌||◌, ◌∙◌, ◌∷◌, ◌≡◌,
}
use llmengine.Cache.Paged.{Sequence, PagedKvCache, no_sequence, seq_at}
use llmengine.Cache.Paged.Blocks.{free_sequence, has_sequence}
use llmengine.Cache.Paged.Invariant.{Inv}
use llmengine.Cache.Paged.Freeing.{free_sequence-Inv, free_sequence_returns, free_sequence_keeps}
use llmengine.Batch.Continuous.{SeqPhase, SeqState, no_state, Scheduler, is_finished}
use llmengine.Batch.Continuous.Progress.{
  to_output, collectable, collect_loop, evict_loop, evict_finished,
}

abbrev pub phase_of : List SeqState → ℕ → SeqPhase
phase_of states i = (get_or states i no_state).phase

-- The identifiers that are not finished, in order.
abbrev pub unfinished : List SeqState → List ℕ → List ℕ
unfinished states [] = []
unfinished states (i ∷ rest) =
    if is_finished (phase_of states i) then unfinished states rest else i ∷ unfinished states rest

module _ {F : Type 0} where
  -- The cache with the sequences of the finished identifiers freed, in order.
  abbrev pub free_finished : List SeqState → List ℕ → PagedKvCache F → PagedKvCache F
  free_finished states [] c = c
  free_finished states (i ∷ rest) c =
      free_finished states rest
        (if is_finished (phase_of states i) then (free_sequence (pos i) c).1 else c)

  evict_loop_lem :
      (states : List SeqState) (ids : List ℕ) (c : PagedKvCache F)
      → AllBelow (length states) ids
      → evict_loop states ids c ≡ some (unfinished states ids, free_finished states ids c)
  unfolding evict_loop
  evict_loop_lem states [] c b = refl
  evict_loop_lem states (i ∷ rest) c b =
      rw (get_elem?-eq-get_or states i no_state b.0, evict_loop)
        (elim (Bool-cases (is_finished (phase_of states i))) [
          | inl e ↦ rw e (evict_loop_lem states rest (free_sequence (pos i) c).1 b.1)
          | inr e ↦ rw (e, evict_loop_lem states rest c b.1)
        ])

  -- When every active identifier is tracked, `evict_finished` returns: the active list keeps its
  -- unfinished entries in order, and exactly the sequences of the others are freed.
  pub evict_finished_lem :
      (s : Scheduler F)
      → AllBelow (length s.states) s.active_ids
      → evict_finished s
        ≡ some (record s {
          active_ids = unfinished s.states s.active_ids;
          cache = free_finished s.states s.active_ids s.cache;
        })
  unfolding evict_finished
  evict_finished_lem s b = rw (evict_loop_lem s.states s.active_ids s.cache b)

  pub free_finished-Inv :
      (states : List SeqState) (ids : List ℕ) (c : PagedKvCache F)
      → Inv c
      → Inv (free_finished states ids c)
  free_finished-Inv states [] c v = v
  free_finished-Inv states (i ∷ rest) c v = elim (Bool-cases (is_finished (phase_of states i))) [
    | inl e ↦ rw e (free_finished-Inv states rest _ (free_sequence-Inv (pos i) c v))
    | inr e ↦ rw e (free_finished-Inv states rest c v)
  ]

  -- `has_sequence` is a test of the entry alone: past the end there is none.
  has_sequence-seq_at :
      (i : ℕ) (c : PagedKvCache F)
      → has_sequence (pos i) c ≡ (not (is_empty (seq_at c i).blocks) || ltb 0 (seq_at c i).length)
  unfolding has_sequence
  has_sequence-seq_at i c = elim (Bool-cases (leb (length c.sequences) i)) [
    | inl e ↦
        let none_there : seq_at c i ≡ no_sequence =
          get_or_beyond c.sequences i no_sequence (ground arith) in
        rw (e, none_there)
    | inr e ↦ rw e
  ]

  -- An identifier with no blocks keeps none while another is freed.
  still_absent :
      (c : PagedKvCache F) (i j : ℕ)
      → Inv c
      → has_sequence (pos i) c ≡ false
      → has_sequence (pos i) (free_sequence (pos j) c).1 ≡ false
  still_absent c i j v h =
      let freed = free_sequence_returns (pos j) c v in
      elim (ℕ_discrete i j) [
        | yes e ↦ rw e freed.1
        | no n ↦
            has_sequence-seq_at i (free_sequence (pos j) c).1
            ∙ ap (λ (q : Sequence). not (is_empty q.blocks) || ltb 0 q.length)
                (free_sequence_keeps (pos j) i c v n)
            ∙ sym (has_sequence-seq_at i c)
            ∙ h
      ]

  free_finished_keeps :
      (states : List SeqState) (ids : List ℕ) (c : PagedKvCache F) (i : ℕ)
      → Inv c
      → has_sequence (pos i) c ≡ false
      → has_sequence (pos i) (free_finished states ids c) ≡ false
  free_finished_keeps states [] c i v h = h
  free_finished_keeps states (j ∷ rest) c i v h =
      elim (Bool-cases (is_finished (phase_of states j))) [
        | inl e ↦ rw e (
            free_finished_keeps states rest _ i (free_sequence-Inv (pos j) c v)
              (still_absent c i j v h))
        | inr e ↦ rw e (free_finished_keeps states rest c i v h)
      ]

  free_finished_frees :
      (states : List SeqState) (ids : List ℕ) (c : PagedKvCache F) (i : ℕ)
      → Inv c
      → contains i ids ≡ true
      → is_finished (phase_of states i) ≡ true
      → has_sequence (pos i) (free_finished states ids c) ≡ false
  free_finished_frees states [] c i v m f = cc
  free_finished_frees states (j ∷ rest) c i v m f = elim (ℕ_discrete i j) [
    | yes e ↦ rw (ap (λ k. is_finished (phase_of states k)) (sym e) ∙ f) (
        free_finished_keeps states rest _ i (free_sequence-Inv (pos j) c v)
          (rw e (free_sequence_returns (pos j) c v).1))
    | no n ↦
        let m' : contains i rest ≡ true = ground arith in
        elim (Bool-cases (is_finished (phase_of states j))) [
          | inl e ↦ rw e (free_finished_frees states rest _ i (free_sequence-Inv (pos j) c v) m' f)
          | inr e ↦ rw e (free_finished_frees states rest c i v m' f)
        ]
  ]

contains-unfinished :
    (states : List SeqState) (ids : List ℕ) (i : ℕ)
    → is_finished (phase_of states i) ≡ true
    → contains i (unfinished states ids) ≡ false
contains-unfinished states [] i f = refl
contains-unfinished states (j ∷ rest) i f = elim (Bool-cases (is_finished (phase_of states j))) [
  | inl e ↦ rw e (contains-unfinished states rest i f)
  | inr e ↦ elim (ℕ_discrete i j) [
    | yes q ↦ absurd (differ (subst (λ k. is_finished (phase_of states k) ≡ false) (sym q) e))
    | no n ↦ rw e (ground (arith, n, contains-unfinished states rest i f))
  ]
]
  where
    differ : is_finished (phase_of states i) ≡ false → ⊥
    differ e = contradiction f e
      where
        contradiction : {b : Bool} → b ≡ true → b ≡ false → ⊥
        contradiction p q = cc

-- When the cache has its invariant and every active identifier is tracked, `evict_finished` returns,
-- and after it a finished sequence that was active is active no more and holds nothing in the cache.
pub evict_finished-frees :
    {F : Type 0} (s : Scheduler F) (i : ℕ)
    → Inv s.cache
    → AllBelow (length s.states) s.active_ids
    → contains i s.active_ids ≡ true
    → is_finished (phase_of s.states i) ≡ true
    → (s' : Scheduler F) × (evict_finished s ≡ some s')
      × (contains i s'.active_ids ≡ false)
      × (has_sequence (pos i) s'.cache ≡ false)
evict_finished-frees s i v b m f = (
  _,
  evict_finished_lem s b,
  contains-unfinished s.states s.active_ids i f,
  free_finished_frees s.states s.active_ids s.cache i v m f,
)

pub AllBelow-unfinished :
    (n : ℕ) (states : List SeqState) (ids : List ℕ)
    → AllBelow n ids
    → AllBelow n (unfinished states ids)
AllBelow-unfinished n states [] b = tt
AllBelow-unfinished n states (i ∷ rest) b = ground (arith, AllBelow-unfinished n states rest b.1)

-- The outputs of a call are those of the finished sequences with an identifier, in the order of
-- `states_`; a second call finds none.
pub collect_loop_lem :
    (states : List SeqState)
    → ((collect_loop states).0 ≡ map to_output (filter_by collectable states))
      × ((collect_loop (collect_loop states).1).0 ≡ [])
      × (length (collect_loop states).1 ≡ length states)
unfolding collect_loop
collect_loop_lem [] = (refl, refl, refl)
collect_loop_lem (st ∷ rest) =
    let ih = collect_loop_lem rest in
    elim (Bool-cases (collectable st)) [
      | inl e ↦ rw e (ap (λ o. to_output st ∷ o) ih.0, ground (arith, ih.1), ap suc ih.2)
      | inr e ↦ rw e (ih.0, rw e ih.1, ap suc ih.2)
    ]
