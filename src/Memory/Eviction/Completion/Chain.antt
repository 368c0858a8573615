-- ===== src/Memory/Eviction/Completion/Chain.antt =====
-- The eviction for a completed subgoal leaves no chain of segments broken.
use vai_core.Prelude.{
  ℕ, Bool, true, false, not, ◌||◌, Option, none, some, List, [], ◌∷◌, ◌++◌, map, String, ◌==◌,
  eq_iff, elem, elem-append, Distinct, keep, ◌≡◌, refl, sym, ap, ◌∙◌, subst, inl, inr, arith,
  Bool-cases, ◌⊎◌,
}
use mathlib.Core.List.{Mem, mem-cons, not-mem-nil}
use mathlib.Core.Logic.Or
use vai_core.Prelude.Dict.{keys}
use vai_core.Prelude.Members.{keep-mem}
use vai_core.Memory.Records.{SegmentMemoryRecord, PlanMemoryRecord, DriftEvent}
use vai_core.Memory.Eviction.{
  EvictionDecision, CompletionEvictionSummary, record_key, drift_event_id, subgoal_complete,
  by_subgoal, given, segment_decision,
}
use vai_core.Memory.Eviction.Ancestors.{Closed}
use vai_core.Memory.Eviction.Ancestors.Least.{Climbs, ancestor_closure-Climbs}
use vai_core.Memory.Eviction.Completion.{
  segment_ids, target_segments, foreign, external_parent_refs, plan_refs, index, retained_closure,
  safe_to_evict, completion_summary, evict_on_subgoal_completion,
}
use vai_core.Memory.Eviction.Completion.Index.{
  mem-segment_ids, keep-Within, keep-Distinct, keys-index, index_parent, foreign-elem,
}

module _ (subgoal_id : String) (target_ids : List String) (p : String) where
  external-elem :
      (segments : List SegmentMemoryRecord) (s : SegmentMemoryRecord)
      → Mem s segments
      → s.subgoal_id == subgoal_id ≡ false
      → elem p target_ids ≡ true
      → elem p (given s.parent_id) ≡ true
      → elem p (external_parent_refs subgoal_id target_ids segments) ≡ true
  unfolding external_parent_refs
  external-elem [] s m other there up = absurd (not-mem-nil m)
  external-elem (t ∷ segments) s m other there up =
      elem-append p (foreign subgoal_id target_ids t.subgoal_id (given t.parent_id))
        (external_parent_refs subgoal_id target_ids segments)
      ∙ Or.elim (or_prop) (mem-cons.0 m)
          (λ e.
            first (elem p (foreign subgoal_id target_ids t.subgoal_id (given t.parent_id)))
              (elem p (external_parent_refs subgoal_id target_ids segments))
              (foreign-elem subgoal_id target_ids t.subgoal_id (given t.parent_id) p
                (ap (λ r. r.subgoal_id == subgoal_id) (sym e) ∙ other) there
                (ap (λ r. elem p (given r.parent_id)) (sym e) ∙ up)))
          (λ n.
            second (elem p (foreign subgoal_id target_ids t.subgoal_id (given t.parent_id)))
              (elem p (external_parent_refs subgoal_id target_ids segments))
              (external-elem segments s n other there up))
    where
      or_prop : IsProp (
          (elem p (foreign subgoal_id target_ids t.subgoal_id (given t.parent_id))
            || elem p (external_parent_refs subgoal_id target_ids segments))
          ≡ true)
      or_prop = hlevel

      first : (a b : Bool) → a ≡ true → (a || b) ≡ true
      first a b h = ground (arith, h)

      second : (a b : Bool) → b ≡ true → (a || b) ≡ true
      second a b h = ground (arith, h)

-- The ids of the records that decisions evict.
abbrev pub evicted_ids : List EvictionDecision → List String
evicted_ids [] = []
evicted_ids (d ∷ ds) = elim d.record_id [
  | record_key k ↦ k ∷ evicted_ids ds
  | drift_event_id n h ↦ evicted_ids ds
]

evicted_ids-map :
    (now : ℕ) (subgoal_id : String) (ts : List SegmentMemoryRecord)
    → evicted_ids (map (segment_decision subgoal_complete now (by_subgoal subgoal_id)) ts)
      ≡ segment_ids ts
evicted_ids-map now subgoal_id [] = refl
evicted_ids-map now subgoal_id (t ∷ ts) =
    ap (λ l. t.segment_id ∷ l) (evicted_ids-map now subgoal_id ts)

safe_apart :
    (retained : List String) (ts : List SegmentMemoryRecord) (k : String)
    → elem k (segment_ids (safe_to_evict retained ts)) ≡ true
    → elem k retained ≡ false
unfolding safe_to_evict keep elem
safe_apart retained [] k m = absurd (cc m)
safe_apart retained (t ∷ ts) k m = elim (Bool-cases (elem t.segment_id retained)) [
  | inl kept ↦ safe_apart retained ts k (rw kept at m)
  | inr open_ ↦ elim (Bool-cases (t.segment_id == k)) [
    | inl same ↦ subst (λ j. elem j retained ≡ false) ((eq_iff t.segment_id k).0 same) open_
    | inr other ↦ safe_apart retained ts k (
        next (t.segment_id == k) (elem k (segment_ids (safe_to_evict retained ts))) other
          (rw open_ at m))
  ]
]
  where
    next : (a b : Bool) → a ≡ false → (a || b) ≡ true → b ≡ true
    next a b h k = ground (arith, h, k)

module _ (subgoal_id : String) (segments : List SegmentMemoryRecord)
    (plans : List PlanMemoryRecord) where
  targets : List SegmentMemoryRecord
  targets = target_segments subgoal_id segments

  -- What the search retains.
  retained_closure-Climbs : Climbs (index targets []) (retained_closure subgoal_id segments plans) (
      external_parent_refs subgoal_id (segment_ids targets) segments
      ++ plan_refs subgoal_id (segment_ids targets) plans)
  unfolding retained_closure targets
  retained_closure-Climbs =
      ancestor_closure-Climbs
        (external_parent_refs subgoal_id (segment_ids targets) segments
          ++ plan_refs subgoal_id (segment_ids targets) plans)
        (index targets [])

  -- A segment that is not evicted keeps its parent.
  parent_kept :
      (retained : List String)
      → Climbs (index targets []) (some retained) (
          external_parent_refs subgoal_id (segment_ids targets) segments
          ++ plan_refs subgoal_id (segment_ids targets) plans)
      → Distinct (segment_ids segments)
      → (s : SegmentMemoryRecord) → Mem s segments
      → elem s.segment_id (segment_ids (safe_to_evict retained targets)) ≡ false
      → (p : String) → elem p (given s.parent_id) ≡ true
      → elem p (segment_ids (safe_to_evict retained targets)) ≡ false
  unfolding targets target_segments safe_to_evict
  parent_kept retained c distinct s m kept p up =
      let same : c.ancestors ≡ retained = cc c.returned in
      let closed : Closed (index targets []) retained =
        subst (Closed (index targets [])) same c.closed in
      elim (Bool-cases (elem p (segment_ids (safe_to_evict retained targets)))) [
        | inr stays ↦ stays
        | inl out ↦
            let gone = safe_apart retained targets p out in
            let there = keep-Within (λ t. not (elem t.segment_id retained)) targets p out in
            elim (Bool-cases (s.subgoal_id == subgoal_id)) [
              | inl own ↦
                  let target : Mem s targets =
                    keep-mem (λ t. t.subgoal_id == subgoal_id) segments s m own in
                  let inside =
                    closed s.segment_id (retains target (Bool-cases (elem s.segment_id retained))) p
                      (index_parent targets [] s p
                        (keep-Distinct (λ t. t.subgoal_id == subgoal_id) segments distinct) target
                        up)
                      (keys-index targets [] p
                        ∙ either (elem p (segment_ids targets))
                            (elem p (keys {V = SegmentMemoryRecord} [])) there) in
                  absurd (cc (inside, gone))
              | inr other ↦
                  let inside = c.keeps p (
                    elem-append p (external_parent_refs subgoal_id (segment_ids targets) segments)
                      (plan_refs subgoal_id (segment_ids targets) plans)
                    ∙ either
                        (elem p (external_parent_refs subgoal_id (segment_ids targets) segments))
                        (elem p (plan_refs subgoal_id (segment_ids targets) plans))
                        (external-elem subgoal_id (segment_ids targets) p segments s m other there
                          up)) in
                  absurd (cc (subst (λ a. elem p a ≡ true) same inside, gone))
            ]
      ]
    where
      either : (a b : Bool) → a ≡ true → (a || b) ≡ true
      either a b h = ground (arith, h)

      retains :
          Mem s targets
          → (elem s.segment_id retained ≡ true) ⊎ (elem s.segment_id retained ≡ false)
          → elem s.segment_id retained ≡ true
      retains target (inl here) = here
      retains target (inr free) = absurd (
          cc (
            kept,
            mem-segment_ids s (safe_to_evict retained targets)
                (keep-mem (λ t. not (elem t.segment_id retained)) targets s target (rw free refl)),
          ))

module _ (stable_hash : DriftEvent → String) (subgoal_id : String)
    (segments : List SegmentMemoryRecord) (drift_events : List DriftEvent)
    (plans : List PlanMemoryRecord) (now : ℕ) (evict_plan : Bool) where
  -- The eviction for a completed subgoal always returns a summary.
  pub evict_on_subgoal_completion_returns :
      (summary : CompletionEvictionSummary) × (evict_on_subgoal_completion stable_hash subgoal_id
          segments drift_events plans now evict_plan
        ≡ some summary)
  unfolding evict_on_subgoal_completion
  evict_on_subgoal_completion_returns =
      let c = retained_closure-Climbs subgoal_id segments plans in
      (
        _,
        ap (completion_summary stable_hash subgoal_id segments drift_events plans now evict_plan)
            c.returned,
      )

  -- Where no segment id stands twice, the eviction for a completed subgoal never evicts the parent of
  -- a segment that it leaves, of whichever subgoal the segment is.
  pub evict_on_subgoal_completion_chain :
      Distinct (segment_ids segments)
      → (summary : CompletionEvictionSummary)
      → evict_on_subgoal_completion stable_hash subgoal_id segments drift_events plans now
          evict_plan
        ≡ some summary
      → (s : SegmentMemoryRecord) → Mem s segments
      → elem s.segment_id (evicted_ids summary.evicted_segments) ≡ false
      → (p : String) → elem p (given s.parent_id) ≡ true
      → elem p (evicted_ids summary.evicted_segments) ≡ false
  unfolding evict_on_subgoal_completion targets
  evict_on_subgoal_completion_chain distinct summary run =
      with_closure (retained_closure subgoal_id segments plans)
        (retained_closure-Climbs subgoal_id segments plans) run
    where
      ids_in : Option CompletionEvictionSummary → List String
      ids_in none = []
      ids_in (some r) = evicted_ids r.evicted_segments

      with_closure :
          (o : Option (List String))
          → Climbs (index (targets subgoal_id segments plans) []) o (
              external_parent_refs subgoal_id
                (segment_ids (targets subgoal_id segments plans))
                segments
              ++ plan_refs subgoal_id (segment_ids (targets subgoal_id segments plans)) plans)
          → completion_summary stable_hash subgoal_id segments drift_events plans now evict_plan o
            ≡ some summary
          → (s : SegmentMemoryRecord) → Mem s segments
          → elem s.segment_id (evicted_ids summary.evicted_segments) ≡ false
          → (p : String) → elem p (given s.parent_id) ≡ true
          → elem p (evicted_ids summary.evicted_segments) ≡ false
      with_closure none c done s m kept p up = absurd (cc done)
      with_closure (some retained) c done s m kept p up =
          let same =
            sym (ap ids_in done)
            ∙ evicted_ids-map now subgoal_id
                (safe_to_evict retained (target_segments subgoal_id segments)) in
          ap (elem p) same
          ∙ parent_kept subgoal_id segments plans retained c distinct s m
              (ap (elem s.segment_id) (sym same) ∙ kept) p up
