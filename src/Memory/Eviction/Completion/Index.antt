-- ===== src/Memory/Eviction/Completion/Index.antt =====
-- The segments of a subgoal by their ids, and the references to them from outside.
use vai_core.Prelude.{
  Bool, true, false, ◌||◌, List, [], ◌∷◌, String, ◌==◌, eq_iff, elem, Distinct, keep, ◌≡◌, refl,
  sym, ap, ◌∙◌, subst, inl, inr, arith, Bool-cases,
}
use mathlib.Core.List.{Mem, mem-cons, not-mem-nil}
use mathlib.Core.Logic.Or
use vai_core.Prelude.Dict.{Dict, get, put, keys, get-put, get-put_self, elem-keys-put}
use vai_core.Prelude.Pigeonhole.{Within}
use vai_core.Memory.Records.{SegmentMemoryRecord}
use vai_core.Memory.Eviction.{given}
use vai_core.Memory.Eviction.Ancestors.{parent_of}
use vai_core.Memory.Eviction.Completion.{segment_ids, foreign, index}

pub elem_prop : (x : String) (xs : List String) (b : Bool) → IsProp (elem x xs ≡ b)
elem_prop x xs b = hlevel

pub mem-segment_ids :
    (s : SegmentMemoryRecord) (ts : List SegmentMemoryRecord)
    → Mem s ts
    → elem s.segment_id (segment_ids ts) ≡ true
unfolding elem
mem-segment_ids s [] m = absurd (not-mem-nil m)
mem-segment_ids s (t ∷ ts) m =
    Or.elim (elem_prop s.segment_id (segment_ids (t ∷ ts)) true) (mem-cons.0 m)
      (λ e. ground (arith, (eq_iff t.segment_id s.segment_id).1 (sym (ap (λ r. r.segment_id) e))))
      (λ n. ground (arith, mem-segment_ids s ts n))

module _ (test : SegmentMemoryRecord → Bool) where
  pub keep-Within :
      (ts : List SegmentMemoryRecord) → Within (segment_ids (keep test ts)) (segment_ids ts)
  unfolding keep elem
  keep-Within [] k m = m
  keep-Within (t ∷ ts) k m = elim (Bool-cases (test t)) [
    | inl kept ↦
        either (t.segment_id == k) (elem k (segment_ids (keep test ts))) (elem k (segment_ids ts))
          (rw kept at m) (keep-Within ts k)
    | inr dropped ↦
        later (t.segment_id == k) (elem k (segment_ids ts)) (keep-Within ts k (rw dropped at m))
  ]
    where
      either : (f a b : Bool) → (f || a) ≡ true → (a ≡ true → b ≡ true) → (f || b) ≡ true
      either f a b h w = ground (arith, h, w)

      later : (f c : Bool) → c ≡ true → (f || c) ≡ true
      later f c h = ground (arith, h)

  pub keep-Distinct :
      (ts : List SegmentMemoryRecord)
      → Distinct (segment_ids ts)
      → Distinct (segment_ids (keep test ts))
  unfolding keep
  keep-Distinct [] d = tt
  keep-Distinct (t ∷ ts) (new, d) = elim (Bool-cases (test t)) [
    | inl kept ↦ rw kept (
      elim (Bool-cases (elem t.segment_id (segment_ids (keep test ts)))) [
        | inl there ↦ absurd (cc (keep-Within ts t.segment_id there, new))
        | inr out ↦ out
      ],
      keep-Distinct ts d,
    )
    | inr dropped ↦ rw dropped (keep-Distinct ts d)
  ]

-- The index of the segments by their ids.
index_absent :
    (ts : List SegmentMemoryRecord) (d : Dict SegmentMemoryRecord) (k : String)
    → elem k (segment_ids ts) ≡ false
    → get (index ts d) k ≡ get d k
unfolding index elem
index_absent [] d k absent = refl
index_absent (t ∷ ts) d k absent =
    let (other, rest) = parts (t.segment_id == k) (elem k (segment_ids ts)) absent in
    index_absent ts (put d t.segment_id t) k rest ∙ get-put d t.segment_id k t ∙ rw other refl
  where
    parts : (a b : Bool) → (a || b) ≡ false → (a ≡ false) × (b ≡ false)
    parts a b h = ground (arith, h)

pub keys-index :
    (ts : List SegmentMemoryRecord) (d : Dict SegmentMemoryRecord) (k : String)
    → elem k (keys (index ts d)) ≡ (elem k (segment_ids ts) || elem k (keys d))
unfolding index elem
keys-index [] d k = refl
keys-index (t ∷ ts) d k =
    keys-index ts (put d t.segment_id t) k
    ∙ ap (λ b. elem k (segment_ids ts) || b) (elem-keys-put d t.segment_id k t)
    ∙ ground arith

pub index_parent :
    (ts : List SegmentMemoryRecord) (d : Dict SegmentMemoryRecord) (s : SegmentMemoryRecord)
    (p : String)
    → Distinct (segment_ids ts)
    → Mem s ts
    → elem p (given s.parent_id) ≡ true
    → elem p (parent_of (get (index ts d) s.segment_id)) ≡ true
unfolding index
index_parent [] d s p distinct m up = absurd (not-mem-nil m)
index_parent (t ∷ ts) d s p (new, distinct) m up =
    Or.elim (elem_prop p (parent_of (get (index (t ∷ ts) d) s.segment_id)) true) (mem-cons.0 m)
      (λ e.
        subst (λ r. elem p (parent_of (get (index (t ∷ ts) d) r.segment_id)) ≡ true) (sym e)
          (ap (λ o. elem p (parent_of o))
              (index_absent ts (put d t.segment_id t) t.segment_id new
                ∙ get-put_self d t.segment_id t)
            ∙ ap (λ r. elem p (given r.parent_id)) (sym e)
            ∙ up))
      (λ n. index_parent ts (put d t.segment_id t) s p distinct n up)

-- The two sets of references from outside.
pub foreign-elem :
    (subgoal_id : String) (target_ids : List String) (owner : String) (refs : List String)
    (p : String)
    → owner == subgoal_id ≡ false
    → elem p target_ids ≡ true
    → elem p refs ≡ true
    → elem p (foreign subgoal_id target_ids owner refs) ≡ true
unfolding foreign elem keep
foreign-elem subgoal_id target_ids owner [] p other there m = absurd (cc m)
foreign-elem subgoal_id target_ids owner (r ∷ refs) p other there m = elim (Bool-cases (r == p)) [
  | inl same ↦
      let here : elem r target_ids ≡ true =
        subst (λ q. elem q target_ids ≡ true) (sym ((eq_iff r p).0 same)) there in
      rw (other, here, same) refl
  | inr next ↦
      let rest =
        foreign-elem subgoal_id target_ids owner refs p other there (ground (arith, m, next)) in
      elim (Bool-cases (elem r target_ids)) [
        | inl kept ↦
            rw (other, kept)
              (later (r == p) (elem p (foreign subgoal_id target_ids owner refs)) rest)
        | inr dropped ↦ rw (other, dropped) rest
      ]
]
  where
    later : (f c : Bool) → c ≡ true → (f || c) ≡ true
    later f c h = ground (arith, h)
