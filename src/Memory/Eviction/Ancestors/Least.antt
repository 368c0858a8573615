-- ===== src/Memory/Eviction/Ancestors/Least.antt =====
-- The search ends within its fuel, in the least closed set above its seeds.
use vai_core.Prelude.{
  ℕ, zero, suc, ◌+◌, ◌≤◌, Bool, true, false, ◌||◌, Option, none, some, List, [], ◌∷◌, ◌++◌, String,
  ◌==◌, eq_iff, length, elem, elem-append, Distinct, ◌≡◌, refl, sym, ◌∙◌, subst, inl, inr, arith,
  Bool-cases, ◌⊎◌,
}
use vai_core.Prelude.Dict.{Dict, get, keys}
use vai_core.Prelude.Pigeonhole.{Within, length-Within}
use vai_core.Memory.Records.{SegmentMemoryRecord}
use vai_core.Memory.Eviction.{given}
use vai_core.Memory.Eviction.Ancestors.{
  new_ids, parent_of, missing, climb, ancestor_closure, Found, nothing, parent, missing-Found,
  Settled, Closed, Waiting, settled_now,
}

length-given : (o : Option String) → length (given o) ≤ 1
length-given none = omega arith
length-given (some p) = ground arith

length-parent_of : (o : Option SegmentMemoryRecord) → length (parent_of o) ≤ 1
length-parent_of none = omega arith
length-parent_of (some seg) = length-given seg.parent_id

module _ (segments_by_id : Dict SegmentMemoryRecord) where
  -- The search ended in a closed set, within every closed set that it could stay within.
  pub record Climbs (run : Option (List String)) (closure : List String) : Type 0 where
    pub ancestors : List String
    pub returned : run ≡ some ancestors
    pub keeps : Within closure ancestors
    pub closed : Closed segments_by_id ancestors
    pub least : (s : List String) → Closed segments_by_id s → Within closure s → Within ancestors s

  new_ids-Within :
      (closure ps : List String) (p : String)
      → elem p (new_ids segments_by_id closure ps) ≡ true
      → (elem p ps ≡ true) × (elem p (keys segments_by_id) ≡ true)
  unfolding elem
  new_ids-Within closure [] p m = absurd (cc m)
  new_ids-Within closure (q ∷ ps) p m = elim (Bool-cases (elem q (keys segments_by_id))) [
    | inr gone ↦ absurd (cc (rw gone at m))
    | inl there ↦ elim (Bool-cases (elem q closure)) [
      | inl old ↦ absurd (cc (rw (there, old) at m))
      | inr new ↦
          let same : q ≡ p = (eq_iff q p).0 (only (q == p) (rw (there, new) at m)) in
          (
            ground (arith, eq_iff q p, same),
            subst (λ r. elem r (keys segments_by_id) ≡ true) same there,
          )
    ]
  ]
    where
      only : (b : Bool) → (b || false) ≡ true → b ≡ true
      only b h = ground (arith, h)

  -- A turn of the loop, for what it finds.
  module _ (closure queue : List String) (id : String) (found : List String) where
    found-Waiting :
        Settled segments_by_id (found ++ closure) id
        → Waiting segments_by_id closure (id ∷ queue)
        → Waiting segments_by_id (found ++ closure) (found ++ queue)
    unfolding elem
    found-Waiting here waiting k m out =
        let (old_, not_queued) =
          parts (elem k found) (elem k closure) (elem k queue)
            (sym (elem-append k found closure) ∙ m) (sym (elem-append k found queue) ∙ out) in
        elim (Bool-cases (id == k)) [
          | inl same ↦ subst (Settled segments_by_id (found ++ closure)) ((eq_iff id k).0 same) here
          | inr other ↦ λ p up there.
              elem-append p found closure
              ∙ later (elem p found) (elem p closure)
                  (waiting k old_ (ground (arith, other, not_queued)) p up there)
        ]
      where
        parts : (f c q : Bool) → (f || c) ≡ true → (f || q) ≡ false → (c ≡ true) × (q ≡ false)
        parts f c q h k = ground (arith, h, k)

        later : (f c : Bool) → c ≡ true → (f || c) ≡ true
        later f c h = ground (arith, h)

    found-Within : (xs ys : List String) → Within xs ys → Within (found ++ xs) (found ++ ys)
    found-Within xs ys within k m =
        elem-append k found ys
        ∙ either (elem k found) (elem k xs) (elem k ys) (sym (elem-append k found xs) ∙ m)
            (within k)
      where
        either : (f a b : Bool) → (f || a) ≡ true → (a ≡ true → b ≡ true) → (f || b) ≡ true
        either f a b h w = ground (arith, h, w)

    append-Within : (xs s : List String) → Within found s → Within xs s → Within (found ++ xs) s
    append-Within xs s first rest k m = elim (Bool-cases (elem k found)) [
      | inl here ↦ first k here
      | inr gone ↦
          rest k (second (elem k found) (elem k xs) gone (sym (elem-append k found xs) ∙ m))
    ]
      where
        second : (f a : Bool) → f ≡ false → (f || a) ≡ true → a ≡ true
        second f a h k = ground (arith, h, k)

    right-Within : (xs : List String) → Within xs (found ++ xs)
    right-Within xs k m = elem-append k found xs ∙ later (elem k found) (elem k xs) m
      where
        later : (f c : Bool) → c ≡ true → (f || c) ≡ true
        later f c h = ground (arith, h)

  -- The ids added to the closure are distinct ids of segments, so that the fuel pays for them.
  abbrev Paid : (fuel : ℕ) → (closure queue added : List String) → Type 0
  Paid fuel closure queue added =
      Distinct added
      × Within added (keys segments_by_id)
      × Within added closure
      × (length queue + length (keys segments_by_id) ≤ fuel + length added)

  pay :
      (fuel : ℕ) (closure queue added : List String) (id : String) (found : List String)
      → Found segments_by_id closure found
      → Paid (suc fuel) closure (id ∷ queue) added
      → (more : List String) × Paid fuel (found ++ closure) (found ++ queue) more
  unfolding elem
  pay fuel closure queue added id _ nothing (distinct, known, inside, enough) =
      (added, (distinct, known, inside, omega (arith, enough)))
  pay fuel closure queue added id _ (parent p there new) (distinct, known, inside, enough) = (
    p ∷ added,
    (
      (fresh (Bool-cases (elem p added)), distinct),
      (λ k m. elim (Bool-cases (p == k)) [
        | inl same ↦ subst (λ j. elem j (keys segments_by_id) ≡ true) ((eq_iff p k).0 same) there
        | inr other ↦ known k (ground (arith, m, other))
      ]),
      (λ k m. ground (arith, m, inside k)),
      omega (arith, enough),
    ),
  )
    where
      fresh : (elem p added ≡ true) ⊎ (elem p added ≡ false) → elem p added ≡ false
      fresh (inl old) = absurd (cc (inside p old, new))
      fresh (inr e) = e

  climb-Climbs :
      (fuel : ℕ) (closure queue added : List String)
      → Waiting segments_by_id closure queue
      → Within queue closure
      → Paid fuel closure queue added
      → Climbs (climb fuel segments_by_id closure queue) closure
  unfolding climb missing elem
  climb-Climbs fuel closure [] added waiting within paid = record {
    ancestors = closure;
    returned = refl;
    keeps = λ k m. m;
    closed = λ k m. waiting k m refl;
    least = λ s closed inside. inside;
  }
  climb-Climbs zero closure (id ∷ queue) added waiting within (distinct, known, inside, enough) =
      let short = length-Within added (keys segments_by_id) distinct known in
      absurd (omega (arith, enough, short))
  climb-Climbs (suc fuel) closure (id ∷ queue) added waiting within paid =
      let found = missing segments_by_id closure id in
      let (more, paid_on) =
        pay fuel closure queue added id found (missing-Found segments_by_id closure id) paid in
      let here =
        settled_now segments_by_id closure (parent_of (get segments_by_id id))
          (length-parent_of (get segments_by_id id)) in
      let rest =
        climb-Climbs fuel (found ++ closure) (found ++ queue) more
          (found-Waiting closure queue id found here waiting)
          (found-Within closure queue id found queue closure (λ k m. within k (ground (arith, m))))
          paid_on in
      record {
        ancestors = rest.ancestors;
        returned = rest.returned;
        keeps = λ k m. rest.keeps k (right-Within closure queue id found closure k m);
        closed = rest.closed;
        least = λ s closed inside. rest.least s closed (
            append-Within closure queue id found closure s
              (λ p m.
                let (up, there) = new_ids-Within closure (parent_of (get segments_by_id id)) p m in
                closed id (inside id (within id (ground (arith, eq_iff id id)))) p up there)
              inside);
      }

-- On any seeds and segments, even with parents in a cycle, the search returns within its fuel: a set
-- with the seeds that is closed under the parents among the segments, and the least such set.
pub ancestor_closure-Climbs :
    (seed_ids : List String) (segments_by_id : Dict SegmentMemoryRecord)
    → Climbs segments_by_id (ancestor_closure seed_ids segments_by_id) seed_ids
unfolding ancestor_closure elem
ancestor_closure-Climbs seed_ids segments_by_id =
    climb-Climbs segments_by_id (length seed_ids + length (keys segments_by_id)) seed_ids seed_ids
      [] (λ k m out. absurd (cc (m, out))) (λ k m. m)
      (tt, (λ k m. absurd (cc m)), (λ k m. absurd (cc m)), omega arith)
