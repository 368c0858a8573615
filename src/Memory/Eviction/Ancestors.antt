-- ===== src/Memory/Eviction/Ancestors.antt =====
-- `EvictionRules._ancestor_closure`: the search upward through the parents, on fuel.
pub mod Least
use vai_core.Prelude.{
  ℕ, zero, suc, ◌+◌, ◌≤◌, Bool, true, false, not, ◌&&◌, ◌||◌, Option, none, some, List, [], ◌∷◌,
  ◌++◌, String, ◌==◌, eq_iff, length, elem, Distinct, ◌≡◌, refl, sym, ap, ◌∙◌, subst, inl, inr,
  arith, Bool-cases, if◌then◌else◌,
}
use vai_core.Prelude.Dict.{Dict, get, keys}
use vai_core.Prelude.Pigeonhole.{Within, length-Within}
use vai_core.Memory.Records.{SegmentMemoryRecord}
use vai_core.Memory.Eviction.{given}

-- The parent of a segment, if it is among the segments and not yet in the closure.
abbrev pub new_ids : Dict SegmentMemoryRecord → List String → List String → List String
new_ids segments_by_id closure [] = []
new_ids segments_by_id closure (p ∷ ps) =
    if elem p (keys segments_by_id) && not (elem p closure) then p ∷ [] else []

abbrev pub parent_of : Option SegmentMemoryRecord → List String
parent_of none = []
parent_of (some seg) = given seg.parent_id

unfoldable pub missing : Dict SegmentMemoryRecord → List String → String → List String
unfolding get elem
missing segments_by_id closure id =
    new_ids segments_by_id closure (parent_of (get segments_by_id id))

-- The loop: the top of the queue, a Python list used as a stack, stands first.
unfoldable pub climb :
    (fuel : ℕ) → Dict SegmentMemoryRecord → (closure queue : List String) → Option (List String)
unfolding missing
climb fuel segments_by_id closure [] = some closure
climb zero segments_by_id closure (id ∷ queue) = none
climb (suc fuel) segments_by_id closure (id ∷ queue) =
    let found = missing segments_by_id closure id in
    climb fuel segments_by_id (found ++ closure) (found ++ queue)

unfoldable pub ancestor_closure :
    (seed_ids : List String) → Dict SegmentMemoryRecord → Option (List String)
unfolding climb
ancestor_closure seed_ids segments_by_id =
    climb (length seed_ids + length (keys segments_by_id)) segments_by_id seed_ids seed_ids

-- What `missing` finds: nothing, or one segment outside the closure.
pub data Found (segments_by_id : Dict SegmentMemoryRecord) (closure : List String)
    : List String → Type 0 where
  nothing : Found segments_by_id closure []
  parent :
      (p : String)
      → elem p (keys segments_by_id) ≡ true
      → elem p closure ≡ false
      → Found segments_by_id closure (p ∷ [])

new_ids-Found :
    (segments_by_id : Dict SegmentMemoryRecord) (closure ps : List String)
    → Found segments_by_id closure (new_ids segments_by_id closure ps)
new_ids-Found segments_by_id closure [] = nothing
new_ids-Found segments_by_id closure (p ∷ ps) = elim (Bool-cases (elem p (keys segments_by_id))) [
  | inr gone ↦ rw gone nothing
  | inl there ↦ elim (Bool-cases (elem p closure)) [
    | inl old ↦ rw (there, old) nothing
    | inr new ↦ rw (there, new) (parent p there new)
  ]
]

pub missing-Found :
    (segments_by_id : Dict SegmentMemoryRecord) (closure : List String) (id : String)
    → Found segments_by_id closure (missing segments_by_id closure id)
unfolding missing
missing-Found segments_by_id closure id =
    new_ids-Found segments_by_id closure (parent_of (get segments_by_id id))

module _ (segments_by_id : Dict SegmentMemoryRecord) where
  -- The parent of `id`, if it is a segment here, is in the closure.
  abbrev pub Settled : List String → String → Type 0
  Settled closure id =
      (p : String)
      → elem p (parent_of (get segments_by_id id)) ≡ true
      → elem p (keys segments_by_id) ≡ true
      → elem p closure ≡ true

  abbrev pub Closed : List String → Type 0
  Closed closure = (id : String) → elem id closure ≡ true → Settled closure id

  -- What is in the closure and not in the queue is settled.
  abbrev pub Waiting : (closure queue : List String) → Type 0
  Waiting closure queue =
      (id : String) → elem id closure ≡ true → elem id queue ≡ false → Settled closure id

  pub settled_now :
      (closure ps : List String)
      → length ps ≤ 1
      → (p : String) → elem p ps ≡ true
      → elem p (keys segments_by_id) ≡ true
      → elem p (new_ids segments_by_id closure ps ++ closure) ≡ true
  unfolding elem
  settled_now closure [] one p m there = absurd (cc m)
  settled_now closure (q ∷ []) one p m there =
      let same : q ≡ p = (eq_iff q p).0 (ground (arith, m)) in
      subst (λ r. elem r (new_ids segments_by_id closure (q ∷ []) ++ closure) ≡ true) same
        (elim (Bool-cases (elem q closure)) [
          | inl old ↦
              rw (subst (λ r. elem r (keys segments_by_id) ≡ true) (sym same) there, old) old
          | inr new ↦
              rw (subst (λ r. elem r (keys segments_by_id) ≡ true) (sym same) there, new)
                (ground (arith, eq_iff q q))
        ])
  settled_now closure (q ∷ r ∷ ps) one p m there = absurd (omega (arith, one))
