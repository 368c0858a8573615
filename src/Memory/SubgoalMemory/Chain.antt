-- ===== src/Memory/SubgoalMemory/Chain.antt =====
-- What the chain of a subgoal is.
use vai_core.Prelude.{
  ℕ, zero, suc, ◌+◌, ◌≤◌, Bool, true, false, ◌||◌, Option, none, some, List, [], ◌∷◌, map, String,
  ◌==◌, eq_iff, ok, length, elem, Distinct, ◌≡◌, refl, sym, ap, ◌∙◌, subst, inl, inr, arith,
  Bool-cases, Option-cases,
}
use vai_core.Prelude.Dict.{get, keys, get-put, get-put_self}
use vai_core.Prelude.Pigeonhole.{Within, length-Within}
use vai_core.Memory.Records.{SubgoalMemoryRecord}
use vai_core.Memory.Lifecycle.{
  SubgoalLifecycleState, pending, active, satisfied, abandoned, closed, created, validated, ready,
  running, success, failed, blocked, retrying,
}
use vai_core.Memory.SubgoalMemory.{
  Store, Subgoal, value, state_of, record_of, put_subgoal, with_state, to_subgoal, get_subgoal,
  wanted, cons_to, walk, reverse, reversed, get_chain,
}

abbrev pub link_ids : List SubgoalMemoryRecord → List String
link_ids links = map (λ r. r.subgoal_id) links

-- Every record stands under its own id.
abbrev pub IsKeyed : Store → Type 0
IsKeyed store = (k : String) (r : SubgoalMemoryRecord) → get store k ≡ some r → r.subgoal_id ≡ k

abbrev pub is_missing : Option SubgoalMemoryRecord → Bool
is_missing none = true
is_missing (some r) = false

-- An id at which a chain ends: none, the empty one, one seen before, or one that is not stored.
abbrev pub ends_at : Store → (seen : List String) → Option String → Bool
ends_at store seen none = true
ends_at store seen (some id) = id == "" || elem id seen || is_missing (get store id)

-- Records linked by their parents, from `current` upward, after the ids `seen`: each is stored, none
-- was seen before, and the last one's parent ends the chain.
abbrev pub Linked : Store → (seen : List String) → Option String → List SubgoalMemoryRecord → Type 0
Linked store seen current [] = ends_at store seen current ≡ true
Linked store seen current (r ∷ links) =
    (current ≡ some r.subgoal_id)
    × (get store r.subgoal_id ≡ some r)
    × (elem r.subgoal_id seen ≡ false)
    × Linked store (r.subgoal_id ∷ seen) r.parent_id links

get-key :
    (store : Store) (k : String) (r : SubgoalMemoryRecord)
    → get store k ≡ some r
    → elem k (keys store) ≡ true
unfolding get elem
get-key [] k r e = absurd (cc e)
get-key ((j, v) ∷ store) k r e = elim (Bool-cases (j == k)) [
  | inl same ↦ rw same refl
  | inr other ↦ rw other (get-key store k r (rw other at e))
]

-- What `wanted` lets through.
wanted-none :
    (store : Store) (current : Option String) (seen : List String)
    → wanted current seen ≡ none
    → ends_at store seen current ≡ true
wanted-none store none seen e = refl
wanted-none store (some id) seen e = elim (Bool-cases (id == "" || elem id seen)) [
  | inl stop ↦ rw stop refl
  | inr on ↦ absurd (cc (rw on at e))
]

wanted-some :
    (current : Option String) (seen : List String) (id : String)
    → wanted current seen ≡ some id
    → (current ≡ some id) × (elem id seen ≡ false)
wanted-some none seen id e = absurd (cc e)
wanted-some (some j) seen id e = elim (Bool-cases (j == "" || elem j seen)) [
  | inl stop ↦ absurd (cc (rw stop at e))
  | inr on ↦
      let same : some j ≡ some id = rw on at e in
      let out = right (j == "") (elem j seen) on in (same, ap (λ o. test o) (sym same) ∙ out)
]
  where
    right : (a b : Bool) → (a || b) ≡ false → b ≡ false
    right a b h = ground (arith, h)

    test : Option String → Bool
    test none = false
    test (some k) = elem k seen

module _ (store : Store) (keyed : IsKeyed store) where
  -- The walk returns a chain.
  abbrev Walks : Option (List SubgoalMemoryRecord) → (seen : List String) → Option String → Type 0
  Walks run seen current =
      (links : List SubgoalMemoryRecord) × (run ≡ some links) × Linked store seen current links

  abbrev Paid : (fuel : ℕ) → List String → Type 0
  Paid fuel seen =
      Distinct seen × Within seen (keys store) × (suc (length (keys store)) ≤ fuel + length seen)

  pay :
      (fuel : ℕ) (seen : List String) (id : String)
      → elem id seen ≡ false
      → elem id (keys store) ≡ true
      → Paid (suc fuel) seen
      → Paid fuel (id ∷ seen)
  unfolding elem
  pay fuel seen id new there (distinct, known, enough) = (
    (new, distinct),
    (λ k m. elim (Bool-cases (id == k)) [
      | inl same ↦ subst (λ j. elem j (keys store) ≡ true) ((eq_iff id k).0 same) there
      | inr other ↦ known k (ground (arith, m, other))
    ]),
    omega (arith, enough),
  )

  walk-Linked :
      (fuel : ℕ) (seen : List String) (current : Option String)
      → Paid fuel seen
      → (next : Option String) → wanted current seen ≡ next
      → Walks (walk fuel store next seen) seen current
  unfolding walk
  walk-Linked fuel seen current paid none e = ([], refl, wanted-none store current seen e)
  walk-Linked zero seen current (distinct, known, enough) (some id) e =
      let short = length-Within seen (keys store) distinct known in
      absurd (omega (arith, enough, short))
  walk-Linked (suc fuel) seen current paid (some id) e =
      let (here, new) = wanted-some current seen id e in
      elim (Option-cases (get store id)) [
        | inl gone ↦
            rw gone ([], refl, subst (λ c. ends_at store seen c ≡ true) (sym here) (last gone))
        | inr (r, found) ↦
            let own = keyed id r found in
            let (links, run, linked) =
              walk-Linked fuel (id ∷ seen) r.parent_id
                (pay fuel seen id new (get-key store id r found) paid)
                (wanted r.parent_id (id ∷ seen)) refl in
            rw found (
              r ∷ links,
              ap (cons_to r) run,
              subst
                  (λ j.
                    (current ≡ some j)
                    × (get store j ≡ some r)
                    × (elem j seen ≡ false)
                    × Linked store (j ∷ seen) r.parent_id links)
                  (sym own) (here, found, new, linked),
            )
      ]
    where
      last : get store id ≡ none → ends_at store seen (some id) ≡ true
      last gone = rw gone (ground arith)

-- In a store that keeps every record under its own id, the chain of a subgoal always returns: read
-- from the leaf upward its records are stored, each is the parent of the one before, none comes twice,
-- and the last has no parent, an empty one, one that is not stored, or one that is in the chain.
pub get_chain-Linked :
    (store : Store)
    → IsKeyed store
    → (id : String)
    → (links : List SubgoalMemoryRecord) × (get_chain store id ≡ some (reverse links))
      × Linked store [] (some id) links
unfolding get_chain elem
get_chain-Linked store keyed id =
    let (links, run, linked) =
      walk-Linked store keyed (suc (length (keys store))) [] (some id)
        (tt, (λ k m. absurd (cc m)), omega arith) (wanted (some id) []) refl in
    (links, ap reversed run, linked)

state_of-value : (subgoal : Subgoal) → state_of (value subgoal.state) ≡ ok subgoal.state
unfolding state_of
state_of-value subgoal = states subgoal.state
  where
    states : (s : SubgoalLifecycleState) → state_of (value s) ≡ ok s
    states pending = refl
    states active = refl
    states satisfied = refl
    states abandoned = refl
    states closed = refl
    states created = refl
    states validated = refl
    states ready = refl
    states running = refl
    states success = refl
    states failed = refl
    states blocked = refl
    states retrying = refl

-- A subgoal that was put into the store is read back as it was.
pub get_subgoal-put_subgoal :
    (subgoal : Subgoal) (store : Store)
    → get_subgoal (put_subgoal subgoal store) subgoal.subgoal_id ≡ ok (some subgoal)
unfolding get_subgoal put_subgoal
get_subgoal-put_subgoal subgoal store =
    ap to_subgoal (get-put_self store subgoal.subgoal_id (record_of subgoal))
    ∙ ap (with_state (record_of subgoal)) (state_of-value subgoal)

-- A put keeps every record under its own id.
pub put_subgoal-IsKeyed :
    (subgoal : Subgoal) (store : Store) → IsKeyed store → IsKeyed (put_subgoal subgoal store)
unfolding put_subgoal
put_subgoal-IsKeyed subgoal store keyed k r found = elim (Bool-cases (subgoal.subgoal_id == k)) [
  | inl same ↦
      let it : some (record_of subgoal) ≡ some r =
        sym (get-put store subgoal.subgoal_id k (record_of subgoal) ∙ rw same refl) ∙ found in
      ap id_of (sym it) ∙ (eq_iff subgoal.subgoal_id k).0 same
  | inr other ↦
      keyed k r
        (sym (get-put store subgoal.subgoal_id k (record_of subgoal) ∙ rw other refl) ∙ found)
]
  where
    id_of : Option SubgoalMemoryRecord → String
    id_of none = k
    id_of (some x) = x.subgoal_id
