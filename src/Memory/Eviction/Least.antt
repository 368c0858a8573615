-- ===== src/Memory/Eviction/Least.antt =====
-- What the two rules by access evict.
use vai_core.Prelude.{
  ℕ, zero, suc, ◌≤◌, ◌<◌, Bool, true, false, not, List, [], ◌++◌, map, String, length, elem, keep,
  ◌≡◌, ◌≢◌, ◌⊎◌, refl, sym, ap, ◌∙◌, subst, arith,
}
use mathlib.Core.List.{Mem, Perm, not-mem-nil, map-map}
use mathlib.Core.List.Perm
use vai_core.Prelude.Dict.{Dict}
use vai_core.Prelude.Members.{mem-keep_test}
use vai_core.Prelude.Texts.{text_lt, text_lt-asymm, text_lt-not_trans}
use vai_core.Prelude.Prefixes.{
  length-take, append-take-drop, take_full, length-map, keep-perm, by, by-IsOrder, sorted-map,
  take-map,
}
use vai_core.Prelude.Sorting.{IsOrder, sorted, sorted-perm, sorted-IsSorted, take, drop, take-Least}
use vai_core.Memory.Eviction.{
  AccessRecord, EvictionReason, lru, lfu, EvictionReport, less_recent, less_frequent, candidates,
  unprotected, access_decision, evict_first, evict_lru, evict_lfu,
}

less_recent-asymm : (x y : AccessRecord) → less_recent x y ≡ true → less_recent y x ≡ false
unfolding less_recent
less_recent-asymm x y h = ground (arith, text_lt-asymm x.record_id y.record_id)

less_recent-not_trans :
    (x y z : AccessRecord)
    → less_recent x y ≡ false
    → less_recent y z ≡ false
    → less_recent x z ≡ false
unfolding less_recent
less_recent-not_trans x y z h k =
    ground (arith, text_lt-not_trans x.record_id y.record_id z.record_id)

less_recent-IsOrder : IsOrder less_recent
less_recent-IsOrder = record { asymm = less_recent-asymm; not_trans = less_recent-not_trans }

less_frequent-IsOrder : IsOrder less_frequent
unfolding less_frequent
less_frequent-IsOrder = record {
  asymm = λ x y h. ground (arith, less_recent-asymm x y);
  not_trans = λ x y z h k. ground (arith, less_recent-not_trans x y z);
}

-- `x` was accessed before `y`, or at the same time and has no later id.
abbrev pub Older : AccessRecord → AccessRecord → Type 0
Older x y =
    (x.last_accessed_at < y.last_accessed_at)
    ⊎ ((x.last_accessed_at ≡ y.last_accessed_at) × (text_lt y.record_id x.record_id ≡ false))

-- `x` was accessed less often than `y`, or as often and is older.
abbrev pub Rarer : AccessRecord → AccessRecord → Type 0
Rarer x y = (x.access_count < y.access_count) ⊎ ((x.access_count ≡ y.access_count) × Older x y)

Older_lem : (x y : AccessRecord) → less_recent y x ≡ false → Older x y
unfolding less_recent
Older_lem x y h = ground arith

Rarer_lem : (x y : AccessRecord) → less_frequent y x ≡ false → Rarer x y
unfolding less_frequent
Rarer_lem x y h = ground (arith, Older_lem x y)

-- How an eviction by access shares out the entries of the log: into those it evicts, `n` or all that
-- are not protected; those left, which the order `Before` has after each of these; and the protected.
pub record Evicts (Before : AccessRecord → AccessRecord → Type 0) (reason : EvictionReason)
    (access_log : Dict AccessRecord) (protected_ids : List String) (n now : ℕ) (r : EvictionReport)
    : Type 0 where
  pub evicted : Dict AccessRecord
  pub left : Dict AccessRecord
  pub held : Dict AccessRecord
  pub shared_out : Perm ((evicted ++ left) ++ held) access_log
  pub decides : r.decisions ≡ map (λ entry. access_decision reason now entry.1) evicted
  pub counts : r.eviction_count ≡ length evicted
  pub at_most : length evicted ≤ n
  pub enough : left ≢ [] → length evicted ≡ n
  pub free :
      (entry : String × AccessRecord)
      → Mem entry (evicted ++ left)
      → elem entry.0 protected_ids ≡ false
  pub protects :
      (entry : String × AccessRecord) → Mem entry held → elem entry.0 protected_ids ≡ true
  pub least : (x y : String × AccessRecord) → Mem x evicted → Mem y left → Before x.1 y.1

module _ (lt : AccessRecord → AccessRecord → Bool) (o : IsOrder lt)
    (Before : AccessRecord → AccessRecord → Type 0)
    (before : (x y : AccessRecord) → lt y x ≡ false → Before x y) (reason : EvictionReason)
    (access_log : Dict AccessRecord) (protected_ids : List String) (now : ℕ) where
  abbrev record_of : String × AccessRecord → AccessRecord
  record_of entry = entry.1

  abbrev entries : Dict AccessRecord
  entries = keep (unprotected protected_ids) access_log

  abbrev held_back : Dict AccessRecord
  held_back = keep (λ entry. not (unprotected protected_ids entry)) access_log

  of_negated : (b : Bool) → not b ≡ true → b ≡ false
  of_negated b h = ground (arith, h)

  of_negated_twice : (b : Bool) → not (not b) ≡ true → b ≡ true
  of_negated_twice b h = ground (arith, h)

  free_of :
      (l : Dict AccessRecord)
      → Perm l entries
      → (entry : String × AccessRecord) → Mem entry l
      → elem entry.0 protected_ids ≡ false
  free_of l p entry m =
      of_negated (elem entry.0 protected_ids)
        (mem-keep_test (unprotected protected_ids) access_log entry (Perm.subset p entry m))

  held_of :
      (entry : String × AccessRecord) → Mem entry held_back → elem entry.0 protected_ids ≡ true
  held_of entry m =
      of_negated_twice (elem entry.0 protected_ids)
        (mem-keep_test (λ e. not (unprotected protected_ids e)) access_log entry m)

  evict_first-Evicts :
      (n : ℕ)
      → Evicts Before reason access_log protected_ids n now
          (evict_first lt reason access_log protected_ids n now)
  unfolding candidates
  evict_first-Evicts zero = record {
    evicted = [];
    left = entries;
    held = held_back;
    shared_out = keep-perm (unprotected protected_ids) access_log;
    decides = refl;
    counts = refl;
    at_most = omega arith;
    enough = λ rest. refl;
    free = free_of entries Perm.rfl;
    protects = held_of;
    least = λ x y m. absurd (not-mem-nil m);
  }
  evict_first-Evicts (suc n) =
      let keyed = by record_of lt in
      let keyed-IsOrder = by-IsOrder record_of lt o in
      let l = sorted keyed entries in
      let whole : Perm (take (suc n) l ++ drop (suc n) l) entries =
        subst (λ k. Perm k entries) (sym (append-take-drop (suc n) l))
          (sorted-perm keyed keyed-IsOrder entries) in
      let firsts : take (suc n) (sorted lt (map record_of entries))
          ≡ map record_of (take (suc n) l) =
        ap (take (suc n)) (sorted-map record_of lt entries) ∙ take-map record_of lt (suc n) l in
      let decided = ap (map (access_decision reason now)) firsts ∙ map-map _ record_of _ in
      record {
        evicted = take (suc n) l;
        left = drop (suc n) l;
        held = held_back;
        shared_out =
            Perm.trans (Perm.append_right held_back whole)
              (keep-perm (unprotected protected_ids) access_log);
        decides = decided;
        counts = ap length decided ∙ length-map _ (take (suc n) l);
        at_most = length-take (suc n) l;
        enough = take_full (suc n) l;
        free = free_of (take (suc n) l ++ drop (suc n) l) whole;
        protects = held_of;
        least = λ x y mx my.
            before x.1 y.1
              (take-Least keyed (suc n) l (sorted-IsSorted keyed keyed-IsOrder entries) x y mx my);
      }

-- Eviction by the least recent access shares out the entries of the log, each once: those whose key
-- is protected are held back; of the others it evicts and counts `n`, or all if they are fewer, by
-- the records that stand under them; and each that it evicts was accessed before each that is left,
-- or at the same time and has no later id.
pub evict_lru-Evicts :
    (access_log : Dict AccessRecord) (protected_ids : List String) (n now : ℕ)
    → Evicts Older lru access_log protected_ids n now (evict_lru access_log protected_ids n now)
unfolding evict_lru
evict_lru-Evicts access_log protected_ids n now =
    evict_first-Evicts less_recent less_recent-IsOrder Older Older_lem lru access_log protected_ids
      now n

-- Eviction by the least frequent access shares out the entries of the log, each once: those whose key
-- is protected are held back; of the others it evicts and counts `n`, or all if they are fewer, by
-- the records that stand under them; and each that it evicts was accessed less often than each that
-- is left, or as often and before it, or as often and at the same time and has no later id.
pub evict_lfu-Evicts :
    (access_log : Dict AccessRecord) (protected_ids : List String) (n now : ℕ)
    → Evicts Rarer lfu access_log protected_ids n now (evict_lfu access_log protected_ids n now)
unfolding evict_lfu
evict_lfu-Evicts access_log protected_ids n now =
    evict_first-Evicts less_frequent less_frequent-IsOrder Rarer Rarer_lem lfu access_log
      protected_ids now n
