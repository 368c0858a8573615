-- ===== src/Memory/Eviction/Drift/Sharing.antt =====
-- How the rule by drift shares out the sorted events: those it evicts, those it leaves, and the last.
use vai_core.Prelude.{
  ℕ, suc, Bool, true, false, ◌||◌, ◌≤◌, List, [], ◌∷◌, ◌++◌, String, ltb, elem, ◌≡◌, inl, inr,
  arith, Bool-cases, if◌then◌else◌,
}
use mathlib.Core.List.{Mem, Perm, mem-append, mem-cons, mem-cons_self, not-mem-nil, perm_middle}
use mathlib.Core.List.Perm
use mathlib.Core.Logic.Or
use vai_core.Prelude.Sorting.{IsOrder, IsSorted, irreflexive}
use vai_core.Memory.Records.{DriftEvent}
use vai_core.Memory.Eviction.Drift.{event_before, but_last, last, too_old, to_evict}

module _ (k age : ℕ) (patterns : List String) (now : ℕ) where
  -- The events that stay: those that no test of `to_evict` takes.
  abbrev pub stay : ℕ → List DriftEvent → List DriftEvent
  stay i [] = []
  stay i (e ∷ es) =
      if ltb i k || too_old age now e || elem e.signal_type patterns
      then stay (suc i) es
      else e ∷ stay (suc i) es

  pub to_evict-perm :
      (i : ℕ) (es : List DriftEvent) → Perm (to_evict k age patterns now i es ++ stay i es) es
  unfolding to_evict
  to_evict-perm i [] = Perm.rfl
  to_evict-perm i (e ∷ es) =
      elim (Bool-cases (ltb i k || too_old age now e || elem e.signal_type patterns)) [
        | inl hit ↦ rw hit (Perm.cons e (to_evict-perm (suc i) es))
        | inr miss ↦ rw miss (
            Perm.trans (perm_middle (to_evict k age patterns now (suc i) es) (stay (suc i) es))
              (Perm.cons e (to_evict-perm (suc i) es)))
      ]

  -- An event that stays is neither too old nor of a pattern.
  pub stay_spared :
      (i : ℕ) (es : List DriftEvent) (e : DriftEvent)
      → Mem e (stay i es)
      → (too_old age now e || elem e.signal_type patterns) ≡ false
  stay_spared i [] e m = absurd (not-mem-nil m)
  stay_spared i (x ∷ es) e m =
      elim (Bool-cases (ltb i k || too_old age now x || elem x.signal_type patterns)) [
        | inl hit ↦ stay_spared (suc i) es e (rw hit at m)
        | inr miss ↦
            Or.elim (test_prop e) (mem-cons.0 (rw miss at m))
              (λ same.
                rw same (later (ltb i k) (too_old age now x) (elem x.signal_type patterns) miss))
              (λ n. stay_spared (suc i) es e n)
      ]
    where
      test_prop :
          (z : DriftEvent) → IsProp ((too_old age now z || elem z.signal_type patterns) ≡ false)
      test_prop z = hlevel

      later : (a b c : Bool) → (a || b || c) ≡ false → (b || c) ≡ false
      later a b c h = ground (arith, h)

  -- Behind the first `k` places, what is evicted is too old or of a pattern.
  pub late_due :
      (i : ℕ) (es : List DriftEvent) (e : DriftEvent)
      → k ≤ i
      → Mem e (to_evict k age patterns now i es)
      → (too_old age now e || elem e.signal_type patterns) ≡ true
  unfolding to_evict
  late_due i [] e late m = absurd (not-mem-nil m)
  late_due i (x ∷ es) e late m =
      elim (Bool-cases (ltb i k || too_old age now x || elem x.signal_type patterns)) [
        | inl hit ↦
            Or.elim (test_prop e) (mem-cons.0 (rw hit at m))
              (λ same.
                rw same
                  (due (ltb i k) (too_old age now x) (elem x.signal_type patterns) not_first hit))
              (λ n. late_due (suc i) es e (omega (arith, late)) n)
        | inr miss ↦ late_due (suc i) es e (omega (arith, late)) (rw miss at m)
      ]
    where
      test_prop :
          (z : DriftEvent) → IsProp ((too_old age now z || elem z.signal_type patterns) ≡ true)
      test_prop z = hlevel

      not_first : ltb i k ≡ false
      not_first = ground (arith, late)

      due : (a b c : Bool) → a ≡ false → (a || b || c) ≡ true → (b || c) ≡ true
      due a b c h g = ground (arith, h, g)

  -- Of sorted events, what is evicted without being due goes before everything that stays.
  pub early_oldest :
      (i : ℕ) (es : List DriftEvent)
      → IsSorted event_before es
      → (e y : DriftEvent) → Mem e (to_evict k age patterns now i es)
      → (too_old age now e || elem e.signal_type patterns) ≡ false
      → Mem y (stay i es)
      → event_before y e ≡ false
  unfolding to_evict
  early_oldest i [] s e y m spared n = absurd (not-mem-nil m)
  early_oldest i (x ∷ es) (least, s) e y m spared n =
      elim (Bool-cases (ltb i k || too_old age now x || elem x.signal_type patterns)) [
        | inl hit ↦
            Or.elim (order_prop y e) (mem-cons.0 (rw hit at m))
              (λ same. rw same (least y (stays y (rw hit at n))))
              (λ l. early_oldest (suc i) es s e y l spared (rw hit at n))
        | inr miss ↦
            let behind = past (too_old age now x) (elem x.signal_type patterns) miss in
            absurd (cc (late_due (suc i) es e behind (rw miss at m), spared))
      ]
    where
      order_prop : (a b : DriftEvent) → IsProp (event_before a b ≡ false)
      order_prop a b = hlevel

      stays : (z : DriftEvent) → Mem z (stay (suc i) es) → Mem z es
      stays z l = Perm.subset (to_evict-perm (suc i) es) z (mem-append.1 (Or.inr l))

      past : (b c : Bool) → (ltb i k || b || c) ≡ false → k ≤ suc i
      past b c h = ground (arith, h)

module _ {A : Type 0} where
  pub last-perm : (x : A) (xs : List A) → Perm (last x xs ∷ but_last x xs) (x ∷ xs)
  last-perm x [] = Perm.rfl
  last-perm x (y ∷ xs) =
      Perm.trans (Perm.swap x (last y xs) (but_last y xs)) (Perm.cons x (last-perm y xs))

  mem-but_last : (x y : A) (xs : List A) → Mem y (but_last x xs) → Mem y (x ∷ xs)
  mem-but_last x y xs m = Perm.subset (last-perm x xs) y (mem-cons.1 (Or.inr m))

  pub but_last-IsSorted :
      (lt : A → A → Bool) (x : A) (xs : List A) → IsSorted lt (x ∷ xs) → IsSorted lt (but_last x xs)
  but_last-IsSorted lt x [] s = tt
  but_last-IsSorted lt x (y ∷ xs) (least, s) =
      (λ z m. least z (mem-but_last y z xs m), but_last-IsSorted lt y xs s)

module _ {A : Type 0} (lt : A → A → Bool) where
  mem-last : (x : A) (xs : List A) → Mem (last x xs) (x ∷ xs)
  mem-last x [] = mem-cons_self
  mem-last x (y ∷ xs) = mem-cons.1 (Or.inr (mem-last y xs))

  -- Nothing of a sorted list goes after its last item.
  pub last-Greatest :
      (o : IsOrder lt) (x : A) (xs : List A)
      → IsSorted lt (x ∷ xs)
      → (y : A) → Mem y (x ∷ xs)
      → lt (last x xs) y ≡ false
  last-Greatest o x [] s y m =
      Or.elim (lt_prop y) (mem-cons.0 m) (λ e. rw e (irreflexive lt o x))
        (λ n. absurd (not-mem-nil n))
    where
      lt_prop : (z : A) → IsProp (lt x z ≡ false)
      lt_prop z = hlevel
  last-Greatest o x (z ∷ xs) (least, s) y m =
      Or.elim (lt_prop y) (mem-cons.0 m) (λ e. rw e (least (last z xs) (mem-last z xs)))
        (λ n. last-Greatest o z xs s y n)
    where
      lt_prop : (w : A) → IsProp (lt (last z xs) w ≡ false)
      lt_prop w = hlevel
