-- ===== src/Prelude/Members.antt =====
-- The items of a list that a condition keeps.
use Prim.Native.Nat.{◌≤◌}
use native.Mathlib.Omega.{arith}
use mathlib.Core.Path.{◌≡◌, ap, ◌∙◌}
use mathlib.Core.Bool.{Bool, true, ◌&&◌}
use mathlib.Core.Logic.{inl, inr}
use mathlib.Core.Logic.Or
use mathlib.Core.List.{List, [], ◌∷◌, Mem, mem-cons, mem-cons_self, not-mem-nil}
use vai_core.Prelude.Tests.{Bool-cases}
use vai_core.Prelude.Lists.{length, any, all, keep}

module _ {A : Type 0} (p : A → Bool) where
  mem_prop : (x : A) (xs : List A) → IsProp (Mem x xs)
  mem_prop x xs = hlevel

  mem_tail : (x y : A) (xs : List A) → Mem x xs → Mem x (y ∷ xs)
  mem_tail x y xs m = mem-cons.1 (Or.inr m)

  pub keep-mem : (xs : List A) (x : A) → Mem x xs → p x ≡ true → Mem x (keep p xs)
  unfolding keep
  keep-mem [] x m h = m
  keep-mem (y ∷ xs) x m h = elim (Bool-cases (p y)) [
    | inl kept ↦ rw kept (
        Or.elim (mem_prop x (y ∷ keep p xs)) (mem-cons.0 m) (λ e. mem-cons.1 (Or.inl e))
          (λ n. mem_tail x y (keep p xs) (keep-mem xs x n h)))
    | inr dropped ↦ rw dropped (
        Or.elim (mem_prop x (keep p xs)) (mem-cons.0 m) (λ e. absurd (cc (h, dropped, e)))
          (λ n. keep-mem xs x n h))
  ]

  pub mem-keep : (xs : List A) (x : A) → Mem x (keep p xs) → Mem x xs
  unfolding keep
  mem-keep [] x m = m
  mem-keep (y ∷ xs) x m = elim (Bool-cases (p y)) [
    | inl kept ↦
        Or.elim (mem_prop x (y ∷ xs)) (mem-cons.0 (rw kept at m)) (λ e. mem-cons.1 (Or.inl e))
          (λ n. mem_tail x y xs (mem-keep xs x n))
    | inr dropped ↦ mem_tail x y xs (mem-keep xs x (rw dropped at m))
  ]

  pub mem-keep_test : (xs : List A) (x : A) → Mem x (keep p xs) → p x ≡ true
  unfolding keep
  mem-keep_test [] x m = absurd (not-mem-nil m)
  mem-keep_test (y ∷ xs) x m = elim (Bool-cases (p y)) [
    | inl kept ↦
        Or.elim (test_prop x) (mem-cons.0 (rw kept at m)) (λ e. ap p e ∙ kept)
          (λ n. mem-keep_test xs x n)
    | inr dropped ↦ mem-keep_test xs x (rw dropped at m)
  ]
    where
      test_prop : (z : A) → IsProp (p z ≡ true)
      test_prop z = hlevel

  -- What a passed `any` has found.
  pub any_found : (xs : List A) → any p xs ≡ true → (x : A) × (Mem x xs) × (p x ≡ true)
  unfolding any
  any_found [] h = absurd (cc h)
  any_found (y ∷ xs) h = elim (Bool-cases (p y)) [
    | inl here ↦ (y, mem-cons_self, here)
    | inr other ↦ let (x, m, q) = any_found xs (rw other at h) in (x, mem_tail x y xs m, q)
  ]

  pub length-keep : (xs : List A) → length (keep p xs) ≤ length xs
  unfolding keep
  length-keep [] = omega arith
  length-keep (x ∷ xs) = ground (arith, length-keep xs)

  pub mem-all : (xs : List A) → all p xs ≡ true → (x : A) → Mem x xs → p x ≡ true
  unfolding all
  mem-all [] h x m = absurd (not-mem-nil m)
  mem-all (y ∷ xs) h x m =
      Or.elim (test_prop x) (mem-cons.0 m) (λ e. ap p e ∙ here (p y) (all p xs) h)
        (λ n. mem-all xs (rest (p y) (all p xs) h) x n)
    where
      test_prop : (z : A) → IsProp (p z ≡ true)
      test_prop z = hlevel

      here : (a b : Bool) → (a && b) ≡ true → a ≡ true
      here a b e = ground (arith, e)

      rest : (a b : Bool) → (a && b) ≡ true → b ≡ true
      rest a b e = ground (arith, e)
