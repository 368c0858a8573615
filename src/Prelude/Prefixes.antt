-- ===== src/Prelude/Prefixes.antt =====
-- The first items of a sorted list, and sorting the values of a function.
use vai_core.Prelude.Tests.{Bool-cases}
use vai_core.Prelude.Lists.{length, keep}
use vai_core.Prelude.Sorting.{IsOrder, insert, sorted, take, drop}
use Prim.Native.Nat.{ℕ, zero, suc, ◌≤◌}
use native.Mathlib.Omega.{arith}
use mathlib.Core.Path.{◌≡◌, refl, ap, ◌∙◌}
use mathlib.Core.Bool.{Bool, not}
use mathlib.Core.Logic.{◌≢◌, inl, inr}
use mathlib.Core.List.{List, [], ◌∷◌, ◌++◌, map, Perm, perm_middle}
use mathlib.Core.List.Perm

module _ {A : Type 0} where
  pub length-take : (n : ℕ) (xs : List A) → length (take n xs) ≤ n
  unfolding take
  length-take n [] = omega arith
  length-take zero (x ∷ xs) = omega arith
  length-take (suc n) (x ∷ xs) = omega (arith, length-take n xs)

  pub append-take-drop : (n : ℕ) (xs : List A) → take n xs ++ drop n xs ≡ xs
  unfolding take drop
  append-take-drop n [] = refl
  append-take-drop zero (x ∷ xs) = refl
  append-take-drop (suc n) (x ∷ xs) = ap (λ l. x ∷ l) (append-take-drop n xs)

  pub take_full : (n : ℕ) (xs : List A) → drop n xs ≢ [] → length (take n xs) ≡ n
  unfolding take drop
  take_full n [] rest = absurd (rest refl)
  take_full zero (x ∷ xs) rest = refl
  take_full (suc n) (x ∷ xs) rest = ap suc (take_full n xs rest)

  pub length-map : {B : Type 0} (f : A → B) (xs : List A) → length (map f xs) ≡ length xs
  length-map f [] = refl
  length-map f (x ∷ xs) = ap suc (length-map f xs)

  pub keep-perm : (p : A → Bool) (xs : List A) → Perm (keep p xs ++ keep (λ x. not (p x)) xs) xs
  unfolding keep
  keep-perm p [] = Perm.rfl
  keep-perm p (x ∷ xs) = elim (Bool-cases (p x)) [
    | inl kept ↦ rw kept (Perm.cons x (keep-perm p xs))
    | inr out ↦ rw out (
        Perm.trans (perm_middle (keep p xs) (keep (λ y. not (p y)) xs))
          (Perm.cons x (keep-perm p xs)))
  ]

-- Sorting the values of entries is sorting the entries by their values.
module _ {A B : Type 0} (f : A → B) (lt : B → B → Bool) where
  abbrev pub by : A → A → Bool
  by x y = lt (f x) (f y)

  pub by-IsOrder : IsOrder lt → IsOrder by
  by-IsOrder o = record {
    asymm = λ x y. o.asymm (f x) (f y);
    not_trans = λ x y z. o.not_trans (f x) (f y) (f z);
  }

  insert-map : (x : A) (ys : List A) → insert lt (f x) (map f ys) ≡ map f (insert by x ys)
  unfolding insert
  insert-map x [] = refl
  insert-map x (y ∷ ys) = elim (Bool-cases (lt (f y) (f x))) [
    | inl later ↦ rw later (ap (λ l. f y ∷ l) (insert-map x ys))
    | inr here ↦ rw here refl
  ]

  pub sorted-map : (xs : List A) → sorted lt (map f xs) ≡ map f (sorted by xs)
  unfolding sorted
  sorted-map [] = refl
  sorted-map (x ∷ xs) = ap (insert lt (f x)) (sorted-map xs) ∙ insert-map x (sorted by xs)

  pub take-map : (n : ℕ) (xs : List A) → take n (map f xs) ≡ map f (take n xs)
  unfolding take
  take-map n [] = refl
  take-map zero (x ∷ xs) = refl
  take-map (suc n) (x ∷ xs) = ap (λ l. f x ∷ l) (take-map n xs)
