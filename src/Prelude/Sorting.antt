-- ===== src/Prelude/Sorting.antt =====
-- Python's `sorted`, for an order of the keys.
use Prim.Native.Nat.{ℕ, zero, suc}
use mathlib.Core.Path.{◌≡◌, refl, subst}
use mathlib.Core.Option.{Option, none, some}
use mathlib.Core.Bool.{Bool, true, false}
use mathlib.Core.Logic.{◌≢◌, inl, inr}
use mathlib.Core.Logic.Or
use mathlib.Core.List.{List, [], ◌∷◌, Mem, Perm, mem-cons, mem-cons_self, not-mem-nil}
use mathlib.Core.List.Perm
use vai_core.Prelude.Tests.{if◌then◌else◌, Bool-cases}

false_prop : (a b : Bool) → IsProp (a ≡ b)
false_prop a b = hlevel

module _ {A : Type 0} where
  -- `sorted(xs, key=…)`, for the order `lt` of the keys: `x` goes before the first item that is not
  -- smaller, so equal items keep their order.
  unfoldable pub insert : (A → A → Bool) → A → List A → List A
  insert lt x [] = x ∷ []
  insert lt x (y ∷ ys) = if lt y x then y ∷ insert lt x ys else x ∷ y ∷ ys

  unfoldable pub sorted : (A → A → Bool) → List A → List A
  unfolding insert
  sorted lt [] = []
  sorted lt (x ∷ xs) = insert lt x (sorted lt xs)

  -- What sorting needs of an order.
  pub record IsOrder (lt : A → A → Bool) : Type 0 where
    pub asymm : (x y : A) → lt x y ≡ true → lt y x ≡ false
    pub not_trans : (x y z : A) → lt x y ≡ false → lt y z ≡ false → lt x z ≡ false

  -- No item of the list goes before `x`.
  abbrev pub Least : (A → A → Bool) → A → List A → Type 0
  Least lt x ys = (y : A) → Mem y ys → lt y x ≡ false

  abbrev pub IsSorted : (A → A → Bool) → List A → Type 0
  IsSorted lt [] = Unit
  IsSorted lt (x ∷ xs) = Least lt x xs × IsSorted lt xs

  module _ (lt : A → A → Bool) (o : IsOrder lt) where
    pub Least-cons : (x y : A) (ys : List A) → lt y x ≡ false → Least lt x ys → Least lt x (y ∷ ys)
    Least-cons x y ys h least z m = Or.elim (false_prop _ _) (mem-cons.0 m) (λ e. rw e h) (least z)

    insert-perm : (x : A) (ys : List A) → Perm (insert lt x ys) (x ∷ ys)
    unfolding insert
    insert-perm x [] = Perm.rfl
    insert-perm x (y ∷ ys) = elim (Bool-cases (lt y x)) [
      | inl e ↦ rw e (Perm.trans (Perm.cons y (insert-perm x ys)) (Perm.swap x y ys))
      | inr e ↦ rw e Perm.rfl
    ]

    pub sorted-perm : (xs : List A) → Perm (sorted lt xs) xs
    unfolding sorted
    sorted-perm [] = Perm.rfl
    sorted-perm (x ∷ xs) = Perm.trans (insert-perm x (sorted lt xs)) (Perm.cons x (sorted-perm xs))

    pub Least-perm : (x : A) (ys zs : List A) → Perm zs ys → Least lt x ys → Least lt x zs
    Least-perm x ys zs p least z m = least z (Perm.subset p z m)

    insert-IsSorted : (x : A) (ys : List A) → IsSorted lt ys → IsSorted lt (insert lt x ys)
    unfolding insert
    insert-IsSorted x [] h = (λ y m. absurd (not-mem-nil m), tt)
    insert-IsSorted x (y ∷ ys) h = elim (Bool-cases (lt y x)) [
      | inl e ↦ rw e (
        Least-perm y (x ∷ ys) (insert lt x ys) (insert-perm x ys)
            (Least-cons y x ys (o.asymm y x e) h.0),
        insert-IsSorted x ys h.1,
      )
      | inr e ↦ rw e (Least-cons x y ys e (λ z m. o.not_trans z y x (h.0 z m) e), h)
    ]

    pub sorted-IsSorted : (xs : List A) → IsSorted lt (sorted lt xs)
    unfolding sorted
    sorted-IsSorted [] = tt
    sorted-IsSorted (x ∷ xs) = insert-IsSorted x (sorted lt xs) (sorted-IsSorted xs)

  pub irreflexive : (lt : A → A → Bool) → IsOrder lt → (x : A) → lt x x ≡ false
  irreflexive lt o x = elim (Bool-cases (lt x x)) [ inl e ↦ o.asymm x x e | inr e ↦ e ]

  -- The first item, if any: `LIMIT 1`
  abbrev pub first : List A → Option A
  first [] = none
  first (x ∷ xs) = some x

  -- `xs[:n]`, and what is left out.
  unfoldable pub take : ℕ → List A → List A
  take n [] = []
  take zero (x ∷ xs) = []
  take (suc n) (x ∷ xs) = x ∷ take n xs

  unfoldable pub drop : ℕ → List A → List A
  drop n [] = []
  drop zero (x ∷ xs) = x ∷ xs
  drop (suc n) (x ∷ xs) = drop n xs

  mem-drop : (n : ℕ) (y : A) (xs : List A) → Mem y (drop n xs) → Mem y xs
  unfolding drop
  mem-drop n y [] m = m
  mem-drop zero y (x ∷ xs) m = m
  mem-drop (suc n) y (x ∷ xs) m = mem-cons.1 (Or.inr (mem-drop n y xs m))

  module _ (lt : A → A → Bool) where
    -- In a sorted list, nothing that a prefix leaves out goes before an item of the prefix.
    pub take-Least :
        (n : ℕ) (xs : List A)
        → IsSorted lt xs
        → (x y : A) → Mem x (take n xs)
        → Mem y (drop n xs)
        → lt y x ≡ false
    unfolding take drop
    take-Least n [] h x y mx my = absurd (not-mem-nil mx)
    take-Least zero (z ∷ xs) h x y mx my = absurd (not-mem-nil mx)
    take-Least (suc n) (z ∷ xs) (least, h) x y mx my =
        Or.elim (false_prop _ _) (mem-cons.0 mx) (λ e. rw e (least y (mem-drop n y xs my)))
          (λ m. take-Least n xs h x y m my)

  pub first-sorted :
      (lt : A → A → Bool) (o : IsOrder lt) (xs : List A) (b : A)
      → first (sorted lt xs) ≡ some b
      → Mem b xs × Least lt b xs
  first-sorted lt o xs b e =
      head_of (sorted lt xs) (sorted-perm lt o xs) (sorted-IsSorted lt o xs) e
    where
      head_of :
          (l : List A) → Perm l xs → IsSorted lt l → first l ≡ some b → Mem b xs × Least lt b xs
      head_of [] p s e = absurd (cc e)
      head_of (c ∷ l) p s e =
          let same : c ≡ b = cc e in
          subst (λ d. Mem d xs × Least lt d xs) same
            (
              Perm.subset p c mem-cons_self,
              Least-perm lt o c (c ∷ l) xs (Perm.symm p)
                  (Least-cons lt o c c l (irreflexive lt o c) s.0),
            )

  pub sorted-nonempty :
      (lt : A → A → Bool) (o : IsOrder lt) (x : A) (xs : List A) → Mem x xs → sorted lt xs ≢ []
  sorted-nonempty lt o x xs m e =
      not-mem-nil (subst (Mem x) e (Perm.subset (Perm.symm (sorted-perm lt o xs)) x m))

  pub first-none :
      (lt : A → A → Bool) (o : IsOrder lt) (xs : List A) (x : A)
      → first (sorted lt xs) ≡ none
      → Mem x xs
      → ⊥
  first-none lt o xs x e m = nothing (sorted lt xs) (sorted-nonempty lt o x xs m) e
    where
      nothing : (l : List A) → l ≢ [] → first l ≡ none → ⊥
      nothing [] some_item e = some_item refl
      nothing (y ∷ l) some_item e = absurd (cc e)
