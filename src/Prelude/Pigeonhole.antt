-- ===== src/Prelude/Pigeonhole.antt =====
-- Distinct texts that all come from a list, counted against the list.
use vai_core.Prelude.{
  suc, ◌≤◌, Bool, true, false, ◌&&◌, List, [], ◌∷◌, ◌++◌, String, ◌≡◌, ◌≢◌, refl, inl, inr, length,
  elem, elem-append, Distinct, ◌==◌, eq_iff, arith, if◌then◌else◌, Bool-cases, leb, all,
}

-- The list without the first place where `x` stands.
unfoldable pub drop_one : String → List String → List String
drop_one x [] = []
drop_one x (y ∷ ys) = if y == x then ys else y ∷ drop_one x ys

pub length-drop_one :
    (x : String) (ys : List String) → elem x ys ≡ true → length ys ≡ suc (length (drop_one x ys))
unfolding drop_one elem
length-drop_one x [] h = absurd (cc h)
length-drop_one x (y ∷ ys) h = ground (arith, length-drop_one x ys)

pub elem-drop_one :
    (x z : String) (ys : List String) → x ≢ z → elem z ys ≡ true → elem z (drop_one x ys) ≡ true
unfolding drop_one elem
elem-drop_one x z [] ne h = h
elem-drop_one x z (y ∷ ys) ne h = ground (arith, eq_iff y x, eq_iff y z, elem-drop_one x z ys ne)

drop_one-elem : (x z : String) (ys : List String) → elem z (drop_one x ys) ≡ true → elem z ys ≡ true
unfolding drop_one elem
drop_one-elem x z [] h = h
drop_one-elem x z (y ∷ ys) h = ground (arith, drop_one-elem x z ys)

abbrev pub Within : List String → List String → Type 0
Within xs ys = (x : String) → elem x xs ≡ true → elem x ys ≡ true

pub elem_of_distinct :
    (x z : String) (xs : List String) → elem x xs ≡ false → elem z xs ≡ true → x ≢ z
elem_of_distinct x z xs absent there e = ground (arith, e)

pub snoc-Distinct :
    (x : String) (xs : List String) → Distinct xs → elem x xs ≡ false → Distinct (xs ++ x ∷ [])
unfolding elem
snoc-Distinct x [] d new = (refl, tt)
snoc-Distinct x (y ∷ ys) d new = (
  rw (elem-append y ys (x ∷ [])) (ground (arith, eq_iff x y, eq_iff y x)),
  snoc-Distinct x ys d.1 (ground arith),
)

-- As many distinct items as a list has places, all from that list, are all of it.
pub pigeonhole :
    (xs ys : List String) → Distinct xs → Within xs ys → length ys ≤ length xs → Within ys xs
unfolding elem
pigeonhole [] [] d sub le z h = h
pigeonhole [] (y ∷ ys) d sub le z h = absurd (omega arith)
pigeonhole (x ∷ xs) ys d sub le z h = elim (Bool-cases (x == z)) [
  | inl same ↦ rw same
  | inr other ↦
      let here = sub x (ground (arith, eq_iff x x)) in
      let there =
        pigeonhole xs (drop_one x ys) d.1
          (λ w m. elem-drop_one x w ys (elem_of_distinct x w xs d.0 m) (sub w (ground (arith, m))))
          (omega (arith, length-drop_one x ys here)) z
          (elem-drop_one x z ys (λ e. cc ((eq_iff x z).1 e)) h) in
      ground (arith, there)
]

pub length-Within : (xs ys : List String) → Distinct xs → Within xs ys → length xs ≤ length ys
unfolding elem
length-Within [] ys d sub = omega arith
length-Within (x ∷ xs) ys d sub =
    let here = sub x (ground (arith, eq_iff x x)) in
    let rest =
      length-Within xs (drop_one x ys) d.1
        (λ w m. elem-drop_one x w ys (elem_of_distinct x w xs d.0 m) (sub w (ground (arith, m)))) in
    omega (arith, length-drop_one x ys here, rest)

all-elem : (xs ys : List String) → Within ys xs → all (λ y. elem y xs) ys ≡ true
unfolding all elem
all-elem xs [] sub = refl
all-elem xs (y ∷ ys) sub =
    let here = sub y (ground (arith, eq_iff y y)) in
    let rest = all-elem xs ys (λ z m. sub z (ground (arith, m))) in ground (arith, here, rest)

rest_of : (a b : Bool) → (a && b) ≡ true → b ≡ true
rest_of a b h = ground (arith, h)

here_of : (y : String) (xs : List String) (b : Bool) → (elem y xs && b) ≡ true → elem y xs ≡ true
here_of y xs b h = ground (arith, h)

all-elem_inv : (xs ys : List String) → all (λ y. elem y xs) ys ≡ true → Within ys xs
unfolding all elem
all-elem_inv xs [] h z m = absurd (cc m)
all-elem_inv xs (y ∷ ys) h z m = elim (Bool-cases (y == z)) [
  | inl same ↦
      let agree = (eq_iff y z).0 same in cc (agree, here_of y xs (all (λ w. elem w xs) ys) h)
  | inr other ↦
      all-elem_inv xs ys (rest_of (elem y xs) (all (λ w. elem w xs) ys) h) z
        (ground (arith, m, other))
]

-- Distinct items of a list are as many as the list exactly when they are all of it.
pub leb-all :
    (xs ys : List String)
    → Distinct xs
    → Distinct ys
    → Within xs ys
    → leb (length ys) (length xs) ≡ all (λ y. elem y xs) ys
leb-all xs ys dx dy sub = elim (Bool-cases (all (λ y. elem y xs) ys)) [
  | inl every ↦ ground (arith, every, length-Within ys xs dy (all-elem_inv xs ys every))
  | inr missing ↦ elim (Bool-cases (leb (length ys) (length xs))) [
    | inr short ↦ rw (short, missing) refl
    | inl long ↦
        let full = all-elem xs ys (pigeonhole xs ys dx sub (ground (arith, long))) in
        absurd (cc (full, missing))
  ]
]

pub all-cong :
    (p q : String → Bool) (ys : List String)
    → ((y : String) → elem y ys ≡ true → p y ≡ q y)
    → all p ys ≡ all q ys
unfolding all elem
all-cong p q [] same = refl
all-cong p q (y ∷ ys) same =
    let here = same y (ground (arith, eq_iff y y)) in
    let rest = all-cong p q ys (λ z m. same z (ground (arith, m))) in cc (here, rest)

pub append-Distinct :
    (xs ys : List String)
    → Distinct xs
    → Distinct ys
    → ((x : String) → elem x xs ≡ true → elem x ys ≡ false)
    → Distinct (xs ++ ys)
unfolding elem
append-Distinct [] ys dx dy apart = dy
append-Distinct (x ∷ xs) ys dx dy apart = (
  rw (elem-append x xs ys) (ground (arith, dx.0, apart x (ground (arith, eq_iff x x)))),
  append-Distinct xs ys dx.1 dy (λ z m. apart z (ground (arith, m))),
)
