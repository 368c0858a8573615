-- ===== src/Resilience/Attempts.antt =====
-- The retry loop against a limit on the calls after each exception, and the sleep due after it.
use vai_core.Prelude.{
  ℕ, zero, suc, ◌+◌, ◌≤◌, ◌<◌, ◌≡◌, refl, Bool, true, false, inl, inr, String, Result, ok, err, leb,
  if◌then◌else◌, arith, Bool-cases, sym, ap, subst, ◌∙◌, eqb,
}
use vai_core.Resilience.{RetryStrategy, Exn, Finish, finished, after_call, retry_loop}

-- The n-th call is the last one: it returned, or `limit` does not allow another one.
unfoldable pub may_end : {A : Type 0} → (limit : Exn → ℕ) → ℕ → Result Exn A → Bool
may_end limit n (ok a) = true
may_end limit n (err e) = leb (limit e) n

-- The sleep that is due after a call.
unfoldable pub pause : {A : Type 0} → (cost : Exn → ℕ) → Result Exn A → ℕ
pause cost (ok a) = 0
pause cost (err e) = cost e

-- The sleep that is due after the first `n` calls.
unfoldable pub pauses : {A : Type 0} → (cost : Exn → ℕ) → (op : ℕ → Result Exn A) → ℕ → ℕ
unfolding pause
pauses cost op zero = 0
pauses cost op (suc n) = pauses cost op n + pause cost (op n)

-- How a run of the loop ends: with what its n-th call did, counted from 0, where this is the first
-- call that may be the last one; and after the sleep that was due after each call before it.
pub record Ends {A : Type 0} (op : ℕ → Result Exn A) (limit cost : Exn → ℕ) (most : ℕ)
    (finish : Finish A) : Type 0 where
  pub n : ℕ
  pub last : finish ≡ finished (op n) (suc n) (pauses cost op n)
  pub ended : may_end limit n (op n) ≡ true
  pub first : (k : ℕ) → k < n → may_end limit k (op k) ≡ false
  pub few : n ≤ most

over : (l n : ℕ) {most : ℕ} → leb l n ≡ false → l ≤ most → n + 0 ≡ most → ⊥
over l n go capped room = ground arith

eqb-eq : (k n : ℕ) → eqb k n ≡ true → k ≡ n
eqb-eq k n h = ground (arith, h)

module _ {A : Type 0} (allowed : RetryStrategy → Bool) (class_of : Exn → String)
    (op : ℕ → Result Exn A) (limit cost : Exn → ℕ) (most : ℕ)
    (step : (fuel n slept : ℕ) (e : Exn)
      → op n ≡ err e
      → retry_loop allowed class_of op (suc fuel) n slept ≡ (
          if leb (limit e) n
          then finished (err e) (suc n) slept
          else retry_loop allowed class_of op fuel (suc n) (slept + cost e)))
    (capped : (e : Exn) → limit e ≤ most) where
  -- None of the first `n` calls may be the last one.
  abbrev NoneEnds : ℕ → Type 0
  NoneEnds n = (j : ℕ) → j < n → may_end limit j (op j) ≡ false

  extend :
      (n k : ℕ)
      → NoneEnds n
      → may_end limit n (op n) ≡ false
      → k < suc n
      → may_end limit k (op k) ≡ false
  extend n k before here lt = elim (Bool-cases (eqb k n)) [
    | inl same ↦ subst (λ j. may_end limit j (op j) ≡ false) (sym (eqb-eq k n same)) here
    | inr other ↦ before k (ground (arith, other))
  ]

  at_call :
      (m n : ℕ) (x : Result Exn A)
      → op n ≡ x
      → n ≤ most
      → NoneEnds n
      → ((e : Exn)
          → op n ≡ err e
          → leb (limit e) n ≡ false
          → Ends op limit cost most
              (retry_loop allowed class_of op m (suc n) (pauses cost op (suc n))))
      → Ends op limit cost most (retry_loop allowed class_of op (suc m) n (pauses cost op n))
  unfolding retry_loop may_end pauses pause
  at_call m n (ok a) here few before again =
      let slept = pauses cost op n in
      record {
        n = n;
        last =
            ap (after_call allowed class_of n slept (retry_loop allowed class_of op m (suc n))) here
            ∙ ap (λ r. finished r (suc n) slept) (sym here);
        ended = ap (may_end limit n) here;
        first = before;
        few = few;
      }
  at_call m n (err e) here few before again =
      let slept = pauses cost op n in
      let go_on = retry_loop allowed class_of op m (suc n) (slept + cost e) in
      let branch : Bool → Finish A = λ b. if b then finished (err e) (suc n) slept else go_on in
      elim (Bool-cases (leb (limit e) n)) [
        | inl stop ↦ record {
          n = n;
          last =
              step m n slept e here
              ∙ ap branch stop
              ∙ ap (λ r. finished r (suc n) slept) (sym here);
          ended = ap (may_end limit n) here ∙ stop;
          first = before;
          few = few;
        }
        | inr go ↦
            subst (Ends op limit cost most)
              (ap (λ r. retry_loop allowed class_of op m (suc n) (slept + pause cost r)) here
                ∙ sym (step m n slept e here ∙ ap branch go))
              (again e here go)
      ]

  pub loop-Ends :
      (left m n : ℕ)
      → suc left ≤ m
      → n + left ≡ most
      → NoneEnds n
      → Ends op limit cost most (retry_loop allowed class_of op m n (pauses cost op n))
  unfolding may_end
  loop-Ends left zero n enough room before = absurd (omega (arith, enough))
  loop-Ends zero (suc m) n enough room before =
      at_call m n (op n) refl (omega (arith, room)) before
        (λ e here go. absurd (over (limit e) n go (capped e) room))
  loop-Ends (suc left) (suc m) n enough room before =
      at_call m n (op n) refl (omega (arith, room)) before (λ e here go.
        loop-Ends left m (suc n) (omega (arith, enough)) (omega (arith, room))
          (λ k lt. extend n k before (ap (may_end limit n) here ∙ go) lt))
