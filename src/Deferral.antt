-- ===== src/Deferral.antt =====
-- The guard on the depth of deferral chains (src/agent/deferral/depth_guard.py).
use vai_core.Prelude.{
  ℕ, zero, suc, ◌+◌, ◌<◌, Result, ok, err, ◌>>=◌, leb, if◌then◌else◌, ◌≡◌, sym, ap, arith,
  Bool-cases, inl, inr,
}

pub data DepthError : Type 0 where
  bad_max_depth : ℕ → DepthError  -- `ValueError`
  depth_limit : (depth max_depth : ℕ) → DepthError  -- `DeferralDepthError`

pub record DepthGuard : Type 0 where
  pub max_depth : ℕ

unfoldable pub new_guard : ℕ → Result DepthError DepthGuard
new_guard zero = err (bad_max_depth zero)
new_guard (suc n) = ok (record { max_depth = suc n })

unfoldable pub check : DepthGuard → (current_depth : ℕ) → Result DepthError (Unit {0})
check guard current_depth =
    if leb guard.max_depth current_depth
    then err (depth_limit current_depth guard.max_depth)
    else ok tt

unfoldable pub get_next_depth : DepthGuard → (current_depth : ℕ) → Result DepthError ℕ
unfolding check
get_next_depth guard current_depth = check guard (suc current_depth) >>= λ u. ok (suc current_depth)

-- A chain of `n` deferrals, each at the depth after the one before.
unfoldable pub defer_times : DepthGuard → (n current_depth : ℕ) → Result DepthError ℕ
unfolding get_next_depth
defer_times guard zero current_depth = ok current_depth
defer_times guard (suc n) current_depth = get_next_depth guard current_depth >>= defer_times guard n

-- A chain that was let through is within the guard's depth, each deferral one deeper.
pub defer_times_bound :
    (guard : DepthGuard) (n current_depth depth : ℕ)
    → defer_times guard (suc n) current_depth ≡ ok depth
    → (depth ≡ suc n + current_depth) × (depth < guard.max_depth)
unfolding defer_times get_next_depth check
defer_times_bound guard zero d depth run = elim (Bool-cases (leb guard.max_depth (suc d))) [
  | inl over ↦ absurd (cc (rw over at run))
  | inr under ↦
      let same : depth ≡ suc d = sym (ap (depth_or d) (rw under at run)) in
      (omega (arith, same), ground (arith, under, same))
]
  where
    depth_or : ℕ → Result DepthError ℕ → ℕ
    depth_or m (err e) = m
    depth_or m (ok k) = k
defer_times_bound guard (suc n) d depth run = elim (Bool-cases (leb guard.max_depth (suc d))) [
  | inl over ↦ absurd (cc (rw over at run))
  | inr under ↦
      let (same, low) = defer_times_bound guard n (suc d) depth (rw under at run) in
      (omega (arith, same), low)
]
