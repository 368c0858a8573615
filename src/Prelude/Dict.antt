-- ===== src/Prelude/Dict.antt =====
-- Python's `dict` with text keys, in insertion order: a write to a key that is present keeps its
-- place, a new key goes to the end.
use Prim.Native.String.{String}
use text.Mathlib.Text.{◌==◌}
use text.Mathlib.TextEquality.{eq_iff}
use text.Mathlib.TextPositions.{eq_refl}
use mathlib.Core.Path.{◌≡◌, refl}
use mathlib.Core.Bool.{false, ◌||◌}
use mathlib.Core.Option.{Option, none, some}
use mathlib.Core.List.{List, [], ◌∷◌}
use native.Mathlib.Omega.{arith}
use vai_core.Prelude.Tests.{if◌then◌else◌}
use vai_core.Prelude.Lists.{elem, Distinct}

abbrev pub Dict {ℓ} : Type ℓ → Type ℓ
Dict V = List (String × V)

module _ {ℓ} {V : Type ℓ} where
  -- `d.get(k)`
  unfoldable pub get : Dict V → String → Option V
  get [] k = none
  get ((j, v) ∷ d) k = if j == k then some v else get d k

  -- `d[k] = v`
  unfoldable pub put : Dict V → String → V → Dict V
  put [] k v = (k, v) ∷ []
  put ((j, w) ∷ d) k v = if j == k then (j, v) ∷ d else (j, w) ∷ put d k v

  -- `d.pop(k, None)`, for the dict that is left
  unfoldable pub remove : Dict V → String → Dict V
  remove [] k = []
  remove ((j, v) ∷ d) k = let rest = remove d k in if j == k then rest else (j, v) ∷ rest

  -- `list(d)`
  abbrev pub keys : Dict V → List String
  keys [] = []
  keys ((j, v) ∷ d) = j ∷ keys d

  -- `list(d.values())`
  abbrev pub values : Dict V → List V
  values [] = []
  values ((j, v) ∷ d) = v ∷ values d

  pub get-put :
      (d : Dict V) (k j : String) (v : V) → get (put d k v) j ≡ (if k == j then some v else get d j)
  unfolding get put
  get-put [] k j v = refl
  get-put ((i, w) ∷ d) k j v = ground (arith, eq_iff k j, eq_iff i k, eq_iff i j, get-put d k j v)

  pub get-remove :
      (d : Dict V) (key : String) (j : String)
      → get (remove d key) j ≡ (if key == j then none else get d j)
  unfolding get remove
  get-remove [] k j = ground arith
  get-remove ((i, v) ∷ d) k j = ground (arith, get-remove d k j, eq_iff i k, eq_iff i j, eq_iff k j)

  pub get-put_self : (d : Dict V) (k : String) (v : V) → get (put d k v) k ≡ some v
  get-put_self d k v = simp (get-put, eq_refl)

  pub elem-keys-put :
      (d : Dict V) (k j : String) (v : V) → elem j (keys (put d k v)) ≡ (k == j || elem j (keys d))
  unfolding put elem
  elem-keys-put [] k j v = refl
  elem-keys-put ((i, w) ∷ d) k j v =
      ground (arith, eq_iff k j, eq_iff i k, eq_iff i j, elem-keys-put d k j v)

  pub elem-keys-remove :
      (d : Dict V) (k j : String)
      → elem j (keys (remove d k)) ≡ (if k == j then false else elem j (keys d))
  unfolding remove elem
  elem-keys-remove [] k j = ground arith
  elem-keys-remove ((i, w) ∷ d) k j =
      ground (arith, eq_iff k j, eq_iff i k, eq_iff i j, elem-keys-remove d k j)

  pub put-Distinct :
      (d : Dict V) (k : String) (v : V) → Distinct (keys d) → Distinct (keys (put d k v))
  unfolding put elem
  put-Distinct [] k v h = (refl, tt)
  put-Distinct ((i, w) ∷ d) k v h =
      ground (arith, eq_iff i k, eq_iff k i, elem-keys-put d k i v, put-Distinct d k v h.1)

  pub remove-Distinct : (d : Dict V) (k : String) → Distinct (keys d) → Distinct (keys (remove d k))
  unfolding remove
  remove-Distinct [] k h = tt
  remove-Distinct ((i, w) ∷ d) k h =
      ground (arith, eq_iff k i, elem-keys-remove d k i, remove-Distinct d k h.1)

pub ruleset dict_laws = (get-put, get-remove)
