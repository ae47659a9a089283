-- ===== src/Base/Dicts.antt =====
-- JavaScript's `Map` with string keys: an association list in insertion order.
use Prim.Native.String.{String}
use mathlib.Core.Path.{◌≡◌, refl}
use mathlib.Core.Bool.{Bool}
use mathlib.Core.Option.{Option, none, some}
use mathlib.Core.List.{List, [], ◌∷◌}
use native.Mathlib.Omega.{arith}
use text.Mathlib.Text.{◌==◌ as str_eq}
use text.Mathlib.TextEquality.{eq_iff}
use co_mono.Base.Tests.{if◌then◌else◌, is_some}

abbrev pub Dict {ℓ} : Type ℓ → Type ℓ
Dict V = List (String × V)

module _ {ℓ} {V : Type ℓ} where
  unfoldable pub dict_get : Dict V → String → Option V
  dict_get [] k = none
  dict_get ((j, v) ∷ m) k = if str_eq j k then some v else dict_get m k

  -- An assignment to a known key keeps the key's place.
  unfoldable pub dict_set : Dict V → String → V → Dict V
  dict_set [] k v = (k, v) ∷ []
  dict_set ((j, w) ∷ m) k v = if str_eq j k then (j, v) ∷ m else (j, w) ∷ dict_set m k v

  pub dict_delete : Dict V → String → Dict V
  dict_delete [] k = []
  dict_delete ((j, w) ∷ m) k =
      let rest = dict_delete m k in if str_eq j k then rest else (j, w) ∷ rest

  abbrev pub dict_has : Dict V → String → Bool
  dict_has m k = is_some (dict_get m k)

  pub get-set :
      (m : Dict V) (k j : String) (v : V)
      → dict_get (dict_set m k v) j ≡ (if str_eq k j then some v else dict_get m j)
  unfolding dict_get dict_set
  get-set [] k j v = refl
  get-set ((i, w) ∷ m) k j v = ground (arith, eq_iff k j, eq_iff i k, eq_iff i j, get-set m k j v)

  pub get-delete :
      (m : Dict V) (k j : String)
      → dict_get (dict_delete m k) j ≡ (if str_eq k j then none else dict_get m j)
  unfolding dict_get dict_delete
  get-delete [] k j = ground arith
  get-delete ((i, w) ∷ m) k j = ground (arith, eq_iff k j, eq_iff i k, eq_iff i j, get-delete m k j)
