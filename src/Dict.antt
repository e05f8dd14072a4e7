-- ===== src/Dict.antt =====
-- Python's `dict`, as the list of its entries in insertion order: an assignment to a key that is
-- there keeps the key's place, one to a new key comes last.
pub mod Laws
use spark_controlplane.Prelude.{Option, none, some, List, [], ◌∷◌, Comparable, ◌==◌, if◌then◌else◌}

abbrev pub Dict {ℓ κ} : Type ℓ → Type κ → Type (ℓ ⊔ κ)
Dict K V = List (K × V)

module _ {ℓ κ} {K : Type ℓ} {V : Type κ} where
  -- list(d)
  abbrev pub keys : Dict K V → List K
  keys [] = []
  keys ((k, v) ∷ d) = k ∷ keys d

  abbrev pub values : Dict K V → List V
  values [] = []
  values ((k, v) ∷ d) = v ∷ values d

module _ {ℓ κ} {K : Type ℓ} {V : Type κ} ⦃e : Comparable K⦄ where
  -- d.get(k)
  unfoldable pub get : K → Dict K V → Option V
  get k [] = none
  get k ((j, v) ∷ d) = if j == k then some v else get k d

  -- d[k] = v
  unfoldable pub set : K → V → Dict K V → Dict K V
  set k v [] = (k, v) ∷ []
  set k v ((j, w) ∷ d) = if j == k then (j, v) ∷ d else (j, w) ∷ set k v d

  -- d.pop(k, None)
  unfoldable pub pop : K → Dict K V → Dict K V
  pop k [] = []
  pop k ((j, w) ∷ d) = if j == k then pop k d else (j, w) ∷ pop k d

  -- d.setdefault(k, v), and the entry that reading d[k] of a defaultdict makes
  unfoldable pub setdefault : K → V → Dict K V → Dict K V
  unfolding get set
  setdefault k v d = elim (get k d) [ none ↦ set k v d | some w ↦ d ]

  -- d.get(k, default), and d[k] of a defaultdict
  unfoldable pub get_or : K → V → Dict K V → V
  unfolding get
  get_or k w d = elim (get k d) [ none ↦ w | some v ↦ v ]
