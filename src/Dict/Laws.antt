-- ===== src/Dict/Laws.antt =====
-- What `get` returns after an update of a dictionary.
use spark_controlplane.Prelude.{
  ◌≡◌, refl, none, some, [], ◌∷◌, arith, Comparable, ◌==◌, beq_refl, if◌then◌else◌,
}
use spark_controlplane.Dict.{Dict, get, set, pop, get_or, setdefault}

module _ {ℓ κ} {K : Type ℓ} {V : Type κ} ⦃e : Comparable K⦄ where
  pub get-set :
      (k j : K) (v : V) (d : Dict K V) → get j (set k v d) ≡ (if k == j then some v else get j d)
  unfolding get set
  get-set k j v [] = refl
  get-set k j v ((i, w) ∷ d) =
      ground (arith, get-set k j v d, e.same_iff k j, e.same_iff i j, e.same_iff i k)

  pub get-set_self : (k : K) (v : V) (d : Dict K V) → get k (set k v d) ≡ some v
  get-set_self k v d = simp (get-set, beq_refl)

  pub get-pop : (k j : K) (d : Dict K V) → get j (pop k d) ≡ (if k == j then none else get j d)
  unfolding get pop
  get-pop k j [] = ground arith
  get-pop k j ((i, w) ∷ d) =
      ground (arith, get-pop k j d, e.same_iff k j, e.same_iff i j, e.same_iff i k)

  pub get-pop_self : (k : K) (d : Dict K V) → get k (pop k d) ≡ none
  get-pop_self k d = simp (get-pop, beq_refl)

  pub get_or-set :
      (k j : K) (v w : V) (d : Dict K V)
      → get_or j w (set k v d) ≡ (if k == j then v else get_or j w d)
  unfolding get_or
  get_or-set k j v w d = ground (arith, get-set k j v d)

  pub get_or-set_self : (k : K) (v w : V) (d : Dict K V) → get_or k w (set k v d) ≡ v
  get_or-set_self k v w d = simp (get_or-set, beq_refl)

  pub get_or-pop :
      (k j : K) (w : V) (d : Dict K V) → get_or j w (pop k d) ≡ (if k == j then w else get_or j w d)
  unfolding get_or
  get_or-pop k j w d = ground (arith, get-pop k j d)

  -- An assignment right after the entry was made by default is the assignment alone.
  pub get-set-setdefault :
      (k j : K) (v w : V) (d : Dict K V)
      → get j (set k v (setdefault k w d)) ≡ (if k == j then some v else get j d)
  unfolding setdefault
  get-set-setdefault k j v w d =
      ground (arith, get-set k j v d, get-set k j w d, get-set k j v (set k w d))

  -- A default that is made an entry is not seen by a later read with the same default.
  pub get_or-setdefault :
      (k j : K) (w : V) (d : Dict K V) → get_or j w (setdefault k w d) ≡ get_or j w d
  unfolding get_or setdefault
  get_or-setdefault k j w d = ground (arith, get-set k j w d, e.same_iff k j)

pub ruleset dict_laws = (get-set, get-pop, get_or-set, get_or-pop, get_or-setdefault, beq_refl)
