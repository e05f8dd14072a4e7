-- ===== src/Promotion/Rows.antt =====
-- The rows of `endpoint_promotions`: ids are fresh, and a write by id changes one row.
use spark_controlplane.Prelude.{
  ℕ, ◌≡◌, ◌<◌, refl, false, List, [], ◌∷◌, ◌++◌, arith, All, All-map, nat_beq_iff, nat_eq, map,
}
use spark_controlplane.Portal.{EndpointPromotion}
use spark_controlplane.Promotion.{set_promotion, next_id, supersede, is_active}

abbrev pub Below : ℕ → List EndpointPromotion → Type 0
Below n rs = All (λ r. r.id < n) rs

Below-next_id : (rs : List EndpointPromotion) → Below (next_id rs) rs
Below-next_id [] = tt
Below-next_id (r ∷ rs) = (omega arith, All-map _ _ rs (λ x h. omega (arith, h)) (Below-next_id rs))

set_promotion-append :
    (n : ℕ) (f : EndpointPromotion → EndpointPromotion) (rs : List EndpointPromotion)
    (r : EndpointPromotion)
    → Below n rs
    → r.id ≡ n
    → set_promotion n f (rs ++ r ∷ []) ≡ rs ++ f r ∷ []
unfolding set_promotion
set_promotion-append n f [] r b e = ground (arith, nat_beq_iff r.id n)
set_promotion-append n f (x ∷ rs) r (b, bs) e =
    ground (arith, nat_beq_iff x.id n, set_promotion-append n f rs r bs e)

Below-supersede :
    (n i : ℕ) (rs : List EndpointPromotion) → Below n rs → Below n (map (supersede i) rs)
Below-supersede n i [] b = tt
Below-supersede n i (r ∷ rs) (b, bs) = (ground arith, Below-supersede n i rs bs)

map-append :
    (f : EndpointPromotion → EndpointPromotion) (rs : List EndpointPromotion)
    (r : EndpointPromotion)
    → map f (rs ++ r ∷ []) ≡ map f rs ++ f r ∷ []
map-append f [] r = refl
map-append f (x ∷ rs) r = ground (arith, map-append f rs r)

-- What the writes of a promotion make of the rows with the new one.
pub set_promotion-next_id :
    (f : EndpointPromotion → EndpointPromotion) (rs : List EndpointPromotion)
    (r : EndpointPromotion)
    → r.id ≡ next_id rs
    → set_promotion (next_id rs) f (rs ++ r ∷ []) ≡ rs ++ f r ∷ []
set_promotion-next_id f rs r = set_promotion-append (next_id rs) f rs r (Below-next_id rs)

pub set_promotion-supersede :
    (f : EndpointPromotion → EndpointPromotion) (i : ℕ) (rs : List EndpointPromotion)
    (r : EndpointPromotion)
    → r.id ≡ next_id rs
    → is_active r.status ≡ false
    → set_promotion (next_id rs) f (map (supersede i) (rs ++ r ∷ []))
      ≡ map (supersede i) rs ++ f r ∷ []
set_promotion-supersede f i rs r e inactive =
    let alone : supersede i r ≡ r = ground arith in
    rw (map-append (supersede i) rs r, alone)
      (set_promotion-append (next_id rs) f (map (supersede i) rs) r
        (Below-supersede (next_id rs) i rs (Below-next_id rs)) e)
