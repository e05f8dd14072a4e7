-- ===== src/Endpoints/Tables.antt =====
-- The tables of endpoints and aliases stay well formed, whatever requests come.
use spark_controlplane.Prelude.{
  ℕ, suc, ◌≡◌, ◌<◌, refl, inl, inr, Bool, true, false, List, [], ◌∷◌, ◌++◌, any, All, All-map,
  arith, Bool-cases, nat_beq_iff, ◌==◌, nat_eq,
}
use spark_controlplane.Portal.{EndpointRow, EndpointAlias, Portal}
use spark_controlplane.Text.{Text}
use spark_controlplane.Endpoints.{has}
use spark_controlplane.Endpoints.Requests.{taken, without, numbered, next_endpoint_id}
use spark_controlplane.Endpoints.Owners.{
  IsUnique, IsOnce, owned-append, owned-without_le, owned-without_free, owned-numbered_no,
  owned-numbered_le,
}

abbrev pub has_id : ℕ → List EndpointRow → Bool
has_id i es = any (λ e. e.base.id == i) es

-- Every alias is unique and belongs to an endpoint of the table.
pub record IsSound (p : Portal) : Type 0 where
  pub unique : IsUnique p.aliases
  pub foreign : All (λ a. has_id a.endpoint_id p.endpoints ≡ true) p.aliases

Below : ℕ → List EndpointRow → Type 0
Below n es = All (λ e. e.base.id < n) es

next_id-Below : (es : List EndpointRow) → Below (next_endpoint_id es) es
unfolding Below
next_id-Below [] = tt
next_id-Below (e ∷ es) = (omega arith, All-map _ _ es (λ x h. omega (arith, h)) (next_id-Below es))

Below-fresh : (n : ℕ) (es : List EndpointRow) → Below n es → has_id n es ≡ false
unfolding Below
Below-fresh n [] b = refl
Below-fresh n (e ∷ es) (b, bs) = ground (arith, Below-fresh n es bs, nat_beq_iff e.base.id n)

pub has_id-next : (es : List EndpointRow) → has_id (next_endpoint_id es) es ≡ false
has_id-next es = Below-fresh (next_endpoint_id es) es (next_id-Below es)

-- The endpoint with the new id has no aliases yet.
pub without_fresh :
    (i : ℕ) (es : List EndpointRow) (rows : List EndpointAlias)
    → has_id i es ≡ false
    → All (λ a. has_id a.endpoint_id es ≡ true) rows
    → without i rows ≡ rows
without_fresh i es [] h f = refl
without_fresh i es (a ∷ rows) h (k, ks) = elim (Bool-cases (a.endpoint_id == i)) [
  | inl same ↦
      let known : has_id i es ≡ true = rw⁻¹ ((nat_beq_iff a.endpoint_id i).0 same) k in
      ground (arith, known, h)
  | inr other ↦ ground (arith, without_fresh i es rows h ks)
]

All-append {ℓ κ} :
    {A : Type ℓ} (P : A → Type κ) (xs ys : List A) → All P xs → All P ys → All P (xs ++ ys)
All-append P [] ys h k = k
All-append P (x ∷ xs) ys (h, hs) k = (h, All-append P xs ys hs k)

All-without :
    (P : EndpointAlias → Type 0) (i : ℕ) (rows : List EndpointAlias)
    → All P rows
    → All P (without i rows)
All-without P i [] h = tt
All-without P i (a ∷ rows) (h, hs) = elim (Bool-cases (a.endpoint_id == i)) [
  | inl same ↦ rw same (All-without P i rows hs)
  | inr other ↦ rw other (h, All-without P i rows hs)
]

All-numbered :
    (es : List EndpointRow) (i n : ℕ) (ts : List Text)
    → has_id i es ≡ true
    → All (λ a. has_id a.endpoint_id es ≡ true) (numbered i n ts)
All-numbered es i n [] h = tt
All-numbered es i n (t ∷ ts) h = (h, All-numbered es i (suc n) ts h)

replaced-IsUnique :
    (i : ℕ) (accepted : List Text) (rows : List EndpointAlias)
    → IsOnce accepted
    → taken i accepted rows ≡ []
    → IsUnique rows
    → IsUnique (without i rows ++ numbered i 0 accepted)
replaced-IsUnique i accepted rows once free unique t =
    let split = owned-append t (without i rows) (numbered i 0 accepted) in
    elim (Bool-cases (has t accepted)) [
      | inl new ↦ omega (
        arith,
        split,
        owned-without_free t i accepted rows new free,
        owned-numbered_le t i 0 accepted once,
      )
      | inr other ↦ omega (
        arith,
        split,
        owned-numbered_no t i 0 accepted other,
        owned-without_le t i rows,
        unique t,
      )
    ]

pub replaced-IsSound :
    (p : Portal) (i : ℕ) (accepted : List Text)
    → IsOnce accepted
    → taken i accepted p.aliases ≡ []
    → has_id i p.endpoints ≡ true
    → IsSound p
    → IsSound (record p { aliases = without i p.aliases ++ numbered i 0 accepted })
replaced-IsSound p i accepted once free known s = record {
  unique = replaced-IsUnique i accepted p.aliases once free s.unique;
  foreign =
      All-append (λ a. has_id a.endpoint_id p.endpoints ≡ true) (without i p.aliases)
        (numbered i 0 accepted)
        (All-without (λ a. has_id a.endpoint_id p.endpoints ≡ true) i p.aliases s.foreign)
        (All-numbered p.endpoints i 0 accepted known);
}
