-- ===== src/Endpoints/Owners.antt =====
-- Every alias has one owner, whatever requests come.
use spark_controlplane.Prelude.{
  ℕ, suc, ◌+◌, ◌≡◌, ◌≤◌, refl, inl, inr, Bool, true, false, not, ◌&&◌, List, [], ◌∷◌, ◌++◌, keep_if,
  arith, Bool-cases, ◌==◌, nat_eq, if◌then◌else◌,
}
use spark_controlplane.Portal.{EndpointAlias}
use spark_controlplane.Text.{Text, text_beq}
use spark_controlplane.Text.Laws.{text_beq_iff}
use spark_controlplane.Endpoints.{has}
use spark_controlplane.Endpoints.Names.{firsts}
use spark_controlplane.Endpoints.Requests.{taken, without, numbered}

-- How often an alias stands in the table.
unfoldable pub owned : Text → List EndpointAlias → ℕ
owned t [] = 0
owned t (a ∷ rest) = (if text_beq a.alias t then 1 else 0) + owned t rest

abbrev pub IsUnique : List EndpointAlias → Type 0
IsUnique rows = (t : Text) → owned t rows ≤ 1

pub owned-append : (t : Text) (a b : List EndpointAlias) → owned t (a ++ b) ≡ owned t a + owned t b
unfolding owned
owned-append t [] b = omega arith
owned-append t (x ∷ a) b = omega (arith, owned-append t a b)

pub owned-without_le :
    (t : Text) (i : ℕ) (rows : List EndpointAlias) → owned t (without i rows) ≤ owned t rows
unfolding owned
owned-without_le t i [] = omega arith
owned-without_le t i (a ∷ rows) = ground (arith, owned-without_le t i rows)

-- An accepted alias that no other endpoint owns is gone once the endpoint's own are deleted.
pub owned-without_free :
    (t : Text) (i : ℕ) (accepted : List Text) (rows : List EndpointAlias)
    → has t accepted ≡ true
    → taken i accepted rows ≡ []
    → owned t (without i rows) ≡ 0
unfolding owned
owned-without_free t i accepted [] h e = refl
owned-without_free t i accepted (a ∷ rows) h e = elim (Bool-cases (text_beq a.alias t)) [
  | inl same ↦
      let accepted_too : has a.alias accepted ≡ true = rw ((text_beq_iff a.alias t).0 same) h in
      ground (arith, owned-without_free t i accepted rows h)
  | inr other ↦ elim (Bool-cases (has a.alias accepted && not (a.endpoint_id == i))) [
    | inl clash ↦ ground arith
    | inr free ↦ ground (arith, owned-without_free t i accepted rows h)
  ]
]

pub owned-numbered_no :
    (t : Text) (i n : ℕ) (ts : List Text) → has t ts ≡ false → owned t (numbered i n ts) ≡ 0
unfolding owned
owned-numbered_no t i n [] h = refl
owned-numbered_no t i n (s ∷ ts) h = ground (arith, owned-numbered_no t i (suc n) ts)

-- The texts of a list, each once.
abbrev pub IsOnce : List Text → Type 0
IsOnce [] = Unit
IsOnce (t ∷ ts) = (has t ts ≡ false) × IsOnce ts

pub owned-numbered_le :
    (t : Text) (i n : ℕ) (ts : List Text) → IsOnce ts → owned t (numbered i n ts) ≤ 1
unfolding owned
owned-numbered_le t i n [] h = omega arith
owned-numbered_le t i n (s ∷ ts) (no_more, once) = elim (Bool-cases (text_beq s t)) [
  | inl same ↦
      let none_left : has t ts ≡ false = rw⁻¹ ((text_beq_iff s t).0 same) no_more in
      ground (arith, owned-numbered_no t i (suc n) ts none_left)
  | inr other ↦ ground (arith, owned-numbered_le t i (suc n) ts once)
]

has-keep_if_self :
    (t : Text) (ts : List Text) → has t (keep_if (λ s. not (text_beq t s)) ts) ≡ false
has-keep_if_self t [] = refl
has-keep_if_self t (s ∷ ts) =
    ground (arith, has-keep_if_self t ts, text_beq_iff s t, text_beq_iff t s)

has-keep_if_no :
    (p : Text → Bool) (t : Text) (ts : List Text) → has t ts ≡ false → has t (keep_if p ts) ≡ false
has-keep_if_no p t [] h = refl
has-keep_if_no p t (s ∷ ts) h = ground (arith, has-keep_if_no p t ts)

keep_if-IsOnce : (p : Text → Bool) (ts : List Text) → IsOnce ts → IsOnce (keep_if p ts)
keep_if-IsOnce p [] h = tt
keep_if-IsOnce p (t ∷ ts) (no_more, once) = elim (Bool-cases (p t)) [
  | inl stays ↦ rw stays (has-keep_if_no p t ts no_more, keep_if-IsOnce p ts once)
  | inr goes ↦ rw goes (keep_if-IsOnce p ts once)
]

pub firsts-IsOnce : (ts : List Text) → IsOnce (firsts ts)
firsts-IsOnce [] = tt
firsts-IsOnce (t ∷ ts) = (
  has-keep_if_self t (firsts ts),
  keep_if-IsOnce (λ s. not (text_beq t s)) (firsts ts) (firsts-IsOnce ts),
)
