-- ===== src/Binding.antt =====
-- backend/app/services/binding.py: the port that an instance binds, and the TLS material that it
-- serves with. A text of `None` or "" is false.
mod Tests
use spark_controlplane.Prelude.{
  ℕ, zero, suc, ◌≡◌, ◌⊎◌, inl, inr, Bool-cases, Option-cases, String, Bool, true, false, ◌&&◌,
  Option, none, some, arith, ◌==◌, string_eq, if◌then◌else◌,
}
use spark_controlplane.Models.{Instance, Endpoint, Termination, onbox, k8s}

abbrev pub pinned_port : Option ℕ → ℕ → ℕ
pinned_port none own = own
pinned_port (some zero) own = own
pinned_port (some (suc p)) own = suc p

unfoldable pub effective_port : Instance → ℕ
effective_port inst = elim inst.endpoint [
  | none ↦ inst.port
  | some ep ↦ pinned_port ep.upstream_port inst.port
]

abbrev pub is_set : Option String → Bool
is_set none = false
is_set (some text) = if text == "" then false else true

abbrev pub is_k8s : Termination → Bool
is_k8s k8s = true
is_k8s onbox = false

pub record Tls : Type 0 where
  pub enabled : Bool
  pub cert : Option String
  pub key : Option String

abbrev own_tls : Instance → Tls
own_tls inst = record {
  enabled = inst.tls_enabled;
  cert = inst.tls_cert_enc;
  key = inst.tls_key_enc;
}

unfoldable pub effective_tls : Instance → Tls
effective_tls inst = elim inst.endpoint [
  | none ↦ own_tls inst
  | some ep ↦
      if is_k8s ep.termination
      then record { enabled = false; cert = none; key = none }
      else if inst.tls_enabled && (is_set ep.tls_cert_enc && is_set ep.tls_key_enc)
      then record { enabled = true; cert = ep.tls_cert_enc; key = ep.tls_key_enc }
      else own_tls inst
]

-- A sidecar runs only if the instance itself enables TLS, never for a member of a k8s endpoint,
-- and its certificate and key come from one owner: both from the instance, or both from the
-- endpoint, which then has both.
pub effective_tls_one_owner :
    (inst : Instance)
    → (effective_tls inst).enabled ≡ true
    → (inst.tls_enabled ≡ true)
      × (((effective_tls inst).cert ≡ inst.tls_cert_enc)
            × ((effective_tls inst).key ≡ inst.tls_key_enc)
          ⊎ ((ep : Endpoint) × (inst.endpoint ≡ some ep)
              × (ep.termination ≡ onbox)
              × ((effective_tls inst).cert ≡ ep.tls_cert_enc)
              × ((effective_tls inst).key ≡ ep.tls_key_enc)
              × (is_set ep.tls_cert_enc ≡ true)
              × (is_set ep.tls_key_enc ≡ true)))
unfolding effective_tls
effective_tls_one_owner inst on = elim (Option-cases inst.endpoint) [
  | inl absent ↦ (ground arith, inl (ground arith, ground arith))
  | inr (ep, found) ↦
      elim (Bool-cases (inst.tls_enabled && (is_set ep.tls_cert_enc && is_set ep.tls_key_enc))) [
        | inl owned ↦ (
          ground arith,
          inr (ep, found, ground arith, ground arith, ground arith, ground arith, ground arith),
        )
        | inr own ↦ (ground arith, inl (ground arith, ground arith))
      ]
]
