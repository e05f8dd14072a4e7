-- ===== src/Binding/Tests.antt =====
-- The bindings of binding.py at concrete rows.
use spark_controlplane.Prelude.{◌≡◌, ◌⊎◌, true, false, some, none, refl}
use spark_controlplane.Models.{Instance, Endpoint, Termination, onbox, k8s, cluster, running}
use spark_controlplane.Binding.{effective_port, effective_tls, is_set, effective_tls_one_owner}

abbrev prod : Termination → Endpoint
prod t = record {
  id = 1;
  termination = t;
  upstream_port = some 9000;
  tls_cert_enc = some "cert";
  tls_key_enc = some "key";
}

abbrev member : Termination → Instance
member t = record {
  id = 7;
  name = "llama";
  topology = cluster;
  node_id = none;
  port = 8001;
  master_port = 29500;
  endpoint_id = some 1;
  endpoint = some (prod t);
  tls_enabled = true;
  tls_port = 443;
  tls_cert_enc = some "own cert";
  tls_key_enc = none;
  status = running;
  last_error = none;
  started_at = none;
  last_healthy_at = none;
}

bindings :
    (effective_port (member onbox) ≡ 9000)
    × (effective_tls (member onbox)
        ≡ record { enabled = true; cert = some "cert"; key = some "key" })
    × (effective_tls (member k8s) ≡ record { enabled = false; cert = none; key = none })
unfolding effective_port effective_tls
bindings = (refl, refl, refl)

effective_tls_one_owner_test :
    (true ≡ true)
    × (((effective_tls (member onbox)).cert ≡ some "own cert")
          × ((effective_tls (member onbox)).key ≡ none)
        ⊎ ((ep : Endpoint) × (some (prod onbox) ≡ some ep)
            × (ep.termination ≡ onbox)
            × ((effective_tls (member onbox)).cert ≡ ep.tls_cert_enc)
            × ((effective_tls (member onbox)).key ≡ ep.tls_key_enc)
            × (is_set ep.tls_cert_enc ≡ true)
            × (is_set ep.tls_key_enc ≡ true)))
unfolding effective_tls
effective_tls_one_owner_test = effective_tls_one_owner (member onbox) refl
