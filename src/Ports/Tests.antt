-- ===== src/Ports/Tests.antt =====
-- The ports of ports.py at concrete rows.
use spark_controlplane.Prelude.{
  ℕ, ◌≡◌, ◌≤◌, ◌<◌, true, false, some, none, refl, List, [], ◌∷◌, All, contains, nat_eq,
}
use spark_controlplane.Models.{Instance, cluster, single, running}
use spark_controlplane.Ports.{
  used_by, reserved_port, reserved, api_taken, allocate_api_port, allocate_master_port,
  port_conflict, api_port_start,
}
use spark_controlplane.Ports.Allocation.{Avoids, allocate_api_port_lem, port_conflict-allocate}

abbrev served : ℕ → ℕ → Instance
served id port = record {
  id = id;
  name = "llama";
  topology = single;
  node_id = some 1;
  port = port;
  master_port = 29500;
  endpoint_id = none;
  endpoint = none;
  tls_enabled = true;
  tls_port = 8001;
  tls_cert_enc = none;
  tls_key_enc = none;
  status = running;
  last_error = none;
  started_at = none;
  last_healthy_at = none;
}

abbrev rows : List Instance
rows = served 1 8000 ∷ served 2 8002 ∷ []

allocated : (allocate_api_port rows ≡ some 8003) × (allocate_master_port rows ≡ some 29500)
unfolding allocate_api_port allocate_master_port
allocated = (refl, refl)

conflicts :
    (port_conflict (some 1) rows 8000 cluster none none none ≡ some (used_by 8000 "llama"))
    × (port_conflict (some 2) rows 8000 cluster none none none ≡ none)
    × (port_conflict (some 1) rows 8000 cluster none (some 1) none ≡ none)
    × (port_conflict (some 1) rows 8080 cluster none none none ≡ some (reserved_port 8080))
unfolding port_conflict
conflicts = (refl, refl, refl, refl)

allocate_api_port_lem_example :
    (port : ℕ) × (allocate_api_port rows ≡ some port)
    × (api_port_start ≤ port)
    × (contains port reserved ≡ false)
    × All (Avoids port) rows
    × ((q : ℕ) → api_port_start ≤ q → q < port → contains q (api_taken reserved rows) ≡ true)
allocate_api_port_lem_example = allocate_api_port_lem rows

port_conflict-allocate_test : port_conflict (some 1) rows 8003 cluster none none none ≡ none
unfolding allocate_api_port
port_conflict-allocate_test = port_conflict-allocate rows 8003 (some 1) none none none cluster refl
