-- ===== src/Portal/Samples.antt =====
-- A small portal for the tests: one head node, a blue and a green instance on it, and an endpoint
-- that the blue one serves.
use spark_controlplane.Prelude.{
  ℕ, ◌+◌, ◌*◌, String, Bool, true, false, Option, none, some, List, [], ◌∷◌, length, if◌then◌else◌,
}
use spark_controlplane.Text.{codes, text_beq}
use spark_controlplane.Models.{Endpoint, InstStatus, stopped, running, single, onbox}
use spark_controlplane.Portal.{Node, Managed, EndpointRow, Command, Portal, World, install_unit, ok}

abbrev pub head : Node
head = record { id = 1; is_head = true; lan_ip = "10.0.0.1"; qsfp_ip = none }

abbrev pub prod : Endpoint
prod = record {
  id = 5;
  termination = onbox;
  upstream_port = none;
  tls_cert_enc = none;
  tls_key_enc = none;
}

abbrev pub member : ℕ → String → InstStatus → Managed
member i name status = record {
  inst = record {
    id = i;
    name = name;
    topology = single;
    node_id = some 1;
    port = 8000;
    master_port = 29500;
    endpoint_id = some 5;
    endpoint = some prod;
    tls_enabled = false;
    tls_port = 443;
    tls_cert_enc = none;
    tls_key_enc = none;
    status = status;
    last_error = none;
    started_at = none;
    last_healthy_at = none;
  };
  model_id = 9;
  repo_id = codes "Qwen/Qwen3-8B";
  tensor_parallel_size = none;
  enable_tool_choice = true;
  tool_parser = none;
  served_model_names = none;
  api_key_enc = none;
  systemd_unit = none;
  last_load_seconds = none;
}

abbrev pub front : EndpointRow
front = record {
  base = prod;
  name = "prod";
  hostname = codes "llm.example.net";
  port = 80;
  cert = none;
  current_instance_id = some 1;
  promoted_at = none;
}

abbrev pub portal : Portal
portal = record {
  rows = member 1 "blue" running ∷ member 2 "green" stopped ∷ [];
  nodes = head ∷ [];
  model_states = record { model_id = 9; node_id = 1; usable = true } ∷ [];
  registry = [];
  endpoints = front ∷ [];
  aliases = record { endpoint_id = 5; alias = codes "chat"; position = 0 } ∷ [];
  promotions = [];
  done = [];
}

-- A world whose clock moves with the commands, with what commands raise and /health answers.
abbrev pub world : (List Command → Command → Option String) → List Bool → World
world outcome answers = record {
  outcome = outcome;
  health = λ done. answers;
  now = λ done. 1000000 * (60 + length done);
  decrypt = λ secret. ok secret;
  encrypt = λ secret. some secret;
  text = λ e. "failed";
}

abbrev pub fine : World
fine = world (λ done c. none) (false ∷ true ∷ [])

-- /health stays red until the journal ends.
abbrev pub red : World
red = world (λ done c. none) (false ∷ false ∷ [])

-- No unit can be installed.
abbrev pub no_install : List Command → Command → Option String
no_install done (install_unit n name) = some "disk full"
no_install done c = none

abbrev pub broken : World
broken = world no_install []

-- The unit of the green instance alone cannot be installed.
abbrev pub no_green : List Command → Command → Option String
no_green done (install_unit n name) =
    if text_beq name (codes "spark-vllm-green.service") then some "disk full" else none
no_green done c = none

abbrev pub green_broken : World
green_broken = world no_green (true ∷ [])
