-- ===== src/Gateway/Tests.antt =====
-- gateway.py at concrete inputs.
use spark_controlplane.Prelude.{
  ◌≡◌, ◌≢◌, ◌⊎◌, if◌then◌else◌, nat_eq, refl, String, true, false, Option, none, some, List, [],
  ◌∷◌, All, any, ◌==◌, length,
}
use spark_controlplane.Text.{Text, codes, text_beq}
use spark_controlplane.Models.{Instance, single, running, stopping, status_eq}
use spark_controlplane.Gateway.{
  Served, BaseUrl, launched_names, has_own_names, join, routed, serves, before, instance_base_url,
  resolve, is_shutting_down, unknown_model, Settings, gateway_auth, effective_limits,
}
use spark_controlplane.Gateway.Routing.{resolve-newest}
use spark_controlplane.Apikeys.{named, legacy_client}

abbrev row : Instance
row = record {
  id = 1;
  name = "old";
  topology = single;
  node_id = some 1;
  port = 8000;
  master_port = 29500;
  endpoint_id = none;
  endpoint = none;
  tls_enabled = false;
  tls_port = 8443;
  tls_cert_enc = none;
  tls_key_enc = none;
  status = running;
  last_error = none;
  started_at = some 100;
  last_healthy_at = none;
}

abbrev old : Served
old = record {
  inst = row;
  endpoint_aliases = [];
  extra_args = none;
  served_model_names = some (codes " chat  code");
  model_name = some (codes "qwen");
  lan_ip = some "10.0.0.1";
}

abbrev new : Served
new = record old { inst = record row { id = 2; name = "new"; started_at = some 200 } }

abbrev ending : Served
ending = record old {
  inst = record row { id = 3; status = stopping; started_at = some 300 };
  served_model_names = none;
}

abbrev rows : List Served
rows = old ∷ new ∷ ending ∷ []

abbrev url : BaseUrl
url = record { https = false; lan_ip = "10.0.0.1"; port = 8000; verify = true }

shutting_test : resolve (codes "qwen") none rows ≡ is_shutting_down ending
unfolding resolve serves
shutting_test = refl

unknown_test : resolve (codes "other") none rows ≡ unknown_model
unfolding resolve serves
unknown_test = refl

-- A member of an endpoint answers to the endpoint's aliases alone, but the gateway knows it by its
-- own names.
abbrev member : Served
member = record new { endpoint_aliases = codes "prod" ∷ [] }

member_launched : launched_names member ≡ codes "prod" ∷ []
unfolding launched_names join
member_launched = refl

alias_unknown : resolve (codes "prod") none (member ∷ []) ≡ unknown_model
unfolding resolve serves
alias_unknown = refl

own_name_routed : resolve (codes "code") none (member ∷ []) ≡ routed member url
unfolding resolve serves
own_name_routed = refl

-- The command leaves the names to the extra arguments.
extra_args_test :
    launched_names (record new { extra_args = some (codes "--seed 1 --served-model-name mine") })
    ≡ []
unfolding launched_names
extra_args_test = refl

resolve-newest_example :
    (new.inst.status ≡ running)
    × (serves (codes "code") new ≡ true)
    × ((any (λ n. text_beq n (codes "code")) (launched_names new) ≡ true)
        ⊎ (new.endpoint_aliases ≢ [])
        ⊎ (has_own_names new.extra_args ≡ true)
        ⊎ (codes "code" ≡ []))
    × (instance_base_url new none ≡ some url)
    × All
        (λ j.
          (j.inst.status == running) ≡ true → serves (codes "code") j ≡ true → before j new ≡ false)
        rows
unfolding resolve serves
resolve-newest_example = resolve-newest (codes "code") none rows new url refl

abbrev settings : Settings
settings = record {
  effective_auth_mode = "password";
  gateway_token = some (codes "tok");
  stored_token = none;
  gateway_limit_session = false;
  gateway_max_concurrent = some 4;
  gateway_max_rpm = some 0;
}

abbrev sha : Text → String
sha t = if length t == 3 then "three" else "other"

abbrev header : Text
header = codes "Bearer tok"

limits_test : effective_limits settings (named legacy_client) ≡ (some 4, none)
unfolding effective_limits
limits_test = refl

refused_test : (gateway_auth sha settings (codes "Bearer no") none [] 5 []).0 ≡ none
unfolding gateway_auth
refused_test = refl

abbrev no_session : Option String
no_session = none
