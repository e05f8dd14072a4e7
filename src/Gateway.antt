-- ===== src/Gateway.antt =====
-- backend/app/routers/gateway.py: whom a request comes from, with what limits, and which instance
-- answers it; with parse_served_model_names of services/templates.py and the two functions of
-- services/status_svc.py that say where an instance is reached.
pub mod Names
pub mod Routing
pub mod Access
mod Tests
use spark_controlplane.Prelude.{
  ℕ, zero, suc, String, Bool, true, false, not, ◌&&◌, ◌||◌, Option, none, some, List, [], ◌∷◌, ◌++◌,
  length, any, keep_if, ltb, leb, ◌==◌, nat_eq, string_eq, if◌then◌else◌,
}
use spark_controlplane.Dict.{Dict}
use spark_controlplane.Text.{Text, codes, startswith, words_from, text_beq}
use spark_controlplane.Models.{
  InstStatus, stopped, starting, running, stopping, error, status_eq, Instance, single, topology_eq,
}
use spark_controlplane.Binding.{effective_port, effective_tls, Tls}
use spark_controlplane.Apikeys.{
  Principal, Cache, named, legacy_client, session_client, utf8, wire_bytes, lookup, touch,
}

-- The columns and relations of an instance that the gateway reads, and the aliases of the endpoint
-- that it is a member of, if there is one, in their order, with which its unit is launched.
pub record Served : Type 0 where
  pub inst : Instance
  pub endpoint_aliases : List Text
  pub served_model_names : Option Text
  pub model_name : Option Text
  pub extra_args : Option Text
  pub lan_ip : Option String

-- " ".join(texts)
unfoldable pub join : List Text → Text
join [] = []
join (t ∷ []) = t
join (t ∷ u ∷ rest) = let following = join (u ∷ rest) in t ++ 32 ∷ following

-- parse_served_model_names
unfoldable pub parse_served_model_names : Option Text → List Text
unfolding words_from
parse_served_model_names none = []
parse_served_model_names (some text) = words_from [] text

-- `_served_names`
unfoldable pub served_names : Served → List Text
unfolding parse_served_model_names
served_names i = elim (parse_served_model_names i.served_model_names) [
  | n ∷ names ↦ n ∷ names
  | [] ↦ elim i.model_name [ none ↦ [] | some name ↦ name ∷ [] ]
]

-- services/instances.py `_effective_aliases`, with the names that `build_vllm_serve_cmd` makes of them:
-- what vLLM answers to, unless `extra_args` name others. There are none if they do.
unfoldable pub effective_aliases : Served → Option Text
effective_aliases i = elim i.endpoint_aliases [
  | a ∷ aliases ↦ some (join (a ∷ aliases))
  | [] ↦ i.served_model_names
]

-- `needle in text`
unfoldable pub is_within : Text → Text → Bool
unfolding startswith
is_within needle [] = startswith needle []
is_within needle (c ∷ cs) = startswith needle (c ∷ cs) || is_within needle cs

unfoldable pub has_own_names : Option Text → Bool
unfolding is_within
has_own_names none = false
has_own_names (some extra_args) = is_within (codes "--served-model-name") extra_args

unfoldable pub launched_names : Served → List Text
unfolding parse_served_model_names effective_aliases has_own_names
launched_names i =
    if has_own_names i.extra_args
    then []
    else elim (parse_served_model_names (effective_aliases i)) [
      | n ∷ names ↦ n ∷ names
      | [] ↦ elim i.model_name [ some (c ∷ cs) ↦ (c ∷ cs) ∷ [] | _ ↦ [] ]
    ]

unfoldable pub serves : Text → Served → Bool
unfolding served_names
serves model i = any (λ n. text_beq n model) (served_names i)

-- The order of the query: a start time first, the later one first, then the larger id.
abbrev pub before : Served → Served → Bool
before a b = elim a.inst.started_at [
  | none ↦ elim b.inst.started_at [ none ↦ ltb b.inst.id a.inst.id | some u ↦ false ]
  | some t ↦ elim b.inst.started_at [
    | none ↦ true
    | some u ↦ ltb u t || ((t == u) && ltb b.inst.id a.inst.id)
  ]
]

unfoldable pub insert : Served → List Served → List Served
insert i [] = i ∷ []
insert i (j ∷ js) = let rest = insert i js in if before j i then j ∷ rest else i ∷ j ∷ js

unfoldable pub order : List Served → List Served
unfolding insert
order [] = []
order (i ∷ is) = insert i (order is)

-- `_running_instances`
unfoldable pub running_instances : List Served → List Served
unfolding order
running_instances rows = order (keep_if (λ i. i.inst.status == running) rows)

abbrev pub first_serving : Text → List Served → Option Served
first_serving model [] = none
first_serving model (i ∷ is) = if serves model i then some i else first_serving model is

-- instance_api_node and instance_base_url: the scheme, the address, the port, and whether the
-- certificate is verified.
pub record BaseUrl : Type 0 where
  pub https : Bool
  pub lan_ip : String
  pub port : ℕ
  pub verify : Bool

unfoldable pub instance_api_node : Served → Option String → Option String
instance_api_node i head = if i.inst.topology == single then i.lan_ip else head

unfoldable pub instance_base_url : Served → Option String → Option BaseUrl
unfolding instance_api_node effective_tls effective_port
instance_base_url i head = elim (instance_api_node i head) [
  | none ↦ none
  | some ip ↦ some (
      if (effective_tls i.inst).enabled
      then record { https = true; lan_ip = ip; port = i.inst.tls_port; verify = false }
      else record { https = false; lan_ip = ip; port = effective_port i.inst; verify = true })
]

-- The routing, or the HTTP error that is raised: a 503, but for an unknown model, a 404.
pub data Resolution : Type 0 where
  routed : (i : Served) (url : BaseUrl) → Resolution
  no_reachable_host : (i : Served) → Resolution
  is_starting : (i : Served) → Resolution
  is_shutting_down : (i : Served) → Resolution
  failed_to_start : (i : Served) → Resolution
  not_running : (i : Served) → Resolution
  unknown_model : Resolution

abbrev pub not_serving : Served → InstStatus → Resolution
not_serving i starting = is_starting i
not_serving i stopping = is_shutting_down i
not_serving i error = failed_to_start i
not_serving i stopped = not_running i
not_serving i running = not_running i

-- `_resolve`: `head` is the address of the head node, and `rows` all instances.
unfoldable pub resolve : Text → Option String → List Served → Resolution
unfolding running_instances instance_base_url
resolve model head rows = elim (first_serving model (running_instances rows)) [
  | some i ↦ elim (instance_base_url i head) [
    | none ↦ no_reachable_host i
    | some url ↦ routed i url
  ]
  | none ↦ elim (first_serving model rows) [
    | some i ↦ not_serving i i.inst.status
    | none ↦ unknown_model
  ]
]

pub record Settings : Type 0 where
  pub effective_auth_mode : String
  pub gateway_token : Option Text
  pub stored_token : Option Text
  pub gateway_limit_session : Bool
  pub gateway_max_concurrent : Option ℕ
  pub gateway_max_rpm : Option ℕ

-- `supplied[7:] if supplied.startswith("Bearer ") else ""`
abbrev pub drop : ℕ → Text → Text
drop zero cs = cs
drop (suc n) [] = []
drop (suc n) (c ∷ cs) = drop n cs

unfoldable pub bearer : Text → Text
unfolding startswith
bearer header = if startswith (codes "Bearer ") header then drop 7 header else []

-- `settings.gateway_token`, or the stored one
abbrev pub shared_token : Settings → Option Text
shared_token s = elim s.gateway_token [ some (c ∷ cs) ↦ some (c ∷ cs) | _ ↦ s.stored_token ]

unfoldable pub is_shared : Option Text → Text → Bool
unfolding wire_bytes utf8
is_shared none supplied = false
is_shared (some token) supplied =
    not (length token == 0)
    && not (length supplied == 0)
    && text_beq (wire_bytes supplied) (utf8 token)

-- `_gateway_auth`: `none` is the 401. `session` is the user whose cookie the request has, if any.
-- The key of the principal is touched.
unfoldable pub gateway_auth :
    (Text → String)
    → Settings
    → Text
    → Option String
    → Cache
    → ℕ
    → Dict ℕ ℕ
    → Option Principal × Dict ℕ ℕ
unfolding bearer lookup is_shared touch
gateway_auth sha256 s header session cache now used = elim (lookup sha256 (bearer header) cache) [
  | some p ↦ (some p, touch p.key_id now used)
  | none ↦
      if s.effective_auth_mode == "none"
      then (some (named legacy_client), used)
      else if is_shared (shared_token s) (bearer header)
      then (some (named legacy_client), used)
      else elim session [
        | some user ↦ (if user == "" then none else some (named session_client), used)
        | none ↦ (none, used)
      ]
]

-- `override if override is not None else default`, then `or None`
abbrev pub limit : Option ℕ → Option ℕ → Option ℕ
limit (some zero) default = none
limit (some (suc n)) default = some (suc n)
limit none (some zero) = none
limit none (some (suc n)) = some (suc n)
limit none none = none

-- `_effective_limits`
unfoldable pub effective_limits : Settings → Principal → Option ℕ × Option ℕ
effective_limits s p =
    if (p.client == session_client) && not s.gateway_limit_session
    then (none, none)
    else (limit p.max_concurrent s.gateway_max_concurrent, limit p.max_rpm s.gateway_max_rpm)
