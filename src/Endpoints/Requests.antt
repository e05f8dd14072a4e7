-- ===== src/Endpoints/Requests.antt =====
-- backend/app/routers/endpoints.py: the handlers that create, change and delete an endpoint and take
-- its certificate. A handler that raises leaves the database as it was, since nothing is committed.
use spark_controlplane.Prelude.{
  ℕ, zero, suc, ◌+◌, max, String, Bool, true, false, not, ◌&&◌, ◌||◌, Option, none, some, List, [],
  ◌∷◌, ◌++◌, any, keep_if, ◌==◌, nat_eq, string_eq, if◌then◌else◌,
}
use spark_controlplane.Portal.{EndpointRow, EndpointAlias, Portal}
use spark_controlplane.Text.{Text, codes, text_beq}
use spark_controlplane.Models.{Termination}
use spark_controlplane.Binding.{is_k8s}
use spark_controlplane.Endpoints.{
  Raw, entries, Parsed, is_ok, has, normalise_aliases, hostname_covered, parse_certificate,
  contains_text,
}
use spark_controlplane.Endpoints.Answers.{
  missing_endpoint, name_exists, bad_aliases, needs_an_alias, already_in_use, unusable_certificate,
  bad_key, not_covered, needs_upstream_port, still_served, integrity_error, Answer, answered,
  refused, ◌>>=◌, ◌>>◌, require,
}

abbrev pub find_name : String → List EndpointRow → Option EndpointRow
find_name name [] = none
find_name name (e ∷ es) = if e.name == name then some e else find_name name es

-- `_load`
unfoldable pub load : String → Portal → Answer EndpointRow
load name p = elim (find_name name p.endpoints) [
  | none ↦ refused missing_endpoint
  | some e ↦ answered e
]

-- The aliases of `accepted` that another endpoint owns.
abbrev pub taken : ℕ → List Text → List EndpointAlias → List Text
taken i accepted [] = []
taken i accepted (a ∷ rest) =
    if has a.alias accepted && not (a.endpoint_id == i)
    then a.alias ∷ taken i accepted rest
    else taken i accepted rest

abbrev pub without : ℕ → List EndpointAlias → List EndpointAlias
without i rows = keep_if (λ a. not (a.endpoint_id == i)) rows

abbrev pub numbered : ℕ → ℕ → List Text → List EndpointAlias
numbered i n [] = []
numbered i n (t ∷ ts) = record { endpoint_id = i; alias = t; position = n } ∷ numbered i (suc n) ts

-- What `_set_aliases` does with the accepted and the rejected names.
unfoldable pub set_accepted : ℕ → Bool → Portal → List Text → List Text → Answer Portal
set_accepted i is_new p accepted (r ∷ rejected) = refused (bad_aliases (r ∷ rejected))
set_accepted i is_new p [] [] = refused needs_an_alias
set_accepted i is_new p (t ∷ accepted) [] = elim (taken i (t ∷ accepted) p.aliases) [
  | c ∷ clash ↦ refused (already_in_use (c ∷ clash))
  | [] ↦ answered (record p {
    aliases = (if is_new then p.aliases else without i p.aliases) ++ numbered i 0 (t ∷ accepted);
  })
]

-- `_set_aliases`
unfoldable pub set_aliases : ℕ → Raw → Bool → Portal → Answer Portal
unfolding normalise_aliases set_accepted
set_aliases i raw is_new p =
    set_accepted i is_new p (normalise_aliases raw).0 (normalise_aliases raw).1

-- The row with an id replaced by what `f` makes of it.
abbrev pub change_endpoint : ℕ → (EndpointRow → EndpointRow) → List EndpointRow → List EndpointRow
change_endpoint i f [] = []
change_endpoint i f (e ∷ es) = (if e.base.id == i then f e else e) ∷ change_endpoint i f es

module _ (load_pem : Text → Option Parsed) (encrypt : Text → String) where
  -- `_apply_cert`
  unfoldable pub apply_cert : EndpointRow → Text → Text → Answer EndpointRow
  unfolding parse_certificate hostname_covered contains_text
  apply_cert e cert key = do
    require (is_ok (parse_certificate load_pem cert)) unusable_certificate
    require (contains_text (codes "PRIVATE KEY") key) bad_key
    require (hostname_covered (parse_certificate load_pem cert) e.hostname) not_covered
    answered (record e {
      base = record e.base { tls_cert_enc = some (encrypt cert); tls_key_enc = some (encrypt key) };
      cert = some (parse_certificate load_pem cert);
    })

-- `uq_endpoint_host_port`, for the row that the handler writes.
abbrev pub is_clash : EndpointRow → List EndpointRow → Bool
is_clash e es =
    any (λ f. not (f.base.id == e.base.id) && text_beq f.hostname e.hostname && (f.port == e.port))
      es

unfoldable pub save : EndpointRow → Portal → Answer Portal
save e p =
    if is_clash e p.endpoints
    then refused integrity_error
    else answered (record p { endpoints = change_endpoint e.base.id (λ f. e) p.endpoints })

pub record EndpointIn : Type 0 where
  pub name : String
  pub hostname : Text
  pub port : ℕ
  pub termination : Termination
  pub upstream_port : Option ℕ
  pub aliases : List Text
  pub tls_cert : Option Text
  pub tls_key : Option Text

-- The fields that a PATCH sets; a null for a column that may not be null is refused elsewhere.
pub record EndpointUpdate : Type 0 where
  pub hostname : Option Text
  pub port : Option ℕ
  pub termination : Option Termination
  pub upstream_port : Option (Option ℕ)
  pub aliases : Option (List Text)

abbrev pub next_endpoint_id : List EndpointRow → ℕ
next_endpoint_id [] = 1
next_endpoint_id (e ∷ es) = max (e.base.id + 1) (next_endpoint_id es)

abbrev pub new_endpoint : EndpointIn → ℕ → EndpointRow
new_endpoint payload i = record {
  base = record {
    id = i;
    termination = payload.termination;
    upstream_port = payload.upstream_port;
    tls_cert_enc = none;
    tls_key_enc = none;
  };
  name = payload.name;
  hostname = payload.hostname;
  port = payload.port;
  cert = none;
  current_instance_id = none;
  promoted_at = none;
}

abbrev pub or_old {ℓ} : {A : Type ℓ} → Option A → A → A
or_old none old = old
or_old (some new) old = new

abbrev pub patched : EndpointUpdate → EndpointRow → EndpointRow
patched u e = record e {
  base = record e.base {
    termination = or_old u.termination e.base.termination;
    upstream_port = or_old u.upstream_port e.base.upstream_port;
  };
  hostname = or_old u.hostname e.hostname;
  port = or_old u.port e.port;
}

abbrev pub is_port : Option ℕ → Bool
is_port none = false
is_port (some zero) = false
is_port (some (suc n)) = true

-- `payload.tls_cert and payload.tls_key`
abbrev pub is_text : Option Text → Bool
is_text none = false
is_text (some []) = false
is_text (some (c ∷ cs)) = true

abbrev pub text_of : Option Text → Text
text_of none = []
text_of (some t) = t

module _ (load_pem : Text → Option Parsed) (encrypt : Text → String) where
  unfoldable pub create_endpoint : EndpointIn → Portal → Answer Portal
  unfolding set_aliases apply_cert save
  create_endpoint payload p = do
    require (elim (find_name payload.name p.endpoints) [ none ↦ true | some e ↦ false ]) name_exists
    let e = new_endpoint payload (next_endpoint_id p.endpoints)
    require (not (is_clash e p.endpoints)) integrity_error
    q ←
        set_aliases e.base.id (entries payload.aliases) true
          (record p { endpoints = p.endpoints ++ e ∷ [] })
    if is_text payload.tls_cert && is_text payload.tls_key
        then (do
          f ← apply_cert load_pem encrypt e (text_of payload.tls_cert) (text_of payload.tls_key)
          save f q)
        else answered q

  unfoldable pub upload_tls : String → Text → Text → Portal → Answer Portal
  unfolding load apply_cert save
  upload_tls name cert key p = do
    e ← load name p
    f ← apply_cert load_pem encrypt e cert key
    save f p

unfoldable pub update_endpoint : String → EndpointUpdate → Portal → Answer Portal
unfolding load set_aliases save
update_endpoint name payload p = do
  e ← load name p
  let f = patched payload e
  require (not (is_k8s f.base.termination) || is_port f.base.upstream_port) needs_upstream_port
  q ← elim payload.aliases [
    | none ↦ answered p
    | some aliases ↦ set_aliases e.base.id (entries aliases) false p
  ]
  save f q

-- The delete cascades to the aliases and the promotions; a member instance holds it back.
unfoldable pub delete_endpoint : String → Portal → Answer Portal
unfolding load
delete_endpoint name p = do
  e ← load name p
  require (elim e.current_instance_id [ none ↦ true | some i ↦ false ]) still_served
  require
      (not (any (λ m. elim m.inst.endpoint_id [ none ↦ false | some i ↦ i == e.base.id ]) p.rows))
      integrity_error
  answered (record p {
    endpoints = keep_if (λ f. not (f.base.id == e.base.id)) p.endpoints;
    aliases = without e.base.id p.aliases;
    promotions = keep_if (λ r. not (r.endpoint_id == e.base.id)) p.promotions;
  })
