-- ===== src/Endpoints/Tests.antt =====
-- Runs of the endpoints' handlers, and their theorems at concrete inputs.
use spark_controlplane.Prelude.{
  ◌≡◌, ◌↔◌, refl, String, true, false, not, Option, none, List, [], ◌∷◌, arith, map, keep_if,
}
use spark_controlplane.Text.{Text, codes}
use spark_controlplane.Models.{onbox}
use spark_controlplane.Portal.Samples.{portal}
use spark_controlplane.Endpoints.{line, Parsed, is_alias, items, normalise_aliases, name_covers}
use spark_controlplane.Endpoints.Cover.{Covers, name_covers-iff-Covers}
use spark_controlplane.Endpoints.Names.{firsts, normalise_aliases-eq-firsts}
use spark_controlplane.Endpoints.Answers.{◌>>=◌, ◌>>◌, require}
use spark_controlplane.Endpoints.Requests.{EndpointIn, create_endpoint, delete_endpoint}
use spark_controlplane.Endpoints.Owners.{owned}
use spark_controlplane.Endpoints.Tables.{IsSound}
use spark_controlplane.Endpoints.Invariant.{Request, create, delete, run, run-IsSound}

abbrev request : String → List Text → EndpointIn
request name aliases = record {
  name = name;
  hostname = codes "test.example.net";
  port = 443;
  termination = onbox;
  upstream_port = none;
  aliases = aliases;
  tls_cert = none;
  tls_key = none;
}

abbrev no_pem : Text → Option Parsed
no_pem pem = none

abbrev seal : Text → String
seal t = "sealed"

abbrev requests : List Request
requests =
    create (request "test" (codes "chat" ∷ []))
    ∷ create (request "test" (codes "small" ∷ codes "small" ∷ []))
    ∷ delete "prod"
    ∷ []

-- The first request is refused, since "prod" owns the alias; "prod" is served, so it stays.
aliases_after :
    map (λ a. a.alias) (run no_pem seal requests portal).aliases ≡ codes "chat" ∷ codes "small" ∷ []
unfolding delete_endpoint ◌>>=◌ create_endpoint ◌>>◌ require
aliases_after = refl

messy :
    normalise_aliases (line (codes "a/b --flag a/b c"))
    ≡ (codes "a/b" ∷ codes "c" ∷ [], codes "--flag" ∷ [])
unfolding normalise_aliases
messy = refl

abbrev wild : Text
wild = codes "*.example.net"

covered : name_covers (codes "llm.example.net") wild ≡ true
unfolding name_covers
covered = refl

two_labels : name_covers (codes "a.b.example.net") wild ≡ false
unfolding name_covers
two_labels = refl

sample-IsSound : IsSound portal
unfolding owned
sample-IsSound = record { unique = λ t. ground arith; foreign = (refl, tt) }

name_covers-iff-Covers_example :
    (name_covers (codes "llm.example.net") wild ≡ true) ↔ Covers (codes "llm.example.net") wild
name_covers-iff-Covers_example = name_covers-iff-Covers (codes "llm.example.net") wild

normalise_aliases-eq-firsts_example : normalise_aliases (line (codes "a a")) ≡ (
  firsts (keep_if is_alias (items (line (codes "a a")))),
  keep_if (λ t. not (is_alias t)) (items (line (codes "a a"))),
)
normalise_aliases-eq-firsts_example = normalise_aliases-eq-firsts (line (codes "a a"))

run-IsSound_example : IsSound (run no_pem seal requests portal)
run-IsSound_example = run-IsSound no_pem seal requests portal sample-IsSound
