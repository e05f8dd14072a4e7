-- ===== src/Oidc/Tests.antt =====
-- Sign-ins at a provider on https://id.example, and the theorems at concrete inputs.
use spark_controlplane.Prelude.{
  ◌*◌, ◌≡◌, ◌≢◌, ◌∙◌, ap, sym, eq_of_some, refl, false, Option, none, some, List, [], ◌∷◌, All,
  if◌then◌else◌, arith,
}
use spark_controlplane.Text.{Text, codes, text_beq}
use spark_controlplane.Oidc.{Value, str, Fields, Settings, allowed, authorized}
use spark_controlplane.Oidc.Origin.{same_origin}
use spark_controlplane.Oidc.Provider.{
  Jwk, Http, no_answer, response, Request, get_from, post_code, World, ok, err, Jwks, Discovery,
  keys_too_old, ◌>>=◌, ◌>>◌, gets, modify, pure, or_raise,
}
use spark_controlplane.Oidc.Caches.{jwks_keys, second, issuer_of}
use spark_controlplane.Oidc.Pinned.{Reaches}
use spark_controlplane.Oidc.Callback.{Tx, Callback, signed_in, oidc_login, oidc_callback}
use spark_controlplane.Oidc.Admission.{SignedIn}
use spark_controlplane.Oidc.Runs.{Holds, oidc_callback-forged}
use spark_controlplane.Oidc.History.{Event, begins, start, run, run-Reaches, run-SignedIn}
use spark_controlplane.Oidc.Ceiling.{IsCutOff, kept, jwks_keys-past_ceiling}

abbrev settings : Settings
settings = record {
  effective_auth_mode = "oidc";
  oidc_issuer = some (codes "https://id.example/");
  oidc_client_id = some (codes "portal");
  oidc_client_secret = some (codes "secret");
  oidc_redirect_url = some (codes "https://portal/api/auth/oidc/callback");
  oidc_groups_claim = codes "roles";
  oidc_group_required = some (codes " Operators ");
  oidc_username_claim = codes "preferred_username email sub";
  oidc_algorithms = codes "RS256";
  oidc_clock_skew = 60 * second;
  oidc_jwks_ttl = 3600 * second;
  oidc_jwks_max_stale = 86400 * second;
}

abbrev config_fields : Fields
config_fields =
    (codes "issuer", str (codes "https://id.example"))
    ∷ (codes "authorization_endpoint", str (codes "https://ID.example/auth"))
    ∷ (codes "token_endpoint", str (codes "https://id.example/token"))
    ∷ (codes "jwks_uri", str (codes "https://id.example/keys"))
    ∷ []

abbrev key : Jwk
key = record { kid = some (codes "k1"); use_for = none; material = codes "rsa" }

abbrev claims : Fields
claims =
    (codes "aud", str (codes "portal"))
    ∷ (codes "nonce", str (codes "nonce"))
    ∷ (codes "email", str (codes " bob@example "))
    ∷ (codes "roles", str (codes "users, operators"))
    ∷ []

abbrev page : List (Text × Value) → List (Option Jwk) → Http
page fields keys = response 200 100 (some (some (record { fields = fields; keys = some keys })))

abbrev answer : List Request → Request → Http
answer sent (post_code url code verifier) = page ((codes "id_token", str (codes "t")) ∷ []) []
answer sent (get_from url) =
    if text_beq url (codes "https://id.example/keys")
    then page [] (some key ∷ [])
    else page config_fields []

abbrev world : World
world = record {
  Key = Text;
  outside = record { answer = answer; is_bracketed_address = λ netloc. false };
  now = λ sent. 1000 * second;
  header = λ raw. some (record { alg = some (codes "RS256"); kid = some (codes "k1") });
  build_key = λ jwk alg. some jwk.material;
  decode = λ raw k check now. some claims;
}

abbrev tx : Tx
tx = record { t = codes "oidc_tx"; s = codes "state"; n = codes "nonce"; v = codes "verifier" }

abbrev decrypt_cookie : Text → Option Text
decrypt_cookie cookie = some cookie

abbrev loads : Text → Option Tx
loads raw = some tx

abbrev request : Callback
request = record {
  error = none;
  code = some (codes "code");
  state = some (codes "state");
  cookie = some (codes "cookie");
}

authorized_test : authorized settings claims ≡ allowed
unfolding authorized
authorized_test = refl

abbrev events : List Event
events = begins (λ sent. 990 * second) ∷ []

abbrev bob : Text
bob = codes "bob@example"

signed_in_test :
    (oidc_callback settings world decrypt_cookie loads request
      (run settings world decrypt_cookie loads events start)).0
    ≡ signed_in bob
unfolding oidc_callback run ◌>>=◌ ◌>>◌ gets modify pure or_raise oidc_login issuer_of same_origin
signed_in_test = refl

run-SignedIn_example : SignedIn settings world decrypt_cookie loads request bob
run-SignedIn_example =
    run-SignedIn settings world decrypt_cookie loads events request bob signed_in_test

run-Reaches_example :
    All (Reaches settings world.outside) (run settings world decrypt_cookie loads events start).sent
run-Reaches_example = run-Reaches settings world decrypt_cookie loads events

abbrev forged : Callback
forged = record request { state = some (codes "other") }

no_sign_in :
    (t : Tx) → Holds settings world decrypt_cookie loads forged.cookie t → forged.state ≢ some t.s
no_sign_in t held e =
    let same : codes "other" ≡ codes "state" =
      eq_of_some (e ∙ ap (λ x. some x.s) (sym (eq_of_some held.loaded))) in
    ground arith

oidc_callback-forged_example :
    (oidc_callback settings world decrypt_cookie loads forged start).1 ≡ start
oidc_callback-forged_example =
    oidc_callback-forged settings world decrypt_cookie loads forged start no_sign_in

-- A day later the key set does not answer.
abbrev later : World
later = record world {
  outside = record { answer = λ sent r. no_answer; is_bracketed_address = λ netloc. false };
  now = λ sent. 90_000 * second;
}

abbrev found : Discovery
found = record { doc = config_fields; fetched_at = 89_000 * second }

abbrev copy : Jwks
copy = record { keys = (codes "k1", key) ∷ []; fetched_at = 0; last_attempt = 0 }

cut_off : IsCutOff settings later found copy []
cut_off = record {
  known = omega arith;
  stale = omega arith;
  too_old = omega arith;
  rested = omega arith;
  unanswered = refl;
}

jwks_keys-past_ceiling_example :
    let (first, p) = jwks_keys settings later false (kept settings later found copy []) in
    (first ≡ err keys_too_old) × ((jwks_keys settings later false p).0 ≡ ok copy.keys)
jwks_keys-past_ceiling_example =
    jwks_keys-past_ceiling settings later found copy [] cut_off (omega arith)
