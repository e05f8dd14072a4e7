-- ===== src/Endpoints/Answers.antt =====
-- backend/app/routers/endpoints.py: what a handler answers, or the error that it raises.
use spark_controlplane.Prelude.{Bool, true, false, List, nat_eq, string_eq}
use spark_controlplane.Portal.{Done}
use spark_controlplane.Text.{Text}

-- The errors of the handlers: 404, 400, 409, or an integrity error of the database.
pub data HttpError : Type 0 where
  missing_endpoint : HttpError
  name_exists : HttpError
  bad_aliases : (rejected : List Text) → HttpError
  needs_an_alias : HttpError
  already_in_use : (aliases : List Text) → HttpError
  unusable_certificate : HttpError
  bad_key : HttpError
  not_covered : HttpError
  needs_upstream_port : HttpError
  still_served : HttpError
  integrity_error : HttpError

pub data Answer (A : Type 0) : Type 0 where
  answered : A → Answer A
  refused : HttpError → Answer A

infixl 5 ◌>>=◌ ◌>>◌
unfoldable pub ◌>>=◌ : {A B : Type 0} → Answer A → (A → Answer B) → Answer B
answered a >>= f = f a
refused e >>= f = refused e

unfoldable pub ◌>>◌ : {A B : Type 0} → Answer A → Answer B → Answer B
unfolding ◌>>=◌
m >> k = m >>= λ _. k

unfoldable pub require : Bool → HttpError → Answer Done
require true e = answered tt
require false e = refused e
