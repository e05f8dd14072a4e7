-- ===== src/Guard/Paths.antt =====
-- The open paths of the guard, and the token of the metrics.
use mathlib.Core.Path.{subst}
use spark_controlplane.Prelude.{
  eq_of_some, ap, ◌≡◌, ◌≢◌, ◌↔◌, ◌⊎◌, ◌++◌, [], ◌∷◌, none, not, length, or_iff, and_iff, true, some,
  Option, arith, sym, ◌∙◌, ◌==◌, nat_eq, refl,
}
use spark_controlplane.Text.{Text, codes}
use spark_controlplane.Text.Laws.{text_beq_iff, startswith-iff-append}
use spark_controlplane.Apikeys.{utf8, wire_bytes}
use spark_controlplane.Guard.{is_open, is_metrics_token}

-- Paths that need no session: the health check, the login, and the MCP server, which has a check of
-- its own.
abbrev pub IsOpenPath : Text → Type 0
IsOpenPath path =
    (((path ≡ codes "/api/health") ⊎ (path ≡ codes "/api/auth"))
      ⊎ ((rest : Text) × (path ≡ codes "/api/auth/" ++ rest)))
    ⊎ ((rest : Text) × (path ≡ codes "/mcp" ++ rest))

pub is_open_iff : (path : Text) → (is_open path ≡ true) ↔ IsOpenPath path
is_open_iff path =
    or_iff _ _
      (or_iff _ _
        (or_iff _ _ (text_beq_iff path (codes "/api/health"))
          (text_beq_iff path (codes "/api/auth")))
        (startswith-iff-append (codes "/api/auth/") path))
      (startswith-iff-append (codes "/mcp") path)

-- The token of the metrics: the secret of the settings, as its UTF-8 bytes.
abbrev pub HasToken : Option Text → Text → Type 0
HasToken metrics_token supplied =
    (secret : Text) × (metrics_token ≡ some secret)
    × (secret ≢ [])
    × (supplied ≢ [])
    × (wire_bytes supplied ≡ utf8 secret)

is_empty_iff : (text : Text) → (not (length text == 0) ≡ true) ↔ (text ≢ [])
is_empty_iff [] = (λ h. ground arith, λ n. elim (n refl) [ ])
is_empty_iff (c ∷ cs) = (λ h e. ground arith, λ n. ground arith)

pub is_metrics_token_iff :
    (token : Option Text) (supplied : Text)
    → (is_metrics_token token supplied ≡ true) ↔ HasToken token supplied
is_metrics_token_iff none supplied = (λ h. ground arith, λ (secret, e, a, b, c). ground arith)
is_metrics_token_iff (some secret) supplied =
    let test =
      and_iff _ _ (and_iff _ _ (is_empty_iff secret) (is_empty_iff supplied))
        (text_beq_iff (wire_bytes supplied) (utf8 secret)) in
    (
      λ h. let ((a, b), c) = test.0 h in (secret, refl, a, b, c),
      λ (other, e, a, b, c).
          let same : other ≡ secret = eq_of_some (sym e) in
          test.1 ((subst (λ t. t ≢ []) same a, b), c ∙ ap utf8 same),
    )
