-- ===== src/Parsers/Names.antt =====
-- What a directory name made by `sanitize_name` can hold.
use spark_controlplane.Prelude.{
  ℕ, ◌≡◌, ◌≢◌, refl, inl, inr, Bool, true, false, [], ◌∷◌, arith, all, Bool-cases, nat_eq,
  if◌then◌else◌,
}
use spark_controlplane.Text.{Text, split}
use spark_controlplane.Parsers.{
  is_name_char, dashed, lstrip_dash, rstrip_dash, strip_dash, last_part, is_unusable, or_model,
  sanitize_name,
}

all-dashed : (text : Text) → all is_name_char (dashed text) ≡ true
unfolding dashed
all-dashed [] = refl
all-dashed (c ∷ cs) = ground (arith, all-dashed cs)

all-lstrip_dash : (p : ℕ → Bool) (text : Text) → all p text ≡ true → all p (lstrip_dash text) ≡ true
unfolding lstrip_dash
all-lstrip_dash p [] h = refl
all-lstrip_dash p (c ∷ cs) h = ground (arith, all-lstrip_dash p cs)

all-rstrip_dash : (p : ℕ → Bool) (text : Text) → all p text ≡ true → all p (rstrip_dash text) ≡ true
unfolding rstrip_dash
all-rstrip_dash p [] h = refl
all-rstrip_dash p (c ∷ cs) h = ground (arith, all-rstrip_dash p cs)

all-clean : (text : Text) → all is_name_char (strip_dash (dashed text)) ≡ true
unfolding strip_dash
all-clean text =
    let kept = all-lstrip_dash is_name_char (dashed text) (all-dashed text) in
    all-rstrip_dash is_name_char (lstrip_dash (dashed text)) kept

all-or_model :
    (text : Text) → all is_name_char text ≡ true → all is_name_char (or_model text) ≡ true
all-or_model [] h = refl
all-or_model (c ∷ cs) h = h

or_model-ne : (text : Text) → or_model text ≢ []
or_model-ne [] e = cc
or_model-ne (c ∷ cs) e = cc

or_model-unusable : (text : Text) → is_unusable (or_model text) ≡ true → or_model text ≡ text
or_model-unusable [] h = ground arith
or_model-unusable (c ∷ cs) h = refl

usable_ne : (text : Text) → is_unusable text ≡ false → text ≢ []
usable_ne [] h e = cc
usable_ne (c ∷ cs) h e = cc

-- The choice between the two cleaned texts.
choose-IsSafe :
    (cleaned whole : Text)
    → all is_name_char cleaned ≡ true
    → all is_name_char whole ≡ true
    → ((if is_unusable cleaned then or_model whole else cleaned) ≢ [])
      × (all is_name_char (if is_unusable cleaned then or_model whole else cleaned) ≡ true)
      × (is_unusable (if is_unusable cleaned then or_model whole else cleaned) ≡ true
          → (if is_unusable cleaned then or_model whole else cleaned) ≡ whole)
choose-IsSafe cleaned whole h k = elim (Bool-cases (is_unusable cleaned)) [
  | inl unusable ↦ rw unusable (or_model-ne whole, all-or_model whole k, or_model-unusable whole)
  | inr usable ↦ rw usable (λ e. ground (arith, usable_ne cleaned usable), h, λ u. ground arith)
]

-- The name is never empty and holds only letters, digits, dots, dashes and underscores, so no
-- slash; and if it is "." or "..", the whole id is that up to dashes and characters that become
-- dashes.
pub sanitize_name-IsSafe :
    (repo_id : Text)
    → (sanitize_name repo_id ≢ [])
      × (all is_name_char (sanitize_name repo_id) ≡ true)
      × (is_unusable (sanitize_name repo_id) ≡ true
          → sanitize_name repo_id ≡ strip_dash (dashed repo_id))
unfolding sanitize_name
sanitize_name-IsSafe repo_id =
    choose-IsSafe (strip_dash (dashed (last_part (split b'/' repo_id))))
      (strip_dash (dashed repo_id)) (all-clean (last_part (split b'/' repo_id))) (all-clean repo_id)
