-- ===== src/Oidc/Origin.antt =====
-- backend/app/services/oidc.py: `_same_origin`, with what it uses of `urllib.parse.urlparse`, for
-- ASCII. Whether urllib takes a host in brackets for an address is a parameter.
use spark_controlplane.Prelude.{
  ℕ, Bool, false, not, ◌&&◌, ◌||◌, Option, none, some, [], ◌∷◌, all, any, leb, keep_if, ◌==◌,
  nat_eq, if◌then◌else◌,
}
use spark_controlplane.Text.{Text, codes, is_digit, partition, lower, text_beq}

abbrev pub is_letter : ℕ → Bool
is_letter c = (leb b'A' c && leb c b'Z') || (leb b'a' c && leb c b'z')

-- The characters of `scheme_chars`
abbrev pub is_scheme_char : ℕ → Bool
is_scheme_char c = is_letter c || is_digit c || (c == b'+') || (c == b'-') || (c == b'.')

-- Controls and spaces in front, and tabs and line ends anywhere, are dropped.
unfoldable pub lstrip_controls : Text → Text
lstrip_controls [] = []
lstrip_controls (c ∷ cs) = if leb c 32 then lstrip_controls cs else c ∷ cs

unfoldable pub sanitized : Text → Text
unfolding lstrip_controls
sanitized url = keep_if (λ c. not ((c == 9) || (c == 10) || (c == 13))) (lstrip_controls url)

abbrev pub starts_with_letter : Text → Bool
starts_with_letter [] = false
starts_with_letter (c ∷ cs) = is_letter c

-- The scheme, and what follows it
unfoldable pub split_scheme : Text → Text × Text
unfolding partition lower
split_scheme url =
    let (before, after) = partition b':' url in
    if any (λ c. c == b':') url && starts_with_letter url && all is_scheme_char before
    then (lower before, after)
    else ([], url)

-- What stands in front of the first "/", "?" or "#".
unfoldable pub until_path : Text → Text
until_path [] = []
until_path (c ∷ cs) = if (c == b'/') || (c == b'?') || (c == b'#') then [] else c ∷ until_path cs

unfoldable pub netloc_of : Text → Text
unfolding until_path
netloc_of (c ∷ d ∷ rest) = if (c == b'/') && (d == b'/') then until_path rest else []
netloc_of _ = []

module _ (is_bracketed_address : Text → Bool) where
  -- Whether urlparse accepts a network location, and raises no ValueError.
  abbrev pub is_netloc : Text → Bool
  is_netloc netloc =
      let opens = any (λ c. c == b'[') netloc in
      let closes = any (λ c. c == b']') netloc in
      if opens then closes && is_bracketed_address netloc else not closes

  -- The scheme and the network location of a URL
  unfoldable pub urlparse : Text → Option (Text × Text)
  unfolding sanitized split_scheme netloc_of
  urlparse url =
      let (scheme, rest) = split_scheme (sanitized url) in
      if is_netloc (netloc_of rest) then some (scheme, netloc_of rest) else none

  unfoldable pub same_origin : Text → Text → Bool
  unfolding urlparse lower
  same_origin url issuer = elim (urlparse url) [
    | none ↦ false
    | some (scheme, netloc) ↦ elim (urlparse issuer) [
      | none ↦ false
      | some (issuer_scheme, issuer_netloc) ↦
          text_beq scheme (codes "https")
          && text_beq scheme issuer_scheme
          && text_beq (lower netloc) (lower issuer_netloc)
    ]
  ]
