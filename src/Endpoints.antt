-- ===== src/Endpoints.antt =====
-- backend/app/services/endpoints.py: the aliases of an endpoint, and its certificate.
pub mod Answers
pub mod Cover
pub mod Names
pub mod Requests
pub mod Owners
pub mod Tables
pub mod Handlers
pub mod Invariant
mod Tests
use spark_controlplane.Prelude.{
  ℕ, zero, suc, ◌+◌, ◌-◌, ◌/◌, String, Bool, true, false, not, ◌&&◌, ◌||◌, Option, none, some, List,
  [], ◌∷◌, ◌++◌, map, leb, length, any, all, ◌==◌, nat_eq, if◌then◌else◌,
}
use spark_controlplane.Text.{
  Text, codes, text_beq, lower, strip, split, startswith, words_from, is_digit,
}
use spark_controlplane.Portal.{CertInfo}

abbrev pub is_alnum : ℕ → Bool
is_alnum c = (leb b'A' c && leb c b'Z') || (leb b'a' c && leb c b'z') || is_digit c

abbrev pub is_alias_char : ℕ → Bool
is_alias_char c = is_alnum c || (c == b'.') || (c == b'_') || (c == b'/') || (c == b'-')

-- ALIAS_RE
unfoldable pub is_alias : Text → Bool
is_alias [] = false
is_alias (c ∷ cs) = is_alnum c && all is_alias_char cs && leb (length cs) 127

-- What a client sends: nothing, a text, or a list of texts; anything else is refused by the schema.
pub data Raw : Type 0 where
  missing : Raw
  line : Text → Raw
  entries : List Text → Raw

unfoldable pub words_of : List Text → List Text
unfolding words_from
words_of [] = []
words_of (t ∷ ts) = words_from [] t ++ words_of ts

unfoldable pub items : Raw → List Text
unfolding words_of words_from
items missing = []
items (line t) = words_from [] t
items (entries ts) = words_of ts

abbrev pub has : Text → List Text → Bool
has t ts = any (λ s. text_beq s t) ts

-- The loop of `normalise_aliases`: `seen` holds the accepted names.
unfoldable pub sort_items : List Text → List Text → List Text × List Text
unfolding is_alias
sort_items seen [] = ([], [])
sort_items seen (t ∷ ts) =
    let skipped = sort_items seen ts in
    let taken = sort_items (t ∷ seen) ts in
    if not (is_alias t)
    then (skipped.0, t ∷ skipped.1)
    else if has t seen
    then skipped
    else (t ∷ taken.0, taken.1)

unfoldable pub normalise_aliases : Raw → List Text × List Text
unfolding items sort_items
normalise_aliases raw = sort_items [] (items raw)

-- text.rstrip(".")
abbrev pub all_dots : Text → Bool
all_dots [] = true
all_dots (c ∷ cs) = (c == b'.') && all_dots cs

unfoldable pub rstrip_dots : Text → Text
rstrip_dots [] = []
rstrip_dots (c ∷ cs) = if all_dots (c ∷ cs) then [] else c ∷ rstrip_dots cs

unfoldable pub count : ℕ → Text → ℕ
count c [] = 0
count c (d ∷ ds) = (if d == c then 1 else 0) + count c ds

-- text.endswith(suffix), the suffix first
unfoldable pub endswith : Text → Text → Bool
endswith suffix [] = text_beq suffix []
endswith suffix (c ∷ cs) = text_beq suffix (c ∷ cs) || endswith suffix cs

-- text[1:]
abbrev pub tail : Text → Text
tail [] = []
tail (c ∷ cs) = cs

-- `part.strip()[3:].lower()` of the first part of the subject that starts with "CN=".
abbrev pub tail3 : Text → Text
tail3 t = tail (tail (tail t))

unfoldable pub common_name : List Text → List Text
unfolding startswith lower strip
common_name [] = []
common_name (part ∷ parts) =
    if startswith (codes "cn=") (lower (strip part))
    then lower (tail3 (strip part)) ∷ []
    else common_name parts

unfoldable pub names_of : CertInfo → List Text
unfolding lower rstrip_dots split common_name
names_of info = elim (map (λ n. rstrip_dots (lower n)) info.sans) [
  | n ∷ names ↦ n ∷ names
  | [] ↦ elim info.subject [ none ↦ [] | some subject ↦ common_name (split b',' subject) ]
]

-- The test of one name of the certificate.
unfoldable pub name_covers : Text → Text → Bool
unfolding startswith endswith count
name_covers host name =
    text_beq name host
    || (startswith (codes "*.") name
        && endswith (tail name) host
        && (count b'.' host == count b'.' name))

unfoldable pub hostname_covered : CertInfo → Text → Bool
unfolding names_of name_covers lower rstrip_dots
hostname_covered info [] = false
hostname_covered info (c ∷ cs) = any (name_covers (rstrip_dots (lower (c ∷ cs)))) (names_of info)

-- `CertInfo.ok`
abbrev pub is_ok : CertInfo → Bool
is_ok info = elim info.error [
  | some e ↦ false
  | none ↦ elim info.fingerprint_sha256 [ none ↦ false | some f ↦ true ]
]

-- What the library reads off a certificate; `none` is an exception, of the whole or of one field.
pub record Parsed : Type 0 where
  pub subject : Option Text
  pub issuer : Option Text
  pub fingerprint : Option Text
  pub not_before : Option ℕ
  pub not_after : Option ℕ
  pub dns_names : Option (List Text)

unfoldable pub contains_text : Text → Text → Bool
unfolding startswith
contains_text part [] = startswith part []
contains_text part (c ∷ cs) = startswith part (c ∷ cs) || contains_text part cs

abbrev pub take : ℕ → Text → Text
take zero t = []
take (suc n) [] = []
take (suc n) (c ∷ cs) = c ∷ take n cs

-- A `try` for subject and issuer: the issuer is read only after the subject.
abbrev pub first_255 : Option Text → Option Text
first_255 none = none
first_255 (some t) = some (take 255 t)

abbrev pub unreadable : String → CertInfo
unreadable why = record {
  subject = none;
  issuer = none;
  sans = [];
  fingerprint_sha256 = none;
  not_before = none;
  not_after = none;
  error = some why;
}

-- `parse_certificate`; `load` is `x509.load_pem_x509_certificate`.
unfoldable pub parse_certificate : (Text → Option Parsed) → Text → CertInfo
unfolding contains_text
parse_certificate load pem =
    if not (contains_text (codes "BEGIN CERTIFICATE") pem)
    then unreadable "Not a PEM certificate (expected a BEGIN CERTIFICATE block)."
    else elim (load pem) [
      | none ↦ unreadable "Could not read the certificate"
      | some c ↦ record {
        subject = first_255 c.subject;
        issuer = elim c.subject [ none ↦ none | some s ↦ first_255 c.issuer ];
        sans = elim c.dns_names [ none ↦ [] | some names ↦ names ];
        fingerprint_sha256 = c.fingerprint;
        not_before = c.not_before;
        not_after = c.not_after;
        error = none;
      }
    ]
