-- ===== src/Parsers.antt =====
-- backend/app/services/parsers.py: the parser of tool calls that a model takes, and the directory
-- of a model.
pub mod Names
mod Tests
use spark_controlplane.Prelude.{
  ℕ, String, Bool, true, false, not, ◌&&◌, ◌||◌, Option, none, some, List, [], ◌∷◌, ◌++◌, map, leb,
  length, ◌==◌, nat_eq, if◌then◌else◌,
}
use spark_controlplane.Text.{Text, codes, split, lower, is_digit, text_beq}

-- The parts of the patterns of `_PARSER_RULES`: a character, `[-_]?`, and `.*`.
pub data Piece : Type 0 where
  literal : ℕ → Piece
  maybe_dash : Piece
  anything : Piece

abbrev pub Pattern : Type 0
Pattern = List Piece

abbrev pub word : String → Pattern
word s = map literal (codes s)

abbrev pub is_dash : ℕ → Bool
is_dash c = (c == b'-') || (c == b'_')

-- re.match: the pattern at the start of the text.
unfoldable pub matches : Pattern → Text → Bool
matches [] text = true
matches (literal c ∷ ps) [] = false
matches (literal c ∷ ps) (d ∷ ds) = (c == d) && matches ps ds
matches (maybe_dash ∷ ps) [] = matches ps []
matches (maybe_dash ∷ ps) (d ∷ ds) = matches ps (d ∷ ds) || (is_dash d && matches ps ds)
matches (anything ∷ ps) [] = matches ps []
matches (anything ∷ ps) (d ∷ ds) =
    matches ps (d ∷ ds) || (not (d == 10) && matches (anything ∷ ps) ds)

-- re.search
unfoldable pub search : Pattern → Text → Bool
unfolding matches
search ps [] = matches ps []
search ps (d ∷ ds) = matches ps (d ∷ ds) || search ps ds

abbrev pub parser_rules : List (Pattern × String)
parser_rules =
    (word "qwen3" ++ anything ∷ word "coder", "qwen3_xml")
    ∷ (word "qwen3", "hermes")
    ∷ (word "qwen2.5", "hermes")
    ∷ (word "qwen", "hermes")
    ∷ (word "kimi" ++ maybe_dash ∷ word "k2", "kimi_k2")
    ∷ (word "mistral", "mistral")
    ∷ (word "llama" ++ maybe_dash ∷ word "3", "llama3_json")
    ∷ (word "llama", "llama3_json")
    ∷ (word "hermes", "hermes")
    ∷ (word "deepseek", "deepseek_v3")
    ∷ []

unfoldable pub first_rule : Text → List (Pattern × String) → Option String
unfolding search
first_rule name [] = none
first_rule name ((pattern, parser) ∷ rules) =
    if search pattern name then some parser else first_rule name rules

unfoldable pub tool_parser_for : Text → Option String
unfolding first_rule lower
tool_parser_for repo_id = first_rule (lower repo_id) parser_rules

-- `[A-Za-z0-9._-]`
abbrev pub is_name_char : ℕ → Bool
is_name_char c =
    (leb b'A' c && leb c b'Z')
    || (leb b'a' c && leb c b'z')
    || is_digit c
    || (c == b'.')
    || (c == b'_')
    || (c == b'-')

-- re.sub(r"[^A-Za-z0-9._-]", "-", text)
unfoldable pub dashed : Text → Text
dashed [] = []
dashed (c ∷ cs) = (if is_name_char c then c else b'-') ∷ dashed cs

-- text.strip("-")
unfoldable pub lstrip_dash : Text → Text
lstrip_dash [] = []
lstrip_dash (c ∷ cs) = if c == b'-' then lstrip_dash cs else c ∷ cs

abbrev pub all_dashes : Text → Bool
all_dashes [] = true
all_dashes (c ∷ cs) = (c == b'-') && all_dashes cs

unfoldable pub rstrip_dash : Text → Text
rstrip_dash [] = []
rstrip_dash (c ∷ cs) = if all_dashes (c ∷ cs) then [] else c ∷ rstrip_dash cs

unfoldable pub strip_dash : Text → Text
unfolding lstrip_dash rstrip_dash
strip_dash text = rstrip_dash (lstrip_dash text)

-- `repo_id.split("/")[-1]`
abbrev pub last_part : List Text → Text
last_part [] = []
last_part (p ∷ []) = p
last_part (p ∷ q ∷ ps) = last_part (q ∷ ps)

-- `cleaned in ("", ".", "..")`
abbrev pub is_unusable : Text → Bool
is_unusable text = text_beq text [] || text_beq text (codes ".") || text_beq text (codes "..")

-- `… or "model"`
abbrev pub or_model : Text → Text
or_model [] = codes "model"
or_model (c ∷ cs) = c ∷ cs

unfoldable pub sanitize_name : Text → Text
unfolding split strip_dash dashed
sanitize_name repo_id =
    let cleaned = strip_dash (dashed (last_part (split b'/' repo_id))) in
    if is_unusable cleaned then or_model (strip_dash (dashed repo_id)) else cleaned
