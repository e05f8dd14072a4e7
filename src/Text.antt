-- ===== src/Text.antt =====
-- Texts as the lists of their code points, with the methods of Python's `str` that the services
-- call. A digit or a space is an ASCII one.
pub mod Laws
use Prim.Native.Char.{code}
use spark_controlplane.Prelude.{
  ℕ, ◌+◌, ◌-◌, ◌*◌, String, Bool, true, false, ◌&&◌, ◌||◌, Option, none, some, List, [], ◌∷◌, ◌++◌,
  leb, ◌==◌, nat_eq, all, length, if◌then◌else◌,
}

abbrev pub Text : Type 0
Text = List ℕ

-- The code points of a literal.
abbrev pub codes : String → Text
codes String.[] = []
codes (String.◌∷◌ c s) = code c ∷ codes s

abbrev pub is_digit : ℕ → Bool
is_digit c = leb b'0' c && leb c b'9'

abbrev pub is_space : ℕ → Bool
is_space c = (c == 32) || (leb 9 c && leb c 13) || (leb 28 c && leb c 31)

-- text.split(sep) for a separator of one character; the first argument is the part read so far.
unfoldable pub split_from : Text → ℕ → Text → List Text
split_from part sep [] = part ∷ []
split_from part sep (c ∷ cs) =
    let rest = split_from [] sep cs in
    let longer = split_from (part ++ c ∷ []) sep cs in if c == sep then part ∷ rest else longer

unfoldable pub split : ℕ → Text → List Text
unfolding split_from
split sep text = split_from [] sep text

-- text.partition(sep): what stands before the first separator, and behind it.
unfoldable pub partition : ℕ → Text → Text × Text
partition sep [] = ([], [])
partition sep (c ∷ cs) =
    let (before, after) = partition sep cs in if c == sep then ([], cs) else (c ∷ before, after)

unfoldable pub lstrip : Text → Text
lstrip [] = []
lstrip (c ∷ cs) = if is_space c then lstrip cs else c ∷ cs

unfoldable pub rstrip : Text → Text
rstrip [] = []
rstrip (c ∷ cs) = if all is_space (c ∷ cs) then [] else c ∷ rstrip cs

unfoldable pub strip : Text → Text
unfolding lstrip rstrip
strip text = rstrip (lstrip text)

unfoldable pub digits_value : ℕ → Text → ℕ
digits_value n [] = n
digits_value n (c ∷ cs) = digits_value (n * 10 + (c - 48)) cs

unfoldable pub isdigit : Text → Bool
isdigit [] = false
isdigit (c ∷ cs) = all is_digit (c ∷ cs)

-- int(text) of a text of ASCII digits; `none` for any other. (Python also takes spaces around the digits, a sign
-- and underscores between them: routers/schedules.py lets only HH:MM through.)
unfoldable pub to_int : Text → Option ℕ
unfolding digits_value isdigit
to_int text = if isdigit text then some (digits_value 0 text) else none

unfoldable pub lower : Text → Text
lower [] = []
lower (c ∷ cs) = (if leb b'A' c && leb c b'Z' then c + 32 else c) ∷ lower cs

-- text.startswith(prefix), the prefix first
unfoldable pub startswith : Text → Text → Bool
startswith [] text = true
startswith (p ∷ ps) [] = false
startswith (p ∷ ps) (c ∷ cs) = (p == c) && startswith ps cs

-- [t for t in re.split(r"\s+", text.strip()) if t]; the first argument is the part read so far.
unfoldable pub words_from : Text → Text → List Text
words_from [] [] = []
words_from (p ∷ ps) [] = (p ∷ ps) ∷ []
words_from part (c ∷ cs) =
    let rest = words_from [] cs in
    let longer = words_from (part ++ c ∷ []) cs in
    if is_space c then (if length part == 0 then rest else part ∷ rest) else longer

abbrev pub text_beq : Text → Text → Bool
text_beq [] [] = true
text_beq (c ∷ cs) (d ∷ ds) = (c == d) && text_beq cs ds
text_beq _ _ = false
