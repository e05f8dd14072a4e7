-- ===== src/Parsers/Tests.antt =====
-- Runs of services/parsers.py, and its theorems at concrete inputs.
use spark_controlplane.Prelude.{◌≡◌, ◌≢◌, refl, some, none, [], ◌∷◌, true, all, map}
use spark_controlplane.Text.{Text, codes}
use spark_controlplane.Parsers.{
  sanitize_name, tool_parser_for, is_name_char, is_unusable, strip_dash, dashed,
}
use spark_controlplane.Parsers.Names.{sanitize_name-IsSafe}

-- The ids of `SUGGESTIONS`, with the parsers shown for them.
suggested :
    map
      (λ id. tool_parser_for (codes id))
      ("Qwen/Qwen3-30B-A3B-FP8" ∷ "Qwen/Qwen3-Coder-30B-A3B-Instruct" ∷ "Qwen/Qwen2.5-7B-Instruct"
        ∷ "meta-llama/Llama-3.1-8B-Instruct" ∷ "meta-llama/Llama-3.3-70B-Instruct"
        ∷ "mistralai/Mistral-Small-3.2-24B-Instruct-2506" ∷ [])
    ≡ some "hermes"
      ∷ some "qwen3_xml"
      ∷ some "hermes"
      ∷ some "llama3_json"
      ∷ some "llama3_json"
      ∷ some "mistral"
      ∷ []
unfolding tool_parser_for
suggested = refl

unknown_family : tool_parser_for (codes "openai/gpt-oss-120b") ≡ none
unfolding tool_parser_for
unknown_family = refl

abbrev qwen : Text
qwen = codes "Qwen/Qwen3 30B"

qwen_name : sanitize_name qwen ≡ codes "Qwen3-30B"
unfolding sanitize_name
qwen_name = refl

-- Two dots behind a slash become a traversal token.
dots_name : sanitize_name (codes "/..") ≡ codes ".."
unfolding sanitize_name
dots_name = refl

sanitize_name-IsSafe_example :
    (sanitize_name qwen ≢ [])
    × (all is_name_char (sanitize_name qwen) ≡ true)
    × (is_unusable (sanitize_name qwen) ≡ true → sanitize_name qwen ≡ strip_dash (dashed qwen))
sanitize_name-IsSafe_example = sanitize_name-IsSafe qwen
