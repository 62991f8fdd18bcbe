-- ===== src/Worker/Prompts.antt =====
-- worker/prompts/__init__.py: attacker data is delimited before the model sees it.
pub mod Delimited
use sentinel_brief.Prelude.{
  Text, codes, ℕ, String, Bool, true, false, List, [], ◌∷◌, ◌++◌, ◌==◌, ◌&&◌, if◌then◌else◌,
}
use sentinel_brief.Core.Llm.{ChatMessage}

-- `<`, the angle quote that replaces it, and the line feed.
abbrev pub open_angle : ℕ
open_angle = 0x3c

abbrev pub single_quote : ℕ
single_quote = 0x2039

abbrev pub newline : ℕ
newline = 0x0a

abbrev pub alert_data_begin : Text
alert_data_begin = codes "<<<ALERT_DATA>>>"

abbrev pub alert_data_end : Text
alert_data_end = codes "<<<END_ALERT_DATA>>>"

-- `text.replace('<<<', '‹‹‹')`: from the left, without overlap.
unfoldable pub neutralize : Text → Text
neutralize [] = []
neutralize (a ∷ []) = a ∷ []
neutralize (a ∷ b ∷ []) = a ∷ b ∷ []
neutralize (a ∷ b ∷ c ∷ rest) = elim (a == open_angle && (b == open_angle && c == open_angle)) [
  | true ↦ single_quote ∷ single_quote ∷ single_quote ∷ neutralize rest
  | false ↦ a ∷ neutralize (b ∷ c ∷ rest)
]

unfoldable pub delimit_attacker_data : Text → Text
unfolding neutralize
delimit_attacker_data text =
    alert_data_begin ++ (newline ∷ (neutralize text ++ (newline ∷ alert_data_end)))

-- The result is the serialization `json.dumps(result, sort_keys=True, ensure_ascii=False)`.
unfoldable pub build_tool_result_message : Text → Text → ChatMessage
unfolding delimit_attacker_data
build_tool_result_message tool_call_id result =
    ChatMessage.tool tool_call_id (delimit_attacker_data result)
