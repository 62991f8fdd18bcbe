-- ===== src/Worker/Client.antt =====
-- worker/llm_client.py, with `parse_structured` of core/llm.py: the client of an OpenAI-compatible
-- provider. The SDK's call, the json module, the prices and pydantic's parser are parameters.
pub mod Usable
pub mod Billed
use sentinel_brief.Prelude.{
  Text, codes, ℕ, String, Bool, true, false, not, ◌&&◌, ◌||◌, ◌==◌, ◌==ₛ◌, leb, Option, none, some,
  List, [], ◌∷◌, Result, ok, err, if◌then◌else◌,
}
use sentinel_brief.Core.Errors.{Exn}
use sentinel_brief.Core.Verdict.{Verdict}
use sentinel_brief.Core.Llm.{
  ChatMessage, LlmUsage, LlmResult, LlmError, ToolReply, ToolCallRequest, ToolCallTurn,
  StructuredOutputError,
}
use sentinel_brief.Core.Llm.Cost.{ModelPrice, compute_cost_usd}

pub record ProviderCall : Type 0 where
  pub id : Text
  pub kind : String
  pub name : String
  pub arguments : Text

pub record Message : Type 0 where
  pub content : Option Text
  pub tool_calls : List ProviderCall

pub record Completion : Type 0 where
  pub choices : List Message
  pub usage : Option LlmUsage

-- What a request carries; `tools` is absent from a plain one.
pub record Request : Type 0 where
  pub model : String
  pub messages : List ChatMessage
  pub json_schema : Bool
  pub tools : Option (List String)

pub data Loaded : Type 0 where
  not_json not_object : Loaded
  object : Text → Loaded

-- `create` answers none for an OpenAIError or an HTTPError; `elapsed_ms` is what the two readings
-- of the clock give; `model_validate_json` gives the text of its ValidationError.
pub record Client (W : Type 0) : Type 0 where
  pub create : Request → W → Option Completion × W
  pub elapsed_ms : W → W → ℕ
  pub prices : String → Option ModelPrice
  pub json_schema : Bool
  pub json_loads : Text → Loaded
  pub model_validate_json : Text → Result Text Verdict

pub record Sent : Type 0 where
  pub message : Message
  pub usage : LlmUsage
  pub cost_usd : ℕ
  pub latency_ms : ℕ

-- `str.isspace` of a code point.
unfoldable pub is_space : ℕ → Bool
is_space c =
    (leb 0x09 c && leb c 0x0d)
    || (leb 0x1c c && leb c 0x20)
    || c == 0x85
    || c == 0xa0
    || c == 0x1680
    || (leb 0x2000 c && leb c 0x200a)
    || c == 0x2028
    || c == 0x2029
    || c == 0x202f
    || c == 0x205f
    || c == 0x3000

-- `not text.strip()`
unfoldable pub is_blank : Text → Bool
unfolding is_space
is_blank [] = true
is_blank (c ∷ cs) = is_space c && is_blank cs

module _ {W : Type 0} (client : Client W) where
  abbrev pub Reply : Type 0 → Type 0
  Reply A = Result LlmError A × W

  abbrev pub failed {ℓ} : {A : Type ℓ} → Exn → Result LlmError A
  failed e = err (LlmError.raised e)

  abbrev pub sent_of : ModelPrice → ℕ → Message → Option LlmUsage → Result LlmError Sent
  sent_of price latency message none = failed Exn.llm_call_failed
  sent_of price latency message (some usage) = ok (record {
    message = message;
    usage = usage;
    cost_usd = compute_cost_usd price usage;
    latency_ms = latency;
  })

  abbrev pub first_choice : ModelPrice → ℕ → Option LlmUsage → List Message → Result LlmError Sent
  first_choice price latency usage [] = failed Exn.llm_call_failed
  first_choice price latency usage (m ∷ ms) = sent_of price latency m usage

  abbrev pub received : ModelPrice → ℕ → Option Completion → Result LlmError Sent
  received price latency none = failed Exn.llm_call_failed
  received price latency (some c) = first_choice price latency c.usage c.choices

  abbrev pub requested : Request → W → Option ModelPrice → Reply Sent
  requested request w none = (failed Exn.config_error, w)
  requested request w (some price) =
      let (answer, w') = client.create request w in
      (received price (client.elapsed_ms w w') answer, w')

  -- `_send`: the price is looked up before anything is sent.
  unfoldable pub send : List ChatMessage → String → Option (List String) → W → Reply Sent
  send messages model tools w =
      requested
        (record {
          model = model;
          messages = messages;
          json_schema = client.json_schema;
          tools = tools;
        })
        w (client.prices model)

  abbrev pub validated : Text → String → Sent → Result Text Verdict → Result LlmError LlmResult
  validated raw model s (ok v) = ok (record {
    parsed = v;
    raw_text = raw;
    model = model;
    usage = s.usage;
    cost_usd = s.cost_usd;
    latency_ms = s.latency_ms;
  })
  validated raw model s (err e) = err (
      LlmError.structured_output (record {
        raw_text = raw;
        validation_error = e;
        input_tokens = s.usage.input_tokens;
        output_tokens = s.usage.output_tokens;
        cost_usd = s.cost_usd;
        latency_ms = s.latency_ms;
      }))

  unfoldable pub parse_structured : Text → String → Sent → Result LlmError LlmResult
  parse_structured raw model s = validated raw model s (client.model_validate_json raw)

  -- `if not content: raise`
  abbrev pub content_of : String → Sent → Option Text → Result LlmError LlmResult
  content_of model s none = failed Exn.llm_call_failed
  content_of model s (some []) = failed Exn.llm_call_failed
  content_of model s (some (c ∷ cs)) = parse_structured (c ∷ cs) model s

  abbrev pub structured_reply : String → Reply Sent → Reply LlmResult
  structured_reply model (err e, w) = (err e, w)
  structured_reply model (ok s, w) = (content_of model s s.message.content, w)

  unfoldable pub complete_structured : List ChatMessage → String → W → Reply LlmResult
  unfolding send parse_structured
  complete_structured messages model w = structured_reply model (send messages model none w)

  abbrev pub object_arguments : Loaded → Result LlmError Text
  object_arguments Loaded.not_json = failed Exn.llm_call_failed
  object_arguments Loaded.not_object = failed Exn.llm_call_failed
  object_arguments (Loaded.object arguments) = ok arguments

  abbrev pub arguments_of : Text → Result LlmError Text
  arguments_of raw =
      if is_blank raw then ok (codes "{}") else object_arguments (client.json_loads raw)

  abbrev pub call_with : ProviderCall → Result LlmError Text → Result LlmError ToolCallRequest
  call_with c (err e) = err e
  call_with c (ok arguments) = ok (record { id = c.id; name = c.name; arguments = arguments })

  -- One tool call of the message.
  unfoldable pub decode_call : ProviderCall → Result LlmError ToolCallRequest
  unfolding is_blank
  decode_call c =
      if not (c.kind ==ₛ "function")
      then failed Exn.llm_call_failed
      else call_with c (arguments_of c.arguments)

  abbrev pub call_before :
      Result LlmError ToolCallRequest
      → Result LlmError (List ToolCallRequest)
      → Result LlmError (List ToolCallRequest)
  call_before (err e) rest = err e
  call_before (ok c) (err e) = err e
  call_before (ok c) (ok cs) = ok (c ∷ cs)

  unfoldable pub decode_calls : List ProviderCall → Result LlmError (List ToolCallRequest)
  unfolding decode_call
  decode_calls [] = ok []
  decode_calls (c ∷ cs) = call_before (decode_call c) (decode_calls cs)

  abbrev pub turn_of :
      String → Sent → Result LlmError (List ToolCallRequest) → Result LlmError ToolReply
  turn_of model s (err e) = err e
  turn_of model s (ok calls) = ok (
      ToolReply.tool_turn (record {
        calls = calls;
        model = model;
        usage = s.usage;
        cost_usd = s.cost_usd;
        latency_ms = s.latency_ms;
      }))

  abbrev pub answer_of : Result LlmError LlmResult → Result LlmError ToolReply
  answer_of (err e) = err e
  answer_of (ok r) = ok (ToolReply.answer r)

  abbrev pub reply_of : String → Sent → List ProviderCall → Result LlmError ToolReply
  reply_of model s [] = answer_of (content_of model s s.message.content)
  reply_of model s (c ∷ cs) = turn_of model s (decode_calls (c ∷ cs))

  abbrev pub tool_reply : String → Reply Sent → Reply ToolReply
  tool_reply model (err e, w) = (err e, w)
  tool_reply model (ok s, w) = (reply_of model s s.message.tool_calls, w)

  abbrev pub is_empty : List String → Bool
  is_empty [] = true
  is_empty (t ∷ ts) = false

  unfoldable pub complete_with_tools : List ChatMessage → List String → String → W → Reply ToolReply
  unfolding send parse_structured decode_calls
  complete_with_tools messages tools model w =
      if is_empty tools
      then (failed (Exn.other "ValueError"), w)
      else tool_reply model (send messages model (some tools) w)

abbrev is_priced : Option ModelPrice → Bool
is_priced none = false
is_priced (some p) = true

-- `from_settings`: whether the configured models can be priced.
unfoldable pub from_settings :
    String → String → (String → Option ModelPrice) → Result Exn (Unit {0})
from_settings cheap strong prices =
    if cheap ==ₛ ""
    then err Exn.config_error
    else if is_priced (prices cheap) && (strong ==ₛ "" || is_priced (prices strong))
    then ok tt
    else err Exn.config_error
