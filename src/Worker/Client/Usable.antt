-- ===== src/Worker/Client/Usable.antt =====
-- What a reply of the client is, by the answer of the provider.
use mathlib.Core.Path.{subst}
use sentinel_brief.Prelude.{
  arith, codes, sym, ◌≢◌, eq_iff, Text, ℕ, ◌+◌, ◌*◌, ◌<◌, suc, ◌≤◌, ◌≡◌, ◌⊎◌, inl, inr, refl, ap,
  String, Bool, true, false, not, ◌==ₛ◌, Option, none, some, List, [], ◌∷◌, length, Result, ok, err,
  if◌then◌else◌,
}
use sentinel_brief.Core.Errors.{Exn}
use sentinel_brief.Core.Llm.{
  ChatMessage, LlmUsage, LlmResult, LlmError, ToolReply, ToolCallRequest, StructuredOutputError,
}
use sentinel_brief.Core.Llm.Cost.{ModelPrice}
use sentinel_brief.Worker.Client.{
  is_blank, Client, Completion, Message, ProviderCall, Request, Sent, Loaded, object_arguments,
  arguments_of, call_with, decode_call, call_before, decode_calls,
}

-- The request that carries the model, the messages and the tools.
abbrev pub request_of :
    {W : Type 0} → Client W → List ChatMessage → String → Option (List String) → Request
request_of client messages model tools = record {
  model = model;
  messages = messages;
  json_schema = client.json_schema;
  tools = tools;
}

-- `answer` is what the provider answered.
module _ {W : Type 0} (client : Client W) (answer : Option Completion) where
  -- The tokens are those that the provider reports, and the cost is what they cost at the price of
  -- the model: rounded to the nearest millionth, a tie up.
  pub record Costs (model : String) (usage : LlmUsage) (cost_usd : ℕ) : Type 0 where
    pub completion : Completion
    pub answered : answer ≡ some completion
    pub reported : completion.usage ≡ some usage
    pub price : ModelPrice
    pub priced : client.prices model ≡ some price
    pub not_above :
        cost_usd * 1000000
        ≤ usage.input_tokens * price.input_per_mtok
          + usage.output_tokens * price.output_per_mtok
          + 500000
    pub not_below :
        usage.input_tokens * price.input_per_mtok + usage.output_tokens * price.output_per_mtok
        < cost_usd * 1000000 + 500000

  -- The first message of the answer.
  abbrev pub Replied : Message → Type 0
  Replied m = (c : Completion) × (ms : List Message) × (answer ≡ some c) × (c.choices ≡ m ∷ ms)

  abbrev pub NoContent : Option Text → Type 0
  NoContent none = Unit
  NoContent (some []) = Unit
  NoContent (some (x ∷ xs)) = ⊥

  abbrev pub NotObject : Loaded → Type 0
  NotObject Loaded.not_json = Unit
  NotObject Loaded.not_object = Unit
  NotObject (Loaded.object t) = ⊥

  -- A call of another kind, or with arguments that are neither blank nor a JSON object.
  abbrev pub BadCall : ProviderCall → Type 0
  BadCall c =
      (c.kind ≢ "function")
      ⊎ ((is_blank c.arguments ≡ false) × NotObject (client.json_loads c.arguments))

  abbrev pub SomeBad : List ProviderCall → Type 0
  SomeBad [] = ⊥
  SomeBad (c ∷ cs) = BadCall c ⊎ SomeBad cs

  -- The reasons for which an answer fails the call.
  abbrev pub Unusable : Type 0
  Unusable =
      (answer ≡ none)
      ⊎ ((c : Completion) × (answer ≡ some c) × ((c.choices ≡ []) ⊎ (c.usage ≡ none)))
      ⊎ ((m : Message) × Replied m
          × (((m.tool_calls ≡ []) × NoContent m.content) ⊎ SomeBad m.tool_calls))

  -- An unpriced model is the caller's error; all else that raises is a failed call.
  abbrev pub Raised : String → Exn → Type 0
  Raised model e =
      ((e ≡ Exn.config_error) × (client.prices model ≡ none))
      ⊎ ((e ≡ Exn.llm_call_failed) × Unusable)

  abbrev pub usage_of : StructuredOutputError → LlmUsage
  usage_of e = record { input_tokens = e.input_tokens; output_tokens = e.output_tokens }

  abbrev pub FailedWith : String → LlmError → Type 0
  FailedWith model (LlmError.raised e) = Raised model e
  FailedWith model (LlmError.structured_output e) =
      Costs model (usage_of e) e.cost_usd
      × (client.model_validate_json e.raw_text ≡ err e.validation_error)

  abbrev pub SentWith : String → Result LlmError Sent → Type 0
  SentWith model (ok s) = Costs model s.usage s.cost_usd × Replied s.message
  SentWith model (err e) = FailedWith model e

  abbrev pub Answered : String → LlmResult → Type 0
  Answered model r =
      (r.model ≡ model)
      × Costs model r.usage r.cost_usd
      × (client.model_validate_json r.raw_text ≡ ok r.parsed)
      × ((m : Message) × Replied m × (m.tool_calls ≡ []) × (m.content ≡ some r.raw_text))

  abbrev pub ResultWith : String → Result LlmError LlmResult → Type 0
  ResultWith model (ok r) = Answered model r
  ResultWith model (err e) = FailedWith model e

  abbrev pub ReplyWith : String → Result LlmError ToolReply → Type 0
  ReplyWith model (ok (ToolReply.answer r)) = Answered model r
  ReplyWith model (ok (ToolReply.tool_turn t)) =
      (t.model ≡ model)
      × Costs model t.usage t.cost_usd
      × (1 ≤ length t.calls)
      × ((m : Message) × Replied m × (length t.calls ≡ length m.tool_calls))
  ReplyWith model (err e) = FailedWith model e

  abbrev CallFailed : {A : Type 0} → Type 0 → Result LlmError A → Type 0
  CallFailed Why (ok a) = Unit
  CallFailed Why (err e) = (e ≡ LlmError.raised Exn.llm_call_failed) × Why

  decode_call-CallFailed : (c : ProviderCall) → CallFailed (BadCall c) (decode_call client c)
  unfolding decode_call
  decode_call-CallFailed c =
      by_kind (c.kind ==ₛ "function") refl
        (arguments_of-CallFailed (is_blank c.arguments) refl (client.json_loads c.arguments) refl)
    where
      Arguments : Type 0
      Arguments = (is_blank c.arguments ≡ false) × NotObject (client.json_loads c.arguments)

      arguments_of-CallFailed :
          (b : Bool)
          → is_blank c.arguments ≡ b
          → (l : Loaded) → client.json_loads c.arguments ≡ l
          → CallFailed Arguments (if b then ok (codes "{}") else object_arguments client l)
      arguments_of-CallFailed true e l q = tt
      arguments_of-CallFailed false e Loaded.not_json q = (refl, (e, subst NotObject (sym q) tt))
      arguments_of-CallFailed false e Loaded.not_object q = (refl, (e, subst NotObject (sym q) tt))
      arguments_of-CallFailed false e (Loaded.object t) q = tt

      with_arguments :
          (r : Result LlmError Text)
          → CallFailed Arguments r
          → CallFailed (BadCall c) (call_with client c r)
      with_arguments (ok t) h = tt
      with_arguments (err e) h = (h.0, inr h.1)

      by_kind :
          (b : Bool)
          → (c.kind ==ₛ "function") ≡ b
          → CallFailed Arguments (arguments_of client c.arguments)
          → CallFailed (BadCall c) (
              if not b
              then err (LlmError.raised Exn.llm_call_failed)
              else call_with client c (arguments_of client c.arguments))
      by_kind true e h = with_arguments (arguments_of client c.arguments) h
      by_kind false e h =
          (refl, inl (λ q. absurd (ground (arith, e, (eq_iff c.kind "function").1 q))))

  -- Calls that decode are as many as the provider asked for.
  abbrev pub Decoded : List ProviderCall → Result LlmError (List ToolCallRequest) → Type 0
  Decoded cs (ok calls) = length calls ≡ length cs
  Decoded cs (err e) = (e ≡ LlmError.raised Exn.llm_call_failed) × SomeBad cs

  pub decode_calls-Decoded : (cs : List ProviderCall) → Decoded cs (decode_calls client cs)
  unfolding decode_calls
  decode_calls-Decoded [] = refl
  decode_calls-Decoded (c ∷ cs) =
      both (decode_call client c) (decode_calls client cs) (decode_call-CallFailed c)
        (decode_calls-Decoded cs)
    where
      both :
          (r : Result LlmError ToolCallRequest) (rest : Result LlmError (List ToolCallRequest))
          → CallFailed (BadCall c) r
          → Decoded cs rest
          → Decoded (c ∷ cs) (call_before client r rest)
      both (err e) rest h k = (h.0, inl h.1)
      both (ok r) (err e) h k = (k.0, inr k.1)
      both (ok r) (ok rs) h k = ap suc k
