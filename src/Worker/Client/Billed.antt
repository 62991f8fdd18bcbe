-- ===== src/Worker/Client/Billed.antt =====
-- What a reply of the client costs, and how it fails.
use mathlib.Core.Path.{subst}
use sentinel_brief.Prelude.{
  arith, sym, ◌∙◌, Text, ℕ, ◌≡◌, inl, inr, refl, ap, String, false, Option, none, some, List, [],
  ◌∷◌, length, Result, ok, err, Bool-cases,
}
use sentinel_brief.Core.Errors.{Exn}
use sentinel_brief.Core.Verdict.{Verdict}
use sentinel_brief.Core.Llm.{ChatMessage, LlmUsage, LlmResult, LlmError, ToolCallRequest}
use sentinel_brief.Core.Llm.Cost.{ModelPrice, compute_cost_usd_lem}
use sentinel_brief.Worker.Client.{
  Client, Completion, Message, ProviderCall, Request, Sent, Reply, first_choice, received,
  requested, send, validated, parse_structured, content_of, complete_structured, decode_calls,
  turn_of, answer_of, reply_of, tool_reply, is_empty, complete_with_tools,
}
use sentinel_brief.Worker.Client.Usable.{
  request_of, Costs, Replied, NoContent, SomeBad, SentWith, ResultWith, ReplyWith, Decoded,
  decode_calls-Decoded,
}

-- `answer` is what the provider answered.
module _ {W : Type 0} (client : Client W) (answer : Option Completion) where
  received-SentWith :
      (model : String) (price : ModelPrice) (latency : ℕ) (reply : Option Completion)
      → answer ≡ reply
      → client.prices model ≡ some price
      → SentWith client answer model (received client price latency reply)
  received-SentWith model price latency none a p = inr (refl, inl a)
  received-SentWith model price latency (some c) a p = by_choice c.choices refl c.usage refl
    where
      by_choice :
          (ms : List Message)
          → c.choices ≡ ms
          → (u : Option LlmUsage) → c.usage ≡ u
          → SentWith client answer model (first_choice client price latency u ms)
      by_choice [] q u e = inr (refl, inr (inl (c, a, inl q)))
      by_choice (m ∷ ms) q none e = inr (refl, inr (inl (c, a, inr e)))
      by_choice (m ∷ ms) q (some usage) e = (
        record {
          completion = c;
          answered = a;
          reported = e;
          price = price;
          priced = p;
          not_above = (compute_cost_usd_lem price usage).0;
          not_below = (compute_cost_usd_lem price usage).1;
        },
        (c, ms, a, q),
      )

  requested-SentWith :
      (model : String) (request : Request) (w : W) (price : Option ModelPrice)
      → answer ≡ (client.create request w).0
      → client.prices model ≡ price
      → SentWith client answer model (requested client request w price).0
  requested-SentWith model request w none a p = inl (refl, p)
  requested-SentWith model request w (some price) a p = received-SentWith model price _ _ a p

  send-SentWith :
      (messages : List ChatMessage) (model : String) (tools : Option (List String)) (w : W)
      → answer ≡ (client.create (request_of client messages model tools) w).0
      → SentWith client answer model (send client messages model tools w).0
  unfolding send
  send-SentWith messages model tools w a = requested-SentWith model _ w (client.prices model) a refl

  validated-ResultWith :
      (raw : Text) (model : String) (s : Sent) (parsed : Result Text Verdict)
      → client.model_validate_json raw ≡ parsed
      → Costs client answer model s.usage s.cost_usd
      → ((m : Message) × Replied client answer m × (m.tool_calls ≡ []) × (m.content ≡ some raw))
      → ResultWith client answer model (validated client raw model s parsed)
  validated-ResultWith raw model s (ok v) e c m = (refl, c, e, m)
  validated-ResultWith raw model s (err t) e c m = (c, e)

  content_of-ResultWith :
      (model : String) (s : Sent) (content : Option Text)
      → Costs client answer model s.usage s.cost_usd
      → Replied client answer s.message
      → s.message.tool_calls ≡ []
      → s.message.content ≡ content
      → ResultWith client answer model (content_of client model s content)
  unfolding parse_structured
  content_of-ResultWith model s none c r t e =
      inr (refl, inr (inr (s.message, r, inl (t, subst (NoContent client answer) (sym e) tt))))
  content_of-ResultWith model s (some []) c r t e =
      inr (refl, inr (inr (s.message, r, inl (t, subst (NoContent client answer) (sym e) tt))))
  content_of-ResultWith model s (some (x ∷ xs)) c r t e =
      validated-ResultWith (x ∷ xs) model s (client.model_validate_json (x ∷ xs)) refl c
        (s.message, r, t, e)

  turn_of-ReplyWith :
      (model : String) (s : Sent) (c : ProviderCall) (cs : List ProviderCall)
      (calls : Result LlmError (List ToolCallRequest))
      → Decoded client answer (c ∷ cs) calls
      → Costs client answer model s.usage s.cost_usd
      → Replied client answer s.message
      → s.message.tool_calls ≡ c ∷ cs
      → ReplyWith client answer model (turn_of client model s calls)
  turn_of-ReplyWith model s c cs (ok calls) d k r t =
      (refl, k, omega (arith, d), (s.message, r, d ∙ sym (ap length t)))
  turn_of-ReplyWith model s c cs (err e) d k r t =
      rw d.0 (inr (refl, inr (inr (s.message, r, inr (subst (SomeBad client answer) (sym t) d.1)))))

  answer_of-ReplyWith :
      (model : String) (r : Result LlmError LlmResult)
      → ResultWith client answer model r
      → ReplyWith client answer model (answer_of client r)
  answer_of-ReplyWith model (ok r) h = h
  answer_of-ReplyWith model (err e) h = h

  reply_of-ReplyWith :
      (model : String) (s : Sent) (cs : List ProviderCall)
      → Costs client answer model s.usage s.cost_usd
      → Replied client answer s.message
      → s.message.tool_calls ≡ cs
      → ReplyWith client answer model (reply_of client model s cs)
  reply_of-ReplyWith model s [] k r t =
      answer_of-ReplyWith model (content_of client model s s.message.content)
        (content_of-ResultWith model s s.message.content k r t refl)
  reply_of-ReplyWith model s (c ∷ cs) k r t =
      turn_of-ReplyWith model s c cs (decode_calls client (c ∷ cs))
        (decode_calls-Decoded client answer (c ∷ cs)) k r t

  tool_reply-ReplyWith :
      (model : String) (r : Reply client Sent)
      → SentWith client answer model r.0
      → ReplyWith client answer model (tool_reply client model r).0
  tool_reply-ReplyWith model (err e, w) h = h
  tool_reply-ReplyWith model (ok s, w) h =
      reply_of-ReplyWith model s s.message.tool_calls h.0 h.1 refl

module _ {W : Type 0} (client : Client W) where
  -- A request that offers tools. An answer is the content of the provider's first message, which
  -- has no calls, and parses as a verdict; a tool turn has as many calls as the message, at least
  -- one; both name the model, and a reply that does not parse comes with the parser's error. For
  -- all three, the tokens are those that the provider reports for this request, and the cost is
  -- what they come to at the price of the model, to the nearest millionth, a tie up. The call fails
  -- only if the provider did not answer, or answered without a choice, without its usage, with
  -- neither content nor calls, or with a call of another kind or with arguments that are neither
  -- blank nor an object; and it is refused only for a model without a price.
  pub complete_with_tools-ReplyWith :
      (messages : List ChatMessage) (tools : List String) (model : String) (w : W)
      → is_empty client tools ≡ false
      → ReplyWith client
          (client.create (request_of client messages model (some tools)) w).0
          model
          (complete_with_tools client messages tools model w).0
  unfolding complete_with_tools
  complete_with_tools-ReplyWith messages tools model w h = rw h (
      let answer = (client.create (request_of client messages model (some tools)) w).0 in
      tool_reply-ReplyWith client answer model (send client messages model (some tools) w)
        (send-SentWith client answer messages model (some tools) w refl))

  -- A model without a price is refused before the provider is called, with tools and without, and
  -- so is an empty list of tools: the world is as it was.
  complete-unpriced :
      (messages : List ChatMessage) (tools : List String) (model : String) (w : W)
      → client.prices model ≡ none
      → (complete_structured client messages model w ≡ (err (LlmError.raised Exn.config_error), w))
        × ((complete_with_tools client messages tools model w).1 ≡ w)
  unfolding complete_structured complete_with_tools send
  complete-unpriced messages tools model w h = elim (Bool-cases (is_empty client tools)) [
    | inl e ↦ rw (h, e) (refl, refl)
    | inr e ↦ rw (h, e) (refl, refl)
  ]
