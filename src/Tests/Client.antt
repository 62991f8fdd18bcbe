-- ===== src/Tests/Client.antt =====
-- The provider's client and the replay recorder, with a provider that counts its calls.
use sentinel_brief.Prelude.{
  codes, ℕ, ◌+◌, refl, true, ◌==ₛ◌, none, some, [], ◌∷◌, ok, if◌then◌else◌,
}
use sentinel_brief.Core.Llm.Cost.{ModelPrice}
use sentinel_brief.Tests.{usage, verdict_with}
use sentinel_brief.Worker.Client.{Client, Completion, ProviderCall, Loaded, complete_with_tools}
use sentinel_brief.Worker.Client.Billed.{complete_with_tools-ReplyWith}
use sentinel_brief.Worker.Client.Usable.{ReplyWith}
use sentinel_brief.Worker.Tools.Recorder.{Answer, Fixture, ReplayRecorder, Tool}

abbrev price : ModelPrice
price = record { input_per_mtok = 150000; output_per_mtok = 600000 }

abbrev call : ProviderCall
call = record {
  id = codes "call_1";
  kind = "function";
  name = "get_alert_history";
  arguments = codes "";
}

abbrev completion : Completion
completion = record {
  choices = record { content = none; tool_calls = call ∷ [] } ∷ [];
  usage = some usage;
}

abbrev client : Client ℕ
client = record {
  create = λ request calls. (some completion, calls + 1);
  elapsed_ms = λ before after. 400;
  prices = λ model. if model ==ₛ "cheap" then some price else none;
  json_schema = true;
  json_loads = λ t. Loaded.object t;
  model_validate_json = λ t. ok (verdict_with 9000);
}

complete_with_tools-ReplyWith_example :
    ReplyWith client
      (some completion)
      "cheap"
      (complete_with_tools client [] ("get_alert_history" ∷ []) "cheap" 0).0
complete_with_tools-ReplyWith_example =
    complete_with_tools-ReplyWith client [] ("get_alert_history" ∷ []) "cheap" 0 refl

-- A fixture that only recorded an outage.
abbrev recorder : ReplayRecorder ℕ
recorder = record {
  fixture = λ tool arguments.
      Fixture.present
        (record { tool = tool; arguments = arguments; result = Answer.unavailable "timeout" });
  same_arguments = λ a b. true;
  strict = true;
  strict_tools = none;
}

abbrev lookup_tool : Tool ℕ
lookup_tool = record {
  name = "lookup_ip_reputation";
  external = true;
  run = λ arguments calls. (ok (Answer.answered arguments), calls + 1);
}
