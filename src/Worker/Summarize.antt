-- ===== src/Worker/Summarize.antt =====
-- worker/summarize.py: the summary of a session that the first prompt shows.
pub mod Sampled
use sentinel_brief.Prelude.{
  ℕ, zero, suc, ◌+◌, String, Bool, false, ◌&&◌, ◌||◌, not, ◌==ₛ◌, Option, none, some, List, [], ◌∷◌,
  ◌++◌, if◌then◌else◌,
}
use sentinel_brief.Core.Alert.{CowrieEvent, SessionAlert, connect_time, duration_ms}

pub record SessionSummary : Type 0 where
  pub source : String
  pub session_id : String
  pub src_ip : String
  pub sensor : String
  pub connect_time : ℕ
  pub duration_ms : Option ℕ
  pub client_version : Option String
  pub login_failed : ℕ
  pub login_success : ℕ
  pub usernames_sample : List String
  pub first_success_credential : Option (String × String)
  pub command_count : ℕ
  pub download_count : ℕ
  pub upload_count : ℕ

-- `sum(1 for e in events if …)`
unfoldable pub count_if : (CowrieEvent → Bool) → List CowrieEvent → ℕ
count_if p [] = 0
count_if p (e ∷ es) = (if p e then 1 else 0) + count_if p es

abbrev pub is_login : CowrieEvent → Bool
is_login e = e.eventid ==ₛ "cowrie.login.failed" || e.eventid ==ₛ "cowrie.login.success"

abbrev pub is_command : CowrieEvent → Bool
is_command e = e.eventid ==ₛ "cowrie.command.input" || e.eventid ==ₛ "cowrie.command.failed"

abbrev version_of : CowrieEvent → Option String
version_of e = if e.eventid ==ₛ "cowrie.client.version" then e.version else none

-- `next((e.version for e in events if …), None)`
unfoldable pub client_version : List CowrieEvent → Option String
client_version [] = none
client_version (e ∷ es) = elim (version_of e) [ some v ↦ some v | none ↦ client_version es ]

abbrev both : Option String → Option String → Option (String × String)
both (some u) (some p) = some (u, p)
both _ _ = none

abbrev pub credential_of : CowrieEvent → Option (String × String)
credential_of e = if e.eventid ==ₛ "cowrie.login.success" then both e.username e.password else none

unfoldable pub first_success_credential : List CowrieEvent → Option (String × String)
first_success_credential [] = none
first_success_credential (e ∷ es) = elim (credential_of e) [
  | some c ↦ some c
  | none ↦ first_success_credential es
]

unfoldable pub elem : String → List String → Bool
elem u [] = false
elem u (x ∷ xs) = x ==ₛ u || elem u xs

abbrev pub usernames_sample_cap : ℕ
usernames_sample_cap = 5

-- The username that the event adds to the sample, if it does.
abbrev pub new_username : CowrieEvent → List String → Option String
new_username e sample = elim e.username [
  | none ↦ none
  | some u ↦ if is_login e && not (elem u sample) then some u else none
]

-- The loop with `break`, on the number of usernames that the sample has room for.
unfoldable pub usernames_loop : ℕ → List CowrieEvent → List String → List String
unfolding elem
usernames_loop zero es sample = sample
usernames_loop (suc room) [] sample = sample
usernames_loop (suc room) (e ∷ es) sample = elim (new_username e sample) [
  | none ↦ usernames_loop (suc room) es sample
  | some u ↦ usernames_loop room es (sample ++ (u ∷ []))
]

unfoldable pub summarize_session : SessionAlert → SessionSummary
unfolding count_if client_version first_success_credential usernames_loop
summarize_session alert = record {
  source = alert.source;
  session_id = alert.session_id;
  src_ip = alert.src_ip;
  sensor = alert.sensor;
  connect_time = connect_time alert;
  duration_ms = duration_ms alert;
  client_version = client_version alert.events;
  login_failed = count_if (λ e. e.eventid ==ₛ "cowrie.login.failed") alert.events;
  login_success = count_if (λ e. e.eventid ==ₛ "cowrie.login.success") alert.events;
  usernames_sample = usernames_loop usernames_sample_cap alert.events [];
  first_success_credential = first_success_credential alert.events;
  command_count = count_if is_command alert.events;
  download_count = count_if (λ e. e.eventid ==ₛ "cowrie.session.file_download") alert.events;
  upload_count = count_if (λ e. e.eventid ==ₛ "cowrie.session.file_upload") alert.events;
}
