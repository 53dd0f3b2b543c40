-- ===== src/Application/ConversationHistory.antt =====
-- src/eeveetuber/application/conversation_history.py: the bounded projection of the persisted
-- conversation. `json.dumps` is a parameter. Message and session identifiers are numbers; of a record's
-- metadata only the generation is read, `none` where it is missing or not an integer. The bounds are
-- natural numbers, since a policy refuses a negative one.
pub mod Search
pub mod Bounds
pub mod Keeping
use eeveetuber.Common.{
  ℕ, zero, suc, ◌+◌, ◌-◌, ◌*◌, ◌/◌, min, max, Bool, true, false, not, ◌&&◌, ◌||◌, Option, none,
  some, List, [], ◌∷◌, ◌++◌, length, take, drop, if◌then◌else◌, ltb, leb, ◌==◌, any, sort_by,
}
use eeveetuber.Common.Int.{ℤ, pos, negsuc}
use eeveetuber.Common.Text.{Str, codes, strip}
use eeveetuber.Common.Result.{Result, ok, err}

pub data PolicyError : Type 0 where
  message_chars_not_positive too_many_messages : PolicyError

pub record RecentConversationHistoryPolicy : Type 0 where
  pub max_messages : ℕ
  pub max_chars : ℕ
  pub max_message_chars : ℕ
  pub load_timeout_ms : ℕ

-- `__post_init__`
abbrev pub check_policy :
    RecentConversationHistoryPolicy → Result PolicyError RecentConversationHistoryPolicy
check_policy policy =
    if leb policy.max_message_chars 0
    then err message_chars_not_positive
    else (if ltb 1000 policy.max_messages then err too_many_messages else ok policy)

abbrev pub enabled : RecentConversationHistoryPolicy → Bool
enabled policy =
    ltb 0 policy.max_messages && (ltb 0 policy.max_chars && ltb 0 policy.load_timeout_ms)

abbrev pub fetch_limit : RecentConversationHistoryPolicy → ℕ
fetch_limit policy = min 1000 (max policy.max_messages (policy.max_messages * 2))

pub data MessageRole : Type 0 where
  user assistant system tool : MessageRole

pub record MessageRecord : Type 0 where
  pub message_id : ℕ
  pub session_id : ℕ
  pub sequence : ℕ
  pub role : MessageRole
  pub content : Str
  pub generation : Option ℤ

pub record RecentHistoryMessage : Type 0 where
  pub message_id : ℕ
  pub sequence : ℕ
  pub generation : ℕ
  pub role : MessageRole
  pub content : Str
  pub truncated : Bool

pub record RecentConversationHistory : Type 0 where
  pub messages : List RecentHistoryMessage
  pub rendered_context : Str

abbrev pub empty_history : RecentConversationHistory
empty_history = record { messages = []; rendered_context = [] }

abbrev pub before_record : MessageRecord → MessageRecord → Bool
before_record a b =
    ltb a.sequence b.sequence || ((a.sequence == b.sequence) && ltb a.message_id b.message_id)

abbrev pub is_spoken : MessageRole → Bool
is_spoken user = true
is_spoken assistant = true
is_spoken _ = false

-- The generation of a record that is eligible before another one.
abbrev pub earlier_generation : Option ℤ → ℕ → Option ℕ
earlier_generation none before_generation = none
earlier_generation (some (negsuc n)) before_generation = none
earlier_generation (some (pos n)) before_generation =
    if ltb n before_generation then some n else none

abbrev pub eligible_by : Option ℕ → ℕ → MessageRecord → List RecentHistoryMessage
eligible_by none max_message_chars r = []
eligible_by (some generation) max_message_chars r =
    let content = strip r.content in
    let bounded = take max_message_chars content in
    let message : RecentHistoryMessage = record {
      message_id = r.message_id;
      sequence = r.sequence;
      generation = generation;
      role = r.role;
      content = bounded;
      truncated = ltb (length bounded) (length content);
    } in
    if is_spoken r.role && ltb 0 (length content) then message ∷ [] else []

-- One record that is not skipped, as a list of at most one message.
unfoldable pub eligible_message :
    RecentConversationHistoryPolicy → ℕ → MessageRecord → List RecentHistoryMessage
unfolding strip
eligible_message policy before_generation r =
    eligible_by (earlier_generation r.generation before_generation) policy.max_message_chars r

-- The first loop of `compile`, with the identifiers seen so far.
unfoldable pub gather :
    RecentConversationHistoryPolicy
    → ℕ
    → ℕ
    → List ℕ
    → List MessageRecord
    → List RecentHistoryMessage
unfolding eligible_message
gather policy session_id before_generation seen_ids [] = []
gather policy session_id before_generation seen_ids (r ∷ records) =
    let skipped = any (λ id. id == r.message_id) seen_ids || not (r.session_id == session_id) in
    let seen = if skipped then seen_ids else r.message_id ∷ seen_ids in
    let rest = gather policy session_id before_generation seen records in
    if skipped then rest else eligible_message policy before_generation r ++ rest

abbrev pub cut_message : RecentHistoryMessage → ℕ → RecentHistoryMessage
cut_message message size = record message { content = take size message.content; truncated = true }

-- The binary search of `_fit_message` for a size that fits. `top` is `high + 1`; the result is `none`
-- where the fuel is out.
unfoldable pub search_size : ℕ → (ℕ → Bool) → ℕ → ℕ → Option ℕ → Option (Option ℕ)
search_size zero fits low top best = none
search_size (suc fuel) fits low top best =
    let midpoint = (low + (top - 1)) / 2 in
    let upper = search_size fuel fits (midpoint + 1) top (some midpoint) in
    let lower = search_size fuel fits low midpoint best in
    if leb top low then some best else (if ltb 0 midpoint && fits midpoint then upper else lower)

-- The first and the last line of the rendered text.
abbrev pub opening : Str
opening =
    codes "<recent_conversation instruction_authority=\"false\" data_only=\"true\" "
    ++ codes "may_be_incomplete=\"true\">"

abbrev pub closing : Str
closing = codes "</recent_conversation>"

module _ (dumps : List RecentHistoryMessage → Str) where
  -- `_render`
  unfoldable pub render : List RecentHistoryMessage → Str
  render messages = opening ++ 10 ∷ (dumps messages ++ 10 ∷ closing)

  abbrev pub is_fitting : ℕ → List RecentHistoryMessage → Bool
  is_fitting max_chars messages = leb (length (render messages)) max_chars

  abbrev pub cut_by :
      RecentHistoryMessage → Option (Option ℕ) → Option (Option RecentHistoryMessage)
  cut_by message none = none
  cut_by message (some none) = some none
  cut_by message (some (some size)) = some (some (cut_message message size))

  -- `_fit_message`, with one unit of fuel more than the message has characters.
  unfoldable pub fit_message :
      ℕ → RecentHistoryMessage → List RecentHistoryMessage → Option (Option RecentHistoryMessage)
  unfolding render search_size
  fit_message max_chars message newer_messages =
      let fits = λ (n : ℕ). is_fitting max_chars (cut_message message n ∷ newer_messages) in
      let top = suc (length message.content) in
      if is_fitting max_chars (message ∷ newer_messages)
      then some (some message)
      else cut_by message (search_size (suc top) fits 0 top none)

  abbrev pub put_first :
      Option (Option RecentHistoryMessage)
      → List RecentHistoryMessage
      → Option (List RecentHistoryMessage)
  put_first none selected = none
  put_first (some none) selected = some selected
  put_first (some (some message)) selected = some (message ∷ selected)

  unfoldable pub fit_next :
      ℕ
      → RecentHistoryMessage
      → Option (List RecentHistoryMessage)
      → Option (List RecentHistoryMessage)
  unfolding fit_message
  fit_next max_chars message none = none
  fit_next max_chars message (some selected) =
      put_first (fit_message max_chars message selected) selected

  -- The second loop of `compile`, from the newest message on, which stands last.
  unfoldable pub select_each : ℕ → List RecentHistoryMessage → Option (List RecentHistoryMessage)
  unfolding fit_next
  select_each max_chars [] = some []
  select_each max_chars (message ∷ newer) = fit_next max_chars message (select_each max_chars newer)

  abbrev pub history_of : Option (List RecentHistoryMessage) → Option RecentConversationHistory
  history_of none = none
  history_of (some []) = some empty_history
  history_of (some (message ∷ messages)) =
      some
        (record { messages = message ∷ messages; rendered_context = render (message ∷ messages) })

  -- `RecentConversationHistoryCompiler.compile`; `none` where the fuel of a search is out.
  unfoldable pub compile :
      RecentConversationHistoryPolicy
      → List MessageRecord
      → ℕ
      → ℕ
      → Option RecentConversationHistory
  unfolding render select_each gather
  compile policy records session_id before_generation =
      let eligible =
        gather policy session_id before_generation [] (sort_by before_record records) in
      let recent = drop (length eligible - policy.max_messages) eligible in
      if enabled policy
      then history_of (select_each policy.max_chars recent)
      else some empty_history
