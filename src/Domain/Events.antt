-- ===== src/Domain/Events.antt =====
-- src/eeveetuber/domain/events.py: the event envelope, its validation and its two updates.
-- A UUID is its 128-bit number, a timestamp with its offset a number of microseconds, and the frozen
-- JSON payload a type of the caller's.
pub mod Envelopes
use eeveetuber.Common.{
  ℕ, ◌≤◌, Bool, true, false, not, ◌&&◌, ◌||◌, Option, none, some, List, [], ◌∷◌, leb, ltb, ◌==◌,
  if◌then◌else◌,
}
use eeveetuber.Common.Text.{Str, is_blank}
use eeveetuber.Common.Int.{ℤ, pos, negsuc}
use eeveetuber.Common.Result.{Result, ok, err, ◌>>=◌, ◌>>◌, raise_if}

pub data TrustLabel : Type 0 where
  system owner trusted_operator local_sensor public_viewer retrieved_document tool plugin unknown :
      TrustLabel

pub data Visibility : Type 0 where
  private_only owner_only session stream_safe public : Visibility

pub data RetentionClass : Type 0 where
  ephemeral_media operational_trace transcript audit durable_domain : RetentionClass

pub record EventEnvelope (P : Type 0) : Type 0 where
  pub event_type : Str
  pub payload : P
  pub event_id : ℕ
  pub schema_version : ℤ
  pub occurred_at : ℕ
  pub monotonic_at_ms : ℤ
  pub session_id : Option ℕ
  pub actor_id : Option Str
  pub correlation_id : ℕ
  pub causation_id : Option ℕ
  pub sequence : Option ℤ
  pub priority : ℤ
  pub trust : TrustLabel
  pub visibility : Visibility
  pub retention : RetentionClass

pub data EventError : Type 0 where
  bad_type bad_schema_version bad_monotonic blank_actor bad_sequence : EventError
  -- The session of the event and the one requested.
  foreign_session : ℕ → ℕ → EventError

abbrev is_lower : ℕ → Bool
is_lower c = leb b'a' c && leb c b'z'

abbrev is_word : ℕ → Bool
is_word c = is_lower c || (leb b'0' c && leb c b'9')

abbrev is_separator : ℕ → Bool
is_separator c = c == b'.' || (c == b'_' || c == b'-')

-- `_EVENT_TYPE.fullmatch`: lower-case words, the first with a letter at its head, joined by single
-- separators. `word_tail` reads on inside a word, `word_head` wants the first character of one.
unfoldable mutual
  pub word_tail : Str → Bool
  word_tail [] = true
  word_tail (c ∷ s) =
      if is_word c then word_tail s else (if is_separator c then word_head s else false)

  pub word_head : Str → Bool
  word_head [] = false
  word_head (c ∷ s) = if is_word c then word_tail s else false

unfoldable pub is_event_type : Str → Bool
is_event_type [] = false
is_event_type (c ∷ s) = is_lower c && word_tail s

abbrev is_positive : ℤ → Bool
is_positive (pos n) = leb 1 n
is_positive (negsuc _) = false

abbrev is_nonneg : ℤ → Bool
is_nonneg (pos n) = true
is_nonneg (negsuc _) = false

abbrev is_given_blank : Option Str → Bool
is_given_blank none = false
is_given_blank (some s) = is_blank s

abbrev is_given_negative : Option ℤ → Bool
is_given_negative none = false
is_given_negative (some z) = not (is_nonneg z)

-- The checks of `EventEnvelope.__post_init__`, in their order.
unfoldable pub check : Str → ℤ → ℤ → Option Str → Option ℤ → Result EventError (Unit {0})
unfolding is_event_type
check event_type schema_version monotonic_at_ms actor_id sequence = do
  raise_if (not (is_event_type event_type)) bad_type
  raise_if (not (is_positive schema_version)) bad_schema_version
  raise_if (not (is_nonneg monotonic_at_ms)) bad_monotonic
  raise_if (is_given_blank actor_id) blank_actor
  raise_if (is_given_negative sequence) bad_sequence

module _ {P : Type 0} where
  -- Building an envelope runs the checks; the result is the envelope as given.
  unfoldable pub validate : EventEnvelope P → Result EventError (EventEnvelope P)
  validate e = check e.event_type e.schema_version e.monotonic_at_ms e.actor_id e.sequence >> ok e

  -- `with_sequence`: `replace` validates the copy.
  unfoldable pub with_sequence : ℤ → EventEnvelope P → Result EventError (EventEnvelope P)
  unfolding validate
  with_sequence n e = validate (record e { sequence = some n })

  bind_session : Option ℕ → ℕ → EventEnvelope P → Result EventError (EventEnvelope P)
  bind_session none requested e = validate (record e { session_id = some requested })
  bind_session (some own) requested e =
      if own == requested then ok e else err (foreign_session own requested)

  unfoldable pub for_session : ℕ → EventEnvelope P → Result EventError (EventEnvelope P)
  unfolding bind_session validate
  for_session requested e = bind_session e.session_id requested e
