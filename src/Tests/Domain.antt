-- ===== src/Tests/Domain.antt =====
-- Concrete runs of the interaction machine and of the event envelope (src/eeveetuber/domain).
use eeveetuber.Common.{ℕ, ◌≤◌, ◌≡◌, refl, inl, none, some, List, [], ◌∷◌, ◌≢◌, ◌⊎◌}
use eeveetuber.Common.Int.{pos}
use eeveetuber.Common.Text.{Str, is_blank}
use eeveetuber.Common.Result.{ok, err, ◌>>=◌}
use eeveetuber.Domain.Interaction.{
  InteractionState, idle, listening, processing, speaking, degraded, StateMachine, initial,
  transition,
}
use eeveetuber.Domain.Interaction.Runs.{
  run, IsChain, entries, run-IsChain, speaking-le-processing, always_recovers,
}
use eeveetuber.Domain.Events.{
  EventEnvelope, public_viewer, session, transcript, for_session, with_sequence, foreign_session,
  check, is_event_type, word_tail, word_head,
}
use eeveetuber.Domain.Events.Envelopes.{
  IsValid, stamped_as, for_session_lem, with_sequence-for_session,
}

-- "go"
abbrev go : Str
go = 103 ∷ 111 ∷ []

abbrev requests : List (InteractionState × Str)
requests =
    (listening, go)
    ∷ (speaking, go)
    ∷ (processing, go)
    ∷ (speaking, [])
    ∷ (speaking, go)
    ∷ (idle, go)
    ∷ []

run-IsChain_example : IsChain initial (run initial requests).0 (run initial requests).1
run-IsChain_example = run-IsChain initial requests

speaking-le-processing_example :
    entries speaking (run initial requests).1 ≤ entries processing (run initial requests).1
speaking-le-processing_example = speaking-le-processing requests

abbrev speaking_machine : StateMachine
speaking_machine = record { state = speaking; revision = 7 }

always_recovers_example :
    ((speaking ≡ idle) ⊎ ((transition idle go speaking_machine).0.state ≡ idle))
    × ((speaking ≡ degraded) ⊎ ((transition degraded go speaking_machine).0.state ≡ degraded))
unfolding is_blank
always_recovers_example = always_recovers speaking_machine go refl

-- "chat.message"
abbrev chat_message : Str
chat_message = 99 ∷ 104 ∷ 97 ∷ 116 ∷ 46 ∷ 109 ∷ 115 ∷ 103 ∷ []

abbrev envelope : EventEnvelope ℕ
envelope = record {
  event_type = chat_message;
  payload = 5;
  event_id = 41;
  schema_version = pos 1;
  occurred_at = 1000;
  monotonic_at_ms = pos 12;
  session_id = none;
  actor_id = none;
  correlation_id = 8;
  causation_id = none;
  sequence = none;
  priority = pos 50;
  trust = public_viewer;
  visibility = session;
  retention = transcript;
}

for_session_lem_example :
    (((envelope.session_id ≡ none) ⊎ (envelope.session_id ≡ some 9))
      × (for_session 9 envelope ≡ ok (record envelope { session_id = some 9 })))
    ⊎ ((other : ℕ) × (envelope.session_id ≡ some other)
        × (other ≢ 9)
        × (for_session 9 envelope ≡ err (foreign_session other 9)))
unfolding check is_event_type word_tail word_head is_blank
for_session_lem_example = for_session_lem 9 envelope refl

with_sequence-for_session_example :
    ((for_session 9 envelope >>= λ scoped. with_sequence (pos 3) scoped)
      ≡ ok (stamped_as 9 3 envelope))
    × IsValid (stamped_as 9 3 envelope)
unfolding check is_event_type word_tail word_head is_blank
with_sequence-for_session_example = with_sequence-for_session 9 3 envelope refl (inl refl)
