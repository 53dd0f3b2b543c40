-- ===== src/Tests/Session.antt =====
-- Concrete steps of a session with mailboxes of capacity two (src/eeveetuber/runtime/session.py).
use eeveetuber.Common.{ℕ, refl, ◌≡◌, true, false, none, some, All, List, [], ◌∷◌, arith}
use eeveetuber.Common.Int.{pos}
use eeveetuber.Common.Text.{Str, is_blank}
use eeveetuber.Domain.Interaction.{initial}
use eeveetuber.Domain.Events.{EventEnvelope, public_viewer, transcript}
use eeveetuber.Domain.Events as Events
use eeveetuber.Runtime.Cancellation.{CancellationSource, fresh, accepts}
use eeveetuber.Runtime.Mailbox.{drop_lowest, empty}
use eeveetuber.Runtime.Session.State.{
  SessionLifecycle, running, Config, Session, message_config, event_config,
}
use eeveetuber.Runtime.Session.{submit_foreground_turn}
use eeveetuber.Runtime.Session.Steps.{
  Step, perform_all, start_step, submit_step, foreground_step, publish_step, stop_step,
  run_next_step, spawn_step, run_finally, finalize_begin_step, finalize_end_step,
}
use eeveetuber.Runtime.Supervisor.{
  ActorRef, SupervisorStep, registering, stopped_with, new_supervisor, register, watch, get_session,
  close_supervisor, take_steps, shutdown-admits_none,
}
use eeveetuber.Runtime.Session.LateResults.{
  Refuses, stale_stays_refused, foreground_turn_fails_closed,
}
use eeveetuber.Runtime.Session.Frame.{HasEnded}
use eeveetuber.Runtime.Session.Stop.{handler_raised, stop}
use eeveetuber.Runtime.Session.Ended.{IsShut, IsOver, stop-IsShut, run_finally-IsOver}

-- "go"
abbrev go : Str
go = 103 ∷ 111 ∷ []

abbrev config : Config ℕ ℕ
config = record {
  session_id = 9;
  inbox = record (message_config drop_lowest none (λ _ _. false) (λ _ new_item. new_item)) {
    capacity = 2;
  };
  outbox = record event_config { capacity = 2 };
  observer = none;
}

abbrev source : CancellationSource
source = record { generation = 0; state = 0; closed = false; cells = λ _. fresh; allocated = 1 }

abbrev session : Session ℕ
session = record {
  lifecycle = SessionLifecycle.new;
  interaction = initial;
  cancellation = source;
  inbox = empty;
  outbox = empty;
  sequence = 0;
  stale_results = 0;
  observer_failures = 0;
  observed = [];
  has_failure = false;
  actor_cancelled = false;
  children = [];
  stopped_set = false;
}

abbrev event : EventEnvelope ℕ
event = record {
  event_type = go;
  payload = 5;
  event_id = 41;
  schema_version = pos 1;
  occurred_at = 1000;
  monotonic_at_ms = pos 12;
  session_id = none;
  actor_id = none;
  correlation_id = 8;
  causation_id = none;
  sequence = none;
  priority = pos 50;
  trust = public_viewer;
  visibility = Events.session;
  retention = transcript;
}

abbrev steps : List (Step ℕ)
steps =
    start_step
    ∷ submit_step event
    ∷ spawn_step 1
    ∷ foreground_step event go 5
    ∷ publish_step event 0
    ∷ run_next_step
    ∷ stop_step false true 9
    ∷ []

-- A session that runs, in its fourth generation.
abbrev live : Session ℕ
live = record session {
  lifecycle = running;
  cancellation = record source { generation = 4; state = 4; allocated = 5 };
}

stale_stays_refused_example : Refuses config 3 (perform_all config steps live)
unfolding accepts
stale_stays_refused_example = stale_stays_refused config 3 live steps (omega arith, refl)

foreground_turn_fails_closed_example :
    Refuses config 4 (perform_all config steps (submit_foreground_turn config event go 7 live).0)
unfolding is_blank
foreground_turn_fails_closed_example =
    foreground_turn_fails_closed config 4 event go 7 live steps refl refl refl (omega arith)

-- Another task spawns a child while the actor task, whose handler raised, awaits its children.
run_finally-IsOver_example : IsOver config (
    perform_all config steps (
      run_finally config handler_raised 8 []
        (spawn_step 2 ∷ [])
        (finalize_begin_step ∷ [])
        (finalize_end_step ∷ [])
        live))
run_finally-IsOver_example =
    run_finally-IsOver config handler_raised 8 [] (spawn_step 2 ∷ []) (finalize_begin_step ∷ [])
      (finalize_end_step ∷ []) live steps

live-HasEnded : ¬ HasEnded live.lifecycle
live-HasEnded h = ground arith

stop-IsShut_example : IsShut config (perform_all config steps (stop true false 6 live).0)
stop-IsShut_example = stop-IsShut config false 6 live steps live-HasEnded

abbrev actor_one : ActorRef
actor_one = record { reference = 70; session_id = 1 }

abbrev actor_two : ActorRef
actor_two = record { reference = 71; session_id = 2 }

-- The second actor fails, with the failure 404.
abbrev supervision : List (SupervisorStep ℕ)
supervision = registering actor_one ∷ registering actor_two ∷ stopped_with (some 404) actor_two ∷ []

one_left : All (λ a. a.reference ≡ 70) (take_steps supervision new_supervisor).sessions
unfolding register watch get_session
one_left = (refl, tt)

shutdown-admits_none_example :
    All
      (λ a. a.reference ≡ 70)
      (take_steps supervision (close_supervisor (take_steps supervision new_supervisor))).sessions
shutdown-admits_none_example =
    shutdown-admits_none (λ a. a.reference ≡ 70) supervision supervision one_left
