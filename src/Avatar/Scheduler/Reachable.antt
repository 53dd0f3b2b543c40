-- ===== src/Avatar/Scheduler/Reachable.antt =====
-- Sequences of calls of the public methods of src/eeveetuber/avatar/scheduler.py.
use eeveetuber.Common.{ℕ, ◌≡◌, refl, Option, none, some, List, [], ◌∷◌, arith, All}
use eeveetuber.Common.Int.{ℤ}
use eeveetuber.Avatar.Presentation.{
  PresentationLayer, PresentationCue, AudioTimelineMarker, StopReason, adapter_failure,
}
use eeveetuber.Avatar.Scheduler.State.{RateLimitPolicy, Config, Scheduler, initial}
use eeveetuber.Avatar.Scheduler.Methods.{
  submit, notify_audio, tick, advance_generation, cancel, reset_to_neutral, disconnect,
  adapter_failed, reconnect,
}
use eeveetuber.Avatar.Scheduler.Invariant.{IsWithinRate, IsValid, IsOwnFactory}
use eeveetuber.Avatar.Scheduler.Upkeep.{
  submit-IsValid, notify_audio-IsValid, tick-IsValid, advance_generation-IsValid, cancel-IsValid,
  reset_to_neutral-IsValid, disconnect-IsValid, reconnect-IsValid,
}

-- A call of one of the public methods that change the scheduler.
pub data Call : Type 0 where
  submitted : PresentationCue → Call
  notified : AudioTimelineMarker → Call
  ticked : Call
  advanced : ℕ → Call
  cancelling : ℕ → StopReason → Call
  reset : Call
  disconnecting : StopReason → Call
  failed : Call
  reconnected : Call

-- The scheduler after the call, whether it returned or raised.
abbrev pub call_method : Config → Call → ℤ → Scheduler → Scheduler
call_method c (submitted cue) now s = (submit c cue now s).0
call_method c (notified marker) now s = (notify_audio c marker now s).0
call_method c ticked now s = (tick c now s).0
call_method c (advanced generation) now s = (advance_generation c generation now s).0
call_method c (cancelling id reason) now s = (cancel c id reason now s).0
call_method c reset now s = (reset_to_neutral c now s).0
call_method c (disconnecting reason) now s = (disconnect reason now s).0
call_method c failed now s = (adapter_failed now s).0
call_method c reconnected now s = (reconnect c now s).0

-- The calls in their order, each with the reading of the clock.
abbrev pub call_methods : Config → List (Call × ℤ) → Scheduler → Scheduler
call_methods c [] s = s
call_methods c ((call, now) ∷ calls) s = call_methods c calls (call_method c call now s)

-- Submitted cues have identifiers of their own layers.
abbrev pub IsOwnCall : (ℕ → PresentationLayer) → Call × ℤ → Type 0
IsOwnCall owner (submitted cue, now) = owner cue.cue_id ≡ cue.layer
IsOwnCall owner _ = Unit

module _ (c : Config) (owner : ℕ → PresentationLayer) (own_factory : IsOwnFactory c owner) where
  call_method-IsValid :
      (call : Call) (now : ℤ) (s : Scheduler)
      → IsOwnCall owner (call, now)
      → IsValid c owner s
      → IsValid c owner (call_method c call now s)
  unfolding adapter_failed
  call_method-IsValid (submitted cue) now s own h =
      submit-IsValid c owner own_factory cue now own s h
  call_method-IsValid (notified marker) now s own h =
      notify_audio-IsValid c owner own_factory marker now s h
  call_method-IsValid ticked now s own h = tick-IsValid c owner own_factory now s h
  call_method-IsValid (advanced generation) now s own h =
      advance_generation-IsValid c owner own_factory generation now s h
  call_method-IsValid (cancelling id reason) now s own h =
      cancel-IsValid c owner own_factory id reason now s h
  call_method-IsValid reset now s own h = reset_to_neutral-IsValid c owner own_factory now s h
  call_method-IsValid (disconnecting reason) now s own h =
      disconnect-IsValid c owner own_factory reason now s h
  call_method-IsValid failed now s own h =
      disconnect-IsValid c owner own_factory adapter_failure now s h
  call_method-IsValid reconnected now s own h = reconnect-IsValid c owner own_factory now s h

  calls_keep :
      (calls : List (Call × ℤ)) (s : Scheduler)
      → All (IsOwnCall owner) calls
      → IsValid c owner s
      → IsValid c owner (call_methods c calls s)
  calls_keep [] s own h = h
  calls_keep ((call, now) ∷ calls) s (o, own) h =
      calls_keep calls (call_method c call now s) own (call_method-IsValid call now s o h)

  IsWithinRate-initially : (limit : Option RateLimitPolicy) → IsWithinRate limit []
  IsWithinRate-initially none = tt
  IsWithinRate-initially (some limit) = omega arith

  -- After each sequence of calls on a new scheduler, whichever of them raise and whatever the
  -- clock reads, the leases exclude one another by layer and by resource, the index by layer names
  -- exactly the holders, every leased and every pending cue is of the scheduler's generation and
  -- the renderer is connected if there is one, and the queue, the stored markers and the recorded
  -- starts are within the policy's bounds, provided that a cue's identifier is used for one layer
  -- only, in submissions and by the factory of neutral cues.
  pub call_methods-IsValid :
      (generation : ℕ) (calls : List (Call × ℤ))
      → All (IsOwnCall owner) calls
      → IsValid c owner (call_methods c calls (initial generation))
  call_methods-IsValid generation calls own = calls_keep calls (initial generation) own (record {
    held = record { exclusive = tt; linked = λ layer. refl; owned = tt; each = tt };
    queued = record {
      queue = tt;
      room = omega arith;
      markers = omega arith;
      rate = IsWithinRate-initially c.global_rate_limit;
      layer_rate = λ layer. IsWithinRate-initially (c.layer_rate_limits layer);
    };
  })
