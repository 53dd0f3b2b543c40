-- ===== src/Tests/Avatar.antt =====
-- The presentation scheduler on a renderer with neutral cues, two starts in ten ticks, and a queue
-- of two.
use eeveetuber.Common.{
  ℕ, ◌+◌, ◌<◌, ◌≡◌, ap, refl, subst, Bool, true, false, Option, none, some, List, [], ◌∷◌, All,
  ◌==◌, if◌then◌else◌, arith,
}
use eeveetuber.Common.Int.{ℤ, pos}
use eeveetuber.Avatar.Presentation.{
  PresentationLayer, affect, gesture, gaze, posture, CuePriority, model, speech_sync, reactive_idle,
  PresentationCue, ActiveLease, disconnected,
}
use eeveetuber.Avatar.Scheduler.State.{Config, Scheduler, initial, layer_rank, find_lease}
use eeveetuber.Avatar.Scheduler.Leasing.{restore_neutrals}
use eeveetuber.Avatar.Scheduler.Methods.{submit, advance_generation}
use eeveetuber.Avatar.Scheduler.Invariant.{IsValid, IsOwnFactory}
use eeveetuber.Avatar.Scheduler.Reachable.{
  Call, submitted, ticked, disconnecting, reconnected, call_methods, call_methods-IsValid,
}
use eeveetuber.Avatar.Scheduler.Advance.{advance_generation-fresh}
use eeveetuber.Avatar.Scheduler.Submission.{submit-spares_higher}

abbrev layer_of : ℕ → PresentationLayer
layer_of id =
    if id == 100
    then affect
    else (if id == 101 then gaze else (if id == 103 then posture else gesture))

abbrev make_cue : ℕ → PresentationLayer → CuePriority → ℕ → Bool → PresentationCue
make_cue id layer priority generation neutral = record {
  cue_id = id;
  generation = generation;
  layer = layer;
  priority = priority;
  requested_at = pos 0;
  not_after = none;
  lease_s = none;
  resources = [];
  cooldown_key = none;
  cooldown_s = pos 0;
  audio_binding = none;
  neutral = neutral;
  limits_exempt = false;
}

abbrev neutral_cue : PresentationLayer → ℕ → ℤ → PresentationCue
neutral_cue layer generation now =
    make_cue (100 + layer_rank layer) layer reactive_idle generation true

abbrev limited : Config
limited = record {
  global_rate_limit = some (record { max_starts = 2; window_s = pos 10 });
  layer_rate_limits = λ _. none;
  max_pending = 2;
  max_audio_markers = 4;
  neutral_factory = some neutral_cue;
}

neutral_cue-owned :
    (layer : PresentationLayer) (generation : ℕ) (now : ℤ)
    → layer_of (neutral_cue layer generation now).cue_id ≡ (neutral_cue layer generation now).layer
neutral_cue-owned affect generation now = refl
neutral_cue-owned gesture generation now = refl
neutral_cue-owned gaze generation now = refl
neutral_cue-owned posture generation now = refl

limited-IsOwnFactory : IsOwnFactory limited layer_of
limited-IsOwnFactory factory e layer generation now =
    subst
      (λ (f : PresentationLayer → ℕ → ℤ → PresentationCue).
        layer_of (f layer generation now).cue_id ≡ (f layer generation now).layer)
      (ap
        (λ (o : Option (PresentationLayer → ℕ → ℤ → PresentationCue)). elim o [
          | none ↦ neutral_cue
          | some f ↦ f
        ])
        e)
      (neutral_cue-owned layer generation now)

abbrev wave : PresentationCue
wave = make_cue 1 gesture model 1 false

abbrev speak : PresentationCue
speak = make_cue 2 gesture speech_sync 1 false

abbrev show : List (Call × ℤ)
show =
    (submitted wave, pos 1)
    ∷ (submitted speak, pos 2)
    ∷ (ticked, pos 3)
    ∷ (disconnecting disconnected, pos 4)
    ∷ (reconnected, pos 5)
    ∷ []

call_methods-IsValid_example : IsValid limited layer_of (call_methods limited show (initial 1))
call_methods-IsValid_example =
    call_methods-IsValid limited layer_of limited-IsOwnFactory 1 show
      (refl, (refl, (tt, (tt, (tt, tt)))))

-- The renderer speaks, at generation 1.
abbrev speaking : Scheduler
speaking = call_methods limited ((submitted speak, pos 1) ∷ []) (initial 1)

speaking-IsValid : IsValid limited layer_of speaking
speaking-IsValid =
    call_methods-IsValid limited layer_of limited-IsOwnFactory 1 ((submitted speak, pos 1) ∷ [])
      (refl, tt)

abbrev speech : ActiveLease
speech = record { cue = speak; started_at = pos 1; expires_at = none }

speech_found : find_lease 2 speaking.active ≡ some speech
unfolding submit find_lease restore_neutrals
speech_found = refl

speaking_generation : speaking.generation < 2
unfolding submit restore_neutrals
speaking_generation = omega arith

abbrev later_wave : PresentationCue
later_wave = make_cue 3 gesture model 1 false

-- The wave is refused, and the speech is still there.
submit-spares_higher_example :
    find_lease 2 (submit limited later_wave (pos 5) speaking).0.active ≡ some speech
submit-spares_higher_example =
    submit-spares_higher limited layer_of 2 speech later_wave (pos 5) speaking limited-IsOwnFactory
      refl speaking-IsValid speech_found refl (omega arith)

advance_generation-fresh_example :
    ((advance_generation limited 2 (pos 6) speaking).0.generation ≡ 2)
    × (((advance_generation limited 2 (pos 6) speaking).0.pending ≡ [])
        × (((advance_generation limited 2 (pos 6) speaking).0.audio_markers ≡ [])
            × All
                (λ x. x.cue.generation ≡ 2)
                (advance_generation limited 2 (pos 6) speaking).0.active))
advance_generation-fresh_example =
    advance_generation-fresh limited layer_of 2 (pos 6) speaking limited-IsOwnFactory
      speaking-IsValid speaking_generation
