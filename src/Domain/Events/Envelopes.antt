-- ===== src/Domain/Events/Envelopes.antt =====
-- What validation and the two updates of an envelope guarantee (src/eeveetuber/domain/events.py).
use eeveetuber.Common.{
  ℕ, ◌≡◌, refl, inl, inr, Option, none, some, arith, ◌≢◌, ◌⊎◌, ◌∙◌, ap, Option-cases,
}
use native.Mathlib.Decide.{ℕ_discrete}
use eeveetuber.Common.Int.{ℤ, pos}
use eeveetuber.Common.Result.{ok, err, ◌>>=◌}
use eeveetuber.Common.Text.{Str}
use eeveetuber.Domain.Events.{
  EventEnvelope, foreign_session, check, validate, with_sequence, bind_session, for_session,
}

-- The check of an envelope reads neither its session nor, beyond the sign, its sequence.
check_restamped :
    (t : Str) (v m : ℤ) (a : Option Str) (s : Option ℤ) (n : ℕ)
    → check t v m a s ≡ ok tt
    → check t v m a (some (pos n)) ≡ ok tt
unfolding check
check_restamped t v m a s n h = ground arith

module _ {P : Type 0} where
  -- An envelope that its own checks accept.
  abbrev pub IsValid : EventEnvelope P → Type 0
  IsValid e = check e.event_type e.schema_version e.monotonic_at_ms e.actor_id e.sequence ≡ ok tt

  -- The copy that a session stamps.
  abbrev pub stamped_as : ℕ → ℕ → EventEnvelope P → EventEnvelope P
  stamped_as sid n e = record e { session_id = some sid; sequence = some (pos n) }

  with_sequence_lem :
      (n : ℕ) (e : EventEnvelope P)
      → IsValid e
      → with_sequence (pos n) e ≡ ok (record e { sequence = some (pos n) })
  unfolding with_sequence validate
  with_sequence_lem n e h = ground (
    arith,
    check_restamped e.event_type e.schema_version e.monotonic_at_ms e.actor_id e.sequence n,
  )

  bind_session_lem :
      (own : Option ℕ) (sid : ℕ) (e : EventEnvelope P)
      → e.session_id ≡ own
      → IsValid e
      → ((own ≡ none) ⊎ (own ≡ some sid)
          → bind_session own sid e ≡ ok (record e { session_id = some sid }))
        × ((other : ℕ)
            → own ≡ some other
            → other ≢ sid
            → bind_session own sid e ≡ err (foreign_session other sid))
  unfolding bind_session validate
  bind_session_lem none sid e q h = (λ _. ground arith, λ other p. absurd (cc))
  bind_session_lem (some own) sid e q h = (λ p. ground arith, λ other p ne. ground arith)

  -- A valid envelope that has no session, or this one, is bound to the session with every other
  -- field unchanged; an envelope of another session is refused with an error that names both.
  pub for_session_lem :
      (sid : ℕ) (e : EventEnvelope P)
      → IsValid e
      → (((e.session_id ≡ none) ⊎ (e.session_id ≡ some sid))
          × (for_session sid e ≡ ok (record e { session_id = some sid })))
        ⊎ ((other : ℕ) × (e.session_id ≡ some other)
            × (other ≢ sid)
            × (for_session sid e ≡ err (foreign_session other sid)))
  unfolding for_session
  for_session_lem sid e h =
      let bind = bind_session_lem e.session_id sid e refl h in
      elim (Option-cases e.session_id) [
        | inl unbound ↦ inl (inl unbound, bind.0 (inl unbound))
        | inr (other, own) ↦ elim (ℕ_discrete other sid) [
          | yes same ↦ inl (inr (own ∙ ap some same), bind.0 (inr (own ∙ ap some same)))
          | no foreign ↦ inr (other, own, foreign, bind.1 other own foreign)
        ]
      ]

  -- Binding a valid envelope to its session and then numbering it changes these two fields and
  -- nothing else, and the result is valid again.
  pub with_sequence-for_session :
      (sid n : ℕ) (e : EventEnvelope P)
      → IsValid e
      → (e.session_id ≡ none) ⊎ (e.session_id ≡ some sid)
      → ((for_session sid e >>= λ scoped. with_sequence (pos n) scoped) ≡ ok (stamped_as sid n e))
        × IsValid (stamped_as sid n e)
  unfolding for_session
  with_sequence-for_session sid n e h own =
      let bound = (bind_session_lem e.session_id sid e refl h).0 own in
      (
        rw bound (with_sequence_lem n (record e { session_id = some sid }) h),
        check_restamped e.event_type e.schema_version e.monotonic_at_ms e.actor_id e.sequence n h,
      )
