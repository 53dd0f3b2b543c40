-- ===== src/Runtime/Supervisor.antt =====
-- `SessionSupervisor` of src/eeveetuber/runtime/session.py. A dictionary of actors is a list of
-- references to them; an actor keeps the identifier that it was created with. A call is taken apart at
-- its awaits: `start_session` registers an actor, and takes it out again where its start fails; a watcher
-- ends when its actor has stopped. The sets of watchers only keep tasks alive and are left out, and the
-- stopping itself is `SessionActor.stop`.
use eeveetuber.Common.{
  ℕ, ◌≡◌, refl, Bool, true, false, not, Option, none, some, List, [], ◌∷◌, ◌++◌, if_cases,
  if◌then◌else◌, ◌==◌, any, any-All, keep, All, All-snoc, All-keep,
}
use eeveetuber.Common.Result.{Result, ok, err}
use eeveetuber.Common.Action.{Action}

-- A reference to an actor, and its session's identifier.
pub record ActorRef : Type 0 where
  pub reference : ℕ
  pub session_id : ℕ

pub record Supervisor (F : Type 0) : Type 0 where
  pub sessions : List ActorRef
  pub failures : List (ℕ × F)
  pub closed : Bool

pub data SupervisorError : Type 0 where
  supervisor_closed session_exists : SupervisorError

abbrev has_session : ℕ → ActorRef → Bool
has_session id a = a.session_id == id

-- `get`
unfoldable pub get_session : ℕ → List ActorRef → Option ActorRef
get_session id [] = none
get_session id (a ∷ rest) = if has_session id a then some a else get_session id rest

abbrev pub is_same_actor : ActorRef → Option ActorRef → Bool
is_same_actor a none = false
is_same_actor a (some b) = b.reference == a.reference

pub data SupervisorStep (F : Type 0) : Type 0 where
  registering start_failing : ActorRef → SupervisorStep F
  stopped_with : Option F → ActorRef → SupervisorStep F
  shutting_down : SupervisorStep F

-- No two sessions have an identifier.
abbrev pub IsDistinct : List ActorRef → Type 0
IsDistinct [] = Unit
IsDistinct (a ∷ rest) = All (λ b. has_session b.session_id a ≡ false) rest × IsDistinct rest

IsDistinct-keep :
    (test : ActorRef → Bool) (xs : List ActorRef) → IsDistinct xs → IsDistinct (keep test xs)
IsDistinct-keep test [] h = tt
IsDistinct-keep test (a ∷ xs) (apart, rest) =
    if_cases IsDistinct (test a)
      (λ _. (
        All-keep (λ b. has_session b.session_id a ≡ false) test xs apart,
        IsDistinct-keep test xs rest,
      ))
      (λ _. IsDistinct-keep test xs rest)

IsDistinct-append :
    (xs : List ActorRef) (a : ActorRef)
    → IsDistinct xs
    → All (λ b. has_session a.session_id b ≡ false) xs
    → IsDistinct (xs ++ a ∷ [])
IsDistinct-append [] a h free = (tt, tt)
IsDistinct-append (b ∷ xs) a (apart, rest) (other, free) = (
  All-snoc (λ c. has_session c.session_id b ≡ false) xs a apart other,
  IsDistinct-append xs a rest free,
)

abbrev AreFound : List ActorRef → List ActorRef → Type 0
AreFound xs ys = All (λ a. get_session a.session_id xs ≡ some a) ys

module _ {F : Type 0} where
  abbrev pub new_supervisor : Supervisor F
  new_supervisor = record { sessions = []; failures = []; closed = false }

  -- The first part of `start_session`.
  unfoldable pub register : ActorRef → Action (Supervisor F) SupervisorError (Unit {0})
  register a s =
      if s.closed
      then (s, err supervisor_closed)
      else (if any (has_session a.session_id) s.sessions
          then (s, err session_exists)
          else (record s { sessions = s.sessions ++ a ∷ [] }, ok tt))

  -- `self._sessions.pop(actor.session_id, None)`
  abbrev pub take_out : ActorRef → Supervisor F → Supervisor F
  take_out a s = record s { sessions = keep (λ b. not (has_session a.session_id b)) s.sessions }

  abbrev pub set_failure : ℕ → F → List (ℕ × F) → List (ℕ × F)
  set_failure id failure entries = keep (λ entry. not (entry.0 == id)) entries ++ (id, failure) ∷ []

  abbrev pub note_failure : Option F → ActorRef → Supervisor F → Supervisor F
  note_failure none a s = s
  note_failure (some failure) a s = record s {
    failures = set_failure a.session_id failure s.failures;
  }

  -- `_watch`, once the actor has stopped: with the failure of a failed actor.
  unfoldable pub watch : Option F → ActorRef → Supervisor F → Supervisor F
  unfolding get_session
  watch failure a s =
      let s₁ = note_failure failure a s in
      if is_same_actor a (get_session a.session_id s.sessions) then take_out a s₁ else s₁

  -- The first part of `shutdown`.
  abbrev pub close_supervisor : Supervisor F → Supervisor F
  close_supervisor s = record s { closed = true }

  abbrev pub take_step : SupervisorStep F → Supervisor F → Supervisor F
  take_step (registering a) s = (register a s).0
  take_step (start_failing a) s = take_out a s
  take_step (stopped_with failure a) s = watch failure a s
  take_step shutting_down s = close_supervisor s

  abbrev pub take_steps : List (SupervisorStep F) → Supervisor F → Supervisor F
  take_steps [] s = s
  take_steps (step ∷ steps) s = take_steps steps (take_step step s)

  -- What a step keeps, for a property of the registered actors.
  module _ (P : ActorRef → Type 0) where
    abbrev IsKept : Supervisor F → Supervisor F → Type 0
    IsKept s t =
        IsDistinct t.sessions
        × (s.closed ≡ true → All P s.sessions → (t.closed ≡ true) × All P t.sessions)

    note_failure-IsKept :
        (failure : Option F) (a : ActorRef) (s : Supervisor F)
        → IsDistinct s.sessions
        → IsKept s (note_failure failure a s)
    note_failure-IsKept none a s h = (h, λ closed p. (closed, p))
    note_failure-IsKept (some failure) a s h = (h, λ closed p. (closed, p))

    take_out-IsKept : (a : ActorRef) (s t : Supervisor F) → IsKept s t → IsKept s (take_out a t)
    take_out-IsKept a s t h =
        let others = λ (b : ActorRef). not (has_session a.session_id b) in
        (
          IsDistinct-keep others t.sessions h.0,
          λ closed p. let q = h.1 closed p in (q.0, All-keep P others t.sessions q.1),
        )

    take_step-IsKept :
        (step : SupervisorStep F) (s : Supervisor F)
        → IsDistinct s.sessions
        → IsKept s (take_step step s)
    unfolding register watch
    take_step-IsKept (registering a) s h =
        let Q = λ (r : Supervisor F × Result SupervisorError (Unit {0})). IsKept s r.0 in
        if_cases Q s.closed (λ _. (h, λ closed p. (closed, p)))
          (λ still_open.
            if_cases Q (any (has_session a.session_id) s.sessions)
              (λ _. (h, λ closed p. (closed, p)))
              (λ free. (
                IsDistinct-append s.sessions a h
                    (any-All (has_session a.session_id) s.sessions free),
                λ closed p. absurd (cc),
              )))
    take_step-IsKept (start_failing a) s h = take_out-IsKept a s s (h, λ closed p. (closed, p))
    take_step-IsKept (stopped_with failure a) s h =
        let noted = note_failure-IsKept failure a s h in
        let s₁ = note_failure failure a s in
        if_cases (IsKept s) (is_same_actor a (get_session a.session_id s.sessions))
          (λ _. take_out-IsKept a s s₁ noted) (λ _. noted)
    take_step-IsKept shutting_down s h = (h, λ closed p. (refl, p))

    take_steps-IsKept :
        (steps : List (SupervisorStep F)) (s : Supervisor F)
        → IsDistinct s.sessions
        → IsKept s (take_steps steps s) × IsDistinct (take_steps steps s).sessions
    take_steps-IsKept [] s h = ((h, λ closed p. (closed, p)), h)
    take_steps-IsKept (step ∷ steps) s h =
        let first = take_step-IsKept step s h in
        let (rest, distinct) = take_steps-IsKept steps (take_step step s) first.0 in
        ((distinct, λ closed p. let q = first.1 closed p in rest.1 q.0 q.1), distinct)

    -- A supervisor that is shut down admits no session any more: whatever happened before the
    -- shutdown and happens after it, a property that all actors registered at the shutdown have is
    -- one of all actors registered from then on.
    pub shutdown-admits_none :
        (before after : List (SupervisorStep F))
        → All P (take_steps before new_supervisor).sessions
        → All P (take_steps after (close_supervisor (take_steps before new_supervisor))).sessions
    shutdown-admits_none before after h =
        let s = take_steps before new_supervisor in
        let (_, distinct) = take_steps-IsKept before new_supervisor tt in
        ((take_steps-IsKept after (close_supervisor s) distinct).0.1 refl h).1
