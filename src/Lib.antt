-- ===== src/Lib.antt =====
-- A model of the realtime core of eeveetuber, a live character server in Python.
--
-- The program. A session actor (src/eeveetuber/runtime/session.py) owns one live session: it takes
-- events (src/eeveetuber/domain/events.py) into a bounded inbox, hands them to a handler one at a
-- time, and publishes results to a bounded outbox; both are priority mailboxes
-- (src/eeveetuber/runtime/mailbox.py). Each foreground turn advances a cancellation generation
-- (src/eeveetuber/runtime/cancellation.py), so that late results of an earlier turn are refused. The
-- actor also drives the interaction state of the character (src/eeveetuber/domain/interaction.py).
-- Microphone audio arrives as binary frames (src/eeveetuber/api/input_audio_frames.py), becomes PCM
-- values (src/eeveetuber/media/types.py), and is cut into utterances by an energy detector
-- (src/eeveetuber/media/vad.py). What the character shows is arbitrated by a scheduler of
-- presentation cues (src/eeveetuber/avatar/scheduler.py), which has one lease for each layer. The
-- context of a turn is compiled under budgets of tokens (src/eeveetuber/memory/context.py), beside
-- the recent conversation (src/eeveetuber/application/conversation_history.py), and the model's text
-- is cut into speech segments as it arrives (src/eeveetuber/dialogue/assembler.py); the synthesized
-- audio leaves as binary frames (src/eeveetuber/api/audio_frames.py).
--
-- The modules. Each file under verification/ says in its first lines which code it is about.
--   Common                    tests, lists, integers, results, text and the `Action` monad (state and
--                             errors: what was written before a raise stays written)
--   Domain.Interaction        domain/interaction.py: `InteractionState`, the table `allowed_from`
--                             (`_TRANSITIONS`), `StateMachine`, `transition`
--   Domain.Events             domain/events.py: `EventEnvelope`, `check` (`__post_init__`),
--                             `with_sequence`, `for_session`
--   Runtime.Cancellation      runtime/cancellation.py: `CancellationSource` with a store of the shared
--                             `_CancellationState` objects, to which tokens hold references;
--                             `advance`, `cancel_current`, `close`, `accepts`, `ensure_current`
--   Runtime.Mailbox           runtime/mailbox.py: `try_put` (`_try_put_locked`), `put`, `get`, `close`;
--                             Queue has the choices among entries, Waiting has `put_wait`, of which
--                             Lossless is the specification without displacement
--   Runtime.Supervisor        runtime/session.py, `SessionSupervisor`
--   Runtime.Session           runtime/session.py, `SessionActor`: State has its data and `create`,
--                             Stop has `stop` and the parts of the `finally` block and of the
--                             clean-up between their awaits, Steps the calls as data and the whole
--                             block (`run_finally`)
--   Media.Types               media/types.py: `PcmFormat`, `PcmFrame`, `PcmUtterance`, their checks
--   Media.Vad                 media/vad.py: `process`, `finish_stream` and what they call
--   Api.InputAudioFrames      api/input_audio_frames.py: `encode_voice_input_frame`,
--                             `decode_voice_input_frame`; Bytes has the `Struct` fields
--   Api.AudioFrames           api/audio_frames.py: `encode_audio_frame`, `decode_audio_frame`
--   Memory.Promotion          memory/promotion.py: `classify` (`PromotionPolicy._classify`)
--   Memory.Context            memory/context.py: `compile` (`ContextCompiler.compile`); Estimator has
--                             `Utf8HeuristicTokenEstimator`, Cache `ContextSnapshotCache`
--   Dialogue.Assembler        dialogue/assembler.py: `push`, `finish`, `search` (`_BOUNDARY.search`)
--   Application.ConversationHistory  application/conversation_history.py: `compile`, `fit_message`,
--                             `search_size` (the loop of `_fit_message`)
--   Avatar.Presentation       avatar/presentation.py: cues, leases, events, results
--   Avatar.Scheduler          avatar/scheduler.py: State has the data, Leasing the loops over leases
--                             (`_expire`, `_restore_neutrals`), this file the starts
--                             (`_attempt_start`), Methods the public methods; the other children
--                             are the proofs
--   Tests                     the theorems at concrete inputs
--
-- The model. A method is a function of the object's state that returns the new state and its result
-- or its exception. Python's `int` is ℤ where a sign can occur and ℕ where the constructors refuse a
-- negative number; identifiers (`UUID`) are natural numbers, and so are times, but for the scheduler's,
-- which are integers; `bytes` are lists of numbers, and a text is the list of its code points.
-- Tasks interleave only at an `await`, so a call between two awaits is one step, and a history is a
-- list of such steps in any order. The `finally` block of the actor task and the clean-up of `stop`
-- are several steps, and no step is guarded by where its task stands: the lists of steps hold more
-- interleavings than the event loop can produce. A wait for room in a mailbox is a loop over
-- rounds: a round is one attempt, the calls of other tasks that follow it, and whether the waiter
-- was cancelled. The list of rounds bounds the loop; a wait that outlives its list is `pending`,
-- and the theorems on it hold for every list. The loop of the assembler has one more unit of fuel
-- than the buffer has characters, the binary search of the history one more than its range; the
-- theorems on them show that this is enough. The last loop of `truncate` has the length of its
-- text, and never runs. All other loops are by recursion on a list. The handler, the observer, the
-- key and the coalescer of a mailbox, `uuid5`, the estimator of the context compiler and the
-- `json.dumps` of the history are parameters.
--
-- Not modelled: the lock and the event loop themselves; the JSON payload of an envelope, which is a
-- type parameter, and its dictionary form; `SessionActorContext`, which passes calls on, and the
-- stopping of sessions by `SessionSupervisor`; the cancellation and the awaiting of the child tasks
-- themselves; transcripts of speech recognition; the error that encoding a lone surrogate raises in
-- the token estimator, whose texts are encodable; the rendered text of a context snapshot, which is
-- serialized by a library; the floats of presentation cues, whose times are whole ticks here; the
-- HTTP routes, the provider adapters, storage, configuration and logging, which are calls of
-- libraries; the asynchronous pipeline of the dialogue package and the services of the application
-- package; and the director of the avatar package with its catalogue of intents.
pub mod Common
pub mod Domain
pub mod Runtime
pub mod Media
pub mod Api
pub mod Memory
pub mod Application
pub mod Tests
pub mod Avatar
pub mod Dialogue
