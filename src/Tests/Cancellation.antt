-- ===== src/Tests/Cancellation.antt =====
-- Concrete generations of a cancellation source (src/eeveetuber/runtime/cancellation.py).
use eeveetuber.Common.{◌≡◌, ◌⊎◌, refl, Bool, true, false, not, List, [], ◌∷◌, arith}
use eeveetuber.Common.Text.{Str, is_blank}
use eeveetuber.Common.Result.{ok, err}
use eeveetuber.Runtime.Cancellation.{
  CancellationSource, fresh, stale_generation, new, token, cancelled, advance, accepts,
  ensure_current,
}
use eeveetuber.Runtime.Cancellation.History.{
  Call, advance_call, cancel_call, perform_all, IsValid, gate-eq-token, stale_forever,
  ensure_current-accepts, advance_supersedes, accepts-eq-live,
}

-- "go"
abbrev go : Str
go = 103 ∷ 111 ∷ []

-- What `new (pos 5)` builds.
abbrev source : CancellationSource
source = record { generation = 5; state = 0; closed = false; cells = λ _. fresh; allocated = 1 }

source-IsValid : IsValid 5 source
source-IsValid = record {
  generation_of_state = refl;
  last_allocated = refl;
  superseded = λ k lt. absurd (omega arith);
  closed_cancelled = λ h. absurd (ground arith);
}

abbrev before : List Call
before = advance_call go 1 ∷ []

abbrev after : List Call
after = cancel_call go 2 ∷ advance_call go 3 ∷ []

gate-eq-token_example :
    accepts
      (perform_all after (perform_all before source))
      (token (perform_all before source)).generation
    ≡ not (
        cancelled
          (perform_all after (perform_all before source))
          (token (perform_all before source)))
unfolding new
gate-eq-token_example = gate-eq-token 5 source before after refl

stale_forever_example : accepts (perform_all after source) 4 ≡ false
unfolding accepts
stale_forever_example = stale_forever after source 4 (omega arith) refl

ensure_current-accepts_example :
    ((accepts source 4 ≡ true)
      × (ensure_current source 4 ≡ ok (token source))
      × ((token source).generation ≡ 4))
    ⊎ ((accepts source 4 ≡ false)
        × (b : Bool) × (ensure_current source 4 ≡ err (stale_generation 4 5 b)))
ensure_current-accepts_example = ensure_current-accepts source 4

advance_supersedes_example :
    ((advance go 9 source).1 ≡ ok (token (advance go 9 source).0))
    × ((advance go 9 source).0.generation ≡ 6)
    × (accepts (advance go 9 source).0 5 ≡ false)
    × (accepts (advance go 9 source).0 (advance go 9 source).0.generation ≡ true)
    × (cancelled (advance go 9 source).0 (token source) ≡ true)
unfolding is_blank
advance_supersedes_example = advance_supersedes go 9 5 source source-IsValid refl refl

accepts-eq-live_example : accepts source 5 ≡ not (cancelled source (token source))
accepts-eq-live_example =
    accepts-eq-live 5 source (token source) source-IsValid
      (record { own_generation = refl; allocated = omega arith })
