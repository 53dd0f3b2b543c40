-- ===== src/Tests/Mailbox.antt =====
-- Concrete calls of a mailbox of capacity two (src/eeveetuber/runtime/mailbox.py).
use eeveetuber.Common.{ℕ, ◌≡◌, ◌⊎◌, refl, true, false, none, some, List, [], ◌∷◌, All, arith}
use eeveetuber.Common.Int.{pos}
use eeveetuber.Runtime.Mailbox.{Config, Mailbox, drop_lowest, new, empty, get, received, put, close}
use eeveetuber.Runtime.Mailbox.Queue.{Entry}
use eeveetuber.Runtime.Mailbox.QueueLaws.{Removed}
use eeveetuber.Runtime.Mailbox.Invariant.{IsValid}
use eeveetuber.Runtime.Mailbox.Life.{
  Call, put_call, attempt_call, get_call, perform_all, calls-IsValid,
}
use eeveetuber.Runtime.Mailbox.Delivery.{Before, drain, get-takes_best, close-eq-drain}
use eeveetuber.Runtime.Mailbox.Admission.{Refused, Replaces, put_full-drop_lowest}
use eeveetuber.Runtime.Mailbox.Waiting.{Round}

-- An item is its own priority.
abbrev config : Config ℕ ℕ
config = record {
  capacity = 2;
  overflow = drop_lowest;
  priority_of = λ n. some (pos n);
  coalesce_key = none;
  key_eq = λ _ _. false;
  coalescer = λ old new_item. new_item;
}

abbrev calls : List (Call ℕ)
calls = put_call 3 ∷ put_call 1 ∷ put_call 2 ∷ get_call ∷ attempt_call 7 (some true) true ∷ []

calls-IsValid_example : IsValid config (perform_all config calls empty)
unfolding new
calls-IsValid_example = calls-IsValid (pos 2) config config empty calls refl

abbrev entry : ℕ → ℕ → Entry ℕ
entry n order = record { item = n; priority = pos n; order = order }

-- Full, with the items 3 and 1.
abbrev full : Mailbox ℕ
full = record {
  items = entry 3 0 ∷ entry 1 1 ∷ [];
  next_order = 2;
  closed = false;
  space_available = false;
  accepted = 2;
  dequeued = 0;
  coalesced = 0;
  rejected = 0;
  cancelled = 0;
  evicted = 0;
  discarded_on_close = 0;
  high_watermark = 2;
}

full-IsValid : IsValid config full
full-IsValid = record {
  queue = record {
    bounded = omega arith;
    ordered = (omega arith, (omega arith, omega arith));
    priced = (refl, (refl, tt));
  };
  conserved = refl;
  water = (omega arith, omega arith);
  gate = λ _. refl;
}

get-takes_best_example :
    (e : Entry ℕ) × Removed e full.items (get full).0.items
    × ((get full).1 ≡ received e.item)
    × All (Before e) (get full).0.items
get-takes_best_example = get-takes_best config full full-IsValid (λ p. absurd (ground arith))

close-eq-drain_example : (close true full).1 ≡ drain 2 full
close-eq-drain_example = close-eq-drain full

put_full-drop_lowest_example :
    Refused config 2 (pos 2) full (put config 2 full)
    ⊎ Replaces config 2 (pos 2) full (put config 2 full)
put_full-drop_lowest_example =
    put_full-drop_lowest config 2 (pos 2) full refl refl refl (omega arith)

abbrev rounds : List (Round ℕ)
rounds =
    (record {
      cancelled_before = false;
      accept_if = some true;
      others = get_call ∷ [];
      cancelled_after = false;
    })
    ∷ (record { cancelled_before = false; accept_if = none; others = []; cancelled_after = false })
    ∷ []
