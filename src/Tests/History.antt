-- ===== src/Tests/History.antt =====
-- A conversation of two records under small bounds
-- (src/eeveetuber/application/conversation_history.py). The serialization writes the contents only.
use eeveetuber.Common.{
  ◌≡◌, refl, none, some, true, List, [], ◌∷◌, ◌++◌, arith, leb, length-append, length-take_mono,
  take, false,
}
use eeveetuber.Common.Int.{pos}
use eeveetuber.Common.Text.{Str, codes}
use eeveetuber.Application.ConversationHistory.{
  RecentConversationHistoryPolicy, MessageRecord, RecentHistoryMessage, RecentConversationHistory,
  user, assistant, search_size, cut_message, fit_message, is_fitting, compile, render,
}
use eeveetuber.Application.ConversationHistory.Bounds.{IsBounded, compile-IsBounded}
use eeveetuber.Application.ConversationHistory.Keeping.{IsKept, IsMonotone, fit_message-keeps}

abbrev contents : List RecentHistoryMessage → Str
contents [] = []
contents (m ∷ ms) = m.content ++ contents ms

abbrev policy : RecentConversationHistoryPolicy
policy = record { max_messages = 2; max_chars = 126; max_message_chars = 8; load_timeout_ms = 50 }

abbrev question : MessageRecord
question = record {
  message_id = 1;
  session_id = 7;
  sequence = 1;
  role = user;
  content = codes " how are you? ";
  generation = some (pos 1);
}

abbrev reply : MessageRecord
reply = record question { message_id = 2; sequence = 2; role = assistant; content = codes "well" }

compile-IsBounded_example :
    (history : RecentConversationHistory) × ((compile contents policy (question ∷ reply ∷ []) 7 3
        ≡ some history)
      × IsBounded policy 3 history)
compile-IsBounded_example =
    compile-IsBounded contents policy (question ∷ reply ∷ []) 7 3 (omega arith)

abbrev long_message : RecentHistoryMessage
long_message = record {
  message_id = 1;
  sequence = 1;
  generation = 1;
  role = user;
  content = codes "hello there";
  truncated = false;
}

contents-IsMonotone : IsMonotone contents 122 long_message []
contents-IsMonotone n m h =
    let text = long_message.content in
    omega (
      arith,
      length-append (take n text) [],
      length-append (take m text) [],
      length-take_mono n m text h,
    )

three_fit : is_fitting contents 122 (cut_message long_message 3 ∷ []) ≡ true
unfolding render
three_fit = refl

fit_message-keeps_example :
    (kept : RecentHistoryMessage) × ((fit_message contents 122 long_message [] ≡ some (some kept))
      × IsKept contents 122 long_message [] 3 kept)
fit_message-keeps_example =
    fit_message-keeps contents 122 long_message [] 3 contents-IsMonotone (omega arith) (omega arith)
      three_fit

-- A single character that fits is missed: the search never tries it.
search_misses_one : search_size 6 (λ n. leb n 1) 0 5 none ≡ some none
unfolding search_size
search_misses_one = refl
