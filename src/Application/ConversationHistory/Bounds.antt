-- ===== src/Application/ConversationHistory/Bounds.antt =====
-- The compiled history is within its policy (src/eeveetuber/application/conversation_history.py).
use eeveetuber.Common.{
  ℕ, suc, ◌-◌, ◌≤◌, ◌<◌, ◌≡◌, ◌∙◌, ap, sym, subst, refl, true, not, ◌&&◌, ◌||◌, Option, none, some,
  List, [], ◌∷◌, arith, if_cases, if◌then◌else◌, ltb, leb→le, ◌==◌, any, sort_by, All, All-append,
  All-drop, length, length-drop, drop, length-take_le, length-take_whole, length-take_positive,
}
use eeveetuber.Common.Int.{ℤ, pos, negsuc}
use eeveetuber.Common.Text.{Str, strip}
use eeveetuber.Application.ConversationHistory.{
  RecentConversationHistoryPolicy, enabled, MessageRecord, RecentHistoryMessage,
  RecentConversationHistory, before_record, is_spoken, earlier_generation, eligible_by,
  eligible_message, gather, cut_message, render, is_fitting, cut_by, fit_message, put_first,
  fit_next, select_each, history_of, compile,
}
use eeveetuber.Application.ConversationHistory.Search.{IsFit, search_size-IsFit}

-- A message of the user or the assistant, of an earlier generation, not empty and not too long.
abbrev pub IsEligible : ℕ → ℕ → RecentHistoryMessage → Type 0
IsEligible max_message_chars before_generation m =
    ((length m.content ≤ max_message_chars) × (0 < length m.content))
    × ((m.generation < before_generation) × (is_spoken m.role ≡ true))

earlier_generation-bound :
    (found : Option ℤ) (before_generation n : ℕ)
    → earlier_generation found before_generation ≡ some n
    → n < before_generation
earlier_generation-bound none before_generation n e = absurd (cc)
earlier_generation-bound (some (negsuc m)) before_generation n e = absurd (cc)
earlier_generation-bound (some (pos m)) before_generation n e = ground arith

eligible_by-IsEligible :
    (found : Option ℕ) (max_message_chars before_generation : ℕ) (r : MessageRecord)
    → 0 < max_message_chars
    → ((n : ℕ) → found ≡ some n → n < before_generation)
    → All (IsEligible max_message_chars before_generation) (eligible_by found max_message_chars r)
eligible_by-IsEligible none max_message_chars before_generation r positive earlier = tt
eligible_by-IsEligible (some n) max_message_chars before_generation r positive earlier =
    let content = strip r.content in
    if_cases (All (IsEligible max_message_chars before_generation))
      (is_spoken r.role && ltb 0 (length content))
      (λ h.
        let spoken : is_spoken r.role ≡ true = ground arith in
        let full : 0 < length content = ground arith in
        (
          (
            (
              length-take_le max_message_chars content,
              length-take_positive max_message_chars content positive full,
            ),
            (earlier n refl, spoken),
          ),
          tt,
        ))
      (λ _. tt)

gather-IsEligible :
    (policy : RecentConversationHistoryPolicy) (session_id before_generation : ℕ)
    (seen_ids : List ℕ) (records : List MessageRecord)
    → 0 < policy.max_message_chars
    → All
        (IsEligible policy.max_message_chars before_generation)
        (gather policy session_id before_generation seen_ids records)
unfolding gather eligible_message
gather-IsEligible policy session_id before_generation seen_ids [] positive = tt
gather-IsEligible policy session_id before_generation seen_ids (r ∷ records) positive =
    let skipped = any (λ id. id == r.message_id) seen_ids || not (r.session_id == session_id) in
    let seen = if skipped then seen_ids else r.message_id ∷ seen_ids in
    let rest = gather-IsEligible policy session_id before_generation seen records positive in
    let P = IsEligible policy.max_message_chars before_generation in
    if_cases (All P) skipped (λ _. rest)
      (λ _.
        All-append P (eligible_message policy before_generation r)
          (gather policy session_id before_generation seen records)
          (eligible_by-IsEligible (earlier_generation r.generation before_generation)
            policy.max_message_chars before_generation r positive
            (λ n e. earlier_generation-bound r.generation before_generation n e))
          rest)

module _ (dumps : List RecentHistoryMessage → Str) (max_message_chars before_generation : ℕ) where
  abbrev IsShown : ℕ → List RecentHistoryMessage → Type 0
  IsShown max_chars [] = Unit
  IsShown max_chars (m ∷ ms) = length (render dumps (m ∷ ms)) ≤ max_chars

  -- What was selected is eligible and fits.
  abbrev IsSelected : ℕ → List RecentHistoryMessage → Type 0
  IsSelected max_chars ms =
      All (IsEligible max_message_chars before_generation) ms × IsShown max_chars ms

  abbrev IsPut : ℕ → List RecentHistoryMessage → Option (Option RecentHistoryMessage) → Type 0
  IsPut max_chars selected fitted =
      (ms : List RecentHistoryMessage) × ((put_first dumps fitted selected ≡ some ms)
        × ((length ms ≤ suc (length selected)) × IsSelected max_chars ms))

  cut_by-IsPut :
      (max_chars : ℕ) (m : RecentHistoryMessage) (selected : List RecentHistoryMessage)
      (size : Option ℕ)
      → IsEligible max_message_chars before_generation m
      → IsSelected max_chars selected
      → IsFit (λ n. is_fitting dumps max_chars (cut_message m n ∷ selected)) size
      → IsPut max_chars selected (cut_by dumps m (some size))
  cut_by-IsPut max_chars m selected none good h fit = (selected, (refl, (omega arith, h)))
  cut_by-IsPut max_chars m selected (some n) good h (positive, fit) =
      let short = length-take_whole n m.content in
      let cut = cut_message m n in
      let eligible : IsEligible max_message_chars before_generation cut = (
        (omega (arith, short, good.0.0), length-take_positive n m.content positive good.0.1),
        good.1,
      ) in
      (
        cut ∷ selected,
        (
          refl,
          (
            omega arith,
            ((eligible, h.0), leb→le (length (render dumps (cut ∷ selected))) max_chars fit),
          ),
        ),
      )

  fit_next-IsTotal :
      (max_chars : ℕ) (m : RecentHistoryMessage) (selected : List RecentHistoryMessage)
      → IsEligible max_message_chars before_generation m
      → IsSelected max_chars selected
      → (ms : List RecentHistoryMessage) × ((fit_next dumps max_chars m (some selected) ≡ some ms)
          × ((length ms ≤ suc (length selected)) × IsSelected max_chars ms))
  unfolding fit_next fit_message
  fit_next-IsTotal max_chars m selected good h =
      let fits = λ (n : ℕ). is_fitting dumps max_chars (cut_message m n ∷ selected) in
      let top = suc (length m.content) in
      if_cases (IsPut max_chars selected) (is_fitting dumps max_chars (m ∷ selected))
        (λ whole. (
          m ∷ selected,
          (
            refl,
            (
              omega arith,
              ((good, h.0), leb→le (length (render dumps (m ∷ selected))) max_chars whole),
            ),
          ),
        ))
        (λ _.
          let (size, (found, fit)) = search_size-IsFit fits (suc top) top (omega arith) in
          subst (λ o. IsPut max_chars selected (cut_by dumps m o)) (sym found)
            (cut_by-IsPut max_chars m selected size good h fit))

  select_each-IsTotal :
      (max_chars : ℕ) (xs : List RecentHistoryMessage)
      → All (IsEligible max_message_chars before_generation) xs
      → (ms : List RecentHistoryMessage) × ((select_each dumps max_chars xs ≡ some ms)
          × ((length ms ≤ length xs) × IsSelected max_chars ms))
  unfolding select_each
  select_each-IsTotal max_chars [] good = ([], (refl, (omega arith, (tt, tt))))
  select_each-IsTotal max_chars (x ∷ xs) good =
      let (selected, (found, (fewer, h))) = select_each-IsTotal max_chars xs good.1 in
      let (ms, (returned, (more, shown))) = fit_next-IsTotal max_chars x selected good.0 h in
      (ms, (ap (fit_next dumps max_chars x) found ∙ returned, (omega (arith, more, fewer), shown)))

-- What a policy promises of a history.
pub record IsBounded (policy : RecentConversationHistoryPolicy) (before_generation : ℕ)
    (history : RecentConversationHistory) : Type 0 where
  pub few : length history.messages ≤ policy.max_messages
  pub short : length history.rendered_context ≤ policy.max_chars
  pub eligible : All (IsEligible policy.max_message_chars before_generation) history.messages

history_of-IsBounded :
    (dumps : List RecentHistoryMessage → Str) (policy : RecentConversationHistoryPolicy)
    (before_generation : ℕ) (ms : List RecentHistoryMessage)
    → length ms ≤ policy.max_messages
    → IsSelected dumps policy.max_message_chars before_generation policy.max_chars ms
    → (history : RecentConversationHistory) × ((history_of dumps (some ms) ≡ some history)
        × IsBounded policy before_generation history)
history_of-IsBounded dumps policy before_generation [] few h =
    (_, (refl, record { few = omega arith; short = omega arith; eligible = tt }))
history_of-IsBounded dumps policy before_generation (m ∷ ms) few h =
    (_, (refl, record { few = few; short = h.1; eligible = h.0 }))

-- For every policy whose messages may have a character and all records, `compile` returns: its
-- searches end, the history has at most `max_messages` messages, its rendered text has at most
-- `max_chars` characters whatever `json.dumps` returns, and each message is one of the user or the
-- assistant, of an earlier generation than the given one, not empty and of at most
-- `max_message_chars` characters.
pub compile-IsBounded :
    (dumps : List RecentHistoryMessage → Str) (policy : RecentConversationHistoryPolicy)
    (records : List MessageRecord) (session_id before_generation : ℕ)
    → 0 < policy.max_message_chars
    → (history : RecentConversationHistory) × ((compile dumps policy records session_id
            before_generation
          ≡ some history)
        × IsBounded policy before_generation history)
unfolding compile
compile-IsBounded dumps policy records session_id before_generation positive =
    let P = IsEligible policy.max_message_chars before_generation in
    let eligible = gather policy session_id before_generation [] (sort_by before_record records) in
    let skip = length eligible - policy.max_messages in
    let recent = drop skip eligible in
    let good =
      gather-IsEligible policy session_id before_generation [] (sort_by before_record records)
        positive in
    let (ms, (selected, (fewer, h))) =
      select_each-IsTotal dumps policy.max_message_chars before_generation policy.max_chars recent
        (All-drop P skip eligible good) in
    let few : length ms ≤ policy.max_messages =
      omega (arith, fewer, length-drop skip eligible (omega arith)) in
    let (history, (shown, bounded)) =
      history_of-IsBounded dumps policy before_generation ms few h in
    if_cases
      (λ (o : Option RecentConversationHistory).
        (r : RecentConversationHistory) × ((o ≡ some r) × IsBounded policy before_generation r))
      (enabled policy) (λ _. (history, (ap (history_of dumps) selected ∙ shown, bounded)))
      (λ _. (_, (refl, record { few = omega arith; short = omega arith; eligible = tt })))
