-- ===== src/Application/ConversationHistory/Keeping.antt =====
-- How much of a message that is too long is kept (src/eeveetuber/application/conversation_history.py).
use eeveetuber.Common.{
  ℕ, zero, suc, ◌≤◌, ◌<◌, ◌≡◌, sym, subst, refl, ◌⊎◌, inl, inr, Bool, true, Option, none, some,
  List, [], ◌∷◌, ◌++◌, arith, if_cases, length, length-append, take,
}
use eeveetuber.Common.Text.{Str}
use eeveetuber.Application.ConversationHistory.{
  RecentHistoryMessage, cut_message, opening, closing, render, is_fitting, cut_by, fit_message,
}
use eeveetuber.Application.ConversationHistory.Search.{
  IsFit, IsLargest, search_size-IsFit, search_size-IsLargest,
}

length-take_least : (n b : ℕ) (s : Str) → n ≤ b → n ≤ length s → n ≤ length (take b s)
length-take_least n zero s h l = omega arith
length-take_least n (suc b) [] h l = omega arith
length-take_least zero (suc b) (c ∷ s) h l = omega arith
length-take_least (suc n) (suc b) (c ∷ s) h l =
    omega (arith, length-take_least n b s (omega arith) (omega arith))

length-framed :
    (front back s t : Str)
    → length s ≤ length t
    → length (front ++ 10 ∷ (s ++ back)) ≤ length (front ++ 10 ∷ (t ++ back))
length-framed [] back s t h = omega (arith, length-append s back, length-append t back)
length-framed (c ∷ front) back s t h = omega (arith, length-framed front back s t h)

module _ (dumps : List RecentHistoryMessage → Str) (max_chars : ℕ) (message : RecentHistoryMessage)
    (newer_messages : List RecentHistoryMessage) where
  -- The serialization of a longer content is not shorter.
  abbrev pub IsMonotone : Type 0
  IsMonotone =
      (n m : ℕ)
      → n ≤ m
      → length (dumps (cut_message message n ∷ newer_messages))
        ≤ length (dumps (cut_message message m ∷ newer_messages))

  length-render :
      (ms ns : List RecentHistoryMessage)
      → length (dumps ms) ≤ length (dumps ns)
      → length (render dumps ms) ≤ length (render dumps ns)
  unfolding render
  length-render ms ns h = length-framed opening (10 ∷ closing) (dumps ms) (dumps ns) h

  abbrev fits_cut : ℕ → Bool
  fits_cut n = is_fitting dumps max_chars (cut_message message n ∷ newer_messages)

  -- What is kept, if at least `n` characters can be: the message itself or a cut of it, which fits
  -- before the newer messages and has at least `n` characters.
  abbrev pub IsKept : ℕ → RecentHistoryMessage → Type 0
  IsKept n kept =
      ((kept ≡ message) ⊎ ((size : ℕ) × (kept ≡ cut_message message size)))
      × (is_fitting dumps max_chars (kept ∷ newer_messages) ≡ true)
      × (n ≤ length kept.content)

  cut_by-keeps :
      (n : ℕ) (size : Option ℕ)
      → 1 < n
      → n ≤ length message.content
      → fits_cut n ≡ true
      → IsFit fits_cut size
      → IsLargest fits_cut (suc (length message.content)) size
      → (kept : RecentHistoryMessage) × ((cut_by dumps message (some size) ≡ some (some kept))
          × IsKept n kept)
  cut_by-keeps n none large within fit good h = absurd (h n (omega arith) large fit)
  cut_by-keeps n (some b) large within fit good h = (
    cut_message message b,
    (
      refl,
      (
        inr (b, refl),
        good.1,
        length-take_least n b message.content (h n (omega arith) large fit) within,
      ),
    ),
  )

  -- If a cut of a message to at least two characters fits before the newer messages, then
  -- `_fit_message` keeps the message or a cut of it, which fits before the newer messages too and
  -- has at least as many characters, provided that serializing a longer content gives no shorter
  -- text.
  pub fit_message-keeps :
      (n : ℕ)
      → IsMonotone
      → 1 < n
      → n ≤ length message.content
      → is_fitting dumps max_chars (cut_message message n ∷ newer_messages) ≡ true
      → (kept : RecentHistoryMessage) × ((fit_message dumps max_chars message newer_messages
            ≡ some (some kept))
          × IsKept n kept)
  unfolding fit_message
  fit_message-keeps n mono large within fit =
      let top = suc (length message.content) in
      let P = λ (o : Option (Option RecentHistoryMessage)).
        (kept : RecentHistoryMessage) × ((o ≡ some (some kept)) × IsKept n kept) in
      if_cases P (is_fitting dumps max_chars (message ∷ newer_messages))
        (λ whole. (message, (refl, (inl refl, whole, within))))
        (λ _.
          let smaller : (k m : ℕ) → k ≤ m → fits_cut m ≡ true → fits_cut k ≡ true =
            λ k m less fit_m.
              let shorter =
                length-render (cut_message message k ∷ newer_messages)
                  (cut_message message m ∷ newer_messages) (mono k m less) in
              ground arith in
          let (size, (found, largest)) =
            search_size-IsLargest fits_cut (suc top) top smaller (omega arith) in
          let (size', (found', good)) = search_size-IsFit fits_cut (suc top) top (omega arith) in
          let same : size' ≡ size = cc in
          subst (λ o. P (cut_by dumps message o)) (sym found)
            (cut_by-keeps n size large within fit (subst (IsFit fits_cut) same good) largest))
