-- ===== src/Dialogue/Assembler/Content.antt =====
-- What the segments say (src/eeveetuber/dialogue/assembler.py).
use mathlib.Core.List.{append_assoc, append-nil}
use eeveetuber.Common.{
  ℕ, zero, suc, ◌+◌, ◌≤◌, ◌≡◌, ◌∙◌, ap, sym, subst, refl, inl, inr, Bool, true, false, Option, none,
  some, List, [], ◌∷◌, ◌++◌, arith, Option-cases, if_cases, length, take, drop, take-append-drop,
  leb, All, All-snoc,
}
use eeveetuber.Common.Text.{Str, is_blank, lstrip, strip}
use eeveetuber.Dialogue.Assembler.{
  UtteranceSegment, Assembler, search, make_segment, set_buffer, safe_cut, round_by, round, loop,
  push,
}
use eeveetuber.Dialogue.Assembler.Progress.{IsIdle, loop-IsTotal}
use eeveetuber.Dialogue.Assembler.Visible.{
  squeeze, squeeze-append, squeeze-lstrip, squeeze-strip, IsSplit, search-IsSplit, strip-nil,
}

abbrev pub spoken : List UtteranceSegment → Str
spoken [] = []
spoken (x ∷ xs) = x.speakable_text ++ spoken xs

spoken-append : (xs ys : List UtteranceSegment) → spoken (xs ++ ys) ≡ spoken xs ++ spoken ys
spoken-append [] ys = refl
spoken-append (x ∷ xs) ys =
    ap (λ t. x.speakable_text ++ t) (spoken-append xs ys)
    ∙ sym (append_assoc x.speakable_text (spoken xs) (spoken ys))

-- The segments are numbered from 0 in their order.
abbrev pub IsNumbered : ℕ → List UtteranceSegment → Type 0
IsNumbered n [] = Unit
IsNumbered n (x ∷ xs) = (x.sequence ≡ n) × IsNumbered (suc n) xs

IsNumbered-append :
    (n : ℕ) (xs : List UtteranceSegment) (x : UtteranceSegment)
    → IsNumbered n xs
    → x.sequence ≡ n + length xs
    → IsNumbered n (xs ++ x ∷ [])
IsNumbered-append n [] x h e = (omega arith, tt)
IsNumbered-append n (y ∷ xs) x (first, h) e =
    (first, IsNumbered-append (suc n) xs x h (omega arith))

-- `UtteranceSegment` refuses a blank text.
abbrev pub IsVoiced : UtteranceSegment → Type 0
IsVoiced x = is_blank x.speakable_text ≡ false

-- A round adds segments to the assembler's, and says or keeps all of the visible text.
record IsFaithful (base : List UtteranceSegment) (text : Str) (s : Assembler)
    (emitted : List UtteranceSegment) : Type 0 where
  added : s.segments ≡ base ++ emitted
  numbered : IsNumbered 0 s.segments
  voiced : All IsVoiced s.segments
  content : squeeze (spoken emitted) ++ squeeze s.buffer ≡ text

voiced_by : {c : ℕ} {front : Str} (b : Bool) → (b ≡ true → c ∷ front ≡ []) → b ≡ false
voiced_by false full = refl
voiced_by true full = let e = full refl in absurd (cc)

make_segment-IsFaithful :
    (base : List UtteranceSegment) (text front rest : Str) (s : Assembler)
    (emitted : List UtteranceSegment)
    → IsFaithful base text s emitted
    → squeeze front ++ squeeze rest ≡ squeeze s.buffer
    → (is_blank front ≡ true → front ≡ [])
    → IsFaithful base text
        (make_segment front (set_buffer rest s)).0
        (emitted ++ (make_segment front (set_buffer rest s)).1)
unfolding squeeze
make_segment-IsFaithful base text [] rest s emitted h e full = record {
  added = h.added ∙ ap (λ xs. base ++ xs) (sym (append-nil emitted));
  numbered = h.numbered;
  voiced = h.voiced;
  content =
      ap (λ xs. squeeze (spoken xs) ++ squeeze rest) (append-nil emitted)
      ∙ (ap (λ t. squeeze (spoken emitted) ++ t) e ∙ h.content);
}
make_segment-IsFaithful base text (c ∷ front) rest s emitted h e full =
    let segment : UtteranceSegment = record {
      sequence = length s.segments;
      speakable_text = c ∷ front;
    } in
    record {
      added = ap (λ xs. xs ++ segment ∷ []) h.added ∙ append_assoc base emitted (segment ∷ []);
      numbered = IsNumbered-append 0 s.segments segment h.numbered (omega arith);
      voiced =
          All-snoc IsVoiced s.segments segment h.voiced (voiced_by (is_blank (c ∷ front)) full);
      content =
          ap (λ t. squeeze t ++ squeeze rest) (spoken-append emitted (segment ∷ []))
          ∙ (ap (λ t. t ++ squeeze rest)
                (squeeze-append (spoken emitted) ((c ∷ front) ++ [])
                  ∙ ap (λ t. squeeze (spoken emitted) ++ squeeze t) (append-nil (c ∷ front)))
              ∙ (append_assoc (squeeze (spoken emitted)) (squeeze (c ∷ front)) (squeeze rest)
                  ∙ (ap (λ t. squeeze (spoken emitted) ++ t) e ∙ h.content)));
    }

some_eq : {a b : Assembler × List UtteranceSegment} → some a ≡ some b → a ≡ b
some_eq {a} e = ap (λ o. elim o [ none ↦ a | some x ↦ x ]) e

round_by-IsFaithful :
    (max_segment_chars : ℕ) (base : List UtteranceSegment) (text : Str) (found : Option (Str × Str))
    (s : Assembler) (emitted : List UtteranceSegment) (next : Assembler × List UtteranceSegment)
    → IsSplit s.buffer found
    → IsFaithful base text s emitted
    → round_by found max_segment_chars s ≡ some next
    → IsFaithful base text next.0 (emitted ++ next.1)
round_by-IsFaithful max_segment_chars base text (some (front, rest)) s emitted next split h e =
    let kept =
      make_segment-IsFaithful base text (strip front) rest s emitted h
        (ap (λ t. t ++ squeeze rest) (squeeze-strip front) ∙ split) (strip-nil front) in
    subst (λ (n : Assembler × List UtteranceSegment). IsFaithful base text n.0 (emitted ++ n.1))
      (some_eq e) kept
round_by-IsFaithful max_segment_chars base text none s emitted next split h e =
    let cut = safe_cut s.buffer max_segment_chars in
    let front = take cut s.buffer in
    let rest = drop cut s.buffer in
    let kept =
      make_segment-IsFaithful base text (strip front) (lstrip rest) s emitted h
        (ap (λ t. t ++ squeeze (lstrip rest)) (squeeze-strip front)
          ∙ (ap (λ t. squeeze front ++ t) (squeeze-lstrip rest)
              ∙ (sym (squeeze-append front rest) ∙ ap squeeze (take-append-drop cut s.buffer))))
        (strip-nil front) in
    if_cases
      (λ (o : Option (Assembler × List UtteranceSegment)).
        o ≡ some next → IsFaithful base text next.0 (emitted ++ next.1))
      (leb max_segment_chars (length s.buffer))
      (λ _ f.
        subst (λ (n : Assembler × List UtteranceSegment). IsFaithful base text n.0 (emitted ++ n.1))
          (some_eq f) kept)
      (λ _ f. absurd (cc)) e

loop-IsFaithful :
    (max_segment_chars fuel : ℕ) (base : List UtteranceSegment) (text : Str) (s : Assembler)
    (emitted : List UtteranceSegment) (r : Assembler × List UtteranceSegment)
    → IsFaithful base text s emitted
    → loop max_segment_chars fuel s emitted ≡ some r
    → IsFaithful base text r.0 r.1
unfolding loop round
loop-IsFaithful max_segment_chars zero base text s emitted r h e = absurd (cc)
loop-IsFaithful max_segment_chars (suc fuel) base text s emitted r h e =
    elim (Option-cases (round max_segment_chars s)) [
      | inl stops ↦
          let ended : loop max_segment_chars (suc fuel) s emitted ≡ some (s, emitted) =
            rw (loop, stops) refl in
          subst (λ (n : Assembler × List UtteranceSegment). IsFaithful base text n.0 n.1)
            (some_eq (sym ended ∙ e)) h
      | inr (next, goes) ↦
          let later : loop max_segment_chars (suc fuel) s emitted
              ≡ loop max_segment_chars fuel next.0 (emitted ++ next.1) =
            rw (loop, goes) refl in
          loop-IsFaithful max_segment_chars fuel base text next.0 (emitted ++ next.1) r
            (round_by-IsFaithful max_segment_chars base text (search s.buffer) s emitted next
              (search-IsSplit s.buffer) h goes)
            (sym later ∙ e)
    ]

-- Between calls: nothing is left to say, and the segments are numbered and not blank.
pub record IsReady (max_segment_chars : ℕ) (s : Assembler) : Type 0 where
  pub idle : IsIdle max_segment_chars s.buffer
  pub numbered : IsNumbered 0 s.segments
  pub voiced : All IsVoiced s.segments

-- With a limit of at least 20 characters, `push` returns for every text from every state that calls
-- leave: its loop ends, the buffer that is left is shorter than the limit and has no sentence that is
-- complete, the assembler's segments are the earlier ones and then the returned ones, numbered
-- from 0 without a gap and none of them blank, and the visible characters of the returned segments
-- and of the buffer are, in order, those of the earlier buffer and of the text: white space aside,
-- nothing is lost, repeated or swapped.
pub push-IsTotal :
    (max_segment_chars : ℕ) (text_delta : Str) (s : Assembler)
    → 20 ≤ max_segment_chars
    → IsReady max_segment_chars s
    → (r : Assembler × List UtteranceSegment) × ((push max_segment_chars text_delta s ≡ some r)
        × (IsReady max_segment_chars r.0
            × ((r.0.segments ≡ s.segments ++ r.1)
                × (squeeze (spoken r.1) ++ squeeze r.0.buffer ≡ squeeze (s.buffer ++ text_delta)))))
unfolding push squeeze
push-IsTotal max_segment_chars [] s large h =
    ((s, []), (refl, (h, (sym (append-nil s.segments), ap squeeze (sym (append-nil s.buffer))))))
push-IsTotal max_segment_chars (c ∷ text_delta) s large h =
    let buffer = s.buffer ++ c ∷ text_delta in
    let s₁ = set_buffer buffer s in
    let (r, (returned, idle)) =
      loop-IsTotal max_segment_chars (suc (length buffer)) s₁ [] large (omega arith) in
    let f =
      loop-IsFaithful max_segment_chars (suc (length buffer)) s.segments (squeeze buffer) s₁ [] r
        (record {
          added = sym (append-nil s.segments);
          numbered = h.numbered;
          voiced = h.voiced;
          content = refl;
        })
        returned in
    (
      r,
      (
        returned,
        (record { idle = idle; numbered = f.numbered; voiced = f.voiced }, (f.added, f.content)),
      ),
    )
