-- ===== src/Dialogue/Assembler.antt =====
-- src/eeveetuber/dialogue/assembler.py: `IncrementalUtteranceAssembler`. A text is the list of its code
-- points. The loop of `push` runs on fuel: one more than the characters at hand is enough, since each
-- round takes at least one of them.
pub mod Progress
pub mod Visible
pub mod Content
use eeveetuber.Common.{
  ℕ, zero, suc, ◌+◌, ◌/◌, Bool, true, false, ◌&&◌, ◌||◌, Option, none, some, List, [], ◌∷◌, ◌++◌,
  length, take, drop, if◌then◌else◌, leb, ◌==◌,
}
use eeveetuber.Common.Text.{Str, is_space, lstrip, strip}

-- The fields of `UtteranceSegment` that the assembler sets; the display text is the spoken one.
pub record UtteranceSegment : Type 0 where
  pub sequence : ℕ
  pub speakable_text : Str

pub record Assembler : Type 0 where
  pub buffer : Str
  pub segments : List UtteranceSegment

abbrev pub new : Assembler
new = record { buffer = []; segments = [] }

-- `[.!?]` and `[\u3002\uff01\uff1f]`
abbrev pub is_stop : ℕ → Bool
is_stop c = (c == 0x2e) || ((c == 0x21) || (c == 0x3f))

abbrev pub is_wide_stop : ℕ → Bool
is_wide_stop c = (c == 0x3002) || ((c == 0xff01) || (c == 0xff1f))

-- `(?:\s+|$)` matches here.
unfoldable pub at_gap : Str → Bool
unfolding is_space
at_gap [] = true
at_gap (c ∷ text) = is_space c

-- The rest of `\n+`.
unfoldable pub skip_newlines : Str → Str
skip_newlines [] = []
skip_newlines (c ∷ text) = if c == 10 then skip_newlines text else c ∷ text

abbrev pub prepend : ℕ → Option (Str × Str) → Option (Str × Str)
prepend c none = none
prepend c (some (front, rest)) = some (c ∷ front, rest)

-- `_BOUNDARY.search`: the text up to the end of the sentence, and the text after the match.
unfoldable pub search : Str → Option (Str × Str)
unfolding at_gap skip_newlines lstrip
search [] = none
search (c ∷ text) =
    let later = prepend c (search text) in
    if is_stop c && at_gap text
    then some (c ∷ [], lstrip text)
    else (if is_wide_stop c
        then some (c ∷ [], text)
        else (if c == 10 then some ([], skip_newlines text) else later))

-- `_make_segment`, unless the text is empty.
abbrev pub make_segment : Str → Assembler → Assembler × List UtteranceSegment
make_segment [] s = (s, [])
make_segment (c ∷ text) s =
    let segment : UtteranceSegment = record {
      sequence = length s.segments;
      speakable_text = c ∷ text;
    } in
    (record s { segments = s.segments ++ segment ∷ [] }, segment ∷ [])

abbrev pub set_buffer : Str → Assembler → Assembler
set_buffer buffer s = record s { buffer = buffer }

-- `text.rfind(" ")`
unfoldable pub rfind_space : Str → Option ℕ
rfind_space [] = none
rfind_space (c ∷ text) = elim (rfind_space text) [
  | some i ↦ some (suc i)
  | none ↦ if c == 32 then some 0 else none
]

-- `_safe_cut`
unfoldable pub safe_cut : Str → ℕ → ℕ
unfolding rfind_space
safe_cut text preferred = elim (rfind_space (take (suc preferred) text)) [
  | none ↦ preferred
  | some whitespace ↦ if leb (preferred / 2) whitespace then whitespace else preferred
]

-- A long text without a boundary is cut, or the loop ends.
abbrev pub cut_round : ℕ → Assembler → Option (Assembler × List UtteranceSegment)
cut_round max_segment_chars s =
    let cut = safe_cut s.buffer max_segment_chars in
    if leb max_segment_chars (length s.buffer)
    then some (make_segment (strip (take cut s.buffer)) (set_buffer (lstrip (drop cut s.buffer)) s))
    else none

abbrev pub round_by :
    Option (Str × Str) → ℕ → Assembler → Option (Assembler × List UtteranceSegment)
round_by (some (front, rest)) max_segment_chars s =
    some (make_segment (strip front) (set_buffer rest s))
round_by none max_segment_chars s = cut_round max_segment_chars s

-- One round of the loop, or `none` where it breaks.
unfoldable pub round : ℕ → Assembler → Option (Assembler × List UtteranceSegment)
unfolding search safe_cut strip lstrip
round max_segment_chars s = round_by (search s.buffer) max_segment_chars s

-- The loop of `push`; `none` where the fuel is out.
unfoldable pub loop :
    ℕ → ℕ → Assembler → List UtteranceSegment → Option (Assembler × List UtteranceSegment)
unfolding round
loop max_segment_chars zero s emitted = none
loop max_segment_chars (suc fuel) s emitted = elim (round max_segment_chars s) [
  | none ↦ some (s, emitted)
  | some next ↦ loop max_segment_chars fuel next.0 (emitted ++ next.1)
]

-- `push`
unfoldable pub push : ℕ → Str → Assembler → Option (Assembler × List UtteranceSegment)
unfolding loop
push max_segment_chars [] s = some (s, [])
push max_segment_chars (c ∷ text_delta) s =
    let buffer = s.buffer ++ c ∷ text_delta in
    loop max_segment_chars (suc (length buffer)) (set_buffer buffer s) []

-- `finish`
unfoldable pub finish : Assembler → Assembler × List UtteranceSegment
unfolding strip
finish s = make_segment (strip s.buffer) (set_buffer [] s)
