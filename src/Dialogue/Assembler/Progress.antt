-- ===== src/Dialogue/Assembler/Progress.antt =====
-- The loop of `push` ends (src/eeveetuber/dialogue/assembler.py).
use eeveetuber.Common.{
  ℕ, zero, suc, ◌/◌, ◌≤◌, ◌<◌, ◌≡◌, subst, refl, inl, inr, ◌&&◌, Option, none, some, List, [], ◌∷◌,
  ◌++◌, arith, Option-cases, if_cases, length, take, drop, leb, leb→le, ◌==◌,
}
use eeveetuber.Common.Text.{Str, is_space, lstrip, strip}
use eeveetuber.Dialogue.Assembler.{
  UtteranceSegment, Assembler, is_stop, is_wide_stop, at_gap, skip_newlines, prepend, search,
  make_segment, set_buffer, rfind_space, safe_cut, round_by, round, loop,
}

length-lstrip : (s : Str) → length (lstrip s) ≤ length s
unfolding lstrip
length-lstrip [] = omega arith
length-lstrip (c ∷ s) =
    if_cases (λ (t : Str). length t ≤ length (c ∷ s)) (is_space c)
      (λ _. omega (arith, length-lstrip s)) (λ _. omega arith)

length-skip_newlines : (s : Str) → length (skip_newlines s) ≤ length s
unfolding skip_newlines
length-skip_newlines [] = omega arith
length-skip_newlines (c ∷ s) =
    if_cases (λ (t : Str). length t ≤ length (c ∷ s)) (c == 10)
      (λ _. omega (arith, length-skip_newlines s)) (λ _. omega arith)

-- What follows a boundary is shorter than the text.
abbrev IsShorter : Str → Option (Str × Str) → Type 0
IsShorter s none = Unit
IsShorter s (some (front, rest)) = length rest < length s

prepend-IsShorter :
    (c : ℕ) (s : Str) (found : Option (Str × Str))
    → IsShorter s found
    → IsShorter (c ∷ s) (prepend c found)
prepend-IsShorter c s none h = tt
prepend-IsShorter c s (some (front, rest)) h = omega arith

search-IsShorter : (s : Str) → IsShorter s (search s)
unfolding search
search-IsShorter [] = tt
search-IsShorter (c ∷ s) =
    if_cases (IsShorter (c ∷ s)) (is_stop c && at_gap s) (λ _. omega (arith, length-lstrip s))
      (λ _.
        if_cases (IsShorter (c ∷ s)) (is_wide_stop c) (λ _. omega arith)
          (λ _.
            if_cases (IsShorter (c ∷ s)) (c == 10) (λ _. omega (arith, length-skip_newlines s))
              (λ _. prepend-IsShorter c s (search s) (search-IsShorter s))))

make_segment-buffer : (text : Str) (s : Assembler) → (make_segment text s).0.buffer ≡ s.buffer
make_segment-buffer [] s = refl
make_segment-buffer (c ∷ text) s = refl

safe_cut-positive : (s : Str) (preferred : ℕ) → 20 ≤ preferred → 0 < safe_cut s preferred
unfolding safe_cut
safe_cut-positive s preferred h = elim (Option-cases (rfind_space (take (suc preferred) s))) [
  | inl e ↦ rw (safe_cut, e) (omega arith)
  | inr (w, e) ↦
      rw (safe_cut, e)
        (if_cases (λ n. 0 < n) (leb (preferred / 2) w) (λ late. ground arith) (λ _. omega arith))
]

-- Nothing is left to say: no sentence ends in the buffer, and it is shorter than the limit.
pub record IsIdle (max_segment_chars : ℕ) (buffer : Str) : Type 0 where
  pub unfinished : search buffer ≡ none
  pub short : length buffer < max_segment_chars

-- A round shortens the buffer, or there is nothing left to do.
abbrev IsProgress : ℕ → Assembler → Option (Assembler × List UtteranceSegment) → Type 0
IsProgress max_segment_chars s none = IsIdle max_segment_chars s.buffer
IsProgress max_segment_chars s (some next) = length next.0.buffer < length s.buffer

length-drop_le : (n : ℕ) (s : Str) → length (drop n s) ≤ length s
length-drop_le zero s = omega arith
length-drop_le (suc n) [] = omega arith
length-drop_le (suc n) (c ∷ s) = omega (arith, length-drop_le n s)

length-drop_positive : (n : ℕ) (s : Str) → 0 < n → 0 < length s → length (drop n s) < length s
length-drop_positive zero s h l = absurd (omega arith)
length-drop_positive (suc n) [] h l = absurd (omega arith)
length-drop_positive (suc n) (c ∷ s) h l = omega (arith, length-drop_le n s)

round_by-IsProgress :
    (max_segment_chars : ℕ) (found : Option (Str × Str)) (s : Assembler)
    → 20 ≤ max_segment_chars
    → search s.buffer ≡ found
    → IsShorter s.buffer found
    → IsProgress max_segment_chars s (round_by found max_segment_chars s)
round_by-IsProgress max_segment_chars (some (front, rest)) s large e h =
    rw (make_segment-buffer (strip front) (set_buffer rest s)) h
round_by-IsProgress max_segment_chars none s large e h =
    let cut = safe_cut s.buffer max_segment_chars in
    let rest = drop cut s.buffer in
    if_cases (IsProgress max_segment_chars s) (leb max_segment_chars (length s.buffer))
      (λ long.
        let positive = safe_cut-positive s.buffer max_segment_chars large in
        let some_text : 0 < length s.buffer =
          omega (arith, leb→le max_segment_chars (length s.buffer) long) in
        rw (make_segment-buffer (strip (take cut s.buffer)) (set_buffer (lstrip rest) s))
          (omega (arith, length-lstrip rest, length-drop_positive cut s.buffer positive some_text)))
      (λ short. record { unfinished = e; short = ground arith })

round-IsProgress :
    (max_segment_chars : ℕ) (s : Assembler)
    → 20 ≤ max_segment_chars
    → IsProgress max_segment_chars s (round max_segment_chars s)
unfolding round
round-IsProgress max_segment_chars s large =
    round_by-IsProgress max_segment_chars (search s.buffer) s large refl (search-IsShorter s.buffer)

pub loop-IsTotal :
    (max_segment_chars fuel : ℕ) (s : Assembler) (emitted : List UtteranceSegment)
    → 20 ≤ max_segment_chars
    → length s.buffer < fuel
    → (r : Assembler × List UtteranceSegment) × ((loop max_segment_chars fuel s emitted ≡ some r)
        × IsIdle max_segment_chars r.0.buffer)
unfolding loop
loop-IsTotal max_segment_chars zero s emitted large enough = absurd (omega arith)
loop-IsTotal max_segment_chars (suc fuel) s emitted large enough =
    elim (Option-cases (round max_segment_chars s)) [
      | inl e ↦ (
        (s, emitted),
        (
          rw (loop, e) refl,
          subst (IsProgress max_segment_chars s) e (round-IsProgress max_segment_chars s large),
        ),
      )
      | inr (next, e) ↦
          let shorter =
            subst (IsProgress max_segment_chars s) e (round-IsProgress max_segment_chars s large) in
          rw (loop, e)
            (loop-IsTotal max_segment_chars fuel next.0 (emitted ++ next.1) large (omega arith))
    ]
