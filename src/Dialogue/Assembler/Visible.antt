-- ===== src/Dialogue/Assembler/Visible.antt =====
-- The visible characters of a text, through stripping and searching
-- (src/eeveetuber/dialogue/assembler.py).
use mathlib.Core.List.{reverse, reverse-cons, reverse-reverse, append_assoc, append-nil}
use eeveetuber.Common.{
  ℕ, ◌≡◌, ◌∙◌, ap, sym, refl, inl, inr, Bool, true, false, ◌&&◌, Option, none, some, [], ◌∷◌, ◌++◌,
  arith, Bool-cases, if_cases, if◌then◌else◌, ◌==◌,
}
use eeveetuber.Common.Text.{Str, is_space, is_blank, lstrip, rstrip, strip}
use eeveetuber.Dialogue.Assembler.{is_stop, is_wide_stop, at_gap, skip_newlines, prepend, search}

-- A text without its white space.
unfoldable pub squeeze : Str → Str
squeeze [] = []
squeeze (c ∷ text) = if is_space c then squeeze text else c ∷ squeeze text

pub squeeze-append : (s t : Str) → squeeze (s ++ t) ≡ squeeze s ++ squeeze t
unfolding squeeze
squeeze-append [] t = refl
squeeze-append (c ∷ s) t = elim (Bool-cases (is_space c)) [
  | inl space ↦ rw space (squeeze-append s t)
  | inr visible ↦ rw visible (ap (λ r. c ∷ r) (squeeze-append s t))
]

pub squeeze-lstrip : (s : Str) → squeeze (lstrip s) ≡ squeeze s
unfolding squeeze lstrip
squeeze-lstrip [] = refl
squeeze-lstrip (c ∷ s) = elim (Bool-cases (is_space c)) [
  | inl space ↦ rw space (squeeze-lstrip s)
  | inr visible ↦ let e : lstrip (c ∷ s) ≡ c ∷ s = rw visible refl in ap squeeze e
]

pub squeeze-reverse : (s : Str) → squeeze (reverse s) ≡ reverse (squeeze s)
unfolding squeeze
squeeze-reverse [] = refl
squeeze-reverse (c ∷ s) =
    let turned = ap squeeze (reverse-cons c s) ∙ squeeze-append (reverse s) (c ∷ []) in
    elim (Bool-cases (is_space c)) [
      | inl space ↦
          let e : squeeze (c ∷ s) ≡ squeeze s = rw space refl in
          let nothing : squeeze (c ∷ []) ≡ [] = rw space refl in
          turned
          ∙ (ap (λ t. squeeze (reverse s) ++ t) nothing
              ∙ (append-nil (squeeze (reverse s)) ∙ (squeeze-reverse s ∙ ap reverse (sym e))))
      | inr visible ↦
          let e : squeeze (c ∷ s) ≡ c ∷ squeeze s = rw visible refl in
          let one : squeeze (c ∷ []) ≡ c ∷ [] = rw visible refl in
          turned
          ∙ (ap (λ t. squeeze (reverse s) ++ t) one
              ∙ (ap (λ t. t ++ c ∷ []) (squeeze-reverse s)
                  ∙ (sym (reverse-cons c (squeeze s)) ∙ ap reverse (sym e))))
    ]

pub squeeze-strip : (s : Str) → squeeze (strip s) ≡ squeeze s
unfolding strip rstrip
squeeze-strip s =
    let front = lstrip s in
    squeeze-reverse (lstrip (reverse front))
    ∙ (ap reverse (squeeze-lstrip (reverse front) ∙ squeeze-reverse front)
        ∙ (reverse-reverse (squeeze front) ∙ squeeze-lstrip s))

pub newline_space : (c : ℕ) → (c == 10) ≡ true → is_space c ≡ true
unfolding is_space
newline_space c h = ground arith

pub squeeze-newline : (c : ℕ) (s : Str) → (c == 10) ≡ true → squeeze (c ∷ s) ≡ squeeze s
unfolding squeeze
squeeze-newline c s h = rw (newline_space c h) refl

pub squeeze-skip_newlines : (s : Str) → squeeze (skip_newlines s) ≡ squeeze s
unfolding skip_newlines
squeeze-skip_newlines [] = refl
squeeze-skip_newlines (c ∷ s) =
    if_cases (λ (t : Str). squeeze t ≡ squeeze (c ∷ s)) (c == 10)
      (λ newline. squeeze-skip_newlines s ∙ sym (squeeze-newline c s newline)) (λ _. refl)

-- The two halves of a match have all the visible text.
abbrev pub IsSplit : Str → Option (Str × Str) → Type 0
IsSplit s none = Unit
IsSplit s (some (front, rest)) = squeeze front ++ squeeze rest ≡ squeeze s

pub prepend-IsSplit :
    (c : ℕ) (s : Str) (found : Option (Str × Str))
    → IsSplit s found
    → IsSplit (c ∷ s) (prepend c found)
prepend-IsSplit c s none h = tt
prepend-IsSplit c s (some (front, rest)) h =
    ap (λ t. t ++ squeeze rest) (squeeze-append (c ∷ []) front)
    ∙ (append_assoc (squeeze (c ∷ [])) (squeeze front) (squeeze rest)
        ∙ (ap (λ t. squeeze (c ∷ []) ++ t) h ∙ sym (squeeze-append (c ∷ []) s)))

pub search-IsSplit : (s : Str) → IsSplit s (search s)
unfolding search squeeze
search-IsSplit [] = tt
search-IsSplit (c ∷ s) =
    if_cases (IsSplit (c ∷ s)) (is_stop c && at_gap s)
      (λ _. ap (λ t. squeeze (c ∷ []) ++ t) (squeeze-lstrip s) ∙ sym (squeeze-append (c ∷ []) s))
      (λ _.
        if_cases (IsSplit (c ∷ s)) (is_wide_stop c) (λ _. sym (squeeze-append (c ∷ []) s))
          (λ _.
            if_cases (IsSplit (c ∷ s)) (c == 10)
              (λ newline. squeeze-skip_newlines s ∙ sym (squeeze-newline c s newline))
              (λ _. prepend-IsSplit c s (search s) (search-IsSplit s))))

pub rest_blank : (a b : Bool) → (a && b) ≡ true → b ≡ true
rest_blank a b h = ground arith

pub clash : (a b : Bool) → a ≡ false → (a && b) ≡ true → ⊥
clash a b e h = ground arith

pub is_blank-squeeze : (s : Str) → is_blank s ≡ true → squeeze s ≡ []
unfolding squeeze is_blank
is_blank-squeeze [] h = refl
is_blank-squeeze (c ∷ s) h = elim (Bool-cases (is_space c)) [
  | inl space ↦ rw space (is_blank-squeeze s (rest_blank (is_space c) (is_blank s) h))
  | inr visible ↦ absurd (clash (is_space c) (is_blank s) visible h)
]

pub lstrip-nil : (s : Str) → squeeze s ≡ [] → lstrip s ≡ []
unfolding squeeze lstrip
lstrip-nil [] h = refl
lstrip-nil (c ∷ s) h = elim (Bool-cases (is_space c)) [
  | inl space ↦
      let e : squeeze (c ∷ s) ≡ squeeze s = rw space refl in rw space (lstrip-nil s (sym e ∙ h))
  | inr visible ↦
      let e : squeeze (c ∷ s) ≡ c ∷ squeeze s = rw visible refl in let f = sym e ∙ h in absurd (cc)
]

-- A stripped text is not blank, or it is empty.
pub strip-nil : (s : Str) → is_blank (strip s) ≡ true → strip s ≡ []
unfolding strip
strip-nil s h =
    let nothing = sym (squeeze-strip s) ∙ is_blank-squeeze (strip s) h in
    ap rstrip (lstrip-nil s nothing)
