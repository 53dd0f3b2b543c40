-- ===== src/Memory/Context/Estimator.antt =====
-- Token estimation of src/eeveetuber/memory/context.py: the protocol `TokenEstimator`, and
-- `Utf8HeuristicTokenEstimator`, for texts without lone surrogates, which can be encoded.
use eeveetuber.Common.{
  ℕ, zero, suc, ◌+◌, ◌-◌, ◌*◌, ◌/◌, ◌≤◌, ◌≡◌, ◌∙◌, ap, sym, subst, refl, [], ◌∷◌, ◌++◌, arith,
  if_cases, if◌then◌else◌, ltb, leb, ◌&&◌, length, take, sum_of, sum_of-append,
}
use mathlib.Core.List.{append_assoc, append-nil}
use eeveetuber.Common.Text.{Str, rstrip, rstrip-prefix}

pub record TokenEstimator : Type 0 where
  pub estimate : Str → ℕ
  pub truncate : Str → ℕ → Str

-- What the compiler relies on: a truncated text fits.
abbrev pub IsFitting : TokenEstimator → Type 0
IsFitting e = (text : Str) (max_tokens : ℕ) → e.estimate (e.truncate text max_tokens) ≤ max_tokens

abbrev pub bytes_per_token : ℕ
bytes_per_token = 4

-- The bytes of a code point in UTF-8.
abbrev pub width : ℕ → ℕ
width c = if ltb c 0x80 then 1 else (if ltb c 0x800 then 2 else (if ltb c 0x10000 then 3 else 4))

-- `len(text.encode("utf-8"))`
abbrev pub byte_count : Str → ℕ
byte_count text = sum_of width text

-- `Utf8HeuristicTokenEstimator.estimate`; it is 0 for the empty text.
unfoldable pub estimate : Str → ℕ
estimate text = (byte_count text + bytes_per_token - 1) / bytes_per_token

-- The first bytes of the encoding, less the last ones until they decode: the code points whose
-- bytes all lie within the limit.
unfoldable pub decode_prefix : Str → ℕ → Str
decode_prefix [] limit = []
decode_prefix (c ∷ text) limit =
    let rest = decode_prefix text (limit - width c) in if leb (width c) limit then c ∷ rest else []

-- The last loop of `truncate`: the text loses its last character while it is too long.
unfoldable pub shorten : ℕ → ℕ → Str → Str
unfolding estimate
shorten zero max_tokens text = text
shorten (suc fuel) max_tokens text =
    let rest = shorten fuel max_tokens (take (length text - 1) text) in
    if ltb 0 (length text) && ltb max_tokens (estimate text) then rest else text

-- `Utf8HeuristicTokenEstimator.truncate`
unfoldable pub truncate : Str → ℕ → Str
unfolding estimate decode_prefix shorten rstrip
truncate text max_tokens =
    let decoded = decode_prefix text (max_tokens * bytes_per_token) in
    if leb max_tokens 0
    then []
    else (if leb (estimate text) max_tokens
        then text
        else rstrip (shorten (length decoded) max_tokens decoded))

abbrev pub utf8_heuristic : TokenEstimator
utf8_heuristic = record { estimate = estimate; truncate = truncate }

decode_prefix-fits : (text : Str) (limit : ℕ) → byte_count (decode_prefix text limit) ≤ limit
unfolding decode_prefix
decode_prefix-fits [] limit = omega arith
decode_prefix-fits (c ∷ text) limit =
    let rest = decode_prefix-fits text (limit - width c) in
    if_cases (λ (s : Str). byte_count s ≤ limit) (leb (width c) limit) (λ fits. ground arith)
      (λ _. omega arith)

estimate-fits :
    (text : Str) (max_tokens : ℕ)
    → byte_count text ≤ max_tokens * bytes_per_token
    → estimate text ≤ max_tokens
unfolding estimate
estimate-fits text max_tokens h = omega arith

-- The loop takes nothing away from a text that fits, whatever its fuel is.
pub shorten_lem :
    (fuel max_tokens : ℕ) (text : Str)
    → estimate text ≤ max_tokens
    → shorten fuel max_tokens text ≡ text
unfolding shorten
shorten_lem zero max_tokens text h = refl
shorten_lem (suc fuel) max_tokens text h = ground arith

decode_prefix-prefix :
    (text : Str) (limit : ℕ) → (back : Str) × (decode_prefix text limit ++ back ≡ text)
unfolding decode_prefix
decode_prefix-prefix [] limit = ([], refl)
decode_prefix-prefix (c ∷ text) limit =
    let (back, e) = decode_prefix-prefix text (limit - width c) in
    if_cases (λ (s : Str). (back : Str) × (s ++ back ≡ c ∷ text)) (leb (width c) limit)
      (λ _. (back, ap (λ r. c ∷ r) e)) (λ _. (c ∷ text, refl))

byte_count-le : (front back text : Str) → front ++ back ≡ text → byte_count front ≤ byte_count text
byte_count-le front back text e =
    subst (λ t. byte_count front ≤ byte_count t) e (omega (arith, sum_of-append width front back))

stripped-fits :
    (text : Str) (max_tokens : ℕ)
    → byte_count text ≤ max_tokens * bytes_per_token
    → estimate (rstrip text) ≤ max_tokens
stripped-fits text max_tokens h =
    let (back, e) = rstrip-prefix text in
    estimate-fits (rstrip text) max_tokens (omega (arith, byte_count-le (rstrip text) back text e))

-- A truncated text is a prefix of the text, and its estimate is at most the tokens that it was cut
-- to, so the estimator keeps what the compiler relies on.
pub truncate-fits :
    (text : Str) (max_tokens : ℕ)
    → (estimate (truncate text max_tokens) ≤ max_tokens)
      × ((back : Str) × (truncate text max_tokens ++ back ≡ text))
unfolding truncate
truncate-fits text max_tokens =
    let P = λ (s : Str). (estimate s ≤ max_tokens) × ((back : Str) × (s ++ back ≡ text)) in
    let limit = max_tokens * bytes_per_token in
    let decoded = decode_prefix text limit in
    let fits = decode_prefix-fits text limit in
    let whole =
      shorten_lem (length decoded) max_tokens decoded (estimate-fits decoded max_tokens fits) in
    let (back, e) = decode_prefix-prefix text limit in
    let (spaces, f) = rstrip-prefix decoded in
    if_cases P (leb max_tokens 0) (λ _. (omega arith, (text, refl)))
      (λ _.
        if_cases P (leb (estimate text) max_tokens) (λ short. (ground arith, ([], append-nil text)))
          (λ _. rw whole (
            stripped-fits decoded max_tokens fits,
            (
              spaces ++ back,
              sym (append_assoc (rstrip decoded) spaces back) ∙ (ap (λ r. r ++ back) f ∙ e),
            ),
          )))

pub utf8_heuristic-IsFitting : IsFitting utf8_heuristic
utf8_heuristic-IsFitting text max_tokens = (truncate-fits text max_tokens).0
