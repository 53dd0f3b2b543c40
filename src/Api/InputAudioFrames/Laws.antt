-- ===== src/Api/InputAudioFrames/Laws.antt =====
-- What encoding and decoding of EVIF frames guarantee
-- (src/eeveetuber/api/input_audio_frames.py).
use eeveetuber.Common.{
  ℕ, zero, suc, ◌+◌, ◌^◌, ◌≤◌, ◌<◌, ◌≡◌, ◌∙◌, ap, sym, subst, refl, true, false, not, List, [], ◌∷◌,
  arith, length, drop, length-append, ltb,
}
use eeveetuber.Common.Result.{Result, ok, err, raise_if, >>=-eq-ok}
use eeveetuber.Media.Types.{PcmEncoding, MediaError, s16_le, check_format}
use eeveetuber.Api.InputAudioFrames.Bytes.{read, length-pack, read-pack}
use eeveetuber.Api.InputAudioFrames.{
  VoiceInputFrame, max_u32, is_frame, magic, encode_voice_input_frame, Header, unpack, check_header,
  frame_of, build, decode_view, bad_limit, too_short, bad_metadata, decode_voice_input_frame,
}

-- The header that `encode_voice_input_frame` writes.
abbrev header_of : VoiceInputFrame → Header
header_of f = record {
  magic_bytes = magic;
  version = 1;
  flags = 0;
  header_bytes = 52;
  stream_id = f.stream_id;
  sequence = f.sequence;
  captured_at_monotonic_ns = f.captured_at_monotonic_ns;
  sample_rate_hz = f.format.sample_rate_hz;
  channels = f.format.channels;
  encoding = 1;
  reserved = 0;
  payload_bytes = length f.pcm;
}

-- Every number fits the field that it is packed into.
record FitsFields (f : VoiceInputFrame) : Type 0 where
  stream : f.stream_id < 256 ^ 16
  sequence : f.sequence < 256 ^ 8
  captured : f.captured_at_monotonic_ns < 256 ^ 8
  rate : f.format.sample_rate_hz < 256 ^ 4
  channels : f.format.channels < 256 ^ 2
  payload : length f.pcm < 256 ^ 4

FitsFields_lem :
    (f : VoiceInputFrame)
    → f.stream_id < 256 ^ 16
    → check_format f.format ≡ ok tt
    → is_frame f ≡ true
    → FitsFields f
unfolding check_format is_frame
FitsFields_lem f id format valid = record {
  stream = id;
  sequence = ground arith;
  captured = ground arith;
  rate = ground arith;
  channels = ground arith;
  payload = ground arith;
}

unpack-encode :
    (f : VoiceInputFrame)
    → FitsFields f
    → unpack (encode_voice_input_frame f) ≡ (header_of f, f.pcm)
unfolding unpack encode_voice_input_frame
unpack-encode f h =
    rw
      (
        read-pack 1 1 _ (omega arith),
        read-pack 1 0 _ (omega arith),
        read-pack 2 52 _ (omega arith),
        read-pack 16 f.stream_id _ h.stream,
        read-pack 8 f.sequence _ h.sequence,
        read-pack 8 f.captured_at_monotonic_ns _ h.captured,
        read-pack 4 f.format.sample_rate_hz _ h.rate,
        read-pack 2 f.format.channels _ h.channels,
        read-pack 1 1 _ (omega arith),
        read-pack 1 0 _ (omega arith),
        read-pack 4 (length f.pcm) _ h.payload,
      )
      refl

drop_twice : (a b c : ℕ) (xs : List ℕ) → c ≡ a + b → drop b (drop a xs) ≡ drop c xs
drop_twice zero b c xs e = ap (λ k. drop k xs) (omega arith)
drop_twice (suc a) zero zero [] e = refl
drop_twice (suc a) (suc b) zero [] e = refl
drop_twice (suc a) zero (suc c) [] e = refl
drop_twice (suc a) (suc b) (suc c) [] e = refl
drop_twice (suc a) b zero (x ∷ xs) e = absurd (omega arith)
drop_twice (suc a) b (suc c) (x ∷ xs) e = drop_twice a b c xs (omega arith)

pub drop-drop : (a b : ℕ) (xs : List ℕ) → drop b (drop a xs) ≡ drop (a + b) xs
drop-drop a b xs = drop_twice a b (a + b) xs refl

-- What `unpack_from` leaves is what the source slices off at the header's length.
unpack-drop : (view : List ℕ) → (unpack view).1 ≡ drop 52 view
unfolding unpack read
unpack-drop view =
    let total : 4 + 1 + 1 + 2 + 16 + 8 + 8 + 4 + 2 + 1 + 1 + 4 ≡ 52 = refl in
    simp drop-drop (ap (λ k. drop k view) total)

length-encode : (f : VoiceInputFrame) → length (encode_voice_input_frame f) ≡ 52 + length f.pcm
unfolding encode_voice_input_frame
length-encode f = simp (length-append, length-pack) (omega arith)

build-is_frame :
    (f : VoiceInputFrame)
    → check_format f.format ≡ ok tt
    → is_frame f ≡ true
    → build (check_format f.format) f ≡ ok f
build-is_frame f format valid = rw (format, valid) refl

check_header_lem :
    (limit : ℕ) (f : VoiceInputFrame)
    → length f.pcm ≤ limit
    → 0 < length f.pcm
    → check_header limit (52 + length f.pcm) (header_of f) ≡ ok tt
unfolding check_header
check_header_lem limit f small some_pcm = ground arith

pcm-non_empty : (f : VoiceInputFrame) → is_frame f ≡ true → 0 < length f.pcm
unfolding is_frame
pcm-non_empty f valid = ground arith

only_encoding : (e : PcmEncoding) → s16_le ≡ e
only_encoding s16_le = refl

frame_of-header_of : (f : VoiceInputFrame) → frame_of (header_of f) f.pcm ≡ f
frame_of-header_of f =
    ap (λ e. record f { format = record f.format { encoding = e } })
      (only_encoding f.format.encoding)

decode_view_lem :
    (limit : ℕ) (f : VoiceInputFrame)
    → check_format f.format ≡ ok tt
    → is_frame f ≡ true
    → length f.pcm ≤ limit
    → limit ≤ max_u32
    → decode_view limit (52 + length f.pcm) (header_of f) f.pcm ≡ ok f
unfolding decode_view
decode_view_lem limit f format valid small allowed =
    let permitted : ltb max_u32 limit ≡ false = ground arith in
    let long_enough : ltb (52 + length f.pcm) 52 ≡ false = ground arith in
    let checked = check_header_lem limit f small (pcm-non_empty f valid) in
    rw (permitted, long_enough, checked)
      (subst (λ g. build (check_format g.format) g ≡ ok f) (sym (frame_of-header_of f))
        (build-is_frame f format valid))

-- A frame that its own constructors accept, with a 128-bit identifier and a payload within a
-- permitted limit, survives the wire: decoding what encoding wrote returns the same frame.
pub decode-encode :
    (limit : ℕ) (f : VoiceInputFrame)
    → f.stream_id < 256 ^ 16
    → check_format f.format ≡ ok tt
    → is_frame f ≡ true
    → length f.pcm ≤ limit
    → limit ≤ max_u32
    → decode_voice_input_frame limit (encode_voice_input_frame f) ≡ ok f
unfolding decode_voice_input_frame
decode-encode limit f id format valid small allowed =
    let unpacked = unpack-encode f (FitsFields_lem f id format valid) in
    let size = length-encode f in
    let header : (unpack (encode_voice_input_frame f)).0 ≡ header_of f =
      ap (λ (r : Header × List ℕ). r.0) unpacked in
    let payload : drop 52 (encode_voice_input_frame f) ≡ f.pcm =
      sym (unpack-drop (encode_voice_input_frame f)) ∙ ap (λ (r : Header × List ℕ). r.1) unpacked in
    let raw = encode_voice_input_frame f in
    subst (λ h. decode_view limit (length raw) h (drop 52 raw) ≡ ok f) (sym header)
      (subst (λ p. decode_view limit (length raw) (header_of f) p ≡ ok f) (sym payload)
        (subst (λ n. decode_view limit n (header_of f) f.pcm ≡ ok f) (sym size)
          (decode_view_lem limit f format valid small allowed)))

check_header-bounds :
    (limit size : ℕ) (h : Header)
    → check_header limit size h ≡ ok tt
    → (size ≡ 52 + h.payload_bytes) × (h.payload_bytes ≤ limit)
unfolding check_header
check_header-bounds limit size h e = (ground arith, ground arith)

build-ok :
    (r : Result MediaError (Unit {0})) (g f : VoiceInputFrame)
    → build r g ≡ ok f
    → (r ≡ ok tt) × (is_frame g ≡ true) × (g ≡ f)
build-ok (err e) g f h = absurd (cc)
build-ok (ok tt) g f h =
    let (_, valid, same) = >>=-eq-ok (raise_if (not (is_frame g)) bad_metadata) _ h in
    (refl, ground arith, ground arith)

decode_view-ok :
    (limit size : ℕ) (h : Header) (pcm : List ℕ) (f : VoiceInputFrame)
    → decode_view limit size h pcm ≡ ok f
    → (size ≡ 52 + h.payload_bytes)
      × (h.payload_bytes ≤ limit)
      × (check_format f.format ≡ ok tt)
      × (is_frame f ≡ true)
      × (f.pcm ≡ pcm)
unfolding decode_view
decode_view-ok limit size h pcm f e =
    let (_, _, e₁) = >>=-eq-ok (raise_if (ltb max_u32 limit) bad_limit) _ e in
    let (_, _, e₂) = >>=-eq-ok (raise_if (ltb size 52) too_short) _ e₁ in
    let (_, checked, e₃) = >>=-eq-ok (check_header limit size h) _ e₂ in
    let g = frame_of h pcm in
    let (format, valid, same) = build-ok (check_format g.format) g f e₃ in
    let (exact, small) = check_header-bounds limit size h checked in
    (
      exact,
      small,
      subst (λ (x : VoiceInputFrame). check_format x.format ≡ ok tt) same format,
      subst (λ x. is_frame x ≡ true) same valid,
      sym (ap (λ (x : VoiceInputFrame). x.pcm) same),
    )

length-drop : (n k : ℕ) (xs : List ℕ) → length xs ≡ n + k → length (drop n xs) ≡ k
length-drop zero k xs h = omega arith
length-drop (suc n) k [] h = absurd (omega arith)
length-drop (suc n) k (x ∷ xs) h = length-drop n k xs (omega arith)

-- Whatever bytes arrive, a message that is decoded has a payload within the limit and no byte
-- beyond it, and the frame passes the checks of its constructors.
pub decode-bounds :
    (limit : ℕ) (raw : List ℕ) (f : VoiceInputFrame)
    → decode_voice_input_frame limit raw ≡ ok f
    → (length raw ≡ 52 + length f.pcm)
      × (length f.pcm ≤ limit)
      × (check_format f.format ≡ ok tt)
      × (is_frame f ≡ true)
unfolding decode_voice_input_frame
decode-bounds limit raw f e =
    let (exact, small, format, valid, payload) =
      decode_view-ok limit (length raw) (unpack raw).0 (drop 52 raw) f e in
    let size : length f.pcm ≡ (unpack raw).0.payload_bytes =
      ap length payload ∙ length-drop 52 _ raw exact in
    (omega arith, omega arith, format, valid)
