-- ===== src/Api/AudioFrames/Wire.antt =====
-- The round trip of EVAF frames (src/eeveetuber/api/audio_frames.py).
use eeveetuber.Common.{
  ℕ, ◌+◌, ◌^◌, ◌≤◌, ◌<◌, ◌≡◌, ◌∙◌, ap, sym, subst, refl, Bool, true, false, ◌&&◌, Option, none,
  some, List, ◌++◌, arith, length, drop, length-append, take-append, drop-append, ltb, ◌==◌,
}
use eeveetuber.Common.Text.{Str}
use eeveetuber.Common.Result.{ok}
use eeveetuber.Api.InputAudioFrames.{max_u32, max_u64}
use eeveetuber.Api.InputAudioFrames.Bytes.{read, length-pack, read-pack}
use eeveetuber.Api.InputAudioFrames.Laws.{drop-drop}
use eeveetuber.Api.AudioFrames.{
  AudioFrame, max_u16, fixed_header_bytes, audio_magic, has_known_flags, is_uint, is_duration,
  is_ascii, is_media_type, is_audio_frame, raw_duration_of, duration_of, encode_audio_frame,
  AudioHeader, unpack_header, check_audio_header, audio_frame_of, accept, decode_parts,
  decode_audio_frame,
}

-- The identifiers are of 128 bits.
pub record HasUuids (f : AudioFrame) : Type 0 where
  pub session : f.session_id < 256 ^ 16
  pub event : f.event_id < 256 ^ 16
  pub correlation : f.correlation_id < 256 ^ 16
  pub turn : f.turn_id < 256 ^ 16
  pub segment : f.segment_id < 256 ^ 16

-- Every number fits the field that it is packed into.
record IsPackable (f : AudioFrame) : Type 0 where
  generation : f.generation < 256 ^ 4
  event_sequence : f.event_sequence < 256 ^ 8
  segment_sequence : f.segment_sequence < 256 ^ 4
  chunk_index : f.chunk_index < 256 ^ 4
  rate : f.sample_rate_hz < 256 ^ 4
  channels : f.channels < 256 ^ 2
  duration : is_duration f.duration_ms ≡ true
  flags : f.flags < 8
  media : is_media_type f.media_type ≡ true
  payload : length f.audio < 256 ^ 4

both : (a b : Bool) → (a && b) ≡ true → (a ≡ true) × (b ≡ true)
both a b h = (ground arith, ground arith)

is_uint-bound : (n maximum minimum : ℕ) → is_uint n maximum minimum ≡ true → n ≤ maximum
is_uint-bound n maximum minimum h = ground arith

IsPackable_lem : (f : AudioFrame) → is_audio_frame f ≡ true → IsPackable f
unfolding is_audio_frame
IsPackable_lem f valid =
    let (a, h₁) = both (is_uint f.generation max_u32 0) _ valid in
    let (b, h₂) = both (is_uint f.event_sequence max_u64 0) _ h₁ in
    let (c, h₃) = both (is_uint f.segment_sequence max_u32 0) _ h₂ in
    let (d, h₄) = both (is_uint f.chunk_index max_u32 0) _ h₃ in
    let (e, h₅) = both (is_uint f.sample_rate_hz max_u32 1) _ h₄ in
    let (g, h₆) = both (is_uint f.channels max_u16 1) _ h₅ in
    let (duration, h₇) = both (is_duration f.duration_ms) _ h₆ in
    let (flags, h₈) = both (has_known_flags f.flags) _ h₇ in
    let (media, size) = both (is_media_type f.media_type) _ h₈ in
    record {
      generation = omega (arith, is_uint-bound f.generation max_u32 0 a);
      event_sequence = omega (arith, is_uint-bound f.event_sequence max_u64 0 b);
      segment_sequence = omega (arith, is_uint-bound f.segment_sequence max_u32 0 c);
      chunk_index = omega (arith, is_uint-bound f.chunk_index max_u32 0 d);
      rate = omega (arith, is_uint-bound f.sample_rate_hz max_u32 1 e);
      channels = omega (arith, is_uint-bound f.channels max_u16 1 g);
      duration = duration;
      flags = ground arith;
      media = media;
      payload = ground arith;
    }

media_ascii : (text : Str) → is_media_type text ≡ true → is_ascii text ≡ true
unfolding is_media_type
media_ascii text h = ground arith

raw_duration_of-bound : (d : Option ℕ) → is_duration d ≡ true → raw_duration_of d < 256 ^ 4
raw_duration_of-bound none h = omega arith
raw_duration_of-bound (some d) h = ground arith

duration_of-raw_duration_of :
    (d : Option ℕ) → is_duration d ≡ true → duration_of (raw_duration_of d) ≡ d
duration_of-raw_duration_of none h = refl
duration_of-raw_duration_of (some d) h =
    let other : (d == max_u32) ≡ false = ground arith in rw other refl

-- The header that `encode_audio_frame` writes.
abbrev header_of : AudioFrame → AudioHeader
header_of f = record {
  magic_bytes = audio_magic;
  version = 1;
  raw_flags = f.flags;
  header_bytes = fixed_header_bytes + length f.media_type;
  session_id = f.session_id;
  event_id = f.event_id;
  correlation_id = f.correlation_id;
  turn_id = f.turn_id;
  segment_id = f.segment_id;
  generation = f.generation;
  event_sequence = f.event_sequence;
  segment_sequence = f.segment_sequence;
  chunk_index = f.chunk_index;
  sample_rate_hz = f.sample_rate_hz;
  channels = f.channels;
  media_type_bytes = length f.media_type;
  raw_duration = raw_duration_of f.duration_ms;
  payload_bytes = length f.audio;
}

abbrev body_of : AudioFrame → List ℕ
body_of f = f.media_type ++ f.audio

unpack_header-encode_audio_frame :
    (f : AudioFrame)
    → HasUuids f
    → IsPackable f
    → fixed_header_bytes + length f.media_type ≤ max_u16
    → unpack_header (encode_audio_frame f) ≡ (header_of f, body_of f)
unfolding unpack_header encode_audio_frame
unpack_header-encode_audio_frame f u h short =
    rw
      (
        read-pack 1 1 _ (omega arith),
        read-pack 1 f.flags _ (omega (arith, h.flags)),
        read-pack 2 (fixed_header_bytes + length f.media_type) _ (omega (arith, short)),
        read-pack 16 f.session_id _ u.session,
        read-pack 16 f.event_id _ u.event,
        read-pack 16 f.correlation_id _ u.correlation,
        read-pack 16 f.turn_id _ u.turn,
        read-pack 16 f.segment_id _ u.segment,
        read-pack 4 f.generation _ h.generation,
        read-pack 8 f.event_sequence _ h.event_sequence,
        read-pack 4 f.segment_sequence _ h.segment_sequence,
        read-pack 4 f.chunk_index _ h.chunk_index,
        read-pack 4 f.sample_rate_hz _ h.rate,
        read-pack 2 f.channels _ h.channels,
        read-pack 2 (length f.media_type) _ (omega (arith, short)),
        read-pack 4 (raw_duration_of f.duration_ms) _
            (raw_duration_of-bound f.duration_ms h.duration),
        read-pack 4 (length f.audio) _ h.payload,
      )
      refl

unpack_header-rest : (view : List ℕ) → (unpack_header view).1 ≡ drop fixed_header_bytes view
unfolding unpack_header read
unpack_header-rest view =
    let total : 4 + 1 + 1 + 2 + 16 + 16 + 16 + 16 + 16 + 4 + 8 + 4 + 4 + 4 + 2 + 2 + 4 + 4 ≡ 124 =
      refl in
    simp drop-drop (ap (λ k. drop k view) total)

length-encode_audio_frame :
    (f : AudioFrame)
    → length (encode_audio_frame f) ≡ fixed_header_bytes + length f.media_type + length f.audio
unfolding encode_audio_frame
length-encode_audio_frame f = simp (length-append, length-pack) (omega arith)

check_audio_header_lem :
    (limit : ℕ) (f : AudioFrame)
    → IsPackable f
    → length f.audio ≤ limit
    → check_audio_header limit
        (fixed_header_bytes + length f.media_type + length f.audio)
        (header_of f)
      ≡ ok tt
unfolding check_audio_header
check_audio_header_lem limit f h small =
    let flags : has_known_flags f.flags ≡ true = ground (arith, h.flags) in
    let header : (fixed_header_bytes + length f.media_type
          == fixed_header_bytes + length f.media_type)
        ≡ true =
      ground arith in
    let allowed : ltb limit (length f.audio) ≡ false = ground arith in
    let exact : (fixed_header_bytes + length f.media_type + length f.audio
          == fixed_header_bytes + length f.media_type + length f.audio)
        ≡ true =
      ground arith in
    rw (flags, header, allowed, exact) refl

audio_frame_of-header_of :
    (f : AudioFrame)
    → is_duration f.duration_ms ≡ true
    → audio_frame_of (header_of f) f.media_type f.audio ≡ f
audio_frame_of-header_of f h =
    ap (λ d. record f { duration_ms = d }) (duration_of-raw_duration_of f.duration_ms h)

accept_lem :
    (ascii : Bool) (f : AudioFrame) → ascii ≡ true → is_audio_frame f ≡ true → accept ascii f ≡ ok f
accept_lem ascii f pure_ascii valid = rw (pure_ascii, valid) refl

decode_parts_lem :
    (limit : ℕ) (f : AudioFrame)
    → is_audio_frame f ≡ true
    → length f.audio ≤ limit
    → decode_parts limit
        (fixed_header_bytes + length f.media_type + length f.audio)
        (header_of f)
        (body_of f)
      ≡ ok f
unfolding decode_parts
decode_parts_lem limit f valid small =
    let h = IsPackable_lem f valid in
    let long_enough : ltb (fixed_header_bytes + length f.media_type + length f.audio)
          fixed_header_bytes
        ≡ false =
      ground arith in
    let checked = check_audio_header_lem limit f h small in
    let ascii = media_ascii f.media_type h.media in
    rw (long_enough, checked, take-append f.media_type f.audio, drop-append f.media_type f.audio)
      (subst (λ g. accept (is_ascii f.media_type) g ≡ ok f)
        (sym (audio_frame_of-header_of f h.duration))
        (accept_lem (is_ascii f.media_type) f ascii valid))

-- A frame that its constructor accepts, with 128-bit identifiers, a media type that leaves the header
-- its two bytes of length, and audio within the receiver's limit, survives the wire: decoding what
-- encoding wrote returns the same frame, its flags and an unknown duration included.
pub decode_audio_frame-encode_audio_frame :
    (limit : ℕ) (f : AudioFrame)
    → HasUuids f
    → is_audio_frame f ≡ true
    → fixed_header_bytes + length f.media_type ≤ max_u16
    → length f.audio ≤ limit
    → decode_audio_frame limit (encode_audio_frame f) ≡ ok f
unfolding decode_audio_frame
decode_audio_frame-encode_audio_frame limit f uuids valid short small =
    let packet = encode_audio_frame f in
    let unpacked = unpack_header-encode_audio_frame f uuids (IsPackable_lem f valid) short in
    let body : drop fixed_header_bytes packet ≡ body_of f =
      sym (unpack_header-rest packet) ∙ ap (λ (r : AudioHeader × List ℕ). r.1) unpacked in
    subst (λ h. decode_parts limit (length packet) h (drop fixed_header_bytes packet) ≡ ok f)
      (sym (ap (λ (r : AudioHeader × List ℕ). r.0) unpacked))
      (subst (λ b. decode_parts limit (length packet) (header_of f) b ≡ ok f) (sym body)
        (subst (λ n. decode_parts limit n (header_of f) (body_of f) ≡ ok f)
          (sym (length-encode_audio_frame f)) (decode_parts_lem limit f valid small)))
