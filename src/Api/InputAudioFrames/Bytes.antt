-- ===== src/Api/InputAudioFrames/Bytes.antt =====
-- Unsigned numbers in network byte order, as the `Struct` of
-- src/eeveetuber/api/input_audio_frames.py packs and unpacks them.
use eeveetuber.Common.{
  ℕ, zero, suc, ◌+◌, ◌*◌, ◌/◌, ◌%◌, ◌^◌, ◌<◌, ◌≡◌, subst, refl, List, [], ◌∷◌, ◌++◌, arith, length,
  take, drop, length-append,
}
use native.Mathlib.Nat.{pow-suc}
use eeveetuber.Common.Lists.{take-append, drop-append}

-- `n` bytes, the most significant one first.
pub pack : ℕ → ℕ → List ℕ
pack zero v = []
pack (suc n) v = pack n (v / 256) ++ (v % 256) ∷ []

pub from_bytes : ℕ → List ℕ → ℕ
from_bytes high [] = high
from_bytes high (b ∷ bs) = from_bytes (high * 256 + b) bs

-- The number in the first `n` bytes, and what follows them.
unfoldable pub read : ℕ → List ℕ → ℕ × List ℕ
read n bytes = (from_bytes 0 (take n bytes), drop n bytes)

pub length-pack : (n v : ℕ) → length (pack n v) ≡ n
unfolding pack
length-pack zero v = refl
length-pack (suc n) v =
    omega (arith, length-append (pack n (v / 256)) ((v % 256) ∷ []), length-pack n (v / 256))

from_bytes-snoc :
    (high : ℕ) (bs : List ℕ) (b : ℕ) → from_bytes high (bs ++ b ∷ []) ≡ from_bytes high bs * 256 + b
unfolding from_bytes
from_bytes-snoc high [] b = refl
from_bytes-snoc high (x ∷ bs) b = from_bytes-snoc (high * 256 + x) bs b

from_bytes-pack : (n v : ℕ) → v < 256 ^ n → from_bytes 0 (pack n v) ≡ v
unfolding pack from_bytes
from_bytes-pack zero v h = omega arith
from_bytes-pack (suc n) v h =
    let rest = from_bytes-pack n (v / 256) (omega (arith, pow-suc 256 n)) in
    omega (arith, from_bytes-snoc 0 (pack n (v / 256)) (v % 256), rest)

-- Reading takes back what packing wrote.
pub read-pack : (n v : ℕ) (rest : List ℕ) → v < 256 ^ n → read n (pack n v ++ rest) ≡ (v, rest)
unfolding read
read-pack n v rest h =
    let size = length-pack n v in
    let front : take n (pack n v ++ rest) ≡ pack n v =
      subst (λ k. take k (pack n v ++ rest) ≡ pack n v) size (take-append (pack n v) rest) in
    let back : drop n (pack n v ++ rest) ≡ rest =
      subst (λ k. drop k (pack n v ++ rest) ≡ rest) size (drop-append (pack n v) rest) in
    rw (front, back, from_bytes-pack n v h) refl
