-- ===== src/Media/Vad/Retention.antt =====
-- What the idle detector keeps of the past (src/eeveetuber/media/vad.py, `_remember_idle_frame`).
use eeveetuber.Common.{
  ℕ, ◌-◌, ◌≡◌, ◌∙◌, refl, inl, inr, true, false, some, List, [], ◌∷◌, ◌++◌, arith, Bool-cases,
  sum_of,
}
use eeveetuber.Media.Types.{PcmFrame, byte_size, duration_ns}
use eeveetuber.Media.Vad.State.{EnergyVadConfig}
use eeveetuber.Media.Vad.{exceeds, trim}

abbrev pub total_bytes : List PcmFrame → ℕ
total_bytes fs = sum_of byte_size fs

abbrev pub total_ns : List PcmFrame → ℕ
total_ns fs = sum_of duration_ns fs

module _ (c : EnergyVadConfig) where
  -- Frames within all three bounds of the history.
  abbrev pub Fits : List PcmFrame → Type 0
  Fits fs = exceeds c fs (total_bytes fs) (total_ns fs) ≡ false

  trim_fitting :
      (fs : List PcmFrame)
      → Fits fs
      → trim c fs (total_bytes fs) (total_ns fs) ≡ some (fs, total_bytes fs, total_ns fs)
  unfolding trim
  trim_fitting [] h = rw h refl
  trim_fitting (f ∷ fs) h = rw h refl

  trim_step :
      (f : PcmFrame) (fs : List PcmFrame)
      → exceeds c (f ∷ fs) (total_bytes (f ∷ fs)) (total_ns (f ∷ fs)) ≡ true
      → trim c (f ∷ fs) (total_bytes (f ∷ fs)) (total_ns (f ∷ fs))
        ≡ trim c fs (total_bytes fs) (total_ns fs)
  unfolding trim
  trim_step f fs h =
      let bytes : total_bytes (f ∷ fs) - byte_size f ≡ total_bytes fs = omega arith in
      let duration : total_ns (f ∷ fs) - duration_ns f ≡ total_ns fs = omega arith in
      rw (h, bytes, duration) refl

  -- Old frames leave at the front only until the rest fits, so a tail that fits by itself stays
  -- whole; what holds of a list and of its tails holds of what stays.
  pub trim_lem :
      (P : List PcmFrame → Type 0) (tail : List PcmFrame)
      → ((f : PcmFrame) (fs : List PcmFrame) → P (f ∷ fs) → P fs)
      → Fits tail
      → (pre : List PcmFrame) → P (pre ++ tail)
      → (kept : List PcmFrame) × (trim c
            (pre ++ tail)
            (total_bytes (pre ++ tail))
            (total_ns (pre ++ tail))
          ≡ some (kept ++ tail, total_bytes (kept ++ tail), total_ns (kept ++ tail)))
        × P (kept ++ tail)
        × Fits (kept ++ tail)
  trim_lem P tail shrink fits [] p = ([], trim_fitting tail fits, p, fits)
  trim_lem P tail shrink fits (f ∷ pre) p =
      let (kept, same, q, small) = trim_lem P tail shrink fits pre (shrink f (pre ++ tail) p) in
      elim (Bool-cases (
        exceeds c (f ∷ pre ++ tail) (total_bytes (f ∷ pre ++ tail)) (total_ns (f ∷ pre ++ tail)))) [
          | inl over ↦ (kept, trim_step f (pre ++ tail) over ∙ same, q, small)
          | inr whole ↦ (f ∷ pre, trim_fitting (f ∷ pre ++ tail) whole, p, whole)
        ]
