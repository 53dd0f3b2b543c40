-- ===== src/Tests/Memory.antt =====
-- Concrete memory candidates (src/eeveetuber/memory/promotion.py), with confidences in percent.
use eeveetuber.Common.{ℕ, ◌<◌, ◌≡◌, ◌↔◌, true, [], length, ltb}
use eeveetuber.Memory.Promotion.{
  MemoryCandidate, PromotionPolicy, episode, owner_stated, internal, auto_commit, classify,
}
use eeveetuber.Memory.Promotion.Verdicts.{IsHarmless, auto_commit_iff, classify-has_reason}

abbrev policy : PromotionPolicy ℕ
policy = record { auto_commit_confidence = 90; less = ltb }

abbrev candidate : MemoryCandidate ℕ
candidate = record {
  kind = episode;
  source_trust = owner_stated;
  sensitivity = internal;
  contradiction_revision_ids = [];
  consented = true;
  confidence = 95;
}

auto_commit_iff_example :
    ((classify policy candidate).0 ≡ auto_commit) ↔ IsHarmless policy candidate
auto_commit_iff_example = auto_commit_iff policy candidate

classify-has_reason_example : 0 < length (classify policy candidate).1
classify-has_reason_example = classify-has_reason policy candidate
