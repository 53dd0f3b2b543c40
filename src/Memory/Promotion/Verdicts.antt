-- ===== src/Memory/Promotion/Verdicts.antt =====
-- What the promotion policy (src/eeveetuber/memory/promotion.py) lets into memory by itself.
use eeveetuber.Common.{◌<◌, ◌≡◌, ◌↔◌, ◌⊎◌, true, false, [], arith, length}
use eeveetuber.Memory.Promotion.{
  auto_commit, MemoryCandidate, PromotionPolicy, user_profile, relationship, semantic_fact, episode,
  active_task, owner_authored, owner_stated, trusted_operator, Sensitivity, internal,
  review_reasons, review, classify_by, classify,
}

module _ {F : Type 0} (p : PromotionPolicy F) where
  -- What is committed without review, written out: the five kinds, the three sources and the two
  -- sensitivities.
  pub record IsHarmless (c : MemoryCandidate F) : Type 0 where
    pub kind :
        (c.kind ≡ user_profile)
        ⊎ ((c.kind ≡ relationship)
            ⊎ ((c.kind ≡ semantic_fact) ⊎ ((c.kind ≡ episode) ⊎ (c.kind ≡ active_task))))
    pub trust :
        (c.source_trust ≡ owner_authored)
        ⊎ ((c.source_trust ≡ owner_stated) ⊎ (c.source_trust ≡ trusted_operator))
    pub harmless : (c.sensitivity ≡ Sensitivity.public) ⊎ (c.sensitivity ≡ internal)
    pub consistent : c.contradiction_revision_ids ≡ []
    pub consented : c.consented ≡ true
    pub confident : p.less c.confidence p.auto_commit_confidence ≡ false

  -- A candidate is committed without review exactly if it is a user profile, a relationship, a
  -- semantic fact, an episode or an active task; it is authored or stated by the owner or comes from
  -- a trusted operator; its sensitivity is public or internal; and it contradicts nothing, has
  -- recorded consent and is not below the required confidence. Nothing more is asked of an episode.
  pub auto_commit_iff : (c : MemoryCandidate F) → ((classify p c).0 ≡ auto_commit) ↔ IsHarmless c
  unfolding classify classify_by review review_reasons
  auto_commit_iff c = (
    λ h. record {
      kind = ground arith;
      trust = ground arith;
      harmless = ground arith;
      consistent = ground arith;
      consented = ground arith;
      confident = ground arith;
    },
    λ h. ground (arith, h.kind, h.trust, h.harmless, h.consistent, h.consented, h.confident),
  )

  -- Every decision gives at least one reason, as the model of a decision demands.
  pub classify-has_reason : (c : MemoryCandidate F) → 0 < length (classify p c).1
  unfolding classify classify_by review review_reasons
  classify-has_reason c = ground arith
