-- ===== src/Memory/Promotion.antt =====
-- src/eeveetuber/memory/promotion.py and the enumerations of src/eeveetuber/memory/models.py that it
-- reads. A confidence is a value of any type with a test `less` (`<` of floats).
pub mod Verdicts
use eeveetuber.Common.{ℕ, Bool, true, false, not, ◌&&◌, List, [], ◌∷◌, ◌++◌, if◌then◌else◌}

pub data MemoryKind : Type 0 where
  canon persona user_profile viewer_profile relationship semantic_fact episode : MemoryKind
  active_task procedural_skill policy security : MemoryKind

pub data SourceTrust : Type 0 where
  owner_authored owner_stated trusted_operator authenticated_user tool_observation : SourceTrust
  model_inference public_viewer unverified_import : SourceTrust

pub data Sensitivity : Type 0 where
  public internal private_content restricted : Sensitivity

pub data PromotionAction : Type 0 where
  auto_commit require_review quarantine reject : PromotionAction

-- `inferred_by_model` is the code "model_inference".
pub data ReasonCode : Type 0 where
  policy_and_security_are_not_memory skills_require_separate_work_mode_lifecycle : ReasonCode
  untrusted_or_public_source owner_controlled_identity sensitive_content : ReasonCode
  contradicts_committed_memory inferred_by_model consent_not_recorded : ReasonCode
  below_auto_commit_confidence class_requires_review source_requires_review : ReasonCode
  high_confidence_low_risk_owner_source : ReasonCode

-- The fields of a candidate and of its provenance that the policy reads.
pub record MemoryCandidate (F : Type 0) : Type 0 where
  pub kind : MemoryKind
  pub source_trust : SourceTrust
  pub sensitivity : Sensitivity
  pub contradiction_revision_ids : List ℕ
  pub consented : Bool
  pub confidence : F

pub record PromotionPolicy (F : Type 0) : Type 0 where
  pub auto_commit_confidence : F
  pub less : F → F → Bool

-- What the first two tests of `_classify` make of a kind.
pub data KindVerdict : Type 0 where
  no_memory separate_skill candidate_kind : KindVerdict

abbrev pub kind_verdict : MemoryKind → KindVerdict
kind_verdict policy = no_memory
kind_verdict security = no_memory
kind_verdict procedural_skill = separate_skill
kind_verdict _ = candidate_kind

abbrev pub is_untrusted : SourceTrust → Bool
is_untrusted public_viewer = true
is_untrusted unverified_import = true
is_untrusted _ = false

abbrev pub is_identity : MemoryKind → Bool
is_identity canon = true
is_identity persona = true
is_identity _ = false

abbrev pub is_sensitive : Sensitivity → Bool
is_sensitive private_content = true
is_sensitive restricted = true
is_sensitive _ = false

abbrev pub is_inference : SourceTrust → Bool
is_inference model_inference = true
is_inference _ = false

-- `auto_kinds`
abbrev pub is_auto_kind : MemoryKind → Bool
is_auto_kind user_profile = true
is_auto_kind relationship = true
is_auto_kind semantic_fact = true
is_auto_kind episode = true
is_auto_kind active_task = true
is_auto_kind _ = false

-- `auto_trust`
abbrev pub is_auto_trust : SourceTrust → Bool
is_auto_trust owner_authored = true
is_auto_trust owner_stated = true
is_auto_trust trusted_operator = true
is_auto_trust _ = false

abbrev pub is_empty : {A : Type 0} → List A → Bool
is_empty [] = true
is_empty (x ∷ xs) = false

-- `if test: review_reasons.append(reason)`
abbrev pub reason_if : Bool → ReasonCode → List ReasonCode
reason_if true reason = reason ∷ []
reason_if false reason = []

-- `review_reasons or default`
abbrev pub reasons_or : List ReasonCode → ReasonCode → List ReasonCode
reasons_or [] default = default ∷ []
reasons_or (r ∷ rs) default = r ∷ rs

module _ {F : Type 0} (p : PromotionPolicy F) where
  unfoldable pub review_reasons : MemoryCandidate F → List ReasonCode
  review_reasons c =
      reason_if (is_identity c.kind) owner_controlled_identity
      ++ (reason_if (is_sensitive c.sensitivity) sensitive_content
          ++ (reason_if (not (is_empty c.contradiction_revision_ids)) contradicts_committed_memory
              ++ (reason_if (is_inference c.source_trust) inferred_by_model
                  ++ (reason_if (not c.consented) consent_not_recorded
                      ++ reason_if (p.less c.confidence p.auto_commit_confidence)
                          below_auto_commit_confidence))))

  -- `_classify` past the tests that reject or quarantine.
  unfoldable pub review : MemoryCandidate F → PromotionAction × List ReasonCode
  unfolding review_reasons
  review c =
      let reasons = review_reasons c in
      if not (is_empty reasons && is_auto_kind c.kind)
      then (require_review, reasons_or reasons class_requires_review)
      else (if not (is_auto_trust c.source_trust)
          then (require_review, source_requires_review ∷ [])
          else (auto_commit, high_confidence_low_risk_owner_source ∷ []))

  unfoldable pub classify_by : KindVerdict → MemoryCandidate F → PromotionAction × List ReasonCode
  unfolding review
  classify_by no_memory c = (reject, policy_and_security_are_not_memory ∷ [])
  classify_by separate_skill c = (reject, skills_require_separate_work_mode_lifecycle ∷ [])
  classify_by candidate_kind c =
      if is_untrusted c.source_trust
      then (quarantine, untrusted_or_public_source ∷ [])
      else review c

  -- `_classify`
  unfoldable pub classify : MemoryCandidate F → PromotionAction × List ReasonCode
  unfolding classify_by
  classify c = classify_by (kind_verdict c.kind) c
