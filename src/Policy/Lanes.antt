-- ===== src/Policy/Lanes.antt =====
-- newz/policy/lanes.py: the evidence lanes that each claim kind requires.
use new_z.Prelude.{List, [], ◌∷◌}
use new_z.Domain.Evidence.{ClaimKind}
use new_z.Domain.Work.{EvidenceLane}

unfoldable pub required : ClaimKind → List EvidenceLane
required ClaimKind.attribution = EvidenceLane.claimant_origin ∷ []
required ClaimKind.document_existence = EvidenceLane.primary_record ∷ []
required ClaimKind.event_or_observation =
    EvidenceLane.claimant_origin ∷ EvidenceLane.primary_record
    ∷ EvidenceLane.independent_counterpart ∷ EvidenceLane.skeptical_analysis ∷ []
required ClaimKind.measurement_or_association =
    EvidenceLane.primary_record ∷ EvidenceLane.empirical ∷ EvidenceLane.independent_counterpart
    ∷ EvidenceLane.skeptical_analysis ∷ []
required ClaimKind.causal_or_mechanistic =
    EvidenceLane.empirical ∷ EvidenceLane.independent_counterpart ∷ EvidenceLane.skeptical_analysis
    ∷ []
required ClaimKind.capability_or_performance =
    EvidenceLane.primary_record ∷ EvidenceLane.empirical ∷ EvidenceLane.independent_counterpart
    ∷ EvidenceLane.skeptical_analysis ∷ []
required ClaimKind.identity_or_wrongdoing_allegation =
    EvidenceLane.claimant_origin ∷ EvidenceLane.primary_record ∷ EvidenceLane.resolver ∷ []
required ClaimKind.forecast = EvidenceLane.resolver ∷ []
required ClaimKind.normative_proposition = []
