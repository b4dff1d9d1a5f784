-- ===== src/Tests/Manifests.antt =====
-- The manifest of one evidence.
use veto.Shared.{◌≡◌, refl, String, some, [], ◌∷◌}
use veto.Shared.Int.{pos}
use veto.VerifiedRun.{
  Evidence, EvidenceManifest, accepted, refused, duplicate_criterion, parse_evidence,
  validate_criteria,
}
use veto.VerifiedRun.Complete.{IsComplete, parse_evidence-IsComplete}
use veto.Tests.Data.{caseless}

abbrev log : Evidence
log = record { id = "e1"; criterion = "works"; kind = "log"; summary = "passed"; sha256 = "" }

abbrev one_manifest : EvidenceManifest
one_manifest = record { version = pos 1; evidence = log ∷ [] }

abbrev keep : String → String
keep s = s

log-accepted :
    parse_evidence keep (λ text. some one_manifest) "{}" (" works " ∷ []) ≡ accepted (log ∷ [])
unfolding parse_evidence
log-accepted = refl

twice-refused : validate_criteria ("works" ∷ " works" ∷ []) ≡ refused duplicate_criterion
unfolding validate_criteria
twice-refused = refl

parse_evidence-IsComplete_example : IsComplete (" works " ∷ []) (log ∷ [])
parse_evidence-IsComplete_example =
    parse_evidence-IsComplete keep (λ text. some one_manifest) "{}" (" works " ∷ []) (log ∷ [])
      log-accepted
