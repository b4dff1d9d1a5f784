-- ===== src/VerifiedRun.antt =====
-- pkg/verifiedrun/verifiedrun.go: the manifests of criteria and of evidence. The JSON decoder and
-- ledger.Redact are parameters.
pub mod Complete
use Prim.Native.Char.{Char, code}
use veto.Shared.{
  ℕ, String, Bool, true, false, not, ◌&&◌, ◌||◌, Option, none, some, List, [], ◌∷◌, any, ltb, leb,
  nat_eq, if◌then◌else◌,
}
use veto.Shared.Int.{ℤ, pos, eq_ℤ}
use veto.Shared.Text.{◌==◌, Unicode, to_lower, trim_space, byte_length, contains}

pub record CriteriaManifest : Type 0 where
  pub version : ℤ
  pub criteria : List String

-- Evidence. `kind` is its field Type.
pub record Evidence : Type 0 where
  pub id : String
  pub criterion : String
  pub kind : String
  pub summary : String
  pub sha256 : String

pub record EvidenceManifest : Type 0 where
  pub version : ℤ
  pub evidence : List Evidence

pub data ManifestError : Type 0 where
  not_decoded unsupported_version no_criteria empty_criterion : ManifestError
  duplicate_criterion summary_too_long incomplete_evidence : ManifestError
  duplicate_id unknown_criterion invalid_sha256 uncovered_criterion : ManifestError

pub data Checked (A : Type 0) : Type 0 where
  accepted : A → Checked A
  refused : ManifestError → Checked A

abbrev pub schema_version : ℤ
schema_version = pos 1

abbrev pub max_summary_bytes : ℕ
max_summary_bytes = 1024

abbrev pub cons : {A : Type 0} → A → Checked (List A) → Checked (List A)
cons a (accepted rest) = accepted (a ∷ rest)
cons a (refused e) = refused e

-- The loop of validateCriteria, with the criteria that it has seen
unfoldable pub normalize_criteria : List String → List String → Checked (List String)
unfolding trim_space contains
normalize_criteria seen [] = accepted []
normalize_criteria seen (criterion ∷ criteria) =
    let c = trim_space criterion in
    let rest = normalize_criteria (c ∷ seen) criteria in
    if c == ""
    then refused empty_criterion
    else if contains seen c
    then refused duplicate_criterion
    else cons c rest

-- validateCriteria
unfoldable pub validate_criteria : List String → Checked (List String)
unfolding normalize_criteria
validate_criteria [] = refused no_criteria
validate_criteria (criterion ∷ criteria) = normalize_criteria [] (criterion ∷ criteria)

-- ParseCriteria
unfoldable pub parse_criteria : (String → Option CriteriaManifest) → String → Checked (List String)
unfolding validate_criteria
parse_criteria decode text = elim (decode text) [
  | none ↦ refused not_decoded
  | some manifest ↦
      if eq_ℤ manifest.version schema_version
      then validate_criteria manifest.criteria
      else refused unsupported_version
]

abbrev is_hex : Char → Bool
is_hex c =
    let n = code c in
    (leb b'0' n && leb n b'9') || (leb b'a' n && leb n b'f') || (leb b'A' n && leb n b'F')

unfoldable all_hex : String → Bool
all_hex String.[] = true
all_hex (String.◌∷◌ c s) = is_hex c && all_hex s

-- validSHA256
unfoldable pub valid_sha256 : String → Bool
unfolding byte_length all_hex
valid_sha256 value = nat_eq (byte_length value) 64 && all_hex value

abbrev pub is_incomplete : Evidence → Bool
is_incomplete e = e.id == "" || e.criterion == "" || e.kind == "" || e.summary == ""

-- covered[criterion]
unfoldable pub is_covered : List Evidence → String → Bool
is_covered items criterion = any (λ e. e.criterion == criterion) items

unfoldable pub all_covered : List Evidence → List String → Bool
unfolding is_covered
all_covered items [] = true
all_covered items (c ∷ cs) = is_covered items c && all_covered items cs

-- The end of ParseEvidence, from the loop on
unfoldable pub covered_evidence : List String → Checked (List Evidence) → Checked (List Evidence)
unfolding all_covered
covered_evidence criteria (refused e) = refused e
covered_evidence criteria (accepted items) =
    if all_covered items criteria then accepted items else refused uncovered_criterion

module _ ⦃u : Unicode⦄ (redact : String → String) where
  -- The fields of an evidence as the loop of ParseEvidence leaves them
  unfoldable pub cleaned : Evidence → Evidence
  unfolding trim_space to_lower
  cleaned e = record {
    id = trim_space e.id;
    criterion = trim_space e.criterion;
    kind = trim_space e.kind;
    summary = redact (trim_space e.summary);
    sha256 = to_lower (trim_space e.sha256);
  }

  -- The checks of the loop on one evidence
  unfoldable pub check_evidence : List String → List String → Evidence → Option ManifestError
  unfolding cleaned valid_sha256 byte_length trim_space contains
  check_evidence allowed seen raw =
      let e = cleaned raw in
      if ltb max_summary_bytes (byte_length (trim_space raw.summary))
      then some summary_too_long
      else if is_incomplete e
      then some incomplete_evidence
      else if contains seen e.id
      then some duplicate_id
      else if not (contains allowed e.criterion)
      then some unknown_criterion
      else if not (e.sha256 == "") && not (valid_sha256 e.sha256)
      then some invalid_sha256
      else none

  -- The loop of ParseEvidence
  unfoldable pub check_all : List String → List String → List Evidence → Checked (List Evidence)
  unfolding check_evidence cleaned
  check_all allowed seen [] = accepted []
  check_all allowed seen (raw ∷ raws) =
      let rest = check_all allowed ((cleaned raw).id ∷ seen) raws in
      elim (check_evidence allowed seen raw) [ some e ↦ refused e | none ↦ cons (cleaned raw) rest ]

  unfoldable pub evidence_for : Checked (List String) → List Evidence → Checked (List Evidence)
  unfolding covered_evidence check_all
  evidence_for (refused e) items = refused e
  evidence_for (accepted criteria) items = covered_evidence criteria (check_all criteria [] items)

  -- ParseEvidence
  unfoldable pub parse_evidence :
      (String → Option EvidenceManifest) → String → List String → Checked (List Evidence)
  unfolding evidence_for validate_criteria
  parse_evidence decode text criteria = elim (decode text) [
    | none ↦ refused not_decoded
    | some manifest ↦
        if eq_ℤ manifest.version schema_version
        then evidence_for (validate_criteria criteria) manifest.evidence
        else refused unsupported_version
  ]
