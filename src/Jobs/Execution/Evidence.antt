-- ===== src/Jobs/Execution/Evidence.antt =====
-- The evidence of backend/app/jobs/execution.py. `Scalar` is what a caller or a stored dict may hold
-- in a field; the callers pass texts where the code also takes a datetime or an enum member.
use Prim.Native.String.{count, ◌++◌}
use pashupatastra_sih.Prelude.{
  ℕ, ℤ, ltb_ℤ, ltb, Bool, true, false, not, ◌||◌, ◌&&◌, Option, none, some, is_some, List, [], ◌∷◌,
  String, ◌==◌, any, map, length, suc,
}
use pashupatastra_sih.Prelude.Blank.{strip}
use pashupatastra_sih.Prelude.Dict.{Dict, get, contains}
use pashupatastra_sih.Result.{
  Result, ok, err, ◌>>=◌, ◌>>◌, raise_if, evidence_validation, value_error,
}
use pashupatastra_sih.Contracts.{Scalar, missing, integer, string, real}
use pashupatastra_sih.Python.{Platform}
use pashupatastra_sih.Jobs.State.{scalar_eq}
use pashupatastra_sih.Jobs.Execution.Ids.{is_evidence_id}
use pashupatastra_sih.Jobs.Execution.Time.{
  parse_observed_at, canonical_observed_at, require_not_in_future,
}

pub data EvidenceKind : Type 0 where
  photo video document measurement : EvidenceKind

pub data EvidencePhase : Type 0 where
  before_work after_work work_not_completed : EvidencePhase

abbrev pub kind_value : EvidenceKind → String
kind_value photo = "PHOTO"
kind_value video = "VIDEO"
kind_value document = "DOCUMENT"
kind_value measurement = "MEASUREMENT"

abbrev pub phase_value : EvidencePhase → String
phase_value before_work = "BEFORE_WORK"
phase_value after_work = "AFTER_WORK"
phase_value work_not_completed = "NOT_COMPLETED"

abbrev kind_texts : Dict EvidenceKind
kind_texts =
    ("PHOTO", photo) ∷ ("VIDEO", video) ∷ ("DOCUMENT", document) ∷ ("MEASUREMENT", measurement) ∷ []

abbrev phase_texts : Dict EvidencePhase
phase_texts =
    ("BEFORE_WORK", before_work)
    ∷ ("AFTER_WORK", after_work)
    ∷ ("NOT_COMPLETED", work_not_completed)
    ∷ []

-- `EvidenceKind(value)` and `EvidencePhase(value)`.
unfoldable pub kind_from : Scalar → Option EvidenceKind
kind_from (string s) = get s kind_texts
kind_from _ = none

unfoldable pub phase_from : Scalar → Option EvidencePhase
phase_from (string s) = get s phase_texts
phase_from _ = none

abbrev pub phase_eq : EvidencePhase → EvidencePhase → Bool
phase_eq before_work before_work = true
phase_eq after_work after_work = true
phase_eq work_not_completed work_not_completed = true
phase_eq _ _ = false

-- The value, or `EvidenceValidationError` where there is none.
abbrev pub required {ℓ} : {A : Type ℓ} → Option A → Result A
required none = err evidence_validation
required (some a) = ok a

-- `_optional_coordinate`
unfoldable pub optional_coordinate : Platform → Scalar → ℕ → Result (Option String)
optional_coordinate P missing bound = ok none
optional_coordinate P (integer n) bound =
    raise_if (not (P.within bound (P.to_float n))) evidence_validation >> ok (some (P.to_float n))
optional_coordinate P (real x) bound =
    raise_if (not (P.within bound x)) evidence_validation >> ok (some x)
optional_coordinate P _ bound = err evidence_validation

pub record EvidenceItem : Type 0 where
  pub evidence_reference : String
  pub evidence_kind : EvidenceKind
  pub captured_at : String
  pub latitude : Option String
  pub longitude : Option String
  pub note : Option String

-- The fields that the constructor is called with.
pub record EvidenceFields : Type 0 where
  pub evidence_reference : Scalar
  pub evidence_kind : Scalar
  pub captured_at : Scalar
  pub latitude : Scalar
  pub longitude : Scalar
  pub note : Scalar

-- `MAX_EVIDENCE_ITEMS`, `MAX_EVIDENCE_REFERENCE_LENGTH` and `MAX_EVIDENCE_NOTE_LENGTH`
abbrev pub max_evidence_items : ℕ
max_evidence_items = 10

abbrev pub max_reference_length : ℕ
max_reference_length = 200

abbrev pub max_note_length : ℕ
max_note_length = 500

unfoldable pub normal_reference : Scalar → Result String
normal_reference (string s) = do
  raise_if (strip s == "") evidence_validation
  raise_if (ltb max_reference_length (count (strip s))) evidence_validation
  ok (strip s)
normal_reference _ = err evidence_validation

unfoldable pub normal_captured_at : Platform → Scalar → Result String
normal_captured_at P (string s) = do
  moment ← parse_observed_at P s
  ok (canonical_observed_at P moment)
normal_captured_at P _ = err evidence_validation

unfoldable pub normal_note : Scalar → Result (Option String)
normal_note missing = ok none
normal_note (string s) = raise_if (ltb max_note_length (count s)) evidence_validation >> ok (some s)
normal_note _ = err evidence_validation

abbrev pub same_bool : Bool → Bool → Bool
same_bool true b = b
same_bool false b = not b

-- `EvidenceItem.__post_init__`
unfoldable pub evidence_item : Platform → EvidenceFields → Result EvidenceItem
evidence_item P f = do
  reference ← normal_reference f.evidence_reference
  kind ← required (kind_from f.evidence_kind)
  captured ← normal_captured_at P f.captured_at
  latitude ← optional_coordinate P f.latitude 90
  longitude ← optional_coordinate P f.longitude 180
  raise_if (not (same_bool (is_some latitude) (is_some longitude))) evidence_validation
  note ← normal_note f.note
  ok (record {
    evidence_reference = reference;
    evidence_kind = kind;
    captured_at = captured;
    latitude = latitude;
    longitude = longitude;
    note = note;
  })

-- `captured_moment`: `datetime.fromisoformat` of a canonical text.
unfoldable pub captured_moment : Platform → String → Result ℤ
captured_moment P captured_at = elim (P.from_iso captured_at) [
  | none ↦ err value_error
  | some d ↦ ok d.micros
]

pub record RecordedEvidence : Type 0 where
  pub evidence_id : String
  pub phase : EvidencePhase
  pub item : EvidenceItem

-- A value of a field that may be None.
abbrev pub optional_scalar : (String → Scalar) → Option String → Scalar
optional_scalar f none = missing
optional_scalar f (some s) = f s

-- `RecordedEvidence.to_dict`
unfoldable pub to_dict : RecordedEvidence → Dict Scalar
to_dict r =
    ("evidence_id", string r.evidence_id)
    ∷ ("phase", string (phase_value r.phase))
    ∷ ("evidence_reference", string r.item.evidence_reference)
    ∷ ("evidence_kind", string (kind_value r.item.evidence_kind))
    ∷ ("captured_at", string r.item.captured_at)
    ∷ ("latitude", optional_scalar real r.item.latitude)
    ∷ ("longitude", optional_scalar real r.item.longitude)
    ∷ ("note", optional_scalar string r.item.note)
    ∷ []

abbrev pub expected_keys : List String
expected_keys =
    "evidence_id" ∷ "phase" ∷ "evidence_reference" ∷ "evidence_kind" ∷ "captured_at" ∷ "latitude"
    ∷ "longitude" ∷ "note" ∷ []

-- `set(data) == expected`
abbrev pub has_expected_keys : Dict Scalar → Bool
has_expected_keys d =
    not (any (λ k. not (contains k d)) expected_keys)
    && not (any (λ (x : String × Scalar). not (any (λ k. k == x.0) expected_keys)) d)

-- `data[key]`, of a dict that has the key.
abbrev pub field_of : String → Dict Scalar → Scalar
field_of k d = elim (get k d) [ none ↦ missing | some v ↦ v ]

-- Python's `==` of two scalars: an int equals the float of the same number.
abbrev pub python_eq : Platform → Scalar → Scalar → Bool
python_eq P (real x) (integer n) = x == P.to_float n
python_eq P a b = scalar_eq a b

-- `recorded.to_dict() == dict(data)`, of dicts with the same keys.
unfoldable pub same_fields : Platform → Dict Scalar → Dict Scalar → Bool
same_fields P [] d = true
same_fields P ((k, v) ∷ fs) d = python_eq P v (field_of k d) && same_fields P fs d

unfoldable pub valid_id : Scalar → Result String
valid_id (string s) = raise_if (not (is_evidence_id s)) evidence_validation >> ok s
valid_id _ = err evidence_validation

-- `RecordedEvidence.from_dict`
unfoldable pub from_dict : Platform → Dict Scalar → Result RecordedEvidence
from_dict P stored = do
  raise_if (not (has_expected_keys stored)) evidence_validation
  evidence_id ← valid_id (field_of "evidence_id" stored)
  phase ← required (phase_from (field_of "phase" stored))
  item ← evidence_item P (record {
    evidence_reference = field_of "evidence_reference" stored;
    evidence_kind = field_of "evidence_kind" stored;
    captured_at = field_of "captured_at" stored;
    latitude = field_of "latitude" stored;
    longitude = field_of "longitude" stored;
    note = field_of "note" stored;
  })
  let recorded : RecordedEvidence = record { evidence_id = evidence_id; phase = phase; item = item }
  raise_if (not (same_fields P (to_dict recorded) stored)) evidence_validation
  ok recorded

abbrev pub references : List EvidenceItem → List String
references items = map (λ i. i.evidence_reference) items

-- A text occurs twice.
unfoldable pub has_repeat : List String → Bool
has_repeat [] = false
has_repeat (r ∷ rs) = any (λ s. s == r) rs || has_repeat rs

-- A bound that may be None.
abbrev pub past : Option ℤ → (ℤ → Bool) → Bool
past none test = false
past (some bound) test = test bound

-- The loop of `validate_evidence_set` over the items.
unfoldable pub check_captured :
    Platform → ℤ → Option ℤ → Option ℤ → List EvidenceItem → Result (Unit {0})
check_captured P now not_after not_before [] = ok tt
check_captured P now not_after not_before (i ∷ items) = do
  captured ← captured_moment P i.captured_at
  require_not_in_future captured now
  raise_if (past not_after (λ bound. ltb_ℤ bound captured)) evidence_validation
  raise_if (past not_before (λ bound. ltb_ℤ captured bound)) evidence_validation
  check_captured P now not_after not_before items

-- `validate_evidence_set`
unfoldable pub validate_evidence_set :
    Platform
    → List EvidenceItem
    → ℤ
    → ℕ
    → Option ℤ
    → Option ℤ
    → List String
    → Result (List EvidenceItem)
validate_evidence_set P items now minimum not_after not_before forbidden = do
  raise_if (ltb (length items) minimum || ltb max_evidence_items (length items)) evidence_validation
  raise_if (has_repeat (references items)) evidence_validation
  raise_if (any (λ r. any (λ f. f == r) forbidden) (references items)) evidence_validation
  check_captured P now not_after not_before items
  ok items

-- `new_evidence_id`
abbrev pub new_evidence_id : Platform → ℕ → String
new_evidence_id P n = "EVD-" ++ P.new_hex n

-- `record_evidence`; the n-th item gets the n-th new id.
unfoldable pub record_from :
    Platform → ℕ → EvidencePhase → List EvidenceItem → List RecordedEvidence
record_from P n phase [] = []
record_from P n phase (i ∷ items) =
    record { evidence_id = new_evidence_id P n; phase = phase; item = i }
    ∷ record_from P (suc n) phase items

unfoldable pub record_evidence : Platform → List EvidenceItem → EvidencePhase → List (Dict Scalar)
record_evidence P items phase = map to_dict (record_from P 0 phase items)
