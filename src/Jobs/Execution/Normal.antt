-- ===== src/Jobs/Execution/Normal.antt =====
-- execution.py's evidence, as it is stored and rebuilt.
use pashupatastra_sih.Prelude.{ℕ, ℤ, String, true, not, Option, is_some, ◌≡◌, refl, subst, any}
use pashupatastra_sih.Prelude.Blank.{strip, strip-strip}
use pashupatastra_sih.Prelude.Dict.{get}
use pashupatastra_sih.Result.{
  ok, >>=-ok, >>-ok, >>=-eq-ok, >>-eq-ok, raise_if, ok_injective, evidence_validation,
}
use pashupatastra_sih.Contracts.{Scalar, missing, integer, string, real}
use pashupatastra_sih.Python.{Platform}
use pashupatastra_sih.Jobs.Values.{scalar_eq_refl}
use pashupatastra_sih.Jobs.Execution.Ids.{is_evidence_id}
use pashupatastra_sih.Jobs.Execution.Platform.{IsPlatform}
use pashupatastra_sih.Jobs.Execution.Time.{parse_observed_at, canonical_observed_at}
use pashupatastra_sih.Jobs.Execution.Evidence.{
  EvidenceKind, photo, video, document, measurement, kind_value, kind_from, EvidencePhase,
  before_work, after_work, work_not_completed, phase_value, phase_from, EvidenceItem,
  EvidenceFields, normal_reference, normal_captured_at, optional_coordinate, normal_note,
  optional_scalar, evidence_item, required, same_bool, RecordedEvidence, to_dict, from_dict,
  has_expected_keys, same_fields, python_eq, valid_id,
}

-- The fields that spell a normalized item.
abbrev pub spelled : EvidenceItem → EvidenceFields
spelled i = record {
  evidence_reference = string i.evidence_reference;
  evidence_kind = string (kind_value i.evidence_kind);
  captured_at = string i.captured_at;
  latitude = optional_scalar real i.latitude;
  longitude = optional_scalar real i.longitude;
  note = optional_scalar string i.note;
}

reference-normal :
    (v : Scalar) {r : String} → normal_reference v ≡ ok r → normal_reference (string r) ≡ ok r
unfolding normal_reference
reference-normal (string s) {r} h =
    let a = >>-eq-ok _ _ h in
    let b = >>-eq-ok _ _ a.1 in
    let stripped : normal_reference (string (strip s)) ≡ ok (strip s) =
      rw (strip-strip s) (>>-ok a.0 (>>-ok b.0 refl)) in
    subst (λ r. normal_reference (string r) ≡ ok r) (ok_injective b.1) stripped
reference-normal _ h = cc

kind-normal : (k : EvidenceKind) → required (kind_from (string (kind_value k))) ≡ ok k
unfolding kind_from get
kind-normal photo = refl
kind-normal video = refl
kind-normal document = refl
kind-normal measurement = refl

coordinate-normal :
    (P : Platform) (v : Scalar) (bound : ℕ) {c : Option String}
    → optional_coordinate P v bound ≡ ok c
    → optional_coordinate P (optional_scalar real c) bound ≡ ok c
unfolding optional_coordinate
coordinate-normal P missing bound h =
    subst (λ c. optional_coordinate P (optional_scalar real c) bound ≡ ok c) (ok_injective h) refl
coordinate-normal P (integer n) bound h =
    let a = >>-eq-ok _ _ h in
    subst (λ c. optional_coordinate P (optional_scalar real c) bound ≡ ok c) (ok_injective a.1)
      (>>-ok a.0 refl)
coordinate-normal P (real x) bound h =
    let a = >>-eq-ok _ _ h in
    subst (λ c. optional_coordinate P (optional_scalar real c) bound ≡ ok c) (ok_injective a.1)
      (>>-ok a.0 refl)
coordinate-normal P _ bound h = cc

note-normal :
    (v : Scalar) {n : Option String}
    → normal_note v ≡ ok n
    → normal_note (optional_scalar string n) ≡ ok n
unfolding normal_note
note-normal missing h =
    subst (λ n. normal_note (optional_scalar string n) ≡ ok n) (ok_injective h) refl
note-normal (string s) h =
    let a = >>-eq-ok _ _ h in
    subst (λ n. normal_note (optional_scalar string n) ≡ ok n) (ok_injective a.1) (>>-ok a.0 refl)
note-normal _ h = cc

module _ (P : Platform) (laws : IsPlatform P) where
  pub parse-canonical : (m : ℤ) → parse_observed_at P (canonical_observed_at P m) ≡ ok m
  unfolding parse_observed_at
  parse-canonical m = rw (parse_observed_at, laws.iso_strip m, laws.iso_read m) refl

  captured-normal :
      (v : Scalar) {c : String}
      → normal_captured_at P v ≡ ok c
      → normal_captured_at P (string c) ≡ ok c
  unfolding normal_captured_at
  captured-normal (string s) h =
      let (m, e, f) = >>=-eq-ok (parse_observed_at P s) _ h in
      let again : normal_captured_at P (string (P.to_iso m)) ≡ ok (P.to_iso m) =
        >>=-ok _ (parse-canonical m) refl in
      subst (λ c. normal_captured_at P (string c) ≡ ok c) (ok_injective f) again
  captured-normal _ h = cc

  -- An item that the constructor returned is one that it returns for the item's own fields.
  pub evidence_item-normal :
      (f : EvidenceFields) {i : EvidenceItem}
      → evidence_item P f ≡ ok i
      → evidence_item P (spelled i) ≡ ok i
  unfolding evidence_item
  evidence_item-normal f {i} h =
      let (r, er, h1) = >>=-eq-ok (normal_reference f.evidence_reference) _ h in
      let (k, ek, h2) = >>=-eq-ok (required (kind_from f.evidence_kind)) _ h1 in
      let (c, ec, h3) = >>=-eq-ok (normal_captured_at P f.captured_at) _ h2 in
      let (lat, elat, h4) = >>=-eq-ok (optional_coordinate P f.latitude 90) _ h3 in
      let (long, elong, h5) = >>=-eq-ok (optional_coordinate P f.longitude 180) _ h4 in
      let (same, h6) =
        >>-eq-ok (raise_if (not (same_bool (is_some lat) (is_some long))) evidence_validation) _
          h5 in
      let (n, en, h7) = >>=-eq-ok (normal_note f.note) _ h6 in
      subst (λ j. evidence_item P (spelled j) ≡ ok j) (ok_injective h7)
        (>>=-ok _ (reference-normal f.evidence_reference er) (
          >>=-ok _ (kind-normal k) (
            >>=-ok _ (captured-normal f.captured_at ec) (
              >>=-ok _ (coordinate-normal P f.latitude 90 elat) (
                >>=-ok _ (coordinate-normal P f.longitude 180 elong)
                  (>>-ok same (>>=-ok _ (note-normal f.note en) refl)))))))

phase-normal : (p : EvidencePhase) → required (phase_from (string (phase_value p))) ≡ ok p
unfolding phase_from get
phase-normal before_work = refl
phase-normal after_work = refl
phase-normal work_not_completed = refl

python_eq_refl : (P : Platform) (v : Scalar) → python_eq P v v ≡ true
python_eq_refl P (real x) = scalar_eq_refl (real x)
python_eq_refl P v = scalar_eq_refl v

has-expected : (r : RecordedEvidence) → has_expected_keys (to_dict r) ≡ true
unfolding to_dict any get
has-expected r = refl

same-fields : (P : Platform) (r : RecordedEvidence) → same_fields P (to_dict r) (to_dict r) ≡ true
unfolding to_dict same_fields get
same-fields P r = simp (python_eq_refl P)

-- Evidence that was stored under a well-formed id is rebuilt as it was.
pub from_dict-to_dict :
    (P : Platform) (laws : IsPlatform P) (r : RecordedEvidence) (f : EvidenceFields)
    → evidence_item P f ≡ ok r.item
    → is_evidence_id r.evidence_id ≡ true
    → from_dict P (to_dict r) ≡ ok r
unfolding from_dict valid_id get to_dict
from_dict-to_dict P laws r f h w = >>-ok keys (
    >>=-ok _ id (
      >>=-ok _ (phase-normal r.phase)
        (>>=-ok _ (evidence_item-normal P laws f h) (>>-ok same refl))))
  where
    keys : raise_if (not (has_expected_keys (to_dict r))) evidence_validation ≡ ok tt
    keys = rw (has-expected r) refl

    id : valid_id (string r.evidence_id) ≡ ok r.evidence_id
    id = rw (valid_id, w) refl

    same : raise_if (not (same_fields P (to_dict r) (to_dict r))) evidence_validation ≡ ok tt
    same = rw (same-fields P r) refl
