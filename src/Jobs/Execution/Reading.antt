-- ===== src/Jobs/Execution/Reading.antt =====
-- What execution.py's `_Reader` gives for the values that an event carries.
use pashupatastra_sih.Prelude.{
  ℕ, ℤ, suc, String, Bool, true, false, not, Option, none, some, List, [], ◌∷◌, ◌++◌, ◌≡◌, refl,
  ==_iff, ◌==◌, any, map, All, arith,
}
use pashupatastra_sih.Prelude.Dict.{get}
use pashupatastra_sih.Result.{ok, ◌>>=◌, >>=-ok, >>-ok, >>=-split, raise_if, execution_integrity}
use pashupatastra_sih.Contracts.{text, num, entries}
use pashupatastra_sih.Python.{Platform}
use pashupatastra_sih.Jobs.State.{JobEvent}
use pashupatastra_sih.Jobs.Guards.{is_empty}
use pashupatastra_sih.Jobs.Plans.Blocks.{text_value}
use pashupatastra_sih.Jobs.Execution.Ids.{is_evidence_id, matches_id-prefix}
use pashupatastra_sih.Jobs.Execution.Platform.{IsPlatform}
use pashupatastra_sih.Jobs.Execution.Evidence.{
  EvidenceItem, EvidenceFields, evidence_item, EvidencePhase, phase_eq, to_dict, record_from,
  record_evidence, new_evidence_id,
}
use pashupatastra_sih.Jobs.Execution.Time.{parse_observed_at}
use pashupatastra_sih.Jobs.Execution.Normal.{from_dict-to_dict, parse-canonical}
use pashupatastra_sih.Jobs.Execution.Records.{
  read_text, read_int, read_optional_text, read_timestamp, rebuild, read_evidence, integrity,
  read_events, read_event, ExecutionRecord,
}

-- The item was made by `EvidenceItem`.
abbrev pub IsItem : Platform → EvidenceItem → Type 0
IsItem P i = (f : EvidenceFields) × (evidence_item P f ≡ ok i)

pub read-text :
    (k s : String) (e : JobEvent)
    → get k e.metadata ≡ some (text s)
    → (s == "") ≡ false
    → read_text k e ≡ ok s
unfolding read_text
read-text k s e g f = rw (read_text, g, f) refl

pub read-int :
    (k : String) (n : ℤ) (e : JobEvent) → get k e.metadata ≡ some (num n) → read_int k e ≡ ok n
unfolding read_int
read-int k n e g = rw (read_int, g) refl

-- An optional text that is there is not empty.
abbrev pub is_filled : Option String → Bool
is_filled none = true
is_filled (some s) = not (s == "")

pub read-optional_text :
    (k : String) (s : Option String) (e : JobEvent)
    → get k e.metadata ≡ some (text_value s)
    → is_filled s ≡ true
    → read_optional_text k e ≡ ok s
unfolding read_optional_text
read-optional_text k none e g h = rw (read_optional_text, g) refl
read-optional_text k (some s) e g h = rw (read_optional_text, g) (>>-ok (passes (s == "") h) refl)
  where
    passes : (b : Bool) → not b ≡ true → raise_if b execution_integrity ≡ ok tt
    passes b h = ground arith

phase_eq_refl : (p : EvidencePhase) → phase_eq p p ≡ true
phase_eq_refl p = ground arith

module _ (P : Platform) (laws : IsPlatform P) where
  pub read-timestamp :
      (k : String) (m : ℤ) (e : JobEvent)
      → get k e.metadata ≡ some (text (P.to_iso m))
      → read_timestamp P k e ≡ ok (P.to_iso m)
  unfolding read_timestamp
  read-timestamp k m e g =
      >>=-ok _ (read-text k (P.to_iso m) e g (laws.iso_filled m))
        (>>=-ok _ parsed (>>-ok same refl))
    where
      parsed : integrity (parse_observed_at P (P.to_iso m)) ≡ ok m
      parsed = rw (parse-canonical P laws m) refl

      same : raise_if (not (P.to_iso m == P.to_iso m)) execution_integrity ≡ ok tt
      same = rw ((==_iff (P.to_iso m) (P.to_iso m)).1 refl) refl

  new_id : (n : ℕ) → is_evidence_id (new_evidence_id P n) ≡ true
  new_id n = rw (matches_id-prefix "EVD-" (P.new_hex n)) (laws.uuid_hex n)

  rebuild-record :
      (n : ℕ) (phase : EvidencePhase) (items : List EvidenceItem)
      → All (IsItem P) items
      → rebuild P (map to_dict (record_from P n phase items)) ≡ ok (record_from P n phase items)
  unfolding rebuild record_from
  rebuild-record n phase [] h = refl
  rebuild-record n phase (i ∷ items) h =
      >>=-ok _
        (from_dict-to_dict P laws
          (record { evidence_id = new_evidence_id P n; phase = phase; item = i }) h.0.0 h.0.1
          (new_id n))
        (>>=-ok _ (rebuild-record (suc n) phase items h.1) refl)

  one_phase :
      (n : ℕ) (phase : EvidencePhase) (items : List EvidenceItem)
      → any (λ i. not (phase_eq i.phase phase)) (record_from P n phase items) ≡ false
  unfolding record_from any
  one_phase n phase [] = refl
  one_phase n phase (i ∷ items) = rw (phase_eq_refl phase) (one_phase (suc n) phase items)

  pub recorded-filled :
      (n : ℕ) (phase : EvidencePhase) (items : List EvidenceItem)
      → is_empty items ≡ false
      → is_empty (record_from P n phase items) ≡ false
  unfolding record_from
  recorded-filled n phase [] h = cc
  recorded-filled n phase (i ∷ items) h = refl

  -- The evidence that an event carries is the evidence that was recorded in it.
  pub read-evidence :
      (k : String) (phase : EvidencePhase) (items : List EvidenceItem) (e : JobEvent)
      → All (IsItem P) items
      → get k e.metadata ≡ some (entries (record_evidence P items phase))
      → read_evidence P k phase e ≡ ok (record_from P 0 phase items)
  unfolding record_evidence read_evidence
  read-evidence k phase items e h g = rw (read_evidence, g) (>>=-ok _ rebuilt (>>-ok same refl))
    where
      rebuilt :
          integrity (rebuild P (map to_dict (record_from P 0 phase items)))
          ≡ ok (record_from P 0 phase items)
      rebuilt = rw (rebuild-record 0 phase items h) refl

      same :
          raise_if
            (any (λ i. not (phase_eq i.phase phase)) (record_from P 0 phase items))
            execution_integrity
          ≡ ok tt
      same = rw (one_phase 0 phase items) refl

pub read_events-append :
    (P : Platform) (job_id : String) (order : List ExecutionRecord) (xs ys : List JobEvent)
    → read_events P job_id order (xs ++ ys)
      ≡ (read_events P job_id order xs >>= λ next. read_events P job_id next ys)
unfolding read_events
read_events-append P job_id order [] ys = refl
read_events-append P job_id order (x ∷ xs) ys =
    >>=-split (read_event P job_id x order) _ _ _ (λ next. read_events-append P job_id next xs ys)
