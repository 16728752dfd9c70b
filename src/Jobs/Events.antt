-- ===== src/Jobs/Events.antt =====
-- The constructor of backend/app/jobs/events.py's `JobEvent`, applied to the fields of an event.
use Prim.Native.Char.{Char, code}
use Prim.Native.String.{String, [], ◌∷◌}
use pashupatastra_sih.Prelude.{
  Bool, true, false, not, ◌&&◌, ◌||◌, if◌then◌else◌, ◌≡◌, ap, sym, ◌∙◌, List, refl,
}
use pashupatastra_sih.Prelude.Tests.{leb, ◌==◌}
use pashupatastra_sih.Prelude.{[] as nil, ◌∷◌ as cons}
use pashupatastra_sih.Result.{
  Result, ok, ◌>>=◌, ◌>>◌, >>=-eq-ok, >>-eq-ok, ok_injective, raise_if, value_error,
}
use pashupatastra_sih.Jobs.State.{JobMutation, JobEvent}

-- `\d`, of ASCII.
abbrev pub is_digit : Char → Bool
is_digit c = leb 48 (code c) && leb (code c) 57

abbrev same_char : Char → Char → Bool
same_char p c = leb (code p) (code c) && leb (code c) (code p)

-- The letter that stands for a digit in a template.
abbrev is_digit_place : Char → Bool
is_digit_place p = leb 100 (code p) && leb (code p) 100

-- The text follows a template whose letter `d` stands for a digit; the dollar sign of the pattern
-- also matches before a newline that ends the text.
unfoldable pub follows : String → String → Bool
follows [] s = s == "" || s == "\n"
follows (p ∷ template) [] = false
follows (p ∷ template) (c ∷ s) =
    (if is_digit_place p then is_digit c else same_char p c) && follows template s

-- `EVENT_TIMESTAMP_PATTERN.match`
unfoldable pub is_event_time : String → Bool
is_event_time s = follows "dddd-dd-ddTdd:dd:dd.dddddd+00:00" s

-- `JobEvent.__post_init__`, of an event whose id was minted, whose actor is an `Actor` and whose
-- metadata is plain JSON.
unfoldable pub make_event : JobEvent → Result JobEvent
make_event e = do raise_if (e.job_id == "" || not (is_event_time e.occurred_at)) value_error; ok e

-- The events of one job, made in their order.
unfoldable pub make_events : List JobEvent → Result (List JobEvent)
make_events nil = ok nil
make_events (cons e es) = do made ← make_event e; rest ← make_events es; ok (cons made rest)

-- What a plan of one mutation and one event returns.
abbrev pub recorded :
    {F : Type 0} → JobMutation F → JobEvent → Result (List (JobMutation F) × List JobEvent)
recorded m e = do made ← make_event e; ok (cons m nil, cons made nil)

pub recorded-ok :
    {F : Type 0} (m : JobMutation F) (e : JobEvent)
    → (e.job_id == "") ≡ false
    → is_event_time e.occurred_at ≡ true
    → recorded m e ≡ ok (cons m nil, cons e nil)
unfolding make_event
recorded-ok m e i t = rw (i, t) refl

-- An event that is made is the one of the fields.
make_event-same : (e : JobEvent) {made : JobEvent} → make_event e ≡ ok made → e ≡ made
unfolding make_event
make_event-same e h =
    let (c, q) =
      >>-eq-ok (raise_if (e.job_id == "" || not (is_event_time e.occurred_at)) value_error) _ h in
    ok_injective q

pub recorded-Parts :
    {F : Type 0} (m : JobMutation F) (e : JobEvent) {ms : List (JobMutation F)} {es : List JobEvent}
    → recorded m e ≡ ok (ms, es)
    → (ms ≡ cons m nil) × (es ≡ cons e nil)
recorded-Parts m e h =
    let (made, q, h1) = >>=-eq-ok (make_event e) _ h in
    let same = make_event-same e q in
    (
      sym (ap (λ x. x.0) (ok_injective h1)),
      sym (ap (λ x. x.1) (ok_injective h1)) ∙ ap (λ x. cons x nil) (sym same),
    )
