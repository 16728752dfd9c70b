-- ===== src/Result.antt =====
-- Python's exceptions as values: the classes that the modelled code raises, without the messages.
use pashupatastra_sih.Prelude.{
  ◌≡◌, refl, List, [], ◌∷◌, ◌++◌, All, All-append, In, here, there, Bool, true, false, not, String,
  subst,
}

pub data Error : Type 0 where
  value_error : Error
  key_error : Error
  type_error : Error
  terminal_job : Error
  committed_job : Error
  -- with `job_ids`
  committed_state_integrity : List String → Error
  invalid_transition : Error
  stale_proposal : Error
  concurrent_modification : Error
  stale_execution : Error
  execution_token : Error
  release_token : Error
  execution_integrity : Error
  evidence_validation : Error
  horizon_anchor : Error
  invalid_sla_policy : Error
  obligation_integrity : Error

-- What a call returns, or the exception that it raises.
pub data Result {ℓ} (V : Type ℓ) : Type ℓ where
  ok : (returned : V) → Result V
  err : (raised : Error) → Result V

-- `if wrong: raise error`
abbrev pub raise_if : (wrong : Bool) (error : Error) → Result (Unit {0})
raise_if false error = ok tt
raise_if true error = err error

module _ {ℓ κ} {V : Type ℓ} {W : Type κ} where
  -- Go on with what a call returned.
  infixl 5 ◌>>=◌
  abbrev pub ◌>>=◌ : Result V → (V → Result W) → Result W
  err raised >>= next = err raised
  ok returned >>= next = next returned

  pub >>=-eq-ok :
      (call : Result V) (next : V → Result W) {w : W}
      → (call >>= next) ≡ ok w
      → (v : V) × (call ≡ ok v) × (next v ≡ ok w)
  >>=-eq-ok (err raised) next q = cc
  >>=-eq-ok (ok returned) next q = (returned, refl, q)

module _ {κ} {W : Type κ} where
  -- Go on after a check.
  infixl 5 ◌>>◌
  abbrev pub ◌>>◌ : Result (Unit {0}) → Result W → Result W
  check >> next = check >>= λ _. next

  pub >>-eq-ok :
      (check : Result (Unit {0})) (next : Result W) {w : W}
      → (check >> next) ≡ ok w
      → (check ≡ ok tt) × (next ≡ ok w)
  >>-eq-ok (err raised) next q = cc
  >>-eq-ok (ok tt) next q = (refl, q)

pub >>=-ok {ℓ κ} :
    {A : Type ℓ} {B : Type κ} {m : Result A} (f : A → Result B) {a : A} {r : Result B}
    → m ≡ ok a
    → f a ≡ r
    → (m >>= f) ≡ r
>>=-ok f h g = rw h g

pub >>-ok {ℓ} :
    {B : Type ℓ} {m : Result (Unit {0})} {k r : Result B} → m ≡ ok tt → k ≡ r → (m >> k) ≡ r
>>-ok h g = rw h g

pub raise_if-ok : (c : Bool) (e : Error) → raise_if c e ≡ ok tt → c ≡ false
raise_if-ok true e h = cc
raise_if-ok false e h = refl

module _ {ℓ κ} {A : Type ℓ} {B : Type κ} where
  -- A loop over a list whose body may raise, appending what each round yields.
  unfoldable pub collect : (A → Result (List B)) → List A → Result (List B)
  collect f [] = ok []
  collect f (x ∷ xs) = do ys ← f x; zs ← collect f xs; ok (ys ++ zs)

  -- The round of any element that the loop met went through, and its yield is in the whole.
  pub All-collect {μ} :
      (P : B → Type μ) (f : A → Result (List B)) {a : A} (xs : List A) {bs : List B}
      → collect f xs ≡ ok bs
      → All P bs
      → In a xs
      → (ys : List B) × (f a ≡ ok ys) × All P ys
  unfolding collect
  All-collect P f {a} [] e h i = elim i [ ]
  All-collect P f {a} (x ∷ xs) {bs} e h i =
      let (ys, ey, e1) = >>=-eq-ok (f x) _ e in
      let (zs, ez, e2) = >>=-eq-ok (collect f xs) (λ zs. ok (ys ++ zs)) e1 in
      let both = All-append P ys zs (subst (All P) (ok_injective e2) h) in
      pick ys zs ey both (All-collect P f xs ez both.1) i
    where
      ok_injective : {us vs : List B} → ok us ≡ ok vs → vs ≡ us
      ok_injective q = cc

      pick :
          (ys zs : List B)
          → f x ≡ ok ys
          → All P ys × All P zs
          → (In a xs → (ws : List B) × (f a ≡ ok ws) × All P ws)
          → In a (x ∷ xs)
          → (ws : List B) × (f a ≡ ok ws) × All P ws
      pick ys zs ey both rec (here q) = (ys, rw q ey, both.0)
      pick ys zs ey both rec (there j) = rec j

-- A check that finds nothing wrong.
pub pass {ℓ} :
    {B : Type ℓ} {c : Bool} (error : Error) {k r : Result B}
    → c ≡ false
    → k ≡ r
    → (raise_if c error >> k) ≡ r
pass error h g = rw h g

-- A check of a condition that holds.
pub pass_not {ℓ} :
    {B : Type ℓ} {c : Bool} (error : Error) {k r : Result B}
    → c ≡ true
    → k ≡ r
    → (raise_if (not c) error >> k) ≡ r
pass_not error h g = rw h g

-- A call whose continuation is two steps.
pub >>=-split {ℓ κ μ} :
    {A : Type ℓ} {B : Type κ} {C : Type μ} (m : Result A) (f : A → Result B) (g : B → Result C)
    (h : A → Result C)
    → ((a : A) → h a ≡ (f a >>= g))
    → (m >>= h) ≡ (m >>= f >>= g)
>>=-split (err e) f g h same = refl
>>=-split (ok a) f g h same = same a

pub ok_injective {ℓ} : {A : Type ℓ} {a b : A} → ok a ≡ ok b → a ≡ b
ok_injective h = cc

-- A property of what a call returns, if it returns.
abbrev pub Holds {ℓ} : {V : Type ℓ} → (V → Type 0) → Result V → Type 0
Holds Q (ok v) = Q v
Holds Q (err e) = Unit

pub Holds-ok {ℓ} : {V : Type ℓ} (Q : V → Type 0) (m : Result V) {v : V} → Holds Q m → m ≡ ok v → Q v
Holds-ok Q (ok w) h e = subst Q (ok_injective e) h
Holds-ok Q (err e) h q = cc

pub Holds->>= {ℓ κ} :
    {A : Type ℓ} {B : Type κ} (Q : B → Type 0) (m : Result A) (f : A → Result B)
    → ((a : A) → m ≡ ok a → Holds Q (f a))
    → Holds Q (m >>= f)
Holds->>= Q (ok a) f h = h a refl
Holds->>= Q (err e) f h = tt

pub Holds->> {ℓ} :
    {B : Type ℓ} (Q : B → Type 0) (c : Bool) (error : Error) (k : Result B)
    → (c ≡ false → Holds Q k)
    → Holds Q (raise_if c error >> k)
Holds->> Q true error k h = tt
Holds->> Q false error k h = h refl
