-- ===== src/Desk/Steps.antt =====
-- Steps of a transaction over the ticket tables: an exception leaves no tables, since the transaction
-- is rolled back.
use helpdesk_agent.Prelude.{
  Bool, true, false, ◌≡◌, refl, ap, ◌∙◌, Option, none, some, Result, ok, err,
}
use helpdesk_agent.Desk.Store.{Desk, DeskError}

abbrev pub Action {ℓ} : Type ℓ → Type ℓ
Action A = Desk → Result DeskError (A × Desk)

abbrev pub then_action {ℓ κ} :
    {A : Type ℓ} {B : Type κ}
    → Result DeskError (A × Desk)
    → (A → Action B)
    → Result DeskError (B × Desk)
then_action (ok (a, s)) f = f a s
then_action (err e) f = err e

infixl 5 ◌>>=◌ ◌>>◌
abbrev pub ◌>>=◌ {ℓ κ} : {A : Type ℓ} {B : Type κ} → Action A → (A → Action B) → Action B
◌>>=◌ m f s = then_action (m s) f

abbrev pub ◌>>◌ {κ} : {B : Type κ} → Action (Unit {0}) → Action B → Action B
m >> k = m >>= λ _. k

abbrev pub pure {ℓ} : {A : Type ℓ} → A → Action A
pure a s = ok (a, s)

abbrev pub raise {ℓ} : {A : Type ℓ} → DeskError → Action A
raise e s = err e

abbrev pub reads {ℓ} : {A : Type ℓ} → (Desk → A) → Action A
reads f s = ok (f s, s)

abbrev pub writes : (Desk → Desk) → Action (Unit {0})
writes f s = ok (tt, f s)

abbrev pub need {ℓ} : {A : Type ℓ} → DeskError → Option A → Action A
need e none = raise e
need e (some a) = pure a

abbrev pub lifted {ℓ} : {A : Type ℓ} → Result DeskError A → Action A
lifted (ok a) = pure a
lifted (err e) = raise e

abbrev pub require : Bool → DeskError → Action (Unit {0})
require true e = pure tt
require false e = raise e

-- A call that returns came through its first step.
pub >>=-ok {ℓ κ} :
    {A : Type ℓ} {B : Type κ} (r : Result DeskError (A × Desk)) (f : A → Action B) {b : B}
    {s' : Desk}
    → ◌≡◌ {A = Result DeskError (B × Desk)} (then_action r f) (ok (b, s'))
    → (a : A) × (s : Desk) × (r ≡ ok (a, s))
      × ◌≡◌ {A = Result DeskError (B × Desk)} (f a s) (ok (b, s'))
>>=-ok (ok (a, s)) f h = (a, s, refl, h)
>>=-ok (err e) f h = cc

pub need-ok {ℓ} :
    {A : Type ℓ} (e : DeskError) (o : Option A) (s : Desk) {a : A} {s' : Desk}
    → ◌≡◌ {A = Result DeskError (A × Desk)} (need e o s) (ok (a, s'))
    → (o ≡ some a) × (s' ≡ s)
need-ok e none s h = cc
need-ok e (some b) s h = (cc, cc)

pub lifted-ok {ℓ} :
    {A : Type ℓ} (r : Result DeskError A) (s : Desk) {a : A} {s' : Desk}
    → ◌≡◌ {A = Result DeskError (A × Desk)} (lifted r s) (ok (a, s'))
    → (r ≡ ok a) × (s' ≡ s)
lifted-ok (err e) s h = cc
lifted-ok (ok b) s h = (cc, cc)

-- A call whose first step returns goes on from there.
pub >>=-from {ℓ κ} :
    {A : Type ℓ} {B : Type κ} (r : Result DeskError (A × Desk)) (f : A → Action B) {a : A}
    {s : Desk} {y : Result DeskError (B × Desk)}
    → r ≡ ok (a, s)
    → f a s ≡ y
    → then_action r f ≡ y
>>=-from r f q h = ap (λ x. then_action x f) q ∙ h

pub need-some {ℓ} :
    {A : Type ℓ} (e : DeskError) (o : Option A) (s : Desk) {a : A}
    → o ≡ some a
    → ◌≡◌ {A = Result DeskError (A × Desk)} (need e o s) (ok (a, s))
need-some e o s q = ap (λ x. need e x s) q

pub require-ok :
    (b : Bool) (e : DeskError) (s s' : Desk) → require b e s ≡ ok (tt, s') → (b ≡ true) × (s' ≡ s)
require-ok true e s s' h = (refl, cc)
require-ok false e s s' h = cc
