-- ===== src/Common/Action.antt =====
-- Code that reads and writes a store: it returns a result and the store as it leaves it. What was
-- written before an error stays written, until a transaction takes it back.
use ai_go.Common.Result.{Result, ok, err}
use mathlib.Core.Path.{◌≡◌, refl, ◌∙◌}
use mathlib.Core.Logic.{◌⊎◌, inl, inr}
use mathlib.Core.Bool.{Bool, true, false}
use ai_go.Common.Tests.{if◌then◌else◌}
use native.Mathlib.Omega.{arith}

abbrev pub Action : Type 0 → Type 0 → Type 0 → Type 0
Action S E A = S → Result E A × S

module _ {S E A : Type 0} where
  abbrev pub pure : A → Action S E A
  pure a s = (ok a, s)

  abbrev pub raise : E → Action S E A
  raise e s = (err e, s)

  abbrev pub lift : Result E A → Action S E A
  lift r s = (r, s)

abbrev pub raise_if : {S E : Type 0} → Bool → E → Action S E (Unit {0})
raise_if true e s = (err e, s)
raise_if false e s = (ok tt, s)

-- The rest of a `do` block after a step.
abbrev pub continue : {S E A B : Type 0} → Result E A → S → (A → Action S E B) → Result E B × S
continue (ok a) s f = f a s
continue (err e) s f = (err e, s)

infixl 5 ◌>>=◌ ◌>>◌
abbrev pub ◌>>=◌ : {S E A B : Type 0} → Action S E A → (A → Action S E B) → Action S E B
◌>>=◌ m f s = continue (m s).0 (m s).1 f

abbrev pub ◌>>◌ : {S E B : Type 0} → Action S E (Unit {0}) → Action S E B → Action S E B
m >> k = m >>= λ _. k

-- Inversion of a successful step.
pub >>=-eq-ok :
    {S E A B : Type 0} (m : Action S E A) (f : A → Action S E B) (s : S) {b : B} {t : S}
    → (m >>= f) s ≡ (ok b, t)
    → (a : A) × (u : S) × (m s ≡ (ok a, u)) × (f a u ≡ (ok b, t))
>>=-eq-ok {S} {E} {A} {B} m f s {b} {t} h = go (m s).0 (m s).1 refl h
  where
    go :
        (r : Result E A) (u : S)
        → m s ≡ (r, u)
        → continue r u f ≡ (ok b, t)
        → (a : A) × (u' : S) × (m s ≡ (ok a, u')) × (f a u' ≡ (ok b, t))
    go (ok a) u e k = (a, u, e, k)
    go (err x) u e k = absurd (cc)

pub raise_if-eq-ok :
    {S E : Type 0} (b : Bool) (e : E) (s : S) {a : Unit {0}} {t : S}
    → raise_if b e s ≡ (ok a, t)
    → (b ≡ false) × (t ≡ s)
raise_if-eq-ok true e s h = absurd (cc)
raise_if-eq-ok false e s h = (refl, cc)

-- Inversion of a check that passed.
pub guard-eq-ok :
    {S E A : Type 0} (b : Bool) (e : E) (k : Action S E A) (s : S) {a : A} {t : S}
    → (raise_if b e >> k) s ≡ (ok a, t)
    → (b ≡ false) × (k s ≡ (ok a, t))
guard-eq-ok true e k s h = absurd (cc)
guard-eq-ok false e k s h = (refl, h)

-- What follows a transaction whose error the code looks at: `handler` for the errors that `test`
-- accepts.
abbrev handle_if : {S E A : Type 0} → Bool → Action S E A → E → S → Result E A × S
handle_if true handler e s = handler s
handle_if false handler e s = (err e, s)

abbrev pub rescue : {S E A : Type 0} → (E → Bool) → Action S E A → Result E A × S → Result E A × S
rescue test handler (ok a, t) = (ok a, t)
rescue test handler (err e, t) = handle_if (test e) handler e t

handle_if-eq-ok :
    {S E A : Type 0} (b : Bool) (handler : Action S E A) (e : E) (s : S) {a : A} {t : S}
    → handle_if b handler e s ≡ (ok a, t)
    → (b ≡ true) × (handler s ≡ (ok a, t))
handle_if-eq-ok true handler e s h = (refl, h)
handle_if-eq-ok false handler e s h = absurd (cc)

handle_if-eq-err :
    {S E A : Type 0} (b : Bool) (handler : Action S E A) (e : E) (s : S) {f : E} {t : S}
    → handle_if b handler e s ≡ (err f, t)
    → (handler s ≡ (err f, t)) ⊎ (t ≡ s)
handle_if-eq-err true handler e s h = inl h
handle_if-eq-err false handler e s h = inr (cc)

-- Either the transaction succeeded, or it left an error that the handler took over.
pub rescue-eq-ok :
    {S E A : Type 0} (test : E → Bool) (handler : Action S E A) (x : Result E A × S) {a : A} {t : S}
    → rescue test handler x ≡ (ok a, t)
    → (x ≡ (ok a, t)) ⊎ ((e : E) × (x.0 ≡ err e) × (test e ≡ true) × (handler x.1 ≡ (ok a, t)))
rescue-eq-ok test handler (ok b, u) h = inl h
rescue-eq-ok test handler (err e, u) h =
    let (taken, k) = handle_if-eq-ok (test e) handler e u h in inr (e, refl, taken, k)

-- A failure leaves the store of a failed transaction, or is the handler's.
pub rescue-eq-err :
    {S E A : Type 0} (test : E → Bool) (handler : Action S E A) (x : Result E A × S) {e : E} {t : S}
    → rescue test handler x ≡ (err e, t)
    → (f : E) × (x.0 ≡ err f) × ((handler x.1 ≡ (err e, t)) ⊎ (t ≡ x.1))
rescue-eq-err test handler (ok b, u) h = absurd (cc)
rescue-eq-err test handler (err f, u) h = (f, refl, handle_if-eq-err (test f) handler f u h)

pub rescue-missed :
    {S E A : Type 0} (test : E → Bool) (handler : Action S E A) (x : Result E A × S) {f e : E}
    {t : S}
    → x.0 ≡ err f
    → test f ≡ false
    → rescue test handler x ≡ (err e, t)
    → t ≡ x.1
rescue-missed test handler (ok b, u) p q h = absurd (cc)
rescue-missed test handler (err g, u) p q h = ground arith

-- Code that only reads.
abbrev pub Keeps : {S E A : Type 0} → Action S E A → Type 0
Keeps {S} m = (s : S) → (m s).1 ≡ s

continue-Keeps :
    {S E A B : Type 0} (x : Result E A) (s : S) (f : A → Action S E B)
    → ((a : A) → Keeps (f a))
    → (continue x s f).1 ≡ s
continue-Keeps (ok a) s f k = k a s
continue-Keeps (err e) s f k = refl

pub Keeps->>= :
    {S E A B : Type 0} (m : Action S E A) (f : A → Action S E B)
    → Keeps m
    → ((a : A) → Keeps (f a))
    → Keeps (m >>= f)
Keeps->>= m f k l s = continue-Keeps (m s).0 (m s).1 f l ∙ k s

pub Keeps-guard :
    {S E A : Type 0} (b : Bool) (e : E) (m : Action S E A) → Keeps m → Keeps (raise_if b e >> m)
Keeps-guard true e m k s = refl
Keeps-guard false e m k s = k s

pub Keeps-if :
    {S E A : Type 0} (b : Bool) (m k : Action S E A)
    → Keeps m
    → Keeps k
    → Keeps (if b then m else k)
Keeps-if true m k p q = p
Keeps-if false m k p q = q
