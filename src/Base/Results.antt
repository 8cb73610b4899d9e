-- ===== src/Base/Results.antt =====
-- Errors as values, with `do` blocks.
use mathlib.Core.Path.{◌≡◌, refl, subst}
use mathlib.Core.Logic.{◌⊎◌, inl, inr}
use mathlib.Core.Bool.{Bool, true, false}
use mathlib.Core.Option.{Option, none, some}

pub data Result {ℓ κ} (A : Type ℓ) (E : Type κ) : Type (ℓ ⊔ κ) where
  ok : A → Result A E
  err : E → Result A E

infixl 5 ◌>>=◌ ◌>>◌
abbrev pub ◌>>=◌ {ℓ κ ι} :
    {A : Type ℓ} {B : Type κ} {E : Type ι} → Result A E → (A → Result B E) → Result B E
ok a >>= f = f a
err e >>= f = err e

abbrev pub ◌>>◌ {ℓ κ} : {B : Type ℓ} {E : Type κ} → Result (Unit {0}) E → Result B E → Result B E
m >> k = m >>= λ _. k

abbrev pub fail_if {ℓ} : {E : Type ℓ} → Bool → E → Result (Unit {0}) E
fail_if true e = err e
fail_if false e = ok tt

abbrev pub ok_or {ℓ κ} : {A : Type ℓ} {E : Type κ} → Option A → E → Result A E
ok_or none e = err e
ok_or (some a) e = ok a

abbrev pub map_err {ℓ κ ι} :
    {A : Type ℓ} {E : Type κ} {F : Type ι} → (E → F) → Result A E → Result A F
map_err f (ok a) = ok a
map_err f (err e) = err (f e)

abbrev pub is_ok {ℓ κ} : {A : Type ℓ} {E : Type κ} → Result A E → Bool
is_ok (ok a) = true
is_ok (err e) = false

pub Result-cases {ℓ κ} :
    {A : Type ℓ} {E : Type κ} (r : Result A E) → ((a : A) × (r ≡ ok a)) ⊎ ((e : E) × (r ≡ err e))
Result-cases (ok a) = inl (a, refl)
Result-cases (err e) = inr (e, refl)

-- A step that only succeeds or fails.
abbrev pub Outcome {κ} : Type κ → Type κ
Outcome E = Result (Unit {0}) E

ok_injective {ℓ κ} :
    {A : Type ℓ} {E : Type κ} {a b : A} → ◌≡◌ {A = Result A E} (ok a) (ok b) → a ≡ b
ok_injective e = cc

-- A result that, if it is one, satisfies P.
pub data Ensures {ℓ κ ι} {A : Type ℓ} {E : Type κ} (P : A → Type ι)
    : Result A E → Type (ℓ ⊔ κ ⊔ ι) where
  done : {a : A} → P a → Ensures P (ok a)
  failed : {e : E} → Ensures P (err e)

pub Ensures-bind {ℓ κ ι ν μ} :
    {A : Type ℓ} {B : Type κ} {E : Type ι} {P : A → Type ν} {Q : B → Type μ} {m : Result A E}
    {f : A → Result B E}
    → Ensures P m
    → ((a : A) → P a → Ensures Q (f a))
    → Ensures Q (m >>= f)
Ensures-bind (done p) k = k _ p
Ensures-bind failed k = failed

pub Ensures-ok {ℓ κ ι} :
    {A : Type ℓ} {E : Type κ} {P : A → Type ι} {r : Result A E} {a : A}
    → Ensures P r
    → r ≡ ok a
    → P a
Ensures-ok {P} (done p) e = let same = ok_injective e in subst P same p
Ensures-ok failed e = absurd (cc)

-- The step of a `do` block for which nothing is claimed, and the end of one.
pub Ensures-any {ℓ κ} : {A : Type ℓ} {E : Type κ} (r : Result A E) → Ensures (λ a. r ≡ ok a) r
Ensures-any (ok a) = done refl
Ensures-any (err e) = failed

pub Ensures-fail_if {ℓ κ ι} :
    {A : Type ℓ} {E : Type κ} {P : A → Type ι} (test : Bool) (e : E) (r : Result A E)
    → (test ≡ false → Ensures P r)
    → Ensures P (fail_if test e >> r)
Ensures-fail_if true e r k = failed
Ensures-fail_if false e r k = k refl

pub Ensures-map_err {ℓ κ ι ν} :
    {A : Type ℓ} {E : Type κ} {F : Type ι} {P : A → Type ν} (f : E → F) {r : Result A E}
    → Ensures P r
    → Ensures P (map_err f r)
Ensures-map_err f (done p) = done p
Ensures-map_err f failed = failed

pub Ensures-mono {ℓ κ ι ν} :
    {A : Type ℓ} {E : Type κ} {P : A → Type ι} {Q : A → Type ν} {r : Result A E}
    → ((a : A) → P a → Q a)
    → Ensures P r
    → Ensures Q r
Ensures-mono f (done p) = done (f _ p)
Ensures-mono f failed = failed
