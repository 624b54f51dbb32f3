-- ===== src/Prelude/Results.antt =====
-- Rust's `Result`, with `?` as the bind of a `do` block.
use mathlib.Core.Path.{◌≡◌, refl, ap}
use mathlib.Core.Bool.{Bool, true, false}
use mathlib.Core.Option.{Option, none, some}

pub data Result {ℓ κ} (A : Type ℓ) (E : Type κ) : Type (ℓ ⊔ κ) where
  ok : A → Result A E
  err : E → Result A E

-- `r.is_ok()`
abbrev pub is_ok {ℓ κ} : {A : Type ℓ} {E : Type κ} → Result A E → Bool
is_ok (ok a) = true
is_ok (err e) = false

-- `r.map_err(f)`
abbrev pub map_err {ℓ κ μ} :
    {A : Type ℓ} {E : Type κ} {F : Type μ} → (E → F) → Result A E → Result A F
map_err f (ok a) = ok a
map_err f (err e) = err (f e)

-- `o.ok_or(e)`
abbrev pub ok_or {ℓ κ} : {A : Type ℓ} {E : Type κ} → Option A → E → Result A E
ok_or none e = err e
ok_or (some a) e = ok a

-- `o.and_then(f)`
abbrev pub and_then {ℓ κ} : {A : Type ℓ} {B : Type κ} → Option A → (A → Option B) → Option B
and_then none f = none
and_then (some a) f = f a

-- `b.then_some(()).ok_or(e)`
abbrev pub guard {κ} : {E : Type κ} → Bool → E → Result (Unit {0}) E
guard false reason = err reason
guard true reason = ok tt

infixl 5 ◌>>=◌
infixl 5 ◌>>◌
-- `let value = result?; …`
abbrev pub ◌>>=◌ {μ ℓ κ} :
    {E : Type μ} {A : Type ℓ} {B : Type κ} → Result A E → (A → Result B E) → Result B E
◌>>=◌ (err reason) next = err reason
◌>>=◌ (ok value) next = next value

-- `result?; …`
abbrev pub ◌>>◌ {μ ℓ} : {E : Type μ} {B : Type ℓ} → Result (Unit {0}) E → Result B E → Result B E
◌>>◌ (err reason) rest = err reason
◌>>◌ (ok _) rest = rest

-- What a `?` that succeeded says of both its parts.
pub >>=-eq-ok {μ ℓ κ} :
    {E : Type μ} {A : Type ℓ} {B : Type κ} (first : Result A E) (next : A → Result B E) {result : B}
    → (first >>= next) ≡ ok result
    → (value : A) × (first ≡ ok value) × (next value ≡ ok result)
>>=-eq-ok (err reason) next h = cc
>>=-eq-ok (ok value) next h = (value, refl, h)

pub >>-eq-ok {μ ℓ} :
    {E : Type μ} {B : Type ℓ} (first : Result (Unit {0}) E) (rest : Result B E) {result : B}
    → (first >> rest) ≡ ok result
    → (first ≡ ok tt) × (rest ≡ ok result)
>>-eq-ok (err reason) rest h = cc
>>-eq-ok (ok tt) rest h = (refl, h)

pub >>=-at-ok {μ ℓ κ} :
    {E : Type μ} {A : Type ℓ} {B : Type κ} {first : Result A E} (next : A → Result B E) {value : A}
    → first ≡ ok value
    → (first >>= next) ≡ next value
>>=-at-ok next h = ap (λ r. r >>= next) h

pub >>-at-ok {μ ℓ} :
    {E : Type μ} {B : Type ℓ} {first : Result (Unit {0}) E} (rest : Result B E)
    → first ≡ ok tt
    → (first >> rest) ≡ rest
>>-at-ok rest h = ap (λ r. r >> rest) h

abbrev or_else {ℓ κ} : {A : Type ℓ} {E : Type κ} → A → Result A E → A
or_else b (ok a) = a
or_else b (err e) = b

pub ok_injective {ℓ κ} :
    {A : Type ℓ} {E : Type κ} {a b : A} → ◌≡◌ {A = Result A E} (ok a) (ok b) → a ≡ b
ok_injective {a = a} h = ap (or_else a) h

pub ok_or-eq-ok {ℓ κ} :
    {A : Type ℓ} {E : Type κ} (o : Option A) (e : E) {a : A} → ok_or o e ≡ ok a → o ≡ some a
ok_or-eq-ok none e h = cc
ok_or-eq-ok (some b) e h = ap some (ok_injective h)
