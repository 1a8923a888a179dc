-- ===== src/Common/Outcome.antt =====
-- The ways in which a run of C code ends.
use mathlib.Core.Path.{◌≡◌, refl, subst}
use mathlib.Core.Logic.{◌≢◌}
use mathlib.Core.Bool.{Bool, true, false}
use mathlib.Core.Option.{Option, none, some}
use llc.Common.Tests.{if◌then◌else◌}

-- `fault` is undefined behaviour, a read of memory that is not mapped, or a number stored in a short
-- that it does not fit, which C leaves to the implementation; `abort` a call of abort
-- or exit, and `stuck` stands for a loop of the model that ran out of fuel: no run of the code.
pub data Run {ℓ} (A : Type ℓ) : Type ℓ where
  done : A → Run A
  fault : Run A
  abort : Run A
  stuck : Run A

infixl 5 ◌>>=◌
abbrev pub ◌>>=◌ {ℓ κ} : {A : Type ℓ} {B : Type κ} → Run A → (A → Run B) → Run B
done a >>= f = f a
fault >>= f = fault
abort >>= f = abort
stuck >>= f = stuck

-- The run ends normally, with a result that satisfies `P`.
abbrev pub Returns {ℓ} : {A : Type ℓ} → Run A → (A → Type 0) → Type 0
Returns (done a) P = P a
Returns fault P = ⊥
Returns abort P = ⊥
Returns stuck P = ⊥

-- Inversion of a bind that ends normally.
pub >>=-eq-done {ℓ κ} :
    {A : Type ℓ} {B : Type κ} (m : Run A) (f : A → Run B) {b : B}
    → (m >>= f) ≡ done b
    → (a : A) × (m ≡ done a) × (f a ≡ done b)
>>=-eq-done (done a) f h = (a, refl, h)
>>=-eq-done fault f h = cc
>>=-eq-done abort f h = cc
>>=-eq-done stuck f h = cc

pub >>=-ne-stuck {ℓ κ} :
    {A : Type ℓ} {B : Type κ} (m : Run A) (f : A → Run B)
    → m ≢ stuck
    → ((a : A) → f a ≢ stuck)
    → (m >>= f) ≢ stuck
>>=-ne-stuck (done a) f hm hf = hf a
>>=-ne-stuck fault f hm hf = λ e. cc
>>=-ne-stuck abort f hm hf = λ e. cc
>>=-ne-stuck stuck f hm hf = absurd (hm refl)

pub done-ne-stuck {ℓ} : {A : Type ℓ} (a : A) → done a ≢ stuck
done-ne-stuck a e = cc

pub fault-ne-stuck {ℓ} : {A : Type ℓ} → ◌≢◌ {A = Run A} fault stuck
fault-ne-stuck e = cc

pub option-ne-stuck {ℓ κ} :
    {A : Type ℓ} {B : Type κ} (o : Option A) (absent : Run B) (present : A → Run B)
    → absent ≢ stuck
    → ((a : A) → present a ≢ stuck)
    → elim o [ none ↦ absent | some a ↦ present a ] ≢ stuck
option-ne-stuck none absent present h g = h
option-ne-stuck (some a) absent present h g = g a

pub if-ne-stuck {ℓ} :
    {A : Type ℓ} (b : Bool) (x y : Run A) → x ≢ stuck → y ≢ stuck → (if b then x else y) ≢ stuck
if-ne-stuck true x y hx hy = hx
if-ne-stuck false x y hx hy = hy

pub bool-ne-stuck {ℓ} :
    {A : Type ℓ} (b : Bool) (x y : Run A)
    → x ≢ stuck
    → y ≢ stuck
    → elim b [ true ↦ x | false ↦ y ] ≢ stuck
bool-ne-stuck true x y hx hy = hx
bool-ne-stuck false x y hx hy = hy

pub >>=-ne-stuck-done {ℓ κ} :
    {A : Type ℓ} {B : Type κ} (m : Run A) (f : A → Run B)
    → m ≢ stuck
    → ((a : A) → m ≡ done a → f a ≢ stuck)
    → (m >>= f) ≢ stuck
>>=-ne-stuck-done (done a) f hm hf = hf a refl
>>=-ne-stuck-done fault f hm hf = fault-ne-stuck
>>=-ne-stuck-done abort f hm hf = λ e. cc
>>=-ne-stuck-done stuck f hm hf = absurd (hm refl)

-- The result satisfies `P`, if the run ends normally.
abbrev pub IfDone {ℓ} : {A : Type ℓ} → Run A → (A → Type 0) → Type 0
IfDone (done a) P = P a
IfDone fault P = Unit
IfDone abort P = Unit
IfDone stuck P = Unit

pub IfDone->>= {ℓ κ} :
    {A : Type ℓ} {B : Type κ} (m : Run A) (f : A → Run B) (P : A → Type 0) (Q : B → Type 0)
    → IfDone m P
    → ((a : A) → P a → IfDone (f a) Q)
    → IfDone (m >>= f) Q
IfDone->>= (done a) f P Q h g = g a h
IfDone->>= fault f P Q h g = tt
IfDone->>= abort f P Q h g = tt
IfDone->>= stuck f P Q h g = tt

pub IfDone-if {ℓ} :
    {A : Type ℓ} (b : Bool) (x y : Run A) (P : A → Type 0)
    → IfDone x P
    → IfDone y P
    → IfDone (if b then x else y) P
IfDone-if true x y P hx hy = hx
IfDone-if false x y P hx hy = hy

pub IfDone-any {ℓ} : {A : Type ℓ} (m : Run A) → IfDone m (λ a. Unit)
IfDone-any (done a) = tt
IfDone-any fault = tt
IfDone-any abort = tt
IfDone-any stuck = tt

pub IfDone-of {ℓ} :
    {A : Type ℓ} (m : Run A) (P : A → Type 0) → ((a : A) → m ≡ done a → P a) → IfDone m P
IfDone-of (done a) P h = h a refl
IfDone-of fault P h = tt
IfDone-of abort P h = tt
IfDone-of stuck P h = tt

pub IfDone-at {ℓ} :
    {A : Type ℓ} (m : Run A) (P : A → Type 0) (a : A) → m ≡ done a → IfDone m P → P a
IfDone-at m P a e h = subst (λ n. IfDone n P) e h

pub IfDone-option {ℓ κ} :
    {A : Type ℓ} {B : Type κ} (o : Option A) (absent : Run B) (present : A → Run B) (P : B → Type 0)
    → IfDone absent P
    → ((a : A) → IfDone (present a) P)
    → IfDone (elim o [ none ↦ absent | some a ↦ present a ]) P
IfDone-option none absent present P h g = h
IfDone-option (some a) absent present P h g = g a

pub IfDone-map {ℓ} :
    {A : Type ℓ} (m : Run A) (P Q : A → Type 0) → ((a : A) → P a → Q a) → IfDone m P → IfDone m Q
IfDone-map (done a) P Q g h = g a h
IfDone-map fault P Q g h = tt
IfDone-map abort P Q g h = tt
IfDone-map stuck P Q g h = tt

-- The run is none of the model's that ran out of fuel, and its result satisfies `P` if it has one.
abbrev pub Ends {ℓ} : {A : Type ℓ} → Run A → (A → Type 0) → Type 0
Ends (done a) P = P a
Ends fault P = Unit
Ends abort P = Unit
Ends stuck P = ⊥

pub Ends->>= {ℓ κ} :
    {A : Type ℓ} {B : Type κ} (m : Run A) (f : A → Run B) (P : A → Type 0) (Q : B → Type 0)
    → Ends m P
    → ((a : A) → P a → Ends (f a) Q)
    → Ends (m >>= f) Q
Ends->>= (done a) f P Q h g = g a h
Ends->>= fault f P Q h g = tt
Ends->>= abort f P Q h g = tt
Ends->>= stuck f P Q h g = elim h [ ]

pub Ends-ne-stuck {ℓ} : {A : Type ℓ} (m : Run A) (P : A → Type 0) → Ends m P → m ≢ stuck
Ends-ne-stuck (done a) P h = λ e. cc
Ends-ne-stuck fault P h = λ e. cc
Ends-ne-stuck abort P h = λ e. cc
Ends-ne-stuck stuck P h = elim h [ ]

pub Ends-map {ℓ} :
    {A : Type ℓ} (m : Run A) (P Q : A → Type 0) → ((a : A) → P a → Q a) → Ends m P → Ends m Q
Ends-map (done a) P Q g h = g a h
Ends-map fault P Q g h = tt
Ends-map abort P Q g h = tt
Ends-map stuck P Q g h = elim h [ ]

pub Ends-of {ℓ} : {A : Type ℓ} (m : Run A) (P : A → Type 0) → m ≢ stuck → IfDone m P → Ends m P
Ends-of (done a) P h g = g
Ends-of fault P h g = tt
Ends-of abort P h g = tt
Ends-of stuck P h g = h refl
