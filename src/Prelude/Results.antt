-- ===== src/Prelude/Results.antt =====
-- What a Rust function does that may panic, and the monads of the development.
use mathlib.Core.Path.{◌≡◌, refl}
use mathlib.Core.Option.{Option, none, some}

-- A call returns, or it panics (an index or a slice out of range). A loop on fuel is `spinning`
-- where the fuel has run out and the loop has not ended.
pub data Outcome {ℓ} (A : Type ℓ) : Type ℓ where
  done : A → Outcome A
  panicked spinning : Outcome A

infixl 5 ◌>>=◌
abbrev pub ◌>>=◌ {ℓ κ} : {A : Type ℓ} {B : Type κ} → Outcome A → (A → Outcome B) → Outcome B
done a >>= f = f a
panicked >>= f = panicked
spinning >>= f = spinning

-- The operator `?` on an `Option`.
abbrev pub bind? {ℓ κ} : {A : Type ℓ} {B : Type κ} → Option A → (A → Option B) → Option B
bind? none f = none
bind? (some a) f = f a

abbrev pub map? {ℓ κ} : {A : Type ℓ} {B : Type κ} → Option A → (A → B) → Option B
map? none f = none
map? (some a) f = some (f a)

pub >>=_assoc {ℓ κ μ} :
    {A : Type ℓ} {B : Type κ} {C : Type μ} (m : Outcome A) (f : A → Outcome B) (g : B → Outcome C)
    → (m >>= f >>= g) ≡ (m >>= λ a. f a >>= g)
>>=_assoc (done a) f g = refl
>>=_assoc panicked f g = refl
>>=_assoc spinning f g = refl

pub >>=-done {ℓ} : {A : Type ℓ} (m : Outcome A) → (m >>= done) ≡ m
>>=-done (done a) = refl
>>=-done panicked = refl
>>=-done spinning = refl

-- A chain that has returned has returned in each of its parts.
pub >>=_inv {ℓ κ} :
    {A : Type ℓ} {B : Type κ} (m : Outcome A) (f : A → Outcome B) (b : B)
    → (m >>= f) ≡ done b
    → (a : A) × (m ≡ done a) × (f a ≡ done b)
>>=_inv (done a) f b e = (a, refl, e)
>>=_inv panicked f b e = cc
>>=_inv spinning f b e = cc

pub done_inj {ℓ} : {A : Type ℓ} {a b : A} → done a ≡ done b → a ≡ b
done_inj e = cc

pub some_inj {ℓ} : {A : Type ℓ} {a b : A} → some a ≡ some b → a ≡ b
some_inj e = cc

-- The call returns: it neither panics nor runs out of fuel.
abbrev pub Returns {ℓ} : {A : Type ℓ} → Outcome A → Type ℓ
Returns {A = A} m = (a : A) × (m ≡ done a)

pub >>=-Returns {ℓ κ} :
    {A : Type ℓ} {B : Type κ} (m : Outcome A) (f : A → Outcome B)
    → Returns m
    → ((a : A) → m ≡ done a → Returns (f a))
    → Returns (m >>= f)
>>=-Returns (done a) f h k = k a refl
>>=-Returns panicked f (a, e) k = cc
>>=-Returns spinning f (a, e) k = cc
