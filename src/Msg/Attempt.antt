-- ===== src/Msg/Attempt.antt =====
-- A function of the messages gives an option, and an accessor that it calls may panic.
pub mod Laws
use tmi_rs.Prelude.{Bool, Option, none, some, if◌then◌else◌, Outcome, done, panicked, spinning}
use tmi_rs.Prelude as Outcomes

abbrev pub Attempt {ℓ} : Type ℓ → Type ℓ
Attempt A = Outcome (Option A)

-- The operator `?` on what a call gives.
infixl 5 ◌>>=◌ ◌>>◌
abbrev pub ◌>>=◌ {ℓ κ} : {A : Type ℓ} {B : Type κ} → Attempt A → (A → Attempt B) → Attempt B
done (some a) >>= f = f a
done none >>= f = done none
panicked >>= f = panicked
spinning >>= f = spinning

abbrev pub ◌>>◌ {ℓ} : {B : Type ℓ} → Attempt (Unit {0}) → Attempt B → Attempt B
m >> k = m >>= λ _. k

-- `Some(value)`
abbrev pub ret {ℓ} : {A : Type ℓ} → A → Attempt A
ret a = done (some a)

-- A call whose option is used as it is, without `?`.
abbrev pub optional {ℓ} : {A : Type ℓ} → Attempt A → Attempt (Option A)
optional m = Outcomes.◌>>=◌ m ret

-- `return None` unless the test holds.
abbrev pub require : Bool → Attempt (Unit {0})
require b = if b then ret tt else done none

-- An outcome that is no option.
abbrev pub lift {ℓ} : {A : Type ℓ} → Outcome A → Attempt A
lift m = Outcomes.◌>>=◌ m ret
