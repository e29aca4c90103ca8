-- ===== src/Msg/Attempt/Laws.antt =====
-- Predicates on attempts, with a rule for each way to build one.
use tmi_rs.Prelude.{
  Bool, true, false, Option, none, some, ◌≡◌, refl, subst, done_inj, some_inj, if◌then◌else◌,
  Outcome, done, panicked, spinning, Returns,
}
use tmi_rs.Prelude as Outcomes
use tmi_rs.Msg.Attempt.{Attempt, ◌>>=◌, ret, optional}

-- `m` returns.
pub record Ends {ℓ} {A : Type ℓ} (m : Outcome A) : Type ℓ where
  pub ends : Returns m

module _ {ℓ} {A : Type ℓ} where
  pub done-Ends : (a : A) → Ends (done a)
  done-Ends a = record { ends = (a, refl) }

  pub if-Ends : (b : Bool) (m n : Outcome A) → Ends m → Ends n → Ends (if b then m else n)
  if-Ends true m n hm hn = hm
  if-Ends false m n hm hn = hn

  pub Returns-Ends : {m : Outcome A} → Returns m → Ends m
  Returns-Ends h = record { ends = h }

module _ {ℓ κ} {A : Type ℓ} {B : Type κ} where
  pub >>=-Ends :
      (m : Attempt A) (f : A → Attempt B) → Ends m → ((a : A) → Ends (f a)) → Ends (m >>= f)
  >>=-Ends (done (some a)) f h k = k a
  >>=-Ends (done none) f h k = done-Ends none
  >>=-Ends panicked f h k = let e = h.ends.1 in cc
  >>=-Ends spinning f h k = let e = h.ends.1 in cc

  pub then-Ends :
      (m : Outcome A) (f : A → Outcome B)
      → Ends m
      → ((a : A) → Ends (f a))
      → Ends (Outcomes.◌>>=◌ m f)
  then-Ends (done a) f h k = k a
  then-Ends panicked f h k = let e = h.ends.1 in cc
  then-Ends spinning f h k = let e = h.ends.1 in cc

pub ruleset ends_rules = (done-Ends, if-Ends, >>=-Ends, then-Ends)

-- Whatever `m` gives satisfies `P`.
pub record Gives {ℓ κ} {A : Type ℓ} (P : A → Type κ) (m : Attempt A) : Type (ℓ ⊔ κ) where
  pub gives : (a : A) → m ≡ done (some a) → P a

pub Gives-ret {ℓ κ} : {A : Type ℓ} {P : A → Type κ} (a : A) → P a → Gives P (ret a)
Gives-ret {P} a p = record { gives = λ b e. subst P (some_inj (done_inj e)) p }

pub Gives-if {ℓ κ} :
    {A : Type ℓ} {P : A → Type κ} (b : Bool) (m n : Attempt A)
    → (b ≡ true → Gives P m)
    → (b ≡ false → Gives P n)
    → Gives P (if b then m else n)
Gives-if true m n hm hn = hm refl
Gives-if false m n hm hn = hn refl

pub Gives->>= {ℓ κ μ} :
    {A : Type ℓ} {B : Type κ} {P : B → Type μ} (m : Attempt A) (f : A → Attempt B)
    → ((a : A) → m ≡ done (some a) → Gives P (f a))
    → Gives P (m >>= f)
Gives->>= (done (some a)) f k = k a refl
Gives->>= (done none) f k = record { gives = λ b e. cc }
Gives->>= panicked f k = record { gives = λ b e. cc }
Gives->>= spinning f k = record { gives = λ b e. cc }

pub ruleset gives_rules = (Gives-ret, Gives-if, Gives->>=)

-- `m` gives a value.
pub record Succeeds {ℓ} {A : Type ℓ} (m : Attempt A) : Type ℓ where
  pub value : A
  pub value_lem : m ≡ done (some value)

pub Succeeds-known {ℓ} : {A : Type ℓ} {m : Attempt A} {a : A} → m ≡ done (some a) → Succeeds m
Succeeds-known {a} e = record { value = a; value_lem = e }

pub Succeeds-ret {ℓ} : {A : Type ℓ} (a : A) → Succeeds (ret a)
Succeeds-ret a = Succeeds-known refl

pub Succeeds-optional {ℓ} : {A : Type ℓ} (m : Attempt A) → Ends m → Succeeds (optional m)
Succeeds-optional (done o) h = Succeeds-ret o
Succeeds-optional panicked h = let e = h.ends.1 in cc
Succeeds-optional spinning h = let e = h.ends.1 in cc

pub Succeeds->>= {ℓ κ} :
    {A : Type ℓ} {B : Type κ} (m : Attempt A) (f : A → Attempt B)
    → Succeeds m
    → ((a : A) → Succeeds (f a))
    → Succeeds (m >>= f)
Succeeds->>= (done (some a)) f h k = k a
Succeeds->>= (done none) f h k = let e = h.value_lem in cc
Succeeds->>= panicked f h k = let e = h.value_lem in cc
Succeeds->>= spinning f h k = let e = h.value_lem in cc

pub ruleset succeeds_rules = (Succeeds-ret, Succeeds-optional, Succeeds->>=)
