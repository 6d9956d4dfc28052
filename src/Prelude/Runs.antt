-- ===== src/Prelude/Runs.antt =====
-- Code that may panic or block: a nil pointer, an index out of range, a write to a nil map; or a
-- receive from an empty channel.
use mathlib.Core.Path.{◌≡◌, refl, subst}
use mathlib.Core.Bool.{Bool, true, false}
use mathlib.Core.Option.{Option, none, some}
use orthrus.Prelude.Tests.{if◌then◌else◌}

pub data Result {ℓ} (A : Type ℓ) : Type ℓ where
  ok : A → Result A
  panicked : Result A
  blocked : Result A

infixl 5 ◌>>=◌
unfoldable pub ◌>>=◌ {ℓ κ} : {A : Type ℓ} {B : Type κ} → Result A → (A → Result B) → Result B
ok a >>= f = f a
panicked >>= f = panicked
blocked >>= f = blocked

-- The conditional between two runs.
infix 1 when◌then◌else◌
unfoldable pub when◌then◌else◌ {ℓ} : {A : Type ℓ} → Bool → Result A → Result A → Result A
when test then x else y = if test then x else y

-- A run for nil, or for an element that is not there, and one for what is.
unfoldable pub in_case {ℓ κ} :
    {A : Type ℓ} {B : Type κ} → Option A → Result B → (A → Result B) → Result B
in_case o x f = elim o [ none ↦ x | some a ↦ f a ]

-- A pointer that is followed.
unfoldable pub deref {ℓ} : {A : Type ℓ} → Option A → Result A
deref none = panicked
deref (some a) = ok a

-- What holds of every value that a run returns.
abbrev pub Returned {ℓ κ} : {A : Type ℓ} → (A → Type κ) → Result A → Type κ
Returned P (ok a) = P a
Returned P panicked = Unit
Returned P blocked = Unit

pub record Holds {ℓ κ} {A : Type ℓ} (P : A → Type κ) (r : Result A) : Type κ where
  pub holds : Returned P r

pub ok-Holds {ℓ κ} : {A : Type ℓ} {P : A → Type κ} (a : A) → P a → Holds P (ok a)
ok-Holds a h = record { holds = h }

pub panicked-Holds {ℓ κ} : {A : Type ℓ} {P : A → Type κ} → Holds P panicked
panicked-Holds = record { holds = tt }

pub blocked-Holds {ℓ κ} : {A : Type ℓ} {P : A → Type κ} → Holds P blocked
blocked-Holds = record { holds = tt }

-- What a continuation needs follows from what its first part gives.
pub bind-Holds {ℓ κ μ ν} :
    {A : Type ℓ} {B : Type κ} {P : A → Type μ} {Q : B → Type ν} {m : Result A} {f : A → Result B}
    → Holds P m
    → ((a : A) → P a → Holds Q (f a))
    → Holds Q (m >>= f)
unfolding ◌>>=◌ deref
bind-Holds {m = ok a} h k = k a h.holds
bind-Holds {m = panicked} h k = panicked-Holds
bind-Holds {m = blocked} h k = blocked-Holds

pub bind_assoc {ℓ κ μ} :
    {A : Type ℓ} {B : Type κ} {C : Type μ} (m : Result A) (f : A → Result B) (g : B → Result C)
    → (m >>= f) >>= g ≡ m >>= (λ a. f a >>= g)
unfolding ◌>>=◌
bind_assoc (ok a) f g = refl
bind_assoc panicked f g = refl
bind_assoc blocked f g = refl

-- A pointer that is followed, with the equation that it is not nil.
pub deref-Holds {ℓ κ ν} :
    {A : Type ℓ} {B : Type κ} {Q : B → Type ν} {o : Option A} {f : A → Result B}
    → ((a : A) → o ≡ some a → Holds Q (f a))
    → Holds Q (deref o >>= f)
unfolding ◌>>=◌ deref
deref-Holds {o = none} k = panicked-Holds
deref-Holds {o = some a} k = k a refl

pub when-Holds {ℓ ν} :
    {A : Type ℓ} {Q : A → Type ν} {test : Bool} {x y : Result A}
    → (test ≡ true → Holds Q x)
    → (test ≡ false → Holds Q y)
    → Holds Q (when test then x else y)
unfolding when◌then◌else◌
when-Holds {test = true} h k = h refl
when-Holds {test = false} h k = k refl

pub in_case-Holds {ℓ κ ν} :
    {A : Type ℓ} {B : Type κ} {Q : B → Type ν} {o : Option A} {x : Result B} {f : A → Result B}
    → (o ≡ none → Holds Q x)
    → ((a : A) → o ≡ some a → Holds Q (f a))
    → Holds Q (in_case o x f)
unfolding in_case
in_case-Holds {o = none} h k = h refl
in_case-Holds {o = some a} h k = k a refl

-- What holds of every value a run returns, where another thing does.
pub weaken-Holds {ℓ κ ν} :
    {A : Type ℓ} {P : A → Type κ} {Q : A → Type ν} {m : Result A}
    → ((a : A) → P a → Q a)
    → Holds P m
    → Holds Q m
weaken-Holds {m = ok a} f h = ok-Holds a (f a h.holds)
weaken-Holds {m = panicked} f h = panicked-Holds
weaken-Holds {m = blocked} f h = blocked-Holds

-- What holds of every value that a run returns holds of the one it returned.
pub holds_of {ℓ κ} :
    {A : Type ℓ} {P : A → Type κ} {m : Result A} {a : A} → Holds P m → m ≡ ok a → P a
holds_of {P = P} h e = (subst (Holds P) e h).holds
