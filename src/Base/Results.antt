-- ===== src/Base/Results.antt =====
-- What holds of the result of code that may raise, if there is a result.
use elf_dos.Base.Tests.{if◌then◌else◌, ◌>>=◌}
use mathlib.Core.Path.{◌≡◌, refl}
use mathlib.Core.Bool.{Bool, true, false}
use mathlib.Core.Option.{Option, none, some}

-- Of a result, if there is one.
abbrev pub Holds : {A : Type 0} → (A → Type 0) → Option A → Type 0
Holds P none = Unit
Holds P (some a) = P a

pub Holds-bind :
    {A B : Type 0} (P : B → Type 0) (m : Option A) (f : A → Option B)
    → ((a : A) → Holds P (f a))
    → Holds P (m >>= f)
Holds-bind P none f h = tt
Holds-bind P (some a) f h = h a

pub Holds-map :
    {A : Type 0} (P : A → Type 0) (m : Option A) (f : A → A)
    → ((a : A) → P a → P (f a))
    → Holds P m
    → Holds P (m >>= λ a. some (f a))
Holds-map P none f h k = tt
Holds-map P (some a) f h k = h a k

pub Holds-if :
    {A : Type 0} (P : A → Type 0) (b : Bool) (x y : Option A)
    → Holds P x
    → Holds P y
    → Holds P (if b then x else y)
Holds-if P true x y hx hy = hx
Holds-if P false x y hx hy = hy

pub if_either :
    {A : Type 0} (P : A → Type 0) (b : Bool) (x y : A) → P x → P y → P (if b then x else y)
if_either P true x y hx hy = hx
if_either P false x y hx hy = hy

pub Holds-bool :
    {A : Type 0} (P : A → Type 0) (b : Bool) (x y : Option A)
    → Holds P x
    → Holds P y
    → Holds P (elim b [ true ↦ x | false ↦ y ])
Holds-bool P true x y hx hy = hx
Holds-bool P false x y hx hy = hy

pub Holds-then :
    {A : Type 0} (P : A → Type 0) (m : Option A) (f : A → Option A)
    → ((a : A) → P a → Holds P (f a))
    → Holds P m
    → Holds P (m >>= f)
Holds-then P none f h k = tt
Holds-then P (some a) f h k = h a k

pub Holds-next :
    {A B : Type 0} (P : A → Type 0) (Q : B → Type 0) (m : Option A) (f : A → Option B)
    → ((a : A) → P a → Holds Q (f a))
    → Holds P m
    → Holds Q (m >>= f)
Holds-next P Q none f h k = tt
Holds-next P Q (some a) f h k = h a k

pub Holds-option :
    {A B : Type 0} (P : B → Type 0) (o : Option A) (x : Option B) (f : A → Option B)
    → Holds P x
    → ((a : A) → Holds P (f a))
    → Holds P (elim o [ none ↦ x | some a ↦ f a ])
Holds-option P none x f h k = h
Holds-option P (some a) x f h k = k a

-- There is a result, and it has the property.
abbrev pub Gives : {A : Type 0} → (A → Type 0) → Option A → Type 0
Gives {A} P o = (a : A) × (o ≡ some a) × P a

pub Gives-bind :
    {A B : Type 0} (P : B → Type 0) (m : Option A) (f : A → Option B) (a : A)
    → m ≡ some a
    → Gives P (f a)
    → Gives P (m >>= f)
Gives-bind P m f a e h = rw e h

pub Gives-if :
    {A : Type 0} (P : A → Type 0) (b : Bool) (x y : Option A)
    → (b ≡ true → Gives P x)
    → (b ≡ false → Gives P y)
    → Gives P (if b then x else y)
Gives-if P true x y hx hy = hx refl
Gives-if P false x y hx hy = hy refl

pub Gives_either :
    {A : Type 0} (P : A → Type 0) (b : Bool) (x y : A)
    → (b ≡ true → P x)
    → (b ≡ false → P y)
    → Gives P (some (if b then x else y))
Gives_either P true x y hx hy = (x, refl, hx refl)
Gives_either P false x y hx hy = (y, refl, hy refl)

pub Gives-option :
    {A B : Type 0} (P : B → Type 0) (W : Option A → Type 0) (o : Option A) (x : Option B)
    (f : A → Option B)
    → W o
    → (W none → Gives P x)
    → ((a : A) → W (some a) → Gives P (f a))
    → Gives P (elim o [ none ↦ x | some a ↦ f a ])
Gives-option P W none x f w h k = h w
Gives-option P W (some a) x f w h k = k a w

-- A result of a bind comes from a result of its first part.
pub bind-some :
    {A B : Type 0} (m : Option A) (f : A → Option B) {b : B}
    → m >>= f ≡ some b
    → (a : A) × (m ≡ some a) × (f a ≡ some b)
bind-some none f h = absurd (cc)
bind-some (some a) f h = (a, refl, h)

-- The rule of the bind, with the result of the first part.
pub Holds-bind_eq :
    {A B : Type 0} (P : B → Type 0) (m : Option A) (f : A → Option B)
    → ((a : A) → m ≡ some a → Holds P (f a))
    → Holds P (m >>= f)
Holds-bind_eq P none f h = tt
Holds-bind_eq P (some a) f h = h a refl
