-- ===== src/Exec.antt =====
-- What a call of the library comes to: a result, or a fault that ends it without one.
use pipepp_core.Prelude.{◌≡◌, refl, ap, ◌∙◌, Bool, true, false, subst, if◌then◌else◌}

pub data Fault : Type 0 where
  null_call : Fault  -- a call through a null function pointer
  out_of_bounds : Fault  -- an index behind the end of a `std::array`
  deadlock : Fault  -- `spinlock::lock` on a lock that the caller itself holds
  dead_object : Fault  -- a use or a destruction of an object that is not alive
  leaked_object : Fault  -- an object built over one that was not destroyed
  failed_assert : Fault  -- a condition of an `assert` that is false
  unfinished : Fault  -- the schedule ends before the loop does

pub data Exec {ℓ} (A : Type ℓ) : Type ℓ where
  done : A → Exec A
  fault : Fault → Exec A

infixl 5 ◌>>=◌
abbrev pub ◌>>=◌ {ℓ κ} : {A : Type ℓ} {B : Type κ} → Exec A → (A → Exec B) → Exec B
done a >>= f = f a
fault e >>= f = fault e

abbrev pub map_exec {ℓ κ} : {A : Type ℓ} {B : Type κ} → (A → B) → Exec A → Exec B
map_exec f m = m >>= λ a. done (f a)

-- A call that ends with a result.
abbrev pub Ends {ℓ} : {A : Type ℓ} → Exec A → Type ℓ
Ends {A} m = (a : A) × (m ≡ done a)

pub map_exec-Ends {ℓ κ} :
    {A : Type ℓ} {B : Type κ} (f : A → B) (m : Exec A) → Ends m → Ends (map_exec f m)
map_exec-Ends f m (a, e) = (f a, ap (map_exec f) e)

pub >>=-Ends {ℓ κ} :
    {A : Type ℓ} {B : Type κ} (m : Exec A) (f : A → Exec B)
    → Ends m
    → ((a : A) → Ends (f a))
    → Ends (m >>= f)
>>=-Ends m f (a, e) h = let (b, k) = h a in (b, ap (λ n. n >>= f) e ∙ k)

pub >>=_assoc {ℓ κ μ} :
    {A : Type ℓ} {B : Type κ} {C : Type μ} (m : Exec A) (f : A → Exec B) (g : B → Exec C)
    → ((m >>= f) >>= g) ≡ (m >>= λ a. f a >>= g)
>>=_assoc (done a) f g = refl
>>=_assoc (fault e) f g = refl

pub >>=-ext {ℓ κ} :
    {A : Type ℓ} {B : Type κ} (m : Exec A) (f g : A → Exec B)
    → ((a : A) → f a ≡ g a)
    → (m >>= f) ≡ (m >>= g)
>>=-ext (done a) f g h = h a
>>=-ext (fault e) f g h = refl

pub if-Ends {ℓ} :
    {A : Type ℓ} (b : Bool) (m n : Exec A) → Ends m → Ends n → Ends (if b then m else n)
if-Ends true m n p q = p
if-Ends false m n p q = q

-- A bind that ends with a result has a first part that does.
pub >>=-eq-done {ℓ κ} :
    {A : Type ℓ} {B : Type κ} (m : Exec A) (f : A → Exec B) {b : B}
    → (m >>= f) ≡ done b
    → (a : A) × (m ≡ done a) × (f a ≡ done b)
>>=-eq-done (done a) f h = (a, refl, h)
>>=-eq-done (fault e) f h = cc

-- Whatever result a call ends with satisfies `P`.
abbrev pub Gives {ℓ κ} : {A : Type ℓ} → (A → Type κ) → Exec A → Type (ℓ ⊔ κ)
Gives {A} P m = (a : A) → m ≡ done a → P a

pub done-Gives {ℓ κ} : {A : Type ℓ} (P : A → Type κ) {a : A} → P a → Gives P (done a)
done-Gives P {a} g b h = let e : a ≡ b = cc in subst P e g

pub >>=-Gives {ℓ κ μ} :
    {A : Type ℓ} {B : Type κ} (P : B → Type μ) (m : Exec A) (f : A → Exec B)
    → ((a : A) → Gives P (f a))
    → Gives P (m >>= f)
>>=-Gives P m f g b h = let (a, _, k) = >>=-eq-done m f h in g a b k

pub if-Gives {ℓ κ} :
    {A : Type ℓ} (P : A → Type κ) (b : Bool) (m n : Exec A)
    → (b ≡ true → Gives P m)
    → (b ≡ false → Gives P n)
    → Gives P (if b then m else n)
if-Gives P true m n g h = g refl
if-Gives P false m n g h = h refl

-- What follows a call may be replaced by what ends with the same result.
pub >>=-mono {ℓ κ} :
    {A : Type ℓ} {B : Type κ} (m : Exec A) (f g : A → Exec B) {b : B}
    → ((a : A) → f a ≡ done b → g a ≡ done b)
    → (m >>= f) ≡ done b
    → (m >>= g) ≡ done b
>>=-mono (done a) f g k h = k a h
>>=-mono (fault e) f g k h = cc

pub if_of_true {ℓ} : {A : Type ℓ} {b : Bool} (x y : A) → b ≡ true → (if b then x else y) ≡ x
if_of_true x y e = rw e refl

pub if_of_false {ℓ} : {A : Type ℓ} {b : Bool} (x y : A) → b ≡ false → (if b then x else y) ≡ y
if_of_false x y e = rw e refl

-- The same, where the first part's results satisfy `Q`.
pub >>=-Gives_of {ℓ κ μ ν} :
    {A : Type ℓ} {B : Type κ} (Q : A → Type ν) (P : B → Type μ) (m : Exec A) (f : A → Exec B)
    → Gives Q m
    → ((a : A) → Q a → Gives P (f a))
    → Gives P (m >>= f)
>>=-Gives_of Q P m f h g b e = let (a, e', k) = >>=-eq-done m f e in g a (h a e') b k

pub >>=-of_done {ℓ κ} :
    {A : Type ℓ} {B : Type κ} {m : Exec A} {a : A} (f : A → Exec B) → m ≡ done a → (m >>= f) ≡ f a
>>=-of_done f e = ap (λ n. n >>= f) e

pub if-map {ℓ κ} :
    {A : Type ℓ} {B : Type κ} (f : A → B) (b : Bool) (x y : A)
    → f (if b then x else y) ≡ (if b then f x else f y)
if-map f true x y = refl
if-map f false x y = refl
