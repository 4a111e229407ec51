-- ===== src/Base/Outcome.antt =====
-- What holds of the outcome of a chain of operations, where there is one.
use mathlib.Core.Option.{Option, none, some}
use mathlib.Core.Path.{◌≡◌, refl, subst}
use mathlib.Core.Bool.{Bool, true, false}
use logstats.Base.Options.{◌>>=◌}
use logstats.Base.Tests.{◌==◌, if◌then◌else◌, update}
use Prim.Native.Nat.{ℕ}

pub record Ensures {A : Type 0} (P : A → Type 0) (m : Option A) : Type 0 where
  pub holds : (a : A) → m ≡ some a → P a

pub some_inj : {A : Type 0} {a b : A} → some a ≡ some b → a ≡ b
some_inj h = cc

-- A chain that has an outcome has one in its first part and in the rest.
pub bind_some :
    {A B : Type 0} {b : B} (m : Option A) (f : A → Option B)
    → (m >>= f) ≡ some b
    → (a : A) × (m ≡ some a) × (f a ≡ some b)
bind_some none f e = absurd (cc)
bind_some (some a) f e = (a, refl, e)

pub ensures_some : {A : Type 0} {P : A → Type 0} {a : A} → P a → Ensures P (some a)
ensures_some {P} p = record { holds = λ b h. subst P (some_inj h) p }

pub ensures_none : {A : Type 0} {P : A → Type 0} → Ensures P none
ensures_none = record { holds = λ a h. absurd (cc) }

pub ensures_bind :
    {A B : Type 0} (P : A → Type 0) {Q : B → Type 0} (m : Option A) (f : A → Option B)
    → Ensures P m
    → ((a : A) → P a → Ensures Q (f a))
    → Ensures Q (m >>= f)
ensures_bind P none f h k = record { holds = λ a e. absurd (cc) }
ensures_bind P (some a) f h k = k a (h.holds a refl)

pub ensures_if :
    {A : Type 0} {P : A → Type 0} (b : Bool) (m n : Option A)
    → Ensures P m
    → Ensures P n
    → Ensures P (if b then m else n)
ensures_if true m n h k = h
ensures_if false m n h k = k

-- Where the test itself is needed.
pub ensures_guard :
    {A : Type 0} {P : A → Type 0} (b : Bool) (m : Option A)
    → (b ≡ true → Ensures P m)
    → Ensures P (if b then m else none)
ensures_guard true m h = h refl
ensures_guard false m h = ensures_none

pub ensures_imply :
    {A : Type 0} {P Q : A → Type 0} {m : Option A}
    → ((a : A) → P a → Q a)
    → Ensures P m
    → Ensures Q m
ensures_imply f h = record { holds = λ a e. f a (h.holds a e) }

-- Of an outcome, that it is one.
pub ensures_self : {A : Type 0} (m : Option A) → Ensures (λ a. m ≡ some a) m
ensures_self m = record { holds = λ a h. h }

-- What holds of every block of a memory that is allocated.
module _ {A : Type 0} (P : A → Type 0) where
  pub record Each (s : ℕ → Option A) : Type 0 where
    pub at : (p : ℕ) (a : A) → s p ≡ some a → P a

  either :
      (b : Bool) (x y : Option A) (a : A)
      → (x ≡ some a → P a)
      → (y ≡ some a → P a)
      → (if b then x else y) ≡ some a
      → P a
  either true x y a h k = h
  either false x y a h k = k

  pub update-Each :
      (s : ℕ → Option A) (p : ℕ) (b : Option A)
      → Each s
      → ((a : A) → b ≡ some a → P a)
      → Each (update s p b)
  update-Each s p b h here = record {
    at = λ q a e. either (p == q) b (s q) a (here a) (h.at q a) e;
  }

  pub put-Each : (s : ℕ → Option A) (p : ℕ) (b : A) → Each s → P b → Each (update s p (some b))
  put-Each s p b h here = update-Each s p (some b) h (ensures_some here).holds

  pub free-Each : (s : ℕ → Option A) (p : ℕ) → Each s → Each (update s p none)
  free-Each s p h = update-Each s p none h ensures_none.holds

pub ensures_option :
    {A B : Type 0} {P : B → Type 0} (o : Option A) (m : Option B) (f : A → Option B)
    → Ensures P m
    → ((a : A) → o ≡ some a → Ensures P (f a))
    → Ensures P (elim o [ none ↦ m | some a ↦ f a ])
ensures_option none m f h k = h
ensures_option (some a) m f h k = k a refl

-- The same for results of any type.
module _ {A B : Type 0} (Q : B → Type 0) where
  pub holds_option :
      (o : Option A) (m : B) (f : A → B)
      → Q m
      → ((a : A) → o ≡ some a → Q (f a))
      → Q (elim o [ none ↦ m | some a ↦ f a ])
  holds_option none m f h k = h
  holds_option (some a) m f h k = k a refl

pub holds_if :
    {B : Type 0} (Q : B → Type 0) (b : Bool) (m n : B) → Q m → Q n → Q (if b then m else n)
holds_if Q true m n h k = h
holds_if Q false m n h k = k
