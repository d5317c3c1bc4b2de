-- ===== src/Base/Results.antt =====
-- The result of a call: absl::Status and absl::StatusOr, and the end of the program by a CHECK.
use mathlib.Core.Path.{◌≡◌, refl}
use mathlib.Core.Bool.{Bool, true, false}
use native.Mathlib.Omega.{arith}

-- The codes of absl that the source makes.
pub data Code : Type 0 where
  out_of_range failed_precondition internal : Code

-- `crash` is a CHECK, a MUST or a LOG(FATAL) that fails: the process ends.
pub data Status {ℓ} (A : Type ℓ) : Type ℓ where
  ok : A → Status A
  err : Code → Status A
  crash : Status A

-- RETURN_IF_ERROR and TRY: the rest runs on a good result, an error goes up to the caller.
infixl 5 ◌>>=◌ ◌>>◌
abbrev pub ◌>>=◌ {ℓ κ} : {A : Type ℓ} {B : Type κ} → Status A → (A → Status B) → Status B
ok a >>= f = f a
err e >>= f = err e
crash >>= f = crash

abbrev pub ◌>>◌ {ℓ} : {B : Type ℓ} → Status (Unit {0}) → Status B → Status B
m >> k = m >>= λ _. k

-- MUST and CHECK_OK: an error ends the program.
unfoldable pub must {ℓ} : {A : Type ℓ} → Status A → Status A
must (ok a) = ok a
must (err e) = crash
must crash = crash

-- CHECK.
unfoldable pub check : Bool → Status (Unit {0})
check true = ok tt
check false = crash

pub err≢ok {ℓ} : {A : Type ℓ} {c : Code} {a : A} → err c ≡ ok a → ⊥
err≢ok h = ground (arith, h)

pub crash≢ok {ℓ} : {A : Type ℓ} {a : A} → crash ≡ ok a → ⊥
crash≢ok h = ground (arith, h)

-- A chain that ends well has come past its first call.
pub bind-ok {ℓ κ} :
    {A : Type ℓ} {B : Type κ} (s : Status A) (f : A → Status B) (b : B)
    → (s >>= f) ≡ ok b
    → (a : A) × (s ≡ ok a) × (f a ≡ ok b)
bind-ok (ok a) f b h = (a, refl, h)
bind-ok (err c) f b h = absurd (err≢ok h)
bind-ok crash f b h = absurd (crash≢ok h)
