-- ===== src/Prelude/Effects.antt =====
-- What a kernel routine does: it returns, it panics, or it goes to sleep on a channel.
use mathlib.Core.Path.{◌≡◌, refl, subst}

pub data Outcome {ℓ} (A : Type ℓ) : Type ℓ where
  ok : A → Outcome A
  -- `panic` never returns: the machine stops.
  panic : Outcome A
  -- The routine waits in `sleep`, so that it goes on only after another thread's `wakeup`.
  asleep : Outcome A

infixl 5 ◌>>=◌
unfoldable pub ◌>>=◌ {ℓ κ} : {A : Type ℓ} {B : Type κ} → Outcome A → (A → Outcome B) → Outcome B
ok a >>= f = f a
panic >>= f = panic
asleep >>= f = asleep

-- Inversion of a successful bind.
pub >>=-eq-ok {ℓ κ} :
    {A : Type ℓ} {B : Type κ} (m : Outcome A) (f : A → Outcome B) {b : B}
    → (m >>= f) ≡ ok b
    → (a : A) × (m ≡ ok a) × (f a ≡ ok b)
unfolding ◌>>=◌
>>=-eq-ok (ok a) f h = (a, refl, h)
>>=-eq-ok panic f h = cc
>>=-eq-ok asleep f h = cc

ok_injective {ℓ} : {A : Type ℓ} {a b : A} → ok a ≡ ok b → a ≡ b
ok_injective e = cc

-- What holds of the result, if the routine returns.
pub record Ensures {ℓ κ} {A : Type ℓ} (P : A → Type κ) (m : Outcome A) : Type (ℓ ⊔ κ) where
  pub at : (a : A) → m ≡ ok a → P a

pub Ensures-bind {ℓ κ ι} :
    {A : Type ℓ} {B : Type κ} {P : B → Type ι} {m : Outcome A} {f : A → Outcome B}
    → ((a : A) → m ≡ ok a → Ensures P (f a))
    → Ensures P (m >>= f)
Ensures-bind {m} {f} h = record {
  at = λ b e. let (a, ea, eb) = >>=-eq-ok m f e in (h a ea).at b eb;
}

pub Ensures-return {ℓ κ} : {A : Type ℓ} {P : A → Type κ} {a : A} → P a → Ensures P (ok a)
Ensures-return {P} {a} p = record { at = λ b e. subst P (ok_injective e) p }
