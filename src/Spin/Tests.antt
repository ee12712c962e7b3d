-- ===== src/Spin/Tests.antt =====
-- kernel/spinlock.c at concrete inputs: tests of the model, and the theorem applied.
use mp.Prelude.{◌≡◌, refl, true, false, [], ◌∷◌, ok, panic, ◌>>=◌, arith}
use mp.Spin.{Machine, acquire, release, holding, push_off}
use mp.Spin.Nesting.{nest, IsKept, open_lock, nest-IsKept}

-- All locks are open, and interrupts are on.
abbrev quiet : Machine
quiet = record { lock = λ i. open_lock; noff = 0; intena = false; intr = true; me = 2 }

twice : (acquire 5 quiet >>= λ s. acquire 5 s) ≡ panic
unfolding acquire holding push_off ◌>>=◌
twice = refl

never_taken : release 5 quiet ≡ panic
unfolding release holding
never_taken = refl

nest-IsKept_example : (s' : Machine) × (nest (3 ∷ 7 ∷ []) quiet ≡ ok s') × IsKept quiet s'
nest-IsKept_example =
    nest-IsKept (3 ∷ 7 ∷ []) quiet ((omega arith, tt), (tt, tt)) (refl, (refl, tt))
      (λ h. absurd (omega arith))
