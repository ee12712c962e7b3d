-- ===== src/Str/Names.antt =====
-- Fixed-size names: what `strncmp` decides, and what `strncpy` and `safestrcpy` leave in memory.
use mp.Prelude.{
  ℕ, zero, suc, ◌+◌, ◌≤◌, ◌<◌, ◌≡◌, ◌≢◌, ◌↔◌, refl, false, ◌&&◌, ◌==◌, ltb, leb, if◌then◌else◌,
  arith, Bool-cases, inl, inr, ◌⊎◌,
}
use mp.Prelude.Int.{pos}
use mp.Prelude.Update.{update}
use mp.Str.{Memory, strncmp, pad, strncpy, safe_copy, safestrcpy, strlen_from}

-- The same string in the first `n` bytes at `p` and at `q`: equal up to the first NUL.
abbrev pub SameName : ℕ → ℕ → ℕ → Memory → Type 0
SameName p q zero m = Unit
SameName p q (suc n) m = (m p ≡ m q) × (m p ≢ 0 → SameName (p + 1) (q + 1) n m)

strncmp-zero : (p q n : ℕ) (m : Memory) → strncmp p q n m ≡ pos 0 → SameName p q n m
unfolding strncmp
strncmp-zero p q zero m h = tt
strncmp-zero p q (suc n) m h =
    (ground arith, λ more. strncmp-zero (p + 1) (q + 1) n m (ground arith))

SameName-strncmp : (p q n : ℕ) (m : Memory) → SameName p q n m → strncmp p q n m ≡ pos 0
unfolding strncmp
SameName-strncmp p q zero m h = refl
SameName-strncmp p q (suc n) m h = elim (Bool-cases (m p == 0)) [
  | inl ends ↦ ground arith
  | inr more ↦ ground (arith, SameName-strncmp (p + 1) (q + 1) n m (h.1 (ground arith)))
]

-- `strncmp` returns 0 exactly if the two names agree up to the first NUL of their `n` bytes.
pub strncmp_iff : (p q n : ℕ) (m : Memory) → (strncmp p q n m ≡ pos 0) ↔ SameName p q n m
strncmp_iff p q n m = (strncmp-zero p q n m, SameName-strncmp p q n m)

pad_lem :
    (s n : ℕ) (m : Memory) (j : ℕ) → pad s n m j ≡ (if leb s j && ltb j (s + n) then 0 else m j)
unfolding pad
pad_lem s zero m j = ground arith
pad_lem s (suc n) m j = ground (arith, pad_lem (s + 1) n (update m s 0) j)

strncpy_outside :
    (s t n : ℕ) (m : Memory) (j : ℕ) → (leb s j && ltb j (s + n)) ≡ false → strncpy s t n m j ≡ m j
unfolding strncpy
strncpy_outside s t zero m j h = refl
strncpy_outside s t (suc n) m j h = ground (
  arith,
  strncpy_outside (s + 1) (t + 1) n (update m s (m t)) j,
  pad_lem (s + 1) n (update m s (m t)) j,
)

strncpy-SameName :
    (s t n : ℕ) (m : Memory) → (s + n ≤ t) ⊎ (t + n ≤ s) → SameName s t n (strncpy s t n m)
unfolding strncpy
strncpy-SameName s t zero m apart = tt
strncpy-SameName s t (suc n) m apart = elim (Bool-cases (m t == 0)) [
  | inl ends ↦ rw ends (
    ground (arith, pad_lem (s + 1) n (update m s (m t)) s, pad_lem (s + 1) n (update m s (m t)) t),
    λ more. absurd (ground (arith, pad_lem (s + 1) n (update m s (m t)) s)),
  )
  | inr more ↦ rw more (
    ground (
      arith,
      strncpy_outside (s + 1) (t + 1) n (update m s (m t)) s,
      strncpy_outside (s + 1) (t + 1) n (update m s (m t)) t,
    ),
    λ _. strncpy-SameName (s + 1) (t + 1) n (update m s (m t)) (ground arith),
  )
]

-- A name that `strncpy` copies into a field of `n` bytes is found by `strncmp`, also where it fills
-- the field and has no NUL there, and no byte outside the field changes.
pub strncmp-strncpy :
    (s t n : ℕ) (m : Memory)
    → (s + n ≤ t) ⊎ (t + n ≤ s)
    → (strncmp s t n (strncpy s t n m) ≡ pos 0)
      × ((j : ℕ) → (leb s j && ltb j (s + n)) ≡ false → strncpy s t n m j ≡ m j)
strncmp-strncpy s t n m apart = (
  SameName-strncmp s t n (strncpy s t n m) (strncpy-SameName s t n m apart),
  strncpy_outside s t n m,
)

safe_copy_outside :
    (s t n : ℕ) (m : Memory) (j : ℕ)
    → (leb s j && leb j (s + n)) ≡ false
    → safe_copy s t n m j ≡ m j
unfolding safe_copy
safe_copy_outside s t zero m j h = ground arith
safe_copy_outside s t (suc n) m j h =
    ground (arith, safe_copy_outside (s + 1) (t + 1) n (update m s (m t)) j)

safe_copy_end : (s t n : ℕ) (m : Memory) → (k : ℕ) × (k ≤ n) × (safe_copy s t n m (s + k) ≡ 0)
unfolding safe_copy
safe_copy_end s t zero m = (0, omega arith, ground arith)
safe_copy_end s t (suc n) m = elim (Bool-cases (m t == 0)) [
  | inl ends ↦ (1, omega arith, rw ends (ground arith))
  | inr more ↦
      let (k, le, z) = safe_copy_end (s + 1) (t + 1) n (update m s (m t)) in
      let e : s + suc k ≡ s + 1 + k = omega arith in (suc k, omega arith, rw (more, e) z)
]

-- `safestrcpy` into a field of `n` bytes, for `n` above 0, leaves a NUL inside the field and changes
-- no byte outside it, whatever the source holds.
pub safestrcpy_ends :
    (s t n : ℕ) (m : Memory)
    → 0 < n
    → ((k : ℕ) × (k < n) × (safestrcpy s t n m (s + k) ≡ 0))
      × ((j : ℕ) → (leb s j && ltb j (s + n)) ≡ false → safestrcpy s t n m j ≡ m j)
unfolding safestrcpy
safestrcpy_ends s t zero m h = absurd (omega arith)
safestrcpy_ends s t (suc n) m h =
    let (k, le, z) = safe_copy_end s t n m in
    ((k, omega arith, z), λ j o. safe_copy_outside s t n m j (ground arith))

strlen_from_lem :
    (s n fuel e : ℕ) (m : Memory)
    → m (s + e) ≡ 0
    → ((i : ℕ) → i < e → m (s + i) ≢ 0)
    → n ≤ e
    → e < n + fuel
    → strlen_from s n fuel m ≡ e
unfolding strlen_from
strlen_from_lem s n zero e m ends before le enough = absurd (omega arith)
strlen_from_lem s n (suc fuel) e m ends before le enough = elim (Bool-cases (n == e)) [
  | inl here ↦ ground arith
  | inr further ↦ ground (arith, before n, strlen_from_lem s (n + 1) fuel e m ends before)
]

-- `strlen` returns the offset of the first NUL; a fuel above that offset is enough.
pub strlen_lem :
    (s fuel e : ℕ) (m : Memory)
    → m (s + e) ≡ 0
    → ((i : ℕ) → i < e → m (s + i) ≢ 0)
    → e < fuel
    → strlen_from s 0 fuel m ≡ e
strlen_lem s fuel e m ends before enough =
    strlen_from_lem s 0 fuel e m ends before (omega arith) (omega arith)
