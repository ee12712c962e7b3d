-- ===== src/Virtio/Descriptors.antt =====
-- Taking descriptors and giving them back.
use mp.Prelude.{
  ℕ, zero, suc, ◌+◌, ◌<◌, ◌≡◌, ◌≢◌, refl, sym, ap, ◌∙◌, Bool, true, false, ◌||◌, ◌==◌,
  if◌then◌else◌, Option, none, some, Outcome, ok, ◌>>=◌, arith, Bool-cases, Option-cases, inl, inr,
  ◌⊎◌,
}
use mp.Prelude.Update.{update, update_ne}
use mp.Virtio.{
  Ring, num, set_free, set_desc, find_desc, alloc_desc, free_desc, alloc_third, alloc_second,
  alloc3_desc,
}

find_desc-some :
    (free : ℕ → Bool) (i left j : ℕ)
    → find_desc free i left ≡ some j
    → (free j ≡ true) × (j < i + left)
unfolding find_desc
find_desc-some free i zero j h = cc
find_desc-some free i (suc left) j h = elim (Bool-cases (free i)) [
  | inl yes_free ↦ let e : i ≡ j = ground arith in (rw (← e) yes_free, omega arith)
  | inr taken ↦ let (a, b) = find_desc-some free (i + 1) left j (ground arith) in (a, omega arith)
]

alloc_desc_cases :
    (q : Ring)
    → (alloc_desc q ≡ (none, q))
      ⊎ ((i : ℕ) × (alloc_desc q ≡ (some i, set_free i false q)) × (q.free i ≡ true) × (i < num))
unfolding alloc_desc
alloc_desc_cases q = elim (Option-cases (find_desc q.free 0 num)) [
  | inl full ↦ inl (rw (full, alloc_desc))
  | inr (i, found) ↦
      let (a, b) = find_desc-some q.free 0 num i found in
      inr (i, (rw (found, alloc_desc)), a, omega arith)
]

abbrev pub freed : ℕ → Ring → Ring
freed i q = set_free i true (set_desc i (record (q.desc i) { addr = 0 }) q)

pub free_desc_ok : (i : ℕ) (q : Ring) → i < num → q.free i ≡ false → free_desc i q ≡ ok (freed i q)
unfolding free_desc
free_desc_ok i q lt taken = ground arith

-- The descriptors that an `alloc3_desc` has taken.
pub record HasTaken (q : Ring) (a b c : ℕ) (q' : Ring) : Type 0 where
  pub a_lt : a < num
  pub b_lt : b < num
  pub c_lt : c < num
  pub were_free : (q.free a ≡ true) × (q.free b ≡ true) × (q.free c ≡ true)
  pub distinct : (a ≢ b) × (a ≢ c) × (b ≢ c)
  pub desc_is : (i : ℕ) → q'.desc i ≡ q.desc i
  pub free_is : (i : ℕ) → q'.free i ≡ (if (i == a) || (i == b) || (i == c) then false else q.free i)

abbrev SameFree : Ring → Ring → Type 0
SameFree q q' = (i : ℕ) → q'.free i ≡ q.free i

-- The descriptors of the other requests.
abbrev pub SameTaken : Ring → Ring → Type 0
SameTaken q q' = (i : ℕ) → q.free i ≡ false → q'.desc i ≡ q.desc i

abbrev pub Allocated : Ring → Outcome (Option (ℕ × ℕ × ℕ) × Ring) → Type 0
Allocated q r =
    ((q' : Ring) × (r ≡ ok (none, q')) × SameFree q q' × SameTaken q q')
    ⊎ ((a : ℕ) × (b : ℕ) × (c : ℕ) × (q' : Ring) × (r ≡ ok (some (a, b, c), q'))
        × HasTaken q a b c q')

pub free_not_taken : (q : Ring) (a i : ℕ) → q.free a ≡ true → q.free i ≡ false → a ≢ i
free_not_taken q a i fa ti e = let w : true ≡ false = sym fa ∙ ap q.free e ∙ ti in cc

pub taken_one :
    (q : Ring) (a i : ℕ)
    → q.free a ≡ true
    → q.free i ≡ false
    → (freed a (set_free a false q)).desc i ≡ q.desc i
taken_one q a i fa ti =
    update_ne q.desc a i (record (q.desc a) { addr = 0 }) (free_not_taken q a i fa ti)

taken_desc :
    (q : Ring) (a b i : ℕ)
    → q.free a ≡ true
    → q.free b ≡ true
    → q.free i ≡ false
    → (freed b (freed a (set_free b false (set_free a false q)))).desc i ≡ q.desc i
taken_desc q a b i fa fb ti =
    let d = update q.desc a (record (q.desc a) { addr = 0 }) in
    update_ne d b i (record (d b) { addr = 0 }) (free_not_taken q b i fb ti) ∙ taken_one q a i fa ti

alloc_third-Allocated :
    (q : Ring) (a b : ℕ)
    → a < num
    → b < num
    → a ≢ b
    → q.free a ≡ true
    → q.free b ≡ true
    → Allocated q (alloc_third a b (set_free b false (set_free a false q)))
unfolding alloc_third ◌>>=◌
alloc_third-Allocated q a b ha hb ne fa fb =
    let u = set_free b false (set_free a false q) in
    elim (alloc_desc_cases u) [
      | inl full ↦ inl (
        freed b (freed a u),
        ground (arith, full, free_desc_ok a u ha, free_desc_ok b (freed a u) hb),
        λ i. ground arith,
        λ i ti. taken_desc q a b i fa fb ti,
      )
      | inr (c, found, fc, hc) ↦ inr (
        a,
        b,
        c,
        set_free c false u,
        ground (arith, found),
        record {
          a_lt = ha;
          b_lt = hb;
          c_lt = hc;
          were_free = (fa, fb, ground arith);
          distinct = (ne, ground arith, ground arith);
          desc_is = λ i. refl;
          free_is = λ i. ground arith;
        },
      )
    ]

second_step :
    (a b : ℕ) (q u : Ring) → alloc_desc q ≡ (some b, u) → alloc_second a q ≡ alloc_third a b u
unfolding alloc_second
second_step a b q u e = ground (arith, e)

first_step : (a : ℕ) (q u : Ring) → alloc_desc q ≡ (some a, u) → alloc3_desc q ≡ alloc_second a u
unfolding alloc3_desc
first_step a q u e = ground (arith, e)

alloc_second-Allocated :
    (q : Ring) (a : ℕ)
    → a < num
    → q.free a ≡ true
    → Allocated q (alloc_second a (set_free a false q))
unfolding alloc_second ◌>>=◌
alloc_second-Allocated q a ha fa =
    let u = set_free a false q in
    elim (alloc_desc_cases u) [
      | inl full ↦ inl (
        freed a u,
        ground (arith, full, free_desc_ok a u ha),
        λ i. ground arith,
        λ i ti. taken_one q a i fa ti,
      )
      | inr (b, found, fb, hb) ↦
          let third = alloc_third-Allocated q a b ha hb (ground arith) fa (ground arith) in
          rw (second_step a b u (set_free b false u) found) third
    ]

-- `alloc3_desc` never panics. It takes three different descriptors that were free, or, where there
-- are not three, fails and leaves every descriptor as free or taken as it was, and those that are taken
-- with their contents.
pub alloc3_desc_lem : (q : Ring) → Allocated q (alloc3_desc q)
unfolding alloc3_desc
alloc3_desc_lem q = elim (alloc_desc_cases q) [
  | inl full ↦ inl (q, ground (arith, full), (λ i. refl), λ i _. refl)
  | inr (a, found, fa, ha) ↦
      rw (first_step a q (set_free a false q) found) (alloc_second-Allocated q a ha fa)
]
