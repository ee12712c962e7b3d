-- ===== src/Fs/Bitmap.antt =====
-- The free map of kernel/fs.c: `balloc` and `bfree`.
use mp.Prelude.{
  ℕ, zero, suc, ◌+◌, ◌-◌, ◌*◌, ◌/◌, ◌%◌, min, ◌≤◌, ◌<◌, ◌≡◌, ◌≢◌, ◌⊎◌, inl, inr, refl, ◌∙◌, Bool,
  true, false, ◌==◌, ltb, if◌then◌else◌, none, some, Outcome, ok, panic, arith, ==_refl, ne→==,
  Bool-cases, Option-cases,
}
use mp.Prelude.Update.{update}
use mp.Words.{Bytes}
use mp.Fs.{
  Superblock, Disk, bpb, bblock, bzero, with_bit, without_bit, bit, find_clear, balloc_from, balloc,
  bfree,
}
use mp.Fs.Bits.{test-with_bit, test-without_bit}

-- Whether the map marks the block as in use.
abbrev pub used : Superblock → Disk → ℕ → Bool
used sb d n = bit (d (bblock n sb)) (n % bpb)

-- The map covers its own blocks.
abbrev pub IsLaidOut : Superblock → Disk → Type 0
IsLaidOut sb d = (n : ℕ) → n < sb.size → used sb d (bblock n sb) ≡ true

set_bit : Bytes → ℕ → Bytes
set_bit bp bi = update bp (bi / 8) (with_bit (bp (bi / 8)) (bi % 8))

bit-set : (bp : Bytes) (bi j : ℕ) → bit (set_bit bp bi) j ≡ (if j == bi then true else bit bp j)
unfolding set_bit
bit-set bp bi j = ground (arith, test-with_bit (bp (bi / 8)) (bi % 8) (j % 8))

clear_bit : Bytes → ℕ → Bytes
clear_bit bp bi = update bp (bi / 8) (without_bit (bp (bi / 8)) (bi % 8))

bit-clear :
    (bp : Bytes) (bi j : ℕ) → bit (clear_bit bp bi) j ≡ (if j == bi then false else bit bp j)
unfolding clear_bit
bit-clear bp bi j = ground (arith, test-without_bit (bp (bi / 8)) (bi % 8) (j % 8))

find_clear-some :
    (bp : Bytes) (bi left n : ℕ)
    → find_clear bp bi left ≡ some n
    → (bit bp n ≡ false) × (bi ≤ n) × (n < bi + left)
unfolding find_clear
find_clear-some bp bi zero n h = cc
find_clear-some bp bi (suc left) n h = elim (Bool-cases (bit bp bi)) [
  | inl taken ↦
      let (a, b, c) = find_clear-some bp (bi + 1) left n (ground arith) in
      (a, omega arith, omega arith)
  | inr free ↦ let e : bi ≡ n = ground arith in (rw (← e) free, omega arith, omega arith)
]

find_clear-none :
    (bp : Bytes) (bi left : ℕ)
    → find_clear bp bi left ≡ none
    → (j : ℕ) → bi ≤ j
    → j < bi + left
    → bit bp j ≡ true
unfolding find_clear
find_clear-none bp bi zero h j lo hi = absurd (omega arith)
find_clear-none bp bi (suc left) h j lo hi = elim (Bool-cases (bit bp bi)) [
  | inl taken ↦ elim (Bool-cases (bi == j)) [
    | inl here ↦ let e : bi ≡ j = ground arith in rw (← e) taken
    | inr later ↦ find_clear-none bp (bi + 1) left (ground arith) j (ground arith) (omega arith)
  ]
  | inr free ↦ absurd (ground arith)
]

-- What an allocation of `n` does.
pub record IsAllocated (sb : Superblock) (d : Disk) (n : ℕ) (d' : Disk) : Type 0 where
  pub in_range : n < sb.size
  pub was_free : used sb d n ≡ false
  pub now_used : used sb d' n ≡ true
  pub others : (m : ℕ) → m < sb.size → m ≢ n → used sb d' m ≡ used sb d m
  pub zeroed : (o : ℕ) → d' n o ≡ 0
  pub untouched : (m : ℕ) → m ≢ n → m ≢ bblock n sb → d' m ≡ d m

taken : Superblock → ℕ → ℕ → Disk → Disk
taken sb b bi d = bzero (b + bi) (update d (bblock b sb) (set_bit (d (bblock b sb)) bi))

taken_map :
    (sb : Superblock) (b bi : ℕ) (d : Disk)
    → bblock b sb ≢ b + bi
    → taken sb b bi d (bblock b sb) ≡ set_bit (d (bblock b sb)) bi
unfolding taken bzero
taken_map sb b bi d ne = ground arith

taken_other :
    (sb : Superblock) (b bi k : ℕ) (d : Disk)
    → k ≢ b + bi
    → k ≢ bblock b sb
    → taken sb b bi d k ≡ d k
unfolding taken bzero
taken_other sb b bi k d ne nb = ground arith

-- The block `b + bi` of the map block at `b`.
taken-IsAllocated :
    (sb : Superblock) (d : Disk) (b bi : ℕ)
    → IsLaidOut sb d
    → b % bpb ≡ 0
    → bi < bpb
    → b + bi < sb.size
    → bit (d (bblock b sb)) bi ≡ false
    → IsAllocated sb d (b + bi) (taken sb b bi d)
taken-IsAllocated sb d b bi laid aligned lt hn free =
    let same_block : (b + bi) / bpb ≡ b / bpb = omega arith in
    let offset : (b + bi) % bpb ≡ bi = omega arith in
    let was : used sb d (b + bi) ≡ false = rw (same_block, offset) free in
    let apart : (m : ℕ) → m < sb.size → bblock m sb ≢ b + bi =
      λ m hm e. ground (arith, laid m hm, was, e) in
    record {
      in_range = hn;
      was_free = was;
      now_used =
          rw (same_block, offset, taken_map sb b bi d (apart b (omega arith)))
            (bit-set (d (bblock b sb)) bi bi ∙ rw (==_refl bi));
      others = λ m hm ne. elim (Bool-cases (m / bpb == b / bpb)) [
        | inl same ↦
            let e : m / bpb ≡ b / bpb = ground arith in
            let away : (m % bpb == bi) ≡ false = ground arith in
            rw (e, taken_map sb b bi d (apart b (omega arith)))
              (bit-set (d (bblock b sb)) bi (m % bpb) ∙ rw away)
        | inr other ↦ rw (taken_other sb b bi (bblock m sb) d (apart m hm) (ground arith))
      ];
      zeroed = (unfold taken bzero in λ o. ground arith);
      untouched = (unfold taken bzero in λ m ne nb. ground arith);
    }

-- What the loop of `balloc` from `b` on returns.
Returns : Superblock → Disk → ℕ → Outcome (ℕ × Disk) → Type 0
Returns sb d b r =
    ((r ≡ panic) × ((m : ℕ) → b ≤ m → m < sb.size → used sb d m ≡ true))
    ⊎ ((n : ℕ) × (d' : Disk) × (r ≡ ok (n, d')) × IsAllocated sb d n d')

balloc_skip :
    (sb : Superblock) (b rounds : ℕ) (d : Disk)
    → find_clear (d (bblock b sb)) 0 (min bpb (sb.size - b)) ≡ none
    → balloc_from sb b (suc rounds) d ≡ balloc_from sb (b + bpb) rounds d
unfolding balloc_from
balloc_skip sb b rounds d full = rw (full, balloc_from)

balloc_take :
    (sb : Superblock) (b rounds bi : ℕ) (d : Disk)
    → find_clear (d (bblock b sb)) 0 (min bpb (sb.size - b)) ≡ some bi
    → balloc_from sb b (suc rounds) d ≡ ok (b + bi, taken sb b bi d)
unfolding balloc_from taken set_bit
balloc_take sb b rounds bi d free = rw (free, balloc_from)

balloc_from-Returns :
    (sb : Superblock) (b rounds : ℕ) (d : Disk)
    → IsLaidOut sb d
    → b % bpb ≡ 0
    → sb.size ≤ b + rounds * bpb
    → Returns sb d b (balloc_from sb b rounds d)
unfolding Returns
balloc_from-Returns sb b zero d laid aligned enough =
    inl (unfold balloc_from in refl, λ m lo hi. absurd (omega arith))
balloc_from-Returns sb b (suc rounds) d laid aligned enough =
    elim (Option-cases (find_clear (d (bblock b sb)) 0 (min bpb (sb.size - b)))) [
      | inl full ↦
          let all = find_clear-none (d (bblock b sb)) 0 (min bpb (sb.size - b)) full in
          rw (balloc_skip sb b rounds d full)
            (elim (balloc_from-Returns sb (b + bpb) rounds d laid (omega arith) (omega arith)) [
              | inl (stops, above) ↦ inl (
                stops,
                λ m lo hi. elim (Bool-cases (ltb m (b + bpb))) [
                  | inl near ↦
                      let same : m / bpb ≡ b / bpb = ground arith in
                      rw same (all (m % bpb) (omega arith) (ground arith))
                  | inr far ↦ above m (ground arith) hi
                ],
              )
              | inr good ↦ inr good
            ])
      | inr (bi, free) ↦
          let (clear, lo, hi) =
            find_clear-some (d (bblock b sb)) 0 (min bpb (sb.size - b)) bi free in
          inr (
            b + bi,
            taken sb b bi d,
            balloc_take sb b rounds bi d free,
            taken-IsAllocated sb d b bi laid aligned (omega arith) (omega arith) clear,
          )
    ]

-- `balloc` takes a block that the map has as free, zeroes it and marks it, and changes nothing else;
-- it panics only if no block is free. The map must cover its own blocks.
pub balloc_lem :
    (sb : Superblock) (d : Disk)
    → IsLaidOut sb d
    → ((balloc sb d ≡ panic) × ((m : ℕ) → m < sb.size → used sb d m ≡ true))
      ⊎ ((n : ℕ) × (d' : Disk) × (balloc sb d ≡ ok (n, d')) × IsAllocated sb d n d')
unfolding balloc Returns
balloc_lem sb d laid =
    elim (balloc_from-Returns sb 0 ((sb.size + (bpb - 1)) / bpb) d laid refl (omega arith)) [
      | inl (stops, all) ↦ inl (stops, λ m hm. all m (omega arith) hm)
      | inr good ↦ inr good
    ]

freed : Superblock → ℕ → Disk → Disk
freed sb b d = update d (bblock b sb) (clear_bit (d (bblock b sb)) (b % bpb))

used-freed :
    (sb : Superblock) (b m : ℕ) (d : Disk)
    → used sb (freed sb b d) m ≡ (if m == b then false else used sb d m)
unfolding freed
used-freed sb b m d = elim (Bool-cases (bblock b sb == bblock m sb)) [
  | inl same ↦
      let e : m / bpb ≡ b / bpb = ground arith in
      let t : (m % bpb == b % bpb) ≡ (m == b) = ground arith in
      rw (e, ==_refl (b / bpb + sb.bmapstart))
        (bit-clear (d (bblock b sb)) (b % bpb) (m % bpb) ∙ rw t)
  | inr apart ↦ let ne : (m == b) ≡ false = ground arith in rw (apart, ne)
]

freed_other : (sb : Superblock) (b m : ℕ) (d : Disk) → m ≢ bblock b sb → freed sb b d m ≡ d m
unfolding freed
freed_other sb b m d ne = ground arith

bfree-used :
    (sb : Superblock) (b : ℕ) (d : Disk) → used sb d b ≡ true → bfree sb b d ≡ ok (freed sb b d)
unfolding bfree freed clear_bit
bfree-used sb b d h = rw (h, bfree)

bfree_free : (sb : Superblock) (b : ℕ) (d : Disk) → used sb d b ≡ false → bfree sb b d ≡ panic
unfolding bfree
bfree_free sb b d h = rw (h, bfree)

-- `bfree` panics on a block that is free, and else makes it free, with every other block as it was.
pub bfree_lem :
    (sb : Superblock) (b : ℕ) (d : Disk)
    → ((used sb d b ≡ false) × (bfree sb b d ≡ panic))
      ⊎ ((d' : Disk) × (bfree sb b d ≡ ok d')
          × (used sb d b ≡ true)
          × (used sb d' b ≡ false)
          × ((m : ℕ) → m ≢ b → used sb d' m ≡ used sb d m)
          × ((m : ℕ) → m ≢ bblock b sb → d' m ≡ d m))
bfree_lem sb b d = elim (Bool-cases (used sb d b)) [
  | inl held ↦ inr (
    freed sb b d,
    bfree-used sb b d held,
    held,
    used-freed sb b b d ∙ rw (==_refl b),
    (λ m ne. used-freed sb b m d ∙ rw (ne→== m b ne)),
    λ m ne. freed_other sb b m d ne,
  )
  | inr free ↦ inl (free, bfree_free sb b d free)
]
