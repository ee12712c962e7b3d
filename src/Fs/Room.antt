-- ===== src/Fs/Room.antt =====
-- kernel/fs.c: the blocks that are still free, as `balloc` takes them.
use mp.Prelude.{
  ℕ, suc, ◌≤◌, ◌<◌, ◌≡◌, sym, ◌∙◌, ◌≢◌, inl, inr, true, false, List, [], ◌∷◌, arith, ◌==◌,
  if◌then◌else◌, ==→eq, ==→ne, Bool-cases, All, length, Distinct, ok,
}
use mp.Fs.{Superblock, Disk, balloc}
use mp.Fs.Bitmap.{used, IsLaidOut, IsAllocated, balloc_lem}

-- At least `k` blocks are free.
pub record HasRoom (sb : Superblock) (d : Disk) (k : ℕ) : Type 0 where
  pub blocks : List ℕ
  pub distinct : Distinct blocks
  pub free : All (λ m. (m < sb.size) × (used sb d m ≡ false)) blocks
  pub enough : k ≤ length blocks

without : ℕ → List ℕ → List ℕ
without n [] = []
without n (x ∷ l) = let rest = without n l in if x == n then l else x ∷ rest

All-without : (P : ℕ → Type 0) (n : ℕ) (l : List ℕ) → All P l → All P (without n l)
unfolding without
All-without P n [] h = tt
All-without P n (x ∷ l) h = elim (Bool-cases (x == n)) [
  | inl q ↦ rw q h.1
  | inr q ↦ rw q (h.0, All-without P n l h.1)
]

Distinct-without : (n : ℕ) (l : List ℕ) → Distinct l → Distinct (without n l)
unfolding without
Distinct-without n [] h = tt
Distinct-without n (x ∷ l) h = elim (Bool-cases (x == n)) [
  | inl q ↦ rw q h.1
  | inr q ↦ rw q (All-without (λ y. x ≢ y) n l h.0, Distinct-without n l h.1)
]

length-without : (n : ℕ) (l : List ℕ) → length l ≤ suc (length (without n l))
unfolding without
length-without n [] = omega arith
length-without n (x ∷ l) = elim (Bool-cases (x == n)) [
  | inl q ↦ rw q (omega arith)
  | inr q ↦ rw q (omega (arith, length-without n l))
]

All-map : (P Q : ℕ → Type 0) (l : List ℕ) → ((y : ℕ) → P y → Q y) → All P l → All Q l
All-map P Q [] f h = tt
All-map P Q (x ∷ l) f h = (f x h.0, All-map P Q l f h.1)

without_ne : (n : ℕ) (l : List ℕ) → Distinct l → All (λ y. y ≢ n) (without n l)
unfolding without
without_ne n [] h = tt
without_ne n (x ∷ l) h = elim (Bool-cases (x == n)) [
  | inl q ↦
      let e : x ≡ n = ==→eq x n q in
      rw q (All-map (λ y. x ≢ y) (λ y. y ≢ n) l (λ y ne z. ne (e ∙ sym z)) h.0)
  | inr q ↦ rw q (==→ne x n q, without_ne n l h.1)
]

All-both : (P Q : ℕ → Type 0) (l : List ℕ) → All P l → All Q l → All (λ y. P y × Q y) l
All-both P Q [] a b = tt
All-both P Q (x ∷ l) a b = ((a.0, b.0), All-both P Q l a.1 b.1)

-- An allocation takes one of them.
pub HasRoom-allocated :
    (sb : Superblock) (d d' : Disk) (n k : ℕ)
    → HasRoom sb d (suc k)
    → IsAllocated sb d n d'
    → HasRoom sb d' k
HasRoom-allocated sb d d' n k h a = record {
  blocks = without n h.blocks;
  distinct = Distinct-without n h.blocks h.distinct;
  free =
      All-map (λ m. ((m < sb.size) × (used sb d m ≡ false)) × (m ≢ n))
        (λ m. (m < sb.size) × (used sb d' m ≡ false)) (without n h.blocks)
        (λ m ((lt, u), ne). (lt, a.others m lt ne ∙ u))
        (All-both (λ m. (m < sb.size) × (used sb d m ≡ false)) (λ m. m ≢ n) (without n h.blocks)
          (All-without (λ m. (m < sb.size) × (used sb d m ≡ false)) n h.blocks h.free)
          (without_ne n h.blocks h.distinct));
  enough = omega (arith, h.enough, length-without n h.blocks);
}

-- The map is what counts.
pub HasRoom-same :
    (sb : Superblock) (d d' : Disk) (k : ℕ)
    → ((m : ℕ) → m < sb.size → used sb d' m ≡ used sb d m)
    → HasRoom sb d k
    → HasRoom sb d' k
HasRoom-same sb d d' k same h = record {
  blocks = h.blocks;
  distinct = h.distinct;
  free =
      All-map (λ m. (m < sb.size) × (used sb d m ≡ false))
        (λ m. (m < sb.size) × (used sb d' m ≡ false)) h.blocks (λ m (lt, u). (lt, same m lt ∙ u))
        h.free;
  enough = h.enough;
}

pub HasRoom-less : (sb : Superblock) (d : Disk) (j k : ℕ) → j ≤ k → HasRoom sb d k → HasRoom sb d j
HasRoom-less sb d j k le h = record {
  blocks = h.blocks;
  distinct = h.distinct;
  free = h.free;
  enough = omega (arith, h.enough);
}

-- Where a block is free, `balloc` returns.
pub balloc_returns :
    (sb : Superblock) (d : Disk) (k : ℕ)
    → IsLaidOut sb d
    → HasRoom sb d (suc k)
    → (n : ℕ) × (d' : Disk) × (balloc sb d ≡ ok (n, d')) × IsAllocated sb d n d' × HasRoom sb d' k
balloc_returns sb d k laid room = elim (balloc_lem sb d laid) [
  | inl (_, full) ↦ absurd (no_room sb d room.blocks full room.free (omega (arith, room.enough)))
  | inr (n, d', e, a) ↦ (n, d', e, a, HasRoom-allocated sb d d' n k room a)
]
  where
    no_room :
        (sb : Superblock) (d : Disk) (l : List ℕ)
        → ((m : ℕ) → m < sb.size → used sb d m ≡ true)
        → All (λ m. (m < sb.size) × (used sb d m ≡ false)) l
        → 0 < length l
        → ⊥
    no_room sb d [] full free some_left = omega arith
    no_room sb d (m ∷ l) full free some_left =
        let e : true ≡ false = sym (full m free.0.0) ∙ free.0.1 in cc
