-- ===== src/Kalloc/FreeList.antt =====
-- The free list is a list of distinct pages inside the memory that the allocator manages.
use mp.Prelude.{
  ℕ, zero, suc, ◌+◌, ◌-◌, ◌*◌, ◌/◌, ◌%◌, ◌≤◌, ◌<◌, ◌≡◌, ◌≢◌, refl, sym, ap, ◌⊎◌, inl, inr, List, [],
  ◌∷◌, All, Distinct, ok, panic, ◌>>=◌, arith,
}
use mp.Prelude.Update.{update, update_ne, update_self}
use native.Mathlib.Decide.{dec_le, dec_lt, ℕ_discrete}
use mp.Kalloc.{
  Kmem, page_size, phystop, kfree, kalloc, junk, free_from, freerange, kinit, pg_round_up,
}

abbrev pub IsPage : ℕ → ℕ → Type 0
IsPage end_address p = (p % page_size ≡ 0) × (end_address ≤ p) × (p < phystop)

-- The addresses from `a` along the first words are those of the list.
abbrev pub Chain : (ℕ → ℕ) → ℕ → List ℕ → Type 0
Chain word a [] = a ≡ 0
Chain word a (p ∷ l) = (a ≡ p) × Chain word (word p) l

pub record Holds (k : Kmem) (l : List ℕ) : Type 0 where
  pub positive : 0 < k.end_address
  pub chain : Chain k.word k.freelist l
  pub distinct : Distinct l
  pub pages : All (IsPage k.end_address) l

Chain-update :
    (word : ℕ → ℕ) (p v a : ℕ) (l : List ℕ)
    → All (λ q. p ≢ q) l
    → Chain word a l
    → Chain (update word p v) a l
Chain-update word p v a [] away c = c
Chain-update word p v a (q ∷ l) away c =
    (c.0, rw (update_ne word p q v away.0) (Chain-update word p v (word q) l away.1 c.1))

abbrev freed : ℕ → Kmem → Kmem
freed pa k = record k { freelist = pa; word = update (update k.word pa (junk 1)) pa k.freelist }

kfree_ok : (pa : ℕ) (k : Kmem) → IsPage k.end_address pa → kfree pa k ≡ ok (freed pa k)
unfolding kfree
kfree_ok pa k p = ground arith

kfree_panic : (pa : ℕ) (k : Kmem) → (¬ IsPage k.end_address pa) → kfree pa k ≡ panic
unfolding kfree
kfree_panic pa k np = elim (dec_le k.end_address pa) [
  | yes a ↦ elim (dec_lt pa phystop) [
    | yes b ↦ elim (ℕ_discrete (pa % page_size) 0) [
      | yes c ↦ absurd (np (c, a, b))
      | no c ↦ ground arith
    ]
    | no b ↦ ground arith
  ]
  | no a ↦ ground arith
]

freed-Holds :
    (pa : ℕ) (k : Kmem) (l : List ℕ)
    → Holds k l
    → All (λ q. pa ≢ q) l
    → IsPage k.end_address pa
    → Holds (freed pa k) (pa ∷ l)
freed-Holds pa k l h away page = record {
  positive = h.positive;
  chain = (
    refl,
    rw (update_self (update k.word pa (junk 1)) pa k.freelist) (
        Chain-update (update k.word pa (junk 1)) pa k.freelist k.freelist l away
          (Chain-update k.word pa (junk 1) k.freelist l away h.chain)),
  );
  distinct = (away, h.distinct);
  pages = (page, h.pages);
}

-- `kfree` of a managed page that is not free puts it in front of the free list; of an address that is
-- no managed page it panics.
pub kfree_lem :
    (pa : ℕ) (k : Kmem) (l : List ℕ)
    → Holds k l
    → All (λ q. pa ≢ q) l
    → (IsPage k.end_address pa → (k' : Kmem) × (kfree pa k ≡ ok k') × Holds k' (pa ∷ l))
      × ((¬ IsPage k.end_address pa) → kfree pa k ≡ panic)
kfree_lem pa k l h away =
    (λ page. (freed pa k, kfree_ok pa k page, freed-Holds pa k l h away page), kfree_panic pa k)

kalloc_none : (k : Kmem) → k.freelist ≡ 0 → kalloc k ≡ (0, k)
unfolding kalloc
kalloc_none k e = ground arith

kalloc_some :
    (k : Kmem)
    → k.freelist ≢ 0
    → kalloc k ≡ (
      k.freelist,
      record k { freelist = k.word k.freelist; word = update k.word k.freelist (junk 5) },
    )
unfolding kalloc
kalloc_some k ne = ground arith

-- `kalloc` returns 0 and changes nothing if no page is free. If there is one, it returns the first:
-- a managed page that is not among the pages that stay free.
pub kalloc_lem :
    (k : Kmem) (l : List ℕ)
    → Holds k l
    → let (r, k') = kalloc k in
      ((l ≡ []) × (r ≡ 0) × (k' ≡ k))
      ⊎ ((rest : List ℕ) × (l ≡ r ∷ rest)
          × IsPage k.end_address r
          × All (λ q. r ≢ q) rest
          × Holds k' rest)
kalloc_lem k [] h = rw (kalloc_none k h.chain) (inl (refl, refl, refl))
kalloc_lem k (p ∷ l) h =
    let e : k.freelist ≡ p = h.chain.0 in
    let ne : k.freelist ≢ 0 = omega (arith, h.pages.0, h.positive) in
    rw (kalloc_some k ne) (
      inr (
        l,
        ap (λ q. q ∷ l) (sym e),
        rw e h.pages.0,
        rw e h.distinct.0,
        record {
          positive = h.positive;
          chain = rw e (Chain-update k.word p (junk 5) (k.word p) l h.distinct.0 h.chain.1);
          distinct = h.distinct.1;
          pages = h.pages.1;
        },
      ))

-- The pages from `p` on, as `freerange` leaves them: the last one first.
abbrev pub pages_from : ℕ → ℕ → List ℕ → List ℕ
pages_from p zero l = l
pages_from p (suc n) l = pages_from (p + page_size) n (p ∷ l)

All-lt : (p q : ℕ) (l : List ℕ) → p ≤ q → All (λ x. x < p) l → All (λ x. x < q) l
All-lt p q [] le h = tt
All-lt p q (x ∷ l) le h = (omega (arith, h.0), All-lt p q l le h.1)

All-ne : (p : ℕ) (l : List ℕ) → All (λ x. x < p) l → All (λ x. p ≢ x) l
All-ne p [] h = tt
All-ne p (x ∷ l) h = (omega (arith, h.0), All-ne p l h.1)

free_from_lem :
    (p n : ℕ) (k : Kmem) (l : List ℕ)
    → Holds k l
    → All (λ x. x < p) l
    → p % page_size ≡ 0
    → k.end_address ≤ p
    → p + n * page_size ≤ phystop
    → (k' : Kmem) × (free_from p n k ≡ ok k') × Holds k' (pages_from p n l)
unfolding free_from ◌>>=◌
free_from_lem p zero k l h below al lo hi = (k, refl, h)
free_from_lem p (suc n) k l h below al lo hi =
    let page : IsPage k.end_address p = (al, lo, omega arith) in
    let h' = freed-Holds p k l h (All-ne p l below) page in
    let (k', e, r) =
      free_from_lem (p + page_size) n (freed p k) (p ∷ l) h'
        (omega arith, All-lt p (p + page_size) l (omega arith) below) (omega arith) (omega arith)
        (omega arith) in
    (k', rw (kfree_ok p k page) e, r)

-- `kinit` frees every whole page between `end` and PHYSTOP, each once, without a panic.
pub kinit_lem :
    (k : Kmem)
    → 0 < k.end_address
    → k.end_address < phystop
    → k.freelist ≡ 0
    → let p = pg_round_up k.end_address in
      (k' : Kmem) × (kinit k ≡ ok k') × Holds k' (pages_from p ((phystop - p) / page_size) [])
unfolding kinit freerange
kinit_lem k positive below empty =
    free_from_lem (pg_round_up k.end_address) ((phystop - pg_round_up k.end_address) / page_size) k
      [] (record { positive = positive; chain = empty; distinct = tt; pages = tt }) tt (omega arith)
      (omega arith) (omega arith)
