-- ===== src/Kalloc/Tests.antt =====
-- kernel/kalloc.c at concrete inputs: tests of the model, and the theorems applied.
use mp.Prelude.{ℕ, ◌≡◌, ◌≢◌, ◌⊎◌, refl, All, List, [], ◌∷◌, ok, panic, asleep, ◌>>=◌, arith}
use mp.Kalloc.{Kmem, kfree, kalloc, free_from, freerange, kinit}
use mp.Kalloc.FreeList.{IsPage, Holds, kfree_lem, kalloc_lem}

-- A kernel that ends 100 bytes into the page below the last two.
abbrev small : Kmem
small = record { freelist = 0; word = λ _. 0; end_address = 0x87ffd064 }

abbrev booted : Kmem
booted = elim (kinit small) [ ok k ↦ k | panic ↦ small | asleep ↦ small ]

boots :
    (kinit small ≡ ok booted)
    × ((kalloc booted).0 ≡ 0x87fff000)
    × ((kalloc (kalloc booted).1).0 ≡ 0x87ffe000)
    × ((kalloc (kalloc (kalloc booted).1).1).0 ≡ 0)
    × (kfree 0x87ffd000 booted ≡ panic)
unfolding kinit freerange free_from kfree kalloc ◌>>=◌
boots = (refl, refl, refl, refl, refl)

abbrev last : List ℕ
last = 0x87fff000 ∷ []

one_page : Holds (record small { freelist = 0x87fff000 }) last
one_page = record {
  positive = omega arith;
  chain = (refl, refl);
  distinct = (tt, tt);
  pages = (omega arith, tt);
}

kalloc_lem_example :
    let (r, k') = kalloc (record small { freelist = 0x87fff000 }) in
    ((last ≡ []) × (r ≡ 0) × (k' ≡ record small { freelist = 0x87fff000 }))
    ⊎ ((rest : List ℕ) × (last ≡ r ∷ rest)
        × IsPage 0x87ffd064 r
        × All (λ q. r ≢ q) rest
        × Holds k' rest)
kalloc_lem_example = kalloc_lem (record small { freelist = 0x87fff000 }) last one_page

kfree_lem_example :
    (IsPage 0x87ffd064 0x87ffe000
      → (k' : Kmem) × (kfree 0x87ffe000 (record small { freelist = 0x87fff000 }) ≡ ok k')
        × Holds k' (0x87ffe000 ∷ last))
    × ((¬ IsPage 0x87ffd064 0x87ffe000)
        → kfree 0x87ffe000 (record small { freelist = 0x87fff000 }) ≡ panic)
kfree_lem_example =
    kfree_lem 0x87ffe000 (record small { freelist = 0x87fff000 }) last one_page (omega arith, tt)
