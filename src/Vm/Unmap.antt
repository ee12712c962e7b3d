-- ===== src/Vm/Unmap.antt =====
-- kernel/vm.c: `uvmunmap` with `do_free`, over the allocator.
use mp.Prelude.{
  ℕ, zero, suc, ◌+◌, ◌-◌, ◌*◌, ◌/◌, ◌%◌, ◌^◌, ◌≤◌, ◌<◌, ◌≡◌, refl, sym, ap, ◌∙◌, subst, ◌≢◌, inl,
  inr, true, false, ◌&&◌, List, ◌∷◌, arith, ltb, leb, ◌==◌, if◌then◌else◌, ==→eq, ==→ne, Bool-cases,
  All, ok, ◌>>=◌,
}
use mp.Kalloc.{page_size}
use mp.Vm.{maxva, pte2pa, Ram, unmap_from, uvmunmap}
use mp.Vm.Tree.{pte_at, IsSound}
use mp.Vm.UnmapPage.{IsBacked, UnmapsPage, unmap_page-UnmapsPage}

-- The physical page at the `i`-th page from `a` on.
abbrev pub backing : ℕ → (ℕ → ℕ → ℕ) → ℕ → ℕ → ℕ
backing root e a i = pte2pa (pte_at root e (a + i * page_size))

-- The free list once the pages of the range were put in front of it, the last page first.
abbrev pub released : ℕ → (ℕ → ℕ → ℕ) → ℕ → ℕ → List ℕ → List ℕ
released root e a zero free = free
released root e a (suc n) free = released root e (a + page_size) n (pte2pa (pte_at root e a) ∷ free)

-- A range of mapped pages, each with a page of its own.
pub record AreBacked (place : ℕ → ℕ) (root : ℕ) (s : Ram) (free : List ℕ) (a n : ℕ) : Type 0 where
  pub each : (i : ℕ) → i < n → IsBacked place root s free (a + i * page_size)
  pub own : (i j : ℕ) → i < n → j < n → i ≢ j → backing root s.entry a i ≢ backing root s.entry a j

-- What `uvmunmap` of `n` pages from `a` on leaves.
pub record Unmaps (place : ℕ → ℕ) (root : ℕ) (s : Ram) (free : List ℕ) (a n : ℕ) (s' : Ram)
    : Type 0 where
  pub sound : IsSound place root s' (released root s.entry a n free)
  pub maps :
      (v : ℕ)
      → v < maxva
      → pte_at root s'.entry v
        ≡ (if leb a v && ltb v (a + n * page_size) then 0 else pte_at root s.entry v)

-- The pages after the first one, once that is unmapped.
AreBacked-rest :
    (place : ℕ → ℕ) (root : ℕ) (s s' : Ram) (free : List ℕ) (a n : ℕ)
    → a % page_size ≡ 0
    → a + suc n * page_size ≤ maxva
    → AreBacked place root s free a (suc n)
    → UnmapsPage place root s free a s'
    → AreBacked place root s' (pte2pa (pte_at root s.entry a) ∷ free) (a + page_size) n
AreBacked-rest place root s s' free a n al fits h u =
    let same : (i : ℕ)
        → i < n
        → pte_at root s'.entry (a + page_size + i * page_size)
          ≡ pte_at root s.entry (a + suc i * page_size) =
      λ i hi.
        u.maps (a + page_size + i * page_size) (omega arith)
        ∙ later_page a i (pte_at root s.entry) al in
    let first : a + 0 * page_size ≡ a = omega arith in
    record {
      each = λ i hi.
          let b = h.each (suc i) (omega arith) in
          record {
            valid = rw (same i hi) b.valid;
            leaf = rw (same i hi) b.leaf;
            page = rw (same i hi, u.end_address) b.page;
            outside = rw (same i hi) b.outside;
            taken =
                subst (λ x. All (λ q. pte2pa x ≢ q) (pte2pa (pte_at root s.entry a) ∷ free))
                  (sym (same i hi))
                  (
                    (λ e.
                        h.own (suc i) 0 (omega arith) (omega arith) (λ z. omega (arith, z))
                          (e ∙ ap (λ x. pte2pa (pte_at root s.entry x)) (sym first))),
                    b.taken,
                  );
          };
      own = λ i j hi hj ne.
          rw (same i hi, same j hj)
            (h.own (suc i) (suc j) (omega arith) (omega arith) (λ z. ne (omega (arith, z))));
    }
  where
    later_page :
        (a i : ℕ) (f : ℕ → ℕ)
        → a % page_size ≡ 0
        → (if (a + page_size + i * page_size) / page_size == a / page_size
            then 0
            else f (a + page_size + i * page_size))
          ≡ f (a + suc i * page_size)
    later_page a i f al =
        let q : a + page_size + i * page_size ≡ a + suc i * page_size = omega arith in
        let w : ((a + suc i * page_size) / page_size == a / page_size) ≡ false = ground arith in
        rw (q, w) refl

released-rest :
    (root : ℕ) (e e' : ℕ → ℕ → ℕ) (a n : ℕ) (free : List ℕ)
    → ((i : ℕ) → i < n → pte_at root e' (a + i * page_size) ≡ pte_at root e (a + i * page_size))
    → released root e' a n free ≡ released root e a n free
released-rest root e e' a zero free same = refl
released-rest root e e' a (suc n) free same =
    let q : a + 0 * page_size ≡ a = omega arith in
    let first : pte_at root e' a ≡ pte_at root e a =
      subst (λ x. pte_at root e' x ≡ pte_at root e x) q (same 0 (omega arith)) in
    rw first (
      released-rest root e e' (a + page_size) n (pte2pa (pte_at root e a) ∷ free) (λ i hi.
        let r : a + suc i * page_size ≡ a + page_size + i * page_size = omega arith in
        subst (λ x. pte_at root e' x ≡ pte_at root e x) r (same (suc i) (omega arith))))

unmap_from-Unmaps :
    (place : ℕ → ℕ) (root : ℕ) (s : Ram) (free : List ℕ) (a n : ℕ)
    → IsSound place root s free
    → a % page_size ≡ 0
    → a + n * page_size ≤ maxva
    → AreBacked place root s free a n
    → (s' : Ram) × (unmap_from root a true n s ≡ ok s') × Unmaps place root s free a n s'
unfolding unmap_from ◌>>=◌
unmap_from-Unmaps place root s free a zero h al fits b = (
  s,
  refl,
  record {
    sound = h;
    maps =
        λ v hv. let q : (leb a v && ltb v (a + 0 * page_size)) ≡ false = ground arith in rw q refl;
  },
)
unmap_from-Unmaps place root s free a (suc n) h al fits b =
    let q : a + 0 * page_size ≡ a = omega arith in
    let (s1, e, u) =
      unmap_page-UnmapsPage place root s free a h (omega arith)
        (subst (IsBacked place root s free) q (b.each 0 (omega arith))) in
    let (s2, f, w) =
      unmap_from-Unmaps place root s1 (pte2pa (pte_at root s.entry a) ∷ free) (a + page_size) n
        u.sound (omega arith) (omega arith) (AreBacked-rest place root s s1 free a n al fits b u) in
    (
      s2,
      rw e f,
      record {
        sound =
            subst (IsSound place root s2)
              (released-rest root s.entry s1.entry (a + page_size) n
                (pte2pa (pte_at root s.entry a) ∷ free)
                (λ i hi.
                  u.maps (a + page_size + i * page_size) (omega arith)
                  ∙ (let away : ((a + page_size + i * page_size) / page_size == a / page_size)
                          ≡ false =
                        ground arith in
                      rw away refl)))
              w.sound;
        maps = λ v hv. w.maps v hv ∙ rw (u.maps v hv) (one_more a n v (pte_at root s.entry v) al);
      },
    )
  where
    one_more :
        (a n v x : ℕ)
        → a % page_size ≡ 0
        → (if leb (a + page_size) v && ltb v (a + page_size + n * page_size)
            then 0
            else if v / page_size == a / page_size
            then 0
            else x)
          ≡ (if leb a v && ltb v (a + suc n * page_size) then 0 else x)
    one_more a n v x al = elim (Bool-cases (v / page_size == a / page_size)) [
      | inl same ↦
          let q : v / page_size ≡ a / page_size = ==→eq (v / page_size) (a / page_size) same in
          rw same (ground arith)
      | inr apart ↦ let q = ==→ne (v / page_size) (a / page_size) apart in ground arith
    ]

-- `uvmunmap` of mapped pages, each backed by a page of its own that is not free, unmaps exactly them
-- and gives each of their pages to the allocator once; every other address is mapped as before, and the
-- table stays sound.
pub uvmunmap_lem :
    (place : ℕ → ℕ) (root : ℕ) (s : Ram) (free : List ℕ) (va n : ℕ)
    → IsSound place root s free
    → va % page_size ≡ 0
    → va + n * page_size ≤ maxva
    → AreBacked place root s free va n
    → (s' : Ram) × (uvmunmap root va n true s ≡ ok s') × Unmaps place root s free va n s'
unfolding uvmunmap
uvmunmap_lem place root s free va n h al fits b =
    let rounds : ((va + n * page_size) % 2 ^ 64 - va) / page_size ≡ n = omega arith in
    rw (al, rounds) (unmap_from-Unmaps place root s free va n h al fits b)
