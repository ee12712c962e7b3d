-- ===== src/Vm/UnmapPage.antt =====
-- kernel/vm.c: one page of `uvmunmap`.
use mp.Prelude.{
  ℕ, ◌/◌, ◌<◌, ◌≡◌, refl, sym, ap, ◌∙◌, subst, ◌≢◌, inl, inr, Bool, true, false, ◌&&◌, some, List,
  ◌∷◌, arith, ◌==◌, if◌then◌else◌, Bool-cases, All, ok, ◌>>=◌,
}
use mp.Prelude.Update.{update}
use mp.Kalloc.{page_size, Kmem, junk, kfree}
use mp.Kalloc.FreeList.{IsPage, Holds, kfree_lem}
use mp.Vm.{
  maxva, pte_v, is_valid, pte2pa, pte_flags, px, Ram, set_page, free_page, set_entry, unmap_entry,
  unmap_page,
}
use mp.Vm.Tree.{pte_at, IsTree, IsSound, px_lt, IsTree-outside, pte_at-outside}
use mp.Vm.Walk.{IsLeaf}
use mp.Vm.Leaf.{set_leaf-IsTree, set_leaf-pte_at, leaf-pte_at}
use mp.Vm.Lookup.{slot, walk_lem}

kfree_end : (pa : ℕ) (k k' : Kmem) → kfree pa k ≡ ok k' → k'.end_address ≡ k.end_address
unfolding kfree
kfree_end pa k k' e = ground arith

free_page_ok :
    (pa : ℕ) (k : Kmem) (s : Ram)
    → kfree pa s.kmem ≡ ok k
    → free_page pa s ≡ ok (set_page pa 1 (record s { kmem = k }))
unfolding free_page ◌>>=◌
free_page_ok pa k s e = rw e refl

set_page-entry :
    (pa c : ℕ) (k : Kmem) (s : Ram)
    → (set_page pa c (record s { kmem = k })).entry ≡ update s.entry pa (λ _. junk c)
unfolding set_page
set_page-entry pa c k s = refl

set_page-kmem : (pa c : ℕ) (s : Ram) → (set_page pa c s).kmem ≡ s.kmem
unfolding set_page
set_page-kmem pa c s = refl

-- The page of a mapped address, which only the mapping uses.
pub record IsBacked (place : ℕ → ℕ) (root : ℕ) (s : Ram) (free : List ℕ) (va : ℕ) : Type 0 where
  pub valid : is_valid (pte_at root s.entry va) ≡ true
  pub leaf : (pte_flags (pte_at root s.entry va) == pte_v) ≡ false
  pub page : IsPage s.kmem.end_address (pte2pa (pte_at root s.entry va))
  pub outside : place (pte2pa (pte_at root s.entry va)) ≡ 0
  pub taken : All (λ q. pte2pa (pte_at root s.entry va) ≢ q) free

-- The address has a way to an entry, if the entry there is valid.
valid-IsLeaf :
    (place : ℕ → ℕ) (root : ℕ) (e : ℕ → ℕ → ℕ) (va : ℕ)
    → is_valid (pte_at root e va) ≡ true
    → (t : ℕ) × IsLeaf root place e va t × (slot root e va ≡ some (t, px 0 va))
valid-IsLeaf place root e va v =
    let mid = e root (px 2 va) in
    let low = e (pte2pa mid) (px 1 va) in
    elim (Bool-cases (is_valid mid && is_valid low)) [
      | inl w ↦
          (pte2pa low, record { mid = ground arith; low = ground arith; table = refl }, rw w refl)
      | inr w ↦ absurd (no_entry (e (pte2pa low) (px 0 va)) (is_valid mid && is_valid low) w v)
    ]
  where
    no_entry : (x : ℕ) (b : Bool) → b ≡ false → is_valid (if b then x else 0) ≡ true → ⊥
    no_entry x b w v = ground arith

IsLeaf-outside :
    (place : ℕ → ℕ) (root : ℕ) (e : ℕ → ℕ → ℕ) (p va t : ℕ) (r : ℕ → ℕ)
    → IsTree place root e
    → place p ≡ 0
    → IsLeaf root place e va t
    → IsLeaf root place (update e p r) va t
IsLeaf-outside place root e p va t r h out l =
    let at_root : update e p r root (px 2 va) ≡ e root (px 2 va) = ground (arith, h.at_root) in
    let at_mid : update e p r (pte2pa (e root (px 2 va))) (px 1 va)
        ≡ e (pte2pa (e root (px 2 va))) (px 1 va) =
      ground (arith, h.mids (px 2 va) (px_lt 2 va) l.mid) in
    record {
      mid = rw at_root l.mid;
      low = rw (at_root, at_mid) l.low;
      table = rw (at_root, at_mid) l.table;
    }

-- What `uvmunmap` of the page at `va` leaves.
pub record UnmapsPage (place : ℕ → ℕ) (root : ℕ) (s : Ram) (free : List ℕ) (va : ℕ) (s' : Ram)
    : Type 0 where
  pub sound : IsSound place root s' (pte2pa (pte_at root s.entry va) ∷ free)
  pub end_address : s'.kmem.end_address ≡ s.kmem.end_address
  pub maps :
      (a : ℕ)
      → a < maxva
      → pte_at root s'.entry a
        ≡ (if a / page_size == va / page_size then 0 else pte_at root s.entry a)

unmap_page_ok :
    (root va t pte : ℕ) (k : Kmem) (s : Ram)
    → va < maxva
    → slot root s.entry va ≡ some (t, px 0 va)
    → s.entry t (px 0 va) ≡ pte
    → is_valid pte ≡ true
    → (pte_flags pte == pte_v) ≡ false
    → kfree (pte2pa pte) s.kmem ≡ ok k
    → unmap_page root va true s
      ≡ ok (set_entry t (px 0 va) 0 (set_page (pte2pa pte) 1 (record s { kmem = k })))
unfolding unmap_page unmap_entry ◌>>=◌
unmap_page_ok root va t pte k s lt at e v f freed =
    rw (walk_lem root va s lt, at, e, v, f, free_page_ok (pte2pa pte) k s freed) refl

pub unmap_page-UnmapsPage :
    (place : ℕ → ℕ) (root : ℕ) (s : Ram) (free : List ℕ) (va : ℕ)
    → IsSound place root s free
    → va < maxva
    → IsBacked place root s free va
    → (s' : Ram) × (unmap_page root va true s ≡ ok s') × UnmapsPage place root s free va s'
unmap_page-UnmapsPage place root s free va h lt b =
    let pte = pte_at root s.entry va in
    let pa = pte2pa pte in
    let (t, l, at) = valid-IsLeaf place root s.entry va b.valid in
    let same = leaf-pte_at root place s.entry va t l in
    let (k, e, holds) = (kfree_lem pa s.kmem free h.holds b.taken).0 b.page in
    let e1 = update s.entry pa (λ _. junk 1) in
    let tree1 = IsTree-outside place root s.entry pa (λ _. junk 1) h.tree b.outside in
    let l1 = IsLeaf-outside place root s.entry pa va t (λ _. junk 1) h.tree b.outside l in
    let s1 = set_page pa 1 (record s { kmem = k }) in
    let kmem1 = set_page-kmem pa 1 (record s { kmem = k }) in
    (
      set_entry t (px 0 va) 0 s1,
      unmap_page_ok root va t pte k s lt at (sym same) b.valid b.leaf e,
      record {
        sound = record {
          tree =
              subst (λ f. IsTree place root (update f t (update (f t) (px 0 va) 0)))
                (sym (set_page-entry pa 1 k s)) (set_leaf-IsTree place root e1 va t 0 tree1 l1);
          holds = subst (λ q. Holds q (pa ∷ free)) (sym kmem1) holds;
          outside = (b.outside, h.outside);
        };
        end_address = ap (λ q. q.end_address) kmem1 ∙ kfree_end pa s.kmem k e;
        maps = λ a la.
            ap (λ f. pte_at root (update f t (update (f t) (px 0 va) 0)) a)
              (set_page-entry pa 1 k s)
            ∙ set_leaf-pte_at place root e1 va t 0 a tree1 l1 lt la
            ∙ ap (λ x. if a / page_size == va / page_size then 0 else x)
                (pte_at-outside place root s.entry pa a (λ _. junk 1) h.tree b.outside);
      },
    )
