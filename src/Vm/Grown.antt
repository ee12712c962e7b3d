-- ===== src/Vm/Grown.antt =====
-- kernel/vm.c: the tables once `walk` has entered new ones.
use mp.Prelude.{
  ℕ, ◌+◌, ◌%◌, ◌≡◌, refl, sym, ap, ◌∙◌, fun_ext, subst, ◌≢◌, ◌⊎◌, inl, inr, Bool, true, false, none,
  some, List, [], ◌∷◌, arith, ◌==◌, ==→eq, ==→ne, Bool-cases, All,
}
use mp.Prelude.Update.{update, update_ne}
use mp.Kalloc.{page_size, Kmem, junk, kalloc}
use mp.Kalloc.FreeList.{IsPage, Holds, kalloc_lem}
use mp.Str.{memset}
use mp.Str.Move.{memset_lem}
use mp.Vm.{
  pte_v, is_valid, pte2pa, pa2pte, pg_round_down, Ram, set_page, alloc_page, set_entry, descend,
}
use mp.Vm.Tree.{pte_at, IsTree, IsSound, grown, grown_other}

-- How an allocation leaves the memory: the tree maps what it did, in pages that were free.
pub record IsGrown (root : ℕ) (place : ℕ → ℕ) (s : Ram) (free : List ℕ) (place' : ℕ → ℕ) (s' : Ram)
    (free' : List ℕ) : Type 0 where
  pub sound : IsSound place' root s' free'
  pub same : (va : ℕ) → pte_at root s'.entry va ≡ pte_at root s.entry va
  pub keeps : (t : ℕ) → place t ≢ 0 → place' t ≡ place t
  pub links : (t i : ℕ) → place t ≢ 0 → is_valid (s.entry t i) ≡ true → s'.entry t i ≡ s.entry t i
  pub bytes : (a : ℕ) → All (λ p. pg_round_down a ≢ p) free → s'.bytes a ≡ s.bytes a
  pub within : (q : ℕ) → All (λ p. q ≢ p) free → All (λ p. q ≢ p) free'

pub IsGrown-refl :
    (root : ℕ) (place : ℕ → ℕ) (s : Ram) (free : List ℕ)
    → IsSound place root s free
    → IsGrown root place s free place s free
IsGrown-refl root place s free h = record {
  sound = h;
  same = λ va. refl;
  keeps = λ t _. refl;
  links = λ t i _ _. refl;
  bytes = λ a _. refl;
  within = λ q h. h;
}

pub IsGrown-trans :
    {root : ℕ} {place place' place'' : ℕ → ℕ} {s s' s'' : Ram} {free free' free'' : List ℕ}
    → IsGrown root place s free place' s' free'
    → IsGrown root place' s' free' place'' s'' free''
    → IsGrown root place s free place'' s'' free''
IsGrown-trans {place} {place'} g h = record {
  sound = h.sound;
  same = λ va. h.same va ∙ g.same va;
  keeps = λ t ne. h.keeps t (λ e. ne (sym (g.keeps t ne) ∙ e)) ∙ g.keeps t ne;
  links = λ t i ne v.
      h.links t i (λ e. ne (sym (g.keeps t ne) ∙ e)) (ap is_valid (g.links t i ne v) ∙ v)
      ∙ g.links t i ne v;
  bytes = λ a away. h.bytes a (g.within (pg_round_down a) away) ∙ g.bytes a away;
  within = λ q away. h.within q (g.within q away);
}

alloc_page_none :
    (s : Ram) → (kalloc s.kmem).0 ≡ 0 → (kalloc s.kmem).1 ≡ s.kmem → alloc_page s ≡ (0, s)
unfolding alloc_page
alloc_page_none s r k = ground (arith, r, k)

alloc_page_some :
    (s : Ram)
    → (kalloc s.kmem).0 ≢ 0
    → alloc_page s
      ≡ ((kalloc s.kmem).0, set_page (kalloc s.kmem).0 5 (record s { kmem = (kalloc s.kmem).1 }))
unfolding alloc_page
alloc_page_some s ne = ground (arith, ne)

-- `kalloc` with what it stores in the page.
pub alloc_page_lem :
    (s : Ram) (free : List ℕ)
    → Holds s.kmem free
    → ((free ≡ []) × (alloc_page s ≡ (0, s)))
      ⊎ ((p : ℕ) × (rest : List ℕ) × (k : Kmem) × (free ≡ p ∷ rest)
          × (alloc_page s ≡ (p, set_page p 5 (record s { kmem = k })))
          × IsPage s.kmem.end_address p
          × (p ≢ 0)
          × All (λ q. p ≢ q) rest
          × Holds k rest)
alloc_page_lem s free h = elim (kalloc_lem s.kmem free h) [
  | inl (empty, r, k) ↦ inl (empty, alloc_page_none s r k)
  | inr (rest, e, page, apart, left) ↦
      let ne : (kalloc s.kmem).0 ≢ 0 = λ z. ground (arith, h.positive, page) in
      inr
        ((kalloc s.kmem).0, rest, (kalloc s.kmem).1, e, alloc_page_some s ne, page, ne, apart, left)
]

-- The memory after a missing table `p` was allocated and entered.
abbrev pub entered : ℕ → ℕ → ℕ → Kmem → Ram → Ram
entered t i p k s =
    set_entry t i (pa2pte p + pte_v) (set_page p 0 (set_page p 5 (record s { kmem = k })))

pub descend-none :
    (t i : ℕ) (s : Ram)
    → is_valid (s.entry t i) ≡ false
    → alloc_page s ≡ (0, s)
    → descend t i true s ≡ (none, s)
unfolding descend
descend-none t i s gone e = ground (arith, gone, e)

pub descend-some :
    (t i p : ℕ) (k : Kmem) (s : Ram)
    → is_valid (s.entry t i) ≡ false
    → p ≢ 0
    → alloc_page s ≡ (p, set_page p 5 (record s { kmem = k }))
    → descend t i true s ≡ (some p, entered t i p k s)
unfolding descend
descend-some t i p k s gone ne e = ground (arith, gone, ne, e)

pub descend_there :
    (t i : ℕ) (alloc : Bool) (s : Ram)
    → is_valid (s.entry t i) ≡ true
    → descend t i alloc s ≡ (some (pte2pa (s.entry t i)), s)
unfolding descend
descend_there t i alloc s v = ground (arith, v)

pub entered-entry :
    (t i p : ℕ) (k : Kmem) (s : Ram)
    → (entered t i p k s).entry ≡ grown (update s.entry p (λ _. junk 5)) t i p
unfolding set_page
entered-entry t i p k s = fun_ext (λ q. fun_ext (λ j. ground arith))

entered-bytes :
    (t i p a : ℕ) (k : Kmem) (s : Ram)
    → p % 4096 ≡ 0
    → pg_round_down a ≢ p
    → (entered t i p k s).bytes a ≡ s.bytes a
unfolding set_page
entered-bytes t i p a k s al ne = ground (
  arith,
  memset_lem p 0 page_size (memset p 5 page_size s.bytes) a,
  memset_lem p 5 page_size s.bytes a,
)

All-outside :
    (place : ℕ → ℕ) (p v : ℕ) (l : List ℕ)
    → All (λ q. p ≢ q) l
    → All (λ q. place q ≡ 0) l
    → All (λ q. update place p v q ≡ 0) l
All-outside place p v [] away out = tt
All-outside place p v (q ∷ l) away out =
    (rw (update_ne place p q v away.0) out.0, All-outside place p v l away.1 out.1)

other_cell :
    (e : ℕ → ℕ → ℕ) (t i q j : ℕ)
    → is_valid (e t i) ≡ false
    → is_valid (e q j) ≡ true
    → (q ≢ t) ⊎ (j ≢ i)
other_cell e t i q j gone v = elim (Bool-cases (q == t)) [
  | inl same ↦ inr (λ r. let w : q ≡ t = ==→eq q t same in ground (arith, gone, v))
  | inr apart ↦ inl (==→ne q t apart)
]

-- A page from the free list becomes a table at a missing entry `i` of `t`, which has a place.
pub entered-IsGrown :
    (root : ℕ) (place : ℕ → ℕ) (s : Ram) (t i p v : ℕ) (rest : List ℕ) (k : Kmem)
    → IsSound place root s (p ∷ rest)
    → IsTree (update place p v) root (grown (update s.entry p (λ _. junk 5)) t i p)
    → ((va : ℕ)
        → pte_at root (grown (update s.entry p (λ _. junk 5)) t i p) va ≡ pte_at root s.entry va)
    → is_valid (s.entry t i) ≡ false
    → p % 4096 ≡ 0
    → All (λ q. p ≢ q) rest
    → Holds k rest
    → IsGrown root place s (p ∷ rest) (update place p v) (entered t i p k s) rest
entered-IsGrown root place s t i p v rest k h tree same gone al away left =
    let e = entered-entry t i p k s in
    record {
      sound = record {
        tree = subst (IsTree (update place p v) root) (sym e) tree;
        holds = (unfold set_page in left);
        outside = All-outside place p v rest away h.outside.1;
      };
      same = λ va. ap (λ f. pte_at root f va) e ∙ same va;
      keeps = λ q ne. update_ne place p q v (λ r. ne (subst (λ x. place x ≡ 0) r h.outside.0));
      links = λ q j placed v.
          let np : q ≢ p = λ r. placed (ap place r ∙ h.outside.0) in
          ap (λ f. f q j) e
          ∙ grown_other (update s.entry p (λ _. junk 5)) t i p q j np
              (other_cell s.entry t i q j gone v)
          ∙ ap (λ f. f j) (update_ne s.entry p q (λ _. junk 5) (λ r. np (sym r)));
      bytes = λ a ne. entered-bytes t i p a k s al (λ r. ne.0 r);
      within = λ q ne. ne.1;
    }
