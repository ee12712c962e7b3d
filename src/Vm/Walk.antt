-- ===== src/Vm/Walk.antt =====
-- kernel/vm.c: what `walk` with `alloc` does to the tree of a page table.
use mp.Prelude.{
  ℕ, ◌+◌, ◌%◌, ◌<◌, ◌≡◌, refl, sym, ap, ◌∙◌, subst, ◌≢◌, ◌⊎◌, inl, inr, true, false, Option, none,
  some, List, [], ◌∷◌, arith, Bool-cases, ok,
}
use mp.Prelude.Update.{update, update_self}
use mp.Kalloc.{phystop, Kmem, junk}
use mp.Vm.{maxva, pte_v, is_valid, pte2pa, pa2pte, px, Ram, descend, at_leaf, walk_on, walk}
use mp.Vm.Tree.{
  mid_place, low_place, pte_at, IsTree, IsSound, grown, pte2pa-pa2pte, is_valid-pa2pte, grown_mid,
  grown_low, grown_link, grown_mid-pte_at, grown_low-pte_at, IsTree-outside, pte_at-outside,
}
use mp.Vm.Grown.{
  IsGrown, IsGrown-refl, IsGrown-trans, alloc_page_lem, entered, descend-none, descend-some,
  descend_there, entered-entry, entered-IsGrown,
}

-- What a round of `walk` with `alloc` gives: no table, if no page is free, or the table at a place.
pub record Finds (root : ℕ) (place : ℕ → ℕ) (s : Ram) (free : List ℕ) (t i v : ℕ)
    (r : Option ℕ × Ram) : Type 0 where
  pub place' : ℕ → ℕ
  pub free' : List ℕ
  pub grows : IsGrown root place s free place' r.1 free'
  pub table :
      ((r.0 ≡ none) × (free' ≡ []))
      ⊎ ((r.0 ≡ some (pte2pa (r.1.entry t i)))
          × (is_valid (r.1.entry t i) ≡ true)
          × (place' (pte2pa (r.1.entry t i)) ≡ v))

entered_link :
    (t i p : ℕ) (k : Kmem) (s : Ram) → t ≢ p → (entered t i p k s).entry t i ≡ pa2pte p + pte_v
entered_link t i p k s ne =
    ap (λ f. f t i) (entered-entry t i p k s) ∙ grown_link (update s.entry p (λ _. junk 5)) t i p ne

-- A round at a table of the tree, given the place of the child.
descend-Finds :
    (root : ℕ) (place : ℕ → ℕ) (s : Ram) (free : List ℕ) (t i v : ℕ)
    → IsSound place root s free
    → place t ≢ 0
    → (is_valid (s.entry t i) ≡ true → place (pte2pa (s.entry t i)) ≡ v)
    → ((p : ℕ)
        → is_valid (s.entry t i) ≡ false
        → place p ≡ 0
        → p % 4096 ≡ 0
        → p < phystop
        → let e = grown (update s.entry p (λ _. junk 5)) t i p in
          IsTree (update place p v) root e × ((va : ℕ) → pte_at root e va ≡ pte_at root s.entry va))
    → Finds root place s free t i v (descend t i true s)
descend-Finds root place s free t i v h placed there new =
    elim (Bool-cases (is_valid (s.entry t i))) [
      | inl valid ↦ rw (descend_there t i true s valid) (record {
        place' = place;
        free' = free;
        grows = IsGrown-refl root place s free h;
        table = inr (refl, valid, there valid);
      })
      | inr gone ↦ elim (alloc_page_lem s free h.holds) [
        | inl (empty, e) ↦ rw (descend-none t i s gone e) (record {
          place' = place;
          free' = free;
          grows = IsGrown-refl root place s free h;
          table = inl (refl, empty);
        })
        | inr (p, rest, k, e, a, page, ne, away, left) ↦
            let h' : IsSound place root s (p ∷ rest) = subst (IsSound place root s) e h in
            let (tree, same) = new p gone h'.outside.0 page.0 page.2 in
            let tp : t ≢ p = λ q. placed (ap place q ∙ h'.outside.0) in
            let link = entered_link t i p k s tp in
            let back = pte2pa-pa2pte p page.0 page.2 in
            rw (descend-some t i p k s gone ne a) (record {
              place' = update place p v;
              free' = rest;
              grows =
                  rw e (
                    entered-IsGrown root place s t i p v rest k h' tree same gone page.0 away left);
              table = inr (
                ap some (sym (ap pte2pa link ∙ back)),
                ap is_valid link ∙ is_valid-pa2pte p,
                ap (update place p v) (ap pte2pa link ∙ back) ∙ update_self place p v,
              );
            })
      ]
    ]

-- The way of an address to its entry at the last level.
pub record IsLeaf (root : ℕ) (place : ℕ → ℕ) (e : ℕ → ℕ → ℕ) (va t : ℕ) : Type 0 where
  pub mid : is_valid (e root (px 2 va)) ≡ true
  pub low : is_valid (e (pte2pa (e root (px 2 va))) (px 1 va)) ≡ true
  pub table : pte2pa (e (pte2pa (e root (px 2 va))) (px 1 va)) ≡ t

pub record Walks (root : ℕ) (place : ℕ → ℕ) (s : Ram) (free : List ℕ) (va : ℕ)
    (r : Option (ℕ × ℕ) × Ram) : Type 0 where
  pub place' : ℕ → ℕ
  pub free' : List ℕ
  pub grows : IsGrown root place s free place' r.1 free'
  pub leaf :
      ((r.0 ≡ none) × (free' ≡ []))
      ⊎ ((t : ℕ) × (r.0 ≡ some (t, px 0 va)) × IsLeaf root place' r.1.entry va t)

find_mid :
    (root : ℕ) (place : ℕ → ℕ) (s : Ram) (free : List ℕ) (i : ℕ)
    → IsSound place root s free
    → i < 512
    → Finds root place s free root i (mid_place i) (descend root i true s)
find_mid root place s free i h hi =
    descend-Finds root place s free root i (mid_place i) h (λ z. omega (arith, h.tree.at_root, z))
      (h.tree.mids i hi)
      (λ p gone out al below.
        let e' = IsTree-outside place root s.entry p (λ _. junk 5) h.tree out in
        let gone' : is_valid (update s.entry p (λ _. junk 5) root i) ≡ false =
          ground (arith, h.tree.at_root) in
        (
          grown_mid place root (update s.entry p (λ _. junk 5)) i p e' hi gone' out al below,
          λ va.
              grown_mid-pte_at place root (update s.entry p (λ _. junk 5)) i p va e' gone' out al
                below
              ∙ pte_at-outside place root s.entry p va (λ _. junk 5) h.tree out,
        ))

find_low :
    (root : ℕ) (place : ℕ → ℕ) (s : Ram) (free : List ℕ) (i j : ℕ)
    → IsSound place root s free
    → i < 512
    → j < 512
    → is_valid (s.entry root i) ≡ true
    → let t = pte2pa (s.entry root i) in
      Finds root place s free t j (low_place i j) (descend t j true s)
find_low root place s free i j h hi hj has =
    let at_t = h.tree.mids i hi has in
    let t = pte2pa (s.entry root i) in
    descend-Finds root place s free t j (low_place i j) h (λ z. omega (arith, at_t, z))
      (h.tree.lows t i j hi hj at_t)
      (λ p gone out al below.
        let e = update s.entry p (λ _. junk 5) in
        let e' = IsTree-outside place root s.entry p (λ _. junk 5) h.tree out in
        let link : e root i ≡ s.entry root i = ground (arith, h.tree.at_root) in
        let gone' : is_valid (e t j) ≡ false = ground (arith, at_t) in
        (
          grown_low place root e t i j p e' hi hj at_t gone' out al below,
          λ va.
              rw (← link) (
                grown_low-pte_at place root e i j p va e' hi (ap is_valid link ∙ has)
                  (rw link gone') out al below)
              ∙ pte_at-outside place root s.entry p va (λ _. junk 5) h.tree out,
        ))

px_lt_512 : (level va : ℕ) → px level va < 512
px_lt_512 level va = omega arith

some_injective : {a b : ℕ} → some a ≡ some b → a ≡ b
some_injective e = cc

-- The second round, from a table of the second level.
at_leaf-Walks :
    (root : ℕ) (place : ℕ → ℕ) (s : Ram) (free : List ℕ) (va : ℕ)
    → IsSound place root s free
    → is_valid (s.entry root (px 2 va)) ≡ true
    → (r : Option ℕ × Ram)
    → Finds root place s free
        (pte2pa (s.entry root (px 2 va)))
        (px 1 va)
        (low_place (px 2 va) (px 1 va))
        r
    → Walks root place s free va (at_leaf va r)
unfolding at_leaf
at_leaf-Walks root place s free va h has (none, s') f = record {
  place' = f.place';
  free' = f.free';
  grows = f.grows;
  leaf = elim f.table [ inl (e, z) ↦ inl (refl, z) | inr (e, v, p) ↦ cc ];
}
at_leaf-Walks root place s free va h has (some u, s') f =
    let link : s'.entry root (px 2 va) ≡ s.entry root (px 2 va) =
      f.grows.links root (px 2 va) (λ z. omega (arith, h.tree.at_root, z)) has in
    record {
      place' = f.place';
      free' = f.free';
      grows = f.grows;
      leaf = elim f.table [
        | inl (e, z) ↦ cc
        | inr (e, v, p) ↦ inr (
          u,
          refl,
          record {
            mid = ap is_valid link ∙ has;
            low = rw link v;
            table = rw link (some_injective (sym e));
          },
        )
      ];
    }

Walks-trans :
    {root : ℕ} {place place' : ℕ → ℕ} {s s' : Ram} {free free' : List ℕ} {va : ℕ}
    {r : Option (ℕ × ℕ) × Ram}
    → IsGrown root place s free place' s' free'
    → Walks root place' s' free' va r
    → Walks root place s free va r
Walks-trans g w = record {
  place' = w.place';
  free' = w.free';
  grows = IsGrown-trans g w.grows;
  leaf = w.leaf;
}

walk_on-Walks :
    (root : ℕ) (place : ℕ → ℕ) (s : Ram) (free : List ℕ) (va : ℕ) (r : Option ℕ × Ram)
    → Finds root place s free root (px 2 va) (mid_place (px 2 va)) r
    → Walks root place s free va (walk_on va true r)
unfolding walk_on
walk_on-Walks root place s free va (none, s') f = record {
  place' = f.place';
  free' = f.free';
  grows = f.grows;
  leaf = elim f.table [ inl (e, z) ↦ inl (refl, z) | inr (e, v, p) ↦ cc ];
}
walk_on-Walks root place s free va (some u, s') f = elim f.table [
  | inl (e, z) ↦ cc
  | inr (e, v, p) ↦
      let here : u ≡ pte2pa (s'.entry root (px 2 va)) = some_injective e in
      let low =
        find_low root f.place' s' f.free' (px 2 va) (px 1 va) f.grows.sound (px_lt_512 2 va)
          (px_lt_512 1 va) v in
      rw here (
        Walks-trans f.grows (
          at_leaf-Walks root f.place' s' f.free' va f.grows.sound v
            (descend (pte2pa (s'.entry root (px 2 va))) (px 1 va) true s') low))
]

-- `walk` with `alloc` below MAXVA.
pub walk-Walks :
    (root : ℕ) (place : ℕ → ℕ) (s : Ram) (free : List ℕ) (va : ℕ)
    → IsSound place root s free
    → va < maxva
    → (r : Option (ℕ × ℕ) × Ram) × (walk root va true s ≡ ok r) × Walks root place s free va r
unfolding walk
walk-Walks root place s free va h lt =
    let r = walk_on va true (descend root (px 2 va) true s) in
    (
      r,
      ground (arith, lt),
      walk_on-Walks root place s free va (descend root (px 2 va) true s)
          (find_mid root place s free (px 2 va) h (px_lt_512 2 va)),
    )
