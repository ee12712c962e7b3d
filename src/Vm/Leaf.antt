-- ===== src/Vm/Leaf.antt =====
-- kernel/vm.c: what a write of an entry of the last level does to the map of a page table.
use mp.Prelude.{
  ℕ, ◌/◌, ◌<◌, ◌≡◌, refl, sym, ap, ◌∙◌, subst, ◌≢◌, inl, inr, true, arith, ◌==◌, if◌then◌else◌,
  ==→eq, ==→ne, Bool-cases,
}
use mp.Prelude.Update.{update, update_self, update_ne}
use mp.Kalloc.{page_size}
use mp.Vm.{maxva, is_valid, pte2pa, px}
use mp.Vm.Tree.{low_place, pte_at, IsTree, pte_at-agree, px_lt}
use mp.Vm.Walk.{IsLeaf}

pub place_leaf :
    (place : ℕ → ℕ) (root : ℕ) (e : ℕ → ℕ → ℕ) (va t : ℕ)
    → IsTree place root e
    → IsLeaf root place e va t
    → place t ≡ low_place (px 2 va) (px 1 va)
place_leaf place root e va t h l =
    let p =
      h.lows (pte2pa (e root (px 2 va))) (px 2 va) (px 1 va) (px_lt 2 va) (px_lt 1 va)
        (h.mids (px 2 va) (px_lt 2 va) l.mid) l.low in
    subst (λ q. place q ≡ low_place (px 2 va) (px 1 va)) l.table p

-- An entry of the last level is written.
pub set_leaf-IsTree :
    (place : ℕ → ℕ) (root : ℕ) (e : ℕ → ℕ → ℕ) (va t pte : ℕ)
    → IsTree place root e
    → IsLeaf root place e va t
    → IsTree place root (update e t (update (e t) (px 0 va) pte))
set_leaf-IsTree place root e va t pte h l =
    let at_t = place_leaf place root e va t h l in
    record {
      at_root = h.at_root;
      mids = λ i hi v. ground (arith, h.at_root, at_t, h.mids i hi);
      lows = λ q i j hi hj pl v. ground (arith, h.at_root, at_t, h.lows q i j hi hj);
    }

same_place : (i j k l : ℕ) → j < 512 → l < 512 → low_place i j ≡ low_place k l → (i ≡ k) × (j ≡ l)
same_place i j k l hj hl e = (omega arith, omega arith)

px_same :
    (va va' : ℕ)
    → va' / page_size ≡ va / page_size
    → (px 2 va' ≡ px 2 va) × (px 1 va' ≡ px 1 va) × (px 0 va' ≡ px 0 va)
px_same va va' e = (omega arith, omega arith, omega arith)

px_apart :
    (va va' : ℕ)
    → va < maxva
    → va' < maxva
    → va' / page_size ≢ va / page_size
    → px 2 va' ≡ px 2 va
    → px 1 va' ≡ px 1 va
    → px 0 va' ≢ px 0 va
px_apart va va' lt lt' ne e2 e1 e0 = omega arith

other_leaf :
    (place : ℕ → ℕ) (root : ℕ) (e : ℕ → ℕ → ℕ) (va t pte va' : ℕ)
    → IsTree place root e
    → IsLeaf root place e va t
    → va < maxva
    → va' < maxva
    → is_valid (e root (px 2 va')) ≡ true
    → let low = e (pte2pa (e root (px 2 va'))) (px 1 va') in
      is_valid low ≡ true
      → va' / page_size ≢ va / page_size
      → update e t (update (e t) (px 0 va) pte) (pte2pa low) (px 0 va') ≡ e (pte2pa low) (px 0 va')
other_leaf place root e va t pte va' h l lt lt' v w ne =
    let low = e (pte2pa (e root (px 2 va'))) (px 1 va') in
    let at_t = place_leaf place root e va t h l in
    let at_low =
      h.lows (pte2pa (e root (px 2 va'))) (px 2 va') (px 1 va') (px_lt 2 va') (px_lt 1 va')
        (h.mids (px 2 va') (px_lt 2 va') v) w in
    elim (Bool-cases (t == pte2pa low)) [
      | inr apart ↦
          ap (λ f. f (px 0 va'))
            (update_ne e t (pte2pa low) (update (e t) (px 0 va) pte) (==→ne t (pte2pa low) apart))
      | inl same ↦
          let q : t ≡ pte2pa low = ==→eq t (pte2pa low) same in
          let (q2, q1) =
            same_place (px 2 va) (px 1 va) (px 2 va') (px 1 va') (px_lt 1 va) (px_lt 1 va')
              (sym at_t ∙ ap place q ∙ at_low) in
          let q0 = px_apart va va' lt lt' ne (sym q2) (sym q1) in
          rw (← q) (
            ap (λ f. f (px 0 va')) (update_self e t (update (e t) (px 0 va) pte))
            ∙ update_ne (e t) (px 0 va) (px 0 va') pte (λ z. q0 (sym z)))
    ]

pub set_leaf-pte_at :
    (place : ℕ → ℕ) (root : ℕ) (e : ℕ → ℕ → ℕ) (va t pte va' : ℕ)
    → IsTree place root e
    → IsLeaf root place e va t
    → va < maxva
    → va' < maxva
    → pte_at root (update e t (update (e t) (px 0 va) pte)) va'
      ≡ (if va' / page_size == va / page_size then pte else pte_at root e va')
set_leaf-pte_at place root e va t pte va' h l lt lt' =
    let at_t = place_leaf place root e va t h l in
    let e' = update e t (update (e t) (px 0 va) pte) in
    let at_root : (i : ℕ) → e' root i ≡ e root i = λ i. ground (arith, h.at_root, at_t) in
    let mid = e root (px 2 va') in
    let at_mid : is_valid mid ≡ true → e' (pte2pa mid) (px 1 va') ≡ e (pte2pa mid) (px 1 va') =
      λ v. ground (arith, h.mids (px 2 va') (px_lt 2 va') v, at_t) in
    elim (Bool-cases (va' / page_size == va / page_size)) [
      | inl same ↦
          let (q2, q1, q0) = px_same va va' (==→eq (va' / page_size) (va / page_size) same) in
          let v : is_valid mid ≡ true = rw q2 l.mid in
          let w : is_valid (e (pte2pa mid) (px 1 va')) ≡ true = rw (q2, q1) l.low in
          let u : pte2pa (e (pte2pa mid) (px 1 va')) ≡ t = rw (q2, q1) l.table in
          rw (at_root (px 2 va'), v, at_mid v, w, u, same, q0)
            (ap (λ f. f (px 0 va)) (update_self e t (update (e t) (px 0 va) pte))
              ∙ update_self (e t) (px 0 va) pte)
      | inr apart ↦ rw apart (
          pte_at-agree root e e' va' (at_root (px 2 va')) at_mid (λ v w.
            other_leaf place root e va t pte va' h l lt lt' v w
              (==→ne (va' / page_size) (va / page_size) apart)))
    ]

pub leaf-pte_at :
    (root : ℕ) (place : ℕ → ℕ) (e : ℕ → ℕ → ℕ) (va t : ℕ)
    → IsLeaf root place e va t
    → pte_at root e va ≡ e t (px 0 va)
leaf-pte_at root place e va t l = rw (l.mid, l.low, l.table) refl
