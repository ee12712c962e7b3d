-- ===== src/Vm/Range.antt =====
-- kernel/vm.c: ranges of user addresses, and the chunks in which `copyout` and `copyin` move them.
use mp.Prelude.{ℕ, suc, ◌+◌, ◌-◌, ◌/◌, ◌%◌, ◌≤◌, ◌<◌, ◌≡◌, ap, subst, ◌≢◌, arith}
use mp.Kalloc.{page_size}
use mp.Vm.{maxva, pg_round_down}
use mp.Vm.Copy.{chunk}
use mp.Vm.Lookup.{user_page, user_page_aligned}

-- The physical page and the physical address of a user address.
abbrev pub page_of : ℕ → (ℕ → ℕ → ℕ) → ℕ → ℕ
page_of root e v = user_page root e (pg_round_down v)

abbrev pub phys : ℕ → (ℕ → ℕ → ℕ) → ℕ → ℕ
phys root e v = page_of root e v + v % page_size

-- A range of user addresses that is mapped, each page to a page of its own, apart from the kernel's
-- range of the same length at `k`.
pub record IsUserRange (root : ℕ) (e : ℕ → ℕ → ℕ) (v k len : ℕ) : Type 0 where
  pub below : v + len ≤ maxva
  pub there : (j : ℕ) → j < len → page_of root e (v + j) ≢ 0
  pub one_each :
      (i j : ℕ)
      → i < len
      → j < len
      → page_of root e (v + i) ≡ page_of root e (v + j)
      → (v + i) / page_size ≡ (v + j) / page_size
  pub apart : (i j : ℕ) → i < len → j < len → pg_round_down (k + i) ≢ page_of root e (v + j)

pub IsUserRange-rest :
    (root : ℕ) (e : ℕ → ℕ → ℕ) (v k len n : ℕ)
    → IsUserRange root e v k (n + len)
    → IsUserRange root e (v + n) (k + n) len
IsUserRange-rest root e v k len n h = record {
  below = omega (arith, h.below);
  there = λ j hj. rw (assoc v n j) (h.there (n + j) (omega arith));
  one_each = λ i j hi hj.
      rw (assoc v n i, assoc v n j) (h.one_each (n + i) (n + j) (omega arith) (omega arith));
  apart = λ i j hi hj.
      rw (assoc k n i, assoc v n j) (h.apart (n + i) (n + j) (omega arith) (omega arith));
}
  where
    assoc : (a b c : ℕ) → a + b + c ≡ a + (b + c)
    assoc a b c = omega arith

-- The first chunk: its bytes lie in one page.
pub same_page :
    (root : ℕ) (e : ℕ → ℕ → ℕ) (v len j : ℕ)
    → j < chunk v len
    → phys root e (v + j) ≡ page_of root e v + (v - pg_round_down v) + j
same_page root e v len j h =
    let q : pg_round_down (v + j) ≡ pg_round_down v = ground arith in
    let r : (v + j) % page_size ≡ v - pg_round_down v + j = ground arith in rw (q, r) (omega arith)

-- Addresses of a range are equal only at the same place in it.
pub phys_apart :
    (root : ℕ) (e : ℕ → ℕ → ℕ) (v k len i j : ℕ)
    → IsUserRange root e v k len
    → i < len
    → j < len
    → i ≢ j
    → phys root e (v + i) ≢ phys root e (v + j)
phys_apart root e v k len i j h hi hj ne q =
    let ai = user_page_aligned root e (pg_round_down (v + i)) in
    let aj = user_page_aligned root e (pg_round_down (v + j)) in
    let p = aligned_eq (page_of root e (v + i)) (page_of root e (v + j)) (v + i) (v + j) ai aj q in
    let same = h.one_each i j hi hj p.0 in omega (arith, same, p.1, ne)
  where
    aligned_eq :
        (p q x y : ℕ)
        → p % page_size ≡ 0
        → q % page_size ≡ 0
        → p + x % page_size ≡ q + y % page_size
        → (p ≡ q) × (x % page_size ≡ y % page_size)
    aligned_eq p q x y ap aq e = (omega arith, omega arith)

pub source_apart :
    (root : ℕ) (e : ℕ → ℕ → ℕ) (v k len i j : ℕ)
    → IsUserRange root e v k len
    → i < len
    → j < len
    → k + i ≢ phys root e (v + j)
source_apart root e v k len i j h hi hj q = h.apart i j hi hj (
    down_eq (k + i) (page_of root e (v + j)) (v + j)
      (user_page_aligned root e (pg_round_down (v + j))) q)
  where
    down_eq : (a p x : ℕ) → p % page_size ≡ 0 → a ≡ p + x % page_size → pg_round_down a ≡ p
    down_eq a p x al e = omega arith

pub chunk_bounds :
    (v len : ℕ)
    → (0 < chunk v (suc len))
      × (chunk v (suc len) ≤ suc len)
      × (chunk v (suc len) < suc len → pg_round_down v + page_size ≡ v + chunk v (suc len))
chunk_bounds v len = (ground arith, ground arith, λ h. ground arith)

pub here :
    (root : ℕ) (e : ℕ → ℕ → ℕ) (v k len : ℕ)
    → IsUserRange root e v k (suc len)
    → page_of root e v ≢ 0
here root e v k len h =
    let q : v + 0 ≡ v = omega arith in subst (λ x. page_of root e x ≢ 0) q (h.there 0 (omega arith))
