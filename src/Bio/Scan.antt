-- ===== src/Bio/Scan.antt =====
-- The two scans of `bget` over the list of buffers.
use mp.Prelude.{
  ℕ, ◌≡◌, refl, Bool, true, false, ◌||◌, none, some, List, [], ◌∷◌, ◌++◌, reverse, ◌==◌, arith,
}
use mathlib.Core.List.{reverse-append}
use mp.Bio.{Buf, matches, find_cached, find_free, remove}

-- Membership as a test.
unfoldable pub has : List ℕ → ℕ → Bool
has [] j = false
has (i ∷ r) j = i == j || has r j

pub has-append : (xs ys : List ℕ) (j : ℕ) → has (xs ++ ys) j ≡ (has xs j || has ys j)
unfolding has
has-append [] ys j = refl
has-append (x ∷ xs) ys j = ground (arith, has-append xs ys j)

pub has-reverse : (xs : List ℕ) (j : ℕ) → has (reverse xs) j ≡ has xs j
unfolding has
has-reverse [] j = refl
has-reverse (x ∷ xs) j =
    ground (arith, reverse-append (x ∷ []) xs, has-append (reverse xs) (x ∷ []) j, has-reverse xs j)

pub has-remove_ne : (i j : ℕ) (l : List ℕ) → (i == j) ≡ false → has (remove i l) j ≡ has l j
unfolding has remove
has-remove_ne i j [] h = refl
has-remove_ne i j (k ∷ l) h = ground (arith, has-remove_ne i j l h)

pub has-remove_self : (i : ℕ) (l : List ℕ) → has (remove i l) i ≡ false
unfolding has remove
has-remove_self i [] = refl
has-remove_self i (k ∷ l) = ground (arith, has-remove_self i l)

module _ (dev blockno : ℕ) (bufs : ℕ → Buf) where
  pub find_cached-some :
      (l : List ℕ) (i : ℕ)
      → find_cached dev blockno bufs l ≡ some i
      → (has l i ≡ true) × ((bufs i).dev ≡ dev) × ((bufs i).blockno ≡ blockno)
  unfolding find_cached has
  find_cached-some [] i h = cc
  find_cached-some (k ∷ l) i h = ground (arith, find_cached-some l i)

  pub find_cached-none :
      (l : List ℕ) (i : ℕ)
      → find_cached dev blockno bufs l ≡ none
      → has l i ≡ true
      → matches dev blockno (bufs i) ≡ false
  unfolding find_cached has
  find_cached-none [] i h m = cc
  find_cached-none (k ∷ l) i h m = ground (arith, find_cached-none l i)

pub find_free-some :
    (bufs : ℕ → Buf) (l : List ℕ) (i : ℕ)
    → find_free bufs l ≡ some i
    → (has l i ≡ true) × ((bufs i).refcnt ≡ 0)
unfolding find_free has
find_free-some bufs [] i h = cc
find_free-some bufs (k ∷ l) i h = ground (arith, find_free-some bufs l i)

pub find_free-none :
    (bufs : ℕ → Buf) (l : List ℕ) (i : ℕ)
    → find_free bufs l ≡ none
    → has l i ≡ true
    → ((bufs i).refcnt == 0) ≡ false
unfolding find_free has
find_free-none bufs [] i h m = cc
find_free-none bufs (k ∷ l) i h m = ground (arith, find_free-none bufs l i)
