-- ===== src/Log/Idle.antt =====
-- When nobody uses the buffer cache and buffers are left, the rounds of kernel/log.c do not panic and do
-- not sleep.
use mp.Prelude.{
  ℕ, suc, ◌≤◌, ◌<◌, ◌≡◌, refl, sym, ap, ◌∙◌, subst, ◌≢◌, inl, inr, true, false, not, ◌||◌, none,
  some, List, [], ◌∷◌, reverse, arith, ◌==◌, if◌then◌else◌, ==→eq, ==→ne, ==_refl, Bool-cases,
  Option-cases, All, length, Distinct, ok, ◌>>=◌,
}
use mp.Prelude.Update.{update_self}
use mp.Bio.{
  Buf, Bcache, set_buf, lock_buf, holding_buf, find_cached, find_free, refcnt_inc, refcnt_dec, bget,
  mirror_of, use_fallback, fill, bread, bwrite, move_to_front, brelse,
}
use mp.Bio.Scan.{has, has-reverse, find_cached-some, find_free-some, find_free-none}
use mp.Bio.Raid.{bwrite_lem}

-- At least `k` buffers have no reference.
pub record HasSpare (s : Bcache) (k : ℕ) : Type 0 where
  pub spares : List ℕ
  pub distinct : Distinct spares
  pub unused : All (λ i. (has s.order i ≡ true) × ((s.bufs i).refcnt ≡ 0)) spares
  pub enough : k ≤ length spares

some_spare :
    (s : Bcache) (k : ℕ)
    → HasSpare s (suc k)
    → (i : ℕ) × (has s.order i ≡ true) × ((s.bufs i).refcnt ≡ 0)
some_spare s k h = first h.spares h.unused (omega (arith, h.enough))
  where
    first :
        (l : List ℕ)
        → All (λ i. (has s.order i ≡ true) × ((s.bufs i).refcnt ≡ 0)) l
        → 0 < length l
        → (i : ℕ) × (has s.order i ≡ true) × ((s.bufs i).refcnt ≡ 0)
    first [] a lt = absurd (omega arith)
    first (i ∷ l) a lt = (i, a.0.0, a.0.1)

-- The spare buffers but one.
drop_spare :
    (x : ℕ) (l : List ℕ)
    → Distinct l
    → (l' : List ℕ) × Distinct l'
      × All (λ y. x ≢ y) l'
      × (length l ≤ suc (length l'))
      × ((P : ℕ → Type 0) → All P l → All P l')
drop_spare x [] d = ([], tt, tt, omega arith, λ P a. a)
drop_spare x (y ∷ l) d = elim (Bool-cases (x == y)) [
  | inl q ↦
      let e : x ≡ y = ==→eq x y q in
      (l, d.1, subst (λ z. All (λ w. z ≢ w) l) (sym e) d.0, omega arith, λ P a. a.1)
  | inr q ↦
      let (l', d', a', le, keep) = drop_spare x l d.1 in
      (
        y ∷ l',
        (keep (λ w. y ≢ w) d.0, d'),
        (==→ne x y q, a'),
        omega (arith, le),
        λ P a. (a.0, keep P a.1),
      )
]

All-both :
    (P Q R : ℕ → Type 0) (l : List ℕ) → ((i : ℕ) → P i → Q i → R i) → All P l → All Q l → All R l
All-both P Q R [] f a b = tt
All-both P Q R (i ∷ l) f a b = (f i a.0 b.0, All-both P Q R l f a.1 b.1)

pub HasSpare-but :
    (s s' : Bcache) (x k : ℕ)
    → HasSpare s (suc k)
    → ((i : ℕ)
        → x ≢ i
        → has s.order i ≡ true
        → (s.bufs i).refcnt ≡ 0
        → (has s'.order i ≡ true) × ((s'.bufs i).refcnt ≡ 0))
    → HasSpare s' k
HasSpare-but s s' x k h stays =
    let (l, d, away, le, keep) = drop_spare x h.spares h.distinct in
    record {
      spares = l;
      distinct = d;
      unused =
          All-both (λ i. x ≢ i) (λ i. (has s.order i ≡ true) × ((s.bufs i).refcnt ≡ 0))
            (λ i. (has s'.order i ≡ true) × ((s'.bufs i).refcnt ≡ 0)) l
            (λ i ne (m, z). stays i ne m z) away
            (keep (λ i. (has s.order i ≡ true) × ((s.bufs i).refcnt ≡ 0)) h.unused);
      enough = omega (arith, h.enough, le);
    }

-- `lock_buf` of an unlocked buffer.
lock_runs :
    (i : ℕ) (s : Bcache) → (s.bufs i).holder ≡ none → (r : ℕ × Bcache) × (lock_buf i s ≡ ok r)
unfolding lock_buf
lock_runs i s h =
    ((i, set_buf i (record (s.bufs i) { holder = some s.pid }) s), rw (h, lock_buf) refl)

bget_hit_runs :
    (dev b i : ℕ) (s : Bcache)
    → find_cached dev b s.bufs s.order ≡ some i
    → (s.bufs i).holder ≡ none
    → (r : ℕ × Bcache) × (bget dev b s ≡ ok r)
unfolding bget
bget_hit_runs dev b i s e h =
    let t = set_buf i (record (s.bufs i) { refcnt = refcnt_inc (s.bufs i).refcnt }) s in
    let (r, q) = lock_runs i t (
      ap (λ y. y.holder)
        (update_self s.bufs i (record (s.bufs i) { refcnt = refcnt_inc (s.bufs i).refcnt }))
      ∙ h) in
    (r, rw e q)

bget_miss_runs :
    (dev b i : ℕ) (s : Bcache)
    → find_cached dev b s.bufs s.order ≡ none
    → find_free s.bufs (reverse s.order) ≡ some i
    → (s.bufs i).holder ≡ none
    → (r : ℕ × Bcache) × (bget dev b s ≡ ok r)
unfolding bget
bget_miss_runs dev b i s e f h =
    let x : Buf = record (s.bufs i) { dev = dev; blockno = b; valid = false; refcnt = 1 } in
    let (r, q) = lock_runs i (set_buf i x s) (ap (λ y. y.holder) (update_self s.bufs i x) ∙ h) in
    (r, rw (e, f) q)

-- `bread` returns where the buffer of the block, if it has one, is unlocked, and so is every buffer
-- without a reference, of which there is one.
pub bread_runs :
    (dev b : ℕ) (s : Bcache)
    → ((j : ℕ) → has s.order j ≡ true → (s.bufs j).blockno ≡ b → (s.bufs j).holder ≡ none)
    → ((j : ℕ) → has s.order j ≡ true → (s.bufs j).refcnt ≡ 0 → (s.bufs j).holder ≡ none)
    → HasSpare s 1
    → (i : ℕ) × (s' : Bcache) × (bread dev b s ≡ ok (i, s'))
unfolding bread ◌>>=◌
bread_runs dev b s own idle spare =
    let (r, e) : (r : ℕ × Bcache) × (bget dev b s ≡ ok r) =
      elim (Option-cases (find_cached dev b s.bufs s.order)) [
        | inr (i, hit) ↦
            let (m, _, n) = find_cached-some dev b s.bufs s.order i hit in
            bget_hit_runs dev b i s hit (own i m n)
        | inl miss ↦ elim (Option-cases (find_free s.bufs (reverse s.order))) [
          | inr (i, f) ↦
              let (m, z) = find_free-some s.bufs (reverse s.order) i f in
              bget_miss_runs dev b i s miss f (idle i (sym (has-reverse s.order i) ∙ m) z)
          | inl f ↦
              let (i, m, z) = some_spare s 0 spare in
              let taken = find_free-none s.bufs (reverse s.order) i f (has-reverse s.order i ∙ m) in
              absurd (==→ne (s.bufs i).refcnt 0 taken z)
        ]
      ] in
    (r.0, after_bread r, rw e refl)
  where
    after_bread : ℕ × Bcache → Bcache
    after_bread r =
        if not (r.1.bufs r.0).valid || use_fallback r.1 b
        then fill r.0 (if use_fallback r.1 b then mirror_of b else b) r.1
        else r.1

holding : (i : ℕ) (s : Bcache) → (s.bufs i).holder ≡ some s.pid → holding_buf i s ≡ true
unfolding holding_buf
holding i s h = rw (h, holding_buf) (==_refl s.pid)

pub bwrite_returns :
    (i : ℕ) (s : Bcache) → (s.bufs i).holder ≡ some s.pid → (s' : Bcache) × (bwrite i s ≡ ok s')
bwrite_returns i s h = elim (bwrite_lem i s) [
  | inl (free, _) ↦ absurd (let q : true ≡ false = sym (holding i s h) ∙ free in cc)
  | inr (s', e, _) ↦ (s', e)
]

pub brelse_returns :
    (i : ℕ) (s : Bcache) → (s.bufs i).holder ≡ some s.pid → (s' : Bcache) × (brelse i s ≡ ok s')
unfolding brelse
brelse_returns i s h =
    let n = refcnt_dec (s.bufs i).refcnt in
    let t = set_buf i (record (s.bufs i) { holder = none; refcnt = n }) s in
    (if n == 0 then record t { order = move_to_front i s.order } else t, rw (holding i s h) refl)
