-- ===== src/Log/InstallRuns.antt =====
-- kernel/log.c: on an idle cache a round of `install_trans` returns.
use mp.Prelude.{
  ℕ, ◌+◌, ◌^◌, ◌≤◌, ◌<◌, ◌≡◌, refl, sym, ap, ◌∙◌, ◌≢◌, inl, inr, Bool, true, false, none, some,
  arith, ◌==◌, ==→eq, ne→==, Bool-cases, ok, ◌>>=◌,
}
use mp.Bio.{Bcache, refcnt_dec, bread, bwrite, brelse, bunpin}
use mp.Bio.Scan.{has, find_cached-some}
use mp.Bio.Effects.{WasRead, bread-WasRead}
use mp.Bio.Raid.{bwrite-WasWritten}
use mp.Log.{copy_data, install_block}
use mp.Log.Blocks.{brelse-WasReleased}
use mp.Log.Idle.{HasSpare, HasSpare-but, bread_runs, bwrite_returns, brelse_returns}

pub record IsIdle (area : ℕ → Bool) (k : ℕ) (s : Bcache) : Type 0 where
  pub unlocked : (i : ℕ) → (s.bufs i).holder ≡ none
  pub room :
      (i : ℕ)
      → has s.order i ≡ true
      → area (s.bufs i).blockno ≡ true
      → (s.bufs i).refcnt + 1 < 2 ^ 32
  pub spare : HasSpare s k

pub HasSpare-less : (s : Bcache) (j k : ℕ) → j ≤ k → HasSpare s k → HasSpare s j
HasSpare-less s j k le h = record {
  spares = h.spares;
  distinct = h.distinct;
  unused = h.unused;
  enough = omega (arith, h.enough);
}

-- The count of a buffer of the log that `bread` gives.
pub read_count :
    (dev : ℕ) (area : ℕ → Bool) (k b i : ℕ) (s s' : Bcache)
    → IsIdle area k s
    → area b ≡ true
    → WasRead dev b s i s'
    → ((s'.bufs i).refcnt ≢ 0)
      × (refcnt_dec (s'.bufs i).refcnt + 1 < 2 ^ 32)
      × ((s.bufs i).refcnt ≡ 0 → refcnt_dec (s'.bufs i).refcnt ≡ 0)
read_count dev area k b i s s' h a w = elim w.got.found [
  | inl (hit, cnt, _, _) ↦
      let (m, _, n) = find_cached-some dev b s.bufs s.order i hit in
      let r = h.room i m (ap area n ∙ a) in
      let e = w.refcnt_is ∙ cnt in
      (omega (arith, e, r), omega (arith, e, r), λ z. omega (arith, e, z))
  | inr (_, z, one, _) ↦
      let e = w.refcnt_is ∙ one in (omega (arith, e), omega (arith, e), λ _. omega (arith, e))
]

-- The first `bread` of a round, and what it leaves for the second one.
read_first :
    (dev : ℕ) (area : ℕ → Bool) (t f : ℕ) (s : Bcache)
    → IsIdle area 2 s
    → area t ≡ true
    → t ≢ f
    → (i : ℕ) × (s1 : Bcache) × (bread dev t s ≡ ok (i, s1))
      × ((j : ℕ) → has s1.order j ≡ true → (s1.bufs j).blockno ≡ f → (s1.bufs j).holder ≡ none)
      × ((j : ℕ) → has s1.order j ≡ true → (s1.bufs j).refcnt ≡ 0 → (s1.bufs j).holder ≡ none)
      × HasSpare s1 1
read_first dev area t f s h a ne =
    let (i, s1, e) =
      bread_runs dev t s (λ j _ _. h.unlocked j) (λ j _ _. h.unlocked j)
        (HasSpare-less s 1 2 (omega arith) h.spare) in
    let w = bread-WasRead dev t s i s1 e in
    let (nz, _, _) = read_count dev area 2 t i s s1 h a w in
    let other =
      λ (j : ℕ) (q : (i == j) ≡ false). ap (λ y. y.holder) (w.others j q) ∙ h.unlocked j in
    (
      i,
      s1,
      e,
      (λ j _ n. elim (Bool-cases (i == j)) [
        | inl q ↦ absurd (ne (sym w.blockno_is ∙ ap (λ y. (s1.bufs y).blockno) (==→eq i j q) ∙ n))
        | inr q ↦ other j q
      ]),
      (λ j _ z. elim (Bool-cases (i == j)) [
        | inl q ↦ absurd (nz (ap (λ y. (s1.bufs y).refcnt) (==→eq i j q) ∙ z))
        | inr q ↦ other j q
      ]),
      HasSpare-but s s1 i 1 h.spare (λ j nj m z.
          let o = w.others j (ne→== i j nj) in
          (ap (λ l. has l j) w.order ∙ m, ap (λ y. y.refcnt) o ∙ z)),
    )

copied_buf :
    (dst src j : ℕ) (s : Bcache) → ((copy_data dst src s).bufs j).holder ≡ (s.bufs j).holder
unfolding copy_data
copied_buf dst src j s = ground arith

copied_pid : (dst src : ℕ) (s : Bcache) → (copy_data dst src s).pid ≡ s.pid
unfolding copy_data
copied_pid dst src s = refl

unpinned_holder : (i j : ℕ) (s : Bcache) → ((bunpin i s).bufs j).holder ≡ (s.bufs j).holder
unfolding bunpin
unpinned_holder i j s = ground arith

unpinned_pid : (i : ℕ) (s : Bcache) → (bunpin i s).pid ≡ s.pid
unfolding bunpin
unpinned_pid i s = refl

install_block-step :
    (dev t f lbuf dbuf : ℕ) (s s1 s2 s3 s4 s5 : Bcache)
    → bread dev t s ≡ ok (lbuf, s1)
    → bread dev f s1 ≡ ok (dbuf, s2)
    → bwrite dbuf (copy_data dbuf lbuf s2) ≡ ok s3
    → brelse lbuf (bunpin dbuf s3) ≡ ok s4
    → brelse dbuf s4 ≡ ok s5
    → install_block dev t f s ≡ ok s5
unfolding install_block ◌>>=◌
install_block-step dev t f lbuf dbuf s s1 s2 s3 s4 s5 e1 e2 e3 e4 e5 = rw (e1, e2, e3, e4) e5

pub install_block_returns :
    (dev : ℕ) (area : ℕ → Bool) (t f : ℕ) (s : Bcache)
    → IsIdle area 2 s
    → area t ≡ true
    → t ≢ f
    → (s' : Bcache) × (install_block dev t f s ≡ ok s')
install_block_returns dev area t f s h a ne =
    let (lbuf, s1, e1, own, idle, spare) = read_first dev area t f s h a ne in
    let w1 = bread-WasRead dev t s lbuf s1 e1 in
    let (dbuf, s2, e2) = bread_runs dev f s1 own idle spare in
    let w2 = bread-WasRead dev f s1 dbuf s2 e2 in
    let apart : (dbuf == lbuf) ≡ false = elim (Bool-cases (dbuf == lbuf)) [
      | inr q ↦ q
      | inl q ↦
          let z : none ≡ some s.pid =
            sym w2.got.free ∙ ap (λ y. (s1.bufs y).holder) (==→eq dbuf lbuf q) ∙ w1.holder_is in
          absurd cc
    ] in
    let u = copy_data dbuf lbuf s2 in
    let hu : (u.bufs dbuf).holder ≡ some u.pid =
      copied_buf dbuf lbuf dbuf s2
      ∙ w2.holder_is
      ∙ ap some (sym w2.pid_is ∙ sym (copied_pid dbuf lbuf s2)) in
    let (s3, e3) = bwrite_returns dbuf u hu in
    let w3 = bwrite-WasWritten dbuf u s3 e3 in
    let pid3 : s3.pid ≡ s.pid = w3.pid_is ∙ copied_pid dbuf lbuf s2 ∙ w2.pid_is ∙ w1.pid_is in
    let v = bunpin dbuf s3 in
    let hv : (j : ℕ) → (v.bufs j).holder ≡ (s2.bufs j).holder =
      λ j. unpinned_holder dbuf j s3 ∙ ap (λ y. y.holder) (w3.bufs j) ∙ copied_buf dbuf lbuf j s2 in
    let pv = unpinned_pid dbuf s3 ∙ pid3 in
    let (s4, e4) =
      brelse_returns lbuf v
        (hv lbuf ∙ ap (λ y. y.holder) (w2.others lbuf apart) ∙ w1.holder_is ∙ ap some (sym pv)) in
    let w4 = brelse-WasReleased lbuf v s4 e4 in
    let apart' : (lbuf == dbuf) ≡ false = ground arith in
    let (s5, e5) = brelse_returns dbuf s4 (
      ap (λ y. y.holder) (w4.others dbuf apart')
      ∙ hv dbuf
      ∙ w2.holder_is
      ∙ ap some (w1.pid_is ∙ sym pv ∙ sym w4.pid_is)) in
    (s5, install_block-step dev t f lbuf dbuf s s1 s2 s3 s4 s5 e1 e2 e3 e4 e5)
