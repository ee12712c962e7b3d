-- ===== src/Log/RecoverRuns.antt =====
-- kernel/log.c: on an idle cache the routines of recovery return.
use mp.Prelude.{
  ℕ, zero, suc, ◌+◌, ◌^◌, ◌≤◌, ◌<◌, ◌≡◌, refl, sym, ap, ap₂, ◌∙◌, subst, inl, inr, Bool, true, none,
  some, List, [], ◌∷◌, arith, ◌==◌, ==→eq, Bool-cases, All, ok, ◌>>=◌,
}
use mp.Param.{logical_disk_size}
use mp.Words.{read_u32}
use mp.Bio.{Bcache, refcnt_dec}
use mp.Bio.Scan.{has}
use mp.Bio.Effects.{WasRead, bread-WasRead}
use mp.Bio.Raid.{bwrite-WasWritten}
use mp.Log.{
  Log, install_block, install_from, encode_head, write_head, rounds, get_entries, read_head,
}
use mp.Log.Blocks.{WasReleased, brelse-WasReleased, install_block-InstalledBlock}
use mp.Log.Good.{IsGood, read_area, SameContents-IsGood, released-SameContents, read-IsGood}
use mp.Log.Store.{with_bytes, with_bytes_self}
use mp.Log.Stages.{log_area, AreHomes, in_area, log_not_home}
use mp.Log.Idle.{bread_runs, bwrite_returns, brelse_returns}
use mp.Log.IdleRounds.{install-IsIdle}
use mp.Log.InstallRuns.{IsIdle, HasSpare-less, read_count, install_block_returns}

pub IsIdle-less :
    (area : ℕ → Bool) (j k : ℕ) (s : Bcache) → j ≤ k → IsIdle area k s → IsIdle area j s
IsIdle-less area j k s le h = record {
  unlocked = h.unlocked;
  room = h.room;
  spare = HasSpare-less s j k le h.spare;
}

-- The loop of `install_trans` returns.
pub install_from_returns :
    (start n : ℕ) (block : ℕ → ℕ) (l : Log) (tail left : ℕ) (s : Bcache)
    → AreHomes start n block
    → l.start ≡ start
    → ((j : ℕ) → j < n → l.block j ≡ block j)
    → tail + left ≤ n
    → IsIdle (log_area start n) (suc left) s
    → (s' : Bcache) × (install_from l tail left s ≡ ok s') × IsIdle (log_area start n) 1 s'
unfolding install_from ◌>>=◌
install_from_returns start n block l tail zero s homes es eb le h = (s, refl, h)
install_from_returns start n block l tail (suc left) s homes es eb le h =
    let t = start + tail + 1 in
    let a = in_area start n tail (omega arith) in
    let out = homes.home_outside tail (omega arith) in
    let (s1, e) =
      install_block_returns l.dev (log_area start n) t (block tail) s
        (IsIdle-less (log_area start n) 2 (suc (suc left)) s (omega arith) h) a
        (log_not_home start n block (λ _ _. 0) homes tail tail (omega arith) (omega arith)) in
    let w = install_block-InstalledBlock l.dev t (block tail) s s1 e in
    let h1 = install-IsIdle l.dev (log_area start n) t (block tail) (suc left) s s1 h w a out in
    let (s2, f, h2) =
      install_from_returns start n block l (tail + 1) left s1 homes es eb (omega arith) h1 in
    let e' : install_block l.dev (l.start + tail + 1) (l.block tail) s ≡ ok s1 =
      ap₂ (λ x y. install_block l.dev (x + tail + 1) y s) es (eb tail (omega arith)) ∙ e in
    (s2, rw e' f, h2)

-- A buffer that is read, perhaps stored and released: the cache is as idle as before.
idle_after :
    (dev : ℕ) (area : ℕ → Bool) (k b i : ℕ) (s s1 s2 s3 : Bcache)
    → IsIdle area k s
    → area b ≡ true
    → WasRead dev b s i s1
    → s2.order ≡ s1.order
    → ((j : ℕ) → (s2.bufs j).holder ≡ (s1.bufs j).holder)
    → ((j : ℕ) → (s2.bufs j).refcnt ≡ (s1.bufs j).refcnt)
    → ((j : ℕ) → (s2.bufs j).blockno ≡ (s1.bufs j).blockno)
    → WasReleased i s2 s3
    → IsIdle area k s3
idle_after dev area k b i s s1 s2 s3 h a w eo eh er eb r =
    let count = read_count dev area k b i s s1 h a w in
    let listed : has s2.order i ≡ true = ap (λ o. has o i) (eo ∙ w.order) ∙ w.got.listed in
    let has_is : (j : ℕ) → has s3.order j ≡ has s.order j =
      λ j. r.listed j listed ∙ ap (λ o. has o j) (eo ∙ w.order) in
    let self : (s3.bufs i).refcnt ≡ refcnt_dec (s1.bufs i).refcnt =
      ap (λ y. y.refcnt) r.self ∙ ap refcnt_dec (er i) in
    record {
      unlocked = λ j. elim (Bool-cases (i == j)) [
        | inl q ↦ subst (λ x. (s3.bufs x).holder ≡ none) (==→eq i j q) (ap (λ y. y.holder) r.self)
        | inr q ↦
            ap (λ y. y.holder) (r.others j q)
            ∙ eh j
            ∙ ap (λ y. y.holder) (w.others j q)
            ∙ h.unlocked j
      ];
      room = λ j m x. elim (Bool-cases (i == j)) [
        | inl q ↦
            subst (λ y. (s3.bufs y).refcnt + 1 < 2 ^ 32) (==→eq i j q)
              (omega (arith, self, count.1))
        | inr q ↦
            let e = ap (λ y. y.refcnt) (r.others j q) ∙ er j ∙ ap (λ y. y.refcnt) (w.others j q) in
            let en =
              ap (λ y. y.blockno) (r.others j q) ∙ eb j ∙ ap (λ y. y.blockno) (w.others j q) in
            omega (arith, e, h.room j (sym (has_is j) ∙ m) (ap area (sym en) ∙ x))
      ];
      spare = record {
        spares = h.spare.spares;
        distinct = h.spare.distinct;
        unused =
            All-each (λ j. (has s.order j ≡ true) × ((s.bufs j).refcnt ≡ 0))
              (λ j. (has s3.order j ≡ true) × ((s3.bufs j).refcnt ≡ 0)) h.spare.spares
              (λ j (m, z). (
                has_is j ∙ m,
                elim (Bool-cases (i == j)) [
                  | inl q ↦
                      let e = ==→eq i j q in
                      subst (λ y. (s3.bufs y).refcnt ≡ 0) e
                        (self ∙ count.2 (ap (λ y. (s.bufs y).refcnt) e ∙ z))
                  | inr q ↦
                      ap (λ y. y.refcnt) (r.others j q)
                      ∙ er j
                      ∙ ap (λ y. y.refcnt) (w.others j q)
                      ∙ z
                ],
              ))
              h.spare.unused;
        enough = h.spare.enough;
      };
    }
  where
    All-each : (P Q : ℕ → Type 0) (l : List ℕ) → ((j : ℕ) → P j → Q j) → All P l → All Q l
    All-each P Q [] f a = tt
    All-each P Q (j ∷ l) f a = (f j a.0, All-each P Q l f a.1)

-- `read_head` returns with the header that is on the disk.
pub read_head_returns :
    (n : ℕ) (k : ℕ) (l : Log)
    → l.start < logical_disk_size
    → IsGood l.dev (log_area l.start n) l.cache
    → IsIdle (log_area l.start n) (suc k) l.cache
    → let b = l.cache.platter l.start in
      let m = rounds (read_u32 b 0) in
      (s : Bcache) × (read_head l
        ≡ ok (record l { n = m; block = get_entries b 0 m l.block; cache = s }))
      × (s.platter ≡ l.cache.platter)
      × IsGood l.dev (log_area l.start n) s
      × IsIdle (log_area l.start n) (suc k) s
unfolding read_head ◌>>=◌
read_head_returns n k l lt g h =
    let area = log_area l.start n in
    let a : area l.start ≡ true = ground arith in
    let (i, s1, e1) =
      bread_runs l.dev l.start l.cache (λ j _ _. h.unlocked j) (λ j _ _. h.unlocked j)
        (HasSpare-less l.cache 1 (suc k) (omega arith) h.spare) in
    let w = bread-WasRead l.dev l.start l.cache i s1 e1 in
    let (s2, e2) = brelse_returns i s1 (w.holder_is ∙ ap some (sym w.pid_is)) in
    let r = brelse-WasReleased i s1 s2 e2 in
    let listed : has s1.order i ≡ true = ap (λ o. has o i) w.order ∙ w.got.listed in
    let c = released-SameContents i s1 s2 listed r in
    let byt = read_area l.dev area l.cache s1 l.start i g lt a w in
    (
      s2,
      rw (e1, e2)
          (ap
            (λ b. ok (record l {
              n = rounds (read_u32 b 0);
              block = get_entries b 0 (rounds (read_u32 b 0)) l.block;
              cache = s2;
            }))
            byt),
      c.platter ∙ w.platter,
      SameContents-IsGood l.dev area s1 s2 c (read-IsGood l.dev area l.cache s1 l.start i g lt w),
      idle_after l.dev area (suc k) l.start i l.cache s1 s1 s2 h a w refl (λ j. refl) (λ j. refl)
          (λ j. refl) r,
    )

-- `write_head` returns.
pub write_head_returns :
    (n k : ℕ) (l : Log)
    → IsIdle (log_area l.start n) (suc k) l.cache
    → (l' : Log) × (write_head l ≡ ok l')
unfolding write_head ◌>>=◌
write_head_returns n k l h =
    let (i, s1, e1) =
      bread_runs l.dev l.start l.cache (λ j _ _. h.unlocked j) (λ j _ _. h.unlocked j)
        (HasSpare-less l.cache 1 (suc k) (omega arith) h.spare) in
    let w = bread-WasRead l.dev l.start l.cache i s1 e1 in
    let u = with_bytes i (encode_head l.n l.block (s1.bufs i).bytes) s1 in
    let hu : (u.bufs i).holder ≡ some u.pid =
      ap (λ y. y.holder) (with_bytes_self i (encode_head l.n l.block (s1.bufs i).bytes) s1)
      ∙ w.holder_is
      ∙ ap some (sym w.pid_is) in
    let (s2, e2) = bwrite_returns i u hu in
    let v = bwrite-WasWritten i u s2 e2 in
    let (s3, e3) =
      brelse_returns i s2 (ap (λ y. y.holder) (v.bufs i) ∙ hu ∙ ap some (sym v.pid_is)) in
    (record l { cache = s3 }, rw (e1, e2, e3) refl)
