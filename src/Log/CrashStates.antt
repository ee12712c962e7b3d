-- ===== src/Log/CrashStates.antt =====
-- kernel/log.c: what the disk may hold when the machine stops in a commit.
use mp.Prelude.{
  ℕ, ◌+◌, ◌-◌, ◌≤◌, ◌<◌, ◌≡◌, refl, sym, ap, ◌∙◌, subst, ◌≢◌, true, false, ◌&&◌, arith, ltb, leb,
  ◌==◌, if◌then◌else◌, ==_refl, ok, ◌>>=◌, >>=-eq-ok,
}
use mp.Param.{logical_disk_size}
use mp.Words.{read_u32}
use mp.Bio.{Block, Bcache}
use mp.Log.{
  Log, write_log_from, write_log, install_from, install_trans, encode_head, write_head, rounds,
  commit,
}
use mp.Log.Good.{IsGood}
use mp.Log.Stages.{
  log_area, AreHomes, ArePinned, area-IsSmall, in_area, write_from-disk, install_from-disk,
  write_head-disk,
}

-- The log as `commit` finds it: the blocks of the transaction are pinned in the cache with their new
-- contents `c`, and the header on the disk is clear.
pub record IsReady (l : Log) (c : ℕ → Block) : Type 0 where
  pub homes : AreHomes l.start l.n l.block
  pub good : IsGood l.dev (log_area l.start l.n) l.cache
  pub pins : ArePinned l.dev l.block c 0 l.n l.cache
  pub some_blocks : 0 < l.n
  pub clear : rounds (read_u32 (l.cache.platter l.start) 0) ≡ 0

-- The same blocks on disk 0, whatever the mirrors hold.
abbrev pub SameDisk0 : (ℕ → Block) → (ℕ → Block) → Type 0
SameDisk0 disk disk' = (b : ℕ) → b < logical_disk_size → disk b ≡ disk' b

-- What the disk may hold when the machine stops: after some rounds of `write_log`, after `write_head` and
-- some rounds of `install_trans`, or after the whole commit. The number of rounds is set by `n`. The
-- mirrors are left open, so that each case is also a stop in the last `bwrite` of it, between the
-- transfer to disk 0 and the one to the mirror.
pub data Crashed (l : Log) (disk : ℕ → Block) : Type 0 where
  logging :
      (k : ℕ) (l1 : Log)
      → k ≤ l.n
      → write_log (record l { n = k }) ≡ ok l1
      → SameDisk0 disk l1.cache.platter
      → Crashed l disk
  installing :
      (k : ℕ) (l1 l2 l3 : Log)
      → k ≤ l.n
      → write_log l ≡ ok l1
      → write_head l1 ≡ ok l2
      → install_trans (record l2 { n = k }) ≡ ok l3
      → SameDisk0 disk l3.cache.platter
      → Crashed l disk
  committed : (l1 : Log) → commit l ≡ ok l1 → SameDisk0 disk l1.cache.platter → Crashed l disk

-- No block outside the log has changed.
abbrev pub IsOld : Log → (ℕ → Block) → Type 0
IsOld l disk =
    (b : ℕ) → b < logical_disk_size → log_area l.start l.n b ≡ false → disk b ≡ l.cache.platter b

-- Every block of the transaction has its new contents, and no other block outside the log has changed.
pub record IsNew (l : Log) (c : ℕ → Block) (disk : ℕ → Block) : Type 0 where
  pub homes : (j : ℕ) → j < l.n → disk (l.block j) ≡ c j
  pub others :
      (b : ℕ)
      → b < logical_disk_size
      → log_area l.start l.n b ≡ false
      → ((j : ℕ) → j < l.n → b ≢ l.block j)
      → disk b ≡ l.cache.platter b

-- What recovery makes of the disk: the old one up to the write of the header, the new one from there on.
abbrev pub IsRecovered :
    {l : Log} {disk : ℕ → Block} → (ℕ → Block) → Crashed l disk → (ℕ → Block) → Type 0
IsRecovered {l} c (logging k l1 le e at) after = IsOld l after
IsRecovered {l} c (installing k l1 l2 l3 le e1 e2 e3 at) after = IsNew l c after
IsRecovered {l} c (committed l1 e at) after = IsNew l c after

pub write_log-step :
    (l l' : Log)
    → write_log l ≡ ok l'
    → (s : Bcache) × (write_log_from l 0 l.n l.cache ≡ ok s) × (l' ≡ record l { cache = s })
unfolding write_log ◌>>=◌
write_log-step l l' h =
    let (s, e, h') = >>=-eq-ok (write_log_from l 0 l.n l.cache) _ h in (s, e, cc)

install_trans-step :
    (l l' : Log)
    → install_trans l ≡ ok l'
    → (s : Bcache) × (install_from l 0 l.n l.cache ≡ ok s) × (l' ≡ record l { cache = s })
unfolding install_trans ◌>>=◌
install_trans-step l l' h =
    let (s, e, h') = >>=-eq-ok (install_from l 0 l.n l.cache) _ h in (s, e, cc)

-- The disk after `k` rounds of `write_log`.
pub logged :
    (l : Log) (c : ℕ → Block) (k : ℕ) (l1 : Log)
    → IsReady l c
    → k ≤ l.n
    → write_log (record l { n = k }) ≡ ok l1
    → (s : Bcache) × (l1 ≡ record l { n = k; cache = s })
      × IsGood l.dev (log_area l.start l.n) s
      × ((b : ℕ)
          → b < logical_disk_size
          → s.platter b ≡ (
              if leb (l.start + 0 + 1) b && ltb b (l.start + 0 + k + 1)
              then c (b - (l.start + 1))
              else l.cache.platter b))
logged l c k l1 r le h =
    let (s, e, q) = write_log-step (record l { n = k }) l1 h in
    let (g, d) =
      write_from-disk l.start l.n l.block c r.homes (record l { n = k }) 0 k l.cache s refl
        (λ j hj. refl) (omega arith) r.good (λ j lo hi. r.pins j lo (omega arith)) e in
    (s, q, g, d)

-- The disk once the header is written, after `k` rounds of `install_trans`.
pub record AfterHead (l : Log) (c : ℕ → Block) (k : ℕ) (l2 l3 : Log) : Type 0 where
  pub good : IsGood l.dev (log_area l.start l.n) l3.cache
  pub fields : l3 ≡ record l { n = k; cache = l3.cache }
  pub old : Block
  pub header : l3.cache.platter l.start ≡ encode_head l.n l.block old
  pub logs : (j : ℕ) → j < l.n → l3.cache.platter (l.start + j + 1) ≡ c j
  pub homes : (j : ℕ) → j < k → l3.cache.platter (l.block j) ≡ c j
  pub others :
      (b : ℕ)
      → b < logical_disk_size
      → log_area l.start l.n b ≡ false
      → ((j : ℕ) → j < k → b ≢ l.block j)
      → l3.cache.platter b ≡ l.cache.platter b

start_in_area : (start n : ℕ) → log_area start n start ≡ true
start_in_area start n = ground arith

pub not_start : (start n b : ℕ) → log_area start n b ≡ false → (b == start) ≡ false
not_start start n b e = ground arith

not_logged :
    (start n b : ℕ)
    → log_area start n b ≡ false
    → (leb (start + 0 + 1) b && ltb b (start + 0 + n + 1)) ≡ false
not_logged start n b e = ground arith

is_logged :
    (start n j : ℕ)
    → j < n
    → (leb (start + 0 + 1) (start + j + 1) && ltb (start + j + 1) (start + 0 + n + 1)) ≡ true
is_logged start n j h = ground arith

pub after_head :
    (l : Log) (c : ℕ → Block) (k : ℕ) (l1 l2 l3 : Log)
    → IsReady l c
    → k ≤ l.n
    → write_log l ≡ ok l1
    → write_head l1 ≡ ok l2
    → install_trans (record l2 { n = k }) ≡ ok l3
    → AfterHead l c k l2 l3
after_head l c k l1 l2 l3 r le e1 e2 e3 =
    let start = l.start in
    let n = l.n in
    let area = log_area start n in
    let fits = r.homes.fits in
    let (s1, q1, g1, d1) = logged l c n l1 r (omega arith) e1 in
    let lw : Log = record l { cache = s1 } in
    let e2' : write_head lw ≡ ok l2 = subst (λ x. write_head x ≡ ok l2) q1 e2 in
    let (old, rd, keep) =
      write_head-disk area lw l2 e2' (area-IsSmall start n fits) (omega (arith, fits)) g1 in
    let l2' : Log = record l { n = k; cache = l2.cache } in
    let e3' : install_trans l2' ≡ ok l3 =
      subst (λ x. install_trans (record x { n = k }) ≡ ok l3) keep e3 in
    let (s3, i3, q3) = install_trans-step l2' l3 e3' in
    let (g3, d3, o3) =
      install_from-disk start n l.block c r.homes l2' 0 k l2.cache s3 refl (λ j hj. refl)
        (omega arith) rd.good i3 in
    let at3 : l3.cache ≡ s3 = ap (λ x. x.cache) q3 in
    let not_home : (b : ℕ) → area b ≡ true → (j : ℕ) → 0 ≤ j → j < 0 + k → b ≢ l.block j =
      λ b a j lo hi z.
        let w : true ≡ false = sym a ∙ ap area z ∙ r.homes.home_outside j (omega arith) in cc in
    let log2 : (j : ℕ) → j < n → l2.cache.platter (start + j + 1) ≡ c j = λ j hj.
      rd.disk (start + j + 1) (omega (arith, fits))
      ∙ (let ne : (start + j + 1 == start) ≡ false = ground arith in rw ne refl)
      ∙ d1 (start + j + 1) (omega (arith, fits))
      ∙ rw (is_logged start n j hj)
          (let back : start + j + 1 - (start + 1) ≡ j = omega arith in ap c back) in
    record {
      good = subst (IsGood l.dev area) (sym at3) g3;
      fields = q3 ∙ ap (λ x. record l { n = k; cache = x }) (sym at3);
      old = old;
      header =
          ap (λ x. x.platter start) at3
          ∙ o3 start (omega (arith, fits)) (not_home start (start_in_area start n))
          ∙ rd.disk start (omega (arith, fits))
          ∙ rw (==_refl start) refl;
      logs = λ j hj.
          ap (λ x. x.platter (start + j + 1)) at3
          ∙ o3 (start + j + 1) (omega (arith, fits))
              (not_home (start + j + 1) (in_area start n j hj))
          ∙ log2 j hj;
      homes = λ j hj.
          ap (λ x. x.platter (l.block j)) at3
          ∙ d3 j (omega arith) (omega arith)
          ∙ log2 j (omega arith);
      others = λ b lt a away.
          ap (λ x. x.platter b) at3
          ∙ o3 b lt (λ j lo hi. away j (omega (arith, hi)))
          ∙ rd.disk b lt
          ∙ rw (not_start start n b a) refl
          ∙ d1 b lt
          ∙ rw (not_logged start n b a) refl;
    }
