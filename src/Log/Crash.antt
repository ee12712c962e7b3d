-- ===== src/Log/Crash.antt =====
-- A crash at any point of a commit of kernel/log.c, and the recovery after it.
use mp.Prelude.{
  ℕ, suc, ◌+◌, ◌^◌, ◌≤◌, ◌<◌, ◌≡◌, refl, sym, ap, ◌∙◌, subst, true, false, ◌&&◌, arith, ltb, leb,
  ==→ne, ==_refl, ok, ◌>>=◌, >>=-eq-ok,
}
use mp.Param.{logical_disk_size}
use mp.Words.{read_u32}
use mp.Bio.{Block}
use mp.Log.{
  Log, write_log, install_trans, encode_head, write_head, rounds, get_entries, recover_from_log,
  commit,
}
use mp.Log.Head.{head_roundtrip}
use mp.Log.Good.{IsGood}
use mp.Log.Stages.{write_head-step, log_area, AreHomes, area-IsSmall, write_head-disk}
use mp.Log.InstallRuns.{IsIdle}
use mp.Log.Recover.{IsInstalled, recover-IsInstalled}
use mp.Log.CrashStates.{
  logging, installing, committed, IsReady, SameDisk0, IsRecovered, Crashed, write_log-step, logged,
  not_start, after_head,
}

-- The machine after the crash: the log of the same disk, with a cache that nobody uses.
pub record Boots (l : Log) (disk : ℕ → Block) (l0 : Log) : Type 0 where
  pub start_is : l0.start ≡ l.start
  pub disk_is : l0.cache.platter ≡ disk
  pub good : IsGood l0.dev (log_area l.start l.n) l0.cache
  pub idle : IsIdle (log_area l.start l.n) (suc l.n) l0.cache

-- Recovery from a disk with a header of `m` entries.
recovers :
    (l l0 : Log) (c : ℕ → Block) (disk : ℕ → Block) (m : ℕ)
    → IsReady l c
    → Boots l disk l0
    → m ≤ l.n
    → rounds (read_u32 (disk l.start) 0) ≡ m
    → ((old : ℕ → ℕ) (j : ℕ) → j < m → get_entries (disk l.start) 0 m old j ≡ l.block j)
    → (l' : Log) × (recover_from_log l0 ≡ ok l')
      × IsInstalled l.start m l.block disk l'.cache.platter
recovers l l0 c disk m r b le count entries =
    let es = b.start_is in
    let at : l0.cache.platter l0.start ≡ disk l.start =
      ap (λ p. p l0.start) b.disk_is ∙ ap disk es in
    let (l', e, i) =
      recover-IsInstalled l.n m l.block l0 (subst (λ x. AreHomes x l.n l.block) (sym es) r.homes)
        (subst (λ x. IsGood l0.dev (log_area x l.n) l0.cache) (sym es) b.good)
        (subst (λ x. IsIdle (log_area x l.n) (suc l.n) l0.cache) (sym es) b.idle) le
        (ap (λ x. rounds (read_u32 x 0)) at ∙ count)
        (λ j hj. ap (λ x. get_entries x 0 m l0.block j) at ∙ entries l0.block j hj) in
    (
      l',
      e,
      subst (λ p. IsInstalled l.start m l.block p l'.cache.platter) b.disk_is
          (subst (λ x. IsInstalled x m l.block l0.cache.platter l'.cache.platter) es i),
    )

-- From a clear header, recovery leaves what lies outside the log.
recovers_clear :
    (l l0 : Log) (c : ℕ → Block) (disk : ℕ → Block)
    → IsReady l c
    → Boots l disk l0
    → rounds (read_u32 (disk l.start) 0) ≡ 0
    → (l' : Log) × (recover_from_log l0 ≡ ok l')
      × ((b : ℕ)
          → b < logical_disk_size
          → log_area l.start l.n b ≡ false
          → l'.cache.platter b ≡ disk b)
recovers_clear l l0 c disk r b count =
    let (l', e, i) =
      recovers l l0 c disk 0 r b (omega arith) count (λ old j hj. absurd (omega arith)) in
    (
      l',
      e,
      λ x lt a.
          i.others x lt (==→ne x l.start (not_start l.start l.n x a))
            (λ j hj. absurd (omega arith)),
    )

commit-step :
    (l l4 : Log)
    → 0 < l.n
    → commit l ≡ ok l4
    → (l1 : Log) × (l2 : Log) × (l3 : Log) × (write_log l ≡ ok l1)
      × (write_head l1 ≡ ok l2)
      × (install_trans l2 ≡ ok l3)
      × (write_head (record l3 { n = 0 }) ≡ ok l4)
unfolding commit ◌>>=◌
commit-step l l4 pos_n h =
    let t : ltb 0 l.n ≡ true = ground arith in
    let h0 = opened l l4 t h in
    let (l1, e1, h1) = >>=-eq-ok (write_log l) _ h0 in
    let (l2, e2, h2) = >>=-eq-ok (write_head l1) _ h1 in
    let (l3, e3, h3) = >>=-eq-ok (install_trans l2) _ h2 in (l1, l2, l3, e1, e2, e3, h3)
  where
    opened :
        (l l4 : Log)
        → ltb 0 l.n ≡ true
        → commit l ≡ ok l4
        → (write_log l >>= λ l1.
            write_head l1 >>= λ l2. install_trans l2 >>= λ l3. write_head (record l3 { n = 0 }))
          ≡ ok l4
    opened l l4 t h = ground (arith, t, h)

head_n : (l l1 l2 : Log) → write_log l ≡ ok l1 → write_head l1 ≡ ok l2 → l2.n ≡ l.n
head_n l l1 l2 e1 e2 =
    let (s, _, q) = write_log-step l l1 e1 in
    let (_, _, _, _, _, _, _, p) = write_head-step l1 l2 e2 in ap (λ x. x.n) p ∙ ap (λ x. x.n) q

-- Wherever the machine stops in a commit, also in a `bwrite` between the transfer to disk 0 and the one
-- to the mirror, the recovery of the next boot returns. If the stop came before the header was on disk 0,
-- every block of disk 0 outside the log is as before the transaction; if it came later, every block of
-- the transaction has its new contents and every other one outside the log is as before. The blocks of
-- the transaction are pinned, the header is clear before, no failure is simulated, and after the boot
-- nobody uses the cache, with a buffer for each block of the transaction and one more.
pub crash_atomic :
    (l l0 : Log) (c : ℕ → Block) (disk : ℕ → Block)
    → IsReady l c
    → (stop : Crashed l disk) → Boots l disk l0
    → (l' : Log) × (recover_from_log l0 ≡ ok l') × IsRecovered c stop l'.cache.platter
crash_atomic l l0 c disk r (logging k l1 le e at) b =
    let fits = r.homes.fits in
    let (s, q, g, d) = logged l c k l1 r le e in
    let at_s : SameDisk0 disk s.platter = λ x lt. at x lt ∙ ap (λ y. y.cache.platter x) q in
    let clear : rounds (read_u32 (disk l.start) 0) ≡ 0 =
      ap (λ x. rounds (read_u32 x 0)) (at_s l.start (omega (arith, fits)))
      ∙ ap (λ x. rounds (read_u32 x 0))
          (d l.start (omega (arith, fits))
            ∙ (let w : (leb (l.start + 0 + 1) l.start && ltb l.start (l.start + 0 + k + 1))
                    ≡ false =
                  ground arith in
                rw w refl))
      ∙ r.clear in
    let (l', f, same) = recovers_clear l l0 c disk r b clear in
    (
      l',
      f,
      (λ x lt a.
          same x lt a ∙ at_s x lt ∙ d x lt ∙ rw (not_logged_before l.start l.n k x le a) refl),
    )
  where
    not_logged_before :
        (start n k x : ℕ)
        → k ≤ n
        → log_area start n x ≡ false
        → (leb (start + 0 + 1) x && ltb x (start + 0 + k + 1)) ≡ false
    not_logged_before start n k x le a = ground arith
crash_atomic l l0 c disk r (installing k l1 l2 l3 le e1 e2 e3 at) b =
    let fits = r.homes.fits in
    let a = after_head l c k l1 l2 l3 r le e1 e2 e3 in
    let at_start : disk l.start ≡ encode_head l.n l.block a.old =
      at l.start (omega (arith, fits)) ∙ a.header in
    let words : (j : ℕ) → j < l.n → l.block j < 2 ^ 32 =
      λ j hj. omega (arith, r.homes.home_small j hj) in
    let head = λ (old : ℕ → ℕ). head_roundtrip l.n l.block old a.old (omega (arith, fits)) words in
    let count = (head (λ _. 0)).0 in
    let (l', f, i) =
      recovers l l0 c disk l.n r b (omega arith) (ap (λ x. rounds (read_u32 x 0)) at_start ∙ count)
        (λ old j hj.
          ap (λ x. get_entries x 0 l.n old j) at_start
          ∙ subst (λ m. get_entries (encode_head l.n l.block a.old) 0 m old j ≡ l.block j) count
              ((head old).1 j hj)) in
    (
      l',
      f,
      (record {
        homes = λ j hj. i.homes j hj ∙ at (l.start + j + 1) (omega (arith, fits)) ∙ a.logs j hj;
        others = λ x lt ar away.
            i.others x lt (==→ne x l.start (not_start l.start l.n x ar)) away
            ∙ at x lt
            ∙ a.others x lt ar (λ j hj. away j (omega arith));
      }),
    )
crash_atomic l l0 c disk r (committed l4 e at) b =
    let fits = r.homes.fits in
    let (l1, l2, l3, e1, e2, e3, e4) = commit-step l l4 r.some_blocks e in
    let same_n = head_n l l1 l2 e1 e2 in
    let e3' : install_trans (record l2 { n = l.n }) ≡ ok l3 =
      subst (λ x. install_trans (record l2 { n = x }) ≡ ok l3) same_n e3 in
    let a = after_head l c l.n l1 l2 l3 r (omega arith) e1 e2 e3' in
    let lw : Log = record l { n = 0; cache = l3.cache } in
    let e4' : write_head lw ≡ ok l4 =
      subst (λ x. write_head (record x { n = 0 }) ≡ ok l4) a.fields e4 in
    let (old, rd, keep) =
      write_head-disk (log_area l.start l.n) lw l4 e4' (area-IsSmall l.start l.n fits)
        (omega (arith, fits)) a.good in
    let at_start : disk l.start ≡ encode_head 0 l.block old =
      at l.start (omega (arith, fits))
      ∙ rd.disk l.start (omega (arith, fits))
      ∙ rw (==_refl l.start) refl in
    let clear =
      ap (λ x. rounds (read_u32 x 0)) at_start
      ∙ (head_roundtrip 0 l.block l.block old (omega arith) (λ j hj. absurd (omega arith))).0 in
    let (l', f, same) = recovers_clear l l0 c disk r b clear in
    let past : (x : ℕ)
        → x < logical_disk_size
        → log_area l.start l.n x ≡ false
        → l'.cache.platter x ≡ l3.cache.platter x =
      λ x lt ar. same x lt ar ∙ at x lt ∙ rd.disk x lt ∙ rw (not_start l.start l.n x ar) refl in
    (
      l',
      f,
      (record {
        homes = λ j hj.
            past (l.block j) (r.homes.home_small j hj) (r.homes.home_outside j hj) ∙ a.homes j hj;
        others = λ x lt ar away. past x lt ar ∙ a.others x lt ar away;
      }),
    )
