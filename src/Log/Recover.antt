-- ===== src/Log/Recover.antt =====
-- `recover_from_log` of kernel/log.c on a cache that nobody uses, as it is after a boot.
use mp.Prelude.{
  ℕ, suc, ◌+◌, ◌≤◌, ◌<◌, ◌≡◌, refl, ap, ◌∙◌, ◌≢◌, true, false, arith, ◌==◌, ne→==, ok, ◌>>=◌,
}
use mp.Param.{logical_disk_size}
use mp.Words.{read_u32}
use mp.Bio.{Block, Bcache}
use mp.Log.{
  Log, install_from, install_trans, write_head, rounds, get_entries, read_head, recover_from_log,
}
use mp.Log.Good.{IsGood}
use mp.Log.Stages.{log_area, AreHomes, area-IsSmall, install_from-disk, write_head-disk}
use mp.Log.InstallRuns.{IsIdle}
use mp.Log.RecoverRuns.{IsIdle-less, install_from_returns, read_head_returns, write_head_returns}

-- The disk after the first `m` entries of the header were copied home.
pub record IsInstalled (start m : ℕ) (block : ℕ → ℕ) (before after : ℕ → Block) : Type 0 where
  pub homes : (j : ℕ) → j < m → after (block j) ≡ before (start + j + 1)
  pub others :
      (b : ℕ)
      → b < logical_disk_size
      → b ≢ start
      → ((j : ℕ) → j < m → b ≢ block j)
      → after b ≡ before b

recover_step :
    (l l1 l2 l3 : Log)
    → read_head l ≡ ok l1
    → install_trans l1 ≡ ok l2
    → write_head (record l2 { n = 0 }) ≡ ok l3
    → recover_from_log l ≡ ok l3
unfolding recover_from_log ◌>>=◌
recover_step l l1 l2 l3 e1 e2 e3 = rw (e1, e2) e3

install_trans_runs :
    (l : Log) (s : Bcache)
    → install_from l 0 l.n l.cache ≡ ok s
    → install_trans l ≡ ok (record l { cache = s })
unfolding install_trans ◌>>=◌
install_trans_runs l s e = rw e refl

-- Recovery returns, and has installed the entries that the header on the disk counts.
pub recover-IsInstalled :
    (n m : ℕ) (block : ℕ → ℕ) (l : Log)
    → AreHomes l.start n block
    → IsGood l.dev (log_area l.start n) l.cache
    → IsIdle (log_area l.start n) (suc n) l.cache
    → m ≤ n
    → rounds (read_u32 (l.cache.platter l.start) 0) ≡ m
    → ((j : ℕ) → j < m → get_entries (l.cache.platter l.start) 0 m l.block j ≡ block j)
    → (l' : Log) × (recover_from_log l ≡ ok l')
      × IsInstalled l.start m block l.cache.platter l'.cache.platter
recover-IsInstalled n m block l homes g h le count entries =
    let start = l.start in
    let area = log_area start n in
    let fits = homes.fits in
    let (s1, e1, p1, g1, h1) = read_head_returns n n l (omega arith) g h in
    let b = l.cache.platter start in
    let l1 : Log = record l { n = m; block = get_entries b 0 m l.block; cache = s1 } in
    let e1' : read_head l ≡ ok l1 =
      e1 ∙ ap (λ x. ok (record l { n = x; block = get_entries b 0 x l.block; cache = s1 })) count in
    let homes' : AreHomes start m block = record {
      fits = omega (arith, fits);
      home_small = λ j hj. homes.home_small j (omega arith);
      home_outside = λ j hj. outside start m n (block j) le (homes.home_outside j (omega arith));
      home_once = λ j k hj hk. homes.home_once j k (omega arith) (omega arith);
    } in
    let (s2, e2, h2) =
      install_from_returns start m block l1 0 m s1 homes' refl entries (omega arith)
        (shrink start m n s1 le (IsIdle-less area (suc m) (suc n) s1 (omega arith) h1)) in
    let (g2, d, o) =
      install_from-disk start m block (λ _ _. 0) homes' l1 0 m s1 s2 refl entries (omega arith)
        (shrink_good start m n l.dev s1 le g1) e2 in
    let l2 : Log = record l1 { cache = s2 } in
    let (l3, e3) = write_head_returns m 0 (record l2 { n = 0 }) h2 in
    let (old, rd, keep) =
      write_head-disk (log_area start m) (record l2 { n = 0 }) l3 e3
        (area-IsSmall start m (omega (arith, fits))) (omega (arith, fits)) g2 in
    (
      l3,
      recover_step l l1 l2 l3 e1' (install_trans_runs l1 s2 e2) e3,
      record {
        homes = λ j hj.
            rd.disk (block j) (homes.home_small j (omega arith))
            ∙ (let ne : (block j == start) ≡ false =
                  home_not_start start m (block j) (homes'.home_outside j hj) in
                rw ne refl)
            ∙ d j (omega arith) (omega arith)
            ∙ ap (λ p. p (start + j + 1)) p1;
        others = λ x lt ns away.
            rd.disk x lt
            ∙ (let ne : (x == start) ≡ false = ne→== x start ns in rw ne refl)
            ∙ o x lt (λ j lo hi. away j (omega (arith, hi)))
            ∙ ap (λ p. p x) p1;
      },
    )
  where
    outside : (start m n x : ℕ) → m ≤ n → log_area start n x ≡ false → log_area start m x ≡ false
    outside start m n x le e = ground arith

    home_not_start : (start m x : ℕ) → log_area start m x ≡ false → (x == start) ≡ false
    home_not_start start m x e = ground arith

    inside : (start m n x : ℕ) → m ≤ n → log_area start m x ≡ true → log_area start n x ≡ true
    inside start m n x le e = ground arith

    shrink :
        {k : ℕ} (start m n : ℕ) (s : Bcache)
        → m ≤ n
        → IsIdle (log_area start n) k s
        → IsIdle (log_area start m) k s
    shrink start m n s le h = record {
      unlocked = h.unlocked;
      room = λ i l a. h.room i l (inside start m n (s.bufs i).blockno le a);
      spare = h.spare;
    }

    shrink_good :
        (start m n dev : ℕ) (s : Bcache)
        → m ≤ n
        → IsGood dev (log_area start n) s
        → IsGood dev (log_area start m) s
    shrink_good start m n dev s le h = record {
      no_block_fails = h.no_block_fails;
      no_disk_fails = h.no_disk_fails;
      unique = h.unique;
      one_dev = h.one_dev;
      coherent = λ i l v a. h.coherent i l v (inside start m n (s.bufs i).blockno le a);
    }
