-- ===== src/Log/Stages.antt =====
-- The stages of a commit of kernel/log.c on the disk: the log, the header, the home blocks.
use mp.Prelude.{
  ℕ, zero, suc, ◌+◌, ◌-◌, ◌^◌, ◌≤◌, ◌<◌, ◌≡◌, refl, sym, ap, ap₂, ◌∙◌, subst, ◌≢◌, inl, inr, Bool,
  true, false, ◌&&◌, arith, ltb, leb, ◌==◌, if◌then◌else◌, ==→eq, ==→ne, ne→==, ==_refl, Bool-cases,
  ok, ◌>>=◌, >>=-eq-ok,
}
use mp.Param.{logical_disk_size}
use mp.Bio.{Block, Bcache, bread, bwrite, brelse}
use mp.Bio.Scan.{has}
use mp.Bio.Effects.{bread-WasRead}
use mp.Bio.Raid.{bwrite-WasWritten}
use mp.Log.{
  Log, write_log_block, write_log_from, install_block, install_from, encode_head, write_head,
}
use mp.Log.Blocks.{brelse-WasReleased, write_log_block-WroteBlock, install_block-InstalledBlock}
use mp.Log.Good.{IsGood, SameContents-IsGood, released-SameContents, read-IsGood}
use mp.Log.Store.{with_bytes, disk_with, store-IsGood}
use mp.Log.Pins.{IsPinned}
use mp.Log.Rounds.{IsSmall, RoundLeaves, write-RoundLeaves, write-pins, install-RoundLeaves}

-- The header and `n` blocks behind it.
abbrev pub log_area : ℕ → ℕ → ℕ → Bool
log_area start n b = leb start b && leb b (start + n)

-- The home blocks of the first `n` entries are different blocks outside the log.
pub record AreHomes (start n : ℕ) (block : ℕ → ℕ) : Type 0 where
  pub fits : start + n < logical_disk_size
  pub home_small : (j : ℕ) → j < n → block j < logical_disk_size
  pub home_outside : (j : ℕ) → j < n → log_area start n (block j) ≡ false
  pub home_once : (j k : ℕ) → j < n → k < n → block j ≡ block k → j ≡ k

-- Each of them is pinned with the contents that the transaction gave it.
abbrev pub ArePinned : ℕ → (ℕ → ℕ) → (ℕ → Block) → ℕ → ℕ → Bcache → Type 0
ArePinned dev block c from_tail to_tail s =
    (j : ℕ)
    → from_tail ≤ j
    → j < to_tail
    → (i : ℕ) × (r : ℕ) × IsPinned dev (block j) (c j) i r s × (r ≢ 0) × (r < 2 ^ 32)

pub area-IsSmall : (start n : ℕ) → start + n < logical_disk_size → IsSmall (log_area start n)
area-IsSmall start n fits b e = ground arith

pub in_area : (start n j : ℕ) → j < n → log_area start n (start + j + 1) ≡ true
in_area start n j h = ground arith

module _ (start n : ℕ) (block : ℕ → ℕ) (c : ℕ → Block) (homes : AreHomes start n block) where
  pub log_not_home : (j k : ℕ) → j < n → k < n → start + j + 1 ≢ block k
  log_not_home j k hj hk e =
      let a = in_area start n j hj in
      let b = homes.home_outside k hk in
      let q : true ≡ false = sym a ∙ ap (log_area start n) e ∙ b in cc

  -- The rounds of `write_log` from `tail` on.
  pub write_from-disk :
      (l : Log) (tail left : ℕ) (s s' : Bcache)
      → l.start ≡ start
      → ((j : ℕ) → j < n → l.block j ≡ block j)
      → tail + left ≤ n
      → IsGood l.dev (log_area start n) s
      → ArePinned l.dev block c tail (tail + left) s
      → write_log_from l tail left s ≡ ok s'
      → IsGood l.dev (log_area start n) s'
        × ((b : ℕ)
            → b < logical_disk_size
            → s'.platter b ≡ (
                if leb (start + tail + 1) b && ltb b (start + tail + left + 1)
                then c (b - (start + 1))
                else s.platter b))
  unfolding write_log_from
  write_from-disk l tail zero s s' es eb le g pins h =
      let e : s ≡ s' = cc in
      (
        subst (IsGood l.dev (log_area start n)) e g,
        λ b lt.
            ap (λ x. x.platter b) (sym e)
            ∙ (let q : (leb (start + tail + 1) b && ltb b (start + tail + 0 + 1)) ≡ false =
                  ground arith in
                rw q refl),
      )
  write_from-disk l tail (suc left) s s' es eb le g pins h =
      let (s1, e1, h1) =
        >>=-eq-ok (write_log_block l.dev (l.start + tail + 1) (l.block tail) s) _ h in
      let e1' : write_log_block l.dev (start + tail + 1) (block tail) s ≡ ok s1 =
        ap₂ (λ x y. write_log_block l.dev (x + tail + 1) y s) (sym es) (sym (eb tail (omega arith)))
        ∙ e1 in
      let t = start + tail + 1 in
      let f = block tail in
      let fits = homes.fits in
      let w = write_log_block-WroteBlock l.dev t f s s1 e1' in
      let (i, r, p, nr, rs) = pins tail (omega arith) (omega arith) in
      let ne = log_not_home tail tail (omega arith) (omega arith) in
      let small = area-IsSmall start n fits in
      let fl = homes.home_small tail (omega arith) in
      let one =
        write-RoundLeaves l.dev (log_area start n) t f s s1 g w small (omega arith) fl (c tail) i r
          ne nr p in
      let pins' : ArePinned l.dev block c (suc tail) (suc tail + left) s1 = λ j lo hi.
        let (i', r', p', nr', rs') = pins j (omega arith) (omega arith) in
        (
          i',
          r',
          write-pins l.dev (log_area start n) t f s s1 g w small (omega arith) fl (block j) (c j) i'
              r' (log_not_home tail j (omega arith) (omega arith)) ne nr' rs' p',
          nr',
          rs',
        ) in
      let next : suc tail ≡ tail + 1 = omega arith in
      let (g', d) =
        write_from-disk l (suc tail) left s1 s' es eb (omega arith) one.good pins'
          (ap (λ x. write_log_from l x left s1) next ∙ h1) in
      (
        g',
        λ b lt.
            d b lt
            ∙ ap
                (λ x.
                  if leb (start + suc tail + 1) b && ltb b (start + suc tail + left + 1)
                  then c (b - (start + 1))
                  else x)
                (one.disk b lt)
            ∙ one_more_logged start tail left b (s.platter b),
      )
    where
      one_more_logged :
          (start tail left b : ℕ) (x : Block)
          → (if leb (start + suc tail + 1) b && ltb b (start + suc tail + left + 1)
              then c (b - (start + 1))
              else if b == start + tail + 1
              then c tail
              else x)
            ≡ (if leb (start + tail + 1) b && ltb b (start + tail + suc left + 1)
                then c (b - (start + 1))
                else x)
      one_more_logged start tail left b x = elim (Bool-cases (b == start + tail + 1)) [
        | inl q ↦ let e : b - (start + 1) ≡ tail = ground arith in rw (q, e) (ground arith)
        | inr q ↦ rw q (ground arith)
      ]

  -- The rounds of `install_trans` from `tail` on.
  pub install_from-disk :
      (l : Log) (tail left : ℕ) (s s' : Bcache)
      → l.start ≡ start
      → ((j : ℕ) → j < n → l.block j ≡ block j)
      → tail + left ≤ n
      → IsGood l.dev (log_area start n) s
      → install_from l tail left s ≡ ok s'
      → IsGood l.dev (log_area start n) s'
        × ((j : ℕ) → tail ≤ j → j < tail + left → s'.platter (block j) ≡ s.platter (start + j + 1))
        × ((b : ℕ)
            → b < logical_disk_size
            → ((j : ℕ) → tail ≤ j → j < tail + left → b ≢ block j)
            → s'.platter b ≡ s.platter b)
  unfolding install_from
  install_from-disk l tail zero s s' es eb le g h =
      let e : s ≡ s' = cc in
      (
        subst (IsGood l.dev (log_area start n)) e g,
        (λ j lo hi. absurd (omega arith)),
        λ b lt away. ap (λ x. x.platter b) (sym e),
      )
  install_from-disk l tail (suc left) s s' es eb le g h =
      let (s1, e1, h1) =
        >>=-eq-ok (install_block l.dev (l.start + tail + 1) (l.block tail) s) _ h in
      let e1' : install_block l.dev (start + tail + 1) (block tail) s ≡ ok s1 =
        ap₂ (λ x y. install_block l.dev (x + tail + 1) y s) (sym es) (sym (eb tail (omega arith)))
        ∙ e1 in
      let t = start + tail + 1 in
      let f = block tail in
      let fits = homes.fits in
      let w = install_block-InstalledBlock l.dev t f s s1 e1' in
      let ne = log_not_home tail tail (omega arith) (omega arith) in
      let one =
        install-RoundLeaves l.dev (log_area start n) t f s s1 g w (area-IsSmall start n fits)
          (omega arith) (homes.home_small tail (omega arith)) ne
          (in_area start n tail (omega arith)) in
      let next : suc tail ≡ tail + 1 = omega arith in
      let (g', d, o) =
        install_from-disk l (suc tail) left s1 s' es eb (omega arith) one.good
          (ap (λ x. install_from l x left s1) next ∙ h1) in
      (
        g',
        (λ j lo hi. elim (Bool-cases (tail == j)) [
          | inl q ↦
              let e : tail ≡ j = ==→eq tail j q in
              subst (λ y. s'.platter (block y) ≡ s.platter (start + y + 1)) e
                (o f (homes.home_small tail (omega arith)) (λ k lo' hi' z.
                    omega (arith, homes.home_once tail k (omega arith) (omega arith) z))
                  ∙ one.disk f (homes.home_small tail (omega arith))
                  ∙ rw (==_refl f) refl)
          | inr q ↦
              let ne' = ==→ne tail j q in
              let apart : (start + j + 1 == f) ≡ false =
                ne→== (start + j + 1) f (log_not_home j tail (omega arith) (omega arith)) in
              d j (omega arith) (omega arith)
              ∙ one.disk (start + j + 1) (omega arith)
              ∙ rw apart refl
        ]),
        λ b lt away.
            let apart : (b == f) ≡ false = ne→== b f (away tail (omega arith) (omega arith)) in
            o b lt (λ j lo hi. away j (omega arith) (omega arith)) ∙ one.disk b lt ∙ rw apart refl,
      )

-- The calls of `write_head`.
pub write_head-step :
    (l l' : Log)
    → write_head l ≡ ok l'
    → (i : ℕ) × (s1 : Bcache) × (s2 : Bcache) × (s3 : Bcache) × (bread l.dev l.start l.cache
        ≡ ok (i, s1))
      × (bwrite i (with_bytes i (encode_head l.n l.block (s1.bufs i).bytes) s1) ≡ ok s2)
      × (brelse i s2 ≡ ok s3)
      × (l' ≡ record l { cache = s3 })
unfolding write_head ◌>>=◌
write_head-step l l' h =
    let ((i, s1), e1, h1) = >>=-eq-ok (bread l.dev l.start l.cache) _ h in
    let (s2, e2, h2) =
      >>=-eq-ok (bwrite i (with_bytes i (encode_head l.n l.block (s1.bufs i).bytes) s1)) _ h1 in
    let (s3, e3, h3) = >>=-eq-ok (brelse i s2) _ h2 in (i, s1, s2, s3, e1, e2, e3, cc)

-- `write_head` puts the header on the disk.
pub write_head-disk :
    (area : ℕ → Bool) (l l' : Log)
    → write_head l ≡ ok l'
    → IsSmall area
    → l.start < logical_disk_size
    → IsGood l.dev area l.cache
    → (old : Block) × RoundLeaves l.dev area l.cache l.start (encode_head l.n l.block old) l'.cache
      × (l' ≡ record l { cache = l'.cache })
write_head-disk area l l' h small lt g =
    let (i, s1, s2, s3, e1, e2, e3, e) = write_head-step l l' h in
    let r = bread-WasRead l.dev l.start l.cache i s1 e1 in
    let old = (s1.bufs i).bytes in
    let c = encode_head l.n l.block old in
    let listed : has s1.order i ≡ true = ap (λ o. has o i) r.order ∙ r.got.listed in
    let w = bwrite-WasWritten i (with_bytes i c s1) s2 e2 in
    let (g2, d) =
      store-IsGood l.dev area i l.start c s1 s2 (read-IsGood l.dev area l.cache s1 l.start i g lt r)
        small listed r.dev_is r.blockno_is lt w in
    let listed2 : has s2.order i ≡ true = ap (λ o. has o i) w.order ∙ listed in
    let c3 = released-SameContents i s2 s3 listed2 (brelse-WasReleased i s2 s3 e3) in
    let cache_is : l'.cache ≡ s3 = ap (λ x. x.cache) e in
    (
      old,
      subst (RoundLeaves l.dev area l.cache l.start c) (sym cache_is) (record {
        good = SameContents-IsGood l.dev area s2 s3 c3 g2;
        disk =
            λ n ln. ap (λ p. p n) c3.platter ∙ d n ln ∙ ap (λ p. disk_with p l.start c n) r.platter;
      }),
      e ∙ ap (λ x. record l { cache = x }) (sym cache_is),
    )
