-- ===== src/Log/IdleRounds.antt =====
-- A round of `install_trans` and `write_head` of kernel/log.c on an idle cache: they return, and leave it
-- idle, with one buffer less to spare for each round, whose `bunpin` has no pin to take back.
use mp.Prelude.{
  ℕ, suc, ◌+◌, ◌^◌, ◌<◌, ◌≡◌, sym, ap, ◌∙◌, subst, inl, inr, Bool, true, false, none, some, arith,
  ◌==◌, ==→eq, ==→ne, ne→==, Bool-cases,
}
use mp.Prelude.Update.{update_ne}
use mp.Bio.{Buf, Bcache, refcnt_dec, bunpin}
use mp.Bio.Scan.{has}
use mp.Log.{copy_data}
use mp.Log.Blocks.{InstalledBlock}
use mp.Log.Store.{with_bytes_ne}
use mp.Log.Rounds.{order_copied, order_bunpin}
use mp.Log.Idle.{HasSpare-but}
use mp.Log.InstallRuns.{IsIdle, read_count}

copied_other :
    (dst src j : ℕ) (s : Bcache) → (dst == j) ≡ false → (copy_data dst src s).bufs j ≡ s.bufs j
unfolding copy_data
copied_other dst src j s ne = with_bytes_ne dst (s.bufs src).bytes s j ne

copied_blockno :
    (dst src j : ℕ) (s : Bcache) → ((copy_data dst src s).bufs j).blockno ≡ (s.bufs j).blockno
unfolding copy_data
copied_blockno dst src j s = ground arith

unpinned_other : (i j : ℕ) (s : Bcache) → (i == j) ≡ false → (bunpin i s).bufs j ≡ s.bufs j
unfolding bunpin
unpinned_other i j s ne =
    update_ne s.bufs i j (record (s.bufs i) { refcnt = refcnt_dec (s.bufs i).refcnt })
      (==→ne i j ne)

unpinned_blockno : (i j : ℕ) (s : Bcache) → ((bunpin i s).bufs j).blockno ≡ (s.bufs j).blockno
unfolding bunpin
unpinned_blockno i j s = ground arith

-- What `brelse` makes of a buffer.
abbrev release_buf : Buf → Buf
release_buf y = record y { holder = none; refcnt = refcnt_dec y.refcnt }

module _ (dev : ℕ) (area : ℕ → Bool) (t f k : ℕ) (s s' : Bcache) (h : IsIdle area (suc k) s)
    (w : InstalledBlock dev t f s s') (at : area t ≡ true) (af : area f ≡ false) where
  idle_apart : (w.dbuf == w.lbuf) ≡ false
  idle_apart = elim (Bool-cases (w.dbuf == w.lbuf)) [
    | inr q ↦ q
    | inl q ↦
        let e = ==→eq w.dbuf w.lbuf q in
        let z : none ≡ some s.pid =
          sym w.read_home.got.free ∙ ap (λ y. (w.s1.bufs y).holder) e ∙ w.read_log.holder_is in
        absurd cc
  ]

  -- Before the two calls of `brelse`, a buffer other than that of the home block is as after `bread`.
  idle_before : (j : ℕ) → (w.dbuf == j) ≡ false → (bunpin w.dbuf w.s3).bufs j ≡ w.s1.bufs j
  idle_before j q =
      unpinned_other w.dbuf j w.s3 q
      ∙ w.written.bufs j
      ∙ copied_other w.dbuf w.lbuf j w.s2 q
      ∙ w.read_home.others j q

  idle_log :
      s'.bufs w.lbuf
      ≡ record (w.s1.bufs w.lbuf) { holder = none; refcnt = refcnt_dec (w.s1.bufs w.lbuf).refcnt }
  idle_log =
      w.release_home.others w.lbuf idle_apart
      ∙ w.release_log.self
      ∙ ap release_buf (idle_before w.lbuf idle_apart)

  idle_other : (j : ℕ) → (w.dbuf == j) ≡ false → (w.lbuf == j) ≡ false → s'.bufs j ≡ s.bufs j
  idle_other j qd ql =
      w.release_home.others j qd
      ∙ w.release_log.others j ql
      ∙ idle_before j qd
      ∙ w.read_log.others j ql

  idle_home_blockno : (s'.bufs w.dbuf).blockno ≡ f
  idle_home_blockno =
      ap (λ y. y.blockno) w.release_home.self
      ∙ ap (λ y. y.blockno) (w.release_log.others w.dbuf (==-sym w.dbuf w.lbuf idle_apart))
      ∙ unpinned_blockno w.dbuf w.dbuf w.s3
      ∙ ap (λ y. y.blockno) (w.written.bufs w.dbuf)
      ∙ copied_blockno w.dbuf w.lbuf w.dbuf w.s2
      ∙ w.read_home.blockno_is
    where
      ==-sym : (a b : ℕ) → (a == b) ≡ false → (b == a) ≡ false
      ==-sym a b q = ground arith

  idle_order : (bunpin w.dbuf w.s3).order ≡ s.order
  idle_order =
      order_bunpin w.dbuf w.s3
      ∙ w.written.order
      ∙ order_copied w.dbuf w.lbuf w.s2
      ∙ w.read_home.order
      ∙ w.read_log.order

  idle_listed_log : has (bunpin w.dbuf w.s3).order w.lbuf ≡ true
  idle_listed_log = ap (λ o. has o w.lbuf) idle_order ∙ w.read_log.got.listed

  idle_listed_home : has w.s4.order w.dbuf ≡ true
  idle_listed_home =
      w.release_log.listed w.dbuf idle_listed_log
      ∙ ap (λ o. has o w.dbuf) (idle_order ∙ sym w.read_log.order)
      ∙ w.read_home.got.listed

  idle_listed : (j : ℕ) → has s'.order j ≡ has s.order j
  idle_listed j =
      w.release_home.listed j idle_listed_home
      ∙ w.release_log.listed j idle_listed_log
      ∙ ap (λ o. has o j) idle_order

  -- The round keeps the cache idle, with one buffer less to spare.
  pub install-IsIdle : IsIdle area k s'
  install-IsIdle =
      let count = read_count dev area (suc k) t w.lbuf s w.s1 h at w.read_log in
      record {
        unlocked = λ j. elim (Bool-cases (w.dbuf == j)) [
          | inl q ↦
              subst (λ x. (s'.bufs x).holder ≡ none) (==→eq w.dbuf j q)
                (ap (λ y. y.holder) w.release_home.self)
          | inr q ↦ elim (Bool-cases (w.lbuf == j)) [
            | inl p ↦
                subst (λ x. (s'.bufs x).holder ≡ none) (==→eq w.lbuf j p)
                  (ap (λ y. y.holder) idle_log)
            | inr p ↦ ap (λ y. y.holder) (idle_other j q p) ∙ h.unlocked j
          ]
        ];
        room = λ j m a. elim (Bool-cases (w.dbuf == j)) [
          | inl q ↦
              let e : area f ≡ true =
                ap area (sym idle_home_blockno)
                ∙ ap (λ x. area (s'.bufs x).blockno) (==→eq w.dbuf j q)
                ∙ a in
              absurd (let z : true ≡ false = sym e ∙ af in cc)
          | inr q ↦ elim (Bool-cases (w.lbuf == j)) [
            | inl p ↦
                subst (λ x. (s'.bufs x).refcnt + 1 < 2 ^ 32) (==→eq w.lbuf j p)
                  (omega (arith, ap (λ y. y.refcnt) idle_log, count.1))
            | inr p ↦
                let o = idle_other j q p in
                omega (
                  arith,
                  ap (λ y. y.refcnt) o,
                  h.room j (sym (idle_listed j) ∙ m) (ap (λ y. area y.blockno) (sym o) ∙ a),
                )
          ]
        ];
        spare = HasSpare-but s s' w.dbuf k h.spare (λ j nd m z. (
          idle_listed j ∙ m,
          elim (Bool-cases (w.lbuf == j)) [
            | inl p ↦
                let e = ==→eq w.lbuf j p in
                subst (λ x. (s'.bufs x).refcnt ≡ 0) e
                  (ap (λ y. y.refcnt) idle_log ∙ count.2 (ap (λ x. (s.bufs x).refcnt) e ∙ z))
            | inr p ↦ ap (λ y. y.refcnt) (idle_other j (ne→== w.dbuf j nd) p) ∙ z
          ],
        ));
      }
