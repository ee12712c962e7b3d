-- ===== src/Log/Rounds.antt =====
-- The rounds of `write_log` and `install_trans` of kernel/log.c, on the disk and the pinned buffers.
use mp.Prelude.{
  ℕ, ◌^◌, ◌<◌, ◌≡◌, refl, sym, ap, ap₂, ◌∙◌, subst, ◌≢◌, inl, inr, Bool, true, false, none, some,
  arith, ◌==◌, ==→eq, ==→ne, Bool-cases,
}
use mp.Param.{logical_disk_size}
use mp.Bio.{Block, Bcache, refcnt_inc, refcnt_dec, bunpin}
use mp.Bio.Scan.{has, find_cached-some}
use mp.Bio.Effects.{WasRead}
use mp.Bio.Raid.{WasWritten}
use mp.Log.{copy_data}
use mp.Log.Blocks.{WasReleased, WroteBlock, InstalledBlock}
use mp.Log.Good.{
  IsGood, read_area, SameContents-IsGood, released-SameContents, bunpin-SameContents, read-IsGood,
}
use mp.Log.Store.{with_bytes, disk_with, store-IsGood}
use mp.Log.Pins.{
  IsPinned, IsPinned-read_other, IsPinned-read_self, IsPinned-store, IsPinned-release_other,
  IsPinned-release_self, refcnt_dec-inc,
}

-- The blocks of the log lie on the first half of the disk.
abbrev pub IsSmall : (ℕ → Bool) → Type 0
IsSmall area = (n : ℕ) → area n ≡ true → n < logical_disk_size

-- What a round that writes the contents `c` to the block `b` leaves.
pub record RoundLeaves (dev : ℕ) (area : ℕ → Bool) (s : Bcache) (b : ℕ) (c : Block) (s' : Bcache)
    : Type 0 where
  pub good : IsGood dev area s'
  pub disk : (n : ℕ) → n < logical_disk_size → s'.platter n ≡ disk_with s.platter b c n

copied : (dst src : ℕ) (s : Bcache) → copy_data dst src s ≡ with_bytes dst (s.bufs src).bytes s
unfolding copy_data
copied dst src s = refl

pub order_copied : (dst src : ℕ) (s : Bcache) → (copy_data dst src s).order ≡ s.order
unfolding copy_data
order_copied dst src s = refl

module _ (dev : ℕ) (area : ℕ → Bool) (t f : ℕ) (s s' : Bcache) (h : IsGood dev area s)
    (w : WroteBlock dev t f s s') (small : IsSmall area) (tl : t < logical_disk_size)
    (fl : f < logical_disk_size) where
  write_good1 : IsGood dev area w.s1
  write_good1 = read-IsGood dev area s w.s1 t w.to h tl w.read_to

  write_good2 : IsGood dev area w.s2
  write_good2 = read-IsGood dev area w.s1 w.s2 f w.from write_good1 fl w.read_from

  -- The buffer of the log block, after both reads.
  write_apart : t ≢ f → (w.from == w.to) ≡ false
  write_apart ne = elim (Bool-cases (w.from == w.to)) [
    | inr q ↦ q
    | inl q ↦
        let e = ==→eq w.from w.to q in
        absurd (elim w.read_from.got.found [
          | inl (hit, _, _, _) ↦ ne (
              sym w.read_to.blockno_is
              ∙ ap (λ y. (w.s1.bufs y).blockno) (sym e)
              ∙ (find_cached-some dev f w.s1.bufs w.s1.order w.from hit).2)
          | inr (_, _, _, _) ↦
              let z : none ≡ some s.pid =
                sym w.read_from.got.free ∙ ap (λ y. (w.s1.bufs y).holder) e ∙ w.read_to.holder_is in
              cc
        ])
  ]

  write_to_listed : has w.s2.order w.to ≡ true
  write_to_listed =
      ap (λ o. has o w.to) (w.read_from.order ∙ w.read_to.order) ∙ w.read_to.got.listed

  write_from_listed : has w.s3.order w.from ≡ true
  write_from_listed =
      ap (λ o. has o w.from) (w.written.order ∙ order_copied w.to w.from w.s2 ∙ w.read_from.order)
      ∙ w.read_from.got.listed

  write_to_listed4 : has w.s4.order w.to ≡ true
  write_to_listed4 =
      w.release_from.listed w.to write_from_listed
      ∙ ap (λ o. has o w.to) (w.written.order ∙ order_copied w.to w.from w.s2)
      ∙ write_to_listed

  write_stored : WasWritten w.to (with_bytes w.to (w.s2.bufs w.from).bytes w.s2) w.s3
  write_stored = subst (λ u. WasWritten w.to u w.s3) (copied w.to w.from w.s2) w.written

  pub write-RoundLeaves :
      (c : Block) (i r : ℕ) → t ≢ f → r ≢ 0 → IsPinned dev f c i r s → RoundLeaves dev area s t c s'
  write-RoundLeaves c i r ne nr p =
      let (p1, apart) = IsPinned-read_other dev f t c i r w.to s w.s1 p nr ne w.read_to in
      let (e, p2) =
        IsPinned-read_self dev f c area i r w.from w.s1 w.s2 write_good1 fl p1 w.read_from in
      let byt : (w.s2.bufs w.from).bytes ≡ c = ap (λ y. (w.s2.bufs y).bytes) e ∙ p2.bytes_is in
      let away = write_apart ne in
      let old = w.read_from.others w.to away in
      let (g3, d) =
        store-IsGood dev area w.to t (w.s2.bufs w.from).bytes w.s2 w.s3 write_good2 small
          write_to_listed (ap (λ y. y.dev) old ∙ w.read_to.dev_is)
          (ap (λ y. y.blockno) old ∙ w.read_to.blockno_is) tl write_stored in
      let c4 = released-SameContents w.from w.s3 w.s4 write_from_listed w.release_from in
      let c5 = released-SameContents w.to w.s4 s' (write_to_listed4) w.release_to in
      record {
        good =
            SameContents-IsGood dev area w.s4 s' c5 (SameContents-IsGood dev area w.s3 w.s4 c4 g3);
        disk = λ n ln.
            ap (λ p. p n) (c5.platter ∙ c4.platter)
            ∙ d n ln
            ∙ ap₂ (λ pl x. disk_with pl t x n) (w.read_from.platter ∙ w.read_to.platter) byt;
      }

  -- The round leaves every pinned buffer as it was, that of its own block too.
  pub write-pins :
      (b : ℕ) (c : Block) (i r : ℕ)
      → t ≢ b
      → t ≢ f
      → r ≢ 0
      → r < 2 ^ 32
      → IsPinned dev b c i r s
      → IsPinned dev b c i r s'
  write-pins b c i r ne nf nr small_r p =
      let (p1, apart) = IsPinned-read_other dev b t c i r w.to s w.s1 p nr ne w.read_to in
      elim (Bool-cases (f == b)) [
        | inl q ↦
            let e : f ≡ b = ==→eq f b q in
            let rd : WasRead dev b w.s1 w.from w.s2 =
              subst (λ y. WasRead dev y w.s1 w.from w.s2) e w.read_from in
            let (ef, p2) =
              IsPinned-read_self dev b c area i r w.from w.s1 w.s2 write_good1 (omega (arith, e)) p1
                rd in
            let p3 =
              IsPinned-store dev b c (w.s2.bufs w.from).bytes i (refcnt_inc r) w.to w.s2 w.s3 p2
                apart write_stored in
            let p4 =
              IsPinned-release_self dev b c i (refcnt_inc r) w.s3 w.s4 p3
                (subst (λ y. WasReleased y w.s3 w.s4) ef w.release_from) in
            let p5 =
              IsPinned-release_other dev b c i (refcnt_dec (refcnt_inc r)) w.to w.s4 s' p4 apart
                write_to_listed4 w.release_to in
            subst (λ y. IsPinned dev b c i y s') (refcnt_dec-inc r small_r) p5
        | inr q ↦
            let (p2, apart2) =
              IsPinned-read_other dev b f c i r w.from w.s1 w.s2 p1 nr (==→ne f b q) w.read_from in
            let p3 =
              IsPinned-store dev b c (w.s2.bufs w.from).bytes i r w.to w.s2 w.s3 p2 apart
                write_stored in
            let p4 =
              IsPinned-release_other dev b c i r w.from w.s3 w.s4 p3 apart2 write_from_listed
                w.release_from in
            IsPinned-release_other dev b c i r w.to w.s4 s' p4 apart write_to_listed4 w.release_to
      ]

pub order_bunpin : (x : ℕ) (s : Bcache) → (bunpin x s).order ≡ s.order
unfolding bunpin
order_bunpin x s = refl

-- A round of `install_trans`, from the log block `t` to the home block `f`.
module _ (dev : ℕ) (area : ℕ → Bool) (t f : ℕ) (s s' : Bcache) (h : IsGood dev area s)
    (w : InstalledBlock dev t f s s') (small : IsSmall area) (tl : t < logical_disk_size)
    (fl : f < logical_disk_size) (ne : t ≢ f) where
  install_good1 : IsGood dev area w.s1
  install_good1 = read-IsGood dev area s w.s1 t w.lbuf h tl w.read_log

  install_good2 : IsGood dev area w.s2
  install_good2 = read-IsGood dev area w.s1 w.s2 f w.dbuf install_good1 fl w.read_home

  install_apart : (w.dbuf == w.lbuf) ≡ false
  install_apart = elim (Bool-cases (w.dbuf == w.lbuf)) [
    | inr q ↦ q
    | inl q ↦
        let e = ==→eq w.dbuf w.lbuf q in
        let z : none ≡ some s.pid =
          sym w.read_home.got.free ∙ ap (λ y. (w.s1.bufs y).holder) e ∙ w.read_log.holder_is in
        absurd cc
  ]

  install_listed_log : has (bunpin w.dbuf w.s3).order w.lbuf ≡ true
  install_listed_log =
      ap (λ o. has o w.lbuf)
        (order_bunpin w.dbuf w.s3
          ∙ w.written.order
          ∙ order_copied w.dbuf w.lbuf w.s2
          ∙ w.read_home.order
          ∙ w.read_log.order)
      ∙ w.read_log.got.listed

  install_listed_home2 : has w.s2.order w.dbuf ≡ true
  install_listed_home2 = ap (λ o. has o w.dbuf) w.read_home.order ∙ w.read_home.got.listed

  install_listed_home : has w.s4.order w.dbuf ≡ true
  install_listed_home =
      w.release_log.listed w.dbuf install_listed_log
      ∙ ap (λ o. has o w.dbuf)
          (order_bunpin w.dbuf w.s3 ∙ w.written.order ∙ order_copied w.dbuf w.lbuf w.s2)
      ∙ install_listed_home2

  install_stored : WasWritten w.dbuf (with_bytes w.dbuf (w.s2.bufs w.lbuf).bytes w.s2) w.s3
  install_stored = subst (λ u. WasWritten w.dbuf u w.s3) (copied w.dbuf w.lbuf w.s2) w.written

  pub install-RoundLeaves : area t ≡ true → RoundLeaves dev area s f (s.platter t) s'
  install-RoundLeaves at =
      let byt : (w.s2.bufs w.lbuf).bytes ≡ s.platter t =
        ap (λ y. y.bytes) (w.read_home.others w.lbuf install_apart)
        ∙ read_area dev area s w.s1 t w.lbuf h tl at w.read_log in
      let (g3, d) =
        store-IsGood dev area w.dbuf f (w.s2.bufs w.lbuf).bytes w.s2 w.s3 install_good2 small
          install_listed_home2 w.read_home.dev_is w.read_home.blockno_is fl install_stored in
      let cu = bunpin-SameContents w.dbuf w.s3 in
      let c4 =
        released-SameContents w.lbuf (bunpin w.dbuf w.s3) w.s4 install_listed_log w.release_log in
      let c5 = released-SameContents w.dbuf w.s4 s' install_listed_home w.release_home in
      record {
        good = SameContents-IsGood dev area w.s4 s' c5 (
            SameContents-IsGood dev area (bunpin w.dbuf w.s3) w.s4 c4
              (SameContents-IsGood dev area w.s3 (bunpin w.dbuf w.s3) cu g3));
        disk = λ n ln.
            ap (λ p. p n) (c5.platter ∙ c4.platter ∙ cu.platter)
            ∙ d n ln
            ∙ ap₂ (λ pl x. disk_with pl f x n) (w.read_home.platter ∙ w.read_log.platter) byt;
      }
