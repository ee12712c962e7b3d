-- ===== src/Log/Pins.antt =====
-- The buffers that `log_write` pinned, under the calls of a round of kernel/log.c.
use mp.Prelude.{
  ℕ, ◌^◌, ◌<◌, ◌≡◌, refl, sym, ap, ◌∙◌, subst, ◌≢◌, inl, inr, Bool, true, false, arith, ◌==◌, ==→eq,
  ==→ne, ==_refl, Bool-cases,
}
use mp.Prelude.Update.{update_ne}
use mp.Param.{logical_disk_size}
use mp.Bio.{Block, Bcache, matches, refcnt_inc, refcnt_dec, bunpin}
use mp.Bio.Scan.{has, find_cached-some, find_cached-none}
use mp.Bio.Effects.{WasRead}
use mp.Bio.Raid.{WasWritten}
use mp.Log.Blocks.{WasReleased}
use mp.Log.Good.{IsGood, no_fallback}
use mp.Log.Store.{with_bytes, with_bytes_ne}

-- The buffer `i` has the block `b` with the contents `c`, and `r` references.
pub record IsPinned (dev b : ℕ) (c : Block) (i r : ℕ) (s : Bcache) : Type 0 where
  pub listed : has s.order i ≡ true
  pub dev_is : (s.bufs i).dev ≡ dev
  pub blockno_is : (s.bufs i).blockno ≡ b
  pub valid_is : (s.bufs i).valid ≡ true
  pub bytes_is : (s.bufs i).bytes ≡ c
  pub refcnt_is : (s.bufs i).refcnt ≡ r

-- A step that leaves the buffer.
IsPinned-same :
    (dev b : ℕ) (c : Block) (i r : ℕ) (s s' : Bcache)
    → IsPinned dev b c i r s
    → s'.bufs i ≡ s.bufs i
    → has s'.order i ≡ has s.order i
    → IsPinned dev b c i r s'
IsPinned-same dev b c i r s s' p e l = record {
  listed = l ∙ p.listed;
  dev_is = ap (λ x. x.dev) e ∙ p.dev_is;
  blockno_is = ap (λ x. x.blockno) e ∙ p.blockno_is;
  valid_is = ap (λ x. x.valid) e ∙ p.valid_is;
  bytes_is = ap (λ x. x.bytes) e ∙ p.bytes_is;
  refcnt_is = ap (λ x. x.refcnt) e ∙ p.refcnt_is;
}

-- A `bread` of another block takes another buffer.
read_apart :
    (dev b b' : ℕ) (c : Block) (i r x : ℕ) (s s' : Bcache)
    → IsPinned dev b c i r s
    → r ≢ 0
    → b' ≢ b
    → WasRead dev b' s x s'
    → (x == i) ≡ false
read_apart dev b b' c i r x s s' p nr ne w = elim (Bool-cases (x == i)) [
  | inr q ↦ q
  | inl q ↦
      let e = ==→eq x i q in
      elim w.got.found [
        | inl (hit, _, _, _) ↦ absurd (
            ne (
              sym (find_cached-some dev b' s.bufs s.order x hit).2
              ∙ ap (λ y. (s.bufs y).blockno) e
              ∙ p.blockno_is))
        | inr (_, z, _, _) ↦ absurd (nr (sym p.refcnt_is ∙ ap (λ y. (s.bufs y).refcnt) (sym e) ∙ z))
      ]
]

pub IsPinned-read_other :
    (dev b b' : ℕ) (c : Block) (i r x : ℕ) (s s' : Bcache)
    → IsPinned dev b c i r s
    → r ≢ 0
    → b' ≢ b
    → WasRead dev b' s x s'
    → IsPinned dev b c i r s' × ((x == i) ≡ false)
IsPinned-read_other dev b b' c i r x s s' p nr ne w =
    let q = read_apart dev b b' c i r x s s' p nr ne w in
    (IsPinned-same dev b c i r s s' p (w.others i q) (ap (λ o. has o i) w.order), q)

-- A `bread` of the block gives the buffer, with what it holds.
pub IsPinned-read_self :
    (dev b : ℕ) (c : Block) (area : ℕ → Bool) (i r x : ℕ) (s s' : Bcache)
    → IsGood dev area s
    → b < logical_disk_size
    → IsPinned dev b c i r s
    → WasRead dev b s x s'
    → (x ≡ i) × IsPinned dev b c i (refcnt_inc r) s'
IsPinned-read_self dev b c area i r x s s' h lt p w = elim w.got.found [
  | inl (hit, cnt, val, byt) ↦
      let (mx, dx, nx) = find_cached-some dev b s.bufs s.order x hit in
      let e : x ≡ i = h.unique x i mx p.listed dx p.dev_is (nx ∙ sym p.blockno_is) in
      let f = no_fallback dev area s b h lt in
      (
        e,
        subst (λ y. IsPinned dev b c y (refcnt_inc r) s') e
            (record {
              listed = ap (λ o. has o x) w.order ∙ mx;
              dev_is = w.dev_is;
              blockno_is = w.blockno_is;
              valid_is = w.valid_is;
              bytes_is =
                  w.bytes_is
                  ∙ rw (val ∙ ap (λ y. (s.bufs y).valid) e ∙ p.valid_is, f)
                      (byt ∙ ap (λ y. (s.bufs y).bytes) e ∙ p.bytes_is);
              refcnt_is =
                  w.refcnt_is
                  ∙ cnt
                  ∙ ap (λ y. refcnt_inc (s.bufs y).refcnt) e
                  ∙ ap refcnt_inc p.refcnt_is;
            }),
      )
  | inr (miss, _, _, _) ↦
      let m = find_cached-none dev b s.bufs s.order i miss p.listed in
      let t : matches dev b (s.bufs i) ≡ true =
        rw (p.dev_is, p.blockno_is, ==_refl dev) (==_refl b) in
      absurd (let q : true ≡ false = sym t ∙ m in cc)
]

pub IsPinned-store :
    (dev b : ℕ) (c c' : Block) (i r x : ℕ) (s s' : Bcache)
    → IsPinned dev b c i r s
    → (x == i) ≡ false
    → WasWritten x (with_bytes x c' s) s'
    → IsPinned dev b c i r s'
IsPinned-store dev b c c' i r x s s' p ne w =
    IsPinned-same dev b c i r s s' p (w.bufs i ∙ with_bytes_ne x c' s i ne)
      (ap (λ o. has o i) w.order)

pub IsPinned-release_other :
    (dev b : ℕ) (c : Block) (i r x : ℕ) (s s' : Bcache)
    → IsPinned dev b c i r s
    → (x == i) ≡ false
    → has s.order x ≡ true
    → WasReleased x s s'
    → IsPinned dev b c i r s'
IsPinned-release_other dev b c i r x s s' p ne m w =
    IsPinned-same dev b c i r s s' p (w.others i ne) (w.listed i m)

pub IsPinned-release_self :
    (dev b : ℕ) (c : Block) (i r : ℕ) (s s' : Bcache)
    → IsPinned dev b c i r s
    → WasReleased i s s'
    → IsPinned dev b c i (refcnt_dec r) s'
IsPinned-release_self dev b c i r s s' p w = record {
  listed = w.listed i p.listed ∙ p.listed;
  dev_is = ap (λ x. x.dev) w.self ∙ p.dev_is;
  blockno_is = ap (λ x. x.blockno) w.self ∙ p.blockno_is;
  valid_is = ap (λ x. x.valid) w.self ∙ p.valid_is;
  bytes_is = ap (λ x. x.bytes) w.self ∙ p.bytes_is;
  refcnt_is = ap (λ x. x.refcnt) w.self ∙ ap refcnt_dec p.refcnt_is;
}

pub IsPinned-bunpin_other :
    (dev b : ℕ) (c : Block) (i r x : ℕ) (s : Bcache)
    → IsPinned dev b c i r s
    → (x == i) ≡ false
    → IsPinned dev b c i r (bunpin x s)
unfolding bunpin
IsPinned-bunpin_other dev b c i r x s p ne =
    IsPinned-same dev b c i r s (bunpin x s) p
      (update_ne s.bufs x i (record (s.bufs x) { refcnt = refcnt_dec (s.bufs x).refcnt })
        (==→ne x i ne))
      refl

pub refcnt_dec-inc : (r : ℕ) → r < 2 ^ 32 → refcnt_dec (refcnt_inc r) ≡ r
refcnt_dec-inc r h = omega arith
