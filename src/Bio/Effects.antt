-- ===== src/Bio/Effects.antt =====
-- What the operations of the buffer cache change, buffer by buffer.
use mp.Prelude.{
  ℕ, ◌≡◌, ◌∙◌, true, false, not, ◌||◌, some, ok, ◌>>=◌, >>=-eq-ok, inl, inr, ◌==◌, if◌then◌else◌,
  arith, Bool-cases,
}
use mp.Bio.{Bcache, bget, fill, bread, mirror_of, use_fallback}
use mp.Bio.Invariant.{Got, bget-Got}

-- Which copy of a block `bread` reads.
abbrev pub read_copy : Bcache → ℕ → ℕ
read_copy s blockno = if use_fallback s blockno then mirror_of blockno else blockno

pub fill_self :
    (i pbn : ℕ) (s : Bcache)
    → (fill i pbn s).bufs i ≡ record (s.bufs i) { valid = true; bytes = s.platter pbn }
unfolding fill
fill_self i pbn s = ground arith

pub fill_ne : (i pbn j : ℕ) (s : Bcache) → (i == j) ≡ false → (fill i pbn s).bufs j ≡ s.bufs j
unfolding fill
fill_ne i pbn j s h = ground arith

-- `bread` is `bget`, and the transfer from the copy that it reads if the buffer is not valid or the
-- fallback is in use.
pub record WasRead (dev blockno : ℕ) (s : Bcache) (i : ℕ) (s' : Bcache) : Type 0 where
  pub mid : Bcache
  pub got : Got dev blockno s i mid
  pub runs : bget dev blockno s ≡ ok (i, mid)
  pub order : s'.order ≡ s.order
  pub platter : s'.platter ≡ s.platter
  pub pid_is : s'.pid ≡ s.pid
  pub read_hook : s'.force_read_error_pbn ≡ s.force_read_error_pbn
  pub disk_hook : s'.force_disk_fail_id ≡ s.force_disk_fail_id
  pub others : (j : ℕ) → (i == j) ≡ false → s'.bufs j ≡ s.bufs j
  pub dev_is : (s'.bufs i).dev ≡ dev
  pub blockno_is : (s'.bufs i).blockno ≡ blockno
  pub holder_is : (s'.bufs i).holder ≡ some s.pid
  pub refcnt_is : (s'.bufs i).refcnt ≡ (mid.bufs i).refcnt
  pub valid_is : (s'.bufs i).valid ≡ true
  pub bytes_is : (s'.bufs i).bytes ≡ (
      if not (mid.bufs i).valid || use_fallback s blockno
      then s.platter (read_copy s blockno)
      else (mid.bufs i).bytes)

-- The state after `bread`, given the one after its `bget`.
abbrev after_read : ℕ → ℕ → Bcache → Bcache
after_read blockno i t =
    if not (t.bufs i).valid || use_fallback t blockno then fill i (read_copy t blockno) t else t

bread_at :
    (dev blockno : ℕ) (s : Bcache) (i : ℕ) (s' : Bcache) (m : ℕ) (t : Bcache)
    → bget dev blockno s ≡ ok (m, t)
    → bread dev blockno s ≡ ok (i, s')
    → (bget dev blockno s ≡ ok (i, t)) × (s' ≡ after_read blockno i t)
unfolding bread ◌>>=◌
bread_at dev blockno s i s' m t e h = ground arith

bread_step :
    (dev blockno : ℕ) (s : Bcache) (i : ℕ) (s' : Bcache)
    → bread dev blockno s ≡ ok (i, s')
    → (t : Bcache) × (bget dev blockno s ≡ ok (i, t)) × (s' ≡ after_read blockno i t)
unfolding bread
bread_step dev blockno s i s' h =
    let ((m, t), e, p) = >>=-eq-ok (bget dev blockno s) _ h in
    let (f, q) = bread_at dev blockno s i s' m t e h in (t, f, q)

module _ (blockno i : ℕ) (t : Bcache) where
  after_read_filled :
      (not (t.bufs i).valid || use_fallback t blockno) ≡ true
      → after_read blockno i t ≡ fill i (read_copy t blockno) t
  after_read_filled h = rw h

  after_read_kept :
      (not (t.bufs i).valid || use_fallback t blockno) ≡ false → after_read blockno i t ≡ t
  after_read_kept h = rw h

fill_rest :
    (i pbn : ℕ) (s : Bcache)
    → ((fill i pbn s).order ≡ s.order)
      × ((fill i pbn s).platter ≡ s.platter)
      × ((fill i pbn s).pid ≡ s.pid)
      × ((fill i pbn s).force_read_error_pbn ≡ s.force_read_error_pbn)
      × ((fill i pbn s).force_disk_fail_id ≡ s.force_disk_fail_id)
unfolding fill
fill_rest i pbn s = ground arith

module _ (dev blockno : ℕ) (s : Bcache) (i : ℕ) (s' t : Bcache) (e : bget dev blockno s ≡ ok (i, t))
    (q : s' ≡ after_read blockno i t) (g : Got dev blockno s i t) where
  read_filled : (not (t.bufs i).valid || use_fallback t blockno) ≡ true → WasRead dev blockno s i s'
  read_filled h =
      let p : s' ≡ fill i (read_copy t blockno) t = q ∙ after_read_filled blockno i t h in
      let r = fill_rest i (read_copy t blockno) t in
      let b = fill_self i (read_copy t blockno) t in
      record {
        mid = t;
        got = g;
        runs = e;
        order = ground arith;
        platter = ground arith;
        pid_is = ground arith;
        read_hook = ground arith;
        disk_hook = ground arith;
        others = λ j ne. ground (arith, fill_ne i (read_copy t blockno) j t, g.others j);
        dev_is = ground arith;
        blockno_is = ground arith;
        holder_is = ground arith;
        refcnt_is = ground arith;
        valid_is = ground arith;
        bytes_is = ground arith;
      }

  read_kept : (not (t.bufs i).valid || use_fallback t blockno) ≡ false → WasRead dev blockno s i s'
  read_kept h =
      let p : s' ≡ t = q ∙ after_read_kept blockno i t h in
      record {
        mid = t;
        got = g;
        runs = e;
        order = ground arith;
        platter = ground arith;
        pid_is = ground arith;
        read_hook = ground arith;
        disk_hook = ground arith;
        others = λ j ne. ground (arith, g.others j);
        dev_is = ground arith;
        blockno_is = ground arith;
        holder_is = ground arith;
        refcnt_is = ground arith;
        valid_is = ground arith;
        bytes_is = ground arith;
      }

pub bread-WasRead :
    (dev blockno : ℕ) (s : Bcache) (i : ℕ) (s' : Bcache)
    → bread dev blockno s ≡ ok (i, s')
    → WasRead dev blockno s i s'
bread-WasRead dev blockno s i s' h =
    let (t, e, q) = bread_step dev blockno s i s' h in
    let g : Got dev blockno s i t = bget-Got dev blockno s i t e in
    elim (Bool-cases (not (t.bufs i).valid || use_fallback t blockno)) [
      | inl filled ↦ read_filled dev blockno s i s' t e q g filled
      | inr kept ↦ read_kept dev blockno s i s' t e q g kept
    ]
