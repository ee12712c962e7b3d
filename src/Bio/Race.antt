-- ===== src/Bio/Race.antt =====
-- Another process at `bget` while `bwrite` sleeps in the transfer to the mirror. The buffer is
-- locked, but it names the mirror's block then, so that the scan of `bget` passes it by.
use mp.Prelude.{ℕ, ◌<◌, ◌≡◌, ◌≢◌, true, false, ok, ◌==◌, arith, ◌∙◌, ==→ne, ==_refl}
use mp.Param.{logical_disk_size}
use mp.Bio.{
  Bcache, set_blockno, write_copy, bwrite, bget, holding_buf, mirror_of, disk_fails, use_fallback,
}
use mp.Bio.Scan.{has, find_cached-some}
use mp.Bio.Invariant.{IsWellFormed, Got, bget-Got}
use mp.Prelude.{inl, inr}

-- The state in which `bwrite` waits for the transfer to the mirror, and what it does after it.
abbrev pub in_mirror_transfer : ℕ → Bcache → Bcache
in_mirror_transfer i s =
    let n = (s.bufs i).blockno in
    write_copy i (mirror_of n) false (write_copy i n (use_fallback s n) s)

abbrev pub end_write : ℕ → ℕ → Bcache → Bcache
end_write i n s = set_blockno i n s

-- If disk 1 works, the two make up `bwrite`.
bwrite_halves :
    (i : ℕ) (s : Bcache)
    → holding_buf i s ≡ true
    → disk_fails s.force_disk_fail_id 1 ≡ false
    → bwrite i s ≡ ok (end_write i (s.bufs i).blockno (in_mirror_transfer i s))
unfolding bwrite
bwrite_halves i s held works = ground arith

abbrev pub as_process : ℕ → Bcache → Bcache
as_process p s = record s { pid = p }

module _ (i : ℕ) (s : Bcache) (small : (s.bufs i).blockno < logical_disk_size) where
  transfer_self : ((in_mirror_transfer i s).bufs i).blockno ≡ mirror_of (s.bufs i).blockno
  unfolding write_copy
  transfer_self = ground arith

  transfer_refcnt : (j : ℕ) → ((in_mirror_transfer i s).bufs j).refcnt ≡ (s.bufs j).refcnt
  unfolding write_copy
  transfer_refcnt j = ground arith

  transfer_dev : (j : ℕ) → ((in_mirror_transfer i s).bufs j).dev ≡ (s.bufs j).dev
  unfolding write_copy
  transfer_dev j = ground arith

  transfer_ne :
      (j : ℕ) → (i == j) ≡ false → ((in_mirror_transfer i s).bufs j).blockno ≡ (s.bufs j).blockno
  unfolding write_copy
  transfer_ne j h = ground arith

  transfer_order : (in_mirror_transfer i s).order ≡ s.order
  unfolding write_copy
  transfer_order = ground arith

  -- While the transfer runs, no buffer has the name of the block, if the cache was well formed.
  transfer_hides :
      (k : ℕ)
      → IsWellFormed s
      → (s.bufs i).dev ≢ 0
      → has s.order i ≡ true
      → has s.order k ≡ true
      → ((in_mirror_transfer i s).bufs k).dev ≡ (s.bufs i).dev
      → ((in_mirror_transfer i s).bufs k).blockno ≡ (s.bufs i).blockno
      → ⊥
  transfer_hides k w nz mi mk ed eb =
      ground (arith, transfer_self, transfer_ne k, transfer_dev k, w.unique i k)

  module _ (p j : ℕ) (t : Bcache)
      (h : bget (s.bufs i).dev (s.bufs i).blockno (as_process p (in_mirror_transfer i s))
        ≡ ok (j, t)) where
    race-Got : Got (s.bufs i).dev (s.bufs i).blockno (as_process p (in_mirror_transfer i s)) j t
    race-Got = bget-Got _ _ _ j t h

    race_listed : has s.order j ≡ true
    race_listed = rw (← transfer_order) race-Got.listed

    race_other :
        IsWellFormed s
        → (s.bufs i).dev ≢ 0
        → has s.order i ≡ true
        → (s.bufs i).refcnt ≢ 0
        → (i == j) ≡ false
    race_other w nz mi busy = elim race-Got.found [
      | inl f ↦
          let (m, ed, eb) =
            find_cached-some (s.bufs i).dev (s.bufs i).blockno (in_mirror_transfer i s).bufs
              (in_mirror_transfer i s).order j f.0 in
          absurd (transfer_hides j w nz mi race_listed ed eb)
      | inr f ↦ ground (arith, transfer_refcnt j)
    ]

    transfer_both : (i == j) ≡ false → (t.bufs i).dev ≡ (s.bufs i).dev
    transfer_both ne = ground (arith, race-Got.others i, transfer_dev i, ==_refl i)

-- Two processes at one block: while `bwrite` waits for the mirror, a `bget` of the block by another
-- process that returns gives it a second buffer, and when `bwrite` has finished the cache holds two
-- buffers of one block: it is not well formed any more.
pub bwrite_race :
    (i : ℕ) (s : Bcache) (p j : ℕ) (t : Bcache)
    → IsWellFormed s
    → (s.bufs i).blockno < logical_disk_size
    → (s.bufs i).dev ≢ 0
    → has s.order i ≡ true
    → (s.bufs i).refcnt ≢ 0
    → bget (s.bufs i).dev (s.bufs i).blockno (as_process p (in_mirror_transfer i s)) ≡ ok (j, t)
    → (i ≢ j) × (¬ IsWellFormed (end_write i (s.bufs i).blockno t))
bwrite_race i s p j t w small nz mi busy h =
    let g : Got (s.bufs i).dev (s.bufs i).blockno (as_process p (in_mirror_transfer i s)) j t =
      race-Got i s small p j t h in
    let ne : (i == j) ≡ false = race_other i s small p j t h w nz mi busy in
    let order : t.order ≡ s.order = g.order ∙ transfer_order i s small in
    let mj : has s.order j ≡ true = race_listed i s small p j t h in
    let kept : (t.bufs i).dev ≡ (s.bufs i).dev = transfer_both i s small p j t h ne in
    (==→ne i j ne, λ v. ground (arith, v.unique i j, kept, g.dev_is, g.blockno_is))
