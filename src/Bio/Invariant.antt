-- ===== src/Bio/Invariant.antt =====
-- What every operation of the buffer cache keeps: a block has at most one buffer, and a buffer that
-- nobody refers to is unlocked and so can be recycled without sleeping.
use mp.Prelude.{
  ℕ, ◌+◌, ◌<◌, ◌^◌, ◌≡◌, ◌≢◌, true, false, none, some, ok, ◌⊎◌, inl, inr, ◌==◌, arith, Option-cases,
  reverse,
}
use mp.Bio.{Bcache, matches, find_cached, find_free, lock_buf, bget, refcnt_inc}
use mp.Bio.Scan.{has, has-reverse, find_cached-some, find_cached-none, find_free-some}

-- Device 0 is the one that an unused buffer names.
pub record IsWellFormed (s : Bcache) : Type 0 where
  pub unique :
      (i j : ℕ)
      → has s.order i ≡ true
      → has s.order j ≡ true
      → (s.bufs i).dev ≢ 0
      → (s.bufs i).dev ≡ (s.bufs j).dev
      → (s.bufs i).blockno ≡ (s.bufs j).blockno
      → i ≡ j
  pub idle : (i : ℕ) → (s.bufs i).refcnt ≡ 0 → (s.bufs i).holder ≡ none

-- One more reference does not wrap a count.
abbrev pub HasRoom : Bcache → Type 0
HasRoom s = (i : ℕ) → (s.bufs i).refcnt + 1 < 2 ^ 32

-- What `bget` changes: the buffer that it returns, which the block either had already or which
-- nobody referred to, and nothing else.
pub record Got (dev blockno : ℕ) (s : Bcache) (i : ℕ) (s' : Bcache) : Type 0 where
  pub listed : has s.order i ≡ true
  pub free : (s.bufs i).holder ≡ none
  pub order : s'.order ≡ s.order
  pub platter : s'.platter ≡ s.platter
  pub pid_is : s'.pid ≡ s.pid
  pub read_hook : s'.force_read_error_pbn ≡ s.force_read_error_pbn
  pub disk_hook : s'.force_disk_fail_id ≡ s.force_disk_fail_id
  pub others : (j : ℕ) → (i == j) ≡ false → s'.bufs j ≡ s.bufs j
  pub dev_is : (s'.bufs i).dev ≡ dev
  pub blockno_is : (s'.bufs i).blockno ≡ blockno
  pub holder_is : (s'.bufs i).holder ≡ some s.pid
  pub found :
      ((find_cached dev blockno s.bufs s.order ≡ some i)
        × ((s'.bufs i).refcnt ≡ refcnt_inc (s.bufs i).refcnt)
        × ((s'.bufs i).valid ≡ (s.bufs i).valid)
        × ((s'.bufs i).bytes ≡ (s.bufs i).bytes))
      ⊎ ((find_cached dev blockno s.bufs s.order ≡ none)
          × ((s.bufs i).refcnt ≡ 0)
          × ((s'.bufs i).refcnt ≡ 1)
          × ((s'.bufs i).valid ≡ false))

module _ (dev blockno : ℕ) (s : Bcache) (i : ℕ) (s' : Bcache)
    (h : bget dev blockno s ≡ ok (i, s')) where
  bget_hit : (k : ℕ) → find_cached dev blockno s.bufs s.order ≡ some k → Got dev blockno s i s'
  unfolding bget lock_buf
  bget_hit k e = ground (arith, find_cached-some dev blockno s.bufs s.order k e)

  bget_miss :
      (k : ℕ)
      → find_cached dev blockno s.bufs s.order ≡ none
      → find_free s.bufs (reverse s.order) ≡ some k
      → Got dev blockno s i s'
  unfolding bget lock_buf
  bget_miss k e f =
      ground (arith, find_free-some s.bufs (reverse s.order) k f, has-reverse s.order k)

  bget_stuck :
      find_cached dev blockno s.bufs s.order ≡ none → find_free s.bufs (reverse s.order) ≡ none → ⊥
  unfolding bget
  bget_stuck e f = ground arith

  pub bget-Got : Got dev blockno s i s'
  bget-Got = elim (Option-cases (find_cached dev blockno s.bufs s.order)) [
    | inr (k, e) ↦ bget_hit k e
    | inl e ↦ elim (Option-cases (find_free s.bufs (reverse s.order))) [
      | inr (k, f) ↦ bget_miss k e f
      | inl f ↦ absurd (bget_stuck e f)
    ]
  ]

module _ {dev blockno : ℕ} {s : Bcache} {i : ℕ} {s' : Bcache} (g : Got dev blockno s i s') where
  -- The block's buffer is the only one with its name.
  Got_only :
      dev ≢ 0
      → IsWellFormed s
      → (j : ℕ) → (i == j) ≡ false
      → has s.order j ≡ true
      → matches dev blockno (s.bufs j) ≡ false
  Got_only nz w j ne m = elim g.found [
    | inl f ↦ ground (arith, w.unique i j, find_cached-some dev blockno s.bufs s.order i f.0)
    | inr f ↦ find_cached-none dev blockno s.bufs s.order j f.0 m
  ]

  Got-unique :
      dev ≢ 0
      → IsWellFormed s
      → (j k : ℕ) → has s'.order j ≡ true
      → has s'.order k ≡ true
      → (s'.bufs j).dev ≢ 0
      → (s'.bufs j).dev ≡ (s'.bufs k).dev
      → (s'.bufs j).blockno ≡ (s'.bufs k).blockno
      → j ≡ k
  Got-unique nz w j k mj mk nj ed eb =
      ground (arith, g.others j, g.others k, w.unique j k, Got_only nz w j, Got_only nz w k)

  Got-idle :
      IsWellFormed s → HasRoom s → (j : ℕ) → (s'.bufs j).refcnt ≡ 0 → (s'.bufs j).holder ≡ none
  Got-idle w r j z = ground (arith, g.others j, w.idle j, r i)

pub bget-IsWellFormed :
    (dev blockno : ℕ) (s : Bcache) (i : ℕ) (s' : Bcache)
    → dev ≢ 0
    → HasRoom s
    → bget dev blockno s ≡ ok (i, s')
    → IsWellFormed s
    → IsWellFormed s'
bget-IsWellFormed dev blockno s i s' nz r h w =
    let g : Got dev blockno s i s' = bget-Got dev blockno s i s' h in
    record { unique = Got-unique g nz w; idle = Got-idle g w r }
