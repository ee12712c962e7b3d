-- ===== src/Inode/Leaks.antt =====
-- References to inodes that kernel/fs.c drops twice, or never.
use mp.Prelude.{
  ℕ, suc, ◌+◌, ◌-◌, ◌<◌, ◌≡◌, ◌≢◌, inl, inr, ap, ◌∙◌, true, false, ◌&&◌, ◌==◌, leb, List, ◌∷◌, ◌++◌,
  length, take, arith, ok, ◌>>=◌,
}
use mp.Prelude.Int.{ℤ, pos, negsuc, incr, decr, eqb}
use mp.Prelude.Update.{update_ne}
use mp.Inode.{Inode, Icache, set_inode, iget, iput, iunlock, iunlockput}
use mp.Inode.Path.{follow_link, follow, maxpath, slash}
use mp.Inode.Cache.{holds, iget_cases}

not_held : (dev inum k : ℕ) (ip : Inode) → ip.ref ≡ negsuc k → holds dev inum ip ≡ false
not_held dev inum k ip e = rw e

not_empty : (k : ℕ) (ip : Inode) → ip.ref ≡ negsuc k → eqb ip.ref (pos 0) ≡ false
not_empty k ip e = rw e

-- A negative count is neither in use nor empty.
iget_lost :
    (dev inum i j k : ℕ) (s s' : Icache)
    → (s.inode i).ref ≡ negsuc k
    → iget dev inum s ≡ ok (j, s')
    → (j ≢ i) × ((s'.inode i).ref ≡ negsuc k)
iget_lost dev inum i j k s s' lost run = elim (iget_cases dev inum s) [
  | inl (m, found, lt, e) ↦
      let ne : m ≢ i = λ q. ground (arith, found, not_held dev inum k (s.inode m) (rw q lost)) in
      let em : m ≡ j = ground arith in
      let es : set_inode m (record (s.inode m) { ref = incr (s.inode m).ref }) s ≡ s' =
        ground arith in
      rw (← em, ← es)
        (
          ne,
          ap (λ x. x.ref)
                (update_ne s.inode m i (record (s.inode m) { ref = incr (s.inode m).ref }) ne)
              ∙ lost,
        )
  | inr (nowhere, inl stops) ↦ cc
  | inr (nowhere, inr (m, free, lt, e)) ↦
      let ne : m ≢ i = λ q. ground (arith, free, not_empty k (s.inode m) (rw q lost)) in
      let em : m ≡ j = ground arith in
      let x : Inode = record (s.inode m) { dev = dev; inum = inum; ref = pos 1; valid = false } in
      let es : set_inode m x s ≡ s' = ground arith in
      rw (← em, ← es) (ne, ap (λ y. y.ref) (update_ne s.inode m i x ne) ∙ lost)
]

-- An inode with a link is not freed.
iput_kept :
    (i : ℕ) (s : Icache)
    → (s.inode i).nlink ≢ 0
    → iput i s ≡ set_inode i (record (s.inode i) { ref = decr (s.inode i).ref }) s
unfolding iput
iput_kept i s linked =
    let e : (eqb (s.inode i).ref (pos 1) && (s.inode i).valid && ((s.inode i).nlink == 0)) ≡ false =
      ground arith in
    rw (e, iput)

abbrev with_ref : ℕ → ℤ → Icache → Icache
with_ref i n s = set_inode i (record (s.inode i) { ref = n; locked = false }) s

iunlockput_kept :
    (i r : ℕ) (s : Icache)
    → (s.inode i).locked ≡ true
    → (s.inode i).ref ≡ pos (suc r)
    → (s.inode i).nlink ≢ 0
    → (s' : Icache) × (iunlockput i s ≡ ok s')
      × ((s'.inode i).ref ≡ pos r)
      × ((s'.inode i).nlink ≢ 0)
unfolding iunlockput iunlock ◌>>=◌
iunlockput_kept i r s locked ref linked =
    let s1 = set_inode i (record (s.inode i) { locked = false }) s in
    let linked1 : (s1.inode i).nlink ≢ 0 = ground arith in
    (
      iput i s1,
      ground arith,
      rw (iput_kept i s1 linked1) (ground arith),
      rw (iput_kept i s1 linked1) (ground arith),
    )

-- What `namex` does to the entry of a symbolic link that it has locked and goes through.
follow_link_ref :
    (i r : ℕ) (rest : List ℕ) (s : Icache)
    → (s.inode i).locked ≡ true
    → (s.inode i).ref ≡ pos (suc r)
    → (s.inode i).nlink ≢ 0
    → length (take (maxpath - 1) (s.dinode (s.inode i).inum).target) + 1 + length rest < maxpath
    → (s' : Icache) × (follow_link i rest s
        ≡ ok (follow (take (maxpath - 1) (s.dinode (s.inode i).inum).target ++ slash ∷ rest), s'))
      × ((s'.inode i).ref ≡ decr (pos r))
unfolding follow_link ◌>>=◌
follow_link_ref i r rest s locked ref linked short =
    let (s1, run, ref1, linked1) = iunlockput_kept i r s locked ref linked in
    let fits : leb maxpath
          (length (take (maxpath - 1) (s.dinode (s.inode i).inum).target) + 1 + length rest)
        ≡ false =
      ground arith in
    (iput i s1, rw (run, fits, follow_link), rw (iput_kept i s1 linked1) (ground arith))

-- Where `namex` holds the only reference to the entry of a symbolic link, it goes through the link
-- with the count of the entry at -1, and no `iget` gives the entry back after that.
pub symlink_loses_entry :
    (i : ℕ) (rest : List ℕ) (s : Icache)
    → (s.inode i).locked ≡ true
    → (s.inode i).ref ≡ pos 1
    → (s.inode i).nlink ≢ 0
    → length (take (maxpath - 1) (s.dinode (s.inode i).inum).target) + 1 + length rest < maxpath
    → (s' : Icache) × (follow_link i rest s
        ≡ ok (follow (take (maxpath - 1) (s.dinode (s.inode i).inum).target ++ slash ∷ rest), s'))
      × ((s'.inode i).ref ≡ negsuc 0)
      × ((dev inum j : ℕ) (s'' : Icache)
          → iget dev inum s' ≡ ok (j, s'')
          → (j ≢ i) × ((s''.inode i).ref ≡ negsuc 0))
symlink_loses_entry i rest s locked ref linked short =
    let (s', run, lost) = follow_link_ref i 0 rest s locked ref linked short in
    (s', run, lost, λ dev inum j s'' got. iget_lost dev inum i j 0 s' s'' lost got)
