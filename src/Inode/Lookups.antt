-- ===== src/Inode/Lookups.antt =====
-- The references that calls of `namei` of kernel/fs.c leave behind.
use mp.Prelude.{
  ℕ, zero, suc, ◌+◌, ◌≡◌, ◌≢◌, refl, ap, ◌∙◌, subst, false, ◌==◌, Option, none, some, [], ◌∷◌,
  arith, ne→==, Bool-cases, inl, inr, Outcome, ok, ◌>>=◌,
}
use mp.Prelude.Int.{ℤ, pos, eqb}
use mp.Prelude.Update.{update_self}
use mp.Param.{ninode, root_dev}
use mp.Inode.{Inode, Icache, set_inode, remember, iget, iget_scan, cached, iput, t_symlink}
use mp.Inode.Path.{
  slash, start, namex, namex_from, namei, namei_follow, skipelem, skip_slashes, root_ino,
}
use mp.Inode.Cache.{holds}

-- The scan finds the same entry in another cache that holds the same inodes.
scan_same :
    (dev inum : ℕ) (f g : ℕ → Inode) (i left : ℕ) (e e' : Option ℕ) (j : ℕ)
    → ((k : ℕ) → holds dev inum (g k) ≡ holds dev inum (f k))
    → iget_scan dev inum f i left e ≡ cached j
    → iget_scan dev inum g i left e' ≡ cached j
unfolding iget_scan
scan_same dev inum f g i zero e e' j same h = cc
scan_same dev inum f g i (suc left) e e' j same h = elim (Bool-cases (holds dev inum (f i))) [
  | inl found ↦ let z = same i in ground (arith, z)
  | inr other ↦
      let z = same i in
      let ih =
        scan_same dev inum f g (i + 1) left (remember e i (f i)) (remember e' i (g i)) j same
          (ground arith) in
      ground (arith, z, ih)
]

-- The root is cached in entry `i`, with `r + 1` references, and is no symbolic link.
record IsCached (i r : ℕ) (s : Icache) : Type 0 where
  found : iget_scan root_dev root_ino s.inode 0 ninode none ≡ cached i
  ref : (s.inode i).ref ≡ pos (suc r)
  plain : (s.inode i).type ≢ t_symlink

abbrev with_ref : ℕ → ℤ → Icache → Icache
with_ref i n s = set_inode i (record (s.inode i) { ref = n }) s

positive :
    {r : ℕ} (n : ℕ) (ip : Inode)
    → ip.ref ≡ pos (suc r)
    → holds root_dev root_ino (record ip { ref = pos (suc n) }) ≡ holds root_dev root_ino ip
positive n ip e = ground arith

with_ref-IsCached :
    (i r n : ℕ) (s : Icache) → IsCached i r s → IsCached i n (with_ref i (pos (suc n)) s)
with_ref-IsCached i r n s c = record {
  found =
      scan_same root_dev root_ino s.inode (with_ref i (pos (suc n)) s).inode 0 ninode none none i
        (λ k. elim (Bool-cases (i == k)) [
          | inl here ↦
              let q : i ≡ k = ground arith in
              subst
                (λ x.
                  holds root_dev root_ino ((with_ref i (pos (suc n)) s).inode x)
                  ≡ holds root_dev root_ino (s.inode x))
                q
                (ap (holds root_dev root_ino)
                    (update_self s.inode i (record (s.inode i) { ref = pos (suc n) }))
                  ∙ positive n (s.inode i) c.ref)
          | inr apart ↦ rw apart
        ])
        c.found;
  ref = ap (λ x. x.ref) (update_self s.inode i (record (s.inode i) { ref = pos (suc n) }));
  plain = let p = c.plain in ground arith;
}

iget_root :
    (i r : ℕ) (s : Icache)
    → IsCached i r s
    → iget root_dev root_ino s ≡ ok (i, with_ref i (pos (suc (suc r))) s)
unfolding iget
iget_root i r s c = let e = c.found in let f = c.ref in rw (e, f, iget)

namex_root :
    (i r fuel : ℕ) (s : Icache)
    → IsCached i r s
    → namex (suc fuel) false (slash ∷ []) s ≡ ok (some i, [], with_ref i (pos (suc (suc r))) s)
unfolding namex start namex_from skipelem skip_slashes ◌>>=◌
namex_root i r fuel s c = let e = iget_root i r s c in rw e

follow_root :
    (i r fuel : ℕ) (s : Icache) → IsCached i r s → namei_follow (suc fuel) (some i) s ≡ ok s
unfolding namei_follow
follow_root i r fuel s c =
    let plain : ((s.inode i).type == t_symlink) ≡ false =
      ne→== (s.inode i).type t_symlink c.plain in
    rw (plain, namei_follow)

namei_root :
    (i r fuel : ℕ) (s : Icache)
    → IsCached i r s
    → namei (suc (suc fuel)) (slash ∷ []) s
      ≡ ok (some i, with_ref i (pos (suc (suc (suc r)))) (with_ref i (pos (suc (suc r))) s))
unfolding namei ◌>>=◌
namei_root i r fuel s c =
    let c1 = with_ref-IsCached i r (suc r) s c in
    let s1 = with_ref i (pos (suc (suc r))) s in
    rw (namex_root i r fuel s c, follow_root i (suc r) fuel s1 c1, namex_root i (suc r) fuel s1 c1)

iput_root : (i r : ℕ) (s : Icache) → IsCached i (suc r) s → iput i s ≡ with_ref i (pos (suc r)) s
unfolding iput
iput_root i r s c =
    let e = c.ref in
    let more : eqb (s.inode i).ref (pos 1) ≡ false = ground arith in rw (more, iput) (rw e)

-- `k` times: look the root up, and put the inode that `namei` returns.
unfoldable pub look_and_put : ℕ → ℕ → Icache → Outcome Icache
look_and_put zero fuel s = ok s
look_and_put (suc k) fuel s = namei fuel (slash ∷ []) s >>= λ (ip, s'). elim ip [
  | none ↦ look_and_put k fuel s'
  | some i ↦ look_and_put k fuel (iput i s')
]

look_and_put_next :
    (k i r fuel : ℕ) (s : Icache)
    → IsCached i r s
    → (s' : Icache) × (look_and_put (suc k) (suc (suc fuel)) s ≡ look_and_put k (suc (suc fuel)) s')
      × IsCached i (suc r) s'
unfolding look_and_put ◌>>=◌
look_and_put_next k i r fuel s c =
    let s2 = with_ref i (pos (suc (suc (suc r)))) (with_ref i (pos (suc (suc r))) s) in
    let c2 =
      with_ref-IsCached i (suc r) (suc (suc r)) (with_ref i (pos (suc (suc r))) s)
        (with_ref-IsCached i r (suc r) s c) in
    (
      with_ref i (pos (suc (suc r))) s2,
      rw (namei_root i r fuel s c, iput_root i (suc r) s2 c2),
      with_ref-IsCached i (suc (suc r)) (suc r) s2 c2,
    )

look_and_put_root :
    (k i r fuel : ℕ) (s : Icache)
    → IsCached i r s
    → (s' : Icache) × (look_and_put k (suc (suc fuel)) s ≡ ok s')
      × ((s'.inode i).ref ≡ pos (suc (r + k)))
look_and_put_root zero i r fuel s c =
    (s, unfold look_and_put in refl, c.ref ∙ ap (λ n. pos (suc n)) (omega arith))
look_and_put_root (suc k) i r fuel s c =
    let (s1, step, c1) = look_and_put_next k i r fuel s c in
    let (s', run, ref) = look_and_put_root k i (suc r) fuel s1 c1 in
    (s', step ∙ run, ref ∙ ap (λ n. pos (suc n)) (omega arith))

-- Where the root is cached and no symbolic link, every call of `namei` for it leaves a reference
-- behind: after `k` calls, each with an `iput`
-- of the inode it returned, the count of the root is `k` higher.
pub namei_leaks :
    (k i r fuel : ℕ) (s : Icache)
    → iget_scan root_dev root_ino s.inode 0 ninode none ≡ cached i
    → (s.inode i).ref ≡ pos (suc r)
    → (s.inode i).type ≢ t_symlink
    → (s' : Icache) × (look_and_put k (suc (suc fuel)) s ≡ ok s')
      × ((s'.inode i).ref ≡ pos (suc (r + k)))
namei_leaks k i r fuel s found ref plain =
    look_and_put_root k i r fuel s (record { found = found; ref = ref; plain = plain })
