-- ===== src/Inode/Cache.antt =====
-- `iget` of kernel/fs.c: one entry of `icache` for each inode.
use mp.Prelude.{
  ℕ, zero, suc, ◌+◌, ◌<◌, ◌≤◌, ◌≡◌, ◌≢◌, ◌⊎◌, inl, inr, refl, sym, ap, ◌∙◌, subst, Bool, true,
  false, ◌&&◌, ◌==◌, Option, none, some, arith, Bool-cases, ok, panic,
}
use mp.Prelude.Int.{ℤ, pos, incr, ltz, eqb}
use mp.Prelude.Update.{update, update_self, update_ne}
use mp.Param.{ninode}
use mp.Inode.{Inode, Icache, set_inode, remember, iget, iget_scan, Found, cached, fresh}

-- The entry holds the inode `inum` of `dev`.
abbrev pub holds : ℕ → ℕ → Inode → Bool
holds dev inum ip = ltz (pos 0) ip.ref && (ip.dev == dev) && (ip.inum == inum)

abbrev empty_entry : Inode → Bool
empty_entry ip = eqb ip.ref (pos 0)

pub iget_scan-cached :
    (dev inum : ℕ) (inode : ℕ → Inode) (i left : ℕ) (e : Option ℕ) (j : ℕ)
    → iget_scan dev inum inode i left e ≡ cached j
    → (holds dev inum (inode j) ≡ true) × (i ≤ j) × (j < i + left)
unfolding iget_scan
iget_scan-cached dev inum inode i zero e j h = cc
iget_scan-cached dev inum inode i (suc left) e j h = elim (Bool-cases (holds dev inum (inode i))) [
  | inl found ↦ let q : i ≡ j = ground arith in (rw (← q) found, omega arith, omega arith)
  | inr other ↦
      let (a, b, c) =
        iget_scan-cached dev inum inode (i + 1) left (remember e i (inode i)) j (ground arith) in
      (a, omega arith, omega arith)
]

remembered :
    (e : Option ℕ) (i k : ℕ) (ip : Inode)
    → remember e i ip ≡ some k
    → (e ≡ some k) ⊎ ((i ≡ k) × (empty_entry ip ≡ true))
remembered none i k ip h = inr (ground arith, ground arith)
remembered (some x) i k ip h = inl h

-- No entry of the range holds the inode; a slot in the range is empty, or it is the one from before.
pub iget_scan-fresh :
    (dev inum : ℕ) (inode : ℕ → Inode) (i left : ℕ) (e : Option ℕ) (r : Option ℕ)
    → iget_scan dev inum inode i left e ≡ fresh r
    → ((j : ℕ) → i ≤ j → j < i + left → holds dev inum (inode j) ≡ false)
      × ((k : ℕ)
          → r ≡ some k
          → (e ≡ some k) ⊎ ((empty_entry (inode k) ≡ true) × (i ≤ k) × (k < i + left)))
unfolding iget_scan
iget_scan-fresh dev inum inode i zero e r h =
    (λ j lo hi. absurd (omega arith), λ k q. inl (ground arith))
iget_scan-fresh dev inum inode i (suc left) e r h = elim (Bool-cases (holds dev inum (inode i))) [
  | inl found ↦ absurd (ground arith)
  | inr other ↦
      let (nowhere, slot) =
        iget_scan-fresh dev inum inode (i + 1) left (remember e i (inode i)) r (ground arith) in
      (
        λ j lo hi. elim (Bool-cases (i == j)) [
          | inl here ↦ let q : i ≡ j = ground arith in rw (← q) other
          | inr later ↦ nowhere j (ground arith) (omega arith)
        ],
        λ k q. elim (slot k q) [
          | inl before ↦ elim (remembered e i k (inode i) before) [
            | inl old ↦ inl old
            | inr (same, free) ↦ inr (rw (← same) free, omega arith, omega arith)
          ]
          | inr (a, b, c) ↦ inr (a, omega arith, omega arith)
        ],
      )
]

-- No two entries in use hold the same inode.
abbrev pub IsUnique : Icache → Type 0
IsUnique s =
    (dev inum i j : ℕ)
    → i < ninode
    → j < ninode
    → holds dev inum (s.inode i) ≡ true
    → holds dev inum (s.inode j) ≡ true
    → i ≡ j

Found-cases :
    (f : Found) → ((i : ℕ) × (f ≡ cached i)) ⊎ (f ≡ fresh none) ⊎ ((i : ℕ) × (f ≡ fresh (some i)))
Found-cases (cached i) = inl (i, refl)
Found-cases (fresh none) = inr (inl refl)
Found-cases (fresh (some i)) = inr (inr (i, refl))

-- What `iget` does, whatever the cache holds.
pub iget_cases :
    (dev inum : ℕ) (s : Icache)
    → ((i : ℕ) × (holds dev inum (s.inode i) ≡ true)
        × (i < ninode)
        × (iget dev inum s
            ≡ ok (i, set_inode i (record (s.inode i) { ref = incr (s.inode i).ref }) s)))
      ⊎ (((j : ℕ) → j < ninode → holds dev inum (s.inode j) ≡ false)
          × ((iget dev inum s ≡ panic)
              ⊎ ((i : ℕ) × (empty_entry (s.inode i) ≡ true)
                  × (i < ninode)
                  × (iget dev inum s
                      ≡ ok (
                        i,
                        set_inode i
                            (record (s.inode i) {
                              dev = dev;
                              inum = inum;
                              ref = pos 1;
                              valid = false;
                            })
                            s,
                      )))))
unfolding iget
iget_cases dev inum s = elim (Found-cases (iget_scan dev inum s.inode 0 ninode none)) [
  | inl (i, e) ↦
      let (a, b, c) = iget_scan-cached dev inum s.inode 0 ninode none i e in
      inl (i, a, omega arith, rw (e, iget))
  | inr (inl e) ↦
      let (nowhere, slot) = iget_scan-fresh dev inum s.inode 0 ninode none none e in
      inr ((λ j hj. nowhere j (omega arith) (omega arith)), inl (rw (e, iget)))
  | inr (inr (i, e)) ↦
      let (nowhere, slot) = iget_scan-fresh dev inum s.inode 0 ninode none (some i) e in
      inr (
        (λ j hj. nowhere j (omega arith) (omega arith)),
        inr (elim (slot i refl) [
          | inl before ↦ cc
          | inr (free, lo, hi) ↦ (i, free, omega arith, rw (e, iget))
        ]),
      )
]

incr-positive : (r : ℤ) → ltz (pos 0) r ≡ true → ltz (pos 0) (incr r) ≡ true
incr-positive (pos n) h = ground arith
incr-positive (ℤ.negsuc n) h = cc

abbrev counted : Inode → Inode
counted ip = record ip { ref = incr ip.ref }

holds-counted :
    (dev inum d n : ℕ) (ip : Inode)
    → holds dev inum ip ≡ true
    → holds d n (counted ip) ≡ holds d n ip
holds-counted dev inum d n ip h =
    let p : ltz (pos 0) ip.ref ≡ true = ground arith in
    let p' = incr-positive ip.ref p in rw (p, p')

again_holds :
    (dev inum : ℕ) (s : Icache) (i d n j : ℕ)
    → holds dev inum (s.inode i) ≡ true
    → holds d n (update s.inode i (counted (s.inode i)) j) ≡ holds d n (s.inode j)
again_holds dev inum s i d n j h = elim (Bool-cases (i == j)) [
  | inl here ↦
      let q : i ≡ j = ground arith in
      subst (λ x. holds d n (update s.inode i (counted (s.inode i)) x) ≡ holds d n (s.inode x)) q
        (ap (holds d n) (update_self s.inode i (counted (s.inode i)))
          ∙ holds-counted dev inum d n (s.inode i) h)
  | inr apart ↦ rw apart
]

abbrev anew : ℕ → ℕ → Inode → Inode
anew dev inum ip = record ip { dev = dev; inum = inum; ref = pos 1; valid = false }

-- A new entry is the only one for its inode.
anew-holds :
    (dev inum : ℕ) (s : Icache) (i d n j : ℕ)
    → holds d n (update s.inode i (anew dev inum (s.inode i)) j) ≡ true
    → ((i ≡ j) × (d ≡ dev) × (n ≡ inum)) ⊎ ((i ≢ j) × (holds d n (s.inode j) ≡ true))
anew-holds dev inum s i d n j h = elim (Bool-cases (i == j)) [
  | inl here ↦ inl (ground arith, ground arith, ground arith)
  | inr apart ↦ inr (
    ground arith,
    subst (λ x. holds d n x ≡ true)
        (update_ne s.inode i j (anew dev inum (s.inode i)) (ground arith)) h,
  )
]

anew-IsUnique :
    (dev inum : ℕ) (s : Icache) (i : ℕ)
    → IsUnique s
    → ((j : ℕ) → j < ninode → holds dev inum (s.inode j) ≡ false)
    → IsUnique (set_inode i (anew dev inum (s.inode i)) s)
anew-IsUnique dev inum s i unique nowhere d n a b ha hb first second =
    elim (anew-holds dev inum s i d n a first) [
      | inl (ia, da, na) ↦ elim (anew-holds dev inum s i d n b second) [
        | inl (ib, db, nb) ↦ sym ia ∙ ib
        | inr (apart, old) ↦ let free = nowhere b hb in absurd (ground (arith, free))
      ]
      | inr (apart, old) ↦ elim (anew-holds dev inum s i d n b second) [
        | inl (ib, db, nb) ↦ let free = nowhere a ha in absurd (ground (arith, free))
        | inr (apart', old') ↦ unique d n a b ha hb old old'
      ]
    ]

again-IsUnique :
    (dev inum : ℕ) (s : Icache) (i : ℕ)
    → IsUnique s
    → holds dev inum (s.inode i) ≡ true
    → IsUnique (set_inode i (counted (s.inode i)) s)
again-IsUnique dev inum s i unique found d n a b ha hb first second =
    unique d n a b ha hb (sym (again_holds dev inum s i d n a found) ∙ first)
      (sym (again_holds dev inum s i d n b found) ∙ second)

-- `iget` returns an entry that holds the inode, or panics, and keeps one entry for each inode.
pub iget-IsUnique :
    (dev inum i : ℕ) (s s' : Icache)
    → IsUnique s
    → iget dev inum s ≡ ok (i, s')
    → IsUnique s' × (holds dev inum (s'.inode i) ≡ true)
iget-IsUnique dev inum i s s' unique run = elim (iget_cases dev inum s) [
  | inl (k, found, lt, e) ↦
      let ek : k ≡ i = ground arith in
      let es : set_inode k (counted (s.inode k)) s ≡ s' = ground arith in
      rw (← es, ← ek)
        (
          again-IsUnique dev inum s k unique found,
          again_holds dev inum s k dev inum k found ∙ found,
        )
  | inr (nowhere, inl stops) ↦ cc
  | inr (nowhere, inr (k, free, lt, e)) ↦
      let ek : k ≡ i = ground arith in
      let es : set_inode k (anew dev inum (s.inode k)) s ≡ s' = ground arith in
      rw (← es, ← ek) (anew-IsUnique dev inum s k unique nowhere, ground arith)
]
