-- ===== src/Bio/Steps.antt =====
-- The operations that the rest of the kernel calls, as steps of the cache, and the invariant along
-- any sequence of them.
use mp.Prelude.{ℕ, ◌≤◌, ◌≡◌, ◌≢◌, true, ok, Outcome, ◌>>=◌, >>=-eq-ok, arith, List, subst}
use mp.Bio.{Bcache, bread, bwrite, brelse, bpin, bunpin, move_to_front}
use mp.Bio.Scan.{has, has-remove_ne}
use mp.Bio.Invariant.{IsWellFormed, HasRoom, bget-IsWellFormed}
use mp.Bio.Effects.{WasRead, bread-WasRead}
use mp.Bio.Raid.{WasWritten, bwrite-WasWritten}

bread-IsWellFormed :
    (dev n : ℕ) (s : Bcache) (i : ℕ) (s' : Bcache)
    → dev ≢ 0
    → HasRoom s
    → bread dev n s ≡ ok (i, s')
    → IsWellFormed s
    → IsWellFormed s'
bread-IsWellFormed dev n s i s' nz r h w =
    let b : WasRead dev n s i s' = bread-WasRead dev n s i s' h in
    let m : IsWellFormed b.mid = bget-IsWellFormed dev n s i b.mid nz r b.runs w in
    record {
      unique = λ j k mj mk nj ed eb.
          ground
            (arith, b.others j, b.others k, b.got.others j, b.got.others k, b.got, m.unique j k);
      idle = λ j z. ground (arith, b.others j, b.got.others j, m.idle j, b.got);
    }

bwrite-IsWellFormed :
    (i : ℕ) (s s' : Bcache) → bwrite i s ≡ ok s' → IsWellFormed s → IsWellFormed s'
bwrite-IsWellFormed i s s' h w =
    let b : WasWritten i s s' = bwrite-WasWritten i s s' h in
    record {
      unique = λ j k mj mk nj ed eb. ground (arith, b.bufs j, b.bufs k, w.unique j k);
      idle = λ j z. ground (arith, b.bufs j, w.idle j);
    }

has-move_to_front :
    (i j : ℕ) (l : List ℕ) → has l i ≡ true → has (move_to_front i l) j ≡ true → has l j ≡ true
unfolding has
has-move_to_front i j l m h = ground (arith, has-remove_ne i j l)

brelse-IsWellFormed :
    (i : ℕ) (s s' : Bcache)
    → has s.order i ≡ true
    → brelse i s ≡ ok s'
    → IsWellFormed s
    → IsWellFormed s'
unfolding brelse
brelse-IsWellFormed i s s' mi h w = record {
  unique = λ j k mj mk nj ed eb.
      ground
        (arith, w.unique j k, has-move_to_front i j s.order mi, has-move_to_front i k s.order mi);
  idle = λ j z. ground (arith, w.idle j);
}

bpin-IsWellFormed : (i : ℕ) (s : Bcache) → HasRoom s → IsWellFormed s → IsWellFormed (bpin i s)
unfolding bpin
bpin-IsWellFormed i s r w = record {
  unique = λ j k mj mk nj ed eb. ground (arith, w.unique j k);
  idle = λ j z. ground (arith, w.idle j, r i);
}

bunpin-IsWellFormed :
    (i : ℕ) (s : Bcache)
    → 2 ≤ (s.bufs i).refcnt
    → IsWellFormed s
    → HasRoom s
    → IsWellFormed (bunpin i s)
unfolding bunpin
bunpin-IsWellFormed i s two w r = record {
  unique = λ j k mj mk nj ed eb. ground (arith, w.unique j k);
  idle = λ j z. ground (arith, w.idle j, r i);
}

-- A call of the buffer cache by the rest of the kernel.
pub data Call : Type 0 where
  read : ℕ → ℕ → Call
  write release pin unpin : ℕ → Call

unfoldable pub run : Call → Bcache → Outcome Bcache
run (read dev n) s = do (i, s') ← bread dev n s; ok s'
run (write i) s = bwrite i s
run (release i) s = brelse i s
run (pin i) s = ok (bpin i s)
run (unpin i) s = ok (bunpin i s)

-- What a caller has to see to: it names a device, a buffer of the list, and unpins only what some
-- other reference keeps.
abbrev pub IsAllowed : Call → Bcache → Type 0
IsAllowed (read dev n) s = dev ≢ 0
IsAllowed (write i) s = has s.order i ≡ true
IsAllowed (release i) s = has s.order i ≡ true
IsAllowed (pin i) s = has s.order i ≡ true
IsAllowed (unpin i) s = 2 ≤ (s.bufs i).refcnt

run_read :
    (dev n : ℕ) (s s' : Bcache)
    → run (read dev n) s ≡ ok s'
    → (i : ℕ) × (bread dev n s ≡ ok (i, s'))
unfolding run ◌>>=◌
run_read dev n s s' h =
    let ((i, t), e, p) = >>=-eq-ok (bread dev n s) _ h in
    let same : t ≡ s' = ground arith in (i, ground arith)

-- Every call that is allowed and returns keeps the cache well formed.
pub run-IsWellFormed :
    (c : Call) (s s' : Bcache)
    → IsAllowed c s
    → HasRoom s
    → run c s ≡ ok s'
    → IsWellFormed s
    → IsWellFormed s'
unfolding run
run-IsWellFormed (read dev n) s s' a r h w =
    let (i, e) = run_read dev n s s' h in bread-IsWellFormed dev n s i s' a r e w
run-IsWellFormed (write i) s s' a r h w = bwrite-IsWellFormed i s s' h w
run-IsWellFormed (release i) s s' a r h w = brelse-IsWellFormed i s s' a h w
run-IsWellFormed (pin i) s s' a r h w =
    let e : bpin i s ≡ s' = ground arith in subst IsWellFormed e (bpin-IsWellFormed i s r w)
run-IsWellFormed (unpin i) s s' a r h w =
    let e : bunpin i s ≡ s' = ground arith in subst IsWellFormed e (bunpin-IsWellFormed i s a w r)
