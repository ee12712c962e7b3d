-- ===== src/Log/Reserve.antt =====
-- The reservation of log space: what `begin_op` admits, the system calls that are in a transaction
-- can write.
use mp.Prelude.{
  ℕ, suc, ◌+◌, ◌-◌, ◌*◌, ◌≤◌, ◌<◌, ◌≡◌, ◌∙◌, refl, ap, subst, true, false, Bool, List, [], ◌∷◌,
  ◌++◌, All, length, ok, panic, >>=-eq-ok, Ensures, Ensures-bind, Ensures-return, ltb, arith,
  Bool-cases, inl, inr, ◌==◌,
}
use mp.Prelude.Int.{pos, decr}
use mp.Param.{max_op_blocks, log_size}
use mp.Bio.{bpin}
use mp.Prelude.Update.{update}
use mp.Prelude.{if◌then◌else◌}
use mp.Log.{
  Log, begin_op, log_write, find_block, end_op, end_op_enter, end_op_finish, commit, write_head,
  write_log, install_trans,
}

-- How many more blocks of its own each system call in a transaction may still write.
abbrev pub Budgets : Type 0
Budgets = List ℕ

unfoldable pub total : Budgets → ℕ
total [] = 0
total (r ∷ bs) = r + total bs

-- The system calls between `begin_op` and `end_op`, interleaved in any order. A `log_write` that adds
-- a block to the log is charged to one of them; one that is absorbed is free.
pub data Step : Log → Budgets → Log → Budgets → Type 0 where
  begin : (l l' : Log) (bs : Budgets) → begin_op l ≡ ok l' → Step l bs l' (max_op_blocks ∷ bs)
  absorb :
      (l l' : Log) (bs : Budgets) (b : ℕ) → log_write b l ≡ ok l' → l'.n ≡ l.n → Step l bs l' bs
  add :
      (l l' : Log) (xs ys : Budgets) (r b : ℕ)
      → log_write b l ≡ ok l'
      → Step l (xs ++ (suc r ∷ ys)) l' (xs ++ (r ∷ ys))
  finish :
      (l l' : Log) (xs ys : Budgets) (r : ℕ)
      → end_op l ≡ ok l'
      → Step l (xs ++ (r ∷ ys)) l' (xs ++ ys)

pub data Reach (l₀ : Log) : Log → Budgets → Type 0 where
  start : Reach l₀ l₀ []
  later : {l l' : Log} {bs bs' : Budgets} → Reach l₀ l bs → Step l bs l' bs' → Reach l₀ l' bs'

-- The blocks in the log and those that are promised fit into it.
pub record IsReserved (l : Log) (bs : Budgets) : Type 0 where
  pub fits : l.n + total bs ≤ log_size
  pub counted : l.outstanding ≡ pos (length bs)
  pub small : All (λ r. r ≤ max_op_blocks) bs

total-le : (bs : Budgets) → All (λ r. r ≤ max_op_blocks) bs → total bs ≤ length bs * max_op_blocks
unfolding total
total-le [] h = omega arith
total-le (r ∷ bs) h = omega (arith, total-le bs h.1)

total-append : (xs ys : Budgets) → total (xs ++ ys) ≡ total xs + total ys
unfolding total
total-append [] ys = omega arith
total-append (x ∷ xs) ys = omega (arith, total-append xs ys)

total-cons : (x : ℕ) (xs : Budgets) → total (x ∷ xs) ≡ x + total xs
unfolding total
total-cons x xs = refl

All-change :
    (xs ys : Budgets) (r : ℕ)
    → All (λ r. r ≤ max_op_blocks) (xs ++ (suc r ∷ ys))
    → All (λ r. r ≤ max_op_blocks) (xs ++ (r ∷ ys))
All-change [] ys r h = (omega arith, h.1)
All-change (x ∷ xs) ys r h = (h.0, All-change xs ys r h.1)

All-drop :
    (xs ys : Budgets) (r : ℕ)
    → All (λ r. r ≤ max_op_blocks) (xs ++ (r ∷ ys))
    → All (λ r. r ≤ max_op_blocks) (xs ++ ys)
All-drop [] ys r h = h.1
All-drop (x ∷ xs) ys r h = (h.0, All-drop xs ys r h.1)

begin_op-IsReserved :
    (l l' : Log) (bs : Budgets)
    → begin_op l ≡ ok l'
    → IsReserved l bs
    → IsReserved l' (max_op_blocks ∷ bs)
unfolding begin_op total
begin_op-IsReserved l l' bs h v = record {
  fits = ground (arith, total-le bs v.small);
  counted = ground arith;
  small = (omega arith, v.small);
}

log_write_n :
    (b : ℕ) (l l' : Log)
    → log_write b l ≡ ok l'
    → (l'.n ≤ l.n + 1) × (l'.outstanding ≡ l.outstanding)
unfolding log_write
log_write_n b l l' h = ground arith

-- Two logs that differ in the cache at most.
record SameHead (l l' : Log) : Type 0 where
  n_is : l'.n ≡ l.n
  outstanding_is : l'.outstanding ≡ l.outstanding

module _ (l : Log) where
  write_head-SameHead : Ensures (SameHead l) (write_head l)
  unfolding write_head
  write_head-SameHead = Ensures-bind λ a _.
      Ensures-bind
        λ b _. Ensures-bind λ c _. Ensures-return (record { n_is = refl; outstanding_is = refl })

  write_log-SameHead : Ensures (SameHead l) (write_log l)
  unfolding write_log
  write_log-SameHead =
      Ensures-bind λ a _. Ensures-return (record { n_is = refl; outstanding_is = refl })

  install_trans-SameHead : Ensures (SameHead l) (install_trans l)
  unfolding install_trans
  install_trans-SameHead =
      Ensures-bind λ a _. Ensures-return (record { n_is = refl; outstanding_is = refl })

record Committed (l l' : Log) : Type 0 where
  n_is : l'.n ≡ 0
  outstanding_is : l'.outstanding ≡ l.outstanding

commit-Committed : (l : Log) → Ensures (Committed l) (commit l)
unfolding commit
commit-Committed l = elim (Bool-cases (ltb 0 l.n)) [
  | inl some_blocks ↦ rw some_blocks (
      Ensures-bind λ l1 e1. Ensures-bind λ l2 e2. Ensures-bind λ l3 e3. record {
        at = λ l4 e4.
            let h1 = (write_log-SameHead l).at l1 e1 in
            let h2 = (write_head-SameHead l1).at l2 e2 in
            let h3 = (install_trans-SameHead l2).at l3 e3 in
            let h4 = (write_head-SameHead (record l3 { n = 0 })).at l4 e4 in
            record { n_is = h4.n_is; outstanding_is = ground arith };
      })
  | inr no_block ↦
      rw no_block (Ensures-return (record { n_is = ground arith; outstanding_is = refl }))
]

end_op_enter-ok :
    (l l' : Log) (d : Bool)
    → end_op_enter l ≡ ok (d, l')
    → (l'.n ≡ l.n) × (l'.outstanding ≡ decr l.outstanding)
unfolding end_op_enter
end_op_enter-ok l l' d h = ground arith

record Ended (l l' : Log) : Type 0 where
  n_le : l'.n ≤ l.n
  outstanding_is : l'.outstanding ≡ decr l.outstanding

end_op_finish-Ended :
    (d : Bool) (l l' l'' : Log)
    → (l'.n ≡ l.n) × (l'.outstanding ≡ decr l.outstanding)
    → end_op_finish d l' ≡ ok l''
    → Ended l l''
unfolding end_op_finish
end_op_finish-Ended false l l' l'' h e = record {
  n_le = ground arith;
  outstanding_is = ground arith;
}
end_op_finish-Ended true l l' l'' h e =
    let (m, c, f) = >>=-eq-ok (commit l') _ e in
    let k = (commit-Committed l').at m c in
    record { n_le = ground arith; outstanding_is = ground arith }

end_op-Ended : (l l'' : Log) → end_op l ≡ ok l'' → Ended l l''
unfolding end_op
end_op-Ended l l'' e =
    let ((d, l'), entered, rest) = >>=-eq-ok (end_op_enter l) _ e in
    end_op_finish-Ended d l l' l'' (end_op_enter-ok l l' d entered) rest

length-remove : (xs ys : Budgets) (r : ℕ) → length (xs ++ (r ∷ ys)) ≡ suc (length (xs ++ ys))
length-remove [] ys r = refl
length-remove (x ∷ xs) ys r = omega (arith, length-remove xs ys r)

Step-IsReserved :
    {l l' : Log} {bs bs' : Budgets} → Step l bs l' bs' → IsReserved l bs → IsReserved l' bs'
Step-IsReserved (begin l l' bs h) v = begin_op-IsReserved l l' bs h v
Step-IsReserved (absorb l l' bs b h same) v =
    let (_, o) = log_write_n b l l' h in
    record { fits = omega (arith, v.fits, same); counted = o ∙ v.counted; small = v.small }
Step-IsReserved (add l l' xs ys r b h) v =
    let (n, o) = log_write_n b l l' h in
    record {
      fits = omega (arith, total-append, total-cons);
      counted = ground (arith, length-remove xs ys r, length-remove xs ys (suc r));
      small = All-change xs ys r v.small;
    }
Step-IsReserved (finish l l' xs ys r h) v =
    let e = end_op-Ended l l' h in
    record {
      fits = omega (arith, total-append, total-cons);
      counted = ground (arith, length-remove xs ys r);
      small = All-drop xs ys r v.small;
    }

pub Reach-IsReserved :
    {l₀ l : Log} {bs : Budgets} → IsReserved l₀ [] → Reach l₀ l bs → IsReserved l bs
Reach-IsReserved h start = h
Reach-IsReserved h (later r st) = Step-IsReserved st (Reach-IsReserved h r)

log_write_fits :
    (b : ℕ) (l : Log) (o : ℕ)
    → l.n < log_size
    → l.n < l.size - 1
    → l.outstanding ≡ pos (suc o)
    → (l' : Log) × (log_write b l ≡ ok l')
unfolding log_write
log_write_fits b l o fits room out =
    let i = find_block l.block (l.cache.bufs b).blockno 0 l.n in
    let l' = record l { block = update l.block i (l.cache.bufs b).blockno } in
    (if i == l.n then record l' { n = l.n + 1; cache = bpin b l.cache } else l', ground arith)

log_write_panics : (b : ℕ) (l : Log) → l.size - 1 ≤ l.n → log_write b l ≡ panic
unfolding log_write
log_write_panics b l full = ground arith

-- Whatever the interleaving, from a log with nothing in it the blocks in the log, and those that the
-- system calls in a transaction may still add, never exceed LOGSIZE. A `log_write` of a call that has a
-- block left of its MAXOPBLOCKS returns if the log holds fewer than `log.size - 1` blocks, and panics if
-- it does not: the reservation of LOGSIZE blocks is enough in a log that is larger than LOGSIZE, and in
-- the one of LOGSIZE blocks that mkfs makes the last reserved block is one too many.
pub log_write_reserved :
    {l₀ l : Log} (bs : Budgets)
    → IsReserved l₀ []
    → Reach l₀ l bs
    → (l.n + total bs ≤ log_size)
      × ((xs ys : Budgets) (r b : ℕ)
          → bs ≡ xs ++ (suc r ∷ ys)
          → (l.n < l.size - 1 → (l' : Log) × (log_write b l ≡ ok l'))
            × (l.size - 1 ≤ l.n → log_write b l ≡ panic))
log_write_reserved {l} bs v reach =
    let w = Reach-IsReserved v reach in
    (
      w.fits,
      λ xs ys r b e.
          let w' = subst (IsReserved l) e w in
          let fits : l.n < log_size =
            omega (arith, w'.fits, total-append xs (suc r ∷ ys), total-cons (suc r) ys) in
          (
            λ room.
                log_write_fits b l (length (xs ++ ys)) fits room
                  (w'.counted ∙ ap pos (length-remove xs ys (suc r))),
            log_write_panics b l,
          ),
    )
