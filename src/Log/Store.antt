-- ===== src/Log/Store.antt =====
-- A buffer gets new contents and goes to the disk, as in every round of kernel/log.c.
use mp.Prelude.{
  ℕ, ◌<◌, ◌≡◌, refl, sym, ap, ap₂, ◌∙◌, subst, inl, inr, Bool, true, false, arith, ◌==◌,
  if◌then◌else◌, ==→eq, eq→==, ==→ne, ne→==, Bool-cases,
}
use mp.Prelude.Int.{minus_one}
use mp.Prelude.Update.{update_self, update_ne}
use mp.Param.{logical_disk_size}
use mp.Bio.{Block, Buf, Bcache, set_buf, mirror_of, disk_fails}
use mp.Bio.Scan.{has}
use mp.Bio.Raid.{written_at, WasWritten}
use mp.Log.Good.{IsGood, no_fallback}

-- The contents of a buffer are replaced.
abbrev pub with_bytes : ℕ → Block → Bcache → Bcache
with_bytes x c s = set_buf x (record (s.bufs x) { bytes = c }) s

pub with_bytes_self :
    (x : ℕ) (c : Block) (s : Bcache) → (with_bytes x c s).bufs x ≡ record (s.bufs x) { bytes = c }
with_bytes_self x c s = update_self s.bufs x (record (s.bufs x) { bytes = c })

pub with_bytes_ne :
    (x : ℕ) (c : Block) (s : Bcache) (j : ℕ)
    → (x == j) ≡ false
    → (with_bytes x c s).bufs j ≡ s.bufs j
with_bytes_ne x c s j ne = update_ne s.bufs x j (record (s.bufs x) { bytes = c }) (==→ne x j ne)

-- The disk after the block `b` was written, on its first half.
abbrev pub disk_with : (ℕ → Block) → ℕ → Block → ℕ → Block
disk_with platter b c n = if n == b then c else platter n

minus_one_is_none : disk_fails minus_one 1 ≡ false
unfolding disk_fails
minus_one_is_none = refl

store_disk :
    (dev : ℕ) (area : ℕ → Bool) (x b n : ℕ) (c : Block) (s s' : Bcache)
    → IsGood dev area s
    → (s.bufs x).blockno ≡ b
    → b < logical_disk_size
    → n < logical_disk_size
    → WasWritten x (with_bytes x c s) s'
    → s'.platter n ≡ disk_with s.platter b c n
store_disk dev area x b n c s s' h at lt ln w =
    let self = with_bytes_self x c s in
    let blk : ((with_bytes x c s).bufs x).blockno ≡ b = ap (λ y. y.blockno) self ∙ at in
    let byt : ((with_bytes x c s).bufs x).bytes ≡ c = ap (λ y. y.bytes) self in
    let f = no_fallback dev area s b h lt in
    let d : disk_fails s.force_disk_fail_id 1 ≡ false = no_second_fails s h.no_disk_fails in
    let away : (n == mirror_of b) ≡ false = ground arith in
    w.disk n (omega (arith, blk, lt))
    ∙ ap₂ (λ y z. written_at (with_bytes x c s) y z n) blk byt
    ∙ rw (f, away) refl
  where
    no_second_fails :
        (s : Bcache) → s.force_disk_fail_id ≡ minus_one → disk_fails s.force_disk_fail_id 1 ≡ false
    no_second_fails s e = ap (λ z. disk_fails z 1) e ∙ minus_one_is_none

-- What is kept of the buffers.
pub stored_same :
    {A : Type 0} (x : ℕ) (c : Block) (s s' : Bcache)
    → WasWritten x (with_bytes x c s) s'
    → (f : Buf → A) → f (record (s.bufs x) { bytes = c }) ≡ f (s.bufs x)
    → (j : ℕ) → f (s'.bufs j) ≡ f (s.bufs j)
stored_same x c s s' w f e j = ap f (w.bufs j) ∙ (elim (Bool-cases (x == j)) [
  | inl q ↦
      subst (λ y. f ((with_bytes x c s).bufs y) ≡ f (s.bufs y)) (==→eq x j q)
        (ap f (with_bytes_self x c s) ∙ e)
  | inr q ↦ ap f (with_bytes_ne x c s j q)
])

-- The store keeps the cache good, and changes one block of the disk.
pub store-IsGood :
    (dev : ℕ) (area : ℕ → Bool) (x b : ℕ) (c : Block) (s s' : Bcache)
    → IsGood dev area s
    → ((n : ℕ) → area n ≡ true → n < logical_disk_size)
    → has s.order x ≡ true
    → (s.bufs x).dev ≡ dev
    → (s.bufs x).blockno ≡ b
    → b < logical_disk_size
    → WasWritten x (with_bytes x c s) s'
    → IsGood dev area s'
      × ((n : ℕ) → n < logical_disk_size → s'.platter n ≡ disk_with s.platter b c n)
store-IsGood dev area x b c s s' h small listed at_dev at lt w =
    let disk =
      λ (n : ℕ) (ln : n < logical_disk_size). store_disk dev area x b n c s s' h at lt ln w in
    let has_is : (j : ℕ) → has s'.order j ≡ true → has s.order j ≡ true =
      λ j m. ap (λ o. has o j) (sym w.order) ∙ m in
    let dev_is = stored_same x c s s' w (λ y. y.dev) refl in
    let blockno_is = stored_same x c s s' w (λ y. y.blockno) refl in
    let valid_is = stored_same x c s s' w (λ y. y.valid) refl in
    (
      record {
        no_block_fails = w.read_hook ∙ h.no_block_fails;
        no_disk_fails = w.disk_hook ∙ h.no_disk_fails;
        unique = λ i j mi mj di dj e.
            h.unique i j (has_is i mi) (has_is j mj) (sym (dev_is i) ∙ di) (sym (dev_is j) ∙ dj)
              (sym (blockno_is i) ∙ e ∙ blockno_is j);
        one_dev = λ i m v. dev_is i ∙ h.one_dev i (has_is i m) (sym (valid_is i) ∙ v);
        coherent = λ i m v a.
            let a' = ap area (sym (blockno_is i)) ∙ a in
            let d = disk (s.bufs i).blockno (small (s.bufs i).blockno a') in
            elim (Bool-cases (x == i)) [
              | inl q ↦
                  let e = ==→eq x i q in
                  let here : ((s.bufs i).blockno == b) ≡ true =
                    ap (λ y. (s.bufs y).blockno == b) (sym e) ∙ eq→== (s.bufs x).blockno b at in
                  subst (λ y. (s'.bufs y).bytes ≡ c) e
                    (ap (λ y. y.bytes) (w.bufs x) ∙ ap (λ y. y.bytes) (with_bytes_self x c s))
                  ∙ sym (d ∙ rw here refl)
                  ∙ ap s'.platter (sym (blockno_is i))
              | inr q ↦
                  let old : s'.bufs i ≡ s.bufs i = w.bufs i ∙ with_bytes_ne x c s i q in
                  let vi = sym (valid_is i) ∙ v in
                  let mi = has_is i m in
                  let apart : ((s.bufs i).blockno == b) ≡ false = ne→== (s.bufs i).blockno b (λ e.
                    ==→ne x i q (h.unique x i listed mi at_dev (h.one_dev i mi vi) (at ∙ sym e))) in
                  ap (λ y. y.bytes) old
                  ∙ h.coherent i mi vi a'
                  ∙ sym (d ∙ rw apart refl)
                  ∙ ap s'.platter (sym (blockno_is i))
            ];
      },
      disk,
    )
