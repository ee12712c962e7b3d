-- ===== src/FileIo/User.antt =====
-- kernel/proc.c: `either_copyin` of a user address, over `copyin` of kernel/vm.c, as the copy of `writei`.
use mp.Prelude.{
  zero, suc, ltb→lt, ℕ, ◌+◌, ◌-◌, ◌/◌, ◌≤◌, ◌<◌, ◌≡◌, refl, sym, ap, ◌∙◌, fun_ext, ◌≢◌, inl, inr,
  true, false, ◌&&◌, arith, ltb, leb, if◌then◌else◌, Bool-cases,
}
use mp.Prelude.Int.{pos, eqb}
use mp.Param.{bsize}
use mp.Kalloc.{page_size}
use mp.Words.{Bytes}
use mp.Str.{Memory}
use mp.Vm.{maxva, pg_round_down, Ram}
use mp.Vm.Copy.{copyin}
use mp.Vm.Range.{page_of, phys, IsUserRange, source_apart}
use mp.Vm.Receive.{CopiedIn, in_from_stop, in_from-CopiedIn}
use mp.FileIo.Fault.{Fails}
use mp.Fs.ReadWrite.{CopyIn, stored}
use mp.Fs.Write.{Delivers}

-- The memory with the bytes of the buffer at `base`.
abbrev pub with_buffer : ℕ → Bytes → Ram → Ram
with_buffer base b s = record s {
  bytes = λ a. if leb base a && ltb a (base + bsize) then b (a - base) else s.bytes a;
}

-- `bp->data` is at `base`, and `root` is `p->pagetable`.
abbrev pub user_copyin : ℕ → ℕ → CopyIn Ram
user_copyin root base dst o src len s =
    let (r, s') = copyin root (base + o) src len (with_buffer base dst s) in
    (eqb r (pos 0), λ i. if ltb i bsize then s'.bytes (base + i) else dst i)

-- The memory as the process sees it.
abbrev pub user_view : ℕ → Ram → Memory
user_view root s a = s.bytes (phys root s.entry a)

-- The user addresses from `lo` to `hi` are mapped, each page to a page of its own apart from the buffer.
pub record IsMapped (root base : ℕ) (s : Ram) (lo hi : ℕ) : Type 0 where
  pub below : hi ≤ maxva
  pub there : (a : ℕ) → lo ≤ a → a < hi → page_of root s.entry a ≢ 0
  pub one_each :
      (a b : ℕ)
      → lo ≤ a
      → a < hi
      → lo ≤ b
      → b < hi
      → page_of root s.entry a ≡ page_of root s.entry b
      → a / page_size ≡ b / page_size
  pub apart :
      (i a : ℕ) → i < bsize → lo ≤ a → a < hi → pg_round_down (base + i) ≢ page_of root s.entry a

IsMapped-IsUserRange :
    (root base : ℕ) (s : Ram) (lo hi v o len : ℕ)
    → IsMapped root base s lo hi
    → lo ≤ v
    → v + len ≤ hi
    → o + len ≤ bsize
    → IsUserRange root s.entry v (base + o) len
IsMapped-IsUserRange root base s lo hi v o len h a b c = record {
  below = omega (arith, h.below);
  there = λ j hj. h.there (v + j) (omega arith) (omega arith);
  one_each = λ i j hi hj.
      h.one_each (v + i) (v + j) (omega arith) (omega arith) (omega arith) (omega arith);
  apart = λ i j hi hj.
      let q : base + o + i ≡ base + (o + i) = omega arith in
      rw q (h.apart (o + i) (v + j) (omega arith) (omega arith) (omega arith));
}

-- No mapped byte is one of the buffer.
buffer_apart :
    (root base : ℕ) (s : Ram) (lo hi a i : ℕ)
    → IsMapped root base s lo hi
    → lo ≤ a
    → a < hi
    → i < bsize
    → base + i ≢ phys root s.entry a
buffer_apart root base s lo hi a i h p q lt e =
    let range = IsMapped-IsUserRange root base s lo hi a i 1 h p (omega arith) (omega arith) in
    let a0 : a + 0 ≡ a = omega arith in
    let i0 : base + i + 0 ≡ base + i = omega arith in
    source_apart root s.entry a (base + i) 1 0 0 range (omega arith) (omega arith)
      (i0 ∙ e ∙ ap (phys root s.entry) (sym a0))

outside_buffer :
    (root base : ℕ) (s : Ram) (lo hi a : ℕ) (dst : Bytes)
    → IsMapped root base s lo hi
    → lo ≤ a
    → a < hi
    → (with_buffer base dst s).bytes (phys root s.entry a) ≡ user_view root s a
outside_buffer root base s lo hi a dst h p q =
    let x = phys root s.entry a in
    elim (Bool-cases (leb base x && ltb x (base + bsize))) [
      | inr out ↦ rw out refl
      | inl inside ↦
          let i : x - base < bsize = ground arith in
          let e : base + (x - base) ≡ x = ground arith in
          absurd (buffer_apart root base s lo hi a (x - base) h p q i e)
    ]

inside_buffer :
    (base i : ℕ) (dst : Bytes) (s : Ram)
    → i < bsize
    → (with_buffer base dst s).bytes (base + i) ≡ dst i
inside_buffer base i dst s h =
    let w : (leb base (base + i) && ltb (base + i) (base + bsize)) ≡ true = ground arith in
    let d : base + i - base ≡ i = omega arith in rw (w, d) refl

copied_bytes :
    (root base : ℕ) (s s' : Ram) (lo hi v o len i : ℕ) (dst : Bytes)
    → IsMapped root base s lo hi
    → lo ≤ v
    → v + len ≤ hi
    → o + len ≤ bsize
    → CopiedIn root v (base + o) len (with_buffer base dst s) s'
    → (if ltb i bsize then s'.bytes (base + i) else dst i) ≡ stored dst o v len (user_view root s) i
copied_bytes root base s s' lo hi v o len i dst h a b fits c =
    elim (Bool-cases (leb o i && ltb i (o + len))) [
      | inl moved ↦
          let lt : ltb i bsize ≡ true = ground arith in
          let j : i - o < len = ground arith in
          let at : base + i ≡ base + o + (i - o) = ground arith in
          rw (moved, lt)
            (ap s'.bytes at
              ∙ c.stored (i - o) j
              ∙ outside_buffer root base s lo hi (v + (i - o)) dst h (omega arith) (omega arith))
      | inr kept ↦ elim (Bool-cases (ltb i bsize)) [
        | inr out ↦ rw (kept, out) refl
        | inl inside ↦
            rw (kept, inside)
              (c.others (base + i) (λ j hj e. away base o len i j kept hj e)
                ∙ inside_buffer base i dst s (ground arith))
      ]
    ]
  where
    away :
        (base o len i j : ℕ)
        → (leb o i && ltb i (o + len)) ≡ false
        → j < len
        → base + i ≢ base + o + j
    away base o len i j kept hj e = ground arith

-- `copyin` delivers the bytes of the process where its pages are mapped.
pub user_copyin-Delivers :
    (root base : ℕ) (s : Ram) (lo hi : ℕ)
    → IsMapped root base s lo hi
    → Delivers (user_copyin root base) s (user_view root s) lo hi
unfolding copyin
user_copyin-Delivers root base s lo hi h dst o v len a b fits =
    let (s', e, c) =
      in_from-CopiedIn root v (base + o) len len (with_buffer base dst s) (omega arith)
        (IsMapped-IsUserRange root base s lo hi v o len h a b fits) in
    ap (λ x. (eqb x.0 (pos 0), λ i. if ltb i bsize then x.1.bytes (base + i) else dst i)) e
    ∙ ap (λ x. (true, x))
        (fun_ext λ i. copied_bytes root base s s' lo hi v o len i dst h a b fits c)

-- `copyin` fails where the first page is not mapped, and the buffer keeps its bytes.
pub user_copyin-Fails :
    (root base : ℕ) (s : Ram) (v : ℕ)
    → page_of root s.entry v ≡ 0
    → Fails (user_copyin root base) s v
unfolding copyin
user_copyin-Fails root base s v gone dst o zero some_bytes fits = absurd (omega arith)
user_copyin-Fails root base s v gone dst o (suc len) some_bytes fits =
    ap (λ x. (eqb x.0 (pos 0), λ i. if ltb i bsize then x.1.bytes (base + i) else dst i))
      (in_from_stop root v (base + o) len len (with_buffer base dst s) gone)
    ∙ ap (λ x. (false, x))
        (fun_ext λ i. elim (Bool-cases (ltb i bsize)) [
          | inl inside ↦ rw inside (inside_buffer base i dst s (ltb→lt i bsize inside))
          | inr out ↦ rw out refl
        ])
