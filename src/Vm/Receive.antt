-- ===== src/Vm/Receive.antt =====
-- kernel/vm.c: `copyin` byte by byte, and after a `copyout`.
use mp.Prelude.{
  ℕ, zero, suc, ◌+◌, ◌-◌, ◌%◌, ◌^◌, ◌≤◌, ◌<◌, ◌≡◌, refl, sym, ap, ◌∙◌, subst, ◌≢◌, inl, inr, false,
  ◌&&◌, arith, ltb, leb, ◌==◌, if◌then◌else◌, ltb→lt, ne→==, Bool-cases,
}
use mp.Prelude.Int.{pos, minus_one}
use mp.Kalloc.{page_size}
use mp.Str.{Memory}
use mp.Str.Move.{memmove_lem}
use mp.Vm.{pg_round_down, Ram, walkaddr}
use mp.Vm.Space.{move_bytes}
use mp.Vm.Copy.{chunk, copyout, in_from, copyin}
use mp.Vm.Lookup.{walkaddr_lem}
use mp.Vm.Range.{
  page_of, phys, IsUserRange, IsUserRange-rest, same_page, source_apart, chunk_bounds, here,
}
use mp.Vm.Transfer.{out_from-CopiedOut}

-- What `n` bytes of a `copyin` do.
pub record CopiedIn (root : ℕ) (v k n : ℕ) (s s' : Ram) : Type 0 where
  pub entries : s'.entry ≡ s.entry
  pub stored : (j : ℕ) → j < n → s'.bytes (k + j) ≡ s.bytes (phys root s.entry (v + j))
  pub others : (a : ℕ) → ((j : ℕ) → j < n → a ≢ k + j) → s'.bytes a ≡ s.bytes a

CopiedIn-chunk :
    (root v k len : ℕ) (s : Ram)
    → CopiedIn root v k
        (chunk v len)
        s
        (move_bytes k (page_of root s.entry v + (v - pg_round_down v)) (chunk v len) s)
CopiedIn-chunk root v k len s =
    let d = page_of root s.entry v + (v - pg_round_down v) in
    record {
      entries = refl;
      stored = λ j hj.
          memmove_lem k d (chunk v len) s.bytes (k + j)
          ∙ (let q : k + j - k ≡ j = omega arith in
              rw (same_page root s.entry v len j hj, q) (ground arith));
      others = λ a away.
          memmove_lem k d (chunk v len) s.bytes a ∙ outside k d (chunk v len) a s.bytes away;
    }
  where
    outside :
        (k d n a : ℕ) (m : Memory)
        → ((j : ℕ) → j < n → a ≢ k + j)
        → (if leb k a && ltb a (k + n) then m (d + (a - k)) else m a) ≡ m a
    outside k d n a m away = elim (Bool-cases (leb k a && ltb a (k + n))) [
      | inl q ↦ absurd (away (a - k) (ground arith) (ground arith))
      | inr q ↦ rw q refl
    ]

CopiedIn-trans :
    (root v k n len : ℕ) (s s1 s2 : Ram)
    → IsUserRange root s.entry v k (n + len)
    → CopiedIn root v k n s s1
    → CopiedIn root (v + n) (k + n) len s1 s2
    → CopiedIn root v k (n + len) s s2
CopiedIn-trans root v k n len s s1 s2 h c d = record {
  entries = d.entries ∙ c.entries;
  stored = λ j hj. elim (Bool-cases (ltb j n)) [
    | inl early ↦
        let q : j < n = ground arith in
        d.others (k + j) (λ i hi e. omega (arith, e, q)) ∙ c.stored j q
    | inr late ↦
        let q : n ≤ j = ground arith in
        let qv : v + n + (j - n) ≡ v + j = omega arith in
        let qk : k + j ≡ k + n + (j - n) = omega arith in
        rw qk (
          d.stored (j - n) (omega arith)
          ∙ ap (λ f. s1.bytes (phys root f (v + n + (j - n)))) c.entries
          ∙ ap (λ x. s1.bytes (phys root s.entry x)) qv
          ∙ c.others (phys root s.entry (v + j))
              (λ i hi e. source_apart root s.entry v k (n + len) i j h (omega arith) hj (sym e)))
  ];
  others = λ a away.
      d.others a (λ i hi e. away (n + i) (omega arith) (omega (arith, e)))
      ∙ c.others a (λ i hi. away i (omega arith));
}

pub in_from_stop :
    (root v k len fuel : ℕ) (s : Ram)
    → page_of root s.entry v ≡ 0
    → in_from root k v (suc len) (suc fuel) s ≡ (minus_one, s)
unfolding in_from
in_from_stop root v k len fuel s h = ground (arith, walkaddr_lem root (pg_round_down v) s, h)

in_from_step :
    (root v k len fuel : ℕ) (s : Ram)
    → page_of root s.entry v ≢ 0
    → in_from root k v (suc len) (suc fuel) s
      ≡ in_from root
          (k + chunk v (suc len))
          ((pg_round_down v + page_size) % 2 ^ 64)
          (suc len - chunk v (suc len))
          fuel
          (move_bytes k (page_of root s.entry v + (v - pg_round_down v)) (chunk v (suc len)) s)
unfolding in_from
in_from_step root v k len fuel s h =
    let q = walkaddr_lem root (pg_round_down v) s in
    let w : (walkaddr root (pg_round_down v) s == 0) ≡ false =
      ne→== (walkaddr root (pg_round_down v) s) 0 (λ z. h (sym q ∙ z)) in
    rw (w, in_from) (rw (← q) refl)

in_from_done : (root v k fuel : ℕ) (s : Ram) → in_from root k v 0 fuel s ≡ (pos 0, s)
unfolding in_from
in_from_done root v k fuel s = refl

next_round_in :
    (root v k len fuel n : ℕ) (s : Ram)
    → v + suc len < 2 ^ 64
    → (n < suc len → pg_round_down v + page_size ≡ v + n)
    → in_from root (k + n) ((pg_round_down v + page_size) % 2 ^ 64) (suc len - n) fuel s
      ≡ in_from root (k + n) (v + n) (suc len - n) fuel s
next_round_in root v k len fuel n s below next = elim (Bool-cases (ltb n (suc len))) [
  | inl more ↦
      let q = next (ltb→lt n (suc len) more) in
      let w : (v + n) % 2 ^ 64 ≡ v + n = ground arith in rw (q, w) refl
  | inr all ↦
      let z : suc len - n ≡ 0 = ground arith in
      rw (z, in_from_done root (v + n) (k + n) fuel s)
        (in_from_done root ((pg_round_down v + page_size) % 2 ^ 64) (k + n) fuel s)
]

pub in_from-CopiedIn :
    (root v k len fuel : ℕ) (s : Ram)
    → len ≤ fuel
    → IsUserRange root s.entry v k len
    → (s' : Ram) × (in_from root k v len fuel s ≡ (pos 0, s')) × CopiedIn root v k len s s'
in_from-CopiedIn root v k zero fuel s le h = (
  s,
  in_from_done root v k fuel s,
  record { entries = refl; stored = λ j hj. absurd (omega arith); others = λ a _. refl },
)
in_from-CopiedIn root v k (suc len) zero s le h = absurd (omega arith)
in_from-CopiedIn root v k (suc len) (suc fuel) s le h =
    let n = chunk v (suc len) in
    let (some_bytes, fits, next) = chunk_bounds v len in
    let whole : n + (suc len - n) ≡ suc len = omega (arith, fits) in
    let range : IsUserRange root s.entry v k (n + (suc len - n)) =
      subst (IsUserRange root s.entry v k) (sym whole) h in
    let s1 = move_bytes k (page_of root s.entry v + (v - pg_round_down v)) n s in
    let first = CopiedIn-chunk root v k (suc len) s in
    let step = in_from_step root v k len fuel s (here root s.entry v k len h) in
    let (s2, e, more) =
      in_from-CopiedIn root (v + n) (k + n) (suc len - n) fuel s1 (omega (arith, some_bytes, le))
        (IsUserRange-rest root s.entry v k (suc len - n) n range) in
    (
      s2,
      step ∙ next_round_in root v k len fuel n s1 (omega (arith, h.below)) next ∙ e,
      subst (λ l. CopiedIn root v k l s s2) whole
          (CopiedIn-trans root v k n (suc len - n) s s1 s2 range first more),
    )

-- What `copyout` stores from `k` at user addresses, `copyin` of the same addresses brings to `k'`, byte
-- for byte, where the pages of the range are mapped, each to a page of its own apart from both ranges
-- of the kernel.
pub copyin-copyout :
    (root v k k' len : ℕ) (s : Ram)
    → IsUserRange root s.entry v k len
    → IsUserRange root s.entry v k' len
    → let (r, s1) = copyout root v k len s in
      let (r', s2) = copyin root k' v len s1 in
      (r ≡ pos 0) × (r' ≡ pos 0) × ((j : ℕ) → j < len → s2.bytes (k' + j) ≡ s.bytes (k + j))
unfolding copyout copyin
copyin-copyout root v k k' len s h h' =
    let (s1, e, c) = out_from-CopiedOut root v k len len s (omega arith) h in
    let range : IsUserRange root s1.entry v k' len =
      subst (λ f. IsUserRange root f v k' len) (sym c.entries) h' in
    let (s2, f, d) = in_from-CopiedIn root v k' len len s1 (omega arith) range in
    rw (e, f)
      (
        refl,
        refl,
        λ j hj. d.stored j hj ∙ ap (λ g. s1.bytes (phys root g (v + j))) c.entries ∙ c.stored j hj,
      )
