-- ===== src/Vm/Transfer.antt =====
-- kernel/vm.c: `copyout` byte by byte.
use mp.Prelude.{
  ℕ, zero, suc, ◌+◌, ◌-◌, ◌%◌, ◌^◌, ◌≤◌, ◌<◌, ◌≡◌, refl, sym, ap, ◌∙◌, subst, ◌≢◌, inl, inr, false,
  ◌&&◌, arith, ltb, leb, ◌==◌, if◌then◌else◌, ltb→lt, ltb→le, ==→eq, ==→ne, ne→==, Bool-cases,
}
use mp.Prelude.Int.{pos, minus_one}
use mp.Kalloc.{page_size}
use mp.Str.{Memory}
use mp.Str.Move.{memmove_lem}
use mp.Vm.{pg_round_down, Ram, walkaddr}
use mp.Vm.Space.{move_bytes}
use mp.Vm.Copy.{chunk, out_from, copyout}
use mp.Vm.Lookup.{user_page, walkaddr_lem}
use mp.Vm.Range.{
  page_of, phys, IsUserRange, IsUserRange-rest, same_page, phys_apart, source_apart, chunk_bounds,
  here,
}

-- What `n` bytes of a `copyout` do.
pub record CopiedOut (root : ℕ) (v k n : ℕ) (s s' : Ram) : Type 0 where
  pub entries : s'.entry ≡ s.entry
  pub stored : (j : ℕ) → j < n → s'.bytes (phys root s.entry (v + j)) ≡ s.bytes (k + j)
  pub others : (a : ℕ) → ((j : ℕ) → j < n → a ≢ phys root s.entry (v + j)) → s'.bytes a ≡ s.bytes a

CopiedOut-chunk :
    (root v k len : ℕ) (s : Ram)
    → IsUserRange root s.entry v k len
    → CopiedOut root v k
        (chunk v len)
        s
        (move_bytes (page_of root s.entry v + (v - pg_round_down v)) k (chunk v len) s)
CopiedOut-chunk root v k len s h =
    let d = page_of root s.entry v + (v - pg_round_down v) in
    record {
      entries = refl;
      stored = λ j hj.
          rw (same_page root s.entry v len j hj)
            (memmove_lem d k (chunk v len) s.bytes (d + j) ∙ inside d k (chunk v len) j s.bytes hj);
      others = λ a away.
          memmove_lem d k (chunk v len) s.bytes a
          ∙ outside d k (chunk v len) a s.bytes
              (λ j hj q. away j hj (q ∙ sym (same_page root s.entry v len j hj)));
    }
  where
    inside :
        (d k n j : ℕ) (m : Memory)
        → j < n
        → (if leb d (d + j) && ltb (d + j) (d + n) then m (k + (d + j - d)) else m (d + j))
          ≡ m (k + j)
    inside d k n j m h = let q : d + j - d ≡ j = omega arith in rw q (ground arith)

    outside :
        (d k n a : ℕ) (m : Memory)
        → ((j : ℕ) → j < n → a ≢ d + j)
        → (if leb d a && ltb a (d + n) then m (k + (a - d)) else m a) ≡ m a
    outside d k n a m away = elim (Bool-cases (leb d a && ltb a (d + n))) [
      | inl q ↦ absurd (away (a - d) (ground arith) (ground arith))
      | inr q ↦ rw q refl
    ]

CopiedOut-trans :
    (root v k n len : ℕ) (s s1 s2 : Ram)
    → IsUserRange root s.entry v k (n + len)
    → CopiedOut root v k n s s1
    → CopiedOut root (v + n) (k + n) len s1 s2
    → CopiedOut root v k (n + len) s s2
CopiedOut-trans root v k n len s s1 s2 h c d = record {
  entries = d.entries ∙ c.entries;
  stored = λ j hj. elim (Bool-cases (ltb j n)) [
    | inl early ↦
        let q : j < n = ground arith in
        d.others (phys root s.entry (v + j)) (λ i hi e.
          phys_apart root s.entry v k (n + len) j (n + i) h hj (omega arith) (omega arith)
            (e ∙ at_entry i))
        ∙ c.stored j q
    | inr late ↦
        let q : n ≤ j = ground arith in
        let qv : v + j ≡ v + n + (j - n) = omega arith in
        let qk : k + j ≡ k + n + (j - n) = omega arith in
        rw qv (
          subst (λ f. s2.bytes (phys root f (v + n + (j - n))) ≡ s.bytes (k + j)) c.entries
            (d.stored (j - n) (omega arith)
              ∙ ap s1.bytes (sym qk)
              ∙ c.others (k + j)
                  (λ i hi. source_apart root s.entry v k (n + len) j i h hj (omega arith))))
  ];
  others = λ a away.
      d.others a (λ i hi e. away (n + i) (omega arith) (e ∙ at_entry i))
      ∙ c.others a (λ i hi. away i (omega arith));
}
  where
    at_entry : (i : ℕ) → phys root s1.entry (v + n + i) ≡ phys root s.entry (v + (n + i))
    at_entry i =
        let q : v + n + i ≡ v + (n + i) = omega arith in
        rw q (ap (λ f. phys root f (v + (n + i))) c.entries)

-- A round of `copyout`.
out_from_stop :
    (root v k len fuel : ℕ) (s : Ram)
    → page_of root s.entry v ≡ 0
    → out_from root v k (suc len) (suc fuel) s ≡ (minus_one, s)
unfolding out_from
out_from_stop root v k len fuel s h = ground (arith, walkaddr_lem root (pg_round_down v) s, h)

out_from_step :
    (root v k len fuel : ℕ) (s : Ram)
    → page_of root s.entry v ≢ 0
    → out_from root v k (suc len) (suc fuel) s
      ≡ out_from root
          ((pg_round_down v + page_size) % 2 ^ 64)
          (k + chunk v (suc len))
          (suc len - chunk v (suc len))
          fuel
          (move_bytes (page_of root s.entry v + (v - pg_round_down v)) k (chunk v (suc len)) s)
unfolding out_from
out_from_step root v k len fuel s h =
    let q = walkaddr_lem root (pg_round_down v) s in
    let w : (walkaddr root (pg_round_down v) s == 0) ≡ false =
      ne→== (walkaddr root (pg_round_down v) s) 0 (λ z. h (sym q ∙ z)) in
    rw (w, out_from) (rw (← q) refl)

out_from_done : (root v k fuel : ℕ) (s : Ram) → out_from root v k 0 fuel s ≡ (pos 0, s)
unfolding out_from
out_from_done root v k fuel s = refl

next_round :
    (root v k len fuel n : ℕ) (s : Ram)
    → v + suc len < 2 ^ 64
    → (n < suc len → pg_round_down v + page_size ≡ v + n)
    → out_from root ((pg_round_down v + page_size) % 2 ^ 64) (k + n) (suc len - n) fuel s
      ≡ out_from root (v + n) (k + n) (suc len - n) fuel s
next_round root v k len fuel n s below next = elim (Bool-cases (ltb n (suc len))) [
  | inl more ↦
      let q = next (ltb→lt n (suc len) more) in
      let w : (v + n) % 2 ^ 64 ≡ v + n = ground arith in rw (q, w) refl
  | inr all ↦
      let z : suc len - n ≡ 0 = ground arith in
      rw (z, out_from_done root (v + n) (k + n) fuel s)
        (out_from_done root ((pg_round_down v + page_size) % 2 ^ 64) (k + n) fuel s)
]

pub out_from-CopiedOut :
    (root v k len fuel : ℕ) (s : Ram)
    → len ≤ fuel
    → IsUserRange root s.entry v k len
    → (s' : Ram) × (out_from root v k len fuel s ≡ (pos 0, s')) × CopiedOut root v k len s s'
out_from-CopiedOut root v k zero fuel s le h = (
  s,
  out_from_done root v k fuel s,
  record { entries = refl; stored = λ j hj. absurd (omega arith); others = λ a _. refl },
)
out_from-CopiedOut root v k (suc len) zero s le h = absurd (omega arith)
out_from-CopiedOut root v k (suc len) (suc fuel) s le h =
    let n = chunk v (suc len) in
    let (some_bytes, fits, next) = chunk_bounds v len in
    let whole : n + (suc len - n) ≡ suc len = omega (arith, fits) in
    let range : IsUserRange root s.entry v k (n + (suc len - n)) =
      subst (IsUserRange root s.entry v k) (sym whole) h in
    let s1 = move_bytes (page_of root s.entry v + (v - pg_round_down v)) k n s in
    let first = CopiedOut-chunk root v k (suc len) s h in
    let step = out_from_step root v k len fuel s (here root s.entry v k len h) in
    let (s2, e, more) =
      out_from-CopiedOut root (v + n) (k + n) (suc len - n) fuel s1 (omega (arith, some_bytes, le))
        (IsUserRange-rest root s.entry v k (suc len - n) n range) in
    (
      s2,
      step ∙ next_round root v k len fuel n s1 (omega (arith, h.below)) next ∙ e,
      subst (λ l. CopiedOut root v k l s s2) whole
          (CopiedOut-trans root v k n (suc len - n) s s1 s2 range first more),
    )

-- A page of the range that is not mapped.
out_from_fails :
    (root v k len fuel j : ℕ) (s : Ram)
    → len ≤ fuel
    → v + len < 2 ^ 64
    → j < len
    → page_of root s.entry (v + j) ≡ 0
    → (out_from root v k len fuel s).0 ≡ minus_one
out_from_fails root v k zero fuel j s le wrap hj gone = absurd (omega arith)
out_from_fails root v k (suc len) zero j s le wrap hj gone = absurd (omega arith)
out_from_fails root v k (suc len) (suc fuel) j s le wrap hj gone =
    elim (Bool-cases (page_of root s.entry v == 0)) [
      | inl none_here ↦
          ap (λ r. r.0)
            (out_from_stop root v k len fuel s (==→eq (page_of root s.entry v) 0 none_here))
      | inr there ↦
          let n = chunk v (suc len) in
          let (some_bytes, fits, next) = chunk_bounds v len in
          let s1 = move_bytes (page_of root s.entry v + (v - pg_round_down v)) k n s in
          let ne = ==→ne (page_of root s.entry v) 0 there in
          elim (Bool-cases (ltb j n)) [
            | inl early ↦
                absurd
                  (ne (ap (user_page root s.entry) (chunk_page v len j (ltb→lt j n early)) ∙ gone))
            | inr late ↦
                let hn = ltb→le j n late in
                let q : v + j ≡ v + n + (j - n) = omega arith in
                ap (λ r. r.0)
                  (out_from_step root v k len fuel s ne
                    ∙ next_round root v k len fuel n s1 wrap next)
                ∙ out_from_fails root (v + n) (k + n) (suc len - n) fuel (j - n) s1
                    (omega (arith, some_bytes)) (omega (arith, fits)) (omega arith)
                    (subst (λ x. page_of root s.entry x ≡ 0) q gone)
          ]
    ]
  where
    chunk_page : (v len j : ℕ) → j < chunk v (suc len) → pg_round_down v ≡ pg_round_down (v + j)
    chunk_page v len j h = ground arith

-- `copyout` to user addresses that are mapped, each page to a page of its own apart from the source,
-- returns 0 with each byte at the physical address of its user address and every other byte as it was.
-- If a page of the range is not mapped for the user, it returns -1.
pub copyout_lem :
    (root v k len : ℕ) (s : Ram)
    → v + len < 2 ^ 64
    → (IsUserRange root s.entry v k len
        → (s' : Ram) × (copyout root v k len s ≡ (pos 0, s')) × CopiedOut root v k len s s')
      × ((j : ℕ)
          → j < len
          → page_of root s.entry (v + j) ≡ 0
          → (copyout root v k len s).0 ≡ minus_one)
unfolding copyout
copyout_lem root v k len s wrap = (
  out_from-CopiedOut root v k len len s (omega arith),
  λ j hj gone. out_from_fails root v k len len j s (omega arith) wrap hj gone,
)
