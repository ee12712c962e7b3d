-- ===== src/Vm/Mapping.antt =====
-- kernel/vm.c: `mappages` and `uvmunmap` as changes of the map from virtual addresses to entries.
use mp.Prelude.{
  ℕ, zero, suc, ◌+◌, ◌-◌, ◌*◌, ◌/◌, ◌%◌, ◌^◌, ◌≤◌, ◌<◌, ◌≡◌, refl, sym, ap, ◌∙◌, ◌⊎◌, inl, inr,
  Bool, true, false, ◌&&◌, List, [], arith, ltb, leb, ◌==◌, if◌then◌else◌, ==→eq, ==→ne, Bool-cases,
  ok, ◌>>=◌,
}
use mp.Prelude.Int.{ℤ, pos, minus_one}
use mp.Kalloc.{page_size}
use mp.Vm.{maxva, is_valid, pa2pte, pg_round_down, with_v, Ram, map_page, map_from, mappages}
use mp.Vm.Tree.{pte_at, IsSound}
use mp.Vm.MapPage.{Keeps, Keeps-trans, map_page-MapsPage}

-- The table after the pages from `a` to below `stop` were mapped, in order, to the memory from `pa` on.
abbrev pub mapped : ℕ → (ℕ → ℕ → ℕ) → ℕ → ℕ → ℕ → ℕ → ℕ → ℕ
mapped root e a stop pa perm va =
    if leb a va && ltb va stop
    then pa2pte (pa + (pg_round_down va - a)) + with_v perm
    else pte_at root e va

-- The pages from `a` to `last` are mapped, with a return of 0, or those below the page `stop` at which
-- no table could be allocated, with a return of -1.
pub record Maps (root : ℕ) (s : Ram) (free : List ℕ) (a last pa perm : ℕ) (r : ℤ × Ram)
    : Type 0 where
  pub place' : ℕ → ℕ
  pub free' : List ℕ
  pub keeps : Keeps root s free place' r.1 free'
  pub stop : ℕ
  pub maps : (v : ℕ) → v < maxva → pte_at root r.1.entry v ≡ mapped root s.entry a stop pa perm v
  pub returns :
      ((r.0 ≡ pos 0) × (stop ≡ last + page_size))
      ⊎ ((r.0 ≡ minus_one) × (free' ≡ []) × (a ≤ stop) × (stop ≤ last) × (stop % page_size ≡ 0))

mapped_none :
    (root : ℕ) (e : ℕ → ℕ → ℕ) (a pa perm v : ℕ) → mapped root e a a pa perm v ≡ pte_at root e v
mapped_none root e a pa perm v = let q : (leb a v && ltb v a) ≡ false = ground arith in rw q refl

mapped_one :
    (root : ℕ) (e e' : ℕ → ℕ → ℕ) (a pa perm v : ℕ)
    → a % page_size ≡ 0
    → pte_at root e' v
      ≡ (if v / page_size == a / page_size then pa2pte pa + with_v perm else pte_at root e v)
    → pte_at root e' v ≡ mapped root e a (a + page_size) pa perm v
mapped_one root e e' a pa perm v al h =
    rw h (mapped_one_at a pa v (with_v perm) (pte_at root e v) al)
  where
    mapped_one_at :
        (a pa v w x : ℕ)
        → a % page_size ≡ 0
        → (if v / page_size == a / page_size then pa2pte pa + w else x) ≡ (
            if leb a v && ltb v (a + page_size) then pa2pte (pa + (pg_round_down v - a)) + w else x)
    mapped_one_at a pa v w x al = elim (Bool-cases (v / page_size == a / page_size)) [
      | inl same ↦
          let q : v / page_size ≡ a / page_size = ==→eq (v / page_size) (a / page_size) same in
          let z : pg_round_down v - a ≡ 0 = omega arith in rw (same, z) (ground arith)
      | inr apart ↦ ground (arith, ==→ne (v / page_size) (a / page_size) apart)
    ]

mapped_more :
    (root : ℕ) (e e' : ℕ → ℕ → ℕ) (a stop pa perm v : ℕ)
    → a % page_size ≡ 0
    → a + page_size ≤ stop
    → pte_at root e' v
      ≡ (if v / page_size == a / page_size then pa2pte pa + with_v perm else pte_at root e v)
    → mapped root e' (a + page_size) stop (pa + page_size) perm v ≡ mapped root e a stop pa perm v
mapped_more root e e' a stop pa perm v al le h =
    rw h (mapped_more_at a stop pa v (with_v perm) (pte_at root e v) al le)
  where
    mapped_more_at :
        (a stop pa v w x : ℕ)
        → a % page_size ≡ 0
        → a + page_size ≤ stop
        → (if leb (a + page_size) v && ltb v stop
            then pa2pte (pa + page_size + (pg_round_down v - (a + page_size))) + w
            else if v / page_size == a / page_size
            then pa2pte pa + w
            else x)
          ≡ (if leb a v && ltb v stop then pa2pte (pa + (pg_round_down v - a)) + w else x)
    mapped_more_at a stop pa v w x al le = elim (Bool-cases (v / page_size == a / page_size)) [
      | inl same ↦
          let q : v / page_size ≡ a / page_size = ==→eq (v / page_size) (a / page_size) same in
          let z : pg_round_down v - a ≡ 0 = omega arith in rw (same, z) (ground arith)
      | inr apart ↦
          let q = ==→ne (v / page_size) (a / page_size) apart in
          elim (Bool-cases (leb (a + page_size) v)) [
            | inl above ↦
                let z : pa + page_size + (pg_round_down v - (a + page_size))
                    ≡ pa + (pg_round_down v - a) =
                  ground arith in
                rw z (ground arith)
            | inr below ↦ ground arith
          ]
    ]

Maps-more :
    (root : ℕ) (s : Ram) (free : List ℕ) (a last pa perm : ℕ) (s' : Ram) (place' : ℕ → ℕ)
    (free' : List ℕ) (r : ℤ × Ram)
    → a % page_size ≡ 0
    → Keeps root s free place' s' free'
    → ((v : ℕ)
        → v < maxva
        → pte_at root s'.entry v ≡ (
            if v / page_size == a / page_size
            then pa2pte pa + with_v perm
            else pte_at root s.entry v))
    → a + page_size ≤ last
    → Maps root s' free' (a + page_size) last (pa + page_size) perm r
    → Maps root s free a last pa perm r
Maps-more root s free a last pa perm s' place' free' r al k one le m =
    let low : a + page_size ≤ m.stop = elim m.returns [
      | inl (_, e) ↦ omega (arith, e)
      | inr (_, _, b, _, _) ↦ b
    ] in
    record {
      place' = m.place';
      free' = m.free';
      keeps = Keeps-trans k m.keeps;
      stop = m.stop;
      maps = λ v lt.
          m.maps v lt ∙ mapped_more root s.entry s'.entry a m.stop pa perm v al low (one v lt);
      returns = elim m.returns [
        | inl z ↦ inl z
        | inr (e, f, b, c, d) ↦ inr (e, f, omega (arith, b), c, d)
      ];
    }

-- The pages are not mapped yet.
abbrev pub Unmapped : ℕ → (ℕ → ℕ → ℕ) → ℕ → ℕ → Type 0
Unmapped root e a last =
    (v : ℕ) → v < maxva → a ≤ v → v < last + page_size → is_valid (pte_at root e v) ≡ false

map_from_full :
    (root a last pa perm fuel : ℕ) (s : Ram) (b : Bool × Ram)
    → map_page root a pa perm s ≡ ok b
    → b.0 ≡ false
    → map_from root a last pa perm (suc fuel) s ≡ ok (minus_one, b.1)
unfolding map_from ◌>>=◌
map_from_full root a last pa perm fuel s (b, s') e f = rw (e, f) refl

map_from_last :
    (root a last pa perm fuel : ℕ) (s : Ram) (b : Bool × Ram)
    → map_page root a pa perm s ≡ ok b
    → b.0 ≡ true
    → (a == last) ≡ true
    → map_from root a last pa perm (suc fuel) s ≡ ok (pos 0, b.1)
unfolding map_from ◌>>=◌
map_from_last root a last pa perm fuel s (b, s') e f q = rw (e, f, q) refl

map_from_more :
    (root a last pa perm fuel : ℕ) (s : Ram) (b : Bool × Ram)
    → map_page root a pa perm s ≡ ok b
    → b.0 ≡ true
    → (a == last) ≡ false
    → pa + page_size < 2 ^ 64
    → map_from root a last pa perm (suc fuel) s
      ≡ map_from root (a + page_size) last (pa + page_size) perm fuel b.1
unfolding map_from ◌>>=◌
map_from_more root a last pa perm fuel s (b, s') e f q small =
    let w : (pa + page_size) % 2 ^ 64 ≡ pa + page_size = omega arith in rw (e, f, q, w) refl

map_from-Maps :
    (root : ℕ) (place : ℕ → ℕ) (s : Ram) (free : List ℕ) (a last pa perm fuel : ℕ)
    → IsSound place root s free
    → a % page_size ≡ 0
    → last % page_size ≡ 0
    → a ≤ last
    → last < maxva
    → pa + (last - a) < 2 ^ 64
    → last < a + fuel * page_size
    → Unmapped root s.entry a last
    → (r : ℤ × Ram) × (map_from root a last pa perm fuel s ≡ ok r)
      × Maps root s free a last pa perm r
map_from-Maps root place s free a last pa perm zero h al ll le lt wrap enough gone =
    absurd (omega arith)
map_from-Maps root place s free a last pa perm (suc fuel) h al ll le lt wrap enough gone =
    let (b, e, m) =
      map_page-MapsPage root place s free a pa perm h (omega arith)
        (gone a (omega arith) (omega arith) (omega arith)) in
    elim m.maps [
      | inl (f, z, same) ↦ (
        (minus_one, b.1),
        map_from_full root a last pa perm fuel s b e f,
        record {
          place' = m.place';
          free' = m.free';
          keeps = m.keeps;
          stop = a;
          maps = λ v hv. same v ∙ sym (mapped_none root s.entry a pa perm v);
          returns = inr (refl, z, omega arith, le, al);
        },
      )
      | inr (t, one) ↦ elim (Bool-cases (a == last)) [
        | inl last_one ↦
            let q : a ≡ last = ==→eq a last last_one in
            (
              (pos 0, b.1),
              map_from_last root a last pa perm fuel s b e t last_one,
              record {
                place' = m.place';
                free' = m.free';
                keeps = m.keeps;
                stop = a + page_size;
                maps = λ v hv. mapped_one root s.entry b.1.entry a pa perm v al (one v hv);
                returns = inl (refl, ap (λ x. x + page_size) q);
              },
            )
        | inr more ↦
            let ne = ==→ne a last more in
            let le' : a + page_size ≤ last = omega arith in
            let (r, f, w) =
              map_from-Maps root m.place' b.1 m.free' (a + page_size) last (pa + page_size) perm
                fuel m.keeps.sound (omega arith) ll le' lt (omega arith) (omega arith)
                (λ v hv lo hi. rw (one v hv) (
                  let away : (v / page_size == a / page_size) ≡ false = ground arith in
                  rw away (gone v hv (omega arith) hi))) in
            (
              r,
              map_from_more root a last pa perm fuel s b e t more (omega arith) ∙ f,
              Maps-more root s free a last pa perm b.1 m.place' m.free' r al m.keeps one le' w,
            )
      ]
    ]

-- `mappages` of a range that is not mapped maps each of its pages, in order, to the pages from `pa` on
-- with the permissions, and leaves every other address as it was; where no page is left for a table, it
-- returns -1 after some of the pages. It takes only free pages, changes no byte of the others, and
-- leaves a sound table.
pub mappages_lem :
    (root : ℕ) (place : ℕ → ℕ) (s : Ram) (free : List ℕ) (va size pa perm : ℕ)
    → IsSound place root s free
    → 0 < size
    → va + size ≤ maxva
    → pa + size + page_size < 2 ^ 64
    → Unmapped root s.entry (pg_round_down va) (pg_round_down (va + size - 1))
    → (r : ℤ × Ram) × (mappages root va size pa perm s ≡ ok r)
      × Maps root s free (pg_round_down va) (pg_round_down (va + size - 1)) pa perm r
unfolding mappages
mappages_lem root place s free va size pa perm h some_size below fits gone =
    let e : (va + size + (2 ^ 64 - 1)) % 2 ^ 64 ≡ va + size - 1 = omega arith in
    rw e (
      map_from-Maps root place s free (pg_round_down va) (pg_round_down (va + size - 1)) pa perm
        (maxva / page_size) h (omega arith) (omega arith) (omega arith) (omega arith) (omega arith)
        (omega arith) gone)
