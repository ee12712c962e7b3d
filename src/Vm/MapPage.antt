-- ===== src/Vm/MapPage.antt =====
-- kernel/vm.c: one page of `mappages`.
use mp.Prelude.{
  ℕ, ◌+◌, ◌/◌, ◌<◌, ◌≡◌, refl, ◌∙◌, ◌≢◌, ◌⊎◌, inl, inr, Bool, true, false, Option, none, some, List,
  [], ◌==◌, if◌then◌else◌, All, ok, ◌>>=◌,
}
use mp.Kalloc.{page_size}
use mp.Vm.{maxva, is_valid, pa2pte, px, pg_round_down, with_v, Ram, set_entry, map_entry, map_page}
use mp.Vm.Tree.{pte_at, IsSound}
use mp.Vm.Walk.{Walks, walk-Walks}
use mp.Vm.Leaf.{set_leaf-IsTree, set_leaf-pte_at, leaf-pte_at}

-- What a call that maps leaves: a sound table, the bytes of the pages that were not free, and no page
-- made free.
pub record Keeps (root : ℕ) (s : Ram) (free : List ℕ) (place' : ℕ → ℕ) (s' : Ram) (free' : List ℕ)
    : Type 0 where
  pub sound : IsSound place' root s' free'
  pub bytes : (a : ℕ) → All (λ p. pg_round_down a ≢ p) free → s'.bytes a ≡ s.bytes a
  pub within : (q : ℕ) → All (λ p. q ≢ p) free → All (λ p. q ≢ p) free'

pub Keeps-trans :
    {root : ℕ} {place' place'' : ℕ → ℕ} {s s' s'' : Ram} {free free' free'' : List ℕ}
    → Keeps root s free place' s' free'
    → Keeps root s' free' place'' s'' free''
    → Keeps root s free place'' s'' free''
Keeps-trans g h = record {
  sound = h.sound;
  bytes = λ a away. h.bytes a (g.within (pg_round_down a) away) ∙ g.bytes a away;
  within = λ q away. h.within q (g.within q away);
}

-- One page: it is mapped, and no other, or no page is free and nothing is mapped.
pub record MapsPage (root : ℕ) (s : Ram) (free : List ℕ) (va pte : ℕ) (r : Bool × Ram)
    : Type 0 where
  pub place' : ℕ → ℕ
  pub free' : List ℕ
  pub keeps : Keeps root s free place' r.1 free'
  pub maps :
      ((r.0 ≡ false) × (free' ≡ []) × ((a : ℕ) → pte_at root r.1.entry a ≡ pte_at root s.entry a))
      ⊎ ((r.0 ≡ true)
          × ((a : ℕ)
              → a < maxva
              → pte_at root r.1.entry a
                ≡ (if a / page_size == va / page_size then pte else pte_at root s.entry a)))

map_entry-MapsPage :
    (root : ℕ) (place : ℕ → ℕ) (s : Ram) (free : List ℕ) (va pa perm : ℕ)
    → va < maxva
    → is_valid (pte_at root s.entry va) ≡ false
    → (r : Option (ℕ × ℕ) × Ram) → Walks root place s free va r
    → (b : Bool × Ram) × (map_entry r.0 pa perm r.1 ≡ ok b)
      × MapsPage root s free va (pa2pte pa + with_v perm) b
unfolding map_entry
map_entry-MapsPage root place s free va pa perm lt gone (none, s') w = (
  (false, s'),
  refl,
  record {
    place' = w.place';
    free' = w.free';
    keeps = record { sound = w.grows.sound; bytes = w.grows.bytes; within = w.grows.within };
    maps = elim w.leaf [ inl (e, z) ↦ inl (refl, z, w.grows.same) | inr (t, e, l) ↦ cc ];
  },
)
map_entry-MapsPage root place s free va pa perm lt gone (some (t, i), s') w = elim w.leaf [
  | inl (e, z) ↦ cc
  | inr (u, e, l) ↦
      let et : t ≡ u = cc in
      let ei : i ≡ px 0 va = cc in
      let pte = pa2pte pa + with_v perm in
      let now : is_valid (s'.entry u (px 0 va)) ≡ false =
        rw (← leaf-pte_at root w.place' s'.entry va u l, w.grows.same va) gone in
      (
        (true, set_entry u (px 0 va) pte s'),
        rw (et, ei, now) refl,
        record {
          place' = w.place';
          free' = w.free';
          keeps = record {
            sound = record {
              tree = set_leaf-IsTree w.place' root s'.entry va u pte w.grows.sound.tree l;
              holds = w.grows.sound.holds;
              outside = w.grows.sound.outside;
            };
            bytes = w.grows.bytes;
            within = w.grows.within;
          };
          maps = inr (
            refl,
            λ a la.
                rw (← w.grows.same a)
                  (set_leaf-pte_at w.place' root s'.entry va u pte a w.grows.sound.tree l lt la),
          );
        },
      )
]

pub map_page-MapsPage :
    (root : ℕ) (place : ℕ → ℕ) (s : Ram) (free : List ℕ) (va pa perm : ℕ)
    → IsSound place root s free
    → va < maxva
    → is_valid (pte_at root s.entry va) ≡ false
    → (b : Bool × Ram) × (map_page root va pa perm s ≡ ok b)
      × MapsPage root s free va (pa2pte pa + with_v perm) b
unfolding map_page ◌>>=◌
map_page-MapsPage root place s free va pa perm h lt gone =
    let (r, e, w) = walk-Walks root place s free va h lt in
    let (b, f, m) = map_entry-MapsPage root place s free va pa perm lt gone r w in (b, rw e f, m)
