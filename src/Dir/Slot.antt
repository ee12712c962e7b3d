-- ===== src/Dir/Slot.antt =====
-- kernel/fs.c: the entry that `dirlink` takes, and what it puts there.
use mp.Prelude.{
  ℕ, zero, suc, ◌+◌, ◌*◌, ◌^◌, ◌≤◌, ◌<◌, ◌≡◌, refl, sym, ap, ◌∙◌, ◌≢◌, ◌⊎◌, inl, inr, Bool, true,
  false, ◌&&◌, none, some, arith, ltb, leb, ◌==◌, if◌then◌else◌, ==→eq, ==→ne, Bool-cases, ok,
  ◌>>=◌,
}
use mp.Prelude.Int.{pos, eqb}
use mp.Words.{read_u16, write_u16, read-write_u16}
use mp.Str.{Memory, strncpy}
use mp.Str.Names.{strncmp-strncpy}
use mp.Fs.{Superblock}
use mp.Fs.Content.{File}
use mp.Fs.ReadWrite.{kernel_out, readi}
use mp.Dir.{name_size, dirent_size, slot_from, fill_entry}
use mp.Dir.Entries.{
  Name, same_chars, same_chars_sym, same_chars_ext, strncmp-same_chars, entry_inum, IsDirectory,
  readi-HasEntry,
}
use mp.Dir.Lookup.{first_hit, HasName, SameOutside}

pub first_hit_ext :
    (h h' : ℕ → Bool) (k left : ℕ)
    → ((i : ℕ) → k ≤ i → i < k + left → h i ≡ h' i)
    → first_hit h k left ≡ first_hit h' k left
unfolding first_hit
first_hit_ext h h' k zero same = refl
first_hit_ext h h' k (suc left) same =
    rw
      (
        same k (omega arith) (omega arith),
        first_hit_ext h h' (k + 1) left (λ i lo hi. same i (omega arith) (omega arith)),
      )
      refl

pub first_hit-none :
    (h : ℕ → Bool) (k left i : ℕ) → first_hit h k left ≡ none → k ≤ i → i < k + left → h i ≡ false
unfolding first_hit
first_hit-none h k zero i e lo hi = absurd (omega arith)
first_hit-none h k (suc left) i e lo hi = elim (Bool-cases (h k)) [
  | inl q ↦ absurd (cc)
  | inr q ↦ elim (Bool-cases (k == i)) [
    | inl here ↦ ap h (sym (==→eq k i here)) ∙ q
    | inr later ↦
        first_hit-none h (k + 1) left i (cc) (omega (arith, ==→ne k i later)) (omega arith)
  ]
]

pub first_hit-some :
    (h : ℕ → Bool) (k left i : ℕ) → first_hit h k left ≡ some i → (h i ≡ true) × (i < k + left)
unfolding first_hit
first_hit-some h k zero i e = absurd (cc)
first_hit-some h k (suc left) i e = elim (Bool-cases (h k)) [
  | inl q ↦ let w : k ≡ i = cc in (ap h (sym w) ∙ q, omega arith)
  | inr q ↦ let (a, b) = first_hit-some h (k + 1) left i (cc) in (a, omega (arith, b))
]

pub first_hit_at :
    (h : ℕ → Bool) (k left j : ℕ)
    → ((i : ℕ) → k ≤ i → i < j → h i ≡ false)
    → h j ≡ true
    → k ≤ j
    → j < k + left
    → first_hit h k left ≡ some j
unfolding first_hit
first_hit_at h k zero j before at lo hi = absurd (omega arith)
first_hit_at h k (suc left) j before at lo hi = elim (Bool-cases (k == j)) [
  | inl here ↦ let e : k ≡ j = ==→eq k j here in rw (ap h e ∙ at) (ap some e)
  | inr later ↦
      let ne = ==→ne k j later in
      rw (before k (omega arith) (omega (arith, ne))) (
        first_hit_at h (k + 1) left j (λ i a b. before i (omega arith) b) at (omega (arith, ne))
          (omega arith))
]

-- A last entry that is no hit does not count.
pub first_hit_last :
    (h : ℕ → Bool) (k left : ℕ)
    → h (k + left) ≡ false
    → first_hit h k (suc left) ≡ first_hit h k left
unfolding first_hit
first_hit_last h k zero e = let z : k + 0 ≡ k = omega arith in rw (ap h (sym z) ∙ e) refl
first_hit_last h k (suc left) e =
    let q : k + suc left ≡ k + 1 + left = omega arith in
    ap (λ r. if h k then some k else r) (first_hit_last h (k + 1) left (ap h (sym q) ∙ e))

-- Where the loop of `dirlink` stops.
pub record TakesSlot (f : File) (count j de : ℕ) (m m' : Memory) : Type 0 where
  pub bound : j ≤ count
  pub free : j < count → entry_inum f j ≡ 0
  pub outside : SameOutside de m m'

slot_from-step :
    (sb : Superblock) (de off left : ℕ) (f : File) (m m' : Memory)
    → readi kernel_out sb de off dirent_size f m ≡ ok (pos dirent_size, f, m')
    → slot_from sb de off (suc left) f m ≡ (
        if read_u16 m' de == 0
        then ok (off, f, m')
        else slot_from sb de (off + dirent_size) left f m')
unfolding slot_from ◌>>=◌
slot_from-step sb de off left f m m' e = rw e refl

pub slot_from-TakesSlot :
    (sb : Superblock) (de count k left : ℕ) (f : File) (m : Memory)
    → IsDirectory f count
    → k + left ≡ count
    → (j : ℕ) × (m' : Memory) × (slot_from sb de (dirent_size * k) left f m
        ≡ ok (dirent_size * j, f, m'))
      × TakesSlot f count j de m m'
unfolding slot_from
slot_from-TakesSlot sb de count k zero f m d e = (
  k,
  m,
  refl,
  record { bound = omega arith; free = λ lt. absurd (omega arith); outside = λ a o. refl },
)
slot_from-TakesSlot sb de count k (suc left) f m d e =
    let (m1, r, entry) = readi-HasEntry sb de count k f m d (omega arith) in
    let next : dirent_size * k + dirent_size ≡ dirent_size * (k + 1) = omega arith in
    let step = slot_from-step sb de (dirent_size * k) left f m m1 r in
    elim (Bool-cases (read_u16 m1 de == 0)) [
      | inl z ↦ (
        k,
        m1,
        step ∙ rw z refl,
        record {
          bound = omega arith;
          free = λ lt. sym entry.inum ∙ ==→eq (read_u16 m1 de) 0 z;
          outside = entry.outside;
        },
      )
      | inr z ↦
          let (j, m2, r2, t) = slot_from-TakesSlot sb de count (k + 1) left f m1 d (omega arith) in
          (
            j,
            m2,
            step ∙ rw (z, next) r2,
            record {
              bound = t.bound;
              free = t.free;
              outside = λ a o. t.outside a o ∙ entry.outside a o;
            },
          )
    ]

-- The entry that `dirlink` makes up at `de`.
pub record Filled (inum de : ℕ) (c : Name) (m m' : Memory) : Type 0 where
  pub number : read_u16 m' de ≡ inum
  pub named : same_chars name_size c (λ i. m' (de + 2 + i)) ≡ true
  pub outside : SameOutside de m m'

write_u16_outside : (m : Memory) (de v a : ℕ) → a ≢ de → a ≢ de + 1 → write_u16 m de v a ≡ m a
unfolding write_u16
write_u16_outside m de v a p q = ground arith

in_field : (de i : ℕ) → (de + 2 + i ≢ de) × (de + 2 + i ≢ de + 1)
in_field de i = (λ e. omega (arith, e), λ e. omega (arith, e))

pub fill_entry-Filled :
    (name inum de : ℕ) (m : Memory) (c : Name)
    → HasName m name de c
    → inum < 2 ^ 16
    → Filled inum de c m (fill_entry name inum de m)
unfolding fill_entry
fill_entry-Filled name inum de m c h small =
    let m3 = strncpy (de + 2) name name_size m in
    let (same, outside) = strncmp-strncpy (de + 2) name name_size m (field_apart name de h.apart) in
    let kept : (i : ℕ) → i < name_size → m3 (name + i) ≡ c i =
      λ i hi. outside (name + i) (name_apart name de i h.apart hi) ∙ h.chars i hi in
    let match : same_chars name_size (λ i. m3 (de + 2 + i)) (λ i. m3 (name + i)) ≡ true =
      sym (strncmp-same_chars (de + 2) name name_size m3) ∙ ap (λ r. eqb r (pos 0)) same in
    record {
      number = read-write_u16 m3 de inum small;
      named =
          same_chars_ext name_size c c _ (λ i. m3 (de + 2 + i)) (λ i hi. refl)
            (λ i hi. let (p, q) = in_field de i in write_u16_outside m3 de inum (de + 2 + i) p q)
          ∙ same_chars_sym name_size c (λ i. m3 (de + 2 + i))
          ∙ same_chars_ext name_size (λ i. m3 (de + 2 + i)) (λ i. m3 (de + 2 + i)) c
              (λ i. m3 (name + i)) (λ i hi. refl) (λ i hi. sym (kept i hi))
          ∙ match;
      outside =
          λ a o. let (p, q, w) = out de a o in write_u16_outside m3 de inum a p q ∙ outside a w;
    }
  where
    field_apart :
        (name de : ℕ)
        → (name + name_size ≤ de) ⊎ (de + dirent_size ≤ name)
        → (de + 2 + name_size ≤ name) ⊎ (name + name_size ≤ de + 2)
    field_apart name de h = elim h [ inl p ↦ inr (omega arith) | inr p ↦ inl (omega arith) ]

    name_apart :
        (name de i : ℕ)
        → (name + name_size ≤ de) ⊎ (de + dirent_size ≤ name)
        → i < name_size
        → (leb (de + 2) (name + i) && ltb (name + i) (de + 2 + name_size)) ≡ false
    name_apart name de i h hi = ground arith

    out :
        (de a : ℕ)
        → (leb de a && ltb a (de + dirent_size)) ≡ false
        → (a ≢ de) × (a ≢ de + 1) × ((leb (de + 2) a && ltb a (de + 2 + name_size)) ≡ false)
    out de a o = (λ e. bad_at de a o e, λ e. bad_next de a o e, ground arith)
      where
        bad_at : (de a : ℕ) → (leb de a && ltb a (de + dirent_size)) ≡ false → a ≡ de → ⊥
        bad_at de a o e = ground arith

        bad_next : (de a : ℕ) → (leb de a && ltb a (de + dirent_size)) ≡ false → a ≡ de + 1 → ⊥
        bad_next de a o e = ground arith
