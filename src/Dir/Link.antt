-- ===== src/Dir/Link.antt =====
-- kernel/fs.c: `dirlink`, and `dirlookup` after it.
use mp.Prelude.{
  ℕ, suc, ◌+◌, ◌-◌, ◌*◌, ◌/◌, ◌≤◌, ◌<◌, max, ◌≡◌, refl, sym, ap, ap₂, ◌∙◌, ◌≢◌, ◌⊎◌, inl, inr, true,
  false, not, ◌&&◌, none, some, arith, ltb, leb, ◌==◌, ltb→lt, ltb→le, ==→eq, ==→ne, ne→==,
  Bool-cases, Option-cases,
}
use mp.Param.{bsize}
use mp.Words.{read_u16}
use mp.Str.{Memory}
use mp.Fs.{Superblock}
use mp.Fs.Content.{maxfile, File}
use mp.Fs.ByteAt.{byte_at}
use mp.Fs.Write.{written}
use mp.Fs.Writei.{Writes}
use mp.Dir.{name_size, dirent_size}
use mp.Dir.Entries.{
  Name, same_chars, same_chars_sym, same_chars_same, same_chars_ext, entry_inum, entry_name,
  IsDirectory,
}
use mp.Dir.Lookup.{first_hit, is_hit, at_entry, lookup_in}
use mp.Dir.Slot.{
  first_hit_ext, first_hit-none, first_hit-some, first_hit_at, first_hit_last, Filled,
}

-- The directory once the entry `j` is written from the memory `m` at `de`.
pub record Stores (f : File) (count j de : ℕ) (m : Memory) (f' : File) : Type 0 where
  pub number : entry_inum f' j ≡ read_u16 m de
  pub chars : (i : ℕ) → i < name_size → entry_name f' j i ≡ m (de + 2 + i)
  pub numbers : (k : ℕ) → k < count → k ≢ j → entry_inum f' k ≡ entry_inum f k
  pub names :
      (k : ℕ) → k < count → k ≢ j → (i : ℕ) → i < name_size → entry_name f' k i ≡ entry_name f k i

-- The directory with its new number of entries.
abbrev pub grown_count : ℕ → ℕ → ℕ
grown_count count j = max count (j + 1)

pub Writes-IsDirectory :
    (sb : Superblock) (f f' : File) (m : Memory) (de count j : ℕ)
    → IsDirectory f count
    → j ≤ count
    → dirent_size * (count + 1) ≤ maxfile * bsize
    → Writes sb f m de (dirent_size * j) dirent_size f'
    → IsDirectory f' (grown_count count j)
Writes-IsDirectory sb f f' m de count j d le room w =
    let sz = d.size in
    let sz' = w.size in
    record {
      type = w.type ∙ d.type;
      size = omega (arith, sz, sz');
      fits = omega (arith, sz, sz');
      whole = λ x hx. elim (Bool-cases (ltb x f.ip.size)) [
        | inl q ↦
            let lt = ltb→lt x f.ip.size q in
            w.stays (x / bsize) (omega (arith, lt, sz)) (d.whole x lt)
        | inr q ↦
            let ge = ltb→le x f.ip.size q in
            w.fills x (omega (arith, sz, sz')) (omega (arith, sz, ge)) (omega (arith, sz, sz', ge))
      ];
    }

written_in :
    (f : File) (m : Memory) (src off i : ℕ)
    → i < dirent_size
    → written f m src off dirent_size (off + i) ≡ m (src + i)
written_in f m src off i h =
    let q : (leb off (off + i) && ltb (off + i) (off + dirent_size)) ≡ true = ground arith in
    let e : src + (off + i - off) ≡ src + i = omega arith in rw q (ap m e)

written_out :
    (f : File) (m : Memory) (src off x : ℕ)
    → (x < off) ⊎ (off + dirent_size ≤ x)
    → written f m src off dirent_size x ≡ byte_at f x
written_out f m src off x h =
    let q : (leb off x && ltb x (off + dirent_size)) ≡ false = ground arith in rw q refl

apart_entries :
    (k j i : ℕ)
    → k ≢ j
    → i < dirent_size
    → (dirent_size * k + i < dirent_size * j)
      ⊎ (dirent_size * j + dirent_size ≤ dirent_size * k + i)
apart_entries k j i ne h = elim (Bool-cases (ltb k j)) [
  | inl q ↦ inl (omega (arith, ltb→lt k j q))
  | inr q ↦ inr (omega (arith, ltb→le k j q, ne))
]

pub Writes-Stores :
    (sb : Superblock) (f f' : File) (m : Memory) (de count j : ℕ)
    → j ≤ count
    → dirent_size * (count + 1) ≤ maxfile * bsize
    → Writes sb f m de (dirent_size * j) dirent_size f'
    → Stores f count j de m f'
unfolding read_u16
Writes-Stores sb f f' m de count j le room w =
    let here : (i : ℕ) → i < dirent_size → byte_at f' (dirent_size * j + i) ≡ m (de + i) = λ i hi.
      w.bytes (dirent_size * j + i) (omega arith) ∙ written_in f m de (dirent_size * j) i hi in
    let there : (k i : ℕ)
        → k < count
        → k ≢ j
        → i < dirent_size
        → byte_at f' (dirent_size * k + i) ≡ byte_at f (dirent_size * k + i) =
      λ k i hk ne hi.
        w.bytes (dirent_size * k + i) (omega arith)
        ∙ written_out f m de (dirent_size * j) (dirent_size * k + i) (apart_entries k j i ne hi) in
    let z : (n : ℕ) → n + 0 ≡ n = λ n. omega arith in
    let s : (n i : ℕ) → n + 2 + i ≡ n + (2 + i) = λ n i. omega arith in
    record {
      number =
          ap₂ (λ x y. x + 256 * y)
            (ap (byte_at f') (sym (z (dirent_size * j))) ∙ here 0 (omega arith) ∙ ap m (z de))
            (here 1 (omega arith));
      chars = λ i hi.
          ap (byte_at f') (s (dirent_size * j) i)
          ∙ here (2 + i) (omega arith)
          ∙ ap m (sym (s de i));
      numbers = λ k hk ne.
          ap₂ (λ x y. x + 256 * y)
            (ap (byte_at f') (sym (z (dirent_size * k)))
              ∙ there k 0 hk ne (omega arith)
              ∙ ap (byte_at f) (z (dirent_size * k)))
            (there k 1 hk ne (omega arith));
      names = λ k hk ne i hi.
          ap (byte_at f') (s (dirent_size * k) i)
          ∙ there k (2 + i) hk ne (omega arith)
          ∙ ap (byte_at f) (sym (s (dirent_size * k) i));
    }

is_hit_kept :
    (f f' : File) (count j de k : ℕ) (m : Memory) (d : Name)
    → Stores f count j de m f'
    → k < count
    → k ≢ j
    → is_hit f' d k ≡ is_hit f d k
is_hit_kept f f' count j de k m d w hk ne =
    ap₂ (λ x y. not (x == 0) && y) (w.numbers k hk ne)
      (same_chars_ext name_size d d (entry_name f' k) (entry_name f k) (λ i hi. refl)
        (w.names k hk ne))

is_hit_new :
    (f f' : File) (count j de inum : ℕ) (m1 m : Memory) (c d : Name)
    → Stores f count j de m f'
    → Filled inum de c m1 m
    → inum ≢ 0
    → is_hit f' d j ≡ same_chars name_size d c
is_hit_new f f' count j de inum m1 m c d w e ne =
    let n : (entry_inum f' j == 0) ≡ false =
      ap (λ x. x == 0) (w.number ∙ e.number) ∙ ne→== inum 0 ne in
    let a =
      same_chars_ext name_size d d (entry_name f' j) (λ i. m (de + 2 + i)) (λ i hi. refl) w.chars in
    let entry : Name = λ i. m (de + 2 + i) in
    let b : same_chars name_size d entry ≡ same_chars name_size d c =
      same_chars_sym name_size d entry
      ∙ same_chars_same name_size c entry d (same_chars_sym name_size entry c ∙ e.named)
      ∙ same_chars_sym name_size c d in
    ap (λ x. not x && same_chars name_size d (entry_name f' j)) n ∙ a ∙ b

-- What is in the directory after `dirlink`.
pub record Linked (f : File) (count inum : ℕ) (c : Name) (f' : File) (count' : ℕ) : Type 0 where
  pub directory : IsDirectory f' count'
  pub offset : ℕ
  pub found :
      (d : Name) → same_chars name_size d c ≡ true → lookup_in f' count' d ≡ some (offset, inum)
  pub others :
      (d : Name) → same_chars name_size d c ≡ false → lookup_in f' count' d ≡ lookup_in f count d

module _ (f f' : File) (count j de inum : ℕ) (m1 m : Memory) (c : Name)
    (absent : first_hit (is_hit f c) 0 count ≡ none) (bound : j ≤ count)
    (free : j < count → entry_inum f j ≡ 0) (stores : Stores f count j de m f')
    (filled : Filled inum de c m1 m) (in_use : inum ≢ 0) where
  pub linked_found :
      (d : Name)
      → same_chars name_size d c ≡ true
      → lookup_in f' (grown_count count j) d ≡ some (dirent_size * j, inum)
  linked_found d same =
      let no_hit : (i : ℕ) → 0 ≤ i → i < j → is_hit f' d i ≡ false = λ i lo hi.
        is_hit_kept f f' count j de i m d stores (omega (arith, bound)) (λ e. omega (arith, e))
        ∙ ap (λ x. not (entry_inum f i == 0) && x)
            (same_chars_same name_size c d (entry_name f i) same)
        ∙ first_hit-none (is_hit f c) 0 count i absent (omega arith) (omega (arith, bound)) in
      let e =
        first_hit_at (is_hit f' d) 0 (grown_count count j) j no_hit
          (is_hit_new f f' count j de inum m1 m c d stores filled in_use ∙ same) (omega arith)
          (omega arith) in
      ap (at_entry f') e ∙ ap (λ x. some (dirent_size * j, x)) (stores.number ∙ filled.number)

  linked_hits :
      (d : Name)
      → same_chars name_size d c ≡ false
      → first_hit (is_hit f' d) 0 (grown_count count j) ≡ first_hit (is_hit f d) 0 count
  linked_hits d other =
      let new = is_hit_new f f' count j de inum m1 m c d stores filled in_use ∙ other in
      let same : (i : ℕ) → 0 ≤ i → i < 0 + count → is_hit f' d i ≡ is_hit f d i = λ i lo hi.
        elim (Bool-cases (i == j)) [
          | inl here ↦
              let e : i ≡ j = ==→eq i j here in
              let gone : entry_inum f i ≡ 0 = ap (entry_inum f) e ∙ free (omega (arith, e)) in
              ap (is_hit f' d) e
              ∙ new
              ∙ sym (ap (λ x. not (x == 0) && same_chars name_size d (entry_name f i)) gone)
          | inr away ↦ is_hit_kept f f' count j de i m d stores (omega arith) (==→ne i j away)
        ] in
      elim (Bool-cases (ltb j count)) [
        | inl q ↦
            let n : grown_count count j ≡ count = omega (arith, ltb→lt j count q) in
            ap (first_hit (is_hit f' d) 0) n ∙ first_hit_ext (is_hit f' d) (is_hit f d) 0 count same
        | inr q ↦
            let e : j ≡ count = omega (arith, ltb→le j count q, bound) in
            let n : grown_count count j ≡ suc count = omega (arith, e) in
            let z : 0 + count ≡ j = omega (arith, e) in
            ap (first_hit (is_hit f' d) 0) n
            ∙ first_hit_last (is_hit f' d) 0 count (ap (is_hit f' d) z ∙ new)
            ∙ first_hit_ext (is_hit f' d) (is_hit f d) 0 count same
      ]

  pub linked_others :
      (d : Name)
      → same_chars name_size d c ≡ false
      → lookup_in f' (grown_count count j) d ≡ lookup_in f count d
  linked_others d other =
      ap (at_entry f') (linked_hits d other)
      ∙ (elim (Option-cases (first_hit (is_hit f d) 0 count)) [
        | inl e ↦ rw e refl
        | inr (i, e) ↦
            let (hit, lt) = first_hit-some (is_hit f d) 0 count i e in
            let ne : i ≢ j = λ q. clash i q hit (omega (arith, lt)) in
            rw e (ap (λ x. some (dirent_size * i, x)) (stores.numbers i (omega (arith, lt)) ne))
      ])
    where
      clash : (i : ℕ) → i ≡ j → is_hit f d i ≡ true → i < count → ⊥
      clash i q hit lt =
          let gone : entry_inum f i ≡ 0 = ap (entry_inum f) q ∙ free (omega (arith, q)) in
          let w : is_hit f d i ≡ false =
            ap (λ x. not (x == 0) && same_chars name_size d (entry_name f i)) gone in
          cc
