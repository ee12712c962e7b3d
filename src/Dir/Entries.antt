-- ===== src/Dir/Entries.antt =====
-- kernel/fs.c: a directory as a list of entries, and one `readi` of an entry.
use mp.Prelude.{
  ℕ, zero, suc, ◌+◌, ◌-◌, ◌*◌, ◌≤◌, ◌<◌, min, ◌≡◌, refl, sym, ap, ap₂, ◌∙◌, Bool, true, false, ◌&&◌,
  ◌||◌, arith, ltb, leb, ◌==◌, ok,
}
use mp.Prelude.Int.{pos, eqb}
use mp.Param.{bsize}
use mp.Words.{read_u16}
use mp.Str.{Memory, strncmp}
use mp.Fs.{Superblock}
use mp.Fs.Content.{maxfile, File}
use mp.Fs.ReadWrite.{kernel_out, readi}
use mp.Fs.ByteAt.{byte_at}
use mp.Fs.Read.{HasNoHole, fetched, is_readable_type, readi_lem}
use mp.Dir.{name_size, dirent_size, dir_type, namecmp_same}

-- A name as its bytes.
abbrev pub Name : Type 0
Name = ℕ → ℕ

abbrev pub after_first : Name → Name
after_first c i = c (i + 1)

-- Two names are the same up to a NUL, in `n` bytes.
unfoldable pub same_chars : ℕ → Name → Name → Bool
same_chars zero c d = true
same_chars (suc n) c d =
    (c 0 == d 0) && ((c 0 == 0) || same_chars n (after_first c) (after_first d))

pub same_chars_refl : (n : ℕ) (c : Name) → same_chars n c c ≡ true
unfolding same_chars
same_chars_refl zero c = refl
same_chars_refl (suc n) c = ground (arith, same_chars_refl n (after_first c))

pub same_chars_sym : (n : ℕ) (c d : Name) → same_chars n c d ≡ same_chars n d c
unfolding same_chars
same_chars_sym zero c d = refl
same_chars_sym (suc n) c d = ground (arith, same_chars_sym n (after_first c) (after_first d))

-- The same name has the same matches.
pub same_chars_same :
    (n : ℕ) (c d e : Name) → same_chars n d c ≡ true → same_chars n d e ≡ same_chars n c e
unfolding same_chars
same_chars_same zero c d e h = refl
same_chars_same (suc n) c d e h =
    ground (arith, same_chars_same n (after_first c) (after_first d) (after_first e))

pub same_chars_ext :
    (n : ℕ) (c c' d d' : Name)
    → ((i : ℕ) → i < n → c i ≡ c' i)
    → ((i : ℕ) → i < n → d i ≡ d' i)
    → same_chars n c d ≡ same_chars n c' d'
unfolding same_chars
same_chars_ext zero c c' d d' h k = refl
same_chars_ext (suc n) c c' d d' h k =
    let e =
      same_chars_ext n (after_first c) (after_first c') (after_first d) (after_first d')
        (λ i hi. h (i + 1) (omega arith)) (λ i hi. k (i + 1) (omega arith)) in
    rw (h 0 (omega arith), k 0 (omega arith), e) refl

-- `strncmp` of two names in memory.
pub strncmp-same_chars :
    (p q n : ℕ) (m : Memory)
    → eqb (strncmp p q n m) (pos 0) ≡ same_chars n (λ i. m (p + i)) (λ i. m (q + i))
unfolding strncmp same_chars
strncmp-same_chars p q zero m = refl
strncmp-same_chars p q (suc n) m =
    let a : p + 0 ≡ p = omega arith in
    let b : q + 0 ≡ q = omega arith in
    let e : eqb (strncmp (p + 1) (q + 1) n m) (pos 0)
        ≡ same_chars n (λ i. m (p + (i + 1))) (λ i. m (q + (i + 1))) =
      strncmp-same_chars (p + 1) (q + 1) n m
      ∙ same_chars_ext n _ _ _ _ (λ i hi. ap m (omega arith)) (λ i hi. ap m (omega arith)) in
    rw (a, b, sym e) (ground arith)

-- `namecmp` of names whose bytes are known.
pub namecmp-same_chars :
    (s t : ℕ) (m : Memory) (c d : Name)
    → ((i : ℕ) → i < name_size → m (s + i) ≡ c i)
    → ((i : ℕ) → i < name_size → m (t + i) ≡ d i)
    → namecmp_same s t m ≡ same_chars name_size c d
unfolding namecmp_same
namecmp-same_chars s t m c d h k =
    strncmp-same_chars s t name_size m ∙ same_chars_ext name_size _ c _ d h k

-- The inode number and the name of the entry `k`.
abbrev pub entry_inum : File → ℕ → ℕ
entry_inum f k = byte_at f (dirent_size * k) + 256 * byte_at f (dirent_size * k + 1)

abbrev pub entry_name : File → ℕ → Name
entry_name f k i = byte_at f (dirent_size * k + 2 + i)

-- A directory of `count` entries: whole ones, in blocks that are there.
pub record IsDirectory (f : File) (count : ℕ) : Type 0 where
  pub type : f.ip.type ≡ dir_type
  pub size : f.ip.size ≡ dirent_size * count
  pub fits : f.ip.size ≤ maxfile * bsize
  pub whole : HasNoHole f

-- The memory where the entry `k` was read to `de`.
pub record HasEntry (f : File) (k de : ℕ) (m m' : Memory) : Type 0 where
  pub inum : read_u16 m' de ≡ entry_inum f k
  pub chars : (i : ℕ) → i < name_size → m' (de + 2 + i) ≡ entry_name f k i
  pub outside : (a : ℕ) → (leb de a && ltb a (de + dirent_size)) ≡ false → m' a ≡ m a

pub readi-HasEntry :
    (sb : Superblock) (de count k : ℕ) (f : File) (m : Memory)
    → IsDirectory f count
    → k < count
    → (m' : Memory) × (readi kernel_out sb de (dirent_size * k) dirent_size f m
        ≡ ok (pos dirent_size, f, m'))
      × HasEntry f k de m m'
unfolding read_u16
readi-HasEntry sb de count k f m d lt =
    let sz = d.size in
    let (m', e, same) =
      readi_lem sb de (dirent_size * k) dirent_size f m (ap is_readable_type d.type)
        (omega (arith, sz)) (omega (arith, sz, d.fits)) d.fits d.whole in
    let n : min dirent_size (f.ip.size - dirent_size * k) ≡ dirent_size = omega (arith, sz) in
    let at : (i : ℕ) → i < dirent_size → m' (de + i) ≡ byte_at f (dirent_size * k + i) = λ i hi.
      same (de + i)
      ∙ ap (λ l. fetched f m (dirent_size * k) de l (de + i)) n
      ∙ inside f m (dirent_size * k) de i hi in
    let z : de + 0 ≡ de = omega arith in
    let z' : dirent_size * k + 0 ≡ dirent_size * k = omega arith in
    (
      m',
      e ∙ ap (λ x. ok (pos x, f, m')) n,
      record {
        inum =
            ap₂ (λ x y. x + 256 * y) (ap m' (sym z) ∙ at 0 (omega arith) ∙ ap (byte_at f) z')
              (at 1 (omega arith));
        chars = λ i hi.
            let p : de + 2 + i ≡ de + (2 + i) = omega arith in
            let q : dirent_size * k + (2 + i) ≡ dirent_size * k + 2 + i = omega arith in
            ap m' p ∙ at (2 + i) (omega arith) ∙ ap (byte_at f) q;
        outside = λ a o. same a ∙ ap (λ l. fetched f m (dirent_size * k) de l a) n ∙ rw o refl;
      },
    )
  where
    inside :
        (f : File) (m : Memory) (off dst i : ℕ)
        → i < dirent_size
        → fetched f m off dst dirent_size (dst + i) ≡ byte_at f (off + i)
    inside f m off dst i h =
        let q : (leb dst (dst + i) && ltb (dst + i) (dst + dirent_size)) ≡ true = ground arith in
        let e : off + (dst + i - dst) ≡ off + i = omega arith in rw q (ap (byte_at f) e)
