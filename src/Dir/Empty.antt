-- ===== src/Dir/Empty.antt =====
-- kernel/sysfile.c: `isdirempty`.
use mp.Prelude.{
  ℕ, zero, suc, ◌+◌, ◌*◌, ◌≡◌, refl, ap, ◌∙◌, inl, inr, Bool, true, false, not, ◌&&◌, arith, ◌==◌,
  if◌then◌else◌, Bool-cases, ok, ◌>>=◌,
}
use mp.Prelude.Int.{pos}
use mp.Words.{read_u16}
use mp.Str.{Memory}
use mp.Fs.{Superblock}
use mp.Fs.Content.{File}
use mp.Fs.ReadWrite.{kernel_out, readi}
use mp.Dir.{dirent_size, entries_from, empty_from, isdirempty}
use mp.Dir.Entries.{entry_inum, IsDirectory, readi-HasEntry}
use mp.Dir.Lookup.{SameOutside}

-- No entry of the `left` ones from `k` on is in use.
abbrev pub has_no_entry : File → ℕ → ℕ → Bool
has_no_entry f k zero = true
has_no_entry f k (suc left) = (entry_inum f k == 0) && has_no_entry f (k + 1) left

empty_from-step :
    (sb : Superblock) (de off left : ℕ) (f : File) (m m' : Memory)
    → readi kernel_out sb de off dirent_size f m ≡ ok (pos dirent_size, f, m')
    → empty_from sb de off (suc left) f m ≡ (
        if not (read_u16 m' de == 0)
        then ok (false, f, m')
        else empty_from sb de (off + dirent_size) left f m')
unfolding empty_from ◌>>=◌
empty_from-step sb de off left f m m' e = rw e refl

empty_from_lem :
    (sb : Superblock) (de count k left : ℕ) (f : File) (m : Memory)
    → IsDirectory f count
    → k + left ≡ count
    → (m' : Memory) × (empty_from sb de (dirent_size * k) left f m
        ≡ ok (has_no_entry f k left, f, m'))
      × SameOutside de m m'
unfolding empty_from
empty_from_lem sb de count k zero f m d e = (m, refl, λ a o. refl)
empty_from_lem sb de count k (suc left) f m d e =
    let (m1, r, entry) = readi-HasEntry sb de count k f m d (omega arith) in
    let next : dirent_size * k + dirent_size ≡ dirent_size * (k + 1) = omega arith in
    let step = empty_from-step sb de (dirent_size * k) left f m m1 r in
    let same = ap (λ x. x == 0) entry.inum in
    elim (Bool-cases (entry_inum f k == 0)) [
      | inl z ↦
          let (m2, r2, out) = empty_from_lem sb de count (k + 1) left f m1 d (omega arith) in
          (m2, step ∙ rw (same ∙ z, z, next) r2, λ a o. out a o ∙ entry.outside a o)
      | inr z ↦ (m1, step ∙ rw (same ∙ z, z) refl, entry.outside)
    ]

-- `isdirempty` of a directory of at least two entries tells whether no entry after the first two, which
-- are "." and "..", is in use. It does not panic, and changes nothing but its own entry.
pub isdirempty_lem :
    (sb : Superblock) (de count : ℕ) (f : File) (m : Memory)
    → IsDirectory f (2 + count)
    → (m' : Memory) × (isdirempty sb de f m ≡ ok (has_no_entry f 2 count, f, m'))
      × SameOutside de m m'
unfolding isdirempty
isdirempty_lem sb de count f m d =
    let sz = d.size in
    let n : entries_from (2 * dirent_size) f.ip.size ≡ count = omega (arith, sz) in
    let (m', e, out) = empty_from_lem sb de (2 + count) 2 count f m d refl in
    (m', ap (λ x. empty_from sb de (2 * dirent_size) x f m) n ∙ e, out)
