-- ===== src/Fs/Read.antt =====
-- kernel/fs.c: `readi` to a kernel address, byte by byte, and after a `writei`.
use mp.Prelude.{
  ℕ, zero, suc, ◌+◌, ◌-◌, ◌*◌, ◌/◌, ◌%◌, ◌^◌, ◌≤◌, ◌<◌, min, ◌≡◌, refl, sym, ap, ◌∙◌, ◌≢◌, inl, inr,
  Bool, true, false, some, ◌&&◌, ◌||◌, arith, ltb, leb, ◌==◌, if◌then◌else◌, ltb→lt, ltb→le,
  Bool-cases, ok, ◌>>=◌,
}
use mp.Prelude.Int.{pos}
use mp.Param.{bsize}
use mp.Words.{Bytes}
use mp.Str.{Memory}
use mp.Fs.{Superblock}
use mp.Fs.Content.{maxfile, File, bmap}
use mp.Fs.ReadWrite.{CopyIn, CopyOut, kernel_out, piece, read_from, readi, writei}
use mp.Fs.Layout.{addr_at, IsFile}
use mp.Fs.Room.{HasRoom}
use mp.Fs.Bmap.{bmap_there}
use mp.Fs.ByteAt.{byte_at, byte_there}
use mp.Fs.Write.{Delivers, written, piece_bounds}
use mp.Fs.Trans.{Trans}
use mp.Fs.Writei.{HasLog, Writes, writei_lem}

-- No block of the file below its end is missing.
abbrev pub HasNoHole : File → Type 0
HasNoHole f = (x : ℕ) → x < f.ip.size → addr_at f (x / bsize) ≢ 0

-- The byte at `a` once `n` bytes of the file from `off` on are at `dst`.
abbrev pub fetched : File → Memory → ℕ → ℕ → ℕ → ℕ → ℕ
fetched f m off dst n a = if leb dst a && ltb a (dst + n) then byte_at f (off + (a - dst)) else m a

-- The memory after one round.
abbrev pub taken_piece : Bytes → Memory → ℕ → ℕ → ℕ → Memory
taken_piece b m o dst n a = if leb dst a && ltb a (dst + n) then b (o + (a - dst)) else m a

-- The copy stores bytes at every address between `lo` and `hi`, as `copyout` does where the pages are
-- mapped: `view` is the memory of the caller, and `good` what the copy keeps.
pub record Stores {S : Type 0} (copy : CopyOut S) (view : S → Memory) (good : S → Type 0)
    (lo hi : ℕ) : Type 0 where
  pub stores :
      (dst : ℕ) (src : Bytes) (o len : ℕ) (st : S)
      → good st
      → lo ≤ dst
      → dst + len ≤ hi
      → (st' : S) × (copy dst src o len st ≡ some st')
        × good st'
        × ((a : ℕ) → view st' a ≡ taken_piece src (view st) o dst len a)

pub kernel_out-Stores : (lo hi : ℕ) → Stores kernel_out (λ m. m) (λ m. Unit) lo hi
kernel_out-Stores lo hi = record {
  stores = λ dst src o len st _ _ _. (taken_piece src st o dst len, refl, tt, λ a. refl);
}

read_from_done :
    {S : Type 0} (copy : CopyOut S) (sb : Superblock) (off dst tot fuel : ℕ) (f : File) (st : S)
    → read_from copy sb off dst tot 0 fuel f st ≡ ok (tot, f, st)
unfolding read_from
read_from_done copy sb off dst tot fuel f st = refl

read_from_step :
    {S : Type 0} (copy : CopyOut S) (sb : Superblock) (off dst tot left fuel a : ℕ) (f : File)
    (st st' : S)
    → bmap sb (off / bsize) f ≡ ok (a, f)
    → copy dst (f.disk a) (off % bsize) (piece off (suc left)) st ≡ some st'
    → read_from copy sb off dst tot (suc left) (suc fuel) f st
      ≡ read_from copy sb
          (off + piece off (suc left))
          (dst + piece off (suc left))
          (tot + piece off (suc left))
          (suc left - piece off (suc left))
          fuel
          f
          st'
unfolding read_from ◌>>=◌
read_from_step copy sb off dst tot left fuel a f st st' e c = rw (e, c) refl

fetched_piece :
    (f : File) (m : Memory) (off dst n a : ℕ)
    → addr_at f (off / bsize) ≢ 0
    → off % bsize + n ≤ bsize
    → taken_piece (f.disk (addr_at f (off / bsize))) m (off % bsize) dst n a
      ≡ fetched f m off dst n a
fetched_piece f m off dst n a ne fits = elim (Bool-cases (leb dst a && ltb a (dst + n))) [
  | inr q ↦ rw q refl
  | inl q ↦
      let block : (off + (a - dst)) / bsize ≡ off / bsize = ground arith in
      let offset : (off + (a - dst)) % bsize ≡ off % bsize + (a - dst) = ground arith in
      rw q (
        ap (f.disk (addr_at f (off / bsize))) (sym offset)
        ∙ sym (byte_there f (off + (a - dst)) (addr_at f (off / bsize)) (ap (addr_at f) block) ne))
]

fetched_more :
    (f : File) (m m' : Memory) (off dst n p a : ℕ)
    → m' a ≡ fetched f m off dst n a
    → fetched f m' (off + n) (dst + n) p a ≡ fetched f m off dst (n + p) a
fetched_more f m m' off dst n p a e = rw e (elim (Bool-cases (leb (dst + n) a)) [
  | inl late ↦
      let q : off + n + (a - (dst + n)) ≡ off + (a - dst) = ground arith in rw q (ground arith)
  | inr early ↦ ground arith
])

read_from-fetched :
    {S : Type 0} (copy : CopyOut S) (view : S → Memory) (good : S → Type 0) (lo hi : ℕ)
    (sb : Superblock) (off dst tot left fuel : ℕ) (f : File) (st : S)
    → Stores copy view good lo hi
    → good st
    → lo ≤ dst
    → dst + left ≤ hi
    → left ≤ fuel
    → off + left ≤ maxfile * bsize
    → ((x : ℕ) → off ≤ x → x < off + left → addr_at f (x / bsize) ≢ 0)
    → (st' : S) × (read_from copy sb off dst tot left fuel f st ≡ ok (tot + left, f, st'))
      × good st'
      × ((a : ℕ) → view st' a ≡ fetched f (view st) off dst left a)
read_from-fetched copy view good lo hi sb off dst tot zero fuel f st sc g a b le fits full =
    let q : tot + 0 ≡ tot = omega arith in
    (
      st,
      read_from_done copy sb off dst tot fuel f st ∙ ap (λ x. ok (x, f, st)) (sym q),
      g,
      λ a. let w : (leb dst a && ltb a (dst + 0)) ≡ false = ground arith in rw w refl,
    )
read_from-fetched copy view good lo hi sb off dst tot (suc left) zero f st sc g a b le fits full =
    absurd (omega arith)
read_from-fetched copy view good lo hi sb off dst tot (suc left) (suc fuel) f st sc g a b le fits
      full =
    let n = piece off (suc left) in
    let (some_bytes, most, in_block, next) = piece_bounds off left in
    let lt : off / bsize < maxfile = omega arith in
    let ne = full off (omega arith) (omega arith) in
    let addr = addr_at f (off / bsize) in
    let (st1, c, g1, v1) =
      sc.stores dst (f.disk addr) (off % bsize) n st g a (omega (arith, b, most)) in
    let (st2, e, g2, same) =
      read_from-fetched copy view good lo hi sb (off + n) (dst + n) (tot + n) (suc left - n) fuel f
        st1 sc g1 (omega (arith, a)) (omega (arith, b, most)) (omega (arith, some_bytes))
        (omega (arith, most)) (λ x lo hi. full x (omega arith) (omega (arith, most))) in
    let whole : n + (suc left - n) ≡ suc left = omega (arith, most) in
    let sum : tot + n + (suc left - n) ≡ tot + suc left = omega (arith, most) in
    (
      st2,
      read_from_step copy sb off dst tot left fuel addr f st st1
            (bmap_there sb f (off / bsize) lt ne) c
          ∙ e
          ∙ ap (λ x. ok (x, f, st2)) sum,
      g2,
      λ x.
          same x
          ∙ fetched_more f (view st) (view st1) off dst n (suc left - n) x
              (v1 x ∙ fetched_piece f (view st) off dst n x ne in_block)
          ∙ ap (λ l. fetched f (view st) off dst l x) whole,
    )

-- The types that `readi` reads.
abbrev pub is_readable_type : ℕ → Bool
is_readable_type t = t == 2 || t == 4 || t == 1

readi_ok :
    {S : Type 0} (copy : CopyOut S) (sb : Superblock) (dst off n count : ℕ) (f : File) (m m' : S)
    → is_readable_type f.ip.type ≡ true
    → off ≤ f.ip.size
    → off + n < 2 ^ 32
    → count ≡ min n (f.ip.size - off)
    → read_from copy sb off dst 0 count count f m ≡ ok (0 + count, f, m')
    → readi copy sb dst off n f m ≡ ok (pos count, f, m')
unfolding readi ◌>>=◌
readi_ok copy sb dst off n count f m m' t le small c e =
    let w : (off + n) % 2 ^ 32 ≡ off + n = omega arith in
    let a : (ltb f.ip.size off || ltb (off + n) off) ≡ false = ground arith in
    let q : (if ltb f.ip.size (off + n) then f.ip.size - off else n) ≡ count = ground arith in
    let z : 0 + count ≡ count = omega arith in rw (t, w, a, q, e, z) refl

-- `readi` through a copy that stores bytes.
pub readi-fetched :
    {S : Type 0} (copy : CopyOut S) (view : S → Memory) (good : S → Type 0) (sb : Superblock)
    (dst off n : ℕ) (f : File) (st : S)
    → Stores copy view good dst (dst + n)
    → good st
    → is_readable_type f.ip.type ≡ true
    → off ≤ f.ip.size
    → off + n < 2 ^ 32
    → f.ip.size ≤ maxfile * bsize
    → HasNoHole f
    → let count = min n (f.ip.size - off) in
      (st' : S) × (readi copy sb dst off n f st ≡ ok (pos count, f, st'))
      × ((a : ℕ) → view st' a ≡ fetched f (view st) off dst count a)
readi-fetched copy view good sb dst off n f st sc g t le small fits full =
    let count = min n (f.ip.size - off) in
    let (st', e, _, same) =
      read_from-fetched copy view good dst (dst + n) sb off dst 0 count count f st sc g
        (omega arith) (omega arith) (omega arith) (omega arith) (λ x lo hi. full x (omega arith)) in
    (st', readi_ok copy sb dst off n count f st st' t le small refl e, same)

-- `readi` to a kernel address at or below the end of a file without holes returns the number of bytes
-- up to the end, at most `n`, and puts exactly those bytes of the file at the address; the file and the
-- disk stay as they are.
pub readi_lem :
    (sb : Superblock) (dst off n : ℕ) (f : File) (m : Memory)
    → is_readable_type f.ip.type ≡ true
    → off ≤ f.ip.size
    → off + n < 2 ^ 32
    → f.ip.size ≤ maxfile * bsize
    → HasNoHole f
    → let count = min n (f.ip.size - off) in
      (m' : Memory) × (readi kernel_out sb dst off n f m ≡ ok (pos count, f, m'))
      × ((a : ℕ) → m' a ≡ fetched f m off dst count a)
readi_lem sb dst off n f m t le small fits full =
    readi-fetched kernel_out (λ x. x) (λ x. Unit) sb dst off n f m (kernel_out-Stores dst (dst + n))
      tt t le small fits full

-- What was written is read.
pub readi-Writes :
    {S : Type 0} (copy : CopyOut S) (view : S → Memory) (good : S → Type 0) (st : S)
    (sb : Superblock) (src dst off n : ℕ) (f f' : File) (m : Memory)
    → Stores copy view good dst (dst + n)
    → good st
    → Writes sb f m src off n f'
    → is_readable_type f.ip.type ≡ true
    → HasNoHole f
    → f.ip.size ≤ maxfile * bsize
    → off ≤ f.ip.size
    → off + n ≤ maxfile * bsize
    → (st' : S) × (readi copy sb dst off n f' st ≡ ok (pos n, f', st'))
      × ((j : ℕ) → j < n → view st' (dst + j) ≡ m (src + j))
readi-Writes copy view good st sb src dst off n f f' m sc g w t full limit le fits =
    let sz = w.size in
    let whole : HasNoHole f' = λ x hx. elim (Bool-cases (ltb x f.ip.size)) [
      | inl q ↦
          w.stays (x / bsize) (omega (arith, ltb→lt x f.ip.size q)) (full x (ltb→lt x f.ip.size q))
      | inr q ↦
          w.fills x (omega (arith, sz)) (omega (arith, ltb→le x f.ip.size q))
            (omega (arith, sz, ltb→le x f.ip.size q))
    ] in
    let count : min n (f'.ip.size - off) ≡ n = omega (arith, sz) in
    let (st', r, same) =
      readi-fetched copy view good sb dst off n f' st sc g (ap is_readable_type w.type ∙ t)
        (omega (arith, sz)) (omega arith) (omega (arith, sz)) whole in
    (
      st',
      r ∙ ap (λ x. ok (pos x, f', st')) count,
      λ j hj.
          same (dst + j)
          ∙ ap (λ l. fetched f' (view st) off dst l (dst + j)) count
          ∙ inside f' (view st) off dst n j hj
          ∙ w.bytes (off + j) (omega arith)
          ∙ wrote_there f m src off n j hj,
    )
  where
    inside :
        (f : File) (m : Memory) (off dst n j : ℕ)
        → j < n
        → fetched f m off dst n (dst + j) ≡ byte_at f (off + j)
    inside f m off dst n j h =
        let q : (leb dst (dst + j) && ltb (dst + j) (dst + n)) ≡ true = ground arith in
        let d : off + (dst + j - dst) ≡ off + j = omega arith in rw q (ap (byte_at f) d)

    wrote_there :
        (f : File) (m : Memory) (src off n j : ℕ)
        → j < n
        → written f m src off n (off + j) ≡ m (src + j)
    wrote_there f m src off n j h =
        let q : (leb off (off + j) && ltb (off + j) (off + n)) ≡ true = ground arith in
        let d : src + (off + j - off) ≡ src + j = omega arith in rw q (ap m d)

-- What `writei` wrote of bytes that the copy delivered, `readi` of the same range gives back, byte for
-- byte, in a file without holes whose blocks lie apart, with two free blocks for each block that the
-- write touches, and room in the log for each of these blocks and three more. Neither panics.
pub readi-writei :
    {S : Type 0} (copy : CopyIn S) (st : S) (sb : Superblock) (role : ℕ → ℕ)
    (src dst off n rounds : ℕ) (f : File) (t : Trans) (m : Memory)
    → Delivers copy st m src (src + n)
    → IsFile sb role f
    → is_readable_type f.ip.type ≡ true
    → HasNoHole f
    → f.ip.size ≤ maxfile * bsize
    → 0 < n
    → off ≤ f.ip.size
    → off + n ≤ maxfile * bsize
    → (off + n - 1) / bsize < off / bsize + rounds
    → HasRoom sb f.disk (2 * rounds)
    → HasLog sb t rounds
    → (f' : File) × (t' : Trans) × (m' : Memory) × (writei copy sb src off n f t st
        ≡ ok (pos n, f', t'))
      × (readi kernel_out sb dst off n f' m ≡ ok (pos n, f', m'))
      × ((j : ℕ) → j < n → m' (dst + j) ≡ m (src + j))
readi-writei copy st sb role src dst off n rounds f t m dl h ty full limit some_bytes le fits many
      room lg =
    let (f', t', e, w) =
      writei_lem copy st sb role src off n rounds f t m dl h some_bytes le fits many room lg in
    let (m', r, same) =
      readi-Writes kernel_out (λ x. x) (λ x. Unit) m sb src dst off n f f' m
        (kernel_out-Stores dst (dst + n)) tt w ty full limit le fits in
    (f', t', m', e, r, same)
