-- ===== src/Fs/ByteAt.antt =====
-- kernel/fs.c: the bytes of a file, block by block, under `bmap` and under a write of one block.
use mp.Prelude.{
  ℕ, ◌+◌, ◌-◌, ◌*◌, ◌/◌, ◌%◌, ◌<◌, ◌≡◌, refl, sym, ap, ◌∙◌, ◌≢◌, inl, inr, arith, ltb, ◌==◌,
  if◌then◌else◌, ==→eq, ==→ne, ne→==, Bool-cases,
}
use mp.Prelude.Update.{update, update_self, update_ne}
use mp.Param.{bsize}
use mp.Words.{Bytes, read_u32}
use mp.Fs.{Superblock}
use mp.Fs.Content.{ndirect, maxfile, File}
use mp.Fs.Layout.{addr_at, IsFile}
use mp.Fs.Extend.{IsPlaced-write}
use mp.Fs.Gets.{addr_role, Gets}

-- The byte at the offset `x`, 0 where there is no block.
abbrev pub byte_at : File → ℕ → ℕ
byte_at f x = let a = addr_at f (x / bsize) in if a == 0 then 0 else f.disk a (x % bsize)

byte_missing : (f : File) (x : ℕ) → addr_at f (x / bsize) ≡ 0 → byte_at f x ≡ 0
byte_missing f x z = rw z refl

pub byte_there :
    (f : File) (x a : ℕ) → addr_at f (x / bsize) ≡ a → a ≢ 0 → byte_at f x ≡ f.disk a (x % bsize)
byte_there f x a e ne = rw (e, ne→== a 0 ne) refl

-- `bmap` changes no byte.
pub Gets-byte_at :
    (sb : Superblock) (role : ℕ → ℕ) (f f' : File) (k bn a x : ℕ)
    → Gets sb role f k bn a f'
    → x / bsize < maxfile
    → byte_at f' x ≡ byte_at f x
Gets-byte_at sb role f f' k bn a x g lt =
    let j = x / bsize in
    elim (Bool-cases (addr_at f j == 0)) [
      | inl gone ↦
          let z = ==→eq (addr_at f j) 0 gone in
          elim (Bool-cases (j == bn)) [
            | inl here ↦
                let e : j ≡ bn = ==→eq j bn here in
                byte_there f' x a (ap (addr_at f') e ∙ g.at) g.there
                ∙ g.fresh (ap (addr_at f) (sym e) ∙ z) (x % bsize)
                ∙ sym (byte_missing f x z)
            | inr other ↦
                byte_missing f' x (g.same j lt (==→ne j bn other) ∙ z) ∙ sym (byte_missing f x z)
          ]
      | inr has ↦
          let ne = ==→ne (addr_at f j) 0 has in
          let stays : addr_at f' j ≡ addr_at f j = elim (Bool-cases (j == bn)) [
            | inl here ↦
                let e : j ≡ bn = ==→eq j bn here in
                ap (λ h. addr_at h j) (g.old (λ z. ne (ap (addr_at f) e ∙ z)))
            | inr other ↦ g.same j lt (==→ne j bn other)
          ] in
          byte_there f' x (addr_at f j) stays ne
          ∙ ap (λ b. b (x % bsize)) (g.keeps j lt ne)
          ∙ sym (byte_there f x (addr_at f j) refl ne)
    ]

-- The file with other bytes in its block at `a`.
abbrev pub with_block : File → ℕ → Bytes → File
with_block f a b = record f { disk = update f.disk a b }

pub with_block_addr :
    (sb : Superblock) (role : ℕ → ℕ) (f : File) (bn a j : ℕ) (b : Bytes)
    → IsFile sb role f
    → bn < maxfile
    → addr_at f bn ≡ a
    → a ≢ 0
    → addr_at (with_block f a b) j ≡ addr_at f j
with_block_addr sb role f bn a j b h hb at ne = elim (Bool-cases (f.ip.addrs ndirect == 0)) [
  | inl z ↦ rw z refl
  | inr z ↦
      let has = ==→ne (f.ip.addrs ndirect) 0 z in
      let r = addr_role sb role f bn h hb (λ w. ne (sym at ∙ w)) in
      let apart : a ≢ f.ip.addrs ndirect =
        λ e. omega (arith, h.indirect has, r, ap role (at ∙ e)) in
      ap
        (λ c.
          if ltb j ndirect
          then f.ip.addrs j
          else if f.ip.addrs ndirect == 0
          then 0
          else read_u32 c (4 * (j - ndirect)))
        (update_ne f.disk a (f.ip.addrs ndirect) b apart)
]

pub with_block-IsFile :
    (sb : Superblock) (role : ℕ → ℕ) (f : File) (bn a : ℕ) (b : Bytes)
    → IsFile sb role f
    → bn < maxfile
    → addr_at f bn ≡ a
    → a ≢ 0
    → IsFile sb role (with_block f a b)
with_block-IsFile sb role f bn a b h hb at ne =
    let r : role a ≡ bn + 1 =
      ap role (sym at) ∙ addr_role sb role f bn h hb (λ w. ne (sym at ∙ w)) in
    let block : f.ip.addrs ndirect ≢ 0
        → update f.disk a b (f.ip.addrs ndirect) ≡ f.disk (f.ip.addrs ndirect) =
      λ has.
        update_ne f.disk a (f.ip.addrs ndirect) b
          (λ e. omega (arith, h.indirect has, r, ap role e)) in
    record {
      placed = IsPlaced-write sb role f.ip.inum f.disk a b h.placed (λ z. omega (arith, r, z));
      direct = h.direct;
      indirect = h.indirect;
      data_blocks = λ k hk has nz.
          let e = ap (λ c. read_u32 c (4 * k)) (block has) in
          ap role e ∙ h.data_blocks k hk has (λ z. nz (e ∙ z));
    }

pub with_block-byte_at :
    (sb : Superblock) (role : ℕ → ℕ) (f : File) (bn a x : ℕ) (b : Bytes)
    → IsFile sb role f
    → bn < maxfile
    → addr_at f bn ≡ a
    → a ≢ 0
    → x / bsize < maxfile
    → byte_at (with_block f a b) x ≡ (if x / bsize == bn then b (x % bsize) else byte_at f x)
with_block-byte_at sb role f bn a x b h hb at ne lt =
    let j = x / bsize in
    let f' = with_block f a b in
    let same = with_block_addr sb role f bn a j b h hb at ne in
    elim (Bool-cases (j == bn)) [
      | inl here ↦
          let e : j ≡ bn = ==→eq j bn here in
          byte_there f' x a (same ∙ ap (addr_at f) e ∙ at) ne
          ∙ ap (λ c. c (x % bsize)) (update_self f.disk a b)
          ∙ rw here refl
      | inr other ↦
          let nj = ==→ne j bn other in
          elim (Bool-cases (addr_at f j == 0)) [
            | inl gone ↦
                let z = ==→eq (addr_at f j) 0 gone in
                byte_missing f' x (same ∙ z) ∙ sym (byte_missing f x z) ∙ rw other refl
            | inr has ↦
                let nz = ==→ne (addr_at f j) 0 has in
                let r = addr_role sb role f bn h hb (λ w. ne (sym at ∙ w)) in
                let s = addr_role sb role f j h lt nz in
                byte_there f' x (addr_at f j) same nz
                ∙ ap (λ c. c (x % bsize))
                    (update_ne f.disk a (addr_at f j) b
                      (λ e. nj (omega (arith, ap role (at ∙ e), r, s))))
                ∙ sym (byte_there f x (addr_at f j) refl nz)
                ∙ rw other refl
          ]
    ]
