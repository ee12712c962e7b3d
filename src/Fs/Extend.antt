-- ===== src/Fs/Extend.antt =====
-- kernel/fs.c: a file gets one more block, at one of its direct addresses, as its indirect block, or at
-- an entry of that block.
use mp.Prelude.{
  ℕ, ◌+◌, ◌*◌, ◌%◌, ◌^◌, ◌<◌, ◌≡◌, refl, sym, ap, ◌∙◌, subst, ◌≢◌, inl, inr, arith, ◌==◌,
  if◌then◌else◌, ==→eq, ==→ne, Bool-cases,
}
use mp.Prelude.Update.{update, update_self, update_ne}
use mp.Words.{Bytes, read_u32, write_u32, read-write_u32, read-write_u32_ne}
use mp.Fs.{Superblock, Disk, bpb, bblock, bit}
use mp.Fs.Bitmap.{used, IsAllocated}
use mp.Fs.Content.{ndirect, nindirect, iblock, File}
use mp.Fs.Layout.{indirect_role, IsPlaced, IsFile, allocated-IsPlaced, IsFresh}

-- A write of a block of the file is no write of the map.
pub IsPlaced-write :
    (sb : Superblock) (role : ℕ → ℕ) (inum : ℕ) (d : Disk) (b : ℕ) (x : Bytes)
    → IsPlaced sb role inum d
    → role b ≢ 0
    → IsPlaced sb role inum (update d b x)
IsPlaced-write sb role inum d b x h ne =
    let same : (n : ℕ) → n < sb.size → used sb (update d b x) n ≡ used sb d n = λ n hn.
      ap (λ m. bit m (n % bpb))
        (update_ne d b (bblock n sb) x (λ e. ne (ap role e ∙ h.no_map n hn))) in
    record {
      small = h.small;
      laid = λ n hn. same (bblock n sb) (h.inside n hn) ∙ h.laid n hn;
      inside = h.inside;
      boot = same 0 (omega (arith, h.inode_taken.0)) ∙ h.boot;
      zero_role = h.zero_role;
      taken = λ c nc. let t = h.taken c nc in (t.0, same c t.0 ∙ t.1);
      no_map = h.no_map;
      no_inode = h.no_inode;
      inode_apart = h.inode_apart;
      inode_taken = (h.inode_taken.0, same (iblock inum sb) h.inode_taken.0 ∙ h.inode_taken.1);
    }

-- The file with the address `i` set, after the block was allocated.
abbrev pub with_addr : File → ℕ → ℕ → Disk → File
with_addr f i n d = record { ip = record (f.ip) { addrs = update f.ip.addrs i n }; disk = d }

-- A block with a role is not the fresh one.
role_apart : (role : ℕ → ℕ) (b n r v : ℕ) → role b ≡ v → v ≢ 0 → role n ≡ 0 → update role n r b ≡ v
role_apart role b n r v e ne out =
    update_ne role n b r (λ q. ne (sym e ∙ ap role (sym q) ∙ out)) ∙ e

pub with_direct-IsFile :
    (sb : Superblock) (role : ℕ → ℕ) (f : File) (bn n : ℕ) (d : Disk)
    → IsFile sb role f
    → bn < ndirect
    → IsAllocated sb f.disk n d
    → IsFresh sb role f.disk d n
    → IsFile sb (update role n (bn + 1)) (with_addr f bn n d)
with_direct-IsFile sb role f bn n d h hb a fresh =
    let same_12 : update f.ip.addrs bn n ndirect ≡ f.ip.addrs ndirect =
      update_ne f.ip.addrs bn ndirect n (λ e. omega (arith, e)) in
    let block : f.ip.addrs ndirect ≢ 0 → d (f.ip.addrs ndirect) ≡ f.disk (f.ip.addrs ndirect) =
      λ ne. fresh.keeps (f.ip.addrs ndirect) (λ z. omega (arith, h.indirect ne, z)) in
    record {
      placed = allocated-IsPlaced sb role f.ip.inum f.disk d n (bn + 1) h.placed a;
      direct = λ k hk ne. elim (Bool-cases (bn == k)) [
        | inl q ↦
            let e : bn ≡ k = ==→eq bn k q in
            subst (λ x. update role n (bn + 1) (update f.ip.addrs bn n x) ≡ x + 1) e
              (ap (update role n (bn + 1)) (update_self f.ip.addrs bn n)
                ∙ update_self role n (bn + 1))
        | inr q ↦
            let e = update_ne f.ip.addrs bn k n (==→ne bn k q) in
            ap (update role n (bn + 1)) e
            ∙ role_apart role (f.ip.addrs k) n (bn + 1) (k + 1) (h.direct k hk (λ z. ne (e ∙ z)))
                (λ z. omega (arith, z)) fresh.unused
      ];
      indirect = λ ne.
          ap (update role n (bn + 1)) same_12
          ∙ role_apart role (f.ip.addrs ndirect) n (bn + 1) indirect_role
              (h.indirect (λ z. ne (same_12 ∙ z))) (λ z. omega (arith, z)) fresh.unused;
      data_blocks = λ k hk ne nz.
          let ne' : f.ip.addrs ndirect ≢ 0 = λ z. ne (same_12 ∙ z) in
          let e : read_u32 (d (update f.ip.addrs bn n ndirect)) (4 * k)
              ≡ read_u32 (f.disk (f.ip.addrs ndirect)) (4 * k) =
            ap (λ x. read_u32 (d x) (4 * k)) same_12 ∙ ap (λ b. read_u32 b (4 * k)) (block ne') in
          ap (update role n (bn + 1)) e
          ∙ role_apart role (read_u32 (f.disk (f.ip.addrs ndirect)) (4 * k)) n (bn + 1)
              (ndirect + k + 1) (h.data_blocks k hk ne' (λ z. nz (e ∙ z))) (λ z. omega (arith, z))
              fresh.unused;
    }

pub zero_word : (b : Bytes) (o : ℕ) → ((i : ℕ) → b i ≡ 0) → read_u32 b o ≡ 0
unfolding read_u32
zero_word b o z = rw (z o, z (o + 1), z (o + 2), z (o + 3)) refl

pub with_indirect-IsFile :
    (sb : Superblock) (role : ℕ → ℕ) (f : File) (n : ℕ) (d : Disk)
    → IsFile sb role f
    → IsAllocated sb f.disk n d
    → IsFresh sb role f.disk d n
    → IsFile sb (update role n indirect_role) (with_addr f ndirect n d)
with_indirect-IsFile sb role f n d h a fresh =
    let here = update_self f.ip.addrs ndirect n in
    record {
      placed = allocated-IsPlaced sb role f.ip.inum f.disk d n indirect_role h.placed a;
      direct = λ k hk ne.
          let e = update_ne f.ip.addrs ndirect k n (λ q. omega (arith, hk, q)) in
          ap (update role n indirect_role) e
          ∙ role_apart role (f.ip.addrs k) n indirect_role (k + 1) (h.direct k hk (λ z. ne (e ∙ z)))
              (λ z. omega (arith, z)) fresh.unused;
      indirect = λ _. ap (update role n indirect_role) here ∙ update_self role n indirect_role;
      data_blocks = λ k hk ne nz.
          absurd (nz (ap (λ x. read_u32 (d x) (4 * k)) here ∙ zero_word (d n) (4 * k) a.zeroed));
    }

pub entry_after :
    (b : Bytes) (k j n : ℕ)
    → n < 2 ^ 32
    → read_u32 (write_u32 b (4 * k) n) (4 * j) ≡ (if k == j then n else read_u32 b (4 * j))
entry_after b k j n lt = elim (Bool-cases (k == j)) [
  | inl q ↦ let e : k ≡ j = ==→eq k j q in rw (q, ← e) (read-write_u32 b (4 * k) n lt)
  | inr q ↦ rw q (read-write_u32_ne b (4 * k) (4 * j) n (ground arith))
]

-- The file with the entry `k` of its indirect block set.
abbrev pub with_entry : File → ℕ → ℕ → Disk → File
with_entry f k n d = record f {
  disk = update d (f.ip.addrs ndirect) (write_u32 (d (f.ip.addrs ndirect)) (4 * k) n);
}

pub with_entry-IsFile :
    (sb : Superblock) (role : ℕ → ℕ) (f : File) (k n : ℕ) (d : Disk)
    → IsFile sb role f
    → k < nindirect
    → f.ip.addrs ndirect ≢ 0
    → IsAllocated sb f.disk n d
    → IsFresh sb role f.disk d n
    → IsFile sb (update role n (ndirect + k + 1)) (with_entry f k n d)
with_entry-IsFile sb role f k n d h hk there a fresh =
    let addr = f.ip.addrs ndirect in
    let r = ndirect + k + 1 in
    let at_addr : update role n r addr ≡ indirect_role =
      role_apart role addr n r indirect_role (h.indirect there) (λ z. omega (arith, z))
        fresh.unused in
    let block : d addr ≡ f.disk addr = fresh.keeps addr (λ z. omega (arith, h.indirect there, z)) in
    record {
      placed =
          IsPlaced-write sb (update role n r) f.ip.inum d addr (write_u32 (d addr) (4 * k) n)
            (allocated-IsPlaced sb role f.ip.inum f.disk d n r h.placed a)
            (λ z. omega (arith, at_addr, z));
      direct = λ j hj ne.
          role_apart role (f.ip.addrs j) n r (j + 1) (h.direct j hj ne) (λ z. omega (arith, z))
            fresh.unused;
      indirect = λ _. at_addr;
      data_blocks = λ j hj _ nz.
          let here : read_u32 (update d addr (write_u32 (d addr) (4 * k) n) addr) (4 * j)
              ≡ (if k == j then n else read_u32 (f.disk addr) (4 * j)) =
            ap (λ b. read_u32 b (4 * j)) (update_self d addr (write_u32 (d addr) (4 * k) n))
            ∙ entry_after (d addr) k j n (omega (arith, a.in_range, h.placed.small))
            ∙ ap (λ b. if k == j then n else read_u32 b (4 * j)) block in
          elim (Bool-cases (k == j)) [
            | inl q ↦
                let e : k ≡ j = ==→eq k j q in
                let w = here ∙ rw q refl in
                ap (update role n r) w ∙ update_self role n r ∙ ap (λ x. ndirect + x + 1) e
            | inr q ↦
                let w : read_u32 (update d addr (write_u32 (d addr) (4 * k) n) addr) (4 * j)
                    ≡ read_u32 (f.disk addr) (4 * j) =
                  here ∙ rw q refl in
                ap (update role n r) w
                ∙ role_apart role (read_u32 (f.disk addr) (4 * j)) n r (ndirect + j + 1)
                    (h.data_blocks j hj there (λ z. nz (w ∙ z))) (λ z. omega (arith, z))
                    fresh.unused
          ];
    }
