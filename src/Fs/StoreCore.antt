-- ===== src/Fs/StoreCore.antt =====
-- kernel/fs.c: the words and the head of an inode in its block.
use mp.Prelude.{
  ℕ, zero, suc, ◌+◌, ◌*◌, ◌^◌, ◌≤◌, ◌<◌, ◌≡◌, refl, sym, ap, ◌∙◌, subst, ◌⊎◌, inl, inr, arith, ◌==◌,
  ==→eq, Bool-cases,
}
use mp.Words.{Bytes, read_u32, write_u32, read_u16, write_u16, read-write_u32}
use mp.Fs.Content.{ndirect, dinode_size, Core, write_addrs, store_core}

-- The bytes below and above the addresses.
pub write_addrs_below :
    (o i left : ℕ) (addrs : ℕ → ℕ) (b : Bytes) (j : ℕ)
    → j < o + 4 * i
    → write_addrs o addrs i left b j ≡ b j
unfolding write_addrs
write_addrs_below o i zero addrs b j h = refl
write_addrs_below o i (suc left) addrs b j h =
    write_addrs_below o (i + 1) left addrs (write_u32 b (o + 4 * i) (addrs i)) j (omega arith)
    ∙ (unfold write_u32 in ground arith)

write_addrs_above :
    (o i left : ℕ) (addrs : ℕ → ℕ) (b : Bytes) (j : ℕ)
    → o + 4 * (i + left) ≤ j
    → write_addrs o addrs i left b j ≡ b j
unfolding write_addrs
write_addrs_above o i zero addrs b j h = refl
write_addrs_above o i (suc left) addrs b j h =
    write_addrs_above o (i + 1) left addrs (write_u32 b (o + 4 * i) (addrs i)) j (omega arith)
    ∙ (unfold write_u32 in ground arith)

pub read_u32-same :
    (b c : Bytes) (o : ℕ) → ((j : ℕ) → o ≤ j → j < o + 4 → c j ≡ b j) → read_u32 c o ≡ read_u32 b o
unfolding read_u32
read_u32-same b c o h =
    rw
      (
        h o (omega arith) (omega arith),
        h (o + 1) (omega arith) (omega arith),
        h (o + 2) (omega arith) (omega arith),
        h (o + 3) (omega arith) (omega arith),
      )
      refl

pub read_u16-same :
    (b c : Bytes) (o : ℕ) → ((j : ℕ) → o ≤ j → j < o + 2 → c j ≡ b j) → read_u16 c o ≡ read_u16 b o
unfolding read_u16
read_u16-same b c o h =
    rw (h o (omega arith) (omega arith), h (o + 1) (omega arith) (omega arith)) refl

pub read-write_addrs :
    (o i left k : ℕ) (addrs : ℕ → ℕ) (b : Bytes)
    → i ≤ k
    → k < i + left
    → addrs k < 2 ^ 32
    → read_u32 (write_addrs o addrs i left b) (o + 4 * k) ≡ addrs k
unfolding write_addrs
read-write_addrs o i zero k addrs b lo hi small = absurd (omega arith)
read-write_addrs o i (suc left) k addrs b lo hi small = elim (Bool-cases (i == k)) [
  | inl q ↦
      let e : i ≡ k = ==→eq i k q in
      let b' = write_u32 b (o + 4 * i) (addrs i) in
      read_u32-same b' (write_addrs o addrs (i + 1) left b') (o + 4 * k)
        (λ j jl jh. write_addrs_below o (i + 1) left addrs b' j (omega arith))
      ∙ subst (λ x. read_u32 (write_u32 b (o + 4 * x) (addrs x)) (o + 4 * k) ≡ addrs k) (sym e)
          (read-write_u32 b (o + 4 * k) (addrs k) small)
  | inr q ↦
      read-write_addrs o (i + 1) left k addrs (write_u32 b (o + 4 * i) (addrs i)) (ground arith)
        (omega arith) small
]

-- The head of the inode, before the addresses.
unfoldable pub store_head : Core → ℕ → Bytes → Bytes
store_head ip o b =
    write_u32
      (write_u16 (write_u16 (write_u16 (write_u16 b o ip.type) (o + 2) ip.major) (o + 4) ip.mode)
        (o + 6) ip.nlink)
      (o + 8) ip.size

pub store_core-head :
    (ip : Core) (o : ℕ) (b : Bytes)
    → store_core ip o b ≡ write_addrs (o + 12) ip.addrs 0 (ndirect + 1) (store_head ip o b)
unfolding store_core store_head
store_core-head ip o b = refl

-- A store of the inode at `o` changes its 64 bytes only.
pub store_core_other :
    (ip : Core) (o : ℕ) (b : Bytes) (j : ℕ)
    → (j < o) ⊎ (o + dinode_size ≤ j)
    → store_core ip o b j ≡ b j
unfolding store_head write_u16 write_u32
store_core_other ip o b j h =
    ap (λ c. c j) (store_core-head ip o b)
    ∙ (elim h [
      | inl lo ↦
          write_addrs_below (o + 12) 0 (ndirect + 1) ip.addrs (store_head ip o b) j (omega arith)
      | inr hi ↦
          write_addrs_above (o + 12) 0 (ndirect + 1) ip.addrs (store_head ip o b) j (omega arith)
    ])
    ∙ ground arith
