-- ===== src/Log/Head.antt =====
-- The header block: what `write_head` stores, `read_head` reads back.
use mp.Prelude.{
  ℕ, zero, suc, ◌+◌, ◌^◌, ◌≤◌, ◌<◌, ◌≡◌, inl, inr, refl, ◌∙◌, ◌==◌, ltb, leb, ◌&&◌, if◌then◌else◌,
  arith, Bool-cases,
}
use mp.Prelude.Update.{update}
use mp.Words.{read_u32, write_u32, read-write_u32, read-write_u32_ne}
use mp.Bio.{Block}
use mp.Log.{entry_offset, put_entries, encode_head, get_entries, rounds}

module _ (block : ℕ → ℕ) where
  put_entries_before :
      (i left : ℕ) (b : Block) (p : ℕ)
      → p + 4 ≤ entry_offset i
      → read_u32 (put_entries block i left b) p ≡ read_u32 b p
  unfolding put_entries
  put_entries_before i zero b p h = refl
  put_entries_before i (suc left) b p h =
      put_entries_before (i + 1) left (write_u32 b (entry_offset i) (block i)) p (omega arith)
      ∙ read-write_u32_ne b (entry_offset i) p (block i) (inr h)

  put_entries_at :
      (i left : ℕ) (b : Block) (k : ℕ)
      → block k < 2 ^ 32
      → i ≤ k
      → k < i + left
      → read_u32 (put_entries block i left b) (entry_offset k) ≡ block k
  unfolding put_entries
  put_entries_at i zero b k word lo hi = absurd (omega arith)
  put_entries_at i (suc left) b k word lo hi = elim (Bool-cases (i == k)) [
    | inl here ↦ ground (
      arith,
      put_entries_before (i + 1) left (write_u32 b (entry_offset i) (block i)) (entry_offset i),
      read-write_u32 b (entry_offset i) (block i),
    )
    | inr later ↦
        put_entries_at (i + 1) left (write_u32 b (entry_offset i) (block i)) k word (ground arith)
          (omega arith)
  ]

get_entries_at :
    (b : Block) (i left : ℕ) (block : ℕ → ℕ) (k : ℕ)
    → get_entries b i left block k
      ≡ (if leb i k && ltb k (i + left) then read_u32 b (entry_offset k) else block k)
unfolding get_entries
get_entries_at b i zero block k = ground arith
get_entries_at b i (suc left) block k =
    ground (arith, get_entries_at b (i + 1) left (update block i (read_u32 b (entry_offset i))) k)

module _ (n : ℕ) (block : ℕ → ℕ) (b : Block) (small : n < 2 ^ 31) where
  count-encode_head : rounds (read_u32 (encode_head n block b) 0) ≡ n
  unfolding encode_head
  count-encode_head =
      ground (arith, put_entries_before block 0 n (write_u32 b 0 n) 0, read-write_u32 b 0 n)

  entry-encode_head :
      (old : ℕ → ℕ) (k : ℕ)
      → block k < 2 ^ 32
      → k < n
      → get_entries (encode_head n block b) 0 n old k ≡ block k
  unfolding encode_head
  entry-encode_head old k word lt = ground (
    arith,
    get_entries_at (encode_head n block b) 0 n old k,
    put_entries_at block 0 n (write_u32 b 0 n) k,
  )

-- A header of `n` entries is read back from the block that `write_head` fills: the count, and each
-- entry, whatever the block held before and whatever was in memory.
pub head_roundtrip :
    (n : ℕ) (block old : ℕ → ℕ) (b : Block)
    → n < 2 ^ 31
    → ((k : ℕ) → k < n → block k < 2 ^ 32)
    → let b' = encode_head n block b in
      (rounds (read_u32 b' 0) ≡ n)
      × ((k : ℕ) → k < n → get_entries b' 0 (rounds (read_u32 b' 0)) old k ≡ block k)
head_roundtrip n block old b small words =
    let count = count-encode_head n block b small in
    (count, λ k lt. rw count (entry-encode_head n block b small old k (words k lt) lt))
