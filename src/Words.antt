-- ===== src/Words.antt =====
-- 32-bit words in a block's bytes, least significant byte first, as the RISC-V kernel stores an `int`
-- or a `uint` through a pointer into `b->data`.
use mp.Prelude.{ℕ, ◌+◌, ◌*◌, ◌/◌, ◌%◌, ◌^◌, ◌≤◌, ◌<◌, ◌≡◌, ◌⊎◌, ◌==◌, if◌then◌else◌, arith}

abbrev pub Bytes : Type 0
Bytes = ℕ → ℕ

unfoldable pub read_u32 : Bytes → ℕ → ℕ
read_u32 b o = b o + 256 * b (o + 1) + 65536 * b (o + 2) + 16777216 * b (o + 3)

unfoldable pub write_u32 : Bytes → ℕ → ℕ → Bytes
write_u32 b o v j =
    if j == o
    then v % 256
    else if j == o + 1
    then v / 256 % 256
    else if j == o + 2
    then v / 65536 % 256
    else if j == o + 3
    then v / 16777216 % 256
    else b j

-- A 16-bit field.
unfoldable pub read_u16 : Bytes → ℕ → ℕ
read_u16 b o = b o + 256 * b (o + 1)

unfoldable pub write_u16 : Bytes → ℕ → ℕ → Bytes
write_u16 b o v j = if j == o then v % 256 else if j == o + 1 then v / 256 % 256 else b j

pub read-write_u16 : (b : Bytes) (o v : ℕ) → v < 2 ^ 16 → read_u16 (write_u16 b o v) o ≡ v
unfolding read_u16 write_u16
read-write_u16 b o v h = ground arith

-- A word is read back as it was written.
pub read-write_u32 : (b : Bytes) (o v : ℕ) → v < 2 ^ 32 → read_u32 (write_u32 b o v) o ≡ v
unfolding read_u32 write_u32
read-write_u32 b o v h = ground arith

-- A write leaves the words beside it.
pub read-write_u32_ne :
    (b : Bytes) (o p v : ℕ)
    → (o + 4 ≤ p) ⊎ (p + 4 ≤ o)
    → read_u32 (write_u32 b o v) p ≡ read_u32 b p
unfolding read_u32 write_u32
read-write_u32_ne b o p v h = ground arith
