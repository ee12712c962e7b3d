-- ===== src/Fs/LogRoom.antt =====
-- How many blocks a transaction adds to the log: the block of the map and the indirect block count once.
use mp.Prelude.{
  ℕ, ◌+◌, ◌≤◌, ◌<◌, ◌≡◌, refl, ◌≢◌, inl, inr, true, false, List, arith, leb, ◌==◌, if◌then◌else◌,
  ==→ne, ne→==, ==_refl, Bool-cases, length, ok,
}
use mp.Fs.Trans.{Trans, in_log, with_block_number, log_block}

in_log_self : (b : ℕ) (l : List ℕ) → in_log b (with_block_number b l) ≡ true
unfolding in_log
in_log_self b l = elim (Bool-cases (in_log b l)) [
  | inl q ↦ rw q q
  | inr q ↦ rw q (rw (==_refl b) refl)
]

pub in_log_more :
    (b c : ℕ) (l : List ℕ) → in_log c l ≡ true → in_log c (with_block_number b l) ≡ true
unfolding in_log
in_log_more b c l h = elim (Bool-cases (in_log b l)) [
  | inl q ↦ rw q h
  | inr q ↦ rw (q, h) (ground arith)
]

-- A block that is there is absorbed.
pub absorbed : (b : ℕ) (l : List ℕ) → in_log b l ≡ true → with_block_number b l ≡ l
absorbed b l h = rw h refl

pub in_log_kept :
    (b c : ℕ) (l : List ℕ) → in_log b (with_block_number c (with_block_number b l)) ≡ true
in_log_kept b c l = in_log_more c b (with_block_number b l) (in_log_self b l)

pub in_log_added : (b : ℕ) (l : List ℕ) → in_log b (with_block_number b l) ≡ true
in_log_added b l = in_log_self b l

abbrev missing : ℕ → List ℕ → ℕ
missing b l = if in_log b l then 0 else 1

missing_self :
    (b : ℕ) (l : List ℕ)
    → length (with_block_number b l) + missing b (with_block_number b l) ≡ length l + missing b l
missing_self b l =
    rw (in_log_self b l)
      (elim (Bool-cases (in_log b l)) [ inl q ↦ rw q refl | inr q ↦ rw q (omega arith) ])

missing_more : (b c : ℕ) (l : List ℕ) → missing c (with_block_number b l) ≤ missing c l
missing_more b c l = elim (Bool-cases (in_log c l)) [
  | inl q ↦ rw (in_log_more b c l q, q) (omega arith)
  | inr q ↦ elim (Bool-cases (in_log c (with_block_number b l))) [
    | inl w ↦ rw (w, q) (omega arith)
    | inr w ↦ rw (w, q) (omega arith)
  ]
]

length_more : (b : ℕ) (l : List ℕ) → length (with_block_number b l) ≤ length l + 1
length_more b l = elim (Bool-cases (in_log b l)) [
  | inl q ↦ rw q (omega arith)
  | inr q ↦ rw q (omega arith)
]

-- The blocks in the log, and one each for the block of the map and the indirect block `ind` if they are
-- not there; 0 stands for an indirect block that is not there yet.
unfoldable pub charge : ℕ → ℕ → List ℕ → ℕ
charge bm ind l = length l + missing bm l + (if ind == 0 then 1 else missing ind l)

at_most_one : (b : ℕ) (l : List ℕ) → missing b l ≤ 1
at_most_one b l = elim (Bool-cases (in_log b l)) [
  | inl q ↦ rw q (omega arith)
  | inr q ↦ rw q (omega arith)
]

abbrev missing_indirect : ℕ → List ℕ → ℕ
missing_indirect ind l = if ind == 0 then 1 else missing ind l

indirect_more :
    (b ind : ℕ) (l : List ℕ) → missing_indirect ind (with_block_number b l) ≤ missing_indirect ind l
indirect_more b ind l = elim (Bool-cases (ind == 0)) [
  | inl q ↦ rw q (omega arith)
  | inr q ↦ rw q (missing_more b ind l)
]

indirect_at_most : (ind : ℕ) (l : List ℕ) → missing_indirect ind l ≤ 1
indirect_at_most ind l = elim (Bool-cases (ind == 0)) [
  | inl q ↦ rw q (omega arith)
  | inr q ↦ rw q (at_most_one ind l)
]

pub charge_any :
    (bm ind b : ℕ) (l : List ℕ) → charge bm ind (with_block_number b l) ≤ charge bm ind l + 1
unfolding charge
charge_any bm ind b l = omega (arith, length_more b l, missing_more b bm l, indirect_more b ind l)

pub charge_map :
    (bm ind : ℕ) (l : List ℕ) → charge bm ind (with_block_number bm l) ≤ charge bm ind l
unfolding charge
charge_map bm ind l = omega (arith, missing_self bm l, indirect_more bm ind l)

pub charge_indirect :
    (bm ind : ℕ) (l : List ℕ) → ind ≢ 0 → charge bm ind (with_block_number ind l) ≤ charge bm ind l
unfolding charge
charge_indirect bm ind l ne =
    rw (ne→== ind 0 ne) (omega (arith, missing_self ind l, missing_more ind bm l))

pub charge-length : (bm ind : ℕ) (l : List ℕ) → length l ≤ charge bm ind l
unfolding charge
charge-length bm ind l = omega arith

pub charge_start : (bm ind : ℕ) (l : List ℕ) → charge bm ind l ≤ length l + 2
unfolding charge
charge_start bm ind l = omega (arith, at_most_one bm l, indirect_at_most ind l)

-- The indirect block stays, or is new.
pub charge_same :
    (bm ind ind' : ℕ) (l : List ℕ) → (ind ≢ 0 → ind' ≡ ind) → charge bm ind' l ≤ charge bm ind l
unfolding charge
charge_same bm ind ind' l h = elim (Bool-cases (ind == 0)) [
  | inl q ↦ rw q (omega (arith, indirect_at_most ind' l))
  | inr q ↦ rw (h (==→ne ind 0 q)) (omega arith)
]

pub log_block_ok :
    (b : ℕ) (t : Trans)
    → length t.blocks < t.limit
    → log_block b t ≡ ok (record t { blocks = with_block_number b t.blocks })
unfolding log_block
log_block_ok b t h = let q : leb t.limit (length t.blocks) ≡ false = ground arith in rw q refl
