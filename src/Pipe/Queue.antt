-- ===== src/Pipe/Queue.antt =====
-- A pipe holds a queue of at most PIPESIZE bytes.
use mp.Prelude.{
  ℕ, zero, suc, ◌+◌, ◌-◌, ◌%◌, ◌^◌, ◌≤◌, ◌<◌, ◌≡◌, ◌≢◌, refl, ap, true, false, List, [], ◌∷◌, ◌++◌,
  length, arith,
}
use mp.Prelude.Update.{update}
use mp.Pipe.{Pipe, pipe_size, is_full, is_empty, put, get, uint_inc}

-- The `n` bytes from `r` on.
unfoldable pub window : (ℕ → ℕ) → ℕ → ℕ → List ℕ
window bytes r zero = []
window bytes r (suc n) = bytes (r % pipe_size) ∷ window bytes (uint_inc r) n

abbrev pub count : Pipe → ℕ
count p = (p.nwrite + 2 ^ 32 - p.nread) % 2 ^ 32

unfoldable pub contents : Pipe → List ℕ
contents p = window p.bytes p.nread (count p)

pub record IsValid (p : Pipe) : Type 0 where
  pub read_word : p.nread < 2 ^ 32
  pub write_word : p.nwrite < 2 ^ 32
  pub bounded : count p ≤ pipe_size

window-update :
    (bytes : ℕ → ℕ) (r n ch w : ℕ)
    → n < pipe_size
    → r < 2 ^ 32
    → w ≡ (r + n) % 2 ^ 32
    → window (update bytes (w % pipe_size) ch) r (suc n) ≡ window bytes r n ++ (ch ∷ [])
unfolding window
window-update bytes r zero ch w small word e = ground arith
window-update bytes r (suc n) ch w small word e =
    let ih = window-update bytes (uint_inc r) n ch w (omega arith) (omega arith) (omega arith) in
    ground (arith, ih)

window-cons :
    (bytes : ℕ → ℕ) (r n : ℕ)
    → n ≢ 0
    → window bytes r n ≡ bytes (r % pipe_size) ∷ window bytes (uint_inc r) (n - 1)
unfolding window
window-cons bytes r zero h = absurd (h refl)
window-cons bytes r (suc n) h =
    ap (λ k. bytes (r % pipe_size) ∷ window bytes (uint_inc r) k) (omega arith)

length-window : (bytes : ℕ → ℕ) (r n : ℕ) → length (window bytes r n) ≡ n
unfolding window
length-window bytes r zero = refl
length-window bytes r (suc n) = omega (arith, length-window bytes (uint_inc r) n)

module _ {p : Pipe} (v : IsValid p) where
  -- A byte put into a pipe that is not full is the last of the queue.
  pub contents-put : (ch : ℕ) → is_full p ≡ false → contents (put ch p) ≡ contents p ++ (ch ∷ [])
  unfolding contents put
  contents-put ch room =
      let e : count (put ch p) ≡ suc (count p) = ground arith in
      rw e (
        window-update p.bytes p.nread (count p) ch p.nwrite (ground arith) v.read_word
          (omega arith))

  pub put-IsValid : (ch : ℕ) → is_full p ≡ false → IsValid (put ch p)
  unfolding put
  put-IsValid ch room = ground arith

  -- A byte taken from a pipe that is not empty is the first of the queue.
  pub contents-get : is_empty p ≡ false → contents p ≡ (get p).0 ∷ contents (get p).1
  unfolding contents get
  contents-get some_bytes =
      let e : count (get p).1 ≡ count p - 1 = ground arith in
      rw e (window-cons p.bytes p.nread (count p) (ground arith))

  pub get-IsValid : is_empty p ≡ false → IsValid (get p).1
  unfolding get
  get-IsValid some_bytes = ground arith

  pub contents-empty : is_empty p ≡ true → contents p ≡ []
  unfolding contents window
  contents-empty none_left = let e : count p ≡ 0 = ground arith in rw e

  pub length-contents-full : is_full p ≡ true → length (contents p) ≡ pipe_size
  unfolding contents
  length-contents-full full = ground (arith, length-window p.bytes p.nread (count p))
