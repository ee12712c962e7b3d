-- ===== src/Pipe/Transfer.antt =====
-- What `pipewrite` appends to the queue and `piperead` takes from it.
use mp.Prelude.{
  ℕ, zero, suc, ◌+◌, ◌≤◌, ◌≡◌, refl, sym, true, false, Bool, not, ◌||◌, if◌then◌else◌, ◌⊎◌, inl,
  inr, Option, none, some, List, [], ◌∷◌, ◌++◌, append-nil, append_assoc, length, arith, Bool-cases,
  Option-cases,
}
use mp.Prelude.Int.{pos, negsuc, minus_one}
use mp.Pipe.{Pipe, Writing, returned, waiting, put, get, is_full, is_empty, pipewrite, read_loop}
use mp.Pipe.Queue.{IsValid, contents, contents-put, put-IsValid, contents-get, get-IsValid}

-- `n` bytes of the caller's from `addr + i` on.
abbrev pub user_bytes : (ℕ → Option ℕ) → ℕ → ℕ → List ℕ
user_bytes user i zero = []
user_bytes user i (suc n) = elim (user i) [ none ↦ [] | some ch ↦ ch ∷ user_bytes user (i + 1) n ]

abbrev pub pipe_of : Writing → Pipe
pipe_of (returned r p) = p
pipe_of (waiting i p) = p

-- Why a write of `left` bytes from `i` on has stopped with `k` bytes written.
abbrev pub Stopped : (ℕ → Option ℕ) → Bool → ℕ → ℕ → ℕ → Writing → Type 0
Stopped user killed i left k (returned (pos r) q) =
    (r ≡ i + k) × ((k ≡ left) ⊎ (user (i + k) ≡ none))
Stopped user killed i left k (returned (negsuc m) q) =
    (is_full q ≡ true) × ((q.readopen ≡ false) ⊎ (killed ≡ true))
Stopped user killed i left k (waiting r q) =
    (r ≡ i + k) × (is_full q ≡ true) × (q.readopen ≡ true) × (killed ≡ false)

-- What a write of `left` bytes from `i` on has done.
pub record Wrote (user : ℕ → Option ℕ) (killed : Bool) (i left : ℕ) (p : Pipe) (w : Writing)
    : Type 0 where
  pub wrote : ℕ
  pub valid : IsValid (pipe_of w)
  pub appended : contents (pipe_of w) ≡ contents p ++ user_bytes user i wrote
  pub within : wrote ≤ left
  pub stopped : Stopped user killed i left wrote w

module _ (user : ℕ → Option ℕ) (killed : Bool) (i left : ℕ) (p : Pipe) (v : IsValid p) where
  stop_full :
      is_full p ≡ true
      → Wrote user killed i
          (suc left)
          p
          (if not p.readopen || killed then returned minus_one p else waiting i p)
  stop_full full = elim (Bool-cases (not p.readopen || killed)) [
    | inl gone ↦ rw gone (record {
      wrote = 0;
      valid = v;
      appended = sym (append-nil (contents p));
      within = omega arith;
      stopped = (full, ground arith);
    })
    | inr there ↦ rw there (record {
      wrote = 0;
      valid = v;
      appended = sym (append-nil (contents p));
      within = omega arith;
      stopped = (omega arith, full, ground arith, ground arith);
    })
  ]

  stop_fault : user i ≡ none → Wrote user killed i (suc left) p (returned (pos i) p)
  stop_fault fault = record {
    wrote = 0;
    valid = v;
    appended = sym (append-nil (contents p));
    within = omega arith;
    stopped = (omega arith, inr (let e : i + 0 ≡ i = omega arith in rw e fault));
  }

Stopped-later :
    (user : ℕ → Option ℕ) (killed : Bool) (i left k : ℕ) (w : Writing)
    → Stopped user killed (i + 1) left k w
    → Stopped user killed i (suc left) (suc k) w
Stopped-later user killed i left k (returned (pos r) q) h =
    let e : i + suc k ≡ i + 1 + k = omega arith in
    (omega arith, elim h.1 [ inl a ↦ inl (omega arith) | inr f ↦ inr (rw e f) ])
Stopped-later user killed i left k (returned (negsuc m) q) h = h
Stopped-later user killed i left k (waiting r q) h = (omega arith, h.1, h.2, h.3)

-- One round of the loop.
module _ (user : ℕ → Option ℕ) (killed : Bool) (i left : ℕ) (p : Pipe) where
  write_end : pipewrite user killed i zero p ≡ returned (pos i) p
  unfolding pipewrite
  write_end = refl

  write_full :
      is_full p ≡ true
      → pipewrite user killed i (suc left) p
        ≡ (if not p.readopen || killed then returned minus_one p else waiting i p)
  unfolding pipewrite
  write_full full = ground arith

  write_fault :
      is_full p ≡ false → user i ≡ none → pipewrite user killed i (suc left) p ≡ returned (pos i) p
  unfolding pipewrite
  write_fault room fault = ground arith

  write_byte :
      (ch : ℕ)
      → is_full p ≡ false
      → user i ≡ some ch
      → pipewrite user killed i (suc left) p ≡ pipewrite user killed (i + 1) left (put ch p)
  unfolding pipewrite
  write_byte ch room found = ground arith

user_bytes-suc :
    (user : ℕ → Option ℕ) (i n ch : ℕ)
    → user i ≡ some ch
    → user_bytes user i (suc n) ≡ ch ∷ user_bytes user (i + 1) n
user_bytes-suc user i n ch h = ground arith

-- Whatever the caller's memory holds, `pipewrite` appends a prefix of the caller's bytes to the queue:
-- all of them, or those before a fault, if it returns their number; those that fitted, if it sleeps;
-- and it fails only with the pipe full and its reader closed or the caller killed.
pub pipewrite-Wrote :
    (user : ℕ → Option ℕ) (killed : Bool) (i left : ℕ) (p : Pipe)
    → IsValid p
    → Wrote user killed i left p (pipewrite user killed i left p)
pipewrite-Wrote user killed i zero p v = rw (write_end user killed i 0 p) (record {
  wrote = 0;
  valid = v;
  appended = sym (append-nil (contents p));
  within = omega arith;
  stopped = (omega arith, inl refl);
})
pipewrite-Wrote user killed i (suc left) p v = elim (Bool-cases (is_full p)) [
  | inl full ↦ rw (write_full user killed i left p full) (stop_full user killed i left p v full)
  | inr room ↦ elim (Option-cases (user i)) [
    | inl fault ↦
        rw (write_fault user killed i left p room fault) (stop_fault user killed i left p v fault)
    | inr (ch, found) ↦
        let ih = pipewrite-Wrote user killed (i + 1) left (put ch p) (put-IsValid v ch room) in
        rw (write_byte user killed i left p ch room found) (record {
          wrote = suc ih.wrote;
          valid = ih.valid;
          appended = ground (
            arith,
            ih.appended,
            contents-put v ch room,
            append_assoc (contents p) (ch ∷ []) (user_bytes user (i + 1) ih.wrote),
            user_bytes-suc user i ih.wrote ch found,
          );
          within = omega (arith, ih.within);
          stopped = Stopped-later user killed i left ih.wrote _ ih.stopped;
        })
  ]
]

-- What the loop of `piperead` has done.
pub record Took (writable : ℕ → Bool) (i left : ℕ) (p : Pipe) (n : ℕ) (bytes : List ℕ) (q : Pipe)
    : Type 0 where
  pub lost : List ℕ
  pub valid : IsValid q
  pub taken : contents p ≡ bytes ++ (lost ++ contents q)
  pub number : n ≡ i + length bytes
  pub stopped :
      ((lost ≡ []) × (length bytes ≡ left))
      ⊎ ((lost ≡ []) × (is_empty q ≡ true))
      ⊎ ((length lost ≡ 1) × (writable n ≡ false))

module _ (writable : ℕ → Bool) (i left : ℕ) (p : Pipe) where
  read_end : read_loop writable i zero p ≡ (i, [], p)
  unfolding read_loop
  read_end = refl

  read_empty : is_empty p ≡ true → read_loop writable i (suc left) p ≡ (i, [], p)
  unfolding read_loop
  read_empty h = ground arith

  read_fault :
      is_empty p ≡ false
      → writable i ≡ false
      → read_loop writable i (suc left) p ≡ (i, [], (get p).1)
  unfolding read_loop
  read_fault h f = ground arith

  read_byte :
      is_empty p ≡ false
      → writable i ≡ true
      → read_loop writable i (suc left) p ≡ (
          let (n, bytes, q) = read_loop writable (i + 1) left (get p).1 in
          (n, (get p).0 ∷ bytes, q))
  unfolding read_loop
  read_byte h f = ground arith

Took-byte :
    (writable : ℕ → Bool) (i left : ℕ) (p : Pipe) (n : ℕ) (bytes : List ℕ) (q : Pipe)
    → IsValid p
    → is_empty p ≡ false
    → Took writable (i + 1) left (get p).1 n bytes q
    → Took writable i (suc left) p n ((get p).0 ∷ bytes) q
Took-byte writable i left p n bytes q v h t = record {
  lost = t.lost;
  valid = t.valid;
  taken = ground (arith, contents-get v h, t.taken);
  number = omega (arith, t.number);
  stopped = elim t.stopped [
    | inl (e, a) ↦ inl (e, omega arith)
    | inr (inl b) ↦ inr (inl b)
    | inr (inr c) ↦ inr (inr c)
  ];
}

-- `read_loop` delivers the front of the queue in order, with its length, until it has what was asked
-- for, the pipe is empty, or a byte cannot be stored: that one byte is taken and lost.
pub read_loop-Took :
    (writable : ℕ → Bool) (i left : ℕ) (p : Pipe)
    → IsValid p
    → let (n, bytes, q) = read_loop writable i left p in Took writable i left p n bytes q
read_loop-Took writable i zero p v = rw (read_end writable i 0 p) (record {
  lost = [];
  valid = v;
  taken = refl;
  number = omega arith;
  stopped = inl (refl, refl);
})
read_loop-Took writable i (suc left) p v = elim (Bool-cases (is_empty p)) [
  | inl empty ↦ rw (read_empty writable i left p empty) (record {
    lost = [];
    valid = v;
    taken = refl;
    number = omega arith;
    stopped = inr (inl (refl, empty));
  })
  | inr some_bytes ↦ elim (Bool-cases (writable i)) [
    | inl stored ↦ rw (read_byte writable i left p some_bytes stored) (
        let (n, bytes, q) = read_loop writable (i + 1) left (get p).1 in
        Took-byte writable i left p n bytes q v some_bytes
          (read_loop-Took writable (i + 1) left (get p).1 (get-IsValid v some_bytes)))
    | inr fault ↦ rw (read_fault writable i left p some_bytes fault) (record {
      lost = (get p).0 ∷ [];
      valid = get-IsValid v some_bytes;
      taken = contents-get v some_bytes;
      number = omega arith;
      stopped = inr (inr (refl, fault));
    })
  ]
]
