-- ===== src/Inode/Elements.antt =====
-- `skipelem` of kernel/fs.c against the elements of a path.
use mp.Prelude.{
  ℕ, suc, ◌<◌, ◌≤◌, ◌≡◌, ◌≢◌, ◌⊎◌, inl, inr, refl, sym, ap, ◌∙◌, subst, true, false, ◌==◌,
  if◌then◌else◌, none, some, List, [], ◌∷◌, length, take, arith, Bool-cases,
}
use mp.Inode.Path.{skipelem, skip_slashes, span_elem, slash, dirsiz}

-- The pieces of the path between its slashes.
abbrev onto : ℕ → List (List ℕ) → List (List ℕ)
onto c [] = (c ∷ []) ∷ []
onto c (x ∷ xs) = (c ∷ x) ∷ xs

abbrev split : List ℕ → List (List ℕ)
split [] = [] ∷ []
split (c ∷ r) = let rest = split r in if c == slash then [] ∷ rest else onto c rest

-- The pieces that are not empty, cut off at DIRSIZ characters.
abbrev keep : List (List ℕ) → List (List ℕ)
keep [] = []
keep ([] ∷ r) = keep r
keep ((c ∷ x) ∷ r) = take dirsiz (c ∷ x) ∷ keep r

unfoldable pub elements : List ℕ → List (List ℕ)
elements path = keep (split path)

elements-skip_slashes : (path : List ℕ) → elements (skip_slashes path) ≡ elements path
unfolding elements skip_slashes
elements-skip_slashes [] = refl
elements-skip_slashes (c ∷ r) = elim (Bool-cases (c == slash)) [
  | inl is_slash ↦ rw (is_slash) (elements-skip_slashes r)
  | inr other ↦ rw (other) (rw other)
]

length-skip_slashes : (path : List ℕ) → length (skip_slashes path) ≤ length path
unfolding skip_slashes
length-skip_slashes [] = omega arith
length-skip_slashes (c ∷ r) = ground (arith, length-skip_slashes r)

-- No slash stands in front.
abbrev pub Starts : List ℕ → Type 0
Starts [] = Unit
Starts (c ∷ r) = c ≢ slash

skip_slashes-Starts : (path : List ℕ) → Starts (skip_slashes path)
unfolding skip_slashes
skip_slashes-Starts [] = tt
skip_slashes-Starts (c ∷ r) = elim (Bool-cases (c == slash)) [
  | inl is_slash ↦ rw is_slash (skip_slashes-Starts r)
  | inr other ↦ rw other (ground arith)
]

after : List ℕ → List (List ℕ)
after [] = []
after (c ∷ r) = split r

-- The end of the path, or a slash.
Ends : List ℕ → Type 0
Ends [] = Unit
Ends (c ∷ r) = c ≡ slash

span_elem-split :
    (path : List ℕ)
    → let (a, b) = span_elem path in (split path ≡ a ∷ after b) × Ends b × (length b ≤ length path)
unfolding span_elem after Ends
span_elem-split [] = (refl, tt, omega arith)
span_elem-split (c ∷ r) =
    let (same, ends, le) = span_elem-split r in
    elim (Bool-cases (c == slash)) [
      | inl is_slash ↦ rw is_slash (refl, ground arith, omega arith)
      | inr other ↦ rw other ((rw same), ends, omega arith)
    ]

after-elements : (b : List ℕ) → Ends b → keep (after b) ≡ elements b
unfolding elements after Ends
after-elements [] h = refl
after-elements (c ∷ r) h = let e : (c == slash) ≡ true = ground arith in rw e

List-cases : (l : List ℕ) → (l ≡ []) ⊎ ((c : ℕ) × (r : List ℕ) × (l ≡ c ∷ r))
List-cases [] = inl refl
List-cases (c ∷ r) = inr (c, r, refl)

skipelem-none : (path : List ℕ) → skip_slashes path ≡ [] → skipelem path ≡ none
unfolding skipelem
skipelem-none path e = rw (e, skipelem)

skipelem-some :
    (path : List ℕ) (c : ℕ) (r : List ℕ)
    → skip_slashes path ≡ c ∷ r
    → c ≢ slash
    → skipelem path ≡ some (take dirsiz (c ∷ (span_elem r).0), skip_slashes (span_elem r).1)
unfolding skipelem
skipelem-some path c r e ne =
    let other : (c == slash) ≡ false = ground arith in
    rw (e, skipelem) (unfold span_elem in rw other)

elements-cons :
    (c : ℕ) (r : List ℕ)
    → c ≢ slash
    → elements (c ∷ r) ≡ take dirsiz (c ∷ (span_elem r).0) ∷ elements (skip_slashes (span_elem r).1)
unfolding elements
elements-cons c r ne =
    let (same, ends, le) = span_elem-split r in
    let other : (c == slash) ≡ false = ground arith in
    let tail : keep (after (span_elem r).1) ≡ elements (skip_slashes (span_elem r).1) =
      after-elements (span_elem r).1 ends ∙ sym (elements-skip_slashes (span_elem r).1) in
    rw (other, same, tail)

-- `skipelem` returns 0 exactly for a path with no element. Otherwise it takes the first element of
-- the path, cut off at DIRSIZ characters, and leaves a shorter path that has the other elements and
-- does not start with a slash.
pub skipelem_lem :
    (path : List ℕ)
    → ((skipelem path ≡ none) × (elements path ≡ []))
      ⊎ ((name : List ℕ) × (rest : List ℕ) × (skipelem path ≡ some (name, rest))
          × (elements path ≡ name ∷ elements rest)
          × (length rest < length path)
          × Starts rest)
skipelem_lem path = elim (List-cases (skip_slashes path)) [
  | inl empty ↦ inl (
    skipelem-none path empty,
    sym (elements-skip_slashes path) ∙ ap elements empty ∙ (unfold elements in refl),
  )
  | inr (c, r, cons) ↦
      let ne : c ≢ slash = subst Starts cons (skip_slashes-Starts path) in
      let (same, ends, le) = span_elem-split r in
      let shorter : suc (length r) ≤ length path =
        subst (λ l. length l ≤ length path) cons (length-skip_slashes path) in
      inr (
        take dirsiz (c ∷ (span_elem r).0),
        skip_slashes (span_elem r).1,
        skipelem-some path c r cons ne,
        sym (elements-skip_slashes path) ∙ ap elements cons ∙ elements-cons c r ne,
        omega (arith, le, length-skip_slashes (span_elem r).1),
        skip_slashes-Starts (span_elem r).1,
      )
]
