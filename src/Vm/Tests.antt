-- ===== src/Vm/Tests.antt =====
-- kernel/vm.c at concrete inputs: tests of the model, and the theorems applied.
use mp.Prelude.{
  ℕ, ◌+◌, ◌*◌, ◌%◌, ◌<◌, ◌≡◌, refl, inl, inr, true, List, [], ◌∷◌, arith, ◌==◌, ==→eq, Bool-cases,
  ok,
}
use mp.Prelude.Int.{ℤ, pos, minus_one}
use mp.Prelude.Update.{update}
use mp.Str.{move_down, move_up, memmove}
use mp.Vm.{
  is_valid, pte2pa, pg_round_down, Ram, descend, at_leaf, walk_on, user_address, walkaddr, mappages,
  uvmunmap,
}
use mp.Vm.Tree.{mid_place, low_place, IsTree, IsSound}
use mp.Vm.Mapping.{Maps, mappages_lem}
use mp.Vm.Copy.{out_from, copyout, in_from, copyin, copy_str, instr_from, copyinstr}
use mp.Vm.Range.{page_of, IsUserRange}
use mp.Vm.Transfer.{CopiedOut, copyout_lem}
use mp.Vm.Receive.{copyin-copyout}
use mp.Vm.Unmap.{AreBacked, Unmaps, uvmunmap_lem}

-- A table at 0x1000 that maps nothing, and three free pages.
abbrev next_word : ℕ → ℕ
next_word = update (update (λ _. 0) 0x2000 0x3000) 0x3000 0x4000

abbrev empty : Ram
empty = record {
  kmem = record { freelist = 0x2000; word = next_word; end_address = 1 };
  entry = λ _ _. 0;
  bytes = λ a. a % 256;
}

abbrev at_root_only : ℕ → ℕ
at_root_only = update (λ _. 0) 0x1000 1

abbrev three_free : List ℕ
three_free = 0x2000 ∷ 0x3000 ∷ 0x4000 ∷ []

empty-IsSound : IsSound at_root_only 0x1000 empty three_free
empty-IsSound = record {
  tree = record { at_root = refl; mids = λ i hi v. cc; lows = λ t i j hi hj pl v. cc };
  holds = record {
    positive = omega arith;
    chain = (refl, (refl, (refl, refl)));
    distinct = ((omega arith, (omega arith, tt)), ((omega arith, tt), (tt, tt)));
    pages = (
      (refl, omega arith, omega arith),
      ((refl, omega arith, omega arith), ((refl, omega arith, omega arith), tt)),
    );
  };
  outside = (refl, (refl, (refl, tt)));
}

mappages_lem_example :
    (r : ℤ × Ram) × (mappages 0x1000 0x5000 0x2000 0x10000 22 empty ≡ ok r)
    × Maps 0x1000 empty three_free 0x5000 0x6000 0x10000 22 r
mappages_lem_example =
    mappages_lem 0x1000 at_root_only empty three_free 0x5000 0x2000 0x10000 22 empty-IsSound
      (omega arith) (omega arith) (omega arith) (λ v hv lo hi. refl)

-- Address 0 is mapped to the page at 0x5000, for the user.
abbrev one_mapped : ℕ → ℕ → ℕ
one_mapped =
    update
      (update (update (λ _ _. 0) 0x1000 (update (λ _. 0) 0 (2 * 1024 + 1))) 0x2000
        (update (λ _. 0) 0 (3 * 1024 + 1)))
      0x3000 (update (λ _. 0) 0 (5 * 1024 + 1 + 2 + 4 + 16))

abbrev mapped_ram : Ram
mapped_ram = record {
  kmem = record { freelist = 0; word = λ _. 0; end_address = 1 };
  entry = one_mapped;
  bytes = λ a. a % 256;
}

in_page : (j : ℕ) → j < 2 → page_of 0x1000 one_mapped (10 + j) ≡ 0x5000
in_page j h = let q : pg_round_down (10 + j) ≡ 0 = omega arith in rw q refl

user_range : (k : ℕ) → k + 2 < 0x5000 → IsUserRange 0x1000 one_mapped 10 k 2
user_range k lt = record {
  below = omega arith;
  there = λ j hj e. omega (arith, in_page j hj, e);
  one_each = λ i j hi hj e. omega arith;
  apart = λ i j hi hj e. omega (arith, in_page j hj, e);
}

moves :
    ((copyout 0x1000 10 100 2 mapped_ram).1.bytes 0x500b ≡ 101)
    × ((copyout 0x1000 4095 100 2 mapped_ram).0 ≡ minus_one)
    × ((copyin 0x1000 100 10 2 mapped_ram).1.bytes 101 ≡ 11)
    × ((copyinstr 0x1000 100 0xfe 8 mapped_ram).0 ≡ pos 0)
    × ((copyinstr 0x1000 100 10 8 mapped_ram).0 ≡ minus_one)
unfolding copyout out_from copyin in_from copyinstr instr_from copy_str walkaddr user_address
    walk_on at_leaf descend memmove move_up move_down
moves = (refl, refl, refl, refl, refl)

copyin-copyout_example :
    let (r, s1) = copyout 0x1000 10 100 2 mapped_ram in
    let (r', s2) = copyin 0x1000 200 10 2 s1 in
    (r ≡ pos 0) × (r' ≡ pos 0) × ((j : ℕ) → j < 2 → s2.bytes (200 + j) ≡ mapped_ram.bytes (100 + j))
copyin-copyout_example =
    copyin-copyout 0x1000 10 100 200 2 mapped_ram (user_range 100 (omega arith))
      (user_range 200 (omega arith))

copyout_lem_example :
    (IsUserRange 0x1000 one_mapped 10 100 2
      → (s' : Ram) × (copyout 0x1000 10 100 2 mapped_ram ≡ (pos 0, s'))
        × CopiedOut 0x1000 10 100 2 mapped_ram s')
    × ((j : ℕ)
        → j < 2
        → page_of 0x1000 one_mapped (10 + j) ≡ 0
        → (copyout 0x1000 10 100 2 mapped_ram).0 ≡ minus_one)
copyout_lem_example = copyout_lem 0x1000 10 100 2 mapped_ram (omega arith)

abbrev places : ℕ → ℕ
places = update (update (update (λ _. 0) 0x1000 1) 0x2000 2) 0x3000 1000

mapped-IsTree : IsTree places 0x1000 one_mapped
mapped-IsTree = record {
  at_root = refl;
  mids = λ i hi v. elim (Bool-cases (0 == i)) [
    | inl q ↦ let e : 0 ≡ i = ==→eq 0 i q in rw (← e) refl
    | inr q ↦ absurd (ground arith)
  ];
  lows = λ t i j hi hj pl v. mapped_low t i j pl v hi;
}
  where
    mapped_low :
        (t i j : ℕ)
        → places t ≡ mid_place i
        → is_valid (one_mapped t j) ≡ true
        → i < 512
        → places (pte2pa (one_mapped t j)) ≡ low_place i j
    mapped_low t i j pl v hi = ground arith

mapped-IsSound : IsSound places 0x1000 mapped_ram []
mapped-IsSound = record {
  tree = mapped-IsTree;
  holds = record { positive = omega arith; chain = refl; distinct = tt; pages = tt };
  outside = tt;
}

one_backed : AreBacked places 0x1000 mapped_ram [] 0 1
one_backed = record {
  each = λ i hi.
      let z : i ≡ 0 = omega arith in
      rw z (record {
        valid = refl;
        leaf = refl;
        page = (refl, omega arith, omega arith);
        outside = refl;
        taken = tt;
      });
  own = λ i j hi hj ne e. omega (arith, ne);
}

uvmunmap_lem_example :
    (s' : Ram) × (uvmunmap 0x1000 0 1 true mapped_ram ≡ ok s')
    × Unmaps places 0x1000 mapped_ram [] 0 1 s'
uvmunmap_lem_example =
    uvmunmap_lem places 0x1000 mapped_ram [] 0 1 mapped-IsSound refl (omega arith) one_backed
