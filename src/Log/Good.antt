-- ===== src/Log/Good.antt =====
-- What the log needs of the buffer cache while no failure is simulated: one buffer for each block, and
-- of the blocks of the log the buffers hold what the disk has.
use mp.Prelude.{
  ℕ, ◌^◌, ◌<◌, ◌≡◌, refl, sym, ap, ◌∙◌, subst, ◌⊎◌, inl, inr, Bool, true, false, none, arith, ltb,
  ◌==◌, ==→eq, ==→ne, ==_refl, Bool-cases,
}
use mp.Prelude.Int.{minus_one}
use mp.Param.{logical_disk_size}
use mp.Bio.{Buf, Bcache, matches, refcnt_dec, block_fails, disk_fails, use_fallback, bunpin}
use mp.Bio.Scan.{has, find_cached-some, find_cached-none}
use mp.Bio.Effects.{WasRead}
use mp.Log.Blocks.{WasReleased}

-- `area` are the blocks of the log.
pub record IsGood (dev : ℕ) (area : ℕ → Bool) (s : Bcache) : Type 0 where
  pub no_block_fails : s.force_read_error_pbn ≡ minus_one
  pub no_disk_fails : s.force_disk_fail_id ≡ minus_one
  pub unique :
      (i j : ℕ)
      → has s.order i ≡ true
      → has s.order j ≡ true
      → (s.bufs i).dev ≡ dev
      → (s.bufs j).dev ≡ dev
      → (s.bufs i).blockno ≡ (s.bufs j).blockno
      → i ≡ j
  pub one_dev : (i : ℕ) → has s.order i ≡ true → (s.bufs i).valid ≡ true → (s.bufs i).dev ≡ dev
  pub coherent :
      (i : ℕ)
      → has s.order i ≡ true
      → (s.bufs i).valid ≡ true
      → area (s.bufs i).blockno ≡ true
      → (s.bufs i).bytes ≡ s.platter (s.bufs i).blockno

pub no_fallback :
    (dev : ℕ) (area : ℕ → Bool) (s : Bcache) (b : ℕ)
    → IsGood dev area s
    → b < logical_disk_size
    → use_fallback s b ≡ false
unfolding block_fails disk_fails
no_fallback dev area s b h lt =
    rw (h.no_block_fails, h.no_disk_fails)
      (let q : ltb b (2 ^ 31) ≡ true = ground arith in rw q refl)

-- The bytes that `bread` gives are those of the buffer that the block had, or those of the disk.
pub read_bytes :
    (dev : ℕ) (area : ℕ → Bool) (s s' : Bcache) (b i : ℕ)
    → IsGood dev area s
    → b < logical_disk_size
    → WasRead dev b s i s'
    → ((s'.bufs i).bytes ≡ s.platter b)
      ⊎ (((s.bufs i).valid ≡ true)
          × ((s.bufs i).blockno ≡ b)
          × ((s'.bufs i).bytes ≡ (s.bufs i).bytes))
read_bytes dev area s s' b i h lt r =
    let f = no_fallback dev area s b h lt in
    elim (Bool-cases (r.mid.bufs i).valid) [
      | inr v ↦ inl (r.bytes_is ∙ rw (v, f) refl)
      | inl v ↦ elim r.got.found [
        | inl (hit, _, val, byt) ↦ inr (
          sym val ∙ v,
          (find_cached-some dev b s.bufs s.order i hit).2,
          r.bytes_is ∙ rw (v, f) byt,
        )
        | inr (_, _, _, fresh) ↦ absurd (let e : true ≡ false = sym v ∙ fresh in cc)
      ]
    ]

-- What is in the log's blocks, `bread` gives as it is on the disk.
pub read_area :
    (dev : ℕ) (area : ℕ → Bool) (s s' : Bcache) (b i : ℕ)
    → IsGood dev area s
    → b < logical_disk_size
    → area b ≡ true
    → WasRead dev b s i s'
    → (s'.bufs i).bytes ≡ s.platter b
read_area dev area s s' b i h lt a r = elim (read_bytes dev area s s' b i h lt r) [
  | inl e ↦ e
  | inr (v, n, e) ↦ e ∙ h.coherent i r.got.listed v (ap area n ∙ a) ∙ ap s.platter n
]

-- No other buffer has the block.
pub read_only_one :
    (dev : ℕ) (area : ℕ → Bool) (s s' : Bcache) (b i j : ℕ)
    → IsGood dev area s
    → WasRead dev b s i s'
    → (i == j) ≡ false
    → has s.order j ≡ true
    → (s.bufs j).dev ≡ dev
    → (s.bufs j).blockno ≡ b
    → ⊥
read_only_one dev area s s' b i j h r ne m d n = elim r.got.found [
  | inl (hit, _, _, _) ↦
      let (mi, di, ni) = find_cached-some dev b s.bufs s.order i hit in
      ==→ne i j ne (h.unique i j mi m di d (ni ∙ sym n))
  | inr (miss, _, _, _) ↦
      let e = find_cached-none dev b s.bufs s.order j miss m in
      let w : matches dev b (s.bufs j) ≡ true = rw (d, n, ==_refl dev) (==_refl b) in
      let q : true ≡ false = sym w ∙ e in cc
]

-- A step that keeps the names, the contents and the disk.
pub record SameContents (s s' : Bcache) : Type 0 where
  pub platter : s'.platter ≡ s.platter
  pub read_hook : s'.force_read_error_pbn ≡ s.force_read_error_pbn
  pub disk_hook : s'.force_disk_fail_id ≡ s.force_disk_fail_id
  pub listed : (j : ℕ) → has s'.order j ≡ has s.order j
  pub dev_is : (j : ℕ) → (s'.bufs j).dev ≡ (s.bufs j).dev
  pub blockno_is : (j : ℕ) → (s'.bufs j).blockno ≡ (s.bufs j).blockno
  pub valid_is : (j : ℕ) → (s'.bufs j).valid ≡ (s.bufs j).valid
  pub bytes_is : (j : ℕ) → (s'.bufs j).bytes ≡ (s.bufs j).bytes

pub SameContents-IsGood :
    (dev : ℕ) (area : ℕ → Bool) (s s' : Bcache)
    → SameContents s s'
    → IsGood dev area s
    → IsGood dev area s'
SameContents-IsGood dev area s s' c h = record {
  no_block_fails = c.read_hook ∙ h.no_block_fails;
  no_disk_fails = c.disk_hook ∙ h.no_disk_fails;
  unique = λ i j mi mj di dj e.
      h.unique i j (sym (c.listed i) ∙ mi) (sym (c.listed j) ∙ mj) (sym (c.dev_is i) ∙ di)
        (sym (c.dev_is j) ∙ dj) (sym (c.blockno_is i) ∙ e ∙ c.blockno_is j);
  one_dev = λ i m v. c.dev_is i ∙ h.one_dev i (sym (c.listed i) ∙ m) (sym (c.valid_is i) ∙ v);
  coherent = λ i m v a.
      c.bytes_is i
      ∙ h.coherent i (sym (c.listed i) ∙ m) (sym (c.valid_is i) ∙ v)
          (ap area (sym (c.blockno_is i)) ∙ a)
      ∙ ap (λ f. f (s.bufs i).blockno) (sym c.platter)
      ∙ ap s'.platter (sym (c.blockno_is i));
}

pub released-SameContents :
    (i : ℕ) (s s' : Bcache) → has s.order i ≡ true → WasReleased i s s' → SameContents s s'
released-SameContents i s s' m r = record {
  platter = r.platter;
  read_hook = r.read_hook;
  disk_hook = r.disk_hook;
  listed = λ j. r.listed j m;
  dev_is = λ j. by_buf (λ b. b.dev) j refl;
  blockno_is = λ j. by_buf (λ b. b.blockno) j refl;
  valid_is = λ j. by_buf (λ b. b.valid) j refl;
  bytes_is = λ j. by_buf (λ b. b.bytes) j refl;
}
  where
    by_buf :
        {A : Type 0} (f : Buf → A) (j : ℕ)
        → f (record (s.bufs i) { holder = none; refcnt = refcnt_dec (s.bufs i).refcnt })
          ≡ f (s.bufs i)
        → f (s'.bufs j) ≡ f (s.bufs j)
    by_buf f j e = elim (Bool-cases (i == j)) [
      | inl q ↦ subst (λ x. f (s'.bufs x) ≡ f (s.bufs x)) (==→eq i j q) (ap f r.self ∙ e)
      | inr q ↦ ap f (r.others j q)
    ]

pub bunpin-SameContents : (i : ℕ) (s : Bcache) → SameContents s (bunpin i s)
unfolding bunpin
bunpin-SameContents i s = record {
  platter = refl;
  read_hook = refl;
  disk_hook = refl;
  listed = λ j. refl;
  dev_is = λ j. ground arith;
  blockno_is = λ j. ground arith;
  valid_is = λ j. ground arith;
  bytes_is = λ j. ground arith;
}

pub read-IsGood :
    (dev : ℕ) (area : ℕ → Bool) (s s' : Bcache) (b i : ℕ)
    → IsGood dev area s
    → b < logical_disk_size
    → WasRead dev b s i s'
    → IsGood dev area s'
read-IsGood dev area s s' b i h lt r =
    let listed : (j : ℕ) → has s'.order j ≡ true → has s.order j ≡ true =
      λ j m. ap (λ o. has o j) (sym r.order) ∙ m in
    record {
      no_block_fails = r.read_hook ∙ h.no_block_fails;
      no_disk_fails = r.disk_hook ∙ h.no_disk_fails;
      unique = λ j k mj mk dj dk e. elim (Bool-cases (i == j)) [
        | inl p ↦ elim (Bool-cases (i == k)) [
          | inl q ↦ sym (==→eq i j p) ∙ ==→eq i k q
          | inr q ↦
              let here : (s'.bufs j).blockno ≡ b =
                ap (λ x. (s'.bufs x).blockno) (sym (==→eq i j p)) ∙ r.blockno_is in
              let w = r.others k q in
              absurd (
                read_only_one dev area s s' b i k h r q (listed k mk) (sym (ap (λ x. x.dev) w) ∙ dk)
                  (sym (ap (λ x. x.blockno) w) ∙ sym e ∙ here))
        ]
        | inr p ↦ elim (Bool-cases (i == k)) [
          | inl q ↦
              let here : (s'.bufs k).blockno ≡ b =
                ap (λ x. (s'.bufs x).blockno) (sym (==→eq i k q)) ∙ r.blockno_is in
              let w = r.others j p in
              absurd (
                read_only_one dev area s s' b i j h r p (listed j mj) (sym (ap (λ x. x.dev) w) ∙ dj)
                  (sym (ap (λ x. x.blockno) w) ∙ e ∙ here))
          | inr q ↦
              let v = r.others j p in
              let w = r.others k q in
              h.unique j k (listed j mj) (listed k mk) (sym (ap (λ x. x.dev) v) ∙ dj)
                (sym (ap (λ x. x.dev) w) ∙ dk)
                (sym (ap (λ x. x.blockno) v) ∙ e ∙ ap (λ x. x.blockno) w)
        ]
      ];
      one_dev = λ j m v. elim (Bool-cases (i == j)) [
        | inl p ↦ ap (λ x. (s'.bufs x).dev) (sym (==→eq i j p)) ∙ r.dev_is
        | inr p ↦
            let w = r.others j p in
            ap (λ x. x.dev) w ∙ h.one_dev j (listed j m) (sym (ap (λ x. x.valid) w) ∙ v)
      ];
      coherent = λ j m v a. elim (Bool-cases (i == j)) [
        | inl p ↦
            subst
              (λ x.
                area (s'.bufs x).blockno ≡ true
                → (s'.bufs x).bytes ≡ s'.platter (s'.bufs x).blockno)
              (==→eq i j p)
              (λ a'.
                read_area dev area s s' b i h lt (ap area (sym r.blockno_is) ∙ a') r
                ∙ ap (λ f. f b) (sym r.platter)
                ∙ ap s'.platter (sym r.blockno_is))
              a
        | inr p ↦
            let w = r.others j p in
            ap (λ x. x.bytes) w
            ∙ h.coherent j (listed j m) (sym (ap (λ x. x.valid) w) ∙ v)
                (ap (λ x. area x.blockno) (sym w) ∙ a)
            ∙ ap (λ f. f (s.bufs j).blockno) (sym r.platter)
            ∙ ap (λ x. s'.platter x.blockno) (sym w)
      ];
    }
