-- ===== src/Virtio/Request.antt =====
-- The descriptors of a request: taken, chained and all given back.
use mp.Prelude.{
  ℕ, suc, ◌%◌, ◌<◌, ◌≡◌, ◌≢◌, refl, ap, ◌∙◌, Bool, false, Option, none, some, ok, ◌>>=◌, arith, inl,
  inr,
}
use mp.Prelude.Update.{update, update_ne}
use mp.Virtio.{Ring, num, free_chain, alloc3_desc, format, request}
use mp.Virtio.Descriptors.{HasTaken, free_not_taken, alloc3_desc_lem, freed, free_desc_ok}

-- One round of `free_chain`.
chain_next :
    (fuel i : ℕ) (q : Ring)
    → i < num
    → q.free i ≡ false
    → (q.desc i).flags % 2 ≡ 1
    → free_chain (suc fuel) i q ≡ free_chain fuel (q.desc i).next (freed i q)
unfolding free_chain ◌>>=◌
chain_next fuel i q lt taken more = ground (arith, free_desc_ok i q lt taken)

chain_last :
    (fuel i : ℕ) (q : Ring)
    → i < num
    → q.free i ≡ false
    → (q.desc i).flags % 2 ≡ 0
    → free_chain (suc fuel) i q ≡ ok (freed i q)
unfolding free_chain ◌>>=◌
chain_last fuel i q lt taken more = ground (arith, free_desc_ok i q lt taken)

-- `free_chain` of a chain of three different descriptors.
chain_freed :
    (a b c : ℕ) (q : Ring)
    → (a < num) × (b < num) × (c < num)
    → (a ≢ b) × (a ≢ c) × (b ≢ c)
    → (q.free a ≡ false) × (q.free b ≡ false) × (q.free c ≡ false)
    → ((q.desc a).flags % 2 ≡ 1) × ((q.desc a).next ≡ b)
    → ((q.desc b).flags % 2 ≡ 1) × ((q.desc b).next ≡ c)
    → (q.desc c).flags % 2 ≡ 0
    → free_chain num a q ≡ ok (freed c (freed b (freed a q)))
chain_freed a b c q (la, lb, lc) (ab, ac, bc) (ta, tb, tc) (ma, na) (mb, nb) mc =
    let q1 = freed a q in
    let q2 = freed b q1 in
    chain_next 7 a q la ta ma
    ∙ ap (λ i. free_chain 7 i q1) na
    ∙ chain_next 6 b q1 lb (ground arith) (ground arith)
    ∙ ap (λ i. free_chain 6 i q2) (ground arith)
    ∙ chain_last 5 c q2 lc (ground arith) (ground arith)

-- The chain that `virtio_disk_rw` makes.
format_chain :
    (write : Bool) (header data' status a b c : ℕ) (q : Ring)
    → (a ≢ b) × (a ≢ c) × (b ≢ c)
    → let f = format write header data' status a b c q in
      (((f.desc a).flags % 2 ≡ 1) × ((f.desc a).next ≡ b))
      × (((f.desc b).flags % 2 ≡ 1) × ((f.desc b).next ≡ c))
      × ((f.desc c).flags % 2 ≡ 0)
      × ((i : ℕ) → f.free i ≡ q.free i)
      × ((i : ℕ) → a ≢ i → b ≢ i → c ≢ i → f.desc i ≡ q.desc i)
unfolding format
format_chain write header data' status a b c q (ab, ac, bc) = (
  (ground arith, ground arith),
  (ground arith, ground arith),
  ground arith,
  (λ i. refl),
  λ i na nb nc. ground arith,
)

-- What `request` does with the descriptors it has.
request_taken :
    (write : Bool) (header data' status a b c : ℕ) (q u v : Ring)
    → alloc3_desc q ≡ ok (some (a, b, c), u)
    → free_chain num a (format write header data' status a b c u) ≡ ok v
    → request write header data' status q ≡ ok (some (a, b, c), v)
unfolding request ◌>>=◌
request_taken write header data' status a b c q u v e f = ground (arith, e, f)

request_full :
    (write : Bool) (header data' status : ℕ) (q u : Ring)
    → alloc3_desc q ≡ ok (none, u)
    → request write header data' status q ≡ ok (none, u)
unfolding request ◌>>=◌
request_full write header data' status q u e = ground (arith, e)

-- Three descriptors given back.
given_back :
    (q u f : Ring) (a b c i : ℕ)
    → HasTaken q a b c u
    → ((j : ℕ) → f.free j ≡ u.free j)
    → (freed c (freed b (freed a f))).free i ≡ q.free i
given_back q u f a b c i t same =
    let (fa, fb, fc) = t.were_free in ground (arith, same i, t.free_is i)

-- The descriptors of other requests.
others_kept :
    (q u f : Ring) (a b c i : ℕ)
    → HasTaken q a b c u
    → ((j : ℕ) → a ≢ j → b ≢ j → c ≢ j → f.desc j ≡ u.desc j)
    → q.free i ≡ false
    → (freed c (freed b (freed a f))).desc i ≡ q.desc i
others_kept q u f a b c i t same ti =
    let (fa, fb, fc) = t.were_free in
    let na = free_not_taken q a i fa ti in
    let nb = free_not_taken q b i fb ti in
    let nc = free_not_taken q c i fc ti in
    let d1 = update f.desc a (record (f.desc a) { addr = 0 }) in
    let d2 = update d1 b (record (d1 b) { addr = 0 }) in
    update_ne d2 c i (record (d2 c) { addr = 0 }) nc
    ∙ update_ne d1 b i (record (d1 b) { addr = 0 }) nb
    ∙ update_ne f.desc a i (record (f.desc a) { addr = 0 }) na
    ∙ same i na nb nc
    ∙ t.desc_is i

-- Where no other request comes between, `virtio_disk_rw` never panics and frees its whole chain: every
-- descriptor is free or taken as it was, and those that other requests have taken keep their contents.
-- So also where it finds too few descriptors.
pub request_lem :
    (write : Bool) (header data' status : ℕ) (q : Ring)
    → (r : Option (ℕ × ℕ × ℕ)) × (q' : Ring) × (request write header data' status q ≡ ok (r, q'))
      × ((i : ℕ) → q'.free i ≡ q.free i)
      × ((i : ℕ) → q.free i ≡ false → q'.desc i ≡ q.desc i)
request_lem write header data' status q = elim (alloc3_desc_lem q) [
  | inl (u, full, same, kept) ↦
      (none, u, request_full write header data' status q u full, same, kept)
  | inr (a, b, c, u, got, t) ↦
      let f = format write header data' status a b c u in
      let (first, second, last, same, others) =
        format_chain write header data' status a b c u t.distinct in
      let chain =
        chain_freed a b c f (t.a_lt, t.b_lt, t.c_lt) t.distinct
          (
            same a ∙ t.free_is a ∙ ground arith,
            same b ∙ t.free_is b ∙ ground arith,
            same c ∙ t.free_is c ∙ ground arith,
          )
          first second last in
      (
        some (a, b, c),
        freed c (freed b (freed a f)),
        request_taken write header data' status a b c q u (freed c (freed b (freed a f))) got chain,
        λ i. given_back q u f a b c i t same,
        λ i ti. others_kept q u f a b c i t others ti,
      )
]
