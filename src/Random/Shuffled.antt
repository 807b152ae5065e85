-- ===== src/Random/Shuffled.antt =====
-- The table of the generator of lib/random.c is a permutation of the bytes at all times.
use cau_assignments.Base.{
  ℕ, zero, suc, ◌+◌, ◌/◌, ◌%◌, ◌^◌, ◌≤◌, ◌<◌, ◌≡◌, ◌≢◌, ◌⊎◌, inl, inr, refl, true, false, not,
  if◌then◌else◌, arith, Bool-cases, ◌∙◌, ap, sym, subst,
}
use cau_assignments.Strings.Ops.{store}
use cau_assignments.Random.Ops.{
  Generator, swap_byte, identity_loop, mix_loop, random_init, random_byte, bytes_loop, started,
  random_bytes,
}

-- Every byte stands at one place of the table.
pub record Permutation (s : ℕ → ℕ) : Type 0 where
  pub small : (i : ℕ) → i < 256 → s i < 256
  pub distinct : (i k : ℕ) → i < 256 → k < 256 → s i ≡ s k → i ≡ k

-- What the static variables are once `random_init` has run.
pub record Shuffled (g : Generator) : Type 0 where
  pub table : Permutation g.s
  pub i_small : g.s_i < 256
  pub j_small : g.s_j < 256
  pub ready : g.inited ≡ true

swap_byte-Permutation :
    (i j : ℕ) (s : ℕ → ℕ) → i < 256 → j < 256 → Permutation s → Permutation (swap_byte i j s)
unfolding swap_byte
swap_byte-Permutation i j s lti ltj p = record {
  small = λ k lt. ground (arith, p.small i lti, p.small j ltj, p.small k lt);
  distinct = λ k k' lt lt' e. ground (
    arith,
    e,
    p.distinct k k' lt lt',
    p.distinct i k' lti lt',
    p.distinct j k' ltj lt',
    p.distinct k i lt lti,
    p.distinct k j lt ltj,
    p.distinct i j lti ltj,
    p.distinct j i ltj lti,
  );
}

identity_loop_lem :
    (n i : ℕ) (s : ℕ → ℕ)
    → ((k : ℕ) → k < i → s k ≡ k)
    → (k : ℕ) → k < i + n
    → identity_loop n i s k ≡ k
unfolding identity_loop
identity_loop_lem zero i s h k lt = h k (omega arith)
identity_loop_lem (suc n) i s h k lt =
    identity_loop_lem n (i + 1) (store i i s) (λ k' lt'. ground (arith, h k')) k (omega arith)

mix_loop-Permutation :
    (n seed i j : ℕ) (s : ℕ → ℕ) → i + n ≤ 256 → Permutation s → Permutation (mix_loop n seed i j s)
unfolding mix_loop
mix_loop-Permutation zero seed i j s le p = p
mix_loop-Permutation (suc n) seed i j s le p =
    let j' = (j + (s i + seed / 256 ^ (i % 4) % 256)) % 256 in
    mix_loop-Permutation n seed (i + 1) j' (swap_byte i j' s) (omega arith)
      (swap_byte-Permutation i j' s (omega arith) (omega arith) p)

random_init-Shuffled : (seed : ℕ) (g : Generator) → Shuffled (random_init seed g)
unfolding random_init
random_init-Shuffled seed g =
    let start = identity_loop_lem 256 0 g.s (λ k lt. omega arith) in
    let p : Permutation (identity_loop 256 0 g.s) = record {
      small = λ i lt. ground (arith, start i lt);
      distinct = λ i k lt lt' e. ground (arith, start i lt, start k lt');
    } in
    record {
      table = mix_loop-Permutation 256 seed 0 0 (identity_loop 256 0 g.s) (omega arith) p;
      i_small = omega arith;
      j_small = omega arith;
      ready = refl;
    }

-- The bytes of a buffer are bytes, and no other place has changed.
pub record Filled (buf size : ℕ) (g g' : Generator) : Type 0 where
  pub within : (p : ℕ) → buf ≤ p → p < buf + size → g'.bytes p < 256
  pub outside : (p : ℕ) → (p < buf) ⊎ (buf + size ≤ p) → g'.bytes p ≡ g.bytes p

-- The states that calls lead to from the start of the kernel.
pub data Called : Generator → Type 0 where
  boot : (g : Generator) → g.inited ≡ false → Called g
  seeded : (seed : ℕ) (g : Generator) → Called g → Called (random_init seed g)
  drawn : (buf size : ℕ) (g : Generator) → Called g → Called (random_bytes buf size g)

module _ (g : Generator) where
  pub started_same : g.inited ≡ true → started g ≡ g
  unfolding started
  started_same e = ap (λ b. if not b then random_init 0 g else g) e

  pub started_fresh : g.inited ≡ false → started g ≡ random_init 0 g
  unfolding started
  started_fresh e = ap (λ b. if not b then random_init 0 g else g) e

  started-bytes : (p : ℕ) → (started g).bytes p ≡ g.bytes p
  unfolding random_init
  started-bytes p = elim (Bool-cases g.inited) [
    | inl e ↦ ap (λ x. x.bytes p) (started_same e)
    | inr e ↦ ap (λ x. x.bytes p) (started_fresh e)
  ]

  started-Shuffled : (g.inited ≡ false) ⊎ Shuffled g → Shuffled (started g)
  started-Shuffled (inl e) = subst Shuffled (sym (started_fresh e)) (random_init-Shuffled 0 g)
  started-Shuffled (inr h) = subst Shuffled (sym (started_same h.ready)) h

random_byte-Shuffled : (buf : ℕ) (g : Generator) → Shuffled g → Shuffled (random_byte buf g)
unfolding random_byte
random_byte-Shuffled buf g h = record {
  table =
      swap_byte-Permutation ((g.s_i + 1) % 256) ((g.s_j + g.s ((g.s_i + 1) % 256)) % 256) g.s
        (omega arith) (omega arith) h.table;
  i_small = omega arith;
  j_small = omega arith;
  ready = h.ready;
}

random_byte-written : (buf : ℕ) (g : Generator) → Shuffled g → (random_byte buf g).bytes buf < 256
unfolding random_byte
random_byte-written buf g h =
    let i = (g.s_i + 1) % 256 in
    let j = (g.s_j + g.s i) % 256 in
    let s = swap_byte i j g.s in
    let p = swap_byte-Permutation i j g.s (omega arith) (omega arith) h.table in
    ground (arith, p.small ((s i + s j) % 256) (omega arith))

random_byte-bytes : (buf p : ℕ) (g : Generator) → p ≢ buf → (random_byte buf g).bytes p ≡ g.bytes p
unfolding random_byte
random_byte-bytes buf p g ne = ground arith

bytes_loop-Shuffled : (size buf : ℕ) (g : Generator) → Shuffled g → Shuffled (bytes_loop size buf g)
unfolding bytes_loop
bytes_loop-Shuffled zero buf g h = h
bytes_loop-Shuffled (suc size) buf g h =
    bytes_loop-Shuffled size (buf + 1) (random_byte buf g) (random_byte-Shuffled buf g h)

bytes_loop-Filled :
    (size buf : ℕ) (g : Generator) → Shuffled g → Filled buf size g (bytes_loop size buf g)
unfolding bytes_loop
bytes_loop-Filled zero buf g h = record { within = λ p le lt. omega arith; outside = λ p off. refl }
bytes_loop-Filled (suc size) buf g h =
    let g1 = random_byte buf g in
    let f = bytes_loop-Filled size (buf + 1) g1 (random_byte-Shuffled buf g h) in
    record {
      within = λ p le lt.
          let first : p ≡ buf → (bytes_loop size (buf + 1) g1).bytes p < 256 =
            λ e. rw (f.outside p (inl (omega (arith, e))), e) (random_byte-written buf g h) in
          ground (arith, first, f.within p);
      outside = λ p off. f.outside p (ground arith) ∙ random_byte-bytes buf p g (omega arith);
    }

Called-Shuffled : (g : Generator) → Called g → (g.inited ≡ false) ⊎ Shuffled g
unfolding random_bytes
Called-Shuffled _ (boot _ e) = inl e
Called-Shuffled _ (seeded seed g h) = inr (random_init-Shuffled seed g)
Called-Shuffled _ (drawn buf size g h) =
    inr (bytes_loop-Shuffled size buf (started g) (started-Shuffled g (Called-Shuffled g h)))

-- Whatever calls came before, after `random_bytes` the generator is initialized and its table a
-- permutation of the bytes; the buffer holds bytes, and no other place of memory has changed.
pub random_bytes-Shuffled :
    (buf size : ℕ) (g : Generator)
    → Called g
    → Shuffled (random_bytes buf size g) × Filled buf size g (random_bytes buf size g)
unfolding random_bytes
random_bytes-Shuffled buf size g h =
    let ready = started-Shuffled g (Called-Shuffled g h) in
    let f = bytes_loop-Filled size buf (started g) ready in
    (
      bytes_loop-Shuffled size buf (started g) ready,
      record { within = f.within; outside = λ p off. f.outside p off ∙ started-bytes g p },
    )
