-- ===== src/Random/Stream.antt =====
-- The bytes of the generator of lib/random.c are one stream, however they are asked for.
use cau_assignments.Base.{
  ℕ, zero, suc, ◌+◌, ◌≡◌, refl, ap, ap₂, ◌∙◌, sym, true, arith, Bool-cases, inl, inr,
}
use cau_assignments.Random.Ops.{
  Generator, random_init, random_byte, bytes_loop, started, random_bytes,
}
use cau_assignments.Random.Shuffled.{started_same, started_fresh}

bytes_loop-add :
    (n m buf : ℕ) (g : Generator)
    → bytes_loop (n + m) buf g ≡ bytes_loop m (buf + n) (bytes_loop n buf g)
unfolding bytes_loop
bytes_loop-add zero m buf g =
    let none_more : 0 + m ≡ m = omega arith in
    let here : buf ≡ buf + 0 = omega arith in ap₂ (λ x y. bytes_loop x y g) none_more here
bytes_loop-add (suc n) m buf g =
    let sum : suc n + m ≡ suc (n + m) = omega arith in
    let behind : buf + 1 + n ≡ buf + suc n = omega arith in
    ap (λ x. bytes_loop x buf g) sum
    ∙ bytes_loop-add n m (buf + 1) (random_byte buf g)
    ∙ ap (λ x. bytes_loop m x (bytes_loop n (buf + 1) (random_byte buf g))) behind

started-inited : (g : Generator) → (started g).inited ≡ true
unfolding random_init
started-inited g = elim (Bool-cases g.inited) [
  | inl e ↦ ap (λ x. x.inited) (started_same g e) ∙ e
  | inr e ↦ ap (λ x. x.inited) (started_fresh g e)
]

bytes_loop-inited : (n buf : ℕ) (g : Generator) → (bytes_loop n buf g).inited ≡ g.inited
unfolding bytes_loop random_byte
bytes_loop-inited zero buf g = refl
bytes_loop-inited (suc n) buf g = bytes_loop-inited n (buf + 1) (random_byte buf g)

-- Two calls of `random_bytes` for adjacent parts of a buffer do what one call for the whole of it does.
pub random_bytes-random_bytes :
    (buf n m : ℕ) (g : Generator)
    → random_bytes (buf + n) m (random_bytes buf n g) ≡ random_bytes buf (n + m) g
unfolding random_bytes
random_bytes-random_bytes buf n m g =
    ap (bytes_loop m (buf + n)) (
      started_same (bytes_loop n buf (started g))
        (bytes_loop-inited n buf (started g) ∙ started-inited g))
    ∙ sym (bytes_loop-add n m buf (started g))
