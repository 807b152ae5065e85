-- ===== src/KernelList/Ordered.antt =====
-- `list_insert_ordered` keeps the order of a list.
use cau_assignments.Base.{
  not, ◌&&◌, ℕ, zero, suc, ◌<◌, ◌≡◌, refl, Bool, true, false, List, [], ◌∷◌, ◌++◌, ◌==◌, arith,
  length, subst, sym, append_assoc, ap, ◌∙◌, inl, inr, Bool-cases,
}
use cau_assignments.Base.Run.{ok}
use cau_assignments.KernelList.Memory.{Ptr, null, Mem}
use cau_assignments.KernelList.Ops.{tail, list_begin, list_next, list_end, list_insert}
use cau_assignments.KernelList.Lists.{IsList, first, real_list}
use cau_assignments.KernelList.Step.{list_next_lem, list_begin_lem, list_end_lem, elem-ne-tail}
use cau_assignments.KernelList.Insert.{Fresh, Inserts, list_insert_lem}
use cau_assignments.KernelList.Walk.{place_loop, list_insert_ordered}

abbrev pub all_of : (Ptr → Bool) → List Ptr → Bool
all_of p [] = true
all_of p (x ∷ xs) = p x && all_of p xs

-- The first element, if there is one, is as the test says.
abbrev pub starts_with : (Ptr → Bool) → List Ptr → Bool
starts_with p [] = true
starts_with p (x ∷ xs) = p x

-- Where `e` belongs among `ys`: behind all elements that it is not less than, in front of one that
-- it is less than.
pub record Place (less : Ptr → Ptr → Bool) (e : Ptr) (ys front back : List Ptr) : Type 0 where
  pub parts : ys ≡ front ++ back
  pub not_less : all_of (λ x. not (less e x)) front ≡ true
  pub before : starts_with (less e) back ≡ true

module _ (less : Ptr → Ptr → Bool) (l e : Ptr) where
  place-end :
      (n : ℕ) (m : Mem)
      → list_end l m ≡ ok (tail l) m
      → place_loop less l e (suc n) (tail l) m ≡ ok (tail l) m
  unfolding place_loop
  place-end n m stop = ground (arith, stop)

  place-here :
      (n : ℕ) (y : Ptr) (m : Mem)
      → list_end l m ≡ ok (tail l) m
      → (y == tail l) ≡ false
      → less e y ≡ true
      → place_loop less l e (suc n) y m ≡ ok y m
  unfolding place_loop
  place-here n y m stop ne lt = ground (arith, stop)

  place-next :
      (n : ℕ) (y y' : Ptr) (m : Mem)
      → list_end l m ≡ ok (tail l) m
      → (y == tail l) ≡ false
      → less e y ≡ false
      → list_next y m ≡ ok y' m
      → place_loop less l e (suc n) y m ≡ place_loop less l e n y' m
  unfolding place_loop
  place-next n y y' m stop ne lt next = ground (arith, stop, next)

  place_loop_lem :
      (m : Mem) (ys xs : List Ptr) (n : ℕ)
      → IsList m l (xs ++ ys)
      → length ys < n
      → (front back : List Ptr) × Place less e ys front back
        × (place_loop less l e n (first ys (tail l)) m ≡ ok (first back (tail l)) m)
  place_loop_lem m ys xs zero is lt = absurd (omega arith)
  place_loop_lem m [] xs (suc n) is lt = (
    [],
    [],
    record { parts = refl; not_less = refl; before = refl },
    place-end n m (list_end_lem m l _ is),
  )
  place_loop_lem m (y ∷ ys) xs (suc n) is lt =
      let stop = list_end_lem m l _ is in
      let ne = elem-ne-tail m l xs y ys is in
      let (front, back, p, runs) =
        place_loop_lem m ys (xs ++ y ∷ []) n
          (subst (IsList m l) (sym (append_assoc xs (y ∷ []) ys)) is) (omega arith) in
      elim (Bool-cases (less e y)) [
        | inl b ↦ (
          [],
          y ∷ ys,
          record { parts = refl; not_less = refl; before = b },
          place-here n y m stop ne b,
        )
        | inr b ↦ (
          y ∷ front,
          back,
          record {
            parts = ap (λ zs. y ∷ zs) p.parts;
            not_less = rw b p.not_less;
            before = p.before;
          },
          place-next n y (first ys (tail l)) m stop ne b (list_next_lem m l xs y ys is) ∙ runs,
        )
      ]

  insert-runs :
      (m m' : Mem) (b p : Ptr) (n : ℕ)
      → (l == null) ≡ false
      → (e == null) ≡ false
      → list_begin l m ≡ ok b m
      → place_loop less l e n b m ≡ ok p m
      → list_insert p e m ≡ ok tt m'
      → list_insert_ordered less n l e m ≡ ok tt m'
  unfolding list_insert_ordered
  insert-runs m m' b p n hl he begins places inserts = ground (arith, begins, places, inserts)

-- With more rounds than elements, `list_insert_ordered` puts a fresh element behind a front part of
-- elements that it is not less than, right in front of an element that it is less than or at the end;
-- the others keep their order, and no link outside the list and the new element changes.
pub list_insert_ordered_lem :
    (less : Ptr → Ptr → Bool) (m : Mem) (l : Ptr) (xs : List Ptr) (e : Ptr) (n : ℕ)
    → IsList m l xs
    → Fresh e l xs
    → length xs < n
    → (front back : List Ptr) × Place less e xs front back
      × (m' : Mem) × (list_insert_ordered less n l e m ≡ ok tt m')
      × Inserts m l e xs (front ++ e ∷ back) m'
list_insert_ordered_lem less m l xs e n is fresh lt =
    let (front, back, p, places) = place_loop_lem less l e m xs [] n is lt in
    let is' = subst (IsList m l) p.parts is in
    let (m', runs, done) = list_insert_lem m l front back e is' (subst (Fresh e l) p.parts fresh) in
    (
      front,
      back,
      p,
      m',
      insert-runs less l e m m' _ _ n (real_list xs is) (ground (arith, fresh.1))
          (list_begin_lem m l xs is) places runs,
      subst (λ zs. Inserts m l e zs (front ++ e ∷ back) m') (sym p.parts) done,
    )
