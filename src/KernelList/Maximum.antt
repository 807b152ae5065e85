-- ===== src/KernelList/Maximum.antt =====
-- `list_max` finds the first of the largest elements.
use cau_assignments.Base.{
  ℕ, zero, suc, ◌<◌, ◌≡◌, refl, Bool, true, false, not, ◌&&◌, List, [], ◌∷◌, ◌++◌, ◌==◌, arith,
  length, subst, sym, append_assoc, append-nil, ap, ◌∙◌, inl, inr, Bool-cases, if◌then◌else◌,
}
use cau_assignments.Base.Run.{ok}
use cau_assignments.KernelList.Memory.{Ptr, Mem}
use cau_assignments.KernelList.Ops.{tail, list_begin, list_next, list_end}
use cau_assignments.KernelList.Lists.{IsList, first}
use cau_assignments.KernelList.Step.{list_next_lem, list_begin_lem, list_end_lem, elem-ne-tail}
use cau_assignments.KernelList.Ordered.{all_of}
use cau_assignments.KernelList.Walk.{max_loop, list_max}

-- What a comparison has to satisfy: a strict order in which being incomparable is transitive.
pub record StrictOrder (less : Ptr → Ptr → Bool) : Type 0 where
  pub irreflexive : (a : Ptr) → less a a ≡ false
  pub transitive : (a b c : Ptr) → less a b ≡ true → less b c ≡ true → less a c ≡ true
  pub connected : (a b c : Ptr) → less a b ≡ false → less b c ≡ false → less a c ≡ false

-- `e` is the first of the largest elements.
pub record Maximum (less : Ptr → Ptr → Bool) (xs : List Ptr) (e : Ptr) : Type 0 where
  pub front : List Ptr
  pub back : List Ptr
  pub parts : xs ≡ front ++ e ∷ back
  pub earlier : all_of (λ x. less x e) front ≡ true
  pub largest : all_of (λ x. not (less e x)) xs ≡ true

all_of-append :
    (p : Ptr → Bool) (xs ys : List Ptr) → all_of p (xs ++ ys) ≡ (all_of p xs && all_of p ys)
all_of-append p [] ys = refl
all_of-append p (x ∷ xs) ys = ground (arith, all_of-append p xs ys)

all_of-weaken :
    (p q : Ptr → Bool) (xs : List Ptr)
    → all_of p xs ≡ true
    → ((x : Ptr) → p x ≡ true → q x ≡ true)
    → all_of q xs ≡ true
all_of-weaken p q [] h f = refl
all_of-weaken p q (x ∷ xs) h f = ground (arith, f x, all_of-weaken p q xs (ground arith) f)

module _ (less : Ptr → Ptr → Bool) (order : StrictOrder less) where
  Maximum-same :
      (xs : List Ptr) (e y : Ptr)
      → Maximum less xs e
      → less e y ≡ false
      → Maximum less (xs ++ y ∷ []) e
  Maximum-same xs e y h n = record {
    front = h.front;
    back = h.back ++ y ∷ [];
    parts = ap (λ zs. zs ++ y ∷ []) h.parts ∙ append_assoc h.front (e ∷ h.back) (y ∷ []);
    earlier = h.earlier;
    largest = let l = h.largest in ground (arith, all_of-append (λ x. not (less e x)) xs (y ∷ []));
  }

  Maximum-new :
      (xs : List Ptr) (e y : Ptr)
      → Maximum less xs e
      → less e y ≡ true
      → Maximum less (xs ++ y ∷ []) y
  Maximum-new xs e y h n = record {
    front = xs;
    back = [];
    parts = refl;
    earlier =
        all_of-weaken (λ x. not (less e x)) (λ x. less x y) xs h.largest
          (λ x k. ground (arith, order.connected e x y));
    largest =
        let l : all_of (λ x. not (less y x)) xs ≡ true =
          all_of-weaken (λ x. not (less e x)) (λ x. not (less y x)) xs h.largest
            (λ x k. ground (arith, order.transitive e y x)) in
        ground (arith, all_of-append (λ x. not (less y x)) xs (y ∷ []), order.irreflexive y);
  }

  module _ (l : Ptr) (m : Mem) where
    max-end :
        (n : ℕ) (e max : Ptr) → list_end l m ≡ ok e m → max_loop less l (suc n) e max m ≡ ok max m
    unfolding max_loop
    max-end n e max stop = ground (arith, stop)

    max-next :
        (n : ℕ) (e e' end max : Ptr)
        → list_end l m ≡ ok end m
        → (e == end) ≡ false
        → list_next e m ≡ ok e' m
        → max_loop less l (suc n) e max m ≡ max_loop less l n e' (if less max e then e else max) m
    unfolding max_loop
    max-next n e e' end max stop ne next = ground (arith, stop, next)

    max_loop_lem :
        (ys xs : List Ptr) (n : ℕ) (max : Ptr)
        → IsList m l (xs ++ ys)
        → length ys < n
        → Maximum less xs max
        → (e : Ptr) × (max_loop less l n (first ys (tail l)) max m ≡ ok e m)
          × Maximum less (xs ++ ys) e
    max_loop_lem ys xs zero max is lt h = absurd (omega arith)
    max_loop_lem [] xs (suc n) max is lt h = (
      max,
      max-end n (tail l) max (list_end_lem m l _ is),
      subst (λ zs. Maximum less zs max) (sym (append-nil xs)) h,
    )
    max_loop_lem (y ∷ ys) xs (suc n) max is lt h =
        let joined = append_assoc xs (y ∷ []) ys in
        let max' = if less max y then y else max in
        let h' : Maximum less (xs ++ y ∷ []) max' = elim (Bool-cases (less max y)) [
          | inl b ↦
              subst (λ c. Maximum less (xs ++ y ∷ []) (if c then y else max)) (sym b)
                (Maximum-new xs max y h b)
          | inr b ↦
              subst (λ c. Maximum less (xs ++ y ∷ []) (if c then y else max)) (sym b)
                (Maximum-same xs max y h b)
        ] in
        let (e, runs, best) =
          max_loop_lem ys (xs ++ y ∷ []) n max' (subst (IsList m l) (sym joined) is) (omega arith)
            h' in
        (
          e,
          max-next n y (first ys (tail l)) (tail l) max (list_end_lem m l _ is)
                (elem-ne-tail m l xs y ys is) (list_next_lem m l xs y ys is)
              ∙ runs,
          subst (λ zs. Maximum less zs e) joined best,
        )

max-runs :
    (less : Ptr → Ptr → Bool) (n : ℕ) (l x x' e end : Ptr) (m : Mem)
    → list_begin l m ≡ ok x m
    → list_end l m ≡ ok end m
    → (x == end) ≡ false
    → list_next x m ≡ ok x' m
    → max_loop less l n x' x m ≡ ok e m
    → list_max less n l m ≡ ok e m
unfolding list_max
max-runs less n l x x' e end m begins stop ne next runs = ground (arith, begins, stop, next, runs)

-- For a strict order in which being incomparable is transitive, and with more rounds than elements,
-- `list_max` returns the first of the largest elements of a list that is not empty.
pub list_max_lem :
    (less : Ptr → Ptr → Bool) (m : Mem) (l x : Ptr) (xs : List Ptr) (n : ℕ)
    → StrictOrder less
    → IsList m l (x ∷ xs)
    → length xs < n
    → (e : Ptr) × (list_max less n l m ≡ ok e m) × Maximum less (x ∷ xs) e
list_max_lem less m l x xs n order is lt =
    let start : Maximum less (x ∷ []) x = record {
      front = [];
      back = [];
      parts = refl;
      earlier = refl;
      largest = ground (arith, order.irreflexive x);
    } in
    let (e, runs, best) = max_loop_lem less order l m xs (x ∷ []) n x is lt start in
    (
      e,
      max-runs less n l x (first xs (tail l)) e (tail l) m (list_begin_lem m l _ is)
          (list_end_lem m l _ is) (elem-ne-tail m l [] x xs is) (list_next_lem m l [] x xs is) runs,
      best,
    )
