-- ===== src/KernelList/Family.antt =====
-- Several lists in one memory: no element, and no header, belongs to two of them.
use mathlib.Core.Bool.{false≢true}
use cau_assignments.Base.{
  ◌≡◌, refl, true, false, ◌||◌, ◌≢◌, List, [], ◌∷◌, ◌++◌, ◌==◌, arith, has, has-append, subst, sym,
  ◌∙◌, Bool-cases, inl, inr, ==_iff,
}
use cau_assignments.Base.Run.{ok}
use cau_assignments.KernelList.Memory.{Ptr, null, Mem}
use cau_assignments.KernelList.Ops.{tail, list_push_back, list_remove, list_pop_front, list_empty}
use cau_assignments.KernelList.Lists.{
  nodes, IsList, IsList-frame, SameOutside, Apart, first, has-nodes, has-cut,
}
use cau_assignments.KernelList.Insert.{list_push_back_lem}
use cau_assignments.KernelList.Remove.{list_remove_lem, list_front_lem, list_empty_lem}

abbrev pub Lists : Type 0
Lists = List (Ptr × List Ptr)

abbrev pub all_nodes : Lists → List Ptr
all_nodes [] = []
all_nodes ((l, xs) ∷ ls) = nodes l xs ++ all_nodes ls

abbrev pub Family : Mem → Lists → Type 0
Family m [] = Unit {0}
Family m ((l, xs) ∷ ls) = IsList m l xs × Apart (nodes l xs) (all_nodes ls) × Family m ls

pub has-all_nodes :
    (p : Ptr) (fs : Lists) (l : Ptr) (xs : List Ptr) (gs : Lists)
    → has p (all_nodes (fs ++ (l, xs) ∷ gs))
      ≡ (has p (all_nodes fs) || (has p (nodes l xs) || has p (all_nodes gs)))
has-all_nodes p [] l xs gs = has-append p (nodes l xs) (all_nodes gs)
has-all_nodes p ((k, ys) ∷ fs) l xs gs = ground (
  arith,
  has-append p (nodes k ys) (all_nodes (fs ++ (l, xs) ∷ gs)),
  has-append p (nodes k ys) (all_nodes fs),
  has-all_nodes p fs l xs gs,
)

-- The list in the middle, and that it shares nothing with the others.
pub record Member (m : Mem) (fs : Lists) (l : Ptr) (xs : List Ptr) (gs : Lists) : Type 0 where
  pub list : IsList m l xs
  pub apart_before : Apart (all_nodes fs) (nodes l xs)
  pub apart_after : Apart (nodes l xs) (all_nodes gs)

pub Family-Member :
    {m : Mem} (fs : Lists) (l : Ptr) (xs : List Ptr) (gs : Lists)
    → Family m (fs ++ (l, xs) ∷ gs)
    → Member m fs l xs gs
Family-Member [] l xs gs f = record { list = f.0; apart_before = λ p h. cc; apart_after = f.1 }
Family-Member ((k, ys) ∷ fs) l xs gs f =
    let r = Family-Member fs l xs gs f.2 in
    record {
      list = r.list;
      apart_before = λ p h. ground (
        arith,
        has-append p (nodes k ys) (all_nodes fs),
        has-all_nodes p fs l xs gs,
        f.1 p,
        r.apart_before p,
      );
      apart_after = r.apart_after;
    }

-- A change that touches `ps` only keeps the lists that do not meet `ps`.
pub Family-frame :
    {m : Mem} (m' : Mem) (ls : Lists) (ps : List Ptr)
    → Family m ls
    → SameOutside ps m m'
    → Apart (all_nodes ls) ps
    → Family m' ls
Family-frame m' [] ps f same apart = tt
Family-frame m' ((l, xs) ∷ ls) ps f same apart = (
  IsList-frame m' l xs ps f.0 same
      (λ p h. apart p (ground (arith, has-append p (nodes l xs) (all_nodes ls)))),
  f.1,
  Family-frame m' ls ps f.2 same
      (λ p h. apart p (ground (arith, has-append p (nodes l xs) (all_nodes ls)))),
)

-- One list of the family changes, and takes nothing from the others.
pub Family-change :
    {m : Mem} (m' : Mem) (fs : Lists) (l : Ptr) (xs xs' : List Ptr) (gs : Lists) (ps : List Ptr)
    → Family m (fs ++ (l, xs) ∷ gs)
    → IsList m' l xs'
    → SameOutside ps m m'
    → Apart (all_nodes fs) ps
    → Apart (all_nodes gs) ps
    → Apart (all_nodes fs) (nodes l xs')
    → Apart (nodes l xs') (all_nodes gs)
    → Family m' (fs ++ (l, xs') ∷ gs)
Family-change m' [] l xs xs' gs ps f is same a b c d = (is, d, Family-frame m' gs ps f.2 same b)
Family-change m' ((k, ys) ∷ fs) l xs xs' gs ps f is same a b c d = (
  IsList-frame m' k ys ps f.0 same
      (λ p h. a p (ground (arith, has-append p (nodes k ys) (all_nodes fs)))),
  λ p h. ground (
    arith,
    f.1 p,
    has-all_nodes p fs l xs gs,
    has-all_nodes p fs l xs' gs,
    has-append p (nodes k ys) (all_nodes fs),
    c p,
  ),
  Family-change m' fs l xs xs' gs ps f.2 is same
      (λ p h. a p (ground (arith, has-append p (nodes k ys) (all_nodes fs)))) b
      (λ p h. c p (ground (arith, has-append p (nodes k ys) (all_nodes fs)))) d,
)

pub has-snoc :
    (p l : Ptr) (xs : List Ptr) (e : Ptr)
    → has p (nodes l (xs ++ e ∷ [])) ≡ ((p == e) || has p (nodes l xs))
has-snoc p l xs e = ground (arith, has-cut p l xs (e ∷ []), has-nodes p l xs)

pub Apart-cons :
    (qs : List Ptr) (e : Ptr) (ps : List Ptr) → has e qs ≡ false → Apart qs ps → Apart qs (e ∷ ps)
Apart-cons qs e ps h a p k = elim (Bool-cases (p == e)) [
  | inl same ↦ absurd (false≢true (sym h ∙ subst (λ r. has r qs ≡ true) ((==_iff p e).0 same) k))
  | inr ne ↦ ground (arith, a p k)
]

-- What an operation on one list of a family leaves.
pub record Leaves (m : Mem) (before after : Lists) (e : Ptr) (m' : Mem) : Type 0 where
  pub family : Family m' after
  pub same : SameOutside (e ∷ all_nodes before) m m'

-- Appending a fresh element to one list of the family.
pub Family-push_back :
    (m : Mem) (fs : Lists) (l : Ptr) (xs : List Ptr) (gs : Lists) (e : Ptr)
    → Family m (fs ++ (l, xs) ∷ gs)
    → has e (all_nodes (fs ++ (l, xs) ∷ gs)) ≡ false
    → e ≢ null
    → (m' : Mem) × (list_push_back l e m ≡ ok tt m')
      × Leaves m (fs ++ (l, xs) ∷ gs) (fs ++ (l, xs ++ e ∷ []) ∷ gs) e m'
Family-push_back m fs l xs gs e f out ne =
    let r = Family-Member fs l xs gs f in
    let cut = has-all_nodes e fs l xs gs in
    let (m', runs, done) = list_push_back_lem m l xs e r.list (ground arith, ne) in
    let before : has e (all_nodes fs) ≡ false = ground arith in
    let after : has e (all_nodes gs) ≡ false = ground arith in
    (
      m',
      runs,
      record {
        family =
            Family-change m' fs l xs (xs ++ e ∷ []) gs (e ∷ nodes l xs) f done.list done.same
              (Apart-cons (all_nodes fs) e (nodes l xs) before r.apart_before)
              (Apart-cons (all_nodes gs) e (nodes l xs) after
                (λ p h. ground (arith, r.apart_after p)))
              (λ p h. ground (
                arith,
                has-snoc p l xs e,
                Apart-cons (all_nodes fs) e (nodes l xs) before r.apart_before p,
              ))
              (λ p h. ground (
                arith,
                has-snoc p l xs e,
                r.apart_after p,
                Apart-cons (all_nodes gs) e [] after (λ q k. refl) p,
              ));
        same = λ p h. done.same p (ground (arith, has-all_nodes p fs l xs gs));
      },
    )

-- Taking an element out of one list of the family; afterwards it belongs to none.
pub Family-remove :
    (m : Mem) (fs : Lists) (l : Ptr) (xs : List Ptr) (e : Ptr) (ys : List Ptr) (gs : Lists)
    → Family m (fs ++ (l, xs ++ e ∷ ys) ∷ gs)
    → (m' : Mem) × (list_remove e m ≡ ok (first ys (tail l)) m')
      × Family m' (fs ++ (l, xs ++ ys) ∷ gs)
      × (has e (all_nodes (fs ++ (l, xs ++ ys) ∷ gs)) ≡ false)
      × SameOutside (all_nodes (fs ++ (l, xs ++ ys) ∷ gs)) m m'
Family-remove m fs l xs e ys gs f =
    let r = Family-Member fs l (xs ++ e ∷ ys) gs f in
    let (m', runs, done) = list_remove_lem m l xs e ys r.list in
    let sub = λ (p : Ptr) (h : has p (nodes l (xs ++ ys)) ≡ true).
      let c = has-cut p l xs ys in
      let d = has-cut p l xs (e ∷ ys) in
      let x : has p (nodes l (xs ++ e ∷ ys)) ≡ true = ground arith in x in
    (
      m',
      runs,
      Family-change m' fs l (xs ++ e ∷ ys) (xs ++ ys) gs (nodes l (xs ++ ys)) f done.list done.same
          (λ p h. ground (arith, r.apart_before p h, has-cut p l xs ys, has-cut p l xs (e ∷ ys)))
          (λ p h. ground (arith, r.apart_after p, has-cut p l xs ys, has-cut p l xs (e ∷ ys)))
          (λ p h. ground (arith, r.apart_before p h, has-cut p l xs ys, has-cut p l xs (e ∷ ys)))
          (λ p h. r.apart_after p (sub p h)),
      ground (
        arith,
        done.out,
        r.apart_before e,
        r.apart_after e,
        has-cut e l xs (e ∷ ys),
        has-all_nodes e fs l (xs ++ ys) gs,
      ),
      λ p h. done.same p (ground (arith, has-all_nodes p fs l (xs ++ ys) gs)),
    )

-- Taking the first element off one list of the family.
pub Family-pop_front :
    (m : Mem) (fs : Lists) (l x : Ptr) (xs : List Ptr) (gs : Lists)
    → Family m (fs ++ (l, x ∷ xs) ∷ gs)
    → (m' : Mem) × (list_pop_front l m ≡ ok x m')
      × Family m' (fs ++ (l, xs) ∷ gs)
      × (has x (all_nodes (fs ++ (l, xs) ∷ gs)) ≡ false)
      × SameOutside (all_nodes (fs ++ (l, xs) ∷ gs)) m m'
unfolding list_pop_front
Family-pop_front m fs l x xs gs f =
    let r = Family-Member fs l (x ∷ xs) gs f in
    let (m', runs, rest, out, same) = Family-remove m fs l [] x xs gs f in
    (m', rw (list_front_lem m l x xs r.list, runs), rest, out, same)

-- Testing one list of the family.
pub Family-empty :
    (m : Mem) (fs : Lists) (l : Ptr) (xs : List Ptr) (gs : Lists)
    → Family m (fs ++ (l, xs) ∷ gs)
    → list_empty l m ≡ ok (elim xs [ [] ↦ true | _ ∷ _ ↦ false ]) m
Family-empty m fs l xs gs f = list_empty_lem m l xs (Family-Member fs l xs gs f).list
