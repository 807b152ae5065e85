-- ===== src/Crossroads/Routes.antt =====
-- Facts about the table of paths, by evaluation over all of it.
use cau_assignments.Base.{
  ℕ, zero, suc, ◌+◌, ◌-◌, ◌≤◌, ◌<◌, ◌≡◌, refl, Bool, true, false, not, ◌&&◌, ◌||◌, List, [], ◌∷◌,
  ◌==◌, ltb, leb, if◌then◌else◌, arith, get_or,
}
use cau_assignments.Crossroads.Map.{
  Position, pos, outside, paths, vehicle_path, is_position_outside,
}

inside_count : List Position → ℕ
inside_count [] = 0
inside_count (p ∷ ps) = let n = inside_count ps in if is_position_outside p then 0 else suc n

-- How many positions a path has.
unfoldable pub route_length : ℕ → ℕ → ℕ
unfolding inside_count
route_length s d = inside_count (get_or (get_or paths s []) d [])

-- Two positions differ.
abbrev pub differ : Position → Position → Bool
differ p q = not ((p.row == q.row) && (p.col == q.col))

route_test : ℕ → ℕ → ℕ → Bool
route_test s d m =
    (if ltb m (route_length s d)
      then ltb (vehicle_path s d m).row 7
        && ltb (vehicle_path s d m).col 7
        && ((m == 0) || differ (vehicle_path s d m) (vehicle_path s d (m - 1)))
      else true)
    && is_position_outside (vehicle_path s d (route_length s d))
    && leb (route_length s d) 9
    && ((s == d) || ltb 0 (route_length s d))

all_below : ℕ → (ℕ → Bool) → Bool
all_below zero p = true
all_below (suc n) p = p n && all_below n p

all_below-true : (n : ℕ) (p : ℕ → Bool) (x : ℕ) → all_below n p ≡ true → x < n → p x ≡ true
unfolding all_below
all_below-true zero p x h lt = absurd (omega arith)
all_below-true (suc n) p x h lt = ground (arith, all_below-true n p x)

table : all_below 4 (λ s. all_below 4 (λ d. all_below 10 (λ m. route_test s d m))) ≡ true
unfolding all_below route_test route_length vehicle_path
table = refl

tested : (s d m : ℕ) → s < 4 → d < 4 → m < 10 → route_test s d m ≡ true
tested s d m hs hd hm =
    all_below-true 10 _ m (all_below-true 4 _ d (all_below-true 4 _ s table hs) hd) hm

-- What the proofs use of a path.
pub record Route (s d : ℕ) : Type 0 where
  pub short : route_length s d ≤ 9
  pub ends : is_position_outside (vehicle_path s d (route_length s d)) ≡ true
  pub starts : ((s == d) || ltb 0 (route_length s d)) ≡ true

pub Route_lem : (s d : ℕ) → s < 4 → d < 4 → Route s d
unfolding route_test
Route_lem s d hs hd =
    let t = tested s d 0 hs hd (omega arith) in
    record { short = ground arith; ends = ground arith; starts = ground arith }

-- Every position of a path lies on the map, and differs from the one before.
pub route_step :
    (s d m : ℕ)
    → s < 4
    → d < 4
    → m < route_length s d
    → ((vehicle_path s d m).row < 7)
      × ((vehicle_path s d m).col < 7)
      × (((m == 0) || differ (vehicle_path s d m) (vehicle_path s d (m - 1))) ≡ true)
unfolding route_test
route_step s d m hs hd hm =
    let r = Route_lem s d hs hd in
    let short = r.short in
    let t = tested s d m hs hd (omega arith) in (ground arith, ground arith, ground arith)

pub route_length_first : route_length 0 1 ≡ 5
unfolding route_length inside_count
route_length_first = refl

-- One position is right beside, above or below the other.
abbrev pub neighbours : Position → Position → Bool
neighbours p q =
    ((p.row == q.row) && ((p.col == q.col + 1) || (q.col == p.col + 1)))
    || ((p.col == q.col) && ((p.row == q.row + 1) || (q.row == p.row + 1)))

neighbour_test : ℕ → ℕ → ℕ → Bool
neighbour_test s d m =
    if ltb (m + 1) (route_length s d)
    then neighbours (vehicle_path s d m) (vehicle_path s d (m + 1))
    else true

neighbour_table :
    all_below 4 (λ s. all_below 4 (λ d. all_below 10 (λ m. neighbour_test s d m))) ≡ true
unfolding all_below neighbour_test route_length vehicle_path
neighbour_table = refl

-- Where a road enters the map, and where it leaves it.
abbrev pub entry : ℕ → Position
entry s =
    if s == 0 then pos 4 0 else (if s == 1 then pos 6 4 else (if s == 2 then pos 2 6 else pos 0 2))

abbrev pub way_out : ℕ → Position
way_out d =
    if d == 0 then pos 2 0 else (if d == 1 then pos 6 2 else (if d == 2 then pos 4 6 else pos 0 4))

abbrev pub same_place : Position → Position → Bool
same_place p q = (p.row == q.row) && (p.col == q.col)

ends_test : ℕ → ℕ → Bool
ends_test s d =
    (s == d)
    || (same_place (vehicle_path s d 0) (entry s)
        && same_place (vehicle_path s d (route_length s d - 1)) (way_out d)
        && same_place (vehicle_path s d (route_length s d)) outside)

ends_table : all_below 4 (λ s. all_below 4 (λ d. ends_test s d)) ≡ true
unfolding all_below ends_test route_length vehicle_path
ends_table = refl

-- A path of `n` positions: all on the map, each a neighbour of the one before, from where the road `s`
-- enters it to where the road `d` leaves it, and then outside.
pub record Drivable (s d n : ℕ) : Type 0 where
  pub some_positions : 0 < n
  pub room : n ≤ 9
  pub on_the_map : (m : ℕ) → m < n → ((vehicle_path s d m).row < 7) × ((vehicle_path s d m).col < 7)
  pub connected :
      (m : ℕ) → m + 1 < n → neighbours (vehicle_path s d m) (vehicle_path s d (m + 1)) ≡ true
  pub first : same_place (vehicle_path s d 0) (entry s) ≡ true
  pub last : same_place (vehicle_path s d (n - 1)) (way_out d) ≡ true
  pub behind : same_place (vehicle_path s d n) outside ≡ true

-- The path between two different roads has one to nine positions: all of them, the last one too, are on
-- the map, each is a neighbour of the one before, the first is where the one road enters the map and the
-- last where the other leaves it; what follows in the table is the position outside.
pub vehicle_path_lem : (s d : ℕ) → s < 4 → d < 4 → (s == d) ≡ false → (n : ℕ) × Drivable s d n
unfolding neighbour_test ends_test
vehicle_path_lem s d hs hd ne =
    let r = Route_lem s d hs hd in
    let short = r.short in
    let starts = r.starts in
    let ends = all_below-true 4 _ d (all_below-true 4 _ s ends_table hs) hd in
    (
      route_length s d,
      record {
        some_positions = ground arith;
        room = short;
        on_the_map = λ m lt. let (row, col, _) = route_step s d m hs hd lt in (row, col);
        connected = λ m lt.
            let t =
              all_below-true 10 _ m
                (all_below-true 4 _ d (all_below-true 4 _ s neighbour_table hs) hd) (omega arith) in
            ground arith;
        first = ground arith;
        last = ground arith;
        behind = ground arith;
      },
    )
