-- ===== src/Gold/BoundaryText/Limits.antt =====
-- The limits of `parse_boundary`.
use first_helios.Base.{
  ◌≤◌, false, Option, none, some, List, [], ◌∷◌, arith, ◌≡◌, sym, subst, map-In, map, length, In,
  inl, inr,
}
use first_helios.Base.Text.{Text}
use first_helios.Base.Int.{ℤ, pos, negsuc, ◌-ℤ◌, -ℤ_parts, ◌≤ℤ◌}
use first_helios.Base.Results.{Result, ok, >>=-ok}
use first_helios.Gold.Boundary.{Corner, least, greatest}
use first_helios.Gold.BoundaryText.{
  BoundaryError, max_span, split, within, coordinate, latitude_of, longitude_of, plain_decimal,
  pair_corner, parse_corners, without_last, open_loop, exceeds_span, check_corners, parse_boundary,
}

-- A corner on the globe.
pub record OnGlobe (c : Corner) : Type 0 where
  pub south : negsuc 89999999 ≤ℤ c.latitude
  pub north : c.latitude ≤ℤ pos 90000000
  pub west : negsuc 179999999 ≤ℤ c.longitude
  pub east : c.longitude ≤ℤ pos 180000000

pub record KeepsLimits (corners : List Corner) : Type 0 where
  pub enough : 3 ≤ length corners
  pub few : length corners ≤ 50
  pub on_globe : (c : Corner) → In c corners → OnGlobe c
  pub latitudes :
      (a b : Corner) → In a corners → In b corners → a.latitude -ℤ b.latitude ≤ℤ max_span
  pub longitudes :
      (a b : Corner) → In a corners → In b corners → a.longitude -ℤ b.longitude ≤ℤ max_span

within-ok :
    (t : Text) (low high : ℤ) (o : Option ℤ) {v : ℤ}
    → within t low high o ≡ ok v
    → (low ≤ℤ v) × (v ≤ℤ high)
unfolding within
within-ok t low high none e = cc
within-ok t low high (some x) e = ground arith

pair_corner-OnGlobe : (t : Text) (ts : List Text) {c : Corner} → pair_corner t ts ≡ ok c → OnGlobe c
unfolding pair_corner coordinate
pair_corner-OnGlobe t [] e = cc
pair_corner-OnGlobe t (a ∷ []) e = cc
pair_corner-OnGlobe t (a ∷ b ∷ x ∷ ts) e = cc
pair_corner-OnGlobe t (a ∷ b ∷ []) {c} e =
    let (y, ey, e') = >>=-ok (latitude_of a) _ e in
    let (x, ex, e2) = >>=-ok (longitude_of b) _ e' in
    let (s, n) = within-ok a (negsuc 89999999) (pos 90000000) (plain_decimal a) ey in
    let (w, o) = within-ok b (negsuc 179999999) (pos 180000000) (plain_decimal b) ex in
    let same : record { latitude = y; longitude = x } ≡ c = ground arith in
    subst OnGlobe same (record { south = s; north = n; west = w; east = o })

ok_value : {a b : List Corner} → ◌≡◌ {A = Result BoundaryError (List Corner)} (ok a) (ok b) → a ≡ b
ok_value h = cc

parse_corners-OnGlobe :
    (ts : List Text) {corners : List Corner}
    → parse_corners ts ≡ ok corners
    → (c : Corner) → In c corners
    → OnGlobe c
unfolding parse_corners
parse_corners-OnGlobe [] e c m = elim (subst (In c) (sym (ok_value e)) m) [ ]
parse_corners-OnGlobe (t ∷ ts) e c m =
    let (k, ek, e') = >>=-ok (pair_corner t (split 44 t)) _ e in
    let (ks, eks, e2) = >>=-ok (parse_corners ts) _ e' in
    elim (subst (In c) (sym (ok_value e2)) m) [
      | inl p ↦ subst OnGlobe (sym p) (pair_corner-OnGlobe t (split 44 t) ek)
      | inr i ↦ parse_corners-OnGlobe ts eks c i
    ]

In-without_last : (x c : Corner) (ds : List Corner) → In x (without_last c ds) → In x (c ∷ ds)
unfolding without_last
In-without_last x c [] m = absurd m
In-without_last x c (d ∷ ds) m = ground (arith, In-without_last x d ds)

In-open_loop : (x : Corner) (cs : List Corner) → In x (open_loop cs) → In x cs
unfolding open_loop
In-open_loop x [] m = m
In-open_loop x (c ∷ []) m = m
In-open_loop x (c ∷ d ∷ ds) m = ground (arith, In-without_last x c (d ∷ ds))

-- the bounds of a list of values
least_first : (a : ℤ) (bs : List ℤ) → least a bs ≤ℤ a
unfolding least
least_first a [] = omega arith
least_first a (b ∷ bs) = ground (arith, least_first a bs, least_first b bs)

least-lower : (a : ℤ) (bs : List ℤ) (x : ℤ) → In x bs → least a bs ≤ℤ x
unfolding least
least-lower a [] x m = absurd m
least-lower a (b ∷ bs) x (inl p) = rw p (ground (arith, least_first a bs, least_first b bs))
least-lower a (b ∷ bs) x (inr m) = ground (arith, least-lower a bs x m, least-lower b bs x m)

greatest_first : (a : ℤ) (bs : List ℤ) → a ≤ℤ greatest a bs
unfolding greatest
greatest_first a [] = omega arith
greatest_first a (b ∷ bs) = ground (arith, greatest_first a bs, greatest_first b bs)

greatest-upper : (a : ℤ) (bs : List ℤ) (x : ℤ) → In x bs → x ≤ℤ greatest a bs
unfolding greatest
greatest-upper a [] x m = absurd m
greatest-upper a (b ∷ bs) x (inl p) =
    rw p (ground (arith, greatest_first a bs, greatest_first b bs))
greatest-upper a (b ∷ bs) x (inr m) =
    ground (arith, greatest-upper a bs x m, greatest-upper b bs x m)

at_least : (a : ℤ) (bs : List ℤ) (x : ℤ) → In x (a ∷ bs) → least a bs ≤ℤ x
at_least a bs x (inl p) = rw p (least_first a bs)
at_least a bs x (inr m) = least-lower a bs x m

at_most : (a : ℤ) (bs : List ℤ) (x : ℤ) → In x (a ∷ bs) → x ≤ℤ greatest a bs
at_most a bs x (inl p) = rw p (greatest_first a bs)
at_most a bs x (inr m) = greatest-upper a bs x m

spanned : (xs : List ℤ) (x y : ℤ) → exceeds_span xs ≡ false → In x xs → In y xs → x -ℤ y ≤ℤ max_span
unfolding exceeds_span
spanned [] x y h i j = absurd i
spanned (a ∷ rest) x y h i j =
    let wide : greatest a rest -ℤ least a rest ≤ℤ max_span = ground arith in
    omega (
      arith,
      wide,
      -ℤ_parts (greatest a rest) (least a rest),
      -ℤ_parts x y,
      at_most a rest x i,
      at_least a rest y j,
    )

check_corners-ok :
    (cs : List Corner) {corners : List Corner}
    → check_corners cs ≡ ok corners
    → (corners ≡ cs)
      × (3 ≤ length cs)
      × (length cs ≤ 50)
      × (exceeds_span (map (λ (c : Corner). c.latitude) cs) ≡ false)
      × (exceeds_span (map (λ (c : Corner). c.longitude) cs) ≡ false)
unfolding check_corners
check_corners-ok cs e = ground arith

-- A text that is accepted gives 3 to 50 corners, each with a latitude in [-90°, 90°] and a longitude in [-180°, 180°], of which no two differ by more than 2° in latitude or in longitude.
pub parse_boundary-KeepsLimits :
    (t : Text) (corners : List Corner) → parse_boundary t ≡ ok corners → KeepsLimits corners
unfolding parse_boundary
parse_boundary-KeepsLimits t corners e =
    let (cs, ecs, ec) =
      >>=-ok (parse_corners (split 59 t)) (λ cs. check_corners (open_loop cs)) (ground arith) in
    let (same, enough, few, lat, lon) = check_corners-ok (open_loop cs) ec in
    subst KeepsLimits (sym same) (record {
      enough = enough;
      few = few;
      on_globe = λ c m. parse_corners-OnGlobe (split 59 t) ecs c (In-open_loop c cs m);
      latitudes = λ a b i j.
          spanned _ a.latitude b.latitude lat
            (map-In (λ (c : Corner). c.latitude) a (open_loop cs) i)
            (map-In (λ (c : Corner). c.latitude) b (open_loop cs) j);
      longitudes = λ a b i j.
          spanned _ a.longitude b.longitude lon
            (map-In (λ (c : Corner). c.longitude) a (open_loop cs) i)
            (map-In (λ (c : Corner). c.longitude) b (open_loop cs) j);
    })
