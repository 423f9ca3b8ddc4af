-- ===== src/Approval/Decimals/Order.antt =====
-- `compareDecimal` orders decimals by their value, whatever their scales are.
use native.Mathlib.Nat.{le_of_mul-le-mul_right, mul-le-mul_right, one-le-pow, pow-suc}
use treasury_backend.Prelude.{
  ap, arith, max, not, subst, suc, sym, true, zero, ℕ, ◌*◌, ◌+◌, ◌-◌, ◌<◌, ◌^◌, ◌↔◌, ◌∙◌, ◌≡◌, ◌≤◌,
}
use treasury_backend.Prelude.Int.{leb_ℤ, mul_parts, neg_part, pos_part, ℤ, ◌≤ℤ◌}
use treasury_backend.Approval.Decimals.{
  DecimalParts, above, at_least, at_most, below, compare_parts, order_of, scaled,
}

next : (m n : ℕ) → m + suc n ≡ suc (m + n)
next m n = omega arith

regroup : (a b c : ℕ) → a * b * c ≡ a * (b * c)
regroup a b c = omega arith

plus_zero : (m : ℕ) → m + 0 ≡ m
plus_zero m = omega arith

distribute : (p x n y c : ℕ) → p * (x * c) + n * (y * c) ≡ (p * x + n * y) * c
distribute p x n y c = omega arith

pow_add : (m n : ℕ) → 10 ^ (m + n) ≡ 10 ^ m * 10 ^ n
pow_add m zero = rw (plus_zero m) (omega arith)
pow_add m (suc n) =
    rw (next m n, pow-suc 10 n, pow-suc 10 (m + n), pow_add m n) (regroup (10 ^ m) (10 ^ n) 10)

-- The value of one decimal is at most that of the other, at a scale.
abbrev Below : ℕ → DecimalParts → DecimalParts → Type 0
Below k a b = scaled k a ≤ℤ scaled k b

-- A larger scale multiplies both sides.
abbrev left_of : ℕ → DecimalParts → DecimalParts → ℕ
left_of k a b = pos_part a.value * 10 ^ (k - a.scale) + neg_part b.value * 10 ^ (k - b.scale)

Below-parts : (k : ℕ) (a b : DecimalParts) → (Below k a b) ↔ (left_of k a b ≤ left_of k b a)
Below-parts k a b =
    let (pa, na) = mul_parts a.value (10 ^ (k - a.scale)) in
    let (pb, nb) = mul_parts b.value (10 ^ (k - b.scale)) in
    (λ h. rw (pa, na, pb, nb) at h, λ h. rw (pa, na, pb, nb) h)

later : (k s j : ℕ) → s ≤ k → k + j - s ≡ (k - s) + j
later k s j le = omega arith

left_of-add :
    (k j : ℕ) (a b : DecimalParts)
    → a.scale ≤ k
    → b.scale ≤ k
    → left_of (k + j) a b ≡ left_of k a b * 10 ^ j
left_of-add k j a b la lb =
    rw
      (later k a.scale j la, later k b.scale j lb, pow_add (k - a.scale) j, pow_add (k - b.scale) j)
      (distribute (pos_part a.value) (10 ^ (k - a.scale)) (neg_part b.value) (10 ^ (k - b.scale))
        (10 ^ j))

positive_power : (j : ℕ) → 0 < 10 ^ j
positive_power j = one-le-pow j 10 (omega arith)

Below-up :
    (k j : ℕ) (a b : DecimalParts) → a.scale ≤ k → b.scale ≤ k → Below k a b → Below (k + j) a b
Below-up k j a b la lb h = (Below-parts (k + j) a b).1 (
    rw (left_of-add k j a b la lb, left_of-add k j b a lb la)
      (mul-le-mul_right (10 ^ j) ((Below-parts k a b).0 h)))

Below-down :
    (k j : ℕ) (a b : DecimalParts) → a.scale ≤ k → b.scale ≤ k → Below (k + j) a b → Below k a b
Below-down k j a b la lb h = (Below-parts k a b).1 (
    le_of_mul-le-mul_right
      (rw (left_of-add k j a b la lb, left_of-add k j b a lb la) at (Below-parts (k + j) a b).0 h)
      (positive_power j))

-- The order at the common scale, which every larger scale shares.
abbrev pub AtMost : DecimalParts → DecimalParts → Type 0
AtMost a b = Below (max a.scale b.scale) a b

max_bounds : (m n : ℕ) → (m ≤ max m n) × (n ≤ max m n)
max_bounds m n = (omega arith, omega arith)

rest_of : (k m : ℕ) → m ≤ k → m + (k - m) ≡ k
rest_of k m le = omega arith

max_least : (m n k : ℕ) → m ≤ k → n ≤ k → max m n ≤ k
max_least m n k a b = omega arith

AtMost-up : (k : ℕ) (a b : DecimalParts) → a.scale ≤ k → b.scale ≤ k → AtMost a b → Below k a b
AtMost-up k a b la lb h =
    let m = max a.scale b.scale in
    subst (λ n. Below n a b) (rest_of k m (max_least _ _ k la lb))
      (Below-up m (k - m) a b (max_bounds a.scale b.scale).0 (max_bounds a.scale b.scale).1 h)

AtMost-down : (k : ℕ) (a b : DecimalParts) → a.scale ≤ k → b.scale ≤ k → Below k a b → AtMost a b
AtMost-down k a b la lb h =
    let m = max a.scale b.scale in
    Below-down m (k - m) a b (max_bounds a.scale b.scale).0 (max_bounds a.scale b.scale).1
      (subst (λ n. Below n a b) (sym (rest_of k m (max_least _ _ k la lb))) h)

≤ℤ-trans : (x y z : ℤ) → x ≤ℤ y → y ≤ℤ z → x ≤ℤ z
≤ℤ-trans x y z a b = omega arith

pub AtMost-trans : (a b c : DecimalParts) → AtMost a b → AtMost b c → AtMost a c
AtMost-trans a b c ab bc =
    let k = max a.scale (max b.scale c.scale) in
    let la : a.scale ≤ k = omega arith in
    let lb : b.scale ≤ k = omega arith in
    let lc : c.scale ≤ k = omega arith in
    AtMost-down k a c la lc (
      ≤ℤ-trans (scaled k a) (scaled k b) (scaled k c) (AtMost-up k a b la lb ab)
        (AtMost-up k b c lb lc bc))

max_comm : (m n : ℕ) → max m n ≡ max n m
max_comm m n = omega arith

leb_ℤ_iff : (x y : ℤ) → (leb_ℤ x y ≡ true) ↔ (x ≤ℤ y)
leb_ℤ_iff x y = ground arith

-- `<= 0` and `>= 0` of a comparison are the order of the values, `< 0` and `> 0` its failure.
at_most_order : (x y : ℤ) → at_most (order_of x y) ≡ leb_ℤ x y
at_most_order x y = ground arith

at_least_order : (x y : ℤ) → at_least (order_of x y) ≡ leb_ℤ y x
at_least_order x y = ground arith

below_order : (x y : ℤ) → below (order_of x y) ≡ not (leb_ℤ y x)
below_order x y = ground arith

above_order : (x y : ℤ) → above (order_of x y) ≡ not (leb_ℤ x y)
above_order x y = ground arith

pub at_most-AtMost : (a b : DecimalParts) → (at_most (compare_parts a b) ≡ true) ↔ AtMost a b
unfolding compare_parts
at_most-AtMost a b =
    let k = max a.scale b.scale in
    let (to, from) = leb_ℤ_iff (scaled k a) (scaled k b) in
    let same = at_most_order (scaled k a) (scaled k b) in
    (λ e. to (sym same ∙ e), λ h. same ∙ from h)

-- The comparison the other way round.
pub at_least-at_most :
    (a b : DecimalParts) → at_least (compare_parts a b) ≡ at_most (compare_parts b a)
unfolding compare_parts
at_least-at_most a b =
    at_least_order (scaled (max a.scale b.scale) a) (scaled (max a.scale b.scale) b)
    ∙ ap (λ k. leb_ℤ (scaled k b) (scaled k a)) (max_comm a.scale b.scale)
    ∙ sym (at_most_order (scaled (max b.scale a.scale) b) (scaled (max b.scale a.scale) a))

pub below-at_most :
    (a b : DecimalParts) → below (compare_parts a b) ≡ not (at_most (compare_parts b a))
unfolding compare_parts
below-at_most a b =
    below_order (scaled (max a.scale b.scale) a) (scaled (max a.scale b.scale) b)
    ∙ ap (λ k. not (leb_ℤ (scaled k b) (scaled k a))) (max_comm a.scale b.scale)
    ∙ ap not (sym (at_most_order (scaled (max b.scale a.scale) b) (scaled (max b.scale a.scale) a)))

pub above-at_most :
    (a b : DecimalParts) → above (compare_parts a b) ≡ not (at_most (compare_parts a b))
unfolding compare_parts
above-at_most a b =
    above_order (scaled (max a.scale b.scale) a) (scaled (max a.scale b.scale) b)
    ∙ ap not (sym (at_most_order (scaled (max a.scale b.scale) a) (scaled (max a.scale b.scale) b)))

pub AtMost-refl : (a : DecimalParts) → AtMost a a
AtMost-refl a = omega arith
