-- ===== src/Utils/Throttle/Spacing.antt =====
-- How far apart the grants of src/pf_core/utils/throttle.py are.
use pf_core.Prelude.{
  ℕ, zero, suc, ◌+◌, ◌*◌, ◌≤◌, ◌<◌, some, List, [], ◌∷◌, get_elem?, ◌≡◌, ap, sym, ◌∙◌, arith, max,
}
use mathlib.Core.Option.{some-injective}
use pf_core.Utils.Throttle.{Throttle, acquire, grants}

acquire-slot :
    (now : ℕ) (th : Throttle)
    → 0 < th.min_interval
    → (now + (acquire now th).0 ≡ max now th.next_allowed)
      × ((acquire now th).1.next_allowed ≡ max now th.next_allowed + th.min_interval)
      × ((acquire now th).1.min_interval ≡ th.min_interval)
unfolding acquire
acquire-slot now th h = (ground (arith, h), ground (arith, h), ground (arith, h))

-- a grant is not before the next allowed time, and k grants later as many intervals after it
grants_from :
    (nows : List ℕ) (th : Throttle) (k : ℕ) {b : ℕ}
    → 0 < th.min_interval
    → get_elem? (grants nows th) k ≡ some b
    → th.next_allowed + k * th.min_interval ≤ b
unfolding grants
grants_from [] th k h e = absurd (cc)
grants_from (now ∷ nows) th zero {b} h e =
    let a = acquire-slot now th h in
    omega (arith, a.0, some-injective (now + (acquire now th).0) b e)
grants_from (now ∷ nows) th (suc k) h e =
    let a = acquire-slot now th h in
    let later = grants_from nows (acquire now th).1 k (rw a.2 h) e in
    let later' = rw (a.1, a.2) at later in omega (arith, later')

same_zero : (k : ℕ) → 0 ≡ 0 + k → k ≡ 0
same_zero k p = omega (arith, p)

same_suc : (k j : ℕ) → suc j ≡ 0 + k → k ≡ suc j
same_suc k j p = omega (arith, p)

-- Of the grants of one throttle with a positive interval, whatever the times of the calls, the one
-- `k` places after another comes at least `k` intervals later.
pub grants_spaced :
    (nows : List ℕ) (th : Throttle) (i j k : ℕ) {a b : ℕ}
    → 0 < th.min_interval
    → j ≡ i + k
    → get_elem? (grants nows th) i ≡ some a
    → get_elem? (grants nows th) j ≡ some b
    → a + k * th.min_interval ≤ b
unfolding grants
grants_spaced [] th i j k h p e f = absurd (cc)
grants_spaced (now ∷ nows) th zero zero k {a} {b} h p e f =
    let none_between = ap (λ (x : ℕ). x * th.min_interval) (same_zero k p) in
    omega (arith, none_between, some-injective a b (sym e ∙ f))
grants_spaced (now ∷ nows) th zero (suc j) k {a} {b} h p e f =
    let q = acquire-slot now th h in
    let later = grants_from nows (acquire now th).1 j (rw q.2 h) f in
    let later' = rw (q.1, q.2) at later in
    let places = ap (λ (x : ℕ). x * th.min_interval) (same_suc k j p) in
    omega (arith, places, later', q.0, some-injective (now + (acquire now th).0) a e)
grants_spaced (now ∷ nows) th (suc i) zero k h p e f = absurd (omega (arith, p))
grants_spaced (now ∷ nows) th (suc i) (suc j) k {a} {b} h p e f =
    let q = acquire-slot now th h in
    rw q.2 at (grants_spaced nows (acquire now th).1 i j k (rw q.2 h) (omega (arith, p)) e f)
