-- ===== src/Ingress/Bound.antt =====
-- How many requests src/ingress/rateLimit.ts admits in a window.
use agentworth.Prelude.{
  ℕ, ◌+◌, ◌≤◌, ◌<◌, ◌≡◌, refl, sym, ◌∙◌, String, true, false, Option, none, some, List, [], ◌∷◌,
  arith, str_eq, eq_iff, eq_refl, inl, inr, Bool-cases, leb, le→leb,
}
use agentworth.Prelude.Map.{Map, get, set, get-set}
use agentworth.Ingress.{Bucket, is_admitted, check_bucket, check, admissions}

-- The requests for a key come before an instant.
abbrev pub Before : ℕ → String → List (ℕ × String) → Type 0
Before end key [] = Unit
Before end key ((t, k) ∷ rest) = (str_eq k key ≡ true → t < end) × Before end key rest

module _ (window max : ℕ) (key : String) where
  check_bucket-other :
      (t : ℕ) (k : String) (o : Option Bucket) (buckets : Map Bucket)
      → str_eq k key ≡ false
      → get key (check_bucket window max t k o buckets).0 ≡ get key buckets
  unfolding check_bucket
  check_bucket-other t k none buckets h = rw (get-set k key _ buckets, h)
  check_bucket-other t k (some b) buckets h = ground (
    arith,
    get-set k key (record { window_start = t; count = 1 }) buckets,
    get-set k key (record b { count = b.count + 1 }) buckets,
  )

  later : (t : ℕ) {end : ℕ} → t < end → leb end t ≡ false
  later t h = ground arith

  -- A bucket of which the window is not over.
  admissions-bucket :
      (rs : List (ℕ × String)) (buckets : Map Bucket) (b : Bucket)
      → get key buckets ≡ some b
      → b.count ≤ max
      → Before (b.window_start + window) key rs
      → b.count + admissions window max key buckets rs ≤ max
  unfolding admissions check check_bucket
  admissions-bucket [] buckets b e le before = omega arith
  admissions-bucket ((t, k) ∷ rs) buckets b e le (this, before) = elim (Bool-cases (str_eq k key)) [
    | inr other ↦
        let kept = check_bucket-other t k (get k buckets) buckets other ∙ e in
        rw other
          (omega (arith, admissions-bucket rs (check window max t k buckets).0 b kept le before))
    | inl same ↦
        let found : get k buckets ≡ some b = (rw (sym ((eq_iff k key).0 same)) at e) in
        elim (Bool-cases (leb max b.count)) [
          | inl full ↦
              rw (same, found, check_bucket, later (t) (this same), full)
                (omega (arith, admissions-bucket rs buckets b e le before))
          | inr room ↦
              let b' = record b { count = b.count + 1 } in
              let kept : get key (set k b' buckets) ≡ some b' =
                rw (get-set k key b' buckets, same) in
              rw (same, found, check_bucket, later t (this same), room)
                (omega
                  (arith, admissions-bucket rs (set k b' buckets) b' kept (ground arith) before))
        ]
  ]

  -- The request that opens a window for the key.
  check_bucket-opens :
      (t : ℕ) (o : Option Bucket) (buckets : Map Bucket)
      → ((b : Bucket) → o ≡ some b → b.window_start + window ≤ t)
      → ((check_bucket window max t key o buckets).0
          ≡ set key (record { window_start = t; count = 1 }) buckets)
        × (is_admitted (check_bucket window max t key o buckets).1 ≡ true)
  unfolding check_bucket
  check_bucket-opens t none buckets over = (refl, refl)
  check_bucket-opens t (some b) buckets over =
      let reached = le→leb (b.window_start + window) t (over b refl) in rw reached (refl, refl)

  -- From a request for a key that has no window, or one that is over, at most the maximum number
  -- of requests is admitted for the key until the window that it opens is over, whatever requests
  -- for other keys come between; the maximum must not be zero.
  pub admissions-bound :
      (t : ℕ) (rs : List (ℕ × String)) (buckets : Map Bucket)
      → 1 ≤ max
      → ((b : Bucket) → get key buckets ≡ some b → b.window_start + window ≤ t)
      → Before (t + window) key rs
      → admissions window max key buckets ((t, key) ∷ rs) ≤ max
  unfolding admissions check
  admissions-bound t rs buckets some_room over before =
      let (opened, let_in) = check_bucket-opens t (get key buckets) buckets over in
      let fresh : Bucket = record { window_start = t; count = 1 } in
      let kept : get key (set key fresh buckets) ≡ some fresh =
        rw (get-set key key fresh buckets, eq_refl) in
      rw (opened, let_in, eq_refl)
        (admissions-bucket rs (set key fresh buckets) fresh kept some_room before)
