-- ===== src/Ingress/Tests.antt =====
-- Runs of the rate limit: two requests in a second for one key, with another key between.
use agentworth.Prelude.{ℕ, ◌≤◌, ◌≡◌, refl, String, List, [], ◌∷◌, arith}
use agentworth.Prelude.Map.{get, set}
use agentworth.Ingress.{check, check_bucket, admissions}
use agentworth.Ingress.Bound.{admissions-bound}

abbrev requests : List (ℕ × String)
requests = (10, "b") ∷ (20, "a") ∷ (30, "a") ∷ (40, "b") ∷ []

two_of_three : admissions 1000 2 "a" [] ((0, "a") ∷ requests) ≡ 2
unfolding admissions check check_bucket get set
two_of_three = refl

admissions-bound_example : admissions 1000 2 "a" [] ((0, "a") ∷ requests) ≤ 2
unfolding get
admissions-bound_example =
    admissions-bound 1000 2 "a" 0 requests [] (omega arith) (λ b e. cc)
      ((λ e. omega arith), ((λ e. omega arith), ((λ e. omega arith), ((λ e. omega arith), tt))))
