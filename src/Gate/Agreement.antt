-- ===== src/Gate/Agreement.antt =====
-- What src/core/gate.ts reads of its context: two contexts that agree on it give one decision.
use agentworth.Prelude.{ℕ, ◌≡◌, refl, String, Option, none, some, List}
use agentworth.Types.{
  Mandate, PaymentIntent, Reversibility, TrustLevel, GateContext, PriorSpend, Amount, minor,
  malformed, DenyRule,
}
use agentworth.Gate.{
  reversibility_of, denied_by, authorizing, trust_in, risk_of, check_caps, authorize, screen,
  validate, evaluate_gate,
}

-- A context in which what a decision depends on is given afresh.
module _ (intent : PaymentIntent) (c : GateContext) (ms : List Mandate)
    (spend : String → List PriorSpend) (trust : String → TrustLevel) (rev : Reversibility) where
  abbrev pub changed : GateContext
  changed = record c {
    mandates = ms;
    period_spend = spend;
    trust_of = some trust;
    reversibility = some rev;
  }

  pub record Agreeing : Type 0 where
    pub same_rev : rev ≡ reversibility_of intent c
    pub same_trust : trust intent.payee ≡ trust_in intent c
    pub same_authority : (n : ℕ) → authorizing intent n changed ≡ authorizing intent n c
    pub same_spend :
        (n : ℕ) (m : Mandate) → authorizing intent n c ≡ some m → spend m.id ≡ c.period_spend m.id

  check_caps-agreeing :
      (n : ℕ) (m : Mandate)
      → Agreeing
      → spend m.id ≡ c.period_spend m.id
      → check_caps intent n m changed ≡ check_caps intent n m c
  unfolding check_caps risk_of
  check_caps-agreeing n m a e = rw (e, a.same_rev, a.same_trust)

  authorize-agreeing :
      (n : ℕ) (o : Option Mandate)
      → Agreeing
      → authorizing intent n c ≡ o
      → authorize intent n o changed ≡ authorize intent n o c
  unfolding authorize
  authorize-agreeing n none a e = refl
  authorize-agreeing n (some m) a e = check_caps-agreeing n m a (a.same_spend n m e)

  screen-agreeing :
      (n : ℕ) (o : Option DenyRule) → Agreeing → screen intent n o changed ≡ screen intent n o c
  unfolding screen
  screen-agreeing n none a =
      rw (a.same_authority n) (authorize-agreeing n (authorizing intent n c) a refl)
  screen-agreeing n (some r) a = refl

  denied_by-agreeing : Agreeing → denied_by intent changed ≡ denied_by intent c
  unfolding denied_by
  denied_by-agreeing a = rw a.same_rev

  validate-agreeing : (x : Amount) → Agreeing → validate intent x changed ≡ validate intent x c
  unfolding validate
  validate-agreeing malformed a = refl
  validate-agreeing (minor n) a =
      rw (denied_by-agreeing a, screen-agreeing n (denied_by intent c) a)

  pub evaluate_gate-agreeing : Agreeing → evaluate_gate intent changed ≡ evaluate_gate intent c
  unfolding evaluate_gate
  evaluate_gate-agreeing a = validate-agreeing intent.amount a
