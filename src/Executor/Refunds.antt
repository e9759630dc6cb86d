-- ===== src/Executor/Refunds.antt =====
-- What every call of `refund` of src/core/executor.ts keeps.
use agentworth.Prelude.{
  ℕ, ◌+◌, ◌-◌, ◌≤◌, ◌≡◌, refl, subst, inl, inr, ◌||◌, String, Option, none, some, arith, ltb, ◌==◌,
  get_or, Option-cases, Bool-cases,
}
use agentworth.Prelude.Map.{get}
use agentworth.Types.{Receipt, minor_units, is_irreversible}
use agentworth.Rails.{Provider, Attempt, done, threw, get_provider}
use agentworth.Store.{StoredIntent, is_settled, get_intent}
use agentworth.Executor.{Deps, State}
use agentworth.Executor.Frame.{update_then}
use agentworth.Executor.Approval.{
  refund_answered, refund_from, refund_with, refund_stored, refund, receipt_of, issuer, or_else,
}
use agentworth.Executor.Closed.{Reversals}

module _ (d : Deps) (P : State → Type 0) (c : Reversals d P) where
  refund_answered-keeps :
      (now : ℕ) (id : String) (si : StoredIntent) (already amount : ℕ) (why : Option String)
      (r : Attempt String) (s : State)
      → get id s.store.intents ≡ some si
      → already + amount ≤ minor_units si.intent.amount
      → P s
      → P (refund_answered d now id si already amount why r s).0
  unfolding refund_answered
  refund_answered-keeps now id si already amount why (threw e) s kept fits h = h
  refund_answered-keeps now id si already amount why (done ref) s kept fits h =
      update_then (λ r. P r.0) s _ _ _ (λ e. h)
        (λ old e. c.on_record _ _ _ _ (
          c.on_update id _ old s e
            (inr (
              let same : si ≡ old = cc in
              subst (λ x. already + amount ≤ minor_units x.intent.amount) same fits))
            h))

  refund_from-keeps :
      (now : ℕ) (id : String) (si : StoredIntent) (r : Receipt) (p : Provider) (want : Option ℕ)
      (why : Option String) (s : State)
      → get id s.store.intents ≡ some si
      → P s
      → P (refund_from d now id si r p want why s).0
  unfolding refund_from
  refund_from-keeps now id si r p want why s kept h =
      let already = get_or si.refunded_minor 0 in
      let full = minor_units si.intent.amount in
      let amount = get_or want (minor_units si.intent.amount - get_or si.refunded_minor 0) in
      elim (Bool-cases (is_irreversible p.capabilities.reversibility)) [
        | inl e ↦ rw e h
        | inr e ↦ rw e (elim (Option-cases p.refund) [
          | inl f ↦ rw (f, refund_from) h
          | inr (back, f) ↦
              rw (f, refund_from)
                (elim (Bool-cases (amount == 0 || ltb full (already + amount))) [
                  | inl g ↦ rw g h
                  | inr g ↦ rw g (
                      refund_answered-keeps now id si already amount why (back r amount now) s kept
                        (ground arith) h)
                ])
        ])
      ]

  refund_with-keeps :
      (now : ℕ) (id : String) (si : StoredIntent) (o : Option Receipt) (want : Option ℕ)
      (why : Option String) (s : State)
      → get id s.store.intents ≡ some si
      → P s
      → P (refund_with d now id si o want why s).0
  refund_with-keeps now id si none want why s kept h = h
  refund_with-keeps now id si (some r) want why s kept h =
      elim (Option-cases (or_else (issuer d r) (get_provider d.rails si.intent.rail))) [
        | inl e ↦ rw (e, refund_with) h
        | inr (p, e) ↦ rw (e, refund_with) (refund_from-keeps now id si r p want why s kept h)
      ]

  refund_stored-keeps :
      (now : ℕ) (id : String) (want : Option ℕ) (why : Option String) (o : Option StoredIntent)
      (s : State)
      → get id s.store.intents ≡ o
      → P s
      → P (refund_stored d now id want why o s).0
  unfolding refund_stored
  refund_stored-keeps now id want why none s kept h = h
  refund_stored-keeps now id want why (some si) s kept h =
      elim (Bool-cases (is_settled si.status)) [
        | inl e ↦ rw e (refund_with-keeps now id si (receipt_of si.receipt_id s) want why s kept h)
        | inr e ↦ rw e h
      ]

  pub refund-keeps :
      (now : ℕ) (id : String) (want : Option ℕ) (why : Option String) (s : State)
      → P s
      → P (refund d now id want why s).0
  unfolding refund get_intent
  refund-keeps now id want why s h =
      refund_stored-keeps now id want why (get id s.store.intents) s refl h
