-- ===== src/Rails/Network/Unconfigured.antt =====
-- A rail without a client, or without its secret, settles nothing: src/rails/networkRail.ts and
-- src/core/credentialBroker.ts under src/core/executor.ts.
use agentworth.Prelude.{
  ℕ, ◌≡◌, refl, ap, ◌∙◌, inl, inr, String, Option, none, some, Option-cases, subst, sym,
}
use agentworth.Types.{PaymentIntent, Attestation, GateOutcome, auto_execute, GateDecision}
use agentworth.Store.{set_meta}
use agentworth.Rails.{Provider, threw, get_provider}
use agentworth.Rails.Network.{
  NetworkRailSpec, network_settle, create_network_rail, Vault, SecretProvider, retrieve_credential,
  broker_provider, with_secret, not_configured,
}
use agentworth.Executor.{Deps, State, halt_reason, decide, record_event, record_outcome}
use agentworth.Executor.Frame.{insert_then}
use agentworth.Executor.Operations.{
  settle, settle_with, settled_by, finish, record_decision, carry_out, execute,
}
use agentworth.Executor.Settled.{Unsettled, execute_halted-Unsettled, carry_out-Unsettled}

-- A network rail without a client, or a brokered one whose secret the vault does not have.
pub data Unconfigured : Provider → Type 0 where
  no_client :
      (spec : NetworkRailSpec) → spec.client ≡ none → Unconfigured (create_network_rail spec)
  no_secret :
      (vault : Vault) (p : SecretProvider) (key : String)
      → retrieve_credential key vault ≡ none
      → Unconfigured (broker_provider vault p key)

no_client-threw :
    (spec : NetworkRailSpec) (intent : PaymentIntent) (now : ℕ)
    → spec.client ≡ none
    → network_settle spec intent now ≡ threw (not_configured spec)
unfolding network_settle
no_client-threw spec intent now h = rw (h, network_settle) refl

settle-threw :
    (p : Provider) (intent : PaymentIntent) (now : ℕ)
    → Unconfigured p
    → (e : String) × (p.settle intent now ≡ threw e)
unfolding create_network_rail broker_provider
settle-threw p intent now (no_client spec h) =
    (not_configured spec, no_client-threw spec intent now h)
settle-threw p intent now (no_secret vault q key h) = (_, ap (with_secret q key intent now) h)

module _ (d : Deps) (now : ℕ) (intent : PaymentIntent) (a : Option Attestation) (s : State)
    (p : Provider) (served : get_provider d.rails intent.rail ≡ some p)
    (bare : Unconfigured p) where
  settle-failed :
      (t : State) → (e : String) × (settle d intent now t ≡ settled_by d intent now p (threw e) t)
  unfolding settle
  settle-failed t =
      let (e, threw_it) = settle-threw p intent now bare in
      (
        e,
        ap (λ o. settle_with d intent now o t) served
            ∙ ap (λ x. settled_by d intent now p x t) threw_it,
      )

  finish-Unsettled :
      (v : GateDecision)
      → Unsettled d now intent a s
          (carry_out d now intent v auto_execute (record_decision d now intent a v s))
  unfolding carry_out record_decision record_event record_outcome set_meta finish settled_by
  finish-Unsettled v =
      let (e, failed) = settle-failed (record_decision d now intent a v s) in
      subst (λ x. Unsettled d now intent a s (finish intent v x)) (sym failed)
        (insert_then (Unsettled d now intent a s) _ _ _ (λ old h. (refl, refl)) (λ h. (refl, refl)))

  decided-Unsettled :
      (v : GateDecision) (o : GateOutcome)
      → Unsettled d now intent a s (carry_out d now intent v o (record_decision d now intent a v s))
  decided-Unsettled v o = elim (carry_out-Unsettled d now intent a s v o) [
    | inl same ↦ same
    | inr auto ↦
        subst
          (λ x.
            Unsettled d now intent a s
              (carry_out d now intent v x (record_decision d now intent a v s)))
          (sym auto) (finish-Unsettled v)
  ]

  -- Where the provider of a payment's rail is a network rail without a client, or a brokered one whose
  -- secret is not in the vault or is empty, execute stores no receipt and reports nothing as settled,
  -- whatever the gate decides.
  pub execute-Unconfigured : Unsettled d now intent a s (execute d now intent a s)
  unfolding execute
  execute-Unconfigured = elim (Option-cases (halt_reason d s)) [
    | inr (r, e) ↦ rw (e, execute) (execute_halted-Unsettled d now intent a s r)
    | inl e ↦
        rw (e, execute)
          (decided-Unsettled (decide d now intent a s) (decide d now intent a s).outcome)
  ]
