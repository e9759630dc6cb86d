-- ===== src/Erc7710/Tests.antt =====
-- Runs of the ERC-7710 bridge: the weekly grocery mandate as a delegation, and a redemption of it.
use agentworth.Prelude.{
  ℕ, ◌/◌, ◌≡◌, refl, none, some, List, [], ◌∷◌, true, false, String, Option, All, arith, str_eq,
  eq_iff, In,
}
use agentworth.Types.{payee_class, minor, card, GateContext, PaymentIntent, GateDecision}
use agentworth.Examples.{groceries, new_year, shop_context}
use agentworth.Prelude.Text.{units, char_units}
use agentworth.Erc7710.Hex.{ok, hex_to_bytes, bytes_to_hex, parse_bytes, parse_byte, hex_text}
use agentworth.Erc7710.Words.{abi_word, pad_word, minimal_bytes}
use agentworth.Erc7710.Terms.{
  normalize_address, encode_timestamp_terms, encode_native_amount_terms, encode_native_period_terms,
  encode_period_terms, decode_period_terms, encode_allowed_targets_terms,
  decode_allowed_targets_terms,
}
use agentworth.Erc7710.Delegation.{
  EnforcerAddresses, MandateToDelegationOpts, Delegation, mandate_to_delegation, deterministic_salt,
  fold_units, amount_caveat, period_caveat, target_caveats,
}
use agentworth.Gate.{evaluate_gate}
use agentworth.Erc7710.Redemption.{
  decode_authority, DelegationRedemptionOpts, redemption_intent, decoded_mandate, with_mandate,
}
use agentworth.Erc7710.Bridge.{Keys}
use agentworth.Erc7710.Mandates.{authority_of, decode_authority-mandate_to_delegation}
use agentworth.Erc7710.RoundTrip.{decode_period_terms-encode_period_terms}
use agentworth.Erc7710.Targets.{allowed_targets_roundtrip}
use agentworth.Erc7710.Bounded.{Bounded}
use agentworth.Erc7710.Caveats.{TargetsOf}

abbrev enforcers : EnforcerAddresses
enforcers = record {
  timestamp = "0x1111111111111111111111111111111111111111";
  native_token_transfer_amount = some "0x2222222222222222222222222222222222222222";
  erc20_transfer_amount = none;
  erc20_period_transfer = none;
  native_token_period_transfer = some "0x3333333333333333333333333333333333333333";
  allowed_targets = none;
}

abbrev grant_opts : MandateToDelegationOpts
grant_opts = record {
  delegate = "0xAaaaaaaaaaaaaaaaaaaaaaaaaaaaaaaaaaaaaaaa";
  delegator = "0xbbbbbbbbbbbbbbbbbbbbbbbbbbbbbbbbbbbbbbbb";
  enforcers = enforcers;
  token = none;
  salt = none;
  period_seconds_override = none;
}

abbrev grocery_delegation : Delegation
grocery_delegation = record {
  delegate = "0xaaaaaaaaaaaaaaaaaaaaaaaaaaaaaaaaaaaaaaaa";
  delegator = "0xbbbbbbbbbbbbbbbbbbbbbbbbbbbbbbbbbbbbbbbb";
  authority = "0xffffffffffffffffffffffffffffffffffffffffffffffffffffffffffffffff";
  caveats =
      record {
        enforcer = "0x1111111111111111111111111111111111111111";
        terms = "0x00000000000000000000000000000000000000000000000000000000697e9780";
        args = "0x";
      }
      ∷ record {
        enforcer = "0x2222222222222222222222222222222222222222";
        terms = "0x000000000000000000000000000000000000000000000000000000000000c350";
        args = "0x";
      }
      ∷ record {
        enforcer = "0x3333333333333333333333333333333333333333";
        terms =
            "0x00000000000000000000000000000000000000000000000000000000000186a00000000000000000000000000000000000000000000000000000000000093a80000000000000000000000000000000000000000000000000000000006955b900";
        args = "0x";
      }
      ∷ [];
  salt = 624_182_888_590_515_051;
  signature = "0x";
}

delegated : mandate_to_delegation groceries grant_opts ≡ ok grocery_delegation
unfolding mandate_to_delegation amount_caveat period_caveat target_caveats deterministic_salt
    fold_units units char_units normalize_address hex_to_bytes parse_bytes parse_byte bytes_to_hex
    hex_text encode_timestamp_terms encode_native_amount_terms encode_native_period_terms abi_word
    pad_word minimal_bytes
delegated = refl

different : (a b : String) → str_eq a b ≡ false → a ≡ b → a ≡ ""
different a b other same = cc (other, (eq_iff a b).1 same)

keys : Keys enforcers
unfolding normalize_address hex_to_bytes units char_units parse_bytes parse_byte bytes_to_hex
    hex_text
keys = record {
  ts = "0x1111111111111111111111111111111111111111";
  ea = "";
  na = "0x2222222222222222222222222222222222222222";
  ep = "";
  np = "0x3333333333333333333333333333333333333333";
  tg = "";
  ts_key = refl;
  ea_key = refl;
  na_key = refl;
  ep_key = refl;
  np_key = refl;
  tg_key = refl;
  apart = (
    ((λ p. p), ((different _ _ refl), ((λ p. p), ((different _ _ refl), ((λ p. p), tt))))),
    (
      ((λ p. refl), ((λ p. refl), ((λ p. refl), ((λ p. refl), tt)))),
      (
        ((λ p. p), ((different _ _ refl), ((λ p. p), tt))),
        (((λ p. refl), ((λ p. refl), tt)), (((λ p. p), tt), (tt, tt))),
      ),
    ),
  );
}

decode_authority-mandate_to_delegation_example :
    (t : Option (List String)) × TargetsOf (payee_class "groceries") t
    × (decode_authority grocery_delegation.caveats enforcers ≡ ok (authority_of groceries t))
decode_authority-mandate_to_delegation_example =
    decode_authority-mandate_to_delegation groceries grant_opts grocery_delegation keys
      (record { cap = omega arith; budget = omega arith; since = omega arith; until = omega arith })
      refl delegated

abbrev redeem_opts : DelegationRedemptionOpts
redeem_opts = record {
  target = "0xcccccccccccccccccccccccccccccccccccccccc";
  amount = minor 8000;
  currency = "GBP";
  rail = some card;
  rationale = "the weekly grocery shop";
  payee_class = some "groceries";
  intent_id = some "p1";
  enforcers = enforcers;
  mandate_id = some "m1";
  mandate_label = none;
}

abbrev redeem_context : GateContext
redeem_context = record shop_context { mandates = [] }

abbrev redemption : PaymentIntent
redemption =
    redemption_intent grocery_delegation redeem_opts "0xcccccccccccccccccccccccccccccccccccccccc"
      redeem_context.now

abbrev redemption_decision : GateDecision
redemption_decision = evaluate_gate redemption (
    with_mandate redeem_context (
      decoded_mandate grocery_delegation redeem_opts (authority_of groceries none) new_year
        groceries.expires_at))

decode_period_terms-encode_period_terms_example :
    (terms : List ℕ) × (encode_period_terms "0xAAaaaaaaaaaaaaaaaaaaaaaaaaaaaaaaaaaaaaaa" 500 86_400
        7
      ≡ ok terms)
    × (decode_period_terms (bytes_to_hex terms)
        ≡ ok (
          "0xaaaaaaaaaaaaaaaaaaaaaaaaaaaaaaaaaaaaaaaa",
          record { period_amount = 500; period_duration = 86_400; start_date = 7 },
        ))
unfolding normalize_address hex_to_bytes units char_units parse_bytes parse_byte bytes_to_hex
    hex_text
decode_period_terms-encode_period_terms_example =
    decode_period_terms-encode_period_terms 500 86_400 7 (omega arith) (omega arith) (omega arith)
      (omega arith) "0xAAaaaaaaaaaaaaaaaaaaaaaaaaaaaaaaaaaaaaaa"
      "0xaaaaaaaaaaaaaaaaaaaaaaaaaaaaaaaaaaaaaaaa" refl

allowed_targets_roundtrip_example :
    (terms : List ℕ) × (encode_allowed_targets_terms
        ("0x1111111111111111111111111111111111111111" ∷ [])
      ≡ ok terms)
    × (decode_allowed_targets_terms (bytes_to_hex terms)
        ≡ ok ("0x1111111111111111111111111111111111111111" ∷ []))
unfolding normalize_address hex_to_bytes units char_units parse_bytes parse_byte bytes_to_hex
    hex_text
allowed_targets_roundtrip_example =
    allowed_targets_roundtrip "0x1111111111111111111111111111111111111111" []
      ("0x1111111111111111111111111111111111111111" ∷ []) (refl, tt)
