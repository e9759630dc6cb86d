-- ===== src/Payee/Spoofing.antt =====
-- What spoofing a payee identifier does not achieve: src/core/payeeNormalize.ts and src/core/denyList.ts.
use agentworth.Prelude.{
  ℕ, String, ◌≡◌, refl, true, List, [], ◌∷◌, arith, In, any-In, filter, not, map, ap, sym, ◌∙◌,
}
use agentworth.Prelude.Text.{codes, trim}
use agentworth.Types.{PaymentIntent, GateContext, block}
use agentworth.Gate.{evaluate_gate}
use agentworth.Gate.Floor.{deny_rule-block}
use agentworth.Payee.{
  is_invisible, fold_confusable, strip_and_fold, normalize_payee, same_text, blocklisted_payee_rule,
}

-- The visible part of a text.
abbrev pub visible : List ℕ → List ℕ
visible cs = filter (λ c. not (is_invisible c)) cs

strip_and_fold_lem : (cs : List ℕ) → strip_and_fold cs ≡ map fold_confusable (visible cs)
unfolding strip_and_fold
strip_and_fold_lem [] = refl
strip_and_fold_lem (c ∷ cs) = ground (arith, strip_and_fold_lem cs)

same_text_refl : (cs : List ℕ) → same_text cs cs ≡ true
same_text_refl [] = refl
same_text_refl (c ∷ cs) = ground (arith, same_text_refl cs)

normalize_payee-alike :
    (fold_case : List ℕ → List ℕ) (a b : List ℕ)
    → map fold_confusable (visible (fold_case a)) ≡ map fold_confusable (visible (fold_case b))
    → normalize_payee fold_case a ≡ normalize_payee fold_case b
unfolding normalize_payee
normalize_payee-alike fold_case a b same =
    ap trim (strip_and_fold_lem (fold_case a) ∙ same ∙ sym (strip_and_fold_lem (fold_case b)))

-- A payment is blocked when its payee and a listed payee, once their case is folded, look alike:
-- they differ only in invisible characters and in letters that are folded to the same ASCII
-- letter. That holds whatever mandates and trust the payment has; `fold_case` stands for NFKC
-- normalisation and lower case.
pub blocklisted-block :
    (fold_case : List ℕ → List ℕ) (blocklist : List String) (entry : String)
    (intent : PaymentIntent) (ctx : GateContext)
    → In entry blocklist
    → In (blocklisted_payee_rule fold_case blocklist) ctx.deny_rules
    → map fold_confusable (visible (fold_case (codes intent.payee)))
      ≡ map fold_confusable (visible (fold_case (codes entry)))
    → (evaluate_gate intent ctx).outcome ≡ block
unfolding blocklisted_payee_rule
blocklisted-block fold_case blocklist entry intent ctx listed rule same =
    deny_rule-block intent ctx (blocklisted_payee_rule fold_case blocklist) rule (
      any-In _ blocklist entry listed (
        rw (normalize_payee-alike fold_case (codes intent.payee) (codes entry) same)
          (same_text_refl (normalize_payee fold_case (codes entry)))))
