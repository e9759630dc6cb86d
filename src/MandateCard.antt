-- ===== src/MandateCard.antt =====
-- src/core/mandateCard.ts: spend mandate cards, made from mandates or from past payments. The padding of
-- a cap, `Math.ceil(n * (1 + pad))`, and `toLowerCase` are arguments.
pub mod Cover
pub mod Window
mod Tests
use Prim.Native.String.{◌++◌ as text_append}
use agentworth.Prelude.{
  ℕ, ◌+◌, ◌*◌, String, Bool, true, false, ◌&&◌, Option, none, some, List, [], ◌∷◌, ◌++◌, map, ltb,
  leb, ◌==◌, str_eq, any, all, if◌then◌else◌, get_or, filter,
}
use agentworth.Prelude.Map.{Map, get, set, values}
use agentworth.Prelude.Text.{units, units_before, codes, trim}
use agentworth.Types.{
  Mandate, Period, day, week, month, RailKind, onchain, card, checkout, rail_eq, PayeeScope,
  payee_class, allowlist, active, revoked, PaymentIntent, minor_units, rail_reversibility,
  is_irreversible,
}
use agentworth.Gate.{is_active}

pub record SpendCardRequiredMandate : Type 0 where
  pub payee_class : String
  pub currency : String
  pub suggested_per_tx_cap : ℕ
  pub suggested_per_period_cap : ℕ
  pub period : Period
  pub rails : List RailKind

pub record SpendMandateCard : Type 0 where
  pub agent_id : String
  pub required_mandates : List SpendCardRequiredMandate

abbrev pub period_eq : Period → Period → Bool
period_eq day day = true
period_eq week week = true
period_eq month month = true
period_eq _ _ = false

-- The class of a scope, or a text for an allowlist.
abbrev pub scope_class : PayeeScope → String → String
scope_class (payee_class c) other = c
scope_class (allowlist values) other = other

abbrev pub required_of : Mandate → SpendCardRequiredMandate
required_of m = record {
  payee_class = scope_class m.scope "custom";
  currency = m.currency;
  suggested_per_tx_cap = m.per_tx_cap;
  suggested_per_period_cap = m.per_period_cap;
  period = m.period;
  rails = m.allowed_rails;
}

unfoldable pub generate_spend_card : String → List Mandate → SpendMandateCard
generate_spend_card agent_id mandates = record {
  agent_id = agent_id;
  required_mandates = map required_of mandates;
}

unfoldable pub satisfies : SpendCardRequiredMandate → Mandate → Bool
satisfies req m =
    is_active m.status
    && str_eq (scope_class m.scope "") req.payee_class
    && str_eq m.currency req.currency
    && leb req.suggested_per_tx_cap m.per_tx_cap
    && leb req.suggested_per_period_cap m.per_period_cap
    && period_eq m.period req.period
    && all (λ r. any (rail_eq r) m.allowed_rails) req.rails

pub record Comparison : Type 0 where
  pub covers : Bool
  pub missing : List SpendCardRequiredMandate

abbrev pub is_nil : List SpendCardRequiredMandate → Bool
is_nil [] = true
is_nil (_ ∷ _) = false

unfoldable pub missing_of :
    List Mandate → List SpendCardRequiredMandate → List SpendCardRequiredMandate
missing_of mandates [] = []
missing_of mandates (req ∷ rest) =
    let more = missing_of mandates rest in if any (satisfies req) mandates then more else req ∷ more

unfoldable pub compare_spend_card : SpendMandateCard → List Mandate → Comparison
compare_spend_card c mandates =
    let missing = missing_of mandates c.required_mandates in
    record { covers = is_nil missing; missing = missing }

-- PERIOD_MS
abbrev pub period_ms : Period → ℕ
period_ms day = 86_400_000
period_ms week = 604_800_000
period_ms month = 2_592_000_000

pub record Spend : Type 0 where
  pub amount : ℕ
  pub t : ℕ

-- The inner loop of `maxRollingPeriodSum`: what is spent before an instant.
unfoldable pub sum_until : ℕ → List Spend → ℕ
sum_until end [] = 0
sum_until end (s ∷ rest) =
    let more = sum_until end rest in if ltb s.t end then s.amount + more else 0

abbrev pub larger : ℕ → ℕ → ℕ
larger a b = if ltb a b then b else a

unfoldable pub max_rolling_period_sum : ℕ → List Spend → ℕ
max_rolling_period_sum period [] = 0
max_rolling_period_sum period (s ∷ rest) =
    larger (sum_until (s.t + period) (s ∷ rest)) (max_rolling_period_sum period rest)

-- A stable sort by time.
unfoldable pub insert_spend : Spend → List Spend → List Spend
insert_spend s [] = s ∷ []
insert_spend s (x ∷ rest) =
    let more = insert_spend s rest in if ltb x.t s.t then x ∷ more else s ∷ x ∷ rest

unfoldable pub sort_spends : List Spend → List Spend
sort_spends [] = []
sort_spends (s ∷ rest) = insert_spend s (sort_spends rest)

unfoldable pub max_amount : List Spend → ℕ
max_amount [] = 0
max_amount (s ∷ rest) = larger s.amount (max_amount rest)

pub record Group : Type 0 where
  pub payee_class : String
  pub currency : String
  pub rails : List RailKind
  pub spends : List Spend

abbrev add_rail : RailKind → List RailKind → List RailKind
add_rail r rails = if any (rail_eq r) rails then rails else rails ++ (r ∷ [])

abbrev spend_of : PaymentIntent → Spend
spend_of p = record { amount = minor_units p.amount; t = p.created_at }

abbrev pub grown : PaymentIntent → Option Group → Group
grown p none = record {
  payee_class = p.payee_class;
  currency = p.currency;
  rails = p.rail ∷ [];
  spends = spend_of p ∷ [];
}
grown p (some g) = record g {
  rails = add_rail p.rail g.rails;
  spends = g.spends ++ (spend_of p ∷ []);
}

abbrev group_key : PaymentIntent → String
group_key p = text_append p.payee_class (text_append "\0" p.currency)

-- The groups of the history. Settled payments have whole amounts; one of nothing is left out.
unfoldable pub groups_of : List PaymentIntent → Map Group → Map Group
groups_of [] groups = groups
groups_of (p ∷ rest) groups =
    let key = group_key p in
    groups_of rest
      (if minor_units p.amount == 0 then groups else set key (grown p (get key groups)) groups)

-- `[...groups.keys()].sort()`, with the groups.
unfoldable pub insert_group : String × Group → Map Group → Map Group
insert_group g [] = g ∷ []
insert_group g (h ∷ rest) =
    let more = insert_group g rest in
    if units_before (units h.0) (units g.0) then h ∷ more else g ∷ h ∷ rest

unfoldable pub sort_groups : Map Group → Map Group
sort_groups [] = []
sort_groups (g ∷ rest) = insert_group g (sort_groups rest)

-- The rails in the order of their names.
abbrev pub sorted_rails : List RailKind → List RailKind
sorted_rails rails = filter (λ r. any (rail_eq r) rails) (card ∷ checkout ∷ onchain ∷ [])

abbrev at_least_one : ℕ → ℕ
at_least_one n = larger 1 n

unfoldable pub required_for : (ℕ → ℕ) → Period → Group → SpendCardRequiredMandate
required_for padded period g =
    let sorted = sort_spends g.spends in
    record {
      payee_class = g.payee_class;
      currency = g.currency;
      suggested_per_tx_cap = at_least_one (padded (max_amount sorted));
      suggested_per_period_cap =
          at_least_one (padded (max_rolling_period_sum (period_ms period) sorted));
      period = period;
      rails = sorted_rails g.rails;
    }

unfoldable pub derive_spend_card :
    (ℕ → ℕ) → List PaymentIntent → Option String → Option Period → SpendMandateCard
derive_spend_card padded history agent_id period = record {
  agent_id = get_or agent_id "derived-agent";
  required_mandates =
      map (required_for padded (get_or period month)) (values (sort_groups (groups_of history [])));
}

-- The warnings, each with the required mandate that its text shows.
pub data SpendCardLintWarning : Type 0 where
  irreversible_high_cap overbroad_class wide_period_budget :
      SpendCardRequiredMandate → SpendCardLintWarning

abbrev overbroad_classes : List (List ℕ)
overbroad_classes =
    codes "*" ∷ [] ∷ codes "all" ∷ codes "any" ∷ codes "custom" ∷ codes "wildcard" ∷ []

abbrev codes_eq : List ℕ → List ℕ → Bool
codes_eq [] [] = true
codes_eq (a ∷ s) (b ∷ t) = a == b && codes_eq s t
codes_eq _ _ = false

unfoldable pub lint_mandate :
    (List ℕ → List ℕ) → ℕ → ℕ → SpendCardRequiredMandate → List SpendCardLintWarning
lint_mandate lower high_cap wide req =
    (if any (λ r. is_irreversible (rail_reversibility r)) req.rails
        && leb high_cap req.suggested_per_tx_cap
      then irreversible_high_cap req ∷ []
      else [])
    ++ (if any (codes_eq (lower (trim (codes req.payee_class)))) overbroad_classes
        then overbroad_class req ∷ []
        else [])
    ++ (if ltb 0 req.suggested_per_tx_cap
          && leb (req.suggested_per_tx_cap * wide) req.suggested_per_period_cap
        then wide_period_budget req ∷ []
        else [])

unfoldable pub lint_all :
    (List ℕ → List ℕ) → ℕ → ℕ → List SpendCardRequiredMandate → List SpendCardLintWarning
lint_all lower high_cap wide [] = []
lint_all lower high_cap wide (req ∷ rest) =
    lint_mandate lower high_cap wide req ++ lint_all lower high_cap wide rest

unfoldable pub lint_spend_card :
    (List ℕ → List ℕ) → SpendMandateCard → Option ℕ → Option ℕ → List SpendCardLintWarning
lint_spend_card lower c high_cap wide =
    lint_all lower (get_or high_cap 100_000) (get_or wide 50) c.required_mandates
