-- ===== src/Payee.antt =====
-- src/core/payeeNormalize.ts and src/core/denyList.ts over code points. The runtime's NFKC normalisation
-- followed by `toLowerCase` is an argument, `fold_case`.
pub mod Spoofing
mod Tests
use mathlib.Core.List.{reverse}
use agentworth.Prelude.{
  ℕ, String, ◌≡◌, Bool, true, false, ◌&&◌, ◌||◌, not, Option, none, some, List, [], ◌∷◌, map, ltb,
  leb, ◌==◌, if◌then◌else◌, any,
}
use agentworth.Prelude.Text.{codes, trim}
use agentworth.Types.{PaymentIntent, DenyContext, DenyRule, is_irreversible, minor_units}

unfoldable pub is_invisible : ℕ → Bool
is_invisible cp =
    leb cp 0x1f
    || (leb 0x7f cp && leb cp 0x9f)
    || cp == 0xad
    || (leb 0x200b cp && leb cp 0x200f)
    || (leb 0x202a cp && leb cp 0x202e)
    || (leb 0x2060 cp && leb cp 0x206f)
    || cp == 0xfeff

-- CONFUSABLES: Cyrillic and Greek look-alikes, with the ASCII letter each is folded to.
abbrev pub confusables : List (ℕ × ℕ)
confusables =
    (0x430, b'a')
    ∷ (0x435, b'e')
    ∷ (0x43e, b'o')
    ∷ (0x440, b'p')
    ∷ (0x441, b'c')
    ∷ (0x443, b'y')
    ∷ (0x445, b'x')
    ∷ (0x455, b's')
    ∷ (0x456, b'i')
    ∷ (0x458, b'j')
    ∷ (0x501, b'd')
    ∷ (0x43c, b'm')
    ∷ (0x442, b't')
    ∷ (0x43a, b'k')
    ∷ (0x432, b'b')
    ∷ (0x43d, b'h')
    ∷ (0x3bf, b'o')
    ∷ (0x3c1, b'p')
    ∷ (0x3b1, b'a')
    ∷ (0x3b5, b'e')
    ∷ (0x3b9, b'i')
    ∷ (0x3ba, b'k')
    ∷ (0x3bd, b'v')
    ∷ (0x3c4, b't')
    ∷ (0x3c5, b'u')
    ∷ (0x3c7, b'x')
    ∷ (0x3b2, b'b')
    ∷ []

look_up : ℕ → List (ℕ × ℕ) → ℕ
look_up c [] = c
look_up c ((from, to) ∷ rest) = let more = look_up c rest in if from == c then to else more

-- `CONFUSABLES[ch] ?? ch`
unfoldable pub fold_confusable : ℕ → ℕ
unfolding look_up
fold_confusable c = look_up c confusables

unfoldable pub has_invisible_chars : List ℕ → Bool
unfolding is_invisible
has_invisible_chars payee = any is_invisible payee

unfoldable pub strip_and_fold : List ℕ → List ℕ
strip_and_fold [] = []
strip_and_fold (c ∷ cs) =
    let rest = strip_and_fold cs in if is_invisible c then rest else fold_confusable c ∷ rest

unfoldable pub normalize_payee : (List ℕ → List ℕ) → List ℕ → List ℕ
unfolding strip_and_fold trim
normalize_payee fold_case payee = trim (strip_and_fold (fold_case payee))

-- `irreversibleUnknownPayeeRule`
unfoldable pub irreversible_unknown_payee_rule : ℕ → DenyRule
irreversible_unknown_payee_rule floor = record {
  id = "irreversible_to_unknown_payee";
  reason = "irreversible payment to a payee with no prior history, above the hard floor";
  matches = λ intent ctx.
      is_irreversible ctx.reversibility
      && not (ctx.known_payee intent.payee)
      && leb floor (minor_units intent.amount);
}

unfoldable pub spoofed_payee_rule : DenyRule
unfolding has_invisible_chars
spoofed_payee_rule = record {
  id = "spoofed_payee_identifier";
  reason =
      "payee identifier contains invisible or control characters (zero-width / BiDi) with no legitimate use";
  matches = λ intent ctx. has_invisible_chars (codes intent.payee);
}

abbrev pub irreversible_unknown_floor_minor : ℕ
irreversible_unknown_floor_minor = 5000

-- DEFAULT_DENY_RULES
abbrev pub default_deny_rules : List DenyRule
default_deny_rules =
    irreversible_unknown_payee_rule irreversible_unknown_floor_minor ∷ spoofed_payee_rule ∷ []

abbrev pub same_text : List ℕ → List ℕ → Bool
same_text [] [] = true
same_text (a ∷ as') (b ∷ bs) = a == b && same_text as' bs
same_text _ _ = false

unfoldable pub blocklisted_payee_rule : (List ℕ → List ℕ) → List String → DenyRule
unfolding normalize_payee
blocklisted_payee_rule fold_case blocklist = record {
  id = "blocklisted_payee";
  reason = "payee is on the operator's sanctioned / blocked payee list";
  matches = λ intent ctx.
      any
        (λ entry.
          same_text (normalize_payee fold_case (codes entry))
            (normalize_payee fold_case (codes intent.payee)))
        blocklist;
}
