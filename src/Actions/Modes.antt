-- ===== src/Actions/Modes.antt =====
-- The kinds that the deployment modes enable, against the table of kinds.
use zaqorincore.Prelude.{String, true, ok, string_eq, arith, ◌≡◌, ◌↔◌}
use zaqorincore.Actions.Kinds.{is_valid_kind}
use zaqorincore.Actions.Deployment.{validate_mode_action}

-- A kind that is enabled in individual mode is enabled in startup mode, and one that is enabled in
-- startup mode is enabled in enterprise mode.
pub validate_mode_action_mono :
    (kind : String)
    → (validate_mode_action "individual" kind ≡ ok tt → validate_mode_action "startup" kind ≡ ok tt)
      × (validate_mode_action "startup" kind ≡ ok tt
          → validate_mode_action "enterprise" kind ≡ ok tt)
unfolding validate_mode_action
validate_mode_action_mono kind = (λ h. ground arith, λ h. ground arith)

-- The enterprise mode enables exactly the registered kinds.
pub validate_mode_action-is_valid_kind :
    (kind : String) → (validate_mode_action "enterprise" kind ≡ ok tt) ↔ (is_valid_kind kind ≡ true)
unfolding validate_mode_action is_valid_kind
validate_mode_action-is_valid_kind kind = (λ h. ground arith, λ h. ground arith)
