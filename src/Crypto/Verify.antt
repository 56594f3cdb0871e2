-- ===== src/Crypto/Verify.antt =====
-- Which commands a signature of crypto.py is good for.
use zaqorincore.Prelude.{◌≡◌, sym, ap, ◌∙◌, ◌↔◌, String, true, false, has_char, string_eq, ==_iff}
use zaqorincore.Crypto.{Command, canonical_form, sign_command, verify_command}
use zaqorincore.Crypto.Canonical.{canonical_form-injective}

-- The fields around the target are free of the separator.
pub record IsClean (c : Command) : Type 0 where
  pub clean_id : has_char b'|' c.command_id ≡ false
  pub clean_kind : has_char b'|' c.kind ≡ false
  pub clean_time : has_char b'|' c.issued_at ≡ false

module _ (hmac : String → String → String) (lower : String → String)
    (is_lower : (key message : String) → lower (hmac key message) ≡ hmac key message)
    (collision_free : (key m n : String) → hmac key m ≡ hmac key n → m ≡ n) where
  -- If the HMAC's digest is in lower case and no two messages share one, then a signature of one
  -- command verifies another under the same secret exactly if they are the same command, for
  -- commands whose id, kind and time are free of the separator.
  pub verify_command-sign_command :
      (secret : String) (c d : Command)
      → IsClean c
      → IsClean d
      → (verify_command hmac lower secret d (sign_command hmac secret c) ≡ true) ↔ (c ≡ d)
  unfolding verify_command sign_command
  verify_command-sign_command secret c d clean_c clean_d =
      let same = ==_iff (hmac secret (canonical_form d)) (lower (hmac secret (canonical_form c))) in
      (
        λ verified.
            canonical_form-injective c d clean_c.clean_id clean_d.clean_id clean_c.clean_kind
              clean_d.clean_kind clean_c.clean_time clean_d.clean_time
              (collision_free secret (canonical_form c) (canonical_form d)
                (sym (is_lower secret (canonical_form c)) ∙ sym (same.0 verified))),
        λ e. same.1 (
            ap (λ x. hmac secret (canonical_form x)) (sym e)
            ∙ sym (is_lower secret (canonical_form c))),
      )
