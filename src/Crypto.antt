-- ===== src/Crypto.antt =====
-- server/src/zaqorincore_server/crypto.py: the signature of COMMAND frames. The HMAC is a parameter:
-- `hmac key message` is the hex digest of HMAC-SHA256.
pub mod Canonical
pub mod Verify
mod Tests
use zaqorincore.Prelude.{ℕ, String, Bool, append, decimal, ◌==◌, string_eq}

-- The signed fields of a command.
pub record Command : Type 0 where
  pub command_id : String
  pub kind : String
  pub target : String
  pub ttl_sec : ℕ
  pub issued_at : String

unfoldable pub canonical_form : Command → String
canonical_form c = append c.command_id (
    append "|" (
      append c.kind (
        append "|"
          (append c.target (append "|" (append (decimal c.ttl_sec) (append "|" c.issued_at)))))))

module _ (hmac : String → String → String) where
  unfoldable pub sign_command : String → Command → String
  sign_command secret c = hmac secret (canonical_form c)

  -- `lower` is `str.lower`; the comparison in constant time is an equality.
  unfoldable pub verify_command : (String → String) → String → Command → String → Bool
  unfolding sign_command
  verify_command lower secret c hmac_hex = sign_command secret c == lower hmac_hex
