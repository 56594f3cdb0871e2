-- ===== src/Crypto/Tests.antt =====
-- The canonical form on concrete commands.
use zaqorincore.Prelude.{String, true, arith, ◌↔◌, ◌≡◌, refl, append, decimal, has_char}
use zaqorincore.Crypto.{Command, canonical_form, sign_command, verify_command}
use zaqorincore.Crypto.Verify.{IsClean, verify_command-sign_command}
use zaqorincore.Crypto.Canonical.{canonical_form-injective}

abbrev block : Command
block = record {
  command_id = "c-1";
  kind = "block_ip";
  target = "8.8|8.8";
  ttl_sec = 3600;
  issued_at = "2026-01-01";
}

canonical_form_run : canonical_form block ≡ "c-1|block_ip|8.8|8.8|3600|2026-01-01"
unfolding canonical_form append decimal
canonical_form_run = refl

canonical_form-injective_example : block ≡ block
unfolding has_char
canonical_form-injective_example =
    canonical_form-injective block block refl refl refl refl refl refl refl

append-injective : (key m n : String) → append key m ≡ append key n → m ≡ n
unfolding append
append-injective String.[] m n e = e
append-injective (String.◌∷◌ c key) m n e = append-injective key m n (ground (arith, e))

block-IsClean : IsClean block
unfolding has_char
block-IsClean = record { clean_id = refl; clean_kind = refl; clean_time = refl }

verify_command-sign_command_example :
    (verify_command append (λ s. s) "k" block (sign_command append "k" block) ≡ true)
    ↔ (block ≡ block)
verify_command-sign_command_example =
    verify_command-sign_command append (λ s. s) (λ key m. refl) append-injective "k" block block
      block-IsClean block-IsClean
