-- ===== src/Crypto/Canonical.antt =====
-- The canonical form that is signed determines the command.
use Prim.Native.Char.{code}
use text.Mathlib.TextLemmas.{head-eq_of_cons-eq, tail-eq_of_cons-eq}
use zaqorincore.Prelude.{
  ℕ, String, true, false, append, has_char, decimal, has_char-decimal, digits-decimal, ◌≡◌, refl,
  sym, ap, ◌∙◌, arith,
}
use zaqorincore.Prelude.Int.{digits}
use zaqorincore.Crypto.{Command, canonical_form}

append-append : (a b c : String) → append (append a b) c ≡ append a (append b c)
unfolding append
append-append String.[] b c = refl
append-append (String.◌∷◌ x a) b c = ap (λ s. String.◌∷◌ x s) (append-append a b c)

-- A text with a bar in it.
abbrev bar : String → String
bar s = String.◌∷◌ "|" s

has_char-append-bar : (a s : String) → has_char b'|' (append a (bar s)) ≡ true
unfolding append has_char
has_char-append-bar String.[] s = refl
has_char-append-bar (String.◌∷◌ x a) s = ground (arith, has_char-append-bar a s)

-- What stands before the first bar.
append-first :
    (a b s t : String)
    → has_char b'|' a ≡ false
    → has_char b'|' b ≡ false
    → append a (bar s) ≡ append b (bar t)
    → (a ≡ b) × (s ≡ t)
unfolding append has_char
append-first String.[] String.[] s t ha hb e = (refl, tail-eq_of_cons-eq e)
append-first String.[] (String.◌∷◌ y b) s t ha hb e = ground (arith, ap code (head-eq_of_cons-eq e))
append-first (String.◌∷◌ x a) String.[] s t ha hb e = ground (arith, ap code (head-eq_of_cons-eq e))
append-first (String.◌∷◌ x a) (String.◌∷◌ y b) s t ha hb e =
    let (p, q) = append-first a b s t (ground arith) (ground arith) (tail-eq_of_cons-eq e) in
    (cc (head-eq_of_cons-eq e, p), q)

-- What stands after the last bar.
append-last :
    (a b s t : String)
    → has_char b'|' s ≡ false
    → has_char b'|' t ≡ false
    → append a (bar s) ≡ append b (bar t)
    → (a ≡ b) × (s ≡ t)
unfolding append
append-last String.[] String.[] s t hs ht e = (refl, tail-eq_of_cons-eq e)
append-last String.[] (String.◌∷◌ y b) s t hs ht e =
    cc (has_char-append-bar b t, tail-eq_of_cons-eq e)
append-last (String.◌∷◌ x a) String.[] s t hs ht e =
    cc (has_char-append-bar a s, tail-eq_of_cons-eq e)
append-last (String.◌∷◌ x a) (String.◌∷◌ y b) s t hs ht e =
    let (p, q) = append-last a b s t hs ht (tail-eq_of_cons-eq e) in
    (cc (head-eq_of_cons-eq e, p), q)

regroup : (t n i : String) → append (append t (bar n)) (bar i) ≡ append t (bar (append n (bar i)))
unfolding append
regroup t n i = append-append t (bar n) (bar i)

decimal-injective : (m n : ℕ) → decimal m ≡ decimal n → m ≡ n
decimal-injective m n e = cc (digits-decimal m, digits-decimal n, ap (digits false 0) e)

-- Two commands with the same canonical form are equal, if no bar stands in their ids, kinds and
-- times of issue. The targets may hold bars.
pub canonical_form-injective :
    (c d : Command)
    → has_char b'|' c.command_id ≡ false
    → has_char b'|' d.command_id ≡ false
    → has_char b'|' c.kind ≡ false
    → has_char b'|' d.kind ≡ false
    → has_char b'|' c.issued_at ≡ false
    → has_char b'|' d.issued_at ≡ false
    → canonical_form c ≡ canonical_form d
    → c ≡ d
unfolding canonical_form append
canonical_form-injective c d ci di ck dk ct dt e =
    let rest =
      λ (x : Command). append x.target (bar (append (decimal x.ttl_sec) (bar x.issued_at))) in
    let (ids, after_id) =
      append-first c.command_id d.command_id (append c.kind (bar (rest c)))
        (append d.kind (bar (rest d))) ci di e in
    let (kinds, after_kind) = append-first c.kind d.kind (rest c) (rest d) ck dk after_id in
    let grouped =
      regroup c.target (decimal c.ttl_sec) c.issued_at
      ∙ after_kind
      ∙ sym (regroup d.target (decimal d.ttl_sec) d.issued_at) in
    let (front, times) =
      append-last (append c.target (bar (decimal c.ttl_sec)))
        (append d.target (bar (decimal d.ttl_sec))) c.issued_at d.issued_at ct dt grouped in
    let (targets, ttls) =
      append-last c.target d.target (decimal c.ttl_sec) (decimal d.ttl_sec)
        (has_char-decimal c.ttl_sec) (has_char-decimal d.ttl_sec) front in
    cc (ids, kinds, targets, decimal-injective c.ttl_sec d.ttl_sec ttls, times)
