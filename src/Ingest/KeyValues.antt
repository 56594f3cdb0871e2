-- ===== src/Ingest/KeyValues.antt =====
-- api/v1/ingest_webhook.py: `_SUMO_KV_RE.findall`, the pairs of `(\w+)=(\S+)` in a text.
use Prim.Native.Char.{Char, code}
use zaqorincore.Prelude.{
  append_empty, append_text_assoc, ℕ, String, Bool, true, false, not, ◌&&◌, List, [], ◌∷◌, nat_beq,
  is_empty, append, is_space, all_chars, if◌then◌else◌, ◌≡◌, refl, sym, ◌∙◌, ap, arith, Bool-cases,
  inl, inr,
}

-- Where the search stands: in a run of word characters, behind the `=` of a run, or in a value.
pub data Search : Type 0 where
  in_key : String → Search
  at_value : String → Search
  in_value : String → String → Search

-- s + c
abbrev add_last : String → Char → String
add_last s c = append s (String.◌∷◌ c "")

module _ (is_word : ℕ → Bool) where
  -- A run that meets no `=` matches nowhere, nor does one whose `=` has no value.
  abbrev pub key_step : String → Char → Search
  key_step k c =
      if is_word (code c)
      then in_key (add_last k c)
      else if nat_beq (code c) b'=' && not (is_empty k)
      then at_value k
      else in_key ""

  unfoldable pub find_pairs : Search → String → List (String × String)
  unfolding is_space
  find_pairs (in_key k) String.[] = []
  find_pairs (at_value k) String.[] = []
  find_pairs (in_value k v) String.[] = (k, v) ∷ []
  find_pairs (in_key k) (String.◌∷◌ c s) = find_pairs (key_step k c) s
  find_pairs (at_value k) (String.◌∷◌ c s) =
      find_pairs (if is_space (code c) then in_key "" else in_value k (String.◌∷◌ c "")) s
  find_pairs (in_value k v) (String.◌∷◌ c s) =
      let ended = find_pairs (in_key "") s in
      let more = find_pairs (in_value k (add_last v c)) s in
      if is_space (code c) then (k, v) ∷ ended else more

  unfoldable pub findall : String → List (String × String)
  unfolding find_pairs
  findall s = find_pairs (in_key "") s

-- A key of word characters and a value without white space, neither empty.
abbrev pub is_pair : (ℕ → Bool) → String × String → Bool
is_pair is_word (k, v) =
    not (is_empty k)
    && all_chars is_word k
    && not (is_empty v)
    && all_chars (λ c. not (is_space c)) v

abbrev pub are_pairs : (ℕ → Bool) → List (String × String) → Bool
are_pairs is_word [] = true
are_pairs is_word (p ∷ ps) = is_pair is_word p && are_pairs is_word ps

-- The message that a sender makes of its fields: k=v k=v ...
unfoldable pub message_of : List (String × String) → String
unfolding append
message_of [] = ""
message_of ((k, v) ∷ []) = append k (append "=" v)
message_of ((k, v) ∷ p ∷ ps) = append k (append "=" (append v (append " " (message_of (p ∷ ps)))))

module _ (is_word : ℕ → Bool) (equals_plain : is_word b'=' ≡ false) where
  key_step-word :
      (a : String) (c : Char)
      → is_word (code c) ≡ true
      → key_step is_word a c ≡ in_key (add_last a c)
  key_step-word a c e = rw e refl

  key_step-equals : (a : String) → is_empty a ≡ false → key_step is_word a "=" ≡ at_value a
  key_step-equals a e = rw (equals_plain, e) refl

  value_step :
      (k : String) (c : Char)
      → is_space (code c) ≡ false
      → (if is_space (code c) then in_key "" else in_value k (String.◌∷◌ c ""))
        ≡ in_value k (String.◌∷◌ c "")
  value_step k c e = rw e refl

  find-key :
      (a k rest : String)
      → all_chars is_word k ≡ true
      → find_pairs is_word (in_key a) (append k rest)
        ≡ find_pairs is_word (in_key (append a k)) rest
  unfolding find_pairs append
  find-key a String.[] rest h = ap (λ t. find_pairs is_word (in_key t) rest) (sym (append_empty a))
  find-key a (String.◌∷◌ c k) rest h = elim (Bool-cases (is_word (code c))) [
    | inl e ↦
        ap (λ t. find_pairs is_word t (append k rest)) (key_step-word a c e)
        ∙ find-key (add_last a c) k rest (ground (arith, h))
        ∙ ap (λ t. find_pairs is_word (in_key t) rest) (append_text_assoc a (String.◌∷◌ c "") k)
    | inr e ↦ ground (arith, h, e)
  ]

  find-value :
      (k a v rest : String)
      → all_chars (λ c. not (is_space c)) v ≡ true
      → find_pairs is_word (in_value k a) (append v rest)
        ≡ find_pairs is_word (in_value k (append a v)) rest
  unfolding find_pairs append
  find-value k a String.[] rest h =
      ap (λ t. find_pairs is_word (in_value k t) rest) (sym (append_empty a))
  find-value k a (String.◌∷◌ c v) rest h = elim (Bool-cases (is_space (code c))) [
    | inl e ↦ ground (arith, h, e)
    | inr e ↦
        rw e (find-value k (add_last a c) v rest (ground (arith, h)))
        ∙ ap (λ t. find_pairs is_word (in_value k t) rest) (append_text_assoc a (String.◌∷◌ c "") v)
  ]

  -- A pair at the start of the text is read up to the end of its value.
  find-pair :
      (k v rest : String)
      → is_pair is_word (k, v) ≡ true
      → find_pairs is_word (in_key "") (append k (append "=" (append v rest)))
        ≡ find_pairs is_word (in_value k v) rest
  unfolding find_pairs append
  find-pair k String.[] rest h = ground (arith, h)
  find-pair k (String.◌∷◌ c v) rest h =
      find-key "" k (append "=" (append (String.◌∷◌ c v) rest)) (ground (arith, h))
      ∙ ap (λ t. find_pairs is_word t (append (String.◌∷◌ c v) rest))
          (key_step-equals k (ground (arith, h)))
      ∙ elim (Bool-cases (is_space (code c))) [
        | inl e ↦ ground (arith, h, e)
        | inr e ↦
            ap (λ t. find_pairs is_word t (append v rest)) (value_step k c e)
            ∙ find-value k (String.◌∷◌ c "") v rest (ground (arith, h))
      ]

  in_value-space :
      (k v s : String)
      → find_pairs is_word (in_value k v) (append " " s) ≡ (k, v) ∷ find_pairs is_word (in_key "") s
  unfolding find_pairs append is_space
  in_value-space k v s = refl

  -- A message made of pairs, of word characters as keys and texts without white space as values, is
  -- read as these pairs, in their order, if `=` is no word character.
  pub findall-message_of :
      (ps : List (String × String))
      → are_pairs is_word ps ≡ true
      → findall is_word (message_of ps) ≡ ps
  unfolding findall message_of
  findall-message_of [] h = unfold find_pairs in refl
  findall-message_of ((k, v) ∷ []) h =
      ap (λ t. findall is_word (append k (append "=" t))) (sym (append_empty v))
      ∙ find-pair k v "" (ground (arith, h))
      ∙ (unfold find_pairs in refl)
  findall-message_of ((k, v) ∷ p ∷ ps) h =
      find-pair k v (append " " (message_of (p ∷ ps))) (ground (arith, h))
      ∙ in_value-space k v (message_of (p ∷ ps))
      ∙ ap (◌∷◌ (k, v)) (findall-message_of (p ∷ ps) (ground (arith, h)))
