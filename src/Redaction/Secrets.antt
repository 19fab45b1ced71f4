-- ===== src/Redaction/Secrets.antt =====
-- What `redact_value` and `make_redactor` leave in a text.
use h4ckrth0n.Prelude.{◌≡◌, refl, String, Bool, true, false, not, List, all, arith}
use h4ckrth0n.Text.{all_chars}
use h4ckrth0n.Text.Split.{lacks}
use h4ckrth0n.Text.Pattern.{search, sub}
use h4ckrth0n.Text.Pattern.Substitution.{
  Sound, is_foreign, search-sub_from, sub_from-Keeps, sub_from_of_clean,
}
use h4ckrth0n.Redaction.{
  mark, is_alnum, is_key_char, is_token_char, jwt_like, openai_key, langsmith_key, secret_patterns,
  apply_all, redact_value, make_redactor,
}

jwt_like-Sound : Sound mark jwt_like
unfolding lacks all_chars is_foreign is_token_char
jwt_like-Sound = record { barred = λ c e. ground (arith, e); plain = refl; foreign = refl }

openai_key-Sound : Sound mark openai_key
unfolding lacks all_chars is_foreign is_alnum
openai_key-Sound = record { barred = λ c e. ground (arith, e); plain = refl; foreign = refl }

langsmith_key-Sound : Sound mark langsmith_key
unfolding lacks all_chars is_foreign is_key_char
langsmith_key-Sound = record { barred = λ c e. ground (arith, e); plain = refl; foreign = refl }

-- A text that no pattern matches anywhere.
abbrev pub is_clean : String → Bool
is_clean value = all (λ p. not (search p value)) secret_patterns

clean :
    (value : String)
    → search jwt_like value ≡ false
    → search openai_key value ≡ false
    → search langsmith_key value ≡ false
    → is_clean value ≡ true
unfolding all
clean value a b c = rw (a, b, c)

pub redact_value-clean : (value : String) → is_clean (redact_value value) ≡ true
unfolding redact_value apply_all sub
redact_value-clean value =
    let a = search-sub_from mark refl jwt_like jwt_like-Sound 0 value in
    let b = sub_from-Keeps mark refl openai_key jwt_like jwt_like-Sound 0 _ a in
    let c = search-sub_from mark refl openai_key openai_key-Sound 0 _ in
    clean _ (sub_from-Keeps mark refl langsmith_key jwt_like jwt_like-Sound 0 _ b)
      (sub_from-Keeps mark refl langsmith_key openai_key openai_key-Sound 0 _ c)
      (search-sub_from mark refl langsmith_key langsmith_key-Sound 0 _)

pub redact_value_of_clean : (value : String) → is_clean value ≡ true → redact_value value ≡ value
unfolding redact_value apply_all sub all
redact_value_of_clean value h =
    let a : search jwt_like value ≡ false = ground (arith, h) in
    let b : search openai_key value ≡ false = ground (arith, h) in
    let c : search langsmith_key value ≡ false = ground (arith, h) in
    rw (sub_from_of_clean mark refl jwt_like value a) (
      rw (sub_from_of_clean mark refl openai_key value b)
        (sub_from_of_clean mark refl langsmith_key value c))

-- No secret pattern matches anywhere in a redacted text, redacting it again changes nothing, and a
-- redactor with further patterns is this redaction followed by theirs.
pub redaction_removes :
    (extra_patterns : List (String → String)) (value : String)
    → (is_clean (redact_value value) ≡ true)
      × (redact_value (redact_value value) ≡ redact_value value)
      × (make_redactor extra_patterns value ≡ apply_all extra_patterns (redact_value value))
unfolding make_redactor redact_value apply_all
redaction_removes extra_patterns value = (
  redact_value-clean value,
  redact_value_of_clean (redact_value value) (redact_value-clean value),
  refl,
)
