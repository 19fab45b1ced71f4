-- ===== src/Redaction/Wrappers.antt =====
-- src/h4ckath0n/obs/wrappers.py: functions wrapped for tracing. An argument or a result is a text or
-- some other value `V`; the wrapped function is an argument, with the positional arguments and the
-- keyword arguments that it is called with.
use h4ckrth0n.Prelude.{◌≡◌, refl, String, Bool, true, false, List, [], ◌∷◌, if◌then◌else◌}
use h4ckrth0n.Redaction.{redact_value}
use h4ckrth0n.Redaction.Secrets.{redaction_removes, is_clean}

pub data Value (V : Type 0) : Type 0 where
  text : String → Value V
  other : V → Value V

module _ {V : Type 0} where
  abbrev pub redact_text : Value V → Value V
  redact_text (text s) = text (redact_value s)
  redact_text (other v) = other v

  unfoldable pub redact_kwargs : List (String × Value V) → List (String × Value V)
  redact_kwargs [] = []
  redact_kwargs ((k, v) ∷ kwargs) = (k, redact_text v) ∷ redact_kwargs kwargs

  unfoldable pub traced_tool :
      {R : Type 0}
      → (List (Value V) → List (String × Value V) → R)
      → Bool
      → List (Value V)
      → List (String × Value V)
      → R
  traced_tool fn redact args kwargs = fn args (if redact then redact_kwargs kwargs else kwargs)

  unfoldable pub traced_node :
      {R : Type 0}
      → (List (Value V) → List (String × Value V) → R)
      → Bool
      → List (Value V)
      → List (String × Value V)
      → R
  traced_node fn redact args kwargs = fn args (if redact then redact_kwargs kwargs else kwargs)

  -- No text among keyword arguments has a secret.
  abbrev clean_value : Value V → Bool
  clean_value (text s) = is_clean s
  clean_value (other v) = true

  unfoldable pub clean_kwargs : List (String × Value V) → Bool
  clean_kwargs [] = true
  clean_kwargs ((k, v) ∷ kwargs) = if clean_value v then clean_kwargs kwargs else false

  redact_kwargs-clean :
      (kwargs : List (String × Value V)) → clean_kwargs (redact_kwargs kwargs) ≡ true
  unfolding clean_kwargs redact_kwargs
  redact_kwargs-clean [] = refl
  redact_kwargs-clean ((k, text s) ∷ kwargs) =
      let (c, _, _) = redaction_removes [] s in rw (c, redact_kwargs-clean kwargs)
  redact_kwargs-clean ((k, other v) ∷ kwargs) = redact_kwargs-clean kwargs

  -- With redaction on, the wrapped function itself is called with keyword texts that hold no secret,
  -- and with the positional arguments as they are; what it returns is returned as it is.
  pub traced_call :
      {R : Type 0} (fn : List (Value V) → List (String × Value V) → R) (args : List (Value V))
      (kwargs : List (String × Value V))
      → (kwargs' : List (String × Value V)) × (clean_kwargs kwargs' ≡ true)
        × (traced_tool fn true args kwargs ≡ fn args kwargs')
        × (traced_node fn true args kwargs ≡ fn args kwargs')
  unfolding traced_tool traced_node
  traced_call fn args kwargs = (redact_kwargs kwargs, redact_kwargs-clean kwargs, refl, refl)
