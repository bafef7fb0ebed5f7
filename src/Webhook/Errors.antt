-- ===== src/Webhook/Errors.antt =====
-- The values that the checks of trafficroute_webhook.go hand to k8s.io/apimachinery's package
-- `field`: each constructor stands for the call of that name, with its arguments.
use kubetraffic.Prelude.{Str, ℕ, List}
use kubetraffic.Prelude.Int.{ℤ}

-- `field.NewPath(name)`, `p.Child(name)` (one name at a time) and `p.Index(i)`.
pub data FieldPath : Type 0 where
  root : Str → FieldPath
  child : FieldPath → Str → FieldPath
  index : FieldPath → ℕ → FieldPath

-- The offending value.
pub data BadValue : Type 0 where
  text : Str → BadValue
  number : ℤ → BadValue

-- `field.Required(path, detail)`, `field.Invalid(path, value, detail)`,
-- `field.Duplicate(path, value)` and `field.NotSupported(path, value, choices)`.
pub data FieldError : Type 0 where
  required : FieldPath → Str → FieldError
  invalid : FieldPath → BadValue → Str → FieldError
  duplicate : FieldPath → BadValue → FieldError
  not_supported : FieldPath → BadValue → List Str → FieldError
