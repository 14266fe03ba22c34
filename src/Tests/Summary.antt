-- ===== src/Tests/Summary.antt =====
-- Summaries of the arguments of a tool call.
use intelligent_agent_platfo.Base.{ℕ, ◌+◌, ◌≡◌, refl, Bool, [], ◌∷◌, arith}
use intelligent_agent_platfo.Tools.Summary.{
  Characters, Value, Fields, null, number, text, array, object, no_items, item, no_fields, field,
  redacted, same_text, summarize_value, summarize,
}
use intelligent_agent_platfo.Tools.Summary.Bounds.{Fits, summarize-Fits}
use intelligent_agent_platfo.Tools.Summary.Sizes.{summarize-eq-summarize_value}

-- "token" and "note"
abbrev token : Characters
token = b't' ∷ b'o' ∷ b'k' ∷ b'e' ∷ b'n' ∷ []

abbrev note : Characters
note = b'n' ∷ b'o' ∷ b't' ∷ b'e' ∷ []

abbrev is_token : Characters → Bool
is_token key = same_text key token

abbrev arguments : Value
arguments = object (
    field token (text (b'x' ∷ []))
      (field note (array (item (number 7) (item null no_items))) no_fields))

-- A thousand bytes for each field: more than the limit from five fields on.
abbrev thousands : Fields → ℕ
thousands no_fields = 0
thousands (field k v fs) = 1000 + thousands fs

abbrev byte_size : Value → ℕ
byte_size (object fs) = thousands fs
byte_size v = 100

summarize-Fits_example : Fits is_token 5 (summarize is_token byte_size arguments)
summarize-Fits_example = summarize-Fits is_token byte_size arguments (omega arith)

secret_removed :
    summarize_value is_token 0 arguments
    ≡ object (
        field token
          (text redacted)
          (field note (array (item (number 7) (item null no_items))) no_fields))
unfolding summarize_value same_text
secret_removed = refl

abbrev wide : Value
wide = object (
    field note null
      (field note null (field note null (field note null (field note null no_fields)))))

-- Of 5000 bytes, and not cut.
summarize-eq-summarize_value_example :
    summarize is_token byte_size wide ≡ summarize_value is_token 0 wide
summarize-eq-summarize_value_example =
    summarize-eq-summarize_value is_token byte_size wide (omega arith)

wide_kept : summarize_value is_token 0 wide ≡ wide
unfolding summarize_value same_text
wide_kept = refl
