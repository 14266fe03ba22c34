-- ===== src/Tools/Summary/Sizes.antt =====
-- The limit of 4096 bytes in `summarize`.
use intelligent_agent_platfo.Base.{ℕ, ◌≤◌, ◌≡◌, refl, inl, inr, Bool, true, arith, leb, Bool-cases}
use intelligent_agent_platfo.Tools.Summary.{
  Characters, Value, summarize_value, marker, serialize_summary, summarize,
}

-- The limit never applies: `serialize_summary`, whose result is measured, has replaced a summary of
-- more than 4096 bytes by the short marker before. If the marker is within the limit, a summary
-- of any size is returned whole.
pub summarize-eq-summarize_value :
    (is_sensitive : Characters → Bool) (size : Value → ℕ) (value : Value)
    → size marker ≤ 4096
    → summarize is_sensitive size value ≡ summarize_value is_sensitive 0 value
unfolding summarize serialize_summary
summarize-eq-summarize_value is_sensitive size value short =
    elim (Bool-cases (leb (size (summarize_value is_sensitive 0 value)) 4096)) [
      | inl within ↦ rw (within, within) refl
      | inr beyond ↦
          let fits : leb (size marker) 4096 ≡ true = ground arith in rw (beyond, fits) refl
    ]
