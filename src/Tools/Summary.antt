-- ===== src/Tools/Summary.antt =====
-- `ToolGateway.summarize` of backend/app/tools/gateway.py: what is stored of the arguments and of the
-- result of a tool call. A text is the list of its code points; `is_sensitive` is the regular
-- expression for keys, and `size` the number of bytes of the JSON of a value.
pub mod Bounds
pub mod Sizes
use intelligent_agent_platfo.Base.{
  ℕ, zero, suc, ◌+◌, Bool, true, false, ◌&&◌, ◌||◌, not, List, [], ◌∷◌, ◌++◌, length, leb, ltb,
  ◌==◌, if◌then◌else◌,
}

abbrev pub Characters : Type 0
Characters = List ℕ

-- A JSON value, or another object with its text.
mutual
  pub data Value : Type 0 where
    null : Value
    boolean : Bool → Value
    number : ℕ → Value
    text : Characters → Value
    array : Items → Value
    object : Fields → Value
    other : Characters → Value

  pub data Items : Type 0 where
    no_items : Items
    item : Value → Items → Items

  pub data Fields : Type 0 where
    no_fields : Fields
    field : Characters → Value → Fields → Fields

-- `value[:n]`
unfoldable pub take : ℕ → Characters → Characters
take zero cs = []
take (suc n) [] = []
take (suc n) (c ∷ cs) = c ∷ take n cs

-- "[REDACTED]" and "[TRUNCATED]"
abbrev pub redacted : Characters
redacted = b'[' ∷ b'R' ∷ b'E' ∷ b'D' ∷ b'A' ∷ b'C' ∷ b'T' ∷ b'E' ∷ b'D' ∷ b']' ∷ []

abbrev pub truncated : Characters
truncated = b'[' ∷ b'T' ∷ b'R' ∷ b'U' ∷ b'N' ∷ b'C' ∷ b'A' ∷ b'T' ∷ b'E' ∷ b'D' ∷ b']' ∷ []

-- "_summary"
abbrev pub summary_key : Characters
summary_key = b'_' ∷ b's' ∷ b'u' ∷ b'm' ∷ b'm' ∷ b'a' ∷ b'r' ∷ b'y' ∷ []

abbrev pub shorten : Characters → Characters
shorten cs = if leb (length cs) 512 then cs else take 500 cs ++ truncated

module _ (is_sensitive : Characters → Bool) where
  -- `_summarize_value`; the last two are its comprehensions, with the number of entries left.
  unfoldable mutual
    unfolding take

    pub summarize_value : ℕ → Value → Value
    summarize_value depth null = null
    summarize_value depth (boolean b) = boolean b
    summarize_value depth (number n) = number n
    summarize_value depth (text cs) = text (shorten cs)
    summarize_value depth (array is) =
        let inner = array (summarize_items 20 (depth + 1) is) in
        if leb 5 depth then text truncated else inner
    summarize_value depth (object fs) =
        let inner = object (summarize_fields 50 (depth + 1) fs) in
        if leb 5 depth then text truncated else inner
    summarize_value depth (other cs) = text (take 500 cs)

    pub summarize_items : ℕ → ℕ → Items → Items
    summarize_items left depth no_items = no_items
    summarize_items zero depth (item v is) = no_items
    summarize_items (suc left) depth (item v is) =
        item (summarize_value depth v) (summarize_items left depth is)

    pub summarize_fields : ℕ → ℕ → Fields → Fields
    summarize_fields left depth no_fields = no_fields
    summarize_fields zero depth (field k v fs) = no_fields
    summarize_fields (suc left) depth (field k v fs) =
        let value = summarize_value depth v in
        field k (if is_sensitive k then text redacted else value) (summarize_fields left depth fs)

-- `json.dumps({"_summary": _TRUNCATED})`
abbrev pub marker : Value
marker = object (field summary_key (text truncated) no_fields)

unfoldable pub same_text : Characters → Characters → Bool
same_text [] [] = true
same_text [] (d ∷ ds) = false
same_text (c ∷ cs) [] = false
same_text (c ∷ cs) (d ∷ ds) = (c == d) && same_text cs ds

-- `bounded[key] = item`
unfoldable pub set_field : Characters → Value → Fields → Fields
unfolding same_text
set_field key value no_fields = field key value no_fields
set_field key value (field k v fs) =
    let rest = set_field key value fs in
    if same_text k key then field k value fs else field k v rest

module _ (is_sensitive : Characters → Bool) (size : Value → ℕ) where
  -- `serialize_summary`, as the value whose JSON it returns.
  unfoldable pub serialize_summary : Value → Value
  serialize_summary summary = if leb (size summary) 4096 then summary else marker

  -- The loop of `summarize`.
  unfoldable pub fill : Fields → Fields → Fields
  unfolding set_field
  fill bounded no_fields = bounded
  fill bounded (field key v fs) =
      let candidate = set_field key v bounded in
      let rest = fill candidate fs in if ltb 4050 (size (object candidate)) then bounded else rest

  abbrev pub reduced : Value → Value
  reduced (object fs) = object (set_field summary_key (text truncated) (fill no_fields fs))
  reduced _ = marker

  unfoldable pub summarize : Value → Value
  unfolding serialize_summary summarize_value fill
  summarize value =
      let summary = summarize_value is_sensitive 0 value in
      if leb (size (serialize_summary summary)) 4096 then summary else reduced summary
