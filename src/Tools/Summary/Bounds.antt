-- ===== src/Tools/Summary/Bounds.antt =====
-- How large a summary can be.
use intelligent_agent_platfo.Base.{
  ℕ, zero, suc, ◌+◌, ◌-◌, ◌≤◌, ◌<◌, ◌≡◌, refl, inl, inr, Bool, true, [], ◌∷◌, ◌++◌, arith, length,
  leb, Bool-cases,
}
use intelligent_agent_platfo.Tools.Summary.{
  Characters, Value, Items, Fields, null, boolean, number, text, array, object, other, no_items,
  item, no_fields, field, take, redacted, truncated, shorten, summarize_value, summarize_items,
  summarize_fields, marker, summarize,
}
use intelligent_agent_platfo.Tools.Summary.Sizes.{summarize-eq-summarize_value}

abbrev pub count_items : Items → ℕ
count_items no_items = 0
count_items (item v is) = suc (count_items is)

abbrev pub count_fields : Fields → ℕ
count_fields no_fields = 0
count_fields (field k v fs) = suc (count_fields fs)

module _ (is_sensitive : Characters → Bool) where
  -- At most so many levels of containers, of at most 20 items or 50 fields; texts of at most 512
  -- characters, no other object, and below a sensitive key nothing but the mark for it.
  unfoldable mutual
    pub Fits : ℕ → Value → Type 0
    Fits levels null = Unit
    Fits levels (boolean b) = Unit
    Fits levels (number n) = Unit
    Fits levels (text cs) = length cs ≤ 512
    Fits levels (array is) = (0 < levels) × (count_items is ≤ 20) × ItemsFit (levels - 1) is
    Fits levels (object fs) = (0 < levels) × (count_fields fs ≤ 50) × FieldsFit (levels - 1) fs
    Fits levels (other cs) = ⊥

    pub ItemsFit : ℕ → Items → Type 0
    ItemsFit levels no_items = Unit
    ItemsFit levels (item v is) = Fits levels v × ItemsFit levels is

    pub FieldsFit : ℕ → Fields → Type 0
    FieldsFit levels no_fields = Unit
    FieldsFit levels (field k v fs) =
        ((is_sensitive k ≡ true) → v ≡ text redacted) × Fits levels v × FieldsFit levels fs

  length-take : (n : ℕ) (cs : Characters) → length (take n cs) ≤ n
  unfolding take
  length-take zero cs = omega arith
  length-take (suc n) [] = omega arith
  length-take (suc n) (c ∷ cs) = omega (arith, length-take n cs)

  length-append_short : (cs ds : Characters) → length (cs ++ ds) ≡ length cs + length ds
  length-append_short [] ds = omega arith
  length-append_short (c ∷ cs) ds = omega (arith, length-append_short cs ds)

  length-shorten : (cs : Characters) → length (shorten cs) ≤ 512
  length-shorten cs = elim (Bool-cases (leb (length cs) 512)) [
    | inl short ↦ rw short (ground arith)
    | inr long ↦
        rw long (omega (arith, length-append_short (take 500 cs) truncated, length-take 500 cs))
  ]

  count-summarize_items :
      (left depth : ℕ) (is : Items)
      → count_items (summarize_items is_sensitive left depth is) ≤ left
  unfolding summarize_value
  count-summarize_items left depth no_items = omega arith
  count-summarize_items zero depth (item v is) = omega arith
  count-summarize_items (suc left) depth (item v is) =
      omega (arith, count-summarize_items left depth is)

  count-summarize_fields :
      (left depth : ℕ) (fs : Fields)
      → count_fields (summarize_fields is_sensitive left depth fs) ≤ left
  unfolding summarize_value
  count-summarize_fields left depth no_fields = omega arith
  count-summarize_fields zero depth (field k v fs) = omega arith
  count-summarize_fields (suc left) depth (field k v fs) =
      omega (arith, count-summarize_fields left depth fs)

  mutual
    unfolding summarize_value Fits

    summarize_value-Fits :
        (depth : ℕ) (value : Value) → Fits (5 - depth) (summarize_value is_sensitive depth value)
    summarize_value-Fits depth null = tt
    summarize_value-Fits depth (boolean b) = tt
    summarize_value-Fits depth (number n) = tt
    summarize_value-Fits depth (text cs) = length-shorten cs
    summarize_value-Fits depth (other cs) = omega (arith, length-take 500 cs)
    summarize_value-Fits depth (array is) = elim (Bool-cases (leb 5 depth)) [
      | inl deep ↦ rw deep (omega arith)
      | inr shallow ↦
          rw shallow
            (ground arith, count-summarize_items 20 (depth + 1) is, summarize_items-Fit 20 depth is)
    ]
    summarize_value-Fits depth (object fs) = elim (Bool-cases (leb 5 depth)) [
      | inl deep ↦ rw deep (omega arith)
      | inr shallow ↦
          rw shallow (
            ground arith,
            count-summarize_fields 50 (depth + 1) fs,
            summarize_fields-Fit 50 depth fs,
          )
    ]

    summarize_items-Fit :
        (left depth : ℕ) (is : Items)
        → ItemsFit (5 - depth - 1) (summarize_items is_sensitive left (depth + 1) is)
    summarize_items-Fit left depth no_items = tt
    summarize_items-Fit zero depth (item v is) = tt
    summarize_items-Fit (suc left) depth (item v is) =
        let level : 5 - depth - 1 ≡ 5 - (depth + 1) = omega arith in
        (rw level (summarize_value-Fits (depth + 1) v), summarize_items-Fit left depth is)

    summarize_fields-Fit :
        (left depth : ℕ) (fs : Fields)
        → FieldsFit (5 - depth - 1) (summarize_fields is_sensitive left (depth + 1) fs)
    summarize_fields-Fit left depth no_fields = tt
    summarize_fields-Fit zero depth (field k v fs) = tt
    summarize_fields-Fit (suc left) depth (field k v fs) =
        let level : 5 - depth - 1 ≡ 5 - (depth + 1) = omega arith in
        elim (Bool-cases (is_sensitive k)) [
          | inl secret ↦ rw secret ((λ h. refl), omega arith, summarize_fields-Fit left depth fs)
          | inr plain ↦
              rw (plain, level)
                (
                  (λ h. cc),
                  summarize_value-Fits (depth + 1) v,
                  rw (← level) (summarize_fields-Fit left depth fs),
                )
        ]

  -- If the marker is within the limit of bytes: a summary has at most five levels of
  -- containers, with at most 20 items or 50 fields each, and texts of at most 512 characters;
  -- below a key that the pattern for secrets matches, at any level, there is only the mark
  -- "[REDACTED]".
  pub summarize-Fits :
      (size : Value → ℕ) (value : Value)
      → size marker ≤ 4096
      → Fits 5 (summarize is_sensitive size value)
  summarize-Fits size value short =
      rw (summarize-eq-summarize_value is_sensitive size value short) (summarize_value-Fits 0 value)
