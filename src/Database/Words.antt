-- ===== src/Database/Words.antt =====
-- Identifiers, texts and points in time, as numbers.
use Prim.Native.Nat.{ℕ}

abbrev pub Text : Type 0
Text = ℕ

abbrev pub Time : Type 0
Time = ℕ
