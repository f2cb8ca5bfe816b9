-- ===== src/Platform.antt =====
-- What the program takes from its surroundings and the sources do not define: floating-point
-- arithmetic, the clock, std::hash, failures of the SQLite library, and whether a write to a
-- client's socket goes through. Readings and calls are numbered, so that each may differ.
use protokol_javni_prevoz.Prelude.{ℕ, Bool, Option}
use protokol_javni_prevoz.Prelude.Int.{ℤ}
use protokol_javni_prevoz.Text.{Str}

pub record Platform : Type 1 where
  -- double, with the literals 0.0, 0.10 and 1.0, the product with an `int`, its text, and which of
  -- its values are no numbers.
  pub Real : Type 0
  pub real_zero : Real
  pub real_tenth : Real
  pub real_one : Real
  pub real_times : Real → ℤ → Real
  pub real_to_string : Real → Str
  pub is_nan : Real → Bool
  -- std::stod; `none` stands for an exception.
  pub stod : Str → Option Real
  -- std::hash<std::string>.
  pub hash : Str → ℕ
  -- The code of the n-th call of SQLite, if it fails (busy, disk full, I/O error), and its message.
  pub fault : ℕ → Option ℕ
  pub errmsg : ℕ → Str
  -- The seconds of the n-th reading of the clock, and the text of local time.
  pub clock : ℕ → ℕ
  pub local_time : ℕ → Str
  -- Whether the n-th write, to the given client, succeeds.
  pub delivers : ℕ → ℕ → Bool
