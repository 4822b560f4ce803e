-- ===== src/WalWorker/Retries.antt =====
-- The waits between the attempts of one entry.
use shoka.Prelude.{ℕ, ◌≤◌, List, length, All}
use shoka.Wal.Wire.{Codec}
use shoka.Wal.Log.{Log}
use shoka.WalWorker.{Config, Outside}

module _ (c : Codec) (cfg : Config) (out : Outside) (seq : ℕ) where
  -- At most so many waits, none longer than the bound.
  abbrev pub AreShort : ℕ → ℕ → List ℕ → Type 0
  AreShort bound n waits = (length waits ≤ n) × All (λ w. w ≤ bound) waits
