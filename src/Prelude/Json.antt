-- ===== src/Prelude/Json.antt =====
-- The module `json`, and a file that one object writes: a text of the type `B` that stands for a
-- document of the type `D`.
use mathlib.Core.Path.{◌≡◌}
use mathlib.Core.Option.{Option, some}

-- `json.dump` and `json.load`; a text that is no document of the type is `none`.
pub record Json (D B : Type 0) : Type 0 where
  pub dump : D → B
  pub load : B → Option D

-- A document is read as it was written.
pub record IsFaithful {D B : Type 0} (json : Json D B) : Type 0 where
  pub load_dump : (d : D) → json.load (json.dump d) ≡ some d
