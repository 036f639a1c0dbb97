-- ===== src/Store/Rows.antt =====
-- infrastructure/db/models.py: one record for each table. A UUID and an instant are numbers, an
-- instant counts microseconds. Left out: the relationships, which are joins over the ids, the
-- indexes, and the time stamps that no code under src/ reads.
pub mod Catalog
pub mod Trade
pub mod Imports
use supply_chain_integration.Base.{ℕ, String, List, ◌*◌}

abbrev pub Uuid : Type 0
Uuid = ℕ

abbrev pub Time : Type 0
Time = ℕ

-- `timedelta(seconds=n)`
abbrev pub seconds : ℕ → Time
seconds n = 1000000 * n

abbrev pub Bytes : Type 0
Bytes = List ℕ

-- The column type JSON: the fields of an object, with the text of each value.
abbrev pub Json : Type 0
Json = List (String × String)
