-- ===== src/Buffer/Tests.antt =====
-- A message with two bytes in a large buffer at 5, of which three more are written past its copy.
use gce.Prelude.{[], ◌∷◌, none, some, if◌then◌else◌, ◌==◌}
use gce.Buffer.{Cell, Store, large, Buffer}
use gce.Buffer.Holds.{Holds}

abbrev parent_cell : Cell
parent_cell = record { count = 1; size = 4; bytes = 1 ∷ 2 ∷ [] }

abbrev kept : Store
kept = λ a. if a == 5 then some parent_cell else none

abbrev parent : Buffer
parent = record { place = large 5; capacity = 4; write_size = 2 }
