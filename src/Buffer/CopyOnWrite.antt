-- ===== src/Buffer/CopyOnWrite.antt =====
-- Messages are values: what is written to one is not seen in its copies.
use gce.Prelude.{ℕ, ◌≡◌, List, Option, none, some}
use gce.Buffer.{Store, Buffer}
use gce.Buffer.Holds.{Holds, Safe}

-- A copy has the bytes, and so has the message; they are counted where they share them.
Copies : ℕ → List ℕ → ℕ → Buffer → Option (Buffer × Store) → Type 0
Copies lim bs addr m out =
    (c : Buffer) × (g : Store) × (out ≡ some (c, g))
    × Holds lim bs m.place m.capacity m.write_size g
    × Holds lim bs c.place c.capacity c.write_size g
    × Safe m.place c.place g
    × (g addr ≡ none)
