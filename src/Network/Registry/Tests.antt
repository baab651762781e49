-- ===== src/Network/Registry/Tests.antt =====
-- Two nodes, one of which leaves and one of which comes back.
use project_stark.Prelude.{ℕ, none, some, List, [], ◌∷◌}
use project_stark.Network.Registry.{Call, registers, unregisters}

abbrev calls : List (Call ℕ ℕ ℕ)
calls =
    registers 1 7 none 0
    ∷ registers 2 8 (some 5) 0
    ∷ unregisters 7
    ∷ unregisters 8
    ∷ registers 3 8 none 1
    ∷ []
