-- ===== src/Alloc.antt =====
-- malloc, calloc and realloc of the C library, for papago.c: an allocation either succeeds or
-- returns NULL. The outcomes to come are a list, so that a caller meets every combination of them;
-- when the list is used up every further allocation succeeds.
use libpapago.Prelude.{Bool, true, List, [], ◌∷◌}

abbrev pub Alloc : Type 0
Alloc = List Bool

-- One allocation: did it succeed, and the outcomes left.
abbrev pub malloc : Alloc → Bool × Alloc
malloc [] = (true, [])
malloc (outcome ∷ rest) = (outcome, rest)
