-- ===== src/Parser/Tests.antt =====
-- The number 258 in front of the byte 7, and a buffer of one byte.
use csed353_computer_network.Prelude.{◌≡◌, refl, [], ◌∷◌, ◌++◌}
use csed353_computer_network.Parser.{new, parse_int, parse_u16, unparse_int, unparse_u16}

u16-run : parse_u16 (new (unparse_u16 [] 258 ++ (7 ∷ []))) ≡ (258, new (7 ∷ []))
unfolding parse_int unparse_int
u16-run = refl
