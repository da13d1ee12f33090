-- ===== src/Buffers/Tests.antt =====
-- A list of two buffers, the first of which has lost a byte.
use csed353_computer_network.Prelude.{◌≡◌, refl, some, [], ◌∷◌, arith, drop}
use csed353_computer_network.Buffers.{
  Buffer, BufferList, from_string, list_of, append, concatenate, list_size, list_remove_prefix,
}
use csed353_computer_network.Buffers.Views.{list_remove_prefix-concatenate}

abbrev shortened : Buffer
shortened = record { storage = some (1 ∷ 2 ∷ 3 ∷ []); starting_offset = 1 }

abbrev two_buffers : BufferList
two_buffers = append (list_of shortened) (list_of (from_string (4 ∷ 5 ∷ [])))

concatenate-run : concatenate two_buffers ≡ 2 ∷ 3 ∷ 4 ∷ 5 ∷ []
unfolding concatenate
concatenate-run = refl

list_remove_prefix-concatenate_example :
    (rest : BufferList) × (list_remove_prefix two_buffers 3 ≡ some rest)
    × (concatenate rest ≡ drop 3 (concatenate two_buffers))
unfolding list_size
list_remove_prefix-concatenate_example = list_remove_prefix-concatenate two_buffers 3 (omega arith)
