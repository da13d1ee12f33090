-- ===== src/Buffers.antt =====
-- libsponge/util/buffer.hh and buffer.cc: strings that bytes can be taken off the front of. A string
-- is the list of its bytes; that the copies of a `Buffer` share their storage shows only in the
-- memory used, as nothing writes to it. `none` stands for an exception.
pub mod Views
mod Tests
use csed353_computer_network.Prelude.{
  ℕ, zero, suc, ◌+◌, ◌-◌, Bool, true, false, ◌&&◌, Option, none, some, List, [], ◌∷◌, ◌++◌, map,
  ltb, ◌==◌, if◌then◌else◌, length, drop, get_elem?,
}

pub record Buffer : Type 0 where
  pub storage : Option (List ℕ)
  pub starting_offset : ℕ

abbrev pub empty_buffer : Buffer
empty_buffer = record { storage = none; starting_offset = 0 }

abbrev pub from_string : List ℕ → Buffer
from_string s = record { storage = some s; starting_offset = 0 }

abbrev pub str_of : Option (List ℕ) → ℕ → List ℕ
str_of none offset = []
str_of (some s) offset = drop offset s

abbrev pub str : Buffer → List ℕ
str b = str_of b.storage b.starting_offset

abbrev pub at : Buffer → ℕ → Option ℕ
at b n = get_elem? (str b) n

abbrev pub size : Buffer → ℕ
size b = length (str b)

-- The storage is let go when nothing of it is left.
abbrev pub release : Option (List ℕ) → ℕ → Option (List ℕ)
release none offset = none
release (some s) offset = if offset == length s then none else some s

unfoldable pub remove_prefix : Buffer → ℕ → Option Buffer
remove_prefix b n =
    if ltb (size b) n
    then none
    else some (record {
      storage = release b.storage (b.starting_offset + n);
      starting_offset = b.starting_offset + n;
    })

-- A `BufferList` is the queue of its buffers.
abbrev pub BufferList : Type 0
BufferList = List Buffer

abbrev pub list_of : Buffer → BufferList
list_of b = b ∷ []

-- The loop of `append`.
abbrev pub append : BufferList → BufferList → BufferList
append buffers [] = buffers
append buffers (buf ∷ other) = append (buffers ++ (buf ∷ [])) other

unfoldable pub to_buffer : BufferList → Option Buffer
to_buffer [] = some empty_buffer
to_buffer (b ∷ []) = some b
to_buffer (b ∷ b' ∷ buffers) = none

-- The loop of `concatenate`.
abbrev pub concatenate_onto : List ℕ → BufferList → List ℕ
concatenate_onto ret [] = ret
concatenate_onto ret (buf ∷ buffers) = concatenate_onto (ret ++ str buf) buffers

unfoldable pub concatenate : BufferList → List ℕ
concatenate buffers = concatenate_onto [] buffers

-- The loop of `BufferList::size`.
abbrev pub size_onto : ℕ → BufferList → ℕ
size_onto ret [] = ret
size_onto ret (buf ∷ buffers) = size_onto (ret + size buf) buffers

unfoldable pub list_size : BufferList → ℕ
list_size buffers = size_onto 0 buffers

-- What the loop of `BufferList::remove_prefix` does with the first buffer, if fewer bytes are to be
-- removed than it has.
abbrev pub shorten : Option Buffer → BufferList → Option BufferList
shorten none buffers = none
shorten (some b) buffers = some (b ∷ buffers)

unfoldable pub list_remove_prefix : BufferList → ℕ → Option BufferList
list_remove_prefix [] n = if ltb 0 n then none else some []
list_remove_prefix (b ∷ buffers) n =
    let later = list_remove_prefix buffers (n - size b) in
    if ltb 0 n
    then (if ltb n (size b) then shorten (remove_prefix b n) buffers else later)
    else some (b ∷ buffers)

-- A `BufferViewList` is the queue of its views, and a view the list of its bytes.
abbrev pub BufferViewList : Type 0
BufferViewList = List (List ℕ)

abbrev pub views_of : BufferList → BufferViewList
views_of buffers = map str buffers

unfoldable pub views_remove_prefix : BufferViewList → ℕ → Option BufferViewList
views_remove_prefix [] n = if ltb 0 n then none else some []
views_remove_prefix (view ∷ views) n =
    let later = views_remove_prefix views (n - length view) in
    if ltb 0 n
    then (if ltb n (length view) then some (drop n view ∷ views) else later)
    else some (view ∷ views)

-- The loop of `BufferViewList::size`.
abbrev pub views_size_onto : ℕ → BufferViewList → ℕ
views_size_onto ret [] = ret
views_size_onto ret (view ∷ views) = views_size_onto (ret + length view) views

unfoldable pub views_size : BufferViewList → ℕ
views_size views = views_size_onto 0 views
