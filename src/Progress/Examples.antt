-- ===== src/Progress/Examples.antt =====
-- The progress buffer at concrete events.
use creatidy_kernel.Base.{
  String_discrete, is_space, is_blank, ℕ, String, ◌≡◌, refl, true, false, some, [], ◌∷◌, ℕ_discrete,
}
use creatidy_kernel.Progress.{
  is_hex, text_length, progress_position, progress_event, new_buffer, push, append, first_of,
  position_after, has_lost, batch_of, read, ProgressPosition, ProgressEvent, ProgressBatch,
  ProgressBuffer,
}
use creatidy_kernel.Progress.Buffer.{new_buffer-IsValid, append-IsValid, IsValid, Appended}
use creatidy_kernel.Progress.Reading.{read-Delivered, Delivered}

abbrev producer_id : String
producer_id = "0123456789abcdef0123456789abcdef"

abbrev at_position : ℕ → ProgressPosition
at_position n = record { producer = producer_id; scope = "program"; sequence = n }

abbrev fresh : ProgressBuffer
fresh = record { position = at_position 0; events = []; capacity = 1 }

abbrev event_of : ℕ → ProgressEvent
event_of n = record { position = at_position n; kind = "snapshot-changed"; revision = n }

abbrev after_one : ProgressBuffer
after_one = record { position = at_position 1; events = event_of 1 ∷ []; capacity = 1 }

abbrev after_two : ProgressBuffer
after_two = record { position = at_position 2; events = event_of 2 ∷ []; capacity = 1 }

fresh_made : new_buffer producer_id "program" 1 ≡ some fresh
unfolding new_buffer progress_position is_hex text_length is_blank is_space ℕ_discrete
fresh_made = refl

one_appended : append fresh "snapshot-changed" 1 ≡ some (event_of 1, after_one)
unfolding append progress_position progress_event push is_hex text_length is_blank is_space
    ℕ_discrete String_discrete
one_appended = refl

-- A full buffer loses its oldest event.
two_appended : append after_one "snapshot-changed" 2 ≡ some (event_of 2, after_two)
unfolding append progress_position progress_event push is_hex text_length is_blank is_space
    ℕ_discrete String_discrete
two_appended = refl

abbrev batch_two : ProgressBatch
batch_two = record { events = event_of 2 ∷ []; position = at_position 2; gap = false }

two_read : read after_two (at_position 1) 5 ≡ some batch_two
unfolding read has_lost batch_of first_of position_after String_discrete
two_read = refl

-- The reader who has seen nothing is told of the gap.
gap_told :
    read after_two (at_position 0) 5
    ≡ some (record { events = []; position = at_position 2; gap = true })
unfolding read has_lost batch_of first_of position_after String_discrete
gap_told = refl

fresh-IsValid : IsValid fresh
fresh-IsValid = new_buffer-IsValid producer_id "program" 1 fresh_made

one-IsValid : IsValid after_one
one-IsValid = (append-IsValid fresh "snapshot-changed" 1 fresh-IsValid one_appended).0

two-IsValid : IsValid after_two
two-IsValid = (append-IsValid after_one "snapshot-changed" 2 one-IsValid two_appended).0

-- A buffer with room for one more event.
abbrev roomy : ProgressBuffer
roomy = record { position = at_position 0; events = []; capacity = 2 }

abbrev roomy_one : ProgressBuffer
roomy_one = record { position = at_position 1; events = event_of 1 ∷ []; capacity = 2 }

abbrev roomy_two : ProgressBuffer
roomy_two = record { position = at_position 2; events = event_of 1 ∷ event_of 2 ∷ []; capacity = 2 }

roomy_made : new_buffer producer_id "program" 2 ≡ some roomy
unfolding new_buffer progress_position is_hex text_length is_blank is_space ℕ_discrete
roomy_made = refl

roomy_once : append roomy "snapshot-changed" 1 ≡ some (event_of 1, roomy_one)
unfolding append progress_position progress_event push is_hex text_length is_blank is_space
    ℕ_discrete String_discrete
roomy_once = refl

roomy_twice : append roomy_one "snapshot-changed" 2 ≡ some (event_of 2, roomy_two)
unfolding append progress_position progress_event push is_hex text_length is_blank is_space
    ℕ_discrete String_discrete
roomy_twice = refl

roomy_one-IsValid : IsValid roomy_one
roomy_one-IsValid =
    (append-IsValid roomy "snapshot-changed" 1
      (new_buffer-IsValid producer_id "program" 2 roomy_made) roomy_once).0

append-IsValid_example : IsValid roomy_two × Appended roomy_one (event_of 2) roomy_two
append-IsValid_example = append-IsValid roomy_one "snapshot-changed" 2 roomy_one-IsValid roomy_twice

read-Delivered_example : Delivered after_two (at_position 1) 5 batch_two
read-Delivered_example = read-Delivered after_two (at_position 1) 5 two-IsValid two_read refl
