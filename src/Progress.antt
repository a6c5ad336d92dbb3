-- ===== src/Progress.antt =====
-- The bounded progress buffer of `core/served.py`: positions, events, `append` and `read`. Every
-- refusal is the one exception `ProgressRefused`, which is `none` here.
pub mod Buffer
pub mod Reading
mod Examples
use Prim.Native.Char.{code}
use creatidy_kernel.Base.{
  is_blank, ℕ, zero, suc, ◌+◌, String, Bool, true, false, ◌&&◌, ◌||◌, not, Option, none, some, List,
  [], ◌∷◌, ◌++◌, if◌then◌else◌, ltb, leb, ◌==◌, ◌!=◌, nat_eq, string_eq, names_eq, optional_eq,
  ne_of_eq, length, any, select, contains,
}
use creatidy_kernel.Domain.Checks.{json_eq}
use creatidy_kernel.Domain.Values.{
  program_status_eq, work_unit_status_eq, attempt_status_eq, domain_action_eq, policy_reference_eq,
  bindings_eq, subjects_eq,
}
use creatidy_kernel.Domain.Spec.{program_spec_eq}
use creatidy_kernel.Domain.Facts.{states_eq}

-- The pattern `[0-9a-f]{32}` of a producer.
unfoldable pub is_hex : String → Bool
is_hex String.[] = true
is_hex (String.◌∷◌ c s) =
    let n = code c in ((leb 48 n && leb n 57) || (leb 97 n && leb n 102)) && is_hex s

unfoldable pub text_length : String → ℕ
text_length String.[] = 0
text_length (String.◌∷◌ c s) = text_length s + 1

pub record ProgressPosition : Type 0 where
  pub producer : String
  pub scope : String
  pub sequence : ℕ

-- The constructor, which refuses a sequence of more than 63 bits.
unfoldable pub progress_position : String → String → ℕ → Option ProgressPosition
progress_position producer scope sequence =
    if not (is_hex producer && text_length producer == 32)
      || is_blank scope
      || ltb 9223372036854775807 sequence
    then none
    else some (record { producer = producer; scope = scope; sequence = sequence })

pub record ProgressEvent : Type 0 where
  pub position : ProgressPosition
  pub kind : String
  pub revision : ℕ

abbrev kinds : List String
kinds = "snapshot-changed" ∷ "decision-required" ∷ "resync-required" ∷ []

unfoldable pub progress_event : ProgressPosition → String → ℕ → Option ProgressEvent
progress_event position kind revision =
    if ltb position.sequence 1 || not (contains kinds kind)
    then none
    else some (record { position = position; kind = kind; revision = revision })

pub record ProgressBatch : Type 0 where
  pub events : List ProgressEvent
  pub position : ProgressPosition
  pub gap : Bool

-- The state of a buffer; `capacity` is the `maxlen` of its deque.
pub record ProgressBuffer : Type 0 where
  pub position : ProgressPosition
  pub events : List ProgressEvent
  pub capacity : ℕ

unfoldable pub new_buffer : String → String → ℕ → Option ProgressBuffer
new_buffer producer scope capacity =
    if not (leb 1 capacity && leb capacity 4096)
    then none
    else (elim (progress_position producer scope 0) [
      | none ↦ none
      | some position ↦ some (record { position = position; events = []; capacity = capacity })
    ])

-- `deque.append`: a full deque loses its first element.
unfoldable pub push : ℕ → List ProgressEvent → ProgressEvent → List ProgressEvent
push capacity [] event = event ∷ []
push capacity (oldest ∷ events) event =
    if ltb (length (oldest ∷ events)) capacity
    then (oldest ∷ events) ++ event ∷ []
    else events ++ event ∷ []

unfoldable pub append : ProgressBuffer → String → ℕ → Option (ProgressEvent × ProgressBuffer)
append b kind revision =
    elim (progress_position b.position.producer b.position.scope (b.position.sequence + 1)) [
      | none ↦ none
      | some position ↦ elim (progress_event position kind revision) [
        | none ↦ none
        | some event ↦
            some (event, record b { position = position; events = push b.capacity b.events event })
      ]
    ]

-- `events[:limit]`
unfoldable pub first_of : ℕ → List ProgressEvent → List ProgressEvent
first_of zero events = []
first_of (suc n) [] = []
first_of (suc n) (event ∷ events) = event ∷ first_of n events

abbrev pub is_resync : ProgressEvent → Bool
is_resync event = event.kind == "resync-required"

-- `events[-1].position if events else after`
unfoldable pub position_after : List ProgressEvent → ProgressPosition → ProgressPosition
position_after [] after = after
position_after (event ∷ events) after = position_after events event.position

-- Whether the deque has lost an event that comes after the position. Sequences of events are
-- positive, so one is added on the left instead of taken on the right.
unfoldable pub has_lost : List ProgressEvent → ProgressPosition → Bool
has_lost [] after = false
has_lost (oldest ∷ events) after = ltb (after.sequence + 1) oldest.position.sequence

-- The last part of `read`, for the events that are selected.
unfoldable pub batch_of : ProgressPosition → ProgressPosition → List ProgressEvent → ProgressBatch
batch_of current after events =
    if any is_resync events
    then record { events = select is_resync events; position = current; gap = true }
    else record { events = events; position = position_after events after; gap = false }

unfoldable pub read : ProgressBuffer → ProgressPosition → ℕ → Option ProgressBatch
read b after limit =
    if not (leb 1 limit && leb limit 4096)
    then none
    else some (
        if after.producer != b.position.producer
          || after.scope != b.position.scope
          || ltb b.position.sequence after.sequence
          || has_lost b.events after
        then record { events = []; position = b.position; gap = true }
        else batch_of b.position after
            (first_of limit (select (λ e. ltb after.sequence e.position.sequence) b.events)))
