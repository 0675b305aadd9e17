-- ===== src/Serde/SourceBuffer/Examples.antt =====
-- The theorems on the source buffer at concrete inputs, and tests.
use mx_sdk_erdgo.Prelude.{◌≡◌, refl, true, false, [], ◌∷◌, arith}
use mx_sdk_erdgo.Prelude.Exec.{ok, panic}
use mx_sdk_erdgo.Serde.SourceBuffer.{
  SourceBuffer, new_source_buffer, next_bytes, next_byte, next_bool, back_up,
}
use mx_sdk_erdgo.Serde.SourceBuffer.Stream.{IsInBounds, rest, next_bytes_stream}

-- One byte of these five has been read.
abbrev five : SourceBuffer
five = record { s = 9 ∷ 1 ∷ 2 ∷ 3 ∷ 4 ∷ []; off = 1 }

-- Behind one byte, the string 7 8 with its length, and a 5.
abbrev text : SourceBuffer
text = record { s = 9 ∷ 0 ∷ 0 ∷ 0 ∷ 2 ∷ 7 ∷ 8 ∷ 5 ∷ []; off = 1 }

abbrev minus_two : SourceBuffer
minus_two = record { s = 255 ∷ 255 ∷ 255 ∷ 255 ∷ 255 ∷ 255 ∷ 255 ∷ 254 ∷ 5 ∷ []; off = 0 }

next_bytes_stream_example :
    ((next_bytes 2 five).0 ≡ ok (1 ∷ 2 ∷ [], false))
    × (rest (next_bytes 2 five).1 ≡ 3 ∷ 4 ∷ [])
    × IsInBounds (next_bytes 2 five).1
next_bytes_stream_example = next_bytes_stream 2 five (omega arith, omega arith) (omega arith)

-- Backing up beyond the start wraps, and the next read panics.
back_up_far : (next_bytes 1 (back_up 2 five)).0 ≡ panic
unfolding next_bytes back_up
back_up_far = refl

-- A byte other than 0 and 1 is no Boolean.
bool_two : (next_bool (new_source_buffer (2 ∷ []))).0 ≡ ok (false, true)
unfolding next_bool new_source_buffer next_byte
bool_two = refl
