-- ===== src/Framing/Tests.antt =====
-- Runs of the accumulator, and its theorems at concrete inputs.
use iocp_engine.Base.{ℕ, ◌≡◌, refl, ◌⊎◌, true, false, some, List, [], ◌∷◌, ◌++◌, arith, All, IsByte}
use iocp_engine.Framing.{
  Accumulator, message_ready, invalid_length, new, append, append_compacted, compact_if_useful,
  buffered_bytes, read_length, next, encode_length,
}
use iocp_engine.Framing.Stream.{frame, decode}
use iocp_engine.Framing.Invariant.{IsValid, Fits, Extends, pending, append-Extends}
use iocp_engine.Framing.Refine.{Advances, next-decode}
use iocp_engine.Framing.Drain.{receive_all, receive_all-frames}
use iocp_engine.Framing.Encode.{decode-encode_length}

-- A frame of two bytes, and the start of the next one, behind three decoded bytes.
abbrev half_read : Accumulator
half_read = record {
  max_message_bytes = 16;
  max_buffered_bytes = 64;
  buffer = 1 ∷ 2 ∷ 3 ∷ 0 ∷ 0 ∷ 0 ∷ 2 ∷ 7 ∷ 8 ∷ 0 ∷ 0 ∷ [];
  cursor = 3;
  limit_exceeded = false;
}

next-half_read : (next half_read).1 ≡ 7 ∷ 8 ∷ []
unfolding next buffered_bytes read_length
next-half_read = refl

next_zero_length : (next (append (new 16 64) (0 ∷ 0 ∷ 0 ∷ 0 ∷ [])).1).0 ≡ invalid_length
unfolding next new append append_compacted compact_if_useful buffered_bytes read_length
next_zero_length = refl

encode_length_of_258 : encode_length 258 ≡ some (0 ∷ 0 ∷ 1 ∷ 2 ∷ [])
unfolding encode_length
encode_length_of_258 = refl

half_read-IsValid : IsValid half_read
half_read-IsValid = omega arith

append-Extends_example :
    let (done, b) = append half_read (0 ∷ 9 ∷ []) in
    (Fits half_read (0 ∷ 9 ∷ [])
      × (done ≡ true)
      × Extends half_read (0 ∷ 9 ∷ []) b
      × (b.limit_exceeded ≡ false))
    ⊎ (¬ Fits half_read (0 ∷ 9 ∷ [])
        × (done ≡ false)
        × Extends half_read [] b
        × (b.limit_exceeded ≡ true))
append-Extends_example = append-Extends half_read (0 ∷ 9 ∷ []) half_read-IsValid (omega arith)

next-decode_example :
    let (status, payload, b) = next half_read in
    ((status, payload, pending b) ≡ decode 16 (pending half_read)) × Advances half_read b
next-decode_example = next-decode half_read half_read-IsValid refl

decode-encode_length_example :
    (h : List ℕ) × (encode_length 2 ≡ some h)
    × All IsByte h
    × (decode 16 ((h ++ (7 ∷ 8 ∷ [])) ++ (5 ∷ [])) ≡ (message_ready, 7 ∷ 8 ∷ [], 5 ∷ []))
decode-encode_length_example = decode-encode_length 16 (7 ∷ 8 ∷ []) (5 ∷ []) (omega arith)

-- Two messages, cut in the middle of both frames.
abbrev cut_frames : List (List ℕ)
cut_frames = (0 ∷ 0 ∷ 0 ∷ []) ∷ (2 ∷ 7 ∷ 8 ∷ 0 ∷ 0 ∷ []) ∷ (0 ∷ 1 ∷ 9 ∷ []) ∷ []

receive_all-frames_example :
    let (messages, a) = receive_all (new 16 64) cut_frames in
    (messages ≡ (7 ∷ 8 ∷ []) ∷ (9 ∷ []) ∷ []) × (pending a ≡ [])
unfolding frame
receive_all-frames_example =
    receive_all-frames 16 64 8 ((7 ∷ 8 ∷ []) ∷ (9 ∷ []) ∷ []) cut_frames (omega arith) (omega arith)
      (omega arith) (omega arith) refl
