-- ===== src/Pkt/Safety.antt =====
-- The frame decoders of lib/ngtcp2_pkt.c on arbitrary payloads.
pub mod Step
pub mod Control
pub mod Data
pub mod AckBlocks
use ngtcp.Base.{
  if◌then◌else◌, length, frame_format, Result, ok, err, fault, ◌>>=◌, Ensures, ℕ, ◌^◌, ◌≤◌, ◌<◌,
  ◌≡◌, ◌↔◌, Bool, true, false, Option, none, some, List, [], ◌∷◌, arith,
}
use ngtcp.Conv.Read.{IsBytes}
use ngtcp.Pkt.Frame.{
  Frame, stream, ack, padding, rst_stream, connection_close, application_close, max_data,
  max_stream_data, max_stream_id, ping, blocked, stream_blocked, stream_id_blocked,
  new_connection_id, stop_sending, pong,
}
use ngtcp.Pkt.Decode.{has_mask, as_frame, decode_typed_frame, decode_tagged_frame, decode_frame}
use Step.{InPayload}
use Control.{
  decode_padding_frame_safe, decode_rst_stream_frame_safe, decode_connection_close_frame_safe,
  decode_application_close_frame_safe, decode_max_data_frame_safe,
  decode_max_stream_data_frame_safe, decode_max_stream_id_frame_safe, decode_ping_frame_safe,
  decode_blocked_frame_safe, decode_stream_blocked_frame_safe, decode_stream_id_blocked_frame_safe,
  decode_new_connection_id_frame_safe, decode_stop_sending_frame_safe, decode_pong_frame_safe,
}
use Data.{decode_stream_frame_safe}
use AckBlocks.{decode_ack_frame_safe}

-- `InPayload`, shut so that the goals below keep their shape.
Safe {ℓ} : {A : Type ℓ} → List ℕ → Result (A × ℕ) → Type 0
Safe payload r = InPayload payload r

-- Wrapping a frame in the union changes nothing of what was read.
as_frame-Safe {ℓ} :
    {A : Type ℓ} (f : A → Frame) (payload : List ℕ) (r : Result (A × ℕ))
    → InPayload payload r
    → Safe payload (as_frame f r)
unfolding Safe
as_frame-Safe f payload (ok a) h = h
as_frame-Safe f payload (err e) h = tt
as_frame-Safe f payload fault h = h

if_Safe {ℓ} :
    {A : Type ℓ} (payload : List ℕ) (b : Bool) (r s : Result (A × ℕ))
    → Safe payload r
    → Safe payload s
    → Safe payload (if b then r else s)
if_Safe payload true r s h k = h
if_Safe payload false r s h k = k

frame_format-Safe : (payload : List ℕ) → Safe {A = Frame} payload (err frame_format)
unfolding Safe
frame_format-Safe payload = tt

decode_typed_frame-Safe :
    (type : ℕ) (p : List ℕ)
    → IsBytes (type ∷ p)
    → length (type ∷ p) < 2 ^ 63
    → Safe (type ∷ p) (decode_typed_frame type (type ∷ p))
unfolding decode_typed_frame
decode_typed_frame-Safe type p h small =
    let payload = type ∷ p in
    if_Safe payload _ _ _ (as_frame-Safe padding payload _ (decode_padding_frame_safe type p)) (
      if_Safe payload _ _ _
        (as_frame-Safe rst_stream payload _ (decode_rst_stream_frame_safe payload))
        (if_Safe payload _ _ _
          (as_frame-Safe connection_close payload _
            (decode_connection_close_frame_safe payload h small))
          (if_Safe payload _ _ _
            (as_frame-Safe application_close payload _
              (decode_application_close_frame_safe payload h small))
            (if_Safe payload _ _ _
              (as_frame-Safe max_data payload _ (decode_max_data_frame_safe payload))
              (if_Safe payload _ _ _
                (as_frame-Safe max_stream_data payload _
                  (decode_max_stream_data_frame_safe payload))
                (if_Safe payload _ _ _
                  (as_frame-Safe max_stream_id payload _ (decode_max_stream_id_frame_safe payload))
                  (if_Safe payload _ _ _
                    (as_frame-Safe ping payload _ (decode_ping_frame_safe payload))
                    (if_Safe payload _ _ _
                      (as_frame-Safe blocked payload _ (decode_blocked_frame_safe payload))
                      (if_Safe payload _ _ _
                        (as_frame-Safe stream_blocked payload _
                          (decode_stream_blocked_frame_safe payload))
                        (if_Safe payload _ _ _
                          (as_frame-Safe stream_id_blocked payload _
                            (decode_stream_id_blocked_frame_safe payload))
                          (if_Safe payload _ _ _
                            (as_frame-Safe new_connection_id payload _
                              (decode_new_connection_id_frame_safe payload))
                            (if_Safe payload _ _ _
                              (as_frame-Safe stop_sending payload _
                                (decode_stop_sending_frame_safe payload))
                              (if_Safe payload _ _ _
                                (as_frame-Safe pong payload _ (decode_pong_frame_safe payload))
                                (frame_format-Safe payload))))))))))))))

tagged-Safe :
    (type : ℕ) (p : List ℕ)
    → IsBytes (type ∷ p)
    → length (type ∷ p) < 2 ^ 63
    → Safe (type ∷ p) (decode_tagged_frame type p)
unfolding decode_tagged_frame
tagged-Safe type p h small =
    if_Safe (type ∷ p) (has_mask type 0x10) _ _
      (as_frame-Safe stream (type ∷ p) _ (decode_stream_frame_safe (type ∷ p) h small))
      (if_Safe (type ∷ p) (has_mask type 0x0e) _ _
        (as_frame-Safe ack (type ∷ p) _ (decode_ack_frame_safe type p h.1 small))
        (decode_typed_frame-Safe type p h small))

-- An answer that is no fault, that reads nothing behind the payload, and that holds a frame and
-- reads a byte exactly if the payload is not empty.
abbrev pub Decodes : List ℕ → Result (Option Frame × ℕ) → Type 0
Decodes payload r =
    Ensures
      (λ a.
        (a.1 ≤ length payload)
        × ((a.0 ≡ none) ↔ (length payload ≡ 0))
        × ((a.1 ≡ 0) ↔ (length payload ≡ 0)))
      r

-- On every payload of bytes, shorter than 2 ^ 63, `decode_frame` neither reads outside the payload
-- nor fails an assertion. If it returns no error code, the number of bytes read is at most the
-- payload's length; it is 0, and no frame is decoded, exactly if the payload is empty.
pub decode_frame_safe :
    (payload : List ℕ)
    → IsBytes payload
    → length payload < 2 ^ 63
    → Decodes payload (decode_frame payload)
unfolding decode_frame Safe
decode_frame_safe [] h small = ground arith
decode_frame_safe (type ∷ p) h small =
    whole (decode_tagged_frame type p) (tagged-Safe type p h small)
  where
    whole :
        (r : Result (Frame × ℕ))
        → InPayload (type ∷ p) r
        → Decodes (type ∷ p) (r >>= λ a. ok (some a.0, a.1))
    whole (ok (fr, len)) k = ground arith
    whole (err e) k = tt
    whole fault k = k
