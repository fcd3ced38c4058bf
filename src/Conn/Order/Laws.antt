-- ===== src/Conn/Order/Laws.antt =====
-- The theorem about `conn_recv_stream`: the application gets the stream's data in order.
use ngtcp.Track.Range.{sub_uint64, add_uint64}
use ngtcp.Base.{
  ltb, leb, ◌==◌, if◌then◌else◌, Bool-cases, length, LibError, proto, frame_format, stream_state,
  stream_id_err, final_offset_err, Result, ok, err, guard, ℕ, ◌+◌, ◌^◌, ◌≤◌, ◌<◌, ◌≡◌, refl, ◌≢◌,
  ◌⊎◌, inl, inr, Bool, true, false, not, ◌&&◌, ◌||◌, none, arith,
}
use ngtcp.Pkt.Frame.{Stream}
use ngtcp.Strm.State.{Strm}
use ngtcp.Strm.Rob.Push.{Fails}
use ngtcp.Strm.Rob.Read.{segment}
use ngtcp.Conn.{Call, App, Mem, Conn, max_varint, conn_local_stream, bidi_stream, check_stream_id}
use ngtcp.Conn.Recv.{check_stream, conn_recv_stream}
use ngtcp.Conn.Flow.{found_id}
use ngtcp.Conn.Order.Strms.{IsOrdered}
use ngtcp.Conn.Order.Frames.{Delivers}
use ngtcp.Conn.Order.Handler.{reach, recv_strm_lem}

-- An error or 0.
abbrev pub IsAnswer : Result (Unit {0}) → Type 0
IsAnswer rv = ((e : LibError) × (rv ≡ err e)) ⊎ (rv ≡ ok tt)

guard-IsAnswer : (b : Bool) (e : LibError) → IsAnswer (guard b e)
guard-IsAnswer true e = inr refl
guard-IsAnswer false e = inl (e, refl)

if-IsAnswer :
    (b : Bool) (x y : Result (Unit {0})) → IsAnswer x → IsAnswer y → IsAnswer (if b then x else y)
if-IsAnswer true x y h k = h
if-IsAnswer false x y h k = k

pub check_stream_id-IsAnswer : (conn : Conn) (id : ℕ) → IsAnswer (check_stream_id conn id)
unfolding check_stream_id
check_stream_id-IsAnswer conn id =
    let local = conn_local_stream conn id in
    let bidi : Result (Unit {0}) =
      if local
      then guard (ltb id conn.next_local_stream_id_bidi) stream_state
      else guard (leb id conn.max_remote_stream_id_bidi) stream_id_err in
    let uni : Result (Unit {0}) =
      if local
      then guard (ltb id conn.next_local_stream_id_uni) stream_state
      else guard (leb id conn.max_remote_stream_id_uni) stream_id_err in
    if-IsAnswer (bidi_stream id) bidi uni
      (if-IsAnswer local _ _ (guard-IsAnswer (ltb id conn.next_local_stream_id_bidi) stream_state)
        (guard-IsAnswer (leb id conn.max_remote_stream_id_bidi) stream_id_err))
      (if-IsAnswer local _ _ (guard-IsAnswer (ltb id conn.next_local_stream_id_uni) stream_state)
        (guard-IsAnswer (leb id conn.max_remote_stream_id_uni) stream_id_err))

-- The checks before the stream is looked up refuse the frame, or its data ends below 2 ^ 62.
pub check_stream_lem :
    (conn : Conn) (fr : Stream)
    → length fr.content < 2 ^ 62
    → ((e : LibError) × (check_stream conn fr ≡ err e))
      ⊎ ((check_stream conn fr ≡ ok tt) × (fr.offset + length fr.content ≤ 4611686018427387903))
unfolding check_stream
check_stream_lem conn fr small =
    let end = add_uint64 fr.offset (length fr.content) in
    let most = sub_uint64 max_varint (length fr.content) in
    elim (Bool-cases (not (fr.stream_id == 0 && fr.fin))) [
      | inr a ↦ rw a (inl (proto, refl))
      | inl a ↦ elim (Bool-cases (fr.fin || not (length fr.content == 0))) [
        | inr b ↦ rw (a, b) (inl (frame_format, refl))
        | inl b ↦ elim (check_stream_id-IsAnswer conn fr.stream_id) [
          | inl (e, c) ↦ rw (a, b, c) (inl (e, refl))
          | inr c ↦
              elim (Bool-cases (
                bidi_stream fr.stream_id
                || not (conn_local_stream conn fr.stream_id)
                || (end == 0))) [
                  | inr d ↦ rw (a, b, c, d) (inl (final_offset_err, refl))
                  | inl d ↦ elim (Bool-cases (leb fr.offset most)) [
                    | inr e ↦ rw (a, b, c, d, e) (inl (proto, refl))
                    | inl e ↦ rw (a, b, c, d, e) (inr (refl, ground arith))
                  ]
                ]
        ]
      ]
    ]

-- A STREAM frame for a stream that is there, other than 0, whose data the application has got in
-- order: `f` are the bytes of the stream, and the frame has bytes of it, fewer than 2 ^ 62. The
-- application's functions return 0 and no allocation in the reorder buffer fails. Then the answer is
-- an error, or 0 and the application has got the data of the stream in order again, from the first
-- byte up to `n`, and `n` is not before the end of the frame's data, if that begins where the
-- application was, or before, and the stream is neither stopped nor, for a frame with FIN, ended
-- already. The stream is still there, in order, or it was closed.
pub conn_recv_stream-IsOrdered :
    (f : ℕ → ℕ) (app : App) (mem : Mem) (conn : Conn) (s : Strm) (fr : Stream)
    → ((call : Call) → app call ≡ none)
    → (Fails mem.rob → ⊥)
    → fr.stream_id ≢ 0
    → fr.content ≡ segment f fr.offset (length fr.content)
    → length fr.content < 2 ^ 62
    → IsOrdered f fr.stream_id conn s
    → Delivers f fr.stream_id (reach s fr) (conn_recv_stream mem app conn fr)
unfolding conn_recv_stream
conn_recv_stream-IsOrdered f app mem conn s fr willing ample other content small h =
    elim (check_stream_lem conn fr small) [
      | inl (e, failed) ↦ rw failed (inl (e, refl))
      | inr (passed, fits) ↦
          rw (passed, h.found)
            (recv_strm_lem f app willing fr.stream_id mem ample other fr content fits conn s
              (found_id fr.stream_id conn.strms s h.found) h)
    ]
