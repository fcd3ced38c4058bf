-- ===== src/Conn/Keeps.antt =====
-- Rules for what every step of a handler keeps, whatever it returns.
pub mod Data
use ngtcp.Base.{
  ◌==◌, if◌then◌else◌, Bool-cases, Result, ok, err, fault, ℕ, ◌≡◌, refl, inl, inr, Bool, true,
  false, Option, none, some, List, [], ◌∷◌, ◌++◌,
}
use ngtcp.Pkt.Frame.{Frame}
use ngtcp.Track.Idtr.{Idtr}
use ngtcp.Strm.State.{Strm}
use ngtcp.Conn.{
  Call, recv_stream0_data, stream_close, App, Conn, Step, and_then, checked, find_strm, remove_strm,
  set_strm, with_found, with_strm, without_id, call_app, call_recv_stream0_data, conn_local_stream,
  bidi_stream, put_idtr,
}
use ngtcp.Conn.Close.{
  extended_stream_id, extend_remote_stream_id, closed, conn_close_stream, is_finished,
  conn_close_stream_if_shut_rdwr,
}

-- A write to a stream that leaves its ID, the end of its data, and its window.
abbrev pub Quiet : (Strm → Strm) → Type 0
Quiet g =
    (s : Strm)
    → ((g s).stream_id ≡ s.stream_id)
      × ((g s).last_rx_offset ≡ s.last_rx_offset)
      × ((g s).max_rx_offset ≡ s.max_rx_offset)

-- A statement about the connection that what every handler does to the rest of its state keeps: the
-- calls, the queues, a quiet write to a stream, and the removal of a stream.
pub record IsKept (P : Conn → Type 0) : Type 0 where
  pub calls : (conn : Conn) (calls : List Call) → P conn → P (record conn { calls = calls })
  pub fc : (conn : Conn) (ids : List ℕ) → P conn → P (record conn { fc_strms = ids })
  pub frq : (conn : Conn) (fs : List Frame) → P conn → P (record conn { frq = fs })
  pub ack : (conn : Conn) (b : Bool) → P conn → P (record conn { immediate_ack = b })
  pub remote_bidi :
      (conn : Conn) (n : ℕ) → P conn → P (record conn { unsent_max_remote_stream_id_bidi = n })
  pub remote_uni :
      (conn : Conn) (n : ℕ) → P conn → P (record conn { unsent_max_remote_stream_id_uni = n })
  pub idtr : (conn : Conn) (b : Bool) (i : Idtr) → P conn → P (put_idtr conn b i)
  pub write : (conn : Conn) (id : ℕ) (g : Strm → Strm) → Quiet g → P conn → P (set_strm id g conn)
  pub remove :
      (conn : Conn) (id : ℕ) → P conn → P (record conn { strms = remove_strm id conn.strms })

pub and_then-keeps :
    (P : Conn → Type 0) (step : Step) (next : Conn → Step)
    → P step.0
    → ((conn : Conn) → P conn → P (next conn).0)
    → P (and_then step next).0
and_then-keeps P (conn, ok t) next h k = k conn h
and_then-keeps P (conn, err e) next h k = h
and_then-keeps P (conn, fault) next h k = h

pub checked-keeps :
    (P : Conn → Type 0) (rv : Result (Unit {0})) (conn : Conn) (next : Step)
    → P conn
    → (rv ≡ ok tt → P next.0)
    → P (checked rv conn next).0
checked-keeps P (ok t) conn next h k = k refl
checked-keeps P (err e) conn next h k = h
checked-keeps P fault conn next h k = h

found-keeps :
    (P : Conn → Type 0) (conn : Conn) (found : Option Strm) (next : Strm → Step)
    → P conn
    → ((s : Strm) → found ≡ some s → P (next s).0)
    → P (with_found conn found next).0
found-keeps P conn none next h k = h
found-keeps P conn (some s) next h k = k s refl

pub with_strm-keeps :
    (P : Conn → Type 0) (id : ℕ) (conn : Conn) (next : Strm → Step)
    → P conn
    → ((s : Strm) → find_strm id conn.strms ≡ some s → P (next s).0)
    → P (with_strm id conn next).0
with_strm-keeps P id conn next h k = found-keeps P conn (find_strm id conn.strms) next h k

pub if-keeps :
    (P : Conn → Type 0) (b : Bool) (yes_step no_step : Step)
    → (b ≡ true → P yes_step.0)
    → (b ≡ false → P no_step.0)
    → P (if b then yes_step else no_step).0
if-keeps P true yes_step no_step h k = h refl
if-keeps P false yes_step no_step h k = k refl

module _ (P : Conn → Type 0) (kept : IsKept P) (app : App) where
  pub call_app-keeps : (call : Call) (conn : Conn) → P conn → P (call_app app call conn).0
  unfolding call_app
  call_app-keeps call conn h = kept.calls conn (conn.calls ++ (call ∷ [])) h

  pub call_recv_stream0_data-keeps :
      (content : List ℕ) (conn : Conn) → P conn → P (call_recv_stream0_data app content conn).0
  unfolding call_recv_stream0_data
  call_recv_stream0_data-keeps content conn h =
      kept.calls conn (conn.calls ++ (recv_stream0_data content ∷ [])) h

  extend_remote_stream_id-keeps :
      (id : ℕ) (conn : Conn) → P conn → P (extend_remote_stream_id id conn)
  unfolding extend_remote_stream_id
  extend_remote_stream_id-keeps id conn h = elim (Bool-cases (bidi_stream id)) [
    | inl e ↦ rw e (
        kept.remote_bidi conn
          (extended_stream_id conn.unsent_max_remote_stream_id_bidi
            conn.remote_stream_id_bidi_window_start conn.remote_bidi_idtr)
          h)
    | inr e ↦ rw e (
        kept.remote_uni conn
          (extended_stream_id conn.unsent_max_remote_stream_id_uni
            conn.remote_stream_id_uni_window_start conn.remote_uni_idtr)
          h)
  ]

  closed-keeps : (id : ℕ) (conn : Conn) → P conn → P (closed id conn).0
  unfolding closed
  closed-keeps id conn h =
      let extended : Conn =
        if conn_local_stream conn id then conn else extend_remote_stream_id id conn in
      let k : P extended = elim (Bool-cases (conn_local_stream conn id)) [
        | inl e ↦ rw e h
        | inr e ↦ rw e (extend_remote_stream_id-keeps id conn h)
      ] in
      kept.ack (record extended { fc_strms = without_id id extended.fc_strms }) true
        (kept.fc extended (without_id id extended.fc_strms) k)

  pub conn_close_stream-keeps :
      (conn : Conn) (id code : ℕ) → P conn → P (conn_close_stream app conn id code).0
  unfolding conn_close_stream
  conn_close_stream-keeps conn id code h =
      with_strm-keeps P id conn
        (λ strm.
          let code' = if strm.app_error_code == 0 then strm.app_error_code else code in
          and_then
            (call_app app (stream_close id code')
              (record conn { strms = remove_strm id conn.strms }))
            (closed id))
        h
        (λ s e.
          let code' = if s.app_error_code == 0 then s.app_error_code else code in
          let removed : Conn = record conn { strms = remove_strm id conn.strms } in
          and_then-keeps P (call_app app (stream_close id code') removed) (closed id)
            (call_app-keeps (stream_close id code') removed (kept.remove conn id h))
            (closed-keeps id))

  pub close_if_shut_rdwr-keeps :
      (conn : Conn) (id code : ℕ) → P conn → P (conn_close_stream_if_shut_rdwr app conn id code).0
  unfolding conn_close_stream_if_shut_rdwr
  close_if_shut_rdwr-keeps conn id code h =
      with_strm-keeps P id conn
        (λ strm. if is_finished strm then conn_close_stream app conn id code else (conn, ok tt)) h
        (λ s e.
          if-keeps P (is_finished s) (conn_close_stream app conn id code) (conn, ok tt)
            (λ t. conn_close_stream-keeps conn id code h) (λ t. h))
