-- ===== src/Conn/Tests.antt =====
-- Runs of lib/ngtcp2_rob.c and lib/ngtcp2_conn.c on concrete inputs: a server with a stream that the
-- client has opened, with windows of a few bytes and chunks of four.
use ngtcp.Conn.Flow.Handlers.{conn_recv_stream-IsFlow, conn_recv_rst_stream-IsFlow}
use ngtcp.Strm.Rob.{
  Rob, new_chunk, copy_into, round_len, fill_chunk, write_loop, rob_write_data, cut_and_write,
  bytes_at, push_loop, rob_push, gaps_from, chunks_from, rob_remove_prefix, read_cells, rob_data_at,
  rob_pop, rob_first_gap_offset,
}
use ngtcp.Track.Range.{
  sub_uint64, range_init, range_intersect, range_len, range_equal, range_cut, range_not_after,
  covers,
}
use ngtcp.Conn.Order.{delivered}
use ngtcp.Conn.Close.{is_finished, conn_close_stream_if_shut_rdwr}
use ngtcp.Conn.Recv.{
  emit_loop, deliver_data, conn_emit_pending_stream_data, recv_in_order, recv_data, set_last,
  recv_part, count_data, recv_strm, check_stream, conn_recv_stream,
}
use ngtcp.Strm.State.{Strm, flag_none, strm_rx_offset, strm_recv_reordering}
use ngtcp.Conn.Order.Frames.{Delivers}
use ngtcp.Conn.Order.Handler.{reach}
use ngtcp.Conn.Order.Laws.{conn_recv_stream-IsOrdered}
use ngtcp.Conn.Final.{conn_recv_rst_stream_again}
use ngtcp.Conn.Flow.Counts.{Counts, conn_recv_rst_stream-Counts}
use ngtcp.Conn.Gap.{conn_recv_stream_dropped}
use ngtcp.Conn.Recv.{
  emit_loop, deliver_data, conn_emit_pending_stream_data, recv_in_order, recv_data, set_last,
  recv_part, count_data, recv_strm, check_stream, conn_recv_stream,
}
use ngtcp.Conn.Control.{conn_recv_rst_stream}
use ngtcp.Strm.Rob.Chunks.{byte_at}
use ngtcp.Track.Gaptr.{gaptr_push}
use ngtcp.Base.{
  ltb, leb, if◌then◌else◌, get_elem?, nomem, final_offset_err, ok, err, ℕ, suc, ◌-◌, ◌≤◌, ◌<◌, ◌≡◌,
  refl, ◌⊎◌, inl, inr, Bool, true, false, not, ◌&&◌, none, some, List, [], ◌∷◌, arith,
}
use ngtcp.Pkt.Frame.{Stream, RstStream}
use ngtcp.Strm.State.{Strm, flag_none, strm_rx_offset, strm_recv_reordering}
use ngtcp.Strm.Rob.{
  Rob, new_chunk, copy_into, round_len, fill_chunk, write_loop, rob_write_data, cut_and_write,
  bytes_at, push_loop, rob_push, gaps_from, chunks_from, rob_remove_prefix, read_cells, rob_data_at,
  rob_pop, rob_first_gap_offset,
}
use ngtcp.Strm.Rob.Push.{Fails}
use ngtcp.Conn.{
  Settings, App, Mem, Conn, find_strm, update_strm, remove_strm, call_app, conn_local_stream,
  bidi_stream, conn_max_data_violated, check_stream_id,
}
use ngtcp.Conn.Open.{no_settings}
use ngtcp.Track.Idtr.{Idtr}
use ngtcp.Strm.Rob.Laws.{IsRob, rob_push_lem, Reaches, rob_remove_prefix_lem}
use ngtcp.Strm.Rob.Read.{Holds}
use ngtcp.Track.Gaptr.Laws.{missing}
use ngtcp.Track.Range.{
  sub_uint64, range_init, range_intersect, range_len, range_equal, range_cut, range_not_after,
  covers,
}
use ngtcp.Conn.Flow.{IsFlow}
use ngtcp.Conn.Order.Strms.{IsOrdered}

abbrev ample : Mem
ample = record {
  gap = λ r. true;
  rob = record { gap_new = λ r. true; data_new = λ o. true };
  strm = true;
  table = true;
  frame = true;
  entry = true;
}

never-Fails : Fails ample.rob → ⊥
never-Fails (inl (b, e)) = cc
never-Fails (inr (r, e)) = cc

abbrev willing : App
willing call = none

abbrev settings : Settings
settings = record no_settings {
  max_stream_data = 20;
  max_data = 30;
  max_stream_id_bidi = 8;
  max_stream_id_uni = 6;
}

abbrev empty_rob : Rob
empty_rob = record {
  gap = record { begin = 0; end = 18446744073709551615 } ∷ [];
  chunks = [];
  chunk = 4;
}

abbrev strm4 : Strm
strm4 = record {
  stream_id = 4;
  tx_offset = 0;
  acked_tx_offset = record { begin = 0; end = 18446744073709551615 } ∷ [];
  max_tx_offset = 20;
  last_rx_offset = 0;
  rob = empty_rob;
  max_rx_offset = 20;
  unsent_max_rx_offset = 20;
  flags = flag_none;
  app_error_code = 0;
}

abbrev tracker : Idtr
tracker = record { gap = record { begin = 2; end = 18446744073709551615 } ∷ []; server = false }

abbrev conn_with : Strm → Conn
conn_with s = record {
  server = true;
  version = 1;
  params_recved = false;
  strms = s ∷ [];
  fc_strms = [];
  remote_bidi_idtr = tracker;
  remote_uni_idtr = tracker;
  unsent_max_remote_stream_id_bidi = 8;
  max_remote_stream_id_bidi = 8;
  remote_stream_id_bidi_window_start = 0;
  max_local_stream_id_bidi = 0;
  next_local_stream_id_bidi = 1;
  unsent_max_remote_stream_id_uni = 6;
  max_remote_stream_id_uni = 6;
  remote_stream_id_uni_window_start = 0;
  max_local_stream_id_uni = 0;
  next_local_stream_id_uni = 3;
  unsent_max_rx_offset = 30;
  max_rx_offset = 30;
  rx_offset = s.last_rx_offset;
  tx_offset = 0;
  max_tx_offset = 0;
  frq = [];
  acktr = record {
    acks = record { buf = []; nmemb = 0; size = 0; first = 0; len = 0 };
    ent = [];
    nack = 0;
    active_ack = 0;
  };
  local_settings = settings;
  remote_settings = no_settings;
  next_ack_expiry = 0;
  immediate_ack = false;
  calls = [];
}

abbrev conn : Conn
conn = conn_with strm4

abbrev stream_frame : ℕ → ℕ → List ℕ → Bool → Stream
stream_frame id offset content fin = record {
  flags = 0;
  fin = fin;
  stream_id = id;
  offset = offset;
  content = content;
}

abbrev late_frame : Stream
late_frame = stream_frame 4 3 (4 ∷ 5 ∷ 6 ∷ []) false

abbrev first_frame : Stream
first_frame = stream_frame 4 0 (1 ∷ 2 ∷ 3 ∷ []) false

empty_rob-IsRob : IsRob empty_rob
empty_rob-IsRob = record {
  ordered = (omega arith, omega arith, omega arith, tt);
  chunks = tt;
  chunk_pos = omega arith;
  chunk_fits = omega arith;
}

conn-IsFlow : IsFlow conn
conn-IsFlow = record {
  counts = omega arith;
  within = omega arith;
  varint = omega arith;
  windows = (omega arith, omega arith, tt);
  setting = omega arith;
}

all_missing : (x : ℕ) → x ≤ 4611686018427387904 → missing empty_rob.gap x ≡ true
unfolding missing covers
all_missing x le = ground arith

empty_rob-Holds : Holds suc 0 empty_rob
empty_rob-Holds = record {
  valid = empty_rob-IsRob;
  open_end = all_missing 4611686018427387904 (omega arith);
  bytes = λ x le lt e. cc (all_missing x (omega arith), e);
}

conn-IsOrdered : IsOrdered suc 4 conn strm4
unfolding find_strm remove_strm strm_rx_offset rob_first_gap_offset delivered
conn-IsOrdered = record {
  found = refl;
  single = refl;
  holds = empty_rob-Holds;
  ahead = λ x le lt. all_missing x lt;
  small = omega arith;
  order = refl;
}

rob_push_lem_example :
    let (rob', rv) = rob_push ample.rob empty_rob 3 (7 ∷ 8 ∷ 9 ∷ []) in
    ((rv ≡ ok tt)
      × IsRob rob'
      × (gaptr_push ample.rob.gap_new empty_rob.gap 3 3 ≡ (rob'.gap, ok tt))
      × ((x : ℕ)
          → (missing rob'.gap x ≡ (missing empty_rob.gap x && not (leb 3 x && ltb x 6)))
            × (byte_at rob'.chunks x ≡ (
                if missing empty_rob.gap x && (leb 3 x && ltb x 6)
                then get_elem? (7 ∷ 8 ∷ 9 ∷ []) (x - 3)
                else byte_at empty_rob.chunks x))))
    ⊎ ((rv ≡ err nomem) × Fails ample.rob)
rob_push_lem_example =
    rob_push_lem ample.rob empty_rob 3 (7 ∷ 8 ∷ 9 ∷ []) empty_rob-IsRob (omega arith)

abbrev filled_rob : Rob
filled_rob = record {
  gap = record { begin = 0; end = 4 } ∷ record { begin = 6; end = 18446744073709551615 } ∷ [];
  chunks = record { offset = 4; cells = some 5 ∷ some 6 ∷ none ∷ none ∷ [] } ∷ [];
  chunk = 4;
}

filled_rob-IsRob : IsRob filled_rob
filled_rob-IsRob = record {
  ordered = (omega arith, omega arith, omega arith, (omega arith, omega arith, omega arith, tt));
  chunks = (omega arith, (1, refl), refl, tt);
  chunk_pos = omega arith;
  chunk_fits = omega arith;
}

rob_remove_prefix_lem_example :
    let rob' = rob_remove_prefix filled_rob 5 in
    IsRob rob'
    × Reaches rob'.chunk 5 rob'.chunks
    × ((x : ℕ)
        → (missing rob'.gap x ≡ (missing filled_rob.gap x && leb 5 x))
          × (5 ≤ x → byte_at rob'.chunks x ≡ byte_at filled_rob.chunks x))
rob_remove_prefix_lem_example = rob_remove_prefix_lem filled_rob 5 filled_rob-IsRob (omega arith)

conn_recv_stream-IsFlow_example : IsFlow (conn_recv_stream ample willing conn first_frame).0
conn_recv_stream-IsFlow_example =
    conn_recv_stream-IsFlow ample willing conn first_frame (omega arith) conn-IsFlow

abbrev reset : RstStream
reset = record { stream_id = 4; app_error_code = 1; final_offset = 7 }

conn_recv_rst_stream-IsFlow_example : IsFlow (conn_recv_rst_stream ample willing conn reset).0
conn_recv_rst_stream-IsFlow_example =
    conn_recv_rst_stream-IsFlow ample willing conn reset conn-IsFlow

finds_strm4 : find_strm 4 conn.strms ≡ some strm4
unfolding find_strm
finds_strm4 = refl

conn_recv_rst_stream-Counts_example :
    Counts conn strm4 7 (conn_recv_rst_stream ample willing conn reset)
conn_recv_rst_stream-Counts_example =
    conn_recv_rst_stream-Counts ample willing conn reset strm4 conn-IsFlow finds_strm4

conn_recv_stream-IsOrdered_example :
    Delivers suc 4 (reach strm4 first_frame) (conn_recv_stream ample willing conn first_frame)
conn_recv_stream-IsOrdered_example =
    conn_recv_stream-IsOrdered suc willing ample conn strm4 first_frame (λ call. refl) never-Fails
      (omega arith) refl (omega arith) conn-IsOrdered

-- Both end the stream at 5; the second one has all of the data.
abbrev last_frame : Stream
last_frame = stream_frame 4 3 (4 ∷ 5 ∷ []) true

abbrev whole_frame : Stream
whole_frame = stream_frame 4 0 (1 ∷ 2 ∷ 3 ∷ 4 ∷ 5 ∷ []) true

last_frame_passes : check_stream conn last_frame ≡ ok tt
unfolding check_stream check_stream_id conn_local_stream bidi_stream
last_frame_passes = refl

whole_frame_passes : check_stream conn whole_frame ≡ ok tt
unfolding check_stream check_stream_id conn_local_stream bidi_stream
whole_frame_passes = refl

starts_at_0 : strm_rx_offset strm4 < 3
unfolding strm_rx_offset rob_first_gap_offset
starts_at_0 = omega arith

room_for_5 : conn_max_data_violated conn 5 ≡ false
unfolding conn_max_data_violated
room_for_5 = refl

conn_recv_stream_dropped_example :
    let (conn', rv) = conn_recv_stream ample willing conn last_frame in
    (rv ≡ ok tt)
    × (conn'.calls ≡ conn.calls)
    × (conn_recv_stream ample willing conn' whole_frame ≡ (conn', ok tt))
    × (s' : Strm) × (find_strm 4 conn'.strms ≡ some s')
    × (strm_rx_offset s' ≡ strm_rx_offset strm4)
conn_recv_stream_dropped_example =
    conn_recv_stream_dropped ample willing conn last_frame whole_frame strm4 never-Fails
      empty_rob-IsRob last_frame_passes whole_frame_passes (omega arith) finds_strm4 refl refl refl
      refl refl refl refl starts_at_0 (omega arith) (omega arith) room_for_5

reset_passes : check_stream_id conn 4 ≡ ok tt
unfolding check_stream_id conn_local_stream bidi_stream
reset_passes = refl

fits_window : conn_max_data_violated conn (sub_uint64 7 0) ≡ false
unfolding conn_max_data_violated
fits_window = refl

conn_recv_rst_stream_again_example :
    let (conn', rv) = conn_recv_rst_stream ample willing conn reset in
    (rv ≡ ok tt) × ((conn_recv_rst_stream ample willing conn' reset).1 ≡ err final_offset_err)
conn_recv_rst_stream_again_example =
    conn_recv_rst_stream_again ample willing conn reset strm4 (omega arith) reset_passes finds_strm4
      refl refl (omega arith) (omega arith) fits_window

-- A frame whose data comes too early waits for the frame before it.
both_frames :
    delivered 4
      (conn_recv_stream ample willing
        (conn_recv_stream ample willing conn late_frame).0
        first_frame).0.calls
    ≡ 1 ∷ 2 ∷ 3 ∷ 4 ∷ 5 ∷ 6 ∷ []
unfolding conn_recv_stream check_stream check_stream_id conn_local_stream bidi_stream find_strm
    recv_strm count_data conn_max_data_violated recv_part strm_rx_offset rob_first_gap_offset
    recv_data strm_recv_reordering rob_push push_loop cut_and_write rob_write_data write_loop
    fill_chunk round_len copy_into new_chunk bytes_at update_strm set_last
    conn_close_stream_if_shut_rdwr is_finished recv_in_order deliver_data call_app
    conn_emit_pending_stream_data emit_loop rob_data_at read_cells rob_pop rob_remove_prefix
    gaps_from chunks_from delivered range_len range_intersect range_init range_equal range_cut
    range_not_after
both_frames = refl
