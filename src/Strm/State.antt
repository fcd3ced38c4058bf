-- ===== src/Strm/State.antt =====
-- lib/ngtcp2_strm.c: a stream. The bits of `flags` are Booleans.
use ngtcp.Base.{Result, ok, ◌>>=◌, ℕ, Bool, true, false, List}
use ngtcp.Track.Range.{Range}
use ngtcp.Track.Gaptr.{gaptr_init}
use ngtcp.Pkt.Frame.{Stream}
use ngtcp.Strm.Rob.{Rob, RobMem, rob_init, rob_push, rob_first_gap_offset}

-- `ngtcp2_strm_flags`: NGTCP2_STRM_FLAG_SHUT_RD and so on
pub record StrmFlags : Type 0 where
  pub shut_rd : Bool
  pub shut_wr : Bool
  pub sent_rst : Bool
  pub recv_rst : Bool
  pub stop_sending : Bool

-- `ngtcp2_strm`, without what the application hangs on it and the data to be sent
pub record Strm : Type 0 where
  pub stream_id : ℕ
  pub tx_offset : ℕ
  pub acked_tx_offset : List Range
  pub max_tx_offset : ℕ
  pub last_rx_offset : ℕ
  pub rob : Rob
  pub max_rx_offset : ℕ
  pub unsent_max_rx_offset : ℕ
  pub flags : StrmFlags
  pub app_error_code : ℕ

-- NGTCP2_STRM_FLAG_NONE
abbrev pub flag_none : StrmFlags
flag_none = record {
  shut_rd = false;
  shut_wr = false;
  sent_rst = false;
  recv_rst = false;
  stop_sending = false;
}

-- `malloc` is for the gap of `acked_tx_offset`, `mem` for the reorder buffer.
unfoldable pub strm_init : (Range → Bool) → RobMem → ℕ → StrmFlags → ℕ → ℕ → Result Strm
strm_init malloc mem stream_id flags max_rx_offset max_tx_offset = do
  acked_tx_offset ← gaptr_init malloc
  rob ← rob_init mem 8192
  ok record {
    stream_id = stream_id;
    tx_offset = 0;
    acked_tx_offset = acked_tx_offset;
    max_tx_offset = max_tx_offset;
    last_rx_offset = 0;
    rob = rob;
    max_rx_offset = max_rx_offset;
    unsent_max_rx_offset = max_rx_offset;
    flags = flags;
    app_error_code = 0;
  }

unfoldable pub strm_rx_offset : Strm → ℕ
strm_rx_offset strm = rob_first_gap_offset strm.rob

unfoldable pub strm_recv_reordering : RobMem → Strm → Stream → Strm × Result (Unit {0})
strm_recv_reordering mem strm fr =
    let (rob, rv) = rob_push mem strm.rob fr.offset fr.content in (record strm { rob = rob }, rv)

-- `ngtcp2_strm_shutdown(strm, NGTCP2_STRM_FLAG_SHUT_RD)`, and with NGTCP2_STRM_FLAG_SHUT_WR
unfoldable pub strm_shutdown_rd : Strm → Strm
strm_shutdown_rd strm = record strm { flags = record strm.flags { shut_rd = true } }

unfoldable pub strm_shutdown_wr : Strm → Strm
strm_shutdown_wr strm = record strm { flags = record strm.flags { shut_wr = true } }
