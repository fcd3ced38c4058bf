-- ===== src/Pkt/Frame.antt =====
-- The frame structures of lib/includes/ngtcp2/ngtcp2.h. A pointer with its length is the list of
-- the bytes, and the tag `type` of the union is the constructor.
use ngtcp.Base.{ℕ, Bool, List}

-- `ngtcp2_stream`; `content` is `data` with `datalen`, and `fin` says whether the byte is nonzero.
pub record Stream : Type 0 where
  pub flags : ℕ
  pub fin : Bool
  pub stream_id : ℕ
  pub offset : ℕ
  pub content : List ℕ

-- `ngtcp2_ack_blk`
pub record AckBlk : Type 0 where
  pub gap : ℕ
  pub blklen : ℕ

-- `ngtcp2_ack`; `blks` is `blks` with `num_blks`.
pub record Ack : Type 0 where
  pub largest_ack : ℕ
  pub ack_delay : ℕ
  pub first_ack_blklen : ℕ
  pub blks : List AckBlk

-- `ngtcp2_padding`
pub record Padding : Type 0 where
  pub len : ℕ

-- `ngtcp2_rst_stream`
pub record RstStream : Type 0 where
  pub stream_id : ℕ
  pub app_error_code : ℕ
  pub final_offset : ℕ

-- `ngtcp2_connection_close`
pub record ConnectionClose : Type 0 where
  pub error_code : ℕ
  pub reason : List ℕ

-- `ngtcp2_application_close`
pub record ApplicationClose : Type 0 where
  pub app_error_code : ℕ
  pub reason : List ℕ

-- `ngtcp2_max_data`
pub record MaxData : Type 0 where
  pub max_data : ℕ

-- `ngtcp2_max_stream_data`
pub record MaxStreamData : Type 0 where
  pub stream_id : ℕ
  pub max_stream_data : ℕ

-- `ngtcp2_max_stream_id`
pub record MaxStreamId : Type 0 where
  pub max_stream_id : ℕ

-- `ngtcp2_ping`
pub record Ping : Type 0 where
  pub content : List ℕ

-- `ngtcp2_blocked`
pub record Blocked : Type 0 where
  pub offset : ℕ

-- `ngtcp2_stream_blocked`
pub record StreamBlocked : Type 0 where
  pub stream_id : ℕ
  pub offset : ℕ

-- `ngtcp2_stream_id_blocked`
pub record StreamIdBlocked : Type 0 where
  pub stream_id : ℕ

-- `ngtcp2_new_connection_id`
pub record NewConnectionId : Type 0 where
  pub seq : ℕ
  pub conn_id : ℕ
  pub stateless_reset_token : List ℕ

-- `ngtcp2_stop_sending`
pub record StopSending : Type 0 where
  pub stream_id : ℕ
  pub app_error_code : ℕ

-- `ngtcp2_pong`
pub record Pong : Type 0 where
  pub content : List ℕ

-- `ngtcp2_frame`
pub data Frame : Type 0 where
  stream : Stream → Frame
  ack : Ack → Frame
  padding : Padding → Frame
  rst_stream : RstStream → Frame
  connection_close : ConnectionClose → Frame
  application_close : ApplicationClose → Frame
  max_data : MaxData → Frame
  max_stream_data : MaxStreamData → Frame
  max_stream_id : MaxStreamId → Frame
  ping : Ping → Frame
  blocked : Blocked → Frame
  stream_blocked : StreamBlocked → Frame
  stream_id_blocked : StreamIdBlocked → Frame
  new_connection_id : NewConnectionId → Frame
  stop_sending : StopSending → Frame
  pong : Pong → Frame
