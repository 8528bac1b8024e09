-- ===== src/Frame/New.antt =====
-- src/frame.rs: the constructors of `Frame`.
use round_robin.Common.{ℕ, List, []}
use round_robin.Frame.{Frame, flag_data, flag_syn, flag_fin, flag_rst}

unfoldable pub data_frame : ℕ → ℕ → List ℕ → Frame
data_frame conn_id seq payload = record {
  conn_id = conn_id;
  seq = seq;
  flags = flag_data;
  payload = payload;
}

unfoldable pub syn_frame : ℕ → List ℕ → Frame
syn_frame conn_id payload = record {
  conn_id = conn_id;
  seq = 0;
  flags = flag_syn;
  payload = payload;
}

unfoldable pub fin_frame : ℕ → ℕ → Frame
fin_frame conn_id seq = record { conn_id = conn_id; seq = seq; flags = flag_fin; payload = [] }

unfoldable pub rst_frame : ℕ → Frame
rst_frame conn_id = record { conn_id = conn_id; seq = 0; flags = flag_rst; payload = [] }
