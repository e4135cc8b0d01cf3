-- ===== src/Config/Fault.antt =====
-- What `pw_config_validate` writes into `struct pw_diag`: the status, and the path of the entry
-- at fault. A constructor stands for the text that `snprintf` prints, with its indexes; the
-- message text is not kept.
use packet_wyrm.Base.{ℕ, Option, none, some, Bool, true, false, Error}

pub data Place : Type 0 where
  cards_id cards_pci : ℕ → Place
  ports_global_port ports_local_port : ℕ → ℕ → Place
  lif_name lif_netns lif_id lif_global_port : ℕ → Place
  flow_id flow_tx_global_port flow_rx_global_port flow_logical_if_id : ℕ → Place
  flow_frame_len flow_traffic flow_measurements flow_classify flow_encap : ℕ → Place
  forward_ingress_port forward_egress_port forward_ports : ℕ → Place

pub record Fault : Type 0 where
  pub code : Error
  pub place : Place

-- A check that finds nothing goes on to the next one.
infixr 5 ◌or_else◌
abbrev pub ◌or_else◌ : Option Fault → Option Fault → Option Fault
some e or_else k = some e
none or_else k = k

abbrev pub fault_if : Bool → Error → Place → Option Fault
fault_if true e p = some (record { code = e; place = p })
fault_if false e p = none
