-- ===== src/Config.antt =====
-- The configuration model: sw/libpacketwyrm/include/packetwyrm/config.h, and the lookups of
-- sw/libpacketwyrm/src/config.c. Character arrays are the lists of their bytes before the NUL,
-- MAC and IPv6 addresses the lists of their bytes, most significant first. Arrays with a count
-- are lists.
pub mod FlowModel
pub mod Resolve
pub mod Fault
pub mod Validate
pub mod Valid
pub mod Parse
use FlowModel.{Flow}
use packet_wyrm.Base.{ℕ, Bool, Option, List}

pub record CardPort : Type 0 where
  pub local_port : ℕ
  pub global_port : ℕ
  pub name : List ℕ

pub record Card : Type 0 where
  pub id : ℕ
  pub name : List ℕ
  pub pci : List ℕ
  pub ports : List CardPort

pub record PuntFlags : Type 0 where
  pub arp : Bool
  pub ipv6_nd : Bool
  pub lldp : Bool
  pub icmp : Bool
  pub bgp : Bool
  pub ospf : Bool
  pub is_is : Bool

pub record LogicalIf : Type 0 where
  pub id : ℕ
  pub name : List ℕ
  pub global_port : ℕ
  pub vlan : ℕ
  pub mac : List ℕ
  pub mtu : ℕ
  pub netns : List ℕ
  pub punt : PuntFlags

pub record ForwardRule : Type 0 where
  pub name : List ℕ
  pub ingress_port : ℕ
  pub egress_port : ℕ
  pub priority : ℕ
  pub ethertype : ℕ
  pub ip_proto : ℕ
  pub udp_dst : ℕ
  pub vlan : ℕ
  pub ipv6_dst_set : Bool
  pub ipv6_dst : List ℕ
  pub ipv6_dst_mask : List ℕ
  pub ipv6_src_set : Bool
  pub ipv6_src : List ℕ
  pub ipv6_src_mask : List ℕ

pub record System : Type 0 where
  pub name : List ℕ
  pub mode : List ℕ
  pub default_speed : List ℕ
  pub stats_poll_interval_ms : ℕ
  pub control_socket : List ℕ
  pub secret : List ℕ

pub record Config : Type 0 where
  pub system : System
  pub cards : List Card
  pub logical_if : List LogicalIf
  pub flows : List Flow
  pub forwards : List ForwardRule

-- `struct pwfpga_port_ref` (ids.h)
pub record PortRef : Type 0 where
  pub card_id : ℕ
  pub local_port_id : ℕ
  pub global_port_id : ℕ
