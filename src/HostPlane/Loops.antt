-- ===== src/HostPlane/Loops.antt =====
-- The loops of `pw_host_plane_step`.
use packet_wyrm.HostPlane.{HostPlane}
