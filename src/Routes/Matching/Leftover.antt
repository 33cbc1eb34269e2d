-- ===== src/Routes/Matching/Leftover.antt =====
-- What a failed `Enable` of the router leaves.
use nordvpn_linux.Prelude.{nat_eq}
