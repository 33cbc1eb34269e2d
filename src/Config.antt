-- ===== src/Config.antt =====
-- The settings that the daemon keeps: config/config.go and config/field.go. Tokens, the machine's
-- identity, its meshnet keys and the remote configuration are left out: no setting depends on them.
pub mod Allowlist
pub mod Manager
pub mod Group
use nordvpn_linux.Prelude.{
  ℕ, ℤ, pos, Bool, true, false, Option, none, some, List, [], String, Text, Eq, ◌≡◌, ◌↔◌, arith,
  bool_beq,
}
use Allowlist
use Group
use Group.{ServerGroup}

-- config/technology.proto, config/protocol.proto
pub data Technology : Type 0 where
  unknown_technology openvpn nordlynx : Technology

pub data Protocol : Type 0 where
  unknown_protocol udp tcp : Protocol

abbrev pub technology_beq : Technology → Technology → Bool
technology_beq unknown_technology unknown_technology = true
technology_beq openvpn openvpn = true
technology_beq nordlynx nordlynx = true
technology_beq _ _ = false

pub technology_beq_iff : (a b : Technology) → (technology_beq a b ≡ true) ↔ (a ≡ b)
technology_beq_iff a b = (λ h. ground arith, λ h. ground arith)

instance abbrev pub technology_eq : Eq Technology
technology_eq = record { beq = technology_beq; beq_iff = technology_beq_iff }

abbrev pub protocol_beq : Protocol → Protocol → Bool
protocol_beq unknown_protocol unknown_protocol = true
protocol_beq udp udp = true
protocol_beq tcp tcp = true
protocol_beq _ _ = false

pub protocol_beq_iff : (a b : Protocol) → (protocol_beq a b ≡ true) ↔ (a ≡ b)
protocol_beq_iff a b = (λ h. ground arith, λ h. ground arith)

instance abbrev pub protocol_eq : Eq Protocol
protocol_eq = record { beq = protocol_beq; beq_iff = protocol_beq_iff }

-- TrueField: a boolean that is true where it is unset
abbrev pub TrueField : Type 0
TrueField = Option Bool

abbrev pub get_true_field : TrueField → Bool
get_true_field none = true
get_true_field (some value) = value

-- `dns` is empty where Go's slice is nil: the JSON and the wire format drop empty lists.
pub record AutoConnectData : Type 0 where
  pub id : ℤ
  pub server_tag : Text
  pub country : Text
  pub city : Text
  pub group : ServerGroup
  pub protocol : Protocol
  pub threat_protection_lite : Bool
  pub obfuscate : Bool
  pub dns : List String
  pub allowlist : Allowlist.Allowlist
  pub postquantum_vpn : Bool

pub record Config : Type 0 where
  pub technology : Technology
  pub firewall : Bool
  pub firewall_mark : ℕ
  pub routing : TrueField
  pub analytics : TrueField
  pub mesh : Bool
  pub kill_switch : Bool
  pub auto_connect : Bool
  pub ipv6 : Bool
  pub auto_connect_data : AutoConnectData
  pub notify_off : List ℤ
  pub tray_off : List ℤ
  pub lan_discovery : Bool
  pub virtual_location : TrueField

-- The default settings: `newConfig`. Its maps of ports are nil in Go, which are read as empty ones; an
-- update of a nil map panics, and is not modelled.
abbrev pub new_config : Config
new_config = record {
  technology = nordlynx;
  firewall = true;
  firewall_mark = 0xe1f1;
  routing = none;
  analytics = none;
  mesh = false;
  kill_switch = false;
  auto_connect = false;
  ipv6 = false;
  auto_connect_data = record {
    id = pos 0;
    server_tag = [];
    country = [];
    city = [];
    group = Group.undefined;
    protocol = udp;
    threat_protection_lite = false;
    obfuscate = false;
    dns = [];
    allowlist = Allowlist.new_allowlist [] [] [];
    postquantum_vpn = false;
  };
  notify_off = [];
  tray_off = [];
  lan_discovery = false;
  virtual_location = none;
}
