-- ===== src/Lib.antt =====
-- Verification library of nordvpn-linux, the NordVPN client of Linux.
--
-- The program: the daemon (`nordvpnd`) answers requests of the command line over gRPC. A request that
-- changes a setting reads the settings file, asks the networker to act, saves the new settings and
-- publishes an event. A request that connects selects a server, by the API or among cached servers.
-- The networker drives the VPN, the mesh network, the routers and the firewall, and keeps the kill switch.
-- The firewall turns allowlists into iptables rules.
--
-- The files, and the code that they are about:
--   Prelude          Booleans, integers, lists and texts as Go's code uses them. Go's int64 is ℤ: the
--                    identifiers compared here stay far from its bounds. For the ports of a request see
--                    below.
--   Config           the settings: config/config.go, config/field.go. Config/Group: config/group.pb.go.
--                    Config/Allowlist: config/allowlistlist.go. Config/Manager: config/manager.go
--                    (`load`, `save`, `SaveWith`, `Reset`). A file is absent, corrupt, mistyped or valid,
--                    and `Io` says whether reading and writing fail during one call.
--   Servers          core/models.go, nstrings/bool.go. Servers/Names: internal/string.go,
--                    config/server_groups.go and the names and tags of daemon/servers.go.
--                    Servers/Select: `getServers` and `PickServer` of daemon/servers.go.
--                    Servers/Dedicated: `selectServer` and the dedicated IP servers.
--   Daemon           one function per settings handler: Switches, Tunnel, Nameservers, Allowlisting,
--                    Users, Autoconnect (daemon/rpc_set_*.go) and Meshnet (meshnet/server.go,
--                    daemon/rpc_set_defaults.go). State has the state that they share: the file, the
--                    calls made and the events published, and `Env`, the answers that one request gets.
--                    Requests has all of them as one type, with `serve` for a sequence of requests.
--   Ports            `PortsToPortRanges` of daemon/firewall/iptables/iptables.go.
--   Routes           `Router` of daemon/routes/router.go, with what its agent has installed. Routes/Policies:
--                    `PolicyRouter` of daemon/routes/rule.go.
--   Firewall         `Rule` of daemon/firewall/rule.go. Firewall/OrderedRules: `OrderedRules` there.
--                    Firewall/Service: `Firewall` of daemon/firewall/firewall.go, with what its working
--                    agent has installed.
--   Networker        `Combined` of networker/networker.go and networker/vpn.go: the state, the calls that it
--                    makes of the parts below, and World, what those answer. Rules: the firewall rules by
--                    name. Network: the allowlist, the blocked network and the kill switch. Mesh, Tunnel: the
--                    mesh network and the VPN. Reconnect: `refreshVPN`. Operations has the methods that the
--                    daemon calls as one type, with `perform_all` for a sequence of them.
--   Meshnet          `Server` of meshnet/server.go: the state, the requests that it sends and Backend, what
--                    they are answered with. Registration: meshnet/register.go. Peers, Invitations,
--                    Nicknames, Listing, Connection, Switching: one function per handler, and the jobs of
--                    meshnet/jobs.go. It stands on the networker above. Serving has the handlers as one
--                    type, with `serve_all` for a sequence of requests.
--   Auth             `RenewingChecker` of auth/auth.go: the users of the settings file, the calls made and
--                    Api, what those answer. Auth/Services: the services and the second factor.
--                    Daemon and Meshnet do not stand on it: for them the login is an answer.
--   Prelude/Action   methods that may return an error, as functions on the object's state.
--   Tests            examples, and the theorems at concrete inputs.
--
-- A handler becomes a function from the daemon before it to the daemon after it and the reply, in the
-- order of the source: load, tests, calls, save, publication. A call's error is an answer of `Env`, one
-- per method and argument. Loops are recursion on the list that the source ranges over; there is no fuel.
--
-- Parameters, for code that is not in the repository or is not modelled: the servers' API, the random
-- choices, strings.EqualFold, the parsing of addresses, the dedicated IP services, the answers that the
-- handlers get from the networker. The networker's own parameter is World: each call of the VPN, the
-- routers, the DNS setter, the exit node and the meshnet library is recorded, and its answer depends on
-- the calls made before. The firewall is no parameter of it, only the failures of its agent. That of
-- the meshnet service is Backend: the answers of the API, of the settings file, of the name servers and
-- of the file sharing client, by the requests made before, and the lower case of a text. That of the
-- logins is Api, the answers of the credentials API and of the settings file, and a clock that stands
-- still during a call. The theorems hold for all of them; where one needs a random choice in range it
-- says so.
--
-- Not modelled: encryption and JSON, mutexes (a handler runs without interruption by another one), log
-- lines, published errors and texts, `ConnectionStatus`, the waits of `fixForLinuxMint20`, analytics
-- messages, distances between coordinates. The iptables and ip commands, the resolvers' files, the exit
-- node's forwarding and the VPN libraries stand behind the parameters, since what they do is done by the
-- system. The notification client, the transfers of files, the streams of the connection's state, the
-- remote flags and the command line are left out.
--
-- Where the model is simpler than the code: the ports of a range are counted without the wrap-around of
-- int64, while Go's loop never ends where a range ends at the largest int64, so `are_ports_valid` and
-- `get_ports_in_a_range` stand for the code below that end. `new_config` has empty maps of ports where Go
-- has nil ones, which panic when they are updated. A failed call of an agent of the firewall or of the
-- router, Flush among them, leaves nothing behind in the model, while an agent may run several commands
-- in one call.
pub mod Prelude
pub mod Ports
pub mod Routes
pub mod Firewall
pub mod Networker
pub mod Meshnet
pub mod Auth
pub mod Config
pub mod Servers
pub mod Daemon
pub mod Tests
