-- ===== src/Utils.antt =====
-- utils: net.go, buf.go and the parsing of an endpoint in server.go, and `splitLabel` of
-- cmd/commands/config.go.
pub mod Endpoint
pub mod Label
pub mod Buffers
use csi_alcub.Base.{
  String, ◌<>◌, Bool, true, false, ◌&&◌, ◌||◌, Option, none, some, List, [], ◌∷◌, ◌==◌, starts_with,
  if◌then◌else◌,
}
use csi_alcub.Base.Dict.{Dict}
use csi_alcub.Base.Text.{split, cut, to_lower}
use csi_alcub.Base.Exec.{GoError, errorf, Result, ok, err}

-- `Combine`: the texts one after the other. The pool of buffers shows nowhere, since `GetBuf` resets
-- what it hands out and the result is a copy.
unfoldable pub combine : List String → String
combine [] = ""
combine (s ∷ strs) = s <> combine strs

-- `AuthHead`
abbrev pub auth_head : String
auth_head = "Authorization"

-- `BuildBasicAuthMd5`, over `md5.Sum` printed by `%x` and base64. A header is a map with one value
-- to a key.
unfoldable pub build_basic_auth_md5 :
    (String → String) → (String → String) → String → String → Dict String
build_basic_auth_md5 md5_hex base64 user pass =
    if user == "" && pass == ""
    then []
    else (auth_head, "Basic " <> base64 (user <> ":" <> md5_hex pass)) ∷ []

-- An item of `net.Interface.Addrs()`: `*net.IPAddr`, `*net.IPNet`, or another type, which the
-- `switch` passes over. The address is in the form that `String()` gives.
pub data Addr : Type 0 where
  ip_addr : String → Addr
  ip_net : String → Addr
  other_addr : Addr

-- A network interface with what `Addrs()` returns for it.
pub record Interface : Type 0 where
  pub name : String
  pub addrs : Result GoError (List Addr)

-- One callback of `LookupAddresses`: whether to go on, and the callback's own state.
abbrev Callback : Type 0 → Type 0
Callback S = String → String → S → Bool × S

-- The loop over the addresses of one interface: whether to go on with the next interface.
unfoldable pub lookup_addrs : {S : Type 0} → Callback S → String → List Addr → S → Bool × S
lookup_addrs fn name [] s = (true, s)
lookup_addrs fn name (other_addr ∷ addrs) s = lookup_addrs fn name addrs s
lookup_addrs fn name (ip_addr ip ∷ addrs) s =
    let (go, s') = fn name ip s in
    let rest = lookup_addrs fn name addrs s' in if go then rest else (false, s')
lookup_addrs fn name (ip_net ip ∷ addrs) s =
    let (go, s') = fn name ip s in
    let rest = lookup_addrs fn name addrs s' in if go then rest else (false, s')

-- The loop over the interfaces.
unfoldable pub lookup_interfaces :
    {S : Type 0} → Callback S → List Interface → S → Result GoError (Unit {0}) × S
unfolding lookup_addrs
lookup_interfaces fn [] s = (ok tt, s)
lookup_interfaces fn (i ∷ ifaces) s = elim i.addrs [
  | err e ↦ (err e, s)
  | ok addrs ↦
      let (go, s') = lookup_addrs fn i.name addrs s in
      let rest = lookup_interfaces fn ifaces s' in if go then rest else (ok tt, s')
]

-- `LookupAddresses`, at what `net.Interfaces()` returns.
unfoldable pub lookup_addresses :
    {S : Type 0} → Result GoError (List Interface) → Callback S → S → Result GoError (Unit {0}) × S
unfolding lookup_interfaces
lookup_addresses (err e) fn s = (err e, s)
lookup_addresses (ok ifaces) fn s = lookup_interfaces fn ifaces s

-- `parseEndpoint`: the protocol and the address.
unfoldable pub parse_endpoint : String → Result GoError (String × String)
unfolding cut
parse_endpoint ep =
    let invalid : Result GoError (String × String) = err (errorf ("Invalid endpoint: " <> ep)) in
    if starts_with (to_lower ep) "unix://" || starts_with (to_lower ep) "tcp://"
    then (let (proto, addr) = cut ep "://" in if addr == "" then invalid else ok (proto, addr))
    else invalid

-- The address that `nonBlockingGRPCServer.serve` listens on.
unfoldable pub listen_address : String × String → String
listen_address (proto, addr) = if proto == "unix" then "/" <> addr else addr

-- `splitLabel` of cmd/commands/config.go: `none` is the nil map.
unfoldable pub split_label : String → Option (Dict String)
split_label s = elim (split s b'=') [ k ∷ v ∷ [] ↦ some ((k, v) ∷ []) | _ ↦ none ]
