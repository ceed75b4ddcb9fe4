-- ===== src/Identity.antt =====
-- pkg/server/identity.go: the identity service of both plugins.
use csi_alcub.Base.{String, List, ◌==◌, is_empty, if◌then◌else◌}
use csi_alcub.Base.Exec.{GoError, errorf, Result, ok, err, pure}
use csi_alcub.Rpc.{Handler, RpcError, unavailable, status}

-- `csi.PluginCapability_Service_Type`, as far as the program names it.
pub data Capability : Type 0 where
  controller_service volume_accessibility_constraints : Capability

pub record IdentityServer : Type 0 where
  pub caps : List Capability
  pub name : String
  pub version : String

pub record PluginInfo : Type 0 where
  pub name : String
  pub vendor_version : String

abbrev pub version : String
version = "1.0.0"

-- `ConstraCapability`
abbrev pub constra_capability : Capability
constra_capability = volume_accessibility_constraints

-- `ControllerCapability`
abbrev pub controller_capability : Capability
controller_capability = controller_service

-- `NewIdenty`: it makes one capability of the answer for each that it is given.
unfoldable pub new_identy : String → List Capability → Result GoError IdentityServer
new_identy drivername caps =
    if is_empty caps
    then err (errorf "Capability must have one at least")
    else ok (record { caps = caps; name = drivername; version = version })

-- `IdentityServer.GetPluginInfo`
unfoldable pub get_plugin_info : IdentityServer → Result RpcError PluginInfo
get_plugin_info c =
    if c.name == ""
    then err (status unavailable "Driver name not configured")
    else if c.version == ""
    then err (status unavailable "Driver is missing version")
    else ok (record { name = c.name; vendor_version = c.version })

-- `IdentityServer.GetPluginCapabilities`
unfoldable pub get_plugin_capabilities : IdentityServer → List Capability
get_plugin_capabilities c = c.caps

-- `IdentityServer.Probe`
unfoldable pub probe : {S : Type 0} → Handler S (Unit {0})
probe = pure tt
