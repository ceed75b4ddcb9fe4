-- ===== src/Samples/Registry.antt =====
-- Tests of the controller against the registry of volumes, and of the service as a whole.
use csi_alcub.Base.{
  String, true, false, none, some, [], ◌∷◌, ◌≡◌, refl, ◌≢◌, ◌⊎◌, inl, inr, arith, eq_iff,
  Option-cases,
}
use csi_alcub.Base.Exec.{Kind, GoError, ok, err}
use csi_alcub.Manager.{AlcubClient}
use csi_alcub.Manager.Server.{IsServer}
use csi_alcub.Rpc.{Code, status}
use csi_alcub.Control.{Controller}
use csi_alcub.Base.Dict.{Dict}
use csi_alcub.Control.Service
use csi_alcub.Control.Service.{RpcType, any_type, controller_get_capabilities, serve}
use csi_alcub.Control.Advertised.{serve_advertised}
use csi_alcub.Registry.{IsRegistry, IsApart, volumes_of}
use csi_alcub.Registry.Refines.{create, delete, Behaves, call_all, call_all-Behaves}
use csi_alcub.Samples.{World, stored, remove, server, stored_named, missing, controller, empty}
use csi_alcub.Samples.Volumes.{request}

abbrev exists : GoError
exists = record { kind = Kind.already_exists; message = "already exists" }

-- The server, where a creation fails if the name is taken, and a deletion if there is no object.
unfoldable pub strict : AlcubClient World
unfolding server
strict = record server {
  create = λ obj w. elim (stored w obj.meta.name) [
    | some old ↦ (err exists, w)
    | none ↦ (ok tt, record obj { meta = record obj.meta { deleting = false } } ∷ w)
  ];
  delete = λ obj w. elim (stored w obj.meta.name) [
    | some old ↦ (ok tt, remove obj.meta.name w)
    | none ↦ (err missing, w)
  ];
}

stored-remove :
    (m n : String) (w : World)
    → (stored (remove m w) m ≡ none) × (m ≢ n → stored (remove m w) n ≡ stored w n)
unfolding stored remove
stored-remove m n [] = (refl, λ h. refl)
stored-remove m n (x ∷ w) =
    ground (arith, eq_iff x.meta.name m, eq_iff x.meta.name n, stored-remove m n w)

strict-IsServer : IsServer strict stored
unfolding strict server stored
strict-IsServer = record {
  get_named = λ name w obj e. stored_named w name obj (ground arith);
  get_keeps = λ name w m. refl;
  create_ok = λ obj w e. (
    record obj { meta = record obj.meta { deleting = false } },
    ground (arith, eq_iff obj.meta.name obj.meta.name),
    record { same_name = refl; same_spec = refl; same_status = refl },
  );
  update_ok = λ obj w e. (
    obj,
    ground (arith, eq_iff obj.meta.name obj.meta.name),
    record { same_name = refl; same_spec = refl; same_status = refl },
  );
  update_ne = λ obj w m h. ground (arith, eq_iff obj.meta.name m);
}

pub strict-IsRegistry : IsRegistry strict stored
unfolding strict server stored
strict-IsRegistry = record {
  server = strict-IsServer;
  create_new = λ obj w e. ground arith;
  create_alive = λ obj new w e f. ground (arith, eq_iff obj.meta.name obj.meta.name);
  create_ne = λ obj w n h. ground (arith, eq_iff obj.meta.name n);
  delete_ok = λ obj w e. elim (Option-cases (stored w obj.meta.name)) [
    | inl nothing ↦ absurd (ground arith)
    | inr (was, there) ↦
        (was, there, inl (ground (arith, there, (stored-remove obj.meta.name obj.meta.name w).0)))
  ];
  delete_ne = λ obj w n h. ground (arith, (stored-remove obj.meta.name n w).1 h);
}

abbrev keeper : Controller World
keeper = record controller { alcub_control = strict }

keeper-IsApart : IsApart keeper stored
keeper-IsApart = record {
  run_keeps = λ u command args w n. refl;
  class_keeps = λ name w n. refl;
  secret_keeps = λ space name w n. refl;
  dns_keeps = λ w n. refl;
  host_keeps = λ host dns w n. refl;
  list_keeps = λ w n. refl;
  uuid_keeps = λ w n. refl;
}

call_all-Behaves_example :
    let calls = create request ∷ create request ∷ delete "uuid-1" ∷ [] in
    Behaves
      (volumes_of stored [])
      calls
      (call_all keeper calls empty).0
      (volumes_of stored (call_all keeper calls empty).1.world)
call_all-Behaves_example =
    call_all-Behaves keeper stored strict-IsRegistry keeper-IsApart
      (create request ∷ create request ∷ delete "uuid-1" ∷ []) empty

serve_advertised_example :
    let call = Service.creates request in
    ((any_type RpcType.create_delete_volume controller_get_capabilities ≡ true)
      × ((m : String) → (serve controller call empty).0 ≢ err (status Code.unimplemented m)))
    ⊎ ((any_type RpcType.create_delete_volume controller_get_capabilities ≡ false)
        × (serve controller call empty ≡ (err (status Code.unimplemented ""), empty)))
serve_advertised_example =
    serve_advertised controller (Service.creates request) RpcType.create_delete_volume empty refl

abbrev fast_class : Dict String
fast_class = ("scname", "fast") ∷ []
