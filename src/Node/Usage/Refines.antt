-- ===== src/Node/Usage/Refines.antt =====
-- Any sequence of calls of the node service, on any nodes, against the usage.
use csi_alcub.Base.{
  ℕ, String, true, Option, some, List, [], ◌∷◌, ◌≡◌, sym, ap, ◌∙◌, inl, inr, arith, nat_eq,
  if◌then◌else◌,
}
use csi_alcub.Base.Exec.{Result, is_ok, Result-cases}
use csi_alcub.Process.{Process}
use csi_alcub.Api.{CsiAlcub}
use csi_alcub.Manager.{get_by_uuid, get_name_by_uuid}
use csi_alcub.Manager.Server.{IsServer, get_by_uuid_found}
use csi_alcub.Rpc.{RpcError, NodePublishVolumeRequest, NodeUnpublishVolumeRequest}
use csi_alcub.Node.{Node}
use csi_alcub.Node.Publish.{node_publish_volume, node_unpublish_volume}
use csi_alcub.Node.Laws.{node_unpublish_volume_ok}
use csi_alcub.Node.Records.{node_publish_volume_records, node_unpublish_volume_records}
use csi_alcub.Node.Usage.{
  Outcome, Call, publishes, unpublishes, node_of, Uses, Serves, done, then_call, status_node,
  usage_of, IsApart,
}
use csi_alcub.Node.Usage.Frame.{node_publish_volume_others, node_unpublish_volume_others}

-- The memory of each plugin, and the world that they share.
abbrev pub Plugins : Type 0 → Type 0
Plugins W = (ℕ → Process W) × W

module _ {W : Type 0} (nodes : ℕ → Node W) where
  abbrev handle : Call → Process W → Result RpcError (Unit {0}) × Process W
  handle (publishes i req) s = node_publish_volume (nodes i) req s
  handle (unpublishes i req) s = node_unpublish_volume (nodes i) req s

  abbrev volume_of : Call → String
  volume_of (publishes i req) = req.volume_id
  volume_of (unpublishes i req) = req.volume_id

  -- A call is about the volume whose name the plugin's index holds for the id of the request.
  unfoldable pub call_once : Call → Plugins W → Outcome × Plugins W
  call_once call (memories, w) =
      let i = node_of call in
      let id = volume_of call in
      let s : Process W = record (memories i) { world = w } in
      let (r, t) = handle call s in
      (
        record {
          name = get_name_by_uuid id s.alcub_control;
          shown = status_node (get_by_uuid (nodes i).alcub_control id s).0;
          good = is_ok r;
        },
        ((λ j. if nat_eq i j then t else memories j), t.world),
      )

  unfoldable pub call_all : List Call → Plugins W → List Outcome × Plugins W
  call_all [] p = ([], p)
  call_all (call ∷ calls) p =
      let (o, q) = call_once call p in let (os, r) = call_all calls q in (o ∷ os, r)

  module _ (stored : W → String → Option CsiAlcub)
      (srv : (i : ℕ) → IsServer (nodes i).alcub_control stored)
      (apart : (i : ℕ) → IsApart stored (nodes i)) where
    node_publish_volume-takes :
        (i : ℕ) (req : NodePublishVolumeRequest) (s : Process W)
        → let (r, t) = node_publish_volume (nodes i) req s in
          is_ok r ≡ true
          → usage_of stored t.world (get_name_by_uuid req.volume_id s.alcub_control)
            ≡ (nodes i).nodename
    node_publish_volume-takes i req s good =
        let c = nodes i in
        elim (Result-cases (node_publish_volume c req s).0) [
          | inr (e, bad) ↦ absurd (ground arith)
          | inl (_, well) ↦
              let (alcub, new, found, now, mine, _, _, _) =
                node_publish_volume_records c stored (srv i) req s well in
              let (named, _) =
                get_by_uuid_found c.alcub_control stored (srv i) req.volume_id s alcub found in
              ground (arith, named, now)
        ]

    node_unpublish_volume-gives_up :
        (i : ℕ) (req : NodeUnpublishVolumeRequest) (s : Process W)
        → let (r, t) = node_unpublish_volume (nodes i) req s in
          is_ok r ≡ true
          → (status_node (get_by_uuid (nodes i).alcub_control req.volume_id s).0
              ≡ (nodes i).nodename)
            × (usage_of stored t.world (get_name_by_uuid req.volume_id s.alcub_control) ≡ "")
    node_unpublish_volume-gives_up i req s good =
        let c = nodes i in
        elim (Result-cases (node_unpublish_volume c req s).0) [
          | inr (e, bad) ↦ absurd (ground arith)
          | inl (_, well) ↦
              let (alcub, found, p) = node_unpublish_volume_records c stored (srv i) req s well in
              let (alcub', found', went) = node_unpublish_volume_ok c s req well in
              let (named, _) =
                get_by_uuid_found c.alcub_control stored (srv i) req.volume_id s alcub found in
              let same : some alcub ≡ some alcub' = sym found ∙ found' in
              (ground (arith, found, p.mine), ground (arith, named, same, went, p.now, p.cleared))
        ]

    call_once-Uses :
        (call : Call) (p : Plugins W)
        → let (o, q) = call_once call p in
          Uses call o (nodes (node_of call)).nodename (usage_of stored p.1) (usage_of stored q.1)
    unfolding call_once
    call_once-Uses (publishes i req) (memories, w) =
        let s : Process W = record (memories i) { world = w } in
        (
          node_publish_volume-takes i req s,
          λ n ne.
              ap status_node
                (node_publish_volume_others (nodes i) stored (srv i) (apart i) n req s ne),
        )
    call_once-Uses (unpublishes i req) (memories, w) =
        let s : Process W = record (memories i) { world = w } in
        (
          node_unpublish_volume-gives_up i req s,
          λ n ne.
              ap status_node
                (node_unpublish_volume_others (nodes i) stored (srv i) (apart i) n req s ne),
        )

    -- The node service refines the usage: whatever calls of `NodePublishVolume` and
    -- `NodeUnpublishVolume` any nodes serve, one after the other, the nodes that the resources
    -- record in the end are those of a run of the usage. A call is about the volume of the name that
    -- the index of its plugin holds for the id of the request. A publication that succeeds has taken
    -- that volume for its node; an unpublication that succeeds has given up that volume, which the
    -- lookup has shown as used by its own node; and no call, even one that fails, changes the node of
    -- another volume. What the lookup shows may be older than what is stored.
    pub call_all-Serves :
        (calls : List Call) (p : Plugins W)
        → let (os, q) = call_all calls p in
          Serves (λ i. (nodes i).nodename) (usage_of stored p.1) calls os (usage_of stored q.1)
    unfolding call_all
    call_all-Serves [] p = done
    call_all-Serves (call ∷ calls) p =
        then_call (call_once-Uses call p) (call_all-Serves calls (call_once call p).1)
