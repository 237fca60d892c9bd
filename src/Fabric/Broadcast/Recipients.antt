-- ===== src/Fabric/Broadcast/Recipients.antt =====
-- The plain targets of a broadcast of src/kernel.rs.
use trouper.Prelude.{◌≡◌, Bool, not, ◌&&◌, arith, retain, contains, contains-retain}
use trouper.Journal.{ActorPath, SchemaId}
use trouper.Registry.{handlers_of}
use trouper.Registry.Slots.{resolve}
use trouper.Registry.Sets.{is_member, is_some}
use trouper.Fabric.{Fabric}
use trouper.Fabric.Broadcast.{broadcast_targets}

all_of : (a b c : Bool) → ((a && b) && not ((a && b) && c)) ≡ (a && b && not c)
all_of a b c = ground arith

module _ {P : Type 0} where
  -- The plain targets are the live handlers that are no members.
  pub broadcast_targets-contains :
      (id : SchemaId) (f : Fabric P) (p : ActorPath)
      → contains (broadcast_targets id f) p ≡ (
          contains (handlers_of id f.routing) p
          && is_some (resolve p f.slots)
          && not (is_member f.projector_sets p))
  unfolding broadcast_targets
  broadcast_targets-contains id f p =
      let live = retain (λ q. is_some (resolve q f.slots)) (handlers_of id f.routing) in
      let k = contains-retain (λ q. is_some (resolve q f.slots)) (handlers_of id f.routing) p in
      let m = contains-retain (is_member f.projector_sets) live p in
      let t =
        contains-retain (λ q. not (contains (retain (is_member f.projector_sets) live) q)) live p in
      rw (t, m, k)
        (all_of (contains (handlers_of id f.routing) p) (is_some (resolve p f.slots))
          (is_member f.projector_sets p))
