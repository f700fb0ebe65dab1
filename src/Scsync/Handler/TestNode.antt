-- ===== src/Scsync/Handler/TestNode.antt =====
-- A node with an empty folder, which is told of another empty folder.
use das_protokoll.Base.{◌≡◌, refl, none, some, List, [], ◌∷◌}
use das_protokoll.Base.Assoc.{find_key}
use das_protokoll.Scsync.BlockDb.{BlockRef, block_ref, no_hint, Full, full_block}
use das_protokoll.Scsync.Codec.{root_update}
use das_protokoll.Scsync.Frontend.{Dir, to_block}
use das_protokoll.Scsync.Frontend.Instances.{sealing, dir_cbor}
use das_protokoll.Scsync.Frontend.Disk.{folder_node}
use das_protokoll.Scsync.Handler.{
  RootUpdate, Client, Handler, Effect, default_client, unconnected_root_update, dispatch,
}

abbrev pub empty_dir : Dir
empty_dir = record { children = [] }

abbrev pub own : Full
own = (to_block sealing dir_cbor empty_dir 1 1).1

abbrev pub own_root : BlockRef
own_root = block_ref own.id 1 no_hint

abbrev pub fetched : Full
fetched = (to_block sealing dir_cbor empty_dir 2 2).1

abbrev pub new_root : BlockRef
new_root = block_ref fetched.id 2 no_hint

abbrev pub node : Handler
node = record {
  folder = 3 ∷ [];
  disk = (3 ∷ [], folder_node) ∷ ([], folder_node) ∷ [];
  blockdb = record { root = own_root; pending_root = none; blocks = (own.id, full_block own) ∷ [] };
  clients = [];
  channels = 0;
}

abbrev pub asked : Client
asked = default_client 40

abbrev pub update : RootUpdate
update = record { nonce = 0; from_blockid = 0; to_blockref = new_root }

abbrev pub opened : Handler × List Effect
opened = unconnected_root_update 40 9 update node

pub dispatched : dispatch sealing 2 40 9 (root_update update) node ≡ some opened
unfolding dispatch find_key
dispatched = refl
