-- ===== src/Scsync/Handler/Tests.antt =====
-- A node with an empty folder, and one that fetches it.
use das_protokoll.Base.{replicate, ℕ, ◌≡◌, ◌↔◌, refl, false, none, some, List, [], ◌∷◌, ◌++◌, In}
use das_protokoll.Base.Assoc.{find_key, insert_key}
use das_protokoll.Scsync.BlockDb.{get, contains, lookup}
use das_protokoll.Scsync.Codec.{root_update}
use das_protokoll.Scsync.Frontend.{decoded_dir, to_block, decode_as, from_full}
use das_protokoll.Scsync.Frontend.Instances.{sealing, read_children, write_children}
use das_protokoll.Scsync.Frontend.Visitor.Whole.{Whole}
use das_protokoll.Scsync.Handler.{
  RootUpdateResponse, Handler, Effect, cancel, spawn_retry, return_retry, unconnected_root_update,
  handle_root_update_response, request_missing, dispatch,
}
use das_protokoll.Scsync.Handler.Progress.{Progress, KeepsFull}
use das_protokoll.Scsync.Handler.Steps.{dispatch-Progress}
use das_protokoll.Scsync.Handler.Reachable.{message, here, next, RootWhole, Reach-RootWhole}
use das_protokoll.Scsync.Handler.Updates.{
  Answers, unconnected_root_update_lem, Unharmed, dispatch_unknown, repeated_response,
}
use das_protokoll.Scsync.Handler.Requests.{Pending, request_missing_lem}
use das_protokoll.Scsync.Handler.Retry.{
  elapsed, answered, canceled, waiting, finished, panicked, request_retry, request_retry_lem,
}
use das_protokoll.Scsync.Handler.TestNode.{
  empty_dir, own, fetched, node, asked, update, opened, dispatched,
}

unconnected_root_update_example : Answers 9 update node (unconnected_root_update 40 9 update node)
unconnected_root_update_example = unconnected_root_update_lem 40 9 update node

no_client : find_key 9 node.clients ≡ none
unfolding find_key
no_client = refl

dispatch_unknown_example :
    (r : Handler × List Effect) × (dispatch sealing 2 40 9 (root_update update) node ≡ some r)
    × Unharmed 9 node r
dispatch_unknown_example = dispatch_unknown sealing 2 40 9 (root_update update) node no_client

dispatch-Progress_example : Progress sealing node.blockdb (opened.0.blockdb)
dispatch-Progress_example =
    dispatch-Progress sealing 2 40 9 (root_update update) node (opened.0) (opened.1) dispatched

own_root-Whole : RootWhole sealing node.blockdb
unfolding Whole get lookup to_block write_children decode_as from_full read_children
own_root-Whole = (1, (own, decoded_dir empty_dir, refl, refl, tt))

Reach-RootWhole_example :
    RootWhole sealing (opened.0.blockdb) × KeepsFull node.blockdb (opened.0.blockdb)
Reach-RootWhole_example =
    Reach-RootWhole sealing node (opened.0) own_root-Whole
      (next here (message 2 40 9 (root_update update) (opened.0) (opened.1) dispatched))

abbrev response : RootUpdateResponse
response = record { from_blockid = own.id; to_blockid = fetched.id; to_key = 2 }

abbrev puller : Handler
puller = record node { clients = (9, asked) ∷ [] }

abbrev pulled : Handler
pulled = record puller {
  clients = (9, record asked { pending_block_requests = (fetched.id, 0) ∷ [] }) ∷ [];
  channels = 1;
}

pulls :
    handle_root_update_response 9 response puller ≡ some (pulled, return_retry 0 9 fetched.id ∷ [])
unfolding handle_root_update_response find_key insert_key
pulls = refl

repeated_response_example :
    (h2 : Handler) × (effects' : List Effect) × (handle_root_update_response 9 response pulled
      ≡ some (h2, effects'))
    × In (return_retry 0 9 fetched.id) (return_retry 0 9 fetched.id ∷ [])
    × In (cancel 0) effects'
repeated_response_example =
    repeated_response 9 response puller pulled (return_retry 0 9 fetched.id ∷ []) pulls

request_missing_example :
    let r = request_missing 9 node.blockdb (own.id ∷ fetched.id ∷ []) 5 asked in
    ((In fetched.id (own.id ∷ fetched.id ∷ []) × (contains fetched.id node.blockdb ≡ false))
      → Pending fetched.id (r.0))
    × (((c : ℕ) × In (spawn_retry c 9 fetched.id) (r.2))
        ↔ (In fetched.id (own.id ∷ fetched.id ∷ []) × (contains fetched.id node.blockdb ≡ false)))
request_missing_example =
    request_missing_lem 9 node.blockdb (own.id ∷ fetched.id ∷ []) 5 asked fetched.id

request_retry_example :
    (request_retry 0 (replicate 2 elapsed) ≡ waiting 3)
    × (request_retry 0 (replicate 2 elapsed ++ answered ∷ elapsed ∷ []) ≡ finished 3)
    × (request_retry 0 (replicate 2 elapsed ++ canceled ∷ elapsed ∷ []) ≡ panicked 3)
request_retry_example = request_retry_lem 2 (elapsed ∷ [])
