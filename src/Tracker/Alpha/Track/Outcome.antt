-- ===== src/Tracker/Alpha/Track/Outcome.antt =====
-- What `Track` makes of the store, by the contract of the client.
use depscloud.Base.{ok, ◌≡◌}
use depscloud.Tracker.Alpha.Schema.{Env}
use depscloud.Tracker.Alpha.Client.{GraphStoreClient}
use depscloud.Tracker.Alpha.Track.{Index, SourceRequest, get_current}
use depscloud.Tracker.Alpha.Track.{get_proposed, to_delete}
use depscloud.Base.Dict.{values}
use depscloud.Base.Bytes.{Bytes}

module _ (env : Env) {S : Type 0} (client : GraphStoreClient S) where
  -- A plan that a request leads to in a state.
  pub record Planned (req : SourceRequest) (s : S) (current proposed : Index) : Type 0 where
    pub now : get_current env client req.source s ≡ ok current
    pub then_ : get_proposed env req ≡ ok proposed

  -- `Track` that succeeds has written the plan: two calls that reported success.
  pub record Written (current proposed : Index) (s s' : S) : Type 0 where
    pub between : S
    pub deleted : client.delete_items (to_delete env client current proposed) s ≡ (ok tt, between)
    pub put_ : client.put_items (values proposed) between ≡ (ok tt, s')
