-- ===== src/Lifecycle/Reconcile/Submit.antt =====
-- `reconcile`: the submission of a generation.
pub mod Refusals
pub mod Record
pub mod Replay
pub mod Reuse
pub mod Listeners
use realm.Base.{
  ℕ, ◌+◌, String, ◌<>◌, List, [], ◌∷◌, ◌++◌, Option, none, some, Bool, true, false, not, ◌||◌, ◌&&◌,
  is_some, if◌then◌else◌, any, map, find, unwrap_or, Result, ok, err, ltb, nat_eq, length,
}
use realm.Base.Map
use realm.Base.Map.{Map}
use realm.Endpoint.{EndpointId, id_key}
use realm.Lifecycle.Manager.{System, Manager, EndpointSpec, Generation, SlotOutcome, is_failed, new}
use realm.Lifecycle.Manager.Table.{ids}
use realm.Lifecycle.Manager.Apply
use realm.Lifecycle.Reconcile.{
  Source, DesiredEndpoint, ReconcileRequest, Reconciler, ReconcileResponse, ReconcileError, stale,
  not_ready, GenerationState, applied, partially_applied, Snapshot,
}
use realm.Lifecycle.Reconcile.Apply.{apply_generation, outcome_failed}

abbrev pub is_partial_state : GenerationState → Bool
is_partial_state applied = false
is_partial_state partially_applied = true

abbrev bytes_eq : List ℕ → List ℕ → Bool
bytes_eq [] [] = true
bytes_eq [] (b ∷ bs) = false
bytes_eq (a ∷ as_) [] = false
bytes_eq (a ∷ as_) (b ∷ bs) = nat_eq a b && bytes_eq as_ bs

module _ {S : Type 0} where
  -- `Reconciler::new`, `not_ready` and `with_snapshot`.
  abbrev pub fresh : Bool → Bool → Reconciler S
  fresh ready snapshot = record {
    manager = new;
    applied = [];
    active = none;
    last = none;
    last_digest = none;
    partial = false;
    ready = ready;
    snapshot = snapshot;
    calls = 0;
    writes = [];
  }

  unfoldable pub set_ready : Bool → Reconciler S → Reconciler S
  set_ready b r = record r { ready = b }

  -- A stable sort by id.
  unfoldable pub place_pair : EndpointId × S → List (EndpointId × S) → List (EndpointId × S)
  place_pair e [] = e ∷ []
  place_pair e (f ∷ fs) =
      let rest = place_pair e fs in if id_key.klt f.0 e.0 then f ∷ rest else e ∷ f ∷ fs

  unfoldable pub sorted_pairs : List (DesiredEndpoint S) → List (EndpointId × S)
  unfolding place_pair
  sorted_pairs [] = []
  sorted_pairs (e ∷ es) = place_pair (e.id, e.spec) (sorted_pairs es)

  -- A snapshot is written where a store is configured.
  unfoldable pub persist : Reconciler S → Reconciler S
  persist r =
      if r.snapshot
      then record r {
        writes =
            record { generation = unwrap_or r.active 0; partial = r.partial; endpoints = r.applied }
            ∷ r.writes;
      }
      else r

-- The endpoints after their refresh, the errors of those that could not be refreshed, and the
-- number of calls.
pub record Refreshed (S : Type 0) : Type 0 where
  pub endpoints : List (DesiredEndpoint S)
  pub unrefreshed : Map EndpointId String
  pub calls : ℕ

module _ {S : Type 0} (src : Source S) where
  unfoldable pub digest_of : List (DesiredEndpoint S) → ℕ
  unfolding sorted_pairs
  digest_of es = src.hash (unwrap_or (src.to_vec_all (sorted_pairs es)) [])

  abbrev pub refresh_one : DesiredEndpoint S → Refreshed S → Result S String → Refreshed S
  refresh_one e acc (ok spec) = record acc {
    endpoints = acc.endpoints ++ record e { spec = spec } ∷ [];
    calls = acc.calls + 1;
  }
  refresh_one e acc (err x) = record acc {
    endpoints = acc.endpoints ++ e ∷ [];
    unrefreshed = Map.insert e.id x acc.unrefreshed;
    calls = acc.calls + 1;
  }

  unfoldable pub refresh_all : List (DesiredEndpoint S) → Refreshed S → Refreshed S
  refresh_all [] acc = acc
  refresh_all (e ∷ es) acc = refresh_all es (refresh_one e acc (src.refresh acc.calls e.spec))

  abbrev alike : Option (List ℕ) → Option (List ℕ) → Bool
  alike none b = false
  alike (some a) none = false
  alike (some a) (some b) = bytes_eq a b

  unfoldable pub serializes_alike : S → S → Bool
  serializes_alike a b = alike (src.to_vec a) (src.to_vec b)

  abbrev drifted : S → Option S → Bool
  drifted spec none = false
  drifted spec (some old) = not (src.same old spec) && serializes_alike old spec

  unfoldable pub material_drifted : Map EndpointId S → List (DesiredEndpoint S) → Option EndpointId
  material_drifted old [] = none
  material_drifted old (e ∷ es) =
      if drifted e.spec (Map.get old e.id) then some e.id else material_drifted old es

  abbrev pub digest_matches : Option ℕ → ℕ → Bool
  digest_matches none d = false
  digest_matches (some x) d = nat_eq x d

  abbrev pub is_active : Option Generation → Generation → Bool
  is_active none g = false
  is_active (some a) g = nat_eq a g

  abbrev pub is_older : Generation → Option Generation → Bool
  is_older g none = false
  is_older g (some a) = ltb g a

  -- The answer that a repeated submission of the active generation gets without being applied.
  abbrev pub replay :
      Reconciler S
      → Generation
      → ℕ
      → List (DesiredEndpoint S)
      → Option ReconcileResponse
      → Option (Result ReconcileResponse ReconcileError)
  replay r g d es none = none
  replay r g d es (some last) =
      if digest_matches r.last_digest d
      then some (elim (material_drifted r.applied es) [ none ↦ ok last | some id ↦ err (stale g) ])
      else some (err (stale g))

  abbrev pub no_errors : Map EndpointId String → Bool
  no_errors [] = true
  no_errors (e ∷ es) = false

  unfoldable pub replayed :
      Reconciler S → Generation → ℕ → Refreshed S → Option (Result ReconcileResponse ReconcileError)
  unfolding material_drifted serializes_alike
  replayed r g d f =
      if is_active r.active g && no_errors f.unrefreshed
      then replay r g d f.endpoints r.last
      else none

  module _ (sys : System) where
    -- After the application the response is recorded and the state is written out.
    unfoldable pub commit :
        Generation
        → ℕ
        → Reconciler S × ReconcileResponse
        → Reconciler S × Result ReconcileResponse ReconcileError
    unfolding persist
    commit g d (r, response) = (
      persist (record r {
        active = some g;
        partial = is_partial_state response.state;
        last = some response;
        last_digest = some d;
      }),
      ok response,
    )

    abbrev pub submit :
        ReconcileRequest S
        → Reconciler S
        → ℕ
        → Refreshed S
        → Option (Result ReconcileResponse ReconcileError)
        → Reconciler S × Result ReconcileResponse ReconcileError
    submit q r d f (some answer) = (record r { calls = f.calls }, answer)
    submit q r d f none = commit q.generation d (
        apply_generation sys src q.generation f.endpoints f.unrefreshed
          (record r { calls = f.calls }))

    abbrev pub refreshed : ReconcileRequest S → Reconciler S → Refreshed S
    refreshed q r =
        refresh_all q.endpoints (record { endpoints = []; unrefreshed = []; calls = r.calls })

    unfoldable pub admitted :
        ReconcileRequest S → Reconciler S → Reconciler S × Result ReconcileResponse ReconcileError
    admitted q r =
        let d = digest_of q.endpoints in
        let f = refreshed q r in submit q r d f (replayed r q.generation d f)

    -- By whether the process is ready, and whether the generation is older than the active one.
    abbrev pub gated :
        ReconcileRequest S
        → Reconciler S
        → Bool
        → Bool
        → Reconciler S × Result ReconcileResponse ReconcileError
    gated q r false older = (r, err not_ready)
    gated q r true true = (r, err (stale (unwrap_or r.active 0)))
    gated q r true false = admitted q r

    unfoldable pub reconcile :
        ReconcileRequest S → Reconciler S → Reconciler S × Result ReconcileResponse ReconcileError
    unfolding admitted
    reconcile q r = gated q r r.ready (is_older q.generation r.active)
