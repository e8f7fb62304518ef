-- ===== src/Monitor/Alerts/Requests.antt =====
-- db_alerts_provider.go: information requests that are not executed yet, and those for which the
-- validators have signed different data.
use tokenbridge_monitor.Base.{
  ℕ, ◌+◌, Bool, ◌&&◌, Option, List, [], ◌∷◌, map, any, filter_by, Bytes, ltb, ◌==◌, nat_eq,
  string_eq, bytes_eq, if◌then◌else◌,
}
use tokenbridge_monitor.Entity.{
  Hash, SentInformationRequest, InformationRequest, SignedInformationRequest,
  ExecutedInformationRequest,
}
use tokenbridge_monitor.Repo.Store.{Store}
use tokenbridge_monitor.Repo.Join.{join, left_join, is_none}
use tokenbridge_monitor.Exec.{ok, Exec, query}
use tokenbridge_monitor.Monitor.Alerts.Tables.{
  AlertJobParams, Place, Located, place_of, row_of, located, on_home,
}
use tokenbridge_monitor.Monitor.Alerts.Stuck.{group_by, count_some}

pub record StuckInformationRequest : Type 0 where
  pub place : Place
  pub message_id : Hash
  pub count : ℕ

pub record DifferentInformationSignature : Type 0 where
  pub place : Place
  pub message_id : Hash
  pub count : ℕ

abbrev RequestRow : Type 0
RequestRow = Located SentInformationRequest × InformationRequest

abbrev request_rows : Store → List RequestRow
request_rows s =
    join
      (λ (r : Located SentInformationRequest) (req : InformationRequest).
        (row_of r).bridge_id == req.bridge_id && req.message_id == (row_of r).message_id)
      (located (λ (sr : SentInformationRequest). sr.log_id) s s.sent_information_requests)
      s.information_requests

abbrev signs : RequestRow → SignedInformationRequest → Bool
signs r sig = sig.bridge_id == r.1.bridge_id && r.1.message_id == sig.message_id

abbrev StuckRow : Type 0
StuckRow = (RequestRow × Option SignedInformationRequest) × Option ExecutedInformationRequest

abbrev stuck_rows : Store → List StuckRow
stuck_rows s =
    left_join
      (λ (r : RequestRow × Option SignedInformationRequest) (er : ExecutedInformationRequest).
        r.0.1.bridge_id == er.bridge_id && r.0.1.message_id == er.message_id)
      (left_join signs (request_rows s) s.signed_information_requests)
      s.executed_information_requests

abbrev signed_rows : Store → List (RequestRow × SignedInformationRequest)
signed_rows s = join signs (request_rows s) s.signed_information_requests

-- GROUP BY l.id, r.id, bt.timestamp; a request's bridge and id stand for its serial.
abbrev same_request : RequestRow → RequestRow → Bool
same_request (((sr, l), bt), req) (((sr', l'), bt'), req') =
    l.id == l'.id
    && (req.bridge_id == req'.bridge_id && req.message_id == req'.message_id)
    && bt.timestamp == bt'.timestamp

-- `count(DISTINCT data)`
abbrev count_distinct : List Bytes → List Bytes → ℕ
count_distinct marked [] = 0
count_distinct marked (x ∷ xs) =
    let others = count_distinct marked xs in
    let rest = count_distinct (x ∷ marked) xs in
    if any (λ y. y == x) marked then others else 1 + rest

module _ (params : AlertJobParams) where
  abbrev in_scope : RequestRow → Bool
  in_scope r = on_home params r.0 && (row_of r.0).bridge_id == params.bridge

  unfoldable pub find_stuck_information_requests : Exec (List StuckInformationRequest)
  find_stuck_information_requests = query λ s. ok (
      map
        (λ (g : StuckRow × List StuckRow). record {
          place = place_of g.0.0.0.0;
          message_id = g.0.0.0.1.message_id;
          count = count_some (λ (r : StuckRow). r.0.1) g.1;
        })
        (group_by (λ (a b : StuckRow). same_request a.0.0 b.0.0)
          (filter_by (λ (r : StuckRow). in_scope r.0.0 && is_none r.1) (stuck_rows s))))

  abbrev different_signature :
      RequestRow × SignedInformationRequest
      → List (RequestRow × SignedInformationRequest)
      → DifferentInformationSignature
  different_signature r group = record {
    place = place_of r.0.0;
    message_id = r.0.1.message_id;
    count =
        count_distinct [] (map (λ (x : RequestRow × SignedInformationRequest). x.1.payload) group);
  }

  unfoldable pub find_different_information_signatures : Exec (List DifferentInformationSignature)
  find_different_information_signatures = query λ s. ok (
      filter_by (λ d. ltb 1 d.count)
        (map
          (λ (g : (RequestRow × SignedInformationRequest)
              × List (RequestRow × SignedInformationRequest)).
            different_signature g.0 g.1)
          (group_by (λ (a b : RequestRow × SignedInformationRequest). same_request a.0 b.0)
            (filter_by (λ (r : RequestRow × SignedInformationRequest). in_scope r.0)
              (signed_rows s)))))
