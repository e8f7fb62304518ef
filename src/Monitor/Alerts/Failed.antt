-- ===== src/Monitor/Alerts/Failed.antt =====
-- db_alerts_provider.go: executions that failed on the other side.
use tokenbridge_monitor.Base.{
  Bool, not, ◌&&◌, ◌||◌, List, map, filter_by, ◌==◌, nat_eq, string_eq, bytes_eq,
}
use tokenbridge_monitor.Entity.{
  Address, Message, ExecutedMessage, InformationRequest, ExecutedInformationRequest,
}
use tokenbridge_monitor.Repo.Store.{Store}
use tokenbridge_monitor.Repo.Join.{join}
use tokenbridge_monitor.Exec.{ok, Exec, query}
use tokenbridge_monitor.Monitor.Alerts.Tables.{
  AlertJobParams, Place, Located, place_of, row_of, located, on_home, on_either,
}

pub record FailedExecution : Type 0 where
  pub place : Place
  pub sender : Address
  pub executor : Address

pub record FailedInformationRequest : Type 0 where
  pub place : Place
  pub sender : Address
  pub executor : Address
  pub status : Bool
  pub callback_status : Bool

abbrev executions : Store → List (Located (Message × ExecutedMessage))
executions s =
    located (λ (r : Message × ExecutedMessage). r.1.log_id) s
      (join (λ m em. m.bridge_id == em.bridge_id && em.message_id == m.message_id) s.messages
        s.executed_messages)

abbrev information_executions :
    Store → List (Located (InformationRequest × ExecutedInformationRequest))
information_executions s =
    located (λ (r : InformationRequest × ExecutedInformationRequest). r.1.log_id) s
      (join (λ m er. m.bridge_id == er.bridge_id && er.message_id == m.message_id)
        s.information_requests s.executed_information_requests)

module _ (params : AlertJobParams) where
  abbrev is_failed_execution : Located (Message × ExecutedMessage) → Bool
  is_failed_execution r =
      let (m, em) = row_of r in
      not em.status
      && (m.data_type == 0 || m.data_type == 128)
      && em.bridge_id == params.bridge
      && on_either params r

  abbrev failed_execution : Located (Message × ExecutedMessage) → FailedExecution
  failed_execution r = record {
    place = place_of r;
    sender = (row_of r).0.sender;
    executor = (row_of r).0.executor;
  }

  unfoldable pub find_failed_executions : Exec (List FailedExecution)
  find_failed_executions =
      query λ s. ok (map failed_execution (filter_by is_failed_execution (executions s)))

  abbrev is_failed_information_request :
      Located (InformationRequest × ExecutedInformationRequest) → Bool
  is_failed_information_request r =
      let er = (row_of r).1 in
      (not er.status || not er.callback_status) && er.bridge_id == params.bridge && on_home params r

  abbrev failed_information_request :
      Located (InformationRequest × ExecutedInformationRequest) → FailedInformationRequest
  failed_information_request r = record {
    place = place_of r;
    sender = (row_of r).0.sender;
    executor = (row_of r).0.executor;
    status = (row_of r).1.status;
    callback_status = (row_of r).1.callback_status;
  }

  unfoldable pub find_failed_information_requests : Exec (List FailedInformationRequest)
  find_failed_information_requests = query λ s. ok (
      map failed_information_request
        (filter_by is_failed_information_request (information_executions s)))
