-- ===== src/Repo/Extends.antt =====
-- How the store may change under a handler: rows are added to the tables of messages, and the
-- logs stay. The other tables are free.
use tokenbridge_monitor.Base.{◌≡◌, refl, ◌∙◌}
use tokenbridge_monitor.Repo.Store.{Store}
use tokenbridge_monitor.Repo.Table.{Grows, Grows-refl, Grows-trans}

pub record Extends (s t : Store) : Type 0 where
  pub logs : t.logs ≡ s.logs
  pub messages : Grows s.messages t.messages
  pub sent : Grows s.sent_messages t.sent_messages
  pub signed : Grows s.signed_messages t.signed_messages
  pub collected : Grows s.collected_messages t.collected_messages
  pub executed : Grows s.executed_messages t.executed_messages
  pub requests : Grows s.information_requests t.information_requests
  pub sent_requests : Grows s.sent_information_requests t.sent_information_requests
  pub signed_requests : Grows s.signed_information_requests t.signed_information_requests
  pub executed_requests : Grows s.executed_information_requests t.executed_information_requests

pub Extends-refl : (s : Store) → Extends s s
Extends-refl s = record {
  logs = refl;
  messages = Grows-refl _;
  sent = Grows-refl _;
  signed = Grows-refl _;
  collected = Grows-refl _;
  executed = Grows-refl _;
  requests = Grows-refl _;
  sent_requests = Grows-refl _;
  signed_requests = Grows-refl _;
  executed_requests = Grows-refl _;
}

pub Extends-trans : (s t u : Store) → Extends s t → Extends t u → Extends s u
Extends-trans s t u a b = record {
  logs = b.logs ∙ a.logs;
  messages = Grows-trans _ _ _ a.messages b.messages;
  sent = Grows-trans _ _ _ a.sent b.sent;
  signed = Grows-trans _ _ _ a.signed b.signed;
  collected = Grows-trans _ _ _ a.collected b.collected;
  executed = Grows-trans _ _ _ a.executed b.executed;
  requests = Grows-trans _ _ _ a.requests b.requests;
  sent_requests = Grows-trans _ _ _ a.sent_requests b.sent_requests;
  signed_requests = Grows-trans _ _ _ a.signed_requests b.signed_requests;
  executed_requests = Grows-trans _ _ _ a.executed_requests b.executed_requests;
}
