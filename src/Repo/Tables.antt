-- ===== src/Repo/Tables.antt =====
-- The tables that only grow, each with how it is read and replaced in the store.
use tokenbridge_monitor.Base.{refl}
use tokenbridge_monitor.Entity.{
  Message, SentMessage, SignedMessage, CollectedMessage, ExecutedMessage, InformationRequest,
  SentInformationRequest, SignedInformationRequest, ExecutedInformationRequest,
}
use tokenbridge_monitor.Repo.Table.{Grows-refl}
use tokenbridge_monitor.Repo.Growing.{TableOf}

abbrev pub messages_table : TableOf Message
messages_table = record {
  rows = λ s. s.messages;
  with_rows = λ s rs. record s { messages = rs };
  rows-with_rows = λ s rs. refl;
  with_rows-rows = λ s. refl;
  with_rows-Extends = λ s rs g. record {
    logs = refl;
    messages = g;
    sent = Grows-refl _;
    signed = Grows-refl _;
    collected = Grows-refl _;
    executed = Grows-refl _;
    requests = Grows-refl _;
    sent_requests = Grows-refl _;
    signed_requests = Grows-refl _;
    executed_requests = Grows-refl _;
  };
  rows-Grows = λ s t x. x.messages;
}

abbrev pub sent_messages_table : TableOf SentMessage
sent_messages_table = record {
  rows = λ s. s.sent_messages;
  with_rows = λ s rs. record s { sent_messages = rs };
  rows-with_rows = λ s rs. refl;
  with_rows-rows = λ s. refl;
  with_rows-Extends = λ s rs g. record {
    logs = refl;
    messages = Grows-refl _;
    sent = g;
    signed = Grows-refl _;
    collected = Grows-refl _;
    executed = Grows-refl _;
    requests = Grows-refl _;
    sent_requests = Grows-refl _;
    signed_requests = Grows-refl _;
    executed_requests = Grows-refl _;
  };
  rows-Grows = λ s t x. x.sent;
}

abbrev pub signed_messages_table : TableOf SignedMessage
signed_messages_table = record {
  rows = λ s. s.signed_messages;
  with_rows = λ s rs. record s { signed_messages = rs };
  rows-with_rows = λ s rs. refl;
  with_rows-rows = λ s. refl;
  with_rows-Extends = λ s rs g. record {
    logs = refl;
    messages = Grows-refl _;
    sent = Grows-refl _;
    signed = g;
    collected = Grows-refl _;
    executed = Grows-refl _;
    requests = Grows-refl _;
    sent_requests = Grows-refl _;
    signed_requests = Grows-refl _;
    executed_requests = Grows-refl _;
  };
  rows-Grows = λ s t x. x.signed;
}

abbrev pub collected_messages_table : TableOf CollectedMessage
collected_messages_table = record {
  rows = λ s. s.collected_messages;
  with_rows = λ s rs. record s { collected_messages = rs };
  rows-with_rows = λ s rs. refl;
  with_rows-rows = λ s. refl;
  with_rows-Extends = λ s rs g. record {
    logs = refl;
    messages = Grows-refl _;
    sent = Grows-refl _;
    signed = Grows-refl _;
    collected = g;
    executed = Grows-refl _;
    requests = Grows-refl _;
    sent_requests = Grows-refl _;
    signed_requests = Grows-refl _;
    executed_requests = Grows-refl _;
  };
  rows-Grows = λ s t x. x.collected;
}

abbrev pub executed_messages_table : TableOf ExecutedMessage
executed_messages_table = record {
  rows = λ s. s.executed_messages;
  with_rows = λ s rs. record s { executed_messages = rs };
  rows-with_rows = λ s rs. refl;
  with_rows-rows = λ s. refl;
  with_rows-Extends = λ s rs g. record {
    logs = refl;
    messages = Grows-refl _;
    sent = Grows-refl _;
    signed = Grows-refl _;
    collected = Grows-refl _;
    executed = g;
    requests = Grows-refl _;
    sent_requests = Grows-refl _;
    signed_requests = Grows-refl _;
    executed_requests = Grows-refl _;
  };
  rows-Grows = λ s t x. x.executed;
}

abbrev pub information_requests_table : TableOf InformationRequest
information_requests_table = record {
  rows = λ s. s.information_requests;
  with_rows = λ s rs. record s { information_requests = rs };
  rows-with_rows = λ s rs. refl;
  with_rows-rows = λ s. refl;
  with_rows-Extends = λ s rs g. record {
    logs = refl;
    messages = Grows-refl _;
    sent = Grows-refl _;
    signed = Grows-refl _;
    collected = Grows-refl _;
    executed = Grows-refl _;
    requests = g;
    sent_requests = Grows-refl _;
    signed_requests = Grows-refl _;
    executed_requests = Grows-refl _;
  };
  rows-Grows = λ s t x. x.requests;
}

abbrev pub sent_information_requests_table : TableOf SentInformationRequest
sent_information_requests_table = record {
  rows = λ s. s.sent_information_requests;
  with_rows = λ s rs. record s { sent_information_requests = rs };
  rows-with_rows = λ s rs. refl;
  with_rows-rows = λ s. refl;
  with_rows-Extends = λ s rs g. record {
    logs = refl;
    messages = Grows-refl _;
    sent = Grows-refl _;
    signed = Grows-refl _;
    collected = Grows-refl _;
    executed = Grows-refl _;
    requests = Grows-refl _;
    sent_requests = g;
    signed_requests = Grows-refl _;
    executed_requests = Grows-refl _;
  };
  rows-Grows = λ s t x. x.sent_requests;
}

abbrev pub signed_information_requests_table : TableOf SignedInformationRequest
signed_information_requests_table = record {
  rows = λ s. s.signed_information_requests;
  with_rows = λ s rs. record s { signed_information_requests = rs };
  rows-with_rows = λ s rs. refl;
  with_rows-rows = λ s. refl;
  with_rows-Extends = λ s rs g. record {
    logs = refl;
    messages = Grows-refl _;
    sent = Grows-refl _;
    signed = Grows-refl _;
    collected = Grows-refl _;
    executed = Grows-refl _;
    requests = Grows-refl _;
    sent_requests = Grows-refl _;
    signed_requests = g;
    executed_requests = Grows-refl _;
  };
  rows-Grows = λ s t x. x.signed_requests;
}

abbrev pub executed_information_requests_table : TableOf ExecutedInformationRequest
executed_information_requests_table = record {
  rows = λ s. s.executed_information_requests;
  with_rows = λ s rs. record s { executed_information_requests = rs };
  rows-with_rows = λ s rs. refl;
  with_rows-rows = λ s. refl;
  with_rows-Extends = λ s rs g. record {
    logs = refl;
    messages = Grows-refl _;
    sent = Grows-refl _;
    signed = Grows-refl _;
    collected = Grows-refl _;
    executed = Grows-refl _;
    requests = Grows-refl _;
    sent_requests = Grows-refl _;
    signed_requests = Grows-refl _;
    executed_requests = g;
  };
  rows-Grows = λ s t x. x.executed_requests;
}
