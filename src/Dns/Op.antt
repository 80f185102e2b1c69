-- ===== src/Dns/Op.antt =====
-- hickory_proto::op: messages, as the fields that the source sets and reads.
use lrmdns.Prelude.{ℕ, Bool, true, false, Option, none, List, [], ◌∷◌, ◌++◌}
use lrmdns.Dns.Rr.{Record, RecordType}

pub data MessageType : Type 0 where
  query response : MessageType

pub data OpCode : Type 0 where
  query : OpCode
  other : ℕ → OpCode

pub data ResponseCode : Type 0 where
  no_error form_err serv_fail nx_domain not_imp refused : ResponseCode
  other : ℕ → ResponseCode

pub record Query (Name : Type 0) : Type 0 where
  pub name : Name
  pub query_type : RecordType
  pub query_class : ℕ

pub record Edns : Type 0 where
  pub max_payload : ℕ
  pub version : ℕ
  pub dnssec_ok : Bool

pub record Message (Name : Type 0) : Type 0 where
  pub id : ℕ
  pub message_type : MessageType
  pub op_code : OpCode
  pub authoritative : Bool
  pub truncated : Bool
  pub recursion_desired : Bool
  pub recursion_available : Bool
  pub response_code : ResponseCode
  pub queries : List (Query Name)
  pub answers : List (Record Name)
  pub name_servers : List (Record Name)
  pub additionals : List (Record Name)
  pub edns : Option Edns

-- Message::new()
abbrev pub new_message : {Name : Type 0} → Message Name
new_message = record {
  id = 0;
  message_type = MessageType.query;
  op_code = OpCode.query;
  authoritative = false;
  truncated = false;
  recursion_desired = false;
  recursion_available = false;
  response_code = ResponseCode.no_error;
  queries = [];
  answers = [];
  name_servers = [];
  additionals = [];
  edns = none;
}

-- Edns::new()
abbrev pub new_edns : Edns
new_edns = record { max_payload = 512; version = 0; dnssec_ok = false }

module _ {Name : Type 0} where
  abbrev pub set_response_code : ResponseCode → Message Name → Message Name
  set_response_code c m = record m { response_code = c }

  abbrev pub set_authoritative : Message Name → Message Name
  set_authoritative m = record m { authoritative = true }

  abbrev pub add_query : Query Name → Message Name → Message Name
  add_query q m = record m { queries = m.queries ++ q ∷ [] }

  -- the loops that call `add_answer` and `add_name_server` for each record of a list
  abbrev pub add_answers : List (Record Name) → Message Name → Message Name
  add_answers rs m = record m { answers = m.answers ++ rs }

  abbrev pub add_name_servers : List (Record Name) → Message Name → Message Name
  add_name_servers rs m = record m { name_servers = m.name_servers ++ rs }

abbrev pub is_query : OpCode → Bool
is_query OpCode.query = true
is_query (OpCode.other _) = false

abbrev pub is_no_error : ResponseCode → Bool
is_no_error ResponseCode.no_error = true
is_no_error _ = false
