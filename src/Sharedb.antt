-- ===== src/Sharedb.antt =====
-- The package `sharedb`: what its parts share. A raw JSON message is its bytes; a copy of one is
-- that message. A Go map whose missing keys read as a zero value is a function.
pub mod Results
pub mod Act
pub mod Mailbox
pub mod Store
pub mod Publisher
pub mod Reconnect
pub mod Server
pub mod Transport
pub mod Protocol
use jsonot.Base.{
  ℕ, ◌+◌, ◌-◌, suc, zero, ◌≤◌, ◌<◌, ◌≡◌, refl, ap, sym, ◌∙◌, Bool, true, false, not, ◌&&◌, ◌||◌,
  Option, none, some, List, [], ◌∷◌, ◌++◌, map, arith, ltb, leb, ◌==◌, if◌then◌else◌, is_present,
  is_absent, length, get_elem?, take, drop, is_nil, ℤ, pos, negsuc, ltb_ℤ, leb_ℤ, eq_ℤ, add_int,
  sub_int, int_bound, Bytes, lit, str_eq, str_eq_iff, str_eq_refl, Bool-cases, Option-cases, inl,
  inr, ◌≢◌, ◌↔◌, ◌⊎◌,
}

-- `OpID` (sharedb/backend.go)
pub record OpId : Type 0 where
  pub id_source : Bytes
  pub id_sequence : ℤ

-- `EventType` (sharedb/server.go), a string with three constants
abbrev pub event_create : Bytes
event_create = lit "create"

abbrev pub event_op : Bytes
event_op = lit "op"

abbrev pub event_delete : Bytes
event_delete = lit "delete"

-- `Event` (sharedb/server.go)
pub record Event : Type 0 where
  pub event_type : Bytes
  pub event_document : Bytes
  pub event_version : ℤ
  pub event_id : OpId
  pub event_source : Bytes
  pub event_sequence : ℤ
  pub event_operation : Bytes
  pub event_content : Bytes

-- Writing to a Go map.
abbrev pub put {ℓ} : {A : Type ℓ} → Bytes → A → (Bytes → A) → Bytes → A
put k a m = λ j. if str_eq k j then a else m j
