-- ===== src/Model/Logs.antt =====
-- src/model/logs.rs: streams, levels and lines, with the codes that the log tables store.
pub mod Codes
use vpsiner.Prelude.{Bool, List, Text, ℕ, String, Option, none, some, ℤ, pos, eq_ℤ, if◌then◌else◌}
use vpsiner.Model.ContainerId.{ContainerId}

pub data LogStream : Type 0 where
  stdout stderr : LogStream

pub data LogLevel : Type 0 where
  debug info warn error : LogLevel

unfoldable pub stream_storage_code : LogStream → ℤ
stream_storage_code stdout = pos 0
stream_storage_code stderr = pos 1

unfoldable pub stream_from_storage_code : ℤ → Option LogStream
stream_from_storage_code code =
    if eq_ℤ code (pos 0) then some stdout else if eq_ℤ code (pos 1) then some stderr else none

unfoldable pub level_storage_code : LogLevel → ℤ
level_storage_code debug = pos 20
level_storage_code info = pos 30
level_storage_code warn = pos 40
level_storage_code error = pos 50

unfoldable pub level_from_storage_code : ℤ → Option LogLevel
level_from_storage_code code =
    if eq_ℤ code (pos 20)
    then some debug
    else if eq_ℤ code (pos 30)
    then some info
    else if eq_ℤ code (pos 40)
    then some warn
    else if eq_ℤ code (pos 50)
    then some error
    else none

pub record LogLine : Type 0 where
  pub ts : ℤ
  pub service : String
  pub cid : ContainerId
  pub stream : LogStream
  pub level : Option LogLevel
  pub line : String

pub record LogCursor : Type 0 where
  pub ts : ℤ
  pub week : Text
  pub id : ℤ

pub record LogPage : Type 0 where
  pub items : List LogLine
  pub older_cursor : Option Text
  pub newer_cursor : Option Text
  pub has_older : Bool
  pub has_newer : Bool

pub record LogFilter : Type 0 where
  pub from : Option ℤ
  pub to : Option ℤ
  pub query : Option Text
  pub levels : List LogLevel
  pub streams : List LogStream
  pub limit : Option ℕ
  pub before : Option Text
  pub after : Option Text
