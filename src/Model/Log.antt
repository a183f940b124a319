-- ===== src/Model/Log.antt =====
-- internal/model/log.go.
use sugi.Base.{List, Option}
use sugi.Base.Int.{ℤ}
use sugi.Base.Text.{Text}
use sugi.Model.Time.{Instant}

pub record LogEntry : Type 0 where
  pub id : ℤ
  pub timestamp : Instant
  pub level : Text
  pub service : Text
  pub message : Text
  pub attributes : List (Text × Text)

pub record LogFilter : Type 0 where
  pub start_time : Option Instant
  pub end_time : Option Instant
  pub level : Text
  pub service : Text
  pub search : Text
  pub limit : ℤ
  pub offset : ℤ
