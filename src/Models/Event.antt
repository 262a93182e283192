-- ===== src/Models/Event.antt =====
-- src/models/event.py: the fields of `IDSEvent` that the flow tracker and the engine read or write.
-- A `timestamp` is `none` where it is no finite number; `flags` is `none` where `transport_fields`
-- holds no list of flags.
use nt204_r11_antn_nguyen_th.Base.{ℕ, Option, List, Text, ℤ}
use nt204_r11_antn_nguyen_th.Models.Flow.{Direction, FlowState}

pub data PreprocessStatus : Type 0 where
  valid partial invalid : PreprocessStatus

pub data ProcessingAction : Type 0 where
  untouched normalized defaults_filled flagged skipped dropped : ProcessingAction

pub record IdsEvent : Type 0 where
  pub packet_id : ℕ
  pub timestamp : Option ℕ
  pub src_ip : Option Text
  pub dst_ip : Option Text
  pub src_port : Option ℕ
  pub dst_port : Option ℕ
  pub transport_protocol : Option Text
  pub flags : Option (List Text)
  pub app_protocol : Option Text
  pub raw_length : ℤ
  pub preprocess_status : Option PreprocessStatus
  pub processing_action : Option ProcessingAction
  pub flow_id : Option Text
  pub direction : Option Direction
  pub flow_state : Option FlowState
  pub payload : Option (List ℕ)
