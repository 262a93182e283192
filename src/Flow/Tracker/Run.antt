-- ===== src/Flow/Tracker/Run.antt =====
-- Whole runs of the tracker: the events of a capture in order, and the flush at its end.
use nt204_r11_antn_nguyen_th.Base.{ℕ, ◌+◌, ◌≡◌, refl, ap, List, [], ◌∷◌, arith, Text}
use nt204_r11_antn_nguyen_th.Models.Event.{IdsEvent}
use nt204_r11_antn_nguyen_th.Flow.Timeout.{FlowConfig, FlowEntry, new_entry}
use nt204_r11_antn_nguyen_th.Flow.Table.Entries.{weigh}
use nt204_r11_antn_nguyen_th.Flow.Tracker.{Tracker, Packet, packet, init, flush}
use nt204_r11_antn_nguyen_th.Flow.Tracker.Export.{flush_lem}
use nt204_r11_antn_nguyen_th.Flow.Tracker.Update.{
  process, new_flow, update, raw_length_of, count, count_totals, count_direction, count_flags,
  advance_entry,
}
use nt204_r11_antn_nguyen_th.Flow.Tracker.Valid.{IsValid}
use nt204_r11_antn_nguyen_th.Flow.Tracker.Invariant.{init-IsValid, update-IsValid}
use nt204_r11_antn_nguyen_th.Flow.Tracker.Totals.{
  Weight, sum, total, gained, update-total, flush-total,
}

-- The packets of a flow.
pub packets-grow :
    (cfg : FlowConfig) (p : Packet) (ev : IdsEvent) (flags : List Text) (e : FlowEntry)
    → (process cfg p ev flags e).0.flow.packet_count ≡ e.flow.packet_count + 1
unfolding process count count_totals count_direction count_flags advance_entry
packets-grow cfg p ev flags e = ground arith

pub new-packets :
    (digest : Text → Text) (p : Packet) → (new_entry (new_flow digest p)).flow.packet_count ≡ 0
unfolding new_entry new_flow
new-packets digest p = refl

pub bytes-grow :
    (cfg : FlowConfig) (p : Packet) (ev : IdsEvent) (flags : List Text) (e : FlowEntry)
    → (process cfg p ev flags e).0.flow.byte_count ≡ e.flow.byte_count + raw_length_of ev.raw_length
unfolding process count count_totals count_direction count_flags advance_entry
bytes-grow cfg p ev flags e = ground arith

pub new-bytes :
    (digest : Text → Text) (p : Packet) → (new_entry (new_flow digest p)).flow.byte_count ≡ 0
unfolding new_entry new_flow
new-bytes digest p = refl

abbrev pub packet_weight : Weight
packet_weight = record {
  w = λ f. f.packet_count;
  gain = λ ev. 1;
  stable = λ r e. refl;
  starts = new-packets;
  grows = packets-grow;
}

abbrev pub byte_weight : Weight
byte_weight = record {
  w = λ f. f.byte_count;
  gain = λ ev. raw_length_of ev.raw_length;
  stable = λ r e. refl;
  starts = new-bytes;
  grows = bytes-grow;
}

-- What the tracked events of a capture bring.
unfoldable pub brought : (IdsEvent → ℕ) → List IdsEvent → ℕ
brought gain [] = 0
brought gain (ev ∷ evs) = gained gain ev (packet ev) + brought gain evs

start-total : (weight : Weight) (cfg : FlowConfig) → total weight.w (init cfg) ≡ 0
unfolding total sum weigh init
start-total weight cfg = refl

exported-total :
    (weight : Weight) (t : Tracker)
    → IsValid t
    → sum weight.w (flush t).0.exported ≡ total weight.w t
unfolding total weigh
exported-total weight t v =
    let empty = (flush_lem t v.table_ok.own_keys).0 in
    omega (arith, ap (weigh (λ e. weight.w e.flow)) empty, flush-total weight t v)

module _ (digest : Text → Text) where
  unfoldable pub run : Tracker → List IdsEvent → Tracker
  run t [] = t
  run t (ev ∷ evs) = run (update digest t ev).0 evs

  -- If the invariant holds, it holds after every sequence of events.
  run-IsValid : (t : Tracker) (evs : List IdsEvent) → IsValid t → IsValid (run t evs)
  unfolding run
  run-IsValid t [] v = v
  run-IsValid t (ev ∷ evs) v = run-IsValid (update digest t ev).0 evs (update-IsValid digest t ev v)

  run-total :
      (weight : Weight) (t : Tracker) (evs : List IdsEvent)
      → IsValid t
      → total weight.w (run t evs) ≡ total weight.w t + brought weight.gain evs
  unfolding run brought
  run-total weight t [] v = omega arith
  run-total weight t (ev ∷ evs) v = omega (
    arith,
    run-total weight (update digest t ev).0 evs (update-IsValid digest t ev v),
    update-total weight digest t ev v,
  )

  run-flush :
      (weight : Weight) (cfg : FlowConfig) (evs : List IdsEvent)
      → sum weight.w (flush (run (init cfg) evs)).0.exported ≡ brought weight.gain evs
  run-flush weight cfg evs = omega (
    arith,
    exported-total weight (run (init cfg) evs) (run-IsValid (init cfg) evs (init-IsValid cfg)),
    run-total weight (init cfg) evs (init-IsValid cfg),
    start-total weight cfg,
  )

  -- Over a whole capture nothing is lost and nothing counted twice: when the tracker is flushed
  -- after any events, the exported flows together hold as many packets as events were tracked, and
  -- as many bytes as those events had, whatever expired, was evicted or reused a port on the way.
  pub run-flush_conserves :
      (cfg : FlowConfig) (evs : List IdsEvent)
      → let out = (flush (run (init cfg) evs)).0.exported in
        (sum (λ f. f.packet_count) out ≡ brought (λ ev. 1) evs)
        × (sum (λ f. f.byte_count) out ≡ brought (λ ev. raw_length_of ev.raw_length) evs)
  run-flush_conserves cfg evs = (run-flush packet_weight cfg evs, run-flush byte_weight cfg evs)
