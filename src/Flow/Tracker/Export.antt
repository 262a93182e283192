-- ===== src/Flow/Tracker/Export.antt =====
-- What leaves the flow table by an export, a sweep or a flush, and in which order.
use nt204_r11_antn_nguyen_th.Base.{
  ℕ, ◌≡◌, refl, sym, ap, inl, inr, ◌∙◌, subst, if_pos, Bool, not, Option, none, some, List, [], ◌∷◌,
  ◌++◌, arith, All, filter, map, length, min, append_assoc, append-nil, Bool-cases,
}
use nt204_r11_antn_nguyen_th.Models.Flow.{
  Flow, FlowState, closed, reset, CloseReason, tcp_closed, tcp_reset, flush as flushed,
}
use nt204_r11_antn_nguyen_th.Flow.Key.{Key, Key-discrete}
use nt204_r11_antn_nguyen_th.Flow.Table
use nt204_r11_antn_nguyen_th.Flow.Table.Laws.{
  Distinct, erase-Distinct, get-none_before, erase_append_head, get-append_none,
}
use nt204_r11_antn_nguyen_th.Flow.Timeout.{FlowEntry, is_expired, get_close_reason}
use nt204_r11_antn_nguyen_th.Flow.Tracker.{
  Tracker, Entries, flow_key, export_flow, export_all, export_or_drop, sweep, flush, flush_all,
  flush_reason,
}

-- An entry stands under the key of its own flow.
abbrev pub HasOwnKey : Key × FlowEntry → Type 0
HasOwnKey e = flow_key e.1.flow ≡ e.0

abbrev pub close : CloseReason → FlowEntry → Flow
close reason entry = record entry.flow { close_reason = some reason }

get_middle :
    (k : Key) (e : FlowEntry) (pre rest : Entries)
    → Table.get Key-discrete k pre ≡ none
    → Table.get Key-discrete k (pre ++ (k, e) ∷ rest) ≡ some e
unfolding Table.get
get_middle k e pre rest h =
    get-append_none Key-discrete k pre ((k, e) ∷ rest) h
    ∙ if_pos (Key-discrete k k) refl (some e) (Table.get Key-discrete k rest)

-- An export takes the entry under the flow's key out of the table, and logs it.
pub export_flow_found :
    (t : Tracker) (e v : FlowEntry) (reason : CloseReason)
    → Table.get Key-discrete (flow_key e.flow) t.table ≡ some v
    → export_flow t e reason ≡ record t {
      table = Table.erase Key-discrete (flow_key e.flow) t.table;
      exported = t.exported ++ close reason v ∷ [];
    }
unfolding export_flow Table.remove
export_flow_found t e v reason h = rw (export_flow, h)

-- One entry of a table with distinct own keys is taken out, and logged with its reason.
pub export_flow_middle :
    (t : Tracker) (pre : Entries) (k : Key) (e : FlowEntry) (rest : Entries) (reason : CloseReason)
    → Table.get Key-discrete k pre ≡ none
    → flow_key e.flow ≡ k
    → export_flow (record t { table = pre ++ (k, e) ∷ rest }) e reason
      ≡ record t { table = pre ++ rest; exported = t.exported ++ close reason e ∷ [] }
export_flow_middle t pre k e rest reason h own =
    export_flow_found (record t { table = pre ++ (k, e) ∷ rest }) e e reason
      (ap (λ i. Table.get Key-discrete i (pre ++ (k, e) ∷ rest)) own ∙ get_middle k e pre rest h)
    ∙ ap (λ u. record t { table = u; exported = t.exported ++ close reason e ∷ [] })
        (ap (λ i. Table.erase Key-discrete i (pre ++ (k, e) ∷ rest)) own
          ∙ erase_append_head Key-discrete k pre rest e h)

-- So the defensive removals of the source are never reached.
pub export_or_drop_head :
    (t : Tracker) (k : Key) (e : FlowEntry) (rest : Entries) (reason : CloseReason)
    → flow_key e.flow ≡ k
    → export_or_drop (record t { table = (k, e) ∷ rest }) k e reason
      ≡ record t { table = rest; exported = t.exported ++ close reason e ∷ [] }
unfolding export_or_drop Table.get
export_or_drop_head t k e rest reason own =
    rw (export_or_drop, export_flow_middle t [] k e rest reason refl own) (ground arith)

unfoldable pub expired_closed : Entries → List Flow
expired_closed = map (λ e. close (get_close_reason e.1) e.1)

-- Exporting the entries that a test selects leaves the others in their order.
export_all-filter :
    (t : Tracker) (p : Key × FlowEntry → Bool) (pre rest : Entries)
    → Distinct Key-discrete (pre ++ rest)
    → All HasOwnKey rest
    → export_all (record t { table = pre ++ rest }) (filter p rest) ≡ record t {
      table = pre ++ filter (λ e. not (p e)) rest;
      exported = t.exported ++ expired_closed (filter p rest);
    }
unfolding export_all expired_closed
export_all-filter t p pre [] d own =
    ap (λ u. record t { table = pre ++ []; exported = u }) (sym (append-nil t.exported))
export_all-filter t p pre ((k, e) ∷ rest) d own = elim (Bool-cases (p (k, e))) [
  | inl yes_p ↦ rw yes_p (
      ap (λ u. export_all u (filter p rest))
        (export_flow_middle t pre k e rest (get_close_reason e)
          (get-none_before Key-discrete pre k e rest d) own.0)
      ∙ export_all-filter (record t { exported = t.exported ++ close (get_close_reason e) e ∷ [] })
          p pre rest
          (subst (Distinct Key-discrete)
            (erase_append_head Key-discrete k pre rest e
              (get-none_before Key-discrete pre k e rest d))
            (erase-Distinct Key-discrete k (pre ++ (k, e) ∷ rest) d))
          own.1
      ∙ ap (λ u. record t { table = pre ++ filter (λ e. not (p e)) rest; exported = u })
          (append_assoc t.exported _ _))
  | inr no_p ↦ rw no_p (
      ap (λ u. export_all (record t { table = u }) (filter p rest))
        (sym (append_assoc pre ((k, e) ∷ []) rest))
      ∙ export_all-filter t p (pre ++ (k, e) ∷ []) rest
          (subst (Distinct Key-discrete) (sym (append_assoc pre ((k, e) ∷ []) rest)) d) own.1
      ∙ ap (λ u. record t { table = u; exported = t.exported ++ expired_closed (filter p rest) })
          (append_assoc pre ((k, e) ∷ []) _))
]

-- The time at which a sweep looks at the flows.
abbrev pub sweep_time : Tracker → Option ℕ → ℕ
sweep_time t none = t.clock
sweep_time t (some now) = now

abbrev pub expired_at : Tracker → Option ℕ → Key × FlowEntry → Bool
expired_at t now e = is_expired e.1 (sweep_time t now) t.cfg

pub sweep_state :
    (t : Tracker) (now : Option ℕ)
    → Distinct Key-discrete t.table
    → All HasOwnKey t.table
    → (sweep t now).0 ≡ record t {
      table = filter (λ e. not (expired_at t now e)) t.table;
      exported = t.exported ++ expired_closed (filter (expired_at t now) t.table);
      last_sweep = some (min (sweep_time t now) t.clock);
    }
unfolding sweep
sweep_state t none d own =
    ap {A = Tracker} (λ u. record u { last_sweep = some (min t.clock u.clock) })
      (export_all-filter t (expired_at t none) [] t.table d own)
sweep_state t (some now) d own =
    ap {A = Tracker} (λ u. record u { last_sweep = some (min now u.clock) })
      (export_all-filter t (expired_at t (some now)) [] t.table d own)

-- On a table with distinct own keys a sweep takes out exactly the entries that have expired, logs
-- them in table order with the reasons of their states, and returns their number; the others stay
-- in their order.
pub sweep_lem :
    (t : Tracker) (now : Option ℕ)
    → Distinct Key-discrete t.table
    → All HasOwnKey t.table
    → ((sweep t now).0.table ≡ filter (λ e. not (expired_at t now e)) t.table)
      × ((sweep t now).0.exported
          ≡ t.exported
            ++ map (λ e. close (get_close_reason e.1) e.1) (filter (expired_at t now) t.table))
      × ((sweep t now).1 ≡ length (filter (expired_at t now) t.table))
unfolding sweep expired_closed
sweep_lem t none d own =
    let h = sweep_state t none d own in (ap (λ u. u.table) h, ap (λ u. u.exported) h, refl)
sweep_lem t (some now) d own =
    let h = sweep_state t (some now) d own in (ap (λ u. u.table) h, ap (λ u. u.exported) h, refl)

flush_all_eq :
    (t : Tracker) (es : Entries)
    → All HasOwnKey es
    → flush_all (record t { table = es }) es
      ≡ record t { table = []; exported = t.exported ++ map (λ e. close (flush_reason e.1) e.1) es }
unfolding flush_all
flush_all_eq t [] own =
    ap (λ u. record t { table = []; exported = u }) (sym (append-nil t.exported))
flush_all_eq t ((k, e) ∷ es) own =
    ap (λ u. flush_all u es) (export_or_drop_head t k e es (flush_reason e) own.0)
    ∙ flush_all_eq (record t { exported = t.exported ++ close (flush_reason e) e ∷ [] }) es own.1
    ∙ ap (λ u. record t { table = []; exported = u }) (append_assoc t.exported _ _)

pub flush_state :
    (t : Tracker)
    → All HasOwnKey t.table
    → (flush t).0 ≡ record t {
      table = [];
      exported = t.exported ++ map (λ e. close (flush_reason e.1) e.1) t.table;
    }
unfolding flush
flush_state t own = flush_all_eq t t.table own

-- The reason that the end of a run gives to a flow in a state.
abbrev pub final_reason : FlowState → CloseReason
final_reason closed = tcp_closed
final_reason reset = tcp_reset
final_reason _ = flushed

flush_reason_lem :
    (e : FlowEntry) (s : FlowState) → e.flow.state ≡ s → flush_reason e ≡ final_reason s
unfolding flush_reason get_close_reason
flush_reason_lem e s h = ground (arith, h)

closed_finally :
    (es : Entries)
    → map (λ e. close (flush_reason e.1) e.1) es
      ≡ map (λ e. close (final_reason e.1.flow.state) e.1) es
closed_finally [] = refl
closed_finally (e ∷ es) = rw (flush_reason_lem e.1 e.1.flow.state refl, closed_finally es) refl

-- A flush of a table whose entries stand under their own keys leaves the table empty, logs every
-- entry once, the one that was seen longest ago first, and returns their number. A flow that was
-- CLOSED or RESET gets `tcp_closed` or `tcp_reset` as its reason, all others get `flush`.
pub flush_lem :
    (t : Tracker)
    → All HasOwnKey t.table
    → ((flush t).0.table ≡ [])
      × ((flush t).0.exported
          ≡ t.exported ++ map (λ e. close (final_reason e.1.flow.state) e.1) t.table)
      × ((flush t).1 ≡ length t.table)
unfolding flush
flush_lem t own =
    let h = flush_state t own in
    (
      ap (λ u. u.table) h,
      ap (λ u. u.exported) h ∙ ap (λ fs. t.exported ++ fs) (closed_finally t.table),
      refl,
    )
