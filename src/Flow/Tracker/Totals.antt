-- ===== src/Flow/Tracker/Totals.antt =====
-- Conservation: what the packets bring is found again in the flows of the table and the exported
-- flows, through expiry, port reuse, eviction, sweep and flush.
use nt204_r11_antn_nguyen_th.Base.{
  ℕ, zero, suc, ◌+◌, ◌≡◌, refl, ap, ◌∙◌, inl, inr, Bool, not, Option, none, some, List, [], ◌∷◌,
  ◌++◌, arith, map, filter, drop, take, Option-cases, Text,
}
use nt204_r11_antn_nguyen_th.Models.Flow.{Flow, CloseReason, evicted, port_reuse}
use nt204_r11_antn_nguyen_th.Models.Event.{IdsEvent}
use nt204_r11_antn_nguyen_th.Flow.Key.{Key, Key-discrete}
use nt204_r11_antn_nguyen_th.Flow.Table
use nt204_r11_antn_nguyen_th.Flow.Table.Laws.{get-drop-none, touch-eq, add_absent, set_item_last}
use nt204_r11_antn_nguyen_th.Flow.Table.Entries.{get-All, weigh, weigh-append, weigh-erase}
use nt204_r11_antn_nguyen_th.Flow.TcpState.{normalize_flags}
use nt204_r11_antn_nguyen_th.Flow.Timeout.{FlowConfig, FlowEntry, new_entry, get_close_reason}
use nt204_r11_antn_nguyen_th.Flow.Tracker.{
  Tracker, Entries, Packet, packet, packet_key, flow_key, export_flow, sweep, flush, flush_reason,
  max_active_flows,
}
use nt204_r11_antn_nguyen_th.Flow.Tracker.Export.{
  HasOwnKey, close, export_flow_found, sweep_state, flush_state, expired_at, expired_closed,
}
use nt204_r11_antn_nguyen_th.Flow.Tracker.Evict.{evict_state, excess, evicted_flows}
use nt204_r11_antn_nguyen_th.Flow.Tracker.Update.{
  expire_or_reuse, attach, process, new_flow, sweep_if_due, sweep_since, track, update,
}
use nt204_r11_antn_nguyen_th.Flow.Tracker.Valid.{IsValid, TableOk}
use nt204_r11_antn_nguyen_th.Flow.Tracker.Preserve.{Attached, max_active_flows-pos}
use nt204_r11_antn_nguyen_th.Flow.Tracker.Invariant.{
  timed, timed-IsValid, located, located-Located, located-TableOk, located-Attached, stored,
  stored-IsValid,
}

module _ (w : Flow → ℕ) where
  unfoldable pub sum : List Flow → ℕ
  sum [] = 0
  sum (f ∷ fs) = w f + sum fs

  -- The weight of everything that the tracker holds or has exported.
  unfoldable pub total : Tracker → ℕ
  total t = weigh (λ e. w e.flow) t.table + sum t.exported

  sum-append : (xs ys : List Flow) → sum (xs ++ ys) ≡ sum xs + sum ys
  unfolding sum
  sum-append [] ys = omega arith
  sum-append (f ∷ xs) ys = omega (arith, sum-append xs ys)

-- A weight of flows that does not look at the close reason, is 0 of a new flow, and grows by `gain`
-- with each packet.
pub record Weight : Type 0 where
  pub w : Flow → ℕ
  pub gain : IdsEvent → ℕ
  pub stable : (r : CloseReason) (e : FlowEntry) → w (close r e) ≡ w e.flow
  pub starts : (digest : Text → Text) (p : Packet) → w (new_entry (new_flow digest p)).flow ≡ 0
  pub grows :
      (cfg : FlowConfig) (p : Packet) (ev : IdsEvent) (flags : List Text) (e : FlowEntry)
      → w (process cfg p ev flags e).0.flow ≡ w e.flow + gain ev

abbrev pub gained : (IdsEvent → ℕ) → IdsEvent → Option Packet → ℕ
gained gain ev none = 0
gained gain ev (some p) = gain ev

module _ (weight : Weight) where
  open weight use {w, gain, stable, starts, grows}

  sum-reasons :
      (r : FlowEntry → CloseReason) (es : Entries)
      → sum w (map (λ e. close (r e.1) e.1) es) ≡ weigh (λ e. w e.flow) es
  unfolding sum weigh
  sum-reasons r [] = refl
  sum-reasons r ((k, e) ∷ es) = omega (arith, stable (r e) e, sum-reasons r es)

  expired-total : (es : Entries) → sum w (expired_closed es) ≡ weigh (λ e. w e.flow) es
  unfolding expired_closed
  expired-total es = sum-reasons get_close_reason es

  weigh-filter :
      (p : Key × FlowEntry → Bool) (es : Entries)
      → weigh (λ e. w e.flow) (filter (λ e. not (p e)) es) + weigh (λ e. w e.flow) (filter p es)
        ≡ weigh (λ e. w e.flow) es
  unfolding weigh
  weigh-filter p [] = refl
  weigh-filter p ((k, e) ∷ es) = ground (arith, weigh-filter p es)

  weigh-take-drop :
      (n : ℕ) (es : Entries)
      → weigh (λ e. w e.flow) (drop n es) + weigh (λ e. w e.flow) (take n es)
        ≡ weigh (λ e. w e.flow) es
  unfolding weigh
  weigh-take-drop zero es = omega arith
  weigh-take-drop (suc n) [] = refl
  weigh-take-drop (suc n) ((k, e) ∷ es) = omega (arith, weigh-take-drop n es)

  export_flow-total :
      (t : Tracker) (e : FlowEntry) (r : CloseReason)
      → Table.get Key-discrete (flow_key e.flow) t.table ≡ some e
      → total w (export_flow t e r) ≡ total w t
  unfolding total sum
  export_flow-total t e r h = rw (export_flow_found t e e r h) (
      omega (
        arith,
        weigh-erase Key-discrete (λ e. w e.flow) (flow_key e.flow) e t.table h,
        sum-append w t.exported (close r e ∷ []),
        stable r e,
      ))

  expire_or_reuse-total :
      (t : Tracker) (p : Packet) (flags : List Text) (o : Option FlowEntry)
      → IsValid t
      → Table.get Key-discrete (packet_key p) t.table ≡ o
      → total w (expire_or_reuse t p flags o).0 ≡ total w t
  unfolding expire_or_reuse
  expire_or_reuse-total t p flags none v h = refl
  expire_or_reuse-total t p flags (some e) v h =
      let own = get-All Key-discrete HasOwnKey (packet_key p) e t.table v.table_ok.own_keys h in
      let here = ap (λ i. Table.get Key-discrete i t.table) own ∙ h in
      ground (
        arith,
        export_flow-total t e (get_close_reason e) here,
        export_flow-total t e port_reuse here,
      )

  attach-total :
      (digest : Text → Text) (t : Tracker) (p : Packet) (o : Option FlowEntry)
      → TableOk t.clock t.table
      → Table.get Key-discrete (packet_key p) t.table ≡ o
      → total w (attach digest t p o).0 ≡ total w t
  unfolding attach total weigh
  attach-total digest t p (some e) ok h =
      let k = packet_key p in
      rw (touch-eq Key-discrete k t.table e h) (
        omega (
          arith,
          weigh-append (λ x. w x.flow) (Table.erase Key-discrete k t.table) ((k, e) ∷ []),
          weigh-erase Key-discrete (λ x. w x.flow) k e t.table h,
        ))
  attach-total digest t p none ok h =
      let k = packet_key p in
      let n = excess (max_active_flows t.cfg) t.table in
      let e = new_entry (new_flow digest p) in
      rw
        (
          evict_state (max_active_flows t.cfg) t (max_active_flows-pos t.cfg) ok.own_keys,
          add_absent Key-discrete k e (drop n t.table) (get-drop-none Key-discrete n k t.table h),
        )
        (omega (
          arith,
          starts digest p,
          weigh-append (λ x. w x.flow) (drop n t.table) ((k, e) ∷ []),
          sum-append w t.exported (evicted_flows (take n t.table)),
          sum-reasons (λ _. evicted) (take n t.table),
          weigh-take-drop n t.table,
        ))

  timed-total : (t : Tracker) (p : Packet) → total w (timed t p) ≡ total w t
  unfolding total
  timed-total t p = refl

  sweep-total : (t : Tracker) (now : Option ℕ) → IsValid t → total w (sweep t now).0 ≡ total w t
  unfolding total
  sweep-total t now v = rw (sweep_state t now v.table_ok.distinct v.table_ok.own_keys) (
      omega (
        arith,
        sum-append w t.exported (expired_closed (filter (expired_at t now) t.table)),
        expired-total (filter (expired_at t now) t.table),
        weigh-filter (expired_at t now) t.table,
      ))

  sweep_since-total :
      (t : Tracker) (last : Option ℕ) → IsValid t → total w (sweep_since t last) ≡ total w t
  unfolding sweep_if_due total
  sweep_since-total t none v = refl
  sweep_since-total t (some last) v = ground (arith, sweep-total t (some t.clock) v)

  stored-total :
      (t : Tracker) (p : Packet) (ev : IdsEvent) (flags : List Text) (r : Tracker × FlowEntry)
      → Attached t.clock (packet_key p) t r
      → total w (record r.0 {
        table =
            Table.set_item Key-discrete (packet_key p) (process r.0.cfg p ev flags r.1).0 r.0.table;
      })
        ≡ total w r.0 + gain ev
  unfolding total weigh
  stored-total t p ev flags (u, e) a =
      let k = packet_key p in
      let e' = (process u.cfg p ev flags e).0 in
      rw (a.split, set_item_last Key-discrete k e e' a.base a.absent)
        (omega (
          arith,
          weigh-append (λ x. w x.flow) a.base ((k, e') ∷ []),
          weigh-append (λ x. w x.flow) a.base ((k, e) ∷ []),
          grows u.cfg p ev flags e,
        ))

  module _ (digest : Text → Text) where
    track-total :
        (t : Tracker) (ev : IdsEvent) (p : Packet)
        → IsValid t
        → total w (track digest t ev p).0 ≡ total w t + gain ev
    unfolding track sweep_if_due stored
    track-total t ev p v =
        let flags = normalize_flags ev.flags in
        let (u, o) = located t ev p in
        let swept = sweep_since-total (stored digest t ev p) _ (stored-IsValid digest t ev p v) in
        let kept =
          stored-total u p ev flags (attach digest u p o) (located-Attached t ev p v digest) in
        let joined =
          attach-total digest u p o (located-TableOk t ev p v) (located-Located t ev p v).found in
        let old = expire_or_reuse-total (timed t p) p flags _ (timed-IsValid t p.time v) refl in
        swept ∙ kept ∙ ap (λ n. n + gain ev) (joined ∙ old ∙ timed-total t p)

    -- A packet that is tracked adds its gain to the weight of all flows, those in the table and the
    -- exported ones; an event that is skipped adds nothing.
    pub update-total :
        (t : Tracker) (ev : IdsEvent)
        → IsValid t
        → total w (update digest t ev).0 ≡ total w t + gained gain ev (packet ev)
    unfolding update
    update-total t ev v = elim (Option-cases (packet ev)) [
      | inl e ↦ rw (update, e) (omega arith)
      | inr (p, e) ↦ rw (update, e) (track-total t ev p v)
    ]

  pub flush-total : (t : Tracker) → IsValid t → total w (flush t).0 ≡ total w t
  unfolding total weigh
  flush-total t v = rw (flush_state t v.table_ok.own_keys) (
      omega (
        arith,
        sum-append w t.exported (map (λ e. close (flush_reason e.1) e.1) t.table),
        sum-reasons flush_reason t.table,
      ))
