-- ===== src/Flow/Tracker/Invariant.antt =====
-- `update`, `sweep` and `flush` keep the invariant of the tracker.
use nt204_r11_antn_nguyen_th.Base.{
  ℕ, ◌-◌, ◌≤◌, refl, sym, subst, inl, inr, not, Option, none, some, arith, leb, length,
  length-filter-le, max, Bool-cases, Option-cases, Text,
}
use nt204_r11_antn_nguyen_th.Models.Event.{IdsEvent}
use nt204_r11_antn_nguyen_th.Flow.Key.{Key-discrete}
use nt204_r11_antn_nguyen_th.Flow.Table
use nt204_r11_antn_nguyen_th.Flow.TcpState.{normalize_flags}
use nt204_r11_antn_nguyen_th.Flow.Timeout.{FlowConfig, FlowEntry}
use nt204_r11_antn_nguyen_th.Flow.Tracker.{
  Tracker, Packet, packet, packet_key, sweep, flush, max_active_flows, sweep_interval, init,
}
use nt204_r11_antn_nguyen_th.Flow.Tracker.Export.{sweep_state, expired_at, flush_state}
use nt204_r11_antn_nguyen_th.Flow.Tracker.Update.{
  expire_or_reuse, attach, process, sweep_if_due, sweep_since, track, update,
}
use nt204_r11_antn_nguyen_th.Flow.Tracker.Preserve.{
  Located, Attached, filter-TableOk, later-TableOk, expire_or_reuse-Located, attach-Attached,
  Attached-IsValid,
}
use nt204_r11_antn_nguyen_th.Flow.Tracker.Valid.{TableOk, IsValid}

-- A sweep keeps the invariant.
pub sweep-IsValid : (t : Tracker) (now : Option ℕ) → IsValid t → IsValid (sweep t now).0
sweep-IsValid t now v =
    subst IsValid (sym (sweep_state t now v.table_ok.distinct v.table_ok.own_keys)) (record {
      table_ok = filter-TableOk t.clock _ t.table v.table_ok;
      bounded = omega (arith, length-filter-le (λ e. not (expired_at t now e)) t.table, v.bounded);
    })

sweep_since-IsValid : (t : Tracker) (last : Option ℕ) → IsValid t → IsValid (sweep_since t last)
unfolding sweep_if_due
sweep_since-IsValid t none v = record { table_ok = v.table_ok; bounded = v.bounded }
sweep_since-IsValid t (some last) v =
    elim (Bool-cases (leb (sweep_interval t.cfg) (t.clock - last))) [
      | inl due ↦ rw due (sweep-IsValid t (some t.clock) v)
      | inr early ↦ rw early v
    ]

pub timed-IsValid :
    (t : Tracker) (now : ℕ) → IsValid t → IsValid (record t { clock = max t.clock now })
timed-IsValid t now v = record {
  table_ok = later-TableOk t.clock (max t.clock now) t.table (omega arith) v.table_ok;
  bounded = v.bounded;
}

-- The tracker and the packet's entry between lazy expiration and the attachment.
abbrev pub timed : Tracker → Packet → Tracker
timed t p = record t { clock = max t.clock p.time }

abbrev pub located : Tracker → IdsEvent → Packet → Tracker × Option FlowEntry
located t ev p =
    expire_or_reuse (timed t p) p (normalize_flags ev.flags)
      (Table.get Key-discrete (packet_key p) t.table)

module _ (t : Tracker) (ev : IdsEvent) (p : Packet) (v : IsValid t) where
  pub located-Located : Located (timed t p) (packet_key p) (located t ev p)
  located-Located =
      expire_or_reuse-Located (timed t p) p (normalize_flags ev.flags) _ (timed-IsValid t p.time v)
        refl

  pub located-TableOk : TableOk (located t ev p).0.clock (located t ev p).0.table
  located-TableOk =
      subst (λ c. TableOk c (located t ev p).0.table) (sym located-Located.same_clock)
        located-Located.ok

  pub time-le-clock : p.time ≤ (located t ev p).0.clock
  time-le-clock = omega (arith, located-Located.same_clock)

  pub located-Attached :
      (digest : Text → Text)
      → Attached
          (located t ev p).0.clock
          (packet_key p)
          (located t ev p).0
          (attach digest (located t ev p).0 p (located t ev p).1)
  located-Attached digest =
      attach-Attached digest (located t ev p).0 p (located t ev p).1 located-TableOk
        (subst (λ c. length (located t ev p).0.table ≤ max_active_flows c)
          (sym located-Located.same_cfg) located-Located.fits)
        time-le-clock located-Located.found

module _ (digest : Text → Text) where
  unfoldable pub stored : Tracker → IdsEvent → Packet → Tracker
  stored t ev p =
      let (u, e) = attach digest (located t ev p).0 p (located t ev p).1 in
      record u {
        table =
            Table.set_item Key-discrete (packet_key p)
              (process u.cfg p ev (normalize_flags ev.flags) e).0 u.table;
      }

  pub stored-IsValid :
      (t : Tracker) (ev : IdsEvent) (p : Packet) → IsValid t → IsValid (stored t ev p)
  unfolding stored
  stored-IsValid t ev p v =
      Attached-IsValid digest (located t ev p).0 p ev (normalize_flags ev.flags) _
        (time-le-clock t ev p v) (located-Attached t ev p v digest)

  track-IsValid :
      (t : Tracker) (ev : IdsEvent) (p : Packet) → IsValid t → IsValid (track digest t ev p).0
  unfolding track sweep_if_due stored
  track-IsValid t ev p v = sweep_since-IsValid (stored t ev p) _ (stored-IsValid t ev p v)

  -- Whatever event arrives, `update` keeps the invariant: no key twice in the table, each entry under
  -- the key of its flow, never more flows than `max_active_flows`, every flow with a packet, with
  -- totals that are the sums of both directions, not yet closed for a reason, no flow CLOSED without
  -- a FIN of either side.
  pub update-IsValid : (t : Tracker) (ev : IdsEvent) → IsValid t → IsValid (update digest t ev).0
  unfolding update
  update-IsValid t ev v = elim (Option-cases (packet ev)) [
    | inl e ↦ rw (update, e) v
    | inr (p, e) ↦ rw (update, e) (track-IsValid t ev p v)
  ]

-- A new tracker satisfies the invariant.
pub init-IsValid : (cfg : FlowConfig) → IsValid (init cfg)
unfolding init
init-IsValid cfg = record {
  table_ok = record { distinct = tt; own_keys = tt; entries = tt; used = tt };
  bounded = omega arith;
}

-- A flush keeps the invariant.
pub flush-IsValid : (t : Tracker) → IsValid t → IsValid (flush t).0
flush-IsValid t v = subst IsValid (sym (flush_state t v.table_ok.own_keys)) (record {
  table_ok = record { distinct = tt; own_keys = tt; entries = tt; used = tt };
  bounded = omega arith;
})
