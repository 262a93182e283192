-- ===== src/Flow/Tracker/Preserve.antt =====
-- The steps of `update`, each with what it keeps of the table.
use nt204_r11_antn_nguyen_th.Base.{
  ℕ, ◌≤◌, ◌<◌, ◌≡◌, refl, sym, ap, ◌∙◌, subst, inl, inr, Bool, ◌&&◌, Option, none, some, List, [],
  ◌∷◌, ◌++◌, arith, All-drop, All-map, All-filter, All-append, length, length-append, length-drop,
  filter, drop, Bool-cases, Text,
}
use nt204_r11_antn_nguyen_th.Models.Flow.{CloseReason}
use nt204_r11_antn_nguyen_th.Models.Event.{IdsEvent}
use nt204_r11_antn_nguyen_th.Flow.Key.{Key, Key-discrete}
use nt204_r11_antn_nguyen_th.Flow.Table
use nt204_r11_antn_nguyen_th.Flow.Table.Laws.{
  erase-Distinct, drop-Distinct, filter-Distinct, append-Distinct, get-erase_self, get-drop-none,
  touch-eq, add_absent, set_item_last, length-erase,
}
use nt204_r11_antn_nguyen_th.Flow.Table.Entries.{erase-All, get-All}
use nt204_r11_antn_nguyen_th.Flow.TcpState.{is_terminal}
use nt204_r11_antn_nguyen_th.Flow.Timeout.{FlowConfig, FlowEntry, new_entry, is_expired}
use nt204_r11_antn_nguyen_th.Flow.Tracker.{
  Tracker, Entries, Packet, packet_key, flow_key, export_flow, max_active_flows,
}
use nt204_r11_antn_nguyen_th.Flow.Tracker.Export.{HasOwnKey, export_flow_found, close}
use nt204_r11_antn_nguyen_th.Flow.Tracker.Evict.{evict_state, excess}
use nt204_r11_antn_nguyen_th.Flow.Tracker.Update.{
  expire_or_reuse, attach, process, new_flow, is_tcp, is_pure_syn,
}
use nt204_r11_antn_nguyen_th.Flow.Tracker.Valid.{
  EntryOk, TableOk, IsValid, new_flow-key, process-key, process-EntryOk, process-used,
  new_entry-EntryOk,
}

pub erase-TableOk :
    (clock : ℕ) (k : Key) (u : Entries)
    → TableOk clock u
    → TableOk clock (Table.erase Key-discrete k u)
erase-TableOk clock k u ok = record {
  distinct = erase-Distinct Key-discrete k u ok.distinct;
  own_keys = erase-All Key-discrete HasOwnKey k u ok.own_keys;
  entries = erase-All Key-discrete (λ e. EntryOk clock e.1) k u ok.entries;
  used = erase-All Key-discrete (λ e. 0 < e.1.flow.packet_count) k u ok.used;
}

drop-TableOk : (clock n : ℕ) (u : Entries) → TableOk clock u → TableOk clock (drop n u)
drop-TableOk clock n u ok = record {
  distinct = drop-Distinct Key-discrete n u ok.distinct;
  own_keys = All-drop HasOwnKey n u ok.own_keys;
  entries = All-drop (λ e. EntryOk clock e.1) n u ok.entries;
  used = All-drop (λ e. 0 < e.1.flow.packet_count) n u ok.used;
}

pub filter-TableOk :
    (clock : ℕ) (p : Key × FlowEntry → Bool) (u : Entries)
    → TableOk clock u
    → TableOk clock (filter p u)
filter-TableOk clock p u ok = record {
  distinct = filter-Distinct Key-discrete p u ok.distinct;
  own_keys = All-filter HasOwnKey p u ok.own_keys;
  entries = All-filter (λ e. EntryOk clock e.1) p u ok.entries;
  used = All-filter (λ e. 0 < e.1.flow.packet_count) p u ok.used;
}

append-TableOk :
    (clock : ℕ) (u : Entries) (k : Key) (e : FlowEntry)
    → Table.get Key-discrete k u ≡ none
    → flow_key e.flow ≡ k
    → EntryOk clock e
    → 0 < e.flow.packet_count
    → TableOk clock u
    → TableOk clock (u ++ (k, e) ∷ [])
append-TableOk clock u k e absent own sound pos ok = record {
  distinct = append-Distinct Key-discrete k e u absent ok.distinct;
  own_keys = All-append HasOwnKey u _ ok.own_keys (own, tt);
  entries = All-append (λ x. EntryOk clock x.1) u _ ok.entries (sound, tt);
  used = All-append (λ x. 0 < x.1.flow.packet_count) u _ ok.used (pos, tt);
}

later-EntryOk : (a b : ℕ) (e : FlowEntry) → a ≤ b → EntryOk a e → EntryOk b e
later-EntryOk a b e h ok = ground arith

pub later-TableOk : (a b : ℕ) (u : Entries) → a ≤ b → TableOk a u → TableOk b u
later-TableOk a b u h ok = record {
  distinct = ok.distinct;
  own_keys = ok.own_keys;
  entries =
      All-map (λ e. EntryOk a e.1) (λ e. EntryOk b e.1) u (λ e. later-EntryOk a b e.1 h) ok.entries;
  used = ok.used;
}

-- The packet's flow after lazy expiration and port reuse: what is found is what the table holds.
pub record Located (t : Tracker) (k : Key) (r : Tracker × Option FlowEntry) : Type 0 where
  pub ok : TableOk t.clock r.0.table
  pub same_cfg : r.0.cfg ≡ t.cfg
  pub same_clock : r.0.clock ≡ t.clock
  pub fits : length r.0.table ≤ max_active_flows t.cfg
  pub found : Table.get Key-discrete k r.0.table ≡ r.1

exported-Located :
    (t : Tracker) (p : Packet) (e : FlowEntry) (reason : CloseReason)
    → IsValid t
    → Table.get Key-discrete (packet_key p) t.table ≡ some e
    → Located t (packet_key p) (export_flow t e reason, none)
exported-Located t p e reason v h =
    let k = flow_key e.flow in
    let own : k ≡ packet_key p =
      get-All Key-discrete HasOwnKey (packet_key p) e t.table v.table_ok.own_keys h in
    let here : Table.get Key-discrete k t.table ≡ some e =
      ap (λ i. Table.get Key-discrete i t.table) own ∙ h in
    let gone = record t {
      table = Table.erase Key-discrete k t.table;
      exported = t.exported ++ close reason e ∷ [];
    } in
    let good : Located t (packet_key p) (gone, none) = record {
      ok = erase-TableOk t.clock k t.table v.table_ok;
      same_cfg = refl;
      same_clock = refl;
      fits = omega (arith, length-erase Key-discrete k t.table e here, v.bounded);
      found =
          subst (λ i. Table.get Key-discrete i (Table.erase Key-discrete k t.table) ≡ none) own
            (get-erase_self Key-discrete k t.table v.table_ok.distinct);
    } in
    subst (λ u. Located t (packet_key p) (u, none)) (sym (export_flow_found t e e reason here)) good

pub expire_or_reuse-Located :
    (t : Tracker) (p : Packet) (flags : List Text) (o : Option FlowEntry)
    → IsValid t
    → Table.get Key-discrete (packet_key p) t.table ≡ o
    → Located t (packet_key p) (expire_or_reuse t p flags o)
unfolding expire_or_reuse
expire_or_reuse-Located t p flags none v h = record {
  ok = v.table_ok;
  same_cfg = refl;
  same_clock = refl;
  fits = v.bounded;
  found = h;
}
expire_or_reuse-Located t p flags (some e) v h = elim (Bool-cases (is_expired e p.time t.cfg)) [
  | inl old ↦ rw old (exported-Located t p e _ v h)
  | inr fresh ↦
      elim (Bool-cases (is_tcp p.protocol && is_pure_syn flags && is_terminal e.flow.state)) [
        | inl reuse ↦ rw (fresh, reuse) (exported-Located t p e _ v h)
        | inr keep ↦
            rw (fresh, keep)
              (record {
                ok = v.table_ok;
                same_cfg = refl;
                same_clock = refl;
                fits = v.bounded;
                found = h;
              })
      ]
]

pub max_active_flows-pos : (c : FlowConfig) → 0 < max_active_flows c
unfolding max_active_flows
max_active_flows-pos c = ground arith

-- After `attach` the entry of the packet stands last in the table, behind sound entries.
pub record Attached (clock : ℕ) (k : Key) (t : Tracker) (r : Tracker × FlowEntry) : Type 0 where
  pub base : Entries
  pub split : r.0.table ≡ base ++ (k, r.1) ∷ []
  pub absent : Table.get Key-discrete k base ≡ none
  pub ok : TableOk clock base
  pub room : length base < max_active_flows r.0.cfg
  pub own : flow_key r.1.flow ≡ k
  pub sound : EntryOk clock r.1
  pub same_clock : r.0.clock ≡ t.clock

module _ (digest : Text → Text) where
  pub attach-Attached :
      (t : Tracker) (p : Packet) (o : Option FlowEntry)
      → TableOk t.clock t.table
      → length t.table ≤ max_active_flows t.cfg
      → p.time ≤ t.clock
      → Table.get Key-discrete (packet_key p) t.table ≡ o
      → Attached t.clock (packet_key p) t (attach digest t p o)
  unfolding attach new_entry
  attach-Attached t p (some e) ok fits le h =
      let k = packet_key p in
      record {
        base = Table.erase Key-discrete k t.table;
        split = touch-eq Key-discrete k t.table e h;
        absent = get-erase_self Key-discrete k t.table ok.distinct;
        ok = erase-TableOk t.clock k t.table ok;
        room = omega (arith, length-erase Key-discrete k t.table e h);
        own = get-All Key-discrete HasOwnKey k e t.table ok.own_keys h;
        sound = get-All Key-discrete (λ x. EntryOk t.clock x.1) k e t.table ok.entries h;
        same_clock = refl;
      }
  attach-Attached t p none ok fits le h =
      let k = packet_key p in
      let m = max_active_flows t.cfg in
      let entry = new_entry (new_flow digest p) in
      let n = excess m t.table in
      let state = evict_state m t (max_active_flows-pos t.cfg) ok.own_keys in
      let absent = get-drop-none Key-discrete n k t.table h in
      record {
        base = drop n t.table;
        split =
            ap (λ u. Table.add Key-discrete k entry u.table) state
            ∙ add_absent Key-discrete k entry (drop n t.table) absent;
        absent = absent;
        ok = drop-TableOk t.clock n t.table ok;
        room =
            subst (λ c. length (drop n t.table) < max_active_flows c) (sym (ap (λ u. u.cfg) state))
              (omega (arith, length-drop n t.table, max_active_flows-pos t.cfg));
        own = new_flow-key digest p;
        sound = new_entry-EntryOk digest p t.clock le;
        same_clock = ap (λ u. u.clock) state;
      }

  pub Attached-IsValid :
      (t : Tracker) (p : Packet) (ev : IdsEvent) (flags : List Text) (r : Tracker × FlowEntry)
      → p.time ≤ t.clock
      → Attached t.clock (packet_key p) t r
      → IsValid (record r.0 {
        table =
            Table.set_item Key-discrete (packet_key p) (process r.0.cfg p ev flags r.1).0 r.0.table;
      })
  Attached-IsValid t p ev flags (u, e) le a =
      let k = packet_key p in
      let e' = (process u.cfg p ev flags e).0 in
      let table_eq : Table.set_item Key-discrete k e' u.table ≡ a.base ++ (k, e') ∷ [] =
        ap (Table.set_item Key-discrete k e') a.split
        ∙ set_item_last Key-discrete k e e' a.base a.absent in
      record {
        table_ok = subst (TableOk u.clock) (sym table_eq) (
            subst (λ c. TableOk c (a.base ++ (k, e') ∷ [])) (sym a.same_clock)
              (append-TableOk t.clock a.base k e' a.absent (process-key u.cfg p ev flags e ∙ a.own)
                (process-EntryOk u.cfg p ev flags t.clock e a.own le a.sound)
                (process-used u.cfg p ev flags e) a.ok));
        bounded = omega (arith, ap length table_eq, length-append a.base ((k, e') ∷ []), a.room);
      }
