-- ===== src/Flow/Tracker/Evict.antt =====
-- Which flows the eviction loop takes out, and that it makes room.
use nt204_r11_antn_nguyen_th.Base.{
  ℕ, zero, suc, ◌+◌, ◌-◌, ◌≤◌, ◌<◌, ◌≡◌, sym, ap, ◌∙◌, inl, inr, false, List, [], ◌∷◌, ◌++◌, arith,
  All, map, length, take, drop, leb, leb→le, leb-false, append_assoc, append-nil, Bool-cases,
  length-drop,
}
use nt204_r11_antn_nguyen_th.Models.Flow.{Flow, evicted}
use nt204_r11_antn_nguyen_th.Flow.Table
use nt204_r11_antn_nguyen_th.Flow.Tracker.{Tracker, Entries}
use nt204_r11_antn_nguyen_th.Flow.Tracker.Update.{evict}
use nt204_r11_antn_nguyen_th.Flow.Tracker.Export.{HasOwnKey, close, export_or_drop_head}

-- How many entries have to go until fewer than `max_flows` are left.
abbrev pub excess : ℕ → Entries → ℕ
excess max_flows es = length es + 1 - max_flows

abbrev pub evicted_flows : Entries → List Flow
evicted_flows = map (λ e. close evicted e.1)

nothing_over :
    (m : ℕ) (t : Tracker) (es : Entries)
    → excess m es ≡ 0
    → record t { table = es } ≡ record t {
      table = drop (excess m es) es;
      exported = t.exported ++ evicted_flows (take (excess m es) es);
    }
nothing_over m t es z =
    rw z (ap (λ u. record t { table = es; exported = u }) (sym (append-nil t.exported)))

evict-eq :
    (fuel max_flows : ℕ) (t : Tracker) (es : Entries)
    → length es ≤ fuel
    → 0 < max_flows
    → All HasOwnKey es
    → evict fuel max_flows (record t { table = es }) ≡ record t {
      table = drop (excess max_flows es) es;
      exported = t.exported ++ evicted_flows (take (excess max_flows es) es);
    }
unfolding evict Table.oldest
evict-eq zero m t [] le pos own = nothing_over m t [] (omega arith)
evict-eq zero m t (e ∷ es) le pos own = absurd (omega arith)
evict-eq (suc f) m t [] le pos own =
    let room : leb m 0 ≡ false = ground arith in
    rw (evict, room) (nothing_over m t [] (omega arith))
evict-eq (suc f) m t ((k, e) ∷ es) le pos own = elim (Bool-cases (leb m (length ((k, e) ∷ es)))) [
  | inl full ↦
      let more : excess m ((k, e) ∷ es) ≡ suc (excess m es) =
        omega (arith, leb→le m (suc (length es)) full) in
      rw (evict, full, more)
        (ap (evict f m) (export_or_drop_head t k e es evicted own.0)
          ∙ evict-eq f m (record t { exported = t.exported ++ close evicted e ∷ [] }) es
              (omega arith) pos own.1
          ∙ ap (λ u. record t { table = drop (excess m es) es; exported = u })
              (append_assoc t.exported _ _))
  | inr room ↦
      let none_over : excess m ((k, e) ∷ es) ≡ 0 =
        omega (arith, leb-false m (suc (length es)) room) in
      rw (evict, room) (nothing_over m t ((k, e) ∷ es) none_over)
]

pub evict_state :
    (max_flows : ℕ) (t : Tracker)
    → 0 < max_flows
    → All HasOwnKey t.table
    → evict (length t.table) max_flows t ≡ record t {
      table = drop (excess max_flows t.table) t.table;
      exported = t.exported ++ evicted_flows (take (excess max_flows t.table) t.table);
    }
evict_state m t pos own = evict-eq (length t.table) m t t.table (omega arith) pos own

-- With room for one flow at least, and every entry under its own key, the eviction loop ends with
-- room for a new flow: it exports, as `evicted`, just as many flows as have to go, the ones seen
-- longest ago first, and leaves the others in their order.
pub evict_lem :
    (max_flows : ℕ) (t : Tracker)
    → 0 < max_flows
    → All HasOwnKey t.table
    → let t' = evict (length t.table) max_flows t in
      (t'.table ≡ drop (excess max_flows t.table) t.table)
      × (t'.exported ≡ t.exported ++ evicted_flows (take (excess max_flows t.table) t.table))
      × (length t'.table < max_flows)
evict_lem m t pos own =
    let h = evict_state m t pos own in
    let kept = ap (λ u. u.table) h in
    (
      kept,
      ap (λ u. u.exported) h,
      omega (arith, ap length kept, length-drop (excess m t.table) t.table),
    )
