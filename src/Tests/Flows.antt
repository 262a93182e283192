-- ===== src/Tests/Flows.antt =====
-- The flow tracker on a TCP handshake that a reset ends, and a UDP packet.
use nt204_r11_antn_nguyen_th.Base.{
  ℕ, ◌≡◌, ◌↔◌, refl, true, false, not, Option, none, some, List, [], ◌∷◌, ◌++◌, Text, text_eq,
  codes, pos, length, map, filter, take, drop, ◌<◌, arith,
}
use nt204_r11_antn_nguyen_th.Models.Flow.{
  tcp, handshake, established, closing, closed, forward, backward,
}
use nt204_r11_antn_nguyen_th.Models.Event.{IdsEvent}
use nt204_r11_antn_nguyen_th.Flow.Key.{make_key, make_key_iff, SameProtocol, SameEnds}
use nt204_r11_antn_nguyen_th.Flow.TcpState.{Context, next_state, has_flag, normalize_flags}
use nt204_r11_antn_nguyen_th.Flow.TcpState.Laws.{Move, next_state-Move}
use nt204_r11_antn_nguyen_th.Flow.TcpState.Closing.{BothFins, next_state_closed}
use nt204_r11_antn_nguyen_th.Flow.Timeout.{FlowConfig, FlowEntry, get_close_reason}
use nt204_r11_antn_nguyen_th.Flow.Tracker.{Tracker, packet, init, sweep, flush}
use nt204_r11_antn_nguyen_th.Flow.Tracker.Export.{
  close, expired_at, sweep_lem, flush_lem, final_reason,
}
use nt204_r11_antn_nguyen_th.Flow.Tracker.Evict.{excess, evicted_flows, evict_lem}
use nt204_r11_antn_nguyen_th.Flow.Tracker.Update.{update, raw_length_of, evict}
use nt204_r11_antn_nguyen_th.Flow.Tracker.Valid.{IsValid}
use nt204_r11_antn_nguyen_th.Flow.Tracker.Invariant.{init-IsValid, update-IsValid}
use nt204_r11_antn_nguyen_th.Flow.Tracker.Totals.{sum}
use nt204_r11_antn_nguyen_th.Flow.Tracker.Run.{run, brought, run-flush_conserves}

-- A digest that keeps its text.
abbrev pub digest : Text → Text
digest t = t

-- Room for one flow only.
abbrev pub settings : FlowConfig
settings = record {
  udp_idle_timeout = none;
  tcp_handshake_timeout = some 5;
  tcp_closed_linger = some 0;
  tcp_idle_timeout = none;
  sweep_interval = none;
  max_active_flows = some 1;
  tcp_close_requires_final_ack = none;
}

abbrev pub client : Text
client = codes "10.0.0.1"

abbrev pub server : Text
server = codes "10.0.0.2"

abbrev pub client_port : ℕ
client_port = 4000

abbrev pub server_port : ℕ
server_port = 80

abbrev pub event : ℕ → ℕ → Text → Text → ℕ → Text → ℕ → List Text → IdsEvent
event n time protocol a p b q flags = record {
  packet_id = n;
  timestamp = some time;
  src_ip = some a;
  dst_ip = some b;
  src_port = some p;
  dst_port = some q;
  transport_protocol = some protocol;
  flags = some flags;
  app_protocol = none;
  raw_length = pos 60;
  preprocess_status = none;
  processing_action = none;
  flow_id = none;
  direction = none;
  flow_state = none;
  payload = some (codes "GET /admin");
}

abbrev pub syn : IdsEvent
syn = event 1 100 (codes "TCP") client 4000 server 80 (codes "SYN" ∷ [])

abbrev pub syn_ack : IdsEvent
syn_ack = event 2 101 (codes "TCP") server 80 client 4000 (codes "SYN" ∷ codes "ACK" ∷ [])

abbrev pub ack : IdsEvent
ack = event 3 102 (codes "TCP") client 4000 server 80 (codes "ACK" ∷ [])

-- Another connection, for which there is no room.
abbrev query : IdsEvent
query = event 4 103 (codes "udp") client 5000 server 53 []

abbrev pub capture : List IdsEvent
capture = syn ∷ syn_ack ∷ ack ∷ query ∷ []

abbrev start : Tracker
start = init settings

abbrev after_syn : Tracker
after_syn = (update digest start syn).0

start-IsValid : IsValid start
start-IsValid = init-IsValid settings

after_syn-IsValid : IsValid after_syn
after_syn-IsValid = update-IsValid digest start syn start-IsValid

run-flush_conserves_example :
    (sum (λ f. f.packet_count) (flush (run digest start capture)).0.exported
      ≡ brought (λ ev. 1) capture)
    × (sum (λ f. f.byte_count) (flush (run digest start capture)).0.exported
        ≡ brought (λ ev. raw_length_of ev.raw_length) capture)
run-flush_conserves_example = run-flush_conserves digest settings capture

brought_test : brought (λ ev. 1) capture ≡ 4
unfolding brought packet text_eq
brought_test = refl

update-IsValid_example : IsValid (update digest after_syn syn_ack).0
update-IsValid_example = update-IsValid digest after_syn syn_ack after_syn-IsValid

-- The handshake timeout of `after_syn` has passed.
sweep_lem_example :
    ((sweep after_syn (some 300)).0.table
      ≡ filter (λ e. not (expired_at after_syn (some 300) e)) after_syn.table)
    × ((sweep after_syn (some 300)).0.exported
        ≡ after_syn.exported
          ++ map
              (λ e. close (get_close_reason e.1) e.1)
              (filter (expired_at after_syn (some 300)) after_syn.table))
    × ((sweep after_syn (some 300)).1
        ≡ length (filter (expired_at after_syn (some 300)) after_syn.table))
sweep_lem_example =
    sweep_lem after_syn (some 300) after_syn-IsValid.table_ok.distinct
      after_syn-IsValid.table_ok.own_keys

flush_lem_example :
    ((flush after_syn).0.table ≡ [])
    × ((flush after_syn).0.exported
        ≡ after_syn.exported ++ map (λ e. close (final_reason e.1.flow.state) e.1) after_syn.table)
    × ((flush after_syn).1 ≡ length after_syn.table)
flush_lem_example = flush_lem after_syn after_syn-IsValid.table_ok.own_keys

-- Making room for a second flow where there is room for one.
evict_lem_example :
    ((evict (length after_syn.table) 1 after_syn).table
      ≡ drop (excess 1 after_syn.table) after_syn.table)
    × ((evict (length after_syn.table) 1 after_syn).exported
        ≡ after_syn.exported ++ evicted_flows (take (excess 1 after_syn.table) after_syn.table))
    × (length (evict (length after_syn.table) 1 after_syn).table < 1)
evict_lem_example = evict_lem 1 after_syn (omega arith) after_syn-IsValid.table_ok.own_keys

-- The server has sent a FIN, and before it a SYN/ACK.
abbrev one_fin : Context
one_fin = record {
  synack_seen = true;
  synack_dir = some backward;
  fin_fwd = false;
  fin_bwd = true;
  midstream = false;
  requires_final_ack = false;
}

abbrev rst : Option (List Text)
rst = some (codes "RST" ∷ [])

abbrev fin_ack : Option (List Text)
fin_ack = some (codes "FIN" ∷ codes "ACK" ∷ [])

abbrev only_ack : Option (List Text)
only_ack = some (codes "ACK" ∷ [])

next_state-Move_example : Move handshake (next_state handshake rst forward one_fin false).0
next_state-Move_example = next_state-Move handshake rst forward one_fin

closes : (next_state closing fin_ack forward one_fin false).0 ≡ closed
unfolding next_state has_flag normalize_flags text_eq
closes = refl

next_state_closed_example : BothFins (next_state closing fin_ack forward one_fin false).1
next_state_closed_example = next_state_closed closing fin_ack forward one_fin false (λ e. cc) closes

make_key_iff_example :
    (make_key [] client client_port server server_port
      ≡ make_key (codes "unknown") server server_port client client_port)
    ↔ (SameProtocol [] (codes "unknown")
        × SameEnds client client_port server server_port server server_port client client_port)
make_key_iff_example =
    make_key_iff [] (codes "unknown") client client_port server server_port server server_port
      client client_port

abbrev pub entry : FlowEntry
entry = record {
  flow = record {
    flow_id = [];
    protocol = tcp;
    endpoint_a = record { ip = client; port = client_port };
    endpoint_b = record { ip = server; port = 80 };
    application_protocol = none;
    start_time = 0;
    last_seen = 7;
    packet_count = 1;
    byte_count = 60;
    payload_byte_count = 0;
    fwd_packet_count = 1;
    fwd_byte_count = 60;
    bwd_packet_count = 0;
    bwd_byte_count = 0;
    syn_count = 1;
    ack_count = 0;
    fin_count = 0;
    rst_count = 0;
    state = established;
    close_reason = none;
    midstream = false;
  };
  fin_fwd = false;
  fin_bwd = false;
  synack_seen = false;
  synack_dir = none;
  state_changed_at = 0;
}
