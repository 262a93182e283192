-- ===== src/Tests/Contents.antt =====
-- The content search and the results that rest on it, on a short payload.
use nt204_r11_antn_nguyen_th.Base.{
  ℕ, ◌≡◌, refl, ◌↔◌, map, true, false, ◌&&◌, none, some, List, [], ◌∷◌, codes, filter, arith,
  if◌then◌else◌,
}
use nt204_r11_antn_nguyen_th.Models.Rule.{ContentSpec}
use nt204_r11_antn_nguyen_th.Engine.Content.{
  match_chain, find_in, as_bytes, search_from, hits, window, relative_window, absolute_window,
  is_relative, lower_once, known, try_hit, remember, lowered_or, bytes_find, scan, starts_with,
}
use nt204_r11_antn_nguyen_th.Engine.Content.Chain.{IsChain}
use nt204_r11_antn_nguyen_th.Engine.Content.Complete.{match_chain_sound, match_chain_complete}
use nt204_r11_antn_nguyen_th.Engine.Matcher.{match_header, match_flow, match_packet}
use nt204_r11_antn_nguyen_th.Engine.Evaluator.{Evaluator, eligible}
use nt204_r11_antn_nguyen_th.Engine.Evaluator.Results.{fires}
use nt204_r11_antn_nguyen_th.Rules.Repository.{new_repository, freeze}
use nt204_r11_antn_nguyen_th.Engine.Evaluator.Payload.{HasChain, bytes_of, fires_iff}
use nt204_r11_antn_nguyen_th.Engine.Evaluator.Detections.{detect_lem}
use nt204_r11_antn_nguyen_th.Engine.Evaluator.{detect}
use nt204_r11_antn_nguyen_th.Engine.Detection.{Detection}
use nt204_r11_antn_nguyen_th.Tests.Rules.{
  content_of, admin, packet_in, evaluator, evaluator-IsReady,
}

abbrev payload_rest : List ℕ
payload_rest = codes "ET /admin"

admin_found :
    match_chain (some (b'G' ∷ payload_rest)) admin.contents none ≡ some ((0, 3) ∷ (5, 5) ∷ [])
unfolding match_chain as_bytes search_from hits window relative_window absolute_window is_relative
    lower_once known try_hit remember find_in lowered_or bytes_find scan starts_with
admin_found = refl

match_chain_sound_example : IsChain (b'G' ∷ payload_rest) admin.contents 0 ((0, 3) ∷ (5, 5) ∷ [])
match_chain_sound_example =
    match_chain_sound b'G' payload_rest admin.contents none ((0, 3) ∷ (5, 5) ∷ []) tt
      (omega arith, (omega arith, tt)) admin_found

abbrev missing : List ContentSpec
missing = content_of (codes "root") false ∷ []

not_found : match_chain (some (b'G' ∷ payload_rest)) missing none ≡ none
unfolding match_chain as_bytes search_from hits window relative_window absolute_window is_relative
    lower_once known try_hit remember find_in lowered_or bytes_find scan starts_with
not_found = refl

match_chain_complete_example : ¬ IsChain (b'G' ∷ payload_rest) missing 0 ((0, 4) ∷ [])
match_chain_complete_example =
    match_chain_complete b'G' payload_rest missing none tt (omega arith, tt) not_found ((0, 4) ∷ [])

fires_iff_example : (fires packet_in none admin ≡ true) ↔ (
    (match_header admin packet_in ≡ true)
    × (match_flow admin none ≡ true)
    × (match_packet admin packet_in ≡ true)
    × HasChain (bytes_of packet_in.payload) admin.contents)
fires_iff_example = fires_iff packet_in none admin (omega arith, (omega arith, tt))

detect_lem_example :
    (ev' : Evaluator) × (ds : List Detection) × (detect packet_in none evaluator ≡ some (ev', ds))
    × (map (λ d. d.sid) ds
        ≡ map
            (λ r. r.sid)
            (if evaluator.enabled && eligible packet_in
              then filter (fires packet_in none) evaluator.repository.rules
              else []))
unfolding freeze new_repository
detect_lem_example =
    detect_lem packet_in none evaluator evaluator-IsReady
      ((omega arith, (omega arith, tt)), (tt, tt))
