-- ===== src/Rules/Parser/Header/Verdict.antt =====
-- src/rules/parser.py, `parse_header`: which error of the seven fields is raised.
use nt204_r11_antn_nguyen_th.Base.{◌≡◌, Option, List, [], ◌∷◌, Text}
use nt204_r11_antn_nguyen_th.Models.Rule.{ip, one_way}
use nt204_r11_antn_nguyen_th.Rules.Syntax.{Reason}
use nt204_r11_antn_nguyen_th.Rules.Syntax.Outcome.{problem, outcome, noted_lem, raise_first_lem}
use nt204_r11_antn_nguyen_th.Rules.Parser.Header.{
  alert, any_ip, every_port, parse_action, parse_protocol, parse_ip, parse_port, parse_direction,
  parse_header,
}

-- The problems of the seven fields, in the order of the header.
abbrev pub field_problems : Text → Text → Text → Text → Text → Text → Text → List (Option Reason)
field_problems action protocol src_ip src_port direction dst_ip dst_port =
    problem (parse_action action)
    ∷ problem (parse_protocol protocol)
    ∷ problem (parse_ip src_ip)
    ∷ problem (parse_port src_port)
    ∷ problem (parse_direction direction)
    ∷ problem (parse_ip dst_ip)
    ∷ problem (parse_port dst_port)
    ∷ []

-- A header of seven tokens is rejected for the first invalid field, or else for the first
-- unsupported one, and is accepted if no field has a problem.
parse_header_lem :
    (action protocol src_ip src_port direction dst_ip dst_port : Text)
    → problem
        (parse_header (action ∷ protocol ∷ src_ip ∷ src_port ∷ direction ∷ dst_ip ∷ dst_port ∷ []))
      ≡ outcome (field_problems action protocol src_ip src_port direction dst_ip dst_port)
unfolding parse_header any_ip every_port
parse_header_lem action protocol src_ip src_port direction dst_ip dst_port =
    noted_lem alert (parse_action action) [] _ _ (λ us.
      noted_lem ip (parse_protocol protocol) us _ _ (λ us.
        noted_lem any_ip (parse_ip src_ip) us _ _ (λ us.
          noted_lem every_port (parse_port src_port) us _ _ (λ us.
            noted_lem one_way (parse_direction direction) us _ _ (λ us.
              noted_lem any_ip (parse_ip dst_ip) us _ _ (λ us.
                noted_lem every_port (parse_port dst_port) us _ _ (λ us. raise_first_lem us _)))))))
