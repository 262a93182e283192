-- ===== src/Tests/Decoder.antt =====
-- src/decoder/: the theorems on bytes that are written out.
use nt204_r11_antn_nguyen_th.Base.{
  ℕ, true, false, ◌≡◌, refl, Option, none, some, List, [], ◌∷◌, Text, codes, text_eq, find_char,
  inl, inr, arith,
}
use nt204_r11_antn_nguyen_th.Decoder.Charset.{
  utf_8, full, no_info, decode_with, decode_bytes, first_invalid, char_at, choose_codec,
  three_bytes, decode_escaped,
}
use nt204_r11_antn_nguyen_th.Decoder.Charset.Utf8.{encode_utf8, decode_with-encode_utf8}
use nt204_r11_antn_nguyen_th.Decoder.Charset.Bounds.{Describes, decode_bytes-Describes}
use nt204_r11_antn_nguyen_th.Decoder.Url.{
  percent_passes, percent_decode, decode_uri, decode_form, plus_in_query, unquote_to_bytes,
  escape_at, hex_pair, has_invalid_percent,
}
use nt204_r11_antn_nguyen_th.Rules.Parser.Decode.{hex_value}
use nt204_r11_antn_nguyen_th.Decoder.Url.Forms.{write_query, decode_form-write_query}
use nt204_r11_antn_nguyen_th.Decoder.Url.Passes.{unquote_times, percent_passes-unquote_times}
use nt204_r11_antn_nguyen_th.Decoder.Url.Written.{percent_encode, percent_decode-percent_encode}

abbrev twice : List ℕ
twice = codes "/%2541%zz"

abbrev no_codecs : Text → Option Text
no_codecs name = none

-- A, e with an acute accent, the euro sign and a face.
abbrev letters : Text
letters = 0x41 ∷ 0xE9 ∷ 0x20AC ∷ 0x1F600 ∷ []

abbrev broken : List ℕ
broken = 0x41 ∷ 0xE2 ∷ 0x82 ∷ 0x42 ∷ 0xFF ∷ []

percent_passes-unquote_times_example :
    (percent_passes 3 twice).current_bytes ≡ unquote_times 3 twice
percent_passes-unquote_times_example = percent_passes-unquote_times 3 twice

percent_decode-percent_encode_example :
    percent_decode no_codecs (percent_encode (codes "a+b")) 1 true none
    ≡ record (decode_bytes no_codecs (codes "a+b") none false) {
      info = record (decode_bytes no_codecs (codes "a+b") none false).info {
        encodings = some (codes "percent" ∷ []);
      };
    }
percent_decode-percent_encode_example =
    percent_decode-percent_encode no_codecs b'a' (codes "+b") true none
      (omega arith, (omega arith, (omega arith, tt)))

decode_with-encode_utf8_example :
    decode_with utf_8 no_info (encode_utf8 letters)
    ≡ record { text = letters; status = full; info = no_info }
decode_with-encode_utf8_example = decode_with-encode_utf8 letters no_info (
  inl (omega arith),
  (inl (omega arith), (inl (omega arith), (inr (omega arith, omega arith), tt))),
)

decode_bytes-Describes_example :
    let d = decode_bytes no_codecs broken none false in
    Describes (choose_codec no_codecs none).0 false broken d.status d
decode_bytes-Describes_example =
    decode_bytes-Describes no_codecs broken none false
      (omega arith, (omega arith, (omega arith, (omega arith, (omega arith, tt)))))

broken_runs : (decode_bytes no_codecs broken none false).info.invalid_byte_count ≡ some 3
unfolding decode_bytes decode_with first_invalid char_at choose_codec three_bytes decode_escaped
broken_runs = refl

twice_runs : (percent_passes 3 twice).current_bytes ≡ codes "/A%zz"
unfolding percent_passes text_eq unquote_to_bytes escape_at hex_pair hex_value
twice_runs = refl

uri_runs : (decode_uri no_codecs (codes "/a+b?c+d%20e") 1 true).text ≡ codes "/a+b?c d e"
unfolding decode_uri percent_decode percent_passes plus_in_query find_char text_eq unquote_to_bytes
    escape_at hex_pair hex_value has_invalid_percent decode_bytes decode_with first_invalid char_at
    choose_codec decode_escaped
uri_runs = refl

-- The key `k` twice, the second time without a value.
abbrev query : List (Text × Text)
query = (codes "k", 0xE9 ∷ b'&' ∷ []) ∷ (codes "k", []) ∷ []

decode_form-write_query_example :
    (decode_form no_codecs 1 true none (write_query query)).value ≡ query
decode_form-write_query_example = decode_form-write_query no_codecs true query (
  ((inl (omega arith), tt), (inl (omega arith), (inl (omega arith), tt))),
  (((inl (omega arith), tt), tt), tt),
)
