-- ===== src/Tests/Paths.antt =====
-- src/preprocessor/normalizer.py: paths and hosts that are written out.
use nt204_r11_antn_nguyen_th.Base.{
  ◌≡◌, refl, none, Text, codes, ends_with, without_last, has_prefix, rfind_char, is_digit, lstrip,
  rstrip,
}
use nt204_r11_antn_nguyen_th.Preprocessor.Normalizer.{
  normalize_domain, normalize_named, normalize_bracketed, normalize_host, is_escape, uppercase_hex,
  has_valid_start, add_slash, normalize_uri_path,
}
use nt204_r11_antn_nguyen_th.Preprocessor.Normalizer.Stable.{normalize_uri_path_twice}

abbrev raw_path : Text
raw_path = codes "a%2f%%2f..%zz"

normalize_uri_path_twice_example :
    normalize_uri_path (normalize_uri_path raw_path none) none ≡ normalize_uri_path raw_path none
normalize_uri_path_twice_example = normalize_uri_path_twice raw_path none

path_runs : normalize_uri_path raw_path none ≡ codes "/a%2F%%2F..%zz"
unfolding normalize_uri_path uppercase_hex is_escape add_slash has_valid_start has_prefix
path_runs = refl

host_runs : normalize_host is_digit (codes " Example.COM.:8080 ") ≡ codes "example.com:8080"
unfolding normalize_host normalize_named normalize_domain rfind_char ends_with without_last lstrip
    rstrip
host_runs = refl

bracket_runs : normalize_host is_digit (codes "[2001:DB8::1]:80") ≡ codes "[2001:db8::1]:80"
unfolding normalize_host normalize_bracketed rfind_char lstrip rstrip
bracket_runs = refl
