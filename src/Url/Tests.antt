-- ===== src/Url/Tests.antt =====
-- `parse` on URLs like those of test/http_test.cpp, and the theorems at them.
use libcoio.Base.{◌≡◌, refl, codes, find}
use libcoio.ResultType.{from_value, from_error}
use libcoio.Url.{Url, invalid_host, parse}
use libcoio.Url.Splits.{Splits, parse_iff}

abbrev search_url : Url
search_url = record {
  proto = codes "http";
  host = codes "a.org";
  path = codes "/s";
  query = codes "q=1";
}

parse-search_url : parse (codes "http://a.org/s?q=1") ≡ from_value search_url
unfolding parse find
parse-search_url = refl

parse_no_path : parse (codes "http://a.org") ≡ from_error invalid_host
unfolding parse find
parse_no_path = refl

parse_iff_example : Splits (codes "http://a.org/s?q=1") search_url
parse_iff_example = (parse_iff (codes "http://a.org/s?q=1") search_url).0 parse-search_url
