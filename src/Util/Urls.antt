-- ===== src/Util/Urls.antt =====
-- util/urlreader.go, UrlOpen: where a list comes from. The parser of URLs, the file system and the
-- network are parameters.
use dinosaur_dns.Common.{ℕ, ◌||◌, List, ◌++◌, Str, str_eq, [], if◌then◌else◌}
use dinosaur_dns.Common.Results.{Result, ok, fail}
use dinosaur_dns.Common.Strings.{codes}

-- url.URL, as far as it is used
pub record Target : Type 0 where
  pub scheme : Str
  pub path : Str

-- url.Parse, os.Open and http.Get: an http answer of any status has a body.
pub record Opener : Type 0 where
  pub parse_url : Str → Result Str Target
  pub open_file : Str → Result Str (List ℕ)
  pub http_get : Str → Result Str (List ℕ)

module _ (opener : Opener) where
  open opener use {parse_url, open_file, http_get}

  fetched : Str → Result Str (List ℕ) → Result Str (List ℕ)
  fetched arg (ok body) = ok body
  fetched arg (fail e) = fail (codes "Error fetching URL <" ++ arg ++ codes ">: " ++ e)

  opened : Str → Result Str Target → Result Str (List ℕ)
  unfolding fetched
  opened arg (fail e) = fail (codes "Couldnt parse URL <" ++ arg ++ codes "> " ++ e)
  opened arg (ok target) =
      if str_eq target.scheme []
      then open_file arg
      else if str_eq target.scheme (codes "http") || str_eq target.scheme (codes "https")
      then fetched arg (http_get arg)
      else if str_eq target.scheme (codes "file")
      then open_file target.path
      else fail (codes "Invalid URL scheme: " ++ arg ++ codes " (http/https/file supported)")

  unfoldable pub url_open : Str → Result Str (List ℕ)
  unfolding opened
  url_open arg = opened arg (parse_url arg)
