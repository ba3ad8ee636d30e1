-- ===== src/Url.antt =====
-- The two functions that put a slash at the end of a URL or take it away: sanitizeUrl of
-- utils/utils.ts and urlSanitizer of utils/sanitizeUrl.validator.ts.
pub mod Slash
use Prim.Native.String.{count}
use entity_developer_dashboa.Prelude.{
  ◌-◌, String, Bool, true, false, Option, none, some, if◌then◌else◌, ◌===◌, ◌⋅◌, not, truthy,
  ends_with, take, drop, slice_end,
}
use entity_developer_dashboa.Exec.{Result, ok, err, Failure, error}

abbrev is_url_ends_with_slash : String → Bool
is_url_ends_with_slash url = drop (count url - 1) url === "/"

unfoldable pub sanitize_url : Option String → Bool → Result String
sanitize_url none should_end_with_slash = err (error "Please pass a valid url")
sanitize_url (some url) should_end_with_slash =
    if not (truthy url)
    then err (error "Please pass a valid url")
    else if should_end_with_slash
    then ok (if is_url_ends_with_slash url then url else url ⋅ "/")
    else ok (if is_url_ends_with_slash url then take (count url - 1) url else url)

unfoldable pub url_sanitizer : Option String → Bool → Result String
url_sanitizer none ends = err (error "TypeError")
url_sanitizer (some url) true = ok (if ends_with url "/" then url else url ⋅ "/")
url_sanitizer (some url) false = ok (if ends_with url "/" then slice_end url 1 else url)
