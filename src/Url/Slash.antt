-- ===== src/Url/Slash.antt =====
-- Whether the two functions on slashes agree.
use entity_developer_dashboa.Prelude.{
  String, Bool, true, false, some, ◌≡◌, refl, not, truthy, drop-ends_with, take-slice_end,
}
use entity_developer_dashboa.Url.{sanitize_url, url_sanitizer}

-- The two functions give the same for every URL that is not empty.
pub sanitize_url-url_sanitizer :
    (url : String) (ends : Bool)
    → not (truthy url) ≡ false
    → sanitize_url (some url) ends ≡ url_sanitizer (some url) ends
unfolding sanitize_url url_sanitizer
sanitize_url-url_sanitizer url true h = rw (h, drop-ends_with url h) refl
sanitize_url-url_sanitizer url false h = rw (h, drop-ends_with url h, take-slice_end url 1) refl
