-- ===== src/Biz/Swagger/Fetch.antt =====
-- internal/biz/swagger.go: where a Swagger document is fetched from. What the web answers, net/url
-- and the regular expressions are parameters: a page is what one request returned, a 2xx answer of
-- at most 8 MiB with its content type, or an error.
pub mod Laws
use Prim.Native.Char.{Char, code}
use Prim.Native.String.{String}
use package.text.Mathlib.Text.{◌==◌ as str_eq}
use permission_center_go.Common.{
  ℕ, zero, suc, Bool, true, false, not, ◌&&◌, ◌||◌, ◌==◌ as nat_eq, Option, none, some, List, [],
  ◌∷◌, ◌++◌, is_empty, if◌then◌else◌, Result, ok, err, panic, Error, invalid_argument, ◌>>=◌,
}
use permission_center_go.Text.{trim_space, is_blank, append}
use permission_center_go.Biz.Swagger.{Document, is_swagger_document}

-- A url.URL by its scheme and its host; `rest` stands for the others.
pub record Location : Type 0 where
  pub scheme : String
  pub host : String
  pub rest : String

-- `\/` is a slash in inline JSON.
unfoldable pub unescape_slashes : String → String
unescape_slashes String.[] = String.[]
unescape_slashes (String.◌∷◌ c String.[]) = String.◌∷◌ c String.[]
unescape_slashes (String.◌∷◌ c (String.◌∷◌ d s)) =
    let skipped = append "/" (unescape_slashes s) in
    let kept = String.◌∷◌ c (unescape_slashes (String.◌∷◌ d s)) in
    if nat_eq (code c) 92 && nat_eq (code d) 47 then skipped else kept

abbrev pub backwards {ℓ} : {A : Type ℓ} → List A → List A
backwards [] = []
backwards (x ∷ xs) = backwards xs ++ x ∷ []

-- Of a page: whether it is HTML, what the patterns of a document's URL and of a configuration's URL
-- find first, the sources of its scripts, all and those of an initializer, and what decodes it.
pub record Reader (Page : Type 0) : Type 0 where
  pub is_html : Page → Bool
  pub ui_url : Page → Option String
  pub config_url : Page → Option String
  pub initializers : Page → List String
  pub scripts : Page → List String
  pub decoded : Page → Option Document
  pub parse : String → Option Location
  pub resolve : Location → String → Option Location
  pub hostname : String → String
  pub port : String → String

module _ {Page : Type 0} (reader : Reader Page) (request : Location → Result Page) where
  open reader use {
    is_html, ui_url, config_url, initializers, scripts, decoded, parse, resolve, hostname, port,
  }

  -- swaggerReferenceURL
  unfoldable pub swagger_reference_url : Location → String → Option Location
  swagger_reference_url url reference = resolve url (unescape_slashes (trim_space reference))

  or_invalid : String → Option Location → Result Location
  or_invalid message none = err (invalid_argument message)
  or_invalid message (some url) = ok url

  -- The URL that the first pattern finds, else that of the second.
  unfoldable pub found_url : Option String → Option String → Option String
  found_url none config = config
  found_url (some reference) config = some reference

  -- The loop over the scripts, the last one first.
  unfoldable pub search_scripts : Location → List String → Result (Option String)
  unfolding or_invalid
  search_scripts url [] = ok none
  search_scripts url (script ∷ rest) =
      let later = search_scripts url rest in
      or_invalid "invalid Swagger UI script URL" (swagger_reference_url url script) >>= λ place.
      request place >>= λ page. or_later later (found_url (ui_url page) (config_url page))
    where
      or_later : Result (Option String) → Option String → Result (Option String)
      or_later later none = later
      or_later later (some reference) = ok (some reference)

  -- swaggerUIReference
  unfoldable pub swagger_ui_reference : Location → Page → Result (Option String)
  swagger_ui_reference url page =
      let listed = if is_empty (initializers page) then scripts page else initializers page in
      search_scripts url (backwards listed)

  unfoldable pub html_reference : Location → Page → Option String → Result (Option String)
  html_reference url page none = swagger_ui_reference url page
  html_reference url page (some reference) = ok (some reference)

  -- A reference is followed by `next`, from the URL that it stands for.
  unfoldable pub follow : (Location → Result Page) → String → Location → String → Result Page
  unfolding or_invalid
  follow next message url reference =
      or_invalid message (swagger_reference_url url reference) >>= next

  unfoldable pub follow_html : (Location → Result Page) → Location → Option String → Result Page
  follow_html next url none =
      err (invalid_argument "Swagger UI page does not declare a document URL")
  follow_html next url (some reference) =
      follow next "invalid Swagger UI document URL" url reference

  -- What is done with a page that is not HTML and not a document: it may name one.
  unfoldable pub follow_plain :
      (Location → Result Page) → Location → Page → Option String → Option String → Result Page
  follow_plain next url page (some reference) config =
      follow next "invalid Swagger configuration document URL" url reference
  follow_plain next url page none (some reference) =
      follow next "invalid Swagger configuration URL" url reference
  follow_plain next url page none none = ok page

  unfoldable pub read_page : (Location → Result Page) → Location → Page → Result Page
  read_page next url page =
      if is_html page
      then html_reference url page (found_url (ui_url page) (config_url page))
        >>= follow_html next url
      else if is_swagger_document (decoded page)
      then ok page
      else follow_plain next url page (ui_url page) (config_url page)

  -- fetchSwaggerDocumentAt, with the number of levels that are left.
  unfoldable pub fetch_swagger_document_at : ℕ → Location → Result Page
  fetch_swagger_document_at zero url =
      err (invalid_argument "Swagger UI document reference is nested too deeply")
  fetch_swagger_document_at (suc n) url =
      let next = fetch_swagger_document_at n in request url >>= read_page next url

  -- The levels of a document: depth 0 to 3.
  abbrev pub max_levels : ℕ
  max_levels = 4

  -- The same URL on the developer's machine.
  abbrev pub host_url : Location → Location
  host_url url = record url {
    host =
        append "host.docker.internal"
          (if is_blank (port url.host) then "" else append ":" (port url.host));
  }

  unfoldable pub is_local : Location → Bool
  is_local url = str_eq (hostname url.host) "localhost" || str_eq (hostname url.host) "127.0.0.1"

  unfoldable pub or_on_host : Location → Result Page → Result Page
  or_on_host url (ok page) = ok page
  or_on_host url panic = panic
  or_on_host url (err e) =
      if is_local url then fetch_swagger_document_at max_levels (host_url url) else err e

  unfoldable pub fetch_parsed : Option Location → Result Page
  fetch_parsed none = err (invalid_argument "swagger_url must be an absolute http or https URL")
  fetch_parsed (some url) =
      if is_blank url.scheme
        || is_blank url.host
        || (not (str_eq url.scheme "http") && not (str_eq url.scheme "https"))
      then err (invalid_argument "swagger_url must be an absolute http or https URL")
      else or_on_host url (fetch_swagger_document_at max_levels url)

  -- fetchSwaggerDocument
  unfoldable pub fetch_swagger_document : String → Result Page
  fetch_swagger_document raw = fetch_parsed (parse (trim_space raw))
