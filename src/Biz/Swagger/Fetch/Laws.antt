-- ===== src/Biz/Swagger/Fetch/Laws.antt =====
-- Which page a search for a document ends at.
use Prim.Native.String.{String}
use permission_center_go.Common.{
  ℕ, zero, suc, ◌≡◌, refl, ◌⊎◌, true, false, Option, none, some, Result, ok, err, panic, Bool-cases,
  inl, inr, >>=-eq-ok, refusal_passed, ok-injective, subst,
}
use permission_center_go.Text.{trim_space}
use permission_center_go.Biz.Swagger.{is_swagger_document}
use permission_center_go.Biz.Swagger.Fetch.{
  Location, Reader, follow, follow_html, follow_plain, read_page, fetch_swagger_document_at,
  or_on_host, is_local, host_url, fetch_parsed, fetch_swagger_document,
}

module _ {Page : Type 0} (reader : Reader Page) (request : Location → Result Page) where
  -- A page that some request returned, which is not HTML, and which is a document or names none.
  pub record IsSettled (page : Page) : Type 0 where
    pub place : Location
    pub requested : request place ≡ ok page
    pub plain : reader.is_html page ≡ false
    pub final :
        (is_swagger_document (reader.decoded page) ≡ true)
        ⊎ ((reader.ui_url page ≡ none) × (reader.config_url page ≡ none))

  module _ (next : Location → Result Page)
      (settles : (url : Location) (page : Page) → next url ≡ ok page → IsSettled page) where
    follow-IsSettled :
        (message : String) (url : Location) (reference : String) {page : Page}
        → follow reader request next message url reference ≡ ok page
        → IsSettled page
    unfolding follow
    follow-IsSettled message url reference {page} h =
        let (place, _, h1) = >>=-eq-ok _ next h in settles place page h1

    follow_html-IsSettled :
        (url : Location) (reference : Option String) {page : Page}
        → follow_html reader request next url reference ≡ ok page
        → IsSettled page
    unfolding follow_html
    follow_html-IsSettled url none h = absurd cc
    follow_html-IsSettled url (some reference) h = follow-IsSettled _ url reference h

    follow_plain-IsSettled :
        (url place : Location) (page : Page) (ui config : Option String) {last : Page}
        → request place ≡ ok page
        → reader.is_html page ≡ false
        → reader.ui_url page ≡ ui
        → reader.config_url page ≡ config
        → follow_plain reader request next url page ui config ≡ ok last
        → IsSettled last
    unfolding follow_plain
    follow_plain-IsSettled url place page (some reference) config r p e f h =
        follow-IsSettled _ url reference h
    follow_plain-IsSettled url place page none (some reference) r p e f h =
        follow-IsSettled _ url reference h
    follow_plain-IsSettled url place page none none r p e f h =
        subst IsSettled (ok-injective h)
          (record { place = place; requested = r; plain = p; final = inr (e, f) })

    read_page-IsSettled :
        (url : Location) (page : Page) {last : Page}
        → request url ≡ ok page
        → read_page reader request next url page ≡ ok last
        → IsSettled last
    unfolding read_page
    read_page-IsSettled url page r h = elim (Bool-cases (reader.is_html page)) [
      | inl html ↦
          let (reference, _, h1) =
            >>=-eq-ok _ (follow_html reader request next url) (rw html at h) in
          follow_html-IsSettled url reference h1
      | inr plain ↦ elim (Bool-cases (is_swagger_document (reader.decoded page))) [
        | inl document ↦
            subst IsSettled (ok-injective (rw (plain, document) at h))
              (record { place = url; requested = r; plain = plain; final = inl document })
        | inr other ↦
            follow_plain-IsSettled url url page (reader.ui_url page) (reader.config_url page) r
              plain refl refl (rw (plain, other) at h)
      ]
    ]

  fetch_at-IsSettled :
      (n : ℕ) (url : Location) (page : Page)
      → fetch_swagger_document_at reader request n url ≡ ok page
      → IsSettled page
  unfolding fetch_swagger_document_at
  fetch_at-IsSettled zero url page h = absurd cc
  fetch_at-IsSettled (suc n) url page h =
      let next = fetch_swagger_document_at reader request n in
      let (found, requested, h1) = >>=-eq-ok (request url) (read_page reader request next url) h in
      read_page-IsSettled next (fetch_at-IsSettled n) url found requested h1

  or_on_host-IsSettled :
      (url : Location) (found : Result Page) (page : Page)
      → ((page : Page) → found ≡ ok page → IsSettled page)
      → or_on_host reader request url found ≡ ok page
      → IsSettled page
  unfolding or_on_host
  or_on_host-IsSettled url (ok found) page s h = s page h
  or_on_host-IsSettled url panic page s h = absurd cc
  or_on_host-IsSettled url (err e) page s h = elim (Bool-cases (is_local reader request url)) [
    | inl here ↦ fetch_at-IsSettled 4 (host_url reader request url) page (rw here at h)
    | inr there ↦ absurd (cc (rw there at h))
  ]

  fetch_parsed-IsSettled :
      (url : Option Location) (page : Page)
      → fetch_parsed reader request url ≡ ok page
      → IsSettled page
  unfolding fetch_parsed
  fetch_parsed-IsSettled none page h = absurd cc
  fetch_parsed-IsSettled (some url) page h =
      let (absolute, h1) = refusal_passed _ _ _ h in
      or_on_host-IsSettled url (fetch_swagger_document_at reader request 4 url) page
        (fetch_at-IsSettled 4 url) h1

  -- A search for a document that ends without an error ends at a page that some request returned, that
  -- is not HTML, and that is a Swagger or OpenAPI document or names no other URL.
  pub fetch_swagger_document-IsSettled :
      (raw : String) (page : Page)
      → fetch_swagger_document reader request raw ≡ ok page
      → IsSettled page
  unfolding fetch_swagger_document
  fetch_swagger_document-IsSettled raw page h =
      fetch_parsed-IsSettled (reader.parse (trim_space raw)) page h
