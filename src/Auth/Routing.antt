-- ===== src/Auth/Routing.antt =====
-- How internal/auth/auth.go routes the calls of the public authority to the backchannel, and the
-- endpoints of the backchannel to the public authority. net/url and http.RoundTripper are
-- parameters.
pub mod Laws
use Prim.Native.String.{String}
use package.text.Mathlib.Text.{◌==◌ as str_eq}
use permission_center_go.Common.{
  ℕ, Bool, true, false, not, ◌&&◌, ◌||◌, Option, none, some, if◌then◌else◌, Result, ok, err, panic,
  failure, ◌>>=◌,
}
use permission_center_go.Text.{
  is_blank, trim_space, has_prefix, trim_right_by, trim_prefix, is_slash, append,
}
use permission_center_go.Config.{Url, OidcConfig}

-- A url.URL: `rest` stands for its query and fragment.
pub record AuthorityUrl : Type 0 where
  pub scheme : String
  pub host : String
  pub user : String
  pub path : String
  pub raw_path : String
  pub rest : String

-- url.Parse, URL.String, URL.EscapedPath, url.PathUnescape and strings.EqualFold
pub record UrlLibrary : Type 0 where
  pub parse : String → Option AuthorityUrl
  pub print : AuthorityUrl → String
  pub escaped_path : AuthorityUrl → String
  pub path_unescape : String → Option String
  pub equal_fold : String → String → Bool

abbrev pub scheme_and_host : Option AuthorityUrl → Option Url
scheme_and_host none = none
scheme_and_host (some url) = some (record { scheme = url.scheme; host = url.host })

-- url.Parse, as far as the configuration looks at its result.
unfoldable pub parsed : UrlLibrary → String → Option Url
parsed urls raw = scheme_and_host (urls.parse raw)

unfoldable pub absolute_http : Option AuthorityUrl → Result AuthorityUrl
absolute_http none = err (failure "")
absolute_http (some url) =
    if is_blank url.scheme
      || is_blank url.host
      || (not (str_eq url.scheme "http") && not (str_eq url.scheme "https"))
    then err (failure "")
    else ok url

-- parseAuthority: the text of the error begins with the field's name.
unfoldable pub parse_authority : UrlLibrary → String → Result AuthorityUrl
parse_authority urls raw = absolute_http (urls.parse (trim_space raw))

-- The two authorities of a service; there may be no backchannel.
pub record Routing : Type 0 where
  pub public_authority : AuthorityUrl
  pub backchannel_authority : Option AuthorityUrl

-- newOIDCHTTPClient
unfoldable pub new_oidc_http_client : UrlLibrary → OidcConfig → Result Routing
new_oidc_http_client urls cfg = parse_authority urls cfg.authority >>= λ public.
    if is_blank (trim_space cfg.backchannel_authority)
    then ok (record { public_authority = public; backchannel_authority = none })
    else parse_authority urls cfg.backchannel_authority >>= λ backchannel.
        ok (record { public_authority = public; backchannel_authority = some backchannel })

-- sameAuthority, of URLs that are not nil
unfoldable pub same_authority : UrlLibrary → AuthorityUrl → AuthorityUrl → Bool
same_authority urls left right =
    urls.equal_fold left.scheme right.scheme && urls.equal_fold left.host right.host

-- The suffix behind a prefix that is trimmed of its slashes.
unfoldable pub suffix_after : String → String → Option String
suffix_after path prefix =
    if is_blank prefix
    then some path
    else if str_eq path prefix
    then some ""
    else if has_prefix path (append prefix "/")
    then some (trim_prefix path prefix)
    else none

-- authorityPathSuffix
unfoldable pub authority_path_suffix : String → String → Option String
authority_path_suffix path prefix = suffix_after path (trim_right_by is_slash prefix)

unfoldable pub join_after : String → String → String
join_after prefix suffix =
    if is_blank prefix
    then (if is_blank suffix
        then ""
        else if has_prefix suffix "/"
        then suffix
        else append "/" suffix)
    else if is_blank suffix
    then prefix
    else if has_prefix suffix "/"
    then append prefix suffix
    else append prefix (append "/" suffix)

-- joinAuthorityPath
unfoldable pub join_authority_path : String → String → String
join_authority_path prefix suffix = join_after (trim_right_by is_slash prefix) suffix

unfoldable pub with_path :
    AuthorityUrl → AuthorityUrl → String → Option String → Option AuthorityUrl
with_path endpoint to raw none = none
with_path endpoint to raw (some decoded) = some (record endpoint {
  scheme = to.scheme;
  host = to.host;
  user = to.user;
  path = decoded;
  raw_path = raw;
})

unfoldable pub rewritten_path :
    UrlLibrary → AuthorityUrl → AuthorityUrl → Option String → Option AuthorityUrl
rewritten_path urls endpoint to none = none
rewritten_path urls endpoint to (some suffix) =
    let raw = join_authority_path (urls.escaped_path to) suffix in
    with_path endpoint to raw (urls.path_unescape raw)

-- rewriteAuthority, of URLs that are not nil
unfoldable pub rewrite_authority :
    UrlLibrary → AuthorityUrl → AuthorityUrl → AuthorityUrl → Option AuthorityUrl
rewrite_authority urls endpoint from to =
    if not (same_authority urls endpoint from)
    then none
    else rewritten_path urls endpoint to
        (authority_path_suffix (urls.escaped_path endpoint) (urls.escaped_path from))

unfoldable pub rewritten_url :
    UrlLibrary → Option AuthorityUrl → AuthorityUrl → AuthorityUrl → Option AuthorityUrl
rewritten_url urls none from to = none
rewritten_url urls (some endpoint) from to = rewrite_authority urls endpoint from to

printed_or : UrlLibrary → String → Option AuthorityUrl → String
printed_or urls raw none = raw
printed_or urls raw (some url) = urls.print url

-- rewriteAuthorityURL, with what publicEndpoint returns where nothing is rewritten
unfoldable pub rewrite_authority_url : UrlLibrary → String → AuthorityUrl → AuthorityUrl → String
unfolding printed_or
rewrite_authority_url urls raw from to =
    printed_or urls raw (rewritten_url urls (urls.parse raw) from to)

endpoint_for : UrlLibrary → AuthorityUrl → Option AuthorityUrl → String → String
endpoint_for urls public none raw = raw
endpoint_for urls public (some backchannel) raw = rewrite_authority_url urls raw backchannel public

-- publicEndpoint
unfoldable pub public_endpoint : UrlLibrary → Routing → String → String
unfolding endpoint_for
public_endpoint urls routing raw =
    endpoint_for urls routing.public_authority routing.backchannel_authority raw

-- An outgoing http.Request: its URL and its Host.
pub record Outgoing : Type 0 where
  pub url : AuthorityUrl
  pub host : String

routed : UrlLibrary → AuthorityUrl → Outgoing → Option AuthorityUrl → Outgoing
routed urls public req none = req
routed urls public req (some target) = record {
  url = target;
  host =
      if not (is_blank req.host) && urls.equal_fold req.host public.host
      then target.host
      else req.host;
}

-- RoundTrip, as the request that the base transport is given
unfoldable pub round_trip : UrlLibrary → AuthorityUrl → AuthorityUrl → Outgoing → Outgoing
unfolding routed
round_trip urls public backchannel req =
    routed urls public req (rewrite_authority urls req.url public backchannel)
