-- ===== src/Generation/ResultRef.antt =====
-- `providerResultRefsEquivalent` of internal/biz/generation/provider_terminal.go. net/url and
-- `strings.EqualFold` belong to Go, and are parameters.
use ai_go.Common.{Bool, false, not, ◌&&◌, ◌||◌, Option, none, some, List, [], ◌∷◌, if◌then◌else◌}
use ai_go.Common.Text.{Text, codes, eq_text, is_empty}
use ai_go.Common.Case.{UnicodeCase, to_lower}

-- What `url.Parse` makes of a text: the fields and the methods of `*url.URL` that are used, the
-- query as its keys with their values.
pub record Url : Type 0 where
  pub scheme : Text
  pub has_user : Bool
  pub host : Text
  pub escaped_path : Text
  pub fragment : Text
  pub opaque_part : Text
  pub query : List (Text × List Text)

pub record NetUrl : Type 0 where
  pub parse : Text → Option Url
  pub encode : List (Text × List Text) → Text
  pub equal_fold : Text → Text → Bool

abbrev is_one_of : Text → List Text → Bool
is_one_of key [] = false
is_one_of key (k ∷ ks) = eq_text key k || is_one_of key ks

unfoldable pub is_rotating_result_query_key : UnicodeCase → Text → Bool
is_rotating_result_query_key u key = is_one_of (to_lower u key) (
    codes "signature"
    ∷ codes "sig"
    ∷ codes "expires"
    ∷ codes "expires_at"
    ∷ codes "expiration"
    ∷ codes "x-amz-algorithm"
    ∷ codes "x-amz-credential"
    ∷ codes "x-amz-date"
    ∷ codes "x-amz-expires"
    ∷ codes "x-amz-signedheaders"
    ∷ codes "x-amz-signature"
    ∷ codes "x-amz-security-token"
    ∷ [])

module _ (u : UnicodeCase) (net : NetUrl) where
  unfoldable pub without_rotating : List (Text × List Text) → List (Text × List Text)
  without_rotating [] = []
  without_rotating (entry ∷ entries) =
      let rest = without_rotating entries in
      if is_rotating_result_query_key u entry.0 then rest else entry ∷ rest

  unfoldable pub stable_result_query : Url → Text
  stable_result_query value = net.encode (without_rotating value.query)

  abbrev pub same_locator : Option Url → Option Url → Bool
  same_locator none r = false
  same_locator (some l) none = false
  same_locator (some l) (some r) =
      not (is_empty l.scheme)
      && not (is_empty r.scheme)
      && net.equal_fold l.scheme r.scheme
      && not l.has_user
      && not r.has_user
      && not (is_empty l.host)
      && not (is_empty r.host)
      && net.equal_fold l.host r.host
      && eq_text l.escaped_path r.escaped_path
      && eq_text l.fragment r.fragment
      && is_empty l.opaque_part
      && is_empty r.opaque_part
      && eq_text (stable_result_query l) (stable_result_query r)

  unfoldable pub provider_result_refs_equivalent : Text → Text → Bool
  provider_result_refs_equivalent left right =
      eq_text left right
      || (not (is_empty left)
          && not (is_empty right)
          && same_locator (net.parse left) (net.parse right))
