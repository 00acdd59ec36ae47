-- ===== src/HttpClient.antt =====
-- porting/impl/http_client.cc: the HTTP client. The library cpp-httplib is a function from the
-- request to its result, `none` when it fails.
pub mod Parts
use xiaozhi_pc.Base.{
  ℕ, suc, ◌+◌, ◌-◌, Bool, true, false, ◌&&◌, Option, none, some, List, [], ◌∷◌, ◌++◌, ltb, ◌==◌,
  if◌then◌else◌, length, take, drop,
}
use xiaozhi_pc.Base.Text.{Bytes, codes, text_eq}
use xiaozhi_pc.Base.Dict.{Dict, lookup}

-- The text begins with the pattern.
unfoldable pub begins : Bytes → Bytes → Bool
begins [] s = true
begins (p ∷ ps) [] = false
begins (p ∷ ps) (c ∷ cs) = c == p && begins ps cs

-- `std::string::find(pattern)`: the first place where the pattern stands.
unfoldable pub find : Bytes → Bytes → Option ℕ
find p [] = if begins p [] then some 0 else none
find p (c ∷ cs) =
    let later = find p cs in
    if begins p (c ∷ cs) then some 0 else elim later [ none ↦ none | some i ↦ some (suc i) ]

-- `std::string::find(pattern, start)`, for a start inside the text or at its end
abbrev pub find_from : Bytes → ℕ → Bytes → Option ℕ
find_from p start s = elim (find p (drop start s)) [ none ↦ none | some i ↦ some (start + i) ]

pub record Url : Type 0 where
  pub protocol : Bytes
  pub host : Bytes
  pub path : Bytes

-- The first part of `Open`; `none` where it returns false.
unfoldable pub parse_url : Bytes → Option Url
parse_url url = elim (find (codes "://") url) [
  | none ↦ none
  | some protocol_end ↦
      let host_start = protocol_end + 3 in
      let protocol = take protocol_end url in
      elim (find_from (codes "/") host_start url) [
        | none ↦ some (record { protocol = protocol; host = drop host_start url; path = codes "/" })
        | some path_start ↦ some (record {
          protocol = protocol;
          host = take (path_start - host_start) (drop host_start url);
          path = drop path_start url;
        })
      ]
]

pub record Response : Type 0 where
  pub status : ℕ
  pub headers : Dict Bytes
  pub body : Bytes

-- What is handed to the library. The timeout is set on its client when it is positive.
pub record Request : Type 0 where
  pub ssl : Bool
  pub host : Bytes
  pub post : Bool
  pub path : Bytes
  pub headers : List (Bytes × Bytes)
  pub content : Bytes
  pub max_timeout : Option ℕ

pub record HttpClient : Type 0 where
  pub headers : List (Bytes × Bytes)
  pub result : Option Response
  pub timeout_ms : ℕ

-- `SetHeader`; `httplib::Headers` is a multimap.
unfoldable pub set_header : Bytes → Bytes → HttpClient → HttpClient
set_header key value h = record h { headers = h.headers ++ ((key, value) ∷ []) }

-- `SetTimeout`
unfoldable pub set_timeout : ℕ → HttpClient → HttpClient
set_timeout ms h = record h { timeout_ms = ms }

-- A `Get` carries no content.
unfoldable pub request_for : HttpClient → Bytes → Url → Bytes → Request
request_for h method url content =
    let post = text_eq method (codes "POST") in
    record {
      ssl = text_eq url.protocol (codes "https");
      host = url.host;
      post = post;
      path = url.path;
      headers = h.headers;
      content = if post then content else [];
      max_timeout = if ltb 0 h.timeout_ms then some h.timeout_ms else none;
    }

abbrev pub is_some {ℓ} : {A : Type ℓ} → Option A → Bool
is_some none = false
is_some (some a) = true

unfoldable pub open_url :
    (Request → Option Response) → Bytes → Bytes → Bytes → HttpClient → Bool × HttpClient
open_url library method url content h = elim (parse_url url) [
  | none ↦ (false, h)
  | some u ↦
      let result = library (request_for h method u content) in
      (is_some result, record h { result = result })
]

unfoldable pub get_status_code : HttpClient → ℕ
get_status_code h = elim h.result [ none ↦ 400 | some r ↦ r.status ]

unfoldable pub get_response_header : Bytes → HttpClient → Bytes
get_response_header key h = elim h.result [
  | none ↦ []
  | some r ↦ elim (lookup key r.headers) [ none ↦ [] | some v ↦ v ]
]

unfoldable pub get_body : HttpClient → Bytes
get_body h = elim h.result [ none ↦ [] | some r ↦ r.body ]

unfoldable pub get_body_length : HttpClient → ℕ
get_body_length h = elim h.result [ none ↦ 0 | some r ↦ length r.body ]

-- `Read`: what is copied to the buffer, and the count returned.
unfoldable pub read : ℕ → HttpClient → Bytes × ℕ
read buffer_size h = elim h.result [
  | none ↦ ([], 0)
  | some r ↦
      let size = if ltb buffer_size (length r.body) then buffer_size else length r.body in
      (take size r.body, size)
]
